-- ===== src/Store/Entity/Elements.antt =====
-- store/entity.rs: what growing and filling a table do, on every branch.
use submilli_wasm.Base.{
  ℕ, zero, suc, ◌+◌, ◌-◌, ◌≤◌, ◌<◌, ◌≡◌, refl, ◌⊎◌, inl, inr, Option, none, some, Bool, true, false,
  List, ltb, length, get_elem?, set, resize, arith, length-resize, get_elem?-resize_old,
  get_elem?-resize_new, length-set, get_elem?-set_self, get_elem?-set_ne, Option-cases, if_cases,
  ltb→ge, le→leb, gt→leb, dec_lt, ◌∙◌,
}
use submilli_wasm.Word.{u64_max, checked_add, checked_add-some, checked_add_fits}
use submilli_wasm.Store.Entity.{
  TableEntity, limit_of, table_arch_max, grow_table_entity, size, fill_from, fill,
}

abbrev pub table_limit : {R : Type 0} → TableEntity R → ℕ
table_limit t = limit_of t.ty.maximum (table_arch_max t.ty)

module _ {R : Type 0} where
  -- `t'` is `t` with `delta` copies of `init` behind its elements.
  pub record TableGrew (t : TableEntity R) (delta : ℕ) (init : R) (t' : TableEntity R)
      : Type 0 where
    pub elements : size t' ≡ size t + delta
    pub within : size t' ≤ table_limit t
    pub same_type : t'.ty ≡ t.ty
    pub kept : (i : ℕ) → i < size t → get_elem? t'.elems i ≡ get_elem? t.elems i
    pub filled : (i : ℕ) → size t ≤ i → i < size t' → get_elem? t'.elems i ≡ some init

  pub data TableGrowResult (t : TableEntity R) (delta : ℕ) (init : R)
      : TableEntity R × Option ℕ → Type 0 where
    refused : TableGrowResult t delta init (t, none)
    grown :
        (t' : TableEntity R)
        → TableGrew t delta init t'
        → TableGrowResult t delta init (t', some (size t))

  resize-TableGrew :
      (t : TableEntity R) (delta n : ℕ) (init : R)
      → n ≡ size t + delta
      → n ≤ table_limit t
      → TableGrew t delta init (record t { elems = resize t.elems n init })
  unfolding size
  resize-TableGrew t delta n init e h =
      let len : length (resize t.elems n init) ≡ n = length-resize t.elems n init in
      record {
        elements = omega (arith, len);
        within = omega (arith, len);
        same_type = refl;
        kept = λ i lt. get_elem?-resize_old t.elems n init i (omega arith) lt;
        filled = λ i le lt. get_elem?-resize_new t.elems n init i le (omega (arith, len));
      }

  pub grow_table_entity-TableGrowResult :
      (try_reserve_exact : ℕ → ℕ → Bool) (t : TableEntity R) (delta : ℕ) (init : R)
      → TableGrowResult t delta init (grow_table_entity try_reserve_exact t delta init)
  unfolding grow_table_entity
  grow_table_entity-TableGrowResult try_reserve_exact t delta init =
      elim (Option-cases (checked_add (size t) delta)) [
        | inl e ↦ rw (e, grow_table_entity) refused
        | inr (new, e) ↦
            rw (e, grow_table_entity)
              (if_cases (TableGrowResult t delta init) (ltb (table_limit t) new) (λ _. refused)
                λ fits.
                  if_cases (TableGrowResult t delta init) _
                    (λ _. grown _ (
                      resize-TableGrew t delta new init (checked_add-some _ _ _ e).0
                        (ltb→ge _ _ fits)))
                    λ _. refused)
      ]

  length-fill_from :
      (n dst : ℕ) (val : R) (xs : List R) → length (fill_from n dst val xs) ≡ length xs
  unfolding fill_from
  length-fill_from zero dst val xs = refl
  length-fill_from (suc n) dst val xs =
      length-fill_from n (dst + 1) val (set xs dst val) ∙ length-set xs dst val

  fill_from_outside :
      (n dst : ℕ) (val : R) (xs : List R) (i : ℕ)
      → (i < dst) ⊎ (dst + n ≤ i)
      → get_elem? (fill_from n dst val xs) i ≡ get_elem? xs i
  unfolding fill_from
  fill_from_outside zero dst val xs i h = refl
  fill_from_outside (suc n) dst val xs i h =
      fill_from_outside n (dst + 1) val (set xs dst val) i (omega arith)
      ∙ get_elem?-set_ne xs dst i val (omega arith)

  fill_from_inside :
      (n dst : ℕ) (val : R) (xs : List R) (i : ℕ)
      → dst + n ≤ length xs
      → dst ≤ i
      → i < dst + n
      → get_elem? (fill_from n dst val xs) i ≡ some val
  unfolding fill_from
  fill_from_inside zero dst val xs i h le lt = absurd (omega arith)
  fill_from_inside (suc n) dst val xs i h le lt =
      let len : length (set xs dst val) ≡ length xs = length-set xs dst val in
      elim (dec_lt dst i) [
        | yes later ↦
            fill_from_inside n (dst + 1) val (set xs dst val) i (omega arith) (omega arith)
              (omega arith)
        | no first ↦
            let here : i ≡ dst = omega arith in
            rw here (
              fill_from_outside n (dst + 1) val (set xs dst val) dst (inl (omega arith))
              ∙ get_elem?-set_self xs dst val (omega arith))
      ]

  -- What `table.fill` promises of a range within bounds.
  pub record Filled (t : TableEntity R) (dst : ℕ) (val : R) (len : ℕ) (t' : TableEntity R)
      : Type 0 where
    pub same_size : size t' ≡ size t
    pub same_type : t'.ty ≡ t.ty
    pub inside : (i : ℕ) → dst ≤ i → i < dst + len → get_elem? t'.elems i ≡ some val
    pub outside : (i : ℕ) → (i < dst) ⊎ (dst + len ≤ i) → get_elem? t'.elems i ≡ get_elem? t.elems i

  -- A fill of a range within a table of at most `u64::MAX` elements succeeds: every slot of the
  -- range holds the value, every other slot, the size and the type are as before.
  pub fill_in_bounds :
      (t : TableEntity R) (dst : ℕ) (val : R) (len : ℕ)
      → dst + len ≤ size t
      → size t ≤ u64_max
      → Filled t dst val len (fill t dst val len).0 × ((fill t dst val len).1 ≡ true)
  unfolding fill
  fill_in_bounds t dst val len h small =
      let n : dst + len - dst ≡ len = omega arith in
      rw (checked_add_fits dst len (omega arith), fill, le→leb (dst + len) (size t) h, n)
        (unfold size in
          (
            record {
              same_size = length-fill_from len dst val t.elems;
              same_type = refl;
              inside = λ i le lt. fill_from_inside len dst val t.elems i h le lt;
              outside = λ i o. fill_from_outside len dst val t.elems i o;
            },
            refl,
          ))

  pub fill_out_of_bounds :
      (t : TableEntity R) (dst : ℕ) (val : R) (len : ℕ)
      → size t < dst + len
      → fill t dst val len ≡ (t, false)
  unfolding fill
  fill_out_of_bounds t dst val len h = elim (Option-cases (checked_add dst len)) [
    | inl e ↦ rw (e, fill)
    | inr (end, e) ↦
        let over : size t < end = omega (arith, checked_add-some _ _ _ e) in
        rw (e, fill, gt→leb end (size t) over)
  ]

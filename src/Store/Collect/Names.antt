-- ===== src/Store/Collect/Names.antt =====
-- store/gc_collect.rs: what the slots of a body refer to, described by their offsets and the bytes
-- there.
use submilli_wasm.Base.{
  ℕ, zero, suc, ◌+◌, ◌-◌, ◌≤◌, ◌<◌, ◌≡◌, ◌≢◌, ◌↔◌, ◌⊎◌, inl, inr, refl, sym, ap, ◌∙◌, Option, some,
  true, false, List, [], ◌∷◌, ◌++◌, get_elem?, take, drop, arith, Option-cases, Bool-cases, ◌==◌,
  ==_iff, subst, slice, take-take_le, ℕ_discrete,
}
use submilli_wasm.Base.Bytes.{from_le_bytes}
use submilli_wasm.Worklist.{Among, Among-append_left, Among-append_right, Among-append_cases}
use submilli_wasm.Error.{Result, ok, err, Error, Result-cases, ◌>>=◌}
use submilli_wasm.Word.{checked_add, checked_add-some}
use submilli_wasm.Exec.Value.{RefKind}
use submilli_wasm.Exec.Cell.{null_ref}
use submilli_wasm.Canon.Layout.{Slot, ArrayLayout, elem_at}
use submilli_wasm.Store.Gc.{AnyRefHandle, decode_anyref_handle}
use submilli_wasm.Store.Collect.{
  Reached, get_range, seed_handle, seed_slot, seed_fields, seed_elems,
}
use submilli_wasm.Store.Collect.Children.{on_top, seed_fields-IsPush, seed_elems-IsPush}

-- What a stored handle of a hierarchy refers to.
abbrev pub Refers : ℕ → RefKind → Reached → Type 0
Refers h RefKind.func q = ⊥
Refers h RefKind.any q =
    (h ≢ null_ref)
    × ((i : ℕ) × ((decode_anyref_handle h ≡ AnyRefHandle.slot i) × (q ≡ Reached.gc i)))
Refers h RefKind.extern q = (h ≢ null_ref) × (q ≡ Reached.extern h)
Refers h RefKind.exn q = (h ≢ null_ref) × (q ≡ Reached.exn h)

-- What a slot of a body refers to: the four bytes at its offset, lowest first, if it is a reference.
abbrev pub HeldAt : List ℕ → Slot → Reached → Type 0
HeldAt bytes (Slot.scalar offset kind) q = ⊥
HeldAt bytes (Slot.ref offset kind) q = Refers (from_le_bytes (slice bytes offset 4)) kind q

null_or :
    (h : ℕ)
    → ((h == null_ref) ≡ true) × (h ≡ null_ref) ⊎ (((h == null_ref) ≡ false) × (h ≢ null_ref))
null_or h = elim (ℕ_discrete h null_ref) [
  | yes e ↦ inl ((==_iff h null_ref).1 e, e)
  | no ne ↦ elim (Bool-cases (h == null_ref)) [
    | inl t ↦ absurd (ne ((==_iff h null_ref).0 t))
    | inr f ↦ inr (f, ne)
  ]
]

handle_cases :
    (d : AnyRefHandle)
    → ((v : ℕ) × (d ≡ AnyRefHandle.i31 v)) ⊎ ((i : ℕ) × (d ≡ AnyRefHandle.slot i))
handle_cases (AnyRefHandle.i31 v) = inl (v, refl)
handle_cases (AnyRefHandle.slot i) = inr (i, refl)

pub only : {x q : Reached} → Among q (x ∷ []) → q ≡ x
only (inl e) = e
only (inr a) = elim a [ ]

nothing : (h : ℕ) (k : RefKind) → (h == null_ref) ≡ true → seed_handle [] h k ≡ []
unfolding seed_handle
nothing h k t = rw (seed_handle, t) refl

not_null : (h : ℕ) (k : RefKind) (q : Reached) → h ≡ null_ref → Refers h k q → ⊥
not_null h RefKind.func q e r = r
not_null h RefKind.any q e r = r.0 e
not_null h RefKind.extern q e r = r.0 e
not_null h RefKind.exn q e r = r.0 e

no_slot : {v i : ℕ} (d : AnyRefHandle) → d ≡ AnyRefHandle.i31 v → d ≡ AnyRefHandle.slot i → ⊥
no_slot d e e' = cc

same_slot : {i j : ℕ} (d : AnyRefHandle) → d ≡ AnyRefHandle.slot i → d ≡ AnyRefHandle.slot j → i ≡ j
same_slot d e e' = cc

live_handle :
    (h : ℕ) (k : RefKind) (q : Reached)
    → (h == null_ref) ≡ false
    → h ≢ null_ref
    → Among q (seed_handle [] h k) ↔ Refers h k q
unfolding seed_handle
live_handle h RefKind.func q f ne = rw (seed_handle, f) (λ a. a, λ a. a)
live_handle h RefKind.extern q f ne = rw (seed_handle, f) (λ a. (ne, only a), λ r. inl r.1)
live_handle h RefKind.exn q f ne = rw (seed_handle, f) (λ a. (ne, only a), λ r. inl r.1)
live_handle h RefKind.any q f ne = elim (handle_cases (decode_anyref_handle h)) [
  | inl (v, e) ↦
      rw (seed_handle, f, e)
        (λ a. elim a [ ], λ r. absurd (no_slot (AnyRefHandle.i31 v) refl r.1.1.0))
  | inr (i, e) ↦
      rw (seed_handle, f, e)
        (
          λ a. (ne, (i, (refl, only a))),
          λ r. inl (r.1.1.1 ∙ ap Reached.gc (same_slot (AnyRefHandle.slot i) r.1.1.0 refl)),
        )
]

-- What is seeded for a handle is what it refers to.
pub seed_handle-Refers :
    (h : ℕ) (k : RefKind) (q : Reached) → Among q (seed_handle [] h k) ↔ Refers h k q
seed_handle-Refers h k q = elim (null_or h) [
  | inl (t, e) ↦ rw (nothing h k t) (λ a. elim a [ ], λ r. absurd (not_null h k q e r))
  | inr (f, ne) ↦ live_handle h k q f ne
]

abbrev pub Names : List Reached → (Reached → Type 0) → Type 0
Names cs P = (q : Reached) → Among q cs ↔ P q

in_range-slice :
    (bytes held : List ℕ) (start end : ℕ)
    → get_range bytes start end ≡ some held
    → held ≡ take (end - start) (drop start bytes)
in_range-slice bytes held start end h = ground arith

four_bytes :
    (bytes held : List ℕ) (start end : ℕ)
    → checked_add start 4 ≡ some end
    → get_range bytes start end ≡ some held
    → take 4 held ≡ slice bytes start 4
four_bytes bytes held start end sum at =
    let wide : end - start ≡ 4 = omega (arith, (checked_add-some start 4 end sum).0) in
    ap (take 4) (in_range-slice bytes held start end at ∙ ap (λ n. take n (drop start bytes)) wide)
    ∙ take-take_le 4 4 (drop start bytes) (omega arith)

pub same_ok : {x y : List Reached} → Path (Result (List Reached)) (ok x) (ok y) → x ≡ y
same_ok e = cc

pub err_ok : {e : Error} {y : List Reached} → Path (Result (List Reached)) (err e) (ok y) → ⊥
err_ok e = cc

seed_slot-Names :
    (slot : Slot) (bytes : List ℕ) (cs : List Reached)
    → seed_slot [] slot bytes ≡ ok cs
    → Names cs (HeldAt bytes slot)
unfolding seed_slot
seed_slot-Names (Slot.scalar offset kind) bytes cs e q =
    let none_named : [] ≡ cs = cc in subst (λ l. Among q l ↔ ⊥) none_named (λ a. a, λ a. a)
seed_slot-Names (Slot.ref offset kind) bytes cs e q = elim (Option-cases (checked_add offset 4)) [
  | inl over ↦ absurd (err_ok (rw (seed_slot, over) at e))
  | inr (end, sum) ↦ elim (Option-cases (get_range bytes offset end)) [
    | inl out ↦ absurd (err_ok (rw (seed_slot, sum, out) at e))
    | inr (held, at) ↦
        let made : seed_handle [] (from_le_bytes (take 4 held)) kind ≡ cs =
          same_ok (rw (seed_slot, sum, at) at e) in
        subst (λ l. Among q l ↔ Refers (from_le_bytes (slice bytes offset 4)) kind q) made
          (subst
            (λ b.
              Among q (seed_handle [] (from_le_bytes (take 4 held)) kind)
              ↔ Refers (from_le_bytes b) kind q)
            (four_bytes bytes held offset end sum at)
            (seed_handle-Refers (from_le_bytes (take 4 held)) kind q))
  ]
]

-- The slots that are read one after the other.
Names-append :
    (cs ds : List Reached) (P Q : Reached → Type 0)
    → Names cs P
    → Names ds Q
    → Names (ds ++ cs) (λ q. P q ⊎ Q q)
Names-append cs ds P Q n m q = (
  λ a. elim (Among-append_cases q ds cs a) [ inl b ↦ inr ((m q).0 b) | inr b ↦ inl ((n q).0 b) ],
  λ o. elim o [
    | inl p ↦ Among-append_right q ds cs ((n q).1 p)
    | inr p ↦ Among-append_left q ds cs ((m q).1 p)
  ],
)

pub Names-iff :
    (cs : List Reached) (P Q : Reached → Type 0)
    → ((q : Reached) → P q ↔ Q q)
    → Names cs P
    → Names cs Q
Names-iff cs P Q iff n q = (λ a. (iff q).0 ((n q).0 a), λ p. (n q).1 ((iff q).1 p))

-- Two pushes that have succeeded.
split_ok :
    (f g : List Reached → Result (List Reached)) (cs : List Reached)
    → ((work : List Reached) → g work ≡ on_top (g []) work)
    → f [] >>= g ≡ ok cs
    → (xs : List Reached) × ((ys : List Reached) × ((f [] ≡ ok xs)
          × ((g [] ≡ ok ys) × (cs ≡ ys ++ xs))))
split_ok f g cs push e = elim (Result-cases (f [])) [
  | inr (bad, fe) ↦ absurd (err_ok (rw fe at e))
  | inl (xs, fe) ↦ elim (Result-cases (g [])) [
    | inr (bad, ge) ↦ absurd (err_ok (sym (push xs ∙ ap (λ r. on_top r xs) ge) ∙ rw fe at e))
    | inl (ys, ge) ↦
        (xs, (ys, (fe, (ge, same_ok (sym (rw fe at e) ∙ (push xs ∙ ap (λ r. on_top r xs) ge))))))
  ]
]

same_slot_of : {s t : Slot} → Path (Option Slot) (some s) (some t) → s ≡ t
same_slot_of e = cc

abbrev pub AtField : List ℕ → List Slot → Reached → Type 0
AtField bytes slots q =
    (i : ℕ) × ((slot : Slot) × ((get_elem? slots i ≡ some slot) × HeldAt bytes slot q))

AtField-cons :
    (bytes : List ℕ) (slot : Slot) (slots : List Slot) (q : Reached)
    → (HeldAt bytes slot q ⊎ AtField bytes slots q) ↔ AtField bytes (slot ∷ slots) q
AtField-cons bytes slot slots q = (to, from)
  where
    to : HeldAt bytes slot q ⊎ AtField bytes slots q → AtField bytes (slot ∷ slots) q
    to (inl h) = (0, (slot, (refl, h)))
    to (inr (i, (s, (e, h)))) = (suc i, (s, (e, h)))

    from : AtField bytes (slot ∷ slots) q → HeldAt bytes slot q ⊎ AtField bytes slots q
    from (zero, (s, (e, h))) = inl (subst (λ t. HeldAt bytes t q) (same_slot_of (sym e)) h)
    from (suc i, (s, (e, h))) = inr (i, (s, (e, h)))

pub seed_fields-Names :
    (slots : List Slot) (bytes : List ℕ) (cs : List Reached)
    → seed_fields [] slots bytes ≡ ok cs
    → Names cs (AtField bytes slots)
unfolding seed_fields
seed_fields-Names [] bytes cs e =
    let none_named : [] ≡ cs = same_ok e in
    subst (λ l. Names l (AtField bytes [])) none_named (λ q. (λ a. elim a [ ], λ r. no_field q r))
  where
    no_field : (q : Reached) → AtField bytes [] q → ⊥
    no_field q (i, (s, (h, r))) = cc
seed_fields-Names (slot ∷ slots) bytes cs e =
    let (xs, (ys, (fe, (ge, same)))) =
      split_ok (λ w. seed_slot w slot bytes) (λ w. seed_fields w slots bytes) cs
        (seed_fields-IsPush slots bytes) e in
    subst (λ l. Names l (AtField bytes (slot ∷ slots))) (sym same)
      (Names-iff (ys ++ xs) _ _ (AtField-cons bytes slot slots) (
        Names-append xs ys _ _ (seed_slot-Names slot bytes xs fe)
          (seed_fields-Names slots bytes ys ge)))

-- Elements `i` to `i + n`.
abbrev pub AtElem : List ℕ → ArrayLayout → ℕ → ℕ → Reached → Type 0
AtElem bytes layout i n q = (j : ℕ) × ((i ≤ j) × ((j < i + n) × HeldAt bytes (elem_at layout j) q))

AtElem-suc :
    (bytes : List ℕ) (layout : ArrayLayout) (i n : ℕ) (q : Reached)
    → (HeldAt bytes (elem_at layout i) q ⊎ AtElem bytes layout (i + 1) n q)
      ↔ AtElem bytes layout i (suc n) q
AtElem-suc bytes layout i n q = (to, from)
  where
    to :
        HeldAt bytes (elem_at layout i) q ⊎ AtElem bytes layout (i + 1) n q
        → AtElem bytes layout i (suc n) q
    to (inl h) = (i, (omega arith, (omega arith, h)))
    to (inr (j, (low, (high, h)))) = (j, (omega arith, (omega arith, h)))

    from :
        AtElem bytes layout i (suc n) q
        → HeldAt bytes (elem_at layout i) q ⊎ AtElem bytes layout (i + 1) n q
    from (j, (low, (high, h))) = elim (ℕ_discrete j i) [
      | yes e ↦ inl (subst (λ k. HeldAt bytes (elem_at layout k) q) e h)
      | no ne ↦ inr (j, (omega arith, (omega arith, h)))
    ]

pub seed_elems-Names :
    (layout : ArrayLayout) (n i : ℕ) (bytes : List ℕ) (cs : List Reached)
    → seed_elems [] layout n i bytes ≡ ok cs
    → Names cs (AtElem bytes layout i n)
unfolding seed_elems
seed_elems-Names layout zero i bytes cs e =
    let none_named : [] ≡ cs = same_ok e in
    subst (λ l. Names l (AtElem bytes layout i 0)) none_named
      (λ q. (λ a. elim a [ ], λ r. no_elem q r))
  where
    no_elem : (q : Reached) → AtElem bytes layout i 0 q → ⊥
    no_elem q (j, (low, (high, r))) = omega arith
seed_elems-Names layout (suc n) i bytes cs e =
    let (xs, (ys, (fe, (ge, same)))) =
      split_ok (λ w. seed_slot w (elem_at layout i) bytes)
        (λ w. seed_elems w layout n (i + 1) bytes) cs (seed_elems-IsPush layout n (i + 1) bytes)
        e in
    subst (λ l. Names l (AtElem bytes layout i (suc n))) (sym same)
      (Names-iff (ys ++ xs) _ _ (AtElem-suc bytes layout i n) (
        Names-append xs ys _ _ (seed_slot-Names (elem_at layout i) bytes xs fe)
          (seed_elems-Names layout n (i + 1) bytes ys ge)))

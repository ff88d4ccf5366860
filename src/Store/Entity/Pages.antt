-- ===== src/Store/Entity/Pages.antt =====
-- store/entity.rs: what growing a memory does, on every branch.
use submilli_wasm.Base.{
  ℕ, ◌+◌, ◌-◌, ◌*◌, ◌≤◌, ◌<◌, ◌≡◌, refl, inl, inr, Option, none, some, Bool, false, ltb,
  if◌then◌else◌, length, get_elem?, resize, arith, length-resize, get_elem?-resize_old,
  get_elem?-resize_new, Option-cases, if_cases, ltb→ge, lt→ltb, subst, sym,
}
use submilli_wasm.Word.{u64_max, checked_add, checked_mul, checked_add-some, checked_mul-some}
use submilli_wasm.Store.Entity.{
  MemoryEntity, page_size, limit_of, memory_arch_max, size_pages, grow_memory_entity,
}

abbrev pub memory_limit : MemoryEntity → ℕ
memory_limit m = limit_of m.ty.maximum (memory_arch_max m.ty)

-- A memory holds whole pages, and no more of them than its limit.
pub record IsMemory (m : MemoryEntity) : Type 0 where
  pub whole : length m.bytes ≡ size_pages m * page_size
  pub bounded : size_pages m ≤ memory_limit m

-- `m'` is `m` with `delta` zeroed pages behind its bytes.
pub record Grew (m : MemoryEntity) (delta : ℕ) (m' : MemoryEntity) : Type 0 where
  pub pages : size_pages m' ≡ size_pages m + delta
  pub within : size_pages m' ≤ memory_limit m
  pub same_type : m'.ty ≡ m.ty
  pub addressable : length m'.bytes ≤ u64_max
  pub still_whole : length m'.bytes ≡ size_pages m' * page_size
  pub kept : (i : ℕ) → i < length m.bytes → get_elem? m'.bytes i ≡ get_elem? m.bytes i
  pub zeroed : (i : ℕ) → length m.bytes ≤ i → i < length m'.bytes → get_elem? m'.bytes i ≡ some 0

module _ (try_reserve_exact : ℕ → ℕ → Bool) where
  -- `grow` either returns `none` and changes nothing, or returns the old page count and grows.
  pub data GrowResult (m : MemoryEntity) (delta : ℕ) : MemoryEntity × Option ℕ → Type 0 where
    refused : GrowResult m delta (m, none)
    grown : (m' : MemoryEntity) → Grew m delta m' → GrowResult m delta (m', some (size_pages m))

  pub resize-Grew :
      (m : MemoryEntity) (delta n : ℕ)
      → length m.bytes ≡ size_pages m * page_size
      → size_pages m + delta ≤ memory_limit m
      → n ≡ (size_pages m + delta) * page_size
      → n ≤ u64_max
      → Grew m delta (record m { bytes = resize m.bytes n 0 })
  unfolding size_pages
  resize-Grew m delta n w h e small =
      let len : length (resize m.bytes n 0) ≡ n = length-resize m.bytes n 0 in
      record {
        pages = omega (arith, len);
        within = omega (arith, len);
        same_type = refl;
        addressable = omega (arith, len);
        still_whole = omega (arith, len);
        kept = λ i lt. get_elem?-resize_old m.bytes n 0 i (omega arith) lt;
        zeroed = λ i le lt. get_elem?-resize_new m.bytes n 0 i le (omega (arith, len));
      }

  pub grow_memory_entity-GrowResult :
      (m : MemoryEntity) (delta : ℕ)
      → IsMemory m
      → GrowResult m delta (grow_memory_entity try_reserve_exact m delta)
  unfolding grow_memory_entity
  grow_memory_entity-GrowResult m delta w = elim (Option-cases (checked_add (size_pages m) delta)) [
    | inl e ↦ rw (e, grow_memory_entity) refused
    | inr (new, e) ↦
        rw (e, grow_memory_entity)
          (if_cases (GrowResult m delta) (ltb (memory_limit m) new) (λ _. refused)
            λ fits. room m delta new (checked_add-some _ _ _ e).0 w fits)
  ]
    where
      room :
          (m : MemoryEntity) (delta new : ℕ)
          → new ≡ size_pages m + delta
          → IsMemory m
          → ltb (memory_limit m) new ≡ false
          → GrowResult m delta (elim (checked_mul new page_size) [
            | none ↦ (m, none)
            | some n ↦
                if try_reserve_exact (length m.bytes) (n - length m.bytes)
                then (record m { bytes = resize m.bytes n 0 }, some (size_pages m))
                else (m, none)
          ])
      room m delta new is_new w fits = elim (Option-cases (checked_mul new page_size)) [
        | inl f ↦ rw f refused
        | inr (n, f) ↦ rw f (
            if_cases (GrowResult m delta) _
              (λ _. grown _ (
                resize-Grew m delta n w.whole (omega (arith, ltb→ge _ _ fits))
                  (omega (arith, checked_mul-some _ _ _ f)) (checked_mul-some _ _ _ f).1))
              λ _. refused)
      ]

  -- Past the limit nothing changes.
  pub grow_memory_entity_refuses :
      (m : MemoryEntity) (delta : ℕ)
      → memory_limit m < size_pages m + delta
      → grow_memory_entity try_reserve_exact m delta ≡ (m, none)
  unfolding grow_memory_entity
  grow_memory_entity_refuses m delta h = elim (Option-cases (checked_add (size_pages m) delta)) [
    | inl e ↦ rw (e, grow_memory_entity)
    | inr (new, e) ↦
        let over : memory_limit m < new = omega (arith, checked_add-some _ _ _ e) in
        rw (e, grow_memory_entity, lt→ltb (memory_limit m) new over)
  ]

pub Grew-IsMemory : {m m' : MemoryEntity} {delta : ℕ} → Grew m delta m' → IsMemory m'
Grew-IsMemory {m} {m'} g = record {
  whole = g.still_whole;
  bounded =
      subst (λ t. size_pages m' ≤ limit_of t.maximum (memory_arch_max t)) (sym g.same_type)
        g.within;
}

-- ===== src/Store/Reclaim/Allocation.antt =====
-- store/reclaim.rs: the order of an arena, and allocation in it.
use submilli_wasm.Base.{
  ℕ, zero, suc, ◌-◌, ◌%◌, ◌^◌, ◌≤◌, ◌<◌, ◌≡◌, ◌≢◌, ◌⊎◌, inl, inr, refl, sym, ap, ◌∙◌, Option, none,
  some, List, [], ◌∷◌, ◌++◌, length, get_elem?, set, arith, lt→ltb, length-set, length-append,
  get_elem?-set_self, get_elem?-set_ne, get_elem?-append_left, get_elem?-append_at, dec_lt,
  ℕ_discrete, subst,
}
use submilli_wasm.Error.{ok}
use submilli_wasm.Store.Reclaim.{ReclaimArena, alloc, entry, generation}

abbrev pub Listed : ℕ → List ℕ → Type 0
Listed i [] = ⊥
Listed i (x ∷ xs) = (i ≡ x) ⊎ Listed i xs

abbrev pub Distinct : List ℕ → Type 0
Distinct [] = Unit {0}
Distinct (x ∷ xs) = (Listed x xs → ⊥) × Distinct xs

list_cases : (xs : List ℕ) → (xs ≡ []) ⊎ ((x : ℕ) × ((rest : List ℕ) × (xs ≡ x ∷ rest)))
list_cases [] = inl refl
list_cases (x ∷ rest) = inr (x, (rest, refl))

module _ {E : Type 0} where
  -- The free list has every freed slot once, and no other index.
  pub record IsArena (a : ReclaimArena E) : Type 0 where
    pub parallel : length a.slots ≡ length a.generations
    pub addressable : length a.slots ≤ 2 ^ 32
    pub freed : (i : ℕ) → Listed i a.free → get_elem? a.slots i ≡ some none
    pub reusable : (i : ℕ) → get_elem? a.slots i ≡ some none → Listed i a.free
    pub distinct : Distinct a.free

  pub in_range :
      (xs : List (Option E)) (i : ℕ) (o : Option E) → get_elem? xs i ≡ some o → i < length xs
  in_range [] i o h = ground arith
  in_range (x ∷ xs) zero o h = omega arith
  in_range (x ∷ xs) (suc i) o h = omega (arith, in_range xs i o h)

  -- `entry` as a function of the slot found.
  abbrev pub flat : Option (Option E) → Option E
  flat none = none
  flat (some o) = o

  pub filled : {e : E} → Path (Option (Option E)) (some (some e)) (some none) → ⊥
  filled h = ground arith

  not_one : (e : E) (i : ℕ) → get_elem? (some e ∷ []) i ≡ some none → ⊥
  not_one e zero h = filled h
  not_one e (suc i) h = ground arith

  past : (xs : List (Option E)) (i : ℕ) → length xs ≤ i → get_elem? xs i ≡ none
  past [] i h = refl
  past (x ∷ xs) zero h = absurd (omega arith)
  past (x ∷ xs) (suc i) h = past xs i (omega arith)

  -- What an allocation leaves: the entry under an index that was free, and everything else as it was.
  pub record Allocated (e : E) (a a' : ReclaimArena E) (index : ℕ) : Type 0 where
    pub was_free : entry a index ≡ none
    pub placed : entry a' index ≡ some e
    pub others : (j : ℕ) → j ≢ index → entry a' j ≡ entry a j
    pub same_generations : (j : ℕ) → j < length a.generations → generation a' j ≡ generation a j
    pub still_arena : IsArena a'

  reused :
      (e : E) (a : ReclaimArena E) (index : ℕ) (rest : List ℕ)
      → IsArena a
      → a.free ≡ index ∷ rest
      → Allocated e a (record a { slots = set a.slots index (some e); free = rest }) index
  unfolding entry generation
  reused e a index rest r here =
      let listed : Listed index a.free = subst (Listed index) (sym here) (inl refl) in
      let empty : get_elem? a.slots index ≡ some none = r.freed index listed in
      let lt : index < length a.slots = in_range a.slots index none empty in
      let alone : Distinct (index ∷ rest) = subst Distinct here r.distinct in
      record {
        was_free = rw (entry, empty) refl;
        placed = rw (entry, get_elem?-set_self a.slots index (some e) lt) refl;
        others = λ j ne. ap flat (get_elem?-set_ne a.slots index j (some e) (λ k. ne (sym k)));
        same_generations = λ j lt. refl;
        still_arena = record {
          parallel = length-set a.slots index (some e) ∙ r.parallel;
          addressable = omega (arith, r.addressable, length-set a.slots index (some e));
          freed = λ i l.
              let apart : index ≢ i = λ q. alone.0 (subst (λ k. Listed k rest) (sym q) l) in
              get_elem?-set_ne a.slots index i (some e) apart
              ∙ r.freed i (subst (Listed i) (sym here) (inr l));
          reusable = λ i h. elim (ℕ_discrete index i) [
            | yes q ↦ absurd (
                filled (
                  sym (get_elem?-set_self a.slots index (some e) lt)
                  ∙ subst (λ k. get_elem? (set a.slots index (some e)) k ≡ some none) (sym q) h))
            | no ne ↦
                elim (subst (Listed i) here
                  (r.reusable i (sym (get_elem?-set_ne a.slots index i (some e) ne) ∙ h))) [
                    | inl q ↦ absurd (ne (sym q))
                    | inr l ↦ l
                  ]
          ];
          distinct = alone.1;
        };
      }

  appended :
      (e : E) (a : ReclaimArena E)
      → IsArena a
      → a.free ≡ []
      → length a.slots < 2 ^ 32
      → Allocated e a
          (record a { slots = a.slots ++ some e ∷ []; generations = a.generations ++ 0 ∷ [] })
          (length a.slots)
  unfolding entry generation
  appended e a r here small = record {
    was_free = rw (entry, past a.slots (length a.slots) (omega arith)) refl;
    placed =
        rw (entry, get_elem?-append_at a.slots (some e ∷ []) (length a.slots) 0 (omega arith)) refl;
    others = λ j ne. elim (dec_lt j (length a.slots)) [
      | yes lt ↦ ap flat (get_elem?-append_left a.slots (some e ∷ []) j lt)
      | no ge ↦ ap flat (
          past (a.slots ++ some e ∷ []) j (omega (arith, length-append a.slots (some e ∷ [])))
          ∙ sym (past a.slots j (omega arith)))
    ];
    same_generations = λ j lt. get_elem?-append_left a.generations (0 ∷ []) j lt;
    still_arena = record {
      parallel = omega (
        arith,
        r.parallel,
        length-append a.slots (some e ∷ []),
        length-append a.generations (0 ∷ []),
      );
      addressable = omega (arith, length-append a.slots (some e ∷ []));
      freed = λ i l. absurd (subst (Listed i) here l);
      reusable = λ i h. elim (dec_lt i (length a.slots)) [
        | yes lt ↦ r.reusable i (sym (get_elem?-append_left a.slots (some e ∷ []) i lt) ∙ h)
        | no ge ↦
            let at : get_elem? (some e ∷ []) (i - length a.slots) ≡ some none =
              sym (get_elem?-append_at a.slots (some e ∷ []) i (i - length a.slots) (omega arith))
              ∙ h in
            absurd (not_one e (i - length a.slots) at)
      ];
      distinct = r.distinct;
    };
  }

  -- On an arena in order with fewer than `2 ^ 32` slots `alloc` returns an index that held no
  -- entry, under which the new entry stands; every other entry and every old generation is as it
  -- was, and the arena is in order again.
  pub alloc-Allocated :
      (e : E) (a : ReclaimArena E)
      → IsArena a
      → length a.slots < 2 ^ 32
      → (index : ℕ) × ((a' : ReclaimArena E) × ((alloc e a ≡ (ok index, a'))
            × Allocated e a a' index))
  unfolding alloc
  alloc-Allocated e a r small = elim (list_cases a.free) [
    | inl here ↦
        let low : length a.slots % 2 ^ 32 ≡ length a.slots = omega arith in
        (length a.slots, (_, (rw (alloc, here, low) (rw here refl), appended e a r here small)))
    | inr (index, (rest, here)) ↦
        let empty : get_elem? a.slots index ≡ some none =
          r.freed index (subst (Listed index) (sym here) (inl refl)) in
        let lt : index < length a.slots = in_range a.slots index none empty in
        (
          index,
          (
            _,
            (rw (alloc, here, lt→ltb index (length a.slots) lt) refl, reused e a index rest r here),
          ),
        )
  ]

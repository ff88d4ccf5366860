-- ===== src/Store/Reclaim/Sweep.antt =====
-- store/reclaim.rs: the rounds of `sweep`.
use submilli_wasm.Base.{
  ℕ, zero, suc, ◌+◌, ◌%◌, ◌^◌, ◌≤◌, ◌<◌, ◌≡◌, ◌≢◌, ◌⊎◌, inl, inr, refl, sym, ap, ◌∙◌, none, some,
  Bool, true, false, ◌∷◌, length, get_elem?, set, arith, length-set, get_elem?-set_self,
  get_elem?-set_ne, get_elem?-some, ℕ_discrete, Option-cases, Bool-cases, subst,
}
use submilli_wasm.Error.{ok}
use submilli_wasm.State.{then_run-ok}
use submilli_wasm.Word.{u32_max}
use submilli_wasm.Store.Reclaim.{
  ReclaimArena, next_generation, entry, generation, sweep_slot, sweep_from, sweep,
}
use submilli_wasm.Store.Reclaim.Allocation.{IsArena, in_range, filled, flat}

-- A freed slot's generation is never the one it had.
pub next_generation-changes : (g : ℕ) → g < u32_max → next_generation g ≢ g
unfolding next_generation
next_generation-changes g h = ground arith

module _ {E : Type 0} (live : ℕ → Bool) (byte_of : E → ℕ) where
  -- A round leaves the arena in order; slot `i` keeps its entry exactly if it is marked.
  pub record Round (i : ℕ) (a a' : ReclaimArena E) : Type 0 where
    pub still_arena : IsArena a'
    pub same_length : length a'.slots ≡ length a.slots
    pub kept : live i ≡ true → entry a' i ≡ entry a i
    pub gone : live i ≡ false → entry a' i ≡ none
    pub others : (j : ℕ) → j ≢ i → entry a' j ≡ entry a j
    pub other_generations : (j : ℕ) → j ≢ i → generation a' j ≡ generation a j

  freed-Round :
      (i : ℕ) (e : E) (g : ℕ) (a : ReclaimArena E)
      → IsArena a
      → live i ≡ false
      → get_elem? a.slots i ≡ some (some e)
      → Round i a (record {
        slots = set a.slots i none;
        generations = set a.generations i (next_generation g);
        free = i ∷ a.free;
      })
  unfolding entry generation
  freed-Round i e g a r dead held =
      let lt : i < length a.slots = in_range a.slots i (some e) held in
      record {
        still_arena = record {
          parallel =
              length-set a.slots i none
              ∙ (r.parallel ∙ sym (length-set a.generations i (next_generation g)));
          addressable = omega (arith, r.addressable, length-set a.slots i none);
          freed = λ j l. elim l [
            | inl q ↦
                subst (λ k. get_elem? (set a.slots i none) k ≡ some none) (sym q)
                  (get_elem?-set_self a.slots i none lt)
            | inr m ↦
                let apart : i ≢ j = λ q.
                  filled (
                    sym held
                    ∙ subst (λ k. get_elem? a.slots k ≡ some none) (sym q) (r.freed j m)) in
                get_elem?-set_ne a.slots i j none apart ∙ r.freed j m
          ];
          reusable = λ j h. elim (ℕ_discrete i j) [
            | yes q ↦ inl (sym q)
            | no ne ↦ inr (r.reusable j (sym (get_elem?-set_ne a.slots i j none ne) ∙ h))
          ];
          distinct = ((λ l. filled (sym held ∙ r.freed i l)), r.distinct);
        };
        same_length = length-set a.slots i none;
        kept = λ l. ground arith;
        gone = λ _. rw (entry, get_elem?-set_self a.slots i none lt) refl;
        others = λ j ne. ap flat (get_elem?-set_ne a.slots i j none (λ q. ne (sym q)));
        other_generations =
            λ j ne. get_elem?-set_ne a.generations i j (next_generation g) (λ q. ne (sym q));
      }

  same-Round :
      (i : ℕ) (a : ReclaimArena E) → IsArena a → (live i ≡ false → entry a i ≡ none) → Round i a a
  same-Round i a r gone = record {
    still_arena = r;
    same_length = refl;
    kept = λ _. refl;
    gone = gone;
    others = λ j ne. refl;
    other_generations = λ j ne. refl;
  }

  freed_step :
      (i : ℕ) (e : E) (g : ℕ) (a : ReclaimArena E)
      → entry a i ≡ some e
      → i % 2 ^ 32 ≡ i
      → live i ≡ false
      → get_elem? a.generations i ≡ some g
      → sweep_slot live byte_of i a ≡ (
        ok (byte_of e),
        record {
          slots = set a.slots i none;
          generations = set a.generations i (next_generation g);
          free = i ∷ a.free;
        },
      )
  unfolding sweep_slot
  freed_step i e g a there low dead at = rw (sweep_slot, there, low, dead, at, low) refl

  pub sweep_slot-Round :
      (i : ℕ) (a : ReclaimArena E)
      → IsArena a
      → i < length a.slots
      → (b : ℕ) × ((a' : ReclaimArena E) × ((sweep_slot live byte_of i a ≡ (ok b, a'))
            × Round i a a'))
  unfolding sweep_slot entry
  sweep_slot-Round i a r lt =
      let low : i % 2 ^ 32 ≡ i = omega (arith, r.addressable) in
      let (slot, held) = get_elem?-some a.slots i lt in
      let (g, at) = get_elem?-some a.generations i (omega (arith, r.parallel)) in
      elim (Option-cases slot) [
        | inl q ↦
            let nothing : entry a i ≡ none = rw (entry, held, q) refl in
            (0, (a, (rw (sweep_slot, nothing) refl, same-Round i a r (λ _. nothing))))
        | inr (e, q) ↦
            let there : entry a i ≡ some e = rw (entry, held, q) refl in
            elim (Bool-cases (live i)) [
              | inl l ↦ (
                0,
                (a, (rw (sweep_slot, there, low, l) refl, same-Round i a r (λ k. ground arith))),
              )
              | inr l ↦ (
                byte_of e,
                (
                  _,
                  (freed_step i e g a there low l at, freed-Round i e g a r l (held ∙ ap some q)),
                ),
              )
            ]
      ]

  -- The rounds from `i` on, `n` of them.
  pub record Rounds (i n : ℕ) (a a' : ReclaimArena E) : Type 0 where
    pub still_arena : IsArena a'
    pub kept : (j : ℕ) → live j ≡ true → entry a' j ≡ entry a j
    pub gone : (j : ℕ) → live j ≡ false → i ≤ j → j < i + n → entry a' j ≡ none
    pub others : (j : ℕ) → (j < i) ⊎ (i + n ≤ j) → entry a' j ≡ entry a j

  sweep_from-Rounds :
      (n i freed : ℕ) (a : ReclaimArena E)
      → IsArena a
      → i + n ≤ length a.slots
      → (b : ℕ) × ((a' : ReclaimArena E) × ((sweep_from live byte_of n i freed a ≡ (ok b, a'))
            × Rounds i n a a'))
  unfolding sweep_from
  sweep_from-Rounds zero i freed a r le = (
    freed,
    (
      a,
      (
        refl,
        record {
          still_arena = r;
          kept = λ j l. refl;
          gone = λ j l low high. absurd (omega arith);
          others = λ j o. refl;
        },
      ),
    ),
  )
  sweep_from-Rounds (suc n) i freed a r le =
      let (b, (a1, (e, first))) = sweep_slot-Round i a r (omega arith) in
      let (c, (a2, (e', rest))) =
        sweep_from-Rounds n (i + 1) ((freed + b) % 2 ^ 64) a1 first.still_arena
          (omega (arith, first.same_length)) in
      (
        c,
        (
          a2,
          (
            rw (sweep_from, e, then_run-ok) e',
            record {
              still_arena = rest.still_arena;
              kept = λ j l. rest.kept j l ∙ elim (ℕ_discrete j i) [
                | yes q ↦
                    subst (λ k. entry a1 k ≡ entry a k) (sym q)
                      (first.kept (subst (λ k. live k ≡ true) q l))
                | no ne ↦ first.others j ne
              ];
              gone = λ j l low high. elim (ℕ_discrete j i) [
                | yes q ↦
                    rest.others j (inl (omega arith))
                    ∙ subst (λ k. entry a1 k ≡ none) (sym q)
                        (first.gone (subst (λ k. live k ≡ false) q l))
                | no ne ↦ rest.gone j l (omega arith) (omega arith)
              ];
              others = λ j o. rest.others j (omega arith) ∙ first.others j (omega arith);
            },
          ),
        ),
      )

  -- On an arena in order `sweep` does not panic and leaves the arena in order: the free list has
  -- every freed slot once and no other index; every marked entry is as it was, and every slot that
  -- is not marked is empty.
  pub sweep_lem :
      (a : ReclaimArena E)
      → IsArena a
      → (b : ℕ) × ((a' : ReclaimArena E) × ((sweep live byte_of a ≡ (ok b, a'))
            × Rounds 0 (length a.slots) a a'))
  unfolding sweep
  sweep_lem a r = sweep_from-Rounds (length a.slots) 0 0 a r (omega arith)

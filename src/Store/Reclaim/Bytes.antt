-- ===== src/Store/Reclaim/Bytes.antt =====
-- store/reclaim.rs: the bytes that `sweep` reports.
use submilli_wasm.Base.{
  ℕ, zero, suc, ◌+◌, ◌%◌, ◌^◌, ◌<◌, ◌≡◌, inl, inr, ap, ◌∙◌, Option, none, some, Bool, List, [], ◌∷◌,
  length, get_elem?, set, arith, Option-cases, Bool-cases, subst,
}
use submilli_wasm.Error.{Result, ok, err}
use submilli_wasm.State.{then_run}
use submilli_wasm.Store.Reclaim.{ReclaimArena, entry, sweep_slot, sweep_from, sweep}

module _ {E : Type 0} (byte_of : E → ℕ) where
  abbrev pub held : Option E → ℕ
  held none = 0
  held (some e) = byte_of e

  -- The bytes of the live entries.
  abbrev pub total : List (Option E) → ℕ
  total [] = 0
  total (o ∷ xs) = held o + total xs

  pub total-set :
      (xs : List (Option E)) (i : ℕ) (o p : Option E)
      → get_elem? xs i ≡ some o
      → total (set xs i p) + held o ≡ total xs + held p
  total-set [] i o p h = cc
  total-set (x ∷ xs) zero o p h =
      let e : x ≡ o = cc in
      subst (λ y. held p + total xs + held y ≡ held x + total xs + held p) e (omega arith)
  total-set (x ∷ xs) (suc i) o p h = omega (arith, total-set xs i o p h)

  module _ (live : ℕ → Bool) where
    -- What a step that has not failed reports is what it takes off the arena.
    unfoldable pub Accounts : ReclaimArena E → Result ℕ × ReclaimArena E → Type 0
    Accounts a (ok b, a') = b + total a'.slots ≡ total a.slots
    Accounts a (err e, a') = Unit {0}

    pub sweep_slot-Accounts :
        (i : ℕ) (a : ReclaimArena E) → Accounts a (sweep_slot live byte_of i a)
    unfolding sweep_slot Accounts entry
    sweep_slot-Accounts i a = elim (Option-cases (get_elem? a.slots i)) [
      | inl gone ↦ rw (sweep_slot, entry, gone) (omega arith)
      | inr (o, there) ↦ elim (Option-cases o) [
        | inl empty ↦ rw (sweep_slot, entry, there, empty) (omega arith)
        | inr (e, full) ↦ elim (Bool-cases (live (i % 2 ^ 32))) [
          | inl kept ↦ rw (sweep_slot, entry, there, full, kept) (omega arith)
          | inr dead ↦ elim (Option-cases (get_elem? a.generations i)) [
            | inl bad ↦ rw (sweep_slot, entry, there, full, dead, bad) tt
            | inr (g, at) ↦
                rw (sweep_slot, entry, there, full, dead, at)
                  (omega (arith, total-set a.slots i (some e) none (there ∙ ap some full)))
          ]
        ]
      ]
    ]

    -- So do the rounds, while the sum is a `usize`.
    sweep_from-Accounts :
        (n i freed : ℕ) (a a' : ReclaimArena E) (b : ℕ)
        → freed + total a.slots < 2 ^ 64
        → sweep_from live byte_of n i freed a ≡ (ok b, a')
        → b + total a'.slots ≡ freed + total a.slots
    unfolding sweep_from then_run Accounts
    sweep_from-Accounts zero i freed a a' b small h =
        let same : a ≡ a' = cc in
        let bytes : freed ≡ b = cc in omega (arith, ap (λ (x : ReclaimArena E). total x.slots) same)
    sweep_from-Accounts (suc n) i freed a a' b small h =
        go (sweep_slot live byte_of i a) (sweep_slot-Accounts i a) h
          (λ c a1. sweep_from-Accounts n (i + 1) ((freed + c) % 2 ^ 64) a1 a' b)
      where
        go :
            (q : Result ℕ × ReclaimArena E)
            → Accounts a q
            → then_run (λ here. sweep_from live byte_of n (i + 1) ((freed + here) % 2 ^ 64)) q
              ≡ (ok b, a')
            → ((c : ℕ) (a1 : ReclaimArena E)
                → (freed + c) % 2 ^ 64 + total a1.slots < 2 ^ 64
                → sweep_from live byte_of n (i + 1) ((freed + c) % 2 ^ 64) a1 ≡ (ok b, a')
                → b + total a'.slots ≡ (freed + c) % 2 ^ 64 + total a1.slots)
            → b + total a'.slots ≡ freed + total a.slots
        go (ok c, a1) acc h next =
            let low : (freed + c) % 2 ^ 64 ≡ freed + c = omega arith in
            omega (arith, next c a1 (omega arith) h)
        go (err e, a1) acc h next = absurd (cc)

    -- The bytes that `sweep` reports and those of the entries that are left make up those of the
    -- entries that were there, if these fit a `usize`.
    pub sweep-total :
        (a a' : ReclaimArena E) (b : ℕ)
        → total a.slots < 2 ^ 64
        → sweep live byte_of a ≡ (ok b, a')
        → b + total a'.slots ≡ total a.slots
    unfolding sweep
    sweep-total a a' b small h =
        omega (arith, sweep_from-Accounts (length a.slots) 0 0 a a' b (omega arith) h)

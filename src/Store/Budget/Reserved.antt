-- ===== src/Store/Budget/Reserved.antt =====
-- store/grow.rs and exec/collect.rs: what a reservation that succeeds has secured.
use submilli_wasm.Base.{
  ℕ, ◌+◌, ◌-◌, ◌%◌, ◌^◌, ◌≤◌, ◌<◌, ◌≡◌, inl, inr, refl, Option, none, some, Bool, true, false,
  arith, leb, leb→le, gt→leb, Bool-cases,
}
use submilli_wasm.Error.{Result, ok, err, Error}
use submilli_wasm.State.{then_run}
use submilli_wasm.Word.{u64_max, checked_add, saturating_add}
use submilli_wasm.Store.Limits.{ResourceLimiter, LimiterInner, sync, async}
use submilli_wasm.Store.Gc.{
  GcHeap, abort_safety_cap, fits, is_free_grant, desired_reservation, grant,
}
use submilli_wasm.Store.Budget.{
  GcStore, grant_reservation, consult_with, reservation_allowed, decide, grow_gc_reservation,
  grow_for,
}

not_fits :
    (h : GcHeap) (charge : ℕ)
    → h.used + charge ≤ u64_max
    → fits h charge ≡ false
    → h.reserved < desired_reservation h charge
unfolding fits desired_reservation checked_add saturating_add
not_fits h charge small full = ground arith

fits_desired :
    (h : GcHeap) (charge : ℕ)
    → h.used + charge ≤ u64_max
    → (target : ℕ) → target ≡ desired_reservation h charge
    → fits (grant target h).0 charge ≡ true
unfolding fits grant desired_reservation checked_add saturating_add
fits_desired h charge small target e = ground arith

desired_grows :
    (h : GcHeap) (charge : ℕ) → h.reserved ≤ u64_max → h.reserved ≤ desired_reservation h charge
unfolding desired_reservation saturating_add
desired_grows h charge small = ground arith

said : {b : Bool} → Path (Result Bool) (ok b) (ok true) → b ≡ true
said e = cc

module _ {T : Type 0} where
  -- Who let the reservation grow: the free budget, the limiter, or with none the abort cap.
  pub data Authorized (s : GcStore T) (target : ℕ) : Type 0 where
    within_reservation : target ≤ s.inner.heap.reservation → Authorized s target
    by_limiter :
        (l : ResourceLimiter T)
        → s.limiter ≡ some (sync l)
        → (l.memory_growing s.inner.heap.reserved target none s.host).0 ≡ ok true
        → Authorized s target
    below_cap : s.limiter ≡ none → target ≤ abort_safety_cap → Authorized s target

  -- A growth that let `charge` bytes in: the collected side is as it was, the reservation grew to
  -- `target` with consent, and the engine's count grew by as much.
  pub record Secured (charge : ℕ) (s s' : GcStore T) : Type 0 where
    pub room : fits s'.inner.heap charge ≡ true
    pub same : s'.inner ≡ record s.inner {
      heap = record s.inner.heap {
        reserved = s'.inner.heap.reserved;
        next_grow = s'.inner.heap.next_grow;
      };
    }
    pub grown : s.inner.heap.reserved ≤ s'.inner.heap.reserved
    pub counted :
        s'.committed ≡ (s.committed + (s'.inner.heap.reserved - s.inner.heap.reserved)) % 2 ^ 64
    pub authorized : Authorized s s'.inner.heap.reserved

  granted-Secured :
      (charge : ℕ) (s : GcStore T)
      → s.inner.heap.used + charge ≤ u64_max
      → s.inner.heap.reserved ≤ u64_max
      → Authorized s (desired_reservation s.inner.heap charge)
      → Secured charge s (grant_reservation (desired_reservation s.inner.heap charge) s)
  unfolding grant_reservation grant
  granted-Secured charge s small low who = record {
    room = fits_desired s.inner.heap charge small (desired_reservation s.inner.heap charge) refl;
    same = refl;
    grown = desired_grows s.inner.heap charge low;
    counted = refl;
    authorized = who;
  }

  -- How a growth ends: `charge` bytes are let in, or an error leaves all but the limiter's host as
  -- it was.
  pub data Growth (charge : ℕ) (s : GcStore T) : Result (Unit {0}) × GcStore T → Type 0 where
    secured : (s' : GcStore T) → Secured charge s s' → Growth charge s (ok tt, s')
    denied : (e : Error) (host : T) → Growth charge s (err e, record s { host = host })

  module _ (charge : ℕ) (s : GcStore T) (small : s.inner.heap.used + charge ≤ u64_max)
      (low : s.inner.heap.reserved ≤ u64_max) (full : fits s.inner.heap charge ≡ false) where
    abbrev target : ℕ
    target = desired_reservation s.inner.heap charge

    decided :
        (answer : Result Bool) (host : T)
        → (answer ≡ ok true → Authorized s target)
        → Growth charge s (then_run (decide target charge) (answer, record s { host = host }))
    unfolding decide then_run grant_reservation grant
    decided (err e) host who = Growth.denied e host
    decided (ok false) host who = Growth.denied _ host
    decided (ok true) host who = Growth.secured _ (record {
      room = fits_desired s.inner.heap charge small target refl;
      same = refl;
      grown = desired_grows s.inner.heap charge low;
      counted = refl;
      authorized = who refl;
    })

    -- After the limiter's answer.
    after_answer :
        (o : Option (LimiterInner T))
        → s.limiter ≡ o
        → Growth charge s
            (then_run (decide target charge) (consult_with o s.inner.heap.reserved target s))
    after_answer none nobody =
        decided (ok (leb target abort_safety_cap)) s.host
          (λ e. Authorized.below_cap nobody (leb→le target abort_safety_cap (said e)))
    after_answer (some (sync l)) there =
        decided (l.memory_growing s.inner.heap.reserved target none s.host).0
          (l.memory_growing s.inner.heap.reserved target none s.host).1
          (λ e. Authorized.by_limiter l there e)
    after_answer (some (async l)) there = decided (err _) s.host (λ e. absurd (cc))

    consulted :
        Growth charge s
          (then_run (decide target charge) (reservation_allowed s.inner.heap.reserved target s))
    unfolding reservation_allowed
    consulted = after_answer s.limiter refl

    -- For an allocation that does not fit, and whose size added to `used` is a `usize`, the growth
    -- either lets it in, with the consent of the free budget, of the limiter or, with none, of the
    -- abort cap, or fails and changes nothing but the limiter's own state.
    pub grow_for-Growth : Growth charge s (grow_for charge s)
    unfolding grow_for grow_gc_reservation is_free_grant
    grow_for-Growth = elim (Bool-cases (leb target s.inner.heap.reservation)) [
      | inl free ↦
          rw (grow_for, free)
            (Growth.secured _ (
              granted-Secured charge s small low
                (Authorized.within_reservation (leb→le target s.inner.heap.reservation free))))
      | inr beyond ↦
          let more : leb target s.inner.heap.reserved ≡ false =
            gt→leb target s.inner.heap.reserved (not_fits s.inner.heap charge small full) in
          rw (grow_for, beyond, more) consulted
    ]

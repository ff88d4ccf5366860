-- ===== src/Worklist.antt =====
-- A worklist trace: `run` takes the top of the work and hands it to a step, which may put more on
-- top, until no work is left. `Tracing` says what a step promises; from it `run` ends, and what it
-- has seen is what the roots reach.
use submilli_wasm.Base.{
  ℕ, zero, suc, ◌+◌, ◌≤◌, ◌<◌, ◌≡◌, refl, sym, ap, subst, ◌⊎◌, inl, inr, ◌↔◌, Bool, true, false,
  List, [], ◌∷◌, ◌++◌, Option, none, some, arith, if◌then◌else◌, Bool-cases, length, length-append,
}
use submilli_wasm.Error.{Result, ok, err, Error, Result-cases}

abbrev pub Among : {A : Type 0} → A → List A → Type 0
Among x [] = ⊥
Among x (y ∷ ys) = (x ≡ y) ⊎ Among x ys

module _ {A : Type 0} where
  pub Among-append_left : (x : A) (ys zs : List A) → Among x ys → Among x (ys ++ zs)
  Among-append_left x [] zs a = elim a [ ]
  Among-append_left x (y ∷ ys) zs (inl e) = inl e
  Among-append_left x (y ∷ ys) zs (inr a) = inr (Among-append_left x ys zs a)

  pub Among-append_right : (x : A) (ys zs : List A) → Among x zs → Among x (ys ++ zs)
  Among-append_right x [] zs a = a
  Among-append_right x (y ∷ ys) zs a = inr (Among-append_right x ys zs a)

  pub Among-append_cases : (x : A) (ys zs : List A) → Among x (ys ++ zs) → Among x ys ⊎ Among x zs
  Among-append_cases x [] zs a = inr a
  Among-append_cases x (y ∷ ys) zs (inl e) = inl (inl e)
  Among-append_cases x (y ∷ ys) zs (inr a) = elim (Among-append_cases x ys zs a) [
    | inl b ↦ inl (inr b)
    | inr b ↦ inr b
  ]

module _ {N T : Type 0} where
  -- The next round, after a step that has not failed.
  unfoldable pub next_round :
      (List N → T → Option (Result (Unit {0}) × T))
      → Result (List N) × T
      → Option (Result (Unit {0}) × T)
  next_round rest (ok more, t) = rest more t
  next_round rest (err e, t) = some (err e, t)

  -- `while let Some(r) = work.pop()`; `none` if the fuel runs out. An error ends the loop.
  unfoldable pub run :
      (N → List N → T → Result (List N) × T) → ℕ → List N → T → Option (Result (Unit {0}) × T)
  run step zero work t = none
  run step (suc fuel) [] t = some (ok tt, t)
  run step (suc fuel) (r ∷ work) t = next_round (run step fuel) (step r work t)

  pub run_goes_on :
      (step : N → List N → T → Result (List N) × T) (fuel : ℕ) (r : N) (work more : List N)
      (t t' : T)
      → step r work t ≡ (ok more, t')
      → run step (suc fuel) (r ∷ work) t ≡ run step fuel more t'
  unfolding run next_round
  run_goes_on step fuel r work more t t' e = ap (next_round (run step fuel)) e

  pub run_stops :
      (step : N → List N → T → Result (List N) × T) (fuel : ℕ) (r : N) (work : List N) (t t' : T)
      (e : Error)
      → step r work t ≡ (err e, t')
      → run step (suc fuel) (r ∷ work) t ≡ some (err e, t')
  unfolding run next_round
  run_stops step fuel r work t t' e h = ap (next_round (run step fuel)) h

module _ {N : Type 0} where
  -- What the roots reach through the nodes that each node names.
  pub data Reachable (children : N → Result (List N)) (roots : List N) : N → Type 0 where
    root : {r : N} → Among r roots → Reachable children roots r
    child :
        {r c : N} (cs : List N)
        → Reachable children roots r
        → children r ≡ ok cs
        → Among c cs
        → Reachable children roots c

  -- The children, over a finite universe, of the nodes that are not seen yet.
  abbrev pub left_over : (N → Bool) → (N → Result (List N)) → List N → ℕ
  left_over seen children [] = 0
  left_over seen children (u ∷ us) =
      (if seen u then 0 else elim (children u) [ ok cs ↦ length cs | err e ↦ 0 ])
      + left_over seen children us

  -- `r` is newly seen, and nothing else.
  pub record Newly (seen seen' : N → Bool) (r : N) : Type 0 where
    pub now : seen' r ≡ true
    pub only : (q : N) → seen' q ≡ true → (seen q ≡ true) ⊎ (q ≡ r)
    pub still : (q : N) → seen q ≡ true → seen' q ≡ true

module _ {N T : Type 0} where
  pub record Tracing (Valid : T → Type 0) (seen : T → N → Bool)
      (step : N → List N → T → Result (List N) × T) (children : N → Result (List N))
      (universe : List N) : Type 0 where
    pub again :
        (r : N) (work : List N) (t : T) → Valid t → seen t r ≡ true → step r work t ≡ (ok work, t)
    pub fresh :
        (r : N) (work : List N) (t : T) (cs : List N)
        → Valid t
        → seen t r ≡ false
        → children r ≡ ok cs
        → (t' : T) × ((step r work t ≡ (ok (cs ++ work), t'))
            × (Valid t' × Newly (seen t) (seen t') r))
    pub corrupt :
        (r : N) (work : List N) (t : T) (e : Error)
        → Valid t
        → seen t r ≡ false
        → children r ≡ err e
        → (t' : T) × ((step r work t ≡ (err e, t')) × Valid t')
    pub known : (r : N) (cs : List N) → children r ≡ ok cs → Among r universe

module _ {N T : Type 0} {Valid : T → Type 0} {seen : T → N → Bool}
    {step : N → List N → T → Result (List N) × T} {children : N → Result (List N)}
    {universe : List N} (law : Tracing Valid seen step children universe) (roots : List N) where
  pub left_over-le :
      (us : List N) (f g : N → Bool)
      → ((q : N) → f q ≡ true → g q ≡ true)
      → left_over g children us ≤ left_over f children us
  left_over-le [] f g h = omega arith
  left_over-le (u ∷ us) f g h = elim (Bool-cases (f u)) [
    | inl seen_now ↦
        let after : g u ≡ true = h u seen_now in
        rw (seen_now, after) (omega (arith, left_over-le us f g h))
    | inr unseen ↦ elim (Bool-cases (g u)) [
      | inl after ↦ rw (after, unseen) (omega (arith, left_over-le us f g h))
      | inr after ↦ rw (after, unseen) (omega (arith, left_over-le us f g h))
    ]
  ]

  -- Seeing a node for the first time takes its children off what is left over.
  left_over-Newly :
      (us : List N) (f g : N → Bool) (r : N) (cs : List N)
      → Newly f g r
      → f r ≡ false
      → children r ≡ ok cs
      → Among r us
      → left_over g children us + length cs ≤ left_over f children us
  left_over-Newly [] f g r cs new unseen has a = elim a [ ]
  left_over-Newly (u ∷ us) f g r cs new unseen has (inl e) =
      let here : f u ≡ false = subst (λ q. f q ≡ false) e unseen in
      let now : g u ≡ true = subst (λ q. g q ≡ true) e new.now in
      let has' : children u ≡ ok cs = subst (λ q. children q ≡ ok cs) e has in
      rw (here, now, has') (omega (arith, left_over-le us f g new.still))
  left_over-Newly (u ∷ us) f g r cs new unseen has (inr a) = elim (Bool-cases (f u)) [
    | inl seen_now ↦
        let after : g u ≡ true = new.still u seen_now in
        rw (seen_now, after) (omega (arith, left_over-Newly us f g r cs new unseen has a))
    | inr not_yet ↦ elim (Bool-cases (g u)) [
      | inl after ↦
          rw (after, not_yet) (omega (arith, left_over-Newly us f g r cs new unseen has a))
      | inr after ↦
          rw (after, not_yet) (omega (arith, left_over-Newly us f g r cs new unseen has a))
    ]
  ]

  -- What holds before each round: the trace has seen reachable nodes only, and all that they and
  -- the roots name is seen or waiting.
  pub record Partial (work : List N) (t : T) : Type 0 where
    pub valid : Valid t
    pub work_reachable : (q : N) → Among q work → Reachable children roots q
    pub seen_reachable : (q : N) → seen t q ≡ true → Reachable children roots q
    pub roots_covered : (q : N) → Among q roots → (seen t q ≡ true) ⊎ Among q work
    pub children_covered :
        (q : N)
        → seen t q ≡ true
        → (cs : List N) × ((children q ≡ ok cs)
            × ((c : N) → Among c cs → (seen t c ≡ true) ⊎ Among c work))

  moved :
      (r : N) (work : List N) (t : T) (q : N)
      → seen t r ≡ true
      → (seen t q ≡ true) ⊎ Among q (r ∷ work)
      → (seen t q ≡ true) ⊎ Among q work
  moved r work t q h (inl a) = inl a
  moved r work t q h (inr (inl e)) = inl (subst (λ x. seen t x ≡ true) (sym e) h)
  moved r work t q h (inr (inr a)) = inr a

  again-Partial :
      (r : N) (work : List N) (t : T) → seen t r ≡ true → Partial (r ∷ work) t → Partial work t
  again-Partial r work t h p = record {
    valid = p.valid;
    work_reachable = λ q a. p.work_reachable q (inr a);
    seen_reachable = p.seen_reachable;
    roots_covered = λ q a. moved r work t q h (p.roots_covered q a);
    children_covered = λ q s.
        let (cs, (has, all)) = p.children_covered q s in
        (cs, (has, λ c a. moved r work t c h (all c a)));
  }

  carried :
      (r : N) (work cs : List N) (t t' : T) (q : N)
      → Newly (seen t) (seen t') r
      → (seen t q ≡ true) ⊎ Among q (r ∷ work)
      → (seen t' q ≡ true) ⊎ Among q (cs ++ work)
  carried r work cs t t' q new (inl a) = inl (new.still q a)
  carried r work cs t t' q new (inr (inl e)) = inl (subst (λ x. seen t' x ≡ true) (sym e) new.now)
  carried r work cs t t' q new (inr (inr a)) = inr (Among-append_right q cs work a)

  fresh-Partial :
      (r : N) (work cs : List N) (t t' : T)
      → children r ≡ ok cs
      → Valid t'
      → Newly (seen t) (seen t') r
      → Partial (r ∷ work) t
      → Partial (cs ++ work) t'
  fresh-Partial r work cs t t' has v new p =
      let here : Reachable children roots r = p.work_reachable r (inl refl) in
      record {
        valid = v;
        work_reachable = λ q a. elim (Among-append_cases q cs work a) [
          | inl b ↦ Reachable.child cs here has b
          | inr b ↦ p.work_reachable q (inr b)
        ];
        seen_reachable = λ q s. elim (new.only q s) [
          | inl old ↦ p.seen_reachable q old
          | inr e ↦ subst (Reachable children roots) (sym e) here
        ];
        roots_covered = λ q a. carried r work cs t t' q new (p.roots_covered q a);
        children_covered = λ q s. elim (new.only q s) [
          | inl old ↦
              let (ds, (has', all)) = p.children_covered q old in
              (ds, (has', λ c a. carried r work cs t t' c new (all c a)))
          | inr e ↦ (
            cs,
            (
              subst (λ x. children x ≡ ok cs) (sym e) has,
              λ c a. inr (Among-append_left c cs work a),
            ),
          )
        ];
      }

  -- At the end: everything reachable was seen.
  complete : (t : T) → Partial [] t → (q : N) → Reachable children roots q → seen t q ≡ true
  complete t p q (Reachable.root a) = elim (p.roots_covered q a) [ inl s ↦ s | inr b ↦ elim b [ ] ]
  complete t p q (Reachable.child {r} cs before has a) =
      let (ds, (has', all)) = p.children_covered r (complete t p r before) in
      let e : ds ≡ cs = cc in
      elim (all q (subst (Among q) (sym e) a)) [ inl s ↦ s | inr b ↦ elim b [ ] ]

  -- How a trace ends: with exactly the reachable nodes seen, none of them corrupt, or at a reachable node that is corrupt.
  pub data Traced (o : Option (Result (Unit {0}) × T)) : Type 0 where
    whole :
        (t : T)
        → o ≡ some (ok tt, t)
        → Valid t
        → ((q : N) → (seen t q ≡ true) ↔ Reachable children roots q)
        → ((q : N) → Reachable children roots q → (cs : List N) × (children q ≡ ok cs))
        → Traced o
    stopped :
        (t : T) (e : Error) (q : N)
        → o ≡ some (err e, t)
        → Valid t
        → Reachable children roots q
        → children q ≡ err e
        → Traced o

  run-Traced :
      (fuel : ℕ) (work : List N) (t : T)
      → length work + left_over (seen t) children universe < fuel
      → Partial work t
      → Traced (run step fuel work t)
  unfolding run
  run-Traced zero work t h p = absurd (omega arith)
  run-Traced (suc fuel) [] t h p =
      Traced.whole t refl p.valid (λ q. (p.seen_reachable q, complete t p q))
        (λ q r. let (cs, (has, all)) = p.children_covered q (complete t p q r) in (cs, has))
  run-Traced (suc fuel) (r ∷ work) t h p = elim (Bool-cases (seen t r)) [
    | inl old ↦
        subst Traced (sym (run_goes_on step fuel r work work t t (law.again r work t p.valid old)))
          (run-Traced fuel work t (omega arith) (again-Partial r work t old p))
    | inr new ↦ elim (Result-cases (children r)) [
      | inl (cs, has) ↦
          let (t', (e, (v, n))) = law.fresh r work t cs p.valid new has in
          subst Traced (sym (run_goes_on step fuel r work (cs ++ work) t t' e)) (
            run-Traced fuel (cs ++ work) t'
              (omega (
                arith,
                length-append cs work,
                left_over-Newly universe (seen t) (seen t') r cs n new has (law.known r cs has),
              ))
              (fresh-Partial r work cs t t' has v n p))
      | inr (e, has) ↦
          let (t', (eq, v)) = law.corrupt r work t e p.valid new has in
          Traced.stopped t' e r (run_stops step fuel r work t t' e eq) v
            (p.work_reachable r (inl refl)) has
    ]
  ]

  -- A trace from nothing seen, with fuel for the roots and every child of the universe, ends.
  pub run_lem :
      (fuel : ℕ) (t : T)
      → Valid t
      → ((q : N) → seen t q ≡ false)
      → length roots + left_over (seen t) children universe < fuel
      → Traced (run step fuel roots t)
  run_lem fuel t v nothing h =
      let unseen : (q : N) → seen t q ≡ true → ⊥ = λ q s. cc (nothing q) in
      run-Traced fuel roots t h (record {
        valid = v;
        work_reachable = λ q a. Reachable.root a;
        seen_reachable = λ q s. absurd (unseen q s);
        roots_covered = λ q a. inr a;
        children_covered = λ q s. absurd (unseen q s);
      })

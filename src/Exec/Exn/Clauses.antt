-- ===== src/Exec/Exn/Clauses.antt =====
-- exec/exn.rs: which clause of a handler table catches an exception, described by the positions of
-- spans and clauses, and that `find_clause` finds it.
use submilli_wasm.Base.{
  ℕ, zero, suc, ◌≤◌, ◌<◌, ◌≡◌, ◌≢◌, ◌⊎◌, inl, inr, refl, sym, ap, ◌∙◌, Option, none, some, true,
  false, List, [], ◌∷◌, get_elem?, ◌==◌, ==_iff, Bool-cases, Option-cases, leb, ltb, ◌&&◌, arith,
  subst,
}
use submilli_wasm.Error.{ok}
use submilli_wasm.Exec.Execution.{HandlerRec, HandlerSpan}
use submilli_wasm.Exec.Exn.{clause_matches, first_clause, find_clause}

-- No element has the property, and the first element that has it.
abbrev pub NoneOf : {A : Type 0} → (A → Type 0) → List A → Type 0
NoneOf {A} P xs = (i : ℕ) (x : A) → get_elem? xs i ≡ some x → P x → ⊥

abbrev pub First : {A : Type 0} → (A → Type 0) → List A → A → Type 0
First {A} P xs x =
    (i : ℕ) × ((get_elem? xs i ≡ some x)
      × (P x × ((j : ℕ) (y : A) → j < i → get_elem? xs j ≡ some y → P y → ⊥)))

abbrev pub Sought : {A : Type 0} → (A → Type 0) → List A → Option A → Type 0
Sought P xs none = NoneOf P xs
Sought P xs (some x) = First P xs x

module _ {A : Type 0} (P : A → Type 0) where
  same_element : {x y : A} → Path (Option A) (some x) (some y) → x ≡ y
  same_element e = cc

  First-here : (x : A) (xs : List A) → P x → First P (x ∷ xs) x
  First-here x xs p = (0, (refl, (p, λ j y lt e q. absurd (omega arith))))

  Sought-there :
      (x : A) (xs : List A) (o : Option A) → (P x → ⊥) → Sought P xs o → Sought P (x ∷ xs) o
  Sought-there x xs none fails rest = λ i y e p. past i y e p
    where
      past : (i : ℕ) (y : A) → get_elem? (x ∷ xs) i ≡ some y → P y → ⊥
      past zero y e p = fails (subst P (sym (same_element e)) p)
      past (suc i) y e p = rest i y e p
  Sought-there x xs (some z) fails (i, (e, (p, before))) =
      (suc i, (e, (p, λ j y lt q r. past j y lt q r)))
    where
      past : (j : ℕ) (y : A) → j < suc i → get_elem? (x ∷ xs) j ≡ some y → P y → ⊥
      past zero y lt q r = fails (subst P (sym (same_element q)) r)
      past (suc j) y lt q r = before j y (omega arith) q r

module _ (tags_of : List (List ℕ)) (instance_of thrown : ℕ) where
  -- A clause without a tag, or whose tag is the thrown one in the frame's instance.
  abbrev pub Matches : HandlerRec → Type 0
  Matches rec =
      (rec.tag ≡ none)
      ⊎ ((idx : ℕ) × ((tags : List ℕ) × ((rec.tag ≡ some idx)
              × ((get_elem? tags_of instance_of ≡ some tags)
                  × (get_elem? tags idx ≡ some thrown)))))

  -- A clause whose tag, if it has one, the frame's instance has.
  abbrev pub Linked : HandlerRec → Type 0
  Linked rec =
      (idx : ℕ)
      → rec.tag ≡ some idx
      → (tags : List ℕ) × ((tag : ℕ) × ((get_elem? tags_of instance_of ≡ some tags)
            × (get_elem? tags idx ≡ some tag)))

  abbrev pub AllLinked : List HandlerRec → Type 0
  AllLinked recs = (i : ℕ) (rec : HandlerRec) → get_elem? recs i ≡ some rec → Linked rec

  -- A span with the instruction in it, which has a clause that matches.
  abbrev pub Guards : ℕ → HandlerSpan → Type 0
  Guards ip span =
      (span.start_ip ≤ ip)
      × ((ip < span.end_ip)
          × ((i : ℕ) × ((rec : HandlerRec) × ((get_elem? span.clauses i ≡ some rec)
                  × Matches rec))))

  -- The clause that catches at an instruction: the first that matches, of the first span that guards
  -- the instruction.
  abbrev pub Catches : ℕ → List HandlerSpan → HandlerRec → Type 0
  Catches ip spans rec =
      (span : HandlerSpan) × (First (Guards ip) spans span × First Matches span.clauses rec)

  abbrev pub Passes : ℕ → List HandlerSpan → Type 0
  Passes ip spans = NoneOf (Guards ip) spans

  abbrev pub CaughtBy : ℕ → List HandlerSpan → Option HandlerRec → Type 0
  CaughtBy ip spans none = Passes ip spans
  CaughtBy ip spans (some rec) = Catches ip spans rec

  no_match :
      (rec : HandlerRec) (tags : List ℕ) (idx tag : ℕ)
      → rec.tag ≡ some idx
      → get_elem? tags_of instance_of ≡ some tags
      → get_elem? tags idx ≡ some tag
      → tag ≢ thrown
      → Matches rec
      → ⊥
  no_match rec tags idx tag r t g ne (inl e) = cc
  no_match rec tags idx tag r t g ne (inr (idx', (tags', (r', (t', g'))))) =
      let i : Path (Option ℕ) (some idx) (some idx') = sym r ∙ r' in
      let j : Path (Option (List ℕ)) (some tags) (some tags') = sym t ∙ t' in ne (cc (i, j, g, g'))

  tagged :
      (rec : HandlerRec) (tags : List ℕ) (idx tag : ℕ)
      → rec.tag ≡ some idx
      → get_elem? tags_of instance_of ≡ some tags
      → get_elem? tags idx ≡ some tag
      → clause_matches (get_elem? tags_of instance_of) thrown rec.tag ≡ ok (tag == thrown)
  unfolding clause_matches
  tagged rec tags idx tag r t g = rw (r, t, clause_matches, g) refl

  untagged :
      (rec : HandlerRec)
      → rec.tag ≡ none
      → clause_matches (get_elem? tags_of instance_of) thrown rec.tag ≡ ok true
  unfolding clause_matches
  untagged rec e = rw e refl

  -- The test of a clause tells whether it matches.
  tested :
      (rec : HandlerRec)
      → Linked rec
      → ((clause_matches (get_elem? tags_of instance_of) thrown rec.tag ≡ ok true) × Matches rec)
        ⊎ ((clause_matches (get_elem? tags_of instance_of) thrown rec.tag ≡ ok false)
            × (Matches rec → ⊥))
  tested rec l = elim (Option-cases rec.tag) [
    | inl e ↦ inl (untagged rec e, inl e)
    | inr (idx, e) ↦
        let (tags, (tag, (t, g))) = l idx e in
        let run = tagged rec tags idx tag e t g in
        elim (Bool-cases (tag == thrown)) [
          | inl b ↦
              let same : tag ≡ thrown = (==_iff tag thrown).0 b in
              inl (run ∙ ap ok b, inr (idx, (tags, (e, (t, g ∙ ap some same)))))
          | inr b ↦
              let apart : tag ≢ thrown = λ q. cc (b, (==_iff tag thrown).1 q) in
              inr (run ∙ ap ok b, no_match rec tags idx tag e t g apart)
        ]
  ]

  first_clause_lem :
      (recs : List HandlerRec)
      → AllLinked recs
      → (o : Option HandlerRec) × ((first_clause (get_elem? tags_of instance_of) thrown recs ≡ ok o)
          × Sought Matches recs o)
  unfolding first_clause
  first_clause_lem [] l = (none, (refl, λ i x e p. cc))
  first_clause_lem (rec ∷ recs) l = elim (tested rec (l 0 rec refl)) [
    | inl (run, yes_it) ↦
        (some rec, (rw (first_clause, run) refl, First-here Matches rec recs yes_it))
    | inr (run, no_it) ↦
        let (o, (rest, spec)) = first_clause_lem recs (λ i r e. l (suc i) r e) in
        (o, (rw (first_clause, run) rest, Sought-there Matches rec recs o no_it spec))
  ]

  abbrev pub AllSpans : List HandlerSpan → Type 0
  AllSpans spans =
      (i : ℕ) (span : HandlerSpan) → get_elem? spans i ≡ some span → AllLinked span.clauses

  covered :
      (ip : ℕ) (span : HandlerSpan)
      → (((leb span.start_ip ip && ltb ip span.end_ip) ≡ true)
          × ((span.start_ip ≤ ip) × (ip < span.end_ip)))
        ⊎ (((leb span.start_ip ip && ltb ip span.end_ip) ≡ false)
            × (((span.start_ip ≤ ip) × (ip < span.end_ip)) → ⊥))
  covered ip span = elim (Bool-cases (leb span.start_ip ip && ltb ip span.end_ip)) [
    | inl e ↦ inl (e, ground arith)
    | inr e ↦ inr (e, λ (low, high). ground arith)
  ]

  go_past :
      (ip : ℕ) (span : HandlerSpan) (spans : List HandlerSpan) (o : Option HandlerRec)
      → (Guards ip span → ⊥)
      → CaughtBy ip spans o
      → CaughtBy ip (span ∷ spans) o
  go_past ip span spans none fails rest = Sought-there (Guards ip) span spans none fails rest
  go_past ip span spans (some rec) fails (sp, (first, inside)) =
      (sp, (Sought-there (Guards ip) span spans (some sp) fails first, inside))

  -- The outcome of the search from a span on.
  abbrev pub Search : ℕ → List HandlerSpan → Type 0
  Search ip spans =
      (o : Option HandlerRec) × ((find_clause (get_elem? tags_of instance_of) thrown ip spans
          ≡ ok o)
        × CaughtBy ip spans o)

  in_span :
      (ip : ℕ) (span : HandlerSpan) (spans : List HandlerSpan) (o : Option HandlerRec)
      → (leb span.start_ip ip && ltb ip span.end_ip) ≡ true
      → span.start_ip ≤ ip
      → ip < span.end_ip
      → first_clause (get_elem? tags_of instance_of) thrown span.clauses ≡ ok o
      → Sought Matches span.clauses o
      → Search ip spans
      → Search ip (span ∷ spans)
  unfolding find_clause
  in_span ip span spans none e low high run nothing (o, (rest, spec)) = (
    o,
    (
      rw (find_clause, e, run) rest,
      go_past ip span spans o (λ g. nothing g.1.1.0 g.1.1.1.0 g.1.1.1.1.0 g.1.1.1.1.1) spec,
    ),
  )
  in_span ip span spans (some rec) e low high run (i, (at, (m, before))) (o, (rest, spec)) = (
    some rec,
    (
      rw (find_clause, e, run) refl,
      (
        span,
        (
          First-here (Guards ip) span spans (low, (high, (i, (rec, (at, m))))),
          (i, (at, (m, before))),
        ),
      ),
    ),
  )

  -- With the tags of all clauses there, the search ends with the clause that catches, or with none
  -- if none does.
  pub find_clause_lem : (ip : ℕ) (spans : List HandlerSpan) → AllSpans spans → Search ip spans
  unfolding find_clause
  find_clause_lem ip [] l = (none, (refl, λ i x e p. cc))
  find_clause_lem ip (span ∷ spans) l =
      let (o, (rest, spec)) = find_clause_lem ip spans (λ i s e. l (suc i) s e) in
      elim (covered ip span) [
        | inr (e, out) ↦
            (o, (rw (find_clause, e) rest, go_past ip span spans o (λ g. out (g.0, g.1.0)) spec))
        | inl (e, (low, high)) ↦
            let (found, (run, why)) = first_clause_lem span.clauses (l 0 span refl) in
            in_span ip span spans found e low high run why (o, (rest, spec))
      ]

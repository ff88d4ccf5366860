-- ===== src/Store/Collect/Seen.antt =====
-- store/gc_collect.rs: the nodes that a trace has come by, and what one more mark changes.
use submilli_wasm.Base.{
  ℕ, zero, suc, ◌<◌, ◌≡◌, ◌≢◌, ◌⊎◌, inl, inr, refl, sym, ap, ◌∙◌, Option, none, some, Bool, true,
  List, [], ◌∷◌, ◌++◌, map, length, arith, Bool-cases, ==-refl, ℕ_discrete, subst, ◌==◌,
}
use submilli_wasm.Worklist.{Among, Newly}
use submilli_wasm.Store.Gc.{is_marked}
use submilli_wasm.Store.Gc.Marks.{bit_of}
use submilli_wasm.Store.Collect.{Reached, StoreInner, Trace, contains}

-- The indices below `n`.
abbrev pub below : ℕ → List ℕ
below zero = []
below (suc n) = n ∷ below n

pub Among-below : (n i : ℕ) → i < n → Among i (below n)
Among-below zero i h = absurd (omega arith)
Among-below (suc n) i h = elim (ℕ_discrete i n) [
  | yes e ↦ inl e
  | no ne ↦ inr (Among-below n i (omega arith))
]

pub Among-map :
    {A B : Type 0} (f : A → B) (x : A) (xs : List A) → Among x xs → Among (f x) (map f xs)
Among-map f x [] a = elim a [ ]
Among-map f x (y ∷ ys) (inl e) = inl (ap f e)
Among-map f x (y ∷ ys) (inr a) = inr (Among-map f x ys a)

-- Every index of the three arenas.
abbrev pub universe : StoreInner → List Reached
universe s =
    map Reached.gc (below (length s.heap.slots))
    ++ (map Reached.extern (below (length s.externrefs.slots))
        ++ map Reached.exn (below (length s.exns.slots)))

-- Whether the trace has come by a node.
abbrev pub seen : Trace → Reached → Bool
seen t (Reached.gc i) = is_marked t.heap i
seen t (Reached.extern i) = contains t.extern_seen i
seen t (Reached.exn i) = contains t.exn_seen i

contains_newly :
    (xs : List ℕ) (i j : ℕ) → contains (i ∷ xs) j ≡ true → (contains xs j ≡ true) ⊎ (j ≡ i)
contains_newly xs i j h = elim (ℕ_discrete j i) [ yes e ↦ inr e | no ne ↦ ground arith ]

contains_still : (xs : List ℕ) (i j : ℕ) → contains xs j ≡ true → contains (i ∷ xs) j ≡ true
contains_still xs i j h = elim (Bool-cases (i == j)) [ inl e ↦ rw e refl | inr e ↦ rw e h ]

contains_now : (xs : List ℕ) (i : ℕ) → contains (i ∷ xs) i ≡ true
contains_now xs i = rw (==-refl i) refl

extern_only :
    (t : Trace) (i : ℕ) (q : Reached)
    → seen (record t { extern_seen = i ∷ t.extern_seen }) q ≡ true
    → (seen t q ≡ true) ⊎ (q ≡ Reached.extern i)
extern_only t i (Reached.gc j) h = inl h
extern_only t i (Reached.extern j) h = elim (contains_newly t.extern_seen i j h) [
  | inl a ↦ inl a
  | inr e ↦ inr (ap Reached.extern e)
]
extern_only t i (Reached.exn j) h = inl h

extern_still :
    (t : Trace) (i : ℕ) (q : Reached)
    → seen t q ≡ true
    → seen (record t { extern_seen = i ∷ t.extern_seen }) q ≡ true
extern_still t i (Reached.gc j) h = h
extern_still t i (Reached.extern j) h = contains_still t.extern_seen i j h
extern_still t i (Reached.exn j) h = h

pub extern-Newly :
    (t : Trace) (i : ℕ)
    → Newly (seen t) (seen (record t { extern_seen = i ∷ t.extern_seen })) (Reached.extern i)
extern-Newly t i = record {
  now = contains_now t.extern_seen i;
  only = extern_only t i;
  still = extern_still t i;
}

exn_only :
    (t : Trace) (i : ℕ) (q : Reached)
    → seen (record t { exn_seen = i ∷ t.exn_seen }) q ≡ true
    → (seen t q ≡ true) ⊎ (q ≡ Reached.exn i)
exn_only t i (Reached.gc j) h = inl h
exn_only t i (Reached.extern j) h = inl h
exn_only t i (Reached.exn j) h = elim (contains_newly t.exn_seen i j h) [
  | inl a ↦ inl a
  | inr e ↦ inr (ap Reached.exn e)
]

exn_still :
    (t : Trace) (i : ℕ) (q : Reached)
    → seen t q ≡ true
    → seen (record t { exn_seen = i ∷ t.exn_seen }) q ≡ true
exn_still t i (Reached.gc j) h = h
exn_still t i (Reached.extern j) h = h
exn_still t i (Reached.exn j) h = contains_still t.exn_seen i j h

pub exn-Newly :
    (t : Trace) (i : ℕ)
    → Newly (seen t) (seen (record t { exn_seen = i ∷ t.exn_seen })) (Reached.exn i)
exn-Newly t i = record {
  now = contains_now t.exn_seen i;
  only = exn_only t i;
  still = exn_still t i;
}

-- A first mark, in the trace's state.
abbrev pub with_marks : Trace → List (List Bool) → Trace
with_marks t marks = record t { heap = record t.heap { marks = marks } }

pub no_word : {w : List Bool} (o : Option (List Bool)) → o ≡ none → o ≡ some w → ⊥
no_word o e h = cc

module _ (t : Trace) (i : ℕ) (marks : List (List Bool))
    (others : (j : ℕ) → j ≢ i → bit_of marks j ≡ bit_of t.heap.marks j) where
  pub marked_only :
      (j : ℕ) → is_marked (with_marks t marks).heap j ≡ true → (is_marked t.heap j ≡ true) ⊎ (j ≡ i)
  unfolding is_marked
  marked_only j h = elim (ℕ_discrete j i) [ yes e ↦ inr e | no ne ↦ inl (sym (others j ne) ∙ h) ]

  gc_only :
      (q : Reached) → seen (with_marks t marks) q ≡ true → (seen t q ≡ true) ⊎ (q ≡ Reached.gc i)
  gc_only (Reached.gc j) h = elim (marked_only j h) [
    | inl a ↦ inl a
    | inr e ↦ inr (ap Reached.gc e)
  ]
  gc_only (Reached.extern j) h = inl h
  gc_only (Reached.exn j) h = inl h

  gc_still :
      bit_of marks i ≡ true → (q : Reached) → seen t q ≡ true → seen (with_marks t marks) q ≡ true
  unfolding is_marked
  gc_still now (Reached.gc j) h = elim (ℕ_discrete j i) [
    | yes e ↦ subst (λ k. bit_of marks k ≡ true) (sym e) now
    | no ne ↦ others j ne ∙ h
  ]
  gc_still now (Reached.extern j) h = h
  gc_still now (Reached.exn j) h = h

  pub gc-Newly : bit_of marks i ≡ true → Newly (seen t) (seen (with_marks t marks)) (Reached.gc i)
  unfolding is_marked
  gc-Newly now = record { now = now; only = gc_only; still = gc_still now }

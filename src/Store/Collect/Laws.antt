-- ===== src/Store/Collect/Laws.antt =====
-- store/gc_collect.rs: the trace is a worklist trace over the three arenas.
use submilli_wasm.Base.{
  ℕ, ◌+◌, ◌<◌, ◌≡◌, inl, inr, refl, sym, ap, ◌∙◌, Option, none, some, true, false, List, [], ◌∷◌,
  ◌++◌, map, length, get_elem?, arith, Option-cases, dec_lt, get_elem?_none, subst,
}
use submilli_wasm.Worklist.{
  Among, Among-append_left, Among-append_right, Tracing, Newly, Traced, left_over, left_over-le,
  run_lem,
}
use submilli_wasm.Error.{Result, ok, err, Error}
use submilli_wasm.Canon.Layout.{StorageType}
use submilli_wasm.Store.Reclaim.{entry}
use submilli_wasm.Store.Gc.{GcHeap, GcObject, object, is_marked, mark}
use submilli_wasm.Store.Gc.Marks.{Words, mark_again, mark_fresh}
use submilli_wasm.Store.Collect.{
  Reached, StoreInner, Trace, metadata, trace_gc, trace_extern, trace_exn, trace_step,
  trace_reachable,
}
use submilli_wasm.Store.Collect.Children.{
  on_top, trace_gc-IsPush, trace_extern-IsPush, trace_exn-IsPush,
}
use submilli_wasm.Store.Collect.Seen.{
  below, Among-below, Among-map, universe, seen, extern-Newly, exn-Newly, with_marks, marked_only,
  gc-Newly, no_word,
}

module _ (struct_fields : ℕ → Result (List StorageType)) (array_field : ℕ → Result StorageType)
    (s : StoreInner) where
  children_of : Option GcObject → ℕ → Result (List Reached)
  children_of none i = err (metadata "dangling GC root")
  children_of (some o) i = trace_gc struct_fields array_field s.heap i []

  -- The nodes that a node of the store names, or the corruption found at it.
  unfoldable pub children : Reached → Result (List Reached)
  unfolding children_of
  children (Reached.gc i) = children_of (object s.heap i) i
  children (Reached.extern i) = trace_extern s i []
  children (Reached.exn i) = trace_exn s i []

  -- The trace has changed the store's heap in its marks only, and marked live objects only.
  pub record IsTrace (t : Trace) : Type 0 where
    pub same : t.heap ≡ record s.heap { marks = t.heap.marks }
    pub words : Words t.heap.marks
    pub live : (i : ℕ) → is_marked t.heap i ≡ true → (o : GcObject) × (object s.heap i ≡ some o)

  object_same : (t : Trace) → IsTrace t → (i : ℕ) → object t.heap i ≡ object s.heap i
  unfolding object
  object_same t v i = ap (λ (h : GcHeap). object h i) v.same

  again_law :
      (r : Reached) (work : List Reached) (t : Trace)
      → IsTrace t
      → seen t r ≡ true
      → trace_step struct_fields array_field s r work t ≡ (ok work, t)
  unfolding trace_step
  again_law (Reached.gc i) work t v old =
      let (o, live) = v.live i old in
      rw
        (trace_step, object_same t v i ∙ live, mark_again i t.heap o (object_same t v i ∙ live) old)
        refl
  again_law (Reached.extern i) work t v old = rw (trace_step, old) refl
  again_law (Reached.exn i) work t v old = rw (trace_step, old) refl

  trace_gc_same :
      (h : GcHeap) (i : ℕ) (work : List Reached)
      → object h i ≡ object s.heap i
      → trace_gc struct_fields array_field h i work
        ≡ trace_gc struct_fields array_field s.heap i work
  unfolding trace_gc
  trace_gc_same h i work e = rw (trace_gc, e) refl

  visit_step :
      (i : ℕ) (o : GcObject) (work : List Reached) (t : Trace) (heap : GcHeap)
      (r : Result (List Reached))
      → object t.heap i ≡ some o
      → mark i t.heap ≡ (heap, true)
      → trace_gc struct_fields array_field heap i work ≡ r
      → trace_step struct_fields array_field s (Reached.gc i) work t ≡ (r, record t { heap = heap })
  unfolding trace_step
  visit_step i o work t heap r a b c = rw (trace_step, a, b, c) refl

  kids :
      (i : ℕ) (o : GcObject)
      → object s.heap i ≡ some o
      → children (Reached.gc i) ≡ trace_gc struct_fields array_field s.heap i []
  unfolding children children_of
  kids i o live = ap (λ x. children_of x i) live

  -- A first visit of a live object marks it and traces it.
  visit :
      (i : ℕ) (o : GcObject) (work : List Reached) (t : Trace)
      → IsTrace t
      → seen t (Reached.gc i) ≡ false
      → object s.heap i ≡ some o
      → (t' : Trace) × ((trace_step struct_fields array_field s (Reached.gc i) work t
            ≡ (on_top (children (Reached.gc i)) work, t'))
          × (IsTrace t' × Newly (seen t) (seen t') (Reached.gc i)))
  unfolding object
  visit i o work t v new live =
      let here : object t.heap i ≡ some o = object_same t v i ∙ live in
      let (marks, (e, (words, (now, others)))) = mark_fresh i t.heap o here v.words new in
      let traced : trace_gc struct_fields array_field (record t.heap { marks = marks }) i work
          ≡ on_top (children (Reached.gc i)) work =
        trace_gc_same (record t.heap { marks = marks }) i work (object_same t v i)
        ∙ (trace_gc-IsPush struct_fields array_field s.heap i work
            ∙ ap (λ c. on_top c work) (sym (kids i o live))) in
      (
        with_marks t marks,
        (
          visit_step i o work t _ _ here e traced,
          (
            record {
              same = ap (λ (h : GcHeap). record h { marks = marks }) v.same;
              words = words;
              live = λ j h. elim (marked_only t i marks others j h) [
                | inl old ↦ v.live j old
                | inr q ↦ (o, subst (λ k. object s.heap k ≡ some o) (sym q) live)
              ];
            },
            gc-Newly t i marks others now,
          ),
        ),
      )

  unreadable :
      (i : ℕ) (cs : List Reached) → object s.heap i ≡ none → children (Reached.gc i) ≡ ok cs → ⊥
  unfolding children children_of
  unreadable i cs dead h =
      let bad : children_of (object s.heap i) i ≡ err (metadata "dangling GC root") =
        ap (λ x. children_of x i) dead in
      cc

  -- What a first visit of any node does.
  fresh_visit :
      (r : Reached) (work : List Reached) (t : Trace)
      → IsTrace t
      → seen t r ≡ false
      → (t' : Trace) × ((trace_step struct_fields array_field s r work t
            ≡ (on_top (children r) work, t'))
          × (IsTrace t' × ((cs : List Reached) → children r ≡ ok cs → Newly (seen t) (seen t') r)))
  unfolding trace_step children children_of
  fresh_visit (Reached.gc i) work t v new = elim (Option-cases (object s.heap i)) [
    | inl dead ↦
        let here : object t.heap i ≡ none = object_same t v i ∙ dead in
        (t, (rw (trace_step, here, dead) refl, (v, λ cs h. absurd (unreadable i cs dead h))))
    | inr (o, live) ↦
        let (t', (e, (v', n))) = visit i o work t v new live in (t', (e, (v', λ cs h. n)))
  ]
  fresh_visit (Reached.extern i) work t v new = (
    record t { extern_seen = i ∷ t.extern_seen },
    (
      rw (trace_step, new, trace_extern-IsPush s i work) refl,
      (record { same = v.same; words = v.words; live = v.live }, λ cs h. extern-Newly t i),
    ),
  )
  fresh_visit (Reached.exn i) work t v new = (
    record t { exn_seen = i ∷ t.exn_seen },
    (
      rw (trace_step, new, trace_exn-IsPush s i work) refl,
      (record { same = v.same; words = v.words; live = v.live }, λ cs h. exn-Newly t i),
    ),
  )

  fresh_law :
      (r : Reached) (work : List Reached) (t : Trace) (cs : List Reached)
      → IsTrace t
      → seen t r ≡ false
      → children r ≡ ok cs
      → (t' : Trace) × ((trace_step struct_fields array_field s r work t ≡ (ok (cs ++ work), t'))
          × (IsTrace t' × Newly (seen t) (seen t') r))
  fresh_law r work t cs v new has =
      let (t', (e, (v', n))) = fresh_visit r work t v new in
      (t', (e ∙ ap (λ c. (on_top c work, t')) has, (v', n cs has)))

  corrupt_law :
      (r : Reached) (work : List Reached) (t : Trace) (e : Error)
      → IsTrace t
      → seen t r ≡ false
      → children r ≡ err e
      → (t' : Trace) × ((trace_step struct_fields array_field s r work t ≡ (err e, t'))
          × IsTrace t')
  corrupt_law r work t e v new has =
      let (t', (q, (v', n))) = fresh_visit r work t v new in
      (t', (q ∙ ap (λ c. (on_top c work, t')) has, v'))

  gc_in_range :
      (i : ℕ) (cs : List Reached) → children (Reached.gc i) ≡ ok cs → i < length s.heap.slots
  unfolding object
  gc_in_range i cs has = elim (dec_lt i (length s.heap.slots)) [
    | yes lt ↦ lt
    | no past ↦
        let gone : get_elem? s.heap.slots i ≡ none = get_elem?_none s.heap.slots i (omega arith) in
        absurd (unreadable i cs (rw (object, gone) refl) has)
  ]

  extern_in_range :
      (i : ℕ) (cs : List Reached)
      → children (Reached.extern i) ≡ ok cs
      → i < length s.externrefs.slots
  unfolding children trace_extern entry
  extern_in_range i cs has = elim (dec_lt i (length s.externrefs.slots)) [
    | yes lt ↦ lt
    | no past ↦
        let gone : get_elem? s.externrefs.slots i ≡ none =
          get_elem?_none s.externrefs.slots i (omega arith) in
        let dead : entry s.externrefs i ≡ none = rw (entry, gone) refl in
        let bad : trace_extern s i [] ≡ err (metadata "dangling externref root") =
          rw (trace_extern, dead) refl in
        absurd (cc)
  ]

  exn_in_range :
      (i : ℕ) (cs : List Reached) → children (Reached.exn i) ≡ ok cs → i < length s.exns.slots
  unfolding children trace_exn entry
  exn_in_range i cs has = elim (dec_lt i (length s.exns.slots)) [
    | yes lt ↦ lt
    | no past ↦
        let gone : get_elem? s.exns.slots i ≡ none = get_elem?_none s.exns.slots i (omega arith) in
        let dead : entry s.exns i ≡ none = rw (entry, gone) refl in
        let bad : trace_exn s i [] ≡ err (metadata "dangling exception root") =
          rw (trace_exn, dead) refl in
        absurd (cc)
  ]

  known_law : (r : Reached) (cs : List Reached) → children r ≡ ok cs → Among r (universe s)
  known_law (Reached.gc i) cs has =
      Among-append_left (Reached.gc i) _ _
        (Among-map Reached.gc i _ (Among-below (length s.heap.slots) i (gc_in_range i cs has)))
  known_law (Reached.extern i) cs has =
      Among-append_right (Reached.extern i) (map Reached.gc (below (length s.heap.slots))) _ (
        Among-append_left (Reached.extern i) _ _ (
          Among-map Reached.extern i _
            (Among-below (length s.externrefs.slots) i (extern_in_range i cs has))))
  known_law (Reached.exn i) cs has =
      Among-append_right (Reached.exn i) (map Reached.gc (below (length s.heap.slots))) _ (
        Among-append_right (Reached.exn i) (map Reached.extern (below (length s.externrefs.slots)))
          _
          (Among-map Reached.exn i _ (Among-below (length s.exns.slots) i (exn_in_range i cs has))))

  pub trace-Tracing :
      Tracing IsTrace seen (trace_step struct_fields array_field s) children (universe s)
  trace-Tracing = record {
    again = again_law;
    fresh = fresh_law;
    corrupt = corrupt_law;
    known = known_law;
  }

  -- The fuel that a trace from some work needs.
  abbrev pub trace_bound : List Reached → ℕ
  trace_bound work = length work + left_over (λ r. false) children (universe s)

  nothing_marked : (i : ℕ) → s.heap.marks ≡ [] → is_marked s.heap i ≡ false
  unfolding is_marked
  nothing_marked i e = rw (is_marked, e) refl

  abbrev start : Trace
  start = record { heap = s.heap; extern_seen = []; exn_seen = [] }

  nothing_seen : s.heap.marks ≡ [] → (q : Reached) → seen start q ≡ false
  nothing_seen e (Reached.gc i) = nothing_marked i e
  nothing_seen e (Reached.extern i) = refl
  nothing_seen e (Reached.exn i) = refl

  start-IsTrace : s.heap.marks ≡ [] → IsTrace start
  start-IsTrace e = record {
    same = refl;
    words = λ i w h. absurd (no_word (get_elem? s.heap.marks i) (ap (λ m. get_elem? m i) e) h);
    live = λ i h. absurd (cc (nothing_marked i e));
  }

  -- From a heap with no marks, with fuel for the roots and for every reference that a live object,
  -- externref or exception holds, the trace ends: either it has seen exactly what the roots reach,
  -- none of it corrupt, or it stops at a reachable node that is corrupt, with that node's error.
  pub trace_reachable-Traced :
      (fuel : ℕ) (work : List Reached)
      → s.heap.marks ≡ []
      → trace_bound work < fuel
      → Traced trace-Tracing work (trace_reachable struct_fields array_field fuel s work)
  unfolding trace_reachable
  trace_reachable-Traced fuel work e h =
      run_lem trace-Tracing work fuel start (start-IsTrace e) (nothing_seen e) (
        omega (
          arith,
          left_over-le trace-Tracing work (universe s) (λ r. false) (seen start) (λ q k. cc),
        ))

-- ===== src/Store/Collect/Correct.antt =====
-- store/gc_collect.rs: a collection keeps exactly what its roots reach.
use submilli_wasm.Base.{
  ℕ, ◌<◌, ◌≡◌, ◌↔◌, refl, sym, ap, ◌∙◌, Option, some, true, List, [], arith, subst,
}
use submilli_wasm.Worklist.{Traced}
use submilli_wasm.Error.{Result, ok, err, Error}
use submilli_wasm.Exec.Value.{RefKind}
use submilli_wasm.Canon.Layout.{StorageType}
use submilli_wasm.Store.Reclaim.{entry}
use submilli_wasm.Store.Reclaim.Allocation.{IsArena}
use submilli_wasm.Store.Reclaim.Bytes.{total}
use submilli_wasm.Store.Gc.{GcHeap, byte_size, object, clear_marks}
use submilli_wasm.Store.Gc.Arena.{arena_of}
use submilli_wasm.Store.Collect.{
  Reached, StoreInner, Trace, trace_reachable, after_trace, roots_of, collect,
}
use submilli_wasm.Store.Collect.Seen.{seen}
use submilli_wasm.Store.Collect.Laws.{children, IsTrace, trace_bound, trace_reachable-Traced}
use submilli_wasm.Store.Collect.Reach.{Live, Reachable-Live, Live-Reachable}
use submilli_wasm.Store.Collect.Reclaims.{IsCollectable, Keeps-iff, Reclaimed, reclaim-Reclaimed}

module _ (struct_fields : ℕ → Result (List StorageType))
    (array_field : ℕ → Result StorageType) where
  abbrev pub Lives : List (ℕ × RefKind) → StoreInner → Reached → Type 0
  Lives stack_roots s = Live struct_fields array_field s stack_roots

  -- How a collection ends: what was reachable is kept and all else freed, or a reachable node is
  -- corrupt and the store is as it was.
  pub data Collected (stack_roots : List (ℕ × RefKind)) (s : StoreInner)
      : Option (Result (Unit {0}) × StoreInner) → Type 0 where
    reclaimed :
        (s' : StoreInner)
        → Reclaimed (Lives stack_roots s) s s'
        → Collected stack_roots s (some (ok tt, s'))
    corrupted :
        (e : Error) (q : Reached)
        → Lives stack_roots s q
        → children struct_fields array_field s q ≡ err e
        → Collected stack_roots s (some (err e, s))

  collect_on :
      (fuel : ℕ) (stack_roots : List (ℕ × RefKind)) (s : StoreInner)
      → s.heap.collecting ≡ true
      → collect struct_fields array_field fuel stack_roots s
        ≡ after_trace s (trace_reachable struct_fields array_field fuel s (roots_of stack_roots s))
  unfolding collect
  collect_on fuel stack_roots s on = rw (collect, on) refl

  -- The sweep after a trace that has ended.
  swept-Collected :
      (stack_roots : List (ℕ × RefKind)) (s : StoreInner) (t : Trace)
      → IsCollectable s
      → IsTrace struct_fields array_field s t
      → ((q : Reached) → (seen t q ≡ true) ↔ Lives stack_roots s q)
      → Collected stack_roots s (after_trace s (some (ok tt, t)))
  unfolding after_trace object
  swept-Collected stack_roots s t c v exact =
      let s1 : StoreInner = record s { heap = t.heap } in
      let order : IsArena (arena_of t.heap) =
        subst (λ (h : GcHeap). IsArena (arena_of h)) (sym v.same) c.heap_order in
      let bytes : total byte_size t.heap.slots ≡ total byte_size s.heap.slots =
        ap (λ (h : GcHeap). total byte_size h.slots) v.same in
      let used : t.heap.used ≡ s.heap.used = ap (λ (h : GcHeap). h.used) v.same in
      let (s', (e, r)) =
        reclaim-Reclaimed t s1 order c.extern_order c.exn_order (omega (arith, c.accounts))
          (omega (arith, c.bounded)) refl in
      subst (λ o. Collected stack_roots s (some o)) (sym e)
        (Collected.reclaimed s' (record {
          objects =
              Keeps-iff (λ i. seen t (Reached.gc i) ≡ true)
                (λ i. Lives stack_roots s (Reached.gc i)) (object t.heap) (object s.heap)
                (object s'.heap) (λ i. exact (Reached.gc i))
                (λ i. ap (λ (h : GcHeap). object h i) v.same) r.objects;
          externrefs =
              Keeps-iff (λ i. seen t (Reached.extern i) ≡ true)
                (λ i. Lives stack_roots s (Reached.extern i)) (entry s.externrefs)
                (entry s.externrefs) (entry s'.externrefs) (λ i. exact (Reached.extern i))
                (λ i. refl) r.externrefs;
          exns =
              Keeps-iff (λ i. seen t (Reached.exn i) ≡ true)
                (λ i. Lives stack_roots s (Reached.exn i)) (entry s.exns) (entry s.exns)
                (entry s'.exns) (λ i. exact (Reached.exn i)) (λ i. refl) r.exns;
          collectable = r.collectable;
          shrinks = omega (arith, r.shrinks);
          same_reserved = r.same_reserved ∙ ap (λ (h : GcHeap). h.reserved) v.same;
          same_roots = r.same_roots;
        }))

  -- The store after a trace that has found corruption.
  stopped-Collected :
      (stack_roots : List (ℕ × RefKind)) (s : StoreInner) (t : Trace) (e : Error) (q : Reached)
      → IsCollectable s
      → IsTrace struct_fields array_field s t
      → Lives stack_roots s q
      → children struct_fields array_field s q ≡ err e
      → Collected stack_roots s (after_trace s (some (err e, t)))
  unfolding after_trace clear_marks
  stopped-Collected stack_roots s t e q c v reach bad =
      let cleared : clear_marks t.heap ≡ s.heap =
        ap (λ (h : GcHeap). record h { marks = [] }) v.same
        ∙ ap (λ m. record s.heap { marks = m }) (sym c.unmarked) in
      subst (λ h. Collected stack_roots s (some (err e, record s { heap = h }))) (sym cleared)
        (Collected.corrupted e q reach bad)

  -- With fuel for the roots and every reference that the arenas hold, a collection of a store in
  -- order ends. It keeps every object, externref and exception that the operands, globals, tables,
  -- element segments, pending exception and host handles lead to through the references that nodes
  -- hold, as it was, frees every other, leaves `used` the bytes of what is left and changes no
  -- root. Or it finds a corrupt node among these, gives that node's error and leaves the store as
  -- it was.
  pub collect-Collected :
      (fuel : ℕ) (stack_roots : List (ℕ × RefKind)) (s : StoreInner)
      → IsCollectable s
      → s.heap.collecting ≡ true
      → trace_bound struct_fields array_field s (roots_of stack_roots s) < fuel
      → Collected stack_roots s (collect struct_fields array_field fuel stack_roots s)
  collect-Collected fuel stack_roots s c on h =
      subst (Collected stack_roots s) (sym (collect_on fuel stack_roots s on))
        (elim (trace_reachable-Traced struct_fields array_field s fuel (roots_of stack_roots s)
          c.unmarked h) [
            | Traced.whole t e v exact sound ↦
                subst (λ o. Collected stack_roots s (after_trace s o)) (sym e)
                  (swept-Collected stack_roots s t c v λ q. (
                    λ k. Reachable-Live struct_fields array_field s stack_roots q ((exact q).0 k),
                    λ l.
                        (exact q).1
                          (Live-Reachable struct_fields array_field s stack_roots sound q l),
                  ))
            | Traced.stopped t f q e v reach bad ↦
                subst (λ o. Collected stack_roots s (after_trace s o)) (sym e)
                  (stopped-Collected stack_roots s t f q c v
                    (Reachable-Live struct_fields array_field s stack_roots q reach) bad)
          ])

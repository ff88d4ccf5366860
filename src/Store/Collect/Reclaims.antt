-- ===== src/Store/Collect/Reclaims.antt =====
-- store/gc_collect.rs: what a collection keeps and what it frees.
use submilli_wasm.Base.{
  ℕ, ◌+◌, ◌^◌, ◌≤◌, ◌<◌, ◌≡◌, ◌↔◌, refl, sym, ap, ◌∙◌, inl, inr, Option, none, Bool, true, List, [],
  length, arith, Bool-cases, dec_lt, get_elem?_none,
}
use submilli_wasm.Error.{ok}
use submilli_wasm.State.{then_run-ok}
use submilli_wasm.Store.Reclaim.{ReclaimArena, entry}
use submilli_wasm.Store.Reclaim.Allocation.{IsArena}
use submilli_wasm.Store.Reclaim.Sweep.{Rounds, sweep_lem}
use submilli_wasm.Store.Reclaim.Bytes.{total, sweep-total}
use submilli_wasm.Store.Gc.{GcHeap, byte_size, object, is_marked, credit, clear_marks, sweep_heap}
use submilli_wasm.Store.Gc.Arena.{arena_of, with_arena, sweep_heap-sweep}
use submilli_wasm.Store.Collect.{
  Reached, ExternEntry, ExnEntity, StoreInner, Trace, contains, extern_size, exn_size,
  sweep_externrefs, sweep_exns, sweep_gc, reclaim,
}
use submilli_wasm.Store.Collect.Seen.{seen}

-- The bytes of all that the three arenas hold.
abbrev pub held_bytes : StoreInner → ℕ
held_bytes s =
    total byte_size s.heap.slots
    + (total extern_size s.externrefs.slots + total exn_size s.exns.slots)

-- A store's arenas are in order, nothing is marked, and `used` is the bytes of what they hold.
pub record IsCollectable (s : StoreInner) : Type 0 where
  pub heap_order : IsArena (arena_of s.heap)
  pub extern_order : IsArena s.externrefs
  pub exn_order : IsArena s.exns
  pub unmarked : s.heap.marks ≡ []
  pub accounts : s.heap.used ≡ held_bytes s
  pub bounded : held_bytes s < 2 ^ 64

-- The entry of an arena is kept if it is live, and gone if not.
abbrev pub Keeps : {E : Type 0} → (ℕ → Type 0) → (ℕ → Option E) → (ℕ → Option E) → Type 0
Keeps live before after = (i : ℕ) → (live i → after i ≡ before i) × ((live i → ⊥) → after i ≡ none)

-- A collection keeps what is live, frees the rest and nothing else, and leaves the store
-- collectable again.
pub record Reclaimed (live : Reached → Type 0) (s s' : StoreInner) : Type 0 where
  pub objects : Keeps (λ i. live (Reached.gc i)) (object s.heap) (object s'.heap)
  pub externrefs : Keeps (λ i. live (Reached.extern i)) (entry s.externrefs) (entry s'.externrefs)
  pub exns : Keeps (λ i. live (Reached.exn i)) (entry s.exns) (entry s'.exns)
  pub collectable : IsCollectable s'
  pub shrinks : held_bytes s' ≤ held_bytes s
  pub same_reserved : s'.heap.reserved ≡ s.heap.reserved
  pub same_roots : s' ≡ record s { heap = s'.heap; externrefs = s'.externrefs; exns = s'.exns }

entry_past : {E : Type 0} (a : ReclaimArena E) (i : ℕ) → length a.slots ≤ i → entry a i ≡ none
unfolding entry
entry_past a i h = rw (entry, get_elem?_none a.slots i h) refl

-- A swept arena keeps the entries whose index is in the live set.
Rounds-Keeps :
    {E : Type 0} (live : ℕ → Bool) (a a' : ReclaimArena E) (byte_of : E → ℕ)
    → Rounds live byte_of 0 (length a.slots) a a'
    → Keeps (λ i. live i ≡ true) (entry a) (entry a')
Rounds-Keeps live a a' byte_of r i = (
  r.kept i,
  λ dead. elim (Bool-cases (live i)) [
    | inl l ↦ absurd (dead l)
    | inr l ↦ elim (dec_lt i (length a.slots)) [
      | yes lt ↦ r.gone i l (omega arith) (omega arith)
      | no past ↦ r.others i (inr (omega arith)) ∙ entry_past a i (omega arith)
    ]
  ],
)

-- The same entries kept for an equivalent reason.
pub Keeps-iff :
    {E : Type 0} (live live' : ℕ → Type 0) (before before' after : ℕ → Option E)
    → ((i : ℕ) → live i ↔ live' i)
    → ((i : ℕ) → before i ≡ before' i)
    → Keeps live before after
    → Keeps live' before' after
Keeps-iff live live' before before' after iff same k i =
    (λ l. (k i).0 ((iff i).1 l) ∙ same i, λ dead. (k i).1 (λ l. dead ((iff i).0 l)))

module _ (xs : List ℕ) (s : StoreInner) where
  sweep_externrefs_lem :
      IsArena s.externrefs
      → total extern_size s.externrefs.slots < 2 ^ 64
      → (b : ℕ) × ((a : ReclaimArena ExternEntry) × ((sweep_externrefs xs s
              ≡ (ok tt, record s { externrefs = a; heap = credit b s.heap }))
            × ((b + total extern_size a.slots ≡ total extern_size s.externrefs.slots)
                × Rounds (contains xs) extern_size 0 (length s.externrefs.slots) s.externrefs a)))
  unfolding sweep_externrefs
  sweep_externrefs_lem order small =
      let (b, (a, (e, r))) = sweep_lem (contains xs) extern_size s.externrefs order in
      (
        b,
        (
          a,
          (
            rw (sweep_externrefs, e, then_run-ok) refl,
            (sweep-total extern_size (contains xs) s.externrefs a b small e, r),
          ),
        ),
      )

  sweep_exns_lem :
      IsArena s.exns
      → total exn_size s.exns.slots < 2 ^ 64
      → (b : ℕ) × ((a : ReclaimArena ExnEntity) × ((sweep_exns xs s
              ≡ (ok tt, record s { exns = a; heap = credit b s.heap }))
            × ((b + total exn_size a.slots ≡ total exn_size s.exns.slots)
                × Rounds (contains xs) exn_size 0 (length s.exns.slots) s.exns a)))
  unfolding sweep_exns
  sweep_exns_lem order small =
      let (b, (a, (e, r))) = sweep_lem (contains xs) exn_size s.exns order in
      (
        b,
        (
          a,
          (
            rw (sweep_exns, e, then_run-ok) refl,
            (sweep-total exn_size (contains xs) s.exns a b small e, r),
          ),
        ),
      )

reclaim_run :
    (t : Trace) (s s1 s2 : StoreInner) (h : GcHeap)
    → sweep_externrefs t.extern_seen s ≡ (ok tt, s1)
    → sweep_exns t.exn_seen s1 ≡ (ok tt, s2)
    → sweep_heap s2.heap ≡ (ok tt, h)
    → reclaim t s ≡ (ok tt, record s2 { heap = h })
unfolding reclaim sweep_gc
reclaim_run t s s1 s2 h e1 e2 e3 = rw (reclaim, e1, then_run-ok, e2, then_run-ok, sweep_gc, e3) refl

-- The three sweeps of a store in order keep what the trace has seen.
pub reclaim-Reclaimed :
    (t : Trace) (s : StoreInner)
    → IsArena (arena_of s.heap)
    → IsArena s.externrefs
    → IsArena s.exns
    → s.heap.used ≡ held_bytes s
    → held_bytes s < 2 ^ 64
    → t.heap ≡ s.heap
    → (s' : StoreInner) × ((reclaim t s ≡ (ok tt, s')) × Reclaimed (λ q. seen t q ≡ true) s s')
unfolding credit is_marked object clear_marks entry
reclaim-Reclaimed t s heap_order extern_order exn_order accounts small same =
    let (b, (a, (e, (sum, rounds)))) =
      sweep_externrefs_lem t.extern_seen s extern_order (omega arith) in
    let s1 : StoreInner = record s { externrefs = a; heap = credit b s.heap } in
    let (c, (a2, (e2, (sum2, rounds2)))) = sweep_exns_lem t.exn_seen s1 exn_order (omega arith) in
    let s2 : StoreInner = record s1 { exns = a2; heap = credit c s1.heap } in
    let (d, (a3, (used, (e3, (e4, (sum3, (fewer, rounds3))))))) =
      sweep_heap-sweep s2.heap heap_order (omega arith) in
    let marks_iff : (i : ℕ) → (is_marked s.heap i ≡ true) ↔ (is_marked t.heap i ≡ true) = λ i.
      let q : is_marked t.heap i ≡ is_marked s.heap i = ap (λ (h : GcHeap). is_marked h i) same in
      (λ k. q ∙ k, λ k. sym q ∙ k) in
    let s3 : StoreInner = record s2 { heap = clear_marks (with_arena s2.heap a3 used) } in
    (
      s3,
      (
        reclaim_run t s s1 s2 (clear_marks (with_arena s2.heap a3 used)) e e2 e4,
        record {
          objects =
              Keeps-iff (λ i. is_marked s2.heap i ≡ true) (λ i. seen t (Reached.gc i) ≡ true)
                (entry (arena_of s2.heap)) (object s.heap) (entry a3) (λ i. marks_iff i) (λ i. refl)
                (Rounds-Keeps (is_marked s2.heap) (arena_of s2.heap) a3 byte_size rounds3);
          externrefs = Rounds-Keeps (contains t.extern_seen) s.externrefs a extern_size rounds;
          exns = Rounds-Keeps (contains t.exn_seen) s.exns a2 exn_size rounds2;
          collectable = record {
            heap_order = rounds3.still_arena;
            extern_order = rounds.still_arena;
            exn_order = rounds2.still_arena;
            unmarked = refl;
            accounts = omega arith;
            bounded = omega arith;
          };
          shrinks = omega arith;
          same_reserved = refl;
          same_roots = refl;
        },
      ),
    )

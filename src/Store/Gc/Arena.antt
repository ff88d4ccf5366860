-- ===== src/Store/Gc/Arena.antt =====
-- store/gc.rs: the heap's slots, generations and free list are a reclaimable arena.
use submilli_wasm.Base.{
  ℕ, zero, suc, ◌+◌, ◌-◌, ◌%◌, ◌^◌, ◌≤◌, ◌<◌, ◌≡◌, refl, sym, ap, ◌∙◌, inl, inr, none, some, false,
  List, [], ◌∷◌, length, set, arith, Option-cases, Bool-cases, get_elem?-some, subst, leb, gt→leb,
  ltb, ltb→lt,
}
use submilli_wasm.Error.{Result, ok, err, panicked}
use submilli_wasm.State.{then_run-ok}
use submilli_wasm.Word.{saturating_add}
use submilli_wasm.Exec.Cell.{null_ref}
use submilli_wasm.Store.Reclaim.{
  ReclaimArena, next_generation, entry, alloc, sweep_slot, sweep_from, sweep,
}
use submilli_wasm.Store.Reclaim.Allocation.{IsArena, Allocated, alloc-Allocated}
use submilli_wasm.Store.Reclaim.Sweep.{Rounds, sweep_slot-Round, sweep_lem}
use submilli_wasm.Store.Reclaim.Bytes.{total, Accounts, sweep_slot-Accounts}
use submilli_wasm.Store.Gc.{
  GcHeap, GcObject, byte_size, object, is_marked, alloc_object, sweep_object, sweep_objects,
  sweep_heap, clear_marks,
}

abbrev pub arena_of : GcHeap → ReclaimArena GcObject
arena_of h = record { slots = h.slots; generations = h.generations; free = h.free }

-- The heap with another arena and another count of used bytes.
abbrev pub with_arena : GcHeap → ReclaimArena GcObject → ℕ → GcHeap
with_arena h a used = record h {
  slots = a.slots;
  generations = a.generations;
  free = a.free;
  used = used;
}

pub object-entry : (h : GcHeap) (i : ℕ) → object h i ≡ entry (arena_of h) i
unfolding object entry
object-entry h i = refl

-- A round of the heap's sweep is a round of the arena's, and takes its bytes off `used`.
sweep_object-sweep_slot :
    (i : ℕ) (h : GcHeap)
    → IsArena (arena_of h)
    → i < length h.slots
    → (b : ℕ) × ((a : ReclaimArena GcObject) × ((sweep_slot (is_marked h) byte_size i (arena_of h)
            ≡ (ok b, a))
          × (sweep_object i h ≡ (ok tt, with_arena h a (h.used - b)))))
unfolding sweep_slot sweep_object
sweep_object-sweep_slot i h r lt =
    let low : i % 2 ^ 32 ≡ i = omega (arith, r.addressable) in
    let (g, at) = get_elem?-some h.generations i (omega (arith, r.parallel)) in
    let nothing : h.used ≡ h.used - 0 = omega arith in
    let same : Path (Result (Unit {0}) × GcHeap) (ok tt, h)
        (ok tt, with_arena h (arena_of h) (h.used - 0)) =
      ap (λ u. (ok tt, record h { used = u })) nothing in
    elim (Option-cases (object h i)) [
      | inl gone ↦
          let gone' : entry (arena_of h) i ≡ none = sym (object-entry h i) ∙ gone in
          (0, (arena_of h, (rw (sweep_slot, gone') refl, rw (sweep_object, gone) same)))
      | inr (o, live) ↦
          let live' : entry (arena_of h) i ≡ some o = sym (object-entry h i) ∙ live in
          elim (Bool-cases (is_marked h i)) [
            | inl kept ↦ (
              0,
              (
                arena_of h,
                (rw (sweep_slot, live', low, kept) refl, rw (sweep_object, live, kept) same),
              ),
            )
            | inr dead ↦ (
              byte_size o,
              (
                record {
                  slots = set h.slots i none;
                  generations = set h.generations i (next_generation g);
                  free = i ∷ h.free;
                },
                (
                  rw (sweep_slot, live', low, dead, at, low) refl,
                  rw (sweep_object, live, dead, at, low) refl,
                ),
              ),
            )
          ]
    ]

-- So are the rounds: what `used` loses is what the arena loses.
record SweepAgrees (n i freed : ℕ) (h : GcHeap) : Type 0 where
  bytes : ℕ
  arena : ReclaimArena GcObject
  used : ℕ
  arena_sweep : sweep_from (is_marked h) byte_size n i freed (arena_of h) ≡ (ok bytes, arena)
  heap_sweep : sweep_objects n i h ≡ (ok tt, with_arena h arena used)
  accounts : used + total byte_size h.slots ≡ h.used + total byte_size arena.slots
  fewer : total byte_size arena.slots ≤ total byte_size h.slots

sweep_objects-sweep_from :
    (n i freed : ℕ) (h : GcHeap)
    → IsArena (arena_of h)
    → i + n ≤ length h.slots
    → total byte_size h.slots ≤ h.used
    → SweepAgrees n i freed h
unfolding sweep_from sweep_objects is_marked Accounts
sweep_objects-sweep_from zero i freed h r le fits = record {
  bytes = freed;
  arena = arena_of h;
  used = h.used;
  arena_sweep = refl;
  heap_sweep = refl;
  accounts = refl;
  fewer = omega arith;
}
sweep_objects-sweep_from (suc n) i freed h r le fits =
    let (b, (a, (arena_step, heap_step))) = sweep_object-sweep_slot i h r (omega arith) in
    let (b', (a', (arena_step', round))) =
      sweep_slot-Round (is_marked h) byte_size i (arena_of h) r (omega arith) in
    let same : a' ≡ a = cc in
    let step : b + total byte_size a.slots ≡ total byte_size h.slots =
      subst (Accounts byte_size (is_marked h) (arena_of h)) arena_step
        (sweep_slot-Accounts byte_size (is_marked h) i (arena_of h)) in
    let rest : SweepAgrees n (i + 1) ((freed + b) % 2 ^ 64) (with_arena h a (h.used - b)) =
      sweep_objects-sweep_from n (i + 1) ((freed + b) % 2 ^ 64) (with_arena h a (h.used - b))
        (subst IsArena same round.still_arena)
        (omega (arith, round.same_length, ap (λ (x : ReclaimArena GcObject). length x.slots) same))
        (omega arith) in
    record {
      bytes = rest.bytes;
      arena = rest.arena;
      used = rest.used;
      arena_sweep = rw (sweep_from, arena_step, then_run-ok) rest.arena_sweep;
      heap_sweep = rw (sweep_objects, heap_step, then_run-ok) rest.heap_sweep;
      accounts = omega (arith, rest.accounts);
      fewer = omega (arith, rest.fewer);
    }

-- On a heap in order whose used bytes cover its objects, the heap's `sweep` does to slots,
-- generations and free list what the arena's `sweep` does with the marks as the live set, clears
-- the marks, and takes off `used` exactly the bytes of the objects that it frees.
pub sweep_heap-sweep :
    (h : GcHeap)
    → IsArena (arena_of h)
    → total byte_size h.slots ≤ h.used
    → (b : ℕ) × ((a : ReclaimArena GcObject) × ((used : ℕ) × ((sweep
                (is_marked h)
                byte_size
                (arena_of h)
              ≡ (ok b, a))
            × ((sweep_heap h ≡ (ok tt, clear_marks (with_arena h a used)))
                × ((used + total byte_size h.slots ≡ h.used + total byte_size a.slots)
                    × ((total byte_size a.slots ≤ total byte_size h.slots)
                        × Rounds (is_marked h) byte_size 0 (length h.slots) (arena_of h) a))))))
unfolding sweep sweep_heap
sweep_heap-sweep h r fits =
    let agrees : SweepAgrees (length h.slots) 0 0 h =
      sweep_objects-sweep_from (length h.slots) 0 0 h r (omega arith) fits in
    let (b, (a, (e, rounds))) = sweep_lem (is_marked h) byte_size (arena_of h) r in
    let same : a ≡ agrees.arena =
      ap (λ (p : Result ℕ × ReclaimArena GcObject). p.1) (sym e ∙ agrees.arena_sweep) in
    (
      agrees.bytes,
      (
        agrees.arena,
        (
          agrees.used,
          (
            agrees.arena_sweep,
            (
              rw (sweep_heap, agrees.heap_sweep, then_run-ok) refl,
              (
                agrees.accounts,
                (
                  agrees.fewer,
                  subst (Rounds (is_marked h) byte_size 0 (length h.slots) (arena_of h)) same
                      rounds,
                ),
              ),
            ),
          ),
        ),
      ),
    )

-- The heap that takes over what an arena's operation left.
abbrev adopt : GcHeap → ℕ → Result ℕ × ReclaimArena GcObject → Result ℕ × GcHeap
adopt h used (r, a) = (r, with_arena h a used)

abbrev with_free : GcHeap → List ℕ → GcHeap
with_free h free = record h { free = free }

module _ (o : GcObject) (h : GcHeap) (small : length h.slots < null_ref) where
  alloc_object-alloc :
      (free : List ℕ) (index : ℕ) (a : ReclaimArena GcObject)
      → alloc o (arena_of (with_free h free)) ≡ (ok index, a)
      → (alloc_object o (with_free h free)
          ≡ (ok index, with_arena h a (saturating_add h.used (byte_size o))))
        × (index < null_ref)
  unfolding alloc_object alloc
  alloc_object-alloc [] index a e =
      let room : leb null_ref (length h.slots) ≡ false = gt→leb null_ref (length h.slots) small in
      let at : length h.slots % 2 ^ 32 ≡ index = cc in
      (rw (alloc_object, room) (ap (adopt h (saturating_add h.used (byte_size o))) e), omega arith)
  alloc_object-alloc (i ∷ rest) index a e = elim (Bool-cases (ltb i (length h.slots))) [
    | inl lt ↦
        let e' : Path (Result ℕ × ReclaimArena GcObject)
            (
              ok i,
              record { slots = set h.slots i (some o); generations = h.generations; free = rest },
            )
            (ok index, a) =
          rw (alloc, lt) at e in
        let at : i ≡ index = cc in
        (
          rw (alloc_object, lt) (ap (adopt h (saturating_add h.used (byte_size o))) e'),
          omega (arith, ltb→lt i (length h.slots) lt),
        )
    | inr ge ↦ absurd (
        (λ (q : Path (Result ℕ × ReclaimArena GcObject)
              (err panicked, record { slots = h.slots; generations = h.generations; free = rest })
              (ok index, a)).
            false_ok q)
          (rw (alloc, ge) at e))
  ]
    where
      false_ok :
          {x y : ReclaimArena GcObject}
          → Path (Result ℕ × ReclaimArena GcObject) (err panicked, x) (ok index, y)
          → ⊥
      false_ok q = cc

-- On a heap in order with fewer than `NULL_REF` slots, an allocation gives a slot that held no
-- object and whose index is no null handle, puts the object there, adds its size to `used` and
-- leaves all other objects, every old generation and the order of the heap as they were.
pub alloc_object-Allocated :
    (o : GcObject) (h : GcHeap)
    → IsArena (arena_of h)
    → length h.slots < null_ref
    → (index : ℕ) × ((a : ReclaimArena GcObject) × ((alloc_object o h
            ≡ (ok index, with_arena h a (saturating_add h.used (byte_size o))))
          × ((index < null_ref) × Allocated o (arena_of h) a index)))
alloc_object-Allocated o h r small =
    let (index, (a, (e, allocated))) = alloc-Allocated o (arena_of h) r (omega arith) in
    let (e', lt) = alloc_object-alloc o h small h.free index a e in
    (index, (a, (e', (lt, allocated))))

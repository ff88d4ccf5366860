-- ===== src/Store/Budget/Host.antt =====
-- store/grow.rs: the host's reservation, collect then grow, always answers.
use submilli_wasm.Base.{
  ℕ, ◌+◌, ◌≤◌, ◌<◌, ◌≡◌, inl, inr, sym, ap, Option, some, Bool, true, false, ◌&&◌, List, arith,
  Bool-cases, subst, if◌then◌else◌,
}
use submilli_wasm.Error.{Result, ok, err, Error, Result-cases}
use submilli_wasm.Word.{u64_max}
use submilli_wasm.Exec.Value.{RefKind}
use submilli_wasm.Canon.Layout.{StorageType}
use submilli_wasm.Store.Gc.{fits}
use submilli_wasm.Store.Collect.{StoreInner, roots_of}
use submilli_wasm.Store.Collect.Laws.{trace_bound}
use submilli_wasm.Store.Collect.Reclaims.{IsCollectable}
use submilli_wasm.Store.Collect.Correct.{Collected, collect-Collected}
use submilli_wasm.Store.Budget.{
  GcStore, after_collection, due, operand_roots, collect_parked, gc_reserve_host, grow_for,
}
use submilli_wasm.Store.Budget.Reserved.{Growth, grow_for-Growth}

-- A reservation's answer: room for `charge` bytes, or an error, with the arenas in order and no
-- byte more in use.
pub data Answered {T : Type 0} (charge : ℕ) (s : GcStore T)
    : Option (Result (Unit {0}) × GcStore T) → Type 0 where
  ready :
      (s' : GcStore T)
      → fits s'.inner.heap charge ≡ true
      → IsCollectable s'.inner
      → s'.inner.heap.used ≤ s.inner.heap.used
      → Answered charge s (some (ok tt, s'))
  failed :
      (e : Error) (s' : GcStore T)
      → IsCollectable s'.inner
      → s'.inner.heap.used ≤ s.inner.heap.used
      → Answered charge s (some (err e, s'))

-- A change of the reservation keeps the arenas in order.
regranted-IsCollectable :
    (i : StoreInner) (reserved next_grow : ℕ)
    → IsCollectable i
    → IsCollectable
        (record i { heap = record i.heap { reserved = reserved; next_grow = next_grow } })
regranted-IsCollectable i reserved next_grow c = record {
  heap_order = c.heap_order;
  extern_order = c.extern_order;
  exn_order = c.exn_order;
  unmarked = c.unmarked;
  accounts = c.accounts;
  bounded = c.bounded;
}

both_right : (a b : Bool) → a && b ≡ true → b ≡ true
both_right true b h = h
both_right false b h = absurd (cc)

module _ {T : Type 0} (charge : ℕ) where
  Growth-Answered :
      (s0 s : GcStore T)
      → IsCollectable s.inner
      → s.inner.heap.used ≤ s0.inner.heap.used
      → (o : Result (Unit {0}) × GcStore T) → Growth charge s o
      → Answered charge s0 (some o)
  Growth-Answered s0 s c le o (Growth.secured s' secure) =
      Answered.ready s' secure.room
        (subst IsCollectable (sym secure.same)
          (regranted-IsCollectable s.inner s'.inner.heap.reserved s'.inner.heap.next_grow c))
        (omega (arith, ap (λ (i : StoreInner). i.heap.used) secure.same))
  Growth-Answered s0 s c le o (Growth.denied e host) =
      Answered.failed e (record s { host = host }) c le

  -- What is left to do where the heap may or may not have room.
  room_or_growth :
      (s0 s : GcStore T)
      → IsCollectable s.inner
      → s.inner.heap.used ≤ s0.inner.heap.used
      → s0.inner.heap.used + charge ≤ u64_max
      → s.inner.heap.reserved ≤ u64_max
      → Answered charge s0
          (if fits s.inner.heap charge then some (ok tt, s) else some (grow_for charge s))
  room_or_growth s0 s c le small low = elim (Bool-cases (fits s.inner.heap charge)) [
    | inl room ↦ rw room (Answered.ready s room c le)
    | inr full ↦ rw full (
        Growth-Answered s0 s c le (grow_for charge s)
          (grow_for-Growth charge s (omega arith) low full))
  ]

  after-Answered :
      (struct_fields : ℕ → Result (List StorageType)) (array_field : ℕ → Result StorageType)
      (stack_roots : List (ℕ × RefKind)) (s : GcStore T)
      → IsCollectable s.inner
      → s.inner.heap.used + charge ≤ u64_max
      → s.inner.heap.reserved ≤ u64_max
      → (o : Option (Result (Unit {0}) × StoreInner))
      → Collected struct_fields array_field stack_roots s.inner o
      → Answered charge s (after_collection charge s o)
  unfolding after_collection
  after-Answered sf af stack_roots s c small low o (Collected.reclaimed s' r) =
      room_or_growth s (record s { inner = s' }) r.collectable
        (omega (arith, r.shrinks, c.accounts, r.collectable.accounts)) small
        (omega (arith, r.same_reserved))
  after-Answered sf af stack_roots s c small low o (Collected.corrupted e q live bad) =
      Answered.failed e s c (omega arith)

  module _ (struct_fields : ℕ → Result (List StorageType))
      (array_field : ℕ → Result StorageType) where
    parked-Answered :
        (fuel : ℕ) (s : GcStore T)
        → IsCollectable s.inner
        → s.inner.heap.collecting ≡ true
        → s.inner.heap.used + charge ≤ u64_max
        → s.inner.heap.reserved ≤ u64_max
        → ((roots : List (ℕ × RefKind))
            → operand_roots s.parked ≡ ok roots
            → trace_bound struct_fields array_field s.inner (roots_of roots s.inner) < fuel)
        → Answered charge s
            (after_collection charge s (collect_parked struct_fields array_field fuel s))
    unfolding collect_parked after_collection
    parked-Answered fuel s c on small low enough = elim (Result-cases (operand_roots s.parked)) [
      | inl (roots, e) ↦
          rw (collect_parked, e)
            (after-Answered struct_fields array_field roots s c small low _ (
              collect-Collected struct_fields array_field fuel roots s.inner c on (enough roots e)))
      | inr (e, bad) ↦ rw (collect_parked, bad) (Answered.failed e s c (omega arith))
    ]

    -- On arenas in order, with fuel for a collection from the parked execution's roots, and with
    -- `used + charge` a `usize`, the host's reservation always answers: on success the heap has
    -- room for `charge` bytes, and on success and on failure the arenas are in order, `used` is
    -- the bytes that they hold, and it has not grown.
    pub gc_reserve_host-Answered :
        (fuel : ℕ) (s : GcStore T)
        → IsCollectable s.inner
        → s.inner.heap.used + charge ≤ u64_max
        → s.inner.heap.reserved ≤ u64_max
        → ((roots : List (ℕ × RefKind))
            → operand_roots s.parked ≡ ok roots
            → trace_bound struct_fields array_field s.inner (roots_of roots s.inner) < fuel)
        → Answered charge s (gc_reserve_host struct_fields array_field fuel charge s)
    unfolding gc_reserve_host
    gc_reserve_host-Answered fuel s c small low enough =
        elim (Bool-cases (fits s.inner.heap charge)) [
          | inl room ↦ rw (gc_reserve_host, room) (Answered.ready s room c (omega arith))
          | inr full ↦ elim (Bool-cases (due s.inner.heap charge)) [
            | inl now ↦
                rw (gc_reserve_host, full, now)
                  (parked-Answered fuel s c (both_right _ s.inner.heap.collecting now) small low
                    enough)
            | inr later ↦
                rw (gc_reserve_host, full, later)
                  (Growth-Answered s s c (omega arith) (grow_for charge s)
                    (grow_for-Growth charge s small low full))
          ]
        ]

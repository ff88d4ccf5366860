-- ===== src/Store/Budget.antt =====
-- store/grow.rs and exec/collect.rs: the reservation flow of the object heap, collect then grow.
-- The execution whose operands are roots is parked in the store; `fuel` bounds the collection's
-- trace, and `none` is a trace that ran out of it.
pub mod Reserved
pub mod Host
use submilli_wasm.Base.{
  ℕ, zero, suc, ◌+◌, ◌-◌, ◌*◌, ◌%◌, ◌^◌, min, ◌≡◌, Option, none, some, Bool, true, false, not, ◌&&◌,
  List, [], ◌∷◌, length, leb, ltb, ◌==◌, if◌then◌else◌,
}
use submilli_wasm.Error.{
  Result, ok, err, Error, msg, internal, gc_heap_out_of_memory, trap, allocation_too_large, ok_or,
  bad_stack, ◌>>=◌,
}
use submilli_wasm.State.{M, then_run}
use submilli_wasm.Word.{checked_mul}
use submilli_wasm.Exec.Value.{RefKind}
use submilli_wasm.Exec.Cell.{Cell, RefTag, refkind, is_null, handle}
use submilli_wasm.Exec.Execution.{Execution}
use submilli_wasm.Canon.Layout.{StorageType}
use submilli_wasm.Store.Limits.{ResourceLimiter, LimiterInner, sync, async}
use submilli_wasm.Store.Gc.{
  GcHeap, abort_safety_cap, fits, is_free_grant, desired_reservation, grant,
}
use submilli_wasm.Store.Collect.{StoreInner, collect}

-- What a reservation reads and writes: the store's collected side, its limiter with the host's
-- state, the engine's count of committed bytes, and the parked execution.
pub record GcStore (T : Type 0) : Type 0 where
  pub inner : StoreInner
  pub limiter : Option (LimiterInner T)
  pub host : T
  pub committed : ℕ
  pub parked : Execution

-- The handle of a slot that holds a reference.
abbrev pub root_of : Cell → Option RefKind → List (ℕ × RefKind) → List (ℕ × RefKind)
root_of cell none roots = roots
root_of cell (some kind) roots = if is_null cell then roots else (handle cell, kind) ∷ roots

unfoldable pub roots_from : List Cell → List RefTag → List (ℕ × RefKind)
roots_from (cell ∷ cells) (tag ∷ tags) = root_of cell (refkind tag) (roots_from cells tags)
roots_from _ _ = []

unfoldable pub operand_roots : Execution → Result (List (ℕ × RefKind))
operand_roots s =
    if length s.values == length s.shadow
    then ok (roots_from s.values s.shadow)
    else err (bad_stack "value/shadow length mismatch during root scan")

-- Whether a collection comes before the growth.
abbrev pub due : GcHeap → ℕ → Bool
due h charge = not (is_free_grant h (desired_reservation h charge)) && h.collecting

module _ {T : Type 0} where
  -- `grant`, with the engine's count, an atomic that wraps.
  unfoldable pub grant_reservation : ℕ → GcStore T → GcStore T
  grant_reservation target s =
      let (heap, granted) = grant target s.inner.heap in
      record s {
        inner = record s.inner { heap = heap };
        committed = (s.committed + granted) % 2 ^ 64;
      }

  -- The decision on a reservation of `target` bytes.
  abbrev pub consult_with : Option (LimiterInner T) → ℕ → ℕ → M (GcStore T) Bool
  consult_with none current target s = (ok (leb target abort_safety_cap), s)
  consult_with (some (sync l)) current target s =
      let (answer, host) = l.memory_growing current target none s.host in
      (answer, record s { host = host })
  consult_with (some (async l)) current target s =
      (err (msg "an async resource limiter requires an async context (use the `*_async` API)"), s)

  unfoldable pub reservation_allowed : ℕ → ℕ → M (GcStore T) Bool
  reservation_allowed current target s = consult_with s.limiter current target s

  unfoldable pub decide : ℕ → ℕ → Bool → M (GcStore T) (Unit {0})
  decide target bytes_needed true s = (ok tt, grant_reservation target s)
  decide target bytes_needed false s = (err (gc_heap_out_of_memory bytes_needed), s)

  unfoldable pub grow_gc_reservation : ℕ → ℕ → M (GcStore T) (Unit {0})
  grow_gc_reservation target bytes_needed s =
      let current = s.inner.heap.reserved in
      if leb target current
      then (ok tt, s)
      else then_run (decide target bytes_needed) (reservation_allowed current target s)

  -- The growth that follows when a collection was not due or did not free enough.
  unfoldable pub grow_for : ℕ → M (GcStore T) (Unit {0})
  grow_for charge s =
      let target = desired_reservation s.inner.heap charge in
      if is_free_grant s.inner.heap target
      then (ok tt, grant_reservation target s)
      else grow_gc_reservation target charge s

  unfoldable pub after_collection :
      ℕ
      → GcStore T
      → Option (Result (Unit {0}) × StoreInner)
      → Option (Result (Unit {0}) × GcStore T)
  after_collection charge s none = none
  after_collection charge s (some (err e, inner)) = some (err e, record s { inner = inner })
  after_collection charge s (some (ok done, inner)) =
      if fits inner.heap charge
      then some (ok tt, record s { inner = inner })
      else some (grow_for charge (record s { inner = inner }))

-- What a guest allocation does next: place the object, or suspend for the driver to grow.
pub data Reservation : Type 0 where
  place : Reservation
  do_gc_grow : ℕ → ℕ → ℕ → Reservation

module _ {T : Type 0} (struct_fields : ℕ → Result (List StorageType))
    (array_field : ℕ → Result StorageType) where
  -- The collection with the parked execution's roots.
  unfoldable pub collect_parked : ℕ → GcStore T → Option (Result (Unit {0}) × StoreInner)
  collect_parked fuel s = elim (operand_roots s.parked) [
    | err e ↦ some (err e, s.inner)
    | ok roots ↦ collect struct_fields array_field fuel roots s.inner
  ]

  unfoldable pub gc_reserve_host : ℕ → ℕ → GcStore T → Option (Result (Unit {0}) × GcStore T)
  gc_reserve_host fuel charge s =
      if fits s.inner.heap charge
      then some (ok tt, s)
      else if due s.inner.heap charge
      then after_collection charge s (collect_parked fuel s)
      else some (grow_for charge s)

  -- The guest's flow: a growth beyond the free budget is left to the driver, as `DoGcGrow`.
  unfoldable pub suspend_for : ℕ → ℕ → GcStore T → Result Reservation × GcStore T
  suspend_for charge ip s =
      let target = desired_reservation s.inner.heap charge in
      if is_free_grant s.inner.heap target
      then (ok Reservation.place, grant_reservation target s)
      else (ok (Reservation.do_gc_grow target charge ip), s)

  unfoldable pub after_guest_collection :
      ℕ
      → ℕ
      → GcStore T
      → Option (Result (Unit {0}) × StoreInner)
      → Option (Result Reservation × GcStore T)
  after_guest_collection charge ip s none = none
  after_guest_collection charge ip s (some (err e, inner)) =
      some (err e, record s { inner = inner })
  after_guest_collection charge ip s (some (ok done, inner)) =
      if fits inner.heap charge
      then some (ok Reservation.place, record s { inner = inner })
      else some (suspend_for charge ip (record s { inner = inner }))

  unfoldable pub gc_reserve : ℕ → ℕ → ℕ → GcStore T → Option (Result Reservation × GcStore T)
  gc_reserve fuel charge ip s =
      if fits s.inner.heap charge
      then some (ok Reservation.place, s)
      else if due s.inner.heap charge
      then after_guest_collection charge ip s (collect_parked fuel s)
      else some (suspend_for charge ip s)

-- `array_bytes` and `seg_clamped_charge`.
unfoldable pub array_bytes : ℕ → ℕ → Result ℕ
array_bytes count stride = ok_or (checked_mul count stride) (trap allocation_too_large)

unfoldable pub seg_clamped_charge : ℕ → ℕ → ℕ → ℕ
seg_clamped_charge count stride seg_bytes = elim (checked_mul count stride) [
  | none ↦ seg_bytes
  | some v ↦ min v seg_bytes
]

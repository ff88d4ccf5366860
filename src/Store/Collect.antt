-- ===== src/Store/Collect.antt =====
-- store/gc_collect.rs: the mark-sweep collector over the object heap and the two reclaimable arenas.
-- A worklist stands from its last element, which is the next to be taken; a `HashSet` of indices is
-- a list without repetition. `struct_fields` and `array_field` are the engine's lookups of a
-- canonical type's fields, which materialise the type registry.
pub mod Children
pub mod Roots
pub mod Names
pub mod Holds
pub mod Seen
pub mod Laws
pub mod Reach
pub mod Reclaims
pub mod Correct
use submilli_wasm.Base.{
  ℕ, zero, suc, ◌+◌, ◌-◌, ◌*◌, ◌%◌, ◌≡◌, Option, none, some, Bool, true, false, List, [], ◌∷◌, ◌++◌,
  map, length, get_elem?, take, drop, ltb, leb, ◌==◌, ◌||◌, if◌then◌else◌, not, String,
}
use submilli_wasm.Base.Bytes.{from_le_bytes}
use submilli_wasm.Worklist.{run}
use submilli_wasm.Error.{Result, ok, err, Error, internal, gc_metadata, ◌>>=◌, ok_or}
use submilli_wasm.State.{M, ◌>>◌, then_run, modify}
use submilli_wasm.Word.{checked_add, saturating_add, saturating_mul}
use submilli_wasm.Exec.Value.{RefKind, Val, Ref}
use submilli_wasm.Exec.Cell.{null_ref}
use submilli_wasm.Canon.Layout.{
  Slot, StorageType, StructLayout, ArrayLayout, elem_at, for_struct, for_array,
}
use submilli_wasm.Store.Reclaim.{ReclaimArena, entry, sweep}
use submilli_wasm.Store.Gc.{
  GcHeap, GcObject, ObjKind, AnyRefHandle, decode_anyref_handle, array_len, extern_index, object,
  mark, clear_marks, credit, sweep_heap,
}

pub data Reached : Type 0 where
  gc extern exn : ℕ → Reached

-- An entry of the externref arena; the host's payload is opaque to the store.
pub data ExternEntry : Type 0 where
  host : ExternEntry
  internal_any : ℕ → ExternEntry

pub record ExnEntity : Type 0 where
  pub tag : ℕ
  pub args : List Val

abbrev pub arena_entry_overhead : ℕ
arena_entry_overhead = 64

unfoldable pub extern_size : ExternEntry → ℕ
extern_size e = arena_entry_overhead

-- `size_of::<Val>()` on a 64-bit host.
abbrev pub size_of_val : ℕ
size_of_val = 32

unfoldable pub exn_charge : ℕ → ℕ
exn_charge n_args = saturating_add arena_entry_overhead (saturating_mul n_args size_of_val)

unfoldable pub exn_size : ExnEntity → ℕ
exn_size e = exn_charge (length e.args)

-- What the collector reads and writes of `StoreInner`: the three arenas, and the roots in globals,
-- tables, element segments, the pending exception and the host's handles.
pub record StoreInner : Type 0 where
  pub heap : GcHeap
  pub externrefs : ReclaimArena ExternEntry
  pub exns : ReclaimArena ExnEntity
  pub globals : List Val
  pub tables : List (List Ref)
  pub segments : List (List (List Ref))
  pub pending_exception : Option ℕ
  pub gc_roots : List (ℕ × RefKind)

-- The state of a trace: the heap with its marks, and the two sets.
pub record Trace : Type 0 where
  pub heap : GcHeap
  pub extern_seen : List ℕ
  pub exn_seen : List ℕ

abbrev pub metadata : String → Error
metadata text = internal (gc_metadata text)

unfoldable pub seed_handle : List Reached → ℕ → RefKind → List Reached
seed_handle work handle kind = if handle == null_ref then work else elim kind [
  | RefKind.func ↦ work
  | RefKind.any ↦ elim (decode_anyref_handle handle) [
    | AnyRefHandle.slot i ↦ Reached.gc i ∷ work
    | AnyRefHandle.i31 v ↦ work
  ]
  | RefKind.extern ↦ Reached.extern handle ∷ work
  | RefKind.exn ↦ Reached.exn handle ∷ work
]

unfoldable pub seed_val : List Reached → Val → List Reached
seed_val work (Val.extern_ref (some r)) = seed_handle work r RefKind.extern
seed_val work (Val.any_ref (some r)) = seed_handle work r RefKind.any
seed_val work (Val.exn_ref (some r)) = seed_handle work r RefKind.exn
seed_val work _ = work

unfoldable pub seed_ref : List Reached → Ref → List Reached
seed_ref work (Ref.extern (some r)) = seed_handle work r RefKind.extern
seed_ref work (Ref.any (some r)) = seed_handle work r RefKind.any
seed_ref work (Ref.exn (some r)) = seed_handle work r RefKind.exn
seed_ref work _ = work

-- `for x in xs { seed(work, x) }`.
abbrev pub seed_each {ℓ} :
    {A : Type ℓ} → (List Reached → A → List Reached) → List Reached → List A → List Reached
seed_each seed work [] = work
seed_each seed work (x ∷ xs) = seed_each seed (seed work x) xs

abbrev pub seed_pending : List Reached → Option ℕ → List Reached
seed_pending work none = work
seed_pending work (some e) = Reached.exn e ∷ work

unfoldable pub seed_entity_roots : StoreInner → List Reached → List Reached
seed_entity_roots s work =
    let with_globals = seed_each seed_val work s.globals in
    let with_tables = seed_each (seed_each seed_ref) with_globals s.tables in
    let with_segments = seed_each (seed_each (seed_each seed_ref)) with_tables s.segments in
    let with_exception = seed_pending with_segments s.pending_exception in
    seed_each (λ w root. seed_handle w root.0 root.1) with_exception s.gc_roots

-- `data.get(start..end)`.
abbrev pub get_range : List ℕ → ℕ → ℕ → Option (List ℕ)
get_range bytes start end =
    if leb start end
    then if leb end (length bytes) then some (take (end - start) (drop start bytes)) else none
    else none

unfoldable pub seed_slot : List Reached → Slot → List ℕ → Result (List Reached)
seed_slot work (Slot.scalar offset kind) bytes = ok work
seed_slot work (Slot.ref offset kind) bytes = do
  end ← ok_or (checked_add offset 4) (metadata "reference slot offset overflow")
  held ← ok_or (get_range bytes offset end) (metadata "reference slot exceeds object body")
  ok (seed_handle work (from_le_bytes (take 4 held)) kind)

unfoldable pub seed_fields : List Reached → List Slot → List ℕ → Result (List Reached)
seed_fields work [] bytes = ok work
seed_fields work (slot ∷ slots) bytes = do
  more ← seed_slot work slot bytes
  seed_fields more slots bytes

-- Elements `i` to `i + n`.
unfoldable pub seed_elems : List Reached → ArrayLayout → ℕ → ℕ → List ℕ → Result (List Reached)
seed_elems work layout zero i bytes = ok work
seed_elems work layout (suc n) i bytes = do
  more ← seed_slot work (elem_at layout i) bytes
  seed_elems more layout n (i + 1) bytes

-- `map_err(|_| ..)`.
abbrev pub or_else {ℓ} : {A : Type ℓ} → Result A → Error → Result A
or_else (ok a) e = ok a
or_else (err f) e = err e

unfoldable pub trace_array : ArrayLayout → GcObject → List Reached → Result (List Reached)
trace_array layout o work =
    if (layout.stride == 0) || not (length o.data_of % layout.stride == 0)
    then err (metadata "array body does not match its element layout")
    else seed_elems work layout (array_len o layout.stride) 0 o.data_of

unfoldable pub trace_extern : StoreInner → ℕ → List Reached → Result (List Reached)
trace_extern s index work = do
  held ← ok_or (entry s.externrefs index) (metadata "dangling externref root")
  elim held [
    | ExternEntry.internal_any handle ↦ ok (seed_handle work handle RefKind.any)
    | ExternEntry.host ↦ ok work
  ]

unfoldable pub trace_exn : StoreInner → ℕ → List Reached → Result (List Reached)
trace_exn s index work = do
  held ← ok_or (entry s.exns index) (metadata "dangling exception root")
  ok (seed_each seed_val work held.args)

abbrev pub contains : List ℕ → ℕ → Bool
contains [] i = false
contains (j ∷ seen) i = (j == i) || contains seen i

module _ (struct_fields : ℕ → Result (List StorageType))
    (array_field : ℕ → Result StorageType) where
  unfoldable pub trace_object : GcObject → List Reached → Result (List Reached)
  trace_object o work = elim o.header.kind [
    | ObjKind.struct ↦ do
      fields ← or_else (struct_fields o.header.type_id) (metadata "struct type metadata is missing")
      seed_fields work (for_struct fields).fields o.data_of
    | ObjKind.array ↦ do
      elem ← or_else (array_field o.header.type_id) (metadata "array type metadata is missing")
      trace_array (for_array elem) o work
    | ObjKind.extern ↦ do
      index ← ok_or (extern_index o) (metadata "extern wrapper body is truncated")
      ok (Reached.extern index ∷ work)
  ]

  unfoldable pub trace_gc : GcHeap → ℕ → List Reached → Result (List Reached)
  trace_gc h index work = do
    o ← ok_or (object h index) (metadata "marked GC object is missing")
    trace_object o work

  -- One round of the worklist.
  unfoldable pub trace_step :
      StoreInner → Reached → List Reached → Trace → Result (List Reached) × Trace
  trace_step s (Reached.gc i) work t = elim (object t.heap i) [
    | none ↦ (err (metadata "dangling GC root"), t)
    | some o ↦
        let (heap, new) = mark i t.heap in
        let t' = record t { heap = heap } in (if new then trace_gc heap i work else ok work, t')
  ]
  trace_step s (Reached.extern i) work t =
      if contains t.extern_seen i
      then (ok work, t)
      else (trace_extern s i work, record t { extern_seen = i ∷ t.extern_seen })
  trace_step s (Reached.exn i) work t =
      if contains t.exn_seen i
      then (ok work, t)
      else (trace_exn s i work, record t { exn_seen = i ∷ t.exn_seen })

  unfoldable pub trace_reachable :
      ℕ → StoreInner → List Reached → Option (Result (Unit {0}) × Trace)
  trace_reachable fuel s work =
      run (trace_step s) fuel work (record { heap = s.heap; extern_seen = []; exn_seen = [] })

-- The unreachable entries of the externref arena are freed and credited; so for exceptions.
unfoldable pub sweep_externrefs : List ℕ → M StoreInner (Unit {0})
sweep_externrefs seen s =
    let (freed, arena) = sweep (contains seen) extern_size s.externrefs in
    then_run (λ bytes. modify λ u. record u { heap = credit bytes u.heap })
      (freed, record s { externrefs = arena })

unfoldable pub sweep_exns : List ℕ → M StoreInner (Unit {0})
sweep_exns seen s =
    let (freed, arena) = sweep (contains seen) exn_size s.exns in
    then_run (λ bytes. modify λ u. record u { heap = credit bytes u.heap })
      (freed, record s { exns = arena })

unfoldable pub sweep_gc : M StoreInner (Unit {0})
sweep_gc s = let (done, heap) = sweep_heap s.heap in (done, record s { heap = heap })

unfoldable pub reclaim : Trace → M StoreInner (Unit {0})
reclaim t = do sweep_externrefs t.extern_seen; sweep_exns t.exn_seen; sweep_gc

-- What follows the trace: the sweep, or the marks are cleared.
unfoldable pub after_trace :
    StoreInner → Option (Result (Unit {0}) × Trace) → Option (Result (Unit {0}) × StoreInner)
after_trace s none = none
after_trace s (some (ok done, t)) = some (reclaim t (record s { heap = t.heap }))
after_trace s (some (err e, t)) = some (err e, record s { heap = clear_marks t.heap })

unfoldable pub roots_of : List (ℕ × RefKind) → StoreInner → List Reached
roots_of stack_roots s =
    seed_entity_roots s (seed_each (λ w root. seed_handle w root.0 root.1) [] stack_roots)

module _ (struct_fields : ℕ → Result (List StorageType))
    (array_field : ℕ → Result StorageType) where
  -- `none` if the trace runs out of fuel.
  unfoldable pub collect :
      ℕ → List (ℕ × RefKind) → StoreInner → Option (Result (Unit {0}) × StoreInner)
  collect fuel stack_roots s =
      if s.heap.collecting
      then after_trace s (trace_reachable struct_fields array_field fuel s (roots_of stack_roots s))
      else some (ok tt, s)

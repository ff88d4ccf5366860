-- ===== src/Store/Managed/Convert.antt =====
-- store/managed.rs: a reference that became an extern comes back.
use submilli_wasm.Base.{
  ℕ, ◌^◌, ◌<◌, ◌≡◌, refl, ap, none, some, true, length, take, arith, take_all, le→leb, lt→ltb,
}
use submilli_wasm.Base.Bytes.{to_le_bytes, length-to_le_bytes, from_le_bytes-to_le_bytes}
use submilli_wasm.Error.{ok}
use submilli_wasm.Word.{saturating_add}
use submilli_wasm.State.{then_run}
use submilli_wasm.Exec.Cell.{null_ref}
use submilli_wasm.Exec.Value.{Val}
use submilli_wasm.Store.Reclaim.{ReclaimArena, alloc, entry}
use submilli_wasm.Store.Reclaim.Allocation.{IsArena, alloc-Allocated}
use submilli_wasm.Store.Gc.{
  GcHeap, GcObject, charge, can_fit_limit, anyref_value, alloc_unreserved, alloc_object, byte_size,
  extern_wrapper, extern_index, object, AnyRefHandle, decode_anyref_handle, i31_tag,
}
use submilli_wasm.Store.Gc.Arena.{arena_of, with_arena, alloc_object-Allocated}
use submilli_wasm.Store.Collect.{StoreInner, ExternEntry, extern_size}
use submilli_wasm.Store.Managed.{
  charge_entry, place_extern, push_extern, wrapped_extern, internalize, externalize,
  extern_convert_any, any_convert_extern, alloc_gc_unreserved,
}

charged :
    (bytes : ℕ) (s : StoreInner)
    → can_fit_limit s.heap bytes ≡ true
    → charge_entry bytes s ≡ (ok tt, record s { heap = charge bytes s.heap })
unfolding charge_entry
charged bytes s fits = rw fits refl

pushed :
    (e : ExternEntry) (s : StoreInner) (index : ℕ) (arena : ReclaimArena ExternEntry)
    → can_fit_limit s.heap (extern_size e) ≡ true
    → alloc e s.externrefs ≡ (ok index, arena)
    → push_extern e s
      ≡ (ok index, record s { heap = charge (extern_size e) s.heap; externrefs = arena })
unfolding push_extern place_extern then_run
pushed e s index arena fits placed =
    rw (push_extern, charged (extern_size e) s fits) (rw placed refl)

brought_back :
    (handle index : ℕ) (s : StoreInner)
    → entry s.externrefs index ≡ some (ExternEntry.internal_any handle)
    → any_convert_extern (Val.extern_ref (some index)) s ≡ (ok (Val.any_ref (some handle)), s)
unfolding any_convert_extern externalize anyref_value then_run
brought_back handle index s held = rw held refl

wrapped :
    (handle index : ℕ) (s s' : StoreInner)
    → wrapped_extern handle s ≡ ok none
    → push_extern (ExternEntry.internal_any handle) s ≡ (ok index, s')
    → extern_convert_any (Val.any_ref (some handle)) s ≡ (ok (Val.extern_ref (some index)), s')
unfolding extern_convert_any internalize then_run
wrapped handle index s s' plain placed = rw plain (rw placed refl)

-- For an any reference that is no extern wrapper, in a store with room for an extern entry and
-- with its extern arena in order and not full, `extern.convert_any` gives an extern at an index
-- that held no entry, and `any.convert_extern` gives the reference back from it without changing
-- the store.
pub extern_convert_any-any_convert_extern :
    (handle : ℕ) (s : StoreInner)
    → wrapped_extern handle s ≡ ok none
    → can_fit_limit s.heap (extern_size (ExternEntry.internal_any handle)) ≡ true
    → IsArena s.externrefs
    → length s.externrefs.slots < 2 ^ 32
    → (index : ℕ) × ((s' : StoreInner) × ((extern_convert_any (Val.any_ref (some handle)) s
            ≡ (ok (Val.extern_ref (some index)), s'))
          × ((any_convert_extern (Val.extern_ref (some index)) s'
                ≡ (ok (Val.any_ref (some handle)), s'))
              × (entry s.externrefs index ≡ none))))
extern_convert_any-any_convert_extern handle s plain fits order room =
    let e : ExternEntry = ExternEntry.internal_any handle in
    let (index, (arena, (placed, new))) = alloc-Allocated e s.externrefs order room in
    let s' : StoreInner = record s { heap = charge (extern_size e) s.heap; externrefs = arena } in
    (
      index,
      (
        s',
        (
          wrapped handle index s s' plain (pushed e s index arena fits placed),
          (brought_back handle index s' new.placed, new.was_free),
        ),
      ),
    )

-- A wrapper names the extern that it wraps.
extern_index-extern_wrapper :
    (index : ℕ) → index < 2 ^ 32 → extern_index (extern_wrapper index) ≡ some index
unfolding extern_index extern_wrapper
extern_index-extern_wrapper index small =
    let chunk : take 4 (to_le_bytes 4 index) ≡ to_le_bytes 4 index =
      take_all 4 (to_le_bytes 4 index) (omega (arith, length-to_le_bytes 4 index)) in
    rw (le→leb 4 (length (to_le_bytes 4 index)) (omega (arith, length-to_le_bytes 4 index)), chunk)
      (ap some (from_le_bytes-to_le_bytes 4 index (omega arith)))

externalized :
    (index slot : ℕ) (s : StoreInner) (heap : GcHeap)
    → entry s.externrefs index ≡ some ExternEntry.host
    → can_fit_limit s.heap (byte_size (extern_wrapper index)) ≡ true
    → alloc_object (extern_wrapper index) s.heap ≡ (ok slot, heap)
    → any_convert_extern (Val.extern_ref (some index)) s
      ≡ (ok (Val.any_ref (some slot)), record s { heap = heap })
unfolding any_convert_extern externalize alloc_gc_unreserved alloc_unreserved anyref_value then_run
externalized index slot s heap held fits placed = rw (held, fits) (rw placed refl)

slot_handle : (slot : ℕ) → slot < null_ref → decode_anyref_handle slot ≡ AnyRefHandle.slot slot
unfolding decode_anyref_handle
slot_handle slot low = rw (decode_anyref_handle, lt→ltb slot i31_tag (omega arith)) refl

recovered :
    (index slot : ℕ) (s : StoreInner)
    → slot < null_ref
    → index < 2 ^ 32
    → object s.heap slot ≡ some (extern_wrapper index)
    → extern_convert_any (Val.any_ref (some slot)) s ≡ (ok (Val.extern_ref (some index)), s)
unfolding extern_convert_any wrapped_extern internalize then_run
recovered index slot s low small held =
    let found : wrapped_extern slot s ≡ ok (some index) =
      rw (wrapped_extern, slot_handle slot low, held)
        (ap ok (extern_index-extern_wrapper index small)) in
    rw found refl

-- For a host's extern, in a store with room for a wrapper object, with fewer than `NULL_REF` slots
-- and its heap in order, `any.convert_extern` puts a wrapper in a slot that held no object and
-- gives its reference, and `extern.convert_any` gives the same extern back from it without
-- changing the store.
pub any_convert_extern-extern_convert_any :
    (index : ℕ) (s : StoreInner)
    → index < 2 ^ 32
    → entry s.externrefs index ≡ some ExternEntry.host
    → can_fit_limit s.heap (byte_size (extern_wrapper index)) ≡ true
    → IsArena (arena_of s.heap)
    → length s.heap.slots < null_ref
    → (slot : ℕ) × ((s' : StoreInner) × ((any_convert_extern (Val.extern_ref (some index)) s
            ≡ (ok (Val.any_ref (some slot)), s'))
          × ((extern_convert_any (Val.any_ref (some slot)) s'
                ≡ (ok (Val.extern_ref (some index)), s'))
              × (object s.heap slot ≡ none))))
unfolding object entry
any_convert_extern-extern_convert_any index s small held fits order room =
    let o : GcObject = extern_wrapper index in
    let (slot, (a, (placed, (low, new)))) = alloc_object-Allocated o s.heap order room in
    let heap : GcHeap = with_arena s.heap a (saturating_add s.heap.used (byte_size o)) in
    (
      slot,
      (
        record s { heap = heap },
        (
          externalized index slot s heap held fits placed,
          (recovered index slot (record s { heap = heap }) low small new.placed, new.was_free),
        ),
      ),
    )

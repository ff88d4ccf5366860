-- ===== src/Store/Managed.antt =====
-- store/managed.rs: entries of the extern and exception arenas, the conversions between `anyref` and
-- `externref`, the host's roots and the pending exception.
-- A host's payload is opaque, and a handle carries neither store nor generation here.
pub mod Convert
use submilli_wasm.Base.{
  ℕ, ◌≡◌, Option, none, some, Bool, true, false, List, [], ◌∷◌, ◌++◌, length, take, if◌then◌else◌,
}
use submilli_wasm.Error.{Result, ok, err, Error, trap, allocation_too_large, panicked, ok_or}
use submilli_wasm.State.{M, ◌>>=◌, ◌>>◌, then_run, pure, fail, lift, gets, reads, modify}
use submilli_wasm.Exec.Value.{Val, RefKind}
use submilli_wasm.Store.Reclaim.{ReclaimArena, alloc, entry}
use submilli_wasm.Store.Gc.{
  GcHeap, GcObject, AnyRefHandle, decode_anyref_handle, anyref_value, extern_wrapper, extern_index,
  object, charge, can_fit_limit, alloc_object, alloc_unreserved,
}
use submilli_wasm.Store.Collect.{
  StoreInner, ExternEntry, ExnEntity, extern_size, exn_size, metadata,
}

-- The check and the charge before an entry is stored.
unfoldable pub charge_entry : ℕ → M StoreInner (Unit {0})
charge_entry bytes s =
    if can_fit_limit s.heap bytes
    then (ok tt, record s { heap = charge bytes s.heap })
    else (err (trap allocation_too_large), s)

unfoldable pub place_extern : ExternEntry → M StoreInner ℕ
place_extern e s =
    let (index, arena) = alloc e s.externrefs in (index, record s { externrefs = arena })

unfoldable pub push_extern : ExternEntry → M StoreInner ℕ
push_extern e = do charge_entry (extern_size e); place_extern e

unfoldable pub alloc_externref : M StoreInner ℕ
alloc_externref = push_extern ExternEntry.host

unfoldable pub place_exn : ExnEntity → M StoreInner ℕ
place_exn e s = let (index, arena) = alloc e s.exns in (index, record s { exns = arena })

unfoldable pub alloc_exn : ExnEntity → M StoreInner ℕ
alloc_exn e = do charge_entry (exn_size e); place_exn e

unfoldable pub exn : StoreInner → ℕ → Result ExnEntity
exn s index = ok_or (entry s.exns index) (metadata "missing in-flight exception")

-- The extern that the object behind a handle wraps, if it is a wrapper.
unfoldable pub wrapped_extern : ℕ → StoreInner → Result (Option ℕ)
wrapped_extern handle s = elim (decode_anyref_handle handle) [
  | AnyRefHandle.i31 v ↦ ok none
  | AnyRefHandle.slot i ↦ elim (object s.heap i) [
    | none ↦ err (metadata "extern.convert_any referenced a missing GC object")
    | some o ↦ ok (extern_index o)
  ]
]

-- The extern of a reference: the wrapped one, or a new entry that holds the reference.
unfoldable pub internalize : ℕ → Option ℕ → M StoreInner Val
internalize handle (some e) = pure (Val.extern_ref (some e))
internalize handle none = do
  index ← push_extern (ExternEntry.internal_any handle)
  pure (Val.extern_ref (some index))

unfoldable pub extern_convert_any : Val → M StoreInner Val
extern_convert_any (Val.any_ref none) = pure (Val.extern_ref none)
extern_convert_any (Val.any_ref (some handle)) = do
  wrapped ← reads (wrapped_extern handle)
  internalize handle wrapped
extern_convert_any (Val.extern_ref r) = pure (Val.extern_ref r)
extern_convert_any v = fail panicked

unfoldable pub alloc_gc_unreserved : GcObject → M StoreInner ℕ
alloc_gc_unreserved o s =
    let (slot, heap) = alloc_unreserved o s.heap in (slot, record s { heap = heap })

unfoldable pub alloc_gc : GcObject → M StoreInner ℕ
alloc_gc o s = let (slot, heap) = alloc_object o s.heap in (slot, record s { heap = heap })

-- The `anyref` of an extern's entry; the handle of a slot is the slot.
unfoldable pub externalize : ℕ → Option ExternEntry → M StoreInner Val
externalize index none = fail (metadata "any.convert_extern referenced a missing externref")
externalize index (some (ExternEntry.internal_any handle)) = pure (anyref_value handle)
externalize index (some ExternEntry.host) = do
  slot ← alloc_gc_unreserved (extern_wrapper index)
  pure (anyref_value slot)

unfoldable pub any_convert_extern : Val → M StoreInner Val
any_convert_extern (Val.extern_ref none) = pure (Val.any_ref none)
any_convert_extern (Val.extern_ref (some index)) = do
  held ← gets (λ s. entry s.externrefs index)
  externalize index held
any_convert_extern (Val.any_ref r) = pure (Val.any_ref r)
any_convert_extern v = fail panicked

unfoldable pub push_gc_root : ℕ → RefKind → StoreInner → StoreInner
push_gc_root handle kind s = record s { gc_roots = s.gc_roots ++ (handle, kind) ∷ [] }

unfoldable pub gc_roots_mark : StoreInner → ℕ
gc_roots_mark s = length s.gc_roots

unfoldable pub gc_roots_truncate : ℕ → StoreInner → StoreInner
gc_roots_truncate mark s = record s { gc_roots = take mark s.gc_roots }

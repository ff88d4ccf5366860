-- ===== src/Store/Tests/Managed.antt =====
-- Instances of the theorems on store/managed.rs, at the store of the collector's tests.
use submilli_wasm.Base.{ℕ, ◌≡◌, ◌<◌, refl, none, some, true, arith, length}
use submilli_wasm.Base.Bytes.{to_le_bytes}
use submilli_wasm.Error.{ok}
use submilli_wasm.Word.{saturating_add, checked_add}
use submilli_wasm.Exec.Cell.{null_ref}
use submilli_wasm.Exec.Value.{Val}
use submilli_wasm.Store.Reclaim.{entry}
use submilli_wasm.Store.Gc.{
  byte_size, extern_wrapper, new_struct, can_fit_limit, unreserved_ceiling, decode_anyref_handle,
  object, extern_index,
}
use submilli_wasm.Store.Collect.{StoreInner, ExternEntry, extern_size}
use submilli_wasm.Store.Managed.{wrapped_extern, extern_convert_any, any_convert_extern}
use submilli_wasm.Store.Managed.Convert.{
  extern_convert_any-any_convert_extern, any_convert_extern-extern_convert_any,
}
use submilli_wasm.Store.Tests.Collector.{two_objects, store_of_two, store_of_two-IsCollectable}

plain_object : wrapped_extern 1 store_of_two ≡ ok none
unfolding wrapped_extern decode_anyref_handle object extern_index new_struct two_objects to_le_bytes
plain_object = refl

room_for_entry : can_fit_limit store_of_two.heap (extern_size (ExternEntry.internal_any 1)) ≡ true
unfolding can_fit_limit unreserved_ceiling extern_size saturating_add checked_add two_objects
room_for_entry = refl

extern_convert_any-any_convert_extern_example :
    (index : ℕ) × ((s' : StoreInner) × ((extern_convert_any (Val.any_ref (some 1)) store_of_two
          ≡ (ok (Val.extern_ref (some index)), s'))
        × ((any_convert_extern (Val.extern_ref (some index)) s' ≡ (ok (Val.any_ref (some 1)), s'))
            × (entry store_of_two.externrefs index ≡ none))))
extern_convert_any-any_convert_extern_example =
    extern_convert_any-any_convert_extern 1 store_of_two plain_object room_for_entry
      store_of_two-IsCollectable.extern_order (omega arith)

room_for_wrapper : can_fit_limit store_of_two.heap (byte_size (extern_wrapper 0)) ≡ true
unfolding can_fit_limit unreserved_ceiling byte_size extern_wrapper to_le_bytes saturating_add
    checked_add two_objects
room_for_wrapper = refl

host_extern : entry store_of_two.externrefs 0 ≡ some ExternEntry.host
unfolding entry
host_extern = refl

two_slots : length store_of_two.heap.slots < null_ref
unfolding two_objects
two_slots = omega arith

any_convert_extern-extern_convert_any_example :
    (slot : ℕ) × ((s' : StoreInner) × ((any_convert_extern (Val.extern_ref (some 0)) store_of_two
          ≡ (ok (Val.any_ref (some slot)), s'))
        × ((extern_convert_any (Val.any_ref (some slot)) s' ≡ (ok (Val.extern_ref (some 0)), s'))
            × (object store_of_two.heap slot ≡ none))))
any_convert_extern-extern_convert_any_example =
    any_convert_extern-extern_convert_any 0 store_of_two (omega arith) host_extern room_for_wrapper
      store_of_two-IsCollectable.heap_order two_slots

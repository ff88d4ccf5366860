-- ===== src/Canon/Tests.antt =====
-- Instances of the theorems on canon/layout.rs at concrete types.
use submilli_wasm.Base.{◌+◌, ◌*◌, ◌≤◌, ◌≡◌, refl, true, List, [], ◌∷◌, arith}
use submilli_wasm.Exec.Value.{HeapType, ValType}
use submilli_wasm.Canon.Layout.{
  StorageType, offset, slot_width, for_struct, for_array, elem_at, body_size, width, array_of,
  pub_field_slot, pub_val_slot,
}
use submilli_wasm.Canon.Layout.Placement.{LaidOut, for_struct-LaidOut, elem_at-body_size}

abbrev three_fields : List StorageType
three_fields =
    StorageType.i8
    ∷ StorageType.val_type ValType.i64
    ∷ StorageType.val_type (ValType.ref true HeapType.any)
    ∷ []

for_struct-LaidOut_example :
    LaidOut 0 (for_struct three_fields).fields (for_struct three_fields).size
for_struct-LaidOut_example = for_struct-LaidOut three_fields (omega arith)

abbrev of_i64 : StorageType
of_i64 = StorageType.val_type ValType.i64

stride_of_i64 : (for_array of_i64).stride ≡ 8
unfolding for_array array_of pub_field_slot pub_val_slot slot_width width
stride_of_i64 = refl

elem_at-body_size_example :
    (offset (elem_at (for_array of_i64) 3) ≡ 3 * (for_array of_i64).stride)
    × ((slot_width (elem_at (for_array of_i64) 3) ≡ (for_array of_i64).stride)
        × (offset (elem_at (for_array of_i64) 3) + slot_width (elem_at (for_array of_i64) 3)
            ≤ body_size (for_array of_i64) 10))
elem_at-body_size_example =
    elem_at-body_size of_i64 3 10 (omega arith) (omega (arith, stride_of_i64))

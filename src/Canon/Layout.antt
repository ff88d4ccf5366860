-- ===== src/Canon/Layout.antt =====
-- canon/layout.rs: the packed byte layout of a struct or an array.
-- `usize` sums and products wrap, as in a release build. The public `ValType` has no `v128` here,
-- since `v128` needs the `simd` feature; the internal `IrVal` has it.
pub mod Placement
use submilli_wasm.Base.{
  ℕ, ◌+◌, ◌*◌, ◌%◌, ◌^◌, Option, none, some, Bool, true, false, List, [], ◌∷◌, map, get_elem?,
}
use submilli_wasm.Exec.Value.{RefKind, ValType, IrVal}
use submilli_wasm.Exec.Cell.{refkind_of_heap, refkind_of_irheap}

abbrev pub ref_width : ℕ
ref_width = 4

pub data ScalarKind : Type 0 where
  i8 i16 i32 i64 f32 f64 v128 : ScalarKind

unfoldable pub width : ScalarKind → ℕ
width ScalarKind.i8 = 1
width ScalarKind.i16 = 2
width ScalarKind.i32 = 4
width ScalarKind.f32 = 4
width ScalarKind.i64 = 8
width ScalarKind.f64 = 8
width ScalarKind.v128 = 16

unfoldable pub is_packed : ScalarKind → Bool
is_packed ScalarKind.i8 = true
is_packed ScalarKind.i16 = true
is_packed _ = false

pub data Slot : Type 0 where
  scalar : ℕ → ScalarKind → Slot
  ref : ℕ → RefKind → Slot

abbrev pub offset : Slot → ℕ
offset (Slot.scalar at kind) = at
offset (Slot.ref at kind) = at

unfoldable pub slot_width : Slot → ℕ
slot_width (Slot.scalar at kind) = width kind
slot_width (Slot.ref at kind) = ref_width

pub record StructLayout : Type 0 where
  pub fields : List Slot
  pub size : ℕ

pub record ArrayLayout : Type 0 where
  pub elem_slot : Slot
  pub stride : ℕ

-- The slots from byte `at` on, and the byte after the last.
unfoldable pub lay_out : ℕ → List (ℕ → Slot) → List Slot × ℕ
lay_out at [] = ([], at)
lay_out at (slot_at ∷ rest) =
    let (slots, end) = lay_out ((at + slot_width (slot_at at)) % 2 ^ 64) rest in
    (slot_at at ∷ slots, end)

-- `StructLayout::of` and `ArrayLayout::of`.
unfoldable pub struct_of : List (ℕ → Slot) → StructLayout
struct_of slots = let (fields, size) = lay_out 0 slots in record { fields = fields; size = size }

unfoldable pub array_of : Slot → ArrayLayout
array_of elem_slot = record { elem_slot = elem_slot; stride = slot_width elem_slot }

unfoldable pub field : StructLayout → ℕ → Option Slot
field layout i = get_elem? layout.fields i

abbrev pub with_offset : Slot → ℕ → Slot
with_offset (Slot.scalar _ kind) at = Slot.scalar at kind
with_offset (Slot.ref _ kind) at = Slot.ref at kind

unfoldable pub elem_at : ArrayLayout → ℕ → Slot
elem_at layout i = with_offset layout.elem_slot (i * layout.stride % 2 ^ 64)

unfoldable pub body_size : ArrayLayout → ℕ → ℕ
body_size layout len = len * layout.stride % 2 ^ 64

pub data StorageType : Type 0 where
  i8 i16 : StorageType
  val_type : ValType → StorageType

pub data IrStorage : Type 0 where
  i8 i16 : IrStorage
  val : IrVal → IrStorage

unfoldable pub pub_val_slot : ValType → ℕ → Slot
pub_val_slot ValType.i32 at = Slot.scalar at ScalarKind.i32
pub_val_slot ValType.i64 at = Slot.scalar at ScalarKind.i64
pub_val_slot ValType.f32 at = Slot.scalar at ScalarKind.f32
pub_val_slot ValType.f64 at = Slot.scalar at ScalarKind.f64
pub_val_slot (ValType.ref _ heap) at = Slot.ref at (refkind_of_heap heap)

unfoldable pub pub_field_slot : StorageType → ℕ → Slot
pub_field_slot StorageType.i8 at = Slot.scalar at ScalarKind.i8
pub_field_slot StorageType.i16 at = Slot.scalar at ScalarKind.i16
pub_field_slot (StorageType.val_type v) at = pub_val_slot v at

unfoldable pub val_slot : IrVal → ℕ → Slot
val_slot IrVal.i32 at = Slot.scalar at ScalarKind.i32
val_slot IrVal.i64 at = Slot.scalar at ScalarKind.i64
val_slot IrVal.f32 at = Slot.scalar at ScalarKind.f32
val_slot IrVal.f64 at = Slot.scalar at ScalarKind.f64
val_slot IrVal.v128 at = Slot.scalar at ScalarKind.v128
val_slot (IrVal.ref _ heap) at = Slot.ref at (refkind_of_irheap heap)

unfoldable pub field_slot : IrStorage → ℕ → Slot
field_slot IrStorage.i8 at = Slot.scalar at ScalarKind.i8
field_slot IrStorage.i16 at = Slot.scalar at ScalarKind.i16
field_slot (IrStorage.val v) at = val_slot v at

unfoldable pub for_struct : List StorageType → StructLayout
for_struct fields = struct_of (map pub_field_slot fields)

unfoldable pub for_array : StorageType → ArrayLayout
for_array elem = array_of (pub_field_slot elem 0)

-- The two layouts that an aggregate's body has; the storage of an `IrField` is what it reads.
pub data Layout : Type 0 where
  struct : StructLayout → Layout
  array : ArrayLayout → Layout

pub data CompositeBody : Type 0 where
  func : List IrVal → List IrVal → CompositeBody
  struct : List IrStorage → CompositeBody
  array : IrStorage → CompositeBody

unfoldable pub from_body : CompositeBody → Option Layout
from_body (CompositeBody.func params results) = none
from_body (CompositeBody.struct fields) = some (Layout.struct (struct_of (map field_slot fields)))
from_body (CompositeBody.array elem) = some (Layout.array (array_of (field_slot elem 0)))

unfoldable pub as_struct : Layout → Option StructLayout
as_struct (Layout.struct layout) = some layout
as_struct (Layout.array layout) = none

unfoldable pub as_array : Layout → Option ArrayLayout
as_array (Layout.array layout) = some layout
as_array (Layout.struct layout) = none

-- ===== src/Exec/Cell.antt =====
-- exec/cell.rs and store/gc_codec.rs: the untyped operand cell, its root tag and the value codec.
use submilli_wasm.Base.{
  ℕ, Option, some, Bool, List, ◌++◌, length, take, drop, replicate, if◌then◌else◌, ◌==◌,
}
use submilli_wasm.Base.Bytes.{to_le_bytes, from_le_bytes}
use submilli_wasm.Exec.Value.{HeapType, IrHeap, AggKind, RefKind, ValType, Val}

abbrev pub slot_bytes : ℕ
slot_bytes = 8

abbrev pub null_ref : ℕ
null_ref = 0x7fff_ffff

-- `[u8; SLOT_BYTES]`.
abbrev pub Cell : Type 0
Cell = List ℕ

-- `RefTag(u8)` with its five values.
pub data RefTag : Type 0 where
  untagged func extern any exn : RefTag

unfoldable pub tag_byte : RefTag → ℕ
tag_byte RefTag.untagged = 0
tag_byte RefTag.func = 1
tag_byte RefTag.extern = 2
tag_byte RefTag.any = 3
tag_byte RefTag.exn = 4

abbrev pub tag_eq : RefTag → RefTag → Bool
unfolding tag_byte
tag_eq a b = tag_byte a == tag_byte b

unfoldable pub of_val : Val → RefTag
of_val (Val.func_ref _) = RefTag.func
of_val (Val.extern_ref _) = RefTag.extern
of_val (Val.any_ref _) = RefTag.any
of_val (Val.exn_ref _) = RefTag.exn
of_val _ = RefTag.untagged

unfoldable pub of_refkind : RefKind → RefTag
of_refkind RefKind.func = RefTag.func
of_refkind RefKind.extern = RefTag.extern
of_refkind RefKind.any = RefTag.any
of_refkind RefKind.exn = RefTag.exn

unfoldable pub refkind : RefTag → Option RefKind
refkind RefTag.func = some RefKind.func
refkind RefTag.extern = some RefKind.extern
refkind RefTag.any = some RefKind.any
refkind RefTag.exn = some RefKind.exn
refkind RefTag.untagged = Option.none

unfoldable pub refkind_of_heap : HeapType → RefKind
refkind_of_heap HeapType.func = RefKind.func
refkind_of_heap HeapType.no_func = RefKind.func
refkind_of_heap (HeapType.concrete_func _) = RefKind.func
refkind_of_heap HeapType.extern = RefKind.extern
refkind_of_heap HeapType.no_extern = RefKind.extern
refkind_of_heap HeapType.exn = RefKind.exn
refkind_of_heap HeapType.no_exn = RefKind.exn
refkind_of_heap _ = RefKind.any

unfoldable pub refkind_of_irheap : IrHeap → RefKind
refkind_of_irheap IrHeap.func = RefKind.func
refkind_of_irheap IrHeap.no_func = RefKind.func
refkind_of_irheap (IrHeap.concrete _ AggKind.func) = RefKind.func
refkind_of_irheap IrHeap.extern = RefKind.extern
refkind_of_irheap IrHeap.no_extern = RefKind.extern
refkind_of_irheap IrHeap.exn = RefKind.exn
refkind_of_irheap IrHeap.no_exn = RefKind.exn
refkind_of_irheap _ = RefKind.any

-- `lo::<N>()`: the low bytes.
unfoldable pub lo : ℕ → Cell → List ℕ
lo n c = take n c

-- `of_bytes`: the given bytes, and zeros above them.
unfoldable pub of_bytes : List ℕ → Cell
of_bytes bytes = bytes ++ drop (length bytes) (replicate slot_bytes 0)

unfoldable pub unwrap_i32 : Cell → ℕ
unfolding lo
unwrap_i32 c = from_le_bytes (lo 4 c)

unfoldable pub unwrap_i64 : Cell → ℕ
unfolding lo
unwrap_i64 c = from_le_bytes (lo 8 c)

unfoldable pub unwrap_f32 : Cell → ℕ
unfolding lo
unwrap_f32 c = from_le_bytes (lo 4 c)

unfoldable pub unwrap_f64 : Cell → ℕ
unfolding lo
unwrap_f64 c = from_le_bytes (lo 8 c)

unfoldable pub from_i32 : ℕ → Cell
from_i32 v = of_bytes (to_le_bytes 4 v)

unfoldable pub from_i64 : ℕ → Cell
from_i64 v = of_bytes (to_le_bytes 8 v)

unfoldable pub handle : Cell → ℕ
handle c = from_le_bytes (lo 4 c)

unfoldable pub is_null : Cell → Bool
is_null c = handle c == null_ref

-- `ref_handle`: the stored handle of a reference.
abbrev pub ref_handle : Option ℕ → ℕ
ref_handle Option.none = null_ref
ref_handle (some h) = h

-- `encode`: `write_slot` at offset 0 of a zeroed cell.
unfoldable pub encode : Val → Cell
encode (Val.i32 v) = of_bytes (to_le_bytes 4 v)
encode (Val.i64 v) = of_bytes (to_le_bytes 8 v)
encode (Val.f32 v) = of_bytes (to_le_bytes 4 v)
encode (Val.f64 v) = of_bytes (to_le_bytes 8 v)
encode (Val.func_ref r) = of_bytes (to_le_bytes 4 (ref_handle r))
encode (Val.extern_ref r) = of_bytes (to_le_bytes 4 (ref_handle r))
encode (Val.any_ref r) = of_bytes (to_le_bytes 4 (ref_handle r))
encode (Val.exn_ref r) = of_bytes (to_le_bytes 4 (ref_handle r))

abbrev pub ref_of : RefKind → Option ℕ → Val
ref_of RefKind.func r = Val.func_ref r
ref_of RefKind.extern r = Val.extern_ref r
ref_of RefKind.any r = Val.any_ref r
ref_of RefKind.exn r = Val.exn_ref r

-- `read_ref`.
unfoldable pub read_ref : RefKind → ℕ → Val
read_ref kind handle = ref_of kind (if handle == null_ref then Option.none else some handle)

-- `decode`: `read_slot` at offset 0.
unfoldable pub decode : Cell → ValType → Val
unfolding lo
decode c ValType.i32 = Val.i32 (from_le_bytes (lo 4 c))
decode c ValType.i64 = Val.i64 (from_le_bytes (lo 8 c))
decode c ValType.f32 = Val.f32 (from_le_bytes (lo 4 c))
decode c ValType.f64 = Val.f64 (from_le_bytes (lo 8 c))
decode c (ValType.ref _ heap) = read_ref (refkind_of_heap heap) (from_le_bytes (lo 4 c))

unfoldable pub expected_tag : ValType → RefTag
expected_tag (ValType.ref _ heap) = of_refkind (refkind_of_heap heap)
expected_tag _ = RefTag.untagged

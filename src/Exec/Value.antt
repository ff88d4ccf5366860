-- ===== src/Exec/Value.antt =====
-- value/types.rs, value/val.rs and canon/mod.rs: value types and values.
-- Every number is a bit pattern: an `i32` is below 2 ^ 32 and read by two's complement where the
-- sign matters. A reference is the raw handle of its arena; `v128` needs the `simd` feature, which
-- is off by default and not modelled.
use submilli_wasm.Base.{ℕ, Option, Bool}

pub data AggKind : Type 0 where
  func struct array : AggKind

pub data HeapType : Type 0 where
  func no_func extern no_extern any eq i31 struct array exn no_exn none : HeapType
  concrete_struct concrete_array concrete_func : ℕ → HeapType

pub data IrHeap : Type 0 where
  func no_func extern no_extern any eq i31 struct array exn no_exn none : IrHeap
  concrete : ℕ → AggKind → IrHeap

pub data RefKind : Type 0 where
  func extern any exn : RefKind

pub data ValType : Type 0 where
  i32 i64 f32 f64 : ValType
  ref : Bool → HeapType → ValType

pub data IrVal : Type 0 where
  i32 i64 f32 f64 v128 : IrVal
  ref : Bool → IrHeap → IrVal

pub data Val : Type 0 where
  i32 i64 f32 f64 : ℕ → Val
  func_ref extern_ref any_ref exn_ref : Option ℕ → Val

pub data Ref : Type 0 where
  func extern any exn : Option ℕ → Ref

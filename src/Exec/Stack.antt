-- ===== src/Exec/Stack.antt =====
-- exec/stack.rs: typed pushes and pops over the untyped cells, with the root tags in lockstep.
pub mod Sound
pub mod Operations
pub mod Typed
use submilli_wasm.Base.{
  ℕ, ◌+◌, ◌-◌, ◌%◌, ◌^◌, Option, none, some, Bool, true, false, not, ◌&&◌, ◌||◌, List, [], ◌∷◌,
  ◌++◌, map, length, get_elem?, set, take, drop, any, leb, ltb, ◌==◌, if◌then◌else◌,
}
use submilli_wasm.Base.Bytes.{to_le_bytes}
use submilli_wasm.Error.{Result, ok, err, Error, panicked, ok_or, bad_stack, bad_frame, bad_results}
use submilli_wasm.State.{M, ◌>>=◌, ◌>>◌, then_run, pure, fail, lift, gets, reads, modify}
use submilli_wasm.Word.{checked_sub}
use submilli_wasm.Exec.Value.{RefKind, ValType, IrVal, Val}
use submilli_wasm.Exec.Cell.{
  Cell, RefTag, null_ref, slot_bytes, tag_eq, of_val, of_refkind, refkind, refkind_of_irheap,
  of_bytes, unwrap_i32, unwrap_i64, unwrap_f32, unwrap_f64, handle, is_null, encode, decode,
  read_ref, expected_tag,
}
use submilli_wasm.Exec.Execution.{Frame, Execution, last?, index, slice_from, truncate, append}

-- The state's length check that most operations begin with.
abbrev pub in_lockstep : Execution → Bool
in_lockstep s = length s.values == length s.shadow

unfoldable pub operand_floor : Execution → Result ℕ
operand_floor s = elim (last? s.frames) [
  | none ↦ err (bad_frame "missing current frame")
  | some frame ↦ ok frame.operand_base
]

-- The index of the lowest of the `needed` top operands of the current frame.
unfoldable pub ensure_operands : ℕ → Execution → Result ℕ
ensure_operands needed s =
    if not (in_lockstep s)
    then err (bad_stack "value/shadow length mismatch")
    else elim (operand_floor s) [
      | err e ↦ err e
      | ok floor ↦
          if ltb (length s.values) floor
          then err (bad_stack "stack is below the current frame floor")
          else if ltb (length s.values - floor) needed
          then err (bad_stack "operand stack underflow")
          else ok (length s.values - needed)
    ]

unfoldable pub ensure_scalar_operands : ℕ → Execution → Result ℕ
ensure_scalar_operands needed s = elim (ensure_operands needed s) [
  | err e ↦ err e
  | ok base ↦ elim (slice_from s.shadow base) [
    | err e ↦ err e
    | ok tags ↦
        if any (λ tag. not (tag_eq tag RefTag.untagged)) tags
        then err (bad_stack "numeric operation found a reference tag")
        else ok base
  ]
]

unfoldable pub value_at : ℕ → Execution → Result Cell
value_at i s = index s.values i

unfoldable pub tag_at : ℕ → Execution → Result RefTag
tag_at i s = index s.shadow i

unfoldable pub pop_scalar : M Execution Cell
pop_scalar = do
  base ← reads (ensure_scalar_operands 1)
  cell ← reads (value_at base)
  modify (truncate base)
  pure cell

unfoldable pub push_scalar : List ℕ → M Execution (Unit {0})
push_scalar bytes = modify (append (of_bytes bytes) RefTag.untagged)

unfoldable pub push_i32 : ℕ → M Execution (Unit {0})
push_i32 v = push_scalar (to_le_bytes 4 v)

unfoldable pub push_i64 : ℕ → M Execution (Unit {0})
push_i64 v = push_scalar (to_le_bytes 8 v)

-- The raw-bits pushes of `f32.const` and `f64.const`, and `push_f32`, `push_f64` of a bit pattern.
unfoldable pub push_f32_bits : ℕ → M Execution (Unit {0})
push_f32_bits bits = push_scalar (to_le_bytes 4 bits)

unfoldable pub push_f64_bits : ℕ → M Execution (Unit {0})
push_f64_bits bits = push_scalar (to_le_bytes 8 bits)

-- The cell and tag of a local's default value.
unfoldable pub default_cell : IrVal → Cell × RefTag
default_cell (IrVal.ref _ heap) =
    (of_bytes (to_le_bytes 4 null_ref), of_refkind (refkind_of_irheap heap))
default_cell _ = (of_bytes (to_le_bytes 8 0), RefTag.untagged)

unfoldable pub push_default : IrVal → Execution → Execution
push_default ty = append (default_cell ty).0 (default_cell ty).1

unfoldable pub put_value : ℕ → Cell → Execution → Execution
put_value i cell s = record s { values = set s.values i cell }

unfoldable pub binop_cells : (Cell → Cell → Cell) → M Execution (Unit {0})
binop_cells f = do
  base ← reads (ensure_scalar_operands 2)
  a ← reads (value_at base)
  b ← reads (value_at (base + 1))
  modify (put_value base (f a b))
  modify (truncate (base + 1))

unfoldable pub binop_cells_try : (Cell → Cell → Result Cell) → M Execution (Unit {0})
binop_cells_try f = do
  base ← reads (ensure_scalar_operands 2)
  a ← reads (value_at base)
  b ← reads (value_at (base + 1))
  result ← lift (f a b)
  modify (put_value base result)
  modify (truncate (base + 1))

unfoldable pub unop_cell : (Cell → Cell) → M Execution (Unit {0})
unop_cell f = do
  base ← reads (ensure_scalar_operands 1)
  a ← reads (value_at base)
  modify (put_value base (f a))

unfoldable pub pop : M Execution Cell
pop = do
  base ← reads (ensure_operands 1)
  cell ← reads (value_at base)
  modify (truncate base)
  pure cell

unfoldable pub pop_tagged : M Execution (Cell × RefTag)
pop_tagged = do
  base ← reads (ensure_operands 1)
  cell ← reads (value_at base)
  tag ← reads (tag_at base)
  modify (truncate base)
  pure (cell, tag)

unfoldable pub push : Val → M Execution (Unit {0})
push v = modify (append (encode v) (of_val v))

unfoldable pub push_cell : Cell → RefTag → M Execution (Unit {0})
push_cell cell tag = modify (append cell tag)

unfoldable pub cell_at : ℕ → Execution → Result (Cell × RefTag)
cell_at i s =
    if not (in_lockstep s)
    then err (bad_stack "value/shadow length mismatch")
    else elim (get_elem? s.values i) [
      | none ↦ err (bad_stack "local index out of bounds")
      | some cell ↦ elim (tag_at i s) [ err e ↦ err e | ok tag ↦ ok (cell, tag) ]
    ]

unfoldable pub set_cell : ℕ → Cell → RefTag → M Execution (Unit {0})
set_cell i cell tag s =
    if not (in_lockstep s) || leb (length s.values) i
    then (err (bad_stack "local index out of bounds"), s)
    else (ok tt, record s { values = set s.values i cell; shadow = set s.shadow i tag })

unfoldable pub top_i32 : M Execution ℕ
top_i32 = do
  base ← reads (ensure_scalar_operands 1)
  cell ← reads (value_at base)
  pure (unwrap_i32 cell)

unfoldable pub top_cell : M Execution (Cell × RefTag)
top_cell = do
  base ← reads (ensure_operands 1)
  cell ← reads (value_at base)
  tag ← reads (tag_at base)
  pure (cell, tag)

unfoldable pub pop_i32 : M Execution ℕ
pop_i32 = do cell ← pop_scalar; pure (unwrap_i32 cell)

unfoldable pub pop_i64 : M Execution ℕ
pop_i64 = do cell ← pop_scalar; pure (unwrap_i64 cell)

unfoldable pub pop_f32 : M Execution ℕ
pop_f32 = do cell ← pop_scalar; pure (unwrap_f32 cell)

unfoldable pub pop_f64 : M Execution ℕ
pop_f64 = do cell ← pop_scalar; pure (unwrap_f64 cell)

unfoldable pub pop_i32_pair : M Execution (ℕ × ℕ)
pop_i32_pair = do
  base ← reads (ensure_scalar_operands 2)
  a ← reads (value_at base)
  b ← reads (value_at (base + 1))
  modify (truncate base)
  pure (unwrap_i32 a, unwrap_i32 b)

unfoldable pub pop_index : Bool → M Execution ℕ
pop_index is_64 = do cell ← pop_scalar; pure (if is_64 then unwrap_i64 cell else unwrap_i32 cell)

-- `v as u32` keeps the low 32 bits.
unfoldable pub push_index : Bool → ℕ → M Execution (Unit {0})
push_index is_64 v = push (if is_64 then Val.i64 v else Val.i32 (v % 2 ^ 32))

abbrev pub require : Bool → Error → M Execution (Unit {0})
require true e = pure tt
require false e = fail e

unfoldable pub pop_ref : RefKind → M Execution Val
pop_ref kind = do
  base ← reads (ensure_operands 1)
  tag ← reads (tag_at base)
  require (tag_eq tag (of_refkind kind)) (bad_stack "reference tag does not match operand type")
  cell ← pop
  pure (read_ref kind (handle cell))

abbrev pub is_ref_tag : RefTag → Bool
is_ref_tag RefTag.untagged = false
is_ref_tag _ = true

unfoldable pub pop_tagged_ref : M Execution (Cell × RefTag)
pop_tagged_ref = do
  base ← reads (ensure_operands 1)
  tag ← reads (tag_at base)
  require (is_ref_tag tag) (bad_stack "reference operation found a scalar tag")
  cell ← reads (value_at base)
  modify (truncate base)
  pure (cell, tag)

unfoldable pub pop_typed : ValType → M Execution Val
pop_typed ty = do
  base ← reads (ensure_operands 1)
  tag ← reads (tag_at base)
  require (tag_eq tag (expected_tag ty)) (bad_stack "operand tag does not match value type")
  cell ← reads (value_at base)
  modify (truncate base)
  pure (decode cell ty)

unfoldable pub pop_select : M Execution (Cell × RefTag)
pop_select = do
  base ← reads (ensure_operands 3)
  a_tag ← reads (tag_at base)
  b_tag ← reads (tag_at (base + 1))
  c_tag ← reads (tag_at (base + 2))
  require (tag_eq a_tag b_tag && tag_eq c_tag RefTag.untagged)
      (bad_stack "select operand tag mismatch")
  a ← reads (value_at base)
  b ← reads (value_at (base + 1))
  c ← reads (value_at (base + 2))
  modify (truncate base)
  pure (if unwrap_i32 c == 0 then (b, b_tag) else (a, a_tag))

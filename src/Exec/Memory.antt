-- ===== src/Exec/Memory.antt =====
-- exec/memory.rs: bounds-checked loads and stores, and size, fill, copy, init and drop.
pub mod Bounds
pub mod Sound
pub mod Bulk
pub mod Linked
pub mod Total
use submilli_wasm.Base.{
  ℕ, ◌+◌, ◌-◌, ◌*◌, ◌%◌, ◌^◌, Bool, true, false, ◌&&◌, Option, none, some, List, [], ◌∷◌, length,
  get_elem?, set, replicate, slice, splice, leb, ltb, ◌==◌, if◌then◌else◌,
}
use submilli_wasm.Base.Bytes.{to_le_bytes, from_le_bytes}
use submilli_wasm.Error.{Result, ok, err, Error, trap, memory_out_of_bounds, panicked, ok_or}
use submilli_wasm.State.{M, ◌>>=◌, ◌>>◌, then_run, pure, fail, lift, reads, modify}
use submilli_wasm.Word.{u32_max, checked_add}
use submilli_wasm.Store.Entity.{MemoryEntity, size_pages}
use submilli_wasm.Exec.Arith.{extend_s}
use submilli_wasm.Exec.Execution.{index}
use submilli_wasm.Exec.Stack.{
  pop_i32, pop_i64, pop_f32, pop_f64, pop_index, push_i32, push_i64, push_f32_bits, push_f64_bits,
  push_index,
}
use submilli_wasm.Exec.Machine.{Machine, on_exec, mem, entity, put_bytes}

abbrev pub oob : Error
oob = trap memory_out_of_bounds

abbrev pub big_memarg : ℕ
big_memarg = u32_max

-- `MemArg` and `BigMemArg` of module/op_types.rs.
pub record MemArg : Type 0 where
  pub offset : ℕ
  pub memory : ℕ

-- `resolve`: the memory index and the offset, from the pool if the offset is the sentinel.
unfoldable pub resolve : List MemArg → MemArg → Result MemArg
resolve big_memargs m = if m.offset == big_memarg then index big_memargs m.memory else ok m

unfoldable pub checked_range : ℕ → ℕ → ℕ → Result ℕ
checked_range start len total = elim (checked_add start len) [
  | none ↦ err oob
  | some end ↦ if leb end total then ok end else err oob
]

-- The address check of `mem_ea`, once the address operand is popped.
unfoldable pub effective_address : ℕ → ℕ → ℕ → ℕ → Result ℕ
effective_address n offset total addr = elim (checked_add addr offset) [
  | none ↦ err oob
  | some ea ↦ elim (checked_add ea n) [
    | none ↦ err oob
    | some end ↦ if ltb total end then err oob else ok ea
  ]
]

unfoldable pub mem_ea : ℕ → MemoryEntity → ℕ → M Machine ℕ
mem_ea n e offset = do
  addr ← on_exec (pop_index e.ty.is_64)
  lift (effective_address n offset (length e.bytes) addr)

-- `bytes[i..i + n]` as a value and as a target; both panic out of bounds.
unfoldable pub read_range : List ℕ → ℕ → ℕ → Result (List ℕ)
read_range bytes i n = if leb (i + n) (length bytes) then ok (slice bytes i n) else err panicked

unfoldable pub write_range : List ℕ → ℕ → List ℕ → Result (List ℕ)
write_range bytes i chunk =
    if leb (i + length chunk) (length bytes) then ok (splice bytes i chunk) else err panicked

unfoldable pub load_n : ℕ → List MemArg → MemArg → M Machine (List ℕ)
load_n n pool m = do
  arg ← lift (resolve pool m)
  handle ← reads (mem arg.memory)
  e ← reads (entity handle)
  ea ← mem_ea n e arg.offset
  lift (read_range e.bytes ea n)

unfoldable pub store_n : List MemArg → MemArg → List ℕ → M Machine (Unit {0})
store_n pool m bytes = do
  arg ← lift (resolve pool m)
  handle ← reads (mem arg.memory)
  e ← reads (entity handle)
  ea ← mem_ea (length bytes) e arg.offset
  written ← lift (write_range e.bytes ea bytes)
  modify (put_bytes handle e written)

unfoldable pub memory_size : ℕ → M Machine (Unit {0})
memory_size i = do
  handle ← reads (mem i)
  e ← reads (entity handle)
  on_exec (push_index e.ty.is_64 (size_pages e))

unfoldable pub memory_fill : ℕ → M Machine (Unit {0})
memory_fill i = do
  handle ← reads (mem i)
  e ← reads (entity handle)
  len ← on_exec (pop_index e.ty.is_64)
  val ← on_exec pop_i32
  dst ← on_exec (pop_index e.ty.is_64)
  end ← lift (checked_range dst len (length e.bytes))
  written ← lift (write_range e.bytes dst (replicate (end - dst) (val % 256)))
  modify (put_bytes handle e written)

-- The same index copies within the memory, two indices through a copy of the source range.
unfoldable pub memory_copy : ℕ → ℕ → M Machine (Unit {0})
memory_copy dst_i src_i = do
  dst_mem ← reads (mem dst_i)
  src_mem ← reads (mem src_i)
  dst_e ← reads (entity dst_mem)
  src_e ← reads (entity src_mem)
  len ← on_exec (pop_index (dst_e.ty.is_64 && src_e.ty.is_64))
  src ← on_exec (pop_index src_e.ty.is_64)
  dst ← on_exec (pop_index dst_e.ty.is_64)
  src_end ← lift (checked_range src len (length src_e.bytes))
  dst_end ← lift (checked_range dst len (length dst_e.bytes))
  chunk ← lift (read_range (if dst_i == src_i then dst_e.bytes else src_e.bytes) src len)
  written ← lift (write_range dst_e.bytes dst chunk)
  modify (put_bytes dst_mem dst_e written)

unfoldable pub memory_init : ℕ → ℕ → M Machine (Unit {0})
memory_init seg mem_i = do
  handle ← reads (mem mem_i)
  e ← reads (entity handle)
  len ← on_exec pop_i32
  src ← on_exec pop_i32
  dst ← on_exec (pop_index e.ty.is_64)
  dropped ← reads (λ s. index s.dropped_data seg)
  segment ← reads (λ s. index s.datas seg)
  src_end ← lift (checked_range src len (if dropped then 0 else length segment))
  dst_end ← lift (checked_range dst len (length e.bytes))
  chunk ← lift (read_range segment src (src_end - src))
  written ← lift (write_range e.bytes dst chunk)
  modify (put_bytes handle e written)

unfoldable pub data_drop : ℕ → M Machine (Unit {0})
data_drop seg s =
    if ltb seg (length s.dropped_data)
    then (ok tt, record s { dropped_data = set s.dropped_data seg true })
    else (err panicked, s)

-- The memory part of `Op`.
pub data MemoryOp : Type 0 where
  i32_load i64_load f32_load f64_load i32_load8_s i32_load8_u i32_load16_s : MemArg → MemoryOp
  i32_load16_u i64_load8_s i64_load8_u i64_load16_s i64_load16_u i64_load32_s : MemArg → MemoryOp
  i64_load32_u i32_store i64_store f32_store f64_store i32_store8 i32_store16 : MemArg → MemoryOp
  i64_store8 i64_store16 i64_store32 : MemArg → MemoryOp
  op_memory_size op_memory_fill op_data_drop : ℕ → MemoryOp
  op_memory_copy op_memory_init : ℕ → ℕ → MemoryOp

-- A load of `n` bytes whose little-endian value is pushed.
abbrev pub load_push : ℕ → List MemArg → MemArg → (ℕ → M Machine (Unit {0})) → M Machine (Unit {0})
load_push n pool m push_it = load_n n pool m >>= λ b. push_it (from_le_bytes b)

unfoldable pub exec_memory : List MemArg → MemoryOp → M Machine (Unit {0})
exec_memory pool (i32_load m) = load_push 4 pool m λ v. on_exec (push_i32 v)
exec_memory pool (i64_load m) = load_push 8 pool m λ v. on_exec (push_i64 v)
exec_memory pool (f32_load m) = load_push 4 pool m λ v. on_exec (push_f32_bits v)
exec_memory pool (f64_load m) = load_push 8 pool m λ v. on_exec (push_f64_bits v)
exec_memory pool (i32_load8_s m) =
    load_push 1 pool m λ v. on_exec (push_i32 (extend_s (2 ^ 7) 32 v))
exec_memory pool (i32_load8_u m) = load_push 1 pool m λ v. on_exec (push_i32 v)
exec_memory pool (i32_load16_s m) =
    load_push 2 pool m λ v. on_exec (push_i32 (extend_s (2 ^ 15) 32 v))
exec_memory pool (i32_load16_u m) = load_push 2 pool m λ v. on_exec (push_i32 v)
exec_memory pool (i64_load8_s m) =
    load_push 1 pool m λ v. on_exec (push_i64 (extend_s (2 ^ 7) 64 v))
exec_memory pool (i64_load8_u m) = load_push 1 pool m λ v. on_exec (push_i64 v)
exec_memory pool (i64_load16_s m) =
    load_push 2 pool m λ v. on_exec (push_i64 (extend_s (2 ^ 15) 64 v))
exec_memory pool (i64_load16_u m) = load_push 2 pool m λ v. on_exec (push_i64 v)
exec_memory pool (i64_load32_s m) =
    load_push 4 pool m λ v. on_exec (push_i64 (extend_s (2 ^ 31) 64 v))
exec_memory pool (i64_load32_u m) = load_push 4 pool m λ v. on_exec (push_i64 v)
exec_memory pool (i32_store m) = do v ← on_exec pop_i32; store_n pool m (to_le_bytes 4 v)
exec_memory pool (i64_store m) = do v ← on_exec pop_i64; store_n pool m (to_le_bytes 8 v)
exec_memory pool (f32_store m) = do v ← on_exec pop_f32; store_n pool m (to_le_bytes 4 v)
exec_memory pool (f64_store m) = do v ← on_exec pop_f64; store_n pool m (to_le_bytes 8 v)
exec_memory pool (i32_store8 m) = do v ← on_exec pop_i32; store_n pool m (to_le_bytes 1 v)
exec_memory pool (i32_store16 m) = do v ← on_exec pop_i32; store_n pool m (to_le_bytes 2 v)
exec_memory pool (i64_store8 m) = do v ← on_exec pop_i64; store_n pool m (to_le_bytes 1 v)
exec_memory pool (i64_store16 m) = do v ← on_exec pop_i64; store_n pool m (to_le_bytes 2 v)
exec_memory pool (i64_store32 m) = do v ← on_exec pop_i64; store_n pool m (to_le_bytes 4 v)
exec_memory pool (op_memory_size i) = memory_size i
exec_memory pool (op_memory_fill i) = memory_fill i
exec_memory pool (op_data_drop seg) = data_drop seg
exec_memory pool (op_memory_copy dst_i src_i) = memory_copy dst_i src_i
exec_memory pool (op_memory_init seg i) = memory_init seg i

-- ===== src/Lib.antt =====
-- submilli-wasm: a WebAssembly interpreter that an embedder runs with bounded resources.
-- An engine compiles a module to a flat stream of instructions; a store owns the memories, tables
-- and instances; an execution runs the instructions of one call on its own stacks. This library
-- models the store's growth under a resource limiter, its object heap and reclaimable arenas with
-- their mark-sweep collection and its budget, the packed layout of objects, and the interpreter's
-- stacks, frames, exceptions, integer instructions and memory instructions.
--
-- Where each part of the program is modelled:
--   store/entity.rs    Store/Entity.antt: `MemoryEntity`, `TableEntity` and their operations; what
--                      growing and filling do is in Store/Entity/Pages and Store/Entity/Elements
--   store/limits.rs    Store/Limits.antt: the trait `ResourceLimiter` as a record of its methods, and
--                      `StoreLimits`; its builder in Store/Limits/Builder.antt
--   store/grow.rs      Store/Grow.antt: `grow_memory`, `grow_table` and the checks before an
--                      allocation; their outcomes in Store/Grow/Outcome, the bounds in Store/Grow/Bounds
--   store/reclaim.rs   Store/Reclaim.antt: the arena of externs and exceptions, and its sweep
--   store/gc.rs        Store/Gc.antt: the object heap; its handles in Store/Gc/Handle, the mark bitmap
--                      in Store/Gc/Marks, the heap as a reclaimable arena in Store/Gc/Arena
--   store/gc_collect.rs  Store/Collect.antt: the roots, the trace and the sweep; the trace is an
--                      instance (Store/Collect/Laws) of the worklist of Worklist.antt, and
--                      Store/Collect/Correct composes it with the three sweeps; the references
--                      that an object holds are described in Store/Collect/Holds, the roots in
--                      Store/Collect/Roots and what they lead to in Store/Collect/Reach
--   store/managed.rs   Store/Managed.antt; what the conversions do is in Store/Managed/Convert
--   exec/collect.rs    Store/Budget.antt, with the reservations of store/grow.rs: collect, then grow
--   canon/layout.rs    Canon/Layout.antt
--   trap.rs, error.rs  Error.antt
--   value/, canon/     Exec/Value.antt: the types of values that operands have
--   exec/cell.rs       Exec/Cell.antt, with the codec of store/gc_codec.rs at the operand stack
--   exec/stack.rs      Exec/Stack.antt; Exec/Stack/Sound.antt has what every operation keeps, and the
--                      rules by which a sequence of operations keeps it, Exec/Stack/Operations.antt
--                      one theorem per operation
--   exec/arith.rs      Exec/Arith.antt, and exec/numeric.rs Exec/Numeric.antt (the integer part)
--   exec/frame.rs      Exec/Frame.antt, and the calls entered by a host, of exec/mod.rs,
--                      Exec/Boundary.antt; the state of both is Exec/Execution.antt
--   exec/exn.rs        Exec/Exn.antt, with the tables of module/handler.rs; which clause catches is
--                      described in Exec/Exn/Clauses, what the handler finds in Exec/Exn/Landing, what
--                      frames the unwinder can go through and how it ends in Exec/Exn/Correct, and the
--                      run is Exec/Exn/Total
--   exec/memory.rs     Exec/Memory.antt, on the state of Exec/Machine.antt; what instantiation and
--                      validation ensure of its indices is Exec/Memory/Linked.antt
-- Paths of the program are below src/ of the repository.
--
-- How the code is translated. A function behind `&mut self` that returns `Result` is a function of
-- State.antt from the state to a result and the new state; an error keeps the state reached, as in
-- the program. A Rust panic (an index or a copy out of bounds, a division by zero or with
-- overflow) is the error `panicked`, which no value of the program is. `u32`, `u64` and `usize` are native numbers; a checked, saturating or wrapping
-- operation is written out in Word.antt, for a host of 64 bits. An `i32` or `i64` is its bit
-- pattern, read by two's complement where the sign matters (Base/Int.antt). A float is its bit
-- pattern as well. A `Vec` is a list, whose last element is the top of a stack.
-- `try_reserve_exact` of the standard library is a parameter, a function that says whether a
-- reservation succeeds; every limiter is a parameter too. A handle of a store is an index into its
-- arena. The engine's lookups of a type's fields are parameters of the trace, any functions.
-- The trace of a collection runs on fuel, and answers `none` when it runs out; one more than the
-- roots and the references that the arenas hold (`trace_bound`) is enough. The unwinder has one more
-- fuel than there are frames, since every round pops one. Every other loop is structural.
--
-- Not modelled: floating-point operations and SIMD; the dispatch loop and calls of the host's
-- closures; the raising of a new exception, and its backtrace; the GC instructions; parsing and
-- compiling; the registry of canonical types; linking and instantiating; the asynchronous twins of
-- the growth functions; the engine and its configuration.
-- Parsing and the host's closures rest on code of other packages.
pub mod Base
pub mod Error
pub mod State
pub mod Word
pub mod Worklist
pub mod Store
pub mod Exec
pub mod Canon

-- ===== src/Exec.antt =====
-- exec/: the interpreter: its operand and frame stacks, and the instructions on them.
pub mod Value
pub mod Cell
pub mod Execution
pub mod Stack
pub mod Frame
pub mod Boundary
pub mod Arith
pub mod Numeric
pub mod Machine
pub mod Memory
pub mod Exn
pub mod Tests

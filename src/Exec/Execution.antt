-- ===== src/Exec/Execution.antt =====
-- exec/mod.rs and exec/frame.rs: the state of one execution.
-- A `Vec` is a list, its last element the top of the stack. A frame's code is the record that
-- `code.func()` gives, with its declared locals; `ops` stands beside it.
use submilli_wasm.Base.{
  ℕ, Bool, Option, none, some, List, [], ◌∷◌, ◌++◌, length, get_elem?, take, drop, leb,
  if◌then◌else◌,
}
use submilli_wasm.Error.{Result, ok, err, panicked, ok_or}
use submilli_wasm.Exec.Value.{IrVal}
use submilli_wasm.Exec.Cell.{Cell, RefTag}

pub data Delimiter : Type 0 where
  top_level host_reentry : Delimiter

-- `HandlerRec` and `HandlerSpan` of module/handler.rs.
pub record HandlerRec : Type 0 where
  pub tag : Option ℕ
  pub restore_height : ℕ
  pub payload_args : Bool
  pub payload_ref : Bool
  pub landing_ip : ℕ

pub record HandlerSpan : Type 0 where
  pub start_ip : ℕ
  pub end_ip : ℕ
  pub clauses : List HandlerRec

-- `CompiledFunc`, with the locals that its span denotes, and the handlers of its code.
pub record CompiledFunc : Type 0 where
  pub n_params : ℕ
  pub n_results : ℕ
  pub local_types : List IrVal
  pub handlers : List HandlerSpan

pub record BranchTarget : Type 0 where
  pub ip : ℕ
  pub keep : ℕ
  pub pop : ℕ

pub record Frame : Type 0 where
  pub func : CompiledFunc
  pub ip : ℕ
  pub locals_base : ℕ
  pub operand_base : ℕ
  pub instance_of : ℕ
  pub func_index : ℕ
  pub delimiter : Option Delimiter

pub record Execution : Type 0 where
  pub values : List Cell
  pub shadow : List RefTag
  pub frames : List Frame
  pub host_reentry_depth : ℕ

abbrev pub last? {ℓ} : {A : Type ℓ} → List A → Option A
last? [] = none
last? (x ∷ []) = some x
last? (x ∷ y ∷ xs) = last? (y ∷ xs)

-- `xs[i]` and `xs[i..]`, which panic out of bounds.
abbrev pub index {ℓ} : {A : Type ℓ} → List A → ℕ → Result A
index xs i = ok_or (get_elem? xs i) panicked

abbrev pub slice_from {ℓ} : {A : Type ℓ} → List A → ℕ → Result (List A)
slice_from xs i = if leb i (length xs) then ok (drop i xs) else err panicked

-- `values.truncate(n); shadow.truncate(n)`.
abbrev pub truncate : ℕ → Execution → Execution
truncate n s = record s { values = take n s.values; shadow = take n s.shadow }

-- `shadow.push(tag); values.push(cell)`.
abbrev pub append : Cell → RefTag → Execution → Execution
append cell tag s = record s { values = s.values ++ cell ∷ []; shadow = s.shadow ++ tag ∷ [] }

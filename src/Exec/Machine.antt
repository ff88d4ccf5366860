-- ===== src/Exec/Machine.antt =====
-- What an instruction of one instance works on: the execution, and of the store the memories with
-- the instance's view of them (`InstanceEntity` of store/entity.rs) and its data segments.
use submilli_wasm.Base.{ℕ, Bool, List, set}
use submilli_wasm.Error.{Result}
use submilli_wasm.State.{M}
use submilli_wasm.Store.Entity.{MemoryEntity}
use submilli_wasm.Exec.Execution.{Execution, index}

-- `handles` is the instance's memory index space: imported memories first, then its own.
pub record Machine : Type 0 where
  pub exec : Execution
  pub memories : List MemoryEntity
  pub handles : List ℕ
  pub datas : List (List ℕ)
  pub dropped_data : List Bool

-- An operation of the execution alone.
unfoldable pub on_exec {ℓ} : {A : Type ℓ} → M Execution A → M Machine A
on_exec m s = ((m s.exec).0, record s { exec = (m s.exec).1 })

-- `inner.instance(instance).memories[idx]`.
unfoldable pub mem : ℕ → Machine → Result ℕ
mem idx s = index s.handles idx

unfoldable pub entity : ℕ → Machine → Result MemoryEntity
entity handle s = index s.memories handle

unfoldable pub put_bytes : ℕ → MemoryEntity → List ℕ → Machine → Machine
put_bytes handle e bytes s = record s {
  memories = set s.memories handle (record e { bytes = bytes });
}

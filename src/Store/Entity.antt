-- ===== src/Store/Entity.antt =====
-- store/entity.rs: the data behind a memory and a table.
-- `try_reserve_exact` of `Vec` may fail; the section's parameter says, for the present length and
-- the number of further elements, whether it succeeds.
pub mod Pages
pub mod Elements
use submilli_wasm.Base.{
  ℕ, zero, suc, ◌+◌, ◌-◌, ◌*◌, ◌/◌, ◌^◌, min, Option, none, some, Bool, true, false, List, [], ◌∷◌,
  ◌++◌, ltb, leb, if◌then◌else◌, length, get_elem?, set, take, drop, replicate, resize,
}
use submilli_wasm.Error.{Result, ok, err, Error, msg, ◌>>=◌, ok_or}
use submilli_wasm.Word.{u32_max, u64_max, checked_add, checked_mul}

abbrev pub page_size : ℕ
page_size = 0x1_0000

abbrev pub max_pages : ℕ
max_pages = 0x1_0000

-- `MemoryType` of value/types.rs, in pages, and `TableType`, in elements.
pub record MemoryType : Type 0 where
  pub minimum : ℕ
  pub maximum : Option ℕ
  pub is_64 : Bool

pub record TableType : Type 0 where
  pub minimum : ℕ
  pub maximum : Option ℕ
  pub is_64 : Bool

pub record MemoryEntity : Type 0 where
  pub bytes : List ℕ
  pub ty : MemoryType

pub record TableEntity (R : Type 0) : Type 0 where
  pub elems : List R
  pub ty : TableType

abbrev pub alloc_err : Error
alloc_err = msg "failed to allocate the initial memory or table"

-- `declared.unwrap_or(arch_max).min(arch_max)`.
abbrev pub limit_of : Option ℕ → ℕ → ℕ
limit_of none arch_max = min arch_max arch_max
limit_of (some declared) arch_max = min declared arch_max

abbrev pub memory_arch_max : MemoryType → ℕ
memory_arch_max ty = if ty.is_64 then 2 ^ 48 else max_pages

abbrev pub table_arch_max : TableType → ℕ
table_arch_max ty = if ty.is_64 then u64_max else u32_max

unfoldable pub size_pages : MemoryEntity → ℕ
size_pages m = length m.bytes / page_size

module _ (try_reserve_exact : ℕ → ℕ → Bool) where
  unfoldable pub new_memory : MemoryType → Result MemoryEntity
  new_memory ty = do
    len ← ok_or (checked_mul ty.minimum page_size) alloc_err
    if try_reserve_exact 0 len
        then ok (record { bytes = resize [] len 0; ty = ty })
        else err alloc_err

  -- The new state and the previous page count, or `none` if the memory did not grow.
  unfoldable pub grow_memory_entity : MemoryEntity → ℕ → MemoryEntity × Option ℕ
  grow_memory_entity m delta =
      let old = size_pages m in
      elim (checked_add old delta) [
        | none ↦ (m, none)
        | some new ↦
            if ltb (limit_of m.ty.maximum (memory_arch_max m.ty)) new
            then (m, none)
            else elim (checked_mul new page_size) [
              | none ↦ (m, none)
              | some new_bytes ↦
                  if try_reserve_exact (length m.bytes) (new_bytes - length m.bytes)
                  then (record m { bytes = resize m.bytes new_bytes 0 }, some old)
                  else (m, none)
            ]
      ]

module _ {R : Type 0} where
  unfoldable pub size : TableEntity R → ℕ
  size t = length t.elems

  unfoldable pub get : TableEntity R → ℕ → Option R
  get t index = get_elem? t.elems index

  unfoldable pub set_elem : TableEntity R → ℕ → R → TableEntity R × Bool
  set_elem t index val =
      if ltb index (length t.elems)
      then (record t { elems = set t.elems index val }, true)
      else (t, false)

  -- `for i in dst..end { self.elems[i] = val.clone() }`, `n` rounds.
  unfoldable pub fill_from : ℕ → ℕ → R → List R → List R
  fill_from zero dst val elems = elems
  fill_from (suc n) dst val elems = fill_from n (dst + 1) val (set elems dst val)

  unfoldable pub fill : TableEntity R → ℕ → R → ℕ → TableEntity R × Bool
  fill t dst val len = elim (checked_add dst len) [
    | none ↦ (t, false)
    | some end ↦
        if leb end (size t)
        then (record t { elems = fill_from (end - dst) dst val t.elems }, true)
        else (t, false)
  ]

module _ (try_reserve_exact : ℕ → ℕ → Bool) {R : Type 0} where
  unfoldable pub new_table : TableType → R → Result (TableEntity R)
  new_table ty init =
      if try_reserve_exact 0 ty.minimum
      then ok (record { elems = resize [] ty.minimum init; ty = ty })
      else err alloc_err

  unfoldable pub grow_table_entity : TableEntity R → ℕ → R → TableEntity R × Option ℕ
  grow_table_entity t delta init =
      let old = size t in
      elim (checked_add old delta) [
        | none ↦ (t, none)
        | some new ↦
            if ltb (limit_of t.ty.maximum (table_arch_max t.ty)) new
            then (t, none)
            else if try_reserve_exact (length t.elems) (new - length t.elems)
            then (record t { elems = resize t.elems new init }, some old)
            else (t, none)
      ]

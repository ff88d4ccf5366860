-- ===== src/Exec/Memory/Bulk.antt =====
-- exec/memory.rs: what fill, copy, init and size keep.
use submilli_wasm.Base.{
  ℕ, ◌+◌, ◌-◌, ◌%◌, ◌≤◌, ◌≡◌, ◌≢◌, refl, ap, Bool, ◌&&◌, inl, inr, List, length, slice, arith,
  length-splice, length-slice, length-replicate, le→leb, if◌then◌else◌, ◌==◌, ==_iff, Bool-cases,
}
use submilli_wasm.Error.{Result, ok, err, panicked, Result-cases}
use submilli_wasm.State.{then_run, then_run-ok, modify}
use submilli_wasm.Word.{u64_max}
use submilli_wasm.Store.Entity.{MemoryEntity}
use submilli_wasm.Exec.Execution.{Execution, index}
use submilli_wasm.Exec.Stack.{pop_index, pop_i32}
use submilli_wasm.Exec.Stack.Sound.{Place, Ready}
use submilli_wasm.Exec.Stack.Operations.{pop_index-Sound, pop_i32-Sound}
use submilli_wasm.Exec.Machine.{Machine, on_exec, mem, entity, put_bytes}
use submilli_wasm.Exec.Stack.Operations.{push_index-Sound}
use submilli_wasm.Store.Entity.{size_pages}
use submilli_wasm.Exec.Memory.{
  memory_size, checked_range, read_range, write_range, memory_fill, memory_copy, memory_init,
}
use submilli_wasm.Exec.Memory.Bounds.{checked_range_iff}
use submilli_wasm.Exec.Memory.Sound.{Safe, on_exec-next, put-Kept, stays_at}

checked_range-safe : (start len total : ℕ) → checked_range start len total ≢ err panicked
unfolding checked_range
checked_range-safe start len total = ground arith

module _ (p : Place) (s : Machine) where
  -- A range check lets the rest run on a range in bounds, or traps.
  checked-then {ℓ} :
      {B : Type ℓ} (f : ℕ → Machine → Result B × Machine) (start len total : ℕ) (x : Execution)
      → total ≤ u64_max
      → Ready p x
      → (start + len ≤ total → Safe p s (f (start + len) (record s { exec = x })))
      → Safe p s (then_run f (checked_range start len total, record s { exec = x }))
  unfolding then_run
  checked-then f start len total x le r k = elim (Result-cases (checked_range start len total)) [
    | inl (end, e) ↦
        let (here, fits) = (checked_range_iff start len total end le).0 e in
        rw (e, then_run, here) (k (omega arith))
    | inr (b, e) ↦
        rw (e, then_run) ((λ q. checked_range-safe start len total (cc)), stays_at p x s r)
  ]

  -- A write of a range in bounds ends the instruction.
  write-last :
      (h : ℕ) (e : MemoryEntity) (i : ℕ) (chunk : List ℕ) (x : Execution)
      → entity h s ≡ ok e
      → i + length chunk ≤ length e.bytes
      → Ready p x
      → Safe p s (
          then_run
            (λ w. modify (put_bytes h e w))
            (write_range e.bytes i chunk, record s { exec = x }))
  unfolding then_run write_range
  write-last h e i chunk x held fits r =
      rw (le→leb (i + length chunk) (length e.bytes) fits)
        ((λ q. cc), put-Kept p h e _ x s r held (length-splice e.bytes i chunk fits))

  read-then {ℓ} :
      {B : Type ℓ} (f : List ℕ → Machine → Result B × Machine) (bytes : List ℕ) (i n : ℕ)
      (x : Execution)
      → i + n ≤ length bytes
      → ((chunk : List ℕ) → length chunk ≡ n → Safe p s (f chunk (record s { exec = x })))
      → Safe p s (then_run f (read_range bytes i n, record s { exec = x }))
  unfolding then_run read_range
  read-then f bytes i n x fits k =
      rw (le→leb (i + n) (length bytes) fits) (k (slice bytes i n) (length-slice bytes i n fits))

  pub memory_fill-Safe :
      (i h : ℕ) (e : MemoryEntity)
      → mem i s ≡ ok h
      → entity h s ≡ ok e
      → length e.bytes ≤ u64_max
      → Ready p s.exec
      → Safe p s (memory_fill i s)
  unfolding memory_fill
  memory_fill-Safe i h e b c le r =
      rw (b, then_run-ok, c, then_run-ok)
        (on_exec-next p _ (pop_index e.ty.is_64) s s.exec (pop_index-Sound p _) r λ len x1 r1.
          on_exec-next p _ pop_i32 s x1 (pop_i32-Sound p) r1 λ val x2 r2.
            on_exec-next p _ (pop_index e.ty.is_64) s x2 (pop_index-Sound p _) r2 λ dst x3 r3.
              checked-then _ dst len (length e.bytes) x3 le r3 λ fits.
                write-last h e dst _ x3 c
                  (omega (arith, length-replicate (dst + len - dst) (val % 256))) r3)

  source_length :
      (dst_i src_i dst_h src_h : ℕ) (dst_e src_e : MemoryEntity)
      → mem dst_i s ≡ ok dst_h
      → mem src_i s ≡ ok src_h
      → entity dst_h s ≡ ok dst_e
      → entity src_h s ≡ ok src_e
      → length (if dst_i == src_i then dst_e.bytes else src_e.bytes) ≡ length src_e.bytes
  source_length dst_i src_i dst_h src_h dst_e src_e a b c d = elim (Bool-cases (dst_i == src_i)) [
    | inl t ↦
        let same : dst_i ≡ src_i = (==_iff dst_i src_i).0 t in
        let one : dst_h ≡ src_h = cc in
        let entities : dst_e ≡ src_e = cc in rw t (ap (λ e. length e.bytes) entities)
    | inr f ↦ rw f refl
  ]

  pub memory_copy-Safe :
      (dst_i src_i dst_h src_h : ℕ) (dst_e src_e : MemoryEntity)
      → mem dst_i s ≡ ok dst_h
      → mem src_i s ≡ ok src_h
      → entity dst_h s ≡ ok dst_e
      → entity src_h s ≡ ok src_e
      → length dst_e.bytes ≤ u64_max
      → length src_e.bytes ≤ u64_max
      → Ready p s.exec
      → Safe p s (memory_copy dst_i src_i s)
  unfolding memory_copy
  memory_copy-Safe dst_i src_i dst_h src_h dst_e src_e a b c d low high r =
      let bytes = if dst_i == src_i then dst_e.bytes else src_e.bytes in
      let same = source_length dst_i src_i dst_h src_h dst_e src_e a b c d in
      rw (a, then_run-ok, b, then_run-ok, c, then_run-ok, d, then_run-ok)
        (on_exec-next p _ (pop_index (dst_e.ty.is_64 && src_e.ty.is_64)) s s.exec
          (pop_index-Sound p _) r
          λ len x1 r1.
            on_exec-next p _ (pop_index src_e.ty.is_64) s x1 (pop_index-Sound p _) r1 λ src x2 r2.
              on_exec-next p _ (pop_index dst_e.ty.is_64) s x2 (pop_index-Sound p _) r2 λ dst x3 r3.
                checked-then _ src len (length src_e.bytes) x3 high r3 λ from.
                  checked-then _ dst len (length dst_e.bytes) x3 low r3 λ to.
                    read-then _ bytes src len x3 (omega (arith, same))
                      λ chunk e. write-last dst_h dst_e dst chunk x3 c (omega arith) r3)

  pub memory_init-Safe :
      (seg i h : ℕ) (e : MemoryEntity) (dropped : Bool) (segment : List ℕ)
      → mem i s ≡ ok h
      → entity h s ≡ ok e
      → index s.dropped_data seg ≡ ok dropped
      → index s.datas seg ≡ ok segment
      → length e.bytes ≤ u64_max
      → length segment ≤ u64_max
      → Ready p s.exec
      → Safe p s (memory_init seg i s)
  unfolding memory_init
  memory_init-Safe seg i h e dropped segment a b c d low high r =
      let total = if dropped then 0 else length segment in
      let small : total ≤ length segment = ground arith in
      rw (a, then_run-ok, b, then_run-ok)
        (on_exec-next p _ pop_i32 s s.exec (pop_i32-Sound p) r λ len x1 r1.
          on_exec-next p _ pop_i32 s x1 (pop_i32-Sound p) r1 λ src x2 r2.
            on_exec-next p _ (pop_index e.ty.is_64) s x2 (pop_index-Sound p _) r2 λ dst x3 r3.
              rw (c, then_run-ok, d, then_run-ok)
                (checked-then _ src len total x3 (omega arith) r3 λ from.
                  checked-then _ dst len (length e.bytes) x3 low r3 λ to.
                    read-then _ segment src (src + len - src) x3 (omega arith)
                      λ chunk k. write-last h e dst chunk x3 b (omega arith) r3))

  pub memory_size-Safe :
      (i h : ℕ) (e : MemoryEntity)
      → mem i s ≡ ok h
      → entity h s ≡ ok e
      → Ready p s.exec
      → Safe p s (memory_size i s)
  unfolding memory_size on_exec
  memory_size-Safe i h e a b r =
      let (safe, ready) = push_index-Sound p e.ty.is_64 (size_pages e) s.exec r in
      rw (a, then_run-ok, b, then_run-ok) (safe, stays_at p _ s ready)

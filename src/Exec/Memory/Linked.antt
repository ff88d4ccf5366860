-- ===== src/Exec/Memory/Linked.antt =====
-- exec/memory.rs: what instantiation and validation ensure of the indices of memory instructions.
use submilli_wasm.Base.{
  ℕ, ◌≤◌, ◌<◌, ◌≡◌, refl, sym, ap, ◌∙◌, zero, suc, some, List, [], ◌∷◌, length, get_elem?, arith,
  get_elem?-some,
}
use submilli_wasm.Error.{ok}
use submilli_wasm.Word.{u64_max}
use submilli_wasm.Store.Entity.{MemoryEntity}
use submilli_wasm.Exec.Execution.{index}
use submilli_wasm.Exec.Stack.Sound.{Place}
use submilli_wasm.Exec.Machine.{Machine, mem, entity}
use submilli_wasm.Exec.Memory.{MemArg, MemoryOp, resolve}
use submilli_wasm.Exec.Memory.Sound.{Kept, sizes, index-some}

-- What instantiation ensures: every handle of the instance is a memory of the store, nothing is
-- larger than a `u64` counts, and every data segment has its flag.
pub record Linked (s : Machine) : Type 0 where
  pub memories :
      (i h : ℕ)
      → mem i s ≡ ok h
      → (e : MemoryEntity) × ((entity h s ≡ ok e) × (length e.bytes ≤ u64_max))
  pub segments :
      (k : ℕ) (segment : List ℕ) → index s.datas k ≡ ok segment → length segment ≤ u64_max
  pub flags : length s.dropped_data ≡ length s.datas

abbrev pub Argument : List MemArg → Machine → MemArg → Type 0
Argument pool s m = (arg : MemArg) × ((resolve pool m ≡ ok arg) × (arg.memory < length s.handles))

-- What validation ensures: an instruction's indices name memories and data segments of the instance.
abbrev pub Names : List MemArg → Machine → MemoryOp → Type 0
Names pool s (MemoryOp.i32_load m) = Argument pool s m
Names pool s (MemoryOp.i64_load m) = Argument pool s m
Names pool s (MemoryOp.f32_load m) = Argument pool s m
Names pool s (MemoryOp.f64_load m) = Argument pool s m
Names pool s (MemoryOp.i32_load8_s m) = Argument pool s m
Names pool s (MemoryOp.i32_load8_u m) = Argument pool s m
Names pool s (MemoryOp.i32_load16_s m) = Argument pool s m
Names pool s (MemoryOp.i32_load16_u m) = Argument pool s m
Names pool s (MemoryOp.i64_load8_s m) = Argument pool s m
Names pool s (MemoryOp.i64_load8_u m) = Argument pool s m
Names pool s (MemoryOp.i64_load16_s m) = Argument pool s m
Names pool s (MemoryOp.i64_load16_u m) = Argument pool s m
Names pool s (MemoryOp.i64_load32_s m) = Argument pool s m
Names pool s (MemoryOp.i64_load32_u m) = Argument pool s m
Names pool s (MemoryOp.i32_store m) = Argument pool s m
Names pool s (MemoryOp.i64_store m) = Argument pool s m
Names pool s (MemoryOp.f32_store m) = Argument pool s m
Names pool s (MemoryOp.f64_store m) = Argument pool s m
Names pool s (MemoryOp.i32_store8 m) = Argument pool s m
Names pool s (MemoryOp.i32_store16 m) = Argument pool s m
Names pool s (MemoryOp.i64_store8 m) = Argument pool s m
Names pool s (MemoryOp.i64_store16 m) = Argument pool s m
Names pool s (MemoryOp.i64_store32 m) = Argument pool s m
Names pool s (MemoryOp.op_memory_size i) = i < length s.handles
Names pool s (MemoryOp.op_memory_fill i) = i < length s.handles
Names pool s (MemoryOp.op_data_drop seg) = seg < length s.datas
Names pool s (MemoryOp.op_memory_copy dst_i src_i) =
    (dst_i < length s.handles) × (src_i < length s.handles)
Names pool s (MemoryOp.op_memory_init seg i) = (seg < length s.datas) × (i < length s.handles)

pub index-ok : {A : Type 0} (xs : List A) (i : ℕ) → i < length xs → (a : A) × (index xs i ≡ ok a)
index-ok xs i lt = let (a, e) = get_elem?-some xs i lt in (a, rw e refl)

-- The memory that an index names.
pub named :
    (s : Machine) (i : ℕ)
    → Linked s
    → i < length s.handles
    → (h : ℕ) × ((e : MemoryEntity) × ((mem i s ≡ ok h)
          × ((entity h s ≡ ok e) × (length e.bytes ≤ u64_max))))
unfolding mem
named s i linked lt =
    let (h, here) = index-ok s.handles i lt in
    let (e, (held, small)) = linked.memories i h here in (h, (e, (here, (held, small))))

sizes_at :
    (es : List MemoryEntity) (i : ℕ) (e : MemoryEntity)
    → get_elem? es i ≡ some e
    → get_elem? (sizes es) i ≡ some (length e.bytes)
sizes_at [] i e h = ground arith
sizes_at (x ∷ es) zero e h = let q : x ≡ e = cc in ap (λ y. some (length y.bytes)) q
sizes_at (x ∷ es) (suc i) e h = sizes_at es i e h

sized :
    (es : List MemoryEntity) (i n : ℕ)
    → get_elem? (sizes es) i ≡ some n
    → (e : MemoryEntity) × ((get_elem? es i ≡ some e) × (length e.bytes ≡ n))
sized [] i n h = ground arith
sized (x ∷ es) zero n h = (x, (refl, ground arith))
sized (x ∷ es) (suc i) n h = sized es i n h

-- What an instruction keeps is enough for the next one to start.
pub Kept-Linked : (p : Place) (s s' : Machine) → Kept p s s' → Linked s → Linked s'
unfolding mem entity
Kept-Linked p s s' k linked = record {
  memories = λ i h here.
      let (e, (held, small)) = linked.memories i h (rw (← k.same_handles) here) in
      let at : get_elem? (sizes s'.memories) h ≡ some (length e.bytes) =
        rw (k.same_sizes) (sizes_at s.memories h e (index-some s.memories h e held)) in
      let (e', (found, same)) = sized s'.memories h (length e.bytes) at in
      (e', (rw found refl, omega (arith, same, small)));
  segments = λ i segment here. linked.segments i segment (rw (← k.same_datas) here);
  flags = k.same_flags ∙ (linked.flags ∙ ap length (sym k.same_datas));
}

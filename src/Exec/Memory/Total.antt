-- ===== src/Exec/Memory/Total.antt =====
-- exec/memory.rs: the whole of `exec_memory` on a linked instance.
use submilli_wasm.Base.{ℕ, ◌^◌, ◌<◌, ◌≢◌, refl, true, List, length, arith, length-set, lt→ltb}
use submilli_wasm.Base.Bytes.{from_le_bytes, to_le_bytes}
use submilli_wasm.Error.{Result, ok, err, panicked}
use submilli_wasm.State.{M, ◌>>=◌, then_run}
use submilli_wasm.Exec.Execution.{Execution}
use submilli_wasm.Exec.Stack.{
  pop_i32, pop_i64, pop_f32, pop_f64, push_i32, push_i64, push_f32_bits, push_f64_bits,
}
use submilli_wasm.Exec.Stack.Sound.{Place, Ready, Sound}
use submilli_wasm.Exec.Stack.Operations.{
  pop_i32-Sound, pop_i64-Sound, pop_f32-Sound, pop_f64-Sound, push_i32-Sound, push_i64-Sound,
  push_f32_bits-Sound, push_f64_bits-Sound,
}
use submilli_wasm.Exec.Arith.{extend_s}
use submilli_wasm.Exec.Machine.{Machine, on_exec, mem, entity}
use submilli_wasm.Exec.Memory.{MemArg, MemoryOp, load_n, load_push, store_n, data_drop, exec_memory}
use submilli_wasm.Exec.Memory.Sound.{Kept, Safe, on_exec-next, load_n-Safe, store_n-Safe}
use submilli_wasm.Exec.Memory.Linked.{Linked, Argument, Names, index-ok, named}
use submilli_wasm.Exec.Memory.Bulk.{
  memory_size-Safe, memory_fill-Safe, memory_copy-Safe, memory_init-Safe,
}

module _ (p : Place) where
  Kept-from : {s t : Machine} {x : Execution} → Kept p (record s { exec = x }) t → Kept p s t
  Kept-from k = record {
    ready = k.ready;
    same_handles = k.same_handles;
    same_sizes = k.same_sizes;
    same_datas = k.same_datas;
    same_flags = k.same_flags;
  }

  Kept-exec :
      {s t : Machine} {y : Execution} → Kept p s t → Ready p y → Kept p s (record t { exec = y })
  Kept-exec k r = record {
    ready = r;
    same_handles = k.same_handles;
    same_sizes = k.same_sizes;
    same_datas = k.same_datas;
    same_flags = k.same_flags;
  }

  module _ (pool : List MemArg) (s : Machine) (linked : Linked s) (r : Ready p s.exec) where
    load_push-Safe :
        (n : ℕ) (m : MemArg) (f : ℕ → M Execution (Unit {0}))
        → Argument pool s m
        → ((v : ℕ) → Sound p (f v))
        → Safe p s (load_push n pool m (λ v. on_exec (f v)) s)
    unfolding then_run on_exec
    load_push-Safe n m f (arg, (here, lt)) sound =
        let (h, (e, (a, (b, small)))) = named s arg.memory linked lt in
        pushed (load_n n pool m s) (load_n-Safe p n pool m arg h e s here a b small r)
      where
        pushed :
            (q : Result (List ℕ) × Machine)
            → Safe p s q
            → Safe p s (then_run (λ b. on_exec (f (from_le_bytes b))) q)
        pushed (ok b, t) g =
            let (safe, ready) = sound (from_le_bytes b) t.exec (g.1).ready in
            (safe, Kept-exec g.1 ready)
        pushed (err e, t) g = ((λ k. g.0 (cc)), g.1)

    store-Safe :
        (m : MemArg) (pop_it : M Execution ℕ) (bytes_of : ℕ → List ℕ)
        → Argument pool s m
        → Sound p pop_it
        → Safe p s ((on_exec pop_it >>= λ v. store_n pool m (bytes_of v)) s)
    unfolding mem entity
    store-Safe m pop_it bytes_of (arg, (here, lt)) sound =
        let (h, (e, (a, (b, small)))) = named s arg.memory linked lt in
        on_exec-next p _ pop_it s s.exec sound r λ v x k.
          let (safe, kept) =
            store_n-Safe p pool m arg h e (bytes_of v) (record s { exec = x }) here a b small k in
          (safe, Kept-from kept)

    data_drop-Safe : (seg : ℕ) → seg < length s.datas → Safe p s (data_drop seg s)
    unfolding data_drop
    data_drop-Safe seg lt = rw (lt→ltb seg (length s.dropped_data) (omega (arith, linked.flags))) (
      (λ k. cc),
      record {
        ready = r;
        same_handles = refl;
        same_sizes = refl;
        same_datas = refl;
        same_flags = length-set s.dropped_data seg true;
      },
    )

    fill-Safe :
        (i : ℕ) → i < length s.handles → Safe p s (exec_memory pool (MemoryOp.op_memory_fill i) s)
    unfolding exec_memory
    fill-Safe i lt =
        let (h, (e, (a, (b, small)))) = named s i linked lt in
        memory_fill-Safe p s i h e a b small r

    size-Safe :
        (i : ℕ) → i < length s.handles → Safe p s (exec_memory pool (MemoryOp.op_memory_size i) s)
    unfolding exec_memory
    size-Safe i lt =
        let (h, (e, (a, (b, _)))) = named s i linked lt in memory_size-Safe p s i h e a b r

    copy-Safe :
        (dst_i src_i : ℕ)
        → dst_i < length s.handles
        → src_i < length s.handles
        → Safe p s (exec_memory pool (MemoryOp.op_memory_copy dst_i src_i) s)
    unfolding exec_memory
    copy-Safe dst_i src_i to from =
        let (dst_h, (dst_e, (a, (c, low)))) = named s dst_i linked to in
        let (src_h, (src_e, (b, (d, high)))) = named s src_i linked from in
        memory_copy-Safe p s dst_i src_i dst_h src_h dst_e src_e a b c d low high r

    init-Safe :
        (seg i : ℕ)
        → seg < length s.datas
        → i < length s.handles
        → Safe p s (exec_memory pool (MemoryOp.op_memory_init seg i) s)
    unfolding exec_memory
    init-Safe seg i in_datas lt =
        let (h, (e, (a, (b, small)))) = named s i linked lt in
        let (dropped, c) = index-ok s.dropped_data seg (omega (arith, linked.flags)) in
        let (segment, d) = index-ok s.datas seg in_datas in
        memory_init-Safe p s seg i h e dropped segment a b c d small (linked.segments seg segment d)
          r

-- On an instance whose handles are memories of the store, and for a memory instruction whose
-- indices are in range, as instantiation and validation ensure, no load, store, size, fill, copy,
-- init or data.drop panics; each keeps the frame's place, the handles, all memory sizes and the
-- data segments.
pub exec_memory_no_panic :
    (p : Place) (pool : List MemArg) (op : MemoryOp) (s : Machine)
    → Linked s
    → Names pool s op
    → Ready p s.exec
    → ((exec_memory pool op s).0 ≢ err panicked) × Kept p s (exec_memory pool op s).1
unfolding exec_memory
exec_memory_no_panic p pool (MemoryOp.i32_load m) s linked named_by r =
    load_push-Safe p pool s linked r 4 m push_i32 named_by (push_i32-Sound p)
exec_memory_no_panic p pool (MemoryOp.i64_load m) s linked named_by r =
    load_push-Safe p pool s linked r 8 m push_i64 named_by (push_i64-Sound p)
exec_memory_no_panic p pool (MemoryOp.f32_load m) s linked named_by r =
    load_push-Safe p pool s linked r 4 m push_f32_bits named_by (push_f32_bits-Sound p)
exec_memory_no_panic p pool (MemoryOp.f64_load m) s linked named_by r =
    load_push-Safe p pool s linked r 8 m push_f64_bits named_by (push_f64_bits-Sound p)
exec_memory_no_panic p pool (MemoryOp.i32_load8_s m) s linked named_by r =
    load_push-Safe p pool s linked r 1 m (λ v. push_i32 (extend_s (2 ^ 7) 32 v)) named_by
      (λ v. push_i32-Sound p (extend_s (2 ^ 7) 32 v))
exec_memory_no_panic p pool (MemoryOp.i32_load8_u m) s linked named_by r =
    load_push-Safe p pool s linked r 1 m push_i32 named_by (push_i32-Sound p)
exec_memory_no_panic p pool (MemoryOp.i32_load16_s m) s linked named_by r =
    load_push-Safe p pool s linked r 2 m (λ v. push_i32 (extend_s (2 ^ 15) 32 v)) named_by
      (λ v. push_i32-Sound p (extend_s (2 ^ 15) 32 v))
exec_memory_no_panic p pool (MemoryOp.i32_load16_u m) s linked named_by r =
    load_push-Safe p pool s linked r 2 m push_i32 named_by (push_i32-Sound p)
exec_memory_no_panic p pool (MemoryOp.i64_load8_s m) s linked named_by r =
    load_push-Safe p pool s linked r 1 m (λ v. push_i64 (extend_s (2 ^ 7) 64 v)) named_by
      (λ v. push_i64-Sound p (extend_s (2 ^ 7) 64 v))
exec_memory_no_panic p pool (MemoryOp.i64_load8_u m) s linked named_by r =
    load_push-Safe p pool s linked r 1 m push_i64 named_by (push_i64-Sound p)
exec_memory_no_panic p pool (MemoryOp.i64_load16_s m) s linked named_by r =
    load_push-Safe p pool s linked r 2 m (λ v. push_i64 (extend_s (2 ^ 15) 64 v)) named_by
      (λ v. push_i64-Sound p (extend_s (2 ^ 15) 64 v))
exec_memory_no_panic p pool (MemoryOp.i64_load16_u m) s linked named_by r =
    load_push-Safe p pool s linked r 2 m push_i64 named_by (push_i64-Sound p)
exec_memory_no_panic p pool (MemoryOp.i64_load32_s m) s linked named_by r =
    load_push-Safe p pool s linked r 4 m (λ v. push_i64 (extend_s (2 ^ 31) 64 v)) named_by
      (λ v. push_i64-Sound p (extend_s (2 ^ 31) 64 v))
exec_memory_no_panic p pool (MemoryOp.i64_load32_u m) s linked named_by r =
    load_push-Safe p pool s linked r 4 m push_i64 named_by (push_i64-Sound p)
exec_memory_no_panic p pool (MemoryOp.i32_store m) s linked named_by r =
    store-Safe p pool s linked r m pop_i32 (to_le_bytes 4) named_by (pop_i32-Sound p)
exec_memory_no_panic p pool (MemoryOp.i64_store m) s linked named_by r =
    store-Safe p pool s linked r m pop_i64 (to_le_bytes 8) named_by (pop_i64-Sound p)
exec_memory_no_panic p pool (MemoryOp.f32_store m) s linked named_by r =
    store-Safe p pool s linked r m pop_f32 (to_le_bytes 4) named_by (pop_f32-Sound p)
exec_memory_no_panic p pool (MemoryOp.f64_store m) s linked named_by r =
    store-Safe p pool s linked r m pop_f64 (to_le_bytes 8) named_by (pop_f64-Sound p)
exec_memory_no_panic p pool (MemoryOp.i32_store8 m) s linked named_by r =
    store-Safe p pool s linked r m pop_i32 (to_le_bytes 1) named_by (pop_i32-Sound p)
exec_memory_no_panic p pool (MemoryOp.i32_store16 m) s linked named_by r =
    store-Safe p pool s linked r m pop_i32 (to_le_bytes 2) named_by (pop_i32-Sound p)
exec_memory_no_panic p pool (MemoryOp.i64_store8 m) s linked named_by r =
    store-Safe p pool s linked r m pop_i64 (to_le_bytes 1) named_by (pop_i64-Sound p)
exec_memory_no_panic p pool (MemoryOp.i64_store16 m) s linked named_by r =
    store-Safe p pool s linked r m pop_i64 (to_le_bytes 2) named_by (pop_i64-Sound p)
exec_memory_no_panic p pool (MemoryOp.i64_store32 m) s linked named_by r =
    store-Safe p pool s linked r m pop_i64 (to_le_bytes 4) named_by (pop_i64-Sound p)
exec_memory_no_panic p pool (MemoryOp.op_memory_size i) s linked lt r =
    size-Safe p pool s linked r i lt
exec_memory_no_panic p pool (MemoryOp.op_memory_fill i) s linked lt r =
    fill-Safe p pool s linked r i lt
exec_memory_no_panic p pool (MemoryOp.op_data_drop seg) s linked lt r =
    data_drop-Safe p pool s linked r seg lt
exec_memory_no_panic p pool (MemoryOp.op_memory_copy dst_i src_i) s linked (to, from) r =
    copy-Safe p pool s linked r dst_i src_i to from
exec_memory_no_panic p pool (MemoryOp.op_memory_init seg i) s linked (in_datas, lt) r =
    init-Safe p pool s linked r seg i in_datas lt

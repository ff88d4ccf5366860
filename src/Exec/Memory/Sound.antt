-- ===== src/Exec/Memory/Sound.antt =====
-- exec/memory.rs: what loads and stores keep.
use submilli_wasm.Base.{
  ℕ, ◌+◌, ◌≤◌, ◌<◌, ◌≡◌, ◌≢◌, refl, ap, sym, ◌∙◌, zero, suc, ◌⊎◌, inl, inr, ◌∷◌, List, [], map,
  length, get_elem?, set, splice, arith, length-splice, slice-splice, get_elem?-splice_before,
  get_elem?-splice_after, le→leb, some,
}
use submilli_wasm.Word.{u64_max}
use submilli_wasm.Error.{Result, ok, err, panicked, Result-cases}
use submilli_wasm.State.{M, ◌>>=◌, then_run, then_run-ok, then_run-then_run, reads, modify}
use submilli_wasm.Store.Entity.{MemoryEntity}
use submilli_wasm.Exec.Execution.{Execution, index}
use submilli_wasm.Exec.Stack.{pop_index}
use submilli_wasm.Exec.Stack.Sound.{Place, Ready, Good, Sound}
use submilli_wasm.Exec.Stack.Operations.{pop_index-Sound}
use submilli_wasm.Exec.Machine.{Machine, on_exec, mem, entity, put_bytes}
use submilli_wasm.Exec.Memory.Bounds.{effective_address_iff}
use submilli_wasm.Exec.Memory.{
  MemArg, resolve, effective_address, mem_ea, read_range, write_range, load_n, store_n,
}

-- The lengths of the memories.
abbrev pub sizes : List MemoryEntity → List ℕ
sizes = map (λ e. length e.bytes)

set-sizes :
    (es : List MemoryEntity) (h : ℕ) (e : MemoryEntity) (bytes : List ℕ)
    → get_elem? es h ≡ some e
    → length bytes ≡ length e.bytes
    → sizes (set es h (record e { bytes = bytes })) ≡ sizes es
set-sizes [] h e bytes k eq = refl
set-sizes (x ∷ es) zero e bytes k eq =
    let q : x ≡ e = cc in ap (λ n. n ∷ sizes es) (eq ∙ ap (λ y. length y.bytes) (sym q))
set-sizes (x ∷ es) (suc h) e bytes k eq = ap (λ l. length x.bytes ∷ l) (set-sizes es h e bytes k eq)

pub index-some :
    {A : Type 0} (xs : List A) (i : ℕ) (a : A) → index xs i ≡ ok a → get_elem? xs i ≡ some a
index-some xs i a e = ground arith

-- An access that the address check lets through, in a memory of at most `u64::MAX` bytes: the
-- write of the range succeeds, keeps the memory's length, changes no byte outside the range, and a
-- read of the range gives the bytes written.
pub store-load :
    (bytes chunk : List ℕ) (offset addr ea : ℕ)
    → length bytes ≤ u64_max
    → effective_address (length chunk) offset (length bytes) addr ≡ ok ea
    → (written : List ℕ) × ((write_range bytes ea chunk ≡ ok written)
        × ((length written ≡ length bytes)
            × ((read_range written ea (length chunk) ≡ ok chunk)
                × ((i : ℕ)
                    → (i < ea) ⊎ (ea + length chunk ≤ i)
                    → get_elem? written i ≡ get_elem? bytes i))))
unfolding write_range read_range
store-load bytes chunk offset addr ea h e =
    let fits : ea + length chunk ≤ length bytes =
      ((effective_address_iff (length chunk) offset (length bytes) addr ea h).0 e).1 in
    let same : length (splice bytes ea chunk) ≡ length bytes = length-splice bytes ea chunk fits in
    (
      splice bytes ea chunk,
      (
        rw (le→leb _ _ fits) refl,
        (
          same,
          (
            rw (same, le→leb _ _ fits)
                (ap ok (slice-splice bytes ea (length chunk) chunk refl fits)),
            λ i w. elim w [
              | inl lt ↦ get_elem?-splice_before bytes ea chunk i fits lt
              | inr le ↦ get_elem?-splice_after bytes ea chunk i fits le
            ],
          ),
        ),
      ),
    )

effective_address-safe :
    (n offset total addr : ℕ) → effective_address n offset total addr ≢ err panicked
unfolding effective_address
effective_address-safe n offset total addr = ground arith

read_range-safe :
    (bytes : List ℕ) (i n : ℕ) → i + n ≤ length bytes → read_range bytes i n ≢ err panicked
unfolding read_range
read_range-safe bytes i n h = ground arith

module _ (p : Place) where
  -- What an instruction that starts in `s` keeps: its frame, the index space and all sizes.
  pub record Kept (s s' : Machine) : Type 0 where
    pub ready : Ready p s'.exec
    pub same_handles : s'.handles ≡ s.handles
    pub same_sizes : sizes s'.memories ≡ sizes s.memories
    pub same_datas : s'.datas ≡ s.datas
    pub same_flags : length s'.dropped_data ≡ length s.dropped_data

  abbrev pub Safe {ℓ} : {A : Type ℓ} → Machine → Result A × Machine → Type ℓ
  Safe s r = (r.0 ≢ err panicked) × Kept s r.1

  pub stays : (s : Machine) → Ready p s.exec → Kept s s
  stays s r = record {
    ready = r;
    same_handles = refl;
    same_sizes = refl;
    same_datas = refl;
    same_flags = refl;
  }

  pub stays_at : (x : Execution) (s : Machine) → Ready p x → Kept s (record s { exec = x })
  stays_at x s r = record {
    ready = r;
    same_handles = refl;
    same_sizes = refl;
    same_datas = refl;
    same_flags = refl;
  }

  pub put-Kept :
      (h : ℕ) (e : MemoryEntity) (bytes : List ℕ) (x : Execution) (s : Machine)
      → Ready p x
      → entity h s ≡ ok e
      → length bytes ≡ length e.bytes
      → Kept s (put_bytes h e bytes (record s { exec = x }))
  unfolding entity put_bytes
  put-Kept h e bytes x s r k eq = record {
    ready = r;
    same_handles = refl;
    same_sizes = set-sizes s.memories h e bytes (index-some s.memories h e k) eq;
    same_datas = refl;
    same_flags = refl;
  }

  pub on_exec-next {ℓ κ} :
      {A : Type ℓ} {B : Type κ} (f : A → Machine → Result B × Machine) (m : M Execution A)
      (s : Machine) (x : Execution)
      → Sound p m
      → Ready p x
      → ((a : A) (y : Execution) → Ready p y → Safe s (f a (record s { exec = y })))
      → Safe s (then_run f (on_exec m (record s { exec = x })))
  unfolding then_run on_exec
  on_exec-next {A} {B} f m s x sound r k = after (m x) (sound x r)
    where
      after :
          (q : Result A × Execution) → Good p q → Safe s (then_run f (q.0, record s { exec = q.1 }))
      after (ok a, y) g = k a y g.1
      after (err e, y) g = (λ h. g.0 (cc), stays_at y s g.1)

  on_exec-then {ℓ κ} :
      {A : Type ℓ} {B : Type κ} (f : A → Machine → Result B × Machine) (m : M Execution A)
      (s : Machine)
      → Sound p m
      → Ready p s.exec
      → ((a : A) (x : Execution) → Ready p x → Safe s (f a (record s { exec = x })))
      → Safe s (then_run f (on_exec m s))
  on_exec-then f m s sound r k = on_exec-next f m s s.exec sound r k

  -- The rest of a load, and of a store, once the address is checked.
  read-Safe :
      (bytes : List ℕ) (n offset addr : ℕ) (s : Machine) (x : Execution)
      → length bytes ≤ u64_max
      → Ready p x
      → Safe s (
          then_run
            (λ ea s. (read_range bytes ea n, s))
            (effective_address n offset (length bytes) addr, record s { exec = x }))
  unfolding then_run
  read-Safe bytes n offset addr s x le r =
      elim (Result-cases (effective_address n offset (length bytes) addr)) [
        | inl (ea, k) ↦ rw k (
          read_range-safe bytes ea n
              ((effective_address_iff n offset (length bytes) addr ea le).0 k).1,
          stays_at x s r,
        )
        | inr (f, k) ↦
            rw k (λ q. effective_address-safe n offset (length bytes) addr (cc), stays_at x s r)
      ]

  -- For a memory argument that resolves to a memory of at most `u64::MAX` bytes, a load of any
  -- width at any place of a frame does not panic and keeps the frame's place, the handles, all
  -- memory sizes and the data segments.
  pub load_n-Safe :
      (n : ℕ) (pool : List MemArg) (m arg : MemArg) (h : ℕ) (e : MemoryEntity) (s : Machine)
      → resolve pool m ≡ ok arg
      → mem arg.memory s ≡ ok h
      → entity h s ≡ ok e
      → length e.bytes ≤ u64_max
      → Ready p s.exec
      → Safe s (load_n n pool m s)
  unfolding load_n mem_ea
  load_n-Safe n pool m arg h e s a b c le r =
      rw (a, then_run-ok, b, then_run-ok, c, then_run-ok, then_run-then_run)
        (on_exec-then _ (pop_index e.ty.is_64) s (pop_index-Sound p _) r
          λ addr x k. read-Safe e.bytes n arg.offset addr s x le k)

  write-Safe :
      (h : ℕ) (e : MemoryEntity) (chunk : List ℕ) (offset addr : ℕ) (s : Machine) (x : Execution)
      → entity h s ≡ ok e
      → length e.bytes ≤ u64_max
      → Ready p x
      → Safe s (
          then_run
            (λ ea. reads (λ _. write_range e.bytes ea chunk) >>= λ w. modify (put_bytes h e w))
            (effective_address (length chunk) offset (length e.bytes) addr, record s { exec = x }))
  unfolding then_run
  write-Safe h e chunk offset addr s x c le r =
      elim (Result-cases (effective_address (length chunk) offset (length e.bytes) addr)) [
        | inl (ea, k) ↦
            let (w, (good, (same, _))) = store-load e.bytes chunk offset addr ea le k in
            rw (k, then_run, good, then_run) ((λ q. cc), put-Kept h e w x s r c same)
        | inr (f, k) ↦ rw k (
          λ q. effective_address-safe (length chunk) offset (length e.bytes) addr (cc),
          stays_at x s r,
        )
      ]

  -- For a memory argument that resolves to a memory of at most `u64::MAX` bytes, a store of any
  -- bytes at any place of a frame does not panic and keeps the frame's place, the handles, all
  -- memory sizes and the data segments.
  pub store_n-Safe :
      (pool : List MemArg) (m arg : MemArg) (h : ℕ) (e : MemoryEntity) (chunk : List ℕ)
      (s : Machine)
      → resolve pool m ≡ ok arg
      → mem arg.memory s ≡ ok h
      → entity h s ≡ ok e
      → length e.bytes ≤ u64_max
      → Ready p s.exec
      → Safe s (store_n pool m chunk s)
  unfolding store_n mem_ea
  store_n-Safe pool m arg h e chunk s a b c le r =
      rw (a, then_run-ok, b, then_run-ok, c, then_run-ok, then_run-then_run)
        (on_exec-then _ (pop_index e.ty.is_64) s (pop_index-Sound p _) r
          λ addr x k. write-Safe h e chunk arg.offset addr s x c le k)

-- ===== src/Base/Slices.antt =====
-- The in-place operations of Rust's `Vec` and slices that the source uses.
use Prim.Native.Nat.{ℕ, ◌+◌, ◌-◌, ◌≤◌, ◌<◌}
use mathlib.Core.Path.{◌≡◌, ap, ◌∙◌}
use mathlib.Core.List.{List, ◌++◌}
use mathlib.Core.Option.{some}
use native.Mathlib.Omega.{arith}
use submilli_wasm.Base.Lists.{
  length, get_elem?, take, drop, replicate, length-append, length-take, length-drop,
  length-replicate, get_elem?-append_left, get_elem?-append_at, get_elem?-take, get_elem?-drop,
  get_elem?-replicate, take-append, drop-append,
}

module _ {ℓ} {A : Type ℓ} where
  -- `v[i..i + n]`, where the range is in bounds.
  abbrev pub slice : List A → ℕ → ℕ → List A
  slice xs i n = take n (drop i xs)

  -- `v[i..i + chunk.len()].copy_from_slice(chunk)`, where the range is in bounds.
  abbrev pub splice : List A → ℕ → List A → List A
  splice xs i chunk = take i xs ++ (chunk ++ drop (i + length chunk) xs)

  -- `v.resize(n, a)`.
  abbrev pub resize : List A → ℕ → A → List A
  resize xs n a = take n xs ++ replicate (n - length xs) a

  pub length-slice : (xs : List A) (i n : ℕ) → i + n ≤ length xs → length (slice xs i n) ≡ n
  length-slice xs i n h = omega (arith, length-take n (drop i xs), length-drop i xs)

  pub length-splice :
      (xs : List A) (i : ℕ) (chunk : List A)
      → i + length chunk ≤ length xs
      → length (splice xs i chunk) ≡ length xs
  length-splice xs i chunk h = omega (
    arith,
    length-append (take i xs) (chunk ++ drop (i + length chunk) xs),
    length-append chunk (drop (i + length chunk) xs),
    length-take i xs,
    length-drop (i + length chunk) xs,
  )

  pub length-resize : (xs : List A) (n : ℕ) (a : A) → length (resize xs n a) ≡ n
  length-resize xs n a = omega (
    arith,
    length-append (take n xs) (replicate (n - length xs) a),
    length-take n xs,
    length-replicate (n - length xs) a,
  )

  -- What was written is read back.
  pub slice-splice :
      (xs : List A) (i n : ℕ) (chunk : List A)
      → n ≡ length chunk
      → i + n ≤ length xs
      → slice (splice xs i chunk) i n ≡ chunk
  slice-splice xs i n chunk e h =
      ap (take n) (drop-append (take i xs) _ i (omega (arith, length-take i xs)))
      ∙ take-append chunk _ n e

  pub get_elem?-splice_before :
      (xs : List A) (i : ℕ) (chunk : List A) (j : ℕ)
      → i + length chunk ≤ length xs
      → j < i
      → get_elem? (splice xs i chunk) j ≡ get_elem? xs j
  get_elem?-splice_before xs i chunk j h lt =
      get_elem?-append_left (take i xs) _ j (omega (arith, length-take i xs))
      ∙ get_elem?-take i j xs lt

  pub get_elem?-splice_after :
      (xs : List A) (i : ℕ) (chunk : List A) (j : ℕ)
      → i + length chunk ≤ length xs
      → i + length chunk ≤ j
      → get_elem? (splice xs i chunk) j ≡ get_elem? xs j
  get_elem?-splice_after xs i chunk j h le =
      get_elem?-append_at (take i xs) _ j (j - i) (omega (arith, length-take i xs))
      ∙ (get_elem?-append_at chunk _ (j - i) (j - i - length chunk) (omega arith)
          ∙ (get_elem?-drop (i + length chunk) (j - i - length chunk) xs
              ∙ ap (get_elem? xs) (omega arith)))

  pub get_elem?-resize_old :
      (xs : List A) (n : ℕ) (a : A) (i : ℕ)
      → length xs ≤ n
      → i < length xs
      → get_elem? (resize xs n a) i ≡ get_elem? xs i
  get_elem?-resize_old xs n a i h lt =
      get_elem?-append_left (take n xs) _ i (omega (arith, length-take n xs))
      ∙ get_elem?-take n i xs (omega arith)

  pub get_elem?-resize_new :
      (xs : List A) (n : ℕ) (a : A) (i : ℕ)
      → length xs ≤ i
      → i < n
      → get_elem? (resize xs n a) i ≡ some a
  get_elem?-resize_new xs n a i h lt =
      get_elem?-append_at (take n xs) _ i (i - length xs) (omega (arith, length-take n xs))
      ∙ get_elem?-replicate (n - length xs) (i - length xs) a (omega arith)

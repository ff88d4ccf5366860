-- ===== src/Canon/Layout/Placement.antt =====
-- canon/layout.rs: where the slots of a layout stand.
use submilli_wasm.Base.{
  ℕ, zero, suc, ◌+◌, ◌*◌, ◌%◌, ◌^◌, ◌≤◌, ◌<◌, ◌≡◌, refl, Option, some, List, [], ◌∷◌, map, length,
  get_elem?, arith, length-map, Every, subst, sym, ◌∙◌,
}
use native.Mathlib.Nat.{mul-le-mul_right}
use submilli_wasm.Exec.Value.{ValType}
use submilli_wasm.Canon.Layout.{
  ScalarKind, Slot, width, offset, slot_width, StorageType, lay_out, struct_of, array_of, elem_at,
  body_size, for_struct, for_array, pub_val_slot, pub_field_slot, with_offset,
}

-- What a field's slot is built with: the offset that it is given, and at most 16 bytes.
abbrev pub IsPlaced : (ℕ → Slot) → Type 0
IsPlaced f = (at : ℕ) → (offset (f at) ≡ at) × (slot_width (f at) ≤ 16)

width_le : (k : ScalarKind) → width k ≤ 16
unfolding width
width_le ScalarKind.i8 = omega arith
width_le ScalarKind.i16 = omega arith
width_le ScalarKind.i32 = omega arith
width_le ScalarKind.i64 = omega arith
width_le ScalarKind.f32 = omega arith
width_le ScalarKind.f64 = omega arith
width_le ScalarKind.v128 = omega arith

slot_width_le : (s : Slot) → slot_width s ≤ 16
unfolding slot_width
slot_width_le (Slot.scalar at kind) = width_le kind
slot_width_le (Slot.ref at kind) = omega arith

offset-pub_field_slot : (t : StorageType) (at : ℕ) → offset (pub_field_slot t at) ≡ at
unfolding pub_field_slot pub_val_slot
offset-pub_field_slot StorageType.i8 at = refl
offset-pub_field_slot StorageType.i16 at = refl
offset-pub_field_slot (StorageType.val_type ValType.i32) at = refl
offset-pub_field_slot (StorageType.val_type ValType.i64) at = refl
offset-pub_field_slot (StorageType.val_type ValType.f32) at = refl
offset-pub_field_slot (StorageType.val_type ValType.f64) at = refl
offset-pub_field_slot (StorageType.val_type (ValType.ref n h)) at = refl

pub pub_field_slot-IsPlaced : (t : StorageType) → IsPlaced (pub_field_slot t)
pub_field_slot-IsPlaced t at = (offset-pub_field_slot t at, slot_width_le (pub_field_slot t at))

-- The slots stand back to back between two bytes, in order.
pub record LaidOut (at : ℕ) (slots : List Slot) (end : ℕ) : Type 0 where
  pub grows : at ≤ end
  pub inside :
      (i : ℕ) (s : Slot)
      → get_elem? slots i ≡ some s
      → (at ≤ offset s) × (offset s + slot_width s ≤ end)
  pub apart :
      (i j : ℕ) (s t : Slot)
      → i < j
      → get_elem? slots i ≡ some s
      → get_elem? slots j ≡ some t
      → offset s + slot_width s ≤ offset t

same_function : {f g : ℕ → Slot} → Path (Option (ℕ → Slot)) (some f) (some g) → f ≡ g
same_function h = cc

same : {s t : Slot} → Path (Option Slot) (some s) (some t) → s ≡ t
same h = cc

first_inside :
    (at : ℕ) (s : Slot) (slots : List Slot) (end : ℕ)
    → offset s ≡ at
    → LaidOut (at + slot_width s) slots end
    → (i : ℕ) (t : Slot) → get_elem? (s ∷ slots) i ≡ some t
    → (at ≤ offset t) × (offset t + slot_width t ≤ end)
first_inside at s slots end here rest zero t h =
    subst (λ u. (at ≤ offset u) × (offset u + slot_width u ≤ end)) (same h)
      (omega arith, omega (arith, rest.grows))
first_inside at s slots end here rest (suc i) t h =
    let (low, high) = rest.inside i t h in (omega arith, high)

first_apart :
    (at : ℕ) (s : Slot) (slots : List Slot) (end : ℕ)
    → offset s ≡ at
    → LaidOut (at + slot_width s) slots end
    → (i j : ℕ) (t u : Slot) → i < j
    → get_elem? (s ∷ slots) i ≡ some t
    → get_elem? (s ∷ slots) j ≡ some u
    → offset t + slot_width t ≤ offset u
first_apart at s slots end here rest zero zero t u lt h k = absurd (omega arith)
first_apart at s slots end here rest zero (suc j) t u lt h k =
    let (low, high) = rest.inside j u k in
    subst (λ v. offset v + slot_width v ≤ offset u) (same h) (omega arith)
first_apart at s slots end here rest (suc i) zero t u lt h k = absurd (omega arith)
first_apart at s slots end here rest (suc i) (suc j) t u lt h k =
    rest.apart i j t u (omega arith) h k

-- A slot before slots that begin where it ends.
placed_first :
    (at : ℕ) (s : Slot) (slots : List Slot) (end : ℕ)
    → offset s ≡ at
    → LaidOut (at + slot_width s) slots end
    → LaidOut at (s ∷ slots) end
placed_first at s slots end here rest = record {
  grows = omega (arith, rest.grows);
  inside = first_inside at s slots end here rest;
  apart = first_apart at s slots end here rest;
}

lay_out-LaidOut :
    (at : ℕ) (fs : List (ℕ → Slot))
    → Every IsPlaced fs
    → at + 16 * length fs < 2 ^ 64
    → LaidOut at (lay_out at fs).0 (lay_out at fs).1
unfolding lay_out
lay_out-LaidOut at [] good small = record {
  grows = omega arith;
  inside = λ i s h. ground arith;
  apart = λ i j s t lt h k. ground arith;
}
lay_out-LaidOut at (f ∷ fs) good small =
    let here : IsPlaced f = good 0 f refl in
    let next : at + slot_width (f at) ≡ (at + slot_width (f at)) % 2 ^ 64 =
      omega (arith, (here at).1) in
    subst (λ n. LaidOut at (f at ∷ (lay_out n fs).0) (lay_out n fs).1) next
      (placed_first at (f at) _ _ (here at).0 (
        lay_out-LaidOut (at + slot_width (f at)) fs (λ i. good (suc i))
          (omega (arith, (here at).1))))

map-IsPlaced : (fs : List StorageType) → Every IsPlaced (map pub_field_slot fs)
map-IsPlaced [] i a e = absurd (cc e)
map-IsPlaced (t ∷ fs) zero a e = subst IsPlaced (same_function e) (pub_field_slot-IsPlaced t)
map-IsPlaced (t ∷ fs) (suc i) a e = map-IsPlaced fs i a e

-- A struct of fewer than `2 ^ 60` fields is laid out in order from byte 0 to its size: each field
-- ends before the next begins, and no two overlap.
pub for_struct-LaidOut :
    (fs : List StorageType)
    → 16 * length fs < 2 ^ 64
    → LaidOut 0 (for_struct fs).fields (for_struct fs).size
unfolding for_struct struct_of
for_struct-LaidOut fs small =
    lay_out-LaidOut 0 (map pub_field_slot fs) (map-IsPlaced fs)
      (omega (arith, length-map pub_field_slot fs))

pub for_array-stride :
    (t : StorageType)
    → ((for_array t).stride ≡ slot_width (for_array t).elem_slot) × (1 ≤ (for_array t).stride)
unfolding for_array array_of pub_field_slot pub_val_slot slot_width width
for_array-stride StorageType.i8 = (refl, omega arith)
for_array-stride StorageType.i16 = (refl, omega arith)
for_array-stride (StorageType.val_type ValType.i32) = (refl, omega arith)
for_array-stride (StorageType.val_type ValType.i64) = (refl, omega arith)
for_array-stride (StorageType.val_type ValType.f32) = (refl, omega arith)
for_array-stride (StorageType.val_type ValType.f64) = (refl, omega arith)
for_array-stride (StorageType.val_type (ValType.ref n h)) = (refl, omega arith)

slot_width-with_offset : (s : Slot) (at : ℕ) → slot_width (with_offset s at) ≡ slot_width s
unfolding slot_width
slot_width-with_offset (Slot.scalar _ kind) at = refl
slot_width-with_offset (Slot.ref _ kind) at = refl

offset-with_offset : (s : Slot) (at : ℕ) → offset (with_offset s at) ≡ at
offset-with_offset (Slot.scalar _ kind) at = refl
offset-with_offset (Slot.ref _ kind) at = refl

-- Element `i` of an array of `len` elements stands at `i * stride`, has the stride's width and
-- ends within the body, if the body's size is a `usize`.
pub elem_at-body_size :
    (t : StorageType) (i len : ℕ)
    → i < len
    → len * (for_array t).stride < 2 ^ 64
    → (offset (elem_at (for_array t) i) ≡ i * (for_array t).stride)
      × ((slot_width (elem_at (for_array t) i) ≡ (for_array t).stride)
          × (offset (elem_at (for_array t) i) + slot_width (elem_at (for_array t) i)
              ≤ body_size (for_array t) len))
unfolding elem_at body_size
elem_at-body_size t i len lt small =
    let d : ℕ = (for_array t).stride in
    let room : suc i * d ≤ len * d = mul-le-mul_right d lt in
    let more : suc i * d ≡ i * d + d = omega arith in
    let low : i * d % 2 ^ 64 ≡ i * d = omega (arith, room, more) in
    let at : offset (elem_at (for_array t) i) ≡ i * d =
      offset-with_offset (for_array t).elem_slot (i * d % 2 ^ 64) ∙ low in
    let wide : slot_width (elem_at (for_array t) i) ≡ d =
      slot_width-with_offset (for_array t).elem_slot (i * d % 2 ^ 64)
      ∙ sym (for_array-stride t).0 in
    (at, (wide, omega (arith, room, more)))

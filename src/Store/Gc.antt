-- ===== src/Store/Gc.antt =====
-- store/gc.rs: the managed object heap, its handles, its budget and its sweep.
-- `free` lists the vector from its last element, which is the next to be reused. A word of the mark
-- bitmap is the list of its 64 bits, lowest first. A native `i32` is its bit pattern.
pub mod Handle
pub mod Arena
pub mod Marks
use submilli_wasm.Base.{
  ℕ, zero, suc, ◌+◌, ◌-◌, ◌*◌, ◌/◌, ◌%◌, ◌^◌, min, max, Option, none, some, Bool, true, false, List,
  [], ◌∷◌, ◌++◌, length, get_elem?, set, take, replicate, resize, ltb, leb, ◌==◌, if◌then◌else◌,
}
use submilli_wasm.Base.Bytes.{to_le_bytes, from_le_bytes}
use submilli_wasm.Base.Int.{to_int, of_int, shr_int}
use submilli_wasm.Error.{Result, ok, err, panicked, trap, allocation_too_large}
use submilli_wasm.State.{M, ◌>>◌, then_run, pure, modify}
use submilli_wasm.Word.{u32_max, usize_max, saturating_add, saturating_mul, checked_add}
use submilli_wasm.Exec.Value.{Val}
use submilli_wasm.Exec.Cell.{null_ref}
use submilli_wasm.Store.Reclaim.{next_generation}

abbrev pub abort_safety_cap : ℕ
abort_safety_cap = 2 ^ 30

abbrev pub i31_tag : ℕ
i31_tag = 2 ^ 31

pub data AnyRefHandle : Type 0 where
  i31 : ℕ → AnyRefHandle
  slot : ℕ → AnyRefHandle

-- `I31_TAG | (value & !I31_TAG)`: the top bit, over the low 31 bits.
unfoldable pub anyref_handle_i31 : ℕ → ℕ
anyref_handle_i31 value = i31_tag + value % i31_tag

-- The payload is shifted to the left by one, and back with its sign.
unfoldable pub decode_anyref_handle : ℕ → AnyRefHandle
decode_anyref_handle handle =
    if ltb handle i31_tag
    then AnyRefHandle.slot handle
    else AnyRefHandle.i31
        (of_int i31_tag (shr_int 2 (to_int i31_tag (handle % i31_tag * 2 % 2 ^ 32))))

unfoldable pub anyref_value : ℕ → Val
anyref_value handle = Val.any_ref (some handle)

pub data ObjKind : Type 0 where
  struct array extern : ObjKind

pub record GcHeader : Type 0 where
  pub type_id : ℕ
  pub kind : ObjKind

pub record GcObject : Type 0 where
  pub header : GcHeader
  pub data_of : List ℕ

unfoldable pub new_struct : ℕ → List ℕ → GcObject
new_struct type_id body = record {
  header = record { type_id = type_id; kind = ObjKind.struct };
  data_of = body;
}

unfoldable pub new_array : ℕ → List ℕ → GcObject
new_array type_id body = record {
  header = record { type_id = type_id; kind = ObjKind.array };
  data_of = body;
}

unfoldable pub extern_wrapper : ℕ → GcObject
extern_wrapper index = record {
  header = record { type_id = u32_max; kind = ObjKind.extern };
  data_of = to_le_bytes 4 index;
}

-- `self.data.get(..4).map(le_u32)` of a wrapper.
unfoldable pub extern_index : GcObject → Option ℕ
extern_index o = elim o.header.kind [
  | ObjKind.extern ↦
      if leb 4 (length o.data_of) then some (from_le_bytes (take 4 o.data_of)) else none
  | ObjKind.struct ↦ none
  | ObjKind.array ↦ none
]

unfoldable pub array_len : GcObject → ℕ → ℕ
array_len o stride = length o.data_of / max stride 1 % 2 ^ 32

-- The sizes of `Option<GcObject>` and of a generation on a 64-bit host, and 16 for the `Box`.
abbrev pub object_overhead : ℕ
object_overhead = 24 + 4 + 16

unfoldable pub byte_size : GcObject → ℕ
byte_size o = saturating_add object_overhead (length o.data_of)

unfoldable pub object_charge : ℕ → ℕ
object_charge data_len = saturating_add object_overhead data_len

abbrev pub reserve_batch : ℕ
reserve_batch = 64 * 1024

pub record GcHeap : Type 0 where
  pub slots : List (Option GcObject)
  pub generations : List ℕ
  pub free : List ℕ
  pub used : ℕ
  pub reserved : ℕ
  pub reservation : ℕ
  pub next_grow : ℕ
  pub marks : List (List Bool)
  pub collecting : Bool

unfoldable pub new_heap : Bool → ℕ → GcHeap
new_heap collecting reservation = record {
  slots = [];
  generations = [];
  free = [];
  used = 0;
  reserved = 0;
  reservation = min reservation abort_safety_cap;
  next_grow = reserve_batch;
  marks = [];
  collecting = collecting;
}

unfoldable pub charge : ℕ → GcHeap → GcHeap
charge bytes h = record h { used = saturating_add h.used bytes }

unfoldable pub credit : ℕ → GcHeap → GcHeap
credit bytes h = record h { used = h.used - bytes }

unfoldable pub is_free_grant : GcHeap → ℕ → Bool
is_free_grant h target = leb target h.reservation

unfoldable pub footprint_over_floor : GcHeap → Bool
footprint_over_floor h = leb reserve_batch h.used

-- `self.used.checked_add(size).is_some_and(|n| n <= bound)`.
abbrev pub fits_below : GcHeap → ℕ → ℕ → Bool
fits_below h size bound = elim (checked_add h.used size) [ none ↦ false | some n ↦ leb n bound ]

unfoldable pub fits : GcHeap → ℕ → Bool
fits h size = fits_below h size h.reserved

unfoldable pub unreserved_ceiling : GcHeap → ℕ
unreserved_ceiling h = max (max h.reserved h.reservation) abort_safety_cap

unfoldable pub can_fit_limit : GcHeap → ℕ → Bool
can_fit_limit h size = fits_below h size (unreserved_ceiling h)

unfoldable pub desired_reservation : GcHeap → ℕ → ℕ
desired_reservation h size =
    max (saturating_add h.reserved h.next_grow) (saturating_add h.used size)

-- The heap, and the bytes that were added.
unfoldable pub grant : ℕ → GcHeap → GcHeap × ℕ
grant target h = (
  record h {
    reserved = target;
    next_grow = min (saturating_mul h.next_grow 2) (max h.reservation reserve_batch);
  },
  target - h.reserved,
)

unfoldable pub alloc_object : GcObject → M GcHeap ℕ
alloc_object object h = elim h.free [
  | index ∷ rest ↦
      if ltb index (length h.slots)
      then (
        ok index,
        record h {
          slots = set h.slots index (some object);
          free = rest;
          used = saturating_add h.used (byte_size object);
        },
      )
      else (err panicked, record h { free = rest })
  | [] ↦ if leb null_ref (length h.slots) then (err (trap allocation_too_large), h) else (
    ok (length h.slots % 2 ^ 32),
    record h {
      slots = h.slots ++ some object ∷ [];
      generations = h.generations ++ 0 ∷ [];
      used = saturating_add h.used (byte_size object);
    },
  )
]

unfoldable pub alloc_unreserved : GcObject → M GcHeap ℕ
alloc_unreserved object h =
    if can_fit_limit h (byte_size object)
    then alloc_object object h
    else (err (trap allocation_too_large), h)

unfoldable pub check_capacity : GcHeap → ℕ → Result (Unit {0})
check_capacity h extra_bytes =
    if can_fit_limit h extra_bytes then ok tt else err (trap allocation_too_large)

unfoldable pub object : GcHeap → ℕ → Option GcObject
object h index = elim (get_elem? h.slots index) [ none ↦ none | some held ↦ held ]

unfoldable pub generation_of : GcHeap → ℕ → Option ℕ
generation_of h index = get_elem? h.generations index

abbrev pub no_bits : List Bool
no_bits = replicate 64 false

abbrev pub bit_in : Option Bool → Bool
bit_in none = false
bit_in (some b) = b

abbrev pub bit_at : Option (List Bool) → ℕ → Bool
bit_at none i = false
bit_at (some word) i = bit_in (get_elem? word i)

-- `self.marks.get(i / 64).is_some_and(|word| word & (1 << (i % 64)) != 0)`.
unfoldable pub is_marked : GcHeap → ℕ → Bool
is_marked h i = bit_at (get_elem? h.marks (i / 64)) (i % 64)

-- `if word >= self.marks.len() { self.marks.resize(word + 1, 0) }`.
abbrev pub room_for : ℕ → List (List Bool) → List (List Bool)
room_for word marks = if ltb word (length marks) then marks else resize marks (word + 1) no_bits

-- `self.marks[word] |= bit`, where the word is there.
abbrev pub or_bit : Option (List Bool) → ℕ → ℕ → List (List Bool) → List (List Bool)
or_bit none word bit marks = marks
or_bit (some bits) word bit marks = set marks word (set bits bit true)

abbrev pub set_bit : ℕ → ℕ → List (List Bool) → List (List Bool)
set_bit word bit marks = or_bit (get_elem? marks word) word bit marks

-- The heap, and whether the mark is new.
unfoldable pub mark : ℕ → GcHeap → GcHeap × Bool
mark i h = elim (object h i) [
  | none ↦ (h, false)
  | some o ↦
      let marks = room_for (i / 64) h.marks in
      if bit_at (get_elem? marks (i / 64)) (i % 64)
      then (record h { marks = marks }, false)
      else (record h { marks = set_bit (i / 64) (i % 64) marks }, true)
]

unfoldable pub clear_marks : GcHeap → GcHeap
clear_marks h = record h { marks = [] }

-- A round of `sweep`.
unfoldable pub sweep_object : ℕ → M GcHeap (Unit {0})
sweep_object i h = elim (object h i) [
  | none ↦ (ok tt, h)
  | some o ↦ if is_marked h i then (ok tt, h) else elim (get_elem? h.generations i) [
    | none ↦ (err panicked, record h { used = h.used - byte_size o; slots = set h.slots i none })
    | some g ↦ (
      ok tt,
      record h {
        used = h.used - byte_size o;
        slots = set h.slots i none;
        generations = set h.generations i (next_generation g);
        free = i % 2 ^ 32 ∷ h.free;
      },
    )
  ]
]

-- `n` rounds from slot `i` on.
unfoldable pub sweep_objects : ℕ → ℕ → M GcHeap (Unit {0})
sweep_objects zero i = pure tt
sweep_objects (suc n) i = do sweep_object i; sweep_objects n (i + 1)

unfoldable pub sweep_heap : M GcHeap (Unit {0})
sweep_heap h = then_run (λ _. modify clear_marks) (sweep_objects (length h.slots) 0 h)

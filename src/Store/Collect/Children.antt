-- ===== src/Store/Collect/Children.antt =====
-- store/gc_collect.rs: what a node puts on the worklist does not depend on what is waiting there.
use submilli_wasm.Base.{
  ℕ, zero, suc, ◌+◌, ◌≡◌, refl, sym, ap, ◌∙◌, inl, inr, none, some, Bool, true, false, List, [],
  ◌∷◌, ◌++◌, take, append_assoc, if◌then◌else◌, ◌==◌,
}
use submilli_wasm.Base.Bytes.{from_le_bytes}
use submilli_wasm.Error.{Result, ok, err, Error, Result-cases, ◌>>=◌, ok_or}
use submilli_wasm.Exec.Value.{RefKind, Val}
use submilli_wasm.Exec.Cell.{null_ref}
use submilli_wasm.Canon.Layout.{Slot, ArrayLayout, StorageType, elem_at, for_struct, for_array}
use submilli_wasm.Store.Reclaim.{entry}
use submilli_wasm.Store.Gc.{
  GcHeap, GcObject, ObjKind, AnyRefHandle, decode_anyref_handle, extern_index, object, array_len,
}
use submilli_wasm.Word.{checked_add}
use submilli_wasm.Store.Collect.{
  metadata, get_range, Reached, ExternEntry, StoreInner, seed_handle, seed_val, seed_each,
  seed_slot, seed_fields, seed_elems, or_else, trace_array, trace_object, trace_gc, trace_extern,
  trace_exn,
}

-- What is put on top of the work that waits.
abbrev pub on_top : Result (List Reached) → List Reached → Result (List Reached)
on_top (ok cs) work = ok (cs ++ work)
on_top (err e) work = err e

abbrev pub IsPush : (List Reached → Result (List Reached)) → Type 0
IsPush f = (work : List Reached) → f work ≡ on_top (f []) work

abbrev seed_kind : List Reached → ℕ → RefKind → List Reached
seed_kind work handle kind = elim kind [
  | RefKind.func ↦ work
  | RefKind.any ↦ elim (decode_anyref_handle handle) [
    | AnyRefHandle.slot i ↦ Reached.gc i ∷ work
    | AnyRefHandle.i31 v ↦ work
  ]
  | RefKind.extern ↦ Reached.extern handle ∷ work
  | RefKind.exn ↦ Reached.exn handle ∷ work
]

seed_any :
    (work : List Reached) (d : AnyRefHandle)
    → Path
        (List Reached)
        (elim d [ AnyRefHandle.slot i ↦ Reached.gc i ∷ work | AnyRefHandle.i31 v ↦ work ])
        ((elim d [ AnyRefHandle.slot i ↦ Reached.gc i ∷ [] | AnyRefHandle.i31 v ↦ [] ]) ++ work)
seed_any work (AnyRefHandle.slot i) = refl
seed_any work (AnyRefHandle.i31 v) = refl

seed_kind-append :
    (work : List Reached) (h : ℕ) (k : RefKind) → seed_kind work h k ≡ seed_kind [] h k ++ work
seed_kind-append work h RefKind.func = refl
seed_kind-append work h RefKind.any = seed_any work (decode_anyref_handle h)
seed_kind-append work h RefKind.extern = refl
seed_kind-append work h RefKind.exn = refl

unless :
    (b : Bool) (work xs ys : List Reached)
    → xs ≡ ys ++ work
    → Path (List Reached) (if b then work else xs) ((if b then [] else ys) ++ work)
unless true work xs ys e = refl
unless false work xs ys e = e

pub seed_handle-append :
    (work : List Reached) (h : ℕ) (k : RefKind) → seed_handle work h k ≡ seed_handle [] h k ++ work
unfolding seed_handle
seed_handle-append work h k = unless (h == null_ref) work _ _ (seed_kind-append work h k)

pub seed_val-append : (work : List Reached) (v : Val) → seed_val work v ≡ seed_val [] v ++ work
unfolding seed_val
seed_val-append work (Val.i32 _) = refl
seed_val-append work (Val.i64 _) = refl
seed_val-append work (Val.f32 _) = refl
seed_val-append work (Val.f64 _) = refl
seed_val-append work (Val.func_ref _) = refl
seed_val-append work (Val.extern_ref none) = refl
seed_val-append work (Val.extern_ref (some r)) = seed_handle-append work r RefKind.extern
seed_val-append work (Val.any_ref none) = refl
seed_val-append work (Val.any_ref (some r)) = seed_handle-append work r RefKind.any
seed_val-append work (Val.exn_ref none) = refl
seed_val-append work (Val.exn_ref (some r)) = seed_handle-append work r RefKind.exn

pub seed_each-append {ℓ} :
    {A : Type ℓ} (seed : List Reached → A → List Reached)
    → ((work : List Reached) (x : A) → seed work x ≡ seed [] x ++ work)
    → (xs : List A) (work : List Reached) → seed_each seed work xs ≡ seed_each seed [] xs ++ work
seed_each-append seed push [] work = refl
seed_each-append seed push (x ∷ xs) work =
    seed_each-append seed push xs (seed work x)
    ∙ (ap (λ l. seed_each seed [] xs ++ l) (push work x)
        ∙ (sym (append_assoc (seed_each seed [] xs) (seed [] x) work)
            ∙ ap (λ l. l ++ work) (sym (seed_each-append seed push xs (seed [] x)))))

on_top-on_top :
    (r : Result (List Reached)) (cs work : List Reached)
    → on_top r (cs ++ work) ≡ on_top (on_top r cs) work
on_top-on_top (ok ds) cs work = ap ok (sym (append_assoc ds cs work))
on_top-on_top (err e) cs work = refl

-- A chain of pushes is a push.
IsPush-then :
    (f g : List Reached → Result (List Reached))
    → IsPush f
    → IsPush g
    → IsPush (λ work. f work >>= g)
IsPush-then f g pf pg work = elim (Result-cases (f [])) [
  | inl (cs, e) ↦
      rw (pf work, e)
        (pg (cs ++ work) ∙ (on_top-on_top (g []) cs work ∙ ap (λ r. on_top r work) (sym (pg cs))))
  | inr (failure, e) ↦ rw (pf work, e) refl
]

IsPush-bind {ℓ} :
    {A : Type ℓ} (r : Result A) (k : A → List Reached → Result (List Reached))
    → ((a : A) → IsPush (k a))
    → IsPush (λ work. r >>= λ a. k a work)
IsPush-bind (ok a) k push work = push a work
IsPush-bind (err e) k push work = refl

IsPush-ok :
    (f : List Reached → List Reached)
    → ((work : List Reached) → f work ≡ f [] ++ work)
    → IsPush (λ work. ok (f work))
IsPush-ok f push work = ap ok (push work)

pub seed_slot-IsPush : (slot : Slot) (bytes : List ℕ) → IsPush (λ work. seed_slot work slot bytes)
unfolding seed_slot
seed_slot-IsPush (Slot.scalar offset kind) bytes work = refl
seed_slot-IsPush (Slot.ref offset kind) bytes work =
    IsPush-bind (ok_or (checked_add offset 4) (metadata "reference slot offset overflow")) _
      (λ end.
        IsPush-bind
          (ok_or (get_range bytes offset end) (metadata "reference slot exceeds object body")) _
          (λ held. IsPush-ok _ (λ w. seed_handle-append w (from_le_bytes (take 4 held)) kind)))
      work

pub seed_fields-IsPush :
    (slots : List Slot) (bytes : List ℕ) → IsPush (λ work. seed_fields work slots bytes)
unfolding seed_fields
seed_fields-IsPush [] bytes work = refl
seed_fields-IsPush (slot ∷ slots) bytes work =
    IsPush-then _ _ (seed_slot-IsPush slot bytes) (seed_fields-IsPush slots bytes) work

pub seed_elems-IsPush :
    (layout : ArrayLayout) (n i : ℕ) (bytes : List ℕ)
    → IsPush (λ work. seed_elems work layout n i bytes)
unfolding seed_elems
seed_elems-IsPush layout zero i bytes work = refl
seed_elems-IsPush layout (suc n) i bytes work =
    IsPush-then _ _ (seed_slot-IsPush (elem_at layout i) bytes)
      (seed_elems-IsPush layout n (i + 1) bytes) work

IsPush-if :
    (b : Bool) (e : Error) (f : List Reached → Result (List Reached))
    → IsPush f
    → IsPush (λ work. if b then err e else f work)
IsPush-if true e f push work = refl
IsPush-if false e f push work = push work

trace_array-IsPush : (layout : ArrayLayout) (o : GcObject) → IsPush (trace_array layout o)
unfolding trace_array
trace_array-IsPush layout o =
    IsPush-if _ _ _ (seed_elems-IsPush layout (array_len o layout.stride) 0 o.data_of)

pub trace_extern-IsPush : (s : StoreInner) (i : ℕ) → IsPush (trace_extern s i)
unfolding trace_extern
trace_extern-IsPush s i =
    IsPush-bind (ok_or (entry s.externrefs i) (metadata "dangling externref root")) _ entry_push
  where
    entry_push :
        (held : ExternEntry) (work : List Reached)
        → Path
            (Result (List Reached))
            (elim held [
              | ExternEntry.internal_any handle ↦ ok (seed_handle work handle RefKind.any)
              | ExternEntry.host ↦ ok work
            ])
            (on_top
              (elim held [
                | ExternEntry.internal_any handle ↦ ok (seed_handle [] handle RefKind.any)
                | ExternEntry.host ↦ ok []
              ])
              work)
    entry_push (ExternEntry.internal_any handle) work =
        ap ok (seed_handle-append work handle RefKind.any)
    entry_push ExternEntry.host work = refl

pub trace_exn-IsPush : (s : StoreInner) (i : ℕ) → IsPush (trace_exn s i)
unfolding trace_exn
trace_exn-IsPush s i =
    IsPush-bind (ok_or (entry s.exns i) (metadata "dangling exception root")) _
      (λ held. IsPush-ok _ (seed_each-append seed_val seed_val-append held.args))

module _ (struct_fields : ℕ → Result (List StorageType))
    (array_field : ℕ → Result StorageType) where
  -- An object of each kind.
  trace_kind-IsPush :
      (type_id : ℕ) (kind : ObjKind) (body : List ℕ)
      → IsPush (
          trace_object struct_fields array_field
            (record { header = record { type_id = type_id; kind = kind }; data_of = body }))
  unfolding trace_object
  trace_kind-IsPush type_id ObjKind.struct body =
      IsPush-bind (or_else (struct_fields type_id) (metadata "struct type metadata is missing")) _
        (λ fields. seed_fields-IsPush (for_struct fields).fields body)
  trace_kind-IsPush type_id ObjKind.array body =
      IsPush-bind (or_else (array_field type_id) (metadata "array type metadata is missing")) _
        (λ elem. trace_array-IsPush (for_array elem) _)
  trace_kind-IsPush type_id ObjKind.extern body =
      IsPush-bind
        (ok_or
          (extern_index (record {
            header = record { type_id = type_id; kind = ObjKind.extern };
            data_of = body;
          }))
          (metadata "extern wrapper body is truncated"))
        _ (λ index. λ work. refl)

  pub trace_gc-IsPush : (h : GcHeap) (i : ℕ) → IsPush (trace_gc struct_fields array_field h i)
  unfolding trace_gc
  trace_gc-IsPush h i =
      IsPush-bind (ok_or (object h i) (metadata "marked GC object is missing")) _
        (λ o. trace_kind-IsPush o.header.type_id o.header.kind o.data_of)

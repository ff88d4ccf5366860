-- ===== src/Store/Collect/Holds.antt =====
-- store/gc_collect.rs: the references that an object holds, described by its layout and its bytes,
-- which its trace names.
use submilli_wasm.Base.{
  ℕ, ◌%◌, ◌≡◌, ◌↔◌, inl, inr, sym, ap, ◌∙◌, Option, some, List, [], ◌∷◌, length, Option-cases,
  Bool-cases, not, ◌||◌, ◌==◌, subst,
}
use submilli_wasm.Worklist.{Among}
use submilli_wasm.Error.{Result, ok, Result-cases, ◌>>=◌, ok_or}
use submilli_wasm.Canon.Layout.{ArrayLayout, StorageType, for_struct, for_array}
use submilli_wasm.Store.Gc.{GcObject, ObjKind, extern_index, array_len}
use submilli_wasm.Store.Collect.{
  Reached, metadata, seed_fields, seed_elems, or_else, trace_array, trace_object,
}
use submilli_wasm.Store.Collect.Names.{
  Names, Names-iff, AtField, AtElem, seed_fields-Names, seed_elems-Names, err_ok, same_ok, only,
}

checked_array :
    (layout : ArrayLayout) (o : GcObject) (cs : List Reached)
    → trace_array layout o [] ≡ ok cs
    → seed_elems [] layout (array_len o layout.stride) 0 o.data_of ≡ ok cs
unfolding trace_array
checked_array layout o cs e =
    elim (Bool-cases ((layout.stride == 0) || not (length o.data_of % layout.stride == 0))) [
      | inl bad ↦ absurd (err_ok (rw bad at e))
      | inr good ↦ rw good at e
    ]

same_found : {A : Type 0} {x y : A} → Path (Result A) (ok x) (ok y) → x ≡ y
same_found e = cc

same_index : {x y : ℕ} → Path (Option ℕ) (some x) (some y) → x ≡ y
same_index e = cc

module _ (struct_fields : ℕ → Result (List StorageType))
    (array_field : ℕ → Result StorageType) where
  -- The references that an object of each kind holds: a struct's in its reference fields, an array's
  -- in its elements, a wrapper's in its body.
  abbrev pub HoldsAs : ObjKind → GcObject → Reached → Type 0
  HoldsAs ObjKind.struct o q =
      (fields : List StorageType) × ((struct_fields o.header.type_id ≡ ok fields)
        × AtField o.data_of (for_struct fields).fields q)
  HoldsAs ObjKind.array o q =
      (elem : StorageType) × ((array_field o.header.type_id ≡ ok elem)
        × AtElem o.data_of (for_array elem) 0 (array_len o (for_array elem).stride) q)
  HoldsAs ObjKind.extern o q =
      (index : ℕ) × ((extern_index o ≡ some index) × (q ≡ Reached.extern index))

  abbrev pub Holds : GcObject → Reached → Type 0
  Holds o = HoldsAs o.header.kind o

  as_kind : ObjKind → GcObject → Result (List Reached)
  as_kind kind o = elim kind [
    | ObjKind.struct ↦ do
      fields ← or_else (struct_fields o.header.type_id) (metadata "struct type metadata is missing")
      seed_fields [] (for_struct fields).fields o.data_of
    | ObjKind.array ↦ do
      elem ← or_else (array_field o.header.type_id) (metadata "array type metadata is missing")
      trace_array (for_array elem) o []
    | ObjKind.extern ↦ do
      index ← ok_or (extern_index o) (metadata "extern wrapper body is truncated")
      ok (Reached.extern index ∷ [])
  ]

  as_kind-Names :
      (kind : ObjKind) (o : GcObject) (cs : List Reached)
      → as_kind kind o ≡ ok cs
      → Names cs (HoldsAs kind o)
  unfolding as_kind trace_array
  as_kind-Names ObjKind.struct o cs e = elim (Result-cases (struct_fields o.header.type_id)) [
    | inr (bad, fe) ↦ absurd (err_ok (rw fe at e))
    | inl (fields, fe) ↦
        let traced : seed_fields [] (for_struct fields).fields o.data_of ≡ ok cs = rw fe at e in
        Names-iff cs _ _
          (λ q. (
            λ h. (fields, (fe, h)),
            λ h.
                subst (λ fs. AtField o.data_of (for_struct fs).fields q)
                  (same_found (sym h.1.0 ∙ fe)) h.1.1,
          ))
          (seed_fields-Names (for_struct fields).fields o.data_of cs traced)
  ]
  as_kind-Names ObjKind.array o cs e = elim (Result-cases (array_field o.header.type_id)) [
    | inr (bad, fe) ↦ absurd (err_ok (rw fe at e))
    | inl (elem, fe) ↦
        let traced : trace_array (for_array elem) o [] ≡ ok cs = rw fe at e in
        Names-iff cs _ _
          (λ q. (
            λ h. (elem, (fe, h)),
            λ h.
                subst (λ t. AtElem o.data_of (for_array t) 0 (array_len o (for_array t).stride) q)
                  (same_found (sym h.1.0 ∙ fe)) h.1.1,
          ))
          (seed_elems-Names (for_array elem) (array_len o (for_array elem).stride) 0 o.data_of cs
            (checked_array (for_array elem) o cs traced))
  ]
  as_kind-Names ObjKind.extern o cs e = elim (Option-cases (extern_index o)) [
    | inl bad ↦ absurd (err_ok (rw bad at e))
    | inr (index, fe) ↦
        let traced : Reached.extern index ∷ [] ≡ cs = same_ok (rw fe at e) in
        subst (λ l. Names l (HoldsAs ObjKind.extern o)) traced
          (λ q. (
            λ a. (index, (fe, only a)),
            λ h. inl (h.1.1 ∙ ap Reached.extern (same_index (sym h.1.0 ∙ fe))),
          ))
  ]

  -- Whenever the trace of an object succeeds, the nodes that it puts on the worklist are exactly
  -- the references that the object holds: in the reference fields of a struct, in the elements of
  -- an array, or in the body of a wrapper.
  pub trace_object-Holds :
      (o : GcObject) (cs : List Reached)
      → trace_object struct_fields array_field o [] ≡ ok cs
      → (q : Reached) → Among q cs ↔ Holds o q
  unfolding trace_object as_kind
  trace_object-Holds o cs e = as_kind-Names o.header.kind o cs e

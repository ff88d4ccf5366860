-- ===== src/Store/Collect/Roots.antt =====
-- store/gc_collect.rs: the roots of a collection and the references between nodes, described by
-- where a value stands, and that the collector seeds exactly these.
use submilli_wasm.Base.{
  ℕ, zero, suc, ◌≡◌, ◌↔◌, ◌⊎◌, inl, inr, refl, sym, ap, ◌∙◌, Option, none, some, List, [], ◌∷◌,
  get_elem?, subst,
}
use submilli_wasm.Worklist.{Among, Among-append_left, Among-append_right, Among-append_cases}
use submilli_wasm.Exec.Value.{RefKind, Val, Ref}
use submilli_wasm.Store.Collect.{
  Reached, StoreInner, seed_handle, seed_val, seed_ref, seed_each, seed_pending, seed_entity_roots,
  roots_of,
}
use submilli_wasm.Store.Collect.Children.{seed_handle-append}
use submilli_wasm.Store.Collect.Names.{Refers, seed_handle-Refers}

-- The property holds of an element of the list.
abbrev pub Somewhere : {A : Type 0} → (A → Type 0) → List A → Type 0
Somewhere {A} P xs = (i : ℕ) × ((x : A) × ((get_elem? xs i ≡ some x) × P x))

-- What a value, and what an entry of a table, refers to.
abbrev pub ValRefers : Val → Reached → Type 0
ValRefers (Val.extern_ref (some h)) q = Refers h RefKind.extern q
ValRefers (Val.any_ref (some h)) q = Refers h RefKind.any q
ValRefers (Val.exn_ref (some h)) q = Refers h RefKind.exn q
ValRefers _ q = ⊥

abbrev pub RefRefers : Ref → Reached → Type 0
RefRefers (Ref.extern (some h)) q = Refers h RefKind.extern q
RefRefers (Ref.any (some h)) q = Refers h RefKind.any q
RefRefers (Ref.exn (some h)) q = Refers h RefKind.exn q
RefRefers _ q = ⊥

-- The roots: what the operands, the globals, the tables, the element segments, the parked exception
-- and the host's handles refer to.
pub data IsRoot (stack_roots : List (ℕ × RefKind)) (s : StoreInner) (q : Reached) : Type 0 where
  operand : Somewhere (λ root. Refers root.0 root.1 q) stack_roots → IsRoot stack_roots s q
  global : Somewhere (λ v. ValRefers v q) s.globals → IsRoot stack_roots s q
  table : Somewhere (Somewhere (λ r. RefRefers r q)) s.tables → IsRoot stack_roots s q
  segment :
      Somewhere (Somewhere (Somewhere (λ r. RefRefers r q))) s.segments → IsRoot stack_roots s q
  pending : (e : ℕ) → s.pending_exception ≡ some e → q ≡ Reached.exn e → IsRoot stack_roots s q
  host : Somewhere (λ root. Refers root.0 root.1 q) s.gc_roots → IsRoot stack_roots s q

-- A seeding adds to the work exactly what `P` says.
abbrev pub Adds : {A : Type 0} → (List Reached → A → List Reached) → (A → Reached → Type 0) → Type 0
Adds {A} seed P =
    (work : List Reached) (x : A) (q : Reached) → Among q (seed work x) ↔ (P x q ⊎ Among q work)

module _ {A : Type 0} (P : A → Reached → Type 0) where
  same_element : {x y : A} → Path (Option A) (some x) (some y) → x ≡ y
  same_element e = cc

  later :
      (x : A) (xs : List A) (q : Reached)
      → Somewhere (λ y. P y q) xs
      → Somewhere (λ y. P y q) (x ∷ xs)
  later x xs q (i, (y, (e, p))) = (suc i, (y, (e, p)))

  split :
      (x : A) (xs : List A) (q : Reached)
      → Somewhere (λ y. P y q) (x ∷ xs)
      → P x q ⊎ Somewhere (λ y. P y q) xs
  split x xs q (zero, (y, (e, p))) = inl (subst (λ z. P z q) (sym (same_element e)) p)
  split x xs q (suc i, (y, (e, p))) = inr (i, (y, (e, p)))

  pub seed_each-Adds :
      (seed : List Reached → A → List Reached)
      → Adds seed P
      → Adds (seed_each seed) (λ xs q. Somewhere (λ x. P x q) xs)
  seed_each-Adds seed adds work [] q =
      (λ a. inr a, λ s. elim s [ inl (i, (y, (e, p))) ↦ cc | inr a ↦ a ])
  seed_each-Adds seed adds work (x ∷ xs) q =
      let rest = seed_each-Adds seed adds (seed work x) xs q in
      (
        λ a. elim (rest.0 a) [
          | inl s ↦ inl (later x xs q s)
          | inr b ↦ elim ((adds work x q).0 b) [ inl p ↦ inl (0, (x, (refl, p))) | inr c ↦ inr c ]
        ],
        λ s. elim s [
          | inl some_x ↦ elim (split x xs q some_x) [
            | inl p ↦ rest.1 (inr ((adds work x q).1 (inl p)))
            | inr t ↦ rest.1 (inl t)
          ]
          | inr a ↦ rest.1 (inr ((adds work x q).1 (inr a)))
        ],
      )

seed_handle-Adds : (k : RefKind) → Adds (λ work h. seed_handle work h k) (λ h q. Refers h k q)
seed_handle-Adds k work h q =
    let pushed = seed_handle-append work h k in
    let names = seed_handle-Refers h k q in
    (
      λ a. elim (Among-append_cases q (seed_handle [] h k) work (subst (Among q) pushed a)) [
        | inl b ↦ inl (names.0 b)
        | inr b ↦ inr b
      ],
      λ s. subst (Among q) (sym pushed) (elim s [
        | inl r ↦ Among-append_left q (seed_handle [] h k) work (names.1 r)
        | inr a ↦ Among-append_right q (seed_handle [] h k) work a
      ]),
    )

-- A reference that names nothing adds nothing.
adds_nothing : (work : List Reached) (q : Reached) → Among q work ↔ (⊥ ⊎ Among q work)
adds_nothing work q = (λ a. inr a, λ s. elim s [ inl b ↦ absurd b | inr a ↦ a ])

root-Adds :
    Adds
      (λ work (root : ℕ × RefKind). seed_handle work root.0 root.1)
      (λ root q. Refers root.0 root.1 q)
root-Adds work root q = seed_handle-Adds root.1 work root.0 q

pub seed_val-Adds : Adds seed_val ValRefers
unfolding seed_val
seed_val-Adds work (Val.extern_ref (some h)) q = seed_handle-Adds RefKind.extern work h q
seed_val-Adds work (Val.any_ref (some h)) q = seed_handle-Adds RefKind.any work h q
seed_val-Adds work (Val.exn_ref (some h)) q = seed_handle-Adds RefKind.exn work h q
seed_val-Adds work (Val.extern_ref none) q = adds_nothing work q
seed_val-Adds work (Val.any_ref none) q = adds_nothing work q
seed_val-Adds work (Val.exn_ref none) q = adds_nothing work q
seed_val-Adds work (Val.func_ref r) q = adds_nothing work q
seed_val-Adds work (Val.i32 v) q = adds_nothing work q
seed_val-Adds work (Val.i64 v) q = adds_nothing work q
seed_val-Adds work (Val.f32 v) q = adds_nothing work q
seed_val-Adds work (Val.f64 v) q = adds_nothing work q

seed_ref-Adds : Adds seed_ref RefRefers
unfolding seed_ref
seed_ref-Adds work (Ref.extern (some h)) q = seed_handle-Adds RefKind.extern work h q
seed_ref-Adds work (Ref.any (some h)) q = seed_handle-Adds RefKind.any work h q
seed_ref-Adds work (Ref.exn (some h)) q = seed_handle-Adds RefKind.exn work h q
seed_ref-Adds work (Ref.extern none) q = adds_nothing work q
seed_ref-Adds work (Ref.any none) q = adds_nothing work q
seed_ref-Adds work (Ref.exn none) q = adds_nothing work q
seed_ref-Adds work (Ref.func r) q = adds_nothing work q

abbrev PendingRefers : Option ℕ → Reached → Type 0
PendingRefers held q = (e : ℕ) × ((held ≡ some e) × (q ≡ Reached.exn e))

same_index : {x y : ℕ} → Path (Option ℕ) (some x) (some y) → x ≡ y
same_index e = cc

seed_pending-Adds : Adds seed_pending PendingRefers
seed_pending-Adds work none q = (λ a. inr a, λ s. elim s [ inl (e, (x, y)) ↦ cc | inr a ↦ a ])
seed_pending-Adds work (some e) q = (
  λ a. elim a [ inl p ↦ inl (e, (refl, p)) | inr b ↦ inr b ],
  λ s. elim s [ inl (d, (x, y)) ↦ inl (y ∙ ap Reached.exn (sym (same_index x))) | inr a ↦ inr a ],
)

abbrev TableRefers : List Ref → Reached → Type 0
TableRefers refs q = Somewhere (λ r. RefRefers r q) refs

table-Adds : Adds (seed_each seed_ref) TableRefers
table-Adds = seed_each-Adds RefRefers seed_ref seed_ref-Adds

abbrev SegmentsRefer : List (List Ref) → Reached → Type 0
SegmentsRefer segments q = Somewhere (λ refs. TableRefers refs q) segments

segments-Adds : Adds (seed_each (seed_each seed_ref)) SegmentsRefer
segments-Adds = seed_each-Adds TableRefers (seed_each seed_ref) table-Adds

abbrev seed_root : List Reached → ℕ × RefKind → List Reached
seed_root work root = seed_handle work root.0 root.1

abbrev RootRefers : ℕ × RefKind → Reached → Type 0
RootRefers root q = Refers root.0 root.1 q

module _ (stack_roots : List (ℕ × RefKind)) (s : StoreInner) (q : Reached) where
  abbrev operands : List Reached
  operands = seed_each seed_root [] stack_roots

  abbrev globals : List Reached
  globals = seed_each seed_val operands s.globals

  abbrev tables : List Reached
  tables = seed_each (seed_each seed_ref) globals s.tables

  abbrev segments : List Reached
  segments = seed_each (seed_each (seed_each seed_ref)) tables s.segments

  abbrev parked : List Reached
  parked = seed_pending segments s.pending_exception

  operands_iff : Among q operands ↔ (Somewhere (λ r. RootRefers r q) stack_roots ⊎ Among q [])
  operands_iff = seed_each-Adds RootRefers seed_root root-Adds [] stack_roots q

  globals_iff : Among q globals ↔ (Somewhere (λ v. ValRefers v q) s.globals ⊎ Among q operands)
  globals_iff = seed_each-Adds ValRefers seed_val seed_val-Adds operands s.globals q

  tables_iff : Among q tables ↔ (Somewhere (λ t. TableRefers t q) s.tables ⊎ Among q globals)
  tables_iff = segments-Adds globals s.tables q

  segments_iff : Among q segments ↔ (Somewhere (λ m. SegmentsRefer m q) s.segments ⊎ Among q tables)
  segments_iff = seed_each-Adds SegmentsRefer _ segments-Adds tables s.segments q

  parked_iff : Among q parked ↔ (PendingRefers s.pending_exception q ⊎ Among q segments)
  parked_iff = seed_pending-Adds segments s.pending_exception q

  roots_iff :
      Among q (roots_of stack_roots s)
      ↔ (Somewhere (λ r. RootRefers r q) s.gc_roots ⊎ Among q parked)
  unfolding roots_of seed_entity_roots
  roots_iff = seed_each-Adds RootRefers seed_root root-Adds parked s.gc_roots q

  -- A node is seeded exactly if it is a root.
  pub roots_of-IsRoot : Among q (roots_of stack_roots s) ↔ IsRoot stack_roots s q
  roots_of-IsRoot = (to, from)
    where
      to : Among q (roots_of stack_roots s) → IsRoot stack_roots s q
      to a = elim (roots_iff.0 a) [
        | inl h ↦ IsRoot.host h
        | inr b ↦ elim (parked_iff.0 b) [
          | inl (e, (held, is)) ↦ IsRoot.pending e held is
          | inr c ↦ elim (segments_iff.0 c) [
            | inl m ↦ IsRoot.segment m
            | inr d ↦ elim (tables_iff.0 d) [
              | inl t ↦ IsRoot.table t
              | inr f ↦ elim (globals_iff.0 f) [
                | inl g ↦ IsRoot.global g
                | inr h ↦ elim (operands_iff.0 h) [ inl o ↦ IsRoot.operand o | inr n ↦ absurd n ]
              ]
            ]
          ]
        ]
      ]

      from : IsRoot stack_roots s q → Among q (roots_of stack_roots s)
      from (IsRoot.host h) = roots_iff.1 (inl h)
      from (IsRoot.pending e held is) = roots_iff.1 (inr (parked_iff.1 (inl (e, (held, is)))))
      from (IsRoot.segment m) = roots_iff.1 (inr (parked_iff.1 (inr (segments_iff.1 (inl m)))))
      from (IsRoot.table t) =
          roots_iff.1 (inr (parked_iff.1 (inr (segments_iff.1 (inr (tables_iff.1 (inl t)))))))
      from (IsRoot.global g) = roots_iff.1 (
          inr (
            parked_iff.1 (inr (segments_iff.1 (inr (tables_iff.1 (inr (globals_iff.1 (inl g)))))))))
      from (IsRoot.operand o) = roots_iff.1 (
          inr (
            parked_iff.1 (
              inr (
                segments_iff.1
                  (inr (tables_iff.1 (inr (globals_iff.1 (inr (operands_iff.1 (inl o)))))))))))

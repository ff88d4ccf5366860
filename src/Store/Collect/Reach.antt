-- ===== src/Store/Collect/Reach.antt =====
-- store/gc_collect.rs: the live nodes, which roots and held references lead to, and that these are
-- what a worklist trace reaches.
use submilli_wasm.Base.{
  ℕ, ◌≡◌, ◌↔◌, inl, inr, refl, sym, ◌∙◌, Option, none, some, List, [], Option-cases, subst,
}
use submilli_wasm.Worklist.{Among, Reachable}
use submilli_wasm.Error.{Result, ok}
use submilli_wasm.Exec.Value.{RefKind}
use submilli_wasm.Canon.Layout.{StorageType}
use submilli_wasm.Store.Reclaim.{entry}
use submilli_wasm.Store.Gc.{GcObject, object}
use submilli_wasm.Store.Collect.{
  Reached, ExternEntry, ExnEntity, StoreInner, seed_handle, seed_val, seed_each, trace_gc,
  trace_extern, trace_exn, trace_object, roots_of,
}
use submilli_wasm.Store.Collect.Names.{Refers, seed_handle-Refers, err_ok, same_ok}
use submilli_wasm.Store.Collect.Holds.{Holds, trace_object-Holds}
use submilli_wasm.Store.Collect.Laws.{children}
use submilli_wasm.Store.Collect.Roots.{
  Somewhere, ValRefers, IsRoot, seed_each-Adds, seed_val-Adds, roots_of-IsRoot,
}

same_entry : {x y : ExternEntry} → Path (Option ExternEntry) (some x) (some y) → x ≡ y
same_entry e = cc

same_handle : {x y : ℕ} → ExternEntry.internal_any x ≡ ExternEntry.internal_any y → x ≡ y
same_handle e = cc

host_entry : {x : ℕ} → ExternEntry.host ≡ ExternEntry.internal_any x → ⊥
host_entry e = cc

module _ (struct_fields : ℕ → Result (List StorageType)) (array_field : ℕ → Result StorageType)
    (s : StoreInner) where
  -- A node refers to another: an object holds it, an extern's entry is a reference to it, or an
  -- exception has it among its arguments.
  abbrev pub Edge : Reached → Reached → Type 0
  Edge (Reached.gc i) q =
      (o : GcObject) × ((object s.heap i ≡ some o) × Holds struct_fields array_field o q)
  Edge (Reached.extern i) q =
      (h : ℕ) × ((entry s.externrefs i ≡ some (ExternEntry.internal_any h))
        × Refers h RefKind.any q)
  Edge (Reached.exn i) q =
      (e : ExnEntity) × ((entry s.exns i ≡ some e) × Somewhere (λ v. ValRefers v q) e.args)

  -- What the roots lead to.
  pub data Live (stack_roots : List (ℕ × RefKind)) : Reached → Type 0 where
    root : {q : Reached} → IsRoot stack_roots s q → Live stack_roots q
    step : {p q : Reached} → Live stack_roots p → Edge p q → Live stack_roots q

  same_object :
      (i : ℕ) {o o' : GcObject} → object s.heap i ≡ some o → object s.heap i ≡ some o' → o ≡ o'
  same_object i e e' = same (sym e ∙ e')
    where
      same : {o o' : GcObject} → Path (Option GcObject) (some o) (some o') → o ≡ o'
      same q = cc

  same_exn : (i : ℕ) {x y : ExnEntity} → entry s.exns i ≡ some x → entry s.exns i ≡ some y → x ≡ y
  same_exn i e e' = same (sym e ∙ e')
    where
      same : {x y : ExnEntity} → Path (Option ExnEntity) (some x) (some y) → x ≡ y
      same q = cc

  gc_child :
      (i : ℕ) (o : GcObject)
      → object s.heap i ≡ some o
      → children struct_fields array_field s (Reached.gc i)
        ≡ trace_object struct_fields array_field o []
  unfolding children trace_gc
  gc_child i o e = rw (children, e, trace_gc, e) refl

  gc_missing :
      (i : ℕ) (cs : List Reached)
      → object s.heap i ≡ none
      → children struct_fields array_field s (Reached.gc i) ≡ ok cs
      → ⊥
  unfolding children
  gc_missing i cs e h = err_ok (rw e at h)

  -- The nodes that a node names are those that it refers to.
  children-Edge :
      (p : Reached) (cs : List Reached) (q : Reached)
      → children struct_fields array_field s p ≡ ok cs
      → Among q cs ↔ Edge p q
  unfolding children trace_extern trace_exn
  children-Edge (Reached.gc i) cs q h = elim (Option-cases (object s.heap i)) [
    | inl e ↦ absurd (gc_missing i cs e h)
    | inr (o, e) ↦
        let holds =
          trace_object-Holds struct_fields array_field o cs (sym (gc_child i o e) ∙ h) q in
        (
          λ a. (o, (e, holds.0 a)),
          λ (o', (e', k)).
              holds.1 (subst (λ x. Holds struct_fields array_field x q) (same_object i e' e) k),
        )
  ]
  children-Edge (Reached.extern i) cs q h = elim (Option-cases (entry s.externrefs i)) [
    | inl e ↦ absurd (err_ok (rw e at h))
    | inr (ExternEntry.internal_any r, e) ↦
        let seeded : seed_handle [] r RefKind.any ≡ cs = same_ok (rw e at h) in
        let names = seed_handle-Refers r RefKind.any q in
        (
          λ a. (r, (e, names.0 (subst (Among q) (sym seeded) a))),
          λ (r', (e', k)). subst (Among q) seeded (
              names.1
                (subst (λ x. Refers x RefKind.any q) (same_handle (same_entry (sym e' ∙ e))) k)),
        )
    | inr (ExternEntry.host, e) ↦
        let nothing : [] ≡ cs = same_ok (rw e at h) in
        (
          λ a. absurd (subst (Among q) (sym nothing) a),
          λ (r', (e', k)). absurd (host_entry (same_entry (sym e ∙ e'))),
        )
  ]
  children-Edge (Reached.exn i) cs q h = elim (Option-cases (entry s.exns i)) [
    | inl e ↦ absurd (err_ok (rw e at h))
    | inr (x, e) ↦
        let seeded : seed_each seed_val [] x.args ≡ cs = same_ok (rw e at h) in
        let adds = seed_each-Adds ValRefers seed_val seed_val-Adds [] x.args q in
        (
          λ a. (
            x,
            (e, elim (adds.0 (subst (Among q) (sym seeded) a)) [ inl k ↦ k | inr n ↦ absurd n ]),
          ),
          λ (y, (e', k)). subst (Among q) seeded (
              adds.1
                (inl (subst (λ z. Somewhere (λ v. ValRefers v q) z.args) (same_exn i e' e) k))),
        )
  ]

  abbrev pub Traceable : List (ℕ × RefKind) → Reached → Type 0
  Traceable stack_roots = Reachable (children struct_fields array_field s) (roots_of stack_roots s)

  pub Reachable-Live :
      (stack_roots : List (ℕ × RefKind)) (q : Reached)
      → Traceable stack_roots q
      → Live stack_roots q
  Reachable-Live stack_roots q (Reachable.root a) =
      Live.root ((roots_of-IsRoot stack_roots s q).0 a)
  Reachable-Live stack_roots q (Reachable.child {r} cs before has a) =
      Live.step (Reachable-Live stack_roots r before) ((children-Edge r cs q has).0 a)

  -- Where no reachable node is corrupt, the live nodes are the reachable ones.
  pub Live-Reachable :
      (stack_roots : List (ℕ × RefKind))
      → ((q : Reached)
          → Traceable stack_roots q
          → (cs : List Reached) × (children struct_fields array_field s q ≡ ok cs))
      → (q : Reached) → Live stack_roots q
      → Traceable stack_roots q
  Live-Reachable stack_roots sound q (Live.root r) =
      Reachable.root ((roots_of-IsRoot stack_roots s q).1 r)
  Live-Reachable stack_roots sound q (Live.step {p} before edge) =
      let reached = Live-Reachable stack_roots sound p before in
      let (cs, has) = sound p reached in
      Reachable.child cs reached has ((children-Edge p cs q has).1 edge)

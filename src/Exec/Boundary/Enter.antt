-- ===== src/Exec/Boundary/Enter.antt =====
-- exec/mod.rs: where a successful `enter_call` leaves the execution.
use submilli_wasm.Base.{
  ℕ, suc, ◌≡◌, refl, sym, ap, ◌∙◌, subst, none, inl, inr, List, [], ◌∷◌, ◌++◌, map, length, arith,
  length-append, append_assoc, append-nil, ltb, ◌==◌, ==_iff, Bool-cases,
}
use submilli_wasm.Error.{Result, ok, err, Error, Result-cases}
use submilli_wasm.State.{then_run}
use submilli_wasm.Word.{u32_max}
use submilli_wasm.Exec.Value.{Val, IrVal}
use submilli_wasm.Exec.Cell.{Cell, RefTag, encode, of_val}
use submilli_wasm.Exec.Execution.{Delimiter, CompiledFunc, Frame, Execution}
use submilli_wasm.Exec.Stack.{push_default, default_cell}
use submilli_wasm.Exec.Frame.{
  push_call, push_delimiter, push_frame, push_locals, call_bases, call_frame, boundary_frame,
}
use submilli_wasm.Exec.Boundary.{
  enter_depth, push_args, enter_frame, enter_call, discard_current_call,
}
use submilli_wasm.Exec.Boundary.Restore.{Entered, discard_current_call_lem}

-- `s'` has equally many values and tags more than `s`, and nothing else.
record Pushed (s s' : Execution) : Type 0 where
  vs : List Cell
  ts : List RefTag
  counts : length vs ≡ length ts
  values_eq : s'.values ≡ s.values ++ vs
  shadow_eq : s'.shadow ≡ s.shadow ++ ts
  frames_eq : s'.frames ≡ s.frames
  depth_eq : s'.host_reentry_depth ≡ s.host_reentry_depth

push_locals-Pushed : (tys : List IrVal) (s : Execution) → Pushed s (push_locals tys s)
unfolding push_locals push_default
push_locals-Pushed [] s = record {
  vs = [];
  ts = [];
  counts = refl;
  values_eq = sym (append-nil _);
  shadow_eq = sym (append-nil _);
  frames_eq = refl;
  depth_eq = refl;
}
push_locals-Pushed (ty ∷ tys) s =
    let r = push_locals-Pushed tys (push_default ty s) in
    record {
      vs = (default_cell ty).0 ∷ r.vs;
      ts = (default_cell ty).1 ∷ r.ts;
      counts = ap suc r.counts;
      values_eq = r.values_eq ∙ append_assoc s.values _ r.vs;
      shadow_eq = r.shadow_eq ∙ append_assoc s.shadow _ r.ts;
      frames_eq = r.frames_eq;
      depth_eq = r.depth_eq;
    }

ok_not_err :
    {e : Error} {s s' : Execution} → Path (Result (Unit {0}) × Execution) (err e, s) (ok tt, s') → ⊥
ok_not_err h = ground arith

length-map_both : (args : List Val) → length (map encode args) ≡ length (map of_val args)
length-map_both [] = refl
length-map_both (v ∷ args) = ap suc (length-map_both args)

Pushed-lockstep :
    (s s' : Execution)
    → Pushed s s'
    → length s.values ≡ length s.shadow
    → length s'.values ≡ length s'.shadow
Pushed-lockstep s s' r same =
    rw (r.values_eq, r.shadow_eq)
      (omega (arith, same, r.counts, length-append s.values r.vs, length-append s.shadow r.ts))

entered_lem :
    (kind : Delimiter) (i n : ℕ) (func : CompiledFunc) (args : List Val) (s : Execution) (depth : ℕ)
    (f : Frame)
    → length s.values ≡ length s.shadow
    → enter_depth kind s.host_reentry_depth ≡ ok depth
    → Entered kind (f ∷ []) s (
        push_frame f (
          push_locals func.local_types (
            push_args args (
              push_frame
                (boundary_frame kind i func (length s.values))
                (record s { host_reentry_depth = depth })))))
entered_lem kind i n func args s depth f same h =
    let d = boundary_frame kind i func (length s.values) in
    let r =
      push_locals-Pushed func.local_types
        (push_args args (push_frame d (record s { host_reentry_depth = depth }))) in
    let args_lockstep : length (s.values ++ map encode args)
        ≡ length (s.shadow ++ map of_val args) =
      omega (
        arith,
        same,
        length-map_both args,
        length-append s.values (map encode args),
        length-append s.shadow (map of_val args),
      ) in
    record {
      boundary = d;
      outer_lockstep = same;
      lockstep = Pushed-lockstep _ _ r args_lockstep;
      values_above = (map encode args ++ r.vs, r.values_eq ∙ append_assoc s.values _ r.vs);
      tags_above = (map of_val args ++ r.ts, r.shadow_eq ∙ append_assoc s.shadow _ r.ts);
      framed = ap (λ fs. fs ++ f ∷ []) r.frames_eq ∙ append_assoc s.frames (d ∷ []) (f ∷ []);
      marked = refl;
      placed = refl;
      counted = h ∙ ap ok (sym r.depth_eq);
    }

called :
    (i n : ℕ) (func : CompiledFunc) (old t s' : Execution)
    → enter_frame i n func old (push_call i n func t) ≡ (ok tt, s')
    → (f : Frame) × ((f.delimiter ≡ none) × (s' ≡ push_frame f (push_locals func.local_types t)))
unfolding push_call then_run
called i n func old t s' h = elim (Result-cases (call_bases func t)) [
  | inl (b, k) ↦
      (call_frame i n func b, (refl, sym (ap (λ r. r.1) (simp (push_call, k, then_run) at h))))
  | inr (e, k) ↦ absurd (ok_not_err (simp (push_call, k, then_run) at h))
]

pub enter_call-Entered :
    (kind : Delimiter) (i n : ℕ) (func : CompiledFunc) (args : List Val) (s s' : Execution)
    → enter_call kind i n func args s ≡ (ok tt, s')
    → (f : Frame) × ((f.delimiter ≡ none) × Entered kind (f ∷ []) s s')
unfolding enter_call push_delimiter
enter_call-Entered kind i n func args s s' h =
    elim (Result-cases (enter_depth kind s.host_reentry_depth)) [
      | inr (f, k) ↦ absurd (ok_not_err (simp (enter_call, k) at h))
      | inl (depth, k) ↦ elim (Bool-cases (length s.values == length s.shadow)) [
        | inr b ↦ absurd (ok_not_err (simp (enter_call, k, push_delimiter, b) at h))
        | inl b ↦ elim (Bool-cases (ltb u32_max (length s.values))) [
          | inl c ↦ absurd (ok_not_err (simp (enter_call, k, push_delimiter, b, c) at h))
          | inr c ↦
              let (f, (plain, e)) =
                called i n func s _ s' (simp (enter_call, k, push_delimiter, b, c) at h) in
              (
                f,
                (
                  plain,
                  subst (Entered kind (f ∷ []) s) (sym e)
                      (entered_lem kind i n func args s depth f ((==_iff _ _).0 b) k),
                ),
              )
        ]
      ]
    ]

-- Right after `enter_call` succeeds, `discard_current_call` finds the call's boundary, reports
-- where it stands, and gives back the execution exactly as it was before.
pub enter_call_discarded :
    (kind : Delimiter) (i n : ℕ) (func : CompiledFunc) (args : List Val) (s s' : Execution)
    → enter_call kind i n func args s ≡ (ok tt, s')
    → discard_current_call s' ≡ (ok (length s.values, length s.frames), s)
enter_call_discarded kind i n func args s s' h =
    let (f, (plain, r)) = enter_call-Entered kind i n func args s s' h in
    discard_current_call_lem kind (f ∷ []) s s' r (rw plain refl)

-- ===== src/Exec/Stack/Sound.antt =====
-- exec/stack.rs: what every operation is to keep, and the rules by which a sequence keeps it.
use submilli_wasm.Base.{
  ℕ, ◌+◌, ◌≤◌, ◌<◌, ◌≡◌, ◌≢◌, inl, inr, ◌∙◌, some, List, [], ◌∷◌, length, get_elem?, take, arith,
  length-append, length-take, length-set, get_elem?-some, take-take_le, take-set_le, take-append_le,
}
use submilli_wasm.Error.{Result, ok, err, Error, panicked, Result-cases}
use submilli_wasm.State.{M, then_run}
use submilli_wasm.Exec.Cell.{Cell, RefTag}
use submilli_wasm.Exec.Execution.{Frame, Execution, last?, truncate, append}
use submilli_wasm.Exec.Stack.{
  operand_floor, ensure_operands, ensure_scalar_operands, value_at, tag_at, put_value,
}

-- Where the current frame stands: its locals begin at `base`, its operands at `floor`. `below` and
-- `tags` are what lies under it, which belongs to its callers.
pub record Place : Type 0 where
  pub base : ℕ
  pub floor : ℕ
  pub frames : List Frame
  pub depth : ℕ
  pub below : List Cell
  pub tags : List RefTag
  pub frame : Frame
  pub top : last? frames ≡ some frame
  pub at_floor : frame.operand_base ≡ floor
  pub ordered : base ≤ floor

module _ (p : Place) where
  -- The two stacks are equally long and reach the floor; frames and all below the frame are as given.
  pub record Ready (s : Execution) : Type 0 where
    pub same_frames : s.frames ≡ p.frames
    pub same_depth : s.host_reentry_depth ≡ p.depth
    pub lockstep : length s.values ≡ length s.shadow
    pub above : p.floor ≤ length s.values
    pub cells : take p.base s.values ≡ p.below
    pub marks : take p.base s.shadow ≡ p.tags

  abbrev pub Good {ℓ} : {A : Type ℓ} → Result A × Execution → Type ℓ
  Good r = (r.0 ≢ err panicked) × Ready r.1

  -- `m` neither panics nor leaves the frame's place.
  abbrev pub Sound {ℓ} : {A : Type ℓ} → M Execution A → Type ℓ
  Sound m = (s : Execution) → Ready s → Good (m s)

  pub data Ensured (needed : ℕ) (s : Execution) : Result ℕ → Type 0 where
    enough : (b : ℕ) → b + needed ≡ length s.values → p.floor ≤ b → Ensured needed s (ok b)
    short : (e : Error) → e ≢ panicked → Ensured needed s (err e)

  operand_floor-ok : (s : Execution) → Ready s → operand_floor s ≡ ok p.floor
  unfolding operand_floor
  operand_floor-ok s r = rw (r.same_frames, operand_floor, p.top, p.at_floor)

  ensure_ok :
      (needed : ℕ) (s : Execution) (b : ℕ)
      → Ready s
      → ensure_operands needed s ≡ ok b
      → (b + needed ≡ length s.values) × (p.floor ≤ b)
  unfolding ensure_operands
  ensure_ok needed s b r e = ground (arith, operand_floor-ok s r)

  ensure_err :
      (needed : ℕ) (s : Execution) (e : Error)
      → Ready s
      → ensure_operands needed s ≡ err e
      → e ≢ panicked
  unfolding ensure_operands
  ensure_err needed s e r h = ground (arith, operand_floor-ok s r)

  pub ensure_operands-Ensured :
      (needed : ℕ) (s : Execution) → Ready s → Ensured needed s (ensure_operands needed s)
  ensure_operands-Ensured needed s r = elim (Result-cases (ensure_operands needed s)) [
    | inl (b, e) ↦ rw e (enough b (ensure_ok needed s b r e).0 (ensure_ok needed s b r e).1)
    | inr (x, e) ↦ rw e (short x (ensure_err needed s x r e))
  ]

  scalar_ok :
      (needed : ℕ) (s : Execution) (b : ℕ)
      → Ready s
      → ensure_scalar_operands needed s ≡ ok b
      → (b + needed ≡ length s.values) × (p.floor ≤ b)
  unfolding ensure_scalar_operands
  scalar_ok needed s b r e = ground (arith, ensure_ok needed s b r)

  scalar_err :
      (needed : ℕ) (s : Execution) (e : Error)
      → Ready s
      → ensure_scalar_operands needed s ≡ err e
      → e ≢ panicked
  unfolding ensure_scalar_operands
  scalar_err needed s e r h = elim (Result-cases (ensure_operands needed s)) [
    | inl (b, k) ↦ ground (arith, ensure_ok needed s b r k)
    | inr (x, k) ↦ ground (arith, ensure_err needed s x r k)
  ]

  pub ensure_scalar_operands-Ensured :
      (needed : ℕ) (s : Execution) → Ready s → Ensured needed s (ensure_scalar_operands needed s)
  ensure_scalar_operands-Ensured needed s r =
      elim (Result-cases (ensure_scalar_operands needed s)) [
        | inl (b, e) ↦ rw e (enough b (scalar_ok needed s b r e).0 (scalar_ok needed s b r e).1)
        | inr (x, e) ↦ rw e (short x (scalar_err needed s x r e))
      ]

  -- The rules: what a step gives to the rest of the code.
  pub Ensured-then {ℓ} :
      {B : Type ℓ} (f : ℕ → Execution → Result B × Execution) {needed : ℕ} {s : Execution}
      {r : Result ℕ}
      → Ready s
      → Ensured needed s r
      → ((b : ℕ) → b + needed ≡ length s.values → p.floor ≤ b → Good (f b s))
      → Good (then_run f (r, s))
  unfolding then_run
  Ensured-then f ready (enough b e le) k = k b e le
  Ensured-then f ready (short e h) k = (λ q. h (cc), ready)

  pub value_at-then {ℓ} :
      {B : Type ℓ} (f : Cell → Execution → Result B × Execution) (i : ℕ) (s : Execution)
      → i < length s.values
      → ((c : Cell) → get_elem? s.values i ≡ some c → Good (f c s))
      → Good (then_run f (value_at i s, s))
  unfolding then_run value_at
  value_at-then f i s lt k = let (c, e) = get_elem?-some s.values i lt in rw (e, then_run) (k c e)

  pub tag_at-then {ℓ} :
      {B : Type ℓ} (f : RefTag → Execution → Result B × Execution) (i : ℕ) (s : Execution)
      → Ready s
      → i < length s.values
      → ((t : RefTag) → get_elem? s.shadow i ≡ some t → Good (f t s))
      → Good (then_run f (tag_at i s, s))
  unfolding then_run tag_at
  tag_at-then f i s r lt k =
      let (t, e) = get_elem?-some s.shadow i (omega (arith, r.lockstep)) in rw (e, then_run) (k t e)

  pub Good-then {ℓ κ} :
      {A : Type ℓ} {B : Type κ} (f : A → Execution → Result B × Execution)
      (q : Result A × Execution)
      → Good q
      → ((a : A) → Sound (f a))
      → Good (then_run f q)
  unfolding then_run
  Good-then f (ok a, s') g k = k a s' g.1
  Good-then f (err e, s') g k = (λ q. g.0 (cc), g.1)

  pub Sound-then {ℓ κ} :
      {A : Type ℓ} {B : Type κ} (m : M Execution A) (f : A → Execution → Result B × Execution)
      (s : Execution)
      → Sound m
      → Ready s
      → ((a : A) → Sound (f a))
      → Good (then_run f (m s))
  Sound-then m f s sound r k = Good-then f (m s) (sound s r) k

  -- The changes of the state.
  pub truncate-Ready :
      (b : ℕ) (s : Execution) → Ready s → p.floor ≤ b → b ≤ length s.values → Ready (truncate b s)
  truncate-Ready b s r low high = record {
    same_frames = r.same_frames;
    same_depth = r.same_depth;
    lockstep = omega (arith, r.lockstep, length-take b s.values, length-take b s.shadow);
    above = omega (arith, length-take b s.values);
    cells = take-take_le p.base b s.values (omega (arith, p.ordered)) ∙ r.cells;
    marks = take-take_le p.base b s.shadow (omega (arith, p.ordered)) ∙ r.marks;
  }

  pub append-Ready : (c : Cell) (t : RefTag) (s : Execution) → Ready s → Ready (append c t s)
  append-Ready c t s r = record {
    same_frames = r.same_frames;
    same_depth = r.same_depth;
    lockstep =
        omega (arith, r.lockstep, length-append s.values (c ∷ []), length-append s.shadow (t ∷ []));
    above = omega (arith, r.above, length-append s.values (c ∷ []));
    cells = take-append_le p.base s.values _ (omega (arith, r.above, p.ordered)) ∙ r.cells;
    marks =
        take-append_le p.base s.shadow _ (omega (arith, r.above, r.lockstep, p.ordered)) ∙ r.marks;
  }

  pub put_value-Ready :
      (i : ℕ) (c : Cell) (s : Execution) → Ready s → p.base ≤ i → Ready (put_value i c s)
  unfolding put_value
  put_value-Ready i c s r le = record {
    same_frames = r.same_frames;
    same_depth = r.same_depth;
    lockstep = length-set s.values i c ∙ r.lockstep;
    above = omega (arith, r.above, length-set s.values i c);
    cells = take-set_le p.base i s.values c le ∙ r.cells;
    marks = r.marks;
  }

-- ===== src/Exec/Exn/Correct.antt =====
-- exec/exn.rs: the unwinder ends at the innermost handler, or at the call's boundary.
use submilli_wasm.Base.{
  ℕ, suc, ◌+◌, ◌-◌, ◌≤◌, ◌<◌, ◌≡◌, sym, ap, ◌∙◌, some, List, ◌++◌, map, length, [], ◌∷◌, get_elem?,
  take, arith, subst, take-take_le, length-take, ℕ_discrete, lt_of_get,
}
use submilli_wasm.Exec.Value.{Val}
use submilli_wasm.Exec.Exn.Clauses.{Catches, Passes, AllSpans}
use submilli_wasm.Exec.Exn.Landing.{handed, same_frame}
use submilli_wasm.Error.{Result, ok, err, pending_exception}
use submilli_wasm.Word.{u32_max}
use submilli_wasm.Exec.Cell.{encode, of_val}
use submilli_wasm.Exec.Execution.{HandlerRec, Frame, Execution, truncate}
use submilli_wasm.Exec.Frame.{pop_frame}
use submilli_wasm.Store.Collect.{ExnEntity}
use submilli_wasm.Exec.Exn.Sites.{site, ceiling, site_last, length-rest, get-rest}

module _ (tags_of : List (List ℕ)) (entity : ExnEntity) where
  -- The clause that catches the exception in a frame, at an instruction; and a frame without one.
  abbrev pub CatchesIn : ℕ → Frame → HandlerRec → Type 0
  CatchesIn ip f = Catches tags_of f.instance_of entity.tag ip f.func.handlers

  abbrev pub PassesIn : ℕ → Frame → Type 0
  PassesIn ip f = Passes tags_of f.instance_of entity.tag ip f.func.handlers

  -- A frame whose handlers name tags of its instance, whose locals begin at or below `top`, and whose
  -- catching clause restores no more than that.
  pub record IsReady (ip top : ℕ) (f : Frame) : Type 0 where
    pub linked : AllSpans tags_of f.instance_of entity.tag f.func.handlers
    pub based : f.locals_base ≤ top
    pub restored :
        (r : HandlerRec)
        → CatchesIn ip f r
        → (f.operand_base + r.restore_height ≤ top) × (f.operand_base + r.restore_height ≤ u32_max)

  -- What compiling and calling ensure of the frames from `stop_depth` on.
  pub record IsUnwindable (stop_depth ip : ℕ) (s : Execution) : Type 0 where
    pub lockstep : length s.values ≡ length s.shadow
    pub ready :
        (j : ℕ) (f : Frame)
        → stop_depth ≤ j
        → get_elem? s.frames j ≡ some f
        → IsReady (site ip s.frames j) (ceiling (length s.values) s.frames j) f
    pub called :
        (j : ℕ) (f : Frame)
        → stop_depth ≤ j
        → get_elem? s.frames j ≡ some f
        → suc j < length s.frames
        → 1 ≤ f.ip

  module _ (exn stop_depth : ℕ) where
    -- A caught exception: frame `level` is the innermost with a clause for it; the frames above are
    -- gone, the operands are cut to the clause's height with the payload on top, and the frame goes
    -- on at the landing pad.
    pub record Caught (ip : ℕ) (s s' : Execution) : Type 0 where
      pub level : ℕ
      pub frame : Frame
      pub clause : HandlerRec
      pub above : stop_depth ≤ level
      pub frame_at : get_elem? s.frames level ≡ some frame
      pub catches : CatchesIn (site ip s.frames level) frame clause
      pub innermost :
          (j : ℕ) (f : Frame)
          → level < j
          → get_elem? s.frames j ≡ some f
          → PassesIn (site ip s.frames j) f
      pub fits : frame.operand_base + clause.restore_height ≤ length s.values
      pub values :
          s'.values
          ≡ take (frame.operand_base + clause.restore_height) s.values
            ++ map encode (handed clause.payload_args clause.payload_ref entity.args exn)
      pub shadow :
          s'.shadow
          ≡ take (frame.operand_base + clause.restore_height) s.shadow
            ++ map of_val (handed clause.payload_args clause.payload_ref entity.args exn)
      pub frames : s'.frames ≡ take level s.frames ++ record frame { ip = clause.landing_ip } ∷ []
      pub same_depth : s'.host_reentry_depth ≡ s.host_reentry_depth

    -- An exception that no frame above the boundary catches: these frames are gone.
    pub record Uncaught (ip : ℕ) (s s' : Execution) : Type 0 where
      pub none_catches :
          (j : ℕ) (f : Frame)
          → stop_depth ≤ j
          → get_elem? s.frames j ≡ some f
          → PassesIn (site ip s.frames j) f
      pub frames : s'.frames ≡ take stop_depth s.frames
      pub same_depth : s'.host_reentry_depth ≡ s.host_reentry_depth

    pub data Unwound (ip : ℕ) (s : Execution) : Result (Unit {0}) × Execution → Type 0 where
      caught : (s' : Execution) → Caught ip s s' → Unwound ip s (ok tt, s')
      uncaught :
          (s' : Execution) → Uncaught ip s s' → Unwound ip s (err (pending_exception exn), s')

    -- One frame out.
    module _ (ip ip' : ℕ) (s : Execution) (some_frame : length s.frames ≡ suc (length s.frames - 1))
        (base : ℕ) (le : base ≤ length s.values) (f0 : Frame)
        (at_top : get_elem? s.frames (length s.frames - 1) ≡ some f0) (passed : PassesIn ip f0)
        (sites : (j : ℕ) (f : Frame)
          → j < length s.frames - 1
          → get_elem? s.frames j ≡ some f
          → site ip' (take (length s.frames - 1) s.frames) j ≡ site ip s.frames j) where
      abbrev pub n : ℕ
      n = length s.frames - 1

      abbrev pub s1 : Execution
      s1 = pop_frame (truncate base s)

      -- A frame at or above the last passed one.
      pass :
          (j : ℕ) (f : Frame)
          → get_elem? s.frames j ≡ some f
          → (j < n → PassesIn (site ip' s1.frames j) f)
          → PassesIn (site ip s.frames j) f
      pass j f e inner = elim (ℕ_discrete j n) [
        | yes q ↦
            let same : f ≡ f0 = same_frame (sym e ∙ (ap (get_elem? s.frames) q ∙ at_top)) in
            subst (λ k. PassesIn k f) (sym (site_last ip s.frames j (omega arith)))
              (subst (λ g. PassesIn ip g) (sym same) passed)
        | no ne ↦
            let lt : j < n = omega (arith, lt_of_get s.frames j e) in
            subst (λ k. PassesIn k f) (sites j f lt e) (inner lt)
      ]

      pub outer-Caught : (s' : Execution) → Caught ip' s1 s' → Caught ip s s'
      outer-Caught s' c =
          let lt : c.level < n =
            omega
              (arith, lt_of_get s1.frames c.level c.frame_at, length-rest s.frames n some_frame) in
          let here : get_elem? s.frames c.level ≡ some c.frame =
            sym (get-rest s.frames n some_frame c.level lt) ∙ c.frame_at in
          let low : c.frame.operand_base + c.clause.restore_height ≤ base =
            omega (arith, c.fits, length-take base s.values) in
          let given : List Val =
            handed c.clause.payload_args c.clause.payload_ref entity.args exn in
          record {
            level = c.level;
            frame = c.frame;
            clause = c.clause;
            above = c.above;
            frame_at = here;
            catches =
                subst (λ k. CatchesIn k c.frame c.clause) (sites c.level c.frame lt here) c.catches;
            innermost = λ j f above e.
                pass j f e
                  (λ inside. c.innermost j f above (get-rest s.frames n some_frame j inside ∙ e));
            fits = omega arith;
            values =
                c.values
                ∙ ap (λ v. v ++ map encode given)
                    (take-take_le (c.frame.operand_base + c.clause.restore_height) base s.values
                      low);
            shadow =
                c.shadow
                ∙ ap (λ v. v ++ map of_val given)
                    (take-take_le (c.frame.operand_base + c.clause.restore_height) base s.shadow
                      low);
            frames =
                c.frames
                ∙ ap (λ l. l ++ record c.frame { ip = c.clause.landing_ip } ∷ [])
                    (take-take_le c.level n s.frames (omega arith));
            same_depth = c.same_depth;
          }

      pub outer-Uncaught : stop_depth ≤ n → (s' : Execution) → Uncaught ip' s1 s' → Uncaught ip s s'
      outer-Uncaught le' s' u = record {
        none_catches = λ j f above e.
            pass j f e
              (λ inside. u.none_catches j f above (get-rest s.frames n some_frame j inside ∙ e));
        frames = u.frames ∙ take-take_le stop_depth n s.frames le';
        same_depth = u.same_depth;
      }

-- ===== src/Exec/Exn/Rounds.antt =====
-- exec/exn.rs: the unwinder on the frames that compiling and calling leave.
use submilli_wasm.Base.{
  ◌++◌, map, ℕ, suc, ◌+◌, ◌-◌, ◌≤◌, ◌<◌, ◌≡◌, refl, sym, ap, ◌∙◌, none, some, true, false, List,
  length, get_elem?, take, leb, ◌==◌, arith, subst, leb→gt, leb→le, ==_iff, lt_of_get, take_all,
}
use submilli_wasm.Exec.Exn.Landing.{payload-handed, land-last, same_frame}
use submilli_wasm.Exec.Exn.Correct.{CatchesIn, PassesIn}
use submilli_wasm.Exec.Cell.{encode, of_val}
use submilli_wasm.Error.{Result, ok}
use submilli_wasm.Word.{u32_max}
use submilli_wasm.Exec.Execution.{HandlerRec, Frame, Execution, last?, truncate}
use submilli_wasm.Exec.Frame.{pop_frame}
use submilli_wasm.Store.Collect.{ExnEntity}
use submilli_wasm.Exec.Exn.{land, clause_in, unwind_from}
use submilli_wasm.Exec.Exn.Sites.{
  last-get, last-some, site, site_last, ceiling_last, length-rest, get-rest, site-rest,
}
use submilli_wasm.Exec.Exn.Correct.{IsReady, IsUnwindable, Unwound, outer-Caught, outer-Uncaught}
use submilli_wasm.Exec.Exn.Unwinds.{
  entered, popped, caller, popped-IsUnwindable, stop_round, catch_round, last_round, next_round,
}

module _ (tags_of : List (List ℕ)) (entity : ExnEntity) (exn stop_depth : ℕ) where
  -- The unwinder ends, in the way that the frames determine.
  abbrev pub Ends : ℕ → ℕ → Execution → Type 0
  Ends fuel ip s =
      (o : Result (Unit {0}) × Execution) × ((unwind_from tags_of entity exn stop_depth fuel ip s
          ≡ some o)
        × Unwound tags_of entity exn stop_depth ip s o)

  pub stops :
      (fuel ip : ℕ) (s : Execution) → leb (length s.frames) stop_depth ≡ true → Ends (suc fuel) ip s
  stops fuel ip s e =
      let le : length s.frames ≤ stop_depth = leb→le (length s.frames) stop_depth e in
      (
        _,
        (
          stop_round tags_of entity exn stop_depth fuel ip s e,
          Unwound.uncaught s (record {
            none_catches = λ j f above g. absurd (omega (arith, lt_of_get s.frames j g));
            frames = sym (take_all stop_depth s.frames le);
            same_depth = refl;
          }),
        ),
      )

  -- The last frame, of a boundary below it.
  module _ (fuel ip : ℕ) (s : Execution) (more : leb (length s.frames) stop_depth ≡ false)
      (len : length s.frames ≡ suc (length s.frames - 1)) (f0 : Frame)
      (l : last? s.frames ≡ some f0) (u : IsUnwindable tags_of entity stop_depth ip s) where
    abbrev n : ℕ
    n = length s.frames - 1

    top : get_elem? s.frames n ≡ some f0
    top = last-get s.frames f0 l

    above : stop_depth ≤ n
    above = omega (arith, leb→gt (length s.frames) stop_depth more)

    pub ready : IsReady tags_of entity ip (length s.values) f0
    ready =
        subst (λ k. IsReady tags_of entity k (length s.values) f0)
          (site_last ip s.frames n (sym len))
          (subst (λ h. IsReady tags_of entity (site ip s.frames n) h f0)
            (ceiling_last (length s.values) s.frames n (sym len)) (u.ready n f0 above top))

    pub catches :
        (r : HandlerRec)
        → clause_in tags_of entity f0 ip ≡ ok (some r)
        → CatchesIn tags_of entity ip f0 r
        → (f0.operand_base + r.restore_height ≤ length s.values)
          × (f0.operand_base + r.restore_height ≤ u32_max)
        → Ends (suc fuel) ip s
    catches r c spec (fits, small) = (
      _,
      (
        catch_round tags_of entity exn stop_depth fuel ip s f0 r more l c
            ∙ ap some (entered entity exn r f0.operand_base s u.lockstep fits small),
        Unwound.caught _ (record {
          level = n;
          frame = f0;
          clause = r;
          above = above;
          frame_at = top;
          catches =
              subst (λ k. CatchesIn tags_of entity k f0 r) (sym (site_last ip s.frames n (sym len)))
                spec;
          innermost = λ j f past g. absurd (omega (arith, lt_of_get s.frames j g));
          fits = fits;
          values =
              ap (λ vs. take (f0.operand_base + r.restore_height) s.values ++ map encode vs)
                (payload-handed entity exn r);
          shadow =
              ap (λ vs. take (f0.operand_base + r.restore_height) s.shadow ++ map of_val vs)
                (payload-handed entity exn r);
          frames =
              ap (land r.landing_ip) (sym (take_all (suc n) s.frames (omega arith)))
              ∙ land-last r.landing_ip s.frames n f0 top;
          same_depth = refl;
        }),
      ),
    )

    -- No clause catches in the last frame.
    module _ (c : clause_in tags_of entity f0 ip ≡ ok none) (passed : PassesIn tags_of entity ip f0)
        (based : f0.locals_base ≤ length s.values) where
      abbrev s1 : Execution
      s1 = pop_frame (truncate f0.locals_base s)

      left : length s1.frames ≡ n
      left = length-rest s.frames n len

      pub drops : (length s1.frames == stop_depth) ≡ true → Ends (suc fuel) ip s
      drops d =
          let boundary : n ≡ stop_depth = sym left ∙ (==_iff (length s1.frames) stop_depth).0 d in
          (
            _,
            (
              last_round tags_of entity exn stop_depth fuel ip s s1 f0 more l c
                  (popped f0.locals_base s u.lockstep based) d,
              Unwound.uncaught s1 (record {
                none_catches = λ j f past g.
                    let here : j ≡ n = omega (arith, lt_of_get s.frames j g) in
                    let same : f ≡ f0 = same_frame (sym g ∙ (ap (get_elem? s.frames) here ∙ top)) in
                    subst (λ k. PassesIn tags_of entity k f)
                      (sym (site_last ip s.frames j (omega arith)))
                      (subst (PassesIn tags_of entity ip) (sym same) passed);
                frames = ap (λ k. take k s.frames) boundary;
                same_depth = refl;
              }),
            ),
          )

      outer :
          {ip' : ℕ} {o : Result (Unit {0}) × Execution}
          → ((j : ℕ) (f : Frame)
              → j < n
              → get_elem? s.frames j ≡ some f
              → site ip' (take n s.frames) j ≡ site ip s.frames j)
          → Unwound tags_of entity exn stop_depth ip' s1 o
          → Unwound tags_of entity exn stop_depth ip s o
      outer {ip'} sites (Unwound.caught s' w) = Unwound.caught s' (
          outer-Caught tags_of entity exn stop_depth ip ip' s len f0.locals_base based f0 top passed
            sites s' w)
      outer {ip'} sites (Unwound.uncaught s' w) = Unwound.uncaught s' (
          outer-Uncaught tags_of entity exn stop_depth ip ip' s len f0.locals_base based f0 top
            passed sites above s' w)

      pub goes_on :
          (length s1.frames == stop_depth) ≡ false
          → ((ip' : ℕ) → IsUnwindable tags_of entity stop_depth ip' s1 → Ends fuel ip' s1)
          → Ends (suc fuel) ip s
      goes_on d next =
          let apart : n ≡ stop_depth → ⊥ =
            λ q. cc (d, (==_iff (length s1.frames) stop_depth).1 (left ∙ q)) in
          let (f1, l1) = last-some s1.frames (omega (arith, left, above, apart)) in
          let ip' : ℕ = f1.ip - 1 in
          let under : (j : ℕ) (f : Frame) → suc j ≡ n → get_elem? s.frames j ≡ some f → f ≡ f1 =
            λ j f q g.
              let at : get_elem? s1.frames j ≡ some f1 =
                subst (λ k. get_elem? s1.frames k ≡ some f1) (omega (arith, left))
                  (last-get s1.frames f1 l1) in
              same_frame (sym g ∙ (sym (get-rest s.frames n len j (omega arith)) ∙ at)) in
          let sites : (j : ℕ) (f : Frame)
              → j < n
              → get_elem? s.frames j ≡ some f
              → site ip' (take n s.frames) j ≡ site ip s.frames j =
            λ j f lt g.
              site-rest s.frames n len ip ip' j f lt g
                (λ q. ap (λ h. h.ip - 1) (sym (under j f q g))) in
          let called : 1 ≤ f1.ip =
            u.called (n - 1) f1 (omega (arith, above, apart))
              (sym (get-rest s.frames n len (n - 1) (omega (arith, left, above, apart)))
                ∙ subst (λ k. get_elem? s1.frames (k - 1) ≡ some f1) left
                    (last-get s1.frames f1 l1))
              (omega (arith, above, apart)) in
          let (o, (run, ended)) =
            next ip'
              (popped-IsUnwindable tags_of entity stop_depth ip ip' s f0 len top based sites u) in
          (
            o,
            (
              next_round tags_of entity exn stop_depth fuel ip ip' s s1 f0 more l c
                    (popped f0.locals_base s u.lockstep based) d (caller s1 f1 l1 called)
                  ∙ run,
              outer sites ended,
            ),
          )

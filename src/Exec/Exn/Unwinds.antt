-- ===== src/Exec/Exn/Unwinds.antt =====
-- exec/exn.rs: the rounds of the unwinder.
use submilli_wasm.Base.{
  ℕ, suc, ◌+◌, ◌-◌, ◌≤◌, ◌<◌, ◌≡◌, refl, sym, ap, ◌∙◌, Option, none, some, true, false, List,
  length, get_elem?, take, leb, ◌==◌, arith, subst, le→leb, ge→ltb, length-take, ==_iff, lt_of_get,
}
use submilli_wasm.Error.{Result, ok, err, pending_exception}
use submilli_wasm.Word.{u32_max, checked_sub}
use submilli_wasm.Exec.Execution.{HandlerRec, Frame, Execution, last?, truncate}
use submilli_wasm.Exec.Frame.{pop_frame}
use submilli_wasm.Exec.Boundary.{push_args}
use submilli_wasm.Store.Collect.{ExnEntity}
use submilli_wasm.Exec.Exn.{
  payload, land, enter_exception_handler, pop_unwound_frame, caller_site, clause_in, go_on,
  unwind_from,
}
use submilli_wasm.Exec.Exn.Sites.{site, ceiling, length-rest, get-rest, ceiling-rest}
use submilli_wasm.Exec.Exn.Correct.{IsReady, IsUnwindable}

pub entered :
    (entity : ExnEntity) (exn : ℕ) (r : HandlerRec) (floor : ℕ) (s : Execution)
    → length s.values ≡ length s.shadow
    → floor + r.restore_height ≤ length s.values
    → floor + r.restore_height ≤ u32_max
    → enter_exception_handler entity exn r floor s ≡ (
      ok tt,
      record (push_args (payload entity exn r) (truncate (floor + r.restore_height) s)) {
        frames = land r.landing_ip s.frames;
      },
    )
unfolding enter_exception_handler
entered entity exn r floor s same fits small =
    rw
      (
        enter_exception_handler,
        ge→ltb u32_max (floor + r.restore_height) small,
        (==_iff (length s.values) (length s.shadow)).1 same,
        ge→ltb (length s.values) (floor + r.restore_height) fits,
      )
      refl

pub popped :
    (base : ℕ) (s : Execution)
    → length s.values ≡ length s.shadow
    → base ≤ length s.values
    → pop_unwound_frame base s ≡ (ok tt, pop_frame (truncate base s))
unfolding pop_unwound_frame
popped base s same le =
    rw
      (
        pop_unwound_frame,
        (==_iff (length s.values) (length s.shadow)).1 same,
        ge→ltb (length s.values) base le,
      )
      refl

pub caller :
    (s : Execution) (f : Frame) → last? s.frames ≡ some f → 1 ≤ f.ip → caller_site s ≡ ok (f.ip - 1)
unfolding caller_site checked_sub
caller s f e h = rw (caller_site, e, le→leb 1 f.ip h) refl

module _ (tags_of : List (List ℕ)) (entity : ExnEntity) where
  -- A frame out, the frames are as ready as they were.
  pub popped-IsUnwindable :
      (stop_depth ip ip' : ℕ) (s : Execution) (f0 : Frame)
      → length s.frames ≡ suc (length s.frames - 1)
      → get_elem? s.frames (length s.frames - 1) ≡ some f0
      → f0.locals_base ≤ length s.values
      → ((j : ℕ) (f : Frame)
          → j < length s.frames - 1
          → get_elem? s.frames j ≡ some f
          → site ip' (take (length s.frames - 1) s.frames) j ≡ site ip s.frames j)
      → IsUnwindable tags_of entity stop_depth ip s
      → IsUnwindable tags_of entity stop_depth ip' (pop_frame (truncate f0.locals_base s))
  popped-IsUnwindable stop_depth ip ip' s f0 len top le sites u =
      let n : ℕ = length s.frames - 1 in
      let cut : length (take f0.locals_base s.values) ≡ f0.locals_base =
        omega (arith, length-take f0.locals_base s.values) in
      let old : (j : ℕ) (f : Frame)
          → get_elem? (take n s.frames) j ≡ some f
          → (j < n) × (get_elem? s.frames j ≡ some f) =
        λ j f e.
          let lt : j < n =
            omega (arith, lt_of_get (take n s.frames) j e, length-rest s.frames n len) in
          (lt, sym (get-rest s.frames n len j lt) ∙ e) in
      record {
        lockstep = omega (
          arith,
          u.lockstep,
          length-take f0.locals_base s.values,
          length-take f0.locals_base s.shadow,
        );
        ready = λ j f above e.
            let (lt, e') = old j f e in
            subst
              (λ k.
                IsReady tags_of entity k
                  (ceiling (length (take f0.locals_base s.values)) (take n s.frames) j) f)
              (sym (sites j f lt e'))
              (subst (λ h. IsReady tags_of entity (site ip s.frames j) h f)
                (sym (
                  ap (λ h. ceiling h (take n s.frames) j) cut
                  ∙ ceiling-rest s.frames n len (length s.values) j f0 lt top))
                (u.ready j f above e'));
        called = λ j f above e lt.
            let (lt', e') = old j f e in
            u.called j f above e' (omega (arith, length-rest s.frames n len));
      }

  module _ (exn stop_depth : ℕ) where
    -- A round that finds no frame above the boundary, or a clause in the last frame.
    ended :
        (next : ℕ → Execution → Option (Result (Unit {0}) × Execution)) {ip' : ℕ} {s1 : Execution}
        → (length s1.frames == stop_depth) ≡ false
        → caller_site s1 ≡ ok ip'
        → go_on tags_of entity exn stop_depth next (ok tt, s1) ≡ next ip' s1
    ended next d k = rw (go_on, d, k) refl

    pub stop_round :
        (fuel ip : ℕ) (s : Execution)
        → leb (length s.frames) stop_depth ≡ true
        → unwind_from tags_of entity exn stop_depth (suc fuel) ip s
          ≡ some (err (pending_exception exn), s)
    unfolding unwind_from
    stop_round fuel ip s e = rw (unwind_from, e) refl

    pub catch_round :
        (fuel ip : ℕ) (s : Execution) (f : Frame) (r : HandlerRec)
        → leb (length s.frames) stop_depth ≡ false
        → last? s.frames ≡ some f
        → clause_in tags_of entity f ip ≡ ok (some r)
        → unwind_from tags_of entity exn stop_depth (suc fuel) ip s
          ≡ some (enter_exception_handler entity exn r f.operand_base s)
    unfolding unwind_from
    catch_round fuel ip s f r e l c = rw (unwind_from, e, l, c) refl

    pub last_round :
        (fuel ip : ℕ) (s s1 : Execution) (f : Frame)
        → leb (length s.frames) stop_depth ≡ false
        → last? s.frames ≡ some f
        → clause_in tags_of entity f ip ≡ ok none
        → pop_unwound_frame f.locals_base s ≡ (ok tt, s1)
        → (length s1.frames == stop_depth) ≡ true
        → unwind_from tags_of entity exn stop_depth (suc fuel) ip s
          ≡ some (err (pending_exception exn), s1)
    unfolding unwind_from
    last_round fuel ip s s1 f e l c p d =
        rw (unwind_from, e, l, c)
          (ap (go_on tags_of entity exn stop_depth (unwind_from tags_of entity exn stop_depth fuel))
              p
            ∙ rw d refl)

    pub next_round :
        (fuel ip ip' : ℕ) (s s1 : Execution) (f : Frame)
        → leb (length s.frames) stop_depth ≡ false
        → last? s.frames ≡ some f
        → clause_in tags_of entity f ip ≡ ok none
        → pop_unwound_frame f.locals_base s ≡ (ok tt, s1)
        → (length s1.frames == stop_depth) ≡ false
        → caller_site s1 ≡ ok ip'
        → unwind_from tags_of entity exn stop_depth (suc fuel) ip s
          ≡ unwind_from tags_of entity exn stop_depth fuel ip' s1
    unfolding unwind_from
    next_round fuel ip ip' s s1 f e l c p d k =
        rw (unwind_from, e, l, c)
          (ap (go_on tags_of entity exn stop_depth (unwind_from tags_of entity exn stop_depth fuel))
              p
            ∙ ended (unwind_from tags_of entity exn stop_depth fuel) d k)

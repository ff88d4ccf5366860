-- ===== src/Exec/Exn/Landing.antt =====
-- exec/exn.rs: the operands and the frame with which a handler is entered.
use submilli_wasm.Base.{
  ℕ, zero, suc, ◌≡◌, refl, ap, Option, some, Bool, true, false, List, [], ◌∷◌, ◌++◌, get_elem?,
  take, append-nil, if◌then◌else◌,
}
use submilli_wasm.Exec.Value.{Val}
use submilli_wasm.Exec.Execution.{HandlerRec, Frame}
use submilli_wasm.Store.Collect.{ExnEntity}
use submilli_wasm.Exec.Exn.{payload, land}

pub same_frame : {f g : Frame} → Path (Option Frame) (some f) (some g) → f ≡ g
same_frame e = cc

-- The values that a handler finds, by its two flags.
abbrev pub handed : Bool → Bool → List Val → ℕ → List Val
handed true true args exn = args ++ Val.exn_ref (some exn) ∷ []
handed true false args exn = args
handed false true args exn = Val.exn_ref (some exn) ∷ []
handed false false args exn = []

handed_flags :
    (a b : Bool) (args : List Val) (exn : ℕ)
    → Path
        (List Val)
        ((if a then args else []) ++ (if b then Val.exn_ref (some exn) ∷ [] else []))
        (handed a b args exn)
handed_flags true true args exn = refl
handed_flags true false args exn = append-nil args
handed_flags false true args exn = refl
handed_flags false false args exn = refl

pub payload-handed :
    (entity : ExnEntity) (exn : ℕ) (rec : HandlerRec)
    → payload entity exn rec ≡ handed rec.payload_args rec.payload_ref entity.args exn
unfolding payload
payload-handed entity exn rec = handed_flags rec.payload_args rec.payload_ref entity.args exn

-- The last frame goes on at the landing pad.
pub land-last :
    (ip : ℕ) (frames : List Frame) (level : ℕ) (f : Frame)
    → get_elem? frames level ≡ some f
    → land ip (take (suc level) frames) ≡ take level frames ++ record f { ip = ip } ∷ []
land-last ip [] level f e = cc
land-last ip (g ∷ []) zero f e = ap (λ (h : Frame). record h { ip = ip } ∷ []) (same_frame e)
land-last ip (g ∷ h ∷ fs) zero f e = ap (λ (k : Frame). record k { ip = ip } ∷ []) (same_frame e)
land-last ip (g ∷ []) (suc level) f e = cc
land-last ip (g ∷ h ∷ fs) (suc level) f e = ap (λ l. g ∷ l) (land-last ip (h ∷ fs) level f e)

-- ===== src/Exec/Exn/Sites.antt =====
-- exec/exn.rs: where the frames stand that the unwinder comes by.
use submilli_wasm.Base.{
  ℕ, suc, ◌-◌, ◌<◌, ◌≡◌, inl, inr, refl, sym, ◌∙◌, none, some, true, false, List, [], ◌∷◌, length,
  get_elem?, take, ◌==◌, if◌then◌else◌, arith, Bool-cases, subst, get_elem?-take, length-take,
  ==_iff, ℕ_discrete, get_elem?-some,
}
use submilli_wasm.Exec.Execution.{Frame, last?}

pub last-get :
    {A : Type 0} (xs : List A) (a : A) → last? xs ≡ some a → get_elem? xs (length xs - 1) ≡ some a
last-get [] a e = cc
last-get (x ∷ []) a e = e
last-get (x ∷ y ∷ xs) a e =
    let n : suc (length (y ∷ xs) - 1) ≡ length (x ∷ y ∷ xs) - 1 = omega arith in
    subst (λ k. get_elem? (x ∷ y ∷ xs) k ≡ some a) n (last-get (y ∷ xs) a e)

pub last-some : {A : Type 0} (xs : List A) → 0 < length xs → (a : A) × (last? xs ≡ some a)
last-some [] h = absurd (omega arith)
last-some (x ∷ []) h = (x, refl)
last-some (x ∷ y ∷ xs) h = last-some (y ∷ xs) (omega arith)

-- The instruction at which frame `j` stands: where the exception was raised in the last frame, and
-- the call in each other.
abbrev pub site : ℕ → List Frame → ℕ → ℕ
site ip frames j =
    if suc j == length frames
    then ip
    else elim (get_elem? frames j) [ none ↦ 0 | some f ↦ f.ip - 1 ]

-- The operands that are left when the unwinder comes to frame `j`: those below the next frame.
abbrev pub ceiling : ℕ → List Frame → ℕ → ℕ
ceiling height frames j =
    if suc j == length frames
    then height
    else elim (get_elem? frames (suc j)) [ none ↦ 0 | some f ↦ f.locals_base ]

eq_test : (a b : ℕ) → a ≡ b → (a == b) ≡ true
eq_test a b e = (==_iff a b).1 e

ne_test : (a b : ℕ) → (a ≡ b → ⊥) → (a == b) ≡ false
ne_test a b ne = elim (Bool-cases (a == b)) [ inl e ↦ absurd (ne ((==_iff a b).0 e)) | inr e ↦ e ]

pub site_last :
    (ip : ℕ) (frames : List Frame) (j : ℕ) → suc j ≡ length frames → site ip frames j ≡ ip
site_last ip frames j e = rw (eq_test (suc j) (length frames) e) refl

site_inner :
    (ip : ℕ) (frames : List Frame) (j : ℕ) (f : Frame)
    → suc j < length frames
    → get_elem? frames j ≡ some f
    → site ip frames j ≡ f.ip - 1
site_inner ip frames j f lt e = rw (ne_test (suc j) (length frames) (λ q. omega arith), e) refl

pub ceiling_last :
    (h : ℕ) (frames : List Frame) (j : ℕ) → suc j ≡ length frames → ceiling h frames j ≡ h
ceiling_last h frames j e = rw (eq_test (suc j) (length frames) e) refl

ceiling_inner :
    (h : ℕ) (frames : List Frame) (j : ℕ) (f : Frame)
    → suc j < length frames
    → get_elem? frames (suc j) ≡ some f
    → ceiling h frames j ≡ f.locals_base
ceiling_inner h frames j f lt e = rw (ne_test (suc j) (length frames) (λ q. omega arith), e) refl

module _ (frames : List Frame) (n : ℕ) (len : length frames ≡ suc n) where
  abbrev pub rest : List Frame
  rest = take n frames

  pub length-rest : length rest ≡ n
  length-rest = omega (arith, length-take n frames)

  pub get-rest : (j : ℕ) → j < n → get_elem? rest j ≡ get_elem? frames j
  get-rest j lt = get_elem?-take n j frames lt

  -- After the last frame is gone, every other stands where it stood.
  pub site-rest :
      (ip ip' j : ℕ) (f : Frame)
      → j < n
      → get_elem? frames j ≡ some f
      → (suc j ≡ n → ip' ≡ f.ip - 1)
      → site ip' rest j ≡ site ip frames j
  site-rest ip ip' j f lt e at = elim (ℕ_discrete (suc j) n) [
    | yes q ↦
        site_last ip' rest j (omega (arith, length-rest))
        ∙ (at q ∙ sym (site_inner ip frames j f (omega arith) e))
    | no ne ↦
        site_inner ip' rest j f (omega (arith, length-rest)) (get-rest j lt ∙ e)
        ∙ sym (site_inner ip frames j f (omega arith) e)
  ]

  pub ceiling-rest :
      (h j : ℕ) (last : Frame)
      → j < n
      → get_elem? frames n ≡ some last
      → ceiling last.locals_base rest j ≡ ceiling h frames j
  ceiling-rest h j last lt e = elim (ℕ_discrete (suc j) n) [
    | yes q ↦
        ceiling_last last.locals_base rest j (omega (arith, length-rest))
        ∙ sym (
            ceiling_inner h frames j last (omega arith)
              (subst (λ k. get_elem? frames k ≡ some last) (sym q) e))
    | no ne ↦
        let (g, there) = get_elem?-some frames (suc j) (omega arith) in
        ceiling_inner last.locals_base rest j g (omega (arith, length-rest))
          (get-rest (suc j) (omega arith) ∙ there)
        ∙ sym (ceiling_inner h frames j g (omega arith) there)
  ]

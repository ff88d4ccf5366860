-- ===== src/State.antt =====
-- Code behind `&mut self` that returns `Result<A>`: the state is passed on explicitly, and an
-- error keeps the state that the code had reached, which the source does not roll back.
use submilli_wasm.Base.{◌≡◌, refl}
use submilli_wasm.Error.{Result, ok, err, Error}

abbrev pub M {ℓ κ} : Type ℓ → Type κ → Type (ℓ ⊔ κ)
M S A = S → Result A × S

-- The rest of the code runs in the state that the first part left.
unfoldable pub then_run {ℓ κ μ} :
    {S : Type ℓ} {A : Type κ} {B : Type μ} → (A → S → Result B × S) → Result A × S → Result B × S
then_run f (ok a, s) = f a s
then_run f (err e, s) = (err e, s)

infixl 5 ◌>>=◌ ◌>>◌
abbrev pub ◌>>=◌ {ℓ κ μ} :
    {S : Type ℓ} {A : Type κ} {B : Type μ}
    → (S → Result A × S)
    → (A → S → Result B × S)
    → S
    → Result B × S
◌>>=◌ m f s = then_run f (m s)

abbrev pub ◌>>◌ {ℓ κ} :
    {S : Type ℓ} {B : Type κ} → (S → Result (Unit {0}) × S) → (S → Result B × S) → S → Result B × S
◌>>◌ m k s = then_run (λ _. k) (m s)

abbrev pub pure {ℓ κ} : {S : Type ℓ} {A : Type κ} → A → S → Result A × S
pure a s = (ok a, s)

abbrev pub fail {ℓ κ} : {S : Type ℓ} {A : Type κ} → Error → S → Result A × S
fail e s = (err e, s)

abbrev pub lift {ℓ κ} : {S : Type ℓ} {A : Type κ} → Result A → S → Result A × S
lift r s = (r, s)

-- A read of the state.
abbrev pub gets {ℓ κ} : {S : Type ℓ} {A : Type κ} → (S → A) → S → Result A × S
gets f s = (ok (f s), s)

-- A read of the state that may fail.
abbrev pub reads {ℓ κ} : {S : Type ℓ} {A : Type κ} → (S → Result A) → S → Result A × S
reads f s = (f s, s)

-- A change of the state.
abbrev pub modify {ℓ} : {S : Type ℓ} → (S → S) → S → Result (Unit {0}) × S
modify f s = (ok tt, f s)

-- A property of a bind, from what its first part may return.
pub then_run_cases {ℓ κ μ ν} :
    {S : Type ℓ} {A : Type κ} {B : Type μ} (P : Result B × S → Type ν) (f : A → S → Result B × S)
    (p : Result A × S)
    → ((a : A) (s : S) → p ≡ (ok a, s) → P (f a s))
    → ((e : Error) (s : S) → p ≡ (err e, s) → P (err e, s))
    → P (then_run f p)
unfolding then_run
then_run_cases P f (ok a, s) good bad = good a s refl
then_run_cases P f (err e, s) good bad = bad e s refl

-- The part of a bind that has succeeded.
pub then_run-ok {ℓ κ μ} :
    {S : Type ℓ} {A : Type κ} {B : Type μ} (f : A → S → Result B × S) (a : A) (s : S)
    → then_run f (ok a, s) ≡ f a s
unfolding then_run
then_run-ok f a s = refl

pub then_run-err {ℓ κ μ} :
    {S : Type ℓ} {A : Type κ} {B : Type μ} (f : A → S → Result B × S) (e : Error) (s : S)
    → then_run f (err e, s) ≡ (err e, s)
unfolding then_run
then_run-err f e s = refl

-- The order in which a chain is bracketed does not matter.
pub then_run-then_run {ℓ κ μ ν} :
    {S : Type ℓ} {A : Type κ} {B : Type μ} {C : Type ν} (f : B → S → Result C × S)
    (g : A → S → Result B × S) (q : Result A × S)
    → then_run f (then_run g q) ≡ then_run (λ a s. then_run f (g a s)) q
unfolding then_run
then_run-then_run f g (ok a, s) = refl
then_run-then_run f g (err e, s) = refl

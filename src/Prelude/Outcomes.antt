-- ===== src/Prelude/Outcomes.antt =====
-- How a call can end, and the monad that chains such calls.
use mathlib.Core.Path.{◌≡◌, refl, ap}
use mathlib.Core.Option.{some}

-- `exit` is the `exit(1)` of `err_check`; `fault` is a failed assertion, a write through a null
-- pointer, or an access outside an array that no model of the array describes.
pub data Outcome {ℓ} (A : Type ℓ) : Type ℓ where
  exit fault : Outcome A
  ok : A → Outcome A

-- The second call is made if the first has ended well.
infixl 5 ◌>>=◌
abbrev pub ◌>>=◌ {κ ℓ} : {B : Type κ} {A : Type ℓ} → Outcome A → (A → Outcome B) → Outcome B
fault >>= next = fault
exit >>= next = exit
ok value >>= next = next value

-- A chain that has ended well has a first call that has.
pub bind_ok {κ ℓ} :
    {B : Type κ} {A : Type ℓ} (first : Outcome A) (next : A → Outcome B) (result : B)
    → (first >>= next) ≡ ok result
    → (value : A) × (first ≡ ok value) × (next value ≡ ok result)
bind_ok fault next result e = cc
bind_ok exit next result e = cc
bind_ok (ok value) next result e = (value, refl, e)

-- Calls that have ended well with equal results.
pub ok_inj {ℓ} : {A : Type ℓ} {a b : A} → ok a ≡ ok b → a ≡ b
ok_inj e = cc

pub ok_some {ℓ} : {A : Type ℓ} {a b : A} → ok (some a) ≡ ok (some b) → a ≡ b
ok_some e = cc

pub ok_second {κ ℓ} :
    {B : Type κ} {A : Type ℓ} {a b : A} {v w : B}
    → ◌≡◌ {A = Outcome (A × B)} (ok (a, v)) (ok (b, w))
    → v ≡ w
ok_second e = ap (λ x. x.1) (ok_inj e)

pub ok_third {κ ℓ μ} :
    {C : Type κ} {B : Type ℓ} {A : Type μ} {a a' : A} {b b' : B} {c c' : C}
    → ◌≡◌ {A = Outcome (A × B × C)} (ok (a, b, c)) (ok (a', b', c'))
    → c ≡ c'
ok_third e = ap (λ x. x.2) (ok_inj e)

pub some_inj {ℓ} : {A : Type ℓ} {a b : A} → some a ≡ some b → a ≡ b
some_inj e = cc

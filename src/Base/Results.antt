-- ===== src/Base/Results.antt =====
-- A value or the reason why there is none, for do blocks: Go's pair of a result and an error.
use mathlib.Core.Path.{◌≡◌, refl, ap, ◌∙◌}
use mathlib.Core.Logic.{◌⊎◌, inl, inr}
use native.Mathlib.Omega.{arith}

pub data Result {ℓ κ} (E : Type κ) (A : Type ℓ) : Type (ℓ ⊔ κ) where
  ok : A → Result E A
  err : E → Result E A

infixl 5 ◌>>=◌
abbrev pub ◌>>=◌ {ℓ κ μ} :
    {E : Type μ} {A : Type ℓ} {B : Type κ} → Result E A → (A → Result E B) → Result E B
ok a >>= f = f a
err e >>= f = err e

-- A chain that gives a value: its first step gave one, and the rest did from there.
pub bind_ok {ℓ κ μ ν} :
    {E : Type μ} {A : Type ℓ} {B : Type κ} {P : Type ν} (m : Result E A) (f : A → Result E B)
    {b : B}
    → (m >>= f) ≡ ok b
    → ((a : A) → m ≡ ok a → f a ≡ ok b → P)
    → P
bind_ok (ok a) f h k = k a refl h
bind_ok (err e) f h k = ground arith

-- A chain whose first step gives a value goes on from there.
pub then_ok {ℓ κ μ} :
    {E : Type μ} {A : Type ℓ} {B : Type κ} (m : Result E A) (f : A → Result E B) {a : A}
    {r : Result E B}
    → m ≡ ok a
    → f a ≡ r
    → (m >>= f) ≡ r
then_ok m f e h = ap (λ o. o >>= f) e ∙ h

pub Result-cases {ℓ κ} :
    {E : Type κ} {A : Type ℓ} (o : Result E A) → ((a : A) × (o ≡ ok a)) ⊎ ((e : E) × (o ≡ err e))
Result-cases (ok a) = inl (a, refl)
Result-cases (err e) = inr (e, refl)

-- What holds of both branches holds of the result.
pub result_lem {ℓ κ μ ν} :
    {E : Type ν} {A : Type ℓ} {B : Type μ} (P : B → Type κ) (o : Result E A) {f : A → B} {g : E → B}
    → ((a : A) → o ≡ ok a → P (f a))
    → ((e : E) → o ≡ err e → P (g e))
    → P (elim o [ ok a ↦ f a | err e ↦ g e ])
result_lem P (ok a) h k = h a refl
result_lem P (err e) h k = k e refl

-- ===== src/Base/Outcome.antt =====
-- `std::expected<A, E>`: a value or an error.
use mathlib.Core.Path.{◌≡◌, refl}
use mathlib.Core.Logic.{◌⊎◌, inl, inr}

pub data Expected {ℓ} (E : Type 0) (A : Type ℓ) : Type ℓ where
  ok : A → Expected E A
  unexpected : E → Expected E A

infixl 5 ◌>>=◌
abbrev pub ◌>>=◌ {ℓ κ} :
    {E : Type 0} {A : Type ℓ} {B : Type κ} → Expected E A → (A → Expected E B) → Expected E B
ok a >>= f = f a
unexpected e >>= f = unexpected e

pub Expected-cases {ℓ} :
    {E : Type 0} {A : Type ℓ} (r : Expected E A)
    → ((a : A) × (r ≡ ok a)) ⊎ ((e : E) × (r ≡ unexpected e))
Expected-cases (ok a) = inl (a, refl)
Expected-cases (unexpected e) = inr (e, refl)

-- Inversion of a successful bind.
pub bind-eq-ok {ℓ κ} :
    {E : Type 0} {A : Type ℓ} {B : Type κ} (m : Expected E A) (f : A → Expected E B) {b : B}
    → (m >>= f) ≡ ok b
    → (a : A) × (m ≡ ok a) × (f a ≡ ok b)
bind-eq-ok (ok a) f h = (a, refl, h)
bind-eq-ok (unexpected e) f h = cc

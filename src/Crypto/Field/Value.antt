-- ===== src/Crypto/Field/Value.antt =====
-- The number that five limbs stand for, and congruence modulo 2^255 - 19.
use cpp_onion.Base.{
  ℕ, zero, suc, ◌+◌, ◌-◌, ◌*◌, ◌/◌, ◌%◌, ◌^◌, ◌<◌, ◌≡◌, sym, ap₂, ◌∙◌, arith, bit_and,
}
use native.Mathlib.Nat.{pow-suc}
use native.Mathlib.Numerals.{unary_clauses}
use cpp_onion.Base.Digits.{bit_and-ones}
use cpp_onion.Crypto.Field.{Fe, limb_mask}

abbrev pub prime : ℕ
prime = 2 ^ 255 - 19

abbrev pub value : Fe → ℕ
value f = f.v0 + 2 ^ 51 * f.v1 + 2 ^ 102 * f.v2 + 2 ^ 153 * f.v3 + 2 ^ 204 * f.v4

-- All limbs below a bound.
pub record Below (n : ℕ) (f : Fe) : Type 0 where
  pub b0 : f.v0 < n
  pub b1 : f.v1 < n
  pub b2 : f.v2 < n
  pub b3 : f.v3 < n
  pub b4 : f.v4 < n

-- What the operations take, and what those that carry give back.
abbrev pub IsLoose : Fe → Type 0
IsLoose = Below (2 ^ 54)

abbrev pub IsTight : Fe → Type 0
IsTight = Below (2 ^ 52)

infix 4 ◌≅◌
abbrev pub ◌≅◌ : ℕ → ℕ → Type 0
x ≅ y = x % prime ≡ y % prime

pub mask_low : (x : ℕ) → bit_and x limb_mask ≡ x % 2 ^ 51
mask_low x = bit_and-ones 51 x

pub cong_of_eq : (x y k : ℕ) → x ≡ y + prime * k → x ≅ y
cong_of_eq x y k e = omega (arith, e)

pub cong_add : (a a' b b' : ℕ) → a ≅ a' → b ≅ b' → a + b ≅ a' + b'
cong_add a a' b b' h k = omega (arith, h, k)

-- A product is congruent to that of the residues.
mul_residues : (q r t s : ℕ) → (prime * q + r) * (prime * t + s) ≅ r * s
mul_residues q r t s =
    cong_of_eq ((prime * q + r) * (prime * t + s)) (r * s) (q * (prime * t + s) + r * t)
      (omega arith)

cong_residues : (a b : ℕ) → a * b ≅ (a % prime) * (b % prime)
cong_residues a b =
    let ea : prime * (a / prime) + a % prime ≡ a = omega arith in
    let eb : prime * (b / prime) + b % prime ≡ b = omega arith in
    ap₂ (λ (x y : ℕ). x * y % prime) (sym ea) (sym eb)
    ∙ mul_residues (a / prime) (a % prime) (b / prime) (b % prime)

pub cong_mul : (a a' b b' : ℕ) → a ≅ a' → b ≅ b' → a * b ≅ a' * b'
cong_mul a a' b b' h k =
    cong_residues a b ∙ ap₂ (λ (x y : ℕ). x * y % prime) h k ∙ sym (cong_residues a' b')

pub cong_pow : (n a a' : ℕ) → a ≅ a' → a ^ n ≅ a' ^ n
cong_pow zero a a' h = simp unary_clauses
cong_pow (suc n) a a' h =
    rw (pow-suc a n, pow-suc a' n) (cong_mul (a ^ n) (a' ^ n) a a' (cong_pow n a a' h) h)

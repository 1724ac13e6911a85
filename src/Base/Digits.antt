-- ===== src/Base/Digits.antt =====
-- Numbers as lists of binary digits, most significant first, and the bit operations on them.
use Prim.Native.Nat.{ℕ, zero, suc, ◌+◌, ◌-◌, ◌*◌, ◌/◌, ◌%◌, ◌^◌, ◌≤◌, ◌<◌, min, max}
use Prim.Native.Nat.{
  bit_and, bit_or, digits, bitwise, bit_and-bitwise, bit_or-bitwise, bit_xor, bit_xor-bitwise,
  differ,
}
use mathlib.Core.Path.{◌≡◌, refl, ap, ap₂}
use mathlib.Core.Logic.{◌↔◌}
use mathlib.Core.List.{List, [], ◌∷◌}
use native.Mathlib.Nat.{pow-suc, pow-succ', one-le-pow, div-div-eq-div-mul, div-one}
use native.Mathlib.Omega.{arith}

-- The lowest `k` binary digits of `n`.
abbrev pub bits : ℕ → ℕ → List ℕ
bits zero n = []
bits (suc k) n = (n / 2 ^ k % 2) ∷ bits k n

-- The bit operations are defined by a digit recursion on fuel; the fuel does not matter.
module _ (z : ℕ → ℕ) (f : ℕ → ℕ → ℕ) where
  digits-fuel_irrelevant : (k l a b : ℕ) → a ≤ k → a ≤ l → digits z f k a b ≡ digits z f l a b
  digits-fuel_irrelevant zero zero a b hk hl = refl
  digits-fuel_irrelevant zero (suc l) zero b hk hl = refl
  digits-fuel_irrelevant zero (suc l) (suc a) b hk hl = absurd (omega arith)
  digits-fuel_irrelevant (suc k) zero zero b hk hl = refl
  digits-fuel_irrelevant (suc k) zero (suc a) b hk hl = absurd (omega arith)
  digits-fuel_irrelevant (suc k) (suc l) zero b hk hl = refl
  digits-fuel_irrelevant (suc k) (suc l) (suc a) b hk hl =
      omega (arith, digits-fuel_irrelevant k l (suc a / 2) (b / 2) (omega arith) (omega arith))

  bitwise_unfold :
      (a b : ℕ)
      → bitwise z f (suc a) b ≡ bitwise z f (suc a / 2) (b / 2) * 2 + f (suc a % 2) (b % 2)
  bitwise_unfold a b =
      let same : digits z f a (suc a / 2) (b / 2) ≡ bitwise z f (suc a / 2) (b / 2) =
        digits-fuel_irrelevant a (suc a / 2) (suc a / 2) (b / 2) (omega arith) (omega arith) in
      omega (arith, same)

pub bit_and_halves : (a b : ℕ) → bit_and a b ≡ bit_and (a / 2) (b / 2) * 2 + min (a % 2) (b % 2)
bit_and_halves zero b = simp bit_and-bitwise (omega arith)
bit_and_halves (suc a) b = simp bit_and-bitwise (bitwise_unfold (λ y. 0) min a b)

pub bit_or_halves : (a b : ℕ) → bit_or a b ≡ bit_or (a / 2) (b / 2) * 2 + max (a % 2) (b % 2)
bit_or_halves zero b = simp bit_or-bitwise (omega arith)
bit_or_halves (suc a) b = simp bit_or-bitwise (bitwise_unfold (λ y. y) max a b)

bit_and-zero_below : (k a : ℕ) → a ≤ k → bit_and a 0 ≡ 0
bit_and-zero_below k zero h = refl
bit_and-zero_below zero (suc a) h = absurd (omega arith)
bit_and-zero_below (suc k) (suc a) h =
    omega (arith, bit_and_halves (suc a) 0, bit_and-zero_below k (suc a / 2) (omega arith))

pub bit_and-zero : (a : ℕ) → bit_and a 0 ≡ 0
bit_and-zero a = bit_and-zero_below a a (omega arith)

bit_or-zero_below : (k a : ℕ) → a ≤ k → bit_or a 0 ≡ a
bit_or-zero_below k zero h = refl
bit_or-zero_below zero (suc a) h = absurd (omega arith)
bit_or-zero_below (suc k) (suc a) h =
    omega (arith, bit_or_halves (suc a) 0, bit_or-zero_below k (suc a / 2) (omega arith))

pub bit_or-zero : (a : ℕ) → bit_or a 0 ≡ a
bit_or-zero a = bit_or-zero_below a a (omega arith)

-- A mask of `k` ones keeps the remainder by `2 ^ k`.
and_low_digits : (k q r : ℕ) → r < 2 ^ k → bit_and (q * 2 ^ k + r) (2 ^ k - 1) ≡ r
and_low_digits zero q r h = rw bit_and-zero (omega arith)
and_low_digits (suc k) q r h = ground (
  arith,
  pow-suc 2 k,
  one-le-pow k 2,
  ap (λ (t : ℕ). q * t) (pow-suc 2 k),
  bit_and_halves (q * 2 ^ suc k + r) (2 ^ suc k - 1),
  and_low_digits k q (r / 2),
)

pub bit_and-ones : (k a : ℕ) → bit_and a (2 ^ k - 1) ≡ a % 2 ^ k
bit_and-ones k a = ground (arith, one-le-pow k 2, and_low_digits k (a / 2 ^ k) (a % 2 ^ k))

-- `|` of a shifted field and one that fits below it is their sum.
pub bit_or-disjoint : (k q r : ℕ) → r < 2 ^ k → bit_or (q * 2 ^ k) r ≡ q * 2 ^ k + r
bit_or-disjoint zero q r h = ground (arith, bit_or-zero q)
bit_or-disjoint (suc k) q r h = ground (
  arith,
  pow-suc 2 k,
  ap (λ (t : ℕ). q * t) (pow-suc 2 k),
  bit_or_halves (q * 2 ^ suc k) r,
  bit_or-disjoint k q (r / 2),
)

pub halve : (k x : ℕ) → x / 2 ^ suc k ≡ x / 2 ^ k / 2
halve k x = rw (pow-suc 2 k, div-div-eq-div-mul)

halve' : (k x : ℕ) → x / 2 ^ suc k ≡ x / 2 / 2 ^ k
halve' k x = rw (pow-succ' 2 k, div-div-eq-div-mul)

-- Digit by digit, `&` is the minimum.
pub bit_and_digit : (k a b : ℕ) → bit_and a b / 2 ^ k % 2 ≡ min (a / 2 ^ k % 2) (b / 2 ^ k % 2)
bit_and_digit zero a b = omega (arith, bit_and_halves a b)
bit_and_digit (suc k) a b =
    let half : bit_and a b / 2 ≡ bit_and (a / 2) (b / 2) = omega (arith, bit_and_halves a b) in
    rw (halve' k (bit_and a b), halve' k a, halve' k b, half) (bit_and_digit k (a / 2) (b / 2))

bit_and-le_below : (k a b : ℕ) → a ≤ k → bit_and a b ≤ a
bit_and-le_below k zero b h = omega (arith, bit_and-bitwise 0 b)
bit_and-le_below zero (suc a) b h = absurd (omega arith)
bit_and-le_below (suc k) (suc a) b h =
    omega (arith, bit_and_halves (suc a) b, bit_and-le_below k (suc a / 2) (b / 2) (omega arith))

pub bit_and-le : (a b : ℕ) → bit_and a b ≤ a
bit_and-le a b = bit_and-le_below a a b (omega arith)

bit_or_comm_below : (k a b : ℕ) → a ≤ k → bit_or a b ≡ bit_or b a
bit_or_comm_below k zero b h = omega (arith, bit_or-bitwise 0 b, bit_or-zero b)
bit_or_comm_below zero (suc a) b h = absurd (omega arith)
bit_or_comm_below (suc k) (suc a) b h = omega (
  arith,
  bit_or_halves (suc a) b,
  bit_or_halves b (suc a),
  bit_or_comm_below k (suc a / 2) (b / 2) (omega arith),
)

pub bit_or_comm : (a b : ℕ) → bit_or a b ≡ bit_or b a
bit_or_comm a b = bit_or_comm_below a a b (omega arith)

-- The field may stand on the right as well.
pub bit_or-disjoint_right : (k q r : ℕ) → r < 2 ^ k → bit_or r (q * 2 ^ k) ≡ r + q * 2 ^ k
bit_or-disjoint_right k q r h = omega (arith, bit_or_comm r (q * 2 ^ k), bit_or-disjoint k q r h)

bit_and_comm_below : (k a b : ℕ) → a ≤ k → bit_and a b ≡ bit_and b a
bit_and_comm_below k zero b h = omega (arith, bit_and-bitwise 0 b, bit_and-zero b)
bit_and_comm_below zero (suc a) b h = absurd (omega arith)
bit_and_comm_below (suc k) (suc a) b h = omega (
  arith,
  bit_and_halves (suc a) b,
  bit_and_halves b (suc a),
  bit_and_comm_below k (suc a / 2) (b / 2) (omega arith),
)

pub bit_and_comm : (a b : ℕ) → bit_and a b ≡ bit_and b a
bit_and_comm a b = bit_and_comm_below a a b (omega arith)

bit_xor_halves : (a b : ℕ) → bit_xor a b ≡ bit_xor (a / 2) (b / 2) * 2 + differ (a % 2) (b % 2)
bit_xor_halves zero b = simp bit_xor-bitwise (omega arith)
bit_xor_halves (suc a) b = simp bit_xor-bitwise (bitwise_unfold (λ y. y) differ a b)

differ_lem :
    (x y : ℕ)
    → x < 2
    → y < 2
    → (differ x y < 2) × (differ x y ≡ 0 → x ≡ y) × (x ≡ y → differ x y ≡ 0)
differ_lem zero y hx hy = (hy, λ e. omega (arith, e), λ e. omega (arith, e))
differ_lem (suc x) zero hx hy = (hx, λ e. e, λ e. e)
differ_lem (suc zero) (suc zero) hx hy = (omega arith, λ e. refl, λ e. refl)
differ_lem (suc (suc x)) (suc y) hx hy = absurd (omega arith)
differ_lem (suc zero) (suc (suc y)) hx hy = absurd (omega arith)

-- The bits that differ are none exactly between equal numbers.
bit_xor-zero_below : (k a b : ℕ) → a ≤ k → (bit_xor a b ≡ 0 → a ≡ b) × (a ≡ b → bit_xor a b ≡ 0)
bit_xor-zero_below k zero b h =
    (λ e. omega (arith, e, bit_xor-bitwise 0 b), λ e. omega (arith, e, bit_xor-bitwise 0 b))
bit_xor-zero_below zero (suc a) b h = absurd (omega arith)
bit_xor-zero_below (suc k) (suc a) b h =
    let (down, up) = bit_xor-zero_below k (suc a / 2) (b / 2) (omega arith) in
    let (lt, down', up') = differ_lem (suc a % 2) (b % 2) (omega arith) (omega arith) in
    let e0 = bit_xor_halves (suc a) b in
    (
      λ e. omega (arith, down (omega (arith, e, e0)), down' (omega (arith, e, e0))),
      λ e. omega (arith, e0, up (omega (arith, e)), up' (omega (arith, e))),
    )

pub bit_xor-zero : (a b : ℕ) → (bit_xor a b ≡ 0) ↔ (a ≡ b)
bit_xor-zero a b = bit_xor-zero_below a a b (omega arith)

pub bit_xor-lt : (k a b : ℕ) → a < 2 ^ k → b < 2 ^ k → bit_xor a b < 2 ^ k
bit_xor-lt zero a b ha hb = omega (arith, (bit_xor-zero a b).1 (omega (arith, ha, hb)))
bit_xor-lt (suc k) a b ha hb =
    let lt = differ_lem (a % 2) (b % 2) (omega arith) (omega arith) in
    omega (
      arith,
      bit_xor_halves a b,
      lt.0,
      pow-suc 2 k,
      bit_xor-lt k (a / 2) (b / 2) (omega (arith, ha, pow-suc 2 k))
          (omega (arith, hb, pow-suc 2 k)),
    )

-- The upper digits of `&`.
pub bit_and-div : (k a b : ℕ) → bit_and a b / 2 ^ k ≡ bit_and (a / 2 ^ k) (b / 2 ^ k)
bit_and-div zero a b = omega (arith, ap₂ bit_and (div-one a) (div-one b))
bit_and-div (suc k) a b =
    let half : bit_and a b / 2 ≡ bit_and (a / 2) (b / 2) = omega (arith, bit_and_halves a b) in
    rw (halve' k (bit_and a b), halve' k a, halve' k b, half) (bit_and-div k (a / 2) (b / 2))

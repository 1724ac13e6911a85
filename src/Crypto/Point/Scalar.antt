-- ===== src/Crypto/Point/Scalar.antt =====
-- `ge_scalarmult_base` reads its scalar as 255 bits, the highest first.
use cpp_onion.Base.{
  ℕ, zero, suc, ◌+◌, ◌*◌, ◌/◌, ◌%◌, ◌^◌, ◌<◌, ◌≤◌, ◌≡◌, sym, ap, ap₂, ◌∙◌, arith, List, bit_and,
  ◌==◌, if◌then◌else◌, get_or, length, IsBytes, Bool-cases, inl, inr, ◌>>>◌,
}
use native.Mathlib.Nat.{
  pow-suc, one-le-pow, mod-eq_of_lt, mod-lt, div-add-mod, mul-le-mul_right, add-mul-mod_self_left,
}
use cpp_onion.Base.Digits.{bit_and-ones}
use cpp_onion.Crypto.Field.Numbers.{le_value, le_value_32, le_at_lt, get-IsByte}
use cpp_onion.Crypto.Point.{
  GeP3, GeCached, identity, ge_basepoint, ge_to_cached, ge_double, ge_add, mul_bits, mul_bytes,
  ge_scalarmult_base,
}

-- One more binary digit of a residue.
mod_split_at : (m q r : ℕ) → r < m → (m * q + r) % (m * 2) ≡ q % 2 * m + r
mod_split_at m q r h =
    let shape : m * q + r ≡ (q % 2 * m + r) + (m * 2) * (q / 2) =
      let parts : m * q ≡ m * (2 * (q / 2) + q % 2) = ap (λ (t : ℕ). m * t) (omega arith) in
      omega (arith, parts) in
    ap (λ (t : ℕ). t % (m * 2)) shape
    ∙ add-mul-mod_self_left (q % 2 * m + r) (m * 2) (q / 2)
    ∙ mod-eq_of_lt
        (let small : q % 2 * m ≤ 1 * m = mul-le-mul_right m (omega arith) in omega (arith, small))

mod_split : (b k : ℕ) → b % 2 ^ suc k ≡ b / 2 ^ k % 2 * 2 ^ k + b % 2 ^ k
mod_split b k =
    let low : b % 2 ^ k < 2 ^ k = mod-lt b (one-le-pow k 2 (omega arith)) in
    let parts : 2 ^ k * (b / 2 ^ k) + b % 2 ^ k ≡ b = div-add-mod b (2 ^ k) in
    ap₂ (λ (x m : ℕ). x % m) (sym parts) (pow-suc 2 k)
    ∙ mod_split_at (2 ^ k) (b / 2 ^ k) (b % 2 ^ k) low

-- The byte that the loop looks at: bit 255 is dropped.
abbrev masked : List ℕ → ℕ → ℕ
masked s i = if i == 31 then bit_and (get_or s i 0) 0x7f else get_or s i 0

-- The number of the lowest `n` bytes.
abbrev low_value : List ℕ → ℕ → ℕ
low_value s zero = 0
low_value s (suc n) = masked s n * 256 ^ n + low_value s n

masked-IsByte : (s : List ℕ) (k : ℕ) → IsBytes s → masked s k < 256
masked-IsByte s k h = ground (arith, get-IsByte s k h, bit_and-ones 7 (get_or s k 0))

module _ {ℓ} (Represents : GeP3 → ℕ → Type ℓ) (base : GeCached)
    (double_ok : (p : GeP3) (n : ℕ) → Represents p n → Represents (ge_double p) (n + n))
    (add_ok : (p : GeP3) (n : ℕ) → Represents p n → Represents (ge_add p base) (n + 1)) where
  one_bit :
      (b k n : ℕ) (p : GeP3)
      → Represents p n
      → Represents
          (if bit_and (b >>> k) 1 == 0 then ge_double p else ge_add (ge_double p) base)
          (n + n + b / 2 ^ k % 2)
  one_bit b k n p h = elim (Bool-cases (bit_and (b >>> k) 1 == 0)) [
    | inl clear ↦
        let e : n + n + b / 2 ^ k % 2 ≡ n + n = ground (arith, bit_and-ones 1 (b / 2 ^ k)) in
        rw (clear, e) (double_ok p n h)
    | inr one ↦
        let e : n + n + b / 2 ^ k % 2 ≡ n + n + 1 = ground (arith, bit_and-ones 1 (b / 2 ^ k)) in
        rw (one, e) (add_ok (ge_double p) (n + n) (double_ok p n h))
  ]

  mul_bits-Represents :
      (k b n : ℕ) (p : GeP3)
      → Represents p n
      → Represents (mul_bits base b k p) (n * 2 ^ k + b % 2 ^ k)
  unfolding mul_bits
  mul_bits-Represents zero b n p h = let e : n * 2 ^ 0 + b % 2 ^ 0 ≡ n = omega arith in rw e h
  mul_bits-Represents (suc k) b n p h =
      let e : n * 2 ^ suc k + b % 2 ^ suc k ≡ (n + n + b / 2 ^ k % 2) * 2 ^ k + b % 2 ^ k =
        omega (arith, ap (λ (t : ℕ). n * t) (pow-suc 2 k), mod_split b k) in
      rw e (mul_bits-Represents k b _ _ (one_bit b k n p h))

  mul_bytes-Represents :
      (s : List ℕ)
      → IsBytes s
      → (k n : ℕ) (p : GeP3) → Represents p n
      → Represents (mul_bytes base s k p) (n * 256 ^ k + low_value s k)
  unfolding mul_bytes
  mul_bytes-Represents s hs zero n p h = let e : n * 256 ^ 0 + 0 ≡ n = omega arith in rw e h
  mul_bytes-Represents s hs (suc k) n p h =
      let byte = mul_bits-Represents 8 (masked s k) n p h in
      let e : n * 256 ^ suc k + low_value s (suc k)
          ≡ (n * 2 ^ 8 + masked s k % 2 ^ 8) * 256 ^ k + low_value s k =
        let small : masked s k % 2 ^ 8 ≡ masked s k = omega (arith, masked-IsByte s k hs) in
        omega (arith, ap (λ (t : ℕ). n * t) (pow-suc 256 k), ap (λ (t : ℕ). t * 256 ^ k) small) in
      rw e (mul_bytes-Represents s hs k (n * 2 ^ 8 + masked s k % 2 ^ 8) _ byte)

-- If doubling doubles what a point stands for, and adding the base adds one, then the result of
-- `ge_scalarmult_base` stands for the little-endian number of the scalar without its top bit.
pub ge_scalarmult_base-Represents {ℓ} :
    (Represents : GeP3 → ℕ → Type ℓ)
    → ((p : GeP3) (n : ℕ) → Represents p n → Represents (ge_double p) (n + n))
    → ((p : GeP3) (n : ℕ)
        → Represents p n
        → Represents (ge_add p (ge_to_cached ge_basepoint)) (n + 1))
    → Represents identity 0
    → (s : List ℕ) → IsBytes s
    → length s ≡ 32
    → Represents (ge_scalarmult_base s) (le_value s % 2 ^ 255)
unfolding ge_scalarmult_base
ge_scalarmult_base-Represents Represents double_ok add_ok start s hs len =
    let e : le_value s % 2 ^ 255 ≡ 0 * 256 ^ 32 + low_value s 32 = omega (
      arith,
      le_value_32 s len,
      bit_and-ones 7 (get_or s 31 0),
      le_at_lt s 0 31 hs,
      get-IsByte s 31 hs,
    ) in
    rw e (
      mul_bytes-Represents Represents (ge_to_cached ge_basepoint) double_ok add_ok s hs 32 0
        identity start)

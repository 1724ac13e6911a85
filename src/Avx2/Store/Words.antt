-- ===== src/Avx2/Store/Words.antt =====
-- The signed words of `contract`: nothing is carried out of limbs that are not negative.
use cpp_onion.Base.{
  ℕ, ◌+◌, ◌-◌, ◌*◌, ◌/◌, ◌%◌, ◌^◌, ◌<◌, ◌≡◌, ap₂, ◌∙◌, arith, ltb, u32, if◌then◌else◌,
}
use native.Mathlib.Nat.{zero-div}
use cpp_onion.Base.Digits.{bit_and-zero, bit_and-ones}
use cpp_onion.Avx2.Store.{sar, negative_step, carry_step, s32_gte}

pub sar-positive : (x n : ℕ) → x < 2 ^ 31 → sar x n ≡ x / 2 ^ n
unfolding sar
sar-positive x n h = ground (arith, h)

pub sar-sign : (x : ℕ) → x < 2 ^ 32 → sar x 31 ≡ (if ltb x (2 ^ 31) then 0 else 2 ^ 32 - 1)
unfolding sar
sar-sign x h = ground (arith, h)

pub negative_step-id :
    (w k x next : ℕ) → x < 2 ^ 31 → next < 2 ^ 32 → negative_step w k x next ≡ (x, next)
unfolding negative_step
negative_step-id w k x next hx hn =
    let sign : sar x 31 ≡ 0 = omega (arith, sar-positive x 31 hx, hx) in
    let none_left : sar 0 w ≡ 0 = sar-positive 0 w (omega arith) ∙ zero-div (2 ^ w) in
    let left : x % 2 ^ 32 ≡ x = omega (arith, hx) in
    let right : u32 (next + 2 ^ 32) ≡ next = omega (arith, hn) in
    rw (sign, bit_and-zero x, none_left)
      (ap₂ (λ (a b : ℕ). (a, b)) (omega (arith, left)) (omega (arith, right)))

pub carry_step-26 :
    (x next : ℕ)
    → x < 2 ^ 31
    → next < 2 ^ 31
    → carry_step 26 1 x next ≡ (x % 2 ^ 26, next + (x / 2 ^ 26))
unfolding carry_step
carry_step-26 x next hx hn =
    let e = sar-positive x 26 hx in
    let sum : u32 (next + u32 (1 * sar x 26)) ≡ next + (x / 2 ^ 26) = omega (arith, e, hx, hn) in
    ap₂ (λ (a b : ℕ). (a, b)) (bit_and-ones 26 x) sum

pub carry_step-25 :
    (x next : ℕ)
    → x < 2 ^ 31
    → next < 2 ^ 31
    → carry_step 25 1 x next ≡ (x % 2 ^ 25, next + (x / 2 ^ 25))
unfolding carry_step
carry_step-25 x next hx hn =
    let e = sar-positive x 25 hx in
    let sum : u32 (next + u32 (1 * sar x 25)) ≡ next + (x / 2 ^ 25) = omega (arith, e, hx, hn) in
    ap₂ (λ (a b : ℕ). (a, b)) (bit_and-ones 25 x) sum

pub carry_step-top :
    (x next : ℕ)
    → x < 2 ^ 31
    → next < 2 ^ 31
    → carry_step 25 19 x next ≡ (x % 2 ^ 25, next + 19 * (x / 2 ^ 25))
unfolding carry_step
carry_step-top x next hx hn =
    let e = sar-positive x 25 hx in
    let sum : u32 (next + u32 (19 * sar x 25)) ≡ next + 19 * (x / 2 ^ 25) =
      omega (arith, e, hx, hn) in
    ap₂ (λ (a b : ℕ). (a, b)) (bit_and-ones 25 x) sum

pub s32_gte-mask :
    (x y : ℕ) → x < 2 ^ 31 → y < 2 ^ 31 → s32_gte x y ≡ (if ltb x y then 0 else 2 ^ 32 - 1)
unfolding s32_gte sar
s32_gte-mask x y hx hy = ground (arith, hx, hy)

-- ===== src/Avx2/Store/Equal.antt =====
-- The comparison of words by bits, `s32_eq`.
use cpp_onion.Base.{
  ℕ, ◌-◌, ◌/◌, ◌%◌, ◌^◌, ◌<◌, ◌≡◌, ◌≢◌, ◌↔◌, sym, ap, ◌∙◌, arith, ◌==◌, bit_and, bit_xor, u32,
  ◌<<<◌, if◌then◌else◌,
}
use native.Mathlib.Nat.{mod-eq_of_lt}
use cpp_onion.Base.Digits.{
  bit_and-ones, bit_and-le, bit_and_comm, bit_and-div, bit_xor-zero, bit_xor-lt,
}
use cpp_onion.Avx2.Store.{not32, fold_bits, s32_eq}
use cpp_onion.Avx2.Store.Words.{sar-sign}

-- Two numbers below a power of two have all bits in common exactly if both are all ones.
all_ones :
    (k a b : ℕ)
    → a < 2 ^ k
    → b < 2 ^ k
    → (bit_and a b ≡ 2 ^ k - 1) ↔ ((a ≡ 2 ^ k - 1) × (b ≡ 2 ^ k - 1))
all_ones k a b ha hb = (
  λ e. (
    omega (arith, e, bit_and-le a b, ha),
    omega (arith, e, bit_and_comm a b, bit_and-le b a, hb),
  ),
  λ h. ap (bit_and a) h.1 ∙ bit_and-ones k a ∙ mod-eq_of_lt ha ∙ h.0,
)

-- The upper bits of `x & (x << n)` are ones exactly if twice as many of `x` are.
fold_bits-1 :
    (x : ℕ)
    → x < 2 ^ 32
    → (fold_bits 1 x < 2 ^ 32) × ((fold_bits 1 x / 2 ^ 31 ≡ 2 ^ 1 - 1) ↔ (x / 2 ^ 30 ≡ 2 ^ 2 - 1))
unfolding fold_bits
fold_bits-1 x h =
    let y = u32 (x <<< 1) in
    let same : y / 2 ^ 31 ≡ x / 2 ^ 30 % 2 ^ 1 = omega (arith, h) in
    let (down, up) = all_ones 1 (x / 2 ^ 31) (y / 2 ^ 31) (omega (arith, h)) (omega arith) in
    let e = bit_and-div 31 x y in
    (
      omega (arith, bit_and-le x y, h),
      (
        λ k. let k' = down (sym e ∙ k) in omega (arith, k'.0, k'.1, same, h),
        λ k. e ∙ up (omega (arith, k, h), omega (arith, same, k, h)),
      ),
    )

fold_bits-2 :
    (x : ℕ)
    → x < 2 ^ 32
    → (fold_bits 2 x < 2 ^ 32) × ((fold_bits 2 x / 2 ^ 30 ≡ 2 ^ 2 - 1) ↔ (x / 2 ^ 28 ≡ 2 ^ 4 - 1))
unfolding fold_bits
fold_bits-2 x h =
    let y = u32 (x <<< 2) in
    let same : y / 2 ^ 30 ≡ x / 2 ^ 28 % 2 ^ 2 = omega (arith, h) in
    let (down, up) = all_ones 2 (x / 2 ^ 30) (y / 2 ^ 30) (omega (arith, h)) (omega arith) in
    let e = bit_and-div 30 x y in
    (
      omega (arith, bit_and-le x y, h),
      (
        λ k. let k' = down (sym e ∙ k) in omega (arith, k'.0, k'.1, same, h),
        λ k. e ∙ up (omega (arith, k, h), omega (arith, same, k, h)),
      ),
    )

fold_bits-4 :
    (x : ℕ)
    → x < 2 ^ 32
    → (fold_bits 4 x < 2 ^ 32) × ((fold_bits 4 x / 2 ^ 28 ≡ 2 ^ 4 - 1) ↔ (x / 2 ^ 24 ≡ 2 ^ 8 - 1))
unfolding fold_bits
fold_bits-4 x h =
    let y = u32 (x <<< 4) in
    let same : y / 2 ^ 28 ≡ x / 2 ^ 24 % 2 ^ 4 = omega (arith, h) in
    let (down, up) = all_ones 4 (x / 2 ^ 28) (y / 2 ^ 28) (omega (arith, h)) (omega arith) in
    let e = bit_and-div 28 x y in
    (
      omega (arith, bit_and-le x y, h),
      (
        λ k. let k' = down (sym e ∙ k) in omega (arith, k'.0, k'.1, same, h),
        λ k. e ∙ up (omega (arith, k, h), omega (arith, same, k, h)),
      ),
    )

fold_bits-8 :
    (x : ℕ)
    → x < 2 ^ 32
    → (fold_bits 8 x < 2 ^ 32) × ((fold_bits 8 x / 2 ^ 24 ≡ 2 ^ 8 - 1) ↔ (x / 2 ^ 16 ≡ 2 ^ 16 - 1))
unfolding fold_bits
fold_bits-8 x h =
    let y = u32 (x <<< 8) in
    let same : y / 2 ^ 24 ≡ x / 2 ^ 16 % 2 ^ 8 = omega (arith, h) in
    let (down, up) = all_ones 8 (x / 2 ^ 24) (y / 2 ^ 24) (omega (arith, h)) (omega arith) in
    let e = bit_and-div 24 x y in
    (
      omega (arith, bit_and-le x y, h),
      (
        λ k. let k' = down (sym e ∙ k) in omega (arith, k'.0, k'.1, same, h),
        λ k. e ∙ up (omega (arith, k, h), omega (arith, same, k, h)),
      ),
    )

fold_bits-16 :
    (x : ℕ)
    → x < 2 ^ 32
    → (fold_bits 16 x < 2 ^ 32)
      × ((fold_bits 16 x / 2 ^ 16 ≡ 2 ^ 16 - 1) ↔ (x / 2 ^ 0 ≡ 2 ^ 32 - 1))
unfolding fold_bits
fold_bits-16 x h =
    let y = u32 (x <<< 16) in
    let same : y / 2 ^ 16 ≡ x / 2 ^ 0 % 2 ^ 16 = omega (arith, h) in
    let (down, up) = all_ones 16 (x / 2 ^ 16) (y / 2 ^ 16) (omega (arith, h)) (omega arith) in
    let e = bit_and-div 16 x y in
    (
      omega (arith, bit_and-le x y, h),
      (
        λ k. let k' = down (sym e ∙ k) in omega (arith, k'.0, k'.1, same, h),
        λ k. e ∙ up (omega (arith, k, h), omega (arith, same, k, h)),
      ),
    )

-- The folded word has its sign bit exactly if all bits are ones.
sign_of_folded :
    (x : ℕ)
    → x < 2 ^ 32
    → let y = fold_bits 1 (fold_bits 2 (fold_bits 4 (fold_bits 8 (fold_bits 16 x)))) in
      (y < 2 ^ 32) × ((y / 2 ^ 31 ≡ 1) ↔ (x ≡ 2 ^ 32 - 1))
sign_of_folded x h =
    let (h16, e16) = fold_bits-16 x h in
    let (h8, e8) = fold_bits-8 _ h16 in
    let (h4, e4) = fold_bits-4 _ h8 in
    let (h2, e2) = fold_bits-2 _ h4 in
    let (h1, e1) = fold_bits-1 _ h2 in
    (
      h1,
      (
        λ k. omega (arith, e16.0 (e8.0 (e4.0 (e2.0 (e1.0 k))))),
        λ k. e1.1 (e2.1 (e4.1 (e8.1 (e16.1 (omega (arith, k)))))),
      ),
    )

-- All ones for equal words, none otherwise.
pub s32_eq-mask :
    (x y : ℕ) → x < 2 ^ 31 → y < 2 ^ 31 → s32_eq x y ≡ (if x == y then 2 ^ 32 - 1 else 0)
unfolding s32_eq
s32_eq-mask x y hx hy =
    let differing = bit_xor x y in
    let lt = bit_xor-lt 31 x y hx hy in
    let z =
      fold_bits 1 (fold_bits 2 (fold_bits 4 (fold_bits 8 (fold_bits 16 (not32 differing))))) in
    let (y_lt, (down, up)) = sign_of_folded (not32 differing) (omega arith) in
    let sign = sar-sign z y_lt in
    let (zero_eq, eq_zero) = bit_xor-zero x y in
    let up' : x ≡ y → z / 2 ^ 31 ≡ 1 = λ e. up (omega (arith, eq_zero e)) in
    let down' : (x ≢ y) → ¬ (z / 2 ^ 31 ≡ 1) = λ ne e. ne (zero_eq (omega (arith, down e, lt))) in
    sign ∙ ground (arith, up', down', y_lt)

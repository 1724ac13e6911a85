-- ===== src/Crypto/Field/Multiply.antt =====
-- The product: with limbs below 2^54 no sum leaves 128 bits and no word 64, and the result is the
-- product modulo the prime.
use cpp_onion.Base.{ℕ, ◌-◌, ◌+◌, ◌*◌, ◌/◌, ◌^◌, ◌<◌, ◌≤◌, ◌≡◌, sym, ap, subst, ◌∙◌, arith, u64}
use native.Mathlib.Nat.{mul-le-mul}
use cpp_onion.Crypto.Field.{Fe}
use cpp_onion.Crypto.Field.Product.{
  Wide, mul_wide, sq_wide, carry_wide, fold_top, reduce_wide, fe_mul, fe_sq,
}
use cpp_onion.Crypto.Field.Value.{prime, value, IsLoose, IsTight, ◌≅◌, mask_low, cong_of_eq}

abbrev wide_value : Wide → ℕ
wide_value w = w.t0 + 2 ^ 51 * w.t1 + 2 ^ 102 * w.t2 + 2 ^ 153 * w.t3 + 2 ^ 204 * w.t4

-- Sums that the carries can take.
pub record IsSmall (w : Wide) : Type 0 where
  pub s0 : w.t0 < 77 * 2 ^ 108
  pub s1 : w.t1 < 77 * 2 ^ 108
  pub s2 : w.t2 < 77 * 2 ^ 108
  pub s3 : w.t3 < 77 * 2 ^ 108
  pub s4 : w.t4 < 5 * 2 ^ 108 + 1

product_lt : (x y : ℕ) → x < 2 ^ 54 → y < 2 ^ 54 → x * y < 2 ^ 108
product_lt x y hx hy =
    let top : x * y ≤ (2 ^ 54 - 1) * (2 ^ 54 - 1) =
      mul-le-mul {n₂ = 2 ^ 54 - 1} {m₂ = 2 ^ 54 - 1} (omega arith) (omega arith) in
    omega (arith, top)

-- `c` are the sums `w` with their carries.
abbrev Carries : Wide → Wide → Type 0
Carries w c =
    (c.t0 ≡ w.t0)
    × (c.t1 ≡ w.t1 + c.t0 / 2 ^ 51)
    × (c.t2 ≡ w.t2 + c.t1 / 2 ^ 51)
    × (c.t3 ≡ w.t3 + c.t2 / 2 ^ 51)
    × (c.t4 ≡ w.t4 + c.t3 / 2 ^ 51)

carry_wide-Carries : (w : Wide) → IsSmall w → Carries w (carry_wide w)
unfolding carry_wide
carry_wide-Carries w h = omega arith

fold_top-value :
    (w c : Wide)
    → IsSmall w
    → Carries w c
    → wide_value w ≡ value (fold_top c) + prime * (c.t4 / 2 ^ 51)
unfolding fold_top
fold_top-value w c h e = omega (arith, mask_low)

fold_top-IsTight : (c : Wide) → IsTight (fold_top c)
unfolding fold_top
fold_top-IsTight c = omega (arith, mask_low)

-- The carries keep the value modulo the prime, and reduce the limbs.
reduce_wide_lem :
    (w : Wide) → IsSmall w → (value (reduce_wide w) ≅ wide_value w) × IsTight (reduce_wide w)
unfolding reduce_wide
reduce_wide_lem w h = (
  sym (
      cong_of_eq (wide_value w) (value (fold_top (carry_wide w))) _
        (fold_top-value w (carry_wide w) h (carry_wide-Carries w h))),
  fold_top-IsTight (carry_wide w),
)

-- The sums of `fe_mul` with nothing cut off.
abbrev exact : Fe → Fe → Wide
exact a b = record {
  t0 = a.v0 * b.v0 + 19 * (a.v4 * b.v1 + a.v1 * b.v4 + a.v2 * b.v3 + a.v3 * b.v2);
  t1 = a.v0 * b.v1 + a.v1 * b.v0 + 19 * (a.v4 * b.v2 + a.v2 * b.v4 + a.v3 * b.v3);
  t2 = a.v0 * b.v2 + a.v2 * b.v0 + a.v1 * b.v1 + 19 * (a.v4 * b.v3 + a.v3 * b.v4);
  t3 = a.v0 * b.v3 + a.v3 * b.v0 + a.v1 * b.v2 + a.v2 * b.v1 + 19 * (a.v4 * b.v4);
  t4 = a.v0 * b.v4 + a.v4 * b.v0 + a.v3 * b.v1 + a.v1 * b.v3 + a.v2 * b.v2;
}

-- What the products above 2^255 amount to.
abbrev above : Fe → Fe → ℕ
above a b =
    a.v4 * b.v1
    + a.v1 * b.v4
    + a.v2 * b.v3
    + a.v3 * b.v2
    + 2 ^ 51 * (a.v4 * b.v2 + a.v2 * b.v4 + a.v3 * b.v3)
    + 2 ^ 102 * (a.v4 * b.v3 + a.v3 * b.v4)
    + 2 ^ 153 * (a.v4 * b.v4)

value-exact : (a b : Fe) → value a * value b ≡ wide_value (exact a b) + prime * above a b
value-exact a b = omega arith

small64 : (x : ℕ) → x < 2 ^ 64 → u64 x ≡ x
small64 x h = omega arith

wide_ext :
    (v w : Wide)
    → (v.t0 ≡ w.t0) × (v.t1 ≡ w.t1) × (v.t2 ≡ w.t2) × (v.t3 ≡ w.t3) × (v.t4 ≡ w.t4)
    → v ≡ w
wide_ext v w (e0, e1, e2, e3, e4) =
    λ i. record { t0 = e0 i; t1 = e1 i; t2 = e2 i; t3 = e3 i; t4 = e4 i }

row_lt :
    (x : ℕ) (b : Fe)
    → x < 2 ^ 54
    → IsLoose b
    → (x * b.v0 < 2 ^ 108)
      × (x * b.v1 < 2 ^ 108)
      × (x * b.v2 < 2 ^ 108)
      × (x * b.v3 < 2 ^ 108)
      × (x * b.v4 < 2 ^ 108)
row_lt x b h hb = (
  product_lt x b.v0 h hb.b0,
  product_lt x b.v1 h hb.b1,
  product_lt x b.v2 h hb.b2,
  product_lt x b.v3 h hb.b3,
  product_lt x b.v4 h hb.b4,
)

module _ (a b : Fe) (ha : IsLoose a) (hb : IsLoose b) where
  exact-IsSmall : IsSmall (exact a b)
  exact-IsSmall =
      let row0 = row_lt a.v0 b ha.b0 hb in
      let row1 = row_lt a.v1 b ha.b1 hb in
      let row2 = row_lt a.v2 b ha.b2 hb in
      let row3 = row_lt a.v3 b ha.b3 hb in let row4 = row_lt a.v4 b ha.b4 hb in omega arith

  -- No word and no sum of `fe_mul` wraps.
  mul_wide-exact : mul_wide a b ≡ exact a b
  unfolding mul_wide
  mul_wide-exact =
      let small = exact-IsSmall in
      rw
        (
          small64 (a.v1 * 19) (omega (arith, ha.b1)),
          small64 (a.v2 * 19) (omega (arith, ha.b2)),
          small64 (a.v3 * 19) (omega (arith, ha.b3)),
          small64 (a.v4 * 19) (omega (arith, ha.b4)),
        )
        (wide_ext _ (exact a b) (omega (arith, small)))

  -- The product of two elements with limbs below 2^54 is the product of their values modulo the
  -- prime, with limbs below 2^52.
  pub fe_mul_lem : (value (fe_mul a b) ≅ value a * value b) × IsTight (fe_mul a b)
  unfolding fe_mul
  fe_mul_lem =
      let (e, tight) = reduce_wide_lem (exact a b) exact-IsSmall in
      let same =
        sym
          (cong_of_eq (value a * value b) (wide_value (exact a b)) (above a b) (value-exact a b)) in
      subst (λ (w : Wide). (value (reduce_wide w) ≅ value a * value b) × IsTight (reduce_wide w))
        (sym mul_wide-exact) (e ∙ same, tight)

module _ (a : Fe) (ha : IsLoose a) where
  sq_wide-exact : sq_wide a ≡ exact a a
  unfolding sq_wide
  sq_wide-exact =
      let small = exact-IsSmall a a ha ha in
      rw
        (
          small64 (a.v0 * 2) (omega (arith, ha.b0)),
          small64 (a.v1 * 2) (omega (arith, ha.b1)),
          small64 (a.v2 * 2) (omega (arith, ha.b2)),
          small64 (a.v2 * 2 * 19) (omega (arith, ha.b2)),
          small64 (a.v3 * 19) (omega (arith, ha.b3)),
          small64 (a.v4 * 19) (omega (arith, ha.b4)),
          small64 (a.v4 * 19 * 2) (omega (arith, ha.b4)),
        )
        (wide_ext _ (exact a a) (omega (arith, small)))

  -- The squaring with its shared products gives limb by limb what the product gives, for limbs
  -- below 2^54.
  pub fe_sq-fe_mul : fe_sq a ≡ fe_mul a a
  unfolding fe_sq fe_mul
  fe_sq-fe_mul = ap reduce_wide (sq_wide-exact ∙ sym (mul_wide-exact a a ha ha))

pub fe_sq_lem : (a : Fe) → IsLoose a → (value (fe_sq a) ≅ value a * value a) × IsTight (fe_sq a)
fe_sq_lem a ha = rw (fe_sq-fe_mul a ha) (fe_mul_lem a a ha ha)

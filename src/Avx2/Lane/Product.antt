-- ===== src/Avx2/Lane/Product.antt =====
-- The product of lanes.
use cpp_onion.Base.{ℕ, ◌+◌, ◌-◌, ◌*◌, ◌%◌, ◌^◌, ◌<◌, ◌≤◌, ◌≡◌, refl, sym, ap, ◌∙◌, arith}
use native.Mathlib.Nat.{mul-le-mul}
use cpp_onion.Avx2.Lane.{Lane, Degree, fproduct, v_mul}
use cpp_onion.Avx2.Lane.Reduce.{lane_value, low_value, IsReduced}

product_le : (x y : ℕ) → x < 2 ^ 26 → y < 2 ^ 26 → x * y < 2 ^ 52
product_le x y hx hy =
    let top : x * y ≤ (2 ^ 26 - 1) * (2 ^ 26 - 1) =
      mul-le-mul {n₂ = 2 ^ 26 - 1} {m₂ = 2 ^ 26 - 1} (omega arith) (omega arith) in
    omega (arith, top)

-- A product of two limbs that fit 26 bits.
pub mul_lem : (x y : ℕ) → x < 2 ^ 26 → y < 2 ^ 26 → (v_mul x y ≡ x * y) × (x * y < 2 ^ 52)
unfolding v_mul
mul_lem x y hx hy =
    let ex : x % 2 ^ 32 ≡ x = omega (arith, hx) in
    let ey : y % 2 ^ 32 ≡ y = omega (arith, hy) in (rw (ex, ey) refl, product_le x y hx hy)

-- All entries of the array, as a number.
abbrev pub whole_value : Degree → ℕ
whole_value t =
    low_value t
    + 2 ^ 255 * t.t10
    + 2 ^ 281 * t.t11
    + 2 ^ 306 * t.t12
    + 2 ^ 332 * t.t13
    + 2 ^ 357 * t.t14
    + 2 ^ 383 * t.t15
    + 2 ^ 408 * t.t16
    + 2 ^ 434 * t.t17
    + 2 ^ 459 * t.t18

-- The entries without words that wrap.
abbrev pub exact : Lane → Lane → Degree
exact a b = record {
  t0 = a.v0 * b.v0;
  t1 = a.v0 * b.v1 + a.v1 * b.v0;
  t2 = 2 * (a.v1 * b.v1) + a.v0 * b.v2 + a.v2 * b.v0;
  t3 = a.v1 * b.v2 + a.v2 * b.v1 + a.v0 * b.v3 + a.v3 * b.v0;
  t4 = a.v2 * b.v2 + 2 * (a.v1 * b.v3 + a.v3 * b.v1) + a.v0 * b.v4 + a.v4 * b.v0;
  t5 = a.v2 * b.v3 + a.v3 * b.v2 + a.v1 * b.v4 + a.v4 * b.v1 + a.v0 * b.v5 + a.v5 * b.v0;
  t6 =
      2 * (a.v3 * b.v3 + a.v1 * b.v5 + a.v5 * b.v1)
      + a.v2 * b.v4
      + a.v4 * b.v2
      + a.v0 * b.v6
      + a.v6 * b.v0;
  t7 =
      a.v3 * b.v4
      + a.v4 * b.v3
      + a.v2 * b.v5
      + a.v5 * b.v2
      + a.v1 * b.v6
      + a.v6 * b.v1
      + a.v0 * b.v7
      + a.v7 * b.v0;
  t8 =
      a.v4 * b.v4
      + 2 * (a.v3 * b.v5 + a.v5 * b.v3 + a.v1 * b.v7 + a.v7 * b.v1)
      + a.v2 * b.v6
      + a.v6 * b.v2
      + a.v0 * b.v8
      + a.v8 * b.v0;
  t9 =
      a.v4 * b.v5
      + a.v5 * b.v4
      + a.v3 * b.v6
      + a.v6 * b.v3
      + a.v2 * b.v7
      + a.v7 * b.v2
      + a.v1 * b.v8
      + a.v8 * b.v1
      + a.v0 * b.v9
      + a.v9 * b.v0;
  t10 =
      2 * (a.v5 * b.v5 + a.v3 * b.v7 + a.v7 * b.v3 + a.v1 * b.v9 + a.v9 * b.v1)
      + a.v4 * b.v6
      + a.v6 * b.v4
      + a.v2 * b.v8
      + a.v8 * b.v2;
  t11 =
      a.v5 * b.v6
      + a.v6 * b.v5
      + a.v4 * b.v7
      + a.v7 * b.v4
      + a.v3 * b.v8
      + a.v8 * b.v3
      + a.v2 * b.v9
      + a.v9 * b.v2;
  t12 =
      a.v6 * b.v6
      + 2 * (a.v5 * b.v7 + a.v7 * b.v5)
      + 2 * (a.v3 * b.v9 + a.v9 * b.v3)
      + a.v4 * b.v8
      + a.v8 * b.v4;
  t13 = a.v6 * b.v7 + a.v7 * b.v6 + a.v5 * b.v8 + a.v8 * b.v5 + a.v4 * b.v9 + a.v9 * b.v4;
  t14 = 2 * (a.v7 * b.v7 + a.v5 * b.v9 + a.v9 * b.v5) + a.v6 * b.v8 + a.v8 * b.v6;
  t15 = a.v7 * b.v8 + a.v8 * b.v7 + a.v6 * b.v9 + a.v9 * b.v6;
  t16 = a.v8 * b.v8 + 2 * (a.v7 * b.v9 + a.v9 * b.v7);
  t17 = a.v8 * b.v9 + a.v9 * b.v8;
  t18 = 2 * (a.v9 * b.v9);
}

-- The lower and the upper five limbs.
abbrev low_half : Lane → ℕ
low_half f = f.v0 + 2 ^ 26 * f.v1 + 2 ^ 51 * f.v2 + 2 ^ 77 * f.v3 + 2 ^ 102 * f.v4

abbrev high_half : Lane → ℕ
high_half f = f.v5 + 2 ^ 25 * f.v6 + 2 ^ 51 * f.v7 + 2 ^ 76 * f.v8 + 2 ^ 102 * f.v9

distribute : (x y z : ℕ) → (x + 2 ^ 128 * y) * z ≡ x * z + 2 ^ 128 * (y * z)
distribute x y z = omega arith

pub exact-value : (a b : Lane) → whole_value (exact a b) ≡ lane_value a * lane_value b
exact-value a b =
    let sum : lane_value a ≡ low_half a + 2 ^ 128 * high_half a = omega arith in
    let parts : whole_value (exact a b)
        ≡ low_half a * lane_value b + 2 ^ 128 * (high_half a * lane_value b) =
      omega arith in
    parts
    ∙ sym (distribute (low_half a) (high_half a) (lane_value b))
    ∙ ap (λ (x : ℕ). x * lane_value b) (sym sum)

-- All limbs fit 26 bits.
pub record IsNarrow (f : Lane) : Type 0 where
  pub n0 : f.v0 < 2 ^ 26
  pub n1 : f.v1 < 2 ^ 26
  pub n2 : f.v2 < 2 ^ 26
  pub n3 : f.v3 < 2 ^ 26
  pub n4 : f.v4 < 2 ^ 26
  pub n5 : f.v5 < 2 ^ 26
  pub n6 : f.v6 < 2 ^ 26
  pub n7 : f.v7 < 2 ^ 26
  pub n8 : f.v8 < 2 ^ 26
  pub n9 : f.v9 < 2 ^ 26

pub reduced→narrow : (f : Lane) → IsReduced f → IsNarrow f
reduced→narrow f h = omega (arith, h)

-- The same entries, all below 2^57.
pub record IsSame (t u : Degree) : Type 0 where
  pub e0 : (t.t0 ≡ u.t0) × (u.t0 < 2 ^ 57)
  pub e1 : (t.t1 ≡ u.t1) × (u.t1 < 2 ^ 57)
  pub e2 : (t.t2 ≡ u.t2) × (u.t2 < 2 ^ 57)
  pub e3 : (t.t3 ≡ u.t3) × (u.t3 < 2 ^ 57)
  pub e4 : (t.t4 ≡ u.t4) × (u.t4 < 2 ^ 57)
  pub e5 : (t.t5 ≡ u.t5) × (u.t5 < 2 ^ 57)
  pub e6 : (t.t6 ≡ u.t6) × (u.t6 < 2 ^ 57)
  pub e7 : (t.t7 ≡ u.t7) × (u.t7 < 2 ^ 57)
  pub e8 : (t.t8 ≡ u.t8) × (u.t8 < 2 ^ 57)
  pub e9 : (t.t9 ≡ u.t9) × (u.t9 < 2 ^ 57)
  pub e10 : (t.t10 ≡ u.t10) × (u.t10 < 2 ^ 57)
  pub e11 : (t.t11 ≡ u.t11) × (u.t11 < 2 ^ 57)
  pub e12 : (t.t12 ≡ u.t12) × (u.t12 < 2 ^ 57)
  pub e13 : (t.t13 ≡ u.t13) × (u.t13 < 2 ^ 57)
  pub e14 : (t.t14 ≡ u.t14) × (u.t14 < 2 ^ 57)
  pub e15 : (t.t15 ≡ u.t15) × (u.t15 < 2 ^ 57)
  pub e16 : (t.t16 ≡ u.t16) × (u.t16 < 2 ^ 57)
  pub e17 : (t.t17 ≡ u.t17) × (u.t17 < 2 ^ 57)
  pub e18 : (t.t18 ≡ u.t18) × (u.t18 < 2 ^ 57)

pub fproduct-IsSame : (a b : Lane) → IsNarrow a → IsNarrow b → IsSame (fproduct a b) (exact a b)
unfolding fproduct
fproduct-IsSame a b ha hb = record {
  e0 = (omega (arith, mul_lem a.v0 b.v0 ha.n0 hb.n0), omega (arith, mul_lem a.v0 b.v0 ha.n0 hb.n0));
  e1 = (
    omega (arith, mul_lem a.v0 b.v1 ha.n0 hb.n1, mul_lem a.v1 b.v0 ha.n1 hb.n0),
    omega (arith, mul_lem a.v0 b.v1 ha.n0 hb.n1, mul_lem a.v1 b.v0 ha.n1 hb.n0),
  );
  e2 = (
    omega (
      arith,
      mul_lem a.v1 b.v1 ha.n1 hb.n1,
      mul_lem a.v0 b.v2 ha.n0 hb.n2,
      mul_lem a.v2 b.v0 ha.n2 hb.n0,
    ),
    omega (
      arith,
      mul_lem a.v1 b.v1 ha.n1 hb.n1,
      mul_lem a.v0 b.v2 ha.n0 hb.n2,
      mul_lem a.v2 b.v0 ha.n2 hb.n0,
    ),
  );
  e3 = (
    omega (
      arith,
      mul_lem a.v1 b.v2 ha.n1 hb.n2,
      mul_lem a.v2 b.v1 ha.n2 hb.n1,
      mul_lem a.v0 b.v3 ha.n0 hb.n3,
      mul_lem a.v3 b.v0 ha.n3 hb.n0,
    ),
    omega (
      arith,
      mul_lem a.v1 b.v2 ha.n1 hb.n2,
      mul_lem a.v2 b.v1 ha.n2 hb.n1,
      mul_lem a.v0 b.v3 ha.n0 hb.n3,
      mul_lem a.v3 b.v0 ha.n3 hb.n0,
    ),
  );
  e4 = (
    omega (
      arith,
      mul_lem a.v2 b.v2 ha.n2 hb.n2,
      mul_lem a.v1 b.v3 ha.n1 hb.n3,
      mul_lem a.v3 b.v1 ha.n3 hb.n1,
      mul_lem a.v0 b.v4 ha.n0 hb.n4,
      mul_lem a.v4 b.v0 ha.n4 hb.n0,
    ),
    omega (
      arith,
      mul_lem a.v2 b.v2 ha.n2 hb.n2,
      mul_lem a.v1 b.v3 ha.n1 hb.n3,
      mul_lem a.v3 b.v1 ha.n3 hb.n1,
      mul_lem a.v0 b.v4 ha.n0 hb.n4,
      mul_lem a.v4 b.v0 ha.n4 hb.n0,
    ),
  );
  e5 = (
    omega (
      arith,
      mul_lem a.v2 b.v3 ha.n2 hb.n3,
      mul_lem a.v3 b.v2 ha.n3 hb.n2,
      mul_lem a.v1 b.v4 ha.n1 hb.n4,
      mul_lem a.v4 b.v1 ha.n4 hb.n1,
      mul_lem a.v0 b.v5 ha.n0 hb.n5,
      mul_lem a.v5 b.v0 ha.n5 hb.n0,
    ),
    omega (
      arith,
      mul_lem a.v2 b.v3 ha.n2 hb.n3,
      mul_lem a.v3 b.v2 ha.n3 hb.n2,
      mul_lem a.v1 b.v4 ha.n1 hb.n4,
      mul_lem a.v4 b.v1 ha.n4 hb.n1,
      mul_lem a.v0 b.v5 ha.n0 hb.n5,
      mul_lem a.v5 b.v0 ha.n5 hb.n0,
    ),
  );
  e6 = (
    omega (
      arith,
      mul_lem a.v3 b.v3 ha.n3 hb.n3,
      mul_lem a.v1 b.v5 ha.n1 hb.n5,
      mul_lem a.v5 b.v1 ha.n5 hb.n1,
      mul_lem a.v2 b.v4 ha.n2 hb.n4,
      mul_lem a.v4 b.v2 ha.n4 hb.n2,
      mul_lem a.v0 b.v6 ha.n0 hb.n6,
      mul_lem a.v6 b.v0 ha.n6 hb.n0,
    ),
    omega (
      arith,
      mul_lem a.v3 b.v3 ha.n3 hb.n3,
      mul_lem a.v1 b.v5 ha.n1 hb.n5,
      mul_lem a.v5 b.v1 ha.n5 hb.n1,
      mul_lem a.v2 b.v4 ha.n2 hb.n4,
      mul_lem a.v4 b.v2 ha.n4 hb.n2,
      mul_lem a.v0 b.v6 ha.n0 hb.n6,
      mul_lem a.v6 b.v0 ha.n6 hb.n0,
    ),
  );
  e7 = (
    omega (
      arith,
      mul_lem a.v3 b.v4 ha.n3 hb.n4,
      mul_lem a.v4 b.v3 ha.n4 hb.n3,
      mul_lem a.v2 b.v5 ha.n2 hb.n5,
      mul_lem a.v5 b.v2 ha.n5 hb.n2,
      mul_lem a.v1 b.v6 ha.n1 hb.n6,
      mul_lem a.v6 b.v1 ha.n6 hb.n1,
      mul_lem a.v0 b.v7 ha.n0 hb.n7,
      mul_lem a.v7 b.v0 ha.n7 hb.n0,
    ),
    omega (
      arith,
      mul_lem a.v3 b.v4 ha.n3 hb.n4,
      mul_lem a.v4 b.v3 ha.n4 hb.n3,
      mul_lem a.v2 b.v5 ha.n2 hb.n5,
      mul_lem a.v5 b.v2 ha.n5 hb.n2,
      mul_lem a.v1 b.v6 ha.n1 hb.n6,
      mul_lem a.v6 b.v1 ha.n6 hb.n1,
      mul_lem a.v0 b.v7 ha.n0 hb.n7,
      mul_lem a.v7 b.v0 ha.n7 hb.n0,
    ),
  );
  e8 = (
    omega (
      arith,
      mul_lem a.v4 b.v4 ha.n4 hb.n4,
      mul_lem a.v3 b.v5 ha.n3 hb.n5,
      mul_lem a.v5 b.v3 ha.n5 hb.n3,
      mul_lem a.v1 b.v7 ha.n1 hb.n7,
      mul_lem a.v7 b.v1 ha.n7 hb.n1,
      mul_lem a.v2 b.v6 ha.n2 hb.n6,
      mul_lem a.v6 b.v2 ha.n6 hb.n2,
      mul_lem a.v0 b.v8 ha.n0 hb.n8,
      mul_lem a.v8 b.v0 ha.n8 hb.n0,
    ),
    omega (
      arith,
      mul_lem a.v4 b.v4 ha.n4 hb.n4,
      mul_lem a.v3 b.v5 ha.n3 hb.n5,
      mul_lem a.v5 b.v3 ha.n5 hb.n3,
      mul_lem a.v1 b.v7 ha.n1 hb.n7,
      mul_lem a.v7 b.v1 ha.n7 hb.n1,
      mul_lem a.v2 b.v6 ha.n2 hb.n6,
      mul_lem a.v6 b.v2 ha.n6 hb.n2,
      mul_lem a.v0 b.v8 ha.n0 hb.n8,
      mul_lem a.v8 b.v0 ha.n8 hb.n0,
    ),
  );
  e9 = (
    omega (
      arith,
      mul_lem a.v4 b.v5 ha.n4 hb.n5,
      mul_lem a.v5 b.v4 ha.n5 hb.n4,
      mul_lem a.v3 b.v6 ha.n3 hb.n6,
      mul_lem a.v6 b.v3 ha.n6 hb.n3,
      mul_lem a.v2 b.v7 ha.n2 hb.n7,
      mul_lem a.v7 b.v2 ha.n7 hb.n2,
      mul_lem a.v1 b.v8 ha.n1 hb.n8,
      mul_lem a.v8 b.v1 ha.n8 hb.n1,
      mul_lem a.v0 b.v9 ha.n0 hb.n9,
      mul_lem a.v9 b.v0 ha.n9 hb.n0,
    ),
    omega (
      arith,
      mul_lem a.v4 b.v5 ha.n4 hb.n5,
      mul_lem a.v5 b.v4 ha.n5 hb.n4,
      mul_lem a.v3 b.v6 ha.n3 hb.n6,
      mul_lem a.v6 b.v3 ha.n6 hb.n3,
      mul_lem a.v2 b.v7 ha.n2 hb.n7,
      mul_lem a.v7 b.v2 ha.n7 hb.n2,
      mul_lem a.v1 b.v8 ha.n1 hb.n8,
      mul_lem a.v8 b.v1 ha.n8 hb.n1,
      mul_lem a.v0 b.v9 ha.n0 hb.n9,
      mul_lem a.v9 b.v0 ha.n9 hb.n0,
    ),
  );
  e10 = (
    omega (
      arith,
      mul_lem a.v5 b.v5 ha.n5 hb.n5,
      mul_lem a.v3 b.v7 ha.n3 hb.n7,
      mul_lem a.v7 b.v3 ha.n7 hb.n3,
      mul_lem a.v1 b.v9 ha.n1 hb.n9,
      mul_lem a.v9 b.v1 ha.n9 hb.n1,
      mul_lem a.v4 b.v6 ha.n4 hb.n6,
      mul_lem a.v6 b.v4 ha.n6 hb.n4,
      mul_lem a.v2 b.v8 ha.n2 hb.n8,
      mul_lem a.v8 b.v2 ha.n8 hb.n2,
    ),
    omega (
      arith,
      mul_lem a.v5 b.v5 ha.n5 hb.n5,
      mul_lem a.v3 b.v7 ha.n3 hb.n7,
      mul_lem a.v7 b.v3 ha.n7 hb.n3,
      mul_lem a.v1 b.v9 ha.n1 hb.n9,
      mul_lem a.v9 b.v1 ha.n9 hb.n1,
      mul_lem a.v4 b.v6 ha.n4 hb.n6,
      mul_lem a.v6 b.v4 ha.n6 hb.n4,
      mul_lem a.v2 b.v8 ha.n2 hb.n8,
      mul_lem a.v8 b.v2 ha.n8 hb.n2,
    ),
  );
  e11 = (
    omega (
      arith,
      mul_lem a.v5 b.v6 ha.n5 hb.n6,
      mul_lem a.v6 b.v5 ha.n6 hb.n5,
      mul_lem a.v4 b.v7 ha.n4 hb.n7,
      mul_lem a.v7 b.v4 ha.n7 hb.n4,
      mul_lem a.v3 b.v8 ha.n3 hb.n8,
      mul_lem a.v8 b.v3 ha.n8 hb.n3,
      mul_lem a.v2 b.v9 ha.n2 hb.n9,
      mul_lem a.v9 b.v2 ha.n9 hb.n2,
    ),
    omega (
      arith,
      mul_lem a.v5 b.v6 ha.n5 hb.n6,
      mul_lem a.v6 b.v5 ha.n6 hb.n5,
      mul_lem a.v4 b.v7 ha.n4 hb.n7,
      mul_lem a.v7 b.v4 ha.n7 hb.n4,
      mul_lem a.v3 b.v8 ha.n3 hb.n8,
      mul_lem a.v8 b.v3 ha.n8 hb.n3,
      mul_lem a.v2 b.v9 ha.n2 hb.n9,
      mul_lem a.v9 b.v2 ha.n9 hb.n2,
    ),
  );
  e12 = (
    omega (
      arith,
      mul_lem a.v6 b.v6 ha.n6 hb.n6,
      mul_lem a.v5 b.v7 ha.n5 hb.n7,
      mul_lem a.v7 b.v5 ha.n7 hb.n5,
      mul_lem a.v3 b.v9 ha.n3 hb.n9,
      mul_lem a.v9 b.v3 ha.n9 hb.n3,
      mul_lem a.v4 b.v8 ha.n4 hb.n8,
      mul_lem a.v8 b.v4 ha.n8 hb.n4,
    ),
    omega (
      arith,
      mul_lem a.v6 b.v6 ha.n6 hb.n6,
      mul_lem a.v5 b.v7 ha.n5 hb.n7,
      mul_lem a.v7 b.v5 ha.n7 hb.n5,
      mul_lem a.v3 b.v9 ha.n3 hb.n9,
      mul_lem a.v9 b.v3 ha.n9 hb.n3,
      mul_lem a.v4 b.v8 ha.n4 hb.n8,
      mul_lem a.v8 b.v4 ha.n8 hb.n4,
    ),
  );
  e13 = (
    omega (
      arith,
      mul_lem a.v6 b.v7 ha.n6 hb.n7,
      mul_lem a.v7 b.v6 ha.n7 hb.n6,
      mul_lem a.v5 b.v8 ha.n5 hb.n8,
      mul_lem a.v8 b.v5 ha.n8 hb.n5,
      mul_lem a.v4 b.v9 ha.n4 hb.n9,
      mul_lem a.v9 b.v4 ha.n9 hb.n4,
    ),
    omega (
      arith,
      mul_lem a.v6 b.v7 ha.n6 hb.n7,
      mul_lem a.v7 b.v6 ha.n7 hb.n6,
      mul_lem a.v5 b.v8 ha.n5 hb.n8,
      mul_lem a.v8 b.v5 ha.n8 hb.n5,
      mul_lem a.v4 b.v9 ha.n4 hb.n9,
      mul_lem a.v9 b.v4 ha.n9 hb.n4,
    ),
  );
  e14 = (
    omega (
      arith,
      mul_lem a.v7 b.v7 ha.n7 hb.n7,
      mul_lem a.v5 b.v9 ha.n5 hb.n9,
      mul_lem a.v9 b.v5 ha.n9 hb.n5,
      mul_lem a.v6 b.v8 ha.n6 hb.n8,
      mul_lem a.v8 b.v6 ha.n8 hb.n6,
    ),
    omega (
      arith,
      mul_lem a.v7 b.v7 ha.n7 hb.n7,
      mul_lem a.v5 b.v9 ha.n5 hb.n9,
      mul_lem a.v9 b.v5 ha.n9 hb.n5,
      mul_lem a.v6 b.v8 ha.n6 hb.n8,
      mul_lem a.v8 b.v6 ha.n8 hb.n6,
    ),
  );
  e15 = (
    omega (
      arith,
      mul_lem a.v7 b.v8 ha.n7 hb.n8,
      mul_lem a.v8 b.v7 ha.n8 hb.n7,
      mul_lem a.v6 b.v9 ha.n6 hb.n9,
      mul_lem a.v9 b.v6 ha.n9 hb.n6,
    ),
    omega (
      arith,
      mul_lem a.v7 b.v8 ha.n7 hb.n8,
      mul_lem a.v8 b.v7 ha.n8 hb.n7,
      mul_lem a.v6 b.v9 ha.n6 hb.n9,
      mul_lem a.v9 b.v6 ha.n9 hb.n6,
    ),
  );
  e16 = (
    omega (
      arith,
      mul_lem a.v8 b.v8 ha.n8 hb.n8,
      mul_lem a.v7 b.v9 ha.n7 hb.n9,
      mul_lem a.v9 b.v7 ha.n9 hb.n7,
    ),
    omega (
      arith,
      mul_lem a.v8 b.v8 ha.n8 hb.n8,
      mul_lem a.v7 b.v9 ha.n7 hb.n9,
      mul_lem a.v9 b.v7 ha.n9 hb.n7,
    ),
  );
  e17 = (
    omega (arith, mul_lem a.v8 b.v9 ha.n8 hb.n9, mul_lem a.v9 b.v8 ha.n9 hb.n8),
    omega (arith, mul_lem a.v8 b.v9 ha.n8 hb.n9, mul_lem a.v9 b.v8 ha.n9 hb.n8),
  );
  e18 =
      (omega (arith, mul_lem a.v9 b.v9 ha.n9 hb.n9), omega (arith, mul_lem a.v9 b.v9 ha.n9 hb.n9));
}

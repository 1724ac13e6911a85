-- ===== src/Avx2/Lane/Multiply.antt =====
-- `fe4_mul` and `fe4_sq` on a lane.
use cpp_onion.Base.{ℕ, ◌+◌, ◌*◌, ◌%◌, ◌^◌, ◌<◌, ◌≡◌, refl, ap, ◌∙◌, arith}
use cpp_onion.Crypto.Field.Value.{prime, ◌≅◌}
use cpp_onion.Avx2.Lane.{
  Lane, Degree, fproduct, fsquare_inner, freduce_degree, freduce_coefficients, lane_mul, lane_sq,
  v_add, v_scale,
}
use cpp_onion.Avx2.Lane.Reduce.{lane_value, low_value, IsSmall, IsReduced, freduce_coefficients_lem}
use cpp_onion.Avx2.Lane.Product.{
  whole_value, exact, exact-value, IsNarrow, reduced→narrow, IsSame, fproduct-IsSame, mul_lem,
}

-- Entries below 2^57.
record IsFolded (t : Degree) : Type 0 where
  f0 : t.t0 < 2 ^ 57
  f1 : t.t1 < 2 ^ 57
  f2 : t.t2 < 2 ^ 57
  f3 : t.t3 < 2 ^ 57
  f4 : t.t4 < 2 ^ 57
  f5 : t.t5 < 2 ^ 57
  f6 : t.t6 < 2 ^ 57
  f7 : t.t7 < 2 ^ 57
  f8 : t.t8 < 2 ^ 57
  f9 : t.t9 < 2 ^ 57
  f10 : t.t10 < 2 ^ 57
  f11 : t.t11 < 2 ^ 57
  f12 : t.t12 < 2 ^ 57
  f13 : t.t13 < 2 ^ 57
  f14 : t.t14 < 2 ^ 57
  f15 : t.t15 < 2 ^ 57
  f16 : t.t16 < 2 ^ 57
  f17 : t.t17 < 2 ^ 57
  f18 : t.t18 < 2 ^ 57

-- An entry above 2^255 comes down as 19 times itself.
fold_lem : (x y : ℕ) → x < 2 ^ 57 → y < 2 ^ 57 → v_add x (v_scale y 19) ≡ x + 19 * y
fold_lem x y hx hy = omega (arith, hx, hy)

-- `u` is `t` with the entries above 2^255 brought down.
record IsFold (t u : Degree) : Type 0 where
  d0 : u.t0 ≡ t.t0 + 19 * t.t10
  d1 : u.t1 ≡ t.t1 + 19 * t.t11
  d2 : u.t2 ≡ t.t2 + 19 * t.t12
  d3 : u.t3 ≡ t.t3 + 19 * t.t13
  d4 : u.t4 ≡ t.t4 + 19 * t.t14
  d5 : u.t5 ≡ t.t5 + 19 * t.t15
  d6 : u.t6 ≡ t.t6 + 19 * t.t16
  d7 : u.t7 ≡ t.t7 + 19 * t.t17
  d8 : u.t8 ≡ t.t8 + 19 * t.t18
  d9 : u.t9 ≡ t.t9

freduce_degree-IsFold : (t : Degree) → IsFolded t → IsFold t (freduce_degree t)
unfolding freduce_degree
freduce_degree-IsFold t h = record {
  d0 = fold_lem t.t0 t.t10 h.f0 h.f10;
  d1 = fold_lem t.t1 t.t11 h.f1 h.f11;
  d2 = fold_lem t.t2 t.t12 h.f2 h.f12;
  d3 = fold_lem t.t3 t.t13 h.f3 h.f13;
  d4 = fold_lem t.t4 t.t14 h.f4 h.f14;
  d5 = fold_lem t.t5 t.t15 h.f5 h.f15;
  d6 = fold_lem t.t6 t.t16 h.f6 h.f16;
  d7 = fold_lem t.t7 t.t17 h.f7 h.f17;
  d8 = fold_lem t.t8 t.t18 h.f8 h.f18;
  d9 = refl;
}

-- The ten entries brought down.
abbrev folded_value : Degree → ℕ
folded_value t =
    t.t10
    + 2 ^ 26 * t.t11
    + 2 ^ 51 * t.t12
    + 2 ^ 77 * t.t13
    + 2 ^ 102 * t.t14
    + 2 ^ 128 * t.t15
    + 2 ^ 153 * t.t16
    + 2 ^ 179 * t.t17
    + 2 ^ 204 * t.t18

fold-low_value : (t u : Degree) → IsFold t u → low_value u ≡ low_value t + 19 * folded_value t
fold-low_value t u h = omega (arith, h)

whole-folded_value : (t : Degree) → whole_value t ≡ low_value t + 2 ^ 255 * folded_value t
whole-folded_value t = omega arith

fold_cong : (u t x y : ℕ) → u ≡ x + 19 * y → t ≡ x + 2 ^ 255 * y → u ≅ t
fold_cong u t x y eu et = omega (arith, eu, et)

fold-IsSmall : (t u : Degree) → IsFold t u → IsFolded t → IsSmall u
fold-IsSmall t u h hf = omega (arith, h, hf)

freduce_degree_lem :
    (t : Degree)
    → IsFolded t
    → (low_value (freduce_degree t) ≅ whole_value t) × IsSmall (freduce_degree t)
freduce_degree_lem t h =
    let u = freduce_degree t in
    let d = freduce_degree-IsFold t h in
    (
      fold_cong (low_value u) (whole_value t) (low_value t) (folded_value t) (fold-low_value t u d)
          (whole-folded_value t),
      fold-IsSmall t u d h,
    )

same-value : (t u : Degree) → IsSame t u → whole_value t ≡ whole_value u
same-value t u h = omega (arith, h)

same-IsFolded : (t u : Degree) → IsSame t u → IsFolded t
same-IsFolded t u h = omega (arith, h)

-- Both reductions on entries that are those of the product.
reduced_lem :
    (t : Degree) (a b : Lane)
    → IsSame t (exact a b)
    → let r = freduce_coefficients (freduce_degree t) in
      (lane_value r ≅ lane_value a * lane_value b) × IsReduced r
reduced_lem t a b h =
    let (e, small) = freduce_degree_lem t (same-IsFolded t (exact a b) h) in
    let (e', reduced) = freduce_coefficients_lem (freduce_degree t) small in
    (e' ∙ e ∙ ap (λ (n : ℕ). n % prime) (same-value t (exact a b) h ∙ exact-value a b), reduced)

-- The product of reduced lanes is right modulo the prime, and reduced.
pub lane_mul_lem :
    (a b : Lane)
    → IsReduced a
    → IsReduced b
    → (lane_value (lane_mul a b) ≅ lane_value a * lane_value b) × IsReduced (lane_mul a b)
unfolding lane_mul
lane_mul_lem a b ha hb =
    reduced_lem (fproduct a b) a b (fproduct-IsSame a b (reduced→narrow a ha) (reduced→narrow b hb))

fsquare_inner-IsSame : (a : Lane) → IsNarrow a → IsSame (fsquare_inner a) (exact a a)
unfolding fsquare_inner
fsquare_inner-IsSame a ha = record {
  e0 = (omega (arith, mul_lem a.v0 a.v0 ha.n0 ha.n0), omega (arith, mul_lem a.v0 a.v0 ha.n0 ha.n0));
  e1 = (omega (arith, mul_lem a.v0 a.v1 ha.n0 ha.n1), omega (arith, mul_lem a.v0 a.v1 ha.n0 ha.n1));
  e2 = (
    omega (arith, mul_lem a.v1 a.v1 ha.n1 ha.n1, mul_lem a.v0 a.v2 ha.n0 ha.n2),
    omega (arith, mul_lem a.v1 a.v1 ha.n1 ha.n1, mul_lem a.v0 a.v2 ha.n0 ha.n2),
  );
  e3 = (
    omega (arith, mul_lem a.v1 a.v2 ha.n1 ha.n2, mul_lem a.v0 a.v3 ha.n0 ha.n3),
    omega (arith, mul_lem a.v1 a.v2 ha.n1 ha.n2, mul_lem a.v0 a.v3 ha.n0 ha.n3),
  );
  e4 = (
    omega (
      arith,
      mul_lem a.v2 a.v2 ha.n2 ha.n2,
      mul_lem a.v1 a.v3 ha.n1 ha.n3,
      mul_lem a.v0 a.v4 ha.n0 ha.n4,
    ),
    omega (
      arith,
      mul_lem a.v2 a.v2 ha.n2 ha.n2,
      mul_lem a.v1 a.v3 ha.n1 ha.n3,
      mul_lem a.v0 a.v4 ha.n0 ha.n4,
    ),
  );
  e5 = (
    omega (
      arith,
      mul_lem a.v2 a.v3 ha.n2 ha.n3,
      mul_lem a.v1 a.v4 ha.n1 ha.n4,
      mul_lem a.v0 a.v5 ha.n0 ha.n5,
    ),
    omega (
      arith,
      mul_lem a.v2 a.v3 ha.n2 ha.n3,
      mul_lem a.v1 a.v4 ha.n1 ha.n4,
      mul_lem a.v0 a.v5 ha.n0 ha.n5,
    ),
  );
  e6 = (
    omega (
      arith,
      mul_lem a.v3 a.v3 ha.n3 ha.n3,
      mul_lem a.v2 a.v4 ha.n2 ha.n4,
      mul_lem a.v0 a.v6 ha.n0 ha.n6,
      mul_lem a.v1 a.v5 ha.n1 ha.n5,
    ),
    omega (
      arith,
      mul_lem a.v3 a.v3 ha.n3 ha.n3,
      mul_lem a.v2 a.v4 ha.n2 ha.n4,
      mul_lem a.v0 a.v6 ha.n0 ha.n6,
      mul_lem a.v1 a.v5 ha.n1 ha.n5,
    ),
  );
  e7 = (
    omega (
      arith,
      mul_lem a.v3 a.v4 ha.n3 ha.n4,
      mul_lem a.v2 a.v5 ha.n2 ha.n5,
      mul_lem a.v1 a.v6 ha.n1 ha.n6,
      mul_lem a.v0 a.v7 ha.n0 ha.n7,
    ),
    omega (
      arith,
      mul_lem a.v3 a.v4 ha.n3 ha.n4,
      mul_lem a.v2 a.v5 ha.n2 ha.n5,
      mul_lem a.v1 a.v6 ha.n1 ha.n6,
      mul_lem a.v0 a.v7 ha.n0 ha.n7,
    ),
  );
  e8 = (
    omega (
      arith,
      mul_lem a.v4 a.v4 ha.n4 ha.n4,
      mul_lem a.v2 a.v6 ha.n2 ha.n6,
      mul_lem a.v0 a.v8 ha.n0 ha.n8,
      mul_lem a.v1 a.v7 ha.n1 ha.n7,
      mul_lem a.v3 a.v5 ha.n3 ha.n5,
    ),
    omega (
      arith,
      mul_lem a.v4 a.v4 ha.n4 ha.n4,
      mul_lem a.v2 a.v6 ha.n2 ha.n6,
      mul_lem a.v0 a.v8 ha.n0 ha.n8,
      mul_lem a.v1 a.v7 ha.n1 ha.n7,
      mul_lem a.v3 a.v5 ha.n3 ha.n5,
    ),
  );
  e9 = (
    omega (
      arith,
      mul_lem a.v4 a.v5 ha.n4 ha.n5,
      mul_lem a.v3 a.v6 ha.n3 ha.n6,
      mul_lem a.v2 a.v7 ha.n2 ha.n7,
      mul_lem a.v1 a.v8 ha.n1 ha.n8,
      mul_lem a.v0 a.v9 ha.n0 ha.n9,
    ),
    omega (
      arith,
      mul_lem a.v4 a.v5 ha.n4 ha.n5,
      mul_lem a.v3 a.v6 ha.n3 ha.n6,
      mul_lem a.v2 a.v7 ha.n2 ha.n7,
      mul_lem a.v1 a.v8 ha.n1 ha.n8,
      mul_lem a.v0 a.v9 ha.n0 ha.n9,
    ),
  );
  e10 = (
    omega (
      arith,
      mul_lem a.v5 a.v5 ha.n5 ha.n5,
      mul_lem a.v4 a.v6 ha.n4 ha.n6,
      mul_lem a.v2 a.v8 ha.n2 ha.n8,
      mul_lem a.v3 a.v7 ha.n3 ha.n7,
      mul_lem a.v1 a.v9 ha.n1 ha.n9,
    ),
    omega (
      arith,
      mul_lem a.v5 a.v5 ha.n5 ha.n5,
      mul_lem a.v4 a.v6 ha.n4 ha.n6,
      mul_lem a.v2 a.v8 ha.n2 ha.n8,
      mul_lem a.v3 a.v7 ha.n3 ha.n7,
      mul_lem a.v1 a.v9 ha.n1 ha.n9,
    ),
  );
  e11 = (
    omega (
      arith,
      mul_lem a.v5 a.v6 ha.n5 ha.n6,
      mul_lem a.v4 a.v7 ha.n4 ha.n7,
      mul_lem a.v3 a.v8 ha.n3 ha.n8,
      mul_lem a.v2 a.v9 ha.n2 ha.n9,
    ),
    omega (
      arith,
      mul_lem a.v5 a.v6 ha.n5 ha.n6,
      mul_lem a.v4 a.v7 ha.n4 ha.n7,
      mul_lem a.v3 a.v8 ha.n3 ha.n8,
      mul_lem a.v2 a.v9 ha.n2 ha.n9,
    ),
  );
  e12 = (
    omega (
      arith,
      mul_lem a.v6 a.v6 ha.n6 ha.n6,
      mul_lem a.v4 a.v8 ha.n4 ha.n8,
      mul_lem a.v5 a.v7 ha.n5 ha.n7,
      mul_lem a.v3 a.v9 ha.n3 ha.n9,
    ),
    omega (
      arith,
      mul_lem a.v6 a.v6 ha.n6 ha.n6,
      mul_lem a.v4 a.v8 ha.n4 ha.n8,
      mul_lem a.v5 a.v7 ha.n5 ha.n7,
      mul_lem a.v3 a.v9 ha.n3 ha.n9,
    ),
  );
  e13 = (
    omega (
      arith,
      mul_lem a.v6 a.v7 ha.n6 ha.n7,
      mul_lem a.v5 a.v8 ha.n5 ha.n8,
      mul_lem a.v4 a.v9 ha.n4 ha.n9,
    ),
    omega (
      arith,
      mul_lem a.v6 a.v7 ha.n6 ha.n7,
      mul_lem a.v5 a.v8 ha.n5 ha.n8,
      mul_lem a.v4 a.v9 ha.n4 ha.n9,
    ),
  );
  e14 = (
    omega (
      arith,
      mul_lem a.v7 a.v7 ha.n7 ha.n7,
      mul_lem a.v6 a.v8 ha.n6 ha.n8,
      mul_lem a.v5 a.v9 ha.n5 ha.n9,
    ),
    omega (
      arith,
      mul_lem a.v7 a.v7 ha.n7 ha.n7,
      mul_lem a.v6 a.v8 ha.n6 ha.n8,
      mul_lem a.v5 a.v9 ha.n5 ha.n9,
    ),
  );
  e15 = (
    omega (arith, mul_lem a.v7 a.v8 ha.n7 ha.n8, mul_lem a.v6 a.v9 ha.n6 ha.n9),
    omega (arith, mul_lem a.v7 a.v8 ha.n7 ha.n8, mul_lem a.v6 a.v9 ha.n6 ha.n9),
  );
  e16 = (
    omega (arith, mul_lem a.v8 a.v8 ha.n8 ha.n8, mul_lem a.v7 a.v9 ha.n7 ha.n9),
    omega (arith, mul_lem a.v8 a.v8 ha.n8 ha.n8, mul_lem a.v7 a.v9 ha.n7 ha.n9),
  );
  e17 =
      (omega (arith, mul_lem a.v8 a.v9 ha.n8 ha.n9), omega (arith, mul_lem a.v8 a.v9 ha.n8 ha.n9));
  e18 =
      (omega (arith, mul_lem a.v9 a.v9 ha.n9 ha.n9), omega (arith, mul_lem a.v9 a.v9 ha.n9 ha.n9));
}

-- The square of a reduced lane is right modulo the prime, and reduced.
pub lane_sq_lem :
    (a : Lane)
    → IsReduced a
    → (lane_value (lane_sq a) ≅ lane_value a * lane_value a) × IsReduced (lane_sq a)
unfolding lane_sq
lane_sq_lem a ha = reduced_lem (fsquare_inner a) a a (fsquare_inner-IsSame a (reduced→narrow a ha))

-- ===== src/Crypto/Field/Product.antt =====
-- `fe_mul`, `fe_sq` and `fe_invert` of src/crypto/fe25519.cpp.
use cpp_onion.Base.{ℕ, zero, suc, ◌+◌, ◌*◌, bit_and, u64, u128, ◌>>>◌}
use cpp_onion.Crypto.Field.{Fe, limb_mask}

-- The five 128-bit sums `t0` to `t4`.
pub record Wide : Type 0 where
  pub t0 : ℕ
  pub t1 : ℕ
  pub t2 : ℕ
  pub t3 : ℕ
  pub t4 : ℕ

-- The products of `fe_mul`. A product of two words fits 128 bits; a sum wraps at 128 bits, and
-- wrapping once at the end is wrapping at each `+`.
unfoldable pub mul_wide : Fe → Fe → Wide
mul_wide a b =
    let r1 = u64 (a.v1 * 19) in
    let r2 = u64 (a.v2 * 19) in
    let r3 = u64 (a.v3 * 19) in
    let r4 = u64 (a.v4 * 19) in
    record {
      t0 = u128 (a.v0 * b.v0 + (r4 * b.v1 + r1 * b.v4 + r2 * b.v3 + r3 * b.v2));
      t1 = u128 (a.v0 * b.v1 + a.v1 * b.v0 + (r4 * b.v2 + r2 * b.v4 + r3 * b.v3));
      t2 = u128 (a.v0 * b.v2 + a.v2 * b.v0 + a.v1 * b.v1 + (r4 * b.v3 + r3 * b.v4));
      t3 = u128 (a.v0 * b.v3 + a.v3 * b.v0 + a.v1 * b.v2 + a.v2 * b.v1 + r4 * b.v4);
      t4 = u128 (a.v0 * b.v4 + a.v4 * b.v0 + a.v3 * b.v1 + a.v1 * b.v3 + a.v2 * b.v2);
    }

-- The products of `fe_sq`.
unfoldable pub sq_wide : Fe → Wide
sq_wide a =
    let d0 = u64 (a.v0 * 2) in
    let d1 = u64 (a.v1 * 2) in
    let d2 = u64 (u64 (a.v2 * 2) * 19) in
    let d419 = u64 (a.v4 * 19) in
    let d4 = u64 (d419 * 2) in
    record {
      t0 = u128 (a.v0 * a.v0 + d4 * a.v1 + d2 * a.v3);
      t1 = u128 (d0 * a.v1 + d4 * a.v2 + a.v3 * u64 (a.v3 * 19));
      t2 = u128 (d0 * a.v2 + a.v1 * a.v1 + d4 * a.v3);
      t3 = u128 (d0 * a.v3 + d1 * a.v2 + a.v4 * d419);
      t4 = u128 (d0 * a.v4 + d1 * a.v3 + a.v2 * a.v2);
    }

-- `t1 += c; ... c = (u64)(t1 >> 51);` and so on, up to `t4`.
unfoldable pub carry_wide : Wide → Wide
carry_wide w =
    let t1 = u128 (w.t1 + u64 (w.t0 >>> 51)) in
    let t2 = u128 (w.t2 + u64 (t1 >>> 51)) in
    let t3 = u128 (w.t3 + u64 (t2 >>> 51)) in
    let t4 = u128 (w.t4 + u64 (t3 >>> 51)) in
    record { t0 = w.t0; t1 = t1; t2 = t2; t3 = t3; t4 = t4 }

-- The low 51 bits of each sum, and the carry out of the last one multiplied by 19.
unfoldable pub fold_top : Wide → Fe
fold_top w =
    let o0 = u64 (bit_and (u64 w.t0) limb_mask + u64 (u64 (w.t4 >>> 51) * 19)) in
    let o1 = u64 (bit_and (u64 w.t1) limb_mask + (o0 >>> 51)) in
    record {
      v0 = bit_and o0 limb_mask;
      v1 = bit_and o1 limb_mask;
      v2 = u64 (bit_and (u64 w.t2) limb_mask + (o1 >>> 51));
      v3 = bit_and (u64 w.t3) limb_mask;
      v4 = bit_and (u64 w.t4) limb_mask;
    }

-- What ends `fe_mul` and, in the same words, `fe_sq`.
unfoldable pub reduce_wide : Wide → Fe
unfolding carry_wide fold_top
reduce_wide w = fold_top (carry_wide w)

unfoldable pub fe_mul : Fe → Fe → Fe
unfolding mul_wide reduce_wide
fe_mul a b = reduce_wide (mul_wide a b)

unfoldable pub fe_sq : Fe → Fe
unfolding sq_wide reduce_wide
fe_sq a = reduce_wide (sq_wide a)

-- `t = sq(t)`, `n` times.
unfoldable pub sq_times : ℕ → Fe → Fe
sq_times zero t = t
sq_times (suc n) t = sq_times n (fe_sq t)

-- The addition chain.
unfoldable pub fe_invert : Fe → Fe
unfolding fe_mul fe_sq sq_times
fe_invert z =
    let z2 = fe_sq z in
    let z9 = fe_mul (sq_times 2 z2) z in
    let z11 = fe_mul z9 z2 in
    let z2_5_0 = fe_mul (fe_sq z11) z9 in
    let z2_10_0 = fe_mul (sq_times 5 z2_5_0) z2_5_0 in
    let z2_20_0 = fe_mul (sq_times 10 z2_10_0) z2_10_0 in
    let z2_40_0 = fe_mul (sq_times 20 z2_20_0) z2_20_0 in
    let z2_50_0 = fe_mul (sq_times 10 z2_40_0) z2_10_0 in
    let z2_100_0 = fe_mul (sq_times 50 z2_50_0) z2_50_0 in
    let z2_200_0 = fe_mul (sq_times 100 z2_100_0) z2_100_0 in
    let z2_250_0 = fe_mul (sq_times 50 z2_200_0) z2_50_0 in fe_mul (sq_times 5 z2_250_0) z11

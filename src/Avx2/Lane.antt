-- ===== src/Avx2/Lane.antt =====
-- src/crypto/fe25519x4.hpp and src/crypto/fe25519x4.cpp: one of the four lanes of the AVX2 field.
-- An intrinsic acts on each 64-bit lane by itself, and so does every operation here.
pub mod Reduce
pub mod Product
pub mod Multiply
use cpp_onion.Base.{
  ℕ, zero, suc, ◌+◌, ◌-◌, ◌*◌, ◌/◌, ◌%◌, ◌^◌, bit_and, List, [], ◌∷◌, get_or, u64, u32, ◌<<<◌,
  ◌>>>◌, ◌==◌, if◌then◌else◌,
}
use cpp_onion.Crypto.Field.{sub64}

-- A lane of `Fe4`: ten limbs, of 26 and 25 bits in turn.
pub record Lane : Type 0 where
  pub v0 : ℕ
  pub v1 : ℕ
  pub v2 : ℕ
  pub v3 : ℕ
  pub v4 : ℕ
  pub v5 : ℕ
  pub v6 : ℕ
  pub v7 : ℕ
  pub v8 : ℕ
  pub v9 : ℕ

-- A lane of the array `t`.
pub record Degree : Type 0 where
  pub t0 : ℕ
  pub t1 : ℕ
  pub t2 : ℕ
  pub t3 : ℕ
  pub t4 : ℕ
  pub t5 : ℕ
  pub t6 : ℕ
  pub t7 : ℕ
  pub t8 : ℕ
  pub t9 : ℕ
  pub t10 : ℕ
  pub t11 : ℕ
  pub t12 : ℕ
  pub t13 : ℕ
  pub t14 : ℕ
  pub t15 : ℕ
  pub t16 : ℕ
  pub t17 : ℕ
  pub t18 : ℕ

abbrev pub mask26 : ℕ
mask26 = 2 ^ 26 - 1

abbrev pub mask25 : ℕ
mask25 = 2 ^ 25 - 1

abbrev pub v_add : ℕ → ℕ → ℕ
v_add a b = u64 (a + b)

-- The low halves are multiplied.
unfoldable pub v_mul : ℕ → ℕ → ℕ
v_mul a b = u32 a * u32 b

abbrev pub v_shl : ℕ → ℕ → ℕ
v_shl a n = u64 (a <<< n)

abbrev pub v_scale : ℕ → ℕ → ℕ
v_scale a k =
    if k == 2
    then v_shl a 1
    else if k == 4
    then v_shl a 2
    else if k == 19
    then v_add (v_add (v_shl a 4) (v_shl a 1)) a
    else v_mul a k

unfoldable pub fproduct : Lane → Lane → Degree
fproduct a b = record {
  t0 = v_mul a.v0 b.v0;
  t1 = v_add (v_mul a.v0 b.v1) (v_mul a.v1 b.v0);
  t2 = v_add (v_scale (v_mul a.v1 b.v1) 2) (v_add (v_mul a.v0 b.v2) (v_mul a.v2 b.v0));
  t3 =
      v_add (v_add (v_mul a.v1 b.v2) (v_mul a.v2 b.v1)) (v_add (v_mul a.v0 b.v3) (v_mul a.v3 b.v0));
  t4 = v_add (v_mul a.v2 b.v2) (
      v_add (v_scale (v_add (v_mul a.v1 b.v3) (v_mul a.v3 b.v1)) 2)
        (v_add (v_mul a.v0 b.v4) (v_mul a.v4 b.v0)));
  t5 = v_add (v_add (v_mul a.v2 b.v3) (v_mul a.v3 b.v2)) (
      v_add (v_add (v_mul a.v1 b.v4) (v_mul a.v4 b.v1))
        (v_add (v_mul a.v0 b.v5) (v_mul a.v5 b.v0)));
  t6 = v_add (v_scale (v_add (v_mul a.v3 b.v3) (v_add (v_mul a.v1 b.v5) (v_mul a.v5 b.v1))) 2) (
      v_add (v_add (v_mul a.v2 b.v4) (v_mul a.v4 b.v2))
        (v_add (v_mul a.v0 b.v6) (v_mul a.v6 b.v0)));
  t7 = v_add (v_add (v_mul a.v3 b.v4) (v_mul a.v4 b.v3)) (
      v_add (v_add (v_mul a.v2 b.v5) (v_mul a.v5 b.v2)) (
        v_add (v_add (v_mul a.v1 b.v6) (v_mul a.v6 b.v1))
          (v_add (v_mul a.v0 b.v7) (v_mul a.v7 b.v0))));
  t8 = v_add (v_mul a.v4 b.v4) (
      v_add
        (v_scale
          (v_add (v_add (v_mul a.v3 b.v5) (v_mul a.v5 b.v3))
            (v_add (v_mul a.v1 b.v7) (v_mul a.v7 b.v1)))
          2)
        (v_add (v_add (v_mul a.v2 b.v6) (v_mul a.v6 b.v2))
          (v_add (v_mul a.v0 b.v8) (v_mul a.v8 b.v0))));
  t9 = v_add (v_add (v_mul a.v4 b.v5) (v_mul a.v5 b.v4)) (
      v_add (v_add (v_mul a.v3 b.v6) (v_mul a.v6 b.v3)) (
        v_add (v_add (v_mul a.v2 b.v7) (v_mul a.v7 b.v2)) (
          v_add (v_add (v_mul a.v1 b.v8) (v_mul a.v8 b.v1))
            (v_add (v_mul a.v0 b.v9) (v_mul a.v9 b.v0)))));
  t10 =
      v_add
        (v_scale
          (v_add (v_mul a.v5 b.v5) (
            v_add (v_add (v_mul a.v3 b.v7) (v_mul a.v7 b.v3))
              (v_add (v_mul a.v1 b.v9) (v_mul a.v9 b.v1))))
          2)
        (v_add (v_add (v_mul a.v4 b.v6) (v_mul a.v6 b.v4))
          (v_add (v_mul a.v2 b.v8) (v_mul a.v8 b.v2)));
  t11 = v_add (v_add (v_mul a.v5 b.v6) (v_mul a.v6 b.v5)) (
      v_add (v_add (v_mul a.v4 b.v7) (v_mul a.v7 b.v4)) (
        v_add (v_add (v_mul a.v3 b.v8) (v_mul a.v8 b.v3))
          (v_add (v_mul a.v2 b.v9) (v_mul a.v9 b.v2))));
  t12 = v_add (v_mul a.v6 b.v6) (
      v_add (v_scale (v_add (v_mul a.v5 b.v7) (v_mul a.v7 b.v5)) 2) (
        v_add (v_scale (v_add (v_mul a.v3 b.v9) (v_mul a.v9 b.v3)) 2)
          (v_add (v_mul a.v4 b.v8) (v_mul a.v8 b.v4))));
  t13 = v_add (v_add (v_mul a.v6 b.v7) (v_mul a.v7 b.v6)) (
      v_add (v_add (v_mul a.v5 b.v8) (v_mul a.v8 b.v5))
        (v_add (v_mul a.v4 b.v9) (v_mul a.v9 b.v4)));
  t14 =
      v_add (v_scale (v_add (v_mul a.v7 b.v7) (v_add (v_mul a.v5 b.v9) (v_mul a.v9 b.v5))) 2)
        (v_add (v_mul a.v6 b.v8) (v_mul a.v8 b.v6));
  t15 =
      v_add (v_add (v_mul a.v7 b.v8) (v_mul a.v8 b.v7)) (v_add (v_mul a.v6 b.v9) (v_mul a.v9 b.v6));
  t16 = v_add (v_mul a.v8 b.v8) (v_scale (v_add (v_mul a.v7 b.v9) (v_mul a.v9 b.v7)) 2);
  t17 = v_add (v_mul a.v8 b.v9) (v_mul a.v9 b.v8);
  t18 = v_scale (v_mul a.v9 b.v9) 2;
}

unfoldable pub fsquare_inner : Lane → Degree
fsquare_inner b = record {
  t0 = v_mul b.v0 b.v0;
  t1 = v_scale (v_mul b.v0 b.v1) 2;
  t2 = v_scale (v_add (v_mul b.v1 b.v1) (v_mul b.v0 b.v2)) 2;
  t3 = v_scale (v_add (v_mul b.v1 b.v2) (v_mul b.v0 b.v3)) 2;
  t4 = v_add (v_mul b.v2 b.v2) (v_add (v_scale (v_mul b.v1 b.v3) 4) (v_scale (v_mul b.v0 b.v4) 2));
  t5 = v_scale (v_add (v_mul b.v2 b.v3) (v_add (v_mul b.v1 b.v4) (v_mul b.v0 b.v5))) 2;
  t6 =
      v_scale
        (v_add (v_mul b.v3 b.v3)
          (v_add (v_mul b.v2 b.v4) (v_add (v_mul b.v0 b.v6) (v_scale (v_mul b.v1 b.v5) 2))))
        2;
  t7 =
      v_scale
        (v_add (v_mul b.v3 b.v4)
          (v_add (v_mul b.v2 b.v5) (v_add (v_mul b.v1 b.v6) (v_mul b.v0 b.v7))))
        2;
  t8 = v_add (v_mul b.v4 b.v4) (
      v_scale
        (v_add (v_mul b.v2 b.v6)
          (v_add (v_mul b.v0 b.v8) (v_scale (v_add (v_mul b.v1 b.v7) (v_mul b.v3 b.v5)) 2)))
        2);
  t9 =
      v_scale
        (v_add (v_mul b.v4 b.v5) (
          v_add (v_mul b.v3 b.v6)
            (v_add (v_mul b.v2 b.v7) (v_add (v_mul b.v1 b.v8) (v_mul b.v0 b.v9)))))
        2;
  t10 =
      v_scale
        (v_add (v_mul b.v5 b.v5) (
          v_add (v_mul b.v4 b.v6)
            (v_add (v_mul b.v2 b.v8) (v_scale (v_add (v_mul b.v3 b.v7) (v_mul b.v1 b.v9)) 2))))
        2;
  t11 =
      v_scale
        (v_add (v_mul b.v5 b.v6)
          (v_add (v_mul b.v4 b.v7) (v_add (v_mul b.v3 b.v8) (v_mul b.v2 b.v9))))
        2;
  t12 =
      v_add (v_mul b.v6 b.v6) (
        v_scale (v_add (v_mul b.v4 b.v8) (v_scale (v_add (v_mul b.v5 b.v7) (v_mul b.v3 b.v9)) 2))
          2);
  t13 = v_scale (v_add (v_mul b.v6 b.v7) (v_add (v_mul b.v5 b.v8) (v_mul b.v4 b.v9))) 2;
  t14 = v_scale (v_add (v_mul b.v7 b.v7) (v_add (v_mul b.v6 b.v8) (v_scale (v_mul b.v5 b.v9) 2))) 2;
  t15 = v_scale (v_add (v_mul b.v7 b.v8) (v_mul b.v6 b.v9)) 2;
  t16 = v_add (v_mul b.v8 b.v8) (v_scale (v_mul b.v7 b.v9) 4);
  t17 = v_scale (v_mul b.v8 b.v9) 2;
  t18 = v_scale (v_mul b.v9 b.v9) 2;
}

unfoldable pub freduce_degree : Degree → Degree
freduce_degree t = record t {
  t0 = v_add t.t0 (v_scale t.t10 19);
  t1 = v_add t.t1 (v_scale t.t11 19);
  t2 = v_add t.t2 (v_scale t.t12 19);
  t3 = v_add t.t3 (v_scale t.t13 19);
  t4 = v_add t.t4 (v_scale t.t14 19);
  t5 = v_add t.t5 (v_scale t.t15 19);
  t6 = v_add t.t6 (v_scale t.t16 19);
  t7 = v_add t.t7 (v_scale t.t17 19);
  t8 = v_add t.t8 (v_scale t.t18 19);
}

-- The carries of `freduce_coefficients`; `t[10]` starts from 0.
unfoldable pub freduce_coefficients : Degree → Lane
freduce_coefficients t =
    let c1 = v_add t.t1 (t.t0 >>> 26) in
    let c2 = v_add t.t2 (c1 >>> 25) in
    let c3 = v_add t.t3 (c2 >>> 26) in
    let c4 = v_add t.t4 (c3 >>> 25) in
    let c5 = v_add t.t5 (c4 >>> 26) in
    let c6 = v_add t.t6 (c5 >>> 25) in
    let c7 = v_add t.t7 (c6 >>> 26) in
    let c8 = v_add t.t8 (c7 >>> 25) in
    let c9 = v_add t.t9 (c8 >>> 26) in
    let c10 = v_add 0 (c9 >>> 25) in
    let c0 = v_add (bit_and t.t0 mask26) (v_scale c10 19) in
    record {
      v0 = bit_and c0 mask26;
      v1 = v_add (bit_and c1 mask25) (c0 >>> 26);
      v2 = bit_and c2 mask26;
      v3 = bit_and c3 mask25;
      v4 = bit_and c4 mask26;
      v5 = bit_and c5 mask25;
      v6 = bit_and c6 mask26;
      v7 = bit_and c7 mask25;
      v8 = bit_and c8 mask26;
      v9 = bit_and c9 mask25;
    }

unfoldable pub lane_mul : Lane → Lane → Lane
unfolding fproduct freduce_degree freduce_coefficients
lane_mul a b = freduce_coefficients (freduce_degree (fproduct a b))

unfoldable pub lane_sq : Lane → Lane
unfolding fsquare_inner freduce_degree freduce_coefficients
lane_sq a = freduce_coefficients (freduce_degree (fsquare_inner a))

-- An array whose entries from 10 on are 0.
abbrev pub low_degree : ℕ → ℕ → ℕ → ℕ → ℕ → ℕ → ℕ → ℕ → ℕ → ℕ → Degree
low_degree a b c d e f g h i j = record {
  t0 = a;
  t1 = b;
  t2 = c;
  t3 = d;
  t4 = e;
  t5 = f;
  t6 = g;
  t7 = h;
  t8 = i;
  t9 = j;
  t10 = 0;
  t11 = 0;
  t12 = 0;
  t13 = 0;
  t14 = 0;
  t15 = 0;
  t16 = 0;
  t17 = 0;
  t18 = 0;
}

unfoldable pub lane_add : Lane → Lane → Lane
unfolding freduce_coefficients
lane_add a b = freduce_coefficients (
    low_degree (v_add a.v0 b.v0) (v_add a.v1 b.v1) (v_add a.v2 b.v2) (v_add a.v3 b.v3)
      (v_add a.v4 b.v4) (v_add a.v5 b.v5) (v_add a.v6 b.v6) (v_add a.v7 b.v7) (v_add a.v8 b.v8)
      (v_add a.v9 b.v9))

-- `a + bias - b` of a limb.
abbrev pub biased_limb : ℕ → ℕ → ℕ → ℕ
biased_limb p a b = v_add (v_add a (8 * p)) (sub64 0 b)

unfoldable pub lane_sub : Lane → Lane → Lane
unfolding freduce_coefficients
lane_sub a b = freduce_coefficients (
    low_degree (biased_limb 0x3ffffed a.v0 b.v0) (biased_limb 0x1ffffff a.v1 b.v1)
      (biased_limb 0x3ffffff a.v2 b.v2) (biased_limb 0x1ffffff a.v3 b.v3)
      (biased_limb 0x3ffffff a.v4 b.v4) (biased_limb 0x1ffffff a.v5 b.v5)
      (biased_limb 0x3ffffff a.v6 b.v6) (biased_limb 0x1ffffff a.v7 b.v7)
      (biased_limb 0x3ffffff a.v8 b.v8) (biased_limb 0x1ffffff a.v9 b.v9))

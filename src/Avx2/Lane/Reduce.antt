-- ===== src/Avx2/Lane/Reduce.antt =====
-- The carries of a lane keep its value modulo the prime and reduce the limbs.
use cpp_onion.Base.{ℕ, ◌+◌, ◌*◌, ◌%◌, ◌^◌, ◌<◌, ◌≤◌, ◌≡◌, arith, bit_and}
use cpp_onion.Base.Digits.{bit_and-ones}
use cpp_onion.Crypto.Field.Value.{prime, ◌≅◌}
use cpp_onion.Avx2.Lane.{
  Lane, Degree, mask26, mask25, freduce_coefficients, low_degree, biased_limb, v_add, lane_add,
  lane_sub,
}

abbrev pub lane_value : Lane → ℕ
lane_value f =
    f.v0
    + 2 ^ 26 * f.v1
    + 2 ^ 51 * f.v2
    + 2 ^ 77 * f.v3
    + 2 ^ 102 * f.v4
    + 2 ^ 128 * f.v5
    + 2 ^ 153 * f.v6
    + 2 ^ 179 * f.v7
    + 2 ^ 204 * f.v8
    + 2 ^ 230 * f.v9

-- The ten lower entries.
abbrev pub low_value : Degree → ℕ
low_value t =
    t.t0
    + 2 ^ 26 * t.t1
    + 2 ^ 51 * t.t2
    + 2 ^ 77 * t.t3
    + 2 ^ 102 * t.t4
    + 2 ^ 128 * t.t5
    + 2 ^ 153 * t.t6
    + 2 ^ 179 * t.t7
    + 2 ^ 204 * t.t8
    + 2 ^ 230 * t.t9

-- Entries that the carries can take.
pub record IsSmall (t : Degree) : Type 0 where
  pub s0 : t.t0 < 2 ^ 63
  pub s1 : t.t1 < 2 ^ 63
  pub s2 : t.t2 < 2 ^ 63
  pub s3 : t.t3 < 2 ^ 63
  pub s4 : t.t4 < 2 ^ 63
  pub s5 : t.t5 < 2 ^ 63
  pub s6 : t.t6 < 2 ^ 63
  pub s7 : t.t7 < 2 ^ 63
  pub s8 : t.t8 < 2 ^ 63
  pub s9 : t.t9 < 2 ^ 63

-- What the operations give back.
pub record IsReduced (f : Lane) : Type 0 where
  pub r0 : f.v0 < 2 ^ 26
  pub r1 : f.v1 < 2 ^ 25 + 2 ^ 18
  pub r2 : f.v2 < 2 ^ 26
  pub r3 : f.v3 < 2 ^ 25
  pub r4 : f.v4 < 2 ^ 26
  pub r5 : f.v5 < 2 ^ 25
  pub r6 : f.v6 < 2 ^ 26
  pub r7 : f.v7 < 2 ^ 25
  pub r8 : f.v8 < 2 ^ 26
  pub r9 : f.v9 < 2 ^ 25

mask26_lem : (x : ℕ) → bit_and x mask26 ≡ x % 2 ^ 26
mask26_lem x = bit_and-ones 26 x

mask25_lem : (x : ℕ) → bit_and x mask25 ≡ x % 2 ^ 25
mask25_lem x = bit_and-ones 25 x

-- The carries of freduce_coefficients, without words that wrap.
pub freduce_coefficients_lem :
    (t : Degree)
    → IsSmall t
    → (lane_value (freduce_coefficients t) ≅ low_value t) × IsReduced (freduce_coefficients t)
unfolding freduce_coefficients
freduce_coefficients_lem t h =
    (omega (arith, mask26_lem, mask25_lem), omega (arith, mask26_lem, mask25_lem))

abbrev added : Lane → Lane → Degree
added a b =
    low_degree (v_add a.v0 b.v0) (v_add a.v1 b.v1) (v_add a.v2 b.v2) (v_add a.v3 b.v3)
      (v_add a.v4 b.v4) (v_add a.v5 b.v5) (v_add a.v6 b.v6) (v_add a.v7 b.v7) (v_add a.v8 b.v8)
      (v_add a.v9 b.v9)

-- The sum of reduced lanes.
lane_add_lem :
    (a b : Lane)
    → IsReduced a
    → IsReduced b
    → (lane_value (lane_add a b) ≅ lane_value a + lane_value b) × IsReduced (lane_add a b)
unfolding lane_add
lane_add_lem a b ha hb =
    let (e, r) = freduce_coefficients_lem (added a b) (omega (arith, ha, hb)) in
    let sum : low_value (added a b) ≡ lane_value a + lane_value b = omega (arith, ha, hb) in
    (omega (arith, e, sum), r)

abbrev subtracted : Lane → Lane → Degree
subtracted a b =
    low_degree (biased_limb 0x3ffffed a.v0 b.v0) (biased_limb 0x1ffffff a.v1 b.v1)
      (biased_limb 0x3ffffff a.v2 b.v2) (biased_limb 0x1ffffff a.v3 b.v3)
      (biased_limb 0x3ffffff a.v4 b.v4) (biased_limb 0x1ffffff a.v5 b.v5)
      (biased_limb 0x3ffffff a.v6 b.v6) (biased_limb 0x1ffffff a.v7 b.v7)
      (biased_limb 0x3ffffff a.v8 b.v8) (biased_limb 0x1ffffff a.v9 b.v9)

-- A limb with its bias covers what is subtracted.
biased_lem :
    (p a b : ℕ)
    → 0x1ffffff ≤ p
    → p < 2 ^ 26
    → a < 2 ^ 27
    → b < 2 ^ 27
    → biased_limb p a b + b ≡ a + 8 * p
biased_lem p a b hp hp' ha hb = omega (arith, hp, hp', ha, hb)

-- The entries of `t` are those of `a` with the bias, less those of `b`.
record IsDifference (a b : Lane) (t : Degree) : Type 0 where
  d0 : t.t0 + b.v0 ≡ a.v0 + 8 * 0x3ffffed
  d1 : t.t1 + b.v1 ≡ a.v1 + 8 * 0x1ffffff
  d2 : t.t2 + b.v2 ≡ a.v2 + 8 * 0x3ffffff
  d3 : t.t3 + b.v3 ≡ a.v3 + 8 * 0x1ffffff
  d4 : t.t4 + b.v4 ≡ a.v4 + 8 * 0x3ffffff
  d5 : t.t5 + b.v5 ≡ a.v5 + 8 * 0x1ffffff
  d6 : t.t6 + b.v6 ≡ a.v6 + 8 * 0x3ffffff
  d7 : t.t7 + b.v7 ≡ a.v7 + 8 * 0x1ffffff
  d8 : t.t8 + b.v8 ≡ a.v8 + 8 * 0x3ffffff
  d9 : t.t9 + b.v9 ≡ a.v9 + 8 * 0x1ffffff

difference_value :
    (a b : Lane) (t : Degree)
    → IsDifference a b t
    → low_value t + lane_value b ≡ lane_value a + 8 * prime
difference_value a b t h = omega (arith, h)

difference-IsSmall : (a b : Lane) (t : Degree) → IsDifference a b t → IsReduced a → IsSmall t
difference-IsSmall a b t h ha = omega (arith, h, ha)

subtracted-IsDifference :
    (a b : Lane) → IsReduced a → IsReduced b → IsDifference a b (subtracted a b)
subtracted-IsDifference a b ha hb = record {
  d0 =
      biased_lem 0x3ffffed a.v0 b.v0 (omega arith) (omega arith) (let h = ha.r0 in omega (arith, h))
        (let h = hb.r0 in omega (arith, h));
  d1 =
      biased_lem 0x1ffffff a.v1 b.v1 (omega arith) (omega arith) (let h = ha.r1 in omega (arith, h))
        (let h = hb.r1 in omega (arith, h));
  d2 =
      biased_lem 0x3ffffff a.v2 b.v2 (omega arith) (omega arith) (let h = ha.r2 in omega (arith, h))
        (let h = hb.r2 in omega (arith, h));
  d3 =
      biased_lem 0x1ffffff a.v3 b.v3 (omega arith) (omega arith) (let h = ha.r3 in omega (arith, h))
        (let h = hb.r3 in omega (arith, h));
  d4 =
      biased_lem 0x3ffffff a.v4 b.v4 (omega arith) (omega arith) (let h = ha.r4 in omega (arith, h))
        (let h = hb.r4 in omega (arith, h));
  d5 =
      biased_lem 0x1ffffff a.v5 b.v5 (omega arith) (omega arith) (let h = ha.r5 in omega (arith, h))
        (let h = hb.r5 in omega (arith, h));
  d6 =
      biased_lem 0x3ffffff a.v6 b.v6 (omega arith) (omega arith) (let h = ha.r6 in omega (arith, h))
        (let h = hb.r6 in omega (arith, h));
  d7 =
      biased_lem 0x1ffffff a.v7 b.v7 (omega arith) (omega arith) (let h = ha.r7 in omega (arith, h))
        (let h = hb.r7 in omega (arith, h));
  d8 =
      biased_lem 0x3ffffff a.v8 b.v8 (omega arith) (omega arith) (let h = ha.r8 in omega (arith, h))
        (let h = hb.r8 in omega (arith, h));
  d9 =
      biased_lem 0x1ffffff a.v9 b.v9 (omega arith) (omega arith) (let h = ha.r9 in omega (arith, h))
        (let h = hb.r9 in omega (arith, h));
}

difference_cong : (r t b a : ℕ) → r ≅ t → t + b ≡ a + 8 * prime → r + b ≅ a
difference_cong r t b a e d = omega (arith, e, d)

-- The difference of reduced lanes.
lane_sub_lem :
    (a b : Lane)
    → IsReduced a
    → IsReduced b
    → (lane_value (lane_sub a b) + lane_value b ≅ lane_value a) × IsReduced (lane_sub a b)
unfolding lane_sub
lane_sub_lem a b ha hb =
    let t = subtracted a b in
    let d = subtracted-IsDifference a b ha hb in
    let (e, r) = freduce_coefficients_lem t (difference-IsSmall a b t d ha) in
    (difference_cong (lane_value (lane_sub a b)) (low_value t) _ _ e (difference_value a b t d), r)

-- ===== src/Avx2/Store/Carry.antt =====
-- The carries of `contract`: the passes over negative limbs change nothing, the two others settle
-- the limbs.
use cpp_onion.Base.{ℕ, ◌+◌, ◌*◌, ◌/◌, ◌%◌, ◌^◌, ◌<◌, ◌≤◌, ◌≡◌, refl, ap, ◌∙◌, arith, u32}
use cpp_onion.Crypto.Field.Value.{prime, ◌≅◌}
use cpp_onion.Avx2.Lane.{Lane}
use cpp_onion.Avx2.Lane.Reduce.{lane_value, IsReduced}
use cpp_onion.Avx2.Store.{negative_step, carry_step, pass, first_step, cast}
use cpp_onion.Avx2.Store.Words.{negative_step-id, carry_step-26, carry_step-25, carry_step-top}

-- Limbs far from the sign bit.
record IsLow (f : Lane) : Type 0 where
  q0 : f.v0 < 2 ^ 28
  q1 : f.v1 < 2 ^ 28
  q2 : f.v2 < 2 ^ 28
  q3 : f.v3 < 2 ^ 28
  q4 : f.v4 < 2 ^ 28
  q5 : f.v5 < 2 ^ 28
  q6 : f.v6 < 2 ^ 28
  q7 : f.v7 < 2 ^ 28
  q8 : f.v8 < 2 ^ 28
  q9 : f.v9 < 2 ^ 28

reduced-IsLow : (f : Lane) → IsReduced f → IsLow f
reduced-IsLow f h = omega (arith, h)

negative_pass-id : (f : Lane) → IsLow f → pass negative_step f ≡ f
unfolding pass
negative_pass-id f h =
    rw
      (
        negative_step-id 26 1 f.v0 f.v1 (omega (arith, h.q0)) (omega (arith, h.q1)),
        negative_step-id 25 1 f.v1 f.v2 (omega (arith, h.q1)) (omega (arith, h.q2)),
        negative_step-id 26 1 f.v2 f.v3 (omega (arith, h.q2)) (omega (arith, h.q3)),
        negative_step-id 25 1 f.v3 f.v4 (omega (arith, h.q3)) (omega (arith, h.q4)),
        negative_step-id 26 1 f.v4 f.v5 (omega (arith, h.q4)) (omega (arith, h.q5)),
        negative_step-id 25 1 f.v5 f.v6 (omega (arith, h.q5)) (omega (arith, h.q6)),
        negative_step-id 26 1 f.v6 f.v7 (omega (arith, h.q6)) (omega (arith, h.q7)),
        negative_step-id 25 1 f.v7 f.v8 (omega (arith, h.q7)) (omega (arith, h.q8)),
        negative_step-id 26 1 f.v8 f.v9 (omega (arith, h.q8)) (omega (arith, h.q9)),
        negative_step-id 25 19 f.v9 f.v0 (omega (arith, h.q9)) (omega (arith, h.q0)),
      )
      refl

word_id : (x : ℕ) → x < 2 ^ 28 → u32 x ≡ x
word_id x h = omega (arith, h)

cast-id : (f : Lane) → IsLow f → cast f ≡ f
cast-id f h =
    rw
      (
        word_id f.v0 h.q0,
        word_id f.v1 h.q1,
        word_id f.v2 h.q2,
        word_id f.v3 h.q3,
        word_id f.v4 h.q4,
        word_id f.v5 h.q5,
        word_id f.v6 h.q6,
        word_id f.v7 h.q7,
        word_id f.v8 h.q8,
        word_id f.v9 h.q9,
      )
      refl

first_step-id : (f : Lane) → IsLow f → first_step f ≡ f
unfolding first_step
first_step-id f h =
    rw (negative_step-id 26 1 f.v0 f.v1 (omega (arith, h.q0)) (omega (arith, h.q1))) refl

-- What precedes the two passes leaves reduced limbs alone.
pub settled_lem :
    (f : Lane) → IsReduced f → first_step (pass negative_step (pass negative_step (cast f))) ≡ f
settled_lem f r =
    let h = reduced-IsLow f r in
    rw (cast-id f h, negative_pass-id f h, negative_pass-id f h) (first_step-id f h)

-- The limbs with what is carried into them.
abbrev c1 : Lane → ℕ
c1 f = f.v1 + f.v0 / 2 ^ 26

abbrev c2 : Lane → ℕ
c2 f = f.v2 + c1 f / 2 ^ 25

abbrev c3 : Lane → ℕ
c3 f = f.v3 + c2 f / 2 ^ 26

abbrev c4 : Lane → ℕ
c4 f = f.v4 + c3 f / 2 ^ 25

abbrev c5 : Lane → ℕ
c5 f = f.v5 + c4 f / 2 ^ 26

abbrev c6 : Lane → ℕ
c6 f = f.v6 + c5 f / 2 ^ 25

abbrev c7 : Lane → ℕ
c7 f = f.v7 + c6 f / 2 ^ 26

abbrev c8 : Lane → ℕ
c8 f = f.v8 + c7 f / 2 ^ 25

abbrev c9 : Lane → ℕ
c9 f = f.v9 + c8 f / 2 ^ 26

-- A pass, without words that wrap.
abbrev carried : Lane → Lane
carried f = record {
  v0 = f.v0 % 2 ^ 26 + 19 * (c9 f / 2 ^ 25);
  v1 = c1 f % 2 ^ 25;
  v2 = c2 f % 2 ^ 26;
  v3 = c3 f % 2 ^ 25;
  v4 = c4 f % 2 ^ 26;
  v5 = c5 f % 2 ^ 25;
  v6 = c6 f % 2 ^ 26;
  v7 = c7 f % 2 ^ 25;
  v8 = c8 f % 2 ^ 26;
  v9 = c9 f % 2 ^ 25;
}

carry_pass_lem : (f : Lane) → IsLow f → pass carry_step f ≡ carried f
unfolding pass
carry_pass_lem f h =
    rw
      (
        carry_step-26 f.v0 f.v1 (omega (arith, h)) (omega (arith, h)),
        carry_step-25 (c1 f) f.v2 (omega (arith, h)) (omega (arith, h)),
        carry_step-26 (c2 f) f.v3 (omega (arith, h)) (omega (arith, h)),
        carry_step-25 (c3 f) f.v4 (omega (arith, h)) (omega (arith, h)),
        carry_step-26 (c4 f) f.v5 (omega (arith, h)) (omega (arith, h)),
        carry_step-25 (c5 f) f.v6 (omega (arith, h)) (omega (arith, h)),
        carry_step-26 (c6 f) f.v7 (omega (arith, h)) (omega (arith, h)),
        carry_step-25 (c7 f) f.v8 (omega (arith, h)) (omega (arith, h)),
        carry_step-26 (c8 f) f.v9 (omega (arith, h)) (omega (arith, h)),
        carry_step-top (c9 f) (f.v0 % 2 ^ 26) (omega (arith, h)) (omega (arith, h)),
      )
      refl

-- `g` is `f` after a pass that brings `q` around.
record IsCarried (f g : Lane) (q : ℕ) : Type 0 where
  total : lane_value g + 2 ^ 255 * q ≡ lane_value f + 19 * q
  low : 19 * q ≤ g.v0
  m0 : g.v0 < 2 ^ 26 + 19 * q
  m1 : g.v1 < 2 ^ 25
  m2 : g.v2 < 2 ^ 26
  m3 : g.v3 < 2 ^ 25
  m4 : g.v4 < 2 ^ 26
  m5 : g.v5 < 2 ^ 25
  m6 : g.v6 < 2 ^ 26
  m7 : g.v7 < 2 ^ 25
  m8 : g.v8 < 2 ^ 26
  m9 : g.v9 < 2 ^ 25

carried-IsCarried : (f : Lane) → IsCarried f (carried f) (c9 f / 2 ^ 25)
carried-IsCarried f = omega arith

-- Limbs within their widths.
pub record IsMasked (f : Lane) : Type 0 where
  pub m0 : f.v0 < 2 ^ 26
  pub m1 : f.v1 < 2 ^ 25
  pub m2 : f.v2 < 2 ^ 26
  pub m3 : f.v3 < 2 ^ 25
  pub m4 : f.v4 < 2 ^ 26
  pub m5 : f.v5 < 2 ^ 25
  pub m6 : f.v6 < 2 ^ 26
  pub m7 : f.v7 < 2 ^ 25
  pub m8 : f.v8 < 2 ^ 26
  pub m9 : f.v9 < 2 ^ 25

reduced_value_lt : (f : Lane) → IsReduced f → lane_value f < 2 ^ 255 + 2 ^ 45
reduced_value_lt f r = omega (arith, r)

carried_value_lt :
    (f g : Lane) (q : ℕ)
    → IsCarried f g q
    → (lane_value g < 2 ^ 255 + 19 * q) × (19 * q ≤ lane_value g)
carried_value_lt f g q h = omega (arith, h)

once_numbers :
    (f g q : ℕ)
    → f < 2 ^ 255 + 2 ^ 45
    → g < 2 ^ 255 + 19 * q
    → 19 * q ≤ g
    → g + 2 ^ 255 * q ≡ f + 19 * q
    → (g < 2 ^ 255) × (g ≅ f)
once_numbers f g q hf hg low e =
    let few : q ≤ 1 = omega (arith, hf, low, e) in
    (omega (arith, few, hf, hg, low, e), omega (arith, few, e))

-- After a pass the value is below 2^255.
once_lem :
    (f g : Lane) (q : ℕ)
    → IsCarried f g q
    → IsReduced f
    → (lane_value g < 2 ^ 255) × (lane_value g ≅ lane_value f)
once_lem f g q h r =
    let (lt, low) = carried_value_lt f g q h in
    once_numbers (lane_value f) (lane_value g) q (reduced_value_lt f r) lt low h.total

IsMasked-of_carried : (g k : Lane) (q : ℕ) → IsCarried g k q → q ≡ 0 → IsMasked k
IsMasked-of_carried g k q h e = omega (arith, h, e)

nothing_around : (g k q : ℕ) → g < 2 ^ 255 → 19 * q ≤ k → k + 2 ^ 255 * q ≡ g + 19 * q → q ≡ 0
nothing_around g k q lt low e = omega (arith, lt, low, e)

total_eq : (g k q : ℕ) → q ≡ 0 → k + 2 ^ 255 * q ≡ g + 19 * q → k ≡ g
total_eq g k q z e = omega (arith, z, e)

-- A pass from below 2^255 only settles the limbs.
again_lem :
    (g k : Lane) (q : ℕ)
    → IsCarried g k q
    → lane_value g < 2 ^ 255
    → IsMasked k × (lane_value k ≡ lane_value g)
again_lem g k q h lt =
    let low = (carried_value_lt g k q h).1 in
    let done : q ≡ 0 = nothing_around (lane_value g) (lane_value k) q lt low h.total in
    (IsMasked-of_carried g k q h done, total_eq (lane_value g) (lane_value k) q done h.total)

carried-IsLow : (f : Lane) → IsReduced f → IsLow (carried f)
carried-IsLow f r = omega (arith, r)

-- Two passes over reduced limbs keep the value modulo the prime.
pub carries_lem :
    (f : Lane)
    → IsReduced f
    → let k = pass carry_step (pass carry_step f) in IsMasked k × (lane_value k ≅ lane_value f)
carries_lem f r =
    let g = carried f in
    let (lt, same) = once_lem f g (c9 f / 2 ^ 25) (carried-IsCarried f) r in
    let (masked, same') = again_lem g (carried g) (c9 g / 2 ^ 25) (carried-IsCarried g) lt in
    rw (carry_pass_lem f (reduced-IsLow f r), carry_pass_lem g (carried-IsLow f r))
      (masked, ap (λ (n : ℕ). n % prime) same' ∙ same)

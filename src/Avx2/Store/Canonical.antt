-- ===== src/Avx2/Store/Canonical.antt =====
-- The least residue: the prime comes off once where it can.
use native.Mathlib.Nat.{mod-eq_of_lt}
use mathlib.Core.Bool.{false≢true}
use cpp_onion.Base.{
  ℕ, ◌-◌, ◌%◌, ◌^◌, ◌<◌, ◌≤◌, ◌≡◌, ◌⊎◌, refl, sym, ◌∙◌, arith, leb, ◌==◌, ◌&&◌, Bool, true, false,
  Bool-cases, inl, inr, bit_and, leb→le, ==_iff, if◌then◌else◌,
}
use cpp_onion.Crypto.Field.Value.{prime}
use cpp_onion.Avx2.Lane.{Lane, mask26, mask25}
use cpp_onion.Avx2.Lane.Reduce.{lane_value, IsReduced}
use cpp_onion.Avx2.Store.{
  s32_gte, prime_mask, masked_subtract, canonical_limbs, sub32, pass, carry_step,
}
use cpp_onion.Avx2.Store.Words.{s32_gte-mask}
use cpp_onion.Avx2.Store.Equal.{s32_eq-mask}
use cpp_onion.Avx2.Store.Carry.{IsMasked, settled_lem, carries_lem}

abbrev mask_of : Bool → ℕ
mask_of b = if b then 2 ^ 32 - 1 else 0

bit_and-mask_of : (a b : Bool) → bit_and (mask_of a) (mask_of b) ≡ mask_of (a && b)
bit_and-mask_of true true = refl
bit_and-mask_of true false = refl
bit_and-mask_of false true = refl
bit_and-mask_of false false = refl

meet : {m n : ℕ} (a b : Bool) → m ≡ mask_of a → n ≡ mask_of b → bit_and m n ≡ mask_of (a && b)
meet a b ha hb = rw (ha, hb) (bit_and-mask_of a b)

s32_gte_lem : (x y : ℕ) → x < 2 ^ 31 → y < 2 ^ 31 → s32_gte x y ≡ mask_of (leb y x)
s32_gte_lem x y hx hy = s32_gte-mask x y hx hy ∙ ground arith

-- The limbs are those of a number not below the prime.
abbrev at_prime : Lane → Bool
at_prime f =
    (((((((((leb 0x3ffffed f.v0) && (f.v1 == mask25)) && (f.v2 == mask26)) && (f.v3 == mask25))
              && (f.v4 == mask26))
            && (f.v5 == mask25))
          && (f.v6 == mask26))
        && (f.v7 == mask25))
      && (f.v8 == mask26))
    && (f.v9 == mask25)

prime_mask_lem : (f : Lane) → IsMasked f → prime_mask f ≡ mask_of (at_prime f)
unfolding prime_mask
prime_mask_lem f h =
    meet
      (((((((((leb 0x3ffffed f.v0) && (f.v1 == mask25)) && (f.v2 == mask26)) && (f.v3 == mask25))
                && (f.v4 == mask26))
              && (f.v5 == mask25))
            && (f.v6 == mask26))
          && (f.v7 == mask25))
        && (f.v8 == mask26))
      (f.v9 == mask25)
      (meet
        ((((((((leb 0x3ffffed f.v0) && (f.v1 == mask25)) && (f.v2 == mask26)) && (f.v3 == mask25))
                && (f.v4 == mask26))
              && (f.v5 == mask25))
            && (f.v6 == mask26))
          && (f.v7 == mask25))
        (f.v8 == mask26)
        (meet
          (((((((leb 0x3ffffed f.v0) && (f.v1 == mask25)) && (f.v2 == mask26)) && (f.v3 == mask25))
                && (f.v4 == mask26))
              && (f.v5 == mask25))
            && (f.v6 == mask26))
          (f.v7 == mask25)
          (meet
            ((((((leb 0x3ffffed f.v0) && (f.v1 == mask25)) && (f.v2 == mask26)) && (f.v3 == mask25))
                && (f.v4 == mask26))
              && (f.v5 == mask25))
            (f.v6 == mask26)
            (meet
              (((((leb 0x3ffffed f.v0) && (f.v1 == mask25)) && (f.v2 == mask26))
                  && (f.v3 == mask25))
                && (f.v4 == mask26))
              (f.v5 == mask25)
              (meet
                ((((leb 0x3ffffed f.v0) && (f.v1 == mask25)) && (f.v2 == mask26))
                  && (f.v3 == mask25))
                (f.v4 == mask26)
                (meet (((leb 0x3ffffed f.v0) && (f.v1 == mask25)) && (f.v2 == mask26))
                  (f.v3 == mask25)
                  (meet ((leb 0x3ffffed f.v0) && (f.v1 == mask25)) (f.v2 == mask26)
                    (meet (leb 0x3ffffed f.v0) (f.v1 == mask25)
                      (s32_gte_lem f.v0 0x3ffffed (omega (arith, h.m0)) (omega arith))
                      (s32_eq-mask f.v1 mask25 (omega (arith, h.m1)) (omega arith)))
                    (s32_eq-mask f.v2 mask26 (omega (arith, h.m2)) (omega arith)))
                  (s32_eq-mask f.v3 mask25 (omega (arith, h.m3)) (omega arith)))
                (s32_eq-mask f.v4 mask26 (omega (arith, h.m4)) (omega arith)))
              (s32_eq-mask f.v5 mask25 (omega (arith, h.m5)) (omega arith)))
            (s32_eq-mask f.v6 mask26 (omega (arith, h.m6)) (omega arith)))
          (s32_eq-mask f.v7 mask25 (omega (arith, h.m7)) (omega arith)))
        (s32_eq-mask f.v8 mask26 (omega (arith, h.m8)) (omega arith)))
      (s32_eq-mask f.v9 mask25 (omega (arith, h.m9)) (omega arith))

-- The limbs of a number from the prime to 2^255.
record IsTop (f : Lane) : Type 0 where
  p0 : 0x3ffffed ≤ f.v0
  p1 : f.v1 ≡ mask25
  p2 : f.v2 ≡ mask26
  p3 : f.v3 ≡ mask25
  p4 : f.v4 ≡ mask26
  p5 : f.v5 ≡ mask25
  p6 : f.v6 ≡ mask26
  p7 : f.v7 ≡ mask25
  p8 : f.v8 ≡ mask26
  p9 : f.v9 ≡ mask25

top-ge : (f : Lane) → IsTop f → prime ≤ lane_value f
top-ge f t = omega (arith, t)

ge-IsTop : (f : Lane) → IsMasked f → prime ≤ lane_value f → IsTop f
ge-IsTop f h le = omega (arith, h, le)

and_true : (a b : Bool) → a && b ≡ true → (a ≡ true) × (b ≡ true)
and_true true true e = (refl, refl)
and_true true false e = absurd (false≢true e)
and_true false b e = absurd (false≢true e)

at_prime-IsTop : (f : Lane) → at_prime f ≡ true → IsTop f
at_prime-IsTop f e =
    let (h9', h9) =
      and_true
        (((((((((leb 0x3ffffed f.v0) && (f.v1 == mask25)) && (f.v2 == mask26)) && (f.v3 == mask25))
                  && (f.v4 == mask26))
                && (f.v5 == mask25))
              && (f.v6 == mask26))
            && (f.v7 == mask25))
          && (f.v8 == mask26))
        (f.v9 == mask25) e in
    let (h8', h8) =
      and_true
        ((((((((leb 0x3ffffed f.v0) && (f.v1 == mask25)) && (f.v2 == mask26)) && (f.v3 == mask25))
                && (f.v4 == mask26))
              && (f.v5 == mask25))
            && (f.v6 == mask26))
          && (f.v7 == mask25))
        (f.v8 == mask26) h9' in
    let (h7', h7) =
      and_true
        (((((((leb 0x3ffffed f.v0) && (f.v1 == mask25)) && (f.v2 == mask26)) && (f.v3 == mask25))
              && (f.v4 == mask26))
            && (f.v5 == mask25))
          && (f.v6 == mask26))
        (f.v7 == mask25) h8' in
    let (h6', h6) =
      and_true
        ((((((leb 0x3ffffed f.v0) && (f.v1 == mask25)) && (f.v2 == mask26)) && (f.v3 == mask25))
            && (f.v4 == mask26))
          && (f.v5 == mask25))
        (f.v6 == mask26) h7' in
    let (h5', h5) =
      and_true
        (((((leb 0x3ffffed f.v0) && (f.v1 == mask25)) && (f.v2 == mask26)) && (f.v3 == mask25))
          && (f.v4 == mask26))
        (f.v5 == mask25) h6' in
    let (h4', h4) =
      and_true
        ((((leb 0x3ffffed f.v0) && (f.v1 == mask25)) && (f.v2 == mask26)) && (f.v3 == mask25))
        (f.v4 == mask26) h5' in
    let (h3', h3) =
      and_true (((leb 0x3ffffed f.v0) && (f.v1 == mask25)) && (f.v2 == mask26)) (f.v3 == mask25)
        h4' in
    let (h2', h2) = and_true ((leb 0x3ffffed f.v0) && (f.v1 == mask25)) (f.v2 == mask26) h3' in
    let (h1', h1) = and_true (leb 0x3ffffed f.v0) (f.v1 == mask25) h2' in
    record {
      p0 = leb→le 0x3ffffed f.v0 h1';
      p1 = (==_iff f.v1 mask25).0 h1;
      p2 = (==_iff f.v2 mask26).0 h2;
      p3 = (==_iff f.v3 mask25).0 h3;
      p4 = (==_iff f.v4 mask26).0 h4;
      p5 = (==_iff f.v5 mask25).0 h5;
      p6 = (==_iff f.v6 mask26).0 h6;
      p7 = (==_iff f.v7 mask25).0 h7;
      p8 = (==_iff f.v8 mask26).0 h8;
      p9 = (==_iff f.v9 mask25).0 h9;
    }

le→leb : (a b : ℕ) → a ≤ b → leb a b ≡ true
le→leb a b h = ground arith

top-at_prime : (f : Lane) → IsTop f → at_prime f ≡ true
top-at_prime f t =
    rw
      (
        le→leb 0x3ffffed f.v0 t.p0,
        (==_iff f.v1 mask25).1 t.p1,
        (==_iff f.v2 mask26).1 t.p2,
        (==_iff f.v3 mask25).1 t.p3,
        (==_iff f.v4 mask26).1 t.p4,
        (==_iff f.v5 mask25).1 t.p5,
        (==_iff f.v6 mask26).1 t.p6,
        (==_iff f.v7 mask25).1 t.p7,
        (==_iff f.v8 mask26).1 t.p8,
        (==_iff f.v9 mask25).1 t.p9,
      )
      refl

le_or_lt : (a b : ℕ) → (a ≤ b) ⊎ (b < a)
le_or_lt a b = ground arith

below_prime : (f : Lane) → IsMasked f → at_prime f ≡ false → lane_value f < prime
below_prime f h e = elim (le_or_lt prime (lane_value f)) [
  | inl le ↦ absurd (false≢true (sym e ∙ top-at_prime f (ge-IsTop f h le)))
  | inr lt ↦ lt
]

keep_word : (x : ℕ) → x < 2 ^ 26 → sub32 x 0 ≡ x
keep_word x h = omega (arith, h)

-- What is left after the subtraction.
subtract_lem :
    (f : Lane)
    → IsMasked f
    → let g = masked_subtract (prime_mask f) f in IsMasked g × (lane_value g ≡ lane_value f % prime)
unfolding masked_subtract
subtract_lem f h = elim (Bool-cases (at_prime f)) [
  | inl yes' ↦
      let t = at_prime-IsTop f yes' in
      rw (prime_mask_lem f h, yes') (omega (arith, t, h), omega (arith, t, h))
  | inr no' ↦
      rw
        (
          prime_mask_lem f h,
          no',
          keep_word f.v0 (omega (arith, h.m0)),
          keep_word f.v1 (omega (arith, h.m1)),
          keep_word f.v2 (omega (arith, h.m2)),
          keep_word f.v3 (omega (arith, h.m3)),
          keep_word f.v4 (omega (arith, h.m4)),
          keep_word f.v5 (omega (arith, h.m5)),
          keep_word f.v6 (omega (arith, h.m6)),
          keep_word f.v7 (omega (arith, h.m7)),
          keep_word f.v8 (omega (arith, h.m8)),
          keep_word f.v9 (omega (arith, h.m9)),
        )
        (h, sym (mod-eq_of_lt (below_prime f h no')))
]

-- The limbs of the least residue of a reduced lane.
pub canonical_lem :
    (f : Lane)
    → IsReduced f
    → IsMasked (canonical_limbs f) × (lane_value (canonical_limbs f) ≡ lane_value f % prime)
unfolding canonical_limbs
canonical_lem f r =
    let g = pass carry_step (pass carry_step f) in
    let (masked, same) = carries_lem f r in
    let (masked', least) = subtract_lem g masked in rw (settled_lem f r) (masked', least ∙ same)

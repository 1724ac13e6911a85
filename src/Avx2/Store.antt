-- ===== src/Avx2/Store.antt =====
-- src/crypto/fe25519x4.cpp: what `fe4_load` and `fe4_store_y` do with one lane, the lambdas `expand`
-- and `contract`. A `std::int32_t` is its two's complement word of 32 bits.
pub mod Words
pub mod Equal
pub mod Carry
pub mod Canonical
pub mod Bytes
use cpp_onion.Base.{
  ℕ, zero, suc, ◌+◌, ◌-◌, ◌*◌, ◌^◌, ltb, bit_and, bit_or, bit_xor, List, [], ◌∷◌, get_or, u32,
  ◌<<<◌, ◌>>>◌, if◌then◌else◌,
}
use cpp_onion.Avx2.Lane.{Lane, mask26, mask25}

-- `~x`
abbrev pub not32 : ℕ → ℕ
not32 x = 2 ^ 32 - 1 - x

abbrev pub sub32 : ℕ → ℕ → ℕ
sub32 x y = u32 (x + 2 ^ 32 - y)

-- `x >> n` of a signed word, which keeps the sign.
unfoldable pub sar : ℕ → ℕ → ℕ
sar x n = if ltb x (2 ^ 31) then x >>> n else not32 (not32 x >>> n)

-- A limb and the next one after the carry of a negative limb, which the next one loses `k` times.
unfoldable pub negative_step : ℕ → ℕ → ℕ → ℕ → ℕ × ℕ
unfolding sar
negative_step w k x next =
    let mask = sar x 31 in
    let carry = sub32 0 (sar (bit_and x mask) w) in
    (u32 (x + u32 (carry <<< w)), sub32 next (u32 (k * carry)))

-- A limb and the next one after the carry of the bits above `w`, which the next one gets `k` times.
unfoldable pub carry_step : ℕ → ℕ → ℕ → ℕ → ℕ × ℕ
unfolding sar
carry_step w k x next = (bit_and x (2 ^ w - 1), u32 (next + u32 (k * sar x w)))

-- The nine carries of a pass, and that of the last limb into the first one.
unfoldable pub pass : (ℕ → ℕ → ℕ → ℕ → ℕ × ℕ) → Lane → Lane
pass step f =
    let (v0, v1) = step 26 1 f.v0 f.v1 in
    let (v1, v2) = step 25 1 v1 f.v2 in
    let (v2, v3) = step 26 1 v2 f.v3 in
    let (v3, v4) = step 25 1 v3 f.v4 in
    let (v4, v5) = step 26 1 v4 f.v5 in
    let (v5, v6) = step 25 1 v5 f.v6 in
    let (v6, v7) = step 26 1 v6 f.v7 in
    let (v7, v8) = step 25 1 v7 f.v8 in
    let (v8, v9) = step 26 1 v8 f.v9 in
    let (v9, v0) = step 25 19 v9 v0 in
    record {
      v0 = v0;
      v1 = v1;
      v2 = v2;
      v3 = v3;
      v4 = v4;
      v5 = v5;
      v6 = v6;
      v7 = v7;
      v8 = v8;
      v9 = v9;
    }

-- The carry of a negative first limb.
unfoldable pub first_step : Lane → Lane
first_step f = let (v0, v1) = negative_step 26 1 f.v0 f.v1 in record f { v0 = v0; v1 = v1 }

unfoldable pub s32_gte : ℕ → ℕ → ℕ
unfolding sar
s32_gte x y = not32 (sar (sub32 x y) 31)

-- `x &= x << n`
unfoldable pub fold_bits : ℕ → ℕ → ℕ
fold_bits n x = bit_and x (u32 (x <<< n))

unfoldable pub s32_eq : ℕ → ℕ → ℕ
unfolding sar fold_bits
s32_eq x y =
    sar (fold_bits 1 (fold_bits 2 (fold_bits 4 (fold_bits 8 (fold_bits 16 (not32 (bit_xor x y)))))))
      31

-- All ones where the prime can be subtracted.
unfoldable pub prime_mask : Lane → ℕ
unfolding s32_gte s32_eq
prime_mask f =
    bit_and
      (bit_and
        (bit_and
          (bit_and
            (bit_and
              (bit_and
                (bit_and
                  (bit_and (bit_and (s32_gte f.v0 0x3ffffed) (s32_eq f.v1 mask25))
                    (s32_eq f.v2 mask26))
                  (s32_eq f.v3 mask25))
                (s32_eq f.v4 mask26))
              (s32_eq f.v5 mask25))
            (s32_eq f.v6 mask26))
          (s32_eq f.v7 mask25))
        (s32_eq f.v8 mask26))
      (s32_eq f.v9 mask25)

unfoldable pub masked_subtract : ℕ → Lane → Lane
masked_subtract mask f = record {
  v0 = sub32 f.v0 (bit_and mask 0x3ffffed);
  v1 = sub32 f.v1 (bit_and mask mask25);
  v2 = sub32 f.v2 (bit_and mask mask26);
  v3 = sub32 f.v3 (bit_and mask mask25);
  v4 = sub32 f.v4 (bit_and mask mask26);
  v5 = sub32 f.v5 (bit_and mask mask25);
  v6 = sub32 f.v6 (bit_and mask mask26);
  v7 = sub32 f.v7 (bit_and mask mask25);
  v8 = sub32 f.v8 (bit_and mask mask26);
  v9 = sub32 f.v9 (bit_and mask mask25);
}

-- `(x >> n) & 0xff`
unfoldable pub byte_of : ℕ → ℕ → ℕ
unfolding sar
byte_of x n = bit_and (sar x n) 0xff

-- The shifts and the bytes; where two limbs meet, `o[s]` takes the bits of both.
unfoldable pub limb_bytes : Lane → List ℕ
limb_bytes f =
    let a = f.v0 in
    let b = u32 (f.v1 <<< 2) in
    let c = u32 (f.v2 <<< 3) in
    let d = u32 (f.v3 <<< 5) in
    let e = u32 (f.v4 <<< 6) in
    let g = f.v5 in
    let h = u32 (f.v6 <<< 1) in
    let i = u32 (f.v7 <<< 3) in
    let j = u32 (f.v8 <<< 4) in
    let k = u32 (f.v9 <<< 6) in
    byte_of a 0
    ∷ byte_of a 8
    ∷ byte_of a 16
    ∷ bit_or (byte_of a 24) (byte_of b 0)
    ∷ byte_of b 8
    ∷ byte_of b 16
    ∷ bit_or (byte_of b 24) (byte_of c 0)
    ∷ byte_of c 8
    ∷ byte_of c 16
    ∷ bit_or (byte_of c 24) (byte_of d 0)
    ∷ byte_of d 8
    ∷ byte_of d 16
    ∷ bit_or (byte_of d 24) (byte_of e 0)
    ∷ byte_of e 8
    ∷ byte_of e 16
    ∷ byte_of e 24
    ∷ byte_of g 0
    ∷ byte_of g 8
    ∷ byte_of g 16
    ∷ bit_or (byte_of g 24) (byte_of h 0)
    ∷ byte_of h 8
    ∷ byte_of h 16
    ∷ bit_or (byte_of h 24) (byte_of i 0)
    ∷ byte_of i 8
    ∷ byte_of i 16
    ∷ bit_or (byte_of i 24) (byte_of j 0)
    ∷ byte_of j 8
    ∷ byte_of j 16
    ∷ bit_or (byte_of j 24) (byte_of k 0)
    ∷ byte_of k 8
    ∷ byte_of k 16
    ∷ byte_of k 24
    ∷ []

-- The casts to `std::int32_t`.
abbrev pub cast : Lane → Lane
cast f = record {
  v0 = u32 f.v0;
  v1 = u32 f.v1;
  v2 = u32 f.v2;
  v3 = u32 f.v3;
  v4 = u32 f.v4;
  v5 = u32 f.v5;
  v6 = u32 f.v6;
  v7 = u32 f.v7;
  v8 = u32 f.v8;
  v9 = u32 f.v9;
}

-- The limbs of the least residue.
unfoldable pub canonical_limbs : Lane → Lane
canonical_limbs f =
    let settled = first_step (pass negative_step (pass negative_step (cast f))) in
    let carried = pass carry_step (pass carry_step settled) in
    masked_subtract (prime_mask carried) carried

-- `contract`
unfoldable pub contract : Lane → List ℕ
contract f = limb_bytes (canonical_limbs f)

-- `rd32`, the loop downwards with `k` rounds left.
unfoldable pub rd32_rounds : List ℕ → ℕ → ℕ → ℕ → ℕ
rd32_rounds s start zero r = r
rd32_rounds s start (suc k) r = rd32_rounds s start k (bit_or (r <<< 8) (get_or s (start + k) 0))

unfoldable pub rd32 : List ℕ → ℕ → ℕ
unfolding rd32_rounds
rd32 s start = rd32_rounds s start 4 0

-- `expand`
unfoldable pub expand : List ℕ → Lane
unfolding rd32
expand s = record {
  v0 = bit_and (rd32 s 0) mask26;
  v1 = bit_and (rd32 s 3 >>> 2) mask25;
  v2 = bit_and (rd32 s 6 >>> 3) mask26;
  v3 = bit_and (rd32 s 9 >>> 5) mask25;
  v4 = bit_and (rd32 s 12 >>> 6) mask26;
  v5 = bit_and (rd32 s 16) mask25;
  v6 = bit_and (rd32 s 19 >>> 1) mask26;
  v7 = bit_and (rd32 s 22 >>> 3) mask25;
  v8 = bit_and (rd32 s 25 >>> 4) mask26;
  v9 = bit_and (rd32 s 28 >>> 6) mask25;
}

-- ===== src/Avx2/Store/Bytes.antt =====
-- The 32 bytes of the limbs.
use native.Mathlib.Nat.{mul-le-mul, mod-eq_of_lt, pow-le-pow_right}
use cpp_onion.Base.{
  ℕ, ◌+◌, ◌-◌, ◌*◌, ◌/◌, ◌%◌, ◌^◌, ◌<◌, ◌≤◌, ◌≡◌, refl, sym, ◌∙◌, arith, bit_or, u32, ◌<<<◌, List,
  [], ◌∷◌, length, IsBytes,
}
use cpp_onion.Base.Digits.{bit_and-ones, bit_or-disjoint_right}
use cpp_onion.Crypto.Field.Value.{prime, ◌≅◌}
use cpp_onion.Crypto.Field.Numbers.{le_value, le_value-injective}
use cpp_onion.Avx2.Lane.{Lane}
use cpp_onion.Avx2.Lane.Reduce.{lane_value, IsReduced}
use cpp_onion.Avx2.Store.{sar, byte_of, limb_bytes, canonical_limbs, contract}
use cpp_onion.Avx2.Store.Carry.{IsMasked}
use cpp_onion.Avx2.Store.Canonical.{canonical_lem}

-- The byte at a bit of a word, whatever its sign.
byte_0 : (x : ℕ) → x < 2 ^ 32 → byte_of x 0 ≡ x % 256
unfolding byte_of sar
byte_0 x h = bit_and-ones 8 (sar x 0) ∙ ground (arith, h)

byte_8 : (x : ℕ) → x < 2 ^ 32 → byte_of x 8 ≡ x / 2 ^ 8 % 256
unfolding byte_of sar
byte_8 x h = bit_and-ones 8 (sar x 8) ∙ ground (arith, h)

byte_16 : (x : ℕ) → x < 2 ^ 32 → byte_of x 16 ≡ x / 2 ^ 16 % 256
unfolding byte_of sar
byte_16 x h = bit_and-ones 8 (sar x 16) ∙ ground (arith, h)

byte_24 : (x : ℕ) → x < 2 ^ 32 → byte_of x 24 ≡ x / 2 ^ 24 % 256
unfolding byte_of sar
byte_24 x h = bit_and-ones 8 (sar x 24) ∙ ground (arith, h)

-- Where two limbs meet: the byte of both, by the shift of the second.
join_1 :
    (x v : ℕ)
    → x < 2 ^ 25
    → v < 2 ^ 26
    → (bit_or (byte_of x 24) (byte_of (v * 2 ^ 1) 0) ≡ x / 2 ^ 24 + v % 2 ^ 7 * 2 ^ 1)
      × (x / 2 ^ 24 + v % 2 ^ 7 * 2 ^ 1 < 256)
join_1 x v hx hv =
    let e : byte_of x 24 ≡ x / 2 ^ 24 = omega (arith, byte_24 x (omega (arith, hx)), hx) in
    let e' : byte_of (v * 2 ^ 1) 0 ≡ v % 2 ^ 7 * 2 ^ 1 =
      omega (arith, byte_0 (v * 2 ^ 1) (omega (arith, hv)), hv) in
    (
      rw (e, e') (bit_or-disjoint_right 1 (v % 2 ^ 7) (x / 2 ^ 24) (omega (arith, hx))),
      omega (arith, hx),
    )

join_2 :
    (x v : ℕ)
    → x < 2 ^ 26
    → v < 2 ^ 26
    → (bit_or (byte_of x 24) (byte_of (v * 2 ^ 2) 0) ≡ x / 2 ^ 24 + v % 2 ^ 6 * 2 ^ 2)
      × (x / 2 ^ 24 + v % 2 ^ 6 * 2 ^ 2 < 256)
join_2 x v hx hv =
    let e : byte_of x 24 ≡ x / 2 ^ 24 = omega (arith, byte_24 x (omega (arith, hx)), hx) in
    let e' : byte_of (v * 2 ^ 2) 0 ≡ v % 2 ^ 6 * 2 ^ 2 =
      omega (arith, byte_0 (v * 2 ^ 2) (omega (arith, hv)), hv) in
    (
      rw (e, e') (bit_or-disjoint_right 2 (v % 2 ^ 6) (x / 2 ^ 24) (omega (arith, hx))),
      omega (arith, hx),
    )

join_3 :
    (x v : ℕ)
    → x < 2 ^ 27
    → v < 2 ^ 26
    → (bit_or (byte_of x 24) (byte_of (v * 2 ^ 3) 0) ≡ x / 2 ^ 24 + v % 2 ^ 5 * 2 ^ 3)
      × (x / 2 ^ 24 + v % 2 ^ 5 * 2 ^ 3 < 256)
join_3 x v hx hv =
    let e : byte_of x 24 ≡ x / 2 ^ 24 = omega (arith, byte_24 x (omega (arith, hx)), hx) in
    let e' : byte_of (v * 2 ^ 3) 0 ≡ v % 2 ^ 5 * 2 ^ 3 =
      omega (arith, byte_0 (v * 2 ^ 3) (omega (arith, hv)), hv) in
    (
      rw (e, e') (bit_or-disjoint_right 3 (v % 2 ^ 5) (x / 2 ^ 24) (omega (arith, hx))),
      omega (arith, hx),
    )

join_4 :
    (x v : ℕ)
    → x < 2 ^ 28
    → v < 2 ^ 26
    → (bit_or (byte_of x 24) (byte_of (v * 2 ^ 4) 0) ≡ x / 2 ^ 24 + v % 2 ^ 4 * 2 ^ 4)
      × (x / 2 ^ 24 + v % 2 ^ 4 * 2 ^ 4 < 256)
join_4 x v hx hv =
    let e : byte_of x 24 ≡ x / 2 ^ 24 = omega (arith, byte_24 x (omega (arith, hx)), hx) in
    let e' : byte_of (v * 2 ^ 4) 0 ≡ v % 2 ^ 4 * 2 ^ 4 =
      omega (arith, byte_0 (v * 2 ^ 4) (omega (arith, hv)), hv) in
    (
      rw (e, e') (bit_or-disjoint_right 4 (v % 2 ^ 4) (x / 2 ^ 24) (omega (arith, hx))),
      omega (arith, hx),
    )

join_5 :
    (x v : ℕ)
    → x < 2 ^ 29
    → v < 2 ^ 26
    → (bit_or (byte_of x 24) (byte_of (v * 2 ^ 5) 0) ≡ x / 2 ^ 24 + v % 2 ^ 3 * 2 ^ 5)
      × (x / 2 ^ 24 + v % 2 ^ 3 * 2 ^ 5 < 256)
join_5 x v hx hv =
    let e : byte_of x 24 ≡ x / 2 ^ 24 = omega (arith, byte_24 x (omega (arith, hx)), hx) in
    let e' : byte_of (v * 2 ^ 5) 0 ≡ v % 2 ^ 3 * 2 ^ 5 =
      omega (arith, byte_0 (v * 2 ^ 5) (omega (arith, hv)), hv) in
    (
      rw (e, e') (bit_or-disjoint_right 5 (v % 2 ^ 3) (x / 2 ^ 24) (omega (arith, hx))),
      omega (arith, hx),
    )

join_6 :
    (x v : ℕ)
    → x < 2 ^ 30
    → v < 2 ^ 26
    → (bit_or (byte_of x 24) (byte_of (v * 2 ^ 6) 0) ≡ x / 2 ^ 24 + v % 2 ^ 2 * 2 ^ 6)
      × (x / 2 ^ 24 + v % 2 ^ 2 * 2 ^ 6 < 256)
join_6 x v hx hv =
    let e : byte_of x 24 ≡ x / 2 ^ 24 = omega (arith, byte_24 x (omega (arith, hx)), hx) in
    let e' : byte_of (v * 2 ^ 6) 0 ≡ v % 2 ^ 2 * 2 ^ 6 =
      omega (arith, byte_0 (v * 2 ^ 6) (omega (arith, hv)), hv) in
    (
      rw (e, e') (bit_or-disjoint_right 6 (v % 2 ^ 2) (x / 2 ^ 24) (omega (arith, hx))),
      omega (arith, hx),
    )

byte_lt : (x n : ℕ) → byte_of x n < 256
unfolding byte_of
byte_lt x n = omega (arith, bit_and-ones 8 (sar x n))

joined_lt : {x y : ℕ} → (x ≡ y) × (y < 256) → x < 256
joined_lt h = omega (arith, h)

abbrev low_bytes : Lane → List ℕ → List ℕ
low_bytes f rest =
    byte_of f.v0 0
    ∷ byte_of f.v0 8
    ∷ byte_of f.v0 16
    ∷ bit_or (byte_of f.v0 24) (byte_of (f.v1 * 2 ^ 2) 0)
    ∷ byte_of (f.v1 * 2 ^ 2) 8
    ∷ byte_of (f.v1 * 2 ^ 2) 16
    ∷ bit_or (byte_of (f.v1 * 2 ^ 2) 24) (byte_of (f.v2 * 2 ^ 3) 0)
    ∷ byte_of (f.v2 * 2 ^ 3) 8
    ∷ byte_of (f.v2 * 2 ^ 3) 16
    ∷ bit_or (byte_of (f.v2 * 2 ^ 3) 24) (byte_of (f.v3 * 2 ^ 5) 0)
    ∷ byte_of (f.v3 * 2 ^ 5) 8
    ∷ byte_of (f.v3 * 2 ^ 5) 16
    ∷ bit_or (byte_of (f.v3 * 2 ^ 5) 24) (byte_of (f.v4 * 2 ^ 6) 0)
    ∷ byte_of (f.v4 * 2 ^ 6) 8
    ∷ byte_of (f.v4 * 2 ^ 6) 16
    ∷ byte_of (f.v4 * 2 ^ 6) 24
    ∷ rest

abbrev high_bytes : Lane → List ℕ
high_bytes f =
    byte_of f.v5 0
    ∷ byte_of f.v5 8
    ∷ byte_of f.v5 16
    ∷ bit_or (byte_of f.v5 24) (byte_of (f.v6 * 2 ^ 1) 0)
    ∷ byte_of (f.v6 * 2 ^ 1) 8
    ∷ byte_of (f.v6 * 2 ^ 1) 16
    ∷ bit_or (byte_of (f.v6 * 2 ^ 1) 24) (byte_of (f.v7 * 2 ^ 3) 0)
    ∷ byte_of (f.v7 * 2 ^ 3) 8
    ∷ byte_of (f.v7 * 2 ^ 3) 16
    ∷ bit_or (byte_of (f.v7 * 2 ^ 3) 24) (byte_of (f.v8 * 2 ^ 4) 0)
    ∷ byte_of (f.v8 * 2 ^ 4) 8
    ∷ byte_of (f.v8 * 2 ^ 4) 16
    ∷ bit_or (byte_of (f.v8 * 2 ^ 4) 24) (byte_of (f.v9 * 2 ^ 6) 0)
    ∷ byte_of (f.v9 * 2 ^ 6) 8
    ∷ byte_of (f.v9 * 2 ^ 6) 16
    ∷ byte_of (f.v9 * 2 ^ 6) 24
    ∷ []

low_bytes-value :
    (f : Lane) (rest : List ℕ)
    → IsMasked f
    → IsBytes rest
    → (le_value (low_bytes f rest)
        ≡ f.v0
          + 2 ^ 26 * f.v1
          + 2 ^ 51 * f.v2
          + 2 ^ 77 * f.v3
          + 2 ^ 102 * f.v4
          + 2 ^ 128 * le_value rest)
      × IsBytes (low_bytes f rest)
low_bytes-value f rest h bytes = (
  omega (
    arith,
    h,
    byte_0 f.v0 (omega (arith, h)),
    byte_8 f.v0 (omega (arith, h.m0)),
    byte_16 f.v0 (omega (arith, h.m0)),
    join_2 f.v0 f.v1 (omega (arith, h.m0)) (omega (arith, h.m1)),
    byte_8 (f.v1 * 2 ^ 2) (omega (arith, h.m1)),
    byte_16 (f.v1 * 2 ^ 2) (omega (arith, h.m1)),
    join_3 (f.v1 * 2 ^ 2) f.v2 (omega (arith, h.m1)) (omega (arith, h.m2)),
    byte_8 (f.v2 * 2 ^ 3) (omega (arith, h.m2)),
    byte_16 (f.v2 * 2 ^ 3) (omega (arith, h.m2)),
    join_5 (f.v2 * 2 ^ 3) f.v3 (omega (arith, h.m2)) (omega (arith, h.m3)),
    byte_8 (f.v3 * 2 ^ 5) (omega (arith, h.m3)),
    byte_16 (f.v3 * 2 ^ 5) (omega (arith, h.m3)),
    join_6 (f.v3 * 2 ^ 5) f.v4 (omega (arith, h.m3)) (omega (arith, h.m4)),
    byte_8 (f.v4 * 2 ^ 6) (omega (arith, h.m4)),
    byte_16 (f.v4 * 2 ^ 6) (omega (arith, h.m4)),
    byte_24 (f.v4 * 2 ^ 6) (omega (arith, h.m4)),
  ),
  (
    byte_lt f.v0 0,
    (
      byte_lt f.v0 8,
      (
        byte_lt f.v0 16,
        (
          joined_lt (join_2 f.v0 f.v1 (omega (arith, h.m0)) (omega (arith, h.m1))),
          (
            byte_lt (f.v1 * 2 ^ 2) 8,
            (
              byte_lt (f.v1 * 2 ^ 2) 16,
              (
                joined_lt (join_3 (f.v1 * 2 ^ 2) f.v2 (omega (arith, h.m1)) (omega (arith, h.m2))),
                (
                  byte_lt (f.v2 * 2 ^ 3) 8,
                  (
                    byte_lt (f.v2 * 2 ^ 3) 16,
                    (
                      joined_lt
                          (join_5 (f.v2 * 2 ^ 3) f.v3 (omega (arith, h.m2)) (omega (arith, h.m3))),
                      (
                        byte_lt (f.v3 * 2 ^ 5) 8,
                        (
                          byte_lt (f.v3 * 2 ^ 5) 16,
                          (
                            joined_lt (
                                join_6 (f.v3 * 2 ^ 5) f.v4 (omega (arith, h.m3))
                                  (omega (arith, h.m4))),
                            (
                              byte_lt (f.v4 * 2 ^ 6) 8,
                              (byte_lt (f.v4 * 2 ^ 6) 16, (byte_lt (f.v4 * 2 ^ 6) 24, bytes)),
                            ),
                          ),
                        ),
                      ),
                    ),
                  ),
                ),
              ),
            ),
          ),
        ),
      ),
    ),
  ),
)

high_bytes-value :
    (f : Lane)
    → IsMasked f
    → (le_value (high_bytes f)
        ≡ f.v5 + 2 ^ 25 * f.v6 + 2 ^ 51 * f.v7 + 2 ^ 76 * f.v8 + 2 ^ 102 * f.v9)
      × IsBytes (high_bytes f)
high_bytes-value f h = (
  omega (
    arith,
    h,
    byte_0 f.v5 (omega (arith, h)),
    byte_8 f.v5 (omega (arith, h.m5)),
    byte_16 f.v5 (omega (arith, h.m5)),
    join_1 f.v5 f.v6 (omega (arith, h.m5)) (omega (arith, h.m6)),
    byte_8 (f.v6 * 2 ^ 1) (omega (arith, h.m6)),
    byte_16 (f.v6 * 2 ^ 1) (omega (arith, h.m6)),
    join_3 (f.v6 * 2 ^ 1) f.v7 (omega (arith, h.m6)) (omega (arith, h.m7)),
    byte_8 (f.v7 * 2 ^ 3) (omega (arith, h.m7)),
    byte_16 (f.v7 * 2 ^ 3) (omega (arith, h.m7)),
    join_4 (f.v7 * 2 ^ 3) f.v8 (omega (arith, h.m7)) (omega (arith, h.m8)),
    byte_8 (f.v8 * 2 ^ 4) (omega (arith, h.m8)),
    byte_16 (f.v8 * 2 ^ 4) (omega (arith, h.m8)),
    join_6 (f.v8 * 2 ^ 4) f.v9 (omega (arith, h.m8)) (omega (arith, h.m9)),
    byte_8 (f.v9 * 2 ^ 6) (omega (arith, h.m9)),
    byte_16 (f.v9 * 2 ^ 6) (omega (arith, h.m9)),
    byte_24 (f.v9 * 2 ^ 6) (omega (arith, h.m9)),
  ),
  (
    byte_lt f.v5 0,
    (
      byte_lt f.v5 8,
      (
        byte_lt f.v5 16,
        (
          joined_lt (join_1 f.v5 f.v6 (omega (arith, h.m5)) (omega (arith, h.m6))),
          (
            byte_lt (f.v6 * 2 ^ 1) 8,
            (
              byte_lt (f.v6 * 2 ^ 1) 16,
              (
                joined_lt (join_3 (f.v6 * 2 ^ 1) f.v7 (omega (arith, h.m6)) (omega (arith, h.m7))),
                (
                  byte_lt (f.v7 * 2 ^ 3) 8,
                  (
                    byte_lt (f.v7 * 2 ^ 3) 16,
                    (
                      joined_lt
                          (join_4 (f.v7 * 2 ^ 3) f.v8 (omega (arith, h.m7)) (omega (arith, h.m8))),
                      (
                        byte_lt (f.v8 * 2 ^ 4) 8,
                        (
                          byte_lt (f.v8 * 2 ^ 4) 16,
                          (
                            joined_lt (
                                join_6 (f.v8 * 2 ^ 4) f.v9 (omega (arith, h.m8))
                                  (omega (arith, h.m9))),
                            (
                              byte_lt (f.v9 * 2 ^ 6) 8,
                              (byte_lt (f.v9 * 2 ^ 6) 16, (byte_lt (f.v9 * 2 ^ 6) 24, tt)),
                            ),
                          ),
                        ),
                      ),
                    ),
                  ),
                ),
              ),
            ),
          ),
        ),
      ),
    ),
  ),
)

shifted : (n v : ℕ) → n ≤ 6 → v < 2 ^ 26 → u32 (v <<< n) ≡ v * 2 ^ n
shifted n v hn hv =
    let le : v * 2 ^ n ≤ (2 ^ 26 - 1) * 2 ^ 6 =
      mul-le-mul {n₂ = 2 ^ 26 - 1} {m₂ = 2 ^ 6} (omega (arith, hv))
        (pow-le-pow_right (omega arith) hn) in
    mod-eq_of_lt (omega (arith, le))

sum_lem :
    (f : Lane) (whole high : ℕ)
    → whole ≡ f.v0 + 2 ^ 26 * f.v1 + 2 ^ 51 * f.v2 + 2 ^ 77 * f.v3 + 2 ^ 102 * f.v4 + 2 ^ 128 * high
    → high ≡ f.v5 + 2 ^ 25 * f.v6 + 2 ^ 51 * f.v7 + 2 ^ 76 * f.v8 + 2 ^ 102 * f.v9
    → whole ≡ lane_value f
sum_lem f whole high e e' = omega (arith, e, e')

-- The bytes of masked limbs are those of their number.
limb_bytes-value :
    (f : Lane)
    → IsMasked f
    → (le_value (limb_bytes f) ≡ lane_value f)
      × IsBytes (limb_bytes f)
      × (length (limb_bytes f) ≡ 32)
unfolding limb_bytes
limb_bytes-value f h =
    let (low, low_ok) = low_bytes-value f (high_bytes f) h (high_bytes-value f h).1 in
    let high = (high_bytes-value f h).0 in
    rw
      (
        shifted 2 f.v1 (omega arith) (omega (arith, h.m1)),
        shifted 3 f.v2 (omega arith) (omega (arith, h.m2)),
        shifted 5 f.v3 (omega arith) (omega (arith, h.m3)),
        shifted 6 f.v4 (omega arith) (omega (arith, h.m4)),
        shifted 1 f.v6 (omega arith) (omega (arith, h.m6)),
        shifted 3 f.v7 (omega arith) (omega (arith, h.m7)),
        shifted 4 f.v8 (omega arith) (omega (arith, h.m8)),
        shifted 6 f.v9 (omega arith) (omega (arith, h.m9)),
      )
      (sum_lem f _ _ low high, low_ok, refl)

-- A lane is stored as the bytes of its least residue.
pub contract-value :
    (f : Lane)
    → IsReduced f
    → (le_value (contract f) ≡ lane_value f % prime)
      × IsBytes (contract f)
      × (length (contract f) ≡ 32)
unfolding contract
contract-value f r =
    let (masked, least) = canonical_lem f r in
    let (e, bytes, count) = limb_bytes-value (canonical_limbs f) masked in (e ∙ least, bytes, count)

-- Congruent lanes are stored alike.
pub contract_eq :
    (f g : Lane) → IsReduced f → IsReduced g → lane_value f ≅ lane_value g → contract f ≡ contract g
contract_eq f g hf hg same =
    let (e, bytes, count) = contract-value f hf in
    let (e', bytes', count') = contract-value g hg in
    le_value-injective (contract f) (contract g) bytes bytes' (count ∙ sym count')
      (e ∙ same ∙ sym e')

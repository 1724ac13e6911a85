-- ===== src/Crypto/Sha3/Keccak.antt =====
-- `keccakf`: 24 rounds on 25 lanes of 64 bits.
use cpp_onion.Base.{
  ℕ, ◌+◌, ◌-◌, ◌%◌, ◌^◌, bit_and, bit_or, bit_xor, List, [], ◌∷◌, get_or, set, u64, ◌<<<◌, ◌>>>◌,
  for_range,
}

-- `kRoundConstants`
abbrev pub round_constants : List ℕ
round_constants =
    0x0000000000000001 ∷ 0x0000000000008082 ∷ 0x800000000000808a ∷ 0x8000000080008000
    ∷ 0x000000000000808b ∷ 0x0000000080000001 ∷ 0x8000000080008081 ∷ 0x8000000000008009
    ∷ 0x000000000000008a ∷ 0x0000000000000088 ∷ 0x0000000080008009 ∷ 0x000000008000000a
    ∷ 0x000000008000808b ∷ 0x800000000000008b ∷ 0x8000000000008089 ∷ 0x8000000000008003
    ∷ 0x8000000000008002 ∷ 0x8000000000000080 ∷ 0x000000000000800a ∷ 0x800000008000000a
    ∷ 0x8000000080008081 ∷ 0x8000000000008080 ∷ 0x0000000080000001 ∷ 0x8000000080008008 ∷ []

-- `kRotc`
abbrev pub rotc : List ℕ
rotc =
    1 ∷ 3 ∷ 6 ∷ 10 ∷ 15 ∷ 21 ∷ 28 ∷ 36 ∷ 45 ∷ 55 ∷ 2 ∷ 14 ∷ 27 ∷ 41 ∷ 56 ∷ 8 ∷ 25 ∷ 43 ∷ 62 ∷ 18
    ∷ 39 ∷ 61 ∷ 20 ∷ 44 ∷ []

-- `kPiln`
abbrev pub piln : List ℕ
piln =
    10 ∷ 7 ∷ 11 ∷ 17 ∷ 18 ∷ 3 ∷ 5 ∷ 16 ∷ 8 ∷ 21 ∷ 24 ∷ 4 ∷ 15 ∷ 23 ∷ 19 ∷ 13 ∷ 12 ∷ 2 ∷ 20 ∷ 14 ∷ 22
    ∷ 9 ∷ 6 ∷ 1 ∷ []

-- For `n` from 1 to 63.
unfoldable pub rotl64 : ℕ → ℕ → ℕ
rotl64 x n = bit_or (u64 (x <<< n)) (x >>> (64 - n))

-- `~x` of a 64-bit word.
abbrev not64 : ℕ → ℕ
not64 x = 2 ^ 64 - 1 - x

abbrev lane_at : List ℕ → ℕ → ℕ
lane_at st i = get_or st i 0

column : List ℕ → ℕ → ℕ
column st i =
    bit_xor
      (bit_xor (bit_xor (bit_xor (lane_at st i) (lane_at st (i + 5))) (lane_at st (i + 10)))
        (lane_at st (i + 15)))
      (lane_at st (i + 20))

unfoldable pub theta : List ℕ → List ℕ
unfolding column rotl64 for_range
theta st =
    let bc = column st 0 ∷ column st 1 ∷ column st 2 ∷ column st 3 ∷ column st 4 ∷ [] in
    for_range 5 0 1
      (λ i s.
        let t = bit_xor (lane_at bc ((i + 4) % 5)) (rotl64 (lane_at bc ((i + 1) % 5)) 1) in
        for_range 5 0 5 (λ j s'. set s' (j + i) (bit_xor (lane_at s' (j + i)) t)) s)
      st

-- The loop over `kPiln` carries the lane that was overwritten last.
unfoldable pub rho_pi : List ℕ → List ℕ
unfolding rotl64 for_range
rho_pi st =
    (for_range {S = ℕ × List ℕ} 24 0 1
      (λ i p.
        (lane_at p.1 (lane_at piln i), set p.1 (lane_at piln i) (rotl64 p.0 (lane_at rotc i))))
      (lane_at st 1, st)).1

unfoldable pub chi : List ℕ → List ℕ
unfolding for_range
chi st =
    for_range 5 0 5
      (λ j s.
        for_range 5 0 1
          (λ i s'. set s' (j + i) (
            bit_xor (lane_at s (j + i))
              (bit_and (not64 (lane_at s (j + (i + 1) % 5))) (lane_at s (j + (i + 2) % 5)))))
          s)
      st

unfoldable pub iota : ℕ → List ℕ → List ℕ
iota round st = set st 0 (bit_xor (lane_at st 0) (lane_at round_constants round))

unfoldable pub keccakf : List ℕ → List ℕ
unfolding theta rho_pi chi iota for_range
keccakf st = for_range 24 0 1 (λ round s. iota round (chi (rho_pi (theta s)))) st

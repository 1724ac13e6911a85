-- ===== src/Crypto/Sha3.antt =====
-- src/crypto/sha3.hpp and src/crypto/sha3.cpp. The 25 lanes of 64 bits, the buffer of 136 bytes and the
-- fill count are the fields of `Sha3`; a method returns the new object.
pub mod Keccak
pub mod Sponge
mod Tests
use cpp_onion.Base.{
  ℕ, zero, suc, ◌+◌, ◌-◌, ◌*◌, bit_and, bit_or, bit_xor, List, [], ◌∷◌, ◌++◌, foldl, ◌==◌,
  if◌then◌else◌, get_or, set, replicate, take, length, u64, ◌<<<◌, ◌>>>◌, for_range,
}
use Keccak.{keccakf}

-- `Sha3_256::rate` and `Sha3_256::digest_size`
abbrev pub rate : ℕ
rate = 136

abbrev pub digest_size : ℕ
digest_size = 32

pub record Sha3 : Type 0 where
  pub state : List ℕ
  pub buf : List ℕ
  pub buf_len : ℕ

abbrev pub init : Sha3
init = record { state = replicate 25 0; buf = replicate rate 0; buf_len = 0 }

-- Eight bytes of the buffer from `i`, the last one first: `j + 1` rounds are left.
unfoldable pub lane : List ℕ → ℕ → ℕ → ℕ → ℕ
lane buf i zero acc = acc
lane buf i (suc j) acc = lane buf i j (bit_or (u64 (acc <<< 8)) (get_or buf (i * 8 + j) 0))

unfoldable pub absorb_block : List ℕ → List ℕ → List ℕ
unfolding lane keccakf for_range
absorb_block buf state =
    keccakf (for_range 17 0 1 (λ i st. set st i (bit_xor (get_or st i 0) (lane buf i 8 0))) state)

-- One round of `update`.
unfoldable pub update_byte : Sha3 → ℕ → Sha3
update_byte s b =
    let buf' = set s.buf s.buf_len b in
    if s.buf_len + 1 == rate
    then record { state = absorb_block buf' s.state; buf = buf'; buf_len = 0 }
    else record s { buf = buf'; buf_len = s.buf_len + 1 }

unfoldable pub update : Sha3 → List ℕ → Sha3
update s input = foldl update_byte s input

-- `std::fill` from `buf_len` to the end.
unfoldable pub clear_from : ℕ → List ℕ → List ℕ
clear_from n buf = take n buf ++ replicate (length buf - n) 0

-- The last block: domain bits, and the end of the padding.
unfoldable pub pad_block : ℕ → List ℕ → List ℕ
unfolding clear_from
pad_block n buf =
    let started = set (clear_from n buf) n 0x06 in
    set started (rate - 1) (bit_or (get_or started (rate - 1) 0) 0x80)

-- The first `n` lanes from `i` as bytes, lowest byte first.
unfoldable pub lane_bytes : ℕ → ℕ → List ℕ
lane_bytes zero x = []
lane_bytes (suc n) x = bit_and x 0xff ∷ lane_bytes n (x >>> 8)

unfoldable pub squeeze : ℕ → ℕ → List ℕ → List ℕ
squeeze zero i state = []
squeeze (suc n) i state = lane_bytes 8 (get_or state i 0) ++ squeeze n (i + 1) state

unfoldable pub finalize : Sha3 → List ℕ
finalize s = squeeze 4 0 (absorb_block (pad_block s.buf_len s.buf) s.state)

unfoldable pub hash : List ℕ → List ℕ
hash input = finalize (update init input)

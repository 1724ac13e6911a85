-- ===== src/Crypto/Sha3/Tests.antt =====
-- Known answers of SHA3-256.
use cpp_onion.Base.{replicate, ℕ, List, [], ◌∷◌, ◌≡◌, refl}
use cpp_onion.Crypto.Sha3.Sponge.{sponge, hash-sponge}
use cpp_onion.Crypto.Sha3.{
  pad_block, absorb_block, lane_bytes, squeeze, update, update_byte, finalize, hash,
}

abbrev empty_digest : List ℕ
empty_digest =
    0xa7 ∷ 0xff ∷ 0xc6 ∷ 0xf8 ∷ 0xbf ∷ 0x1e ∷ 0xd7 ∷ 0x66 ∷ 0x51 ∷ 0xc1 ∷ 0x47 ∷ 0x56 ∷ 0xa0 ∷ 0x61
    ∷ 0xd6 ∷ 0x62 ∷ 0xf5 ∷ 0x80 ∷ 0xff ∷ 0x4d ∷ 0xe4 ∷ 0x3b ∷ 0x49 ∷ 0xfa ∷ 0x82 ∷ 0xd8 ∷ 0x0a
    ∷ 0x4b ∷ 0x80 ∷ 0xf8 ∷ 0x43 ∷ 0x4a ∷ []

test_empty : hash [] ≡ empty_digest
unfolding hash finalize update update_byte pad_block absorb_block squeeze lane_bytes
test_empty = refl

-- 136 bytes fill one block, and the padding takes another.
hash-sponge_example : hash (replicate 136 0x61) ≡ sponge (replicate 136 0x61)
hash-sponge_example = hash-sponge (replicate 136 0x61)

-- ===== src/Crypto/Keys.antt =====
-- src/crypto/keys.hpp and src/crypto/keys.cpp: expanded secret keys. libsodium is a parameter; what is
-- modelled runs after `sodium_init` has succeeded.
pub mod Clamp
use cpp_onion.Base.{
  ℕ, ◌+◌, ◌<◌, ◌≡◌, bit_and, bit_or, Option, some, List, [], ◌∷◌, get_or, set, length, take, drop,
  replicate, IsBytes,
}

-- The calls of libsodium. `randombytes k n` is what the `k`-th call of `randombytes_buf` fills `n` bytes with.
pub record Sodium : Type 0 where
  pub sha512 : List ℕ → List ℕ
  pub base_noclamp : List ℕ → Option (List ℕ)
  pub memzero : List ℕ → List ℕ
  pub randombytes : ℕ → ℕ → List ℕ

-- What its documentation says of them.
pub record IsSodium (s : Sodium) : Type 0 where
  pub sha512_size : (m : List ℕ) → IsBytes (s.sha512 m) × (length (s.sha512 m) ≡ 64)
  pub pubkey_size : (a pk : List ℕ) → s.base_noclamp a ≡ some pk → IsBytes pk × (length pk ≡ 32)
  pub random_size : (k n : ℕ) → IsBytes (s.randombytes k n) × (length (s.randombytes k n) ≡ n)
  pub zeroed : (xs : List ℕ) → s.memzero xs ≡ replicate (length xs) 0

pub record ExpandedSecretKey : Type 0 where
  pub scalar : List ℕ
  pub prf_prefix : List ℕ

-- The default member initializers.
abbrev pub no_key : ExpandedSecretKey
no_key = record { scalar = replicate 32 0; prf_prefix = replicate 32 0 }

unfoldable pub clamp : List ℕ → List ℕ
clamp h =
    let low = set h 0 (bit_and (get_or h 0 0) 0xf8) in
    let masked = set low 31 (bit_and (get_or low 31 0) 0x7f) in
    set masked 31 (bit_or (get_or masked 31 0) 0x40)

module _ (sodium : Sodium) where
  unfoldable pub wipe : ExpandedSecretKey → ExpandedSecretKey
  wipe key = record {
    scalar = sodium.memzero key.scalar;
    prf_prefix = sodium.memzero key.prf_prefix;
  }

  -- The move constructor: the new key, and what is left of the old one.
  unfoldable pub move_key : ExpandedSecretKey → ExpandedSecretKey × ExpandedSecretKey
  unfolding wipe
  move_key o = (record { scalar = o.scalar; prf_prefix = o.prf_prefix }, wipe o)

  unfoldable pub expand_seed : List ℕ → ExpandedSecretKey
  unfolding clamp
  expand_seed seed =
      let h = clamp (sodium.sha512 seed) in
      record { scalar = take 32 h; prf_prefix = take 32 (drop 32 h) }

  unfoldable pub pubkey_from_scalar : List ℕ → Option (List ℕ)
  pubkey_from_scalar scalar = sodium.base_noclamp scalar

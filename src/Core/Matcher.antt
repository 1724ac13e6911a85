-- ===== src/Core/Matcher.antt =====
-- src/core/matcher.hpp and src/core/matcher.cpp: a base32 prefix compiled to bytes and a mask. All indices
-- into the two arrays are below 32, since a prefix has at most 49 characters of five bits.
pub mod Bits
pub mod Compile
pub mod Matches
use cpp_onion.Base.{
  ℕ, zero, suc, ◌+◌, ◌/◌, ◌%◌, bit_and, bit_or, Bool, true, false, not, Option, none, some, List,
  [], ◌∷◌, Expected, ok, unexpected, ◌>>=◌, ltb, ◌==◌, if◌then◌else◌, length, get_or, set,
  replicate, u8, ◌>>>◌,
}
use cpp_onion.Core.Base32.{alphabet, find}

pub data MatcherError : Type 0 where
  empty invalid_char too_long : MatcherError

pub record CompiledPattern : Type 0 where
  pub bytes : List ℕ
  pub mask : List ℕ
  pub nbytes : ℕ
  pub prefix : List ℕ

-- `kMaxPrefixLen`
abbrev pub max_prefix_len : ℕ
max_prefix_len = 49

-- The two arrays and the bit counter of `compile_prefix`.
pub record Marks : Type 0 where
  pub bytes : List ℕ
  pub mask : List ℕ
  pub bit : ℕ

abbrev pub no_marks : Marks
no_marks = record { bytes = replicate 32 0; mask = replicate 32 0; bit = 0 }

-- `array[byte_idx] |= bit_mask`
unfoldable pub or_at : List ℕ → ℕ → ℕ → List ℕ
or_at array i m = set array i (u8 (bit_or (get_or array i 0) m))

-- `std::uint8_t(0x80u >> (bit % 8))`
abbrev pub bit_mask : ℕ → ℕ
bit_mask bit = u8 (0x80 >>> (bit % 8))

-- The body of the inner loop.
unfoldable pub mark : ℕ → ℕ → Marks → Marks
mark pos k s = record {
  bytes =
      if bit_and (pos >>> k) 1 == 0 then s.bytes else or_at s.bytes (s.bit / 8) (bit_mask s.bit);
  mask = or_at s.mask (s.bit / 8) (bit_mask s.bit);
  bit = s.bit + 1;
}

-- `for (int k = 4; k >= 0; --k, ++bit)`, with `k + 1` rounds left.
unfoldable pub mark_all : ℕ → ℕ → Marks → Marks
mark_all zero pos s = s
mark_all (suc k) pos s = mark_all k pos (mark pos k s)

-- The loop over the characters.
unfoldable pub compile_loop : List ℕ → Marks → Expected MatcherError Marks
compile_loop [] s = ok s
compile_loop (c ∷ cs) s = elim (find alphabet c) [
  | none ↦ unexpected invalid_char
  | some pos ↦ compile_loop cs (mark_all 5 pos s)
]

unfoldable pub compile_prefix : List ℕ → Expected MatcherError CompiledPattern
unfolding compile_loop mark_all mark or_at
compile_prefix prefix =
    if length prefix == 0
    then unexpected empty
    else if ltb max_prefix_len (length prefix)
    then unexpected too_long
    else (compile_loop prefix no_marks >>= (λ s.
        ok (record { bytes = s.bytes; mask = s.mask; nbytes = (s.bit + 7) / 8; prefix = prefix })))

-- The loop of `matches` at index `i`, with `left` rounds to go.
unfoldable pub matches_loop : CompiledPattern → List ℕ → ℕ → ℕ → Bool
matches_loop p pubkey zero i = true
matches_loop p pubkey (suc left) i =
    if not (bit_and (get_or pubkey i 0) (get_or p.mask i 0) == get_or p.bytes i 0)
    then false
    else matches_loop p pubkey left (i + 1)

unfoldable pub matches : CompiledPattern → List ℕ → Bool
unfolding matches_loop
matches p pubkey = matches_loop p pubkey p.nbytes 0

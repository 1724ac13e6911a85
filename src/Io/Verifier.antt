-- ===== src/Io/Verifier.antt =====
-- src/io/verifier.hpp and src/io/verifier.cpp: the checks between an engine and the disk.
pub mod Checks
pub mod Engines
use cpp_onion.Base.{
  ℕ, Bool, true, false, not, Option, none, some, List, Expected, ok, unexpected, if◌then◌else◌,
  get_or, length, leb, same_bytes, starts_with,
}
use cpp_onion.Core.Matcher.{CompiledPattern, matches}
use cpp_onion.Core.OnionAddress.{onion_address_from_pubkey}
use cpp_onion.Crypto.Keys.{Sodium, ExpandedSecretKey, pubkey_from_scalar}
use cpp_onion.Engine.{MatchCandidate}
use cpp_onion.Engine.Candidates.{no_pattern}

pub data VerifyError : Type 0 where
  pubkey_mismatch bad_pattern_index pattern_mismatch address_prefix_mismatch : VerifyError

pub record VerifiedResult : Type 0 where
  pub secret : ExpandedSecretKey
  pub pubkey : List ℕ
  pub address : List ℕ

-- The tests on a key that has been derived again and agrees.
unfoldable pub verify_key :
    MatchCandidate → List CompiledPattern → List ℕ → Expected VerifyError VerifiedResult
verify_key candidate patterns pk =
    let pattern = get_or patterns candidate.pattern_index no_pattern in
    let address = onion_address_from_pubkey pk in
    if leb (length patterns) candidate.pattern_index
    then unexpected bad_pattern_index
    else if not (matches pattern pk)
    then unexpected pattern_mismatch
    else if not (starts_with address pattern.prefix)
    then unexpected address_prefix_mismatch
    else ok (record { secret = candidate.secret; pubkey = pk; address = address })

-- The test on what `pubkey_from_scalar` gives.
unfoldable pub verify_derived :
    MatchCandidate → List CompiledPattern → Option (List ℕ) → Expected VerifyError VerifiedResult
unfolding verify_key
verify_derived candidate patterns none = unexpected pubkey_mismatch
verify_derived candidate patterns (some pk) =
    if not (same_bytes pk candidate.claimed_pubkey)
    then unexpected pubkey_mismatch
    else verify_key candidate patterns pk

unfoldable pub verify :
    Sodium → MatchCandidate → List CompiledPattern → Expected VerifyError VerifiedResult
unfolding verify_derived
verify sodium candidate patterns =
    verify_derived candidate patterns (pubkey_from_scalar sodium candidate.secret.scalar)

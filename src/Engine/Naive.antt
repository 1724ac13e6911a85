-- ===== src/Engine/Naive.antt =====
-- src/engine/cpu/naive_engine.cpp: one worker, and the order of its calls.
pub mod Sound
use cpp_onion.Base.{
  ℕ, zero, suc, ◌+◌, List, [], ◌∷◌, Bool, true, false, Option, none, some, if◌then◌else◌, u64,
}
use cpp_onion.Core.Matcher.{CompiledPattern, matches}
use cpp_onion.Crypto.Keys.{Sodium, ExpandedSecretKey, expand_seed, pubkey_from_scalar}
use cpp_onion.Engine.{MatchCandidate, ResultQueue, push, Worker, set_total}

-- `kCheckInterval`
abbrev pub check_interval : ℕ
check_interval = 256

module _ (sodium : Sodium) (patterns : List CompiledPattern) where
  -- The loop over the patterns from index `p` on.
  unfoldable pub push_matches :
      ExpandedSecretKey → List ℕ → ℕ → List CompiledPattern → ResultQueue → ResultQueue
  push_matches secret pk p [] results = results
  push_matches secret pk p (pattern ∷ rest) results = push_matches secret pk (p + 1) rest (
      if matches pattern pk
      then push sodium (record { secret = secret; claimed_pubkey = pk; pattern_index = p }) results
      else results)

  -- The test on the public key, and what follows for a key.
  unfoldable pub check_key : ExpandedSecretKey → Option (List ℕ) → Worker → Worker
  unfolding push_matches
  check_key secret none w = w
  check_key secret (some pk) w = record w {
    local_total = u64 (w.local_total + 1);
    results = push_matches secret pk 0 patterns w.results;
  }

  unfoldable pub naive_candidate : Worker → Worker
  unfolding check_key
  naive_candidate w =
      let secret = expand_seed sodium (sodium.randombytes w.calls 32) in
      check_key secret (pubkey_from_scalar sodium secret.scalar) (record w { calls = w.calls + 1 })

  unfoldable pub naive_candidates : ℕ → Worker → Worker
  unfolding naive_candidate
  naive_candidates zero w = w
  naive_candidates (suc n) w = naive_candidates n (naive_candidate w)

  -- The answers of `stop_requested()` in order; past their end it stays true.
  unfoldable pub naive_worker : ℕ → List Bool → Worker → Worker
  unfolding naive_candidates
  naive_worker index [] w = w
  naive_worker index (true ∷ polls) w = w
  naive_worker index (false ∷ polls) w =
      let w' = naive_candidates check_interval w in
      naive_worker index polls (record w' { stats = set_total index w'.local_total w'.stats })

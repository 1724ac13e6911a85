-- ===== src/Engine/Incremental.antt =====
-- src/engine/cpu/incremental_engine.cpp: one worker, its epochs and their batches.
pub mod Sound
pub mod Prefix
use cpp_onion.Base.{
  ℕ, zero, suc, ◌+◌, ◌/◌, List, [], ◌∷◌, Bool, true, false, Option, none, some, if◌then◌else◌, u64,
  length, ◌==◌,
}
use cpp_onion.Core.Matcher.{CompiledPattern, matches}
use cpp_onion.Crypto.Incremental.{Stepper, stepper, next_batch, scalar_add_8i}
use cpp_onion.Crypto.Keys.{Sodium, ExpandedSecretKey, clamp, pubkey_from_scalar}
use cpp_onion.Engine.{MatchCandidate, ResultQueue, push, Worker, set_total}

module _ (sodium : Sodium) (patterns : List CompiledPattern) where
  -- The test on the public key, and the push.
  unfoldable pub push_key : ExpandedSecretKey → ℕ → Option (List ℕ) → ResultQueue → ResultQueue
  push_key secret p none results = results
  push_key secret p (some pk) results =
      push sodium (record { secret = secret; claimed_pubkey = pk; pattern_index = p }) results

  -- A match of pattern `p` at the point of index `i`: the candidate with a fresh prefix.
  unfoldable pub push_found : List ℕ → ℕ → ℕ → Worker → Worker
  unfolding push_key
  push_found a0 i p w =
      let secret : ExpandedSecretKey = record {
        scalar = scalar_add_8i a0 i;
        prf_prefix = sodium.randombytes w.calls 32;
      } in
      record w {
        calls = w.calls + 1;
        results = push_key secret p (pubkey_from_scalar sodium secret.scalar) w.results;
      }

  -- The loop over the patterns from index `p` on.
  unfoldable pub try_patterns : List ℕ → ℕ → List ℕ → ℕ → List CompiledPattern → Worker → Worker
  unfolding push_found
  try_patterns a0 i y p [] w = w
  try_patterns a0 i y p (pattern ∷ rest) w =
      try_patterns a0 i y (p + 1) rest (if matches pattern y then push_found a0 i p w else w)

  -- The loop over the batch; `i` is `base_index + k`.
  unfoldable pub try_batch : List ℕ → ℕ → List (List ℕ) → Worker → Worker
  unfolding try_patterns
  try_batch a0 i [] w = w
  try_batch a0 i (y ∷ ys) w = try_batch a0 (u64 (i + 1)) ys (try_patterns a0 i y 0 patterns w)

  -- The batches of an epoch, with `left` of them to go; `stop_requested()` is asked before each.
  unfoldable pub epoch_batches :
      ℕ → ℕ → List ℕ → ℕ → Stepper → List Bool → Worker → Worker × List Bool
  unfolding try_batch
  epoch_batches index batch a0 zero s polls w = (w, polls)
  epoch_batches index batch a0 (suc left) s [] w = (w, [])
  epoch_batches index batch a0 (suc left) s (true ∷ polls) w = (w, [])
  epoch_batches index batch a0 (suc left) s (false ∷ polls) w =
      let r = next_batch batch s in
      let w' = try_batch a0 s.consumed r.1 w in
      let sum = u64 (w'.local_total + batch) in
      epoch_batches index batch a0 left r.0 polls
        (record w' { local_total = sum; stats = set_total index sum w'.stats })

  -- The epochs, on fuel; `none` when it runs out, and where the source divides by a batch of 0.
  unfoldable pub incremental_worker : ℕ → ℕ → ℕ → ℕ → List Bool → Worker → Option Worker
  unfolding epoch_batches clamp
  incremental_worker zero index batch epoch_candidates polls w = none
  incremental_worker (suc fuel) index batch epoch_candidates [] w = some w
  incremental_worker (suc fuel) index batch epoch_candidates (true ∷ polls) w = some w
  incremental_worker (suc fuel) index batch epoch_candidates (false ∷ polls) w =
      let a0 = clamp (sodium.randombytes w.calls 32) in
      let r =
        epoch_batches index batch a0 (epoch_candidates / batch) (stepper a0) polls
          (record w { calls = w.calls + 1 }) in
      let rest = incremental_worker fuel index batch epoch_candidates r.1 r.0 in
      if batch == 0 then none else rest

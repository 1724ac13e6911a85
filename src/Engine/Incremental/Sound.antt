-- ===== src/Engine/Incremental/Sound.antt =====
-- What the incremental engine reports, and that its worker ends.
use cpp_onion.Base.{
  ℕ, zero, suc, ◌+◌, ◌/◌, ◌<◌, ◌≤◌, ◌≡◌, refl, arith, List, [], ◌∷◌, ◌==◌, Bool, true, false,
  Option, some, none, All, if◌then◌else◌, length, u64,
}
use cpp_onion.Core.Matcher.{CompiledPattern, matches}
use cpp_onion.Crypto.Keys.{Sodium, ExpandedSecretKey, clamp, pubkey_from_scalar}
use cpp_onion.Crypto.Incremental.{Stepper, stepper, next_batch, scalar_add_8i}
use cpp_onion.Engine.{ResultQueue, Worker}
use cpp_onion.Engine.Candidates.{IsReported, IsRest, IsRest-all, IsRest-next, IsRest-here, push-All}
use cpp_onion.Engine.Incremental.{
  push_key, push_found, try_patterns, try_batch, epoch_batches, incremental_worker,
}

module _ (sodium : Sodium) (patterns : List CompiledPattern) where
  abbrev AllReported : ResultQueue → Type 0
  AllReported q = All (IsReported sodium patterns) q

  push_key-AllReported :
      (secret : ExpandedSecretKey) (p : ℕ) (o : Option (List ℕ)) (q : ResultQueue)
      → sodium.base_noclamp secret.scalar ≡ o
      → p < length patterns
      → AllReported q
      → AllReported (push_key sodium patterns secret p o q)
  unfolding push_key
  push_key-AllReported secret p none q e lt h = h
  push_key-AllReported secret p (some pk) q e lt h =
      push-All (IsReported sodium patterns) sodium _ q (record { derived = e; indexed = lt }) h

  push_found-AllReported :
      (a0 : List ℕ) (i p : ℕ) (w : Worker)
      → p < length patterns
      → AllReported w.results
      → AllReported (push_found sodium patterns a0 i p w).results
  unfolding push_found pubkey_from_scalar
  push_found-AllReported a0 i p w lt h =
      push_key-AllReported
        (record { scalar = scalar_add_8i a0 i; prf_prefix = sodium.randombytes w.calls 32 }) p _
        w.results refl lt h

  tried-AllReported :
      (a0 : List ℕ) (i p : ℕ) (hit : Bool) (w : Worker)
      → p < length patterns
      → AllReported w.results
      → AllReported (if hit then push_found sodium patterns a0 i p w else w).results
  tried-AllReported a0 i p true w lt h = push_found-AllReported a0 i p w lt h
  tried-AllReported a0 i p false w lt h = h

  try_patterns-AllReported :
      (a0 : List ℕ) (i : ℕ) (y : List ℕ) (p : ℕ) (rest : List CompiledPattern) (w : Worker)
      → IsRest patterns rest p
      → AllReported w.results
      → AllReported (try_patterns sodium patterns a0 i y p rest w).results
  unfolding try_patterns
  try_patterns-AllReported a0 i y p [] w tail h = h
  try_patterns-AllReported a0 i y p (pattern ∷ rest) w tail h =
      let (indexed, same) = IsRest-here patterns rest pattern p tail in
      let next = IsRest-next patterns rest pattern p tail in
      try_patterns-AllReported a0 i y (p + 1) rest _ next
        (tried-AllReported a0 i p (matches pattern y) w indexed h)

  try_batch-AllReported :
      (a0 : List ℕ) (i : ℕ) (ys : List (List ℕ)) (w : Worker)
      → AllReported w.results
      → AllReported (try_batch sodium patterns a0 i ys w).results
  unfolding try_batch
  try_batch-AllReported a0 i [] w h = h
  try_batch-AllReported a0 i (y ∷ ys) w h =
      try_batch-AllReported a0 (u64 (i + 1)) ys _
        (try_patterns-AllReported a0 i y 0 patterns w (IsRest-all patterns) h)

  epoch_batches-AllReported :
      (index batch : ℕ) (a0 : List ℕ) (left : ℕ) (s : Stepper) (polls : List Bool) (w : Worker)
      → AllReported w.results
      → AllReported (epoch_batches sodium patterns index batch a0 left s polls w).0.results
  unfolding epoch_batches
  epoch_batches-AllReported index batch a0 zero s polls w h = h
  epoch_batches-AllReported index batch a0 (suc left) s [] w h = h
  epoch_batches-AllReported index batch a0 (suc left) s (true ∷ polls) w h = h
  epoch_batches-AllReported index batch a0 (suc left) s (false ∷ polls) w h =
      epoch_batches-AllReported index batch a0 left (next_batch batch s).0 polls _
        (try_batch-AllReported a0 s.consumed (next_batch batch s).1 w h)

  -- An epoch asks at most as often as there are answers.
  epoch_batches-shorter :
      (index batch : ℕ) (a0 : List ℕ) (left : ℕ) (s : Stepper) (polls : List Bool) (w : Worker)
      → length (epoch_batches sodium patterns index batch a0 left s polls w).1 ≤ length polls
  unfolding epoch_batches
  epoch_batches-shorter index batch a0 zero s polls w = omega arith
  epoch_batches-shorter index batch a0 (suc left) s [] w = omega arith
  epoch_batches-shorter index batch a0 (suc left) s (true ∷ polls) w = omega arith
  epoch_batches-shorter index batch a0 (suc left) s (false ∷ polls) w =
      omega (arith, epoch_batches-shorter index batch a0 left (next_batch batch s).0 polls _)

  -- With a batch of at least one point and more fuel than there are answers before the stop, an incremental worker ends, and all it has
  -- pushed are candidates whose claimed key is that of their secret, with the index of a pattern.
  pub incremental_worker-AllReported :
      (fuel index batch epoch_candidates : ℕ) (polls : List Bool) (w : Worker)
      → 0 < batch
      → length polls < fuel
      → AllReported w.results
      → (w' : Worker) × (incremental_worker sodium patterns fuel index batch epoch_candidates polls
            w
          ≡ some w')
        × AllReported w'.results
  unfolding incremental_worker
  incremental_worker-AllReported zero index batch epoch_candidates polls w pos enough h =
      absurd (omega arith)
  incremental_worker-AllReported (suc fuel) index batch epoch_candidates [] w pos enough h =
      (w, refl, h)
  incremental_worker-AllReported (suc fuel) index batch epoch_candidates (true ∷ polls) w pos enough
        h =
      (w, refl, h)
  incremental_worker-AllReported (suc fuel) index batch epoch_candidates (false ∷ polls) w pos
        enough h =
      let some_points : (batch == 0) ≡ false = ground (arith, pos) in
      let a0 = clamp (sodium.randombytes w.calls 32) in
      let left = epoch_candidates / batch in
      let w1 = record w { calls = w.calls + 1 } in
      let r = epoch_batches sodium patterns index batch a0 left (stepper a0) polls w1 in
      rw some_points (
        incremental_worker-AllReported fuel index batch epoch_candidates r.1 r.0 pos
          (omega (arith, epoch_batches-shorter index batch a0 left (stepper a0) polls w1))
          (epoch_batches-AllReported index batch a0 left (stepper a0) polls w1 h))

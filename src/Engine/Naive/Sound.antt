-- ===== src/Engine/Naive/Sound.antt =====
-- Every candidate of the naive engine is a hit.
use cpp_onion.Base.{
  ℕ, zero, suc, ◌+◌, ◌≡◌, refl, ap, ◌∙◌, List, [], ◌∷◌, Bool, true, false, Option, some, none, inl,
  inr, All, Bool-cases,
}
use cpp_onion.Core.Matcher.{CompiledPattern, matches}
use cpp_onion.Crypto.Keys.{Sodium, ExpandedSecretKey, expand_seed, pubkey_from_scalar}
use cpp_onion.Engine.{ResultQueue, Worker}
use cpp_onion.Engine.Candidates.{IsHit, IsRest, IsRest-all, IsRest-next, IsRest-here, push-All}
use cpp_onion.Engine.Naive.{
  push_matches, check_key, naive_candidate, naive_candidates, naive_worker, check_interval,
}

module _ (sodium : Sodium) (patterns : List CompiledPattern) where
  abbrev AllHits : ResultQueue → Type 0
  AllHits q = All (IsHit sodium patterns) q

  push_matches-AllHits :
      (secret : ExpandedSecretKey) (pk : List ℕ) (p : ℕ) (rest : List CompiledPattern)
      (q : ResultQueue)
      → sodium.base_noclamp secret.scalar ≡ some pk
      → IsRest patterns rest p
      → AllHits q
      → AllHits (push_matches sodium patterns secret pk p rest q)
  unfolding push_matches
  push_matches-AllHits secret pk p [] q derived tail h = h
  push_matches-AllHits secret pk p (pattern ∷ rest) q derived tail h =
      let (indexed, same) = IsRest-here patterns rest pattern p tail in
      let next = IsRest-next patterns rest pattern p tail in
      elim (Bool-cases (matches pattern pk)) [
        | inl hit ↦ rw hit (
            push_matches-AllHits secret pk (p + 1) rest _ derived next (
              push-All (IsHit sodium patterns) sodium _ q
                (record {
                  reported = record { derived = derived; indexed = indexed };
                  matched = ap (λ (c : CompiledPattern). matches c pk) same ∙ hit;
                })
                h))
        | inr miss ↦ rw miss (push_matches-AllHits secret pk (p + 1) rest q derived next h)
      ]

  check_key-AllHits :
      (secret : ExpandedSecretKey) (o : Option (List ℕ)) (w : Worker)
      → sodium.base_noclamp secret.scalar ≡ o
      → AllHits w.results
      → AllHits (check_key sodium patterns secret o w).results
  unfolding check_key
  check_key-AllHits secret none w e h = h
  check_key-AllHits secret (some pk) w e h =
      push_matches-AllHits secret pk 0 patterns w.results e (IsRest-all patterns) h

  naive_candidate-AllHits :
      (w : Worker) → AllHits w.results → AllHits (naive_candidate sodium patterns w).results
  unfolding naive_candidate pubkey_from_scalar
  naive_candidate-AllHits w h =
      check_key-AllHits (expand_seed sodium (sodium.randombytes w.calls 32)) _
        (record w { calls = w.calls + 1 }) refl h

  naive_candidates-AllHits :
      (n : ℕ) (w : Worker)
      → AllHits w.results
      → AllHits (naive_candidates sodium patterns n w).results
  unfolding naive_candidates
  naive_candidates-AllHits zero w h = h
  naive_candidates-AllHits (suc n) w h =
      naive_candidates-AllHits n (naive_candidate sodium patterns w) (naive_candidate-AllHits w h)

  -- Whenever it is stopped, a naive worker has pushed only candidates whose claimed key is that of
  -- their secret and is matched by their pattern.
  pub naive_worker-AllHits :
      (index : ℕ) (polls : List Bool) (w : Worker)
      → AllHits w.results
      → AllHits (naive_worker sodium patterns index polls w).results
  unfolding naive_worker
  naive_worker-AllHits index [] w h = h
  naive_worker-AllHits index (true ∷ polls) w h = h
  naive_worker-AllHits index (false ∷ polls) w h =
      naive_worker-AllHits index polls _ (naive_candidates-AllHits check_interval w h)

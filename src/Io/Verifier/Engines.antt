-- ===== src/Io/Verifier/Engines.antt =====
-- What the engines report, as `verify` sees it.
use cpp_onion.Base.{
  ℕ, ◌<◌, ◌≡◌, refl, arith, Bool, true, false, some, List, [], ◌∷◌, Expected, ok, unexpected,
  get_or, length, same_bytes_self, starts_with, All, All-get_or, Bool-cases, inl, inr, IsBytes,
  IsByte, All-append, take, ◌⊎◌, ◌++◌,
}
use cpp_onion.Core.Matcher.{CompiledPattern, compile_prefix, matches}
use cpp_onion.Core.Matcher.Compile.{compile_prefix-IsCompiled}
use cpp_onion.Core.Matcher.Matches.{matches_iff}
use cpp_onion.Core.OnionAddress.{checksum, version, blob, onion_address_from_pubkey}
use cpp_onion.Crypto.Keys.{Sodium, IsSodium}
use cpp_onion.Core.Base32.{base32_encode}
use cpp_onion.Engine.{MatchCandidate, Worker}
use cpp_onion.Engine.Incremental.{incremental_worker}
use cpp_onion.Engine.Incremental.Sound.{incremental_worker-AllReported}
use cpp_onion.Engine.Naive.{naive_worker}
use cpp_onion.Engine.Naive.Sound.{naive_worker-AllHits}
use cpp_onion.Engine.Candidates.{no_pattern, IsReported, IsHit}
use cpp_onion.Io.Verifier.{VerifyError, pattern_mismatch, VerifiedResult, verify}
use cpp_onion.Core.OnionAddress.RoundTrip.{checksum-IsBytes}
use cpp_onion.Io.Verifier.Checks.{
  IsVerdict, not_derived, not_indexed, not_matched, not_prefixed, verified, result_of,
  verify-IsVerdict, true-false,
}

rest-IsBytes : (pk : List ℕ) → IsBytes (checksum pk ++ (version ∷ []))
rest-IsBytes pk = All-append IsByte (checksum pk) _ (checksum-IsBytes pk) (omega arith)

pub All-weaken {ℓ κ ι} :
    {A : Type ℓ} {P : A → Type κ} {Q : A → Type ι}
    → ((a : A) → P a → Q a)
    → (xs : List A) → All P xs
    → All Q xs
All-weaken f [] h = tt
All-weaken f (x ∷ xs) h = (f x h.0, All-weaken f xs h.1)

-- A hit whose address begins with the prefix has only one verdict.
verdict-hit :
    (sodium : Sodium) (c : MatchCandidate) (patterns : List CompiledPattern)
    (r : Expected VerifyError VerifiedResult)
    → IsHit sodium patterns c
    → starts_with
        (onion_address_from_pubkey c.claimed_pubkey)
        (get_or patterns c.pattern_index no_pattern).prefix
      ≡ true
    → IsVerdict sodium c patterns r
    → r ≡ ok (result_of c)
verdict-hit sodium c patterns _ hit same (not_derived none_given) =
    absurd (none_given hit.reported.derived)
verdict-hit sodium c patterns _ hit same (not_indexed e past) =
    absurd (let lt = hit.reported.indexed in omega (arith, lt, past))
verdict-hit sodium c patterns _ hit same (not_matched e miss) = absurd (true-false hit.matched miss)
verdict-hit sodium c patterns _ hit same (not_prefixed h other) = absurd (true-false same other)
verdict-hit sodium c patterns _ hit same (verified h e) = refl

-- A reported candidate whose pattern does not match has only one verdict.
verdict-miss :
    (sodium : Sodium) (c : MatchCandidate) (patterns : List CompiledPattern)
    (r : Expected VerifyError VerifiedResult)
    → IsReported sodium patterns c
    → matches (get_or patterns c.pattern_index no_pattern) c.claimed_pubkey ≡ false
    → IsVerdict sodium c patterns r
    → r ≡ unexpected pattern_mismatch
verdict-miss sodium c patterns _ h miss (not_derived none_given) = absurd (none_given h.derived)
verdict-miss sodium c patterns _ h miss (not_indexed e past) =
    absurd (let lt = h.indexed in omega (arith, lt, past))
verdict-miss sodium c patterns _ h miss (not_matched e k) = refl
verdict-miss sodium c patterns _ h miss (not_prefixed hit other) =
    absurd (true-false hit.matched miss)
verdict-miss sodium c patterns _ h miss (verified hit e) = absurd (true-false hit.matched miss)

-- The address of a key that a compiled pattern matches begins with the prefix.
matched-prefixed :
    (p pk : List ℕ) (pattern : CompiledPattern)
    → compile_prefix p ≡ ok pattern
    → IsBytes pk
    → length pk ≡ 32
    → matches pattern pk ≡ true
    → starts_with (onion_address_from_pubkey pk) pattern.prefix ≡ true
unfolding onion_address_from_pubkey blob
matched-prefixed p pk pattern compiled bytes len matched =
    let (is, k) = compile_prefix-IsCompiled p pattern compiled in
    let rest = checksum pk ++ (version ∷ []) in
    let begins : take (length p) (base32_encode (pk ++ rest)) ≡ p =
      (matches_iff p pattern pk rest compiled bytes (rest-IsBytes pk) len).0 matched in
    rw (k.same_prefix, begins) (same_bytes_self p)

-- Patterns that `compile_prefix` made.
abbrev pub AreCompiled : List CompiledPattern → Type 0
AreCompiled patterns =
    All (λ (c : CompiledPattern). (p : List ℕ) × (compile_prefix p ≡ ok c)) patterns

module _ (sodium : Sodium) (patterns : List CompiledPattern) where
  -- A hit of compiled patterns passes `verify`.
  pub hit-verified :
      (c : MatchCandidate)
      → IsSodium sodium
      → AreCompiled patterns
      → IsHit sodium patterns c
      → verify sodium c patterns ≡ ok (result_of c)
  hit-verified c law compiled hit =
      let (p, e) = All-get_or _ patterns c.pattern_index no_pattern compiled hit.reported.indexed in
      let (bytes, len) = law.pubkey_size c.secret.scalar c.claimed_pubkey hit.reported.derived in
      verdict-hit sodium c patterns (verify sodium c patterns) hit
        (matched-prefixed p c.claimed_pubkey _ e bytes len hit.matched)
        (verify-IsVerdict sodium c patterns)

  -- Whatever a naive worker pushes to an empty queue passes `verify`.
  pub naive_worker-verified :
      (index : ℕ) (polls : List Bool) (w : Worker)
      → IsSodium sodium
      → AreCompiled patterns
      → w.results ≡ []
      → All
          (λ (c : MatchCandidate). verify sodium c patterns ≡ ok (result_of c))
          (naive_worker sodium patterns index polls w).results
  naive_worker-verified index polls w law compiled empty =
      All-weaken (λ c. hit-verified c law compiled) _
        (naive_worker-AllHits sodium patterns index polls w (rw empty tt))

  -- A reported candidate can only fail because its pattern does not match the derived key.
  pub reported-verdict :
      (c : MatchCandidate)
      → IsSodium sodium
      → AreCompiled patterns
      → IsReported sodium patterns c
      → (verify sodium c patterns ≡ ok (result_of c))
        ⊎ (verify sodium c patterns ≡ unexpected pattern_mismatch)
  reported-verdict c law compiled reported =
      let (p, e) = All-get_or _ patterns c.pattern_index no_pattern compiled reported.indexed in
      let (bytes, len) = law.pubkey_size c.secret.scalar c.claimed_pubkey reported.derived in
      let pattern = get_or patterns c.pattern_index no_pattern in
      elim (Bool-cases (matches pattern c.claimed_pubkey)) [
        | inl hit ↦
            inl (hit-verified c law compiled (record { reported = reported; matched = hit }))
        | inr miss ↦ inr (
            verdict-miss sodium c patterns (verify sodium c patterns) reported miss
              (verify-IsVerdict sodium c patterns))
      ]

  -- With a batch of at least one point and more fuel than answers, for a libsodium that keeps its
  -- documentation and compiled patterns, an incremental worker ends, and what it has pushed to an empty
  -- queue passes `verify` or is refused with `pattern_mismatch`.
  pub incremental_worker-verdicts :
      (fuel index batch epoch_candidates : ℕ) (polls : List Bool) (w : Worker)
      → IsSodium sodium
      → AreCompiled patterns
      → 0 < batch
      → length polls < fuel
      → w.results ≡ []
      → (w' : Worker) × (incremental_worker sodium patterns fuel index batch epoch_candidates polls
            w
          ≡ some w')
        × All
            (λ (c : MatchCandidate).
              (verify sodium c patterns ≡ ok (result_of c))
              ⊎ (verify sodium c patterns ≡ unexpected pattern_mismatch))
            w'.results
  incremental_worker-verdicts fuel index batch epoch_candidates polls w law compiled pos enough
        empty =
      let (w', ends, reported) =
        incremental_worker-AllReported sodium patterns fuel index batch epoch_candidates polls w pos
          enough (rw empty tt) in
      (w', ends, All-weaken (λ c h. reported-verdict c law compiled h) w'.results reported)

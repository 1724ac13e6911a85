-- ===== src/Engine/Candidates.antt =====
-- What holds of the candidates that an engine reports.
use cpp_onion.Base.{
  ℕ, suc, ◌+◌, ◌<◌, ◌≡◌, ap, ◌∙◌, arith, List, [], ◌∷◌, some, true, length, get_or, All, All-append,
}
use cpp_onion.Core.Matcher.{CompiledPattern, matches}
use cpp_onion.Crypto.Keys.{Sodium, move_key}
use cpp_onion.Engine.{MatchCandidate, ResultQueue, push}

abbrev pub no_pattern : CompiledPattern
no_pattern = record { bytes = []; mask = []; nbytes = 0; prefix = [] }

-- The claimed key is that of the secret, and the index is that of a pattern.
pub record IsReported (sodium : Sodium) (patterns : List CompiledPattern) (c : MatchCandidate)
    : Type 0 where
  pub derived : sodium.base_noclamp c.secret.scalar ≡ some c.claimed_pubkey
  pub indexed : c.pattern_index < length patterns

-- Moreover, the pattern matches the claimed key.
pub record IsHit (sodium : Sodium) (patterns : List CompiledPattern) (c : MatchCandidate)
    : Type 0 where
  pub reported : IsReported sodium patterns c
  pub matched : matches (get_or patterns c.pattern_index no_pattern) c.claimed_pubkey ≡ true

pub push-All {κ} :
    (P : MatchCandidate → Type κ) (sodium : Sodium) (c : MatchCandidate) (q : ResultQueue)
    → P c
    → All P q
    → All P (push sodium c q)
unfolding push move_key
push-All P sodium c q h hq = All-append P q (c ∷ []) hq (h, tt)

-- `rest` holds the patterns from index `p` on.
pub record IsRest (patterns rest : List CompiledPattern) (p : ℕ) : Type 0 where
  pub counted : p + length rest ≡ length patterns
  pub same : (k : ℕ) → get_or patterns (p + k) no_pattern ≡ get_or rest k no_pattern

pub IsRest-all : (patterns : List CompiledPattern) → IsRest patterns patterns 0
IsRest-all patterns = record {
  counted = omega arith;
  same = λ k. ap (λ (i : ℕ). get_or patterns i no_pattern) (omega arith);
}

pub IsRest-next :
    (patterns rest : List CompiledPattern) (pattern : CompiledPattern) (p : ℕ)
    → IsRest patterns (pattern ∷ rest) p
    → IsRest patterns rest (p + 1)
IsRest-next patterns rest pattern p h = record {
  counted = omega (arith, h.counted);
  same = λ k. ap (λ (i : ℕ). get_or patterns i no_pattern) (omega arith) ∙ h.same (suc k);
}

pub IsRest-here :
    (patterns rest : List CompiledPattern) (pattern : CompiledPattern) (p : ℕ)
    → IsRest patterns (pattern ∷ rest) p
    → (p < length patterns) × (get_or patterns p no_pattern ≡ pattern)
IsRest-here patterns rest pattern p h = (
  omega (arith, h.counted),
  ap (λ (i : ℕ). get_or patterns i no_pattern) (omega arith) ∙ h.same 0,
)

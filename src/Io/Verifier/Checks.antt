-- ===== src/Io/Verifier/Checks.antt =====
-- What `verify` lets through, and what it says of the rest.
use cpp_onion.Base.{
  ℕ, ◌<◌, ◌≤◌, ◌≡◌, ◌≢◌, refl, sym, ap, ◌∙◌, arith, Bool, true, false, Option, none, some, List,
  Expected, ok, unexpected, get_or, length, leb, leb→le, same_bytes, same_bytes→eq, same_bytes_self,
  starts_with, Bool-cases, inl, inr,
}
use cpp_onion.Core.Matcher.{CompiledPattern, matches}
use cpp_onion.Core.OnionAddress.{onion_address_from_pubkey}
use cpp_onion.Crypto.Keys.{Sodium, pubkey_from_scalar}
use cpp_onion.Engine.{MatchCandidate}
use cpp_onion.Engine.Candidates.{no_pattern, IsReported, IsHit}
use cpp_onion.Io.Verifier.{
  VerifyError, pubkey_mismatch, bad_pattern_index, pattern_mismatch, address_prefix_mismatch,
  VerifiedResult, verify_key, verify_derived, verify,
}

-- The result that a candidate stands for.
abbrev pub result_of : MatchCandidate → VerifiedResult
result_of c = record {
  secret = c.secret;
  pubkey = c.claimed_pubkey;
  address = onion_address_from_pubkey c.claimed_pubkey;
}

-- What each answer says, the conditions of one excluding those of the others.
pub data IsVerdict (sodium : Sodium) (c : MatchCandidate) (patterns : List CompiledPattern)
    : Expected VerifyError VerifiedResult → Type 0 where
  not_derived :
      sodium.base_noclamp c.secret.scalar ≢ some c.claimed_pubkey
      → IsVerdict sodium c patterns (unexpected pubkey_mismatch)
  not_indexed :
      sodium.base_noclamp c.secret.scalar ≡ some c.claimed_pubkey
      → length patterns ≤ c.pattern_index
      → IsVerdict sodium c patterns (unexpected bad_pattern_index)
  not_matched :
      IsReported sodium patterns c
      → matches (get_or patterns c.pattern_index no_pattern) c.claimed_pubkey ≡ false
      → IsVerdict sodium c patterns (unexpected pattern_mismatch)
  not_prefixed :
      IsHit sodium patterns c
      → starts_with
          (onion_address_from_pubkey c.claimed_pubkey)
          (get_or patterns c.pattern_index no_pattern).prefix
        ≡ false
      → IsVerdict sodium c patterns (unexpected address_prefix_mismatch)
  verified :
      IsHit sodium patterns c
      → starts_with
          (onion_address_from_pubkey c.claimed_pubkey)
          (get_or patterns c.pattern_index no_pattern).prefix
        ≡ true
      → IsVerdict sodium c patterns (ok (result_of c))

pub true-false : {b : Bool} → b ≡ true → b ≡ false → ⊥
true-false e k = cc

sym_none : {o : Option (List ℕ)} {x : List ℕ} → o ≡ none → o ≡ some x → ⊥
sym_none e k = cc

some_inj : {x y : List ℕ} → some x ≡ some y → x ≡ y
some_inj e = cc

bool_apart : (x y : List ℕ) → same_bytes x y ≡ false → x ≢ y
bool_apart x y h e =
    let yes : same_bytes x y ≡ true = ap (same_bytes x) (sym e) ∙ same_bytes_self x in
    true-false yes h

module _ (sodium : Sodium) (c : MatchCandidate) (patterns : List CompiledPattern) where
  verify_key-IsVerdict :
      sodium.base_noclamp c.secret.scalar ≡ some c.claimed_pubkey
      → IsVerdict sodium c patterns (verify_key c patterns c.claimed_pubkey)
  unfolding verify_key
  verify_key-IsVerdict e =
      let pattern = get_or patterns c.pattern_index no_pattern in
      let address = onion_address_from_pubkey c.claimed_pubkey in
      elim (Bool-cases (leb (length patterns) c.pattern_index)) [
        | inl past ↦ rw past (not_indexed e (leb→le _ _ past))
        | inr within ↦
            let indexed : c.pattern_index < length patterns = ground (arith, within) in
            let reported : IsReported sodium patterns c = record {
              derived = e;
              indexed = indexed;
            } in
            elim (Bool-cases (matches pattern c.claimed_pubkey)) [
              | inr miss ↦ rw (within, miss) (not_matched reported miss)
              | inl matched ↦
                  let hit : IsHit sodium patterns c = record {
                    reported = reported;
                    matched = matched;
                  } in
                  elim (Bool-cases (starts_with address pattern.prefix)) [
                    | inr other ↦ rw (within, matched, other) (not_prefixed hit other)
                    | inl same ↦ rw (within, matched, same) (verified hit same)
                  ]
            ]
      ]

  verify_derived-IsVerdict :
      (o : Option (List ℕ))
      → sodium.base_noclamp c.secret.scalar ≡ o
      → IsVerdict sodium c patterns (verify_derived c patterns o)
  unfolding verify_derived
  verify_derived-IsVerdict none e = not_derived (λ k. absurd (sym_none e k))
  verify_derived-IsVerdict (some pk) e = elim (Bool-cases (same_bytes pk c.claimed_pubkey)) [
    | inr other ↦
        rw other
          (not_derived (λ k. absurd (bool_apart pk c.claimed_pubkey other (some_inj (sym e ∙ k)))))
    | inl same ↦
        let same' : pk ≡ c.claimed_pubkey = same_bytes→eq pk c.claimed_pubkey same in
        rw same (rw same' (verify_key-IsVerdict (e ∙ ap some same')))
  ]

  -- `verify` gives each of its errors, and success, exactly in its case, the checks in this order.
  pub verify-IsVerdict : IsVerdict sodium c patterns (verify sodium c patterns)
  unfolding verify pubkey_from_scalar
  verify-IsVerdict = verify_derived-IsVerdict (sodium.base_noclamp c.secret.scalar) refl

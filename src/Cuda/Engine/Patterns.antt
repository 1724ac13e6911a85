-- ===== src/Cuda/Engine/Patterns.antt =====
-- The patterns on the device match what the patterns of the host match.
use cpp_onion.Base.{
  ℕ, zero, suc, ◌+◌, ◌<◌, ◌≤◌, ◌≡◌, refl, ap, arith, Bool, false, not, ◌||◌, List, [], ◌∷◌, get_or,
  take, map, bit_and, ◌==◌, if◌then◌else◌, All,
}
use cpp_onion.Core.Matcher.{CompiledPattern, matches, matches_loop}
use cpp_onion.Cuda.Kernel.{masked_equal}
use cpp_onion.Cuda.Kernel.Count.{any_matches}
use cpp_onion.Cuda.Engine.{dev_pattern}

get_or-take : (xs : List ℕ) (n i : ℕ) → i < n → get_or (take n xs) i 0 ≡ get_or xs i 0
get_or-take xs zero i h = absurd (omega arith)
get_or-take [] (suc n) i h = refl
get_or-take (x ∷ xs) (suc n) zero h = refl
get_or-take (x ∷ xs) (suc n) (suc i) h = get_or-take xs n i (omega arith)

masked_equal-matches_loop :
    (p : CompiledPattern) (enc : List ℕ) (left b : ℕ)
    → b + left ≤ 32
    → masked_equal (dev_pattern p) enc left b ≡ matches_loop p enc left b
unfolding masked_equal matches_loop dev_pattern
masked_equal-matches_loop p enc zero b h = refl
masked_equal-matches_loop p enc (suc left) b h =
    rw (get_or-take p.mask 32 b (omega arith), get_or-take p.bytes 32 b (omega arith))
      (ap
        (λ (rest : Bool).
          if not (bit_and (get_or enc b 0) (get_or p.mask b 0) == get_or p.bytes b 0)
          then false
          else rest)
        (masked_equal-matches_loop p enc left (b + 1) (omega arith)))

-- Some pattern of the host matches the bytes.
abbrev some_matches : List CompiledPattern → List ℕ → Bool
some_matches [] enc = false
some_matches (p ∷ rest) enc = matches p enc || some_matches rest enc

-- With at most 32 bytes to compare in every pattern, the device finds a match exactly where the host
-- does.
any_matches-some_matches :
    (patterns : List CompiledPattern) (enc : List ℕ)
    → All (λ (p : CompiledPattern). p.nbytes ≤ 32) patterns
    → any_matches (map dev_pattern patterns) enc ≡ some_matches patterns enc
unfolding matches dev_pattern
any_matches-some_matches [] enc h = refl
any_matches-some_matches (p ∷ rest) enc h =
    rw
      (
        masked_equal-matches_loop p enc p.nbytes 0 (let k = h.0 in omega (arith, k)),
        any_matches-some_matches rest enc h.1,
      )
      refl

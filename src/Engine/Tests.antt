-- ===== src/Engine/Tests.antt =====
-- Keys, queue, counters and workers with a small stand-in for libsodium.
use cpp_onion.Base.{
  ℕ, zero, suc, ◌+◌, ◌*◌, ◌<◌, ◌%◌, ◌^◌, ◌≡◌, refl, subst, arith, List, [], ◌∷◌, some, ok, length,
  length-replicate, replicate, IsBytes, IsByte,
}
use cpp_onion.Core.Base32.{codes, find}
use cpp_onion.Core.Matcher.{CompiledPattern, compile_prefix, matches}
use cpp_onion.Crypto.Field.Numbers.{le_value}
use cpp_onion.Crypto.Point.{ge_basepoint, ge_encode}
use cpp_onion.Crypto.Incremental.{scalar_add_8i}
use cpp_onion.Crypto.Incremental.Batch.{affine_y}
use cpp_onion.Crypto.Keys.{Sodium, IsSodium, clamp, expand_seed}
use cpp_onion.Crypto.Keys.Clamp.{
  IsClamped, clamp-IsClamped, expand_seed-IsClamped, scalar_add_8i-IsClamped,
}
use cpp_onion.Engine.{MatchCandidate, Worker, pop_wait_for}
use cpp_onion.Engine.Queue.{push_all, pop_wait_for-push}
use cpp_onion.Engine.Incremental.Prefix.{matches-ge_encode}

pub replicate-IsBytes : (n b : ℕ) → IsByte b → IsBytes (replicate n b)
replicate-IsBytes zero b h = tt
replicate-IsBytes (suc n) b h = (h, replicate-IsBytes n b h)

abbrev pub ab_key : List ℕ
ab_key = 0 ∷ 0x7f ∷ replicate 30 9

-- Every scalar has the same key, every hash is the same.
abbrev pub toy : Sodium
toy = record {
  sha512 = λ m. replicate 64 255;
  base_noclamp = λ a. some ab_key;
  memzero = λ xs. replicate (length xs) 0;
  randombytes = λ k n. replicate n 5;
}

some_inj : {x y : List ℕ} → some x ≡ some y → x ≡ y
some_inj e = cc

pub toy_law : IsSodium toy
toy_law = record {
  sha512_size = λ m. (replicate-IsBytes 64 255 (omega arith), refl);
  pubkey_size = λ a pk e.
      subst (λ (k : List ℕ). IsBytes k × (length k ≡ 32)) (some_inj e) (omega arith, refl);
  random_size = λ k n. (replicate-IsBytes n 5 (omega arith), length-replicate n 5);
  zeroed = λ xs. refl;
}

abbrev pub ab : CompiledPattern
ab = record {
  bytes = 0 ∷ 0x40 ∷ replicate 30 0;
  mask = 0xff ∷ 0xc0 ∷ replicate 30 0;
  nbytes = 2;
  prefix = codes "ab";
}

pub ab_compiles : compile_prefix (codes "ab") ≡ ok ab
unfolding compile_prefix find
ab_compiles = refl

abbrev pub patterns : List CompiledPattern
patterns = ab ∷ []

expand_seed-IsClamped_example :
    IsClamped (expand_seed toy []).scalar × (length (expand_seed toy []).prf_prefix ≡ 32)
expand_seed-IsClamped_example = expand_seed-IsClamped toy [] toy_law

clamp-IsClamped_example : IsClamped (clamp (replicate 32 255))
clamp-IsClamped_example =
    clamp-IsClamped (replicate 32 255) (replicate-IsBytes 32 255 (omega arith)) refl

abbrev low_scalar : List ℕ
low_scalar = clamp (replicate 32 0)

low_small : le_value low_scalar + 3 * 8 % 2 ^ 64 < 2 ^ 255
unfolding clamp
low_small = omega arith

scalar_add_8i-IsClamped_example : IsClamped (scalar_add_8i low_scalar 3)
scalar_add_8i-IsClamped_example =
    scalar_add_8i-IsClamped low_scalar 3
      (clamp-IsClamped (replicate 32 0) (replicate-IsBytes 32 0 (omega arith)) refl) low_small

matches-ge_encode_example : matches ab (affine_y ge_basepoint) ≡ matches ab (ge_encode ge_basepoint)
matches-ge_encode_example = matches-ge_encode (codes "ab") ab ge_basepoint ab_compiles

abbrev pub candidate : ℕ → MatchCandidate
candidate n = record {
  secret = record { scalar = replicate 32 n; prf_prefix = replicate 32 1 };
  claimed_pubkey = ab_key;
  pattern_index = 0;
}

pop_wait_for-push_example :
    pop_wait_for toy (push_all toy (candidate 3 ∷ []) (candidate 1 ∷ (candidate 2 ∷ [])))
    ≡ (some (candidate 1), push_all toy (candidate 3 ∷ []) (candidate 2 ∷ []))
pop_wait_for-push_example =
    pop_wait_for-push toy (candidate 1) (candidate 2 ∷ []) (candidate 3 ∷ [])

abbrev pub idle_worker : Worker
idle_worker = record { calls = 0; local_total = 0; results = []; stats = 0 ∷ (0 ∷ []) }

-- ===== src/Engine/Incremental/Prefix.antt =====
-- Why the engine may match the bytes of y without the sign bit of x.
use cpp_onion.Base.{
  ℕ, zero, suc, ◌+◌, ◌<◌, ◌≤◌, ◌≡◌, refl, sym, arith, List, ok, get_or, get_or-set_other,
}
use cpp_onion.Core.Matcher.{CompiledPattern, compile_prefix, matches, matches_loop}
use cpp_onion.Core.Matcher.Compile.{compile_prefix-IsCompiled}
use cpp_onion.Crypto.Point.{GeP3, ge_encode}
use cpp_onion.Crypto.Incremental.Batch.{affine_y}

-- Keys that agree on the first 31 bytes match the same patterns of at most 31 bytes.
matches_loop-agree :
    (c : CompiledPattern) (xs ys : List ℕ) (left i : ℕ)
    → i + left ≤ 31
    → ((j : ℕ) → j < 31 → get_or xs j 0 ≡ get_or ys j 0)
    → matches_loop c xs left i ≡ matches_loop c ys left i
unfolding matches_loop
matches_loop-agree c xs ys zero i bound same = refl
matches_loop-agree c xs ys (suc left) i bound same =
    rw (same i (omega arith), matches_loop-agree c xs ys left (i + 1) (omega arith) same) refl

-- A compiled pattern matches the y-bytes of a point exactly if it matches the encoding of the point, of
-- which the last byte also holds the sign of x.
pub matches-ge_encode :
    (p : List ℕ) (c : CompiledPattern) (point : GeP3)
    → compile_prefix p ≡ ok c
    → matches c (affine_y point) ≡ matches c (ge_encode point)
unfolding matches ge_encode
matches-ge_encode p c point compiled =
    let (is, k) = compile_prefix-IsCompiled p c compiled in
    let counted = k.counted in
    let long = k.admissible in
    matches_loop-agree c (affine_y point) (ge_encode point) c.nbytes 0
      (omega (arith, counted, long.1))
      (λ j lt. sym (get_or-set_other (affine_y point) 31 j _ (omega (arith, lt))))

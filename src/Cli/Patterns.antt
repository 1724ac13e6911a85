-- ===== src/Cli/Patterns.antt =====
-- The patterns of the command line.
use cpp_onion.Base.{
  ℕ, ◌≤◌, ◌≡◌, refl, sym, ap, ◌∙◌, arith, min, List, [], ◌∷◌, ◌++◌, Expected, ok, unexpected,
  length, All, All-append, map, append_assoc, append-nil, subst,
}
use cpp_onion.Core.Matcher.{MatcherError, CompiledPattern, compile_prefix}
use cpp_onion.Core.Matcher.Compile.{compile_prefix-IsCompiled}
use cpp_onion.Cli.{size_max, compile_next, compile_all}
use cpp_onion.Io.Verifier.Engines.{AreCompiled}

abbrev prefixes_of : List CompiledPattern → List (List ℕ)
prefixes_of patterns = map (λ (c : CompiledPattern). c.prefix) patterns

pub record IsCompiledAll (start : ℕ) (before : List CompiledPattern) (prefixes : List (List ℕ))
    (r : ℕ × List CompiledPattern) : Type 0 where
  pub each : AreCompiled r.1
  pub in_order : prefixes_of r.1 ≡ prefixes_of before ++ prefixes
  pub least : All (λ (p : List ℕ). r.0 ≤ length p) prefixes
  pub at_most : r.0 ≤ start

failed_ok : {p : List ℕ} {r : ℕ × List CompiledPattern} → unexpected p ≡ ok r → ⊥
failed_ok e = cc

ok_inj :
    {x y : ℕ × List CompiledPattern}
    → ◌≡◌ {A = Expected (List ℕ) (ℕ × List CompiledPattern)} (ok x) (ok y)
    → x ≡ y
ok_inj e = cc

map-append :
    (xs ys : List CompiledPattern) → prefixes_of (xs ++ ys) ≡ prefixes_of xs ++ prefixes_of ys
map-append [] ys = refl
map-append (x ∷ xs) ys = ap (◌∷◌ x.prefix) (map-append xs ys)

compile_next-ok :
    (p : List ℕ) (x : Expected MatcherError CompiledPattern)
    (next : CompiledPattern → Expected (List ℕ) (ℕ × List CompiledPattern))
    (r : ℕ × List CompiledPattern)
    → compile_next p x next ≡ ok r
    → (c : CompiledPattern) × (x ≡ ok c) × (next c ≡ ok r)
unfolding compile_next
compile_next-ok p (unexpected e) next r h = absurd (failed_ok h)
compile_next-ok p (ok c) next r h = (c, refl, h)

compile_all_lem :
    (start : ℕ) (before : List CompiledPattern) (prefixes : List (List ℕ))
    (r : ℕ × List CompiledPattern)
    → AreCompiled before
    → compile_all start before prefixes ≡ ok r
    → IsCompiledAll start before prefixes r
unfolding compile_all
compile_all_lem start before [] r h e =
    let same : (start, before) ≡ r = ok_inj e in
    subst (IsCompiledAll start before []) same (record {
      each = h;
      in_order = sym (append-nil (prefixes_of before));
      least = tt;
      at_most = omega arith;
    })
compile_all_lem start before (p ∷ prefixes) r h e =
    let (c, compiled, rest) =
      compile_next-ok p (compile_prefix p)
        (λ k. compile_all (min start (length p)) (before ++ (k ∷ [])) prefixes) r e in
    let (is, k) = compile_prefix-IsCompiled p c compiled in
    let all : AreCompiled (before ++ (c ∷ [])) =
      All-append _ before (c ∷ []) h ((p, compiled), tt) in
    let ih = compile_all_lem (min start (length p)) (before ++ (c ∷ [])) prefixes r all rest in
    let bound = ih.at_most in
    record {
      each = ih.each;
      in_order =
          ih.in_order
          ∙ ap (λ (t : List (List ℕ)). t ++ prefixes)
              (map-append before (c ∷ [])
                ∙ ap (λ (t : List ℕ). prefixes_of before ++ (t ∷ [])) k.same_prefix)
          ∙ append_assoc (prefixes_of before) (p ∷ []) prefixes;
      least = (omega (arith, bound), ih.least);
      at_most = omega (arith, bound);
    }

-- When all prefixes of the command line compile, there is one compiled pattern for each of them, in
-- their order, and `shortest` is at most the length of any.
pub compile_all-IsCompiledAll :
    (prefixes : List (List ℕ)) (r : ℕ × List CompiledPattern)
    → compile_all size_max [] prefixes ≡ ok r
    → IsCompiledAll size_max [] prefixes r
compile_all-IsCompiledAll prefixes r e = compile_all_lem size_max [] prefixes r tt e

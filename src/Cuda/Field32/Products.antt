-- ===== src/Cuda/Field32/Products.antt =====
-- The product of device_field32.cuh and its weak reduction.
use cpp_onion.Base.{
  ℕ, zero, suc, ◌+◌, ◌*◌, ◌/◌, ◌%◌, ◌^◌, ◌<◌, ◌≡◌, sym, ap, subst, ◌∙◌, arith, List, [], ◌∷◌, ◌++◌,
  length, All-take, length-take, length-drop, take, drop, replicate, take-append-drop, u64,
}
use cpp_onion.Crypto.Field.Value.{◌≅◌}
use cpp_onion.Cuda.Field32.{
  Fe, carry_words, each_word, ripple, fold_carry, mul_rows, fed32_reduce_wide, fed_mul,
}
use cpp_onion.Cuda.Field32.Loops.{
  word_value, IsWords, span, span-suc, carry_words-value, each_word-value, mul_rows-value,
}
use cpp_onion.Cuda.Field32.Sums.{IsElement, IsElement-lt, ripple-IsElement, fold_carry-IsElement}

-- The part above 2^256 comes down as 38 times itself.
abbrev pub folded : ℕ → ℕ
folded w = w % 2 ^ 256 + 38 * (w / 2 ^ 256)

word_value-append :
    (xs ys : List ℕ) → word_value (xs ++ ys) ≡ word_value xs + span (length xs) * word_value ys
word_value-append [] ys = omega arith
word_value-append (x ∷ xs) ys =
    omega (arith, word_value-append xs ys, ap (λ (t : ℕ). t * word_value ys) (span-suc (length xs)))

All-drop : (n : ℕ) (xs : List ℕ) → IsWords xs → IsWords (drop n xs)
All-drop zero xs h = h
All-drop (suc n) [] h = tt
All-drop (suc n) (x ∷ xs) h = All-drop n xs h.1

-- The two halves of sixteen words.
halves :
    (r : List ℕ)
    → length r ≡ 16
    → word_value r ≡ word_value (take 8 r) + 2 ^ 256 * word_value (drop 8 r)
halves r h =
    let n : length (take 8 r) ≡ 8 = omega (arith, length-take 8 r) in
    ap word_value (sym (take-append-drop 8 r))
    ∙ word_value-append (take 8 r) (drop 8 r)
    ∙ ap (λ (k : ℕ). word_value (take 8 r) + span k * word_value (drop 8 r)) n

folded-cong : (w : ℕ) → folded w ≅ w
folded-cong w = omega arith

-- The last fold adds 1 where it should add 38.
settle :
    (f out k r l : ℕ)
    → out + 2 ^ 256 * k ≡ f
    → f < 2 ^ 256 + 38 * 2 ^ 32
    → r + 2 ^ 256 * l ≡ out + k
    → out < 2 ^ 256
    → r < 2 ^ 256
    → r + 37 * (f / 2 ^ 256) ≅ f
settle f out k r l e small e' ho hr = omega (arith, e, small, e', ho, hr)

halves-IsWords :
    (r : List ℕ) → IsWords r → length r ≡ 16 → IsElement (take 8 r) × IsElement (drop 8 r)
halves-IsWords r h len = (
  record { words = All-take (λ (w : ℕ). w < 2 ^ 32) 8 r h; eight = omega (arith, length-take 8 r) },
  record { words = All-drop 8 r h; eight = omega (arith, length-drop 8 r) },
)

-- The weak reduction, with the second fold counted.
pub fed32_reduce_wide-value :
    (r : List ℕ)
    → IsWords r
    → length r ≡ 16
    → (word_value (fed32_reduce_wide r) + 37 * (folded (folded (word_value r)) / 2 ^ 256)
        ≅ word_value r)
      × IsElement (fed32_reduce_wide r)
unfolding fed32_reduce_wide
fed32_reduce_wide-value r h len =
    let f = λ (lo hi : ℕ). u64 (lo + u64 (38 * hi)) in
    let acc = each_word f (take 8 r) (drop 8 r) in
    let (low, high) = halves-IsWords r h len in
    let (e, small, same) =
      each_word-value f 38 (omega arith) (λ x y hx hy. omega (arith, hx, hy)) (take 8 r) (drop 8 r)
        low.words high.words (omega (arith, low.eight, high.eight)) in
    let (e1, words, same1, bound) = carry_words-value acc 0 small (omega arith) in
    let carried = carry_words acc 0 in
    let first : IsElement carried.0 = record { words = words; eight = same1 ∙ same ∙ low.eight } in
    let t : span (length acc) * carried.1 ≡ 2 ^ 256 * carried.1 =
      ap (λ (n : ℕ). span n * carried.1) (same ∙ low.eight) in
    let (e2, second) = fold_carry-IsElement carried.0 first carried.1 bound in
    let out = fold_carry carried in
    let lt0 = IsElement-lt carried.0 first in
    let (e3, third) = ripple-IsElement out.0 second out.1 (omega (arith, e2, lt0, bound)) in
    let whole : folded (word_value r) ≡ word_value carried.0 + 2 ^ 256 * carried.1 =
      omega (arith, e, e1, t, halves r len, IsElement-lt (take 8 r) low) in
    let again : folded (folded (word_value r)) ≡ word_value carried.0 + 38 * carried.1 =
      omega (arith, whole, lt0) in
    let last =
      settle (folded (folded (word_value r))) (word_value out.0) out.1
        (word_value (ripple out.0 out.1).0) (ripple out.0 out.1).1 (e2 ∙ sym again)
        (omega (arith, again, lt0, bound)) e3 (IsElement-lt out.0 second)
        (IsElement-lt (ripple out.0 out.1).0 third) in
    (last ∙ folded-cong (folded (word_value r)) ∙ folded-cong (word_value r), third)

-- The product is right when two folds bring it below 2^256; otherwise it is 37 short modulo the
-- prime.
pub fed_mul-value :
    (a b : Fe)
    → IsElement a
    → IsElement b
    → (word_value (fed_mul a b) + 37 * (folded (folded (word_value a * word_value b)) / 2 ^ 256)
        ≅ word_value a * word_value b)
      × IsElement (fed_mul a b)
unfolding fed_mul
fed_mul-value a b ha hb =
    let (e, words, same) =
      mul_rows-value a b (replicate 16 0) ha.words hb.words (omega arith)
        (omega (arith, ha.eight, hb.eight)) (omega (arith, ap span hb.eight)) in
    subst
      (λ (w : ℕ).
        (word_value (fed_mul a b) + 37 * (folded (folded w) / 2 ^ 256) ≅ w)
        × IsElement (fed_mul a b))
      (e ∙ omega arith) (fed32_reduce_wide-value (mul_rows a b (replicate 16 0)) words same)

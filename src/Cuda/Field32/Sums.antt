-- ===== src/Cuda/Field32/Sums.antt =====
-- The sum and the difference of device_field32.cuh, and when the last fold is enough.
use cpp_onion.Base.{
  Bool, true, false, ltb, leb, ℕ, zero, suc, ◌+◌, ◌-◌, ◌*◌, ◌^◌, ◌<◌, ◌≡◌, ap, ◌∙◌, arith, List,
  length, u64,
}
use cpp_onion.Crypto.Field.Value.{prime, ◌≅◌}
use cpp_onion.Cuda.Field32.{
  Fe, carry_words, each_word, ripple, fold_carry, sub_words, fold_signed, fed_add, fed_sub, twop,
}
use cpp_onion.Cuda.Field32.Loops.{
  word_value, IsWords, span, word_value-lt, carry_words-value, ripple-value, sub_words-value,
  each_word-value,
}

-- An element: eight words of 32 bits.
pub record IsElement (a : Fe) : Type 0 where
  pub words : IsWords a
  pub eight : length a ≡ 8

pub IsElement-lt : (a : Fe) → IsElement a → word_value a < 2 ^ 256
IsElement-lt a h =
    let e : span (length a) ≡ 2 ^ 256 = ap span h.eight in omega (arith, word_value-lt a h.words, e)

module _ (ws : List ℕ) (h : IsElement ws) where
  pub ripple-IsElement :
      (fold : ℕ)
      → fold < 2 ^ 63
      → let r = ripple ws fold in
        (word_value r.0 + 2 ^ 256 * r.1 ≡ word_value ws + fold) × IsElement r.0
  ripple-IsElement fold k =
      let (e, words, same) = ripple-value ws fold h.words k in
      let t : span (length ws) * (ripple ws fold).1 ≡ 2 ^ 256 * (ripple ws fold).1 =
        ap (λ (n : ℕ). span n * (ripple ws fold).1) h.eight in
      (omega (arith, e, t), record { words = words; eight = same ∙ h.eight })

  pub fold_carry-IsElement :
      (carry : ℕ)
      → carry < 2 ^ 32
      → let r = fold_carry (ws, carry) in
        (word_value r.0 + 2 ^ 256 * r.1 ≡ word_value ws + 38 * carry) × IsElement r.0
  unfolding fold_carry
  fold_carry-IsElement carry k =
      let small : u64 (carry * 38) ≡ 38 * carry = omega (arith, k) in
      let (e, element) = ripple-IsElement (u64 (carry * 38)) (omega (arith, small, k)) in
      (omega (arith, e, small), element)

-- The sum of two elements, with the carry past the eighth word.
sum_words :
    (a b : Fe)
    → IsElement a
    → IsElement b
    → let r = carry_words (each_word (λ (x y : ℕ). u64 (x + y)) a b) 0 in
      (word_value r.0 + 2 ^ 256 * r.1 ≡ word_value a + word_value b)
      × IsElement r.0
      × (r.1 < 2 ^ 32)
sum_words a b ha hb =
    let f = λ (x y : ℕ). u64 (x + y) in
    let (e, small, same) =
      each_word-value f 1 (omega arith) (λ x y hx hy. omega (arith, hx, hy)) a b ha.words hb.words
        (omega (arith, ha.eight, hb.eight)) in
    let (e', words, same', bound) = carry_words-value (each_word f a b) 0 small (omega arith) in
    let t = ap (λ (n : ℕ). span n * (carry_words (each_word f a b) 0).1) (same ∙ ha.eight) in
    (omega (arith, e, e', t), record { words = words; eight = same' ∙ same ∙ ha.eight }, bound)

-- What a case adds to the least residue.
abbrev pub missed : Bool → ℕ
missed true = 38
missed false = 0

-- The sum is right below 2^257 - 38, and from there on 38 short modulo the prime.
pub fed_add-value :
    (a b : Fe)
    → IsElement a
    → IsElement b
    → (word_value (fed_add a b) + missed (leb (2 ^ 257 - 38) (word_value a + word_value b))
        ≅ word_value a + word_value b)
      × IsElement (fed_add a b)
unfolding fed_add
fed_add-value a b ha hb =
    let (e, element, bound) = sum_words a b ha hb in
    let r = carry_words (each_word (λ (x y : ℕ). u64 (x + y)) a b) 0 in
    let (e', element') = fold_carry-IsElement r.0 element r.1 bound in
    let top = IsElement-lt (fold_carry r).0 element' in
    let low = IsElement-lt r.0 element in
    let small = IsElement-lt a ha in
    let small' = IsElement-lt b hb in (ground (arith, e, e', top, low, small, small'), element')

-- The cases of the top word, for a difference of `x` and `y` that was raised by twice the prime.
fold_signed-value :
    (carry borrow x y : ℕ) (out : Fe)
    → IsElement out
    → carry < 2
    → borrow < 2
    → x < 2 ^ 256
    → y < 2 ^ 256
    → word_value out + 2 ^ 256 * carry + y ≡ x + (2 ^ 256 - 38) + 2 ^ 256 * borrow
    → let r = fold_signed carry borrow out in
      (word_value r + y ≅ x + missed (ltb (x + 2 * prime) y)) × IsElement r
unfolding fold_signed
fold_signed-value zero zero x y out h kc kb hx hy e = (ground (arith, e), h)
fold_signed-value (suc zero) (suc zero) x y out h kc kb hx hy e = (ground (arith, e), h)
fold_signed-value (suc zero) zero x y out h kc kb hx hy e =
    let (e', element) = ripple-IsElement out h 38 (omega arith) in
    let top = IsElement-lt (ripple out 38).0 element in (ground (arith, e, e', top, hx), element)
fold_signed-value zero (suc zero) x y out h kc kb hx hy e =
    let (e', element) = ripple-IsElement out h 38 (omega arith) in
    let top = IsElement-lt (ripple out 38).0 element in
    let low = IsElement-lt out h in (ground (arith, e, e', top, low, hy), element)
fold_signed-value (suc (suc n)) borrow x y out h kc kb hx hy e = absurd (omega arith)
fold_signed-value zero (suc (suc n)) x y out h kc kb hx hy e = absurd (omega arith)
fold_signed-value (suc zero) (suc (suc n)) x y out h kc kb hx hy e = absurd (omega arith)

twop-IsElement : IsElement twop
twop-IsElement = record { words = omega arith; eight = omega arith }

-- The difference is right unless `b` exceeds `a` by more than twice the prime; there it is 38 too
-- large modulo the prime.
pub fed_sub-value :
    (a b : Fe)
    → IsElement a
    → IsElement b
    → (word_value (fed_sub a b) + word_value b
        ≅ word_value a + missed (ltb (word_value a + 2 * prime) (word_value b)))
      × IsElement (fed_sub a b)
unfolding fed_sub
fed_sub-value a b ha hb =
    let (e, element, bound) = sum_words a twop ha twop-IsElement in
    let raised = carry_words (each_word (λ (x y : ℕ). u64 (x + y)) a twop) 0 in
    let (e', words, same, borrow) =
      sub_words-value raised.0 b 0 element.words hb.words (omega (arith, element.eight, hb.eight))
        (omega arith) in
    let lowered = sub_words raised.0 b 0 in
    let t : span (length raised.0) * lowered.1 ≡ 2 ^ 256 * lowered.1 =
      ap (λ (n : ℕ). span n * lowered.1) element.eight in
    let small = IsElement-lt a ha in
    fold_signed-value raised.1 lowered.1 (word_value a) (word_value b) lowered.0
      (record { words = words; eight = same ∙ element.eight }) (omega (arith, e, small)) borrow
      small (IsElement-lt b hb) (omega (arith, e, e', t))

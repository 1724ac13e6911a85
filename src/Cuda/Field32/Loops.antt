-- ===== src/Cuda/Field32/Loops.antt =====
-- What the word loops of device_field32.cuh do to the number that the words stand for.
use cpp_onion.Base.{
  ℕ, zero, suc, ◌+◌, ◌-◌, ◌*◌, ◌^◌, ◌<◌, ◌≤◌, ◌≡◌, refl, ap, ◌∙◌, arith, List, [], ◌∷◌, get_or,
  drop, length, All, u32, u64, ◌>>>◌,
}
use native.Mathlib.Nat.{pow-suc, mul-le-mul}
use cpp_onion.Cuda.Field32.{carry_words, ripple, sub_words, each_word, mul_row, mul_rows}

abbrev pub word_value : List ℕ → ℕ
word_value [] = 0
word_value (w ∷ ws) = w + 2 ^ 32 * word_value ws

abbrev pub IsWords : List ℕ → Type 0
IsWords = All (λ (w : ℕ). w < 2 ^ 32)

-- One past the largest number of `n` words.
abbrev pub span : ℕ → ℕ
span n = (2 ^ 32) ^ n

pub span-suc : (n : ℕ) → span (suc n) ≡ 2 ^ 32 * span n
span-suc n = omega (arith, pow-suc (2 ^ 32) n)

pub word_value-lt : (ws : List ℕ) → IsWords ws → word_value ws < span (length ws)
word_value-lt [] h = omega arith
word_value-lt (w ∷ ws) h = omega (arith, span-suc (length ws), word_value-lt ws h.1, h.0)

-- The carry loop keeps the sum; a carry is below 2^32.
pub carry_words-value :
    (acc : List ℕ) (carry : ℕ)
    → All (λ (a : ℕ). a < 2 ^ 63) acc
    → carry < 2 ^ 32
    → let r = carry_words acc carry in
      (word_value r.0 + span (length acc) * r.1 ≡ word_value acc + carry)
      × IsWords r.0
      × (length r.0 ≡ length acc)
      × (r.1 < 2 ^ 32)
unfolding carry_words
carry_words-value [] carry h k = (omega arith, tt, refl, k)
carry_words-value (a ∷ acc) carry h k =
    let next = u64 (a + carry) >>> 32 in
    let (e, words, same, small) = carry_words-value acc next h.1 (omega (arith, h.0, k)) in
    (
      omega
          (arith, e, ap (λ (t : ℕ). t * (carry_words acc next).1) (span-suc (length acc)), h.0, k),
      (omega arith, words),
      ap suc same,
      small,
    )

-- The conditional loop adds `fold`, up to one carry.
pub ripple-value :
    (ws : List ℕ) (fold : ℕ)
    → IsWords ws
    → fold < 2 ^ 63
    → let r = ripple ws fold in
      (word_value r.0 + span (length ws) * r.1 ≡ word_value ws + fold)
      × IsWords r.0
      × (length r.0 ≡ length ws)
unfolding ripple
ripple-value [] fold h k = (omega arith, tt, refl)
ripple-value (w ∷ ws) zero h k = (omega arith, h, refl)
ripple-value (w ∷ ws) (suc fold) h k =
    let next = u64 (w + suc fold) >>> 32 in
    let (e, words, same) = ripple-value ws next h.1 (omega (arith, h.0, k)) in
    (
      omega (arith, e, ap (λ (t : ℕ). t * (ripple ws next).1) (span-suc (length ws)), h.0, k),
      (omega arith, words),
      ap suc same,
    )

-- The borrowing loop.
pub sub_words-value :
    (xs ys : List ℕ) (borrow : ℕ)
    → IsWords xs
    → IsWords ys
    → length xs ≡ length ys
    → borrow < 2
    → let r = sub_words xs ys borrow in
      (word_value r.0 + word_value ys + borrow ≡ word_value xs + span (length xs) * r.1)
      × IsWords r.0
      × (length r.0 ≡ length xs)
      × (r.1 < 2)
unfolding sub_words
sub_words-value [] [] borrow hx hy len k = (omega arith, tt, refl, k)
sub_words-value [] (y ∷ ys) borrow hx hy len k = absurd (omega arith)
sub_words-value (x ∷ xs) [] borrow hx hy len k = absurd (omega arith)
sub_words-value (x ∷ xs) (y ∷ ys) borrow hx hy len k =
    let d = u64 (u64 (x + 2 ^ 64 - y) + 2 ^ 64 - borrow) in
    let (e, words, same, small) =
      sub_words-value xs ys (d >>> 63) hx.1 hy.1 (omega arith) (omega (arith, hx.0, hy.0, k)) in
    (
      omega (
        arith,
        e,
        ap (λ (t : ℕ). t * (sub_words xs ys (d >>> 63)).1) (span-suc (length xs)),
        hx.0,
        hy.0,
        k,
      ),
      (omega arith, words),
      ap suc same,
      small,
    )

-- The words `x + m * y`.
pub each_word-value :
    (f : ℕ → ℕ → ℕ) (m : ℕ)
    → m < 39
    → ((x y : ℕ) → x < 2 ^ 32 → y < 2 ^ 32 → f x y ≡ x + m * y)
    → (xs ys : List ℕ) → IsWords xs
    → IsWords ys
    → length xs ≡ length ys
    → let r = each_word f xs ys in
      (word_value r ≡ word_value xs + m * word_value ys)
      × All (λ (a : ℕ). a < 2 ^ 63) r
      × (length r ≡ length xs)
unfolding each_word
each_word-value f m k exact [] [] hx hy len = (omega arith, tt, refl)
each_word-value f m k exact [] (y ∷ ys) hx hy len = absurd (omega arith)
each_word-value f m k exact (x ∷ xs) [] hx hy len = absurd (omega arith)
each_word-value f m k exact (x ∷ xs) (y ∷ ys) hx hy len =
    let (e, small, same) = each_word-value f m k exact xs ys hx.1 hy.1 (omega arith) in
    let word = exact x y hx.0 hy.0 in
    let top : m * y ≤ 38 * (2 ^ 32 - 1) =
      mul-le-mul {n₂ = 38} {m₂ = 2 ^ 32 - 1} (omega arith) (omega (arith, hy.0)) in
    (omega (arith, e, word), (omega (arith, top, word, hx.0), small), ap suc same)

-- One row of the product: `x * bs` is added to the words, which have room for it.
pub mul_row-value :
    (x : ℕ) (bs rs : List ℕ) (carry : ℕ)
    → x < 2 ^ 32
    → IsWords bs
    → IsWords rs
    → carry < 2 ^ 32
    → length bs < length rs
    → word_value rs < span (length bs)
    → let r = mul_row x bs rs carry in
      (word_value r ≡ word_value rs + x * word_value bs + carry)
      × IsWords r
      × (length r ≡ length rs)
unfolding mul_row
mul_row-value x [] [] carry hx hb hr k len room = absurd (omega arith)
mul_row-value x [] (r ∷ rs) carry hx hb hr k len room = (omega (arith, room), (k, hr.1), refl)
mul_row-value x (b ∷ bs) [] carry hx hb hr k len room = absurd (omega arith)
mul_row-value x (b ∷ bs) (r ∷ rs) carry hx hb hr k len room =
    let top : x * b ≤ (2 ^ 32 - 1) * (2 ^ 32 - 1) =
      mul-le-mul {n₂ = 2 ^ 32 - 1} {m₂ = 2 ^ 32 - 1} (omega (arith, hx)) (omega (arith, hb.0)) in
    let p = u64 (x * b + r + carry) in
    let (e, words, same) =
      mul_row-value x bs rs (u32 (p >>> 32)) hx hb.1 hr.1 (omega arith) (omega arith)
        (omega (arith, room, span-suc (length bs))) in
    (omega (arith, e, top, hr.0, k), (omega arith, words), ap suc same)

-- The word that a row is done with, and the words after it.
uncons-value :
    (n : ℕ) (r : List ℕ)
    → IsWords r
    → length r ≡ suc n
    → (word_value r ≡ get_or r 0 0 + 2 ^ 32 * word_value (drop 1 r))
      × (get_or r 0 0 < 2 ^ 32)
      × IsWords (drop 1 r)
      × (length (drop 1 r) ≡ n)
uncons-value n [] h e = absurd (omega arith)
uncons-value n (w ∷ ws) h e = (omega arith, h.0, h.1, omega arith)

-- All rows: the product is added, and no word is left over.
pub mul_rows-value :
    (xs bs rs : List ℕ)
    → IsWords xs
    → IsWords bs
    → IsWords rs
    → length rs ≡ length xs + length bs
    → word_value rs < span (length bs)
    → let r = mul_rows xs bs rs in
      (word_value r ≡ word_value rs + word_value xs * word_value bs)
      × IsWords r
      × (length r ≡ length rs)
unfolding mul_rows
mul_rows-value [] bs rs ha hb hr len room = (omega arith, hr, refl)
mul_rows-value (x ∷ xs) bs rs ha hb hr len room =
    let row = mul_row x bs rs 0 in
    let (e, words, same) = mul_row-value x bs rs 0 ha.0 hb hr (omega arith) (omega arith) room in
    let (split, low, rest, count) = uncons-value (length xs + length bs) row words (omega arith) in
    let top : x * word_value bs ≤ (2 ^ 32 - 1) * (span (length bs) - 1) =
      mul-le-mul {n₂ = 2 ^ 32 - 1} {m₂ = span (length bs) - 1} (omega (arith, ha.0))
        (omega (arith, word_value-lt bs hb)) in
    let (e', words', same') =
      mul_rows-value xs bs (drop 1 row) ha.1 hb rest count (omega (arith, e, split, top, room)) in
    (omega (arith, e, e', split), (low, words'), ap suc (same' ∙ count) ∙ omega arith)

-- ===== src/Cuda/Field32/Bytes.antt =====
-- Reading and writing the 32 bytes of an element of device_field32.cuh.
use cpp_onion.Base.{
  ℕ, ◌+◌, ◌-◌, ◌*◌, ◌/◌, ◌%◌, ◌^◌, min, ◌≡◌, refl, ap, ◌∙◌, arith, List, [], ◌∷◌, length, get_or,
  u32, bit_and, bit_or, ◌==◌, Bool-cases, inl, inr, ◌<<<◌, IsBytes,
}
use cpp_onion.Base.Digits.{bit_and-ones, bit_or-disjoint_right}
use cpp_onion.Crypto.Field.Value.{prime}
use cpp_onion.Crypto.Field.Numbers.{le_value, le_at, le_at_lt, le_value_32, get-IsByte}
use cpp_onion.Cuda.Field32.{
  Fe, sub_words, prime_words, reduce_pass, load32, fed_from_bytes, words_to_bytes, fed_to_bytes,
}
use cpp_onion.Cuda.Field32.Loops.{word_value, IsWords, span, sub_words-value}
use cpp_onion.Cuda.Field32.Sums.{IsElement, IsElement-lt}

join_bytes :
    (a b c d : ℕ)
    → IsBytes (a ∷ b ∷ c ∷ d ∷ [])
    → bit_or (bit_or (bit_or a (u32 (b <<< 8))) (u32 (c <<< 16))) (u32 (d <<< 24))
      ≡ le_value (a ∷ b ∷ c ∷ d ∷ [])
join_bytes a b c d h =
    let eb : u32 (b <<< 8) ≡ b * 2 ^ 8 = omega (arith, h) in
    let ec : u32 (c <<< 16) ≡ c * 2 ^ 16 = omega (arith, h) in
    let ed : u32 (d <<< 24) ≡ d * 2 ^ 24 = omega (arith, h) in
    rw
      (
        eb,
        ec,
        ed,
        bit_or-disjoint_right 8 b a (omega (arith, h)),
        bit_or-disjoint_right 16 c (a + b * 2 ^ 8) (omega (arith, h)),
        bit_or-disjoint_right 24 d (a + b * 2 ^ 8 + c * 2 ^ 16) (omega (arith, h)),
      )
      (omega arith)

load32-value : (s : List ℕ) (off : ℕ) → IsBytes s → load32 s off ≡ le_at s off 4
unfolding load32
load32-value s off h =
    let e2 : off + 1 + 1 ≡ off + 2 = omega arith in
    let e3 : off + 2 + 1 ≡ off + 3 = omega arith in
    join_bytes (get_or s off 0) (get_or s (off + 1) 0) (get_or s (off + 2) 0) (get_or s (off + 3) 0)
      (
        get-IsByte s off h,
        (get-IsByte s (off + 1) h, (get-IsByte s (off + 2) h, (get-IsByte s (off + 3) h, tt))),
      )
    ∙ rw (e2, e3) refl

-- Reading drops bit 255 and keeps the others.
pub fed_from_bytes-value :
    (s : List ℕ)
    → IsBytes s
    → length s ≡ 32
    → (word_value (fed_from_bytes s) ≡ le_value s % 2 ^ 255) × IsElement (fed_from_bytes s)
unfolding fed_from_bytes
fed_from_bytes-value s h len =
    let at = λ (off : ℕ). load32-value s off h in
    let lt = λ (off : ℕ). le_at_lt s off 4 h in
    let low : bit_and (load32 s 28) 0x7fffffff ≡ load32 s 28 % 2 ^ 31 =
      bit_and-ones 31 (load32 s 28) in
    (
      omega (
        arith,
        le_value_32 s len,
        low,
        at 0,
        at 4,
        at 8,
        at 12,
        at 16,
        at 20,
        at 24,
        at 28,
        lt 0,
        lt 4,
        lt 8,
        lt 12,
        lt 16,
        lt 20,
        lt 24,
        lt 28,
      ),
      record {
        words = omega (
          arith,
          low,
          at 0,
          at 4,
          at 8,
          at 12,
          at 16,
          at 20,
          at 24,
          at 28,
          lt 0,
          lt 4,
          lt 8,
          lt 12,
          lt 16,
          lt 20,
          lt 24,
          lt 28,
        );
        eight = refl;
      },
    )

-- A pass takes the prime off once, where it can.
reduce_pass-value :
    (w : List ℕ)
    → IsElement w
    → (word_value (reduce_pass w) ≡ word_value w - prime * min 1 (word_value w / prime))
      × IsElement (reduce_pass w)
unfolding reduce_pass
reduce_pass-value w h =
    let (e, words, same, borrow) =
      sub_words-value w prime_words 0 h.words (omega arith) (omega (arith, h.eight))
        (omega arith) in
    let t = sub_words w prime_words 0 in
    let k : span (length w) * t.1 ≡ 2 ^ 256 * t.1 = ap (λ (n : ℕ). span n * t.1) h.eight in
    let lt = IsElement-lt w h in
    let kept : IsElement t.0 = record { words = words; eight = same ∙ h.eight } in
    let lt' = IsElement-lt t.0 kept in
    elim (Bool-cases (t.1 == 0)) [
      | inl none ↦ rw none (ground (arith, e, k, lt', borrow), kept)
      | inr some ↦ rw some (ground (arith, e, k, lt, lt', borrow), h)
    ]

words_to_bytes-value :
    (ws : List ℕ)
    → IsWords ws
    → (le_value (words_to_bytes ws) ≡ word_value ws)
      × IsBytes (words_to_bytes ws)
      × (length (words_to_bytes ws) ≡ 4 * length ws)
unfolding words_to_bytes
words_to_bytes-value [] h = (omega arith, tt, omega arith)
words_to_bytes-value (w ∷ ws) h =
    let (e, bytes, count) = words_to_bytes-value ws h.1 in
    let low = λ (x : ℕ). bit_and-ones 8 x in
    (
      omega (arith, e, low, h.0),
      (omega (arith, low), (omega (arith, low), (omega (arith, low), (omega (arith, low), bytes)))),
      omega (arith, count),
    )

-- The bytes are those of the least residue, for every element.
pub fed_to_bytes-value :
    (w : Fe)
    → IsElement w
    → (le_value (fed_to_bytes w) ≡ word_value w % prime)
      × IsBytes (fed_to_bytes w)
      × (length (fed_to_bytes w) ≡ 32)
unfolding fed_to_bytes
fed_to_bytes-value w h =
    let (e1, h1) = reduce_pass-value w h in
    let (e2, h2) = reduce_pass-value (reduce_pass w) h1 in
    let (e3, h3) = reduce_pass-value (reduce_pass (reduce_pass w)) h2 in
    let (e, bytes, count) =
      words_to_bytes-value (reduce_pass (reduce_pass (reduce_pass w))) h3.words in
    (omega (arith, e, e1, e2, e3, IsElement-lt w h), bytes, omega (arith, count, h3.eight))

-- ===== src/Crypto/Field/Bytes.antt =====
-- `fe_from_bytes` reads 255 bits, and `fe_to_bytes` writes the least residue.
use cpp_onion.Base.{
  ℕ, ◌+◌, ◌-◌, ◌*◌, ◌/◌, ◌%◌, ◌^◌, ◌<◌, ◌≡◌, sym, ap, ap₂, ◌∙◌, arith, List, ◌++◌, length,
  length-append, ◌↔◌, bit_or, u64, ◌<<<◌, ◌>>>◌, IsBytes, IsByte, All-append,
}
use cpp_onion.Base.Digits.{bit_or-disjoint_right}
use cpp_onion.Crypto.Field.{
  Fe, load64, fe_from_words, fe_from_bytes, canonical, write51, fe_to_bytes,
}
use cpp_onion.Crypto.Field.Value.{prime, value, Below, ◌≅◌, mask_low}
use cpp_onion.Crypto.Field.Carry.{IsWord}
use cpp_onion.Crypto.Field.Numbers.{
  le_value, le_value_32, le_value-injective, load64-words, load64-bound, le_value-append_8,
  word_bytes_lem, length-word_bytes,
}
use cpp_onion.Crypto.Field.Canonical.{canonical_lem}

fe_from_words_lem :
    (x0 x1 x2 x3 : ℕ)
    → (x0 < 2 ^ 64) × (x1 < 2 ^ 64) × (x2 < 2 ^ 64) × (x3 < 2 ^ 64)
    → (value (fe_from_words x0 x1 x2 x3)
        ≡ (x0 + 2 ^ 64 * x1 + 2 ^ 128 * x2 + 2 ^ 192 * x3) % 2 ^ 255)
      × Below (2 ^ 51) (fe_from_words x0 x1 x2 x3)
unfolding fe_from_words
fe_from_words_lem x0 x1 x2 x3 h =
    let e1 : bit_or (x0 >>> 51) (u64 (x1 <<< 13)) ≡ x0 / 2 ^ 51 + x1 % 2 ^ 51 * 2 ^ 13 =
      ap (bit_or (x0 >>> 51)) (omega arith)
      ∙ bit_or-disjoint_right 13 (x1 % 2 ^ 51) (x0 / 2 ^ 51) (omega arith) in
    let e2 : bit_or (x1 >>> 38) (u64 (x2 <<< 26)) ≡ x1 / 2 ^ 38 + x2 % 2 ^ 38 * 2 ^ 26 =
      ap (bit_or (x1 >>> 38)) (omega arith)
      ∙ bit_or-disjoint_right 26 (x2 % 2 ^ 38) (x1 / 2 ^ 38) (omega arith) in
    let e3 : bit_or (x2 >>> 25) (u64 (x3 <<< 39)) ≡ x2 / 2 ^ 25 + x3 % 2 ^ 25 * 2 ^ 39 =
      ap (bit_or (x2 >>> 25)) (omega arith)
      ∙ bit_or-disjoint_right 39 (x3 % 2 ^ 25) (x2 / 2 ^ 25) (omega arith) in
    rw (e1, e2, e3) (omega (arith, mask_low), omega (arith, mask_low))

from_words :
    (s : List ℕ)
    → IsBytes s
    → length s ≡ 32
    → let f = fe_from_words (load64 s 0) (load64 s 8) (load64 s 16) (load64 s 24) in
      (value f ≡ le_value s % 2 ^ 255) × Below (2 ^ 51) f
from_words s h len =
    let (w0, w1, w2, w3) = load64-words s h in
    let (e, small) =
      fe_from_words_lem (load64 s 0) (load64 s 8) (load64 s 16) (load64 s 24) (load64-bound s h) in
    (e ∙ omega (arith, w0, w1, w2, w3, le_value_32 s len), small)

-- The element read from 32 bytes stands for their little-endian number without its top bit, in
-- limbs of 51 bits.
pub fe_from_bytes_lem :
    (s : List ℕ)
    → IsBytes s
    → length s ≡ 32
    → (value (fe_from_bytes s) ≡ le_value s % 2 ^ 255) × Below (2 ^ 51) (fe_from_bytes s)
unfolding fe_from_bytes
fe_from_bytes_lem s h len = from_words s h len

write51_lem :
    (lo hi shift : ℕ) (w : ℕ)
    → bit_or (lo >>> shift) (u64 (hi <<< (51 - shift))) ≡ w
    → w < 2 ^ 64
    → (le_value (write51 lo hi shift) ≡ w)
      × (IsBytes (write51 lo hi shift) × (length (write51 lo hi shift) ≡ 8))
unfolding write51
write51_lem lo hi shift w e h =
    let (v, bytes) = word_bytes_lem (bit_or (lo >>> shift) (u64 (hi <<< (51 - shift)))) in
    (
      v ∙ omega (arith, e),
      (bytes, length-word_bytes 8 (bit_or (lo >>> shift) (u64 (hi <<< (51 - shift))))),
    )

-- Four words in a row.
four_words :
    (a b c d : List ℕ)
    → (IsBytes a × (length a ≡ 8))
      × (IsBytes b × (length b ≡ 8))
      × (IsBytes c × (length c ≡ 8))
      × (IsBytes d × (length d ≡ 8))
    → (le_value (a ++ (b ++ (c ++ d)))
        ≡ le_value a + 2 ^ 64 * le_value b + 2 ^ 128 * le_value c + 2 ^ 192 * le_value d)
      × IsBytes (a ++ (b ++ (c ++ d)))
      × (length (a ++ (b ++ (c ++ d))) ≡ 32)
four_words a b c d (ha, hb, hc, hd) = (
  omega (
    arith,
    le_value-append_8 a (b ++ (c ++ d)) ha.1,
    le_value-append_8 b (c ++ d) hb.1,
    le_value-append_8 c d hc.1,
  ),
  All-append IsByte a _ ha.0 (All-append IsByte b _ hb.0 (All-append IsByte c d hc.0 hd.0)),
  omega (
    arith,
    length-append a (b ++ (c ++ d)),
    length-append b (c ++ d),
    length-append c d,
    ha.1,
    hb.1,
    hc.1,
    hd.1,
  ),
)

-- The four words of an element with limbs of 51 bits.
words_lem :
    (t : Fe)
    → Below (2 ^ 51) t
    → let out =
        write51 t.v0 t.v1 0
        ++ (write51 t.v1 t.v2 13 ++ (write51 t.v2 t.v3 26 ++ write51 t.v3 t.v4 39)) in
      (le_value out ≡ value t) × IsBytes out × (length out ≡ 32)
words_lem t h =
    let w0 =
      write51_lem t.v0 t.v1 0 (t.v0 + t.v1 % 2 ^ 13 * 2 ^ 51)
        (ap₂ bit_or (omega arith) (omega arith)
          ∙ bit_or-disjoint_right 51 (t.v1 % 2 ^ 13) t.v0 h.b0)
        (omega (arith, h.b0)) in
    let w1 =
      write51_lem t.v1 t.v2 13 (t.v1 / 2 ^ 13 + t.v2 % 2 ^ 26 * 2 ^ 38)
        (ap (bit_or (t.v1 / 2 ^ 13)) (omega arith)
          ∙ bit_or-disjoint_right 38 (t.v2 % 2 ^ 26) (t.v1 / 2 ^ 13) (omega (arith, h.b1)))
        (omega (arith, h.b1)) in
    let w2 =
      write51_lem t.v2 t.v3 26 (t.v2 / 2 ^ 26 + t.v3 % 2 ^ 39 * 2 ^ 25)
        (ap (bit_or (t.v2 / 2 ^ 26)) (omega arith)
          ∙ bit_or-disjoint_right 25 (t.v3 % 2 ^ 39) (t.v2 / 2 ^ 26) (omega (arith, h.b2)))
        (omega (arith, h.b2)) in
    let w3 =
      write51_lem t.v3 t.v4 39 (t.v3 / 2 ^ 39 + t.v4 * 2 ^ 12)
        (ap (bit_or (t.v3 / 2 ^ 39)) (omega (arith, h.b4))
          ∙ bit_or-disjoint_right 12 t.v4 (t.v3 / 2 ^ 39) (omega (arith, h.b3)))
        (omega (arith, h.b3, h.b4)) in
    let (e, bytes, len) = four_words _ _ _ _ (w0.1, w1.1, w2.1, w3.1) in
    (e ∙ omega (arith, w0.0, w1.0, w2.0, w3.0), bytes, len)

-- The 32 bytes written are the little-endian form of the least residue of the value.
pub fe_to_bytes_lem :
    (f : Fe)
    → IsWord f
    → (le_value (fe_to_bytes f) ≡ value f % prime)
      × IsBytes (fe_to_bytes f)
      × (length (fe_to_bytes f) ≡ 32)
unfolding fe_to_bytes
fe_to_bytes_lem f h =
    let (e, limbs) = canonical_lem f h in
    let (e', bytes, len) = words_lem (canonical f) limbs in (e' ∙ e, bytes, len)

-- Two elements with limbs below 2^60 are written as the same bytes exactly if their values are
-- congruent modulo the prime.
pub fe_to_bytes_eq_iff :
    (f g : Fe) → IsWord f → IsWord g → (fe_to_bytes f ≡ fe_to_bytes g) ↔ (value f ≅ value g)
fe_to_bytes_eq_iff f g hf hg =
    let (ef, bf, lf) = fe_to_bytes_lem f hf in
    let (eg, bg, lg) = fe_to_bytes_lem g hg in
    (
      λ e. sym ef ∙ ap le_value e ∙ eg,
      λ e. le_value-injective _ _ bf bg (lf ∙ sym lg) (ef ∙ e ∙ sym eg),
    )

below→word : (f : Fe) → Below (2 ^ 51) f → IsWord f
below→word f h = omega arith

-- Reading 32 bytes whose number is below the prime and writing the element gives them back.
pub fe_to_bytes-fe_from_bytes :
    (s : List ℕ)
    → IsBytes s
    → length s ≡ 32
    → le_value s < prime
    → fe_to_bytes (fe_from_bytes s) ≡ s
fe_to_bytes-fe_from_bytes s h len small =
    let (e, limbs) = fe_from_bytes_lem s h len in
    let (e', bytes, len') = fe_to_bytes_lem (fe_from_bytes s) (below→word _ limbs) in
    le_value-injective _ s bytes h (len' ∙ sym len) (e' ∙ omega (arith, e, small))

-- Writing an element and reading it back gives its least residue, in limbs of 51 bits.
pub fe_from_bytes-fe_to_bytes :
    (f : Fe)
    → IsWord f
    → (value (fe_from_bytes (fe_to_bytes f)) ≡ value f % prime)
      × Below (2 ^ 51) (fe_from_bytes (fe_to_bytes f))
fe_from_bytes-fe_to_bytes f h =
    let (e, bytes, len) = fe_to_bytes_lem f h in
    let (e', limbs) = fe_from_bytes_lem (fe_to_bytes f) bytes len in (e' ∙ omega (arith, e), limbs)

-- ===== src/Core/Matcher/Bits.antt =====
-- The arrays of a pattern as streams of bits.
use cpp_onion.Base.{
  ℕ, zero, suc, ◌+◌, ◌-◌, ◌/◌, ◌%◌, ◌^◌, ◌<◌, min, bit_and, bit_or, ◌≡◌, ◌↔◌, refl, sym, ap, subst,
  ◌∙◌, List, [], ◌∷◌, ◌++◌, arith, IsByte, IsBytes, set, u8, ◌>>>◌, ◌&&◌, true, false, Bool, ltb,
  same_bytes, same_bytes→eq, Bool-cases, ltb→lt, inl, inr, set-append_left, set-append_right,
}
use cpp_onion.Base.Tables.{holds_below, holds_at}
use cpp_onion.Base.Digits.{bits, bit_and_digit, bit_and-le}
use cpp_onion.Core.Base32.Groups.{byte_bits}
use cpp_onion.Core.Matcher.{or_at, bit_mask}

-- One byte with its bit `j`, counted from the top, set.
or_test : ℕ → ℕ → Bool
or_test j b =
    let b' = u8 (bit_or b (bit_mask j)) in ltb b' 256 && same_bytes (bits 8 b') (set (bits 8 b) j 1)

or_table : holds_below 8 (λ j. holds_below 256 (or_test j)) ≡ true
unfolding holds_below or_test
or_table = refl

or_test_lem :
    (j b : ℕ)
    → or_test j b ≡ true
    → (u8 (bit_or b (bit_mask j)) < 256)
      × (bits 8 (u8 (bit_or b (bit_mask j))) ≡ set (bits 8 b) j 1)
unfolding or_test
or_test_lem j b h =
    (omega arith, same_bytes→eq _ _ (and_right (ltb (u8 (bit_or b (bit_mask j))) 256) _ h))
  where
    and_right : (p q : Bool) → (p && q) ≡ true → q ≡ true
    and_right true q e = e
    and_right false q e = cc

or_byte :
    (j b : ℕ)
    → j < 8
    → b < 256
    → (u8 (bit_or b (bit_mask j)) < 256)
      × (bits 8 (u8 (bit_or b (bit_mask j))) ≡ set (bits 8 b) j 1)
or_byte j b hj hb = or_test_lem j b (holds_at 256 (or_test j) b (holds_at 8 _ j or_table hj) hb)

abbrev SetsBit : List ℕ → ℕ → Type 0
SetsBit bs j =
    (byte_bits (or_at bs (j / 8) (bit_mask j)) ≡ set (byte_bits bs) j 1)
    × IsBytes (or_at bs (j / 8) (bit_mask j))

next_byte : (b : ℕ) (bs : List ℕ) (k : ℕ) → IsByte b → SetsBit bs k → SetsBit (b ∷ bs) (8 + k)
unfolding or_at
next_byte b bs k hb (e, h) =
    let index : (8 + k) / 8 ≡ suc (k / 8) = omega arith in
    let same : bit_mask (8 + k) ≡ bit_mask k =
      ap (λ (i : ℕ). u8 (0x80 >>> i)) {x = (8 + k) % 8} {y = k % 8} (omega arith) in
    rw (index, same)
      (
        ap (λ (t : List ℕ). bits 8 b ++ t) e ∙ sym (set-append_right (bits 8 b) (byte_bits bs) k 1),
        (hb, h),
      )

-- `|=` with the mask of one bit sets that bit of the stream, and no other.
pub or_at-bits : (bs : List ℕ) (j : ℕ) → IsBytes bs → SetsBit bs j
unfolding or_at
or_at-bits [] j h = (refl, tt)
or_at-bits (b ∷ bs) j (hb, hbs) = elim (Bool-cases (ltb j 8)) [
  | inl small ↦
      let first : j / 8 ≡ 0 = ground arith in
      let (byte, e) = or_byte j b (ltb→lt j 8 small) hb in
      rw first (
        ap (λ (t : List ℕ). t ++ byte_bits bs) e
            ∙ sym (set-append_left (bits 8 b) (byte_bits bs) j 1 (ltb→lt j 8 small)),
        (byte, hbs),
      )
  | inr large ↦
      let e : j ≡ 8 + (j - 8) = ground arith in
      subst (SetsBit (b ∷ bs)) (sym e) (next_byte b bs (j - 8) hb (or_at-bits bs (j - 8) hbs))
]

-- The first `n` bits of the stream, under the mask, are those of the pattern.
abbrev pub Agrees : ℕ → List ℕ → List ℕ → List ℕ → Type 0
Agrees zero xs ms bs = Unit
Agrees (suc n) (x ∷ xs) (m ∷ ms) (b ∷ bs) = (min x m ≡ b) × Agrees n xs ms bs
Agrees (suc n) _ _ _ = ⊥

-- `(x & m) == b`, bit by bit.
pub byte-Agrees_iff :
    (x m b : ℕ) (n : ℕ) (xs ms bs : List ℕ)
    → x < 256
    → m < 256
    → b < 256
    → ((bit_and x m ≡ b) × Agrees n xs ms bs)
      ↔ Agrees
          (suc (suc (suc (suc (suc (suc (suc (suc n))))))))
          (bits 8 x ++ xs)
          (bits 8 m ++ ms)
          (bits 8 b ++ bs)
byte-Agrees_iff x m b n xs ms bs hx hm hb = (
  λ p. (
    digit 7 p.0,
    (
      digit 6 p.0,
      (digit 5 p.0, (digit 4 p.0, (digit 3 p.0, (digit 2 p.0, (digit 1 p.0, (digit 0 p.0, p.1)))))),
    ),
  ),
  λ p. (
    omega (
      arith,
      bit_and_digit 7 x m,
      bit_and_digit 6 x m,
      bit_and_digit 5 x m,
      bit_and_digit 4 x m,
      bit_and_digit 3 x m,
      bit_and_digit 2 x m,
      bit_and_digit 1 x m,
      bit_and_digit 0 x m,
      bit_and-le x m,
      p.0,
      p.1.0,
      p.1.1.0,
      p.1.1.1.0,
      p.1.1.1.1.0,
      p.1.1.1.1.1.0,
      p.1.1.1.1.1.1.0,
      p.1.1.1.1.1.1.1.0,
    ),
    p.1.1.1.1.1.1.1.1,
  ),
)
  where
    digit : (k : ℕ) → bit_and x m ≡ b → min (x / 2 ^ k % 2) (m / 2 ^ k % 2) ≡ b / 2 ^ k % 2
    digit k e = sym (bit_and_digit k x m) ∙ ap (λ (t : ℕ). t / 2 ^ k % 2) e

Agrees-short : (n : ℕ) (ms bs : List ℕ) → Agrees (suc n) [] ms bs → ⊥
Agrees-short n ms bs h = h

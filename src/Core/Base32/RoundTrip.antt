-- ===== src/Core/Base32/RoundTrip.antt =====
-- Encoding and decoding undo each other.
use cpp_onion.Base.{
  ℕ, zero, suc, ◌+◌, ◌*◌, ◌/◌, ◌%◌, ◌<◌, ◌≡◌, ◌≢◌, ◌↔◌, refl, sym, ap, ap₂, ◌∙◌, List, [], ◌∷◌,
  ◌++◌, map, append-nil, arith, length, length-append, length-map, All, Expected, ok, unexpected,
  bind-eq-ok, inl, inr, true, false, get_or, replicate, Bool-cases, IsBytes,
}
use cpp_onion.Core.Base32.{symbol, valid_mod8, base32_encode, base32_decode, Base32Error}
use cpp_onion.Core.Base32.Groups.{
  byte_bits, symbol_bits, fives, eights, leftover, padding, all_zero, IsSymbol, IsBit,
  symbol_bits-fives, fives-symbol_bits, fives-IsSymbol, byte_bits-IsBit, symbol_bits-IsBit,
  length-byte_bits, length-symbol_bits, length-fives,
}
use cpp_onion.Core.Base32.Encode.{base32_encode-fives}
use cpp_onion.Core.Base32.Decode.{
  cut, positions, positions-symbols, symbols_of_positions, base32_decode-cut,
}

-- The padding is at most four zeros.
padding_short : (l : List ℕ) → (n : ℕ) × (n < 5) × (padding l ≡ replicate n 0)
padding_short [] = (0, omega arith, refl)
padding_short (a ∷ []) = (4, omega arith, refl)
padding_short (a ∷ b ∷ []) = (3, omega arith, refl)
padding_short (a ∷ b ∷ c ∷ []) = (2, omega arith, refl)
padding_short (a ∷ b ∷ c ∷ d ∷ []) = (1, omega arith, refl)
padding_short (a ∷ b ∷ c ∷ d ∷ e ∷ r) = padding_short r

eights-zeros :
    (n : ℕ) → n < 5 → (eights (replicate n 0) ≡ []) × (all_zero (leftover (replicate n 0)) ≡ true)
eights-zeros zero h = (refl, refl)
eights-zeros (suc zero) h = (refl, refl)
eights-zeros (suc (suc zero)) h = (refl, refl)
eights-zeros (suc (suc (suc zero))) h = (refl, refl)
eights-zeros (suc (suc (suc (suc zero)))) h = (refl, refl)
eights-zeros (suc (suc (suc (suc (suc n))))) h = absurd (omega arith)

eights-byte_bits :
    (bs z : List ℕ)
    → IsBytes bs
    → (eights (byte_bits bs ++ z) ≡ bs ++ eights z) × (leftover (byte_bits bs ++ z) ≡ leftover z)
eights-byte_bits [] z h = (refl, refl)
eights-byte_bits (b ∷ bs) z (hb, hbs) =
    let (p, q) = eights-byte_bits bs z hbs in (ap₂ ◌∷◌ (omega arith) p, q)

cut-byte_bits :
    (bs : List ℕ) (n : ℕ) → n < 5 → IsBytes bs → cut [] (byte_bits bs ++ replicate n 0) ≡ ok bs
cut-byte_bits bs n hn h =
    let (p, q) = eights-byte_bits bs (replicate n 0) h in
    let (p', q') = eights-zeros n hn in rw (p, q, p', q') (ap ok (append-nil bs))

-- The lengths that the table admits.
valid_residue : (m : ℕ) → m < 8 → (get_or valid_mod8 m false ≡ true) ↔ ((m ≢ 1) × (m ≢ 3) × (m ≢ 6))
valid_residue zero h = ((λ _. omega arith), (λ _. refl))
valid_residue (suc zero) h = ((λ e. cc), (λ ne. absurd (omega arith)))
valid_residue (suc (suc zero)) h = ((λ _. omega arith), (λ _. refl))
valid_residue (suc (suc (suc zero))) h = ((λ e. cc), (λ ne. absurd (omega arith)))
valid_residue (suc (suc (suc (suc zero)))) h = ((λ _. omega arith), (λ _. refl))
valid_residue (suc (suc (suc (suc (suc zero))))) h = ((λ _. omega arith), (λ _. refl))
valid_residue (suc (suc (suc (suc (suc (suc zero)))))) h = ((λ e. cc), (λ ne. absurd (omega arith)))
valid_residue (suc (suc (suc (suc (suc (suc (suc zero))))))) h = ((λ _. omega arith), (λ _. refl))
valid_residue (suc (suc (suc (suc (suc (suc (suc (suc m)))))))) h = absurd (omega arith)

valid_length : (n : ℕ) → get_or valid_mod8 ((8 * n + 4) / 5 % 8) false ≡ true
valid_length n = (valid_residue ((8 * n + 4) / 5 % 8) (omega arith)).1 (omega arith)

-- The length of the encoding: every five bits begun give one character.
pub length-base32_encode :
    (bs : List ℕ) → IsBytes bs → length (base32_encode bs) ≡ (8 * length bs + 4) / 5
length-base32_encode bs h =
    rw (base32_encode-fives bs h, length-map)
      (omega (arith, length-fives (byte_bits bs), length-byte_bits bs))

-- Decoding what `base32_encode` wrote gives the bytes back.
pub decode-encode : (bs : List ℕ) → IsBytes bs → base32_decode (base32_encode bs) ≡ ok bs
decode-encode bs h =
    let (n, hn, e) = padding_short (byte_bits bs) in
    rw
      (
        base32_decode-cut,
        length-base32_encode bs h,
        valid_length,
        base32_encode-fives bs h,
        positions-symbols _ (fives-IsSymbol (byte_bits bs) (byte_bits-IsBit bs)),
      )
      (rw (symbol_bits-fives (byte_bits bs) (byte_bits-IsBit bs), e) (cut-byte_bits bs n hn h))

eight_bits :
    (a b c d e f g h : ℕ) (r : List ℕ)
    → All IsBit (a ∷ b ∷ c ∷ d ∷ e ∷ f ∷ g ∷ h ∷ [])
    → byte_bits ((128 * a + 64 * b + 32 * c + 16 * d + 8 * e + 4 * f + 2 * g + h) ∷ []) ++ r
      ≡ a ∷ b ∷ c ∷ d ∷ e ∷ f ∷ g ∷ h ∷ r
eight_bits a b c d e f g h r p = ground arith

-- The bits of the bytes and those left over are all the bits; fewer than eight are left over.
byte_bits-eights :
    (l : List ℕ)
    → All IsBit l
    → (byte_bits (eights l) ++ leftover l ≡ l) × IsBytes (eights l) × (length (leftover l) < 8)
byte_bits-eights [] p = (refl, tt, omega arith)
byte_bits-eights (a ∷ []) p = (refl, tt, omega arith)
byte_bits-eights (a ∷ b ∷ []) p = (refl, tt, omega arith)
byte_bits-eights (a ∷ b ∷ c ∷ []) p = (refl, tt, omega arith)
byte_bits-eights (a ∷ b ∷ c ∷ d ∷ []) p = (refl, tt, omega arith)
byte_bits-eights (a ∷ b ∷ c ∷ d ∷ e ∷ []) p = (refl, tt, omega arith)
byte_bits-eights (a ∷ b ∷ c ∷ d ∷ e ∷ f ∷ []) p = (refl, tt, omega arith)
byte_bits-eights (a ∷ b ∷ c ∷ d ∷ e ∷ f ∷ g ∷ []) p = (refl, tt, omega arith)
byte_bits-eights (a ∷ b ∷ c ∷ d ∷ e ∷ f ∷ g ∷ h ∷ r)
      (pa, (pb, (pc, (pd, (pe, (pf, (pg, (ph, pr)))))))) =
    let (same, bytes, short) = byte_bits-eights r pr in
    (
      eight_bits a b c d e f g h (byte_bits (eights r) ++ leftover r)
            (pa, (pb, (pc, (pd, (pe, (pf, (pg, (ph, tt))))))))
          ∙ ap (λ (t : List ℕ). a ∷ b ∷ c ∷ d ∷ e ∷ f ∷ g ∷ h ∷ t) same,
      (omega arith, bytes),
      short,
    )

all_zero→replicate : (l : List ℕ) → all_zero l ≡ true → l ≡ replicate (length l) 0
all_zero→replicate [] h = refl
all_zero→replicate (x ∷ xs) h = ground (arith, all_zero→replicate xs)

-- Zeros that only complete the last group change no group.
fives-zeros :
    (l : List ℕ) (n : ℕ) → n < 5 → (length l + n) % 5 ≡ 0 → fives (l ++ replicate n 0) ≡ fives l
fives-zeros [] zero hn e = refl
fives-zeros [] (suc n) hn e = absurd (omega arith)
fives-zeros (a ∷ []) n hn e = rw (let four : n ≡ 4 = omega arith in four) (ground arith)
fives-zeros (a ∷ b ∷ []) n hn e = rw (let three : n ≡ 3 = omega arith in three) (ground arith)
fives-zeros (a ∷ b ∷ c ∷ []) n hn e = rw (let two : n ≡ 2 = omega arith in two) (ground arith)
fives-zeros (a ∷ b ∷ c ∷ d ∷ []) n hn e = rw (let one : n ≡ 1 = omega arith in one) (ground arith)
fives-zeros (a ∷ b ∷ c ∷ d ∷ e ∷ r) n hn p =
    ap (◌∷◌ (16 * a + 8 * b + 4 * c + 2 * d + e)) (fives-zeros r n hn (omega arith))

cut-ok : (l bs : List ℕ) → cut [] l ≡ ok bs → (all_zero (leftover l) ≡ true) × (eights l ≡ bs)
cut-ok l bs h = elim (Bool-cases (all_zero (leftover l))) [
  | inl z ↦ (z, ok_eq (rw z at h))
  | inr z ↦ not_ok (rw z at h)
]
  where
    ok_eq : ◌≡◌ {A = Expected Base32Error (List ℕ)} (ok (eights l)) (ok bs) → eights l ≡ bs
    ok_eq e = cc

    not_ok :
        ◌≡◌ {A = Expected Base32Error (List ℕ)} (unexpected Base32Error.nonzero_padding) (ok bs)
        → (all_zero (leftover l) ≡ true) × (eights l ≡ bs)
    not_ok e = cc

-- An accepted length leaves at most four bits over.
leftover_length :
    (n m k : ℕ) → get_or valid_mod8 (n % 8) false ≡ true → 8 * m + k ≡ 5 * n → k < 8 → k < 5
leftover_length n m k valid e h =
    let (ne1, ne3, ne6) = (valid_residue (n % 8) (omega arith)).0 valid in omega arith

-- Bytes whose bits are those of some symbols but for a few zeros are encoded by these symbols.
recode :
    (is bs z : List ℕ)
    → All IsSymbol is
    → get_or valid_mod8 (length is % 8) false ≡ true
    → byte_bits bs ++ z ≡ symbol_bits is
    → length z < 8
    → all_zero z ≡ true
    → fives (byte_bits bs) ≡ is
recode is bs z small valid e short zeros =
    let whole : length (byte_bits bs) + length z ≡ length (symbol_bits is) =
      sym (length-append (byte_bits bs) z) ∙ ap length e in
    let few : length z < 5 =
      leftover_length (length is) (length bs) (length z) valid
        (omega (arith, whole, length-byte_bits bs, length-symbol_bits is)) short in
    let fills : (length (byte_bits bs) + length z) % 5 ≡ 0 =
      omega (arith, whole, length-symbol_bits is) in
    sym (fives-zeros (byte_bits bs) (length z) few fills)
    ∙ ap (λ (t : List ℕ). fives (byte_bits bs ++ t)) (sym (all_zero→replicate z zeros))
    ∙ ap fives e
    ∙ fives-symbol_bits is small

-- An accepted string has a length that the table admits, and characters of the alphabet.
decode-inv :
    (s bs : List ℕ)
    → base32_decode s ≡ ok bs
    → (is : List ℕ) × (get_or valid_mod8 (length s % 8) false ≡ true)
      × (positions s ≡ ok is)
      × (cut [] (symbol_bits is) ≡ ok bs)
decode-inv s bs h = elim (Bool-cases (get_or valid_mod8 (length s % 8) false)) [
  | inr bad ↦
      let refused : ◌≡◌ {A = Expected Base32Error (List ℕ)} (unexpected Base32Error.invalid_length)
          (ok bs) =
        rw (base32_decode-cut, bad) at h in
      cc
  | inl good ↦
      let (is, found, e) =
        bind-eq-ok (positions s) (λ is. cut [] (symbol_bits is))
          (rw (base32_decode-cut, good) at h) in
      (is, good, found, e)
]

-- Whatever `base32_decode` accepts is the one encoding of its answer, which is bytes.
pub encode-decode : (s bs : List ℕ) → base32_decode s ≡ ok bs → IsBytes bs × (base32_encode bs ≡ s)
encode-decode s bs h =
    let (is, good, found, e) = decode-inv s bs h in
    let (small, same) = symbols_of_positions s is found in
    let (zeros, e') = cut-ok (symbol_bits is) bs e in
    let (whole, bytes, short) = byte_bits-eights (symbol_bits is) (symbol_bits-IsBit is) in
    let as_long : length s ≡ length is = ap length (sym same) ∙ length-map symbol is in
    let bytes' : IsBytes bs = rw e' at bytes in
    (
      bytes',
      base32_encode-fives bs bytes'
          ∙ ap (map symbol) (
              recode is bs (leftover (symbol_bits is)) small (rw as_long at good) (rw e' at whole)
                short zeros)
          ∙ same,
    )

-- ===== src/Core/Base32/Encode.antt =====
-- `base32_encode` computes the groups of five bits of its input.
use cpp_onion.Base.{
  ℕ, zero, suc, ◌+◌, ◌*◌, ◌/◌, ◌%◌, ◌^◌, ◌<◌, bit_and, bit_or, ◌≡◌, refl, sym, ap, ◌∙◌, List, [],
  ◌∷◌, ◌++◌, foldl, map, append_assoc, append-nil, arith, u32, ◌<<<◌, ◌>>>◌, IsBytes,
}
use cpp_onion.Base.Digits.{bits, halve, bit_and-ones, bit_or-disjoint}
use cpp_onion.Core.Base32.{State, symbol, codes, encode_byte, encode_flush, base32_encode}
use cpp_onion.Core.Base32.Groups.{byte_bits, fives}

abbrev st : ℕ → ℕ → List ℕ → State
st a n o = record { acc = a; bits = n; out = o }

-- What the loop owes: the bits that are left in the accumulator, then those of the input.
abbrev pending : ℕ → ℕ → List ℕ → List ℕ
pending n a bs = map symbol (fives (bits n a ++ byte_bits bs))

-- The accumulator after a byte is shifted in.
abbrev shifted : ℕ → ℕ → ℕ
shifted a b = bit_or (u32 (a <<< 8)) b

shifted_lem : (a b : ℕ) → b < 256 → shifted a b ≡ a * 256 % 2 ^ 32 + b
shifted_lem a b h = ground (arith, bit_or-disjoint 8 (a % 2 ^ 24) b)

mask_31 : (x : ℕ) → bit_and x 0x1f ≡ x % 32
mask_31 x = bit_and-ones 5 x

-- The low bits of the accumulator are the pending ones and the new byte.
join :
    (n a b x : ℕ) (r : List ℕ)
    → n < 5
    → b < 256
    → x % 4096 ≡ a % 16 * 256 + b
    → bits n a ++ (bits 8 b ++ r) ≡ bits (n + 8) x ++ r
join zero a b x r hn hb e = ground arith
join (suc zero) a b x r hn hb e = ground arith
join (suc (suc zero)) a b x r hn hb e = ground arith
join (suc (suc (suc zero))) a b x r hn hb e = ground arith
join (suc (suc (suc (suc zero)))) a b x r hn hb e = ground arith
join (suc (suc (suc (suc (suc n))))) a b x r hn hb e = absurd (omega arith)

-- One symbol leaves the accumulator.
emit :
    (k x : ℕ) (r : List ℕ)
    → map symbol (fives (bits (suc (suc (suc (suc (suc k))))) x ++ r))
      ≡ symbol (bit_and (x >>> k) 0x1f) ∷ map symbol (fives (bits k x ++ r))
emit k x r =
    ap (λ (i : ℕ). symbol i ∷ map symbol (fives (bits k x ++ r)))
      (omega (
        arith,
        mask_31 (x / 2 ^ k),
        halve k x,
        halve (suc k) x,
        halve (suc (suc k)) x,
        halve (suc (suc (suc k))) x,
      ))

shifted_low : (a b : ℕ) → b < 256 → shifted a b % 4096 ≡ a % 16 * 256 + b
shifted_low a b h = omega (arith, shifted_lem a b h)

abbrev out : ℕ → ℕ → ℕ
out x k = symbol (bit_and (x >>> k) 0x1f)

-- Two ways in which a round moves symbols from the pending ones to the output.
moves_one :
    (n a b k x : ℕ) (bs : List ℕ)
    → bits n a ++ (bits 8 b ++ byte_bits bs)
      ≡ bits (suc (suc (suc (suc (suc k))))) x ++ byte_bits bs
    → pending n a (b ∷ bs) ≡ out x k ∷ pending k x bs
moves_one n a b k x bs e = ap (λ (l : List ℕ). map symbol (fives l)) e ∙ emit k x (byte_bits bs)

module _ (a b : ℕ) (o : List ℕ) (hb : b < 256) where
  abbrev Round : ℕ → Type 0
  Round n =
      (n' : ℕ) × (a' : ℕ) × (o' : List ℕ) × (encode_byte (st a n o) b ≡ st a' n' (o ++ o'))
      × (n' < 5)
      × ((bs : List ℕ) → pending n a (b ∷ bs) ≡ o' ++ pending n' a' bs)

  abbrev x : ℕ
  x = shifted a b

  moves_two :
      (n k : ℕ) (bs : List ℕ)
      → n < 5
      → n + 8 ≡ suc (suc (suc (suc (suc (suc (suc (suc (suc (suc k)))))))))
      → pending n a (b ∷ bs) ≡ out x (suc (suc (suc (suc (suc k))))) ∷ out x k ∷ pending k x bs
  moves_two n k bs hn e =
      moves_one n a b (suc (suc (suc (suc (suc k))))) x bs (
        join n a b x (byte_bits bs) hn hb (shifted_low a b hb)
        ∙ ap (λ (m : ℕ). bits m x ++ byte_bits bs) e)
      ∙ ap (◌∷◌ (out x (suc (suc (suc (suc (suc k))))))) (emit k x (byte_bits bs))

  -- A round of the loop appends its symbols, and keeps what is pending.
  encode_byte_lem : (n : ℕ) → n < 5 → Round n
  unfolding encode_byte
  encode_byte_lem zero hn = (
    3,
    x,
    out x 3 ∷ [],
    refl,
    omega arith,
    λ bs. moves_one 0 a b 3 x bs (join 0 a b x (byte_bits bs) hn hb (shifted_low a b hb)),
  )
  encode_byte_lem (suc zero) hn = (
    4,
    x,
    out x 4 ∷ [],
    refl,
    omega arith,
    λ bs. moves_one 1 a b 4 x bs (join 1 a b x (byte_bits bs) hn hb (shifted_low a b hb)),
  )
  encode_byte_lem (suc (suc zero)) hn = (
    0,
    x,
    out x 5 ∷ out x 0 ∷ [],
    ap (st x 0) (append_assoc o (out x 5 ∷ []) (out x 0 ∷ [])),
    omega arith,
    λ bs. moves_two 2 0 bs hn refl,
  )
  encode_byte_lem (suc (suc (suc zero))) hn = (
    1,
    x,
    out x 6 ∷ out x 1 ∷ [],
    ap (st x 1) (append_assoc o (out x 6 ∷ []) (out x 1 ∷ [])),
    omega arith,
    λ bs. moves_two 3 1 bs hn refl,
  )
  encode_byte_lem (suc (suc (suc (suc zero)))) hn = (
    2,
    x,
    out x 7 ∷ out x 2 ∷ [],
    ap (st x 2) (append_assoc o (out x 7 ∷ []) (out x 2 ∷ [])),
    omega arith,
    λ bs. moves_two 4 2 bs hn refl,
  )
  encode_byte_lem (suc (suc (suc (suc (suc n))))) hn = absurd (omega arith)

-- What is left when the input ends goes out as one symbol, filled up with zeros.
encode_flush_lem : (n a : ℕ) (o : List ℕ) → n < 5 → encode_flush (st a n o) ≡ o ++ pending n a []
unfolding encode_flush
encode_flush_lem zero a o hn = sym (append-nil o)
encode_flush_lem (suc zero) a o hn =
    ap (λ (i : ℕ). o ++ (symbol i ∷ [])) (omega (arith, mask_31 (u32 (a <<< 4))))
encode_flush_lem (suc (suc zero)) a o hn =
    ap (λ (i : ℕ). o ++ (symbol i ∷ [])) (omega (arith, mask_31 (u32 (a <<< 3))))
encode_flush_lem (suc (suc (suc zero))) a o hn =
    ap (λ (i : ℕ). o ++ (symbol i ∷ [])) (omega (arith, mask_31 (u32 (a <<< 2))))
encode_flush_lem (suc (suc (suc (suc zero)))) a o hn =
    ap (λ (i : ℕ). o ++ (symbol i ∷ [])) (omega (arith, mask_31 (u32 (a <<< 1))))
encode_flush_lem (suc (suc (suc (suc (suc n))))) a o hn = absurd (omega arith)

encode_loop_lem :
    (bs : List ℕ) (n a : ℕ) (o : List ℕ)
    → n < 5
    → IsBytes bs
    → encode_flush (foldl encode_byte (st a n o) bs) ≡ o ++ pending n a bs
encode_loop_lem [] n a o hn h = encode_flush_lem n a o hn
encode_loop_lem (b ∷ bs) n a o hn (hb, hbs) =
    let (n', a', o', e, hn', p) = encode_byte_lem a b o hb n hn in
    rw (e, p bs) (encode_loop_lem bs n' a' (o ++ o') hn' hbs ∙ append_assoc o o' _)

-- The output is one symbol for each group of five bits of the input, the last group filled up.
pub base32_encode-fives :
    (bs : List ℕ) → IsBytes bs → base32_encode bs ≡ map symbol (fives (byte_bits bs))
unfolding base32_encode
base32_encode-fives bs h = encode_loop_lem bs 0 0 [] (omega arith) h

test_encode : base32_encode (codes "fooba") ≡ codes "mzxw6ytb"
unfolding base32_encode
test_encode = refl

test_encode_f : base32_encode (codes "f") ≡ codes "my"
unfolding base32_encode
test_encode_f = refl

-- ===== src/Core/Matcher/Matches.antt =====
-- A pattern matches exactly the keys whose base32 text begins with the prefix.
use cpp_onion.Base.{
  ℕ, zero, suc, ◌+◌, ◌-◌, ◌*◌, ◌≤◌, bit_and, ◌≡◌, ◌↔◌, refl, sym, ap, ap₂, ◌∙◌, List, [], ◌∷◌, ◌++◌,
  arith, length, length-append, map, length-map, take, All, All-append, All-take, IsByte, IsBytes,
  replicate, length-replicate, true, false, Bool, if◌then◌else◌, not, ◌==◌, Expected, ok,
}
use mathlib.Core.Logic.Iff
use cpp_onion.Base.Digits.{bits}
use cpp_onion.Core.Base32.{Base32Error, symbol, base32_encode}
use cpp_onion.Core.Base32.Groups.{
  byte_bits, symbol_bits, fives, length-symbol_bits, IsSymbol, IsBit, byte_bits-IsBit,
  length-byte_bits, fives-IsSymbol,
}
use cpp_onion.Core.Base32.Encode.{base32_encode-fives}
use cpp_onion.Core.Base32.Decode.{positions, symbols_of_positions, positions-symbols}
use cpp_onion.Core.Matcher.{CompiledPattern, compile_prefix, matches_loop, matches}
use cpp_onion.Core.Matcher.Bits.{Agrees, byte-Agrees_iff}
use cpp_onion.Core.Matcher.Compile.{IsCompiled, compile_prefix-IsCompiled}

-- The loop at index 0 on the arrays without their first elements is the loop at index 1.
abbrev arrays : List ℕ → List ℕ → CompiledPattern
arrays ms bs = record { bytes = bs; mask = ms; nbytes = 0; prefix = [] }

matches_loop_shift :
    (left i x m b : ℕ) (xs ms bs : List ℕ)
    → matches_loop (arrays (m ∷ ms) (b ∷ bs)) (x ∷ xs) left (suc i)
      ≡ matches_loop (arrays ms bs) xs left i
unfolding matches_loop
matches_loop_shift zero i x m b xs ms bs = refl
matches_loop_shift (suc left) i x m b xs ms bs =
    let e : suc i + 1 ≡ suc (i + 1) = omega arith in
    rw (e, matches_loop_shift left (i + 1) x m b xs ms bs)

matches_loop_fields :
    (p : CompiledPattern) (xs : List ℕ) (left i : ℕ)
    → matches_loop p xs left i ≡ matches_loop (arrays p.mask p.bytes) xs left i
unfolding matches_loop
matches_loop_fields p xs zero i = refl
matches_loop_fields p xs (suc left) i = rw (matches_loop_fields p xs left (i + 1))

abbrev times8 : ℕ → ℕ
times8 zero = 0
times8 (suc n) = suc (suc (suc (suc (suc (suc (suc (suc (times8 n))))))))

test_iff :
    (u b : ℕ) (r : Bool) → ((if not (u == b) then false else r) ≡ true) ↔ ((u ≡ b) × (r ≡ true))
test_iff u b r = (λ h. ground arith, λ h. ground arith)

-- The loop over `left` bytes compares `8 * left` bits.
matches_loop-Agrees :
    (left : ℕ) (xs ms bs : List ℕ)
    → IsBytes xs
    → IsBytes ms
    → IsBytes bs
    → left ≤ length xs
    → left ≤ length ms
    → left ≤ length bs
    → (matches_loop (arrays ms bs) xs left 0 ≡ true)
      ↔ Agrees (times8 left) (byte_bits xs) (byte_bits ms) (byte_bits bs)
unfolding matches_loop
matches_loop-Agrees zero xs ms bs hx hm hb lx lm lb = (λ _. tt, λ _. refl)
matches_loop-Agrees (suc left) (x ∷ xs) (m ∷ ms) (b ∷ bs) hx hm hb lx lm lb =
    let shift = matches_loop_shift left 0 x m b xs ms bs in
    let rest =
      matches_loop-Agrees left xs ms bs hx.1 hm.1 hb.1 (omega arith) (omega arith) (omega arith) in
    let first =
      test_iff (bit_and x m) b (matches_loop (arrays (m ∷ ms) (b ∷ bs)) (x ∷ xs) left 1) in
    let byte =
      byte-Agrees_iff x m b (times8 left) (byte_bits xs) (byte_bits ms) (byte_bits bs) hx.0 hm.0
        hb.0 in
    (
      λ h. let (e, r) = first.0 h in byte.0 (e, rest.0 (sym shift ∙ r)),
      λ h. let (e, g) = byte.1 h in first.1 (e, shift ∙ rest.1 g),
    )
matches_loop-Agrees (suc left) [] ms bs hx hm hb lx lm lb = absurd (omega arith)
matches_loop-Agrees (suc left) (x ∷ xs) [] bs hx hm hb lx lm lb = absurd (omega arith)
matches_loop-Agrees (suc left) (x ∷ xs) (m ∷ ms) [] hx hm hb lx lm lb = absurd (omega arith)

Agrees-zeros :
    (n room : ℕ) (xs : List ℕ)
    → n ≤ room
    → n ≤ length xs
    → Agrees n xs (replicate room 0) (replicate room 0)
Agrees-zeros zero room xs h hx = tt
Agrees-zeros (suc n) zero xs h hx = absurd (omega arith)
Agrees-zeros (suc n) (suc room) [] h hx = absurd (omega arith)
Agrees-zeros (suc n) (suc room) (x ∷ xs) h hx =
    (omega arith, Agrees-zeros n room xs (omega arith) (omega arith))

-- Under a mask of ones the bits are the pattern's; under zeros they do not matter.
Agrees-take_iff :
    (pre : List ℕ) (n room : ℕ) (xs : List ℕ)
    → length pre ≤ n
    → n ≤ length pre + room
    → n ≤ length xs
    → All IsBit xs
    → Agrees n xs (replicate (length pre) 1 ++ replicate room 0) (pre ++ replicate room 0)
      ↔ (take (length pre) xs ≡ pre)
Agrees-take_iff [] n room xs lo hi hx bx = (λ _. refl, λ _. Agrees-zeros n room xs (omega arith) hx)
Agrees-take_iff (p ∷ pre) zero room xs lo hi hx bx = absurd (omega arith)
Agrees-take_iff (p ∷ pre) (suc n) room [] lo hi hx bx = absurd (omega arith)
Agrees-take_iff (p ∷ pre) (suc n) room (x ∷ xs) lo hi hx bx =
    let rest = Agrees-take_iff pre n room xs (omega arith) (omega arith) (omega arith) bx.1 in
    (
      λ h. let e : x ≡ p = omega (arith, h.0, bx.0) in ap₂ ◌∷◌ e (rest.0 h.1),
      λ h. (
        let e : x ≡ p = cc h in omega (arith, e, bx.0),
        rest.1 (let e : take (length pre) xs ≡ pre = cc h in e),
      ),
    )

-- The first bits of the text are those of the first symbols.
take-fives :
    (is l : List ℕ)
    → All IsSymbol is
    → All IsBit l
    → length (symbol_bits is) ≤ length l
    → (take (length (symbol_bits is)) l ≡ symbol_bits is) ↔ (take (length is) (fives l) ≡ is)
take-fives [] l h hl len = (λ _. refl, λ _. refl)
take-fives (i ∷ is) (a ∷ b ∷ c ∷ d ∷ e ∷ l) (hi, his) (ha, (hb, (hc, (hd, (he, hl))))) len =
    let rest = take-fives is l his hl (omega arith) in
    (λ h. ground (arith, rest.0), λ h. ground (arith, rest.1))
take-fives (i ∷ is) l h hl len = absurd (omega arith)

map-symbol_injective :
    (is js : List ℕ) → All IsSymbol is → All IsSymbol js → map symbol is ≡ map symbol js → is ≡ js
map-symbol_injective is js hi hj e =
    let same : positions (map symbol is) ≡ positions (map symbol js) = ap positions e in
    ok_injective (sym (positions-symbols is hi) ∙ same ∙ positions-symbols js hj)
  where
    ok_injective : ◌≡◌ {A = Expected Base32Error (List ℕ)} (ok is) (ok js) → is ≡ js
    ok_injective e = cc

take-map : (f : ℕ → ℕ) (n : ℕ) (xs : List ℕ) → take n (map f xs) ≡ map f (take n xs)
take-map f zero xs = refl
take-map f (suc n) [] = refl
take-map f (suc n) (x ∷ xs) = ap (◌∷◌ (f x)) (take-map f n xs)

byte_bits-append : (xs ys : List ℕ) → byte_bits (xs ++ ys) ≡ byte_bits xs ++ byte_bits ys
byte_bits-append [] ys = refl
byte_bits-append (x ∷ xs) ys = ap (λ (t : List ℕ). bits 8 x ++ t) (byte_bits-append xs ys)

take-append : (n : ℕ) (xs ys : List ℕ) → n ≤ length xs → take n (xs ++ ys) ≡ take n xs
take-append zero xs ys h = refl
take-append (suc n) [] ys h = absurd (omega arith)
take-append (suc n) (x ∷ xs) ys h = ap (◌∷◌ x) (take-append n xs ys (omega arith))

times8_lem : (n : ℕ) → times8 n ≡ 8 * n
times8_lem zero = refl
times8_lem (suc n) = omega (arith, times8_lem n)

module _ (p is : List ℕ) (c : CompiledPattern) (pubkey rest : List ℕ) (k : IsCompiled p is c)
    (hk : IsBytes pubkey) (hr : IsBytes rest) (len : length pubkey ≡ 32) where
  small : All IsSymbol is
  small = (symbols_of_positions p is k.found).0

  spelled : map symbol is ≡ p
  spelled = (symbols_of_positions p is k.found).1

  same_length : length is ≡ length p
  same_length = sym (length-map symbol is) ∙ ap length spelled

  pre_length : length (symbol_bits is) ≡ 5 * length p
  pre_length = omega (arith, length-symbol_bits is, same_length)

  array_length :
      (xs pre : List ℕ) (n : ℕ)
      → byte_bits xs ≡ pre ++ replicate n 0
      → length pre + n ≡ 256
      → length xs ≡ 32
  array_length xs pre n e h = omega (
    arith,
    ap length e,
    length-append pre (replicate n 0),
    length-replicate {A = ℕ} n 0,
    length-byte_bits xs,
  )

  bytes_length : length c.bytes ≡ 32
  bytes_length =
      array_length c.bytes (symbol_bits is) (256 - 5 * length p) k.pattern
        (omega (arith, pre_length, k.admissible.1))

  mask_length : length c.mask ≡ 32
  mask_length =
      array_length c.mask (replicate (5 * length p) 1) (256 - 5 * length p) k.ones
        (omega (arith, length-replicate {A = ℕ} (5 * length p) 1, k.admissible.1))

  key_bits : length (byte_bits pubkey) ≡ 256
  key_bits = omega (arith, length-byte_bits pubkey, len)

  by_bits :
      (matches c pubkey ≡ true)
      ↔ (take (length (symbol_bits is)) (byte_bits pubkey) ≡ symbol_bits is)
  unfolding matches
  by_bits =
      let few : c.nbytes ≤ 32 = omega (arith, k.counted, k.admissible.1) in
      let loop =
        matches_loop-Agrees c.nbytes pubkey c.mask c.bytes hk k.mask_ok k.bytes_ok
          (omega (arith, len, few)) (omega (arith, mask_length, few))
          (omega (arith, bytes_length, few)) in
      let masked =
        Agrees-take_iff (symbol_bits is) (times8 c.nbytes) (256 - 5 * length p) (byte_bits pubkey)
          (omega (arith, times8_lem c.nbytes, k.counted, pre_length))
          (omega (arith, times8_lem c.nbytes, few, pre_length, k.admissible.1))
          (omega (arith, times8_lem c.nbytes, few, key_bits)) (byte_bits-IsBit pubkey) in
      rw (matches_loop_fields c pubkey c.nbytes 0)
        (Iff.trans (rw (k.pattern, k.ones, ← pre_length) at loop) (rw (← pre_length) at masked))

  abbrev whole : List ℕ
  whole = byte_bits (pubkey ++ rest)

  same_bits :
      take (length (symbol_bits is)) whole ≡ take (length (symbol_bits is)) (byte_bits pubkey)
  same_bits = rw (byte_bits-append pubkey rest) (
      take-append (length (symbol_bits is)) (byte_bits pubkey) (byte_bits rest)
        (omega (arith, pre_length, key_bits, k.admissible.1)))

  length-whole : length (symbol_bits is) ≤ length whole
  length-whole = omega (
    arith,
    ap length (byte_bits-append pubkey rest),
    length-append (byte_bits pubkey) (byte_bits rest),
    pre_length,
    key_bits,
    k.admissible.1,
  )

  text :
      take (length p) (base32_encode (pubkey ++ rest)) ≡ map symbol (take (length is) (fives whole))
  text =
      rw (base32_encode-fives (pubkey ++ rest) (All-append IsByte pubkey rest hk hr), ← same_length)
        (take-map symbol (length is) (fives whole))

  spelling_iff :
      (take (length is) (fives whole) ≡ is) ↔ (take (length p) (base32_encode (pubkey ++ rest)) ≡ p)
  spelling_iff = (
    λ h. text ∙ ap (map symbol) h ∙ spelled,
    λ h.
        map-symbol_injective _ is
          (All-take IsSymbol (length is) (fives whole) (fives-IsSymbol whole (byte_bits-IsBit _)))
          small (sym text ∙ h ∙ sym spelled),
  )

  by_symbols :
      (take (length (symbol_bits is)) (byte_bits pubkey) ≡ symbol_bits is)
      ↔ (take (length p) (base32_encode (pubkey ++ rest)) ≡ p)
  by_symbols =
      Iff.trans
        (rw same_bits at
          (take-fives is whole small (byte_bits-IsBit (pubkey ++ rest)) length-whole))
        spelling_iff

-- For a compiled prefix and a 32-byte key, `matches` tells whether the base32 text of the key, with
-- whatever bytes after it, begins with the prefix.
pub matches_iff :
    (p : List ℕ) (c : CompiledPattern) (pubkey rest : List ℕ)
    → compile_prefix p ≡ ok c
    → IsBytes pubkey
    → IsBytes rest
    → length pubkey ≡ 32
    → (matches c pubkey ≡ true) ↔ (take (length p) (base32_encode (pubkey ++ rest)) ≡ p)
matches_iff p c pubkey rest compiled hk hr len =
    let (is, k) = compile_prefix-IsCompiled p c compiled in
    Iff.trans (by_bits p is c pubkey rest k hk hr len) (by_symbols p is c pubkey rest k hk hr len)

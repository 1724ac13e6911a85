-- ===== src/Core/Base32/Groups.antt =====
-- A string of base32 as a stream of bits: five to a symbol, eight to a byte.
use cpp_onion.Base.{
  ℕ, ◌+◌, ◌*◌, ◌/◌, ◌<◌, ◌≡◌, refl, ap, ap₂, ◌∙◌, Bool, true, ◌&&◌, List, [], ◌∷◌, ◌++◌, arith,
  ◌==◌, length, replicate, All,
}
use cpp_onion.Base.Digits.{bits}

-- The bits of a byte string, most significant first.
abbrev pub byte_bits : List ℕ → List ℕ
byte_bits [] = []
byte_bits (b ∷ bs) = bits 8 b ++ byte_bits bs

-- The bits of a list of five-bit values.
abbrev pub symbol_bits : List ℕ → List ℕ
symbol_bits [] = []
symbol_bits (i ∷ is) = bits 5 i ++ symbol_bits is

-- Groups of five bits, the last one filled up with zeros.
abbrev pub fives : List ℕ → List ℕ
fives [] = []
fives (a ∷ []) = (16 * a) ∷ []
fives (a ∷ b ∷ []) = (16 * a + 8 * b) ∷ []
fives (a ∷ b ∷ c ∷ []) = (16 * a + 8 * b + 4 * c) ∷ []
fives (a ∷ b ∷ c ∷ d ∷ []) = (16 * a + 8 * b + 4 * c + 2 * d) ∷ []
fives (a ∷ b ∷ c ∷ d ∷ e ∷ r) = (16 * a + 8 * b + 4 * c + 2 * d + e) ∷ fives r

-- Whole groups of eight bits; fewer than eight at the end are left over.
abbrev pub eights : List ℕ → List ℕ
eights (a ∷ b ∷ c ∷ d ∷ e ∷ f ∷ g ∷ h ∷ r) =
    (128 * a + 64 * b + 32 * c + 16 * d + 8 * e + 4 * f + 2 * g + h) ∷ eights r
eights _ = []

abbrev pub leftover : List ℕ → List ℕ
leftover (a ∷ b ∷ c ∷ d ∷ e ∷ f ∷ g ∷ h ∷ r) = leftover r
leftover r = r

-- The zeros that fill up the last group of five.
abbrev pub padding : List ℕ → List ℕ
padding [] = []
padding (a ∷ []) = replicate 4 0
padding (a ∷ b ∷ []) = replicate 3 0
padding (a ∷ b ∷ c ∷ []) = replicate 2 0
padding (a ∷ b ∷ c ∷ d ∷ []) = replicate 1 0
padding (a ∷ b ∷ c ∷ d ∷ e ∷ r) = padding r

abbrev pub all_zero : List ℕ → Bool
all_zero [] = true
all_zero (x ∷ xs) = x == 0 && all_zero xs

abbrev pub IsBit : ℕ → Type 0
IsBit a = a < 2

abbrev pub IsSymbol : ℕ → Type 0
IsSymbol i = i < 32

bits_of_five :
    (a b c d e : ℕ) (r : List ℕ)
    → IsBit a × IsBit b × IsBit c × IsBit d × IsBit e
    → bits 5 (16 * a + 8 * b + 4 * c + 2 * d + e) ++ r ≡ a ∷ b ∷ c ∷ d ∷ e ∷ r
bits_of_five a b c d e r h = ground arith

-- Grouping and filling up loses no bit.
pub symbol_bits-fives : (l : List ℕ) → All IsBit l → symbol_bits (fives l) ≡ l ++ padding l
symbol_bits-fives [] h = refl
symbol_bits-fives (a ∷ []) h = ground arith
symbol_bits-fives (a ∷ b ∷ []) h = ground arith
symbol_bits-fives (a ∷ b ∷ c ∷ []) h = ground arith
symbol_bits-fives (a ∷ b ∷ c ∷ d ∷ []) h = ground arith
symbol_bits-fives (a ∷ b ∷ c ∷ d ∷ e ∷ r) (ha, (hb, (hc, (hd, (he, hr))))) =
    bits_of_five a b c d e (symbol_bits (fives r)) (ha, hb, hc, hd, he)
    ∙ ap (λ (t : List ℕ). a ∷ b ∷ c ∷ d ∷ e ∷ t) (symbol_bits-fives r hr)

pub fives-symbol_bits : (is : List ℕ) → All IsSymbol is → fives (symbol_bits is) ≡ is
fives-symbol_bits [] h = refl
fives-symbol_bits (i ∷ is) (hi, his) = ap₂ ◌∷◌ (omega arith) (fives-symbol_bits is his)

pub fives-IsSymbol : (l : List ℕ) → All IsBit l → All IsSymbol (fives l)
fives-IsSymbol [] h = tt
fives-IsSymbol (a ∷ []) h = omega arith
fives-IsSymbol (a ∷ b ∷ []) h = omega arith
fives-IsSymbol (a ∷ b ∷ c ∷ []) h = omega arith
fives-IsSymbol (a ∷ b ∷ c ∷ d ∷ []) h = omega arith
fives-IsSymbol (a ∷ b ∷ c ∷ d ∷ e ∷ r) (ha, (hb, (hc, (hd, (he, hr))))) =
    (omega arith, fives-IsSymbol r hr)

pub byte_bits-IsBit : (bs : List ℕ) → All IsBit (byte_bits bs)
byte_bits-IsBit [] = tt
byte_bits-IsBit (b ∷ bs) = ground (arith, byte_bits-IsBit bs)

pub symbol_bits-IsBit : (is : List ℕ) → All IsBit (symbol_bits is)
symbol_bits-IsBit [] = tt
symbol_bits-IsBit (i ∷ is) = ground (arith, symbol_bits-IsBit is)

pub length-byte_bits : (bs : List ℕ) → length (byte_bits bs) ≡ 8 * length bs
length-byte_bits [] = refl
length-byte_bits (b ∷ bs) = omega (arith, length-byte_bits bs)

pub length-symbol_bits : (is : List ℕ) → length (symbol_bits is) ≡ 5 * length is
length-symbol_bits [] = refl
length-symbol_bits (i ∷ is) = omega (arith, length-symbol_bits is)

pub length-fives : (l : List ℕ) → length (fives l) ≡ (length l + 4) / 5
length-fives [] = omega arith
length-fives (a ∷ []) = omega arith
length-fives (a ∷ b ∷ []) = omega arith
length-fives (a ∷ b ∷ c ∷ []) = omega arith
length-fives (a ∷ b ∷ c ∷ d ∷ []) = omega arith
length-fives (a ∷ b ∷ c ∷ d ∷ e ∷ r) = omega (arith, length-fives r)

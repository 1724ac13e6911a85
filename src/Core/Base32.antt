-- ===== src/Core/Base32.antt =====
-- src/core/base32.hpp and src/core/base32.cpp. A string is the list of its character codes, and
-- `std::span<const std::byte>` a list of numbers below 256. `acc` is the 32-bit accumulator and
-- wraps; `bits` counts its low bits that are still to be used.
pub mod Groups
pub mod Encode
pub mod Decode
pub mod RoundTrip
use Prim.Native.Char.{code}
use Prim.Native.String.{String}
use cpp_onion.Base.{
  ℕ, zero, suc, ◌+◌, ◌-◌, ◌*◌, ◌/◌, ◌%◌, ◌^◌, bit_and, bit_or, Bool, true, false, ◌&&◌, not, Option,
  none, some, List, [], ◌∷◌, ◌++◌, foldl, Expected, ok, unexpected, ◌>>=◌, ltb, leb, ◌==◌,
  if◌then◌else◌, length, get_or, u32, u8, ◌<<<◌, ◌>>>◌,
}

-- The codes of a text.
abbrev pub codes : String → List ℕ
codes String.[] = []
codes (String.◌∷◌ c s) = code c ∷ codes s

-- `kBase32Alphabet`
abbrev pub alphabet : List ℕ
alphabet = codes "abcdefghijklmnopqrstuvwxyz234567"

pub data Base32Error : Type 0 where
  invalid_char nonzero_padding invalid_length : Base32Error

-- `std::string_view::find` of one character; `none` is `npos`.
unfoldable pub find : List ℕ → ℕ → Option ℕ
find [] c = none
find (x ∷ xs) c =
    let rest = find xs c in
    if x == c then some 0 else elim rest [ none ↦ none | some i ↦ some (suc i) ]

-- `kBase32Alphabet[i]`
unfoldable pub symbol : ℕ → ℕ
symbol i = get_or alphabet i 0

-- The variables of either loop.
pub record State : Type 0 where
  pub acc : ℕ
  pub bits : ℕ
  pub out : List ℕ

abbrev pub start : State
start = record { acc = 0; bits = 0; out = [] }

-- `while (bits >= 5)`: at most `bits` rounds, since each takes five off.
unfoldable pub drain : ℕ → State → State
drain zero s = s
drain (suc fuel) s =
    let bits' = s.bits - 5 in
    let rest =
      drain fuel (record s {
        bits = bits';
        out = s.out ++ (symbol (bit_and (s.acc >>> bits') 0x1f) ∷ []);
      }) in
    if leb 5 s.bits then rest else s

-- One round of the loop of `base32_encode`.
unfoldable pub encode_byte : State → ℕ → State
unfolding drain
encode_byte s b =
    drain (s.bits + 8) (record s { acc = bit_or (u32 (s.acc <<< 8)) b; bits = s.bits + 8 })

-- The rest of `base32_encode` after its loop.
unfoldable pub encode_flush : State → List ℕ
encode_flush s =
    if ltb 0 s.bits
    then s.out ++ (symbol (bit_and (u32 (s.acc <<< (5 - s.bits))) 0x1f) ∷ [])
    else s.out

unfoldable pub base32_encode : List ℕ → List ℕ
unfolding encode_byte encode_flush symbol
base32_encode input = encode_flush (foldl encode_byte start input)

-- `kValidMod8`
abbrev pub valid_mod8 : List Bool
valid_mod8 = true ∷ false ∷ true ∷ false ∷ true ∷ true ∷ false ∷ true ∷ []

-- One round of the loop of `base32_decode` on a character found at `pos`.
unfoldable pub decode_symbol : State → ℕ → State
decode_symbol s pos =
    let acc' = bit_or (u32 (s.acc <<< 5)) pos in
    let bits' = s.bits + 5 in
    if leb 8 bits'
    then record {
      acc = acc';
      bits = bits' - 8;
      out = s.out ++ (bit_and (acc' >>> (bits' - 8)) 0xff ∷ []);
    }
    else record s { acc = acc'; bits = bits' }

unfoldable pub find_symbol : ℕ → Expected Base32Error ℕ
unfolding find
find_symbol c = elim (find alphabet c) [ none ↦ unexpected invalid_char | some pos ↦ ok pos ]

unfoldable pub decode_loop : State → List ℕ → Expected Base32Error State
decode_loop s [] = ok s
decode_loop s (c ∷ cs) = do pos ← find_symbol c; decode_loop (decode_symbol s pos) cs

-- The padding check after the loop.
unfoldable pub decode_finish : State → Expected Base32Error (List ℕ)
decode_finish s =
    if ltb 0 s.bits && not (bit_and s.acc (u32 (1 <<< s.bits) - 1) == 0)
    then unexpected nonzero_padding
    else ok s.out

unfoldable pub base32_decode : List ℕ → Expected Base32Error (List ℕ)
unfolding decode_loop decode_finish decode_symbol find_symbol
base32_decode s =
    if get_or valid_mod8 (length s % 8) false
    then decode_loop start s >>= decode_finish
    else unexpected invalid_length

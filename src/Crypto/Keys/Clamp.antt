-- ===== src/Crypto/Keys/Clamp.antt =====
-- Clamped scalars: what `expand_seed` and the epochs of the engines start from.
use cpp_onion.Base.{
  ℕ, zero, suc, ◌+◌, ◌*◌, ◌%◌, ◌^◌, ◌<◌, ◌≤◌, ◌≡◌, refl, ap, ◌∙◌, arith, List, [], ◌∷◌, length,
  length-set, get_or, set, get_or-set, get_or-set_other, take, drop, length-take, length-drop,
  bit_and, bit_or, IsBytes, IsByte, All-take, true, ◌&&◌, leb, ltb, ◌==◌, ==_iff,
}
use cpp_onion.Base.Digits.{bit_and-le}
use cpp_onion.Base.Tables.{holds_below, holds_at}
use cpp_onion.Crypto.Field.Numbers.{le_value, le_value_32, le_at_lt, get-IsByte}
use cpp_onion.Crypto.Keys.{Sodium, IsSodium, clamp, expand_seed}
use cpp_onion.Crypto.Incremental.{scalar_add_8i}
use cpp_onion.Crypto.Incremental.Scalar.{scalar_add_8i_lem}

set-IsBytes : (xs : List ℕ) (i v : ℕ) → IsBytes xs → v < 256 → IsBytes (set xs i v)
set-IsBytes [] i v h hv = tt
set-IsBytes (x ∷ xs) zero v h hv = (hv, h.1)
set-IsBytes (x ∷ xs) (suc i) v h hv = (h.0, set-IsBytes xs i v h.1 hv)

-- A clamped scalar: 32 bytes of a multiple of 8 from 2^254 on and below 2^255.
pub record IsClamped (s : List ℕ) : Type 0 where
  pub bytes : IsBytes s
  pub size : length s ≡ 32
  pub multiple : le_value s % 8 ≡ 0
  pub from : 2 ^ 254 ≤ le_value s
  pub below : le_value s < 2 ^ 255

low_bits : (x : ℕ) → x < 256 → bit_and x 0xf8 % 8 ≡ 0
unfolding holds_below
low_bits x h = (==_iff _ 0).0 (holds_at 256 (λ (b : ℕ). bit_and b 0xf8 % 8 == 0) x refl h)

top_bits : (x : ℕ) → x < 256 → let y = bit_or (bit_and x 0x7f) 0x40 in (64 ≤ y) × (y < 128)
unfolding holds_below
top_bits x h =
    let test =
      λ (b : ℕ). leb 64 (bit_or (bit_and b 0x7f) 0x40) && ltb (bit_or (bit_and b 0x7f) 0x40) 128 in
    let e : test x ≡ true = holds_at 256 test x refl h in ground (arith, e)

le_value_mod : (s : List ℕ) → le_value s % 8 ≡ get_or s 0 0 % 8
le_value_mod [] = refl
le_value_mod (b ∷ s) = omega arith

-- From the lowest and the highest byte.
IsClamped-of :
    (s : List ℕ)
    → IsBytes s
    → length s ≡ 32
    → get_or s 0 0 % 8 ≡ 0
    → 64 ≤ get_or s 31 0
    → get_or s 31 0 < 128
    → IsClamped s
IsClamped-of s bytes size low top top' = record {
  bytes = bytes;
  size = size;
  multiple = le_value_mod s ∙ low;
  from = omega (arith, le_value_32 s size, top);
  below = omega (arith, le_value_32 s size, le_at_lt s 0 31 bytes, top');
}

clamp-IsBytes :
    (h : List ℕ)
    → IsBytes h
    → 32 ≤ length h
    → IsBytes (clamp h)
      × (length (clamp h) ≡ length h)
      × (get_or (clamp h) 0 0 % 8 ≡ 0)
      × (64 ≤ get_or (clamp h) 31 0)
      × (get_or (clamp h) 31 0 < 128)
unfolding clamp
clamp-IsBytes h bytes long =
    let a = bit_and (get_or h 0 0) 0xf8 in
    let low = set h 0 a in
    let b = bit_and (get_or low 31 0) 0x7f in
    let masked = set low 31 b in
    let c = bit_or (get_or masked 31 0) 0x40 in
    let a_ok : a < 256 = omega (arith, bit_and-le (get_or h 0 0) 0xf8, get-IsByte h 0 bytes) in
    let low_ok : IsBytes low = set-IsBytes h 0 a bytes a_ok in
    let top_ok : get_or low 31 0 < 256 = get-IsByte low 31 low_ok in
    let b_ok : b < 256 = omega (arith, bit_and-le (get_or low 31 0) 0x7f, top_ok) in
    let at_31 : get_or masked 31 0 ≡ b = get_or-set low 31 b (omega (arith, length-set h 0 a)) in
    let masked_size : length masked ≡ length h = length-set low 31 b ∙ length-set h 0 a in
    let final : get_or (set masked 31 c) 31 0 ≡ c =
      get_or-set masked 31 c (omega (arith, masked_size)) in
    let (from, below) : (64 ≤ c) × (c < 128) = rw at_31 (top_bits (get_or low 31 0) top_ok) in
    let first : get_or (set masked 31 c) 0 0 ≡ a =
      get_or-set_other masked 31 0 c (omega arith)
      ∙ get_or-set_other low 31 0 b (omega arith)
      ∙ get_or-set h 0 a (omega arith) in
    let multiple : a % 8 ≡ 0 = low_bits (get_or h 0 0) (get-IsByte h 0 bytes) in
    (
      set-IsBytes masked 31 c (set-IsBytes low 31 b low_ok b_ok) (omega (arith, below)),
      length-set masked 31 c ∙ masked_size,
      ap (λ (t : ℕ). t % 8) first ∙ multiple,
      omega (arith, final, from),
      omega (arith, final, below),
    )

-- Clamping 32 bytes gives a clamped scalar.
pub clamp-IsClamped : (s : List ℕ) → IsBytes s → length s ≡ 32 → IsClamped (clamp s)
clamp-IsClamped s bytes size =
    let (ok, same, low, from, below) = clamp-IsBytes s bytes (omega arith) in
    IsClamped-of (clamp s) ok (same ∙ size) low from below

get_or-take : (n i : ℕ) (xs : List ℕ) → i < n → get_or (take n xs) i 0 ≡ get_or xs i 0
get_or-take zero i xs h = absurd (omega arith)
get_or-take (suc n) i [] h = refl
get_or-take (suc n) zero (x ∷ xs) h = refl
get_or-take (suc n) (suc i) (x ∷ xs) h = get_or-take n i xs (omega arith)

-- The key that a seed expands to has a clamped scalar and a prefix of 32 bytes.
pub expand_seed-IsClamped :
    (sodium : Sodium) (seed : List ℕ)
    → IsSodium sodium
    → IsClamped (expand_seed sodium seed).scalar
      × (length (expand_seed sodium seed).prf_prefix ≡ 32)
unfolding expand_seed
expand_seed-IsClamped sodium seed law =
    let h = sodium.sha512 seed in
    let (bytes, size) = law.sha512_size seed in
    let (ok, same, low, from, below) = clamp-IsBytes h bytes (omega (arith, size)) in
    let e0 : get_or (take 32 (clamp h)) 0 0 ≡ get_or (clamp h) 0 0 =
      get_or-take 32 0 (clamp h) (omega arith) in
    let e31 : get_or (take 32 (clamp h)) 31 0 ≡ get_or (clamp h) 31 0 =
      get_or-take 32 31 (clamp h) (omega arith) in
    (
      IsClamped-of (take 32 (clamp h)) (All-take IsByte 32 (clamp h) ok)
          (omega (arith, length-take 32 (clamp h), same, size)) (rw e0 low) (rw e31 from)
          (rw e31 below),
      omega (arith, length-take 32 (drop 32 (clamp h)), length-drop 32 (clamp h), same, size),
    )

-- The scalars of an epoch are multiples of 8.
pub scalar_add_8i-multiple :
    (a0 : List ℕ) (i : ℕ) → IsClamped a0 → le_value (scalar_add_8i a0 i) % 8 ≡ 0
scalar_add_8i-multiple a0 i h =
    let (sum, bytes, size) = scalar_add_8i_lem a0 i h.bytes h.size in
    let step : (i * 8) % 2 ^ 64 % 8 ≡ 0 = omega arith in omega (arith, sum, step, h.multiple)

-- Adding 8 `i` to a clamped scalar gives a clamped scalar, as long as the sum stays below 2^255.
pub scalar_add_8i-IsClamped :
    (a0 : List ℕ) (i : ℕ)
    → IsClamped a0
    → le_value a0 + i * 8 % 2 ^ 64 < 2 ^ 255
    → IsClamped (scalar_add_8i a0 i)
scalar_add_8i-IsClamped a0 i h small =
    let (sum, bytes, size) = scalar_add_8i_lem a0 i h.bytes h.size in
    record {
      bytes = bytes;
      size = size;
      multiple = scalar_add_8i-multiple a0 i h;
      from = omega (arith, sum, small, h.from);
      below = omega (arith, sum, small);
    }

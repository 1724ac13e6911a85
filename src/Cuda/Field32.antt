-- ===== src/Cuda/Field32.antt =====
-- src/engine/cuda/device_field32.cuh: the field of 2^255 - 19 elements as eight words of 32 bits.
-- An element is any number below 2^256; only `fed_to_bytes` takes the least residue.
pub mod Loops
pub mod Sums
pub mod Products
pub mod Bytes
use cpp_onion.Base.{
  ℕ, zero, suc, ◌+◌, ◌-◌, ◌*◌, ◌/◌, ◌^◌, bit_and, bit_or, List, [], ◌∷◌, ◌++◌, get_or, take, drop,
  replicate, u32, u64, ◌<<<◌, ◌>>>◌, ltb, ◌==◌, if◌then◌else◌,
}
use cpp_onion.Crypto.Field.{sub64}
use cpp_onion.Cuda.Device.{DevicePoint, DeviceAddend, DeviceField, invert, madd}

-- `Fe`: the eight words of its array, the lowest first.
abbrev pub Fe : Type 0
Fe = List ℕ

-- The words of a loop together with what it carries past the last one.
abbrev pub Carried : Type 0
Carried = List ℕ × ℕ

abbrev pub with_word : ℕ → Carried → Carried
with_word w r = (w ∷ r.0, r.1)

-- The loop of `v = acc[i] + carry; out[i] = (uint32_t)v; carry = v >> 32`.
unfoldable pub carry_words : List ℕ → ℕ → Carried
carry_words [] carry = ([], carry)
carry_words (a ∷ acc) carry =
    let v = u64 (a + carry) in with_word (u32 v) (carry_words acc (v >>> 32))

-- The loop with the condition `i < 8 && fold`.
unfoldable pub ripple : List ℕ → ℕ → Carried
ripple [] fold = ([], fold)
ripple (w ∷ ws) zero = (w ∷ ws, 0)
ripple (w ∷ ws) (suc k) = let v = u64 (w + suc k) in with_word (u32 v) (ripple ws (v >>> 32))

-- The loop of `d = x[i] - y[i] - borrow; x[i] = (uint32_t)d; borrow = d >> 63`.
unfoldable pub sub_words : List ℕ → List ℕ → ℕ → Carried
sub_words [] ys borrow = ([], borrow)
sub_words (x ∷ xs) [] borrow = ([], borrow)
sub_words (x ∷ xs) (y ∷ ys) borrow =
    let d = sub64 (sub64 x y) borrow in with_word (u32 d) (sub_words xs ys (d >>> 63))

-- The words `f (a[i], b[i])`.
unfoldable pub each_word : (ℕ → ℕ → ℕ) → List ℕ → List ℕ → List ℕ
each_word f [] ys = []
each_word f (x ∷ xs) [] = []
each_word f (x ∷ xs) (y ∷ ys) = f x y ∷ each_word f xs ys

-- `fold = carry * 38` and its loop.
unfoldable pub fold_carry : Carried → Carried
unfolding ripple
fold_carry r = ripple r.0 (u64 (r.1 * 38))

unfoldable pub fed_add : Fe → Fe → Fe
unfolding carry_words each_word fold_carry
fed_add a b = (fold_carry (carry_words (each_word (λ (x y : ℕ). u64 (x + y)) a b) 0)).0

-- The words of `2 * p`.
abbrev pub twop : List ℕ
twop = 0xffffffda ∷ replicate 7 0xffffffff

-- The cases of `top = carry - borrow`.
unfoldable pub fold_signed : ℕ → ℕ → List ℕ → Fe
unfolding ripple
fold_signed carry borrow out =
    if ltb borrow carry
    then (ripple out (u64 ((carry - borrow) * 38))).0
    else if ltb carry borrow
    then (ripple out 38).0
    else out

unfoldable pub fed_sub : Fe → Fe → Fe
unfolding carry_words each_word sub_words fold_signed
fed_sub a b =
    let raised = carry_words (each_word (λ (x y : ℕ). u64 (x + y)) a twop) 0 in
    let lowered = sub_words raised.0 b 0 in fold_signed raised.1 lowered.1 lowered.0

-- The inner loop of `fed_mul` from the word `r[i]` on, which ends with `r[i + 8] = carry`.
unfoldable pub mul_row : ℕ → List ℕ → List ℕ → ℕ → List ℕ
mul_row x [] [] carry = []
mul_row x [] (r ∷ rs) carry = carry ∷ rs
mul_row x (y ∷ ys) [] carry = []
mul_row x (y ∷ ys) (r ∷ rs) carry =
    let p = u64 (x * y + r + carry) in u32 p ∷ mul_row x ys rs (u32 (p >>> 32))

-- The outer loop: the word `r[i]` is done with after its row.
unfoldable pub mul_rows : List ℕ → List ℕ → List ℕ → List ℕ
unfolding mul_row
mul_rows [] bs rs = rs
mul_rows (x ∷ xs) bs rs =
    let row = mul_row x bs rs 0 in get_or row 0 0 ∷ mul_rows xs bs (drop 1 row)

-- `fed32_reduce_wide`. The last ripple is that of `if (fold)`: with no fold it changes nothing.
unfoldable pub fed32_reduce_wide : List ℕ → Fe
unfolding carry_words each_word fold_carry ripple
fed32_reduce_wide r =
    let acc = each_word (λ (lo hi : ℕ). u64 (lo + u64 (38 * hi))) (take 8 r) (drop 8 r) in
    let folded = fold_carry (carry_words acc 0) in (ripple folded.0 folded.1).0

unfoldable pub fed_mul : Fe → Fe → Fe
unfolding mul_rows fed32_reduce_wide
fed_mul a b = fed32_reduce_wide (mul_rows a b (replicate 16 0))

unfoldable pub fed_sq : Fe → Fe
unfolding fed_mul
fed_sq a = fed_mul a a

-- The word of the four bytes from `off`.
unfoldable pub load32 : List ℕ → ℕ → ℕ
load32 s off =
    bit_or
      (bit_or (bit_or (get_or s off 0) (u32 (get_or s (off + 1) 0 <<< 8)))
        (u32 (get_or s (off + 2) 0 <<< 16)))
      (u32 (get_or s (off + 3) 0 <<< 24))

unfoldable pub fed_from_bytes : List ℕ → Fe
unfolding load32
fed_from_bytes s =
    load32 s 0
    ∷ load32 s 4
    ∷ load32 s 8
    ∷ load32 s 12
    ∷ load32 s 16
    ∷ load32 s 20
    ∷ load32 s 24
    ∷ bit_and (load32 s 28) 0x7fffffff
    ∷ []

-- The words of `p`.
abbrev pub prime_words : List ℕ
prime_words = 0xffffffed ∷ (replicate 6 0xffffffff ++ (0x7fffffff ∷ []))

-- A round of the loop over `pass`: `sub_p` on a copy, kept when there is no borrow.
unfoldable pub reduce_pass : List ℕ → List ℕ
unfolding sub_words
reduce_pass w = let t = sub_words w prime_words 0 in if t.1 == 0 then t.0 else w

-- The four bytes of each word.
unfoldable pub words_to_bytes : List ℕ → List ℕ
words_to_bytes [] = []
words_to_bytes (w ∷ ws) =
    bit_and w 0xff
    ∷ bit_and (w >>> 8) 0xff
    ∷ bit_and (w >>> 16) 0xff
    ∷ bit_and (w >>> 24) 0xff
    ∷ words_to_bytes ws

unfoldable pub fed_to_bytes : Fe → List ℕ
unfolding reduce_pass words_to_bytes
fed_to_bytes w = words_to_bytes (reduce_pass (reduce_pass (reduce_pass w)))

-- `fed_kD2`
unfoldable pub fed_d2 : Fe
fed_d2 =
    0x26b2f159 ∷ 0xebd69b94 ∷ 0x8283b156 ∷ 0x00e0149a ∷ 0xeef3d130 ∷ 0x198e80f2 ∷ 0x56dffce7
    ∷ 0x2406d9dc ∷ []

-- The operations that the kernels use.
unfoldable pub field32 : DeviceField Fe
unfolding fed_from_bytes fed_to_bytes fed_add fed_sub fed_mul fed_sq
field32 = record {
  from_bytes = fed_from_bytes;
  to_bytes = fed_to_bytes;
  add = fed_add;
  sub = fed_sub;
  mul = fed_mul;
  sq = fed_sq;
}

unfoldable pub fed_invert : Fe → Fe
unfolding field32 invert
fed_invert = invert field32

unfoldable pub ged_madd : DevicePoint Fe → DeviceAddend Fe → DevicePoint Fe
unfolding field32 madd
ged_madd = madd field32

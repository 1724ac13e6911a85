-- ===== src/Crypto/Field.antt =====
-- src/crypto/fe25519.hpp and src/crypto/fe25519.cpp: the field of 2^255 - 19 elements as five
-- limbs of 51 bits in 64-bit words. Every 64-bit and 128-bit operation wraps as in the source.
pub mod Product
pub mod Value
pub mod Carry
pub mod Multiply
pub mod Invert
mod Tests
mod Canonical
pub mod Bytes
pub mod Numbers
use cpp_onion.Base.{
  ℕ, zero, suc, ◌+◌, ◌-◌, ◌*◌, ◌^◌, ◌%◌, bit_and, bit_or, List, [], ◌∷◌, ◌++◌, get_or, u64, u128,
  ◌<<<◌, ◌>>>◌,
}

-- `Fe`: the five elements of its array.
pub record Fe : Type 0 where
  pub v0 : ℕ
  pub v1 : ℕ
  pub v2 : ℕ
  pub v3 : ℕ
  pub v4 : ℕ

-- `M`
abbrev pub limb_mask : ℕ
limb_mask = 2 ^ 51 - 1

-- `x - y` of two 64-bit words.
abbrev pub sub64 : ℕ → ℕ → ℕ
sub64 x y = u64 (x + 2 ^ 64 - y)

-- The loop of `load64`, `i` rounds left.
unfoldable pub load_bytes : List ℕ → ℕ → ℕ → ℕ → ℕ
load_bytes s off zero r = r
load_bytes s off (suc i) r = load_bytes s off i (bit_or (u64 (r <<< 8)) (get_or s (off + i) 0))

unfoldable pub load64 : List ℕ → ℕ → ℕ
unfolding load_bytes
load64 s off = load_bytes s off 8 0

unfoldable pub fe_from_words : ℕ → ℕ → ℕ → ℕ → Fe
fe_from_words x0 x1 x2 x3 = record {
  v0 = bit_and x0 limb_mask;
  v1 = bit_and (bit_or (x0 >>> 51) (u64 (x1 <<< 13))) limb_mask;
  v2 = bit_and (bit_or (x1 >>> 38) (u64 (x2 <<< 26))) limb_mask;
  v3 = bit_and (bit_or (x2 >>> 25) (u64 (x3 <<< 39))) limb_mask;
  v4 = bit_and (x3 >>> 12) limb_mask;
}

unfoldable pub fe_from_bytes : List ℕ → Fe
unfolding load64 fe_from_words
fe_from_bytes s = fe_from_words (load64 s 0) (load64 s 8) (load64 s 16) (load64 s 24)

-- `carry`
unfoldable pub carry : Fe → Fe
carry t =
    let t1 = u64 (t.v1 + (t.v0 >>> 51)) in
    let t2 = u64 (t.v2 + (t1 >>> 51)) in
    let t3 = u64 (t.v3 + (t2 >>> 51)) in
    let t4 = u64 (t.v4 + (t3 >>> 51)) in
    record {
      v0 = bit_and t.v0 limb_mask;
      v1 = bit_and t1 limb_mask;
      v2 = bit_and t2 limb_mask;
      v3 = bit_and t3 limb_mask;
      v4 = t4;
    }

-- `t[0] += 19 * (t[4] >> 51); t[4] &= M`
unfoldable pub wrap_top : Fe → Fe
wrap_top t = record t { v0 = u64 (t.v0 + u64 (19 * (t.v4 >>> 51))); v4 = bit_and t.v4 limb_mask }

-- `carry_full`
unfoldable pub carry_full : Fe → Fe
unfolding carry wrap_top
carry_full t = wrap_top (carry t)

-- `t[0] += 19`
unfoldable pub add_19 : Fe → Fe
add_19 t = record t { v0 = u64 (t.v0 + 19) }

-- The addition of `2^255 - 19`, limb by limb.
unfoldable pub add_offset : Fe → Fe
add_offset t = record {
  v0 = u64 (t.v0 + (limb_mask + 1 - 19));
  v1 = u64 (t.v1 + limb_mask);
  v2 = u64 (t.v2 + limb_mask);
  v3 = u64 (t.v3 + limb_mask);
  v4 = u64 (t.v4 + limb_mask);
}

-- `t[4] &= M`
unfoldable pub drop_top : Fe → Fe
drop_top t = record t { v4 = bit_and t.v4 limb_mask }

-- The limbs of the least residue.
unfoldable pub canonical : Fe → Fe
unfolding carry_full add_19 add_offset drop_top
canonical f = drop_top (carry (add_offset (carry_full (add_19 (carry_full (carry_full f))))))

-- The loop of `write51`, `n` rounds left.
unfoldable pub word_bytes : ℕ → ℕ → List ℕ
word_bytes zero f = []
word_bytes (suc n) f = bit_and f 0xff ∷ word_bytes n (f >>> 8)

-- `write51`
unfoldable pub write51 : ℕ → ℕ → ℕ → List ℕ
unfolding word_bytes
write51 lo hi shift = word_bytes 8 (bit_or (lo >>> shift) (u64 (hi <<< (51 - shift))))

unfoldable pub fe_to_bytes : Fe → List ℕ
unfolding canonical write51
fe_to_bytes f =
    let t = canonical f in
    write51 t.v0 t.v1 0 ++ (write51 t.v1 t.v2 13 ++ (write51 t.v2 t.v3 26 ++ write51 t.v3 t.v4 39))

unfoldable pub fe_add : Fe → Fe → Fe
fe_add a b = record {
  v0 = u64 (a.v0 + b.v0);
  v1 = u64 (a.v1 + b.v1);
  v2 = u64 (a.v2 + b.v2);
  v3 = u64 (a.v3 + b.v3);
  v4 = u64 (a.v4 + b.v4);
}

-- `two54m152` and `two54m8`
abbrev pub two54m152 : ℕ
two54m152 = 2 ^ 54 - 152

abbrev pub two54m8 : ℕ
two54m8 = 2 ^ 54 - 8

-- `t0` to `t4` of `fe_sub`
unfoldable pub biased : Fe → Fe → Fe
biased a b = record {
  v0 = sub64 (u64 (a.v0 + two54m152)) b.v0;
  v1 = sub64 (u64 (a.v1 + two54m8)) b.v1;
  v2 = sub64 (u64 (a.v2 + two54m8)) b.v2;
  v3 = sub64 (u64 (a.v3 + two54m8)) b.v3;
  v4 = sub64 (u64 (a.v4 + two54m8)) b.v4;
}

-- `t1 += t0 >> 51; t0 &= M`
unfoldable pub carry_low : Fe → Fe
carry_low t = record t { v0 = bit_and t.v0 limb_mask; v1 = u64 (t.v1 + (t.v0 >>> 51)) }

unfoldable pub fe_sub : Fe → Fe → Fe
unfolding biased carry_full carry_low
fe_sub a b = carry_low (carry_full (biased a b))

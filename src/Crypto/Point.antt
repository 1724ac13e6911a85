-- ===== src/Crypto/Point.antt =====
-- src/crypto/ge25519.hpp and src/crypto/ge25519.cpp: points of the curve in extended coordinates.
pub mod Residues
pub mod Addition
pub mod Scalar
pub mod Tests
pub mod Doubling
use cpp_onion.Base.{
  ℕ, zero, suc, ◌+◌, ◌*◌, bit_and, bit_or, List, [], ◌∷◌, ◌==◌, if◌then◌else◌, get_or, set, u8,
  ◌<<<◌, ◌>>>◌,
}
use cpp_onion.Crypto.Field.{Fe, fe_add, fe_sub, fe_to_bytes}
use cpp_onion.Crypto.Field.Product.{fe_mul, fe_sq, fe_invert}

pub record GeP3 : Type 0 where
  pub x : Fe
  pub y : Fe
  pub z : Fe
  pub t : Fe

pub record GeCached : Type 0 where
  pub y_plus_x : Fe
  pub y_minus_x : Fe
  pub z : Fe
  pub t2d : Fe

-- The addend with `z` normalised to one.
pub record GeCachedAffine : Type 0 where
  pub y_plus_x : Fe
  pub y_minus_x : Fe
  pub t2d : Fe

abbrev pub fe : ℕ → ℕ → ℕ → ℕ → ℕ → Fe
fe a b c d e = record { v0 = a; v1 = b; v2 = c; v3 = d; v4 = e }

-- `kD2`
abbrev pub d2 : Fe
d2 = fe 0x69b9426b2f159 0x35050762add7a 0x3cf44c0038052 0x6738cc7407977 0x2406d9dc56dff

abbrev pub ge_basepoint : GeP3
ge_basepoint = record {
  x = fe 0x62d608f25d51a 0x412a4b4f6592a 0x75b7171a4b31d 0x1ff60527118fe 0x216936d3cd6e5;
  y = fe 0x6666666666658 0x4cccccccccccc 0x1999999999999 0x3333333333333 0x6666666666666;
  z = fe 1 0 0 0 0;
  t = fe 0x68ab3a5b7dda3 0x0eea2a5eadbb 0x2af8df483c27e 0x332b375274732 0x67875f0fd78b7;
}

unfoldable pub ge_to_cached : GeP3 → GeCached
ge_to_cached p = record {
  y_plus_x = fe_add p.y p.x;
  y_minus_x = fe_sub p.y p.x;
  z = p.z;
  t2d = fe_mul p.t d2;
}

unfoldable pub ge_to_cached_affine : GeP3 → GeCachedAffine
ge_to_cached_affine p =
    let zinv = fe_invert p.z in
    let x = fe_mul p.x zinv in
    let y = fe_mul p.y zinv in
    let t = fe_mul x y in
    record { y_plus_x = fe_add y x; y_minus_x = fe_sub y x; t2d = fe_mul t d2 }

-- The end of both additions, from `a`, `b`, `c` and `d`.
unfoldable pub finish : Fe → Fe → Fe → Fe → GeP3
finish a b c d =
    let e = fe_sub b a in
    let f = fe_sub d c in
    let g = fe_add d c in
    let h = fe_add b a in record { x = fe_mul e f; y = fe_mul g h; z = fe_mul f g; t = fe_mul e h }

unfoldable pub ge_add : GeP3 → GeCached → GeP3
unfolding finish
ge_add p q =
    let a = fe_mul (fe_sub p.y p.x) q.y_minus_x in
    let b = fe_mul (fe_add p.y p.x) q.y_plus_x in
    let c = fe_mul q.t2d p.t in let d = fe_mul p.z q.z in finish a b c (fe_add d d)

unfoldable pub ge_madd : GeP3 → GeCachedAffine → GeP3
unfolding finish
ge_madd p q =
    let a = fe_mul (fe_sub p.y p.x) q.y_minus_x in
    let b = fe_mul (fe_add p.y p.x) q.y_plus_x in
    let c = fe_mul q.t2d p.t in finish a b c (fe_add p.z p.z)

unfoldable pub ge_double : GeP3 → GeP3
ge_double p =
    let a = fe_sq p.x in
    let b = fe_sq p.y in
    let c = fe_add (fe_sq p.z) (fe_sq p.z) in
    let h = fe_add a b in
    let e = fe_sub h (fe_sq (fe_add p.x p.y)) in
    let g = fe_sub a b in
    let f = fe_add c g in record { x = fe_mul e f; y = fe_mul g h; z = fe_mul f g; t = fe_mul e h }

abbrev pub identity : GeP3
identity = record { x = fe 0 0 0 0 0; y = fe 1 0 0 0 0; z = fe 1 0 0 0 0; t = fe 0 0 0 0 0 }

-- The loop over the bits of one byte, from bit `n - 1` down.
unfoldable pub mul_bits : GeCached → ℕ → ℕ → GeP3 → GeP3
mul_bits base b zero r = r
mul_bits base b (suc bit) r =
    let doubled = ge_double r in
    mul_bits base b bit (if bit_and (b >>> bit) 1 == 0 then doubled else ge_add doubled base)

-- The loop over the bytes, from byte `n - 1` down.
unfoldable pub mul_bytes : GeCached → List ℕ → ℕ → GeP3 → GeP3
mul_bytes base scalar zero r = r
mul_bytes base scalar (suc byte) r =
    let b = get_or scalar byte 0 in
    mul_bytes base scalar byte (mul_bits base (if byte == 31 then bit_and b 0x7f else b) 8 r)

unfoldable pub ge_scalarmult_base : List ℕ → GeP3
unfolding mul_bytes mul_bits
ge_scalarmult_base scalar = mul_bytes (ge_to_cached ge_basepoint) scalar 32 identity

unfoldable pub ge_encode : GeP3 → List ℕ
ge_encode p =
    let zinv = fe_invert p.z in
    let out = fe_to_bytes (fe_mul p.y zinv) in
    let xb = fe_to_bytes (fe_mul p.x zinv) in
    set out 31 (u8 (bit_or (get_or out 31 0) (bit_and (get_or xb 0 0) 1 <<< 7)))

-- ===== src/Cuda/Field51.antt =====
-- src/engine/cuda/device_field.cuh: the port of the host's field to device code. It is the code of
-- src/crypto/fe25519.cpp with other names, whose steps serve here too.
pub mod Port
pub mod Walk
use cpp_onion.Base.{ℕ, ◌+◌, ◌-◌, List, [], ◌++◌, u64}
use cpp_onion.Crypto.Field.{
  Fe, load_bytes, fe_from_words, carry, wrap_top, add_19, add_offset, drop_top, write51, biased,
  carry_low,
}
use cpp_onion.Crypto.Field.Product.{mul_wide, sq_wide, carry_wide, fold_top}
use cpp_onion.Crypto.Point.{fe}
use cpp_onion.Cuda.Device.{DevicePoint, DeviceAddend, DeviceField, invert, madd}

unfoldable pub fed_load64 : List ℕ → ℕ → ℕ
unfolding load_bytes
fed_load64 s off = load_bytes s off 8 0

unfoldable pub fed_from_bytes : List ℕ → Fe
unfolding fed_load64 fe_from_words
fed_from_bytes s =
    fe_from_words (fed_load64 s 0) (fed_load64 s 8) (fed_load64 s 16) (fed_load64 s 24)

unfoldable pub fed_to_bytes : Fe → List ℕ
unfolding carry wrap_top add_19 add_offset drop_top write51
fed_to_bytes f =
    let carry_full = λ (t : Fe). wrap_top (carry t) in
    let t = drop_top (carry (add_offset (carry_full (add_19 (carry_full (carry_full f)))))) in
    write51 t.v0 t.v1 0 ++ (write51 t.v1 t.v2 13 ++ (write51 t.v2 t.v3 26 ++ write51 t.v3 t.v4 39))

unfoldable pub fed_add : Fe → Fe → Fe
fed_add a b =
    fe (u64 (a.v0 + b.v0)) (u64 (a.v1 + b.v1)) (u64 (a.v2 + b.v2)) (u64 (a.v3 + b.v3))
      (u64 (a.v4 + b.v4))

-- The bias, four carries, the fifth around the top and the last one.
unfoldable pub fed_sub : Fe → Fe → Fe
unfolding biased carry wrap_top carry_low
fed_sub a b = carry_low (wrap_top (carry (biased a b)))

unfoldable pub fed_mul : Fe → Fe → Fe
unfolding mul_wide carry_wide fold_top
fed_mul a b = fold_top (carry_wide (mul_wide a b))

unfoldable pub fed_sq : Fe → Fe
unfolding sq_wide carry_wide fold_top
fed_sq a = fold_top (carry_wide (sq_wide a))

-- The operations that the kernels use.
unfoldable pub field51 : DeviceField Fe
unfolding fed_from_bytes fed_to_bytes fed_add fed_sub fed_mul fed_sq
field51 = record {
  from_bytes = fed_from_bytes;
  to_bytes = fed_to_bytes;
  add = fed_add;
  sub = fed_sub;
  mul = fed_mul;
  sq = fed_sq;
}

unfoldable pub fed_invert : Fe → Fe
unfolding field51 invert
fed_invert = invert field51

unfoldable pub ged_madd : DevicePoint Fe → DeviceAddend Fe → DevicePoint Fe
unfolding field51 madd
ged_madd = madd field51

-- ===== src/Cuda/Field51/Port.antt =====
-- The port computes what the host computes, and so satisfies what the kernels rely on.
use cpp_onion.Base.{ℕ, ◌≡◌, refl, arith, List}
use cpp_onion.Crypto.Field.{Fe, fe_add, fe_sub, fe_to_bytes, fe_from_bytes}
use cpp_onion.Crypto.Field.Product.{fe_mul, fe_sq, fe_invert}
use cpp_onion.Crypto.Field.Value.{value, IsLoose}
use cpp_onion.Crypto.Field.Multiply.{fe_mul_lem, fe_sq_lem}
use cpp_onion.Crypto.Field.Invert.{tight→loose}
use cpp_onion.Crypto.Field.Bytes.{fe_to_bytes_eq_iff}
use cpp_onion.Crypto.Point.{GeP3, GeCachedAffine, ge_madd}
use cpp_onion.Cuda.Device.Power.{Laws}
use cpp_onion.Cuda.Field51.{
  fed_from_bytes, fed_to_bytes, fed_mul, fed_sq, fed_invert, ged_madd, field51,
}
use cpp_onion.Cuda.Bridge.{to_device_fe, to_device_p3, to_device_cached}

pub fed_mul-fe_mul : (a b : Fe) → fed_mul a b ≡ fe_mul a b
unfolding fed_mul fe_mul
fed_mul-fe_mul a b = refl

pub fed_sq-fe_sq : (a : Fe) → fed_sq a ≡ fe_sq a
unfolding fed_sq fe_sq
fed_sq-fe_sq a = refl

pub fed_to_bytes-fe_to_bytes : (a : Fe) → fed_to_bytes a ≡ fe_to_bytes a
unfolding fed_to_bytes fe_to_bytes
fed_to_bytes-fe_to_bytes a = refl

pub fed_from_bytes-fe_from_bytes : (s : List ℕ) → fed_from_bytes s ≡ fe_from_bytes s
unfolding fed_from_bytes fe_from_bytes
fed_from_bytes-fe_from_bytes s = refl

pub fed_invert-fe_invert : (a : Fe) → fed_invert a ≡ fe_invert a
unfolding fed_invert fe_invert
fed_invert-fe_invert a = refl

-- The mixed addition of the port is that of the host.
pub ged_madd-ge_madd :
    (p : GeP3) (q : GeCachedAffine)
    → ged_madd (to_device_p3 to_device_fe p) (to_device_cached to_device_fe q)
      ≡ to_device_p3 to_device_fe (ge_madd p q)
unfolding ged_madd ge_madd to_device_p3 to_device_cached to_device_fe fe_add fe_sub fe_mul
ged_madd-ge_madd p q = refl

-- The port satisfies what the kernels rely on, for limbs below 2^54.
unfoldable pub field51_laws : Laws field51
unfolding field51 fe_mul fe_sq fe_to_bytes
field51_laws = record {
  value_of = value;
  IsOk = IsLoose;
  mul_law =
      λ a b ha hb. let (e, tight) = fe_mul_lem a b ha hb in (e, tight→loose (fe_mul a b) tight);
  sq_law = λ a ha. let (e, tight) = fe_sq_lem a ha in (e, tight→loose (fe_sq a) tight);
  one_law = (refl, omega arith);
  bytes_law = λ a b ha hb e. (fe_to_bytes_eq_iff a b (omega arith) (omega arith)).1 e;
}

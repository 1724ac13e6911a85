-- ===== src/Avx2/Point/Laws.antt =====
-- The lanes are a field of the kind that the shared chain and addition take.
use cpp_onion.Base.{◌-◌, ◌^◌, refl, arith}
use cpp_onion.Crypto.Field.Value.{prime, ◌≅◌}
use cpp_onion.Cuda.Device.Power.{Laws, invert-power}
use cpp_onion.Avx2.Lane.{Lane}
use cpp_onion.Avx2.Lane.Reduce.{lane_value, IsReduced}
use cpp_onion.Avx2.Lane.Multiply.{lane_mul_lem, lane_sq_lem}
use cpp_onion.Avx2.Store.{expand}
use cpp_onion.Avx2.Store.Bytes.{contract_eq}
use cpp_onion.Avx2.Point.{lane_field, lane_invert}

unfoldable pub lane_laws : Laws lane_field
unfolding lane_field expand cpp_onion.Avx2.Store.rd32 cpp_onion.Avx2.Store.rd32_rounds
lane_laws = record {
  value_of = lane_value;
  IsOk = IsReduced;
  mul_law = lane_mul_lem;
  sq_law = lane_sq_lem;
  one_law = (refl, omega arith);
  bytes_law = contract_eq;
}

-- The inverse of a reduced lane is its power to the prime less two, modulo the prime, and reduced.
lane_invert_lem :
    (z : Lane)
    → IsReduced z
    → (lane_value (lane_invert z) ≅ lane_value z ^ (prime - 2)) × IsReduced (lane_invert z)
unfolding lane_invert lane_laws
lane_invert_lem z h = invert-power lane_field lane_laws z h

-- ===== src/Avx2/Tests.antt =====
-- Runs of the lane operations.
use cpp_onion.Base.{◌*◌, ◌%◌, ◌≡◌, refl, arith, IsBytes, length, ◌∷◌, replicate}
use cpp_onion.Crypto.Field.Value.{prime, ◌≅◌}
use cpp_onion.Avx2.Lane.{Lane, lane_mul, lane_sq, lane_add, lane_sub, v_mul}
use cpp_onion.Avx2.Lane.Reduce.{lane_value, IsReduced}
use cpp_onion.Avx2.Lane.Multiply.{lane_mul_lem}
use cpp_onion.Crypto.Field.Numbers.{le_value}
use cpp_onion.Avx2.Store.{contract, expand, rd32, rd32_rounds}
use cpp_onion.Avx2.Store.Bytes.{contract-value}

-- The prime less two, and five.
abbrev minus_two : Lane
minus_two = record {
  v0 = 0x3ffffeb;
  v1 = 0x1ffffff;
  v2 = 0x3ffffff;
  v3 = 0x1ffffff;
  v4 = 0x3ffffff;
  v5 = 0x1ffffff;
  v6 = 0x3ffffff;
  v7 = 0x1ffffff;
  v8 = 0x3ffffff;
  v9 = 0x1ffffff;
}

abbrev five : Lane
five = record { v0 = 5; v1 = 0; v2 = 0; v3 = 0; v4 = 0; v5 = 0; v6 = 0; v7 = 0; v8 = 0; v9 = 0 }

four_test : lane_value (lane_sq minus_two) ≅ 4
unfolding lane_sq v_mul
four_test = refl

three_test : lane_value (lane_add minus_two five) ≅ 3
unfolding lane_add
three_test = refl

seven_test : lane_value (lane_sub five minus_two) ≅ 7
unfolding lane_sub
seven_test = refl

lane_mul_lem_example :
    (lane_value (lane_mul minus_two five) ≅ lane_value minus_two * lane_value five)
    × IsReduced (lane_mul minus_two five)
lane_mul_lem_example = lane_mul_lem minus_two five (omega arith) (omega arith)

contract-value_example :
    (le_value (contract minus_two) ≡ lane_value minus_two % prime)
    × IsBytes (contract minus_two)
    × (length (contract minus_two) ≡ 32)
contract-value_example = contract-value minus_two (omega arith)

expand_test : lane_value (expand (2 ∷ replicate 30 0)) ≡ 2
unfolding expand rd32 rd32_rounds
expand_test = refl

-- ===== src/Crypto/Field/Tests.antt =====
-- Field arithmetic at concrete elements.
use cpp_onion.Base.{ℕ, ◌+◌, ◌-◌, ◌*◌, ◌%◌, ◌^◌, ◌≡◌, ◌↔◌, refl, arith, List, ◌∷◌, replicate}
use cpp_onion.Crypto.Field.{Fe, fe_add, fe_from_bytes, fe_to_bytes}
use cpp_onion.Crypto.Field.Product.{fe_mul, fe_invert}
use cpp_onion.Crypto.Field.Value.{prime, value, Below, IsLoose, IsTight, ◌≅◌}
use cpp_onion.Crypto.Field.Carry.{fe_add_lem}
use cpp_onion.Crypto.Field.Multiply.{fe_mul_lem}
use cpp_onion.Crypto.Field.Invert.{fe_invert_lem}
use cpp_onion.Crypto.Field.Numbers.{le_value}
use cpp_onion.Crypto.Field.Bytes.{fe_from_bytes_lem, fe_to_bytes_eq_iff, fe_to_bytes-fe_from_bytes}

-- All limbs at the bound that a product may be given, and a small element.
abbrev top : Fe
top = record { v0 = 2 ^ 54 - 1; v1 = 2 ^ 54 - 1; v2 = 2 ^ 54 - 1; v3 = 2 ^ 54 - 1; v4 = 2 ^ 54 - 1 }

abbrev nine : Fe
nine = record { v0 = 9; v1 = 0; v2 = 0; v3 = 0; v4 = 0 }

abbrev nine_bytes : List ℕ
nine_bytes = 9 ∷ replicate 31 0

fe_add_lem_example :
    (value (fe_add top nine) ≡ value top + value nine) × Below (2 * 2 ^ 54) (fe_add top nine)
fe_add_lem_example = fe_add_lem (2 ^ 54) top nine (omega arith) (omega arith) (omega arith)

fe_mul_lem_example : (value (fe_mul top nine) ≅ value top * value nine) × IsTight (fe_mul top nine)
fe_mul_lem_example = fe_mul_lem top nine (omega arith) (omega arith)

fe_invert_lem_example :
    (value (fe_invert nine) ≅ value nine ^ (prime - 2)) × IsLoose (fe_invert nine)
fe_invert_lem_example = fe_invert_lem nine (omega arith)

fe_to_bytes_eq_iff_example : (fe_to_bytes top ≡ fe_to_bytes nine) ↔ (value top ≅ value nine)
fe_to_bytes_eq_iff_example = fe_to_bytes_eq_iff top nine (omega arith) (omega arith)

fe_to_bytes-fe_from_bytes_example : fe_to_bytes (fe_from_bytes nine_bytes) ≡ nine_bytes
fe_to_bytes-fe_from_bytes_example =
    fe_to_bytes-fe_from_bytes nine_bytes (omega arith) refl (omega arith)

fe_from_bytes_lem_example :
    (value (fe_from_bytes nine_bytes) ≡ le_value nine_bytes % 2 ^ 255)
    × Below (2 ^ 51) (fe_from_bytes nine_bytes)
fe_from_bytes_lem_example = fe_from_bytes_lem nine_bytes (omega arith) refl

-- 9 times its inverse is 1.
inverse_of_nine : fe_to_bytes (fe_mul nine (fe_invert nine)) ≡ 1 ∷ replicate 31 0
unfolding fe_to_bytes fe_mul fe_invert
inverse_of_nine = refl

-- ===== src/Cuda/Xval/Tests.antt =====
-- A chain of one point.
use cpp_onion.Base.{◌-◌, ◌*◌, ◌^◌, ◌%◌, ◌≡◌, refl, sym, ap, ◌∙◌, arith, [], ◌∷◌, All}
use cpp_onion.Crypto.Field.{Fe, fe_add, fe_sub}
use cpp_onion.Crypto.Field.Product.{fe_mul, fe_sq, fe_invert}
use cpp_onion.Crypto.Field.Value.{prime, value, ◌≅◌}
use cpp_onion.Crypto.Point.{fe, ge_scalarmult_base, ge_double, ge_add, ge_to_cached}
use cpp_onion.Crypto.Point.Tests.{fermat_of, eight-IsTightPoint}
use cpp_onion.Crypto.Incremental.{eight, batch_points, stepper}
use cpp_onion.Crypto.Incremental.Batch.{IsFinite}
use cpp_onion.Cuda.Field51.{field51}
use cpp_onion.Cuda.Bridge.{to_device_fe}
use cpp_onion.Cuda.Xval.{run_incremental_xval}
use cpp_onion.Cuda.Xval.Chain.{batches, run_incremental_xval-next_batch}

-- The Z of eight times the base point.
abbrev eight_z : Fe
eight_z = fe 1458319052074751 674323526518294 639881114820715 1794250431912366 2092607798093547

eight_z_is : eight_z ≡ (ge_scalarmult_base eight).z
unfolding ge_scalarmult_base ge_double ge_add ge_to_cached fe_mul fe_sq fe_sub fe_add
eight_z_is = refl

eight_inverse : value (fe_invert eight_z) * value eight_z ≅ 1
unfolding fe_invert
eight_inverse = refl

eight_fermat : value (ge_scalarmult_base eight).z ^ (prime - 1) ≅ 1
eight_fermat =
    ap (λ (z : Fe). value z ^ (prime - 1) % prime) (sym eight_z_is)
    ∙ fermat_of eight_z (omega arith) eight_inverse

eight-IsFinite : All IsFinite (batch_points 1 (stepper eight).cur (stepper eight).step8b)
unfolding batch_points stepper
eight-IsFinite = (
  record { y_ok = eight-IsTightPoint.y_ok; z_ok = eight-IsTightPoint.z_ok; fermat = eight_fermat },
  tt,
)

run_incremental_xval-next_batch_example :
    run_incremental_xval field51 to_device_fe (eight ∷ []) 1 ≡ batches 1 (eight ∷ [])
run_incremental_xval-next_batch_example =
    run_incremental_xval-next_batch 1 (eight ∷ []) (omega arith) (eight-IsFinite, tt)

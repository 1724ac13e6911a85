-- ===== src/Cuda/Xval/Chain.antt =====
-- The chain of the device and the batches of the host.
use cpp_onion.Base.{ℕ, zero, suc, ◌<◌, ◌≡◌, refl, sym, ap, ap₂, ◌∙◌, List, [], ◌∷◌, map, All}
use cpp_onion.Crypto.Field.Product.{fe_mul}
use cpp_onion.Crypto.Field.{fe_to_bytes}
use cpp_onion.Crypto.Point.{GeP3, GeCachedAffine, ge_madd}
use cpp_onion.Crypto.Incremental.{batch_points, next_batch, stepper}
use cpp_onion.Crypto.Incremental.Batch.{affine_y, IsFinite, next_batch_lem}
use cpp_onion.Cuda.Device.{invert}
use cpp_onion.Cuda.Field51.{field51, fed_mul, fed_invert, ged_madd}
use cpp_onion.Cuda.Field51.Port.{
  ged_madd-ge_madd, fed_to_bytes-fe_to_bytes, fed_mul-fe_mul, fed_invert-fe_invert,
}
use cpp_onion.Cuda.Bridge.{to_device_fe, to_device_p3, to_device_cached}
use cpp_onion.Cuda.Xval.{incremental_chain, run_incremental_xval}

-- A row.
row_lem :
    (p : GeP3)
    → let d = to_device_p3 to_device_fe p in
      field51.to_bytes (field51.mul d.y (invert field51 d.z)) ≡ affine_y p
unfolding field51 fed_invert to_device_p3 to_device_fe
row_lem p =
    fed_to_bytes-fe_to_bytes (fed_mul p.y (fed_invert p.z))
    ∙ ap fe_to_bytes
        (fed_mul-fe_mul p.y (fed_invert p.z) ∙ ap (fe_mul p.y) (fed_invert-fe_invert p.z))

-- Each row of the device is the encoding of the affine y of the host's point.
incremental_chain-affine_y :
    (n : ℕ) (cur : GeP3) (q : GeCachedAffine)
    → incremental_chain field51 (to_device_cached to_device_fe q) n (to_device_p3 to_device_fe cur)
      ≡ map affine_y (batch_points n cur q)
unfolding incremental_chain batch_points ged_madd
incremental_chain-affine_y zero cur q = refl
incremental_chain-affine_y (suc n) cur q = ap₂ ◌∷◌ (row_lem cur) (
    ap (incremental_chain field51 (to_device_cached to_device_fe q) n) (ged_madd-ge_madd cur q)
    ∙ incremental_chain-affine_y n (ge_madd cur q) q)

-- A batch of the stepper for every base scalar.
abbrev pub batches : ℕ → List (List ℕ) → List (List (List ℕ))
batches n a0 = map (λ (scalar : List ℕ). (next_batch n (stepper scalar)).1) a0

-- With the 51-bit field, for a positive number of steps, if all points of the chains have an invertible
-- Z, then the device writes for every base scalar what the stepper of the host gives in one batch.
pub run_incremental_xval-next_batch :
    (n : ℕ) (a0 : List (List ℕ))
    → 0 < n
    → All
        (λ (scalar : List ℕ).
          All IsFinite (batch_points n (stepper scalar).cur (stepper scalar).step8b))
        a0
    → run_incremental_xval field51 to_device_fe a0 n ≡ batches n a0
unfolding run_incremental_xval stepper
run_incremental_xval-next_batch n [] pos h = refl
run_incremental_xval-next_batch n (scalar ∷ a0) pos h =
    let s = stepper scalar in
    ap₂ ◌∷◌ (incremental_chain-affine_y n s.cur s.step8b ∙ sym (next_batch_lem n s pos h.0).0)
      (run_incremental_xval-next_batch n a0 pos h.1)

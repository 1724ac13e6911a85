-- ===== src/Cuda/Xval.antt =====
-- src/engine/cuda/xval_kernel.cu: the chain that the device is checked with against libsodium, on
-- CUDA calls that succeed.
pub mod Chain
mod Tests
use cpp_onion.Base.{ℕ, zero, suc, List, [], ◌∷◌, map}
use cpp_onion.Crypto.Field.{Fe}
use cpp_onion.Crypto.Point.{ge_scalarmult_base, ge_to_cached_affine}
use cpp_onion.Crypto.Incremental.{eight}
use cpp_onion.Cuda.Device.{DevicePoint, DeviceAddend, DeviceField, invert, madd}
use cpp_onion.Cuda.Bridge.{to_device_p3, to_device_cached}

module _ {F : Type 0} (field : DeviceField F) where
  -- The loop of `incremental_chain`: what it writes to `base` and on.
  unfoldable pub incremental_chain : DeviceAddend F → ℕ → DevicePoint F → List (List ℕ)
  incremental_chain s zero cur = []
  incremental_chain s (suc i) cur =
      let zinv = invert field cur.z in
      let y = field.mul cur.y zinv in field.to_bytes y ∷ incremental_chain s i (madd field cur s)

  -- The rows of `out_y`, one for each chain.
  unfoldable pub run_incremental_xval : (Fe → F) → List (List ℕ) → ℕ → List (List (List ℕ))
  unfolding incremental_chain
  run_incremental_xval to_fe a0 steps =
      let step = ge_to_cached_affine (ge_scalarmult_base eight) in
      map
        (λ (scalar : List ℕ).
          incremental_chain (to_device_cached to_fe step) steps
            (to_device_p3 to_fe (ge_scalarmult_base scalar)))
        a0

-- ===== src/Cuda/Bridge.antt =====
-- src/engine/cuda/device_field_select.cuh: host elements and points as those of the device.
pub mod Value
use cpp_onion.Base.{ℕ, List, [], ◌∷◌, bit_and}
use cpp_onion.Crypto.Field.{Fe, fe_to_bytes}
use cpp_onion.Crypto.Point.{GeP3, GeCachedAffine, fe}
use cpp_onion.Cuda.Device.{DevicePoint, DeviceAddend}
use cpp_onion.Cuda.Field32.{load32}
use cpp_onion.Cuda.Field32

-- `to_device_fe` for limbs of 51 bits.
unfoldable pub to_device_fe : Fe → Fe
to_device_fe f = fe f.v0 f.v1 f.v2 f.v3 f.v4

-- `to_device_fe` for words of 32 bits.
unfoldable pub to_device_fe32 : Fe → Field32.Fe
to_device_fe32 f =
    let b = fe_to_bytes f in
    load32 b 0
    ∷ load32 b 4
    ∷ load32 b 8
    ∷ load32 b 12
    ∷ load32 b 16
    ∷ load32 b 20
    ∷ load32 b 24
    ∷ bit_and (load32 b 28) 0x7fffffff
    ∷ []

module _ {F : Type 0} (to_fe : Fe → F) where
  unfoldable pub to_device_p3 : GeP3 → DevicePoint F
  to_device_p3 p = record { x = to_fe p.x; y = to_fe p.y; z = to_fe p.z; t = to_fe p.t }

  unfoldable pub to_device_cached : GeCachedAffine → DeviceAddend F
  to_device_cached q = record {
    y_plus_x = to_fe q.y_plus_x;
    y_minus_x = to_fe q.y_minus_x;
    t2d = to_fe q.t2d;
  }

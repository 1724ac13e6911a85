-- ===== src/Cuda/Engine/Tests.antt =====
-- The points of an epoch at a concrete input.
use cpp_onion.Base.{ℕ, ◌+◌, ◌≡◌, refl, ap, ◌∙◌, arith}
use cpp_onion.Crypto.Field.{Fe}
use cpp_onion.Crypto.Field.Numbers.{le_value}
use cpp_onion.Crypto.Point.{
  GeP3, GeCachedAffine, identity, ge_basepoint, ge_to_cached, ge_double, ge_add, ge_madd,
  ge_scalarmult_base, ge_to_cached_affine,
}
use cpp_onion.Crypto.Point.Tests.{eight-IsBytes}
use cpp_onion.Crypto.Incremental.{eight, scalar_add_8i}
use cpp_onion.Cuda.Device.{DevicePoint, madd}
use cpp_onion.Cuda.Field51.{field51, ged_madd}
use cpp_onion.Cuda.Field51.Port.{ged_madd-ge_madd}
use cpp_onion.Cuda.Bridge.{to_device_fe, to_device_p3, to_device_cached}
use cpp_onion.Cuda.Kernel.{HitSlot}
use cpp_onion.Cuda.Kernel.Walk.{point_at}
use cpp_onion.Cuda.Engine.{hit_index, setup_points}
use cpp_onion.Cuda.Engine.Start.{setup_points-scalar_add_8i}

abbrev any_start : DevicePoint Fe
any_start = to_device_p3 to_device_fe ge_basepoint

-- What the operations of points make of the identity, with the multiple that it should be.
data IsMultiple : GeP3 → ℕ → Type 0 where
  none_of : IsMultiple identity 0
  twice_of : (p : GeP3) (n : ℕ) → IsMultiple p n → IsMultiple (ge_double p) (n + n)
  next_of :
      (p : GeP3) (n : ℕ)
      → IsMultiple p n
      → IsMultiple (ge_add p (ge_to_cached ge_basepoint)) (n + 1)
  sum_of :
      (p b : GeP3) (n m : ℕ)
      → IsMultiple p n
      → IsMultiple b m
      → IsMultiple (ge_madd p (ge_to_cached_affine b)) (n + m)

-- A device point of the 51-bit field that is such a point.
abbrev IsHeld : DevicePoint Fe → ℕ → Type 0
IsHeld d n = (p : GeP3) × (d ≡ to_device_p3 to_device_fe p) × IsMultiple p n

madd-ge_madd :
    (p : GeP3) (q : GeCachedAffine)
    → madd field51 (to_device_p3 to_device_fe p) (to_device_cached to_device_fe q)
      ≡ to_device_p3 to_device_fe (ge_madd p q)
unfolding ged_madd
madd-ge_madd p q = ged_madd-ge_madd p q

IsHeld-madd :
    (d : DevicePoint Fe) (b : GeP3) (n m : ℕ)
    → IsHeld d n
    → IsMultiple b m
    → IsHeld (madd field51 d (to_device_cached to_device_fe (ge_to_cached_affine b))) (n + m)
IsHeld-madd d b n m (p, e, h) hb =
    let q = ge_to_cached_affine b in
    (
      ge_madd p q,
      ap (λ (x : DevicePoint Fe). madd field51 x (to_device_cached to_device_fe q)) e
          ∙ madd-ge_madd p q,
      sum_of p b n m h hb,
    )

abbrev hit : HitSlot
hit = record { t = 1; j = 2; pattern_index = 0 }

setup_points-scalar_add_8i_example :
    let b = ge_scalarmult_base eight in
    let made =
      setup_points to_device_fe 3 0 3
        (ge_to_cached_affine b)
        (ge_scalarmult_base eight)
        b
        (λ i. any_start) in
    let bigstep = to_device_cached to_device_fe (ge_to_cached_affine made.1) in
    IsHeld
      (point_at field51 bigstep 2 (made.0 1))
      (le_value (scalar_add_8i eight (hit_index 3 hit)))
setup_points-scalar_add_8i_example =
    setup_points-scalar_add_8i IsMultiple none_of twice_of next_of sum_of field51 to_device_fe
      IsHeld (λ p n h. (p, refl, h)) IsHeld-madd eight 3 (λ i. any_start) hit eight-IsBytes refl
      (omega arith) (omega arith) (omega arith)

-- ===== src/Cuda/Field51/Walk.antt =====
-- The walk of a kernel over bridged points is the walk of the host.
use cpp_onion.Base.{ℕ, zero, suc, sym, subst, All}
use cpp_onion.Crypto.Field.Invert.{tight→loose}
use cpp_onion.Crypto.Point.{GeP3, GeCachedAffine, ge_madd}
use cpp_onion.Crypto.Incremental.{batch_points}
use cpp_onion.Crypto.Incremental.Batch.{IsFinite}
use cpp_onion.Cuda.Kernel.Walk.{AllFinite}
use cpp_onion.Cuda.Bridge.{to_device_fe, to_device_p3, to_device_cached}
use cpp_onion.Cuda.Field51.{field51, ged_madd}
use cpp_onion.Cuda.Field51.Port.{ged_madd-ge_madd, field51_laws}

-- Points that the host's batch can invert, the kernel can invert too.
pub batch_points-AllFinite :
    (n : ℕ) (cur : GeP3) (q : GeCachedAffine)
    → All IsFinite (batch_points n cur q)
    → AllFinite field51
        (to_device_cached to_device_fe q)
        field51_laws
        n
        (to_device_p3 to_device_fe cur)
unfolding batch_points ged_madd to_device_p3 to_device_fe field51_laws
batch_points-AllFinite zero cur q h = tt
batch_points-AllFinite (suc n) cur q h = (
  record {
    y_ok = tight→loose cur.y h.0.y_ok;
    z_ok = tight→loose cur.z h.0.z_ok;
    fermat = h.0.fermat;
  },
  subst (AllFinite field51 (to_device_cached to_device_fe q) field51_laws n)
      (sym (ged_madd-ge_madd cur q)) (batch_points-AllFinite n (ge_madd cur q) q h.1),
)

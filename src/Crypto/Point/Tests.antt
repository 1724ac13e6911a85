-- ===== src/Crypto/Point/Tests.antt =====
-- Point arithmetic and batches at concrete points.
use cpp_onion.Base.{
  ℕ, ◌+◌, ◌-◌, ◌*◌, ◌%◌, ◌^◌, ◌≡◌, refl, sym, ap, ◌∙◌, arith, map, length, IsBytes, All,
}
use native.Mathlib.Nat.{pow-suc}
use cpp_onion.Crypto.Field.{Fe, fe_add, fe_sub}
use cpp_onion.Crypto.Field.Product.{fe_invert, fe_mul}
use cpp_onion.Crypto.Field.Value.{prime, value, IsTight, ◌≅◌, cong_mul}
use cpp_onion.Crypto.Field.Numbers.{le_value}
use cpp_onion.Crypto.Field.Invert.{fe_invert_lem, tight→loose}
use cpp_onion.Crypto.Point.{
  GeCachedAffine, ge_basepoint, ge_to_cached, ge_to_cached_affine, ge_madd, ge_double,
  ge_scalarmult_base,
}
use cpp_onion.Crypto.Point.Residues.{residue, view, IsTightPoint}
use cpp_onion.Crypto.Point.Addition.{
  IsAddend, madd_mod, ge_madd_lem, ge_add-IsTightPoint, ge_to_cached-IsAddend,
  ge_to_cached_affine-IsAddend,
}
use cpp_onion.Crypto.Point.Doubling.{double_mod, IsConsistent, ge_double_lem, results-IsConsistent}
use cpp_onion.Crypto.Point.Scalar.{ge_scalarmult_base-Represents}
use cpp_onion.Crypto.Incremental.{Stepper, eight, batch_points, advance, next_batch, scalar_add_8i}
use cpp_onion.Crypto.Incremental.Batch.{IsFinite, affine_y, next_batch_lem}
use cpp_onion.Crypto.Incremental.Scalar.{scalar_add_8i_lem}

pub base_tight : IsTightPoint ge_basepoint
base_tight = record {
  x_ok = omega arith;
  y_ok = omega arith;
  z_ok = omega arith;
  t_ok = omega arith;
}

abbrev pub addend : GeCachedAffine
addend = ge_to_cached_affine ge_basepoint

pub addend_ok : IsAddend addend
addend_ok = ge_to_cached_affine-IsAddend ge_basepoint base_tight

ge_madd_lem_example :
    (view (ge_madd ge_basepoint addend)
      ≡ madd_mod
          (view ge_basepoint)
          (residue addend.y_plus_x)
          (residue addend.y_minus_x)
          (residue addend.t2d))
    × IsTightPoint (ge_madd ge_basepoint addend)
ge_madd_lem_example = ge_madd_lem ge_basepoint addend base_tight addend_ok

ge_double_lem_example :
    (view (ge_double ge_basepoint) ≡ double_mod (view ge_basepoint))
    × IsTightPoint (ge_double ge_basepoint)
ge_double_lem_example = ge_double_lem ge_basepoint base_tight

results-IsConsistent_example :
    IsConsistent (view (ge_double ge_basepoint)) × IsConsistent (view (ge_madd ge_basepoint addend))
results-IsConsistent_example = results-IsConsistent ge_basepoint addend base_tight addend_ok

pub eight-IsBytes : IsBytes eight
eight-IsBytes = omega arith

-- A run of the double-and-add keeps reduced limbs.
cached_z : IsTight (ge_to_cached ge_basepoint).z
unfolding ge_to_cached
cached_z = base_tight.z_ok

ge_scalarmult_base-Represents_example : IsTightPoint (ge_scalarmult_base eight)
ge_scalarmult_base-Represents_example =
    ge_scalarmult_base-Represents (λ p n. IsTightPoint p) (λ p n h. (ge_double_lem p h).1)
      (λ p n h.
        ge_add-IsTightPoint p (ge_to_cached ge_basepoint) h
          (ge_to_cached-IsAddend ge_basepoint base_tight) cached_z)
      (record { x_ok = omega arith; y_ok = omega arith; z_ok = omega arith; t_ok = omega arith })
      eight eight-IsBytes refl

-- The limbs of eight times the base point.
pub eight-IsTightPoint : IsTightPoint (ge_scalarmult_base eight)
eight-IsTightPoint =
    ge_scalarmult_base-Represents (λ p n. IsTightPoint p) (λ p n h. (ge_double_lem p h).1)
      (λ p n h.
        ge_add-IsTightPoint p (ge_to_cached ge_basepoint) h
          (ge_to_cached-IsAddend ge_basepoint base_tight) cached_z)
      (record { x_ok = omega arith; y_ok = omega arith; z_ok = omega arith; t_ok = omega arith })
      eight eight-IsBytes refl

scalar_add_8i_lem_example :
    (le_value (scalar_add_8i eight 40) ≡ (le_value eight + 40 * 8 % 2 ^ 64) % 2 ^ 256)
    × IsBytes (scalar_add_8i eight 40)
    × (length (scalar_add_8i eight 40) ≡ 32)
scalar_add_8i_lem_example = scalar_add_8i_lem eight 40 eight-IsBytes refl

-- Fermat's theorem at an element that the computed inverse inverts.
pub fermat_of : (z : Fe) → IsTight z → value (fe_invert z) * value z ≅ 1 → value z ^ (prime - 1) ≅ 1
fermat_of z h e =
    let (power, loose) = fe_invert_lem z (tight→loose z h) in
    ap (λ (t : ℕ). t % prime) (pow-suc (value z) (prime - 2))
    ∙ cong_mul (value z ^ (prime - 2)) (value (fe_invert z)) (value z) (value z) (sym power) refl
    ∙ e

abbrev base_stepper : Stepper
base_stepper = record { cur = ge_basepoint; step8b = addend; consumed = 0 }

next_tight : IsTightPoint (ge_madd ge_basepoint addend)
next_tight = (ge_madd_lem ge_basepoint addend base_tight addend_ok).1

-- The Z of the second point.
abbrev second_z : Fe
second_z = record {
  v0 = 1507481815385608;
  v1 = 2223447444246085;
  v2 = 1083941587175919;
  v3 = 2059929906842505;
  v4 = 1581435440146976;
}

second_z_is : second_z ≡ (ge_madd ge_basepoint addend).z
unfolding ge_madd ge_to_cached_affine fe_mul fe_sub fe_add fe_invert
second_z_is = refl

second_inverse : value (fe_invert second_z) * value second_z ≅ 1
unfolding fe_invert
second_inverse = refl

second_fermat : value (ge_madd ge_basepoint addend).z ^ (prime - 1) ≅ 1
second_fermat =
    ap (λ (z : Fe). value z ^ (prime - 1) % prime) (sym second_z_is)
    ∙ fermat_of second_z (omega arith) second_inverse

one_inverse : value (fe_invert ge_basepoint.z) * value ge_basepoint.z ≅ 1
unfolding fe_invert
one_inverse = refl

pub two-IsFinite : All IsFinite (batch_points 2 ge_basepoint addend)
unfolding batch_points
two-IsFinite = (
  record {
    y_ok = base_tight.y_ok;
    z_ok = base_tight.z_ok;
    fermat = fermat_of ge_basepoint.z base_tight.z_ok one_inverse;
  },
  (record { y_ok = next_tight.y_ok; z_ok = next_tight.z_ok; fermat = second_fermat }, tt),
)

next_batch_lem_example :
    ((next_batch 2 base_stepper).1 ≡ map affine_y (batch_points 2 ge_basepoint addend))
    × ((next_batch 2 base_stepper).0.cur ≡ advance 2 ge_basepoint addend)
    × ((next_batch 2 base_stepper).0.step8b ≡ addend)
    × ((next_batch 2 base_stepper).0.consumed ≡ (0 + 2) % 2 ^ 64)
next_batch_lem_example = next_batch_lem 2 base_stepper (omega arith) two-IsFinite

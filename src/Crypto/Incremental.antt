-- ===== src/Crypto/Incremental.antt =====
-- src/crypto/incremental.hpp and src/crypto/incremental.cpp: the points a0 B, a0 B + 8 B, and so on,
-- a batch at a time, with one field inversion for each batch.
pub mod Scalar
pub mod Products
pub mod Batch
use cpp_onion.Base.{
  ℕ, zero, suc, ◌+◌, ◌-◌, ◌*◌, bit_and, List, [], ◌∷◌, map, ◌==◌, if◌then◌else◌, get_or, replicate,
  u64, u8, ◌>>>◌,
}
use cpp_onion.Crypto.Field.{Fe, fe_to_bytes}
use cpp_onion.Crypto.Field.Product.{fe_mul, fe_invert}
use cpp_onion.Crypto.Point.{
  GeP3, GeCachedAffine, fe, ge_madd, ge_scalarmult_base, ge_to_cached_affine,
}

-- The loop of `scalar_add_8i` from one byte on: it stops when no carry is left.
unfoldable pub add_carry : List ℕ → ℕ → List ℕ
add_carry [] carry = []
add_carry (b ∷ bs) carry =
    let v = u64 (b + bit_and carry 0xff) in
    let rest = add_carry bs (u64 ((carry >>> 8) + (v >>> 8))) in
    if carry == 0 then b ∷ bs else bit_and v 0xff ∷ rest

unfoldable pub scalar_add_8i : List ℕ → ℕ → List ℕ
unfolding add_carry
scalar_add_8i a0 i = add_carry a0 (u64 (i * 8))

-- `IncrementalStepper`; the vectors that a batch reuses are local to `next_batch_impl` here.
pub record Stepper : Type 0 where
  pub cur : GeP3
  pub step8b : GeCachedAffine
  pub consumed : ℕ

abbrev pub eight : List ℕ
eight = 8 ∷ replicate 31 0

unfoldable pub stepper : List ℕ → Stepper
stepper a0 = record {
  cur = ge_scalarmult_base a0;
  step8b = ge_to_cached_affine (ge_scalarmult_base eight);
  consumed = 0;
}

-- The point after `n` steps.
unfoldable pub advance : ℕ → GeP3 → GeCachedAffine → GeP3
advance zero cur q = cur
advance (suc n) cur q = advance n (ge_madd cur q) q

-- The first loop: the points of a batch, of which `ys_` and `z_` keep two coordinates.
unfoldable pub batch_points : ℕ → GeP3 → GeCachedAffine → List GeP3
batch_points zero cur q = []
batch_points (suc n) cur q = cur ∷ batch_points n (ge_madd cur q) q

-- The second loop: each element is the one before times the next of `z_`.
unfoldable pub products : Fe → List Fe → List Fe
products last [] = []
products last (z ∷ zs) = let next = fe_mul last z in next ∷ products next zs

unfoldable pub prefix_products : List Fe → List Fe
unfolding products
prefix_products [] = []
prefix_products (z ∷ zs) = z ∷ products z zs

abbrev pub no_fe : Fe
no_fe = fe 0 0 0 0 0

-- The third loop, downwards with `i` rounds left; `out` holds what later rounds have written.
unfoldable pub back_substitute :
    List Fe → List Fe → List Fe → ℕ → Fe → List (List ℕ) → List (List ℕ)
back_substitute ys zs prefix zero inv out = out
back_substitute ys zs prefix (suc zero) inv out = fe_to_bytes (fe_mul (get_or ys 0 no_fe) inv) ∷ out
back_substitute ys zs prefix (suc (suc i)) inv out =
    let zinv = fe_mul inv (get_or prefix i no_fe) in
    back_substitute ys zs prefix (suc i) (fe_mul inv (get_or zs (suc i) no_fe))
      (fe_to_bytes (fe_mul (get_or ys (suc i) no_fe) zinv) ∷ out)

-- `next_batch` for `n` > 0 points: the stepper afterwards, and the `n` byte strings.
unfoldable pub next_batch : ℕ → Stepper → Stepper × List (List ℕ)
unfolding batch_points advance prefix_products back_substitute
next_batch n s =
    let points = batch_points n s.cur s.step8b in
    let ys = map (λ (p : GeP3). p.y) points in
    let zs = map (λ (p : GeP3). p.z) points in
    let prefix = prefix_products zs in
    let inv = fe_invert (get_or prefix (n - 1) no_fe) in
    (
      record s { cur = advance n s.cur s.step8b; consumed = u64 (s.consumed + n) },
      back_substitute ys zs prefix n inv [],
    )

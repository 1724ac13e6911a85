-- ===== src/Crypto/Incremental/Batch.antt =====
-- Montgomery's trick in `next_batch`: one inversion serves the whole batch.
use cpp_onion.Base.{
  ℕ, zero, suc, ◌+◌, ◌-◌, ◌*◌, ◌^◌, ◌<◌, ◌≤◌, ◌%◌, ◌≡◌, refl, sym, ap, ◌∙◌, arith, List, [], ◌∷◌,
  ◌++◌, map, length, get_or, take, All, append-nil, All-get_or, get_or-map, map-take-suc,
  length-map,
}
use native.Mathlib.Nat.{pow-suc}
use cpp_onion.Crypto.Field.{Fe, fe_to_bytes}
use cpp_onion.Crypto.Field.Product.{fe_mul, fe_invert}
use cpp_onion.Crypto.Field.Value.{prime, value, IsLoose, IsTight, ◌≅◌, cong_mul}
use cpp_onion.Crypto.Field.Carry.{IsWord}
use cpp_onion.Crypto.Field.Multiply.{fe_mul_lem}
use cpp_onion.Crypto.Field.Invert.{fe_invert_lem, tight→loose}
use cpp_onion.Crypto.Field.Bytes.{fe_to_bytes_eq_iff}
use cpp_onion.Crypto.Point.{GeP3, GeCachedAffine, identity, ge_madd}
use cpp_onion.Crypto.Incremental.{
  Stepper, batch_points, prefix_products, no_fe, back_substitute, next_batch, advance,
}
use cpp_onion.Crypto.Incremental.Products.{
  product, pow_mul, inverse_unique, times_swap, times_assoc, prefix_products_lem, one_pow,
  inverse_of_product,
}

-- The affine y of a point as bytes, by an inversion of its own.
abbrev pub affine_y : GeP3 → List ℕ
affine_y p = fe_to_bytes (fe_mul p.y (fe_invert p.z))

-- A point whose Z is invertible, by Fermat's little theorem at Z.
pub record IsFinite (p : GeP3) : Type 0 where
  pub y_ok : IsTight p.y
  pub z_ok : IsTight p.z
  pub fermat : value p.z ^ (prime - 1) ≅ 1

tight→word : (f : Fe) → IsTight f → IsWord f
tight→word f h = omega arith

z_ok-All : (points : List GeP3) → All IsFinite points → All IsTight (map (λ (p : GeP3). p.z) points)
z_ok-All [] h = tt
z_ok-All (p ∷ ps) h = (h.0.z_ok, z_ok-All ps h.1)

-- All the points of a batch, their coordinates and the prefix products, by index.
module _ (points : List GeP3) (finite : All IsFinite points) where
  abbrev ys : List Fe
  ys = map (λ (p : GeP3). p.y) points

  abbrev zs : List Fe
  zs = map (λ (p : GeP3). p.z) points

  abbrev at : ℕ → GeP3
  at k = get_or points k identity

  IsFinite-at : (k : ℕ) → k < length points → IsFinite (at k)
  IsFinite-at k h = All-get_or IsFinite points k identity finite h

  z_at : (k : ℕ) → k < length points → get_or zs k no_fe ≡ (at k).z
  z_at k h = get_or-map (λ (p : GeP3). p.z) points k identity no_fe h

  y_at : (k : ℕ) → k < length points → get_or ys k no_fe ≡ (at k).y
  y_at k h = get_or-map (λ (p : GeP3). p.y) points k identity no_fe h

  zs-IsTight : All IsTight zs
  zs-IsTight = z_ok-All points finite

  prefix_at :
      (k : ℕ)
      → k < length points
      → (value (get_or (prefix_products zs) k no_fe) ≅ product zs (suc k))
        × IsTight (get_or (prefix_products zs) k no_fe)
  prefix_at k h = prefix_products_lem zs k zs-IsTight (
      let e : length zs ≡ length points = length-map (λ (p : GeP3). p.z) points in omega (arith, e))

  product_fermat : (n : ℕ) → n ≤ length points → product zs n ^ (prime - 1) ≅ 1
  product_fermat zero h = ap (λ (t : ℕ). t % prime) (one_pow (prime - 1))
  product_fermat (suc n) h =
      let fermat : value (get_or zs n no_fe) ^ (prime - 1) ≅ 1 =
        rw (z_at n h) ((IsFinite-at n h).fermat) in
      ap (λ (t : ℕ). t % prime) (pow_mul (product zs n) (value (get_or zs n no_fe)) (prime - 1))
      ∙ cong_mul _ 1 _ 1 (product_fermat n (omega arith)) fermat

  -- A round with an inverse of Z gives the bytes of the point.
  round-affine_y :
      (k : ℕ) (zinv : Fe)
      → k < length points
      → IsLoose zinv
      → value zinv * value (at k).z ≅ 1
      → fe_to_bytes (fe_mul (at k).y zinv) ≡ affine_y (at k)
  round-affine_y k zinv h loose inv =
      let p = at k in
      let ok = IsFinite-at k h in
      let (power, inv_ok) = fe_invert_lem p.z (tight→loose p.z ok.z_ok) in
      let y_loose = tight→loose p.y ok.y_ok in
      let (e, tight) = fe_mul_lem p.y zinv y_loose loose in
      let (e', tight') = fe_mul_lem p.y (fe_invert p.z) y_loose inv_ok in
      let unit : value (fe_invert p.z) * value p.z ≅ 1 =
        cong_mul _ (value p.z ^ (prime - 2)) (value p.z) (value p.z) power refl
        ∙ ap (λ (t : ℕ). t % prime) (sym (pow-suc (value p.z) (prime - 2)))
        ∙ ok.fermat in
      let same : value zinv ≅ value (fe_invert p.z) =
        inverse_unique (value zinv) (value (fe_invert p.z)) (value p.z) inv unit in
      (fe_to_bytes_eq_iff _ _ (tight→word _ tight) (tight→word _ tight')).1
        (e ∙ cong_mul (value p.y) (value p.y) _ _ refl same ∙ sym e')

  back_substitute_lem :
      (n : ℕ) (inv : Fe) (out : List (List ℕ))
      → n ≤ length points
      → IsLoose inv
      → value inv * product zs n ≅ 1
      → back_substitute ys zs (prefix_products zs) n inv out ≡ map affine_y (take n points) ++ out
  unfolding back_substitute
  back_substitute_lem zero inv out h loose e = refl
  back_substitute_lem (suc zero) inv out h loose e =
      let unit : value inv * value (get_or zs 0 no_fe) ≅ 1 =
        ap (λ (t : ℕ). value inv * t % prime) (omega arith) ∙ e in
      let unit' : value inv * value (at 0).z ≅ 1 =
        ap (λ (z : Fe). value inv * value z % prime) (sym (z_at 0 h)) ∙ unit in
      rw (y_at 0 h, round-affine_y 0 inv h loose unit')
        (sym (map-take-suc affine_y points 0 identity out h))
  back_substitute_lem (suc (suc n)) inv out h loose e =
      let z = get_or zs (suc n) no_fe in
      let pre = get_or (prefix_products zs) n no_fe in
      let z_ok : IsLoose z =
        let tight : IsTight (at (suc n)).z = (IsFinite-at (suc n) h).z_ok in
        rw (z_at (suc n) h) (tight→loose _ tight) in
      let (e_pre, pre_ok) = prefix_at n (omega arith) in
      let (e_inv, inv_ok) = fe_mul_lem inv z loose z_ok in
      let (e_zinv, zinv_ok) = fe_mul_lem inv pre loose (tight→loose pre pre_ok) in
      let rest : value (fe_mul inv z) * product zs (suc n) ≅ 1 =
        cong_mul _ (value inv * value z) (product zs (suc n)) (product zs (suc n)) e_inv refl
        ∙ ap (λ (t : ℕ). t % prime) (times_swap (value inv) (value z) (product zs (suc n)))
        ∙ e in
      let zinv_value : value (fe_mul inv pre) ≅ value inv * product zs (suc n) =
        e_zinv ∙ cong_mul (value inv) (value inv) _ _ refl e_pre in
      let unit : value (fe_mul inv pre) * value z ≅ 1 =
        cong_mul _ (value inv * product zs (suc n)) (value z) (value z) zinv_value refl
        ∙ ap (λ (t : ℕ). t % prime) (times_assoc (value inv) (product zs (suc n)) (value z))
        ∙ e in
      let unit' : value (fe_mul inv pre) * value (at (suc n)).z ≅ 1 =
        ap (λ (w : Fe). value (fe_mul inv pre) * value w % prime) (sym (z_at (suc n) h)) ∙ unit in
      let next =
        back_substitute_lem (suc n) (fe_mul inv z)
          (fe_to_bytes (fe_mul (get_or ys (suc n) no_fe) (fe_mul inv pre)) ∷ out) (omega arith)
          (tight→loose _ inv_ok) rest in
      next
      ∙ rw (y_at (suc n) h, round-affine_y (suc n) (fe_mul inv pre) h (tight→loose _ zinv_ok) unit')
          (sym (map-take-suc affine_y points (suc n) identity out h))

length-batch_points : (n : ℕ) (cur : GeP3) (q : GeCachedAffine) → length (batch_points n cur q) ≡ n
unfolding batch_points
length-batch_points zero cur q = refl
length-batch_points (suc n) cur q = ap suc (length-batch_points n (ge_madd cur q) q)

take_whole {ℓ} : {A : Type ℓ} (xs : List A) → take (length xs) xs ≡ xs
take_whole [] = refl
take_whole (x ∷ xs) = ap (◌∷◌ x) (take_whole xs)

-- A batch of at least one point gives the bytes of the affine y of every point, in order, as if each
-- had been inverted by itself, if each has an invertible Z; the stepper then stands at the next
-- point and has counted the batch, modulo 2^64.
pub next_batch_lem :
    (n : ℕ) (s : Stepper)
    → 0 < n
    → All IsFinite (batch_points n s.cur s.step8b)
    → ((next_batch n s).1 ≡ map affine_y (batch_points n s.cur s.step8b))
      × ((next_batch n s).0.cur ≡ advance n s.cur s.step8b)
      × ((next_batch n s).0.step8b ≡ s.step8b)
      × ((next_batch n s).0.consumed ≡ (s.consumed + n) % 2 ^ 64)
unfolding next_batch
next_batch_lem zero s pos finite = absurd (omega arith)
next_batch_lem (suc n) s pos finite =
    let points = batch_points (suc n) s.cur s.step8b in
    let len : length points ≡ suc n = length-batch_points (suc n) s.cur s.step8b in
    let bound : n < length points = omega (arith, len) in
    let last = get_or (prefix_products (zs points finite)) n no_fe in
    let (e_last, last_ok) = prefix_at points finite n bound in
    let (power, inv_ok) = fe_invert_lem last (tight→loose last last_ok) in
    let unit : value (fe_invert last) * product (zs points finite) (suc n) ≅ 1 =
      inverse_of_product (value last) (product (zs points finite) (suc n)) (value (fe_invert last))
        e_last power (product_fermat points finite (suc n) (omega (arith, len))) in
    (
      ap
            (λ (k : ℕ).
              back_substitute (ys points finite) (zs points finite)
                (prefix_products (zs points finite)) (suc n)
                (fe_invert (get_or (prefix_products (zs points finite)) k no_fe)) [])
            (omega arith)
          ∙ back_substitute_lem points finite (suc n) (fe_invert last) [] (omega (arith, len))
              inv_ok unit
          ∙ append-nil (map affine_y (take (suc n) points))
          ∙ ap (λ (k : ℕ). map affine_y (take k points)) (sym len)
          ∙ ap (map affine_y) (take_whole points),
      refl,
      refl,
      refl,
    )

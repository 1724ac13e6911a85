-- ===== src/Crypto/Point/Doubling.antt =====
-- `ge_double` against the textbook doubling, and the coordinate that all operations keep.
use cpp_onion.Base.{ℕ, ◌+◌, ◌*◌, ◌%◌, ◌^◌, ◌<◌, ◌≡◌, refl, sym, ap, ap₂, ◌∙◌, subst, arith}
use cpp_onion.Crypto.Field.{Fe}
use cpp_onion.Crypto.Field.Product.{fe_sq}
use cpp_onion.Crypto.Field.Value.{prime, IsLoose, IsTight, ◌≅◌, cong_mul}
use cpp_onion.Crypto.Field.Multiply.{fe_sq-fe_mul}
use cpp_onion.Crypto.Point.{GeP3, GeCachedAffine, ge_madd, ge_double}
use cpp_onion.Crypto.Point.Residues.{
  Coordinates, view, residue, add_mod, sub_mod, mul_mod, IsTightPoint, tight→medium, medium→loose,
  residue-fe_mul, residue-fe_sub, residue-fe_add, coordinates_ext,
}
use cpp_onion.Crypto.Point.Addition.{IsAddend, ge_madd_lem}

residue-fe_sq :
    (a : Fe) → IsLoose a → (residue (fe_sq a) ≡ mul_mod (residue a) (residue a)) × IsTight (fe_sq a)
residue-fe_sq a h = rw (fe_sq-fe_mul a h) (residue-fe_mul a a h h)

-- Changing both signs leaves a product as it is.
neg_mul_neg : (e e' f f' : ℕ) → add_mod e e' ≡ 0 → add_mod f f' ≡ 0 → mul_mod e' f' ≡ mul_mod e f
neg_mul_neg e e' f f' he hf =
    let left : (e + e') * f' ≅ 0 * f' = cong_mul (e + e') 0 f' f' (he ∙ refl) refl in
    let right : e * (f + f') ≅ e * 0 = cong_mul e e (f + f') 0 refl (hf ∙ refl) in
    omega (arith, left, right)

-- The textbook doubling for a = -1, on residues.
abbrev pub double_mod : Coordinates → Coordinates
double_mod p =
    let a = mul_mod p.x p.x in
    let b = mul_mod p.y p.y in
    let c = add_mod (mul_mod p.z p.z) (mul_mod p.z p.z) in
    let d = sub_mod 0 a in
    let e = sub_mod (sub_mod (mul_mod (add_mod p.x p.y) (add_mod p.x p.y)) a) b in
    let g = add_mod d b in
    let f = sub_mod g c in
    let h = sub_mod d b in
    record { x = mul_mod e f; y = mul_mod g h; z = mul_mod f g; t = mul_mod e h }

-- `e`, `f`, `g` and `h` of the code are those of the textbook with the sign changed.
signs :
    (a b c s : ℕ)
    → (a < prime) × (b < prime) × (c < prime) × (s < prime)
    → let h' = add_mod a b in
      let e' = sub_mod h' s in
      let g' = sub_mod a b in
      let f' = add_mod c g' in
      let d = sub_mod 0 a in
      let e = sub_mod (sub_mod s a) b in
      let g = add_mod d b in
      let f = sub_mod g c in
      let h = sub_mod d b in
      (add_mod e e' ≡ 0) × (add_mod f f' ≡ 0) × (add_mod g g' ≡ 0) × (add_mod h h' ≡ 0)
signs a b c s bounds = omega arith

-- On limbs below 2^52 `ge_double` computes the textbook doubling modulo the prime, although its `E`,
-- `F`, `G` and `H` have the other sign, and gives such limbs back.
pub ge_double_lem :
    (p : GeP3)
    → IsTightPoint p
    → (view (ge_double p) ≡ double_mod (view p)) × IsTightPoint (ge_double p)
unfolding ge_double
ge_double_lem p hp =
    let loose = λ (f : Fe) (h : IsTight f). medium→loose f (tight→medium f h) in
    let (a, a_ok) = residue-fe_sq p.x (loose p.x hp.x_ok) in
    let (b, b_ok) = residue-fe_sq p.y (loose p.y hp.y_ok) in
    let (zz, zz_ok) = residue-fe_sq p.z (loose p.z hp.z_ok) in
    let (c, c_ok) = residue-fe_add (2 ^ 52) _ _ (omega arith) zz_ok zz_ok in
    let (h, h_ok) = residue-fe_add (2 ^ 52) _ _ (omega arith) a_ok b_ok in
    let (u, u_ok) = residue-fe_add (2 ^ 52) p.x p.y (omega arith) hp.x_ok hp.y_ok in
    let (s, s_ok) = residue-fe_sq _ (medium→loose _ u_ok) in
    let (e, e_ok) = residue-fe_sub _ _ (medium→loose _ h_ok) (tight→medium _ s_ok) in
    let (g, g_ok) = residue-fe_sub _ _ (loose _ a_ok) (tight→medium _ b_ok) in
    let (f, f_ok) = residue-fe_add (2 ^ 53) _ _ (omega arith) c_ok (tight→medium _ g_ok) in
    let (x, x_ok) = residue-fe_mul _ _ (loose _ e_ok) f_ok in
    let (y, y_ok) = residue-fe_mul _ _ (loose _ g_ok) (medium→loose _ h_ok) in
    let (z, z_ok) = residue-fe_mul _ _ f_ok (loose _ g_ok) in
    let (t, t_ok) = residue-fe_mul _ _ (loose _ e_ok) (medium→loose _ h_ok) in
    let h_is = h ∙ ap₂ add_mod a b in
    let e_is = e ∙ ap₂ sub_mod h_is (s ∙ ap₂ mul_mod u u) in
    let g_is = g ∙ ap₂ sub_mod a b in
    let f_is = f ∙ ap₂ add_mod (c ∙ ap₂ add_mod zz zz) g_is in
    let (e_neg, f_neg, g_neg, h_neg) =
      signs (mul_mod (residue p.x) (residue p.x)) (mul_mod (residue p.y) (residue p.y))
        (add_mod (mul_mod (residue p.z) (residue p.z)) (mul_mod (residue p.z) (residue p.z)))
        (mul_mod (add_mod (residue p.x) (residue p.y)) (add_mod (residue p.x) (residue p.y)))
        (omega arith) in
    (
      coordinates_ext _ (double_mod (view p)) (
        x ∙ ap₂ mul_mod e_is f_is ∙ neg_mul_neg _ _ _ _ e_neg f_neg,
        y ∙ ap₂ mul_mod g_is h_is ∙ neg_mul_neg _ _ _ _ g_neg h_neg,
        z ∙ ap₂ mul_mod f_is g_is ∙ neg_mul_neg _ _ _ _ f_neg g_neg,
        t ∙ ap₂ mul_mod e_is h_is ∙ neg_mul_neg _ _ _ _ e_neg h_neg,
      ),
      record { x_ok = x_ok; y_ok = y_ok; z_ok = z_ok; t_ok = t_ok },
    )

-- The fourth coordinate is the product of the first two over the third: `X Y = Z T`.
abbrev pub IsConsistent : Coordinates → Type 0
IsConsistent p = mul_mod p.x p.y ≡ mul_mod p.z p.t

four_factors :
    (e f g h : ℕ) → mul_mod (mul_mod e f) (mul_mod g h) ≡ mul_mod (mul_mod f g) (mul_mod e h)
four_factors e f g h =
    let left : mul_mod e f * mul_mod g h ≅ (e * f) * (g * h) =
      cong_mul (mul_mod e f) (e * f) (mul_mod g h) (g * h) (omega arith) (omega arith) in
    let right : mul_mod f g * mul_mod e h ≅ (f * g) * (e * h) =
      cong_mul (mul_mod f g) (f * g) (mul_mod e h) (e * h) (omega arith) (omega arith) in
    left ∙ ap (λ (n : ℕ). n % prime) (omega arith) ∙ sym right

-- Every doubling and every mixed addition of reduced points ends in a point with `X Y = Z T`.
pub results-IsConsistent :
    (p : GeP3) (q : GeCachedAffine)
    → IsTightPoint p
    → IsAddend q
    → IsConsistent (view (ge_double p)) × IsConsistent (view (ge_madd p q))
results-IsConsistent p q hp hq = (
  subst IsConsistent (sym (ge_double_lem p hp).0) (four_factors _ _ _ _),
  subst IsConsistent (sym (ge_madd_lem p q hp hq).0) (four_factors _ _ _ _),
)

-- ===== src/Crypto/Point/Addition.antt =====
-- `ge_add`, `ge_madd` and `ge_double` against the formulas of the literature, modulo the prime.
use cpp_onion.Base.{ℕ, ◌^◌, ◌≡◌, sym, ap, ap₂, ◌∙◌, arith}
use cpp_onion.Crypto.Field.{Fe, fe_add, fe_sub}
use cpp_onion.Crypto.Field.Product.{fe_mul, fe_invert}
use cpp_onion.Crypto.Field.Value.{Below, IsLoose, IsTight}
use cpp_onion.Crypto.Field.Invert.{fe_invert_lem}
use cpp_onion.Crypto.Point.{
  GeP3, GeCached, GeCachedAffine, ge_add, ge_madd, ge_to_cached, ge_to_cached_affine, d2,
}
use cpp_onion.Crypto.Point.Residues.{
  Coordinates, view, residue, add_mod, sub_mod, mul_mod, finish_mod, IsTightPoint, tight→medium,
  medium→loose, residue-fe_mul, residue-fe_sub, residue-fe_add, view-finish,
}

tight→loose : (f : Fe) → IsTight f → IsLoose f
tight→loose f h = medium→loose f (tight→medium f h)

-- What an addend must be.
pub record IsAddend (q : GeCachedAffine) : Type 0 where
  pub plus_ok : Below (2 ^ 53) q.y_plus_x
  pub minus_ok : IsTight q.y_minus_x
  pub t2d_ok : IsTight q.t2d

-- The mixed addition formula, on residues.
abbrev pub madd_mod : Coordinates → ℕ → ℕ → ℕ → Coordinates
madd_mod p plus minus t2d =
    finish_mod (mul_mod (sub_mod p.y p.x) minus) (mul_mod (add_mod p.y p.x) plus) (mul_mod t2d p.t)
      (add_mod p.z p.z)

-- `a`, `b` and `c`, which both additions compute alike.
sums :
    (p : GeP3) (plus minus t2d : Fe)
    → IsTightPoint p
    → Below (2 ^ 53) plus
    → IsTight minus
    → IsTight t2d
    → ((residue (fe_mul (fe_sub p.y p.x) minus)
          ≡ mul_mod (sub_mod (residue p.y) (residue p.x)) (residue minus))
        × IsTight (fe_mul (fe_sub p.y p.x) minus))
      × ((residue (fe_mul (fe_add p.y p.x) plus)
            ≡ mul_mod (add_mod (residue p.y) (residue p.x)) (residue plus))
          × IsTight (fe_mul (fe_add p.y p.x) plus))
      × ((residue (fe_mul t2d p.t) ≡ mul_mod (residue t2d) (residue p.t))
          × IsTight (fe_mul t2d p.t))
sums p plus minus t2d hp h_plus h_minus h_t =
    let (s, s_ok) = residue-fe_sub p.y p.x (tight→loose p.y hp.y_ok) (tight→medium p.x hp.x_ok) in
    let (u, u_ok) = residue-fe_add (2 ^ 52) p.y p.x (omega arith) hp.y_ok hp.x_ok in
    let (a, a_ok) = residue-fe_mul _ minus (tight→loose _ s_ok) (tight→loose minus h_minus) in
    let (b, b_ok) = residue-fe_mul _ plus (medium→loose _ u_ok) (medium→loose plus h_plus) in
    let (c, c_ok) = residue-fe_mul t2d p.t (tight→loose t2d h_t) (tight→loose p.t hp.t_ok) in
    (
      (a ∙ ap (λ (x : ℕ). mul_mod x (residue minus)) s, a_ok),
      (b ∙ ap (λ (x : ℕ). mul_mod x (residue plus)) u, b_ok),
      (c, c_ok),
    )

-- On limbs below 2^52 `ge_madd` computes the mixed addition formula modulo the prime, and gives
-- such limbs back.
pub ge_madd_lem :
    (p : GeP3) (q : GeCachedAffine)
    → IsTightPoint p
    → IsAddend q
    → (view (ge_madd p q)
        ≡ madd_mod (view p) (residue q.y_plus_x) (residue q.y_minus_x) (residue q.t2d))
      × IsTightPoint (ge_madd p q)
unfolding ge_madd
ge_madd_lem p q hp hq =
    let ((a, a_ok), (b, b_ok), (c, c_ok)) =
      sums p q.y_plus_x q.y_minus_x q.t2d hp hq.plus_ok hq.minus_ok hq.t2d_ok in
    let (d, d_ok) = residue-fe_add (2 ^ 52) p.z p.z (omega arith) hp.z_ok hp.z_ok in
    let (e, tight) = view-finish _ _ _ _ a_ok b_ok c_ok d_ok in
    (e ∙ (λ i. finish_mod (a i) (b i) (c i) (d i)), tight)

abbrev pub affine : GeCached → GeCachedAffine
affine q = record { y_plus_x = q.y_plus_x; y_minus_x = q.y_minus_x; t2d = q.t2d }

-- The full addition of an addend whose `Z` is one gives the same coordinates modulo the prime as
-- the mixed addition without it.
ge_add-ge_madd :
    (p : GeP3) (q : GeCached)
    → IsTightPoint p
    → IsAddend (affine q)
    → IsTight q.z
    → residue q.z ≡ 1
    → view (ge_add p q) ≡ view (ge_madd p (affine q))
unfolding ge_add
ge_add-ge_madd p q hp hq hz one =
    let ((a, a_ok), (b, b_ok), (c, c_ok)) =
      sums p q.y_plus_x q.y_minus_x q.t2d hp hq.plus_ok hq.minus_ok hq.t2d_ok in
    let (m, m_ok) = residue-fe_mul p.z q.z (tight→loose p.z hp.z_ok) (tight→loose q.z hz) in
    let (d, d_ok) = residue-fe_add (2 ^ 52) _ _ (omega arith) m_ok m_ok in
    let same : residue (fe_mul p.z q.z) ≡ residue p.z =
      m ∙ ap (mul_mod (residue p.z)) one ∙ omega arith in
    let (e, tight) = view-finish _ _ _ _ a_ok b_ok c_ok d_ok in
    e
    ∙ (λ i. finish_mod (a i) (b i) (c i) ((d ∙ ap₂ add_mod same same) i))
    ∙ sym (ge_madd_lem p (affine q) hp hq).0

pub ge_add-IsTightPoint :
    (p : GeP3) (q : GeCached)
    → IsTightPoint p
    → IsAddend (affine q)
    → IsTight q.z
    → IsTightPoint (ge_add p q)
unfolding ge_add
ge_add-IsTightPoint p q hp hq hz =
    let ((a, a_ok), (b, b_ok), (c, c_ok)) =
      sums p q.y_plus_x q.y_minus_x q.t2d hp hq.plus_ok hq.minus_ok hq.t2d_ok in
    let (m, m_ok) = residue-fe_mul p.z q.z (tight→loose p.z hp.z_ok) (tight→loose q.z hz) in
    let (d, d_ok) = residue-fe_add (2 ^ 52) _ _ (omega arith) m_ok m_ok in
    (view-finish _ _ _ _ a_ok b_ok c_ok d_ok).1

IsAddend-of :
    (x y t : Fe)
    → IsTight x
    → IsTight y
    → IsTight t
    → IsAddend (record { y_plus_x = fe_add y x; y_minus_x = fe_sub y x; t2d = fe_mul t d2 })
IsAddend-of x y t hx hy ht = record {
  plus_ok = (residue-fe_add (2 ^ 52) y x (omega arith) hy hx).1;
  minus_ok = (residue-fe_sub y x (tight→loose y hy) (tight→medium x hx)).1;
  t2d_ok = (residue-fe_mul t d2 (tight→loose t ht) (omega arith)).1;
}

-- What the conversions give may be added.
pub ge_to_cached-IsAddend : (p : GeP3) → IsTightPoint p → IsAddend (affine (ge_to_cached p))
unfolding ge_to_cached
ge_to_cached-IsAddend p h = IsAddend-of p.x p.y p.t h.x_ok h.y_ok h.t_ok

pub ge_to_cached_affine-IsAddend : (p : GeP3) → IsTightPoint p → IsAddend (ge_to_cached_affine p)
unfolding ge_to_cached_affine
ge_to_cached_affine-IsAddend p h =
    let (_, inv) = fe_invert_lem p.z (tight→loose p.z h.z_ok) in
    let x_ok = (residue-fe_mul p.x (fe_invert p.z) (tight→loose p.x h.x_ok) inv).1 in
    let y_ok = (residue-fe_mul p.y (fe_invert p.z) (tight→loose p.y h.y_ok) inv).1 in
    let t_ok = (residue-fe_mul _ _ (tight→loose _ x_ok) (tight→loose _ y_ok)).1 in
    IsAddend-of _ _ _ x_ok y_ok t_ok

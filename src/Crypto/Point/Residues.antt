-- ===== src/Crypto/Point/Residues.antt =====
-- The limbs of a point implement the addition formulas modulo the prime, and stay reduced.
use cpp_onion.Base.{ℕ, ◌+◌, ◌-◌, ◌*◌, ◌%◌, ◌^◌, ◌<◌, ◌≡◌, ap₂, ◌∙◌, arith}
use cpp_onion.Crypto.Field.{Fe, fe_add, fe_sub}
use cpp_onion.Crypto.Field.Product.{fe_mul}
use cpp_onion.Crypto.Field.Value.{prime, value, Below, IsLoose, IsTight, cong_mul}
use cpp_onion.Crypto.Field.Carry.{fe_add_lem, fe_sub_lem}
use cpp_onion.Crypto.Field.Multiply.{fe_mul_lem}
use cpp_onion.Crypto.Point.{GeP3, finish}

abbrev pub add_mod : ℕ → ℕ → ℕ
add_mod x y = (x + y) % prime

abbrev pub sub_mod : ℕ → ℕ → ℕ
sub_mod x y = (x + prime - y) % prime

abbrev pub mul_mod : ℕ → ℕ → ℕ
mul_mod x y = x * y % prime

abbrev pub residue : Fe → ℕ
residue f = value f % prime

pub tight→medium : (f : Fe) → IsTight f → Below (2 ^ 53) f
tight→medium f h = omega arith

pub medium→loose : (f : Fe) → Below (2 ^ 53) f → IsLoose f
medium→loose f h = omega arith

pub residue-fe_mul :
    (a b : Fe)
    → IsLoose a
    → IsLoose b
    → (residue (fe_mul a b) ≡ mul_mod (residue a) (residue b)) × IsTight (fe_mul a b)
residue-fe_mul a b ha hb =
    let (e, tight) = fe_mul_lem a b ha hb in
    (e ∙ cong_mul (value a) (residue a) (value b) (residue b) (omega arith) (omega arith), tight)

pub residue-fe_sub :
    (a b : Fe)
    → IsLoose a
    → Below (2 ^ 53) b
    → (residue (fe_sub a b) ≡ sub_mod (residue a) (residue b)) × IsTight (fe_sub a b)
residue-fe_sub a b ha hb = let (e, tight) = fe_sub_lem a b ha hb in (omega (arith, e), tight)

pub residue-fe_add :
    (n : ℕ) (a b : Fe)
    → n < 2 ^ 54
    → Below n a
    → Below n b
    → (residue (fe_add a b) ≡ add_mod (residue a) (residue b)) × Below (2 * n) (fe_add a b)
residue-fe_add n a b small ha hb =
    let (e, below) = fe_add_lem n a b (omega arith) ha hb in (omega (arith, e), below)

-- A point and an addend as residues.
pub record Coordinates : Type 0 where
  pub x : ℕ
  pub y : ℕ
  pub z : ℕ
  pub t : ℕ

abbrev pub view : GeP3 → Coordinates
view p = record { x = residue p.x; y = residue p.y; z = residue p.z; t = residue p.t }

abbrev pub finish_mod : ℕ → ℕ → ℕ → ℕ → Coordinates
finish_mod a b c d =
    let e = sub_mod b a in
    let f = sub_mod d c in
    let g = add_mod d c in
    let h = add_mod b a in
    record { x = mul_mod e f; y = mul_mod g h; z = mul_mod f g; t = mul_mod e h }

pub record IsTightPoint (p : GeP3) : Type 0 where
  pub x_ok : IsTight p.x
  pub y_ok : IsTight p.y
  pub z_ok : IsTight p.z
  pub t_ok : IsTight p.t

pub coordinates_ext :
    (v w : Coordinates) → (v.x ≡ w.x) × (v.y ≡ w.y) × (v.z ≡ w.z) × (v.t ≡ w.t) → v ≡ w
coordinates_ext v w (ex, ey, ez, et) = λ i. record { x = ex i; y = ey i; z = ez i; t = et i }

pub view-finish :
    (a b c d : Fe)
    → IsTight a
    → IsTight b
    → IsTight c
    → Below (2 ^ 53) d
    → (view (finish a b c d) ≡ finish_mod (residue a) (residue b) (residue c) (residue d))
      × IsTightPoint (finish a b c d)
unfolding finish
view-finish a b c d ha hb hc hd =
    let (e, e_ok) = residue-fe_sub b a (medium→loose b (tight→medium b hb)) (tight→medium a ha) in
    let (f, f_ok) = residue-fe_sub d c (medium→loose d hd) (tight→medium c hc) in
    let (g, g_ok) = residue-fe_add (2 ^ 53) d c (omega arith) hd (tight→medium c hc) in
    let (h, h_ok) = residue-fe_add (2 ^ 52) b a (omega arith) hb ha in
    let e_ok' = medium→loose _ (tight→medium _ e_ok) in
    let f_ok' = medium→loose _ (tight→medium _ f_ok) in
    let h_ok' = medium→loose _ h_ok in
    let (x, x_ok) = residue-fe_mul _ _ e_ok' f_ok' in
    let (y, y_ok) = residue-fe_mul _ _ g_ok h_ok' in
    let (z, z_ok) = residue-fe_mul _ _ f_ok' g_ok in
    let (t, t_ok) = residue-fe_mul _ _ e_ok' h_ok' in
    (
      coordinates_ext _ _
          (x ∙ ap₂ mul_mod e f, y ∙ ap₂ mul_mod g h, z ∙ ap₂ mul_mod f g, t ∙ ap₂ mul_mod e h),
      record { x_ok = x_ok; y_ok = y_ok; z_ok = z_ok; t_ok = t_ok },
    )

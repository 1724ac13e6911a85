-- ===== src/Crypto/Field/Invert.antt =====
-- `fe_invert` raises to the power 2^255 - 21, which is the prime less two.
use cpp_onion.Base.{ℕ, zero, suc, ◌+◌, ◌-◌, ◌*◌, ◌%◌, ◌^◌, ◌≡◌, sym, ap, ◌∙◌, arith}
use native.Mathlib.Nat.{pow-suc, pow-zero, mul_assoc}
use native.Mathlib.Numerals.{unary_clauses}
use cpp_onion.Crypto.Field.{Fe}
use cpp_onion.Crypto.Field.Product.{fe_mul, fe_sq, sq_times, fe_invert}
use cpp_onion.Crypto.Field.Value.{prime, value, IsLoose, IsTight, ◌≅◌, cong_mul}
use cpp_onion.Crypto.Field.Multiply.{fe_mul_lem, fe_sq_lem}

pub pow_add : (z m n : ℕ) → z ^ (m + n) ≡ z ^ m * z ^ n
pow_add z m zero = simp unary_clauses (omega arith)
pow_add z m (suc n) = simp (unary_clauses, pow_add z m n, mul_assoc)

pub tight→loose : (f : Fe) → IsTight f → IsLoose f
tight→loose f h = omega arith

pow_one : (z : ℕ) → z ^ 1 ≡ z
pow_one z = pow-suc z 0 ∙ ap (λ (t : ℕ). t * z) (pow-zero z) ∙ omega arith

-- `x` stands for the power `z ^ e`.
record IsPower (z e : ℕ) (x : Fe) : Type 0 where
  same : value x ≅ z ^ e
  loose : IsLoose x

module _ {z : ℕ} where
  IsPower-mul :
      (d e : ℕ) (x y : Fe) → IsPower z d x → IsPower z e y → IsPower z (d + e) (fe_mul x y)
  IsPower-mul d e x y hx hy =
      let (p, tight) = fe_mul_lem x y hx.loose hy.loose in
      record {
        same =
            p
            ∙ cong_mul (value x) (z ^ d) (value y) (z ^ e) hx.same hy.same
            ∙ ap (λ (t : ℕ). t % prime) (sym (pow_add z d e));
        loose = tight→loose (fe_mul x y) tight;
      }

  IsPower-sq : (e : ℕ) (x : Fe) → IsPower z e x → IsPower z (e + e) (fe_sq x)
  IsPower-sq e x hx =
      let (p, tight) = fe_sq_lem x hx.loose in
      record {
        same =
            p
            ∙ cong_mul (value x) (z ^ e) (value x) (z ^ e) hx.same hx.same
            ∙ ap (λ (t : ℕ). t % prime) (sym (pow_add z e e));
        loose = tight→loose (fe_sq x) tight;
      }

  IsPower-sq_times : (n e : ℕ) (x : Fe) → IsPower z e x → IsPower z (e * 2 ^ n) (sq_times n x)
  unfolding sq_times
  IsPower-sq_times zero e x hx = let same : e * 2 ^ 0 ≡ e = omega arith in rw same hx
  IsPower-sq_times (suc n) e x hx =
      let same : e * 2 ^ suc n ≡ (e + e) * 2 ^ n =
        omega (arith, ap (λ (t : ℕ). e * t) (pow-suc 2 n)) in
      rw same (IsPower-sq_times n (e + e) (fe_sq x) (IsPower-sq e x hx))

  -- `n` squarings and a product, as in every line of the chain.
  IsPower-step :
      (n : ℕ) {d e : ℕ} {x y : Fe}
      → IsPower z d x
      → IsPower z e y
      → IsPower z (d * 2 ^ n + e) (fe_mul (sq_times n x) y)
  IsPower-step n {d} {e} {x} {y} hx hy =
      IsPower-mul (d * 2 ^ n) e (sq_times n x) y (IsPower-sq_times n d x hx) hy

-- The inverse is the power to the prime less two, modulo the prime, with limbs below 2^54.
pub fe_invert_lem :
    (z : Fe) → IsLoose z → (value (fe_invert z) ≅ value z ^ (prime - 2)) × IsLoose (fe_invert z)
unfolding fe_invert
fe_invert_lem z h =
    let h1 : IsPower (value z) 1 z = record {
      same = ap (λ (t : ℕ). t % prime) (sym (pow_one (value z)));
      loose = h;
    } in
    let h2 : IsPower (value z) 2 (fe_sq z) = IsPower-sq 1 z h1 in
    let h9 : IsPower (value z) 9 _ = IsPower-step 2 h2 h1 in
    let h11 : IsPower (value z) 11 _ = IsPower-mul 9 2 _ _ h9 h2 in
    let h31 : IsPower (value z) 31 _ = IsPower-mul 22 9 _ _ (IsPower-sq 11 _ h11) h9 in
    let h_10 : IsPower (value z) (2 ^ 10 - 1) _ = IsPower-step 5 h31 h31 in
    let h_20 : IsPower (value z) (2 ^ 20 - 1) _ = IsPower-step 10 h_10 h_10 in
    let h_40 : IsPower (value z) (2 ^ 40 - 1) _ = IsPower-step 20 h_20 h_20 in
    let h_50 : IsPower (value z) (2 ^ 50 - 1) _ = IsPower-step 10 h_40 h_10 in
    let h_100 : IsPower (value z) (2 ^ 100 - 1) _ = IsPower-step 50 h_50 h_50 in
    let h_200 : IsPower (value z) (2 ^ 200 - 1) _ = IsPower-step 100 h_100 h_100 in
    let h_250 : IsPower (value z) (2 ^ 250 - 1) _ = IsPower-step 50 h_200 h_50 in
    let whole : IsPower (value z) (prime - 2) (fe_invert z) = IsPower-step 5 h_250 h11 in
    (whole.same, whole.loose)

-- ===== src/Cuda/Device/Power.antt =====
-- What a kernel relies on of its field, and what `fed_invert` computes then.
use cpp_onion.Base.{ℕ, zero, suc, ◌+◌, ◌-◌, ◌*◌, ◌%◌, ◌^◌, ◌≡◌, sym, ap, ◌∙◌, arith}
use native.Mathlib.Nat.{pow-suc, pow-zero}
use cpp_onion.Crypto.Field.Value.{prime, ◌≅◌, cong_mul}
use cpp_onion.Crypto.Field.Invert.{pow_add}
use cpp_onion.Cuda.Device.{DeviceField, sq_times, invert, one_bytes}

-- Elements stand for numbers modulo the prime; `IsOk` are those that the operations take.
pub record Laws {F : Type 0} (field : DeviceField F) : Type 1 where
  pub value_of : F → ℕ
  pub IsOk : F → Type 0
  pub mul_law :
      (a b : F)
      → IsOk a
      → IsOk b
      → (value_of (field.mul a b) ≅ value_of a * value_of b) × IsOk (field.mul a b)
  pub sq_law :
      (a : F) → IsOk a → (value_of (field.sq a) ≅ value_of a * value_of a) × IsOk (field.sq a)
  pub one_law : (value_of (field.from_bytes one_bytes) ≅ 1) × IsOk (field.from_bytes one_bytes)
  pub bytes_law :
      (a b : F) → IsOk a → IsOk b → value_of a ≅ value_of b → field.to_bytes a ≡ field.to_bytes b

module _ {F : Type 0} (field : DeviceField F) (laws : Laws field) where
  -- `x` stands for the power `z ^ e`.
  record IsPower (z e : ℕ) (x : F) : Type 0 where
    same : laws.value_of x ≅ z ^ e
    ok : laws.IsOk x

  IsPower-mul :
      {z d e : ℕ} {x y : F} → IsPower z d x → IsPower z e y → IsPower z (d + e) (field.mul x y)
  IsPower-mul {z} {d} {e} {x} {y} hx hy =
      let (p, ok) = laws.mul_law x y hx.ok hy.ok in
      record {
        same =
            p
            ∙ cong_mul _ (z ^ d) _ (z ^ e) hx.same hy.same
            ∙ ap (λ (t : ℕ). t % prime) (sym (pow_add z d e));
        ok = ok;
      }

  IsPower-sq : {z e : ℕ} {x : F} → IsPower z e x → IsPower z (e + e) (field.sq x)
  IsPower-sq {z} {e} {x} hx =
      let (p, ok) = laws.sq_law x hx.ok in
      record {
        same =
            p
            ∙ cong_mul _ (z ^ e) _ (z ^ e) hx.same hx.same
            ∙ ap (λ (t : ℕ). t % prime) (sym (pow_add z e e));
        ok = ok;
      }

  IsPower-sq_times :
      {z : ℕ} (n e : ℕ) (x : F) → IsPower z e x → IsPower z (e * 2 ^ n) (sq_times field n x)
  unfolding sq_times
  IsPower-sq_times zero e x hx = let same : e * 2 ^ 0 ≡ e = omega arith in rw same hx
  IsPower-sq_times (suc n) e x hx =
      let same : e * 2 ^ suc n ≡ (e + e) * 2 ^ n =
        omega (arith, ap (λ (t : ℕ). e * t) (pow-suc 2 n)) in
      rw same (IsPower-sq_times n (e + e) (field.sq x) (IsPower-sq hx))

  -- `n` squarings and a product.
  IsPower-step :
      (n : ℕ) {z d e : ℕ} {x y : F}
      → IsPower z d x
      → IsPower z e y
      → IsPower z (d * 2 ^ n + e) (field.mul (sq_times field n x) y)
  IsPower-step n {z} {d} {e} {x} {y} hx hy = IsPower-mul (IsPower-sq_times n d x hx) hy

  -- The inverse is the power to the prime less two.
  pub invert-power :
      (z : F)
      → laws.IsOk z
      → (laws.value_of (invert field z) ≅ laws.value_of z ^ (prime - 2))
        × laws.IsOk (invert field z)
  unfolding invert
  invert-power z h =
      let v = laws.value_of z in
      let one : v ^ 1 ≡ v = pow-suc v 0 ∙ ap (λ (t : ℕ). t * v) (pow-zero v) ∙ omega arith in
      let h1 : IsPower v 1 z = record { same = ap (λ (t : ℕ). t % prime) (sym one); ok = h } in
      let h2 : IsPower v 2 _ = IsPower-sq h1 in
      let h9 : IsPower v 9 _ = IsPower-step 2 h2 h1 in
      let h11 : IsPower v 11 _ = IsPower-mul h9 h2 in
      let h31 : IsPower v 31 _ = IsPower-mul (IsPower-sq h11) h9 in
      let h_10 : IsPower v (2 ^ 10 - 1) _ = IsPower-step 5 h31 h31 in
      let h_20 : IsPower v (2 ^ 20 - 1) _ = IsPower-step 10 h_10 h_10 in
      let h_40 : IsPower v (2 ^ 40 - 1) _ = IsPower-step 20 h_20 h_20 in
      let h_50 : IsPower v (2 ^ 50 - 1) _ = IsPower-step 10 h_40 h_10 in
      let h_100 : IsPower v (2 ^ 100 - 1) _ = IsPower-step 50 h_50 h_50 in
      let h_200 : IsPower v (2 ^ 200 - 1) _ = IsPower-step 100 h_100 h_100 in
      let h_250 : IsPower v (2 ^ 250 - 1) _ = IsPower-step 50 h_200 h_50 in
      let whole : IsPower v (prime - 2) (invert field z) = IsPower-step 5 h_250 h11 in
      (whole.same, whole.ok)

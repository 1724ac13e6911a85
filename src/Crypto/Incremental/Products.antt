-- ===== src/Crypto/Incremental/Products.antt =====
-- The prefix products of `next_batch`, and inverses modulo the prime.
use cpp_onion.Base.{
  ℕ, zero, suc, ◌-◌, ◌*◌, ◌^◌, ◌<◌, ◌%◌, ◌≡◌, refl, sym, ap, ◌∙◌, arith, List, [], ◌∷◌, length,
  get_or, All,
}
use native.Mathlib.Nat.{pow-suc}
use native.Mathlib.Numerals.{unary_clauses}
use cpp_onion.Crypto.Field.{Fe}
use cpp_onion.Crypto.Field.Product.{fe_mul}
use cpp_onion.Crypto.Field.Value.{prime, value, IsTight, ◌≅◌, cong_mul, cong_pow}
use cpp_onion.Crypto.Field.Multiply.{fe_mul_lem}
use cpp_onion.Crypto.Field.Invert.{tight→loose}
use cpp_onion.Crypto.Incremental.{products, prefix_products, no_fe}

-- The product of the first `n` values.
abbrev pub product : List Fe → ℕ → ℕ
product zs zero = 1
product zs (suc n) = product zs n * value (get_or zs n no_fe)

product_cons : (z : Fe) (zs : List Fe) (n : ℕ) → product (z ∷ zs) (suc n) ≡ value z * product zs n
product_cons z zs zero = omega arith
product_cons z zs (suc n) =
    omega (arith, ap (λ (t : ℕ). t * value (get_or zs n no_fe)) (product_cons z zs n))

pub pow_mul : (a b n : ℕ) → (a * b) ^ n ≡ a ^ n * b ^ n
pow_mul a b zero = simp unary_clauses
pow_mul a b (suc n) = rw (pow-suc (a * b) n, pow-suc a n, pow-suc b n, pow_mul a b n) (omega arith)

-- Two inverses of the same number are congruent.
pub inverse_unique : (a b z : ℕ) → a * z ≅ 1 → b * z ≅ 1 → a ≅ b
inverse_unique a b z ha hb =
    let left : a * (b * z) ≅ a * 1 = cong_mul a a (b * z) 1 refl hb in
    let right : (a * z) * b ≅ 1 * b = cong_mul (a * z) 1 b b ha refl in omega (arith, left, right)

pub times_swap : (a b c : ℕ) → a * b * c ≡ a * (c * b)
times_swap a b c = omega arith

pub times_assoc : (a b c : ℕ) → a * b * c ≡ a * (b * c)
times_assoc a b c = omega arith

products_lem :
    (last : Fe) (zs : List Fe) (i : ℕ)
    → IsTight last
    → All IsTight zs
    → i < length zs
    → (value (get_or (products last zs) i no_fe) ≅ value last * product zs (suc i))
      × IsTight (get_or (products last zs) i no_fe)
unfolding products
products_lem last [] i hl hzs h = absurd (omega arith)
products_lem last (z ∷ zs) zero hl hzs h =
    let (e, tight) = fe_mul_lem last z (tight→loose last hl) (tight→loose z hzs.0) in
    (omega (arith, e), tight)
products_lem last (z ∷ zs) (suc i) hl hzs h =
    let (e, tight) = fe_mul_lem last z (tight→loose last hl) (tight→loose z hzs.0) in
    let (e', tight') = products_lem (fe_mul last z) zs i tight hzs.1 (omega arith) in
    (
      e'
          ∙ cong_mul (value (fe_mul last z)) (value last * value z) _ (product zs (suc i)) e refl
          ∙ ap (λ (t : ℕ). t % prime)
              (times_assoc (value last) (value z) (product zs (suc i))
                ∙ ap (λ (t : ℕ). value last * t) (sym (product_cons z zs (suc i)))),
      tight',
    )

pub prefix_products_lem :
    (zs : List Fe) (i : ℕ)
    → All IsTight zs
    → i < length zs
    → (value (get_or (prefix_products zs) i no_fe) ≅ product zs (suc i))
      × IsTight (get_or (prefix_products zs) i no_fe)
unfolding prefix_products
prefix_products_lem [] i hzs h = absurd (omega arith)
prefix_products_lem (z ∷ zs) zero hzs h = (omega arith, hzs.0)
prefix_products_lem (z ∷ zs) (suc i) hzs h =
    let (e, tight) = products_lem z zs i hzs.0 hzs.1 (omega arith) in
    (e ∙ ap (λ (t : ℕ). t % prime) (sym (product_cons z zs (suc i))), tight)

pub one_pow : (n : ℕ) → 1 ^ n ≡ 1
one_pow zero = simp unary_clauses
one_pow (suc n) = rw (pow-suc 1 n, one_pow n) refl

pub inverse_of_product :
    (last p inv : ℕ) → last ≅ p → inv ≅ last ^ (prime - 2) → p ^ (prime - 1) ≅ 1 → inv * p ≅ 1
inverse_of_product last p inv e power fermat =
    cong_mul inv (p ^ (prime - 2)) p p (power ∙ cong_pow (prime - 2) last p e) refl
    ∙ ap (λ (t : ℕ). t % prime) (sym (pow-suc p (prime - 2)))
    ∙ fermat

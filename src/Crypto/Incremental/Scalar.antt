-- ===== src/Crypto/Incremental/Scalar.antt =====
-- `scalar_add_8i` adds to the 256-bit number of its bytes.
use cpp_onion.Base.{
  ℕ, suc, ◌+◌, ◌*◌, ◌/◌, ◌%◌, ◌^◌, ◌<◌, ◌≡◌, refl, sym, ap, ap₂, ◌∙◌, arith, List, [], ◌∷◌, length,
  bit_and, u64, ◌>>>◌, ◌==◌, ==_iff, IsBytes, Bool-cases, inl, inr,
}
use native.Mathlib.Nat.{
  pow-suc, one-le-pow, mod-lt, div-add-mod, add-mul-mod_self_left, mod-eq_of_lt,
}
use cpp_onion.Base.Digits.{bit_and-ones}
use cpp_onion.Crypto.Field.Numbers.{le_value}
use cpp_onion.Crypto.Incremental.{add_carry, scalar_add_8i}

mask_byte : (x : ℕ) → bit_and x 0xff ≡ x % 256
mask_byte x = bit_and-ones 8 x

abbrev Sums : List ℕ → ℕ → List ℕ → Type 0
Sums bs carry r =
    (le_value r ≡ (le_value bs + carry) % 256 ^ length bs) × IsBytes r × (length r ≡ length bs)

le_value_lt : (bs : List ℕ) → IsBytes bs → le_value bs < 256 ^ length bs
le_value_lt [] h = omega arith
le_value_lt (b ∷ bs) h = omega (arith, pow-suc 256 (length bs), le_value_lt bs h.1, h.0)

-- The carry that goes on, as numbers.
next_carry :
    (b carry : ℕ)
    → b < 256
    → carry < 2 ^ 64
    → let v = u64 (b + bit_and carry 0xff) in
      (bit_and v 0xff ≡ (b + carry) % 256) × (u64 ((carry >>> 8) + (v >>> 8)) ≡ (b + carry) / 256)
next_carry b carry hb hc = omega (arith, mask_byte)

-- The low digit and the rest of a sum, modulo the next power.
digits_mod :
    (b carry l m : ℕ)
    → 0 < m
    → (b + carry) % 256 + 256 * ((l + (b + carry) / 256) % m) ≡ (b + 256 * l + carry) % (m * 256)
digits_mod b carry l m pos =
    let s = b + carry in
    let n = l + s / 256 in
    let low : n % m < m = mod-lt n pos in
    let parts : m * (n / m) + n % m ≡ n = div-add-mod n m in
    let shape : b + 256 * l + carry ≡ (s % 256 + 256 * (n % m)) + (m * 256) * (n / m) =
      omega (arith, parts) in
    sym (
      ap (λ (t : ℕ). t % (m * 256)) shape
      ∙ add-mul-mod_self_left (s % 256 + 256 * (n % m)) (m * 256) (n / m)
      ∙ mod-eq_of_lt (omega (arith, low)))

-- A step of the loop from what the rest of it does.
next_digit :
    (b carry : ℕ) (bs rest : List ℕ) (v c : ℕ)
    → v ≡ (b + carry) % 256
    → c ≡ (b + carry) / 256
    → Sums bs c rest
    → Sums (b ∷ bs) carry (v ∷ rest)
next_digit b carry bs rest v c ev ec (sum, bytes, same) =
    let m = 256 ^ length bs in
    let value_of_rest : le_value rest ≡ (le_value bs + (b + carry) / 256) % m =
      sum ∙ ap (λ (t : ℕ). (le_value bs + t) % m) ec in
    let power : 256 ^ suc (length bs) ≡ m * 256 = pow-suc 256 (length bs) in
    (
      ap₂ (λ (x y : ℕ). x + 256 * y) ev value_of_rest
          ∙ digits_mod b carry (le_value bs) m (one-le-pow (length bs) 256 (omega arith))
          ∙ ap (λ (t : ℕ). (b + 256 * le_value bs + carry) % t) (sym power),
      (omega (arith, ev), bytes),
      ap suc same,
    )

add_carry-Sums :
    (bs : List ℕ) (carry : ℕ) → IsBytes bs → carry < 2 ^ 64 → Sums bs carry (add_carry bs carry)
unfolding add_carry
add_carry-Sums [] carry h hc = (omega arith, tt, refl)
add_carry-Sums (b ∷ bs) carry (hb, hbs) hc =
    let v = u64 (b + bit_and carry 0xff) in
    let c = u64 ((carry >>> 8) + (v >>> 8)) in
    let next = next_carry b carry hb hc in
    let bound : le_value (b ∷ bs) < 256 ^ length (b ∷ bs) = le_value_lt (b ∷ bs) (hb, hbs) in
    elim (Bool-cases (carry == 0)) [
      | inl none_left ↦
          let zero_carry : carry ≡ 0 = (==_iff carry 0).0 none_left in
          rw none_left (
            let e : b + 256 * le_value bs + carry ≡ b + 256 * le_value bs =
              omega (arith, zero_carry) in
            rw e (sym (mod-eq_of_lt bound), (hb, hbs), refl))
      | inr some_left ↦ rw some_left (
          next_digit b carry bs (add_carry bs c) (bit_and v 0xff) c next.0 next.1
            (add_carry-Sums bs c hbs (omega arith)))
    ]

-- `scalar_add_8i` adds 8 `i`, taken modulo 2^64, to the 256-bit number of its 32 bytes, modulo 2^256, into 32 bytes.
pub scalar_add_8i_lem :
    (a0 : List ℕ) (i : ℕ)
    → IsBytes a0
    → length a0 ≡ 32
    → (le_value (scalar_add_8i a0 i) ≡ (le_value a0 + i * 8 % 2 ^ 64) % 2 ^ 256)
      × IsBytes (scalar_add_8i a0 i)
      × (length (scalar_add_8i a0 i) ≡ 32)
unfolding scalar_add_8i
scalar_add_8i_lem a0 i h len =
    let (sum, bytes, same) = add_carry-Sums a0 (u64 (i * 8)) h (omega arith) in
    (sum ∙ ap (λ (n : ℕ). (le_value a0 + u64 (i * 8)) % 256 ^ n) len, bytes, same ∙ len)

-- ===== src/Crypto/Field/Carry.antt =====
-- The carries, addition and subtraction: no 64-bit operation loses anything.
use cpp_onion.Base.{ℕ, ◌+◌, ◌*◌, ◌/◌, ◌^◌, ◌<◌, ◌≤◌, ◌≡◌, arith}
use cpp_onion.Crypto.Field.{Fe, carry, wrap_top, carry_full, biased, carry_low, fe_add, fe_sub}
use cpp_onion.Crypto.Field.Value.{prime, value, Below, IsLoose, IsTight, ◌≅◌, mask_low}

-- The limbs that any carry may be given.
abbrev pub IsWord : Fe → Type 0
IsWord = Below (2 ^ 60)

-- A carry keeps the value, and leaves 51 bits in all limbs but the last.
pub carry_lem :
    (t : Fe)
    → IsWord t
    → (value (carry t) ≡ value t)
      × ((carry t).v0 < 2 ^ 51)
      × ((carry t).v1 < 2 ^ 51)
      × ((carry t).v2 < 2 ^ 51)
      × ((carry t).v3 < 2 ^ 51)
      × ((carry t).v4 < t.v4 + 2 ^ 10)
unfolding carry
carry_lem t h = omega (arith, mask_low)

-- What `carry_full` leaves: 51 bits in each limb, and a little more in the first.
pub record IsCarried (t r : Fe) : Type 0 where
  pub turns : ℕ
  pub same : value t ≡ value r + prime * turns
  pub c0 : r.v0 < 2 ^ 51 + 2 ^ 15
  pub c1 : r.v1 < 2 ^ 51
  pub c2 : r.v2 < 2 ^ 51
  pub c3 : r.v3 < 2 ^ 51
  pub c4 : r.v4 < 2 ^ 51

wrap_top-IsCarried :
    (t c : Fe)
    → value c ≡ value t
    → (c.v0 < 2 ^ 51) × (c.v1 < 2 ^ 51) × (c.v2 < 2 ^ 51) × (c.v3 < 2 ^ 51) × (c.v4 < 2 ^ 61)
    → IsCarried t (wrap_top c)
unfolding wrap_top
wrap_top-IsCarried t c e h = record {
  turns = c.v4 / 2 ^ 51;
  same = omega (arith, mask_low);
  c0 = omega arith;
  c1 = omega arith;
  c2 = omega arith;
  c3 = omega arith;
  c4 = omega (arith, mask_low);
}

pub carry_full-IsCarried : (t : Fe) → IsWord t → IsCarried t (carry_full t)
unfolding carry_full
carry_full-IsCarried t h =
    let c = carry_lem t h in wrap_top-IsCarried t (carry t) c.0 (omega (arith, c, h.b4))

-- The sum of two reduced elements, with no carry.
pub fe_add_lem :
    (n : ℕ) (a b : Fe)
    → n ≤ 2 ^ 54
    → Below n a
    → Below n b
    → (value (fe_add a b) ≡ value a + value b) × Below (2 * n) (fe_add a b)
unfolding fe_add
fe_add_lem n a b small ha hb = (omega arith, omega arith)

biased_lem :
    (a b : Fe)
    → IsLoose a
    → Below (2 ^ 53) b
    → (value (biased a b) + value b ≡ value a + prime * 8) × IsWord (biased a b)
unfolding biased
biased_lem a b ha hb = (omega arith, omega arith)

carry_low_lem : (t r : Fe) → IsCarried t r → (value (carry_low r) ≡ value r) × IsTight (carry_low r)
unfolding carry_low
carry_low_lem t r h = (omega (arith, mask_low), omega (arith, mask_low))

-- The difference modulo the prime, with all limbs reduced.
pub fe_sub_lem :
    (a b : Fe)
    → IsLoose a
    → Below (2 ^ 53) b
    → (value (fe_sub a b) + value b ≅ value a) × IsTight (fe_sub a b)
unfolding fe_sub
fe_sub_lem a b ha hb =
    let (e, word) = biased_lem a b ha hb in
    let full = carry_full-IsCarried (biased a b) word in
    let (e', tight) = carry_low_lem (biased a b) (carry_full (biased a b)) full in
    (omega (arith, e, e', full.same), tight)

-- ===== src/Crypto/Field/Canonical.antt =====
-- The reduction in `fe_to_bytes`: carries and one subtraction of the prime.
use cpp_onion.Base.{
  Bool-cases, ltb, ltb→lt, inl, inr, ℕ, ◌+◌, ◌-◌, ◌*◌, ◌/◌, ◌%◌, ◌^◌, ◌<◌, ◌≤◌, ◌≡◌, ◌∙◌, arith,
}
use cpp_onion.Crypto.Field.{
  Fe, carry, wrap_top, carry_full, add_19, add_offset, drop_top, canonical,
}
use cpp_onion.Crypto.Field.Value.{prime, value, Below, IsTight, ◌≅◌, mask_low}
use cpp_onion.Crypto.Field.Carry.{IsWord, carry_lem, carry_full-IsCarried}

-- The prime comes off as often as the sum with 19 reaches 2^255.
turn_lem :
    (t c : Fe)
    → value c ≡ value t + 19
    → (c.v0 < 2 ^ 51) × (c.v1 < 2 ^ 51) × (c.v2 < 2 ^ 51) × (c.v3 < 2 ^ 51) × (c.v4 < 2 ^ 61)
    → (value (wrap_top c) + prime * ((value t + 19) / 2 ^ 255) ≡ value t + 19)
      × IsTight (wrap_top c)
unfolding wrap_top
turn_lem t c e h = (omega (arith, mask_low), omega (arith, mask_low))

drop_top_lem :
    (c : Fe)
    → (c.v0 < 2 ^ 51) × (c.v1 < 2 ^ 51) × (c.v2 < 2 ^ 51) × (c.v3 < 2 ^ 51)
    → (value (drop_top c) ≡ value c % 2 ^ 255) × Below (2 ^ 51) (drop_top c)
unfolding drop_top
drop_top_lem c h = (omega (arith, mask_low), omega (arith, mask_low))

add_offset_lem :
    (t : Fe) → IsTight t → (value (add_offset t) ≡ value t + (2 ^ 255 - 19)) × IsWord (add_offset t)
unfolding add_offset
add_offset_lem t h = (omega arith, omega arith)

add_19_lem : (t : Fe) → IsTight t → (value (add_19 t) ≡ value t + 19) × IsWord (add_19 t)
unfolding add_19
add_19_lem t h = (omega arith, omega arith)

-- The element after two full carries is below twice the prime.
twice_carried :
    (f : Fe)
    → IsWord f
    → let t = carry_full (carry_full f) in IsTight t × (value t < 2 * prime) × (value t ≅ value f)
twice_carried f h =
    let once = carry_full-IsCarried f h in
    let twice =
      carry_full-IsCarried (carry_full f)
        (omega (arith, once.c0, once.c1, once.c2, once.c3, once.c4)) in
    (
      omega (arith, twice.c0, twice.c1, twice.c2, twice.c3, twice.c4),
      omega (arith, twice.c0, twice.c1, twice.c2, twice.c3, twice.c4),
      omega (arith, once.same, twice.same),
    )

residue :
    (v w x : ℕ)
    → v < 2 * prime
    → w + prime * ((v + 19) / 2 ^ 255) ≡ v + 19
    → x ≡ w + (2 ^ 255 - 19)
    → x % 2 ^ 255 ≡ v % prime
residue v w x small turned e = elim (Bool-cases (ltb v prime)) [
  | inl below ↦
      let once : (v + 19) / 2 ^ 255 ≡ 0 = omega (arith, ltb→lt v prime below) in
      omega (arith, once, ltb→lt v prime below)
  | inr reached ↦
      let large : prime ≤ v = ground arith in
      let once : (v + 19) / 2 ^ 255 ≡ 1 = omega (arith, large) in omega (arith, once, large)
]

subtract_prime :
    (t : Fe)
    → IsTight t
    → value t < 2 * prime
    → let r = drop_top (carry (add_offset (wrap_top (carry (add_19 t))))) in
      (value r ≡ value t % prime) × Below (2 ^ 51) r
subtract_prime t h small =
    let (e19, word) = add_19_lem t h in
    let c = carry_lem (add_19 t) word in
    let (turned, tight) = turn_lem t (carry (add_19 t)) (c.0 ∙ e19) (omega (arith, c, word.b4)) in
    let (offset, word') = add_offset_lem (wrap_top (carry (add_19 t))) tight in
    let c' = carry_lem (add_offset (wrap_top (carry (add_19 t)))) word' in
    let (low, limbs) =
      drop_top_lem (carry (add_offset (wrap_top (carry (add_19 t))))) (omega (arith, c')) in
    (
      low ∙ residue (value t) (value (wrap_top (carry (add_19 t)))) _ small turned (c'.0 ∙ offset),
      limbs,
    )

-- The limbs that are written hold the least residue.
pub canonical_lem :
    (f : Fe) → IsWord f → (value (canonical f) ≡ value f % prime) × Below (2 ^ 51) (canonical f)
unfolding canonical
canonical_lem f h =
    let (tight, small, same) = twice_carried f h in
    let (e, limbs) = subtract_prime (carry_full (carry_full f)) tight small in (e ∙ same, limbs)

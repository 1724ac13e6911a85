-- ===== src/Cuda/Kernel/Count.antt =====
-- The counter of a launch: one for every step whose y matches a pattern.
use cpp_onion.Base.{
  ℕ, zero, suc, ◌+◌, ◌≡◌, ◌<◌, ◌≤◌, ◌^◌, ap, ◌∙◌, arith, Bool, true, false, ◌||◌, Bool-cases, inl,
  inr, List, [], ◌∷◌, if◌then◌else◌,
}
use cpp_onion.Cuda.Device.{DevicePoint, DeviceAddend, DeviceField}
use cpp_onion.Cuda.Device.Power.{Laws}
use cpp_onion.Cuda.Kernel.{
  DevPattern, Hits, masked_equal, record_hit, match_patterns, match_and_record, search_thread,
}
use cpp_onion.Cuda.Kernel.Walk.{point_at, own_y, search_each, AllFinite}
use cpp_onion.Cuda.Kernel.Fused.{search_thread-each}

-- Some pattern matches the bytes.
abbrev pub any_matches : List DevPattern → List ℕ → Bool
any_matches [] enc = false
any_matches (pat ∷ rest) enc = masked_equal pat enc pat.nbytes 0 || any_matches rest enc

abbrev pub one_if : Bool → ℕ
one_if b = if b then 1 else 0

one_if_le : (b : Bool) → one_if b ≤ 1
one_if_le true = omega arith
one_if_le false = omega arith

match_patterns-hit_count :
    (enc : List ℕ) (t j p : ℕ) (rest : List DevPattern) (h : Hits)
    → h.hit_count < 2 ^ 31
    → (match_patterns enc t j p rest h).hit_count ≡ h.hit_count + one_if (any_matches rest enc)
unfolding match_patterns record_hit
match_patterns-hit_count enc t j p [] h room = omega arith
match_patterns-hit_count enc t j p (pat ∷ rest) h room =
    elim (Bool-cases (masked_equal pat enc pat.nbytes 0)) [
      | inl hit ↦ rw hit (omega (arith, room))
      | inr miss ↦ rw miss (match_patterns-hit_count enc t j (p + 1) rest h room)
    ]

module _ {F : Type 0} (field : DeviceField F) (laws : Laws field) (patterns : List DevPattern)
    (step : DeviceAddend F) where
  -- How many of the first `n` points have an affine y that matches.
  abbrev pub matching : ℕ → DevicePoint F → ℕ
  matching zero cur = 0
  matching (suc i) cur =
      matching i cur
      + one_if
          (any_matches patterns (field.to_bytes (own_y field step (point_at field step i cur))))

  search_each-hit_count :
      (t : ℕ) (cur : DevicePoint F) (n : ℕ) (h : Hits)
      → h.hit_count + n < 2 ^ 31
      → (search_each field step patterns t cur n h).hit_count ≡ h.hit_count + matching n cur
  unfolding match_and_record
  search_each-hit_count t cur zero h room = omega arith
  search_each-hit_count t cur (suc i) h room =
      let enc = field.to_bytes (own_y field step (point_at field step i cur)) in
      let here = match_patterns-hit_count enc t i 0 patterns h (omega (arith, room)) in
      let most = one_if_le (any_matches patterns enc) in
      omega (
        arith,
        search_each-hit_count t cur i (match_patterns enc t i 0 patterns h)
            (omega (arith, here, most, room)),
        here,
      )

  -- With a field that satisfies the laws, if every point of the walk has an invertible Z, and if the
  -- count before and the steps are together below 2^31, so that no `int` wraps, then a thread counts
  -- exactly the points whose affine y matches a pattern, each once.
  pub search_thread-hit_count :
      (m t : ℕ) (cur : DevicePoint F) (h : Hits)
      → h.hit_count + m < 2 ^ 31
      → AllFinite field step laws m cur
      → (search_thread field patterns m t cur step h).hit_count ≡ h.hit_count + matching m cur
  search_thread-hit_count m t cur h room finite =
      ap (λ (g : Hits). g.hit_count) (search_thread-each field laws patterns step m t cur h finite)
      ∙ search_each-hit_count t cur m h room

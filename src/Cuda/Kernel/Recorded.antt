-- ===== src/Cuda/Kernel/Recorded.antt =====
-- What the slots hold that a launch has written.
use cpp_onion.Base.{
  ℕ, zero, suc, ◌+◌, ◌<◌, ◌≤◌, ◌≡◌, ◌∙◌, arith, Bool-cases, inl, inr, List, [], ◌∷◌, length,
  length-set, take, set, min, All, foldl, ltb, leb, lt→ltb, subst, ◌^◌, ◌⊎◌, refl, ap, true, false,
  u32,
}
use cpp_onion.Cuda.Device.{DevicePoint, DeviceAddend, DeviceField, invert, one_bytes}
use cpp_onion.Cuda.Kernel.{
  DevPattern, HitSlot, Hits, max_hit_slots, masked_equal, record_hit, match_patterns, is_negative,
  match_and_record, forward, fused_back, search_thread, search_kernel,
}

-- A hit of a thread, a step and a pattern that there are.
pub record IsInside (threads steps patterns : ℕ) (hit : HitSlot) : Type 0 where
  pub thread : hit.t < threads
  pub step : hit.j < steps
  pub pattern : hit.pattern_index < patterns

-- All slots that the counter covers hold such hits.
pub record IsRecorded {ℓ} (P : HitSlot → Type ℓ) (h : Hits) : Type ℓ where
  pub sized : length h.slots ≡ max_hit_slots
  pub good : All P (take (min h.hit_count max_hit_slots) h.slots)

-- Where the slot of a record lies.
data SlotCase (slot : ℕ) : Type 0 where
  slot_inside : slot < max_hit_slots → SlotCase slot
  slot_past : max_hit_slots ≤ slot → slot < 2 ^ 31 → SlotCase slot
  slot_negative : 2 ^ 31 ≤ slot → SlotCase slot

lt_or_le : (a b : ℕ) → (a < b) ⊎ (b ≤ a)
lt_or_le a b = ground arith

slot_cases : (slot : ℕ) → SlotCase slot
slot_cases slot = elim (lt_or_le slot max_hit_slots) [
  | inl lt ↦ slot_inside lt
  | inr ge ↦ elim (lt_or_le slot (2 ^ 31)) [
    | inl lt ↦ slot_past ge lt
    | inr high ↦ slot_negative high
  ]
]

set-past : {A : Type 0} (xs : List A) (i : ℕ) (v : A) → length xs ≤ i → set xs i v ≡ xs
set-past [] i v h = refl
set-past (x ∷ xs) zero v h = absurd (omega arith)
set-past (x ∷ xs) (suc i) v h = ap (◌∷◌ x) (set-past xs i v (omega arith))

module _ {ℓ κ} {A : Type ℓ} (P : A → Type κ) where
  pub All-take-set :
      (xs : List A) (i : ℕ) (v : A)
      → i < length xs
      → P v
      → All P (take i xs)
      → All P (take (suc i) (set xs i v))
  All-take-set [] i v h p all = absurd (omega arith)
  All-take-set (x ∷ xs) zero v h p all = (p, tt)
  All-take-set (x ∷ xs) (suc i) v h p all = (all.0, All-take-set xs i v (omega arith) p all.1)

  pub All-take-le : (n m : ℕ) (xs : List A) → n ≤ m → All P (take m xs) → All P (take n xs)
  All-take-le zero m xs h all = tt
  All-take-le (suc n) zero xs h all = absurd (omega arith)
  All-take-le (suc n) (suc m) [] h all = tt
  All-take-le (suc n) (suc m) (x ∷ xs) h all = (all.0, All-take-le n m xs (omega arith) all.1)

module _ {ℓ} (P : HitSlot → Type ℓ) where
  record_hit-IsRecorded :
      (hit : HitSlot) (h : Hits) → P hit → IsRecorded P h → IsRecorded P (record_hit hit h)
  unfolding record_hit
  record_hit-IsRecorded hit h p r = elim (slot_cases h.hit_count) [
    | slot_inside lt ↦
        let low : is_negative h.hit_count ≡ false = ground (arith, lt) in
        let room : ltb h.hit_count max_hit_slots ≡ true = lt→ltb h.hit_count max_hit_slots lt in
        let before : min h.hit_count max_hit_slots ≡ h.hit_count = omega (arith, lt) in
        let after : min (u32 (h.hit_count + 1)) max_hit_slots ≡ suc h.hit_count =
          omega (arith, lt) in
        rw (low, room)
          (record {
            sized = length-set h.slots h.hit_count hit ∙ r.sized;
            good = rw after (
                All-take-set P h.slots h.hit_count hit (omega (arith, lt, r.sized)) p
                  (subst (λ (k : ℕ). All P (take k h.slots)) before r.good));
          })
    | slot_past ge lt ↦
        let low : is_negative h.hit_count ≡ false = ground (arith, lt) in
        let full : ltb h.hit_count max_hit_slots ≡ false = ground (arith, ge) in
        let same : min (u32 (h.hit_count + 1)) max_hit_slots ≡ min h.hit_count max_hit_slots =
          omega (arith, ge, lt) in
        rw (low, full) (record { sized = r.sized; good = rw same r.good })
    | slot_negative ge ↦
        let high : is_negative h.hit_count ≡ true = ground (arith, ge) in
        let out : set h.slots h.hit_count hit ≡ h.slots =
          set-past h.slots h.hit_count hit (omega (arith, ge, r.sized)) in
        rw (high, out)
          (record {
            sized = r.sized;
            good =
                All-take-le P _ (min h.hit_count max_hit_slots) h.slots (omega (arith, ge)) r.good;
          })
  ]

module _ {ℓ} {F : Type 0} (field : DeviceField F) (patterns : List DevPattern)
    (P : HitSlot → Type ℓ) where
  -- A record for each pattern of the thread's step that may match.
  match_patterns-IsRecorded :
      (enc : List ℕ) (t j p : ℕ) (rest : List DevPattern) (h : Hits)
      → p + length rest ≡ length patterns
      → ((q : ℕ) → q < length patterns → P (record { t = t; j = j; pattern_index = q }))
      → IsRecorded P h
      → IsRecorded P (match_patterns enc t j p rest h)
  unfolding match_patterns
  match_patterns-IsRecorded enc t j p [] h e good r = r
  match_patterns-IsRecorded enc t j p (pat ∷ rest) h e good r =
      elim (Bool-cases (masked_equal pat enc pat.nbytes 0)) [
        | inl hit ↦ rw hit (record_hit-IsRecorded P _ h (good p (omega (arith, e))) r)
        | inr miss ↦
            rw miss (match_patterns-IsRecorded enc t j (p + 1) rest h (omega (arith, e)) good r)
      ]

  match_and_record-IsRecorded :
      (y : F) (t j : ℕ) (h : Hits)
      → ((q : ℕ) → q < length patterns → P (record { t = t; j = j; pattern_index = q }))
      → IsRecorded P h
      → IsRecorded P (match_and_record field patterns y t j h)
  unfolding match_and_record
  match_and_record-IsRecorded y t j h good r =
      match_patterns-IsRecorded (field.to_bytes y) t j 0 patterns h (omega arith) good r

  module _ (t m : ℕ)
      (good : (j q : ℕ)
        → j < m
        → q < length patterns
        → P (record { t = t; j = j; pattern_index = q })) where
    fused_back-IsRecorded :
        (combo zs : List F) (i : ℕ) (run : F) (h : Hits)
        → i ≤ m
        → IsRecorded P h
        → IsRecorded P (fused_back field patterns combo zs t i run h)
    unfolding fused_back
    fused_back-IsRecorded combo zs zero run h k r = r
    fused_back-IsRecorded combo zs (suc zero) run h k r =
        match_and_record-IsRecorded _ t 0 h (λ q lt. good 0 q k lt) r
    fused_back-IsRecorded combo zs (suc (suc i)) run h k r =
        fused_back-IsRecorded combo zs (suc i) _ _ (omega arith)
          (match_and_record-IsRecorded _ t (suc i) h (λ q lt. good (suc i) q k lt) r)

    search_thread-IsRecorded :
        (cur : DevicePoint F) (step : DeviceAddend F) (h : Hits)
        → IsRecorded P h
        → IsRecorded P (search_thread field patterns m t cur step h)
    unfolding search_thread
    search_thread-IsRecorded cur step h r =
        let walk = forward field step m cur (field.from_bytes one_bytes) in
        fused_back-IsRecorded walk.combo walk.zs m (invert field walk.pe) h (omega arith) r

module _ {F : Type 0} (field : DeviceField F) (patterns : List DevPattern) (m threads : ℕ) where
  search_kernel-IsRecorded :
      (starts : ℕ → DevicePoint F) (bigstep : DeviceAddend F) (t : ℕ) (h : Hits)
      → IsRecorded (IsInside threads m (length patterns)) h
      → IsRecorded
          (IsInside threads m (length patterns))
          (search_kernel field patterns m starts bigstep threads t h)
  unfolding search_kernel
  search_kernel-IsRecorded starts bigstep t h r = elim (Bool-cases (leb threads t)) [
    | inl out ↦ rw out r
    | inr inside ↦
        let lt : t < threads = ground arith in
        rw inside (
          search_thread-IsRecorded field patterns (IsInside threads m (length patterns)) t m
            (λ j q hj hq. record { thread = lt; step = hj; pattern = hq }) (starts t) bigstep h r)
  ]

  -- Whatever the threads and their order.
  pub threads-IsRecorded :
      (starts : ℕ → DevicePoint F) (bigstep : DeviceAddend F) (ids : List ℕ) (h : Hits)
      → IsRecorded (IsInside threads m (length patterns)) h
      → IsRecorded (IsInside threads m (length patterns)) (
          foldl
            (λ (g : Hits) (t : ℕ). search_kernel field patterns m starts bigstep threads t g)
            h
            ids)
  threads-IsRecorded starts bigstep [] h r = r
  threads-IsRecorded starts bigstep (t ∷ ids) h r =
      threads-IsRecorded starts bigstep ids _ (search_kernel-IsRecorded starts bigstep t h r)

module _ {ℓ κ} {P : HitSlot → Type ℓ} {Q : HitSlot → Type κ} where
  All-weaken : ((hit : HitSlot) → P hit → Q hit) → (hits : List HitSlot) → All P hits → All Q hits
  All-weaken f [] h = tt
  All-weaken f (hit ∷ hits) h = (f hit h.0, All-weaken f hits h.1)

  pub IsRecorded-weaken :
      ((hit : HitSlot) → P hit → Q hit) → (h : Hits) → IsRecorded P h → IsRecorded Q h
  IsRecorded-weaken f h r = record { sized = r.sized; good = All-weaken f _ r.good }

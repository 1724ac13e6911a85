-- ===== src/Cuda/Engine/Sound.antt =====
-- What every step of the engine keeps: sound candidates in the queue, slots that can be drained, and
-- the number of polls.
use cpp_onion.Base.{
  ℕ, ◌+◌, ◌<◌, ◌≤◌, ◌≡◌, refl, arith, Bool-cases, inl, inr, Option, none, some, List, [], ◌∷◌,
  length, take, min, All, ◌==◌,
}
use cpp_onion.Core.Matcher.{CompiledPattern}
use cpp_onion.Crypto.Keys.{Sodium, pubkey_from_scalar}
use cpp_onion.Crypto.Incremental.{scalar_add_8i}
use cpp_onion.Engine.Candidates.{IsReported, push-All}
use cpp_onion.Cuda.Kernel.{HitSlot, max_hit_slots}
use cpp_onion.Cuda.Engine.{Slot, Impl, set_slot, hit_index, push_hit, push_hits}
use cpp_onion.Cuda.Engine.Run.{cuda_called, polled, dropped}

module _ (sodium : Sodium) (patterns : List CompiledPattern) where
  abbrev pub IsIndexed : HitSlot → Type 0
  IsIndexed hit = hit.pattern_index < length patterns

  module _ {F : Type 0} where
    -- The slots that a drain would read.
    pub record IsSlot (slot : Slot F) : Type 0 where
      pub sized : length slot.d_hits.slots ≡ max_hit_slots
      pub good : All IsIndexed (take (min slot.h_hit_count max_hit_slots) slot.d_hits.slots)

    -- The queue and the slots, and that at least `low` polls are over.
    pub record IsSound (low : ℕ) (s : Impl F) : Type 0 where
      pub reported : All (IsReported sodium patterns) s.results
      pub slots_ok : (k : ℕ) → IsSlot (s.slots k)
      pub later : low ≤ s.polls

    pub set_slot-IsSound :
        (low k : ℕ) (slot : Slot F) (s : Impl F)
        → IsSlot slot
        → IsSound low s
        → IsSound low (set_slot k slot s)
    set_slot-IsSound low k slot s ok h = record {
      reported = h.reported;
      slots_ok = λ i. elim (Bool-cases (i == k)) [
        | inl same ↦ rw same ok
        | inr other ↦ rw other (h.slots_ok i)
      ];
      later = h.later;
    }

    -- The record of calls does not matter.
    pub cuda_called-IsSound : (low : ℕ) (s : Impl F) → IsSound low s → IsSound low (cuda_called s)
    cuda_called-IsSound low s h = record {
      reported = h.reported;
      slots_ok = h.slots_ok;
      later = h.later;
    }

    pub polled-IsSound : (low : ℕ) (s : Impl F) → IsSound low s → IsSound (low + 1) (polled s)
    polled-IsSound low s h = record {
      reported = h.reported;
      slots_ok = h.slots_ok;
      later = let k = h.later in omega (arith, k);
    }

    pub IsSound-le : (low low' : ℕ) (s : Impl F) → low' ≤ low → IsSound low s → IsSound low' s
    IsSound-le low low' s k h = record {
      reported = h.reported;
      slots_ok = h.slots_ok;
      later = let e = h.later in omega (arith, e, k);
    }

    pub dropped-IsSound : (low : ℕ) (s : Impl F) → IsSound low s → IsSound low (dropped s)
    dropped-IsSound low s h = record {
      reported = h.reported;
      slots_ok = h.slots_ok;
      later = h.later;
    }

    push_hit-IsSound :
        (low : ℕ) (scalar : List ℕ) (p : ℕ) (o : Option (List ℕ)) (s : Impl F)
        → sodium.base_noclamp scalar ≡ o
        → p < length patterns
        → IsSound low s
        → IsSound low (push_hit sodium scalar p o s)
    unfolding push_hit
    push_hit-IsSound low scalar p none s e lt h = record {
      reported = h.reported;
      slots_ok = h.slots_ok;
      later = h.later;
    }
    push_hit-IsSound low scalar p (some pk) s e lt h = record {
      reported =
          push-All (IsReported sodium patterns) sodium _ s.results
            (record { derived = e; indexed = lt }) h.reported;
      slots_ok = h.slots_ok;
      later = h.later;
    }

    pub push_hits-IsSound :
        (low : ℕ) (a0 : List ℕ) (hits : List HitSlot) (s : Impl F)
        → All IsIndexed hits
        → IsSound low s
        → IsSound low (push_hits sodium a0 hits s)
    unfolding push_hits pubkey_from_scalar
    push_hits-IsSound low a0 [] s all h = h
    push_hits-IsSound low a0 (hit ∷ hits) s all h = push_hits-IsSound low a0 hits _ all.1 (
        push_hit-IsSound low (scalar_add_8i a0 (hit_index s.knobs.threads hit)) hit.pattern_index _
          s refl all.0 h)

-- ===== src/Cuda/Engine/Drain.antt =====
-- The end of an epoch: its hits become candidates.
use cpp_onion.Base.{
  ℕ, ◌+◌, Bool, true, Bool-cases, inl, inr, List, take, min, if◌then◌else◌, ◌==◌, ltb, u64, ◌||◌,
}
use cpp_onion.Core.Matcher.{CompiledPattern}
use cpp_onion.Crypto.Field.{Fe}
use cpp_onion.Crypto.Keys.{Sodium}
use cpp_onion.Cuda.Device.{DeviceField}
use cpp_onion.Cuda.Kernel.{max_hit_slots, is_negative}
use cpp_onion.Cuda.Engine.{Slot, Impl, set_slot, push_hits}
use cpp_onion.Cuda.Engine.Run.{Runtime, cuda_called, drain_hits, drain_epoch, finish_epoch}
use cpp_onion.Cuda.Engine.Sound.{
  IsSlot, set_slot-IsSound, cuda_called-IsSound, dropped-IsSound, push_hits-IsSound,
}
use cpp_onion.Cuda.Engine.Epochs.{Sound, SoundResult, dev, cuda_ok-elim}

module _ (sodium : Sodium) (runtime : Runtime) {F : Type 0} (field : DeviceField F) (to_fe : Fe → F)
    (patterns : List CompiledPattern) (steps low : ℕ) where
  drain_hits-Sound :
      (k : ℕ) (s : Impl F)
      → Sound sodium runtime field to_fe patterns steps low s
      → Sound sodium runtime field to_fe patterns steps low
          (drain_hits sodium runtime field to_fe
            (dev sodium runtime field to_fe patterns steps low)
            steps
            k
            s).1
  unfolding drain_hits
  drain_hits-Sound k s h =
      let slot = s.slots k in
      let ok = h.slots_ok k in
      let n = min slot.h_hit_count max_hit_slots in
      let counted : Impl F = record s {
        hit_overflow_events =
            if ltb max_hit_slots slot.h_hit_count
            then u64 (s.hit_overflow_events + 1)
            else s.hit_overflow_events;
      } in
      let same : Sound sodium runtime field to_fe patterns steps low counted = record {
        reported = h.reported;
        slots_ok = h.slots_ok;
        later = h.later;
      } in
      let called = cuda_called-IsSound sodium patterns low counted same in
      let copied : Slot F = record slot { h_slots = take n slot.d_hits.slots } in
      let copied_ok : IsSlot sodium patterns copied = record { sized = ok.sized; good = ok.good } in
      let next : Impl F → Bool × Impl F =
        λ s'. (true, push_hits sodium slot.a0 copied.h_slots (set_slot k copied s')) in
      elim (Bool-cases (slot.h_hit_count == 0 || is_negative slot.h_hit_count)) [
        | inl idle ↦ rw idle h
        | inr some_hit ↦ rw some_hit (
            cuda_ok-elim sodium runtime field to_fe patterns steps low
              (SoundResult sodium runtime field to_fe patterns steps low) next counted called
              (push_hits-IsSound sodium patterns low slot.a0 copied.h_slots _ ok.good (
                set_slot-IsSound sodium patterns low k copied (cuda_called counted) copied_ok
                  called)))
      ]

  pub finish_epoch-Sound :
      (k : ℕ) (s : Impl F)
      → Sound sodium runtime field to_fe patterns steps low s
      → Sound sodium runtime field to_fe patterns steps low (
          finish_epoch sodium runtime field to_fe
            (dev sodium runtime field to_fe patterns steps low)
            steps
            k
            s)
  unfolding finish_epoch drain_epoch
  finish_epoch-Sound k s h =
      let called = cuda_called-IsSound sodium patterns low s h in
      let r =
        drain_epoch sodium runtime field to_fe (dev sodium runtime field to_fe patterns steps low)
          steps k s in
      let sound : Sound sodium runtime field to_fe patterns steps low r.1 =
        cuda_ok-elim sodium runtime field to_fe patterns steps low
          (SoundResult sodium runtime field to_fe patterns steps low)
          (drain_hits sodium runtime field to_fe (dev sodium runtime field to_fe patterns steps low)
            steps k)
          s called (drain_hits-Sound k (cuda_called s) called) in
      elim (Bool-cases r.0) [
        | inl good ↦ rw good sound
        | inr bad ↦ rw bad (dropped-IsSound sodium patterns low r.1 sound)
      ]

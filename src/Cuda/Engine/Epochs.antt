-- ===== src/Cuda/Engine/Epochs.antt =====
-- The epochs of the engine: every outcome of the CUDA calls keeps the queue sound.
use cpp_onion.Base.{
  ℕ, ◌+◌, ◌<◌, ◌≡◌, refl, sym, subst, arith, Bool, true, false, Bool-cases, inl, inr, List, length,
  length-map, map, if◌then◌else◌, ◌==◌, ==_iff,
}
use cpp_onion.Core.Matcher.{CompiledPattern}
use cpp_onion.Crypto.Field.{Fe}
use cpp_onion.Crypto.Keys.{Sodium, clamp}
use cpp_onion.Io.Verifier.Checks.{true-false}
use cpp_onion.Cuda.Device.{DeviceField}
use cpp_onion.Cuda.Kernel.{DevPattern}
use cpp_onion.Cuda.Kernel.Recorded.{IsInside, IsRecorded, IsRecorded-weaken, threads-IsRecorded}
use cpp_onion.Cuda.Engine.{Slot, Impl, dev_pattern, store, set_slot, launch}
use cpp_onion.Cuda.Engine.Run.{
  Runtime, cuda_called, polled, cuda_ok, upload_epoch, setup_epoch, launch_epoch, start_epoch,
  count_failed, begin_epoch,
}
use cpp_onion.Cuda.Engine.Sound.{
  IsIndexed, IsSlot, IsSound, set_slot-IsSound, cuda_called-IsSound, polled-IsSound, IsSound-le,
  dropped-IsSound,
}

module _ (sodium : Sodium) (runtime : Runtime) {F : Type 0} (field : DeviceField F) (to_fe : Fe → F)
    (patterns : List CompiledPattern) (steps low : ℕ) where
  abbrev pub Sound : Impl F → Type 0
  Sound = IsSound sodium patterns low

  abbrev pub dev : List DevPattern
  dev = map dev_pattern patterns

  pub cuda_ok-elim :
      (Q : Bool × Impl F → Type 0) (next : Impl F → Bool × Impl F) (s : Impl F)
      → Q (false, cuda_called s)
      → Q (next (cuda_called s))
      → Q (cuda_ok sodium runtime field to_fe dev steps next s)
  unfolding cuda_ok
  cuda_ok-elim Q next s failed succeeded = elim (Bool-cases (runtime.succeeds s.cuda_calls)) [
    | inl good ↦ rw good succeeded
    | inr bad ↦ rw bad failed
  ]

  abbrev IsReset : Slot F → Type 0
  IsReset slot = (slot.d_hits.hit_count ≡ 0) × (slot.h_hit_count ≡ 0)

  -- After a set-up that has succeeded, both counters of the slot are 0.
  record IsSetUp (k : ℕ) (r : Bool × Impl F) : Type 0 where
    sound : Sound r.1
    ready : r.0 ≡ true → IsReset (r.1.slots k)

  stored : {A : Type 0} (array : ℕ → A) (k : ℕ) (v : A) → store array k v k ≡ v
  stored array k v = let e : (k == k) ≡ true = (==_iff k k).1 refl in rw e refl

  -- A step that failed has no slot to be ready.
  failed-IsSetUp : (k : ℕ) (s : Impl F) → Sound s → IsSetUp k (false, cuda_called s)
  failed-IsSetUp k s h = record {
    sound = cuda_called-IsSound sodium patterns low s h;
    ready = λ e. absurd (true-false e refl);
  }

  upload_epoch-IsSetUp :
      (k : ℕ) (staged with_starts reset uploaded : Slot F) (s : Impl F)
      → IsSlot sodium patterns staged
      → IsSlot sodium patterns with_starts
      → IsSlot sodium patterns reset
      → IsSlot sodium patterns uploaded
      → IsReset uploaded
      → Sound s
      → IsSetUp k
          (upload_epoch sodium runtime field to_fe dev steps k staged with_starts reset uploaded s)
  unfolding upload_epoch
  upload_epoch-IsSetUp k staged with_starts reset uploaded s ok0 ok1 ok2 ok3 zeroed h =
      let next = λ (slot : Slot F) (s' : Impl F) (ok : IsSlot sodium patterns slot) (h' : Sound s').
        set_slot-IsSound sodium patterns low k slot (cuda_called s') ok
          (cuda_called-IsSound sodium patterns low s' h') in
      let s0 = set_slot k staged s in
      let s1 = set_slot k with_starts (cuda_called s0) in
      let s2 = set_slot k reset (cuda_called s1) in
      let h0 = set_slot-IsSound sodium patterns low k staged s ok0 h in
      let h1 = next with_starts s0 ok1 h0 in
      let h2 = next reset s1 ok2 h1 in
      let h3 = next uploaded s2 ok3 h2 in
      let call = cuda_ok sodium runtime field to_fe dev steps in
      let third : Impl F → Bool × Impl F = λ s'. (true, set_slot k uploaded s') in
      let second : Impl F → Bool × Impl F = λ s'. call third (set_slot k reset s') in
      let first : Impl F → Bool × Impl F = λ s'. call second (set_slot k with_starts s') in
      let done : IsSetUp k (third (cuda_called s2)) = record {
        sound = h3;
        ready = λ e. subst IsReset (sym (stored s2.slots k uploaded)) zeroed;
      } in
      cuda_ok-elim (IsSetUp k) first s0 (failed-IsSetUp k s0 h0) (
        cuda_ok-elim (IsSetUp k) second s1 (failed-IsSetUp k s1 h1)
          (cuda_ok-elim (IsSetUp k) third s2 (failed-IsSetUp k s2 h2) done))

  setup_epoch-IsSetUp :
      (k : ℕ) (a0 : List ℕ) (s : Impl F)
      → Sound s
      → IsSetUp k (setup_epoch sodium runtime field to_fe dev steps k a0 s)
  unfolding setup_epoch
  setup_epoch-IsSetUp k a0 s h =
      let ok = h.slots_ok k in
      upload_epoch-IsSetUp k _ _ _ _ s (record { sized = ok.sized; good = ok.good })
        (record { sized = ok.sized; good = ok.good }) (record { sized = ok.sized; good = tt })
        (record { sized = ok.sized; good = tt }) (refl, refl) h

  abbrev pub SoundResult : Bool × Impl F → Type 0
  SoundResult r = Sound r.1

  -- A kernel on a counter that is 0 leaves slots that can be drained.
  launch-IsSlot :
      (slot : Slot F) (threads : ℕ) (ids : List ℕ)
      → IsSlot sodium patterns slot
      → slot.d_hits.hit_count ≡ 0
      → IsRecorded
          (IsIndexed sodium patterns)
          (launch field dev steps threads ids slot.d_starts slot.d_bigstep slot.d_hits)
  unfolding launch
  launch-IsSlot slot threads ids ok zeroed =
      let before : IsRecorded (IsInside threads steps (length dev)) slot.d_hits = record {
        sized = ok.sized;
        good = rw zeroed tt;
      } in
      let same : length dev ≡ length patterns = length-map dev_pattern patterns in
      IsRecorded-weaken (λ hit inside. subst (λ (n : ℕ). hit.pattern_index < n) same inside.pattern)
        _
        (threads-IsRecorded field dev steps threads slot.d_starts slot.d_bigstep ids slot.d_hits
          before)

  launch_epoch-Sound :
      (k : ℕ) (s : Impl F)
      → Sound s
      → IsReset (s.slots k)
      → Sound (launch_epoch sodium runtime field to_fe dev steps k s).1
  unfolding launch_epoch
  launch_epoch-Sound k s h (zeroed, none_read) =
      let slot = s.slots k in
      let ids = runtime.order s.cuda_calls in
      let hits =
        launch field dev steps s.knobs.threads ids slot.d_starts slot.d_bigstep slot.d_hits in
      let written = launch-IsSlot slot s.knobs.threads ids (h.slots_ok k) zeroed in
      let ran : Slot F = record slot { d_hits = hits } in
      let read : Slot F = record ran { h_hit_count = hits.hit_count } in
      let ran_ok : IsSlot sodium patterns ran = record {
        sized = written.sized;
        good = rw none_read tt;
      } in
      let read_ok : IsSlot sodium patterns read = record {
        sized = written.sized;
        good = written.good;
      } in
      let called = cuda_called-IsSound sodium patterns low in
      let s1 = set_slot k ran (cuda_called s) in
      let h1 = set_slot-IsSound sodium patterns low k ran (cuda_called s) ran_ok (called s h) in
      let readback : Impl F → Bool × Impl F = λ s'. (true, set_slot k read s') in
      let kernel : Impl F → Bool × Impl F =
        λ s'. cuda_ok sodium runtime field to_fe dev steps readback (set_slot k ran s') in
      cuda_ok-elim SoundResult kernel s (called s h) (
        cuda_ok-elim SoundResult readback s1 (called s1 h1)
          (set_slot-IsSound sodium patterns low k read (cuda_called s1) read_ok (called s1 h1)))

  start_epoch-Sound :
      (k : ℕ) (s : Impl F)
      → Sound s
      → Sound (start_epoch sodium runtime field to_fe dev steps k s).1
  unfolding start_epoch
  start_epoch-Sound k s h =
      let a0 = clamp (sodium.randombytes s.calls 32) in
      let drawn : Impl F = record s { calls = s.calls + 1 } in
      let ready = setup_epoch sodium runtime field to_fe dev steps k a0 drawn in
      let made =
        setup_epoch-IsSetUp k a0 drawn
          (record { reported = h.reported; slots_ok = h.slots_ok; later = h.later }) in
      elim (Bool-cases ready.0) [
        | inl good ↦ rw good (launch_epoch-Sound k ready.1 made.sound (made.ready good))
        | inr bad ↦ rw bad made.sound
      ]

  count_failed-Sound :
      (s : Impl F) → Sound s → Sound (count_failed sodium runtime field to_fe dev steps s)
  unfolding count_failed
  count_failed-Sound s h =
      let asked =
        IsSound-le sodium patterns (low + 1) low (polled s) (omega arith)
          (polled-IsSound sodium patterns low s h) in
      elim (Bool-cases (runtime.stopped s.polls)) [
        | inl stop ↦ rw stop asked
        | inr on ↦ rw on (dropped-IsSound sodium patterns low (polled s) asked)
      ]

  pub begin_epoch-Sound :
      (k : ℕ) (s : Impl F)
      → Sound s
      → Sound (begin_epoch sodium runtime field to_fe dev steps k s).1
  unfolding begin_epoch
  begin_epoch-Sound k s h =
      let asked =
        IsSound-le sodium patterns (low + 1) low (polled s) (omega arith)
          (polled-IsSound sodium patterns low s h) in
      let begun =
        if runtime.stopped s.polls
        then (false, polled s)
        else start_epoch sodium runtime field to_fe dev steps k (polled s) in
      let sound : Sound begun.1 = elim (Bool-cases (runtime.stopped s.polls)) [
        | inl stop ↦ rw stop asked
        | inr on ↦ rw on (start_epoch-Sound k (polled s) asked)
      ] in
      elim (Bool-cases begun.0) [
        | inl good ↦ rw good sound
        | inr bad ↦ rw bad (count_failed-Sound begun.1 sound)
      ]

-- ===== src/Cuda/Engine/Run.antt =====
-- `setup_epoch`, `launch_epoch`, `drain_epoch` and `run`. The outcomes of the CUDA calls, the order
-- in which the threads of a launch come to the counter, and the answers of `stop_requested()` are
-- functions of the number of the call.
use cpp_onion.Base.{
  ℕ, zero, suc, ◌+◌, ◌*◌, ◌%◌, Bool, true, false, Option, none, some, List, ltb, ◌==◌,
  if◌then◌else◌, take, min, u64, ◌||◌,
}
use cpp_onion.Crypto.Field.{Fe}
use cpp_onion.Crypto.Point.{ge_scalarmult_base, ge_to_cached_affine}
use cpp_onion.Crypto.Incremental.{eight}
use cpp_onion.Crypto.Keys.{Sodium, clamp}
use cpp_onion.Engine.{set_total}
use cpp_onion.Cuda.Device.{DeviceField}
use cpp_onion.Cuda.Bridge.{to_device_cached}
use cpp_onion.Cuda.Kernel.{DevPattern, max_hit_slots, is_negative}
use cpp_onion.Cuda.Engine.{Slot, Impl, set_slot, setup_points, launch, push_hits}

-- What the engine cannot choose.
pub record Runtime : Type 0 where
  pub succeeds : ℕ → Bool
  pub order : ℕ → List ℕ
  pub stopped : ℕ → Bool

-- `kPipelineDepth`
abbrev pub pipeline_depth : ℕ
pipeline_depth = 2

module _ {F : Type 0} where
  abbrev pub cuda_called : Impl F → Impl F
  cuda_called s = record s { cuda_calls = s.cuda_calls + 1 }

  abbrev pub polled : Impl F → Impl F
  polled s = record s { polls = s.polls + 1 }

  abbrev pub dropped : Impl F → Impl F
  dropped s = record s { dropped_epoch_errors = u64 (s.dropped_epoch_errors + 1) }

module _ (sodium : Sodium) (runtime : Runtime) {F : Type 0} (field : DeviceField F) (to_fe : Fe → F)
    (patterns : List DevPattern) (steps : ℕ) where
  -- `CUDA_OK`: the call, and what comes after it when it has succeeded.
  unfoldable pub cuda_ok : (Impl F → Bool × Impl F) → Impl F → Bool × Impl F
  cuda_ok next s =
      if runtime.succeeds s.cuda_calls then next (cuda_called s) else (false, cuda_called s)

  -- The three copies of `setup_epoch`, between which the slot passes through these states.
  unfoldable pub upload_epoch : ℕ → Slot F → Slot F → Slot F → Slot F → Impl F → Bool × Impl F
  unfolding cuda_ok
  upload_epoch k staged with_starts reset uploaded s =
      cuda_ok
        (λ s1.
          cuda_ok (λ s2. cuda_ok (λ s3. (true, set_slot k uploaded s3)) (set_slot k reset s2))
            (set_slot k with_starts s1))
        (set_slot k staged s)

  unfoldable pub setup_epoch : ℕ → List ℕ → Impl F → Bool × Impl F
  unfolding upload_epoch setup_points to_device_cached
  setup_epoch k a0 s =
      let step8b_p3 = ge_scalarmult_base eight in
      let step8b = ge_to_cached_affine step8b_p3 in
      let threads = s.knobs.threads in
      let slot = s.slots k in
      let made =
        setup_points to_fe threads 0 threads step8b (ge_scalarmult_base a0) step8b_p3
          slot.h_starts in
      let bigstep = to_device_cached to_fe (ge_to_cached_affine made.1) in
      let staged = record slot { a0 = a0; h_starts = made.0; h_bigstep = bigstep } in
      let with_starts = record staged { d_starts = made.0 } in
      let reset = record with_starts { d_bigstep = bigstep; h_hit_count = 0 } in
      upload_epoch k staged with_starts reset
        (record reset { d_hits = record reset.d_hits { hit_count = 0 } }) s

  -- The launch runs the kernel when it succeeds; then the counter is read back.
  unfoldable pub launch_epoch : ℕ → Impl F → Bool × Impl F
  unfolding cuda_ok launch
  launch_epoch k s =
      let slot = s.slots k in
      let ran = record slot {
        d_hits =
            launch field patterns steps s.knobs.threads (runtime.order s.cuda_calls) slot.d_starts
              slot.d_bigstep slot.d_hits;
      } in
      let read = record ran { h_hit_count = ran.d_hits.hit_count } in
      cuda_ok (λ s1. cuda_ok (λ s2. (true, set_slot k read s2)) (set_slot k ran s1)) s

  -- After the synchronisation: the hits that were recorded, if `hit_count` is positive.
  unfoldable pub drain_hits : ℕ → Impl F → Bool × Impl F
  unfolding cuda_ok push_hits
  drain_hits k s =
      let slot = s.slots k in
      let n = min slot.h_hit_count max_hit_slots in
      let counted = record s {
        hit_overflow_events =
            if ltb max_hit_slots slot.h_hit_count
            then u64 (s.hit_overflow_events + 1)
            else s.hit_overflow_events;
      } in
      let copied = record slot { h_slots = take n slot.d_hits.slots } in
      if slot.h_hit_count == 0 || is_negative slot.h_hit_count
      then (true, s)
      else cuda_ok (λ s1. (true, push_hits sodium slot.a0 copied.h_slots (set_slot k copied s1)))
          counted

  unfoldable pub drain_epoch : ℕ → Impl F → Bool × Impl F
  unfolding drain_hits
  drain_epoch k s = cuda_ok (drain_hits k) s

  -- `start_epoch`
  unfoldable pub start_epoch : ℕ → Impl F → Bool × Impl F
  unfolding setup_epoch launch_epoch clamp
  start_epoch k s =
      let a0 = clamp (sodium.randombytes s.calls 32) in
      let ready = setup_epoch k a0 (record s { calls = s.calls + 1 }) in
      if ready.0 then launch_epoch k ready.1 else ready

  -- The second poll, after an epoch that did not start.
  unfoldable pub count_failed : Impl F → Impl F
  count_failed s = if runtime.stopped s.polls then polled s else dropped (polled s)

  -- `live = !stop.stop_requested() && start_epoch(k)` and the line after it.
  unfoldable pub begin_epoch : ℕ → Impl F → Bool × Impl F
  unfolding start_epoch count_failed
  begin_epoch k s =
      let begun = if runtime.stopped s.polls then (false, polled s) else start_epoch k (polled s) in
      if begun.0 then begun else (false, count_failed begun.1)

  -- `if (!s.drain_epoch(cur)) ++s.dropped_epoch_errors;`
  unfoldable pub finish_epoch : ℕ → Impl F → Impl F
  unfolding drain_epoch
  finish_epoch k s = let r = drain_epoch k s in if r.0 then r.1 else dropped r.1

  -- The loop of `run`, on fuel; `none` when it runs out.
  unfoldable pub run_loop : ℕ → ℕ → Bool → ℕ → Impl F → Option (Impl F)
  unfolding begin_epoch finish_epoch
  run_loop zero cur live total s = none
  run_loop (suc fuel) cur false total s = some s
  run_loop (suc fuel) cur true total s =
      let nxt = (cur + 1) % pipeline_depth in
      let next = begin_epoch nxt (polled s) in
      let harvested = finish_epoch cur next.1 in
      let sum = u64 (total + u64 (s.knobs.threads * steps)) in
      let counted = record harvested { stats = set_total s.knobs.stats_slot sum harvested.stats } in
      let rest = run_loop fuel nxt next.0 sum counted in
      if runtime.stopped s.polls then some (polled s) else rest

  -- `run` of an engine whose `init` has succeeded.
  unfoldable pub run : ℕ → Impl F → Option (Impl F)
  unfolding run_loop
  run fuel s = let first = begin_epoch 0 s in run_loop fuel 0 first.0 0 first.1

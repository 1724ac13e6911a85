-- ===== src/Cuda/Engine/Stop.antt =====
-- The engine ends once a stop is requested, whatever CUDA does.
use cpp_onion.Base.{
  ℕ, zero, suc, ◌+◌, ◌-◌, ◌*◌, ◌%◌, ◌<◌, ◌≤◌, ◌≡◌, refl, arith, Bool, true, false, Bool-cases, inl,
  inr, Option, some, List, All, map, u64, ltb, ltb→lt,
}
use cpp_onion.Core.Matcher.{CompiledPattern}
use cpp_onion.Crypto.Field.{Fe}
use cpp_onion.Crypto.Keys.{Sodium}
use cpp_onion.Engine.{set_total}
use cpp_onion.Engine.Candidates.{IsReported}
use cpp_onion.Io.Verifier.Checks.{true-false}
use cpp_onion.Cuda.Device.{DeviceField}
use cpp_onion.Cuda.Kernel.{DevPattern}
use cpp_onion.Cuda.Engine.{Impl, dev_pattern}
use cpp_onion.Cuda.Engine.Run.{
  Runtime, polled, pipeline_depth, begin_epoch, finish_epoch, run_loop, run,
}
use cpp_onion.Cuda.Engine.Sound.{IsSlot, IsSound, polled-IsSound, IsSound-le}
use cpp_onion.Cuda.Engine.Epochs.{begin_epoch-Sound}
use cpp_onion.Cuda.Engine.Drain.{finish_epoch-Sound}

module _ (sodium : Sodium) (runtime : Runtime) {F : Type 0} (field : DeviceField F) (to_fe : Fe → F)
    (patterns : List CompiledPattern) (steps stop : ℕ)
    (stopped : (n : ℕ) → stop ≤ n → runtime.stopped n ≡ true) where
  abbrev dev : List DevPattern
  dev = map dev_pattern patterns

  -- A run that has ended, with sound candidates.
  abbrev Ended : Option (Impl F) → Type 0
  Ended r = (s : Impl F) × (r ≡ some s) × All (IsReported sodium patterns) s.results

  run_loop-Ended :
      (fuel cur : ℕ) (live : Bool) (total : ℕ) (s : Impl F)
      → stop - s.polls < fuel
      → IsSound sodium patterns 0 s
      → Ended (run_loop sodium runtime field to_fe dev steps fuel cur live total s)
  unfolding run_loop
  run_loop-Ended zero cur live total s enough h = absurd (omega arith)
  run_loop-Ended (suc fuel) cur false total s enough h = (s, refl, h.reported)
  run_loop-Ended (suc fuel) cur true total s enough h =
      let here : IsSound sodium patterns s.polls s = record {
        reported = h.reported;
        slots_ok = h.slots_ok;
        later = omega arith;
      } in
      let low = s.polls + 1 in
      let nxt = (cur + 1) % pipeline_depth in
      let asked = polled-IsSound sodium patterns s.polls s here in
      let next = begin_epoch sodium runtime field to_fe dev steps nxt (polled s) in
      let begun =
        begin_epoch-Sound sodium runtime field to_fe patterns steps low nxt (polled s) asked in
      let harvested = finish_epoch sodium runtime field to_fe dev steps cur next.1 in
      let kept =
        finish_epoch-Sound sodium runtime field to_fe patterns steps low cur next.1 begun in
      let sum = u64 (total + u64 (s.knobs.threads * steps)) in
      let counted : Impl F = record harvested {
        stats = set_total s.knobs.stats_slot sum harvested.stats;
      } in
      let counted_ok : IsSound sodium patterns 0 counted = record {
        reported = kept.reported;
        slots_ok = kept.slots_ok;
        later = omega arith;
      } in
      elim (Bool-cases (runtime.stopped s.polls)) [
        | inl over ↦ rw over (polled s, refl, h.reported)
        | inr on ↦
            let before : s.polls < stop = elim (Bool-cases (ltb s.polls stop)) [
              | inl less ↦ ltb→lt s.polls stop less
              | inr past ↦
                  let ge : stop ≤ s.polls = ground arith in
                  absurd (true-false (stopped s.polls ge) on)
            ] in
            let polls : s.polls + 1 ≤ harvested.polls = kept.later in
            rw on (
              run_loop-Ended fuel nxt next.0 sum counted (omega (arith, enough, before, polls))
                counted_ok)
      ]

  -- With more fuel than there are polls before the stop, `run` ends, whichever CUDA calls fail and in whatever order the threads come to the
  -- counter; and all candidates it has pushed have the key of their secret and the index of a pattern.
  pub run-Ended :
      (fuel : ℕ) (s : Impl F)
      → stop - s.polls < fuel
      → All (IsReported sodium patterns) s.results
      → ((k : ℕ) → IsSlot sodium patterns (s.slots k))
      → (s' : Impl F) × (run sodium runtime field to_fe dev steps fuel s ≡ some s')
        × All (IsReported sodium patterns) s'.results
  unfolding run
  run-Ended fuel s enough reported slots_ok =
      let here : IsSound sodium patterns s.polls s = record {
        reported = reported;
        slots_ok = slots_ok;
        later = omega arith;
      } in
      let first = begin_epoch sodium runtime field to_fe dev steps 0 s in
      let begun = begin_epoch-Sound sodium runtime field to_fe patterns steps s.polls 0 s here in
      let polls : s.polls ≤ first.1.polls = begun.later in
      run_loop-Ended fuel 0 first.0 0 first.1 (omega (arith, enough, polls))
        (IsSound-le sodium patterns s.polls 0 first.1 (omega arith) begun)

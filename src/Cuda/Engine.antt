-- ===== src/Cuda/Engine.antt =====
-- src/engine/cuda/cuda_engine.cu: the host side of the search on a graphics card. A buffer is a
-- function of the index. What is enqueued on a stream takes effect in the order of the calls; each
-- pipeline slot has buffers and a stream of its own, so work of one slot does not touch the other.
pub mod Run
pub mod Start
pub mod Sound
pub mod Epochs
pub mod Drain
pub mod Patterns
pub mod Stop
pub mod Cover
mod Tests
use cpp_onion.Base.{
  ℕ, zero, suc, ◌+◌, ◌-◌, ◌*◌, ◌^◌, Bool, true, false, Option, none, some, List, [], ◌∷◌, ltb, leb,
  ◌==◌, if◌then◌else◌, foldl, take, replicate, min, length, map, u64, get_or, ◌&&◌, not,
}
use cpp_onion.Core.Matcher.{CompiledPattern}
use cpp_onion.Crypto.Field.{Fe}
use cpp_onion.Crypto.Point.{GeP3, GeCachedAffine, ge_madd, ge_scalarmult_base, ge_to_cached_affine}
use cpp_onion.Crypto.Incremental.{eight, scalar_add_8i}
use cpp_onion.Crypto.Keys.{Sodium, ExpandedSecretKey, clamp, pubkey_from_scalar}
use cpp_onion.Engine.{MatchCandidate, ResultQueue, StatsBoard, push, set_total}
use cpp_onion.Cuda.Device.{DevicePoint, DeviceAddend, DeviceField}
use cpp_onion.Cuda.Bridge.{to_device_p3, to_device_cached}
use cpp_onion.Cuda.Kernel.{DevPattern, HitSlot, Hits, max_hit_slots, is_negative, search_kernel}

-- `CudaKnobs`; a count that is not positive is 0 here.
pub record CudaKnobs : Type 0 where
  pub threads : ℕ
  pub block : ℕ
  pub stats_slot : ℕ
  pub blocking_sync : Bool

-- The default member initializers.
abbrev pub default_knobs : CudaKnobs
default_knobs = record { threads = 2 ^ 14; block = 128; stats_slot = 0; blocking_sync = false }

-- What `std::atoi` gives for the environment variables that are set: an `int` as its two's complement
-- word of 32 bits.
pub record Environment : Type 0 where
  pub threads : Option ℕ
  pub block : Option ℕ
  pub blocking_sync : Option ℕ

-- An override is taken when it is positive.
abbrev pub positive_or : Option ℕ → ℕ → ℕ
positive_or none n = n
positive_or (some v) n = if ltb 0 v && not (is_negative v) then v else n

abbrev pub flag_or : Option ℕ → Bool → Bool
flag_or none b = b
flag_or (some v) b = not (v == 0)

-- The knobs of `init`; the first bump is of the field with words of 32 bits.
unfoldable pub adjust_knobs : Bool → Environment → CudaKnobs → CudaKnobs
adjust_knobs field32 env k =
    let bumped =
      if field32 then (if k.threads == 2 ^ 14 then 2 ^ 15 else k.threads) else k.threads in
    record k {
      threads = positive_or env.threads bumped;
      block = positive_or env.block k.block;
      blocking_sync = flag_or env.blocking_sync k.blocking_sync;
    }

-- `kMaxConstPatterns`
abbrev pub max_const_patterns : ℕ
max_const_patterns = 16

-- The device's form of a pattern.
unfoldable pub dev_pattern : CompiledPattern → DevPattern
dev_pattern src = record { bytes = take 32 src.bytes; mask = take 32 src.mask; nbytes = src.nbytes }

-- `init`: the knobs and the uploaded patterns, or `none` for `false`. The last argument tells whether the
-- upload and all the allocations succeed.
unfoldable pub init :
    Bool
    → Environment
    → List CompiledPattern
    → CudaKnobs
    → Bool
    → Option (CudaKnobs × List DevPattern)
unfolding adjust_knobs dev_pattern
init field32 env patterns knobs allocated =
    let k = adjust_knobs field32 env knobs in
    if length patterns == 0
    then none
    else if ltb max_const_patterns (length patterns)
    then none
    else if k.threads == 0
    then none
    else if k.block == 0
    then none
    else if allocated
    then some (k, map dev_pattern patterns)
    else none

-- The buffers of a pipeline slot.
pub record Slot (F : Type 0) : Type 0 where
  pub a0 : List ℕ
  pub h_starts : ℕ → DevicePoint F
  pub h_bigstep : DeviceAddend F
  pub d_starts : ℕ → DevicePoint F
  pub d_bigstep : DeviceAddend F
  pub d_hits : Hits
  pub h_hit_count : ℕ
  pub h_slots : List HitSlot

-- `Impl`, with the number of calls of `randombytes_buf`, of CUDA and of `stop_requested` so far.
pub record Impl (F : Type 0) : Type 0 where
  pub knobs : CudaKnobs
  pub results : ResultQueue
  pub stats : StatsBoard
  pub slots : ℕ → Slot F
  pub dropped_epoch_errors : ℕ
  pub dropped_degenerate : ℕ
  pub hit_overflow_events : ℕ
  pub calls : ℕ
  pub cuda_calls : ℕ
  pub polls : ℕ

-- `array[i] = v`
abbrev pub store {ℓ} : {A : Type ℓ} → (ℕ → A) → ℕ → A → ℕ → A
store array i v k = if k == i then v else array k

module _ {F : Type 0} where
  abbrev pub set_slot : ℕ → Slot F → Impl F → Impl F
  set_slot k slot s = record s { slots = store s.slots k slot }

-- The loop of `setup_epoch`, with `left` rounds to go.
unfoldable pub setup_points :
    {F : Type 0}
    → (Fe → F)
    → ℕ
    → ℕ
    → ℕ
    → GeCachedAffine
    → GeP3
    → GeP3
    → (ℕ → DevicePoint F)
    → (ℕ → DevicePoint F) × GeP3
unfolding to_device_p3
setup_points to_fe zero t threads step8b cur bigstep starts = (starts, bigstep)
setup_points to_fe (suc left) t threads step8b cur bigstep starts =
    setup_points to_fe left (t + 1) threads step8b (ge_madd cur step8b)
      (if ltb (t + 1) threads then ge_madd bigstep step8b else bigstep)
      (store starts t (to_device_p3 to_fe cur))

-- `search_kernel` on all threads of the grid, in the order `ids`; and the reset of the counter
-- before.
unfoldable pub launch :
    {F : Type 0}
    → DeviceField F
    → List DevPattern
    → ℕ
    → ℕ
    → List ℕ
    → (ℕ → DevicePoint F)
    → DeviceAddend F
    → Hits
    → Hits
unfolding search_kernel
launch field patterns steps threads ids starts bigstep h =
    foldl (λ (g : Hits) (t : ℕ). search_kernel field patterns steps starts bigstep threads t g) h
      ids

-- The candidate index of a hit.
abbrev pub hit_index : ℕ → HitSlot → ℕ
hit_index threads hit = u64 (hit.t + u64 (hit.j * threads))

module _ (sodium : Sodium) {F : Type 0} where
  -- The rest of a round of the loop in `drain_epoch`, from the public key.
  unfoldable pub push_hit : List ℕ → ℕ → Option (List ℕ) → Impl F → Impl F
  push_hit scalar pattern_index none s = record s {
    dropped_degenerate = u64 (s.dropped_degenerate + 1);
  }
  push_hit scalar pattern_index (some pk) s =
      let secret : ExpandedSecretKey = record {
        scalar = scalar;
        prf_prefix = sodium.randombytes s.calls 32;
      } in
      record s {
        calls = s.calls + 1;
        results =
            push sodium
              (record { secret = secret; claimed_pubkey = pk; pattern_index = pattern_index })
              s.results;
      }

  -- The loop over the hits.
  unfoldable pub push_hits : List ℕ → List HitSlot → Impl F → Impl F
  unfolding push_hit
  push_hits a0 [] s = s
  push_hits a0 (hit ∷ hits) s =
      let scalar = scalar_add_8i a0 (hit_index s.knobs.threads hit) in
      push_hits a0 hits (push_hit scalar hit.pattern_index (pubkey_from_scalar sodium scalar) s)

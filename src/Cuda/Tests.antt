-- ===== src/Cuda/Tests.antt =====
-- The device code at concrete inputs.
use cpp_onion.Base.{
  ℕ, ◌+◌, ◌-◌, ◌*◌, ◌/◌, ◌%◌, ◌^◌, ◌<◌, ◌≤◌, ◌≡◌, refl, arith, true, some, List, [], ◌∷◌, map,
  replicate, All, leb, ltb,
}
use cpp_onion.Crypto.Field.{Fe, fe_to_bytes}
use cpp_onion.Crypto.Field.Value.{prime, value, ◌≅◌}
use cpp_onion.Crypto.Point.{d2, ge_basepoint}
use cpp_onion.Crypto.Point.Tests.{addend, two-IsFinite}
use cpp_onion.Engine.Candidates.{IsReported}
use cpp_onion.Engine.Tests.{toy, patterns}
use cpp_onion.Cuda.Device.{DevicePoint, DeviceAddend}
use cpp_onion.Cuda.Field32.{fed_d2, fed_add, fed_sub, fed_mul, fed_to_bytes}
use cpp_onion.Cuda.Field32.Loops.{word_value}
use cpp_onion.Cuda.Field32.Sums.{IsElement, missed, fed_sub-value}
use cpp_onion.Cuda.Field32.Products.{folded, fed_mul-value}
use cpp_onion.Cuda.Field51.{field51}
use cpp_onion.Cuda.Field51.Port.{field51_laws}
use cpp_onion.Cuda.Field51.Walk.{batch_points-AllFinite}
use cpp_onion.Cuda.Bridge.{to_device_fe, to_device_fe32, to_device_p3, to_device_cached}
use cpp_onion.Cuda.Bridge.Value.{fed_to_bytes-to_device_fe32}
use cpp_onion.Cuda.Kernel.{DevPattern, HitSlot, Hits, search_thread, legacy_thread}
use cpp_onion.Cuda.Kernel.Walk.{AllFinite, search_each}
use cpp_onion.Cuda.Kernel.Fused.{search_thread-each}
use cpp_onion.Cuda.Kernel.Legacy.{search_thread-legacy_thread}
use cpp_onion.Cuda.Kernel.Count.{matching, search_thread-hit_count}
use cpp_onion.Cuda.Engine.{dev_pattern, hit_index, default_knobs, Slot, Impl}
use cpp_onion.Cuda.Engine.Run.{Runtime, run}
use cpp_onion.Cuda.Engine.Stop.{run-Ended}
use cpp_onion.Cuda.Engine.Cover.{hit_index-covers}

-- Words of 32 bits.
abbrev ones : List ℕ
ones = replicate 8 (2 ^ 32 - 1)

abbrev three : List ℕ
three = 3 ∷ replicate 7 0

ones_ok : IsElement ones
ones_ok = record { words = omega arith; eight = omega arith }

three_ok : IsElement three
three_ok = record { words = omega arith; eight = omega arith }

fed_mul-value_example :
    (word_value (fed_mul ones three)
        + 37 * (folded (folded (word_value ones * word_value three)) / 2 ^ 256)
      ≅ word_value ones * word_value three)
    × IsElement (fed_mul ones three)
fed_mul-value_example = fed_mul-value ones three ones_ok three_ok

fed_sub-value_example :
    (word_value (fed_sub three ones) + word_value ones
      ≅ word_value three + missed (ltb (word_value three + 2 * prime) (word_value ones)))
    × IsElement (fed_sub three ones)
fed_sub-value_example = fed_sub-value three ones three_ok ones_ok

-- A difference whose second operand is beyond twice the prime is 38 too large.
sub_short : word_value (fed_sub (replicate 8 0) ones) + word_value ones ≅ 38
unfolding fed_sub
sub_short = refl

-- A sum from 2^257 - 38 on is 38 short.
add_short : word_value (fed_add ones ones) + 38 ≅ word_value ones + word_value ones
unfolding fed_add
add_short = refl

-- The words of 2^256 / 37, rounded up: the product with 2^256 - 1 is 37 short.
abbrev thirty_seventh : List ℕ
thirty_seventh =
    0xeb3e4531 ∷ 0xb3e45306 ∷ 0x3e45306e ∷ 0xe45306eb ∷ 0x45306eb3 ∷ 0x5306eb3e ∷ 0x306eb3e4
    ∷ 0x6eb3e45 ∷ []

mul_short :
    word_value (fed_mul ones thirty_seventh) + 37 ≅ word_value ones * word_value thirty_seventh
unfolding fed_mul
mul_short = refl

fed_to_bytes-to_device_fe32_example :
    (word_value (to_device_fe32 ge_basepoint.y) ≡ value ge_basepoint.y % prime)
    × IsElement (to_device_fe32 ge_basepoint.y)
    × (fed_to_bytes (to_device_fe32 ge_basepoint.y) ≡ fe_to_bytes ge_basepoint.y)
fed_to_bytes-to_device_fe32_example = fed_to_bytes-to_device_fe32 ge_basepoint.y (omega arith)

-- Both device fields have the same constant.
d2_same : word_value fed_d2 ≡ value d2
unfolding fed_d2
d2_same = refl

-- A kernel over two points, the base point and twice it.
abbrev first_point : DevicePoint Fe
first_point = to_device_p3 to_device_fe ge_basepoint

abbrev step : DeviceAddend Fe
step = to_device_cached to_device_fe addend

abbrev dev : List DevPattern
dev = map dev_pattern patterns

abbrev no_hit : HitSlot
no_hit = record { t = 0; j = 0; pattern_index = 0 }

abbrev no_hits : Hits
no_hits = record { slots = replicate 256 no_hit; hit_count = 0 }

finite : AllFinite field51 step field51_laws 2 first_point
finite = batch_points-AllFinite 2 ge_basepoint addend two-IsFinite

search_thread-each_example :
    search_thread field51 dev 2 7 first_point step no_hits
    ≡ search_each field51 step dev 7 first_point 2 no_hits
search_thread-each_example =
    search_thread-each field51 field51_laws dev step 2 7 first_point no_hits finite

search_thread-legacy_thread_example :
    search_thread field51 dev 2 7 first_point step no_hits
    ≡ legacy_thread field51 dev 2 7 first_point step no_hits
search_thread-legacy_thread_example =
    search_thread-legacy_thread field51 field51_laws dev step 2 7 first_point no_hits (omega arith)
      finite

search_thread-hit_count_example :
    (search_thread field51 dev 2 7 first_point step no_hits).hit_count
    ≡ 0 + matching field51 field51_laws dev step 2 first_point
search_thread-hit_count_example =
    search_thread-hit_count field51 field51_laws dev step 2 7 first_point no_hits (omega arith)
      finite

hit_index-covers_example :
    (hit_index 3 (record { t = 1; j = 2; pattern_index = 0 }) < 4 * 3)
    × (hit_index 3 (record { t = 1; j = 2; pattern_index = 0 }) % 3 ≡ 1)
    × (hit_index 3 (record { t = 1; j = 2; pattern_index = 0 }) / 3 ≡ 2)
    × (hit_index 3 (record { t = 8 % 3; j = 8 / 3; pattern_index = 0 }) ≡ 8)
    × (8 % 3 < 3)
    × (8 / 3 < 4)
hit_index-covers_example =
    hit_index-covers 3 4 (omega arith) (omega arith) 1 2 0 8 (omega arith) (omega arith)
      (omega arith)

-- An engine that is stopped at the third poll.
abbrev third_poll : Runtime
third_poll = record { succeeds = λ k. true; order = λ k. 0 ∷ (1 ∷ []); stopped = λ n. leb 2 n }

stopped_from : (n : ℕ) → 2 ≤ n → leb 2 n ≡ true
stopped_from n h = ground (arith, h)

abbrev idle_slot : Slot Fe
idle_slot = record {
  a0 = [];
  h_starts = λ t. first_point;
  h_bigstep = step;
  d_starts = λ t. first_point;
  d_bigstep = step;
  d_hits = no_hits;
  h_hit_count = 0;
  h_slots = [];
}

abbrev idle : Impl Fe
idle = record {
  knobs = record default_knobs { threads = 2; block = 1 };
  results = [];
  stats = 0 ∷ [];
  slots = λ k. idle_slot;
  dropped_epoch_errors = 0;
  dropped_degenerate = 0;
  hit_overflow_events = 0;
  calls = 0;
  cuda_calls = 0;
  polls = 0;
}

run-Ended_example :
    (s : Impl Fe) × (run toy third_poll field51 to_device_fe dev 2 3 idle ≡ some s)
    × All (IsReported toy patterns) s.results
run-Ended_example =
    run-Ended toy third_poll field51 to_device_fe patterns 2 2 stopped_from 3 idle (omega arith) tt
      (λ k. record { sized = omega arith; good = tt })

-- ===== src/Cuda/Kernel.antt =====
-- src/engine/cuda/search_kernel.cu: what one thread of the search kernel does, with the default
-- inversion of its points and with the one of `ONION_CUDA_NO_FUSED_COMBO`, and the threads of a
-- launch. The atomic counter makes each record of a hit one step, in some order of the threads.
pub mod Walk
pub mod Fused
pub mod Legacy
pub mod Recorded
pub mod Count
use cpp_onion.Base.{
  ℕ, zero, suc, ◌+◌, ◌-◌, ◌*◌, ◌/◌, bit_and, Bool, true, false, not, List, [], ◌∷◌, ltb, leb, ◌==◌,
  if◌then◌else◌, get_or, set, map, foldl, ◌^◌, ◌||◌, u32,
}
use cpp_onion.Core.Matcher.{CompiledPattern}
use cpp_onion.Cuda.Device.{DevicePoint, DeviceAddend, DeviceField, invert, madd, one_bytes}

-- `kMaxHitSlots`
abbrev pub max_hit_slots : ℕ
max_hit_slots = 256

pub record DevPattern : Type 0 where
  pub bytes : List ℕ
  pub mask : List ℕ
  pub nbytes : ℕ

pub record HitSlot : Type 0 where
  pub t : ℕ
  pub j : ℕ
  pub pattern_index : ℕ

-- `slots` and `hit_count` of a launch; an `int` is its two's complement word of 32 bits.
pub record Hits : Type 0 where
  pub slots : List HitSlot
  pub hit_count : ℕ

-- The loop over the masked bytes from byte `b` on, with `left` rounds to go.
unfoldable pub masked_equal : DevPattern → List ℕ → ℕ → ℕ → Bool
masked_equal pat enc zero b = true
masked_equal pat enc (suc left) b =
    if not (bit_and (get_or enc b 0) (get_or pat.mask b 0) == get_or pat.bytes b 0)
    then false
    else masked_equal pat enc left (b + 1)

abbrev pub is_negative : ℕ → Bool
is_negative x = leb (2 ^ 31) x

-- `atomicAdd`, which wraps around, and the write of the slot. A negative `slot` passes the test; where
-- its write would go is not in `slots`, which it leaves alone here.
unfoldable pub record_hit : HitSlot → Hits → Hits
record_hit hit h =
    let slot = h.hit_count in
    record {
      slots = if is_negative slot || ltb slot max_hit_slots then set h.slots slot hit else h.slots;
      hit_count = u32 (slot + 1);
    }

-- The loop over the patterns from index `p` on: the first match is recorded, and no other.
unfoldable pub match_patterns : List ℕ → ℕ → ℕ → ℕ → List DevPattern → Hits → Hits
unfolding masked_equal record_hit
match_patterns enc t j p [] h = h
match_patterns enc t j p (pat ∷ rest) h =
    let next = match_patterns enc t j (p + 1) rest h in
    if masked_equal pat enc pat.nbytes 0
    then record_hit (record { t = t; j = j; pattern_index = p }) h
    else next

-- What the forward loop of the default kernel leaves.
pub record Forward (F : Type 0) : Type 0 where
  pub combo : List F
  pub zs : List F
  pub pe : F

module _ {F : Type 0} (field : DeviceField F) where
  -- `combo[j] = Y * pe; zs[j] = Z; pe = pe * Z; cur = cur + step`
  unfoldable pub forward : DeviceAddend F → ℕ → DevicePoint F → F → Forward F
  forward step zero cur pe = record { combo = []; zs = []; pe = pe }
  forward step (suc n) cur pe =
      let rest = forward step n (madd field cur step) (field.mul pe cur.z) in
      record { combo = field.mul cur.y pe ∷ rest.combo; zs = cur.z ∷ rest.zs; pe = rest.pe }

  -- The loop that walks in the other variant.
  unfoldable pub walk_points : DeviceAddend F → ℕ → DevicePoint F → List (DevicePoint F)
  walk_points step zero cur = []
  walk_points step (suc n) cur = cur ∷ walk_points step n (madd field cur step)

  -- `prefix[i] = prefix[i - 1] * zs[i]`
  unfoldable pub prefixes : F → List F → List F
  prefixes last [] = []
  prefixes last (z ∷ zs) = let next = field.mul last z in next ∷ prefixes next zs

  unfoldable pub prefix_array : List F → List F
  unfolding prefixes
  prefix_array [] = []
  prefix_array (z ∷ zs) = z ∷ prefixes z zs

module _ {F : Type 0} (field : DeviceField F) (patterns : List DevPattern) where
  unfoldable pub match_and_record : F → ℕ → ℕ → Hits → Hits
  unfolding match_patterns
  match_and_record y t j h = match_patterns (field.to_bytes y) t j 0 patterns h

  -- The loop downwards, with `i` rounds left.
  unfoldable pub fused_back : List F → List F → ℕ → ℕ → F → Hits → Hits
  unfolding match_and_record
  fused_back combo zs t zero run h = h
  fused_back combo zs t (suc zero) run h =
      match_and_record (field.mul run (get_or combo 0 run)) t 0 h
  fused_back combo zs t (suc (suc i)) run h =
      fused_back combo zs t (suc i) (field.mul run (get_or zs (suc i) run))
        (match_and_record (field.mul run (get_or combo (suc i) run)) t (suc i) h)

  -- `search_kernel` on thread `t`, for `m` steps.
  unfoldable pub search_thread : ℕ → ℕ → DevicePoint F → DeviceAddend F → Hits → Hits
  unfolding forward fused_back
  search_thread m t cur step h =
      let walk = forward field step m cur (field.from_bytes one_bytes) in
      fused_back walk.combo walk.zs t m (invert field walk.pe) h

  unfoldable pub legacy_back : List F → List F → List F → ℕ → ℕ → F → Hits → Hits
  unfolding match_and_record
  legacy_back ys zs prefix t zero inv h = h
  legacy_back ys zs prefix t (suc zero) inv h =
      match_and_record (field.mul (get_or ys 0 inv) inv) t 0 h
  legacy_back ys zs prefix t (suc (suc i)) inv h =
      let zinv = field.mul inv (get_or prefix i inv) in
      legacy_back ys zs prefix t (suc i) (field.mul inv (get_or zs (suc i) inv))
        (match_and_record (field.mul (get_or ys (suc i) inv) zinv) t (suc i) h)

  unfoldable pub legacy_thread : ℕ → ℕ → DevicePoint F → DeviceAddend F → Hits → Hits
  unfolding walk_points prefix_array legacy_back
  legacy_thread m t cur step h =
      let points = walk_points field step m cur in
      let zs = map (λ (p : DevicePoint F). p.z) points in
      let prefix = prefix_array field zs in
      legacy_back (map (λ (p : DevicePoint F). p.y) points) zs prefix t m
        (invert field (get_or prefix (m - 1) cur.z)) h

  -- A thread of the grid: the guard `t >= T`, and its start.
  unfoldable pub search_kernel : ℕ → (ℕ → DevicePoint F) → DeviceAddend F → ℕ → ℕ → Hits → Hits
  unfolding search_thread
  search_kernel m starts bigstep threads t h =
      let found = search_thread m t (starts t) bigstep h in if leb threads t then h else found

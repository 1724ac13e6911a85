-- ===== src/Engine.antt =====
-- src/engine/engine.hpp: what the engines share: candidates, the result queue and the counters.
-- The mutex makes each `push` and `pop_wait_for` one step, so the queue is a list.
pub mod Naive
pub mod Incremental
pub mod Queue
pub mod Candidates
pub mod Tests
use cpp_onion.Base.{
  ℕ, zero, suc, ◌+◌, ◌-◌, List, [], ◌∷◌, ◌++◌, Option, none, some, set, replicate, u64,
}
use cpp_onion.Crypto.Keys.{Sodium, ExpandedSecretKey, move_key}

pub record MatchCandidate : Type 0 where
  pub secret : ExpandedSecretKey
  pub claimed_pubkey : List ℕ
  pub pattern_index : ℕ

-- `StatsBoard`: one total for each worker.
abbrev pub StatsBoard : Type 0
StatsBoard = List ℕ

unfoldable pub stats_board : ℕ → StatsBoard
stats_board workers = replicate workers 0

unfoldable pub set_total : ℕ → ℕ → StatsBoard → StatsBoard
set_total worker total slots = set slots worker total

unfoldable pub sum_slots : ℕ → StatsBoard → ℕ
sum_slots sum [] = sum
sum_slots sum (slot ∷ slots) = sum_slots (u64 (sum + slot)) slots

-- `StatsBoard::total`
unfoldable pub total : StatsBoard → ℕ
unfolding sum_slots
total slots = sum_slots 0 slots

abbrev pub ResultQueue : Type 0
ResultQueue = List MatchCandidate

-- The move into the deque: the key that the queue holds is the new one.
unfoldable pub push : Sodium → MatchCandidate → ResultQueue → ResultQueue
push sodium c queue =
    queue
    ++ (record {
      secret = (move_key sodium c.secret).0;
      claimed_pubkey = c.claimed_pubkey;
      pattern_index = c.pattern_index;
    }
        ∷ [])

-- `none` when the wait has timed out with the queue still empty.
unfoldable pub pop_wait_for : Sodium → ResultQueue → Option MatchCandidate × ResultQueue
pop_wait_for sodium [] = (none, [])
pop_wait_for sodium (front ∷ queue) = (
  some (record {
    secret = (move_key sodium front.secret).0;
    claimed_pubkey = front.claimed_pubkey;
    pattern_index = front.pattern_index;
  }),
  queue,
)

-- What a worker changes: the calls of `randombytes_buf` so far, its `local_total`, the queue and the
-- counters.
pub record Worker : Type 0 where
  pub calls : ℕ
  pub local_total : ℕ
  pub results : ResultQueue
  pub stats : StatsBoard

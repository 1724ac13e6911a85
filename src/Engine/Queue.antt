-- ===== src/Engine/Queue.antt =====
-- The result queue is first in, first out, and the counters add up.
use cpp_onion.Base.{
  ℕ, zero, suc, ◌+◌, ◌%◌, ◌^◌, ◌<◌, ◌≡◌, refl, sym, arith, List, [], ◌∷◌, ◌++◌, foldl, some, length,
  set, get_or, append_assoc, append-nil, u64,
}
use cpp_onion.Crypto.Keys.{Sodium, move_key}
use cpp_onion.Engine.{
  MatchCandidate, ResultQueue, push, pop_wait_for, StatsBoard, set_total, sum_slots, total,
}

abbrev pub push_all : Sodium → List MatchCandidate → ResultQueue → ResultQueue
push_all sodium cs q = foldl (λ (r : ResultQueue) (c : MatchCandidate). push sodium c r) q cs

push_same :
    (sodium : Sodium) (c : MatchCandidate) (q : ResultQueue) → push sodium c q ≡ q ++ (c ∷ [])
unfolding push move_key
push_same sodium c q = refl

push_all_lem :
    (sodium : Sodium) (cs : List MatchCandidate) (q : ResultQueue) → push_all sodium cs q ≡ q ++ cs
push_all_lem sodium [] q = sym (append-nil q)
push_all_lem sodium (c ∷ cs) q =
    rw (push_same sodium c q, push_all_lem sodium cs (q ++ (c ∷ []))) (append_assoc q (c ∷ []) cs)

-- Whatever the candidates pushed after it, the front of the queue is what is popped, and the rest
-- keeps its order.
pub pop_wait_for-push :
    (sodium : Sodium) (front : MatchCandidate) (q : ResultQueue) (cs : List MatchCandidate)
    → pop_wait_for sodium (push_all sodium cs (front ∷ q)) ≡ (some front, push_all sodium cs q)
unfolding pop_wait_for move_key
pop_wait_for-push sodium front q cs =
    rw (push_all_lem sodium cs (front ∷ q), push_all_lem sodium cs q) refl

-- The sum of the slots, before it wraps around.
abbrev pub sum : StatsBoard → ℕ
sum [] = 0
sum (slot ∷ slots) = slot + sum slots

sum_slots_lem : (s : ℕ) (slots : StatsBoard) → sum_slots s slots % 2 ^ 64 ≡ (s + sum slots) % 2 ^ 64
unfolding sum_slots
sum_slots_lem s [] = omega arith
sum_slots_lem s (slot ∷ slots) = omega (arith, sum_slots_lem ((s + slot) % 2 ^ 64) slots)

sum_slots_lt : (s : ℕ) (slots : StatsBoard) → s < 2 ^ 64 → sum_slots s slots < 2 ^ 64
unfolding sum_slots
sum_slots_lt s [] h = h
sum_slots_lt s (slot ∷ slots) h = sum_slots_lt (u64 (s + slot)) slots (omega arith)

sum-set :
    (slots : StatsBoard) (worker v : ℕ)
    → worker < length slots
    → sum (set slots worker v) + get_or slots worker 0 ≡ sum slots + v
sum-set [] worker v h = absurd (omega arith)
sum-set (s ∷ slots) zero v h = omega arith
sum-set (s ∷ slots) (suc w) v h = omega (arith, sum-set slots w v (omega arith))

-- The total is the sum of the slots modulo 2^64; when a worker sets its slot, that slot alone is
-- replaced in the sum.
pub total-set_total :
    (slots : StatsBoard) (worker v : ℕ)
    → worker < length slots
    → (total slots ≡ sum slots % 2 ^ 64)
      × ((total (set_total worker v slots) + get_or slots worker 0) % 2 ^ 64
          ≡ (total slots + v) % 2 ^ 64)
unfolding total set_total
total-set_total slots worker v h =
    let before = sum_slots_lem 0 slots in
    let after = sum_slots_lem 0 (set slots worker v) in
    let small = sum_slots_lt 0 slots (omega arith) in
    (omega (arith, before, small), omega (arith, before, after, sum-set slots worker v h))

-- ===== src/Cuda/Engine/Cover.antt =====
-- The indices that an epoch searches.
use cpp_onion.Base.{ℕ, ◌+◌, ◌*◌, ◌/◌, ◌%◌, ◌^◌, ◌<◌, ◌≤◌, ◌≡◌, ap, ◌∙◌, arith}
use native.Mathlib.Nat.{
  mul-le-mul_right, add-mul-mod_self_left, mod-eq_of_lt, div-add-mod, mod-lt, add-mul-div_right,
  div-eq_of_lt, div-lt_iff_lt-mul,
}
use cpp_onion.Cuda.Engine.{hit_index}

module _ (threads steps : ℕ) (some_thread : 0 < threads) (fits : steps * threads < 2 ^ 64) where
  -- The index of a thread's step is below `steps * threads`, and gives the thread and the step back.
  index_of :
      (t j p : ℕ)
      → t < threads
      → j < steps
      → let n = hit_index threads (record { t = t; j = j; pattern_index = p }) in
        (n < steps * threads) × (n % threads ≡ t) × (n / threads ≡ j)
  index_of t j p ht hj =
      let top : (j + 1) * threads ≤ steps * threads =
        mul-le-mul_right threads (omega (arith, hj)) in
      let plain : hit_index threads (record { t = t; j = j; pattern_index = p }) ≡ t + j * threads =
        omega (arith, top, ht, fits) in
      rw plain (
        omega (arith, top, ht),
        ap (λ (n : ℕ). (t + n) % threads) (omega arith)
            ∙ add-mul-mod_self_left t threads j
            ∙ mod-eq_of_lt ht,
        add-mul-div_right t j some_thread ∙ omega (arith, div-eq_of_lt ht),
      )

  -- With at least one thread, and fewer than 2^64 points in an epoch: the index of a thread's step is below the number of points and
  -- gives the thread and the step back, and every number below it is the index of a thread's step.
  pub hit_index-covers :
      (t j p n : ℕ)
      → t < threads
      → j < steps
      → n < steps * threads
      → let at = λ (t' j' : ℕ). hit_index threads (record { t = t'; j = j'; pattern_index = p }) in
        (at t j < steps * threads)
        × (at t j % threads ≡ t)
        × (at t j / threads ≡ j)
        × (at (n % threads) (n / threads) ≡ n)
        × (n % threads < threads)
        × (n / threads < steps)
  hit_index-covers t j p n ht hj hn =
      let (below, thread, step) = index_of t j p ht hj in
      let low = mod-lt n some_thread in
      let high : n / threads < steps = (div-lt_iff_lt-mul some_thread).1 hn in
      let parts = div-add-mod n threads in
      (below, thread, step, omega (arith, parts, hn, fits, low), low, high)

-- ===== src/Cli.antt =====
-- src/cli/main.cpp: the command line's patterns, the choice of an engine and the loop over the results.
pub mod Patterns
pub mod Loop
mod Tests
use cpp_onion.Base.{
  ℕ, zero, suc, ◌+◌, min, Bool, true, false, not, ◌&&◌, ◌||◌, Option, none, some, List, [], ◌∷◌,
  ◌++◌, Expected, ok, unexpected, if◌then◌else◌, ltb, ◌==◌, length, same_bytes,
}
use cpp_onion.Core.Base32.{codes}
use cpp_onion.Core.Matcher.{MatcherError, CompiledPattern, compile_prefix}
use cpp_onion.Crypto.Keys.{Sodium}
use cpp_onion.Engine.{MatchCandidate, ResultQueue, pop_wait_for}
use cpp_onion.Io.Verifier.{VerifyError, VerifiedResult, verify}
use cpp_onion.Io.KeyWriter.{WriteError, FilePath, Os, write_tor_keys}

-- The test on the answer of `compile_prefix`; the error is the invalid prefix, and `main` returns 1.
unfoldable pub compile_next :
    List ℕ
    → Expected MatcherError CompiledPattern
    → (CompiledPattern → Expected (List ℕ) (ℕ × List CompiledPattern))
    → Expected (List ℕ) (ℕ × List CompiledPattern)
compile_next p (unexpected e) next = unexpected p
compile_next p (ok compiled) next = next compiled

-- The loop over the prefixes, with `shortest` and `patterns` so far.
unfoldable pub compile_all :
    ℕ → List CompiledPattern → List (List ℕ) → Expected (List ℕ) (ℕ × List CompiledPattern)
unfolding compile_next
compile_all shortest patterns [] = ok (shortest, patterns)
compile_all shortest patterns (p ∷ prefixes) =
    compile_next p (compile_prefix p)
      (λ compiled. compile_all (min shortest (length p)) (patterns ++ (compiled ∷ [])) prefixes)

-- `std::numeric_limits<std::size_t>::max()`
abbrev pub size_max : ℕ
size_max = 0xffffffffffffffff

pub data EngineKind : Type 0 where
  cpu_and_gpu cuda naive incremental_x4 incremental : EngineKind

unfoldable pub is_named : List ℕ → List ℕ → Bool
is_named name text = same_bytes name text

-- The engine that is made; `none` where the build has no CUDA, and `main` returns 1.
unfoldable pub choose_engine : Bool → List ℕ → List ℕ → Option EngineKind
unfolding is_named
choose_engine has_cuda engine_name simd_mode =
    let use_x4 =
      not (is_named engine_name (codes "naive"))
      && not (is_named engine_name (codes "cuda"))
      && not (is_named engine_name (codes "cpu+gpu"))
      && is_named simd_mode (codes "on") in
    if is_named engine_name (codes "cpu+gpu")
    then (if has_cuda then some cpu_and_gpu else none)
    else if is_named engine_name (codes "cuda")
    then (if has_cuda then some cuda else none)
    else if is_named engine_name (codes "naive")
    then some naive
    else if use_x4
    then some incremental_x4
    else some incremental

-- The slots of the counters: one more for the GPU.
unfoldable pub stat_slots : List ℕ → ℕ → ℕ
unfolding is_named
stat_slots engine_name threads =
    if is_named engine_name (codes "cpu+gpu") then threads + 1 else threads

-- What a round of the loop meets: `g_interrupted` before it, the candidates that are pushed until its
-- pop ends, and `engine_done` after it.
pub record Round : Type 0 where
  pub interrupted : Bool
  pub arrived : List MatchCandidate
  pub engine_done : Bool

-- What is left when the loop has ended; `printed` are the results of the "found" lines, last first.
pub record Outcome (Fs : Type 0) : Type 0 where
  pub exit_code : ℕ
  pub found : ℕ
  pub printed : List VerifiedResult
  pub files : Fs
  pub stopped : Bool

module _ {Fs Fd : Type 0} (sodium : Sodium) (os : Os Fs Fd) (patterns : List CompiledPattern)
    (outdir : FilePath) (count : ℕ) where
  -- The answer of `write_tor_keys`.
  unfoldable pub after_keys :
      ℕ
      → List VerifiedResult
      → VerifiedResult
      → Expected WriteError FilePath × Fs
      → (Fs → Outcome Fs)
      → Outcome Fs
  after_keys found printed result (unexpected e, fs) next = record {
    exit_code = 3;
    found = found;
    printed = printed;
    files = fs;
    stopped = false;
  }
  after_keys found printed result (ok dir, fs) next = next fs

  -- The answer of `verify`.
  unfoldable pub after_verify :
      ℕ
      → List VerifiedResult
      → Fs
      → Expected VerifyError VerifiedResult
      → (VerifiedResult → Fs → Outcome Fs)
      → Outcome Fs
  unfolding after_keys
  after_verify found printed fs (unexpected e) next = record {
    exit_code = 2;
    found = found;
    printed = printed;
    files = fs;
    stopped = false;
  }
  after_verify found printed fs (ok result) next =
      after_keys found printed result (write_tor_keys os result outdir fs) (next result)

  -- What a pop leads to.
  unfoldable pub after_pop :
      ℕ
      → List VerifiedResult
      → Fs
      → Bool
      → Option MatchCandidate
      → (VerifiedResult → Fs → Outcome Fs)
      → Outcome Fs
      → Outcome Fs
  unfolding after_verify
  after_pop found printed fs engine_done (some candidate) next idle =
      after_verify found printed fs (verify sodium candidate patterns) next
  after_pop found printed fs true none next idle = record {
    exit_code = 4;
    found = found;
    printed = printed;
    files = fs;
    stopped = false;
  }
  after_pop found printed fs false none next idle = idle

  -- The loop; past the end of the rounds the user has interrupted it.
  unfoldable pub main_loop : List Round → ResultQueue → ℕ → List VerifiedResult → Fs → Outcome Fs
  unfolding after_pop
  main_loop [] queue found printed fs = record {
    exit_code = 0;
    found = found;
    printed = printed;
    files = fs;
    stopped = true;
  }
  main_loop (round ∷ rounds) queue found printed fs =
      let wanted = count == 0 || ltb found count in
      let popped = pop_wait_for sodium (queue ++ round.arrived) in
      let result =
        after_pop found printed fs round.engine_done popped.0
          (λ result fs'. main_loop rounds popped.1 (found + 1) (result ∷ printed) fs')
          (main_loop rounds popped.1 found printed fs) in
      if wanted && not round.interrupted then result else record {
        exit_code = 0;
        found = found;
        printed = printed;
        files = fs;
        stopped = round.interrupted;
      }

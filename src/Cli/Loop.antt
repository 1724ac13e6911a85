-- ===== src/Cli/Loop.antt =====
-- What the loop over the results has done when it ends.
use cpp_onion.Base.{
  ℕ, ◌+◌, ◌<◌, ◌≤◌, ◌≡◌, ◌⊎◌, inl, inr, refl, arith, Bool, true, false, not, ◌&&◌, ◌||◌, Option,
  none, some, List, [], ◌∷◌, ◌++◌, Expected, ok, unexpected, ltb, ◌==◌, length, All,
}
use cpp_onion.Core.Matcher.{CompiledPattern}
use cpp_onion.Crypto.Keys.{Sodium}
use cpp_onion.Engine.{MatchCandidate, ResultQueue, pop_wait_for}
use cpp_onion.Io.Verifier.{VerifyError, VerifiedResult, verify}
use cpp_onion.Io.Verifier.Engines.{All-weaken}
use cpp_onion.Io.KeyWriter.{WriteError, FilePath, child, Os, write_tor_keys}
use cpp_onion.Io.KeyWriter.Files.{IsOs}
use cpp_onion.Io.KeyWriter.Kept.{write_tor_keys-keeps}
use cpp_onion.Io.KeyWriter.Result.{HoldsResult, write_tor_keys-HoldsResult}
use cpp_onion.Cli.{Round, Outcome, after_keys, after_verify, after_pop, main_loop}

module _ {Fs Fd : Type 0} (sodium : Sodium) (os : Os Fs Fd) (patterns : List CompiledPattern)
    (outdir : FilePath) (count : ℕ) (contents : Fs → FilePath → Option (List ℕ))
    (path_of : Fd → FilePath) (law : IsOs os contents path_of) where
  -- The directory of a result holds its files, and the result is one that `verify` gave.
  pub record IsWritten (fs : Fs) (v : VerifiedResult) : Type 0 where
    pub held : HoldsResult os contents path_of law v (child outdir v.address) fs
    pub candidate : MatchCandidate
    pub verified : verify sodium candidate patterns ≡ ok v

  pub record IsCounted (found : ℕ) (printed : List VerifiedResult) (fs : Fs) : Type 0 where
    pub counted : found ≡ length printed
    pub written : All (IsWritten fs) printed
    pub bounded : (count ≡ 0) ⊎ (found ≤ count)

  -- All that was found is on the disk, never more than asked for; and exactly that many, unless the
  -- exit code is not 0 or the user has stopped the loop.
  pub record IsOutcome (o : Outcome Fs) : Type 0 where
    pub sound : IsCounted o.found o.printed o.files
    pub ended : (0 < o.exit_code) ⊎ ((o.stopped ≡ true) ⊎ (o.found ≡ count))

  kept :
      (v w : VerifiedResult) (fs : Fs)
      → IsWritten fs w
      → IsWritten (write_tor_keys os v outdir fs).1 w
  kept v w fs h =
      let keep = λ (q : FilePath) (old : List ℕ) (e : contents fs q ≡ some old).
        write_tor_keys-keeps os contents path_of law v outdir fs q old e in
      record {
        held = record {
          hostname_ok = keep _ _ h.held.hostname_ok;
          secret_ok = keep _ _ h.held.secret_ok;
          public_ok = keep _ _ h.held.public_ok;
        };
        candidate = h.candidate;
        verified = h.verified;
      }

  after_keys-IsOutcome :
      (found : ℕ) (printed : List VerifiedResult) (v : VerifiedResult)
      (r : Expected WriteError FilePath × Fs) (next : Fs → Outcome Fs)
      → IsCounted found printed r.1
      → ((dir : FilePath) → r.0 ≡ ok dir → IsOutcome (next r.1))
      → IsOutcome (after_keys sodium os patterns outdir count found printed v r next)
  unfolding after_keys
  after_keys-IsOutcome found printed v (unexpected e, fs) next h step = record {
    sound = h;
    ended = inl (omega arith);
  }
  after_keys-IsOutcome found printed v (ok dir, fs) next h step = step dir refl

  after_verify-IsOutcome :
      (found : ℕ) (printed : List VerifiedResult) (fs : Fs) (c : MatchCandidate)
      (r : Expected VerifyError VerifiedResult) (next : VerifiedResult → Fs → Outcome Fs)
      → verify sodium c patterns ≡ r
      → (count ≡ 0) ⊎ (found < count)
      → IsCounted found printed fs
      → ((v : VerifiedResult) (fs' : Fs)
          → IsCounted (found + 1) (v ∷ printed) fs'
          → IsOutcome (next v fs'))
      → IsOutcome (after_verify sodium os patterns outdir count found printed fs r next)
  unfolding after_verify
  after_verify-IsOutcome found printed fs c (unexpected e) next given more h step = record {
    sound = h;
    ended = inl (omega arith);
  }
  after_verify-IsOutcome found printed fs c (ok v) next given more h step =
      let fs' = (write_tor_keys os v outdir fs).1 in
      let written' = All-weaken (λ w. kept v w fs) printed h.written in
      after_keys-IsOutcome found printed v (write_tor_keys os v outdir fs) (next v)
        (record { counted = h.counted; written = written'; bounded = h.bounded })
        (λ dir done.
          let (same, held) =
            write_tor_keys-HoldsResult os contents path_of law v outdir fs dir done in
          step v fs' (record {
            counted = omega (arith, h.counted);
            written = (record { held = held; candidate = c; verified = given }, written');
            bounded = one_more more;
          }))
    where
      one_more : {n : ℕ} → (count ≡ 0) ⊎ (n < count) → (count ≡ 0) ⊎ (n + 1 ≤ count)
      one_more (inl e') = inl e'
      one_more (inr lt) = inr (omega (arith, lt))

  after_pop-IsOutcome :
      (found : ℕ) (printed : List VerifiedResult) (fs : Fs) (engine_done : Bool)
      (o : Option MatchCandidate) (next : VerifiedResult → Fs → Outcome Fs) (idle : Outcome Fs)
      → (count ≡ 0) ⊎ (found < count)
      → IsCounted found printed fs
      → ((v : VerifiedResult) (fs' : Fs)
          → IsCounted (found + 1) (v ∷ printed) fs'
          → IsOutcome (next v fs'))
      → IsOutcome idle
      → IsOutcome
          (after_pop sodium os patterns outdir count found printed fs engine_done o next idle)
  unfolding after_pop
  after_pop-IsOutcome found printed fs done (some c) next idle more h step rest =
      after_verify-IsOutcome found printed fs c (verify sodium c patterns) next refl more h step
  after_pop-IsOutcome found printed fs true none next idle more h step rest = record {
    sound = h;
    ended = inl (omega arith);
  }
  after_pop-IsOutcome found printed fs false none next idle more h step rest = rest

  -- The test at the head of the loop.
  head_test :
      (found : ℕ) (interrupted : Bool)
      → (count ≡ 0) ⊎ (found ≤ count)
      → (((count == 0 || ltb found count) && not interrupted ≡ true)
          × ((count ≡ 0) ⊎ (found < count)))
        ⊎ (((count == 0 || ltb found count) && not interrupted ≡ false)
            × ((interrupted ≡ true) ⊎ (found ≡ count)))
  head_test found true bound = ground arith
  head_test found false (inl e) = ground arith
  head_test found false (inr e) = ground arith

  main_loop-lem :
      (rounds : List Round) (queue : ResultQueue) (found : ℕ) (printed : List VerifiedResult)
      (fs : Fs)
      → IsCounted found printed fs
      → IsOutcome (main_loop sodium os patterns outdir count rounds queue found printed fs)
  unfolding main_loop
  main_loop-lem [] queue found printed fs h = record { sound = h; ended = inr (inl refl) }
  main_loop-lem (round ∷ rounds) queue found printed fs h =
      elim (head_test found round.interrupted h.bounded) [
        | inl (go_on, more) ↦ rw go_on (
            let popped = pop_wait_for sodium (queue ++ round.arrived) in
            after_pop-IsOutcome found printed fs round.engine_done popped.0 _ _ more h
              (λ v fs' h'. main_loop-lem rounds popped.1 (found + 1) (v ∷ printed) fs' h')
              (main_loop-lem rounds popped.1 found printed fs h))
        | inr (leave, why) ↦ rw leave (record { sound = h; ended = inr why })
      ]

  -- The loop started with nothing found: whatever the rounds bring, each result that it prints is one
  -- that `verify` gave and has its three files on the disk at the end, at most `count` are found if
  -- `count` is not 0, and with exit code 0 exactly `count` unless the user has stopped it.
  pub main_loop-IsOutcome :
      (rounds : List Round) (queue : ResultQueue) (fs : Fs)
      → IsOutcome (main_loop sodium os patterns outdir count rounds queue 0 [] fs)
  main_loop-IsOutcome rounds queue fs =
      main_loop-lem rounds queue 0 [] fs
        (record { counted = refl; written = tt; bounded = inr (omega arith) })

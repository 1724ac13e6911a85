-- ===== src/Io/KeyWriter/Files.antt =====
-- One file: it is new, and holds all the data.
use cpp_onion.Base.{
  ℕ, zero, suc, ◌≤◌, ◌≡◌, ◌≢◌, refl, sym, ap, ◌∙◌, arith, Option, none, some, List, [], ◌∷◌, ◌++◌,
  Expected, ok, unexpected, length, take, drop, append_assoc, append-nil, take-append-drop,
}
use cpp_onion.Io.KeyWriter.{
  WriteError, Done, FilePath, Os, after_write, write_loop, finish_file, write_opened,
  write_file_0600,
}

-- What the calls do to the files: `contents` tells what a path holds, `path_of` what a descriptor was
-- opened for.
pub record IsOs {Fs Fd : Type 0} (os : Os Fs Fd) (contents : Fs → FilePath → Option (List ℕ))
    (path_of : Fd → FilePath) : Type 0 where
  pub parents_keep :
      (p : FilePath) (fs : Fs) (q : FilePath)
      → contents (os.create_directories p fs).1 q ≡ contents fs q
  pub mkdir_keeps :
      (p : FilePath) (fs : Fs) (q : FilePath) → contents (os.mkdir_0700 p fs).1 q ≡ contents fs q
  pub fsync_keeps : (fd : Fd) (fs : Fs) (q : FilePath) → contents (os.fsync fd fs) q ≡ contents fs q
  pub close_keeps : (fd : Fd) (fs : Fs) (q : FilePath) → contents (os.close fd fs) q ≡ contents fs q
  -- `O_CREAT | O_EXCL`: the file did not exist, and is empty now.
  pub open_creates :
      (p : FilePath) (fs : Fs) (fd : Fd)
      → (os.open_excl p fs).0 ≡ some fd
      → (path_of fd ≡ p) × (contents fs p ≡ none) × (contents (os.open_excl p fs).1 p ≡ some [])
  pub open_keeps :
      (p : FilePath) (fs : Fs) (q : FilePath)
      → p ≢ q
      → contents (os.open_excl p fs).1 q ≡ contents fs q
  pub open_fails :
      (p : FilePath) (fs : Fs) (q : FilePath)
      → (os.open_excl p fs).0 ≡ none
      → contents (os.open_excl p fs).1 q ≡ contents fs q
  -- A write appends the first bytes, as many as it answers.
  pub write_appends :
      (fd : Fd) (bytes : List ℕ) (fs : Fs) (n : ℕ) (old : List ℕ)
      → (os.write fd bytes fs).0 ≡ some n
      → contents fs (path_of fd) ≡ some old
      → (n ≤ length bytes)
        × (contents (os.write fd bytes fs).1 (path_of fd) ≡ some (old ++ take n bytes))
  pub write_keeps :
      (fd : Fd) (bytes : List ℕ) (fs : Fs) (q : FilePath)
      → path_of fd ≢ q
      → contents (os.write fd bytes fs).1 q ≡ contents fs q

unexpected_ok : {e : WriteError} {u : Done} → unexpected e ≡ ok u → ⊥
unexpected_ok h = cc

none-some : {o : Option (List ℕ)} {x : List ℕ} → o ≡ none → o ≡ some x → ⊥
none-some e k = cc

join :
    (old : List ℕ) (x n : ℕ) (xs : List ℕ) → (old ++ (x ∷ take n xs)) ++ drop n xs ≡ old ++ (x ∷ xs)
join old x n xs =
    append_assoc old (x ∷ take n xs) (drop n xs)
    ∙ ap (λ (t : List ℕ). old ++ (x ∷ t)) (take-append-drop n xs)

module _ {Fs Fd : Type 0} (os : Os Fs Fd) (contents : Fs → FilePath → Option (List ℕ))
    (path_of : Fd → FilePath) (law : IsOs os contents path_of) where
  after_write-keeps :
      (fd : Fd) (r : Option ℕ × Fs) (next : ℕ → Fs → Expected WriteError Done × Fs) (q : FilePath)
      → ((n : ℕ) (fs : Fs) → contents (next n fs).1 q ≡ contents fs q)
      → contents (after_write os fd r next).1 q ≡ contents r.1 q
  unfolding after_write
  after_write-keeps fd (none, fs) next q keeps = law.close_keeps fd fs q
  after_write-keeps fd (some zero, fs) next q keeps = law.close_keeps fd fs q
  after_write-keeps fd (some (suc n), fs) next q keeps = keeps n fs

  -- The loop leaves the other files alone.
  write_loop-keeps :
      (fd : Fd) (skip : ℕ) (bytes : List ℕ) (fs : Fs) (q : FilePath)
      → path_of fd ≢ q
      → contents (write_loop os fd skip bytes fs).1 q ≡ contents fs q
  unfolding write_loop
  write_loop-keeps fd skip [] fs q ne = refl
  write_loop-keeps fd (suc skip) (x ∷ xs) fs q ne = write_loop-keeps fd skip xs fs q ne
  write_loop-keeps fd zero (x ∷ xs) fs q ne =
      after_write-keeps fd (os.write fd (x ∷ xs) fs) (λ n fs'. write_loop os fd n xs fs') q
        (λ n fs'. write_loop-keeps fd n xs fs' q ne)
      ∙ law.write_keeps fd (x ∷ xs) fs q ne

  -- A round that ends well has written at least one byte.
  after_write_lem :
      (fd : Fd) (r : Option ℕ × Fs) (next : ℕ → Fs → Expected WriteError Done × Fs) (q : FilePath)
      (now : Option (List ℕ))
      → ((n : ℕ) → r.0 ≡ some (suc n) → (next n r.1).0 ≡ ok tt → contents (next n r.1).1 q ≡ now)
      → (after_write os fd r next).0 ≡ ok tt
      → contents (after_write os fd r next).1 q ≡ now
  unfolding after_write
  after_write_lem fd (none, fs) next q now step done = absurd (unexpected_ok done)
  after_write_lem fd (some zero, fs) next q now step done = absurd (unexpected_ok done)
  after_write_lem fd (some (suc n), fs) next q now step done = step n refl done

  -- If the loop ends well, the file holds what it held, and then all the bytes past the skipped ones.
  write_loop_lem :
      (fd : Fd) (skip : ℕ) (bytes : List ℕ) (fs : Fs) (old : List ℕ)
      → contents fs (path_of fd) ≡ some old
      → skip ≤ length bytes
      → (write_loop os fd skip bytes fs).0 ≡ ok tt
      → contents (write_loop os fd skip bytes fs).1 (path_of fd) ≡ some (old ++ drop skip bytes)
  unfolding write_loop
  write_loop_lem fd zero [] fs old e le done = e ∙ ap some (sym (append-nil old))
  write_loop_lem fd (suc skip) [] fs old e le done = absurd (omega arith)
  write_loop_lem fd (suc skip) (x ∷ xs) fs old e le done =
      write_loop_lem fd skip xs fs old e (omega arith) done
  write_loop_lem fd zero (x ∷ xs) fs old e le done =
      after_write_lem fd (os.write fd (x ∷ xs) fs) (λ n fs'. write_loop os fd n xs fs') (path_of fd)
        (some (old ++ (x ∷ xs)))
        (λ n given ended.
          let (bound, now) = law.write_appends fd (x ∷ xs) fs (suc n) old given e in
          write_loop_lem fd n xs _ (old ++ (x ∷ take n xs)) now (omega (arith, bound)) ended
          ∙ ap some (join old x n xs))
        done

  finish_file-keeps :
      (fd : Fd) (r : Expected WriteError Done × Fs) (q : FilePath)
      → contents (finish_file os fd r).1 q ≡ contents r.1 q
  unfolding finish_file
  finish_file-keeps fd (unexpected e, fs) q = refl
  finish_file-keeps fd (ok u, fs) q =
      law.close_keeps fd (os.fsync fd fs) q ∙ law.fsync_keeps fd fs q

  finish_file-ok :
      (fd : Fd) (r : Expected WriteError Done × Fs) → (finish_file os fd r).0 ≡ ok tt → r.0 ≡ ok tt
  unfolding finish_file
  finish_file-ok fd (unexpected e, fs) h = h
  finish_file-ok fd (ok u, fs) h = h

  -- Whatever the answer, a file that was there holds what it held.
  pub write_file_0600-keeps :
      (p : FilePath) (bytes : List ℕ) (fs : Fs) (q : FilePath) (old : List ℕ)
      → contents fs q ≡ some old
      → contents (write_file_0600 os p bytes fs).1 q ≡ some old
  unfolding write_file_0600 write_opened
  write_file_0600-keeps p bytes fs q old e =
      go (os.open_excl p fs) (λ none_given. law.open_fails p fs q none_given ∙ e)
        (λ fd given.
          let (same, new, empty) = law.open_creates p fs fd given in
          let ne : p ≢ q = λ k. none-some (sym (ap (contents fs) k) ∙ new) e in
          (λ k. ne (sym same ∙ k), law.open_keeps p fs q ne ∙ e))
    where
      go :
          (r : Option Fd × Fs)
          → (r.0 ≡ none → contents r.1 q ≡ some old)
          → ((fd : Fd) → r.0 ≡ some fd → (path_of fd ≢ q) × (contents r.1 q ≡ some old))
          → contents (write_opened os bytes r).1 q ≡ some old
      go (none, fs') not_opened opened = not_opened refl
      go (some fd, fs') not_opened opened =
          let (ne, e') = opened fd refl in
          finish_file-keeps fd (write_loop os fd 0 bytes fs') q
          ∙ write_loop-keeps fd 0 bytes fs' q ne
          ∙ e'

  -- A file that is written is new, and holds the data.
  pub write_file_0600_lem :
      (p : FilePath) (bytes : List ℕ) (fs : Fs)
      → (write_file_0600 os p bytes fs).0 ≡ ok tt
      → (contents fs p ≡ none) × (contents (write_file_0600 os p bytes fs).1 p ≡ some bytes)
  unfolding write_file_0600 write_opened
  write_file_0600_lem p bytes fs done =
      go (os.open_excl p fs) (λ fd given. law.open_creates p fs fd given) done
    where
      go :
          (r : Option Fd × Fs)
          → ((fd : Fd)
              → r.0 ≡ some fd
              → (path_of fd ≡ p) × (contents fs p ≡ none) × (contents r.1 p ≡ some []))
          → (write_opened os bytes r).0 ≡ ok tt
          → (contents fs p ≡ none) × (contents (write_opened os bytes r).1 p ≡ some bytes)
      go (none, fs') opened ended = absurd (unexpected_ok ended)
      go (some fd, fs') opened ended =
          let (same, new, empty) = opened fd refl in
          let r = write_loop os fd 0 bytes fs' in
          let whole : contents r.1 (path_of fd) ≡ some bytes =
            write_loop_lem fd 0 bytes fs' [] (ap (contents fs') same ∙ empty) (omega arith)
              (finish_file-ok fd r ended) in
          (new, finish_file-keeps fd r p ∙ ap (contents r.1) (sym same) ∙ whole)

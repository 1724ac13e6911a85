-- ===== src/Io/KeyWriter.antt =====
-- src/io/tor_key_writer.hpp and src/io/tor_key_writer.cpp: the three files of a result. The calls of the
-- operating system are a parameter, on a state of the file system; a path is the list of its names.
pub mod Files
pub mod Kept
pub mod Result
use cpp_onion.Base.{
  ℕ, zero, suc, ◌+◌, ◌-◌, Bool, true, false, Option, none, some, List, [], ◌∷◌, ◌++◌, Expected, ok,
  unexpected, length, replicate,
}
use cpp_onion.Core.Base32.{codes}
use cpp_onion.Core.OnionAddress.{to_string}
use cpp_onion.Io.Verifier.{VerifiedResult}

pub data WriteError : Type 0 where
  create_dir_failed open_failed write_failed : WriteError

-- `void`
abbrev pub Done : Type 0
Done = Unit {0}

abbrev pub FilePath : Type 0
FilePath = List (List ℕ)

abbrev pub child : FilePath → List ℕ → FilePath
child dir name = dir ++ (name ∷ [])

-- The answer of `mkdir`, with `errno` where it is looked at.
pub data Mkdir : Type 0 where
  made already_there refused : Mkdir

-- The calls: `create_directories` answers whether it has set an error, `open_excl` is `open` with
-- `O_WRONLY | O_CREAT | O_EXCL` and mode 0600, and `none` stands for a negative answer.
pub record Os (Fs Fd : Type 0) : Type 0 where
  pub create_directories : FilePath → Fs → Bool × Fs
  pub mkdir_0700 : FilePath → Fs → Mkdir × Fs
  pub open_excl : FilePath → Fs → Option Fd × Fs
  pub write : Fd → List ℕ → Fs → Option ℕ × Fs
  pub fsync : Fd → Fs → Fs
  pub close : Fd → Fs → Fs

abbrev pub secret_tag : List ℕ
secret_tag = codes "== ed25519v1-secret: type0 =="

abbrev pub public_tag : List ℕ
public_tag = codes "== ed25519v1-public: type0 =="

unfoldable pub make_header : List ℕ → List ℕ
make_header tag = tag ++ replicate (32 - length tag) 0

abbrev pub hostname_name : List ℕ
hostname_name = codes "hostname"

abbrev pub secret_name : List ℕ
secret_name = codes "hs_ed25519_secret_key"

abbrev pub public_name : List ℕ
public_name = codes "hs_ed25519_public_key"

-- What the three files are to hold.
unfoldable pub hostname_file : VerifiedResult → List ℕ
hostname_file result = to_string result.address ++ (10 ∷ [])

unfoldable pub secret_file : VerifiedResult → List ℕ
unfolding make_header
secret_file result = make_header secret_tag ++ (result.secret.scalar ++ result.secret.prf_prefix)

unfoldable pub public_file : VerifiedResult → List ℕ
unfolding make_header
public_file result = make_header public_tag ++ result.pubkey

module _ {Fs Fd : Type 0} (os : Os Fs Fd) where
  -- The end of a round of the loop: an answer of at most 0 closes the file.
  unfoldable pub after_write :
      Fd → Option ℕ × Fs → (ℕ → Fs → Expected WriteError Done × Fs) → Expected WriteError Done × Fs
  after_write fd (none, fs) next = (unexpected write_failed, os.close fd fs)
  after_write fd (some zero, fs) next = (unexpected write_failed, os.close fd fs)
  after_write fd (some (suc n), fs) next = next n fs

  -- The loop of `write_file_0600` on the data from `off - skip` on: each round writes what is left.
  unfoldable pub write_loop : Fd → ℕ → List ℕ → Fs → Expected WriteError Done × Fs
  unfolding after_write
  write_loop fd skip [] fs = (ok tt, fs)
  write_loop fd (suc skip) (x ∷ xs) fs = write_loop fd skip xs fs
  write_loop fd zero (x ∷ xs) fs =
      after_write fd (os.write fd (x ∷ xs) fs) (λ n fs'. write_loop fd n xs fs')

  unfoldable pub finish_file : Fd → Expected WriteError Done × Fs → Expected WriteError Done × Fs
  finish_file fd (unexpected e, fs) = (unexpected e, fs)
  finish_file fd (ok u, fs) = (ok u, os.close fd (os.fsync fd fs))

  unfoldable pub write_opened : List ℕ → Option Fd × Fs → Expected WriteError Done × Fs
  unfolding write_loop finish_file
  write_opened bytes (none, fs) = (unexpected open_failed, fs)
  write_opened bytes (some fd, fs) = finish_file fd (write_loop fd 0 bytes fs)

  unfoldable pub write_file_0600 : FilePath → List ℕ → Fs → Expected WriteError Done × Fs
  unfolding write_opened
  write_file_0600 path bytes fs = write_opened bytes (os.open_excl path fs)

  -- A step of `write_tor_keys` after one that may have failed.
  unfoldable pub and_then :
      {A : Type 0}
      → Expected WriteError Done × Fs
      → (Fs → Expected WriteError A × Fs)
      → Expected WriteError A × Fs
  and_then (unexpected e, fs) next = (unexpected e, fs)
  and_then (ok u, fs) next = next fs

  -- The test on the error code.
  unfoldable pub parents_made : Bool × Fs → Expected WriteError Done × Fs
  parents_made (true, fs) = (unexpected create_dir_failed, fs)
  parents_made (false, fs) = (ok tt, fs)

  -- The parent directories, where `outdir` is not empty.
  unfoldable pub make_parents : FilePath → Fs → Expected WriteError Done × Fs
  unfolding parents_made
  make_parents [] fs = (ok tt, fs)
  make_parents (name ∷ names) fs = parents_made (os.create_directories (name ∷ names) fs)

  -- The test on the answer of `mkdir`.
  unfoldable pub leaf_made : Mkdir × Fs → Expected WriteError Done × Fs
  leaf_made (refused, fs) = (unexpected create_dir_failed, fs)
  leaf_made (made, fs) = (ok tt, fs)
  leaf_made (already_there, fs) = (ok tt, fs)

  unfoldable pub make_leaf : FilePath → Fs → Expected WriteError Done × Fs
  unfolding leaf_made
  make_leaf dir fs = leaf_made (os.mkdir_0700 dir fs)

  -- `write_tor_keys` from the third file on.
  unfoldable pub write_public : VerifiedResult → FilePath → Fs → Expected WriteError FilePath × Fs
  unfolding write_file_0600 and_then public_file
  write_public result dir fs =
      and_then (write_file_0600 (child dir public_name) (public_file result) fs)
        (λ fs'. (ok dir, fs'))

  -- From the second file on.
  unfoldable pub write_secret : VerifiedResult → FilePath → Fs → Expected WriteError FilePath × Fs
  unfolding write_file_0600 and_then secret_file write_public
  write_secret result dir fs =
      and_then (write_file_0600 (child dir secret_name) (secret_file result) fs)
        (write_public result dir)

  -- From the first file on.
  unfoldable pub write_hostname : VerifiedResult → FilePath → Fs → Expected WriteError FilePath × Fs
  unfolding write_file_0600 and_then hostname_file write_secret
  write_hostname result dir fs =
      and_then (write_file_0600 (child dir hostname_name) (hostname_file result) fs)
        (write_secret result dir)

  -- From the leaf directory on.
  unfoldable pub write_leaf : VerifiedResult → FilePath → Fs → Expected WriteError FilePath × Fs
  unfolding make_leaf and_then write_hostname
  write_leaf result dir fs = and_then (make_leaf dir fs) (write_hostname result dir)

  unfoldable pub write_tor_keys : VerifiedResult → FilePath → Fs → Expected WriteError FilePath × Fs
  unfolding make_parents and_then write_leaf
  write_tor_keys result outdir fs =
      and_then (make_parents outdir fs) (write_leaf result (child outdir result.address))

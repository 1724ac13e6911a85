-- ===== src/Io/KeyWriter/Result.antt =====
-- The three files of a result.
use cpp_onion.Base.{ℕ, ◌≡◌, sym, Option, some, List, Expected, ok}
use cpp_onion.Io.Verifier.{VerifiedResult}
use cpp_onion.Io.KeyWriter.{
  WriteError, FilePath, child, Os, make_parents, make_leaf, write_file_0600, write_public,
  write_secret, write_hostname, write_leaf, write_tor_keys, hostname_file, secret_file, public_file,
  hostname_name, secret_name, public_name,
}
use cpp_onion.Io.KeyWriter.Files.{IsOs, write_file_0600_lem}
use cpp_onion.Io.KeyWriter.Kept.{failed_ok, and_then-elim, write_public-Keeps, write_secret-Keeps}

ok_inj : {x y : FilePath} → ◌≡◌ {A = Expected WriteError FilePath} (ok x) (ok y) → x ≡ y
ok_inj e = cc

module _ {Fs Fd : Type 0} (os : Os Fs Fd) (contents : Fs → FilePath → Option (List ℕ))
    (path_of : Fd → FilePath) (law : IsOs os contents path_of) where
  -- What a directory of a result holds.
  pub record HoldsResult (result : VerifiedResult) (dir : FilePath) (fs : Fs) : Type 0 where
    pub hostname_ok : contents fs (child dir hostname_name) ≡ some (hostname_file result)
    pub secret_ok : contents fs (child dir secret_name) ≡ some (secret_file result)
    pub public_ok : contents fs (child dir public_name) ≡ some (public_file result)

  public_lem :
      (result : VerifiedResult) (dir given : FilePath) (fs : Fs)
      → (write_public os result dir fs).0 ≡ ok given
      → (given ≡ dir)
        × (contents (write_public os result dir fs).1 (child dir public_name)
            ≡ some (public_file result))
  unfolding write_public
  public_lem result dir given fs =
      let file = child dir public_name in
      and_then-elim os
        (λ (r : Expected WriteError FilePath × Fs).
          r.0 ≡ ok given → (given ≡ dir) × (contents r.1 file ≡ some (public_file result)))
        (write_file_0600 os file (public_file result) fs) (λ fs'. (ok dir, fs'))
        (λ e failed done. absurd (failed_ok done))
        (λ wrote done. (
          sym (ok_inj done),
          (write_file_0600_lem os contents path_of law file (public_file result) fs wrote).1,
        ))

  secret_lem :
      (result : VerifiedResult) (dir given : FilePath) (fs : Fs)
      → (write_secret os result dir fs).0 ≡ ok given
      → (given ≡ dir)
        × (contents (write_secret os result dir fs).1 (child dir public_name)
            ≡ some (public_file result))
        × (contents (write_secret os result dir fs).1 (child dir secret_name)
            ≡ some (secret_file result))
  unfolding write_secret
  secret_lem result dir given fs =
      let file = child dir secret_name in
      and_then-elim os
        (λ (r : Expected WriteError FilePath × Fs).
          r.0 ≡ ok given
          → (given ≡ dir)
            × (contents r.1 (child dir public_name) ≡ some (public_file result))
            × (contents r.1 file ≡ some (secret_file result)))
        (write_file_0600 os file (secret_file result) fs) (write_public os result dir)
        (λ e failed done. absurd (failed_ok done))
        (λ wrote done.
          let (same, public) = public_lem result dir given _ done in
          let (new, secret) =
            write_file_0600_lem os contents path_of law file (secret_file result) fs wrote in
          (same, public, write_public-Keeps os contents path_of law result dir _ file _ secret))

  hostname_lem :
      (result : VerifiedResult) (dir given : FilePath) (fs : Fs)
      → (write_hostname os result dir fs).0 ≡ ok given
      → (given ≡ dir) × HoldsResult result dir (write_hostname os result dir fs).1
  unfolding write_hostname
  hostname_lem result dir given fs =
      let file = child dir hostname_name in
      and_then-elim os
        (λ (r : Expected WriteError FilePath × Fs).
          r.0 ≡ ok given → (given ≡ dir) × HoldsResult result dir r.1)
        (write_file_0600 os file (hostname_file result) fs) (write_secret os result dir)
        (λ e failed done. absurd (failed_ok done))
        (λ wrote done.
          let (same, public, secret) = secret_lem result dir given _ done in
          let (new, host) =
            write_file_0600_lem os contents path_of law file (hostname_file result) fs wrote in
          (
            same,
            record {
              hostname_ok = write_secret-Keeps os contents path_of law result dir _ file _ host;
              secret_ok = secret;
              public_ok = public;
            },
          ))

  -- When `write_tor_keys` gives a directory, it is that of the address, and its three files hold the
  -- host name, the secret key and the public key.
  pub write_tor_keys-HoldsResult :
      (result : VerifiedResult) (outdir : FilePath) (fs : Fs) (dir : FilePath)
      → (write_tor_keys os result outdir fs).0 ≡ ok dir
      → (dir ≡ child outdir result.address)
        × HoldsResult result (child outdir result.address) (write_tor_keys os result outdir fs).1
  unfolding write_tor_keys write_leaf
  write_tor_keys-HoldsResult result outdir fs dir =
      let leaf = child outdir result.address in
      let R = λ (r : Expected WriteError FilePath × Fs).
        r.0 ≡ ok dir → (dir ≡ leaf) × HoldsResult result leaf r.1 in
      and_then-elim os R (make_parents os outdir fs) (write_leaf os result leaf)
        (λ e failed done. absurd (failed_ok done))
        (λ parents.
          and_then-elim os R (make_leaf os leaf (make_parents os outdir fs).1)
            (write_hostname os result leaf) (λ e failed done. absurd (failed_ok done))
            (λ made. hostname_lem result leaf dir _))

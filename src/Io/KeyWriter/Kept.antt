-- ===== src/Io/KeyWriter/Kept.antt =====
-- The files that were there before a result is written.
use cpp_onion.Base.{
  ℕ, ◌≡◌, refl, ◌∙◌, Bool, true, false, Option, some, List, [], ◌∷◌, Expected, ok, unexpected,
}
use cpp_onion.Io.Verifier.{VerifiedResult}
use cpp_onion.Io.KeyWriter.{
  WriteError, Done, FilePath, child, Os, Mkdir, made, already_there, refused, and_then,
  parents_made, leaf_made, make_parents, make_leaf, write_file_0600, write_public, write_secret,
  write_hostname, write_leaf, write_tor_keys, hostname_file, secret_file, public_file,
  hostname_name, secret_name, public_name,
}
use cpp_onion.Io.KeyWriter.Files.{IsOs, write_file_0600-keeps}

pub failed_ok : {A : Type 0} {e : WriteError} {a : A} → unexpected e ≡ ok a → ⊥
failed_ok h = cc

-- What holds of a failed step, and of what follows a step that ended well, holds of both.
pub and_then-elim {κ} :
    {Fs Fd A : Type 0} (os : Os Fs Fd) (R : Expected WriteError A × Fs → Type κ)
    (r : Expected WriteError Done × Fs) (next : Fs → Expected WriteError A × Fs)
    → ((e : WriteError) → r.0 ≡ unexpected e → R (unexpected e, r.1))
    → (r.0 ≡ ok tt → R (next r.1))
    → R (and_then os r next)
unfolding and_then
and_then-elim os R (unexpected e, fs) next failed done = failed e refl
and_then-elim os R (ok u, fs) next failed done = done refl

module _ {Fs Fd : Type 0} (os : Os Fs Fd) (contents : Fs → FilePath → Option (List ℕ))
    (path_of : Fd → FilePath) (law : IsOs os contents path_of) where
  parents_made-keeps :
      (r : Bool × Fs) (q : FilePath) → contents (parents_made os r).1 q ≡ contents r.1 q
  unfolding parents_made
  parents_made-keeps (true, fs) q = refl
  parents_made-keeps (false, fs) q = refl

  make_parents-keeps :
      (p : FilePath) (fs : Fs) (q : FilePath) → contents (make_parents os p fs).1 q ≡ contents fs q
  unfolding make_parents
  make_parents-keeps [] fs q = refl
  make_parents-keeps (name ∷ names) fs q =
      parents_made-keeps (os.create_directories (name ∷ names) fs) q
      ∙ law.parents_keep (name ∷ names) fs q

  leaf_made-keeps : (r : Mkdir × Fs) (q : FilePath) → contents (leaf_made os r).1 q ≡ contents r.1 q
  unfolding leaf_made
  leaf_made-keeps (refused, fs) q = refl
  leaf_made-keeps (made, fs) q = refl
  leaf_made-keeps (already_there, fs) q = refl

  make_leaf-keeps :
      (dir : FilePath) (fs : Fs) (q : FilePath) → contents (make_leaf os dir fs).1 q ≡ contents fs q
  unfolding make_leaf
  make_leaf-keeps dir fs q = leaf_made-keeps (os.mkdir_0700 dir fs) q ∙ law.mkdir_keeps dir fs q

  -- A step that keeps a file, and then steps that keep it.
  and_then-keeps :
      {A : Type 0} (r : Expected WriteError Done × Fs) (next : Fs → Expected WriteError A × Fs)
      (q : FilePath) (old : List ℕ)
      → contents r.1 q ≡ some old
      → ((fs : Fs) → contents fs q ≡ some old → contents (next fs).1 q ≡ some old)
      → contents (and_then os r next).1 q ≡ some old
  and_then-keeps {A} r next q old e keeps =
      and_then-elim os (λ (t : Expected WriteError A × Fs). contents t.1 q ≡ some old) r next
        (λ err given. e) (λ done. keeps r.1 e)

  abbrev Keeps : (Fs → Expected WriteError FilePath × Fs) → Type 0
  Keeps next =
      (fs : Fs) (q : FilePath) (old : List ℕ)
      → contents fs q ≡ some old
      → contents (next fs).1 q ≡ some old

  pub write_public-Keeps :
      (result : VerifiedResult) (dir : FilePath) → Keeps (write_public os result dir)
  unfolding write_public
  write_public-Keeps result dir fs q old e =
      let file = child dir public_name in
      and_then-keeps {A = FilePath} (write_file_0600 os file (public_file result) fs)
        (λ fs'. (ok dir, fs')) q old
        (write_file_0600-keeps os contents path_of law file (public_file result) fs q old e)
        (λ fs' e'. e')

  pub write_secret-Keeps :
      (result : VerifiedResult) (dir : FilePath) → Keeps (write_secret os result dir)
  unfolding write_secret
  write_secret-Keeps result dir fs q old e =
      let file = child dir secret_name in
      and_then-keeps {A = FilePath} (write_file_0600 os file (secret_file result) fs)
        (write_public os result dir) q old
        (write_file_0600-keeps os contents path_of law file (secret_file result) fs q old e)
        (λ fs' e'. write_public-Keeps result dir fs' q old e')

  write_hostname-Keeps :
      (result : VerifiedResult) (dir : FilePath) → Keeps (write_hostname os result dir)
  unfolding write_hostname
  write_hostname-Keeps result dir fs q old e =
      let file = child dir hostname_name in
      and_then-keeps {A = FilePath} (write_file_0600 os file (hostname_file result) fs)
        (write_secret os result dir) q old
        (write_file_0600-keeps os contents path_of law file (hostname_file result) fs q old e)
        (λ fs' e'. write_secret-Keeps result dir fs' q old e')

  write_leaf-Keeps : (result : VerifiedResult) (dir : FilePath) → Keeps (write_leaf os result dir)
  unfolding write_leaf
  write_leaf-Keeps result dir fs q old e =
      and_then-keeps {A = FilePath} (make_leaf os dir fs) (write_hostname os result dir) q old
        (make_leaf-keeps dir fs q ∙ e) (λ fs' e'. write_hostname-Keeps result dir fs' q old e')

  -- Whether it succeeds or fails, and wherever it stops, `write_tor_keys` leaves every file that was
  -- there before as it was.
  pub write_tor_keys-keeps :
      (result : VerifiedResult) (outdir : FilePath) (fs : Fs) (q : FilePath) (old : List ℕ)
      → contents fs q ≡ some old
      → contents (write_tor_keys os result outdir fs).1 q ≡ some old
  unfolding write_tor_keys
  write_tor_keys-keeps result outdir fs q old e =
      let dir = child outdir result.address in
      and_then-keeps {A = FilePath} (make_parents os outdir fs) (write_leaf os result dir) q old
        (make_parents-keeps outdir fs q ∙ e) (λ fs' e'. write_leaf-Keeps result dir fs' q old e')

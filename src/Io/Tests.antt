-- ===== src/Io/Tests.antt =====
-- The verifier and the writer with small stand-ins for libsodium and for the file system.
use cpp_onion.Base.{
  ℕ, ◌≤◌, ◌≡◌, ◌≢◌, ◌⊎◌, inl, inr, refl, sym, ap, ◌∙◌, arith, List, [], ◌∷◌, ◌++◌, Bool, true,
  false, ◌&&◌, Option, none, some, ok, unexpected, if◌then◌else◌, length, take, All, same_bytes,
  same_bytes→eq, same_bytes_self, Bool-cases,
}
use cpp_onion.Core.Base32.{codes}
use cpp_onion.Core.Matcher.{matches}
use cpp_onion.Core.OnionAddress.{to_string}
use cpp_onion.Engine.{MatchCandidate, Worker}
use cpp_onion.Engine.Naive.{naive_worker}
use cpp_onion.Engine.Incremental.{incremental_worker}
use cpp_onion.Engine.Tests.{toy, toy_law, ab, ab_key, ab_compiles, patterns, candidate, idle_worker}
use cpp_onion.Io.Verifier.{VerifiedResult, pattern_mismatch, verify}
use cpp_onion.Io.Verifier.Checks.{IsVerdict, result_of, verify-IsVerdict}
use cpp_onion.Io.Verifier.Engines.{AreCompiled, naive_worker-verified, incremental_worker-verdicts}
use cpp_onion.Io.KeyWriter.{FilePath, Os, made, child, write_tor_keys}
use cpp_onion.Io.KeyWriter.Files.{IsOs}
use cpp_onion.Io.KeyWriter.Kept.{write_tor_keys-keeps}
use cpp_onion.Io.KeyWriter.Result.{HoldsResult, write_tor_keys-HoldsResult}

pub compiled : AreCompiled patterns
compiled = ((codes "ab", ab_compiles), tt)

ab-matches : matches ab ab_key ≡ true
unfolding matches
ab-matches = refl

verify-IsVerdict_example : IsVerdict toy (candidate 1) patterns (verify toy (candidate 1) patterns)
verify-IsVerdict_example = verify-IsVerdict toy (candidate 1) patterns

naive_worker-verified_example :
    All
      (λ (c : MatchCandidate). verify toy c patterns ≡ ok (result_of c))
      (naive_worker toy patterns 1 (false ∷ (true ∷ [])) idle_worker).results
naive_worker-verified_example =
    naive_worker-verified toy patterns 1 (false ∷ (true ∷ [])) idle_worker toy_law compiled refl

incremental_worker-verdicts_example :
    (w' : Worker) × (incremental_worker toy patterns 5 1 2 8
        (false ∷ (false ∷ (true ∷ [])))
        idle_worker
      ≡ some w')
    × All
        (λ (c : MatchCandidate).
          (verify toy c patterns ≡ ok (result_of c))
          ⊎ (verify toy c patterns ≡ unexpected pattern_mismatch))
        w'.results
incremental_worker-verdicts_example =
    incremental_worker-verdicts toy patterns 5 1 2 8 (false ∷ (false ∷ (true ∷ []))) idle_worker
      toy_law compiled (omega arith) (omega arith) refl

-- A file system as a function from paths, with paths as descriptors, that writes all it is given.
abbrev same_path : FilePath → FilePath → Bool
same_path [] [] = true
same_path [] (y ∷ ys) = false
same_path (x ∷ xs) [] = false
same_path (x ∷ xs) (y ∷ ys) = same_bytes x y && same_path xs ys

and_split : (a b : Bool) → a && b ≡ true → (a ≡ true) × (b ≡ true)
and_split true b h = (refl, h)
and_split false b h = ground arith

same_path→eq : (p q : FilePath) → same_path p q ≡ true → p ≡ q
same_path→eq [] [] h = refl
same_path→eq [] (y ∷ ys) h = ground arith
same_path→eq (x ∷ xs) [] h = ground arith
same_path→eq (x ∷ xs) (y ∷ ys) h =
    let (head, tail) = and_split (same_bytes x y) (same_path xs ys) h in
    rw (same_bytes→eq x y head, same_path→eq xs ys tail) refl

same_path_self : (p : FilePath) → same_path p p ≡ true
same_path_self [] = refl
same_path_self (x ∷ xs) = rw (same_bytes_self x, same_path_self xs) refl

abbrev pub Files : Type 0
Files = FilePath → Option (List ℕ)

abbrev put : FilePath → List ℕ → Files → Files
put p bytes fs = λ q. if same_path p q then some bytes else fs q

-- The answer of `open`, and of a write of all the bytes.
abbrev opened : FilePath → Option (List ℕ) → Files → Option FilePath × Files
opened p none fs = (some p, put p [] fs)
opened p (some old) fs = (none, fs)

abbrev held : Option (List ℕ) → List ℕ
held none = []
held (some old) = old

abbrev pub memory : Os Files FilePath
memory = record {
  create_directories = λ p fs. (false, fs);
  mkdir_0700 = λ p fs. (made, fs);
  open_excl = λ p fs. opened p (fs p) fs;
  write = λ fd bytes fs. (some (length bytes), put fd (held (fs fd) ++ bytes) fs);
  fsync = λ fd fs. fs;
  close = λ fd fs. fs;
}

abbrev pub contents : Files → FilePath → Option (List ℕ)
contents fs p = fs p

abbrev pub path_of : FilePath → FilePath
path_of p = p

put_here : (p : FilePath) (bytes : List ℕ) (fs : Files) → put p bytes fs p ≡ some bytes
put_here p bytes fs = rw (same_path_self p) refl

put_other : (p q : FilePath) (bytes : List ℕ) (fs : Files) → p ≢ q → put p bytes fs q ≡ fs q
put_other p q bytes fs ne = elim (Bool-cases (same_path p q)) [
  | inl e ↦ absurd (ne (same_path→eq p q e))
  | inr e ↦ rw e refl
]

some_eq : {A : Type 0} {x y : A} → some x ≡ some y → x ≡ y
some_eq e = cc

none-some_path : {x : FilePath} → none ≡ some x → ⊥
none-some_path e = cc

some-none_path : {x : FilePath} → some x ≡ none → ⊥
some-none_path e = cc

opened-creates :
    (p : FilePath) (o : Option (List ℕ)) (fs : Files) (fd : FilePath)
    → (opened p o fs).0 ≡ some fd
    → (fd ≡ p) × (o ≡ none) × ((opened p o fs).1 p ≡ some [])
opened-creates p none fs fd e = (sym (some_eq e), refl, put_here p [] fs)
opened-creates p (some old) fs fd e = absurd (none-some_path e)

opened-keeps :
    (p : FilePath) (o : Option (List ℕ)) (fs : Files) (q : FilePath)
    → p ≢ q
    → (opened p o fs).1 q ≡ fs q
opened-keeps p none fs q ne = put_other p q [] fs ne
opened-keeps p (some old) fs q ne = refl

opened-fails :
    (p : FilePath) (o : Option (List ℕ)) (fs : Files) (q : FilePath)
    → (opened p o fs).0 ≡ none
    → (opened p o fs).1 q ≡ fs q
opened-fails p none fs q e = absurd (some-none_path e)
opened-fails p (some old) fs q e = refl

take_all : (xs : List ℕ) → take (length xs) xs ≡ xs
take_all [] = refl
take_all (x ∷ xs) = ap (◌∷◌ x) (take_all xs)

pub memory_law : IsOs memory contents path_of
memory_law = record {
  parents_keep = λ p fs q. refl;
  mkdir_keeps = λ p fs q. refl;
  fsync_keeps = λ fd fs q. refl;
  close_keeps = λ fd fs q. refl;
  open_creates = λ p fs fd e. opened-creates p (fs p) fs fd e;
  open_keeps = λ p fs q ne. opened-keeps p (fs p) fs q ne;
  open_fails = λ p fs q e. opened-fails p (fs p) fs q e;
  write_appends = λ fd bytes fs n old e there. wrote fd bytes fs n old (some_eq e) there;
  write_keeps = λ fd bytes fs q ne. put_other fd q _ fs ne;
}
  where
    wrote :
        (fd : FilePath) (bytes : List ℕ) (fs : Files) (n : ℕ) (old : List ℕ)
        → length bytes ≡ n
        → fs fd ≡ some old
        → (n ≤ length bytes) × (put fd (held (fs fd) ++ bytes) fs fd ≡ some (old ++ take n bytes))
    wrote fd bytes fs n old e there = (
      omega (arith, e),
      put_here fd _ fs
          ∙ ap (λ (t : Option (List ℕ)). some (held t ++ bytes)) there
          ∙ ap (λ (t : List ℕ). some (old ++ t))
              (sym (take_all bytes) ∙ ap (λ (k : ℕ). take k bytes) e),
    )

abbrev result : VerifiedResult
result = record { secret = (candidate 1).secret; pubkey = ab_key; address = codes "abc" }

abbrev no_files : Files
no_files = λ p. none

written : (write_tor_keys memory result [] no_files).0 ≡ ok (child [] (codes "abc"))
unfolding write_tor_keys to_string
written = refl

write_tor_keys-HoldsResult_example :
    (child [] (codes "abc") ≡ child [] result.address)
    × HoldsResult memory contents path_of memory_law result
        (child [] result.address)
        (write_tor_keys memory result [] no_files).1
write_tor_keys-HoldsResult_example =
    write_tor_keys-HoldsResult memory contents path_of memory_law result [] no_files
      (child [] (codes "abc")) written

abbrev one_file : Files
one_file = put (codes "abc" ∷ []) (1 ∷ []) no_files

write_tor_keys-keeps_example :
    contents (write_tor_keys memory result [] one_file).1 (codes "abc" ∷ []) ≡ some (1 ∷ [])
write_tor_keys-keeps_example =
    write_tor_keys-keeps memory contents path_of memory_law result [] one_file (codes "abc" ∷ [])
      (1 ∷ []) (put_here (codes "abc" ∷ []) (1 ∷ []) no_files)

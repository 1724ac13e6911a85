-- ===== src/Core/OnionAddress/Parse.antt =====
-- What parsing an address accepts.
use cpp_onion.Base.{
  ℕ, zero, suc, ◌+◌, ◌≡◌, refl, sym, ap, ◌∙◌, Bool, true, false, not, ◌||◌, List, [], ◌∷◌, ◌++◌,
  Expected, ok, unexpected, arith, ◌==◌, ==_iff, if◌then◌else◌, length, get_or, take, drop,
  length-drop, length-take, take-append-drop, IsBytes, IsByte, All-take, Bool-cases, inl, inr,
}
use cpp_onion.Core.Base32.{Base32Error, base32_decode}
use cpp_onion.Core.Base32.RoundTrip.{encode-decode}
use cpp_onion.Core.OnionAddress.{
  AddressError, bad_length, bad_base32, bad_version, bad_checksum, checksum, blob, version,
  onion_address_from_pubkey, strip_suffix, check_blob, check_decoded, decode_body,
  pubkey_from_onion_address,
}

get_or-drop : (n i : ℕ) (xs : List ℕ) → get_or (drop n xs) i 0 ≡ get_or xs (n + i) 0
get_or-drop zero i xs = ap (λ (j : ℕ). get_or xs j 0) (omega arith)
get_or-drop (suc n) i [] = refl
get_or-drop (suc n) i (x ∷ xs) =
    let e : suc n + i ≡ suc (n + i) = omega arith in rw e (get_or-drop n i xs)

three : (xs : List ℕ) → length xs ≡ 3 → xs ≡ get_or xs 0 0 ∷ get_or xs 1 0 ∷ get_or xs 2 0 ∷ []
three [] h = absurd (omega arith)
three (a ∷ []) h = absurd (omega arith)
three (a ∷ b ∷ []) h = absurd (omega arith)
three (a ∷ b ∷ c ∷ []) h = refl
three (a ∷ b ∷ c ∷ d ∷ r) h = absurd (omega arith)

-- 35 bytes are their first 32 and the last three.
split_fields :
    (d : List ℕ)
    → length d ≡ 35
    → d ≡ take 32 d ++ (get_or d 32 0 ∷ get_or d 33 0 ∷ get_or d 34 0 ∷ [])
split_fields d h =
    let tail = three (drop 32 d) (omega (arith, length-drop 32 d)) in
    sym (take-append-drop 32 d)
    ∙ ap (◌++◌ (take 32 d))
        (rw (get_or-drop 32 0 d, get_or-drop 32 1 d, get_or-drop 32 2 d) at tail)

-- Three tests that refuse, or an answer.
three_tests :
    (v c0 c1 : Bool) (x y : List ℕ)
    → (if not v
        then unexpected bad_version
        else if not c0 || not c1
        then unexpected bad_checksum
        else ok x)
      ≡ ok y
    → (v ≡ true) × (c0 ≡ true) × (c1 ≡ true) × (x ≡ y)
three_tests true true true x y h = (refl, refl, refl, cc h)
three_tests true true false x y h = cc
three_tests true false c1 x y h = cc
three_tests false c0 c1 x y h = cc

-- What `check_blob` accepts.
check_blob-ok :
    (d pk : List ℕ)
    → check_blob d ≡ ok pk
    → (take 32 d ≡ pk)
      × (get_or d 34 0 ≡ version)
      × (get_or d 32 0 ≡ get_or (checksum pk) 0 0)
      × (get_or d 33 0 ≡ get_or (checksum pk) 1 0)
unfolding check_blob
check_blob-ok d pk h =
    let (v, c0, c1, key) = three_tests (get_or d 34 0 == version) _ _ (take 32 d) pk h in
    (
      key,
      (==_iff _ _).0 v,
      (==_iff _ _).0 c0 ∙ ap (λ (k : List ℕ). get_or (checksum k) 0 0) key,
      (==_iff _ _).0 c1 ∙ ap (λ (k : List ℕ). get_or (checksum k) 1 0) key,
    )

check_blob-blob : (d pk : List ℕ) → length d ≡ 35 → check_blob d ≡ ok pk → d ≡ blob pk
unfolding blob checksum
check_blob-blob d pk len h =
    let (key, v, c0, c1) = check_blob-ok d pk h in
    let parts = rw (key, v, c0, c1) at (split_fields d len) in parts

check_decoded-ok :
    (r : Expected Base32Error (List ℕ)) (pk : List ℕ)
    → check_decoded r ≡ ok pk
    → (d : List ℕ) × (r ≡ ok d) × (length d ≡ 35) × (check_blob d ≡ ok pk)
unfolding check_decoded
check_decoded-ok (unexpected e) pk h = cc
check_decoded-ok (ok d) pk h = elim (Bool-cases (length d == 35)) [
  | inl e ↦ (d, refl, (==_iff _ _).0 e, rw e at h)
  | inr e ↦ absurd (refused (rw e at h))
]
  where
    refused : ◌≡◌ {A = Expected AddressError (List ℕ)} (unexpected bad_base32) (ok pk) → ⊥
    refused e = cc

-- A text from which a key is parsed is, without a final ".onion", the address of that key.
pub format-parse :
    (a pk : List ℕ)
    → pubkey_from_onion_address a ≡ ok pk
    → IsBytes pk × (length pk ≡ 32) × (strip_suffix a ≡ onion_address_from_pubkey pk)
unfolding pubkey_from_onion_address decode_body onion_address_from_pubkey
format-parse a pk h = elim (Bool-cases (length (strip_suffix a) == 56)) [
  | inr e ↦ absurd (refused (rw e at h))
  | inl e ↦
      let (d, decoded, len, checked) =
        check_decoded-ok (base32_decode (strip_suffix a)) pk (rw e at h) in
      let (bytes, text) = encode-decode (strip_suffix a) d decoded in
      let key = (check_blob-ok d pk checked).0 in
      (
        rw key at (All-take IsByte 32 d bytes),
        sym (ap length key) ∙ length-take 32 d ∙ omega arith,
        rw (check_blob-blob d pk len checked) at (sym text),
      )
]
  where
    refused : ◌≡◌ {A = Expected AddressError (List ℕ)} (unexpected bad_length) (ok pk) → ⊥
    refused e = cc

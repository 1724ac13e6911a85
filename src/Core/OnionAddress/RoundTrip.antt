-- ===== src/Core/OnionAddress/RoundTrip.antt =====
-- Formatting a key as an address and parsing it back.
use cpp_onion.Base.{
  ℕ, zero, suc, ◌+◌, ◌-◌, ◌<◌, ◌≡◌, ◌≢◌, refl, sym, ap, ◌∙◌, Bool, true, false, ◌&&◌, List, [], ◌∷◌,
  ◌++◌, ok, map, arith, length, get_or, take, drop, ends_with, leb, same_bytes, same_bytes→eq,
  length-append, take-append_eq, drop-append_eq, IsBytes, IsByte, All, All-append, Bool-cases, inl,
  inr,
}
use cpp_onion.Core.Base32.{symbol, find_symbol, base32_encode}
use cpp_onion.Core.Base32.Groups.{fives, byte_bits, IsSymbol, fives-IsSymbol, byte_bits-IsBit}
use cpp_onion.Core.Base32.Encode.{base32_encode-fives}
use cpp_onion.Core.Base32.Decode.{find_symbol-symbol}
use cpp_onion.Core.Base32.RoundTrip.{decode-encode, length-base32_encode}
use cpp_onion.Core.OnionAddress.{
  checksum, blob, version, suffix, onion_address_from_pubkey, to_string, strip_suffix, check_blob,
  check_decoded, decode_body, pubkey_from_onion_address,
}
use cpp_onion.Crypto.Sha3.Sponge.{finalize-IsBytes}

get-IsByte : (xs : List ℕ) (i : ℕ) → IsBytes xs → get_or xs i 0 < 256
get-IsByte [] i h = omega arith
get-IsByte (x ∷ xs) zero h = h.0
get-IsByte (x ∷ xs) (suc i) h = get-IsByte xs i h.1

pub checksum-IsBytes : (pk : List ℕ) → IsBytes (checksum pk)
unfolding checksum
checksum-IsBytes pk =
    (get-IsByte _ 0 (finalize-IsBytes _).0, (get-IsByte _ 1 (finalize-IsBytes _).0, tt))

checksum-length : (pk : List ℕ) → length (checksum pk) ≡ 2
unfolding checksum
checksum-length pk = refl

pub blob-IsBytes : (pk : List ℕ) → IsBytes pk → IsBytes (blob pk)
unfolding blob
blob-IsBytes pk h =
    All-append IsByte pk _ h (All-append IsByte (checksum pk) _ (checksum-IsBytes pk) (omega arith))

length-blob : (pk : List ℕ) → length pk ≡ 32 → length (blob pk) ≡ 35
unfolding blob
length-blob pk h = omega (
  arith,
  length-append pk (checksum pk ++ (version ∷ [])),
  length-append (checksum pk) (version ∷ []),
  checksum-length pk,
)

-- An address has 56 characters.
pub address-length :
    (pk : List ℕ) → IsBytes pk → length pk ≡ 32 → length (onion_address_from_pubkey pk) ≡ 56
unfolding onion_address_from_pubkey
address-length pk h len =
    omega (arith, length-base32_encode (blob pk) (blob-IsBytes pk h), length-blob pk len)

get-append_after :
    (xs ys : List ℕ) (n j : ℕ) → length xs ≡ n → get_or (xs ++ ys) (n + j) 0 ≡ get_or ys j 0
get-append_after [] ys n j h = ap (λ (i : ℕ). get_or ys i 0) (omega arith)
get-append_after (x ∷ xs) ys zero j h = absurd (omega arith)
get-append_after (x ∷ xs) ys (suc n) j h =
    let e : suc n + j ≡ suc (n + j) = omega arith in rw e (get-append_after xs ys n j (omega arith))

-- The fields of the 35 bytes.
blob_fields :
    (pk : List ℕ)
    → length pk ≡ 32
    → (take 32 (blob pk) ≡ pk)
      × (get_or (blob pk) 32 0 ≡ get_or (checksum pk) 0 0)
      × (get_or (blob pk) 33 0 ≡ get_or (checksum pk) 1 0)
      × (get_or (blob pk) 34 0 ≡ version)
unfolding blob checksum
blob_fields pk len = (
  take-append_eq 32 pk _ len,
  get-append_after pk _ 32 0 len,
  get-append_after pk _ 32 1 len,
  get-append_after pk _ 32 2 len,
)

check_blob-blob : (pk : List ℕ) → length pk ≡ 32 → check_blob (blob pk) ≡ ok pk
unfolding check_blob
check_blob-blob pk len =
    let (key, c0, c1, v) = blob_fields pk len in rw (v, c0, c1, key) (ground arith)

decode_body-address :
    (pk : List ℕ) → IsBytes pk → length pk ≡ 32 → decode_body (onion_address_from_pubkey pk) ≡ ok pk
unfolding decode_body onion_address_from_pubkey
decode_body-address pk h len =
    ap check_decoded (decode-encode (blob pk) (blob-IsBytes pk h)) ∙ whole
  where
    whole : check_decoded (ok (blob pk)) ≡ ok pk
    whole = unfold check_decoded in rw (length-blob pk len) (check_blob-blob pk len)

-- No character of the alphabet is a full stop, so an address body has no suffix to remove.
symbol-ne-stop : (i : ℕ) → IsSymbol i → symbol i ≢ 46
symbol-ne-stop i h e =
    let bad : find_symbol 46 ≡ ok i = rw e at (find_symbol-symbol i h) in refused bad
  where
    refused : find_symbol 46 ≡ ok i → ⊥
    refused bad = unfold find_symbol in cc bad

drop-map : (n : ℕ) (is : List ℕ) → drop n (map symbol is) ≡ map symbol (drop n is)
drop-map zero is = refl
drop-map (suc n) [] = refl
drop-map (suc n) (i ∷ is) = drop-map n is

All-drop : (n : ℕ) (is : List ℕ) → All IsSymbol is → All IsSymbol (drop n is)
All-drop zero is h = h
All-drop (suc n) [] h = tt
All-drop (suc n) (i ∷ is) h = All-drop n is h.1

symbols-ne-suffix : (js : List ℕ) → All IsSymbol js → map symbol js ≢ suffix
symbols-ne-suffix [] h e = cc
symbols-ne-suffix (j ∷ js) h e = symbol-ne-stop j h.0 (cc e)

no_suffix : (s : List ℕ) → ((n : ℕ) → drop n s ≢ suffix) → ends_with s suffix ≡ false
no_suffix s h = elim (Bool-cases (same_bytes (drop (length s - 6) s) suffix)) [
  | inl e ↦ absurd (h (length s - 6) (same_bytes→eq _ suffix e))
  | inr e ↦ rw e (and_false (leb 6 (length s)))
]
  where
    and_false : (b : Bool) → (b && false) ≡ false
    and_false true = refl
    and_false false = refl

strip-body :
    (pk : List ℕ)
    → IsBytes pk
    → strip_suffix (onion_address_from_pubkey pk) ≡ onion_address_from_pubkey pk
unfolding strip_suffix onion_address_from_pubkey
strip-body pk h =
    let text = base32_encode-fives (blob pk) (blob-IsBytes pk h) in
    let small = fives-IsSymbol (byte_bits (blob pk)) (byte_bits-IsBit (blob pk)) in
    let stopless : ends_with (base32_encode (blob pk)) suffix ≡ false =
      no_suffix (base32_encode (blob pk)) (λ n e.
        symbols-ne-suffix (drop n (fives (byte_bits (blob pk)))) (All-drop n _ small)
          (sym (drop-map n _) ∙ rw text at e)) in
    rw stopless

strip-to_string : (s : List ℕ) → strip_suffix (to_string s) ≡ s
unfolding strip_suffix to_string
strip-to_string s =
    let len : length (s ++ suffix) ≡ length s + 6 = length-append s suffix in
    let front : length s + 6 - 6 ≡ length s = omega arith in
    let found : leb 6 (length s + 6) ≡ true = ground arith in
    rw (
      len,
      front,
      found,
      drop-append_eq (length s) s suffix refl,
      take-append_eq (length s) s suffix refl,
    )

-- The address of a key, with or without ".onion", is parsed back to the key.
pub parse-format :
    (pk : List ℕ)
    → IsBytes pk
    → length pk ≡ 32
    → (pubkey_from_onion_address (onion_address_from_pubkey pk) ≡ ok pk)
      × (pubkey_from_onion_address (to_string (onion_address_from_pubkey pk)) ≡ ok pk)
parse-format pk h len = (
  via (onion_address_from_pubkey pk) (strip-body pk h),
  via (to_string (onion_address_from_pubkey pk)) (strip-to_string _),
)
  where
    via :
        (a : List ℕ)
        → strip_suffix a ≡ onion_address_from_pubkey pk
        → pubkey_from_onion_address a ≡ ok pk
    via a e =
        unfold pubkey_from_onion_address in
        rw (e, address-length pk h len) (decode_body-address pk h len)

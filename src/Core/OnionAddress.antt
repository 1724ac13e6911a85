-- ===== src/Core/OnionAddress.antt =====
-- src/core/onion_address.hpp and src/core/onion_address.cpp. An address is the list of its 56 characters.
pub mod RoundTrip
pub mod Parse
pub mod Format
use cpp_onion.Base.{
  ℕ, ◌+◌, ◌-◌, Bool, true, false, not, ◌&&◌, ◌||◌, List, [], ◌∷◌, ◌++◌, Expected, ok, unexpected,
  ◌==◌, if◌then◌else◌, length, get_or, take, ends_with,
}
use cpp_onion.Core.Base32.{Base32Error, codes, base32_encode, base32_decode}
use cpp_onion.Crypto.Sha3.{init, update, finalize}

pub data AddressError : Type 0 where
  bad_length bad_base32 bad_version bad_checksum : AddressError

-- `kChecksumTag`
abbrev pub checksum_tag : List ℕ
checksum_tag = codes ".onion checksum"

-- `kVersion`
abbrev pub version : ℕ
version = 0x03

abbrev pub suffix : List ℕ
suffix = codes ".onion"

-- The two bytes of `checksum`.
unfoldable pub checksum : List ℕ → List ℕ
checksum pubkey =
    let h = update (update (update init checksum_tag) pubkey) (version ∷ []) in
    let digest = finalize h in get_or digest 0 0 ∷ get_or digest 1 0 ∷ []

-- The 35 bytes of `blob`.
unfoldable pub blob : List ℕ → List ℕ
blob pubkey = pubkey ++ (checksum pubkey ++ (version ∷ []))

unfoldable pub onion_address_from_pubkey : List ℕ → List ℕ
onion_address_from_pubkey pubkey = base32_encode (blob pubkey)

-- `OnionAddress::to_string`
unfoldable pub to_string : List ℕ → List ℕ
to_string chars = chars ++ suffix

-- `remove_suffix(6)` on an address that ends with ".onion"
unfoldable pub strip_suffix : List ℕ → List ℕ
strip_suffix address =
    if ends_with address suffix then take (length address - 6) address else address

-- The tests on the 35 decoded bytes.
unfoldable pub check_blob : List ℕ → Expected AddressError (List ℕ)
check_blob decoded =
    let pubkey = take 32 decoded in
    let chk = checksum pubkey in
    if not (get_or decoded 34 0 == version)
    then unexpected bad_version
    else if not (get_or decoded 32 0 == get_or chk 0 0)
        || not (get_or decoded 33 0 == get_or chk 1 0)
    then unexpected bad_checksum
    else ok pubkey

-- The test on the result of `base32_decode`.
unfoldable pub check_decoded : Expected Base32Error (List ℕ) → Expected AddressError (List ℕ)
check_decoded (unexpected e) = unexpected bad_base32
check_decoded (ok decoded) =
    if not (length decoded == 35) then unexpected bad_base32 else check_blob decoded

unfoldable pub decode_body : List ℕ → Expected AddressError (List ℕ)
decode_body body = check_decoded (base32_decode body)

unfoldable pub pubkey_from_onion_address : List ℕ → Expected AddressError (List ℕ)
pubkey_from_onion_address address =
    let body = strip_suffix address in
    if not (length body == 56) then unexpected bad_length else decode_body body

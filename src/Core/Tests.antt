-- ===== src/Core/Tests.antt =====
-- The theorems on base32, patterns and addresses at concrete inputs.
use cpp_onion.Base.{
  unexpected, ◌<◌, ℕ, ◌≡◌, ◌↔◌, refl, List, [], ◌∷◌, ◌++◌, ok, true, arith, length, take, replicate,
  IsBytes,
}
use cpp_onion.Core.Base32.{Base32Error, codes, find, base32_encode, base32_decode}
use cpp_onion.Core.Base32.RoundTrip.{decode-encode, encode-decode, length-base32_encode}
use cpp_onion.Core.Base32.Decode.{positions}
use cpp_onion.Core.Matcher.{
  empty, invalid_char, too_long, max_prefix_len, CompiledPattern, compile_prefix, matches,
}
use cpp_onion.Core.Matcher.Compile.{IsAdmissible, compile_prefix_errors}
use cpp_onion.Core.Matcher.Matches.{matches_iff}
use cpp_onion.Core.OnionAddress.{
  onion_address_from_pubkey, to_string, strip_suffix, pubkey_from_onion_address,
}
use cpp_onion.Core.OnionAddress.RoundTrip.{parse-format}
use cpp_onion.Core.OnionAddress.Parse.{format-parse}

abbrev two_bytes : List ℕ
two_bytes = 0x66 ∷ 0x6f ∷ []

length-base32_encode_example : length (base32_encode two_bytes) ≡ 4
length-base32_encode_example = length-base32_encode two_bytes (omega arith)

decode-encode_example : base32_decode (base32_encode two_bytes) ≡ ok two_bytes
decode-encode_example = decode-encode two_bytes (omega arith)

decodes : base32_decode (codes "mzxq") ≡ ok two_bytes
unfolding base32_decode
decodes = refl

encode-decode_example : IsBytes two_bytes × (base32_encode two_bytes ≡ codes "mzxq")
encode-decode_example = encode-decode (codes "mzxq") two_bytes decodes

-- The pattern of the prefix "ab": five zero bits and the bits 00001.
abbrev ab : CompiledPattern
ab = record {
  bytes = 0 ∷ 0x40 ∷ replicate 30 0;
  mask = 0xff ∷ 0xc0 ∷ replicate 30 0;
  nbytes = 2;
  prefix = codes "ab";
}

compiles : compile_prefix (codes "ab") ≡ ok ab
unfolding compile_prefix find
compiles = refl

abbrev ab_key : List ℕ
ab_key = 0 ∷ 0x7f ∷ replicate 30 9

matches_iff_example :
    (matches ab ab_key ≡ true) ↔ (take 2 (base32_encode (ab_key ++ two_bytes)) ≡ codes "ab")
matches_iff_example =
    matches_iff (codes "ab") ab ab_key two_bytes compiles (omega arith) (omega arith) refl

parse-format_example :
    (pubkey_from_onion_address (onion_address_from_pubkey ab_key) ≡ ok ab_key)
    × (pubkey_from_onion_address (to_string (onion_address_from_pubkey ab_key)) ≡ ok ab_key)
parse-format_example = parse-format ab_key (omega arith) refl

format-parse_example :
    IsBytes ab_key
    × (length ab_key ≡ 32)
    × (strip_suffix (to_string (onion_address_from_pubkey ab_key))
        ≡ onion_address_from_pubkey ab_key)
format-parse_example =
    format-parse (to_string (onion_address_from_pubkey ab_key)) ab_key parse-format_example.1

compile_prefix_errors_example :
    ((compile_prefix (codes "a1") ≡ unexpected empty) ↔ (length (codes "a1") ≡ 0))
    × ((compile_prefix (codes "a1") ≡ unexpected too_long) ↔ (max_prefix_len < length (codes "a1")))
    × ((compile_prefix (codes "a1") ≡ unexpected invalid_char) ↔ (
        IsAdmissible (codes "a1") × ((e : Base32Error) × (positions (codes "a1") ≡ unexpected e))))
compile_prefix_errors_example = compile_prefix_errors (codes "a1")

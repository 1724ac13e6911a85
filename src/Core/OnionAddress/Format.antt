-- ===== src/Core/OnionAddress/Format.antt =====
-- The text of an address, from the key and the Keccak sponge.
use cpp_onion.Base.{ℕ, ◌≡◌, refl, sym, ap, ◌∙◌, List, [], ◌∷◌, ◌++◌, arith, length, get_or, take}
use cpp_onion.Core.Base32.{base32_encode}
use cpp_onion.Core.OnionAddress.{checksum_tag, version, checksum, blob, onion_address_from_pubkey}
use cpp_onion.Crypto.Sha3.{Sha3, init, update, finalize, hash}
use cpp_onion.Crypto.Sha3.Sponge.{sponge, hash-sponge, update-append, finalize-IsBytes}

first_two : (xs : List ℕ) → length xs ≡ 32 → take 2 xs ≡ get_or xs 0 0 ∷ get_or xs 1 0 ∷ []
first_two [] h = absurd (omega arith)
first_two (a ∷ []) h = absurd (omega arith)
first_two (a ∷ b ∷ r) h = refl

checksum-sponge :
    (pk : List ℕ) → checksum pk ≡ take 2 (sponge ((checksum_tag ++ pk) ++ (version ∷ [])))
unfolding checksum
checksum-sponge pk =
    let pieces : update (update (update init checksum_tag) pk) (version ∷ [])
        ≡ update init ((checksum_tag ++ pk) ++ (version ∷ [])) =
      rw (
        update-append init checksum_tag pk,
        update-append init (checksum_tag ++ pk) (version ∷ []),
      ) in
    let digest : finalize (update init ((checksum_tag ++ pk) ++ (version ∷ [])))
        ≡ sponge ((checksum_tag ++ pk) ++ (version ∷ [])) =
      as_hash _ in
    sym (
      first_two (finalize (update (update (update init checksum_tag) pk) (version ∷ [])))
        (finalize-IsBytes _).1)
    ∙ ap (λ (h : Sha3). take 2 (finalize h)) pieces
    ∙ ap (take 2) digest
  where
    as_hash : (m : List ℕ) → finalize (update init m) ≡ sponge m
    as_hash m = unfold hash in hash-sponge m

-- The address of a key is the base32 text of the key, two bytes of the Keccak sponge on
-- ".onion checksum", the key and the version, and the version.
pub address-sponge :
    (pk : List ℕ)
    → onion_address_from_pubkey pk
      ≡ base32_encode
          (pk ++ (take 2 (sponge ((checksum_tag ++ pk) ++ (version ∷ []))) ++ (version ∷ [])))
unfolding onion_address_from_pubkey blob
address-sponge pk = rw (checksum-sponge pk)

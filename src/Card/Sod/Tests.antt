-- ===== src/Card/Sod/Tests.antt =====
-- The theorems on security objects, applied to a small one with two data groups.
use opencie_pkcs.Base.{ℕ, ◌≡◌, refl, true, List, [], ◌∷◌, ok, logged_error}
use opencie_pkcs.Base.Map.{Map}
use opencie_pkcs.Base.Outcome.{done, thrown}
use opencie_pkcs.Util.Asn1.Tree.{AsnTags}
use opencie_pkcs.Card.Sod.{SodCrypto, get_sod_digest_alg}
use opencie_pkcs.Card.Sod.Pss.{Parts, sod_parts, group_hashes, verifica_sod_pss}
use opencie_pkcs.Card.Sod.Accepted.{Signed, Matches, verifica_sod_pss-Signed}
use opencie_pkcs.Card.Sod.Rsa.{verifica_sod}
use opencie_pkcs.Card.Sod.Unchecked.{ending, verifica_sod-ending}

abbrev sod : List ℕ
sod =
    119 ∷ 129 ∷ 199 ∷ 48 ∷ 129 ∷ 196 ∷ 6 ∷ 9 ∷ 42 ∷ 134 ∷ 72 ∷ 134 ∷ 247 ∷ 13 ∷ 1 ∷ 7 ∷ 2 ∷ 160
    ∷ 129 ∷ 182 ∷ 48 ∷ 129 ∷ 179 ∷ 2 ∷ 1 ∷ 3 ∷ 49 ∷ 13 ∷ 48 ∷ 11 ∷ 6 ∷ 9 ∷ 96 ∷ 134 ∷ 72 ∷ 1 ∷ 101
    ∷ 3 ∷ 4 ∷ 2 ∷ 3 ∷ 48 ∷ 49 ∷ 6 ∷ 6 ∷ 103 ∷ 129 ∷ 8 ∷ 1 ∷ 1 ∷ 1 ∷ 160 ∷ 39 ∷ 4 ∷ 37 ∷ 48 ∷ 35 ∷ 2
    ∷ 1 ∷ 1 ∷ 48 ∷ 11 ∷ 6 ∷ 9 ∷ 96 ∷ 134 ∷ 72 ∷ 1 ∷ 101 ∷ 3 ∷ 4 ∷ 2 ∷ 3 ∷ 48 ∷ 17 ∷ 48 ∷ 7 ∷ 2 ∷ 1
    ∷ 161 ∷ 4 ∷ 2 ∷ 1 ∷ 2 ∷ 48 ∷ 6 ∷ 2 ∷ 1 ∷ 164 ∷ 4 ∷ 1 ∷ 3 ∷ 160 ∷ 5 ∷ 48 ∷ 3 ∷ 2 ∷ 1 ∷ 5 ∷ 49
    ∷ 101 ∷ 48 ∷ 99 ∷ 2 ∷ 1 ∷ 1 ∷ 48 ∷ 5 ∷ 48 ∷ 0 ∷ 2 ∷ 1 ∷ 7 ∷ 48 ∷ 11 ∷ 6 ∷ 9 ∷ 96 ∷ 134 ∷ 72 ∷ 1
    ∷ 101 ∷ 3 ∷ 4 ∷ 2 ∷ 3 ∷ 160 ∷ 41 ∷ 48 ∷ 21 ∷ 6 ∷ 9 ∷ 42 ∷ 134 ∷ 72 ∷ 134 ∷ 247 ∷ 13 ∷ 1 ∷ 9 ∷ 3
    ∷ 49 ∷ 8 ∷ 6 ∷ 6 ∷ 103 ∷ 129 ∷ 8 ∷ 1 ∷ 1 ∷ 1 ∷ 48 ∷ 16 ∷ 6 ∷ 9 ∷ 42 ∷ 134 ∷ 72 ∷ 134 ∷ 247 ∷ 13
    ∷ 1 ∷ 9 ∷ 4 ∷ 49 ∷ 3 ∷ 4 ∷ 1 ∷ 9 ∷ 48 ∷ 28 ∷ 6 ∷ 9 ∷ 42 ∷ 134 ∷ 72 ∷ 134 ∷ 247 ∷ 13 ∷ 1 ∷ 1 ∷ 10
    ∷ 48 ∷ 15 ∷ 160 ∷ 13 ∷ 48 ∷ 11 ∷ 6 ∷ 9 ∷ 96 ∷ 134 ∷ 72 ∷ 1 ∷ 101 ∷ 3 ∷ 4 ∷ 2 ∷ 3 ∷ 4 ∷ 1 ∷ 8
    ∷ []

abbrev spki : List ℕ
spki =
    48 ∷ 25 ∷ 48 ∷ 11 ∷ 6 ∷ 9 ∷ 42 ∷ 134 ∷ 72 ∷ 134 ∷ 247 ∷ 13 ∷ 1 ∷ 1 ∷ 10 ∷ 3 ∷ 10 ∷ 0 ∷ 48 ∷ 7
    ∷ 2 ∷ 2 ∷ 0 ∷ 123 ∷ 2 ∷ 1 ∷ 3 ∷ []

-- Every signature is right, every hash is 9, and every certificate has the key above.
abbrev toy_crypto : SodCrypto
toy_crypto = record {
  sha1 = λ b. 9 ∷ [];
  sha256 = λ b. 9 ∷ [];
  sha512 = λ b. 9 ∷ [];
  rsa_pure = λ m e b. ok b;
  rsa_pss = λ m e s b. true;
  certificate_fields = λ c. ok (spki, 0x30 ∷ 0 ∷ []);
}

abbrev hashes : Map (List ℕ)
hashes = (0xa1, 1 ∷ 2 ∷ []) ∷ (0xa4, 3 ∷ []) ∷ []

accepted : verifica_sod_pss toy_crypto sod hashes ≡ done tt
unfolding verifica_sod_pss sod_parts opencie_pkcs.Card.Sod.Pss.check_digest
    opencie_pkcs.Card.Sod.Pss.check_signature opencie_pkcs.Card.Sod.public_key
    opencie_pkcs.Card.Sod.attributes_to_sign opencie_pkcs.Util.Asn1.set_asn1_tag
    opencie_pkcs.Util.Asn1.asn1_l_length opencie_pkcs.Util.Array.put
    opencie_pkcs.Util.Array.mid_from opencie_pkcs.Util.Asn1.put_asn1_length
    opencie_pkcs.Util.Array.copy opencie_pkcs.Card.Sod.Pss.read_issuers group_hashes
    opencie_pkcs.Card.Sod.Pss.check_groups opencie_pkcs.Card.Sod.Pss.check_group
accepted = refl

verifica_sod_pss-Signed_example :
    (p : Parts) × (groups : AsnTags) × (sod_parts sod ≡ done p)
    × Signed toy_crypto sod p
    × (group_hashes p.signed_data ≡ ok groups)
    × Matches hashes groups
verifica_sod_pss-Signed_example = verifica_sod_pss-Signed toy_crypto sod hashes accepted

verifica_sod-ending_example :
    ending (verifica_sod toy_crypto sod hashes) ≡ ending (verifica_sod toy_crypto sod [])
verifica_sod-ending_example = verifica_sod-ending toy_crypto sod hashes []

-- A data group that was read with another hash.
changed_group :
    verifica_sod_pss toy_crypto sod ((0xa1, 1 ∷ 3 ∷ []) ∷ (0xa4, 3 ∷ []) ∷ []) ≡ thrown logged_error
unfolding verifica_sod_pss sod_parts opencie_pkcs.Card.Sod.Pss.check_digest
    opencie_pkcs.Card.Sod.Pss.check_signature opencie_pkcs.Card.Sod.public_key
    opencie_pkcs.Card.Sod.attributes_to_sign opencie_pkcs.Util.Asn1.set_asn1_tag
    opencie_pkcs.Util.Asn1.asn1_l_length opencie_pkcs.Util.Array.put
    opencie_pkcs.Util.Array.mid_from opencie_pkcs.Util.Asn1.put_asn1_length
    opencie_pkcs.Util.Array.copy opencie_pkcs.Card.Sod.Pss.read_issuers group_hashes
    opencie_pkcs.Card.Sod.Pss.check_groups opencie_pkcs.Card.Sod.Pss.check_group
changed_group = refl

digest_alg : get_sod_digest_alg sod ≡ done 2
unfolding get_sod_digest_alg opencie_pkcs.Util.Asn1.Parse.parse
digest_alg = refl

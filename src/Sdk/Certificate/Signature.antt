-- ===== src/Sdk/Certificate/Signature.antt =====
-- CCertificate::verifySignature.
use opencie_pkcs.Base.{
  ℕ, Bool, false, ◌&&◌, not, Option, none, some, List, [], ◌∷◌, ◌==◌, if◌then◌else◌, length,
}
use opencie_pkcs.Util.Array.{equal}
use opencie_pkcs.Sdk.Object.{
  Asn1Object, Parsed, parsed, failed, ◌>>=◌, to_byte_array, from_reader, same_object,
}
use opencie_pkcs.Sdk.Sequence.{GenericSequence}
use opencie_pkcs.Sdk.Scalars.{object_identifier}
use opencie_pkcs.Sdk.Certificate.{as_sequence, element, sub_sequence, get_certificate_info}

-- OpenSSL: EVP_PKEY_verify_recover with PKCS#1 padding under the key of an encoded certificate, none
-- where that fails, and the hashes.
pub record CertificateCrypto : Type 0 where
  pub recover : List ℕ → List ℕ → Option (List ℕ)
  pub sha256 : List ℕ → List ℕ
  pub sha1 : List ℕ → List ℕ

-- The first element of CAlgorithmIdentifier(szOid).
abbrev pub identifier_object : List ℕ → Asn1Object
identifier_object oid = record { tag = 0x06; value = object_identifier oid; len_read = 0 }

abbrev pub sha256_identifier : Asn1Object
sha256_identifier = identifier_object (2 ∷ 16 ∷ 840 ∷ 1 ∷ 101 ∷ 3 ∷ 4 ∷ 2 ∷ 1 ∷ [])

abbrev pub sha1_identifier : Asn1Object
sha1_identifier = identifier_object (1 ∷ 3 ∷ 14 ∷ 3 ∷ 2 ∷ 26 ∷ [])

abbrev pub sha256_with_rsa_identifier : Asn1Object
sha256_with_rsa_identifier = identifier_object (1 ∷ 2 ∷ 840 ∷ 113549 ∷ 1 ∷ 1 ∷ 11 ∷ [])

abbrev pub sha1_with_rsa_identifier : Asn1Object
sha1_with_rsa_identifier = identifier_object (1 ∷ 2 ∷ 840 ∷ 113549 ∷ 1 ∷ 1 ∷ 5 ∷ [])

unfoldable pub consistent_sha256 : Asn1Object → Asn1Object → Bool
unfolding same_object
consistent_sha256 declared digest =
    same_object declared sha256_with_rsa_identifier && same_object digest sha256_identifier

unfoldable pub consistent_sha1 : Asn1Object → Asn1Object → Bool
unfolding same_object
consistent_sha1 declared digest =
    same_object declared sha1_with_rsa_identifier && same_object digest sha1_identifier

-- `hash.size() == n && pDigestValue->size() == n && CRYPTO_memcmp(...) == 0`
unfoldable pub right_hash : ℕ → List ℕ → List ℕ → Bool
unfolding equal
right_hash n hash digest = length hash == n && (length digest == n && equal hash digest)

-- A signature that is no octet string of whole octets, and the octets of one that is.
unfoldable pub signature_octets : List ℕ → Option (List ℕ)
signature_octets [] = none
signature_octets (b ∷ []) = none
signature_octets (b ∷ c ∷ rest) = if b == 0 then some (c ∷ rest) else none

-- `catch (...) { return false; }`
unfoldable pub caught : Parsed Bool → Bool
caught (parsed b) = b
caught (failed e) = false

module _ (crypto : CertificateCrypto) where
  -- The digest against the hash of the encoded certificate info.
  unfoldable pub check_certificate_digest :
      Asn1Object → Asn1Object → GenericSequence → List ℕ → Bool
  unfolding consistent_sha256 consistent_sha1 right_hash to_byte_array
  check_certificate_digest declared algo info digest =
      let content = to_byte_array (info.object) in
      if consistent_sha256 declared algo
      then right_hash 32 (crypto.sha256 content) digest
      else if consistent_sha1 declared algo
      then right_hash 20 (crypto.sha1 content) digest
      else false

  -- The recovered block: one DigestInfo and nothing behind it.
  unfoldable pub check_block : GenericSequence → List ℕ → Parsed Bool
  unfolding as_sequence sub_sequence element get_certificate_info from_reader
  check_block cert block = from_reader block >>= λ r. as_sequence (r.0) >>= λ digest_info.
      if not (length (r.1) == 0)
      then parsed false
      else (sub_sequence digest_info 0 >>= λ digest_algo. sub_sequence cert 1 >>= λ declared_algo.
          element declared_algo 0 >>= λ declared. element digest_algo 0 >>= λ algo.
          element digest_info 1 >>= λ digest. get_certificate_info cert >>= λ info.
          parsed (check_certificate_digest declared algo info digest.value))

  unfoldable pub check_recovered : GenericSequence → Option (List ℕ) → Bool
  unfolding check_block caught
  check_recovered cert none = false
  check_recovered cert (some []) = false
  check_recovered cert (some (b ∷ bs)) = caught (check_block cert (b ∷ bs))

  unfoldable pub check_signed : GenericSequence → GenericSequence → Option (List ℕ) → Bool
  unfolding check_recovered to_byte_array
  check_signed cert issuer none = false
  check_signed cert issuer (some encrypted) =
      check_recovered cert (crypto.recover (to_byte_array (issuer.object)) encrypted)

  unfoldable pub verify_signature : GenericSequence → GenericSequence → Parsed Bool
  unfolding check_signed signature_octets element
  verify_signature cert issuer = element cert 2 >>= λ signature.
      parsed (check_signed cert issuer (signature_octets signature.value))

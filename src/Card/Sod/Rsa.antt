-- ===== src/Card/Sod/Rsa.antt =====
-- VerificaSOD of shared/src/csp/ias.cpp: the security object signed by RSA with SHA-1 or SHA-256.
use opencie_pkcs.Base.{
  ℕ, Bool, true, false, not, List, [], ◌∷◌, if◌then◌else◌, Result, ok, throw, throw_if,
  logged_error, ◌>>=◌ as bind, ◌>>◌ as both,
}
use opencie_pkcs.Base.Map.{Map, insert}
use opencie_pkcs.Base.Outcome.{Outcome, outcome, ◌>>=◌}
use opencie_pkcs.Util.Array.{equal, mid_from}
use opencie_pkcs.Util.Asn1.{set_asn1_tag}
use opencie_pkcs.Util.Asn1.Tree.{AsnTag, AsnTags, nil, cons, child, check_tag}
use opencie_pkcs.Util.Asn1.Parse.{parse}
use opencie_pkcs.Util.Padding.BlockType1.{remove_padding_bt1}
use opencie_pkcs.Util.Padding.DigestInfo.{remove_sha1, remove_sha256}
use opencie_pkcs.Card.Sod.{
  SodCrypto, content, children, first_tag, path, verify_path, span, oid_sha256, signed_content,
  signed_attributes, attributes_to_sign, public_key, data_group,
}
use opencie_pkcs.Card.Sod.Pss.{Parts, read_issuers}

abbrev pub oid_rsa_sha256 : List ℕ
oid_rsa_sha256 = 0x2a ∷ 0x86 ∷ 0x48 ∷ 0x86 ∷ 0xf7 ∷ 0x0d ∷ 0x01 ∷ 0x01 ∷ 0x0b ∷ []

abbrev pub oid_rsa_sha1 : List ℕ
oid_rsa_sha1 = 0x2a ∷ 0x86 ∷ 0x48 ∷ 0x86 ∷ 0xf7 ∷ 0x0d ∷ 0x01 ∷ 0x01 ∷ 0x05 ∷ []

-- Whether the signature is over SHA-1; over SHA-256 else.
unfoldable pub is_sha1 : AsnTag → Result Bool
unfolding path equal
is_sha1 signer = bind (path signer ((4, 0x30) ∷ (0, 6) ∷ [])) (λ algo.
    if equal (content algo) oid_rsa_sha1
    then ok true
    else if equal (content algo) oid_rsa_sha256
    then ok false
    else throw logged_error)

unfoldable pub rsa_signer_parts : List ℕ → AsnTag → AsnTag → Result Parts
unfolding path verify_path signed_attributes
rsa_signer_parts tt temp2 signed = bind (path temp2 ((3, 0xa0) ∷ (0, 0x30) ∷ [])) (λ cert.
    bind (path temp2 ((4, 0x31) ∷ (0, 0x30) ∷ [])) (λ signer.
      both (verify_path signer ((0, 2) ∷ []) (1 ∷ [])) (
        bind (path signer ((1, 0x30) ∷ (0, 0x30) ∷ [])) (λ issuer.
          both (verify_path signer ((2, 0x30) ∷ (0, 6) ∷ []) oid_sha256) (
            bind (signed_attributes signer) (λ found. ok (record {
              tt_data = tt;
              signed_data = signed;
              certificate = cert;
              signer = signer;
              issuer = issuer;
              info = found.0;
              digest = found.1;
            })))))))

unfoldable pub rsa_sod_parts : List ℕ → Outcome Parts
unfolding parse signed_content rsa_signer_parts check_tag
rsa_sod_parts sod = parse sod >>= λ tags.
    outcome (bind (first_tag tags) (signed_content oid_sha256)) >>= λ found.
    parse (found.1) >>= λ tt_tags.
    outcome (bind (first_tag tt_tags) (λ t. check_tag t 0x30)) >>= λ signed.
    outcome (rsa_signer_parts (found.1) (found.0) signed)

-- The loop over the data groups logs what is missing or different; `hashSet[num]` makes an entry.
unfoldable pub log_groups : AsnTags → Map (List ℕ) → Result (Map (List ℕ))
unfolding data_group insert
log_groups nil hash_set = ok hash_set
log_groups (cons t ts) hash_set =
    bind (data_group t) (λ group. log_groups ts (insert (group.0) [] hash_set))

unfoldable pub rsa_group_hashes : AsnTag → Result AsnTags
unfolding verify_path child
rsa_group_hashes signed = both (verify_path signed ((0, 2) ∷ []) (0 ∷ [])) (
    both (verify_path signed ((1, 0x30) ∷ (0, 6) ∷ []) oid_sha256)
      (bind (child signed 2 0x30) (λ t. ok (children t))))

module _ (crypto : SodCrypto) where
  unfoldable pub check_rsa_digest : Parts → Result (Unit {0})
  unfolding span equal
  check_rsa_digest p =
      bind (span p.tt_data p.signed_data)
        (λ to_hash. throw_if (not (equal (crypto.sha256 to_hash) (content p.digest))) logged_error)

  -- The hash in the deciphered signature, and that of the attributes.
  unfoldable pub compare_hashes : Bool → List ℕ → List ℕ → Result (Unit {0})
  unfolding remove_sha1 remove_sha256 mid_from set_asn1_tag equal
  compare_hashes sha1 plain to_sign =
      bind (if sha1 then remove_sha1 plain else remove_sha256 plain) (λ k.
        bind (mid_from plain k) (λ hash. bind (set_asn1_tag 0x31 to_sign) (λ attributes.
          throw_if
            (not (equal (if sha1 then crypto.sha1 attributes else crypto.sha256 attributes) hash))
            logged_error)))

  unfoldable pub check_rsa_signature : List ℕ → Parts → Bool → AsnTag → Outcome (List ℕ)
  check_rsa_signature sod p sha1 signature =
      outcome (bind (span sod p.certificate) crypto.certificate_fields) >>= λ fields.
      public_key (fields.0) >>= λ key.
      outcome (
        bind (crypto.rsa_pure (key.0) (key.1) (content signature))
          (λ block. bind (remove_padding_bt1 block) (λ k. mid_from block k)))
      >>= λ plain. outcome (attributes_to_sign sod p.info) >>= λ to_sign.
          outcome (both (compare_hashes sha1 plain to_sign) (ok (fields.1)))

  -- The hash set is left with an entry for each data group of the object.
  unfoldable pub verifica_sod : List ℕ → Map (List ℕ) → Outcome (Map (List ℕ))
  verifica_sod sod hash_set = rsa_sod_parts sod >>= λ p. outcome (is_sha1 p.signer) >>= λ sha1.
      outcome (child p.signer 5 4) >>= λ signature. outcome (check_rsa_digest p) >>= λ u.
      check_rsa_signature sod p sha1 signature >>= λ issuer_ba.
      read_issuers p.issuer issuer_ba >>= λ t.
      outcome (bind (rsa_group_hashes p.signed_data) (λ groups. log_groups groups hash_set))

-- ===== src/Card/Sod/Pss.antt =====
-- VerificaSODPSS of shared/src/csp/ias.cpp: the security object signed by RSA-PSS with SHA-512.
use opencie_pkcs.Base.{
  ℕ, not, List, [], ◌∷◌, none, some, Result, ok, throw, throw_if, logged_error, ◌>>=◌ as bind,
  ◌>>◌ as both,
}
use opencie_pkcs.Base.Map.{Map, find}
use opencie_pkcs.Base.Outcome.{Outcome, outcome, ◌>>=◌}
use opencie_pkcs.Util.Array.{equal}
use opencie_pkcs.Util.Asn1.{set_asn1_tag}
use opencie_pkcs.Util.Asn1.Tree.{AsnTag, AsnTags, nil, cons, child, check_tag}
use opencie_pkcs.Util.Asn1.Parse.{parse, reparse}
use opencie_pkcs.Card.Sod.{
  SodCrypto, content, children, first_tag, path, verify_path, span, oid_sha512, signed_content,
  signed_attributes, attributes_to_sign, public_key, data_group,
}

-- What is found in the security object before anything is computed from it.
pub record Parts : Type 0 where
  pub tt_data : List ℕ
  pub signed_data : AsnTag
  pub certificate : AsnTag
  pub signer : AsnTag
  pub issuer : AsnTag
  pub info : AsnTag
  pub digest : AsnTag

abbrev pub oid_rsa_pss : List ℕ
oid_rsa_pss = 0x2a ∷ 0x86 ∷ 0x48 ∷ 0x86 ∷ 0xf7 ∷ 0x0d ∷ 0x01 ∷ 0x01 ∷ 0x0a ∷ []

-- The algorithms of the signature.
unfoldable pub check_algorithms : AsnTag → Result (Unit {0})
unfolding path equal
check_algorithms signer = bind (path signer ((4, 0x30) ∷ (0, 6) ∷ [])) (λ sign_algo.
    bind (path signer ((4, 0x30) ∷ (1, 0x30) ∷ (0, 0xa0) ∷ (0, 0x30) ∷ (0, 6) ∷ [])) (λ digest_algo.
      both (throw_if (not (equal (content digest_algo) oid_sha512)) logged_error)
        (throw_if (not (equal (content sign_algo) oid_rsa_pss)) logged_error)))

unfoldable pub signer_parts : List ℕ → List ℕ → AsnTag → AsnTag → Result Parts
unfolding path verify_path signed_attributes check_algorithms span
signer_parts sod tt temp2 signed = bind (path temp2 ((3, 0xa0) ∷ (0, 0x30) ∷ [])) (λ cert.
    bind (path temp2 ((4, 0x31) ∷ (0, 0x30) ∷ [])) (λ signer.
      both (verify_path signer ((0, 2) ∷ []) (1 ∷ [])) (
        bind (path signer ((1, 0x30) ∷ (0, 0x30) ∷ [])) (λ issuer.
          bind (path signer ((1, 0x30) ∷ (1, 2) ∷ [])) (λ serial.
            both (verify_path signer ((2, 0x30) ∷ (0, 6) ∷ []) oid_sha512) (
              bind (signed_attributes signer) (λ found. bind (span sod found.1) (λ digest_octets.
                both (check_algorithms signer) (
                  ok (record {
                    tt_data = tt;
                    signed_data = signed;
                    certificate = cert;
                    signer = signer;
                    issuer = issuer;
                    info = found.0;
                    digest = found.1;
                  }))))))))))

unfoldable pub sod_parts : List ℕ → Outcome Parts
unfolding parse signed_content signer_parts check_tag
sod_parts sod = parse sod >>= λ tags.
    outcome (bind (first_tag tags) (signed_content oid_sha512)) >>= λ found.
    parse (found.1) >>= λ tt_tags.
    outcome (bind (first_tag tt_tags) (λ t. check_tag t 0x30)) >>= λ signed.
    outcome (signer_parts sod (found.1) (found.0) signed)

-- A data group against the hashes of what has been read.
unfoldable pub check_group : Map (List ℕ) → ℕ × List ℕ → Result (Unit {0})
unfolding find equal
check_group hash_set group = elim (find (group.0) hash_set) [
  | none ↦ throw logged_error
  | some [] ↦ throw logged_error
  | some (h ∷ hs) ↦ throw_if (not (equal (h ∷ hs) (group.1))) logged_error
]

unfoldable pub check_groups : Map (List ℕ) → AsnTags → Result (Unit {0})
unfolding data_group
check_groups hash_set nil = ok tt
check_groups hash_set (cons t ts) =
    bind (data_group t) (λ group. both (check_group hash_set group) (check_groups hash_set ts))

-- The list of hashes in the signed data.
unfoldable pub group_hashes : AsnTag → Result AsnTags
unfolding verify_path child
group_hashes signed = both (verify_path signed ((0, 2) ∷ []) (1 ∷ [])) (
    both (verify_path signed ((1, 0x30) ∷ (0, 6) ∷ []) oid_sha512)
      (bind (child signed 2 0x30) (λ t. ok (children t))))

-- The name of the issuer is read twice and compared for the log alone.
unfoldable pub read_issuers : AsnTag → List ℕ → Outcome AsnTag
unfolding reparse parse
read_issuers issuer issuer_ba =
    reparse issuer >>= λ t. parse issuer_ba >>= λ tags. outcome (first_tag tags)

module _ (crypto : SodCrypto) where
  -- The digest among the attributes is that of the signed data.
  unfoldable pub check_digest : Parts → Result (Unit {0})
  unfolding span equal
  check_digest p =
      bind (span p.tt_data p.signed_data)
        (λ to_hash. throw_if (not (equal (crypto.sha512 to_hash) (content p.digest))) logged_error)

  -- The signature of the attributes, by the key of the certificate in the object.
  unfoldable pub check_signature : List ℕ → Parts → Outcome (List ℕ)
  check_signature sod p = outcome (child p.signer 5 4) >>= λ signature.
      outcome (bind (span sod p.certificate) crypto.certificate_fields) >>= λ fields.
      public_key (fields.0) >>= λ key.
      outcome (bind (attributes_to_sign sod p.info) (set_asn1_tag 0x31)) >>= λ to_sign. outcome (
        both
          (throw_if (not (crypto.rsa_pss (key.0) (key.1) (content signature) to_sign)) logged_error)
          (ok (fields.1)))

  unfoldable pub verifica_sod_pss : List ℕ → Map (List ℕ) → Outcome (Unit {0})
  verifica_sod_pss sod hash_set = sod_parts sod >>= λ p. outcome (check_digest p) >>= λ u.
      check_signature sod p >>= λ issuer_ba. read_issuers p.issuer issuer_ba >>= λ t.
      outcome (bind (group_hashes p.signed_data) (check_groups hash_set))

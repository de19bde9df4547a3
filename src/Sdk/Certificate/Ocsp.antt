-- ===== src/Sdk/Certificate/Ocsp.antt =====
-- Who may sign an OCSP response: HasExtendedKeyUsage and VerifyOCSPResponderSignature of
-- sign-sdk/src/asn1/certificate.cpp.
use opencie_pkcs.Base.{
  ℕ, zero, suc, ◌-◌, ◌≡◌, refl, ap, ◌∙◌, ◌⊎◌, inl, inr, Bool, true, false, not, Option, none, some,
  List, [], ◌∷◌, ◌==◌, if◌then◌else◌, arith,
}
use opencie_pkcs.Util.Array.{equal}
use opencie_pkcs.Sdk.Object.{
  Parsed, parsed, failed, object_not_found, bad_object, invalid_position, past_content, ◌>>=◌,
}
use opencie_pkcs.Sdk.Sequence.{GenericSequence, is_present}
use opencie_pkcs.Sdk.Scalars.{object_identifier}
use opencie_pkcs.Sdk.Certificate.{
  as_sequence, sequence_of, element, sub_sequence, get_extension, octet_content,
}
use opencie_pkcs.Sdk.Certificate.Signature.{CertificateCrypto, verify_signature}
use opencie_pkcs.Sdk.Certificate.Chain.{CertStore, get_certificate}
use opencie_pkcs.Sdk.Certificate.Accepted.{SignedBy, bind-parsed, verify_signature-SignedBy}

-- `catch (const CASN1Exception&) { return false; }`
unfoldable pub caught_asn1 : Parsed Bool → Parsed Bool
caught_asn1 (parsed b) = parsed b
caught_asn1 (failed object_not_found) = parsed false
caught_asn1 (failed bad_object) = parsed false
caught_asn1 (failed invalid_position) = failed invalid_position
caught_asn1 (failed past_content) = failed past_content

-- The loop over the purposes, with so many left.
unfoldable pub has_purpose : GenericSequence → List ℕ → ℕ → ℕ → Parsed Bool
unfolding element equal
has_purpose purposes target zero i = parsed false
has_purpose purposes target (suc left) i = element purposes i >>= λ purpose.
    let next = has_purpose purposes target left (suc i) in
    if equal purpose.value target then parsed true else next

unfoldable pub has_extended_key_usage : GenericSequence → List ℕ → Parsed Bool
unfolding get_extension object_identifier element octet_content caught_asn1 sequence_of has_purpose
has_extended_key_usage cert oid =
    get_extension cert (object_identifier (2 ∷ 5 ∷ 29 ∷ 37 ∷ [])) >>= λ eku.
    if eku.size == 0
    then parsed false
    else (element eku (eku.size - 1) >>= λ octets. octet_content octets >>= λ content.
        caught_asn1 (sequence_of content >>= λ purposes. has_purpose purposes oid purposes.size 0))

-- szOCSPSigningOID
abbrev pub ocsp_signing : List ℕ
ocsp_signing = object_identifier (1 ∷ 3 ∷ 6 ∷ 1 ∷ 5 ∷ 5 ∷ 7 ∷ 3 ∷ 9 ∷ [])

-- `a && b`, where b is computed only if a holds.
abbrev pub and_then : Parsed Bool → Parsed Bool → Parsed Bool
and_then a b = a >>= λ holds. if holds then b else parsed false

module _ (crypto : CertificateCrypto) where
  -- The three tests of a responder whose certificate is in the response.
  unfoldable pub is_responder : GenericSequence → GenericSequence → GenericSequence → Parsed Bool
  is_responder response issuer responder = and_then (verify_signature crypto responder issuer) (
      and_then (has_extended_key_usage responder ocsp_signing)
        (verify_signature crypto response responder))

  unfoldable pub find_responder :
      GenericSequence → GenericSequence → GenericSequence → ℕ → ℕ → Parsed Bool
  unfolding is_responder
  find_responder response issuer certs zero i = parsed false
  find_responder response issuer certs (suc left) i = sub_sequence certs i >>= λ responder.
      is_responder response issuer responder >>= λ found.
      let next = find_responder response issuer certs left (suc i) in
      if found then parsed true else next

  -- The certificates in the response, under the tag of an explicit [0].
  unfoldable pub delegated : GenericSequence → GenericSequence → Parsed Bool
  unfolding find_responder
  delegated response issuer = element response 3 >>= λ wrapped.
      if not (wrapped.tag == 0xA0)
      then parsed false
      else (as_sequence wrapped >>= λ wrapper.
          sub_sequence wrapper 0 >>= λ certs. find_responder response issuer certs certs.size 0)

  unfoldable pub verified_by : GenericSequence → Option GenericSequence → Parsed Bool
  unfolding delegated
  verified_by response none = parsed false
  verified_by response (some issuer) = verify_signature crypto response issuer >>= λ direct.
      if direct
      then parsed true
      else if not (is_present response 3)
      then parsed false
      else caught_asn1 (delegated response issuer)

  unfoldable pub verify_ocsp_responder_signature :
      (GenericSequence → Parsed (List ℕ))
      → CertStore
      → GenericSequence
      → GenericSequence
      → Parsed Bool
  unfolding verified_by
  verify_ocsp_responder_signature name_text store subject response =
      verified_by response (get_certificate name_text store subject)

  -- Signed by the issuer, or by a responder that the issuer has signed for the purpose.
  pub Answerable : GenericSequence → GenericSequence → Type 0
  Answerable response issuer =
      SignedBy crypto response issuer
      ⊎ ((responder : GenericSequence) × SignedBy crypto responder issuer
          × (has_extended_key_usage responder ocsp_signing ≡ parsed true)
          × SignedBy crypto response responder)

  and_then-true :
      (a b : Parsed Bool) → and_then a b ≡ parsed true → (a ≡ parsed true) × (b ≡ parsed true)
  and_then-true (parsed true) b e = (refl, e)
  and_then-true (parsed false) b e = absurd (ground (arith, e))
  and_then-true (failed x) b e = absurd (ground (arith, e))

  caught_asn1-true : (m : Parsed Bool) → caught_asn1 m ≡ parsed true → m ≡ parsed true
  unfolding caught_asn1
  caught_asn1-true (parsed b) e = e
  caught_asn1-true (failed object_not_found) e = absurd (ground (arith, e))
  caught_asn1-true (failed bad_object) e = absurd (ground (arith, e))
  caught_asn1-true (failed invalid_position) e = absurd (ground (arith, e))
  caught_asn1-true (failed past_content) e = absurd (ground (arith, e))

  is_responder-Answerable :
      (response issuer responder : GenericSequence)
      → is_responder response issuer responder ≡ parsed true
      → Answerable response issuer
  unfolding is_responder Answerable
  is_responder-Answerable response issuer responder e =
      let (signed, e1) = and_then-true (verify_signature crypto responder issuer) _ e in
      let (purpose, signs) = and_then-true (has_extended_key_usage responder ocsp_signing) _ e1 in
      inr (
        responder,
        verify_signature-SignedBy crypto responder issuer signed,
        purpose,
        verify_signature-SignedBy crypto response responder signs,
      )

  if_found :
      (b : Bool) (next : Parsed Bool)
      → (if b then parsed true else next) ≡ parsed true
      → (b ≡ true) ⊎ (next ≡ parsed true)
  if_found true next e = inl refl
  if_found false next e = inr e

  if_not :
      (b : Bool) (m : Parsed Bool) → (if b then parsed false else m) ≡ parsed true → m ≡ parsed true
  if_not true m e = absurd (ground (arith, e))
  if_not false m e = e

  find_responder-Answerable :
      (response issuer certs : GenericSequence) (left i : ℕ)
      → find_responder response issuer certs left i ≡ parsed true
      → Answerable response issuer
  unfolding find_responder
  find_responder-Answerable response issuer certs zero i e = absurd (ground (arith, e))
  find_responder-Answerable response issuer certs (suc left) i e =
      let (responder, q1, e1) = bind-parsed (sub_sequence certs i) _ true e in
      let (found, q2, e2) = bind-parsed (is_responder response issuer responder) _ true e1 in
      elim (if_found found _ e2) [
        | inl f ↦ is_responder-Answerable response issuer responder (q2 ∙ ap parsed f)
        | inr n ↦ find_responder-Answerable response issuer certs left (suc i) n
      ]

  delegated-Answerable :
      (response issuer : GenericSequence)
      → delegated response issuer ≡ parsed true
      → Answerable response issuer
  unfolding delegated
  delegated-Answerable response issuer e =
      let (wrapped, q1, e1) = bind-parsed (element response 3) _ true e in
      let (wrapper, q2, e2) = bind-parsed (as_sequence wrapped) _ true (if_not _ _ e1) in
      let (certs, q3, e3) = bind-parsed (sub_sequence wrapper 0) _ true e2 in
      find_responder-Answerable response issuer certs certs.size 0 e3

  verified_by-Answerable :
      (response : GenericSequence) (found : Option GenericSequence)
      → verified_by response found ≡ parsed true
      → (issuer : GenericSequence) × (found ≡ some issuer) × Answerable response issuer
  unfolding verified_by Answerable
  verified_by-Answerable response none e = absurd (ground (arith, e))
  verified_by-Answerable response (some issuer) e =
      let (direct, q1, e1) = bind-parsed (verify_signature crypto response issuer) _ true e in
      (
        issuer,
        refl,
        elim (if_found direct _ e1) [
          | inl d ↦ inl (verify_signature-SignedBy crypto response issuer (q1 ∙ ap parsed d))
          | inr m ↦
              delegated-Answerable response issuer
                (caught_asn1-true (delegated response issuer) (if_not _ _ m))
        ],
      )

  -- Where VerifyOCSPResponderSignature answers true, the store has an issuer of the certificate in
  -- question, and the response is signed by that issuer or by a certificate that the issuer has
  -- signed and that has the extended key usage for OCSP signing.
  pub verify_ocsp_responder_signature-Answerable :
      (name_text : GenericSequence → Parsed (List ℕ)) (store : CertStore)
      (subject response : GenericSequence)
      → verify_ocsp_responder_signature name_text store subject response ≡ parsed true
      → (issuer : GenericSequence) × (get_certificate name_text store subject ≡ some issuer)
        × Answerable response issuer
  unfolding verify_ocsp_responder_signature
  verify_ocsp_responder_signature-Answerable name_text store subject response e =
      verified_by-Answerable response (get_certificate name_text store subject) e

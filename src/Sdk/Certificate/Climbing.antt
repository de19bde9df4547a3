-- ===== src/Sdk/Certificate/Climbing.antt =====
-- The loop of CCertificate::verify over the store.
use mathlib.Core.Path.{subst}
use mathlib.Core.Option.{some-injective}
use opencie_pkcs.Base.{
  ℕ, zero, suc, ◌+◌, ◌≡◌, refl, sym, ap, ◌∙◌, ◌⊎◌, inl, inr, Bool, true, false, Option, none, some,
  List, if◌then◌else◌, Bool-cases, Option-cases, arith,
}
use opencie_pkcs.Sdk.Object.{Asn1Error, Parsed, parsed, failed, same_object}
use opencie_pkcs.Sdk.Sequence.{GenericSequence}
use opencie_pkcs.Sdk.Certificate.{get_issuer, get_subject}
use opencie_pkcs.Sdk.Certificate.Signature.{CertificateCrypto, verify_signature}
use opencie_pkcs.Sdk.Certificate.Accepted.{
  SignedBy, verify_signature-SignedBy, bind-parsed, parsed-injective,
}
use opencie_pkcs.Sdk.Certificate.Chain.{
  CertStore, get_certificate, verified_cacert_found, verified_cert_chain, Climbed, after_step, step,
  climb, is_trust_anchor, conclude, verified_bits, bits_of, verify,
}

pub verified-cases :
    (m : Parsed Bool)
    → (m ≡ parsed true) ⊎ ((m ≡ parsed false) ⊎ ((x : Asn1Error) × (m ≡ failed x)))
verified-cases (parsed true) = inl refl
verified-cases (parsed false) = inr (inl refl)
verified-cases (failed x) = inr (inr (x, refl))

module _ (name_text : GenericSequence → Parsed (List ℕ)) (crypto : CertificateCrypto)
    (store : CertStore) where
  -- One certificate or more, each the issuer that the store has for the one before, whose signature it
  -- verifies.
  pub data Chain : GenericSequence → GenericSequence → Type 0 where
    one :
        {c ca : GenericSequence}
        → get_certificate name_text store c ≡ some ca
        → SignedBy crypto c ca
        → Chain c ca
    up :
        {c ca root : GenericSequence}
        → get_certificate name_text store c ≡ some ca
        → SignedBy crypto c ca
        → Chain ca root
        → Chain c root

  -- What the loop ends with.
  Ended : GenericSequence → Bool → Climbed → Type 0
  Ended cert found r =
      (get_certificate name_text store r.last ≡ r.above)
      × ((r.last ≡ cert × r.found ≡ found) ⊎ Chain cert r.last)

  Ended-here :
      (cert : GenericSequence) (found : Bool) (above : Option GenericSequence) (r : Climbed)
      → get_certificate name_text store cert ≡ above
      → some (parsed (record { last = cert; above = above; found = found })) ≡ some (parsed r)
      → Ended cert found r
  unfolding Ended
  Ended-here cert found above r e h =
      let at : Climbed = record { last = cert; above = above; found = found } in
      subst (Ended cert found) (parsed-injective at r (some-injective (parsed at) (parsed r) h))
        (e, inl (refl, refl))

  -- A step, and what the loop ends with from the issuer on.
  Ended-step :
      (cert ca : GenericSequence) (found : Bool) (r : Climbed)
      → get_certificate name_text store cert ≡ some ca
      → verify_signature crypto cert ca ≡ parsed true
      → Ended ca true r
      → Ended cert found r
  unfolding Ended
  Ended-step cert ca found r e v (top, inl (l, f)) =
      (top, inr (subst (Chain cert) (sym l) (one e (verify_signature-SignedBy crypto cert ca v))))
  Ended-step cert ca found r e v (top, inr chain) =
      (top, inr (up e (verify_signature-SignedBy crypto cert ca v) chain))

  climb-Ended :
      (fuel : ℕ) (cert : GenericSequence) (found : Bool) (r : Climbed)
      → climb name_text crypto fuel store cert found ≡ some (parsed r)
      → Ended cert found r
  unfolding climb step after_step
  climb-Ended zero cert found r h = absurd (ground (arith, h))
  climb-Ended (suc fuel) cert found r h =
      elim (Option-cases (get_certificate name_text store cert)) [
        | inl e ↦ Ended-here cert found none r e (rw e at h)
        | inr (ca, e) ↦ elim (verified-cases (verify_signature crypto cert ca)) [
          | inl v ↦ Ended-step cert ca found r e v (climb-Ended fuel ca true r (rw (e, v) at h))
          | inr (inl v) ↦ Ended-here cert found (some ca) r e (rw (e, v) at h)
          | inr (inr (x, v)) ↦ absurd (ground (arith, rw (e, v) at h))
        ]
      ]

  -- A certificate that names itself as its issuer and verifies its own signature.
  pub record Anchor (root : GenericSequence) : Type 0 where
    pub issuer : GenericSequence
    pub has_issuer : get_issuer root ≡ parsed issuer
    pub subject : GenericSequence
    pub has_subject : get_subject root ≡ parsed subject
    pub same : same_object issuer.object subject.object ≡ true
    pub signed : SignedBy crypto root root

  same_and :
      (b : Bool) (m : Parsed Bool)
      → (if b then m else parsed false) ≡ parsed true
      → (b ≡ true) × (m ≡ parsed true)
  same_and true m e = (refl, e)
  same_and false m e = absurd (ground (arith, e))

  is_trust_anchor-Anchor :
      (root : GenericSequence) → is_trust_anchor name_text crypto root ≡ parsed true → Anchor root
  unfolding is_trust_anchor
  is_trust_anchor-Anchor root e =
      let (issuer, q1, e1) = bind-parsed (get_issuer root) _ true e in
      let (subject, q2, e2) = bind-parsed (get_subject root) _ true e1 in
      let (same, signed) = same_and (same_object issuer.object subject.object) _ e2 in
      record {
        issuer = issuer;
        has_issuer = q1;
        subject = subject;
        has_subject = q2;
        same = same;
        signed = verify_signature-SignedBy crypto root root signed;
      }

  -- The bit of a whole chain is set only at the end of a climb with a step, over an anchor.
  conclude-chain :
      (above : Option GenericSequence) (found : Bool) (last : GenericSequence)
      → conclude name_text crypto above found last
        ≡ parsed (verified_cacert_found + verified_cert_chain)
      → (found ≡ true) × Anchor last
  unfolding conclude
  conclude-chain (some ca) true last e = absurd (ground (arith, e))
  conclude-chain (some ca) false last e = absurd (ground (arith, e))
  conclude-chain none false last e = absurd (ground (arith, e))
  conclude-chain none true last e =
      let (anchor, q, r) = bind-parsed (is_trust_anchor name_text crypto last) _ _ e in
      (
        refl,
        is_trust_anchor-Anchor last (elim (Bool-cases anchor) [
          | inl y ↦ q ∙ ap parsed y
          | inr n ↦ absurd (ground (arith, rw n at r))
        ]),
      )

  -- Where CCertificate::verify answers both VERIFIED_CACERT_FOUND and VERIFIED_CERT_CHAIN, there
  -- is a chain of one or more certificates out of the store from the certificate up, each the
  -- issuer that GetCertificate finds for the one before and the signer of it, and the last one has
  -- the same issuer and subject and has signed itself.
  pub verify-Chain :
      (fuel : ℕ) (cert : GenericSequence)
      → verify name_text crypto fuel store cert
        ≡ some (parsed (verified_cacert_found + verified_cert_chain))
      → (root : GenericSequence) × Chain cert root × Anchor root
  unfolding verify bits_of verified_bits Ended
  verify-Chain fuel cert h = elim (Option-cases (climb name_text crypto fuel store cert false)) [
    | inl e ↦ absurd (ground (arith, rw e at h))
    | inr (p, e) ↦
        let (c, q, r) = bind-parsed p _ _ (some-injective _ _ (rw e at h)) in
        let (found, anchor) = conclude-chain c.above c.found c.last r in
        let (top, way) = climb-Ended fuel cert false c (rw (e, q) refl) in
        elim way [
          | inl (l, f) ↦ absurd (ground (arith, f, found))
          | inr chain ↦ (c.last, chain, anchor)
        ]
  ]

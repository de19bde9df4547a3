-- ===== src/Sdk/Certificate/Accepted.antt =====
-- What a true answer of verifySignature and the bit of a whole chain stand for.
use opencie_pkcs.Base.{
  ℕ, ◌≡◌, refl, sym, ap, ◌∙◌, ◌⊎◌, inl, inr, Bool, true, false, not, Option, none, some, List, [],
  ◌∷◌, ◌==◌, if◌then◌else◌, length, Bool-cases, arith,
}
use opencie_pkcs.Util.Array.{equal, equal_sound}
use opencie_pkcs.Sdk.Object.{Asn1Object, Parsed, parsed, failed, ◌>>=◌, to_byte_array, from_reader}
use opencie_pkcs.Sdk.Sequence.{GenericSequence}
use opencie_pkcs.Sdk.Certificate.{as_sequence, element, sub_sequence, get_certificate_info}
use opencie_pkcs.Sdk.Certificate.Signature.{
  CertificateCrypto, consistent_sha256, consistent_sha1, right_hash, signature_octets, caught,
  check_certificate_digest, check_block, check_recovered, check_signed, verify_signature,
}

-- A chain of parsing steps that succeeds, taken apart.
pub bind-parsed {ℓ κ} :
    {A : Type ℓ} {B : Type κ} (m : Parsed A) (f : A → Parsed B) (b : B)
    → (m >>= f) ≡ parsed b
    → (a : A) × (m ≡ parsed a) × (f a ≡ parsed b)
bind-parsed (parsed a) f b e = (a, refl, e)
bind-parsed (failed x) f b e = absurd (ground (arith, e))

-- What a signature by an issuer is: its octets recover to one DigestInfo of a hash of the encoded
-- certificate info, with the algorithm that the certificate declares.
pub record SignedBy (crypto : CertificateCrypto) (cert issuer : GenericSequence) : Type 0 where
  pub signature : Asn1Object
  pub has_signature : element cert 2 ≡ parsed signature
  pub encrypted : List ℕ
  pub whole_octets : signature_octets signature.value ≡ some encrypted
  pub block : List ℕ
  pub recovered : crypto.recover (to_byte_array issuer.object) encrypted ≡ some block
  pub info_object : Asn1Object
  pub exact : from_reader block ≡ parsed (info_object, [])
  pub digest_info : GenericSequence
  pub has_digest_info : as_sequence info_object ≡ parsed digest_info
  pub declared_algo : GenericSequence
  pub has_declared_algo : sub_sequence cert 1 ≡ parsed declared_algo
  pub declared : Asn1Object
  pub has_declared : element declared_algo 0 ≡ parsed declared
  pub digest : Asn1Object
  pub has_digest : element digest_info 1 ≡ parsed digest
  pub info : GenericSequence
  pub has_info : get_certificate_info cert ≡ parsed info
  pub hashed :
      (algo : Asn1Object) × ((consistent_sha256 declared algo ≡ true
          × digest.value ≡ crypto.sha256 (to_byte_array info.object))
        ⊎ (consistent_sha1 declared algo ≡ true
            × digest.value ≡ crypto.sha1 (to_byte_array info.object)))

pub parsed-injective {ℓ} : {A : Type ℓ} (a b : A) → parsed a ≡ parsed b → a ≡ b
parsed-injective a b e = ground (arith, e)

caught-true : (m : Parsed Bool) → caught m ≡ true → m ≡ parsed true
unfolding caught
caught-true (parsed b) e = ap parsed e
caught-true (failed x) e = absurd (ground (arith, e))

if-true : (b c : Bool) → (if b then false else c) ≡ true → (b ≡ false) × (c ≡ true)
if-true true c e = absurd (ground (arith, e))
if-true false c e = (refl, e)

right_hash-true : (n : ℕ) (hash digest : List ℕ) → right_hash n hash digest ≡ true → digest ≡ hash
unfolding right_hash
right_hash-true n hash digest e = elim (Bool-cases (equal hash digest)) [
  | inl q ↦ sym (equal_sound hash digest q)
  | inr q ↦ absurd (ground (arith, e, q))
]

module _ (crypto : CertificateCrypto) where
  digest-true :
      (declared algo : Asn1Object) (info : GenericSequence) (digest : List ℕ)
      → check_certificate_digest crypto declared algo info digest ≡ true
      → (consistent_sha256 declared algo ≡ true
          × digest ≡ crypto.sha256 (to_byte_array (info.object)))
        ⊎ (consistent_sha1 declared algo ≡ true
            × digest ≡ crypto.sha1 (to_byte_array (info.object)))
  unfolding check_certificate_digest
  digest-true declared algo info digest e =
      let content = to_byte_array (info.object) in
      elim (Bool-cases (consistent_sha256 declared algo)) [
        | inl a ↦ inl (a, right_hash-true 32 (crypto.sha256 content) digest (rw a at e))
        | inr a ↦ elim (Bool-cases (consistent_sha1 declared algo)) [
          | inl b ↦ inr (b, right_hash-true 20 (crypto.sha1 content) digest (rw (a, b) at e))
          | inr b ↦ absurd (ground (arith, a, b, e))
        ]
      ]

  check_recovered-true :
      (cert : GenericSequence) (r : Option (List ℕ))
      → check_recovered crypto cert r ≡ true
      → (block : List ℕ) × (r ≡ some block) × (check_block crypto cert block ≡ parsed true)
  unfolding check_recovered
  check_recovered-true cert none e = absurd (ground (arith, e))
  check_recovered-true cert (some []) e = absurd (ground (arith, e))
  check_recovered-true cert (some (b ∷ bs)) e =
      (b ∷ bs, refl, caught-true (check_block crypto cert (b ∷ bs)) e)

  check_signed-true :
      (cert issuer : GenericSequence) (octets : Option (List ℕ))
      → check_signed crypto cert issuer octets ≡ true
      → (encrypted : List ℕ) × (octets ≡ some encrypted)
        × (check_recovered crypto cert (crypto.recover (to_byte_array (issuer.object)) encrypted)
            ≡ true)
  unfolding check_signed
  check_signed-true cert issuer none e = absurd (ground (arith, e))
  check_signed-true cert issuer (some encrypted) e = (encrypted, refl, e)

  nothing_left :
      (left : List ℕ) (m : Parsed Bool)
      → (if not (length left == 0) then parsed false else m) ≡ parsed true
      → (left ≡ []) × (m ≡ parsed true)
  nothing_left [] m e = (refl, e)
  nothing_left (b ∷ bs) m e = absurd (ground (arith, e))

  -- Where CCertificate::verifySignature answers true, the signature of the certificate has no
  -- unused bits and recovers under the key of the issuer to the octets of one DigestInfo and
  -- nothing behind it, whose digest is the SHA-256 or SHA-1 hash of the encoded certificate info,
  -- and the signature algorithm that the certificate declares is RSA with that hash.
  pub verify_signature-SignedBy :
      (cert issuer : GenericSequence)
      → verify_signature crypto cert issuer ≡ parsed true
      → SignedBy crypto cert issuer
  unfolding verify_signature check_block
  verify_signature-SignedBy cert issuer e =
      let (signature, q1, e1) = bind-parsed (element cert 2) _ true e in
      let (encrypted, q2, e2) =
        check_signed-true cert issuer (signature_octets signature.value)
          (parsed-injective _ true e1) in
      let (block, q3, e3) = check_recovered-true cert _ e2 in
      let (r, q4, e4) = bind-parsed (from_reader block) _ true e3 in
      let (digest_info, q5, e5) = bind-parsed (as_sequence (r.0)) _ true e4 in
      let (left, e6) = nothing_left (r.1) _ e5 in
      let (digest_algo, q7, e7) = bind-parsed (sub_sequence digest_info 0) _ true e6 in
      let (declared_algo, q8, e8) = bind-parsed (sub_sequence cert 1) _ true e7 in
      let (declared, q9, e9) = bind-parsed (element declared_algo 0) _ true e8 in
      let (algo, q10, e10) = bind-parsed (element digest_algo 0) _ true e9 in
      let (digest, q11, e11) = bind-parsed (element digest_info 1) _ true e10 in
      let (info, q12, e12) = bind-parsed (get_certificate_info cert) _ true e11 in
      record {
        signature = signature;
        has_signature = q1;
        encrypted = encrypted;
        whole_octets = q2;
        block = block;
        recovered = q3;
        info_object = r.0;
        exact = q4 ∙ ap (λ l. parsed (r.0, l)) left;
        digest_info = digest_info;
        has_digest_info = q5;
        declared_algo = declared_algo;
        has_declared_algo = q8;
        declared = declared;
        has_declared = q9;
        digest = digest;
        has_digest = q11;
        info = info;
        has_info = q12;
        hashed = (algo, digest-true declared algo info digest.value (parsed-injective _ true e12));
      }

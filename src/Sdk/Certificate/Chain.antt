-- ===== src/Sdk/Certificate/Chain.antt =====
-- CCertStore of sign-sdk/src/cert_store.cpp, and CCertificate::verify over it.
use opencie_pkcs.Base.{
  ℕ, zero, suc, ◌+◌, ◌*◌, ◌/◌, ◌%◌, ◌^◌, Bool, true, false, ◌&&◌, not, Option, none, some, List, [],
  ◌∷◌, ltb, ◌==◌, if◌then◌else◌, length, drop,
}
use opencie_pkcs.Base.Map.{Map, find, assign}
use opencie_pkcs.Util.Array.{equal}
use opencie_pkcs.Util.Hex.{dump_hex_data}
use opencie_pkcs.Sdk.Object.{Asn1Object, Parsed, parsed, failed, ◌>>=◌, same_object}
use opencie_pkcs.Sdk.Sequence.{GenericSequence}
use opencie_pkcs.Sdk.Certificate.{
  get_authority_key_identifier, get_subject_key_identifier, get_issuer, get_subject,
  get_serial_number,
}
use opencie_pkcs.Sdk.Certificate.Signature.{CertificateCrypto, verify_signature}

-- A signed char, on an unsigned of 32 bits.
unfoldable pub char_value : ℕ → ℕ
char_value c = if ltb c 0x80 then c else 0xffffff00 + c

unfoldable pub hash_chars : ℕ → ℕ → List ℕ → ℕ
unfolding char_value
hash_chars factor h [] = h
hash_chars factor h (c ∷ cs) = hash_chars factor ((h * factor + char_value c) % 2 ^ 32) cs

-- The characters at 0, `skip`, 2 * `skip` and so on; the length is fuel enough.
unfoldable pub sampled : ℕ → ℕ → List ℕ → List ℕ
sampled zero skip cs = []
sampled (suc fuel) skip [] = []
sampled (suc fuel) skip (c ∷ cs) = c ∷ sampled fuel skip (drop skip (c ∷ cs))

unfoldable pub get_hash : List ℕ → ℕ
unfolding hash_chars sampled
get_hash key =
    if ltb (length key) 16
    then hash_chars 37 0 key
    else hash_chars 39 0 (sampled (length key) (length key / 8) key)

-- `catch (...)` of GetCertificate and AddCertificate.
unfoldable pub otherwise {ℓ} : {A : Type ℓ} → A → Parsed A → A
otherwise a (parsed b) = b
otherwise a (failed e) = a

-- The store by hashes. `name_text` is CName::getNameAsString, which writes the names of the fields out
-- of a table that is read at run time.
abbrev pub CertStore : Type 0
CertStore = Map GenericSequence

module _ (name_text : GenericSequence → Parsed (List ℕ)) where
  unfoldable pub store_key : Asn1Object → Parsed GenericSequence → Parsed ℕ
  unfolding get_hash dump_hex_data
  store_key identifier name =
      if ltb 0 (length identifier.value)
      then parsed (get_hash (dump_hex_data identifier.value true true))
      else (name >>= name_text >>= λ text. parsed (get_hash text))

  -- AddCertificate: a certificate that does not parse is not added, and one with the key of another
  -- takes its place.
  unfoldable pub add_certificate : CertStore → GenericSequence → CertStore
  unfolding store_key assign otherwise
  add_certificate store cert = otherwise store (
      get_subject_key_identifier cert >>= λ ski.
      store_key ski (get_subject cert) >>= λ key. parsed (assign key cert store))

  -- What GetCertificate asks of a candidate.
  unfoldable pub is_issuer : GenericSequence → Asn1Object → GenericSequence → Parsed Bool
  unfolding same_object equal
  is_issuer cert aki candidate = get_serial_number candidate >>= λ candidate_serial.
      get_serial_number cert >>= λ serial.
      if same_object candidate_serial serial
      then parsed false
      else (get_subject candidate >>= λ subject. get_issuer cert >>= λ issuer.
          if not (same_object (subject.object) (issuer.object))
          then parsed false
          else if length aki.value == 0
          then parsed true
          else (get_subject_key_identifier candidate >>= λ ski.
              parsed (not (length ski.value == 0) && equal ski.value aki.value)))

  unfoldable pub check_candidate :
      GenericSequence → Asn1Object → Option GenericSequence → Parsed (Option GenericSequence)
  unfolding is_issuer
  check_candidate cert aki none = parsed none
  check_candidate cert aki (some candidate) =
      is_issuer cert aki candidate >>= λ ok. parsed (if ok then some candidate else none)

  unfoldable pub get_certificate : CertStore → GenericSequence → Option GenericSequence
  unfolding store_key find check_candidate otherwise
  get_certificate store cert = otherwise none (
      get_authority_key_identifier cert >>= λ aki.
      store_key aki (get_issuer cert) >>= λ key. check_candidate cert aki (find key store))

-- VERIFIED_CACERT_FOUND and VERIFIED_CERT_CHAIN
abbrev pub verified_cacert_found : ℕ
verified_cacert_found = 0x100000

abbrev pub verified_cert_chain : ℕ
verified_cert_chain = 0x40

-- Where the loop of verify ends: the last certificate, its issuer if the store has one, and whether
-- any step was taken.
pub record Climbed : Type 0 where
  pub last : GenericSequence
  pub above : Option GenericSequence
  pub found : Bool

module _ (name_text : GenericSequence → Parsed (List ℕ)) (crypto : CertificateCrypto) where
  -- The answer of verifySignature by the issuer that the store has.
  unfoldable pub after_step :
      (GenericSequence → Option (Parsed Climbed))
      → GenericSequence
      → GenericSequence
      → Bool
      → Parsed Bool
      → Option (Parsed Climbed)
  after_step again cert ca found (failed e) = some (failed e)
  after_step again cert ca found (parsed true) = again ca
  after_step again cert ca found (parsed false) =
      some (parsed (record { last = cert; above = some ca; found = found }))

  unfoldable pub step :
      (GenericSequence → Option (Parsed Climbed))
      → GenericSequence
      → Bool
      → Option GenericSequence
      → Option (Parsed Climbed)
  unfolding after_step
  step again cert found none = some (parsed (record { last = cert; above = none; found = found }))
  step again cert found (some ca) = after_step again cert ca found (verify_signature crypto cert ca)

  -- The loop of verify on fuel: nothing in the code bounds it. None is that the fuel is used up.
  unfoldable pub climb : ℕ → CertStore → GenericSequence → Bool → Option (Parsed Climbed)
  unfolding step
  climb zero store cert found = none
  climb (suc fuel) store cert found =
      step (λ ca. climb fuel store ca true) cert found (get_certificate name_text store cert)

  unfoldable pub is_trust_anchor : GenericSequence → Parsed Bool
  unfolding same_object
  is_trust_anchor cert = get_issuer cert >>= λ issuer. get_subject cert >>= λ subject.
      if same_object (issuer.object) (subject.object)
      then verify_signature crypto cert cert
      else parsed false

  unfoldable pub conclude : Option GenericSequence → Bool → GenericSequence → Parsed ℕ
  unfolding is_trust_anchor
  conclude (some ca) found last = parsed (if found then verified_cacert_found else 0)
  conclude none false last = parsed 0
  conclude none true last = is_trust_anchor last >>= λ anchor.
      parsed (if anchor then verified_cacert_found + verified_cert_chain else verified_cacert_found)

  unfoldable pub verified_bits : Climbed → Parsed ℕ
  unfolding conclude
  verified_bits c = conclude c.above c.found c.last

  unfoldable pub bits_of : Option (Parsed Climbed) → Option (Parsed ℕ)
  unfolding verified_bits
  bits_of none = none
  bits_of (some climbed) = some (climbed >>= verified_bits)

  unfoldable pub verify : ℕ → CertStore → GenericSequence → Option (Parsed ℕ)
  unfolding climb bits_of
  verify fuel store cert = bits_of (climb fuel store cert false)

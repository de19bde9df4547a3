-- ===== src/Card/Sod/Accepted.antt =====
-- What VerificaSODPSS has seen of a security object that it accepts.
use opencie_pkcs.Base.{
  ℕ, ◌≡◌, refl, ap, Bool, true, false, not, List, [], ◌∷◌, Option, none, some, Exception, Result,
  ok, throw, throw_if, logged_error, ◌>>=◌ as bind, arith,
}
use opencie_pkcs.Base.Map.{Map, find}
use opencie_pkcs.Base.Outcome.{Outcome, done, thrown, running, outcome, ◌>>=◌}
use opencie_pkcs.Util.Array.{equal, equal_sound}
use opencie_pkcs.Util.Asn1.{set_asn1_tag}
use opencie_pkcs.Util.Asn1.Tree.{AsnTag, AsnTags, nil, cons, child}
use opencie_pkcs.Card.Sod.{SodCrypto, content, span, attributes_to_sign, public_key, data_group}
use opencie_pkcs.Card.Sod.Pss.{
  Parts, sod_parts, check_group, check_groups, group_hashes, read_issuers, check_digest,
  check_signature, verifica_sod_pss,
}

bind-done {ℓ κ} :
    {A : Type ℓ} {B : Type κ} (r : Outcome A) (f : A → Outcome B) (b : B)
    → (r >>= f) ≡ done b
    → (a : A) × (r ≡ done a) × (f a ≡ done b)
bind-done (done a) f b e = (a, refl, e)
bind-done (thrown x) f b e = absurd (ground arith)
bind-done running f b e = absurd (ground arith)

bind-ok {ℓ κ} :
    {A : Type ℓ} {B : Type κ} (r : Result A) (f : A → Result B) (b : B)
    → bind r f ≡ ok b
    → (a : A) × (r ≡ ok a) × (f a ≡ ok b)
bind-ok (ok a) f b e = (a, refl, e)
bind-ok (throw x) f b e = absurd (ground arith)

outcome-done {ℓ} : {A : Type ℓ} (r : Result A) (a : A) → outcome r ≡ done a → r ≡ ok a
outcome-done (ok b) a e = ground arith
outcome-done (throw x) a e = absurd (ground arith)

throw_if-ok : (b : Bool) (e : Exception) → throw_if (not b) e ≡ ok tt → b ≡ true
throw_if-ok true e h = refl
throw_if-ok false e h = absurd (ground arith)

-- Every data group of the list has been read with the hash that the list has for it.
unfoldable pub Matches : Map (List ℕ) → AsnTags → Type 0
Matches hash_set nil = Unit {0}
Matches hash_set (cons t ts) =
    ((n : ℕ) × (h : List ℕ) × (data_group t ≡ ok (n, h)) × (find n hash_set ≡ some h))
    × Matches hash_set ts

-- The attributes carry the hash of the signed data, and a signature of them is right under the key
-- of the certificate in the object.
pub record Signed (crypto : SodCrypto) (sod : List ℕ) (p : Parts) : Type 0 where
  pub to_hash : List ℕ
  pub hashed : span p.tt_data p.signed_data ≡ ok to_hash
  pub right_digest : crypto.sha512 to_hash ≡ content p.digest
  pub signature : AsnTag
  pub has_signature : child p.signer 5 4 ≡ ok signature
  pub fields : List ℕ × List ℕ
  pub has_fields : bind (span sod p.certificate) crypto.certificate_fields ≡ ok fields
  pub key : List ℕ × List ℕ
  pub has_key : public_key (fields.0) ≡ done key
  pub to_sign : List ℕ
  pub has_attributes : bind (attributes_to_sign sod p.info) (set_asn1_tag 0x31) ≡ ok to_sign
  pub verified : crypto.rsa_pss (key.0) (key.1) (content signature) to_sign ≡ true

check_group-find :
    (hash_set : Map (List ℕ)) (n : ℕ) (h : List ℕ)
    → check_group hash_set (n, h) ≡ ok tt
    → find n hash_set ≡ some h
unfolding check_group
check_group-find hash_set n h e = found (find n hash_set) e
  where
    found :
        (o : Option (List ℕ))
        → elim o [
          | none ↦ throw logged_error
          | some [] ↦ throw logged_error
          | some (b ∷ bs) ↦ throw_if (not (equal (b ∷ bs) h)) logged_error
        ]
          ≡ ok tt
        → o ≡ some h
    found none q = absurd (ground arith)
    found (some []) q = absurd (ground arith)
    found (some (b ∷ bs)) q =
        ap some (equal_sound (b ∷ bs) h (throw_if-ok (equal (b ∷ bs) h) logged_error q))

check_groups-Matches :
    (hash_set : Map (List ℕ)) (tags : AsnTags)
    → check_groups hash_set tags ≡ ok tt
    → Matches hash_set tags
unfolding check_groups Matches
check_groups-Matches hash_set nil e = tt
check_groups-Matches hash_set (cons t ts) e =
    let ((n, h), group, rest) = bind-ok (data_group t) _ tt e in
    let (u, one, more) = bind-ok (check_group hash_set (n, h)) _ tt rest in
    ((n, h, group, check_group-find hash_set n h one), check_groups-Matches hash_set ts more)

module _ (crypto : SodCrypto) where
  check_digest-ok :
      (p : Parts)
      → check_digest crypto p ≡ ok tt
      → (to_hash : List ℕ) × (span p.tt_data p.signed_data ≡ ok to_hash)
        × (crypto.sha512 to_hash ≡ content p.digest)
  unfolding check_digest
  check_digest-ok p e =
      let (to_hash, found, rest) = bind-ok (span p.tt_data p.signed_data) _ tt e in
      let same = throw_if-ok (equal (crypto.sha512 to_hash) (content p.digest)) logged_error rest in
      (to_hash, found, equal_sound (crypto.sha512 to_hash) (content p.digest) same)

  signed :
      (sod : List ℕ) (p : Parts) (issuer_ba : List ℕ)
      → check_digest crypto p ≡ ok tt
      → check_signature crypto sod p ≡ done issuer_ba
      → Signed crypto sod p
  unfolding check_signature
  signed sod p issuer_ba digest e =
      let (to_hash, hashed, right) = check_digest-ok p digest in
      let (signature, q1, e1) = bind-done (outcome (child p.signer 5 4)) _ issuer_ba e in
      let (fields, q2, e2) =
        bind-done (outcome (bind (span sod p.certificate) crypto.certificate_fields)) _ issuer_ba
          e1 in
      let (key, q3, e3) = bind-done (public_key (fields.0)) _ issuer_ba e2 in
      let (to_sign, q4, e4) =
        bind-done (outcome (bind (attributes_to_sign sod p.info) (set_asn1_tag 0x31))) _ issuer_ba
          e3 in
      let pss = crypto.rsa_pss (key.0) (key.1) (content signature) to_sign in
      let (u, q5, e5) =
        bind-ok (throw_if (not pss) logged_error) _ issuer_ba (outcome-done _ issuer_ba e4) in
      record {
        to_hash = to_hash;
        hashed = hashed;
        right_digest = right;
        signature = signature;
        has_signature = outcome-done _ signature q1;
        fields = fields;
        has_fields = outcome-done _ fields q2;
        key = key;
        has_key = q3;
        to_sign = to_sign;
        has_attributes = outcome-done _ to_sign q4;
        verified = throw_if-ok pss logged_error q5;
      }

  -- Where VerificaSODPSS returns, the attributes of the signer in the security object carry the
  -- SHA-512 hash of its signed data, RSA-PSS accepts the signature of these attributes under the
  -- key of the certificate in the object, and for each data group that the signed data names, the
  -- hash set has the hash that it names.
  pub verifica_sod_pss-Signed :
      (sod : List ℕ) (hash_set : Map (List ℕ))
      → verifica_sod_pss crypto sod hash_set ≡ done tt
      → (p : Parts) × (groups : AsnTags) × (sod_parts sod ≡ done p)
        × Signed crypto sod p
        × (group_hashes p.signed_data ≡ ok groups)
        × Matches hash_set groups
  unfolding verifica_sod_pss
  verifica_sod_pss-Signed sod hash_set e =
      let (p, q1, e1) = bind-done (sod_parts sod) _ tt e in
      let (u, q2, e2) = bind-done (outcome (check_digest crypto p)) _ tt e1 in
      let (issuer_ba, q3, e3) = bind-done (check_signature crypto sod p) _ tt e2 in
      let (t, q4, e4) = bind-done (read_issuers p.issuer issuer_ba) _ tt e3 in
      let (groups, q5, e5) = bind-ok (group_hashes p.signed_data) _ tt (outcome-done _ tt e4) in
      (
        p,
        groups,
        q1,
        signed sod p issuer_ba (outcome-done _ tt q2) q3,
        q5,
        check_groups-Matches hash_set groups e5,
      )

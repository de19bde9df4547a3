-- ===== src/Card/Sod.antt =====
-- GetSODDigestAlg and the parts of VerificaSOD and VerificaSODPSS of shared/src/csp/ias.cpp that both
-- share: where the security object of a CIE keeps what is checked. Positions and lengths fit an int.
pub mod Pss
mod Tests
pub mod Rsa
pub mod Unchecked
pub mod Accepted
use opencie_pkcs.Base.{
  ℕ, ◌-◌, Bool, List, [], ◌∷◌, ◌==◌, if◌then◌else◌, Result, ok, throw, crash, logged_error,
  ◌>>=◌ as bind, ◌>>◌ as both,
}
use opencie_pkcs.Base.Outcome.{Outcome, outcome, ◌>>=◌}
use opencie_pkcs.Util.Array.{get, mid, mid_from, equal}
use opencie_pkcs.Util.Asn1.Tree.{
  AsnTag, AsnTags, asn_tag, nil, cons, child, verify_content, check_tag,
}
use opencie_pkcs.Util.Asn1.Parse.{parse}

-- OpenSSL: the hash functions, the bare RSA operation and RSA-PSS over a modulus and an exponent,
-- and the public key and the issuer of a certificate (GetPublicKeyFromCert).
pub record SodCrypto : Type 0 where
  pub sha1 : List ℕ → List ℕ
  pub sha256 : List ℕ → List ℕ
  pub sha512 : List ℕ → List ℕ
  pub rsa_pure : List ℕ → List ℕ → List ℕ → Result (List ℕ)
  pub rsa_pss : List ℕ → List ℕ → List ℕ → List ℕ → Bool
  pub certificate_fields : List ℕ → Result (List ℕ × List ℕ)

abbrev pub content : AsnTag → List ℕ
content (asn_tag tag bytes tags forced start end) = bytes

abbrev pub children : AsnTag → AsnTags
children (asn_tag tag bytes tags forced start end) = tags

abbrev pub start_pos : AsnTag → ℕ
start_pos (asn_tag tag bytes tags forced start end) = start

abbrev pub end_pos : AsnTag → ℕ
end_pos (asn_tag tag bytes tags forced start end) = end

-- `*tags[0]` and `*tags[1]`
abbrev pub first_tag : AsnTags → Result AsnTag
first_tag nil = throw crash
first_tag (cons t ts) = ok t

abbrev pub second_tag : AsnTags → Result AsnTag
second_tag nil = throw crash
second_tag (cons t ts) = first_tag ts

-- `*tags[tags.size() - 1]`
abbrev pub last_tag : AsnTags → Result AsnTag
last_tag nil = throw crash
last_tag (cons t nil) = ok t
last_tag (cons t (cons u us)) = last_tag (cons u us)

-- `Child` after `Child`.
unfoldable pub path : AsnTag → List (ℕ × ℕ) → Result AsnTag
unfolding child
path t [] = ok t
path t ((num, tag) ∷ steps) = bind (child t num tag) (λ c. path c steps)

unfoldable pub verify_path : AsnTag → List (ℕ × ℕ) → List ℕ → Result (Unit {0})
unfolding path verify_content
verify_path t steps bytes = bind (path t steps) (λ c. verify_content c bytes)

-- `mid(startPos, endPos - startPos)`
unfoldable pub span : List ℕ → AsnTag → Result (List ℕ)
unfolding mid
span bytes t = mid bytes (start_pos t) (end_pos t - start_pos t)

abbrev pub oid_sha256 : List ℕ
oid_sha256 = 0x60 ∷ 0x86 ∷ 0x48 ∷ 0x01 ∷ 0x65 ∷ 0x03 ∷ 0x04 ∷ 0x02 ∷ 0x01 ∷ []

abbrev pub oid_sha512 : List ℕ
oid_sha512 = 0x60 ∷ 0x86 ∷ 0x48 ∷ 0x01 ∷ 0x65 ∷ 0x03 ∷ 0x04 ∷ 0x02 ∷ 0x03 ∷ []

abbrev pub oid_signed_data : List ℕ
oid_signed_data = 0x2a ∷ 0x86 ∷ 0x48 ∷ 0x86 ∷ 0xf7 ∷ 0x0d ∷ 0x01 ∷ 0x07 ∷ 0x02 ∷ []

abbrev pub oid_lds : List ℕ
oid_lds = 0x67 ∷ 0x81 ∷ 0x08 ∷ 0x01 ∷ 0x01 ∷ 0x01 ∷ []

abbrev pub oid_content_type : List ℕ
oid_content_type = 0x2a ∷ 0x86 ∷ 0x48 ∷ 0x86 ∷ 0xf7 ∷ 0x0d ∷ 0x01 ∷ 0x09 ∷ 0x03 ∷ []

abbrev pub oid_message_digest : List ℕ
oid_message_digest = 0x2a ∷ 0x86 ∷ 0x48 ∷ 0x86 ∷ 0xf7 ∷ 0x0d ∷ 0x01 ∷ 0x09 ∷ 0x04 ∷ []

abbrev digest_kind : List ℕ → Result ℕ
digest_kind oid =
    if equal oid oid_sha256 then ok 1 else if equal oid oid_sha512 then ok 2 else throw logged_error

unfoldable pub get_sod_digest_alg : List ℕ → Outcome ℕ
unfolding path equal
get_sod_digest_alg sod = parse sod >>= λ tags. outcome (
    bind (first_tag tags) (λ t.
      bind (path t ((0, 0x30) ∷ (1, 0xa0) ∷ (0, 0x30) ∷ (1, 0x31) ∷ (0, 0x30) ∷ (0, 6) ∷ []))
        (λ alg. digest_kind (content alg))))

-- The signed data (`temp2`) and the octets that it encloses (`ttData`), under the algorithm `oid`.
unfoldable pub signed_content : List ℕ → AsnTag → Result (AsnTag × List ℕ)
unfolding path verify_path
signed_content oid sod_tag = bind (child sod_tag 0 0x30) (λ temp.
    both (verify_path temp ((0, 6) ∷ []) oid_signed_data) (
      bind (path temp ((1, 0xa0) ∷ (0, 0x30) ∷ [])) (λ temp2.
        both (verify_path temp2 ((0, 2) ∷ []) (3 ∷ [])) (
          both (verify_path temp2 ((1, 0x31) ∷ (0, 0x30) ∷ (0, 6) ∷ []) oid) (
            both (verify_path temp2 ((2, 0x30) ∷ (0, 6) ∷ []) oid_lds) (
              bind (path temp2 ((2, 0x30) ∷ (1, 0xa0) ∷ (0, 4) ∷ []))
                (λ tt_node. ok (temp2, content tt_node))))))))

-- The signed attributes of `temp3` and the digest among them.
unfoldable pub signed_attributes : AsnTag → Result (AsnTag × AsnTag)
unfolding path verify_path
signed_attributes signer = bind (child signer 3 0xa0) (λ info.
    both (verify_path info ((0, 0x30) ∷ (0, 6) ∷ []) oid_content_type) (
      both (verify_path info ((0, 0x30) ∷ (1, 0x31) ∷ (0, 6) ∷ []) oid_lds) (
        both (verify_path info ((1, 0x30) ∷ (0, 6) ∷ []) oid_message_digest) (
          bind (path signer ((3, 0xa0) ∷ (1, 0x30) ∷ (1, 0x31) ∷ (0, 4) ∷ []))
            (λ digest. ok (info, digest))))))

-- `toSign`, as a set.
unfoldable pub attributes_to_sign : List ℕ → AsnTag → Result (List ℕ)
unfolding mid
attributes_to_sign sod info = bind (first_tag (children info)) (λ first.
    bind (last_tag (children info))
      (λ last. mid sod (start_pos first) (end_pos last - start_pos first)))

-- `while (a[0] == 0) a = a.mid(1)`
abbrev pub skip_zeros : List ℕ → Result (List ℕ)
skip_zeros [] = throw logged_error
skip_zeros (b ∷ bs) = if b == 0 then skip_zeros bs else ok (b ∷ bs)

-- The content of a bit string without the count of its unused bits, where that is 0.
abbrev pub skip_unused : List ℕ → Result (List ℕ)
skip_unused [] = throw crash
skip_unused (b ∷ bs) = ok (if b == 0 then bs else b ∷ bs)

-- The modulus and the exponent of a key in a certificate.
unfoldable pub key_numbers : AsnTag → Result (List ℕ × List ℕ)
unfolding child
key_numbers key = bind (child key 0 2) (λ m. bind (skip_zeros (content m)) (λ modulus.
    bind (child key 1 2) (λ e. bind (skip_zeros (content e)) (λ exponent. ok (modulus, exponent)))))

unfoldable pub public_key : List ℕ → Outcome (List ℕ × List ℕ)
unfolding parse key_numbers
public_key spki = parse spki >>= λ tags.
    outcome
      (bind (first_tag tags) (λ t. bind (second_tag (children t)) (λ k. skip_unused (content k))))
    >>= λ bits. parse bits >>= λ keys. outcome (bind (first_tag keys) key_numbers)

-- The number and the hash of a data group.
abbrev pub group_number : AsnTag → Result ℕ
group_number t = elim (content t) [ [] ↦ throw crash | n ∷ bs ↦ ok n ]

unfoldable pub data_group : AsnTag → Result (ℕ × List ℕ)
unfolding child check_tag
data_group t = bind (check_tag t 0x30) (λ group.
    bind (child group 0 2)
      (λ num. bind (child group 1 4) (λ hash. bind (group_number num) (λ n. ok (n, content hash)))))

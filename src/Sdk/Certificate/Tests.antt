-- ===== src/Sdk/Certificate/Tests.antt =====
-- Two certificates and a revocation list, under a toy signature that carries the block in the clear.
use opencie_pkcs.Base.{
  ℕ, ◌<◌, ◌≡◌, refl, true, false, none, some, List, [], ◌∷◌, ◌==◌, if◌then◌else◌, replicate, drop,
  length, ◌↔◌, inl, arith,
}
use opencie_pkcs.Sdk.Object.{Asn1Object, Parsed, parsed}
use opencie_pkcs.Sdk.Sequence.{GenericSequence, set_offset, alloc_offsets}
use opencie_pkcs.Sdk.Certificate.{
  sub_sequence, get_authority_key_identifier, get_issuer, get_subject_key_identifier, get_subject,
  get_serial_number,
}
use opencie_pkcs.Base.Map.{assign}
use opencie_pkcs.Sdk.Certificate.Signature.{
  CertificateCrypto, verify_signature, check_certificate_digest,
}
use opencie_pkcs.Sdk.Certificate.Accepted.{SignedBy, verify_signature-SignedBy}
use opencie_pkcs.Sdk.Certificate.Chain.{CertStore, add_certificate, get_certificate, verify}
use opencie_pkcs.Sdk.Certificate.Climbing.{Chain, Anchor, verify-Chain}
use opencie_pkcs.Sdk.Certificate.Rounds.{Goes, Circles, last, more, verify-Circles}
use opencie_pkcs.Sdk.Certificate.Ocsp.{
  verify_ocsp_responder_signature, Answerable, verify_ocsp_responder_signature-Answerable,
}
use opencie_pkcs.Sdk.Certificate.Crl.{is_revoked}
use opencie_pkcs.Sdk.Certificate.Crl.Revoked.{IsOther, is_revoked-others}
use opencie_pkcs.Sdk.Scalars.{new_integer, get_long_value, object_identifier}
use opencie_pkcs.Sdk.Scalars.Integer.{get_long_value-new_integer}

abbrev clear_block : CertificateCrypto
clear_block = record {
  recover = λ issuer encrypted. some encrypted;
  sha256 = λ bytes. replicate 32 7;
  sha1 = λ bytes. [];
}

abbrev text_of : GenericSequence → Parsed (List ℕ)
text_of name = parsed name.object.value

-- A certificate of L by R, and one of R by itself.
abbrev leaf_octets : List ℕ
leaf_octets =
    48 ∷ 39 ∷ 160 ∷ 3 ∷ 2 ∷ 1 ∷ 2 ∷ 2 ∷ 1 ∷ 2 ∷ 48 ∷ 11 ∷ 6 ∷ 9 ∷ 42 ∷ 134 ∷ 72 ∷ 134 ∷ 247 ∷ 13 ∷ 1
    ∷ 1 ∷ 11 ∷ 48 ∷ 3 ∷ 12 ∷ 1 ∷ 82 ∷ 48 ∷ 0 ∷ 48 ∷ 3 ∷ 12 ∷ 1 ∷ 76 ∷ 48 ∷ 0 ∷ 163 ∷ 2 ∷ 48 ∷ 0 ∷ 48
    ∷ 11 ∷ 6 ∷ 9 ∷ 42 ∷ 134 ∷ 72 ∷ 134 ∷ 247 ∷ 13 ∷ 1 ∷ 1 ∷ 11 ∷ 3 ∷ 50 ∷ 0 ∷ 48 ∷ 47 ∷ 48 ∷ 11 ∷ 6
    ∷ 9 ∷ 96 ∷ 134 ∷ 72 ∷ 1 ∷ 101 ∷ 3 ∷ 4 ∷ 2 ∷ 1 ∷ 4 ∷ 32 ∷ 7 ∷ 7 ∷ 7 ∷ 7 ∷ 7 ∷ 7 ∷ 7 ∷ 7 ∷ 7 ∷ 7
    ∷ 7 ∷ 7 ∷ 7 ∷ 7 ∷ 7 ∷ 7 ∷ 7 ∷ 7 ∷ 7 ∷ 7 ∷ 7 ∷ 7 ∷ 7 ∷ 7 ∷ 7 ∷ 7 ∷ 7 ∷ 7 ∷ 7 ∷ 7 ∷ 7 ∷ 7 ∷ []

abbrev leaf : GenericSequence
leaf = record {
  object = record { tag = 0x30; value = leaf_octets; len_read = 0 };
  next_offset = 0;
  offsets = λ i. if i == 0 then 0 else if i == 1 then 41 else 54;
  size = 3;
}

abbrev root_octets : List ℕ
root_octets =
    48 ∷ 39 ∷ 160 ∷ 3 ∷ 2 ∷ 1 ∷ 2 ∷ 2 ∷ 1 ∷ 1 ∷ 48 ∷ 11 ∷ 6 ∷ 9 ∷ 42 ∷ 134 ∷ 72 ∷ 134 ∷ 247 ∷ 13 ∷ 1
    ∷ 1 ∷ 11 ∷ 48 ∷ 3 ∷ 12 ∷ 1 ∷ 82 ∷ 48 ∷ 0 ∷ 48 ∷ 3 ∷ 12 ∷ 1 ∷ 82 ∷ 48 ∷ 0 ∷ 163 ∷ 2 ∷ 48 ∷ 0 ∷ 48
    ∷ 11 ∷ 6 ∷ 9 ∷ 42 ∷ 134 ∷ 72 ∷ 134 ∷ 247 ∷ 13 ∷ 1 ∷ 1 ∷ 11 ∷ 3 ∷ 50 ∷ 0 ∷ 48 ∷ 47 ∷ 48 ∷ 11 ∷ 6
    ∷ 9 ∷ 96 ∷ 134 ∷ 72 ∷ 1 ∷ 101 ∷ 3 ∷ 4 ∷ 2 ∷ 1 ∷ 4 ∷ 32 ∷ 7 ∷ 7 ∷ 7 ∷ 7 ∷ 7 ∷ 7 ∷ 7 ∷ 7 ∷ 7 ∷ 7
    ∷ 7 ∷ 7 ∷ 7 ∷ 7 ∷ 7 ∷ 7 ∷ 7 ∷ 7 ∷ 7 ∷ 7 ∷ 7 ∷ 7 ∷ 7 ∷ 7 ∷ 7 ∷ 7 ∷ 7 ∷ 7 ∷ 7 ∷ 7 ∷ 7 ∷ 7 ∷ []

abbrev root : GenericSequence
root = record {
  object = record { tag = 0x30; value = root_octets; len_read = 0 };
  next_offset = 0;
  offsets = λ i. if i == 0 then 0 else if i == 1 then 41 else 54;
  size = 3;
}

-- A list with one entry.
abbrev crl_octets : List ℕ
crl_octets =
    48 ∷ 59 ∷ 2 ∷ 1 ∷ 1 ∷ 48 ∷ 0 ∷ 48 ∷ 0 ∷ 23 ∷ 13 ∷ 50 ∷ 50 ∷ 50 ∷ 50 ∷ 50 ∷ 50 ∷ 50 ∷ 50 ∷ 50
    ∷ 50 ∷ 50 ∷ 50 ∷ 50 ∷ 23 ∷ 13 ∷ 50 ∷ 50 ∷ 50 ∷ 50 ∷ 50 ∷ 50 ∷ 50 ∷ 50 ∷ 50 ∷ 50 ∷ 50 ∷ 50 ∷ 50
    ∷ 48 ∷ 20 ∷ 48 ∷ 18 ∷ 2 ∷ 1 ∷ 9 ∷ 23 ∷ 13 ∷ 50 ∷ 50 ∷ 50 ∷ 50 ∷ 50 ∷ 50 ∷ 50 ∷ 50 ∷ 50 ∷ 50 ∷ 50
    ∷ 50 ∷ 50 ∷ []

abbrev crl : GenericSequence
crl = record {
  object = record { tag = 0x30; value = crl_octets; len_read = 0 };
  next_offset = 0;
  offsets = λ i. 0;
  size = 1;
}

unfoldable store : CertStore
unfolding add_certificate
store = add_certificate text_of [] root

verify_signature-SignedBy_example : SignedBy clear_block leaf root
unfolding verify_signature check_certificate_digest object_identifier
verify_signature-SignedBy_example = verify_signature-SignedBy clear_block leaf root refl

chain_found : verify text_of clear_block 3 store leaf ≡ some (parsed 0x100040)
unfolding verify store get_certificate get_authority_key_identifier get_issuer
    get_subject_key_identifier get_subject assign get_serial_number verify_signature
    check_certificate_digest
chain_found = refl

verify-Chain_example :
    (top : GenericSequence) × Chain text_of clear_block store leaf top
    × Anchor text_of clear_block store top
verify-Chain_example = verify-Chain text_of clear_block store 3 leaf chain_found

-- A certificate of L by R, and one of R by L.
abbrev left_ca_octets : List ℕ
left_ca_octets =
    48 ∷ 39 ∷ 160 ∷ 3 ∷ 2 ∷ 1 ∷ 2 ∷ 2 ∷ 1 ∷ 3 ∷ 48 ∷ 11 ∷ 6 ∷ 9 ∷ 42 ∷ 134 ∷ 72 ∷ 134 ∷ 247 ∷ 13 ∷ 1
    ∷ 1 ∷ 11 ∷ 48 ∷ 3 ∷ 12 ∷ 1 ∷ 82 ∷ 48 ∷ 0 ∷ 48 ∷ 3 ∷ 12 ∷ 1 ∷ 76 ∷ 48 ∷ 0 ∷ 163 ∷ 2 ∷ 48 ∷ 0 ∷ 48
    ∷ 11 ∷ 6 ∷ 9 ∷ 42 ∷ 134 ∷ 72 ∷ 134 ∷ 247 ∷ 13 ∷ 1 ∷ 1 ∷ 11 ∷ 3 ∷ 50 ∷ 0 ∷ 48 ∷ 47 ∷ 48 ∷ 11 ∷ 6
    ∷ 9 ∷ 96 ∷ 134 ∷ 72 ∷ 1 ∷ 101 ∷ 3 ∷ 4 ∷ 2 ∷ 1 ∷ 4 ∷ 32 ∷ 7 ∷ 7 ∷ 7 ∷ 7 ∷ 7 ∷ 7 ∷ 7 ∷ 7 ∷ 7 ∷ 7
    ∷ 7 ∷ 7 ∷ 7 ∷ 7 ∷ 7 ∷ 7 ∷ 7 ∷ 7 ∷ 7 ∷ 7 ∷ 7 ∷ 7 ∷ 7 ∷ 7 ∷ 7 ∷ 7 ∷ 7 ∷ 7 ∷ 7 ∷ 7 ∷ 7 ∷ 7 ∷ []

abbrev left_ca : GenericSequence
left_ca = record {
  object = record { tag = 0x30; value = left_ca_octets; len_read = 0 };
  next_offset = 0;
  offsets = λ i. if i == 0 then 0 else if i == 1 then 41 else 54;
  size = 3;
}

abbrev right_ca_octets : List ℕ
right_ca_octets =
    48 ∷ 39 ∷ 160 ∷ 3 ∷ 2 ∷ 1 ∷ 2 ∷ 2 ∷ 1 ∷ 4 ∷ 48 ∷ 11 ∷ 6 ∷ 9 ∷ 42 ∷ 134 ∷ 72 ∷ 134 ∷ 247 ∷ 13 ∷ 1
    ∷ 1 ∷ 11 ∷ 48 ∷ 3 ∷ 12 ∷ 1 ∷ 76 ∷ 48 ∷ 0 ∷ 48 ∷ 3 ∷ 12 ∷ 1 ∷ 82 ∷ 48 ∷ 0 ∷ 163 ∷ 2 ∷ 48 ∷ 0 ∷ 48
    ∷ 11 ∷ 6 ∷ 9 ∷ 42 ∷ 134 ∷ 72 ∷ 134 ∷ 247 ∷ 13 ∷ 1 ∷ 1 ∷ 11 ∷ 3 ∷ 50 ∷ 0 ∷ 48 ∷ 47 ∷ 48 ∷ 11 ∷ 6
    ∷ 9 ∷ 96 ∷ 134 ∷ 72 ∷ 1 ∷ 101 ∷ 3 ∷ 4 ∷ 2 ∷ 1 ∷ 4 ∷ 32 ∷ 7 ∷ 7 ∷ 7 ∷ 7 ∷ 7 ∷ 7 ∷ 7 ∷ 7 ∷ 7 ∷ 7
    ∷ 7 ∷ 7 ∷ 7 ∷ 7 ∷ 7 ∷ 7 ∷ 7 ∷ 7 ∷ 7 ∷ 7 ∷ 7 ∷ 7 ∷ 7 ∷ 7 ∷ 7 ∷ 7 ∷ 7 ∷ 7 ∷ 7 ∷ 7 ∷ 7 ∷ 7 ∷ []

abbrev right_ca : GenericSequence
right_ca = record {
  object = record { tag = 0x30; value = right_ca_octets; len_read = 0 };
  next_offset = 0;
  offsets = λ i. if i == 0 then 0 else if i == 1 then 41 else 54;
  size = 3;
}

unfoldable cross_store : CertStore
unfolding add_certificate
cross_store = add_certificate text_of (add_certificate text_of [] left_ca) right_ca

left_up : get_certificate text_of cross_store left_ca ≡ some right_ca
unfolding cross_store get_certificate get_authority_key_identifier get_issuer
    get_subject_key_identifier get_subject assign get_serial_number
left_up = refl

right_up : get_certificate text_of cross_store right_ca ≡ some left_ca
unfolding cross_store get_certificate get_authority_key_identifier get_issuer
    get_subject_key_identifier get_subject assign get_serial_number
right_up = refl

left_by_right : verify_signature clear_block left_ca right_ca ≡ parsed true
unfolding verify_signature check_certificate_digest object_identifier
left_by_right = refl

right_by_left : verify_signature clear_block right_ca left_ca ≡ parsed true
unfolding verify_signature check_certificate_digest object_identifier
right_by_left = refl

cross_size : length cross_store ≡ 2
unfolding cross_store get_authority_key_identifier get_subject_key_identifier get_subject assign
cross_size = refl

enough : length cross_store < 3
enough = rw cross_size (omega arith)

circle : Circles text_of clear_block cross_store left_ca
unfolding Circles
circle =
    let up : Goes text_of clear_block cross_store left_ca right_ca = record {
      up_to = left_up;
      by = left_by_right;
    } in
    let back : Goes text_of clear_block cross_store right_ca left_ca = record {
      up_to = right_up;
      by = right_by_left;
    } in
    (left_ca, more up (last back), inl refl)

-- Two certificates that have issued each other.
endless : verify text_of clear_block 3 cross_store left_ca ≡ none
endless = (verify-Circles text_of clear_block cross_store 3 left_ca enough).1 circle

verify-Circles_example :
    (verify text_of clear_block 3 cross_store left_ca ≡ none)
    ↔ Circles text_of clear_block cross_store left_ca
verify-Circles_example = verify-Circles text_of clear_block cross_store 3 left_ca enough

abbrev serial : Asn1Object
serial = record { tag = 2; value = 5 ∷ []; len_read = 0 }

not_listed : is_revoked crl serial none ≡ parsed (false, 0)
unfolding is_revoked
not_listed = refl

is_revoked-others_example :
    (tbs : GenericSequence) × (revoked : GenericSequence) × (sub_sequence crl 0 ≡ parsed tbs)
    × (sub_sequence tbs 5 ≡ parsed revoked)
    × ((j : ℕ) → j < revoked.size → IsOther revoked serial j)
is_revoked-others_example = is_revoked-others crl serial 0 not_listed

-- A list of version 1, which lists the serial number 9 in its fifth element.
abbrev short_crl_octets : List ℕ
short_crl_octets =
    48 ∷ 56 ∷ 48 ∷ 0 ∷ 48 ∷ 0 ∷ 23 ∷ 13 ∷ 50 ∷ 50 ∷ 50 ∷ 50 ∷ 50 ∷ 50 ∷ 50 ∷ 50 ∷ 50 ∷ 50 ∷ 50 ∷ 50
    ∷ 50 ∷ 23 ∷ 13 ∷ 50 ∷ 50 ∷ 50 ∷ 50 ∷ 50 ∷ 50 ∷ 50 ∷ 50 ∷ 50 ∷ 50 ∷ 50 ∷ 50 ∷ 50 ∷ 48 ∷ 20 ∷ 48
    ∷ 18 ∷ 2 ∷ 1 ∷ 9 ∷ 23 ∷ 13 ∷ 50 ∷ 50 ∷ 50 ∷ 50 ∷ 50 ∷ 50 ∷ 50 ∷ 50 ∷ 50 ∷ 50 ∷ 50 ∷ 50 ∷ 50 ∷ []

abbrev short_crl : GenericSequence
short_crl = record {
  object = record { tag = 0x30; value = short_crl_octets; len_read = 0 };
  next_offset = 0;
  offsets = λ i. 0;
  size = 1;
}

abbrev listed_serial : Asn1Object
listed_serial = record { tag = 2; value = 9 ∷ []; len_read = 0 }

abbrev short_tbs : GenericSequence
short_tbs = record {
  object = record { tag = 0x30; value = drop 2 short_crl_octets; len_read = 0 };
  next_offset = 0;
  offsets =
      set_offset
        (set_offset (set_offset (set_offset (set_offset (alloc_offsets (λ i. 0)) 0 0) 1 2) 2 4) 3
          19)
        4 34;
  size = 5;
}

get_long_value-new_integer_example : get_long_value (new_integer 128) ≡ 32768
get_long_value-new_integer_example = get_long_value-new_integer 128 (omega arith)

leaf_answers : verify_ocsp_responder_signature clear_block text_of store leaf leaf ≡ parsed true
unfolding verify_ocsp_responder_signature store get_certificate get_authority_key_identifier
    get_issuer get_subject_key_identifier get_subject assign get_serial_number verify_signature
    check_certificate_digest
leaf_answers = refl

verify_ocsp_responder_signature-Answerable_example :
    (issuer : GenericSequence) × (get_certificate text_of store leaf ≡ some issuer)
    × Answerable clear_block leaf issuer
verify_ocsp_responder_signature-Answerable_example =
    verify_ocsp_responder_signature-Answerable clear_block text_of store leaf leaf leaf_answers

-- ===== src/Sdk/Certificate.antt =====
-- CCertificate and CCertificateInfo of sign-sdk/src/asn1/certificate.cpp and certificate_info.cpp: the
-- parts of a certificate. They read sequences only, so a new table of offsets is taken as zero.
use opencie_pkcs.Base.{
  ℕ, zero, suc, ◌+◌, ◌-◌, ◌/◌, ◌%◌, Bool, true, false, ◌&&◌, not, List, [], ◌∷◌, ◌++◌, ltb, leb,
  ◌==◌, if◌then◌else◌, length, take, drop,
}
use opencie_pkcs.Util.Array.{equal}
use opencie_pkcs.Sdk.Object.{
  Asn1Object, Parsed, parsed, failed, bad_object, ◌>>=◌, to_byte_array, from_byte_array,
  from_reader, same_object,
}
use opencie_pkcs.Sdk.Sequence.{GenericSequence, set_content, alloc_offsets, element_at, is_present}
use opencie_pkcs.Sdk.Scalars.{object_identifier}
pub mod Signature
pub mod Chain
pub mod Crl
pub mod Ocsp
pub mod Accepted
pub mod Climbing
pub mod Rounds
pub mod Tests

-- CASN1Sequence of an object, whose tag it sets, and of octets.
unfoldable pub as_sequence : Asn1Object → Parsed GenericSequence
unfolding set_content alloc_offsets
as_sequence obj =
    set_content
      (record {
        object = record { tag = 0x30; value = obj.value; len_read = 0 };
        next_offset = 0;
        offsets = alloc_offsets (λ i. 0);
        size = 0;
      })
      obj.value

unfoldable pub sequence_of : List ℕ → Parsed GenericSequence
unfolding from_byte_array as_sequence
sequence_of bytes = from_byte_array bytes >>= as_sequence

-- `elementAt`, without the cursor.
unfoldable pub element : GenericSequence → ℕ → Parsed Asn1Object
unfolding element_at
element s pos = element_at s pos >>= λ r. parsed (r.0)

unfoldable pub sub_sequence : GenericSequence → ℕ → Parsed GenericSequence
unfolding element as_sequence
sub_sequence s pos = element s pos >>= as_sequence

unfoldable pub get_certificate_info : GenericSequence → Parsed GenericSequence
unfolding sub_sequence
get_certificate_info cert = sub_sequence cert 0

unfoldable pub get_serial_number : GenericSequence → Parsed Asn1Object
unfolding get_certificate_info element
get_serial_number cert = get_certificate_info cert >>= λ info.
    element info 1 >>= λ obj. parsed (record obj { tag = 0x02 })

-- CName sets the tag of a sequence.
unfoldable pub get_name : GenericSequence → ℕ → Parsed GenericSequence
unfolding get_certificate_info sub_sequence
get_name cert pos = get_certificate_info cert >>= λ info. sub_sequence info pos

unfoldable pub get_issuer : GenericSequence → Parsed GenericSequence
unfolding get_name
get_issuer cert = get_name cert 3

unfoldable pub get_subject : GenericSequence → Parsed GenericSequence
unfolding get_name
get_subject cert = get_name cert 5

unfoldable pub get_validity : GenericSequence → ℕ → Parsed Asn1Object
unfolding get_certificate_info sub_sequence element
get_validity cert pos =
    get_certificate_info cert >>= λ info. sub_sequence info 4 >>= λ validity. element validity pos

-- CCertificateInfo::getExtensions: the last element, and none where there is no element.
unfoldable pub get_extensions : GenericSequence → Parsed GenericSequence
unfolding get_certificate_info sub_sequence
get_extensions cert = get_certificate_info cert >>= λ info. sub_sequence info (info.size - 1)

abbrev pub empty_sequence : GenericSequence
empty_sequence = record {
  object = record { tag = 0x30; value = []; len_read = 0 };
  next_offset = 0;
  offsets = λ i. 0;
  size = 0;
}

-- The loop of getExtension, with so many extensions left.
unfoldable pub find_extension : GenericSequence → List ℕ → ℕ → ℕ → Parsed GenericSequence
unfolding sub_sequence element equal
find_extension extensions oid zero i = parsed empty_sequence
find_extension extensions oid (suc left) i = sub_sequence extensions i >>= λ extension.
    element extension 0 >>= λ extoid.
    let next = find_extension extensions oid left (suc i) in
    if equal extoid.value oid then parsed extension else next

unfoldable pub get_extension : GenericSequence → List ℕ → Parsed GenericSequence
unfolding get_extensions find_extension sub_sequence
get_extension cert oid = get_extensions cert >>= λ outer.
    sub_sequence outer 0 >>= λ extensions. find_extension extensions oid extensions.size 0

-- The parts of a constructed octet string.
unfoldable pub parts_of : GenericSequence → ℕ → ℕ → Parsed (List ℕ)
unfolding element
parts_of parts zero i = parsed []
parts_of parts (suc left) i =
    element parts i >>= λ part. parts_of parts left (suc i) >>= λ rest. parsed (part.value ++ rest)

unfoldable pub octet_content : Asn1Object → Parsed (List ℕ)
unfolding parts_of as_sequence
octet_content obj =
    if obj.tag == 0x24
    then (as_sequence obj >>= λ parts. parts_of parts parts.size 0)
    else parsed obj.value

-- `(flags & 0x40) == 0x40` on a byte.
unfoldable pub signs_for : List ℕ → Bool
signs_for [] = false
signs_for (unused ∷ []) = false
signs_for (unused ∷ flags ∷ rest) = ltb unused 7 && flags / 0x40 % 2 == 1

unfoldable pub is_non_repudiation : GenericSequence → Parsed Bool
unfolding get_extension octet_content element from_byte_array signs_for object_identifier
is_non_repudiation cert = get_extension cert (object_identifier (2 ∷ 5 ∷ 29 ∷ 15 ∷ [])) >>= λ usage.
    if usage.size == 0
    then parsed false
    else (element usage (usage.size - 1) >>= λ octets. octet_content octets >>= λ content.
        from_byte_array content >>= λ bits. parsed (signs_for bits.value))

unfoldable pub is_qualified : GenericSequence → Parsed Bool
unfolding is_non_repudiation get_extension object_identifier
is_qualified cert = is_non_repudiation cert >>= λ signs.
    if not signs
    then parsed false
    else (get_extension cert (object_identifier (1 ∷ 3 ∷ 6 ∷ 1 ∷ 5 ∷ 5 ∷ 7 ∷ 1 ∷ 3 ∷ [])) >>= λ qc.
        parsed (not (qc.size == 0)))

-- The last thirteen octets, YYMMDDhhmmssZ.
unfoldable pub last_13 : List ℕ → List ℕ
last_13 value = if ltb 13 (length value) then drop (length value - 13) value else value

unfoldable pub get_certificate_policies : GenericSequence → Parsed GenericSequence
unfolding get_extension element sequence_of object_identifier
get_certificate_policies cert =
    get_extension cert (object_identifier (2 ∷ 5 ∷ 29 ∷ 32 ∷ [])) >>= λ policies.
    if ltb 0 policies.size
    then (element policies 1 >>= λ val. sequence_of val.value)
    else parsed empty_sequence

-- `CASN1OctetString("")`
abbrev pub no_octets : Asn1Object
no_octets = record { tag = 0x04; value = []; len_read = 0 }

unfoldable pub get_authority_key_identifier : GenericSequence → Parsed Asn1Object
unfolding get_extension element sequence_of object_identifier
get_authority_key_identifier cert =
    get_extension cert (object_identifier (2 ∷ 5 ∷ 29 ∷ 35 ∷ [])) >>= λ extension.
    if ltb extension.size 2
    then parsed no_octets
    else (element extension 1 >>= λ extn. sequence_of extn.value >>= λ key_id.
        if key_id.size == 0
        then parsed no_octets
        else (element key_id 0 >>= λ field.
            if field.tag == 0x80
            then parsed (record { tag = 0x04; value = field.value; len_read = 0 })
            else parsed no_octets))

unfoldable pub get_subject_key_identifier : GenericSequence → Parsed Asn1Object
unfolding get_extension element from_byte_array object_identifier
get_subject_key_identifier cert =
    get_extension cert (object_identifier (2 ∷ 5 ∷ 29 ∷ 14 ∷ [])) >>= λ extension.
    if ltb extension.size 2
    then parsed no_octets
    else (element extension 1 >>= λ extn. from_byte_array extn.value)

-- ===== src/Sdk/Sequence/Holding.antt =====
-- When a sequence holds a list of objects, and the span of each of them.
use mathlib.Core.List.{append_assoc, append-nil}
use opencie_pkcs.Base.{
  ℕ, ◌+◌, ◌-◌, ◌^◌, ◌≤◌, ◌<◌, ◌≡◌, refl, sym, ap, ◌∙◌, true, false, List, [], ◌∷◌, ◌++◌, All, ltb,
  ◌==◌, length, take, length-append, take-append, Bool-cases, inl, inr, arith,
}
use opencie_pkcs.Sdk.Object.{
  Asn1Object, parsed, length_octets, shift_in, to_byte_array, from_reader, from_byte_array,
  get_serialized_length,
}
use opencie_pkcs.Sdk.Object.Octets.{
  length-length_octets, length_octets-some, shift_in-length_octets,
}
use opencie_pkcs.Sdk.Object.RoundTrip.{as_read, from_reader-to_byte_array}
use opencie_pkcs.Sdk.Sequence.{GenericSequence, peek_tlv_span, within, current_object}

-- The length is one that `int` holds.
unfoldable pub IsShort : Asn1Object → Type 0
IsShort obj = length obj.value < 2 ^ 31

unfoldable pub encode_all : List Asn1Object → List ℕ
unfolding to_byte_array
encode_all [] = []
encode_all (obj ∷ objs) = to_byte_array obj ++ encode_all objs

-- Where the element after these starts.
unfoldable pub span_all : List Asn1Object → ℕ
unfolding get_serialized_length
span_all [] = 0
span_all (obj ∷ objs) = get_serialized_length (length obj.value) + span_all objs

-- A sequence that holds these elements.
unfoldable pub Holds : GenericSequence → List Asn1Object → Type 0
unfolding IsShort encode_all span_all
Holds s objs =
    s.object.value ≡ encode_all objs
    × s.size ≡ length objs
    × All IsShort objs
    × ((i : ℕ) → i < length objs → s.offsets i ≡ span_all (take i objs))

pub length-to_byte_array :
    (obj : Asn1Object) → length (to_byte_array obj) ≡ get_serialized_length (length obj.value)
unfolding to_byte_array get_serialized_length
length-to_byte_array obj =
    let n = length obj.value in
    elim (Bool-cases (ltb n 0x80)) [
      | inl e ↦ rw e (omega arith)
      | inr e ↦ rw e (omega (arith, length-append (length_octets 4 n) obj.value))
    ]

pub two_octets : (n : ℕ) → 2 ≤ get_serialized_length n
unfolding get_serialized_length
two_octets n = ground arith

pub length-encode_all : (objs : List Asn1Object) → length (encode_all objs) ≡ span_all objs
unfolding encode_all span_all
length-encode_all [] = refl
length-encode_all (obj ∷ objs) = omega (
  arith,
  length-append (to_byte_array obj) (encode_all objs),
  length-to_byte_array obj,
  length-encode_all objs,
)

pub within_le : (available total : ℕ) → total ≤ available → within available total ≡ total
unfolding within
within_le available total h = ground arith

peek_tlv_span-short :
    (tag n : ℕ) (rest : List ℕ)
    → n < 0x80
    → n ≤ length rest
    → peek_tlv_span (tag ∷ n ∷ rest) ≡ 2 + n
unfolding peek_tlv_span
peek_tlv_span-short tag n rest h le =
    let e : (n == 0x80) ≡ false = ground arith in
    let f : ltb n 0x80 ≡ true = ground arith in
    rw e (rw f (within_le (2 + length rest) (2 + n) (omega (arith, le))))

peek_tlv_span-long :
    (tag n : ℕ) (octets rest : List ℕ)
    → 0 < length octets
    → length octets ≤ 4
    → shift_in 0 octets ≡ n
    → n ≤ length rest
    → peek_tlv_span (tag ∷ (0x80 + length octets) ∷ (octets ++ rest)) ≡ 2 + (length octets + n)
unfolding peek_tlv_span
peek_tlv_span-long tag n octets rest some_octets few e le =
    let k = length octets in
    let all = length-append octets rest in
    let a : (0x80 + k == 0x80) ≡ false = ground arith in
    let b : ltb (0x80 + k) 0x80 ≡ false = ground arith in
    let c : 0x80 + k - 0x80 ≡ k = omega arith in
    let d : (k == 0) ≡ false = ground arith in
    let f : ltb 4 k ≡ false = ground arith in
    let g : ltb (length (octets ++ rest)) k ≡ false = ground (arith, all) in
    rw a (
      rw b (
        rw c (
          rw (take-append octets rest) (
            rw d (
              rw f (
                rw g (
                  rw e (
                    within_le (2 + length (octets ++ rest)) (2 + k + n) (omega (arith, all, le))
                    ∙ omega arith))))))))

pub peek_tlv_span-to_byte_array :
    (obj : Asn1Object) (rest : List ℕ)
    → IsShort obj
    → peek_tlv_span (to_byte_array obj ++ rest) ≡ length (to_byte_array obj)
unfolding IsShort to_byte_array
peek_tlv_span-to_byte_array obj rest h =
    let n = length obj.value in
    let fits : n ≤ length (obj.value ++ rest) = omega (arith, length-append obj.value rest) in
    elim (Bool-cases (ltb n 0x80)) [
      | inl e ↦
          rw e (peek_tlv_span-short obj.tag n (obj.value ++ rest) (ground arith) fits ∙ omega arith)
      | inr e ↦
          let octets = length_octets 4 n in
          rw e (
            ap (λ bytes. peek_tlv_span (obj.tag ∷ (0x80 + length octets) ∷ bytes))
              (append_assoc octets obj.value rest)
            ∙ peek_tlv_span-long obj.tag n octets (obj.value ++ rest)
                (length_octets-some 3 n (ground arith)) (length-length_octets 4 n)
                (shift_in-length_octets 4 n (omega (arith, h)) (omega (arith, h))) fits
            ∙ omega (arith, length-append octets obj.value))
    ]

pub from_byte_array-to_byte_array :
    (obj : Asn1Object) → IsShort obj → from_byte_array (to_byte_array obj) ≡ parsed (as_read obj)
unfolding IsShort from_byte_array
from_byte_array-to_byte_array obj h =
    rw (sym (ap from_reader (append-nil (to_byte_array obj))) ∙ from_reader-to_byte_array obj [] h)
      refl

-- An element is read back whatever follows it, from its own span.
pub current_object-to_byte_array :
    (obj : Asn1Object) (rest : List ℕ)
    → IsShort obj
    → current_object (to_byte_array obj ++ rest) ≡ parsed (as_read obj)
unfolding current_object
current_object-to_byte_array obj rest h =
    let m = length (to_byte_array obj) in
    let e : (m == 0) ≡ false =
      ground (arith, two_octets (length obj.value), length-to_byte_array obj) in
    rw (peek_tlv_span-to_byte_array obj rest h)
      (rw e (rw (take-append (to_byte_array obj) rest) (from_byte_array-to_byte_array obj h)))

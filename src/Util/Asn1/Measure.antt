-- ===== src/Util/Asn1/Measure.antt =====
-- GetASN1DataLenght and EncodeLen agree.
use opencie_pkcs.Base.{
  ℕ, ◌+◌, ◌-◌, ◌^◌, ◌<◌, ◌≤◌, ◌≡◌, refl, false, ◌||◌, List, ◌++◌, arith, ltb, if◌then◌else◌, length,
  length-append, ok, u64_mod, le→ltb,
}
use mathlib.Core.List.{append_assoc}
use opencie_pkcs.Util.Asn1.Write.{length_octets}
use opencie_pkcs.Util.Asn1.Tree.{AsnTag, asn_tag, is_constructed, encode_len}
use opencie_pkcs.Util.Asn1.Header.{long_length, data_length_field, get_asn1_data_length}
use opencie_pkcs.Util.Asn1.Der.{header_octets, der, der_tags}
use opencie_pkcs.Util.Asn1.Encoding.{length-header_octets, encode_len-der}
use opencie_pkcs.Util.Asn1.Placed.{IsTag, Placed, Placed-Fits}
use opencie_pkcs.Util.Asn1.RoundTrip.{read_tag_lem}

data_length_field_lem :
    (len : ℕ) (rest : List ℕ)
    → len < 2 ^ 32
    → data_length_field (length_octets len ++ rest) ≡ ok (length (length_octets len), len)
unfolding data_length_field length_octets long_length
data_length_field_lem len rest h = ground arith

length-length_octets : (len : ℕ) → length (length_octets len) ≤ 5
unfolding length_octets
length-length_octets len = ground arith

data_length_lem :
    (tag body rest : List ℕ)
    → IsTag tag
    → length body < 2 ^ 32
    → length tag < 2 ^ 32
    → get_asn1_data_length ((header_octets tag (length body) ++ body) ++ rest)
      ≡ ok (length (header_octets tag (length body) ++ body))
unfolding get_asn1_data_length header_octets
data_length_lem tag body rest h small short =
    let octets = length_octets (length body) in
    let fits : ltb (u64_mod - 1 - (length tag + length octets)) (length body) ≡ false =
      le→ltb _ _ (omega (arith, small, short, length-length_octets (length body))) in
    rw
      (
        append_assoc (tag ++ octets) body rest,
        append_assoc tag octets (body ++ rest),
        read_tag_lem tag (octets ++ (body ++ rest)) h,
        data_length_field_lem (length body) (body ++ rest) small,
        fits,
        length-append (tag ++ octets) body,
        length-append tag octets,
      )
      refl

-- For a node with well-formed tags, definite lengths and fewer than 2 ^ 32 bytes in all, EncodeLen
-- gives the number of its bytes, and so does GetASN1DataLenght of the bytes with anything behind
-- them.
pub get_asn1_data_length-encode_len :
    (t : AsnTag) (depth at : ℕ) (rest : List ℕ)
    → Placed depth at t
    → length (der t) < 2 ^ 32
    → (encode_len t ≡ ok (length (der t)))
      × (get_asn1_data_length (der t ++ rest) ≡ ok (length (der t)))
unfolding der Placed
get_asn1_data_length-encode_len (asn_tag tag content tags forced start end) depth at rest h small =
    let body = if forced || is_constructed tag then der_tags tags else content in
    (
      encode_len-der _ (Placed-Fits depth at _ h),
      data_length_lem tag body rest h.0
          (omega (arith, small, length-append (header_octets tag (length body)) body))
          (omega (
            arith,
            small,
            length-header_octets tag (length body),
            length-append (header_octets tag (length body)) body,
          )),
    )

-- ===== src/Util/Asn1/Tests.antt =====
-- The theorems on ASN.1 trees, applied to a sequence of an integer and an octet string, and the
-- functions of asn_parser.cpp and setASN1Tag on small inputs.
use opencie_pkcs.Base.{
  ℕ, ◌≡◌, ◌≢◌, refl, false, List, [], ◌∷◌, ◌++◌, ok, throw, logged_error, length, arith,
}
use opencie_pkcs.Base.Outcome.{done, thrown, running}
use opencie_pkcs.Util.Asn1.{set_asn1_tag}
use opencie_pkcs.Util.Asn1.Tree.{
  AsnTag, asn_tag, nil, cons, encode_all, encode_len, tag_int_loop, child, verify_content,
}
use opencie_pkcs.Util.Asn1.Header.{get_asn1_data_length}
use opencie_pkcs.Util.Asn1.Parse.{parse}
use opencie_pkcs.Util.Asn1.Der.{der}
use opencie_pkcs.Util.Asn1.Placed.{Placed, PlacedAll}
use opencie_pkcs.Util.Asn1.RoundTrip.{parse-encode_all}
use opencie_pkcs.Util.Asn1.Total.{parse-ne-running}
use opencie_pkcs.Util.Asn1.Measure.{get_asn1_data_length-encode_len}

abbrev number : AsnTag
number = asn_tag (2 ∷ []) (5 ∷ []) nil false 2 5

abbrev octets : AsnTag
octets = asn_tag (4 ∷ []) (7 ∷ 8 ∷ []) nil false 5 9

abbrev sequence : AsnTag
sequence = asn_tag (0x30 ∷ []) [] (cons number (cons octets nil)) false 0 9

abbrev bytes : List ℕ
bytes = 0x30 ∷ 7 ∷ 2 ∷ 1 ∷ 5 ∷ 4 ∷ 2 ∷ 7 ∷ 8 ∷ []

placed : PlacedAll 0 0 (cons sequence nil)
unfolding Placed
placed = ground arith

parse-encode_all_example :
    (bs : List ℕ) × (encode_all (cons sequence nil) ≡ ok bs) × (parse bs ≡ done (cons sequence nil))
parse-encode_all_example = parse-encode_all (cons sequence nil) placed

parse-ne-running_example : parse (0x30 ∷ 0x80 ∷ 0x30 ∷ 2 ∷ []) ≢ running
parse-ne-running_example = parse-ne-running (0x30 ∷ 0x80 ∷ 0x30 ∷ 2 ∷ [])

get_asn1_data_length-encode_len_example :
    (encode_len sequence ≡ ok (length (der sequence)))
    × (get_asn1_data_length (der sequence ++ (1 ∷ [])) ≡ ok (length (der sequence)))
unfolding der PlacedAll
get_asn1_data_length-encode_len_example =
    get_asn1_data_length-encode_len sequence 0 0 (1 ∷ []) (placed.0) (omega arith)

encode_bytes : encode_all (cons sequence nil) ≡ ok bytes
unfolding encode_all opencie_pkcs.Util.Asn1.asn1_l_length opencie_pkcs.Util.Array.mid_from
    opencie_pkcs.Util.Array.copy opencie_pkcs.Util.Asn1.put_asn1_length opencie_pkcs.Util.Array.put
encode_bytes = refl

parse-bytes : parse bytes ≡ done (cons sequence nil)
unfolding parse
parse-bytes = refl

-- Content past the end of the input.
parse_short : parse (0x30 ∷ 8 ∷ 2 ∷ 1 ∷ 5 ∷ []) ≡ thrown logged_error
unfolding parse
parse_short = refl

tag_of_octets : set_asn1_tag 0x87 (1 ∷ 2 ∷ []) ≡ ok (0x87 ∷ 2 ∷ 1 ∷ 2 ∷ [])
unfolding set_asn1_tag opencie_pkcs.Util.Asn1.asn1_l_length opencie_pkcs.Util.Array.put
    opencie_pkcs.Util.Array.mid_from opencie_pkcs.Util.Asn1.put_asn1_length
    opencie_pkcs.Util.Array.copy
tag_of_octets = refl

tag_int_of : tag_int_loop 0 (0x5f ∷ 0x24 ∷ []) ≡ 0x5f24
unfolding tag_int_loop
tag_int_of = refl

second_child : child sequence 1 4 ≡ ok octets
unfolding child
second_child = refl

wrong_child : child sequence 1 2 ≡ throw logged_error
unfolding child
wrong_child = refl

verified : verify_content octets (7 ∷ 8 ∷ []) ≡ ok tt
unfolding verify_content
verified = refl

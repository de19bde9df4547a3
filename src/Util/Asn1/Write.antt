-- ===== src/Util/Asn1/Write.antt =====
-- What the length field holds, and what setASN1Tag writes.
use opencie_pkcs.Base.{
  ℕ, ◌/◌, ◌%◌, ◌^◌, ◌<◌, ◌≡◌, List, [], ◌∷◌, ◌++◌, ltb, leb, arith, if◌then◌else◌, length,
  length-append, Result, ok, take_exact, drop_exact,
}
use opencie_pkcs.Util.Array.{put, mid_from}
use opencie_pkcs.Util.Array.Writes.{put_part}
use opencie_pkcs.Util.Asn1.{asn1_l_length, put_asn1_length, through}

-- The length field.
unfoldable pub length_octets : ℕ → List ℕ
length_octets len =
    if ltb len 0x80
    then len ∷ []
    else if leb len 0xff
    then 0x81 ∷ len ∷ []
    else if leb len 0xffff
    then 0x82 ∷ (len / 2 ^ 8) ∷ (len % 256) ∷ []
    else if leb len 0xffffff
    then 0x83 ∷ (len / 2 ^ 16) ∷ (len / 2 ^ 8 % 256) ∷ (len % 256) ∷ []
    else 0x84 ∷ (len / 2 ^ 24) ∷ (len / 2 ^ 16 % 256) ∷ (len / 2 ^ 8 % 256) ∷ (len % 256) ∷ []

pub asn1_l_length_lem :
    (len : ℕ) → len < 2 ^ 32 → asn1_l_length len ≡ ok (length (length_octets len))
unfolding asn1_l_length length_octets
asn1_l_length_lem len h = ground arith

put_head : (b : ℕ) (back : List ℕ) (value : ℕ) → put (b ∷ back) 0 value ≡ ok (value ∷ back)
put_head b back value = put_part [] b back value

pub put_asn1_length_lem :
    (len : ℕ) (old back : List ℕ)
    → len < 2 ^ 32
    → length old ≡ length (length_octets len)
    → put_asn1_length len (old ++ back) ≡ ok (length_octets len ++ back)
unfolding put_asn1_length length_octets put
put_asn1_length_lem len [] back h e = absurd (ground arith)
put_asn1_length_lem len (a ∷ []) back h e = ground arith
put_asn1_length_lem len (a ∷ b ∷ []) back h e = ground arith
put_asn1_length_lem len (a ∷ b ∷ c ∷ []) back h e = ground arith
put_asn1_length_lem len (a ∷ b ∷ c ∷ d ∷ []) back h e = ground arith
put_asn1_length_lem len (a ∷ b ∷ c ∷ d ∷ x ∷ []) back h e = ground arith
put_asn1_length_lem len (a ∷ b ∷ c ∷ d ∷ x ∷ y ∷ old) back h e = absurd (ground arith)

-- A write through the view behind `front`.
pub through_part :
    (front view written : List ℕ) (write : List ℕ → Result (List ℕ))
    → write view ≡ ok written
    → through (front ++ view) (length front) write ≡ ok (front ++ written)
unfolding mid_from
through_part front view written write h = ground (
  arith,
  length-append front view,
  take_exact (length front) front view,
  drop_exact (length front) front view,
)

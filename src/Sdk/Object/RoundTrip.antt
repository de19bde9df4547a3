-- ===== src/Sdk/Object/RoundTrip.antt =====
-- What toByteArray writes and fromReader reads back, whatever follows it.
use mathlib.Core.List.{append_assoc}
use opencie_pkcs.Base.{
  ℕ, ◌+◌, ◌-◌, ◌^◌, ◌≤◌, ◌<◌, ◌≡◌, refl, ap, ◌∙◌, true, false, List, ◌∷◌, ◌++◌, ltb, leb, ◌==◌,
  if◌then◌else◌, length, take-append, drop-append, Bool-cases, inl, inr, arith,
}
use opencie_pkcs.Sdk.Object.{
  Asn1Object, Parsed, parsed, length_octets, shift_in, to_byte_array, read_object_value, parse_len,
  parse_ber, max_ber_depth, from_reader,
}
use opencie_pkcs.Sdk.Object.Octets.{
  length-length_octets, length_octets-some, shift_in-length_octets,
}
use opencie_pkcs.Sdk.Object.Chunks.{read_chunks-append}

-- The number of octets of a length beside the first, which `getOrigLenLen` gives.
unfoldable pub extra_octets : ℕ → ℕ
extra_octets n = if ltb n 0x80 then 0 else length (length_octets 4 n)

unfoldable pub as_read : Asn1Object → Asn1Object
unfolding extra_octets
as_read obj = record {
  tag = obj.tag;
  value = obj.value;
  len_read = extra_octets (length obj.value);
}

read_object_value-append :
    (tag len_read : ℕ) (v rest : List ℕ)
    → read_object_value tag len_read (length v) (v ++ rest)
      ≡ parsed (record { tag = tag; value = v; len_read = len_read }, rest)
unfolding read_object_value
read_object_value-append tag len_read v rest =
    rw (read_chunks-append (length v) v rest (omega arith)) refl

parse_short :
    (ber : List ℕ → Parsed (List ℕ × List ℕ)) (tag n : ℕ) (rest : List ℕ)
    → n < 0x80
    → parse_len ber (tag ∷ n ∷ rest) ≡ read_object_value tag 0 n rest
unfolding parse_len
parse_short ber tag n rest h =
    let e : (n == 0x80) ≡ false = ground arith in
    let f : leb 0x80 n ≡ false = ground arith in rw e (rw f refl)

parse_long :
    (ber : List ℕ → Parsed (List ℕ × List ℕ)) (tag : ℕ) (octets rest : List ℕ)
    → 0 < length octets
    → length octets ≤ 4
    → parse_len ber (tag ∷ (0x80 + length octets) ∷ (octets ++ rest))
      ≡ read_object_value tag (length octets) (shift_in 0 octets) rest
unfolding parse_len
parse_long ber tag octets rest some_octets few =
    let k = length octets in
    let e : (0x80 + k == 0x80) ≡ false = ground arith in
    let f : leb 0x80 (0x80 + k) ≡ true = ground arith in
    let g : 0x80 + k - 0x80 ≡ k = omega arith in
    let i : (k == 0) ≡ false = ground arith in
    let j : ltb 4 k ≡ false = ground arith in
    let s : (k == k) ≡ true = ground arith in
    rw e (
      rw f (
        rw g
          (rw (take-append octets rest) (rw (drop-append octets rest) (rw i (rw j (rw s refl)))))))

pub parse_len-to_byte_array :
    (ber : List ℕ → Parsed (List ℕ × List ℕ)) (obj : Asn1Object) (rest : List ℕ)
    → length obj.value < 2 ^ 31
    → parse_len ber (to_byte_array obj ++ rest) ≡ parsed (as_read obj, rest)
unfolding to_byte_array as_read extra_octets
parse_len-to_byte_array ber obj rest h =
    let n = length obj.value in
    elim (Bool-cases (ltb n 0x80)) [
      | inl e ↦ rw e (
          parse_short ber obj.tag n (obj.value ++ rest) (ground arith)
          ∙ read_object_value-append obj.tag 0 obj.value rest)
      | inr e ↦
          let octets = length_octets 4 n in
          rw e (
            ap (λ bytes. parse_len ber (obj.tag ∷ (0x80 + length octets) ∷ bytes))
              (append_assoc octets obj.value rest)
            ∙ parse_long ber obj.tag octets (obj.value ++ rest)
                (length_octets-some 3 n (ground arith)) (length-length_octets 4 n)
            ∙ ap (λ m. read_object_value obj.tag (length octets) m (obj.value ++ rest))
                (shift_in-length_octets 4 n (omega (arith, h)) (omega (arith, h)))
            ∙ read_object_value-append obj.tag (length octets) obj.value rest)
    ]

-- CASN1Object::fromReader gives back the object that toByteArray wrote, its tag and its value,
-- with the number of extra octets of its length, and leaves what follows, for a value shorter than
-- 2 ^ 31 octets.
pub from_reader-to_byte_array :
    (obj : Asn1Object) (rest : List ℕ)
    → length obj.value < 2 ^ 31
    → from_reader (to_byte_array obj ++ rest) ≡ parsed (as_read obj, rest)
unfolding from_reader
from_reader-to_byte_array = parse_len-to_byte_array (parse_ber max_ber_depth)

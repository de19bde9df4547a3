-- ===== src/Sdk/Object.antt =====
-- CASN1Object of sign-sdk/src/asn1/asn1_object.cpp, with BufferedReader as the list of what is left to
-- read. Lengths are below 2 ^ 31, where `int` and `unsigned` agree.
use opencie_pkcs.Base.{
  ℕ, zero, suc, ◌+◌, ◌-◌, ◌*◌, ◌/◌, ◌%◌, ◌^◌, Bool, ◌||◌, ◌&&◌, not, List, [], ◌∷◌, ◌++◌, ltb, leb,
  ◌==◌, if◌then◌else◌, length, take, drop,
}
use opencie_pkcs.Util.Array.{equal}
pub mod Octets
pub mod Chunks
pub mod RoundTrip

-- CASN1ObjectNotFoundException, CASN1ParsingException, the logged_error of a bad position, and a read
-- past the end of the content, which C++ leaves undefined.
pub data Asn1Error : Type 0 where
  object_not_found : Asn1Error
  bad_object : Asn1Error
  invalid_position : Asn1Error
  past_content : Asn1Error

pub data Parsed {ℓ} (A : Type ℓ) : Type ℓ where
  parsed : A → Parsed A
  failed : Asn1Error → Parsed A

infixl 5 ◌>>=◌
abbrev pub ◌>>=◌ {ℓ κ} : {A : Type ℓ} {B : Type κ} → Parsed A → (A → Parsed B) → Parsed B
parsed a >>= f = f a
failed e >>= f = failed e

-- `m_btTag`, `m_value` and `m_btLenRead`; `m_indefiniteLen` is never set.
pub record Asn1Object : Type 0 where
  pub tag : ℕ
  pub value : List ℕ
  pub len_read : ℕ

-- The octets of a long length, and `nLenNeeded` as their number: at most so many.
unfoldable pub length_octets : ℕ → ℕ → List ℕ
length_octets zero n = []
length_octets (suc k) n = if n == 0 then [] else length_octets k (n / 256) ++ ((n % 256) ∷ [])

unfoldable pub get_serialized_length : ℕ → ℕ
unfolding length_octets
get_serialized_length n = if ltb n 0x80 then 2 + n else 2 + (length (length_octets 4 n) + n)

unfoldable pub to_byte_array : Asn1Object → List ℕ
unfolding length_octets
to_byte_array obj =
    let n = length obj.value in
    if ltb n 0x80
    then obj.tag ∷ n ∷ obj.value
    else obj.tag ∷ (0x80 + length (length_octets 4 n)) ∷ (length_octets 4 n ++ obj.value)

unfoldable pub same_object : Asn1Object → Asn1Object → Bool
unfolding equal
same_object a b = a.tag == b.tag && (length a.value == length b.value && equal a.value b.value)

-- `nLen = (nLen << 8) | btHexLen[i]` on an unsigned of 32 bits.
unfoldable pub shift_in : ℕ → List ℕ → ℕ
shift_in n [] = n
shift_in n (b ∷ bs) = shift_in ((n * 256 + b) % 2 ^ 32) bs

-- The loop that reads the value in chunks; the number of bytes is rounds enough.
unfoldable pub read_chunks : ℕ → ℕ → List ℕ → Parsed (List ℕ × List ℕ)
read_chunks zero remaining rest = if remaining == 0 then parsed ([], rest) else failed bad_object
read_chunks (suc fuel) remaining rest =
    let to_read = if ltb remaining 8192 then remaining else 8192 in
    let got = take to_read rest in
    let more = read_chunks fuel (remaining - length got) (drop to_read rest) in
    if remaining == 0
    then parsed ([], rest)
    else if length got == 0
    then failed bad_object
    else (more >>= λ r. parsed (got ++ r.0, r.1))

unfoldable pub read_object_value : ℕ → ℕ → ℕ → List ℕ → Parsed (Asn1Object × List ℕ)
unfolding read_chunks
read_object_value tag len_read n rest = read_chunks n n rest >>= λ r.
    parsed (record { tag = tag; value = r.0; len_read = len_read }, r.1)

-- parseLen, over the reader of content with an indefinite length.
unfoldable pub parse_len :
    (List ℕ → Parsed (List ℕ × List ℕ)) → List ℕ → Parsed (Asn1Object × List ℕ)
unfolding read_object_value shift_in
parse_len ber [] = failed object_not_found
parse_len ber (tag ∷ []) = failed bad_object
parse_len ber (tag ∷ l ∷ rest) =
    if l == 0x80
    then (ber rest >>= λ r. parsed (record { tag = tag; value = r.0; len_read = 0 }, r.1))
    else if leb 0x80 l
    then (if (l - 0x80 == 0)
          || (ltb 4 (l - 0x80) || not (length (take (l - 0x80) rest) == l - 0x80))
        then failed bad_object
        else read_object_value tag (l - 0x80) (shift_in 0 (take (l - 0x80) rest))
            (drop (l - 0x80) rest))
    else read_object_value tag 0 l rest

-- The end-of-contents octets after an object, or the next object from where they would stand.
unfoldable pub after_object :
    (List ℕ → Parsed (List ℕ × List ℕ)) → Asn1Object × List ℕ → Parsed (List ℕ × List ℕ)
unfolding to_byte_array
after_object again (obj, []) = failed bad_object
after_object again (obj, (a ∷ [])) = failed bad_object
after_object again (obj, (a ∷ b ∷ rest)) =
    if a == 0 && b == 0
    then parsed (to_byte_array obj, rest)
    else (again (a ∷ b ∷ rest) >>= λ r. parsed (to_byte_array obj ++ r.0, r.1))

-- parseBER, so many levels from the limit of g_asn1BerDepth: it counts siblings too.
unfoldable pub parse_ber : ℕ → List ℕ → Parsed (List ℕ × List ℕ)
unfolding parse_len after_object
parse_ber zero rest = failed bad_object
parse_ber (suc levels) rest = parse_len (parse_ber levels) rest >>= after_object (parse_ber levels)

-- kMaxAsn1BerDepth
abbrev pub max_ber_depth : ℕ
max_ber_depth = 64

-- `fromReader` at the top, and `fromByteArray`, which leaves the rest.
unfoldable pub from_reader : List ℕ → Parsed (Asn1Object × List ℕ)
unfolding parse_len parse_ber
from_reader = parse_len (parse_ber max_ber_depth)

unfoldable pub from_byte_array : List ℕ → Parsed Asn1Object
unfolding from_reader
from_byte_array bytes = from_reader bytes >>= λ r. parsed (r.0)

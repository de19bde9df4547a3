-- ===== src/Util/Asn1/Header.antt =====
-- The header of a node in CASNParser::Parse, and GetASN1DataLenght, of
-- shared/src/crypto/asn_parser.cpp. `cur` is what is left of the input from the cursor on.
use opencie_pkcs.Base.{
  ℕ, ◌+◌, ◌-◌, ◌*◌, ◌%◌, Bool, false, ◌&&◌, ◌||◌, List, [], ◌∷◌, ltb, ◌==◌, if◌then◌else◌, length,
  take, Result, ok, throw, logged_error, ◌>>=◌, u64_mod,
}

-- The tag of a node, the octets after it, the number of octets of its length field, and the
-- length that they stand for.
pub record Header : Type 0 where
  pub tag : List ℕ
  pub after : List ℕ
  pub llen : ℕ
  pub len : ℕ

-- The octets of a long tag after the first: up to one without the top bit.
unfoldable pub long_tag : List ℕ → Result (List ℕ × List ℕ)
long_tag [] = throw logged_error
long_tag (c ∷ cs) =
    let rest = long_tag cs in
    if ltb c 0x80 then ok (c ∷ [], cs) else (do r ← rest; ok (c ∷ r.0, r.1))

unfoldable pub read_tag : List ℕ → Result (List ℕ × List ℕ)
unfolding long_tag
read_tag [] = throw logged_error
read_tag (b ∷ bs) =
    if b % 32 == 31 then (do r ← long_tag bs; ok (b ∷ r.0, r.1)) else ok (b ∷ [], bs)

-- `len <<= 8; len |= b;`
unfoldable pub long_length : ℕ → List ℕ → ℕ
long_length len [] = len
long_length len (b ∷ bs) = long_length ((len * 256 + b) % u64_mod) bs

-- The octets of the length field after the first, and the length.
unfoldable pub read_length : List ℕ → Result (ℕ × ℕ)
unfolding long_length
read_length [] = throw logged_error
read_length (c ∷ cs) =
    if c == 0x80
    then ok (1, length cs)
    else if ltb c 0x80
    then ok (1, c)
    else if ltb 8 (c % 128) || ltb (length cs) (c % 128)
    then throw logged_error
    else ok (c % 128 + 1, long_length 0 (take (c % 128) cs))

unfoldable pub read_header : List ℕ → Result Header
unfolding read_tag read_length
read_header cur = do
  t ← read_tag cur
  l ← read_length t.1
  ok (record { tag = t.0; after = t.1; llen = l.0; len = l.1 })

-- `tagv[0] == 0 && len == 0`
abbrev pub ends_content : List ℕ → ℕ → Bool
ends_content [] len = false
ends_content (b ∷ bs) len = b == 0 && len == 0

abbrev pub is_end : Header → Bool
is_end h = ends_content h.tag h.len

-- `header > remaining || len > remaining - header`
abbrev pub too_long : Header → Bool
too_long h = ltb (length h.after) h.llen || ltb (length h.after - h.llen) h.len

-- The same octets in GetASN1DataLenght, which asks for one more after an indefinite length and
-- counts it out.
unfoldable pub data_length_field : List ℕ → Result (ℕ × ℕ)
unfolding long_length
data_length_field [] = throw logged_error
data_length_field (c ∷ cs) =
    if c == 0x80
    then (if ltb (length cs) 1 then throw logged_error else ok (1, length cs - 1))
    else if ltb c 0x80
    then ok (1, c)
    else if ltb 8 (c % 128) || ltb (length cs) (c % 128)
    then throw logged_error
    else ok (c % 128 + 1, long_length 0 (take (c % 128) cs))

-- GetASN1DataLenght; its test after each octet of a long tag is the one before the length field.
unfoldable pub get_asn1_data_length : List ℕ → Result ℕ
unfolding read_tag data_length_field
get_asn1_data_length buf = do
  t ← read_tag buf
  l ← data_length_field t.1
  if ltb (u64_mod - 1 - (length t.0 + l.0)) l.1
      then throw logged_error
      else ok (length t.0 + l.0 + l.1)

-- ===== src/Util/Asn1.antt =====
-- The tag and length fields of ASN.1 in shared/src/util: ASN1TLength, putASN1Tag, ASN1LLength and
-- putASN1Length of util.cpp, getASN1Tag and setASN1Tag of array.cpp.
pub mod Write
pub mod Tree
pub mod Header
pub mod Parse
pub mod Der
pub mod Encoding
pub mod Placed
pub mod RoundTrip
pub mod Measure
mod Total
mod Tests
use opencie_pkcs.Base.{
  ℕ, zero, suc, ◌+◌, ◌*◌, ◌/◌, ◌%◌, ◌^◌, List, [], ◌∷◌, ◌++◌, ltb, leb, ◌==◌, if◌then◌else◌, length,
  take, replicate, Result, ok, throw, logged_error, ◌>>=◌, u32_mod,
}
use opencie_pkcs.Util.Array.{put, copy, mid_from}

-- `tag >>= 8` at most `rounds` times.
unfoldable pub t_length_loop : ℕ → ℕ → ℕ
t_length_loop zero tag = 0
t_length_loop (suc rounds) tag =
    let rest = t_length_loop rounds (tag / 256) in if tag == 0 then 0 else suc rest

-- An unsigned int has 4 bytes.
unfoldable pub asn1_t_length : ℕ → ℕ
unfolding t_length_loop
asn1_t_length tag = t_length_loop 4 tag

-- `tag <<= 8` at most `rounds` times.
unfoldable pub put_tag_loop : ℕ → ℕ → ℕ → List ℕ → Result (List ℕ)
put_tag_loop zero tag pos buf = ok buf
put_tag_loop (suc rounds) tag pos buf =
    let next = tag * 256 % u32_mod in
    if tag == 0
    then ok buf
    else if tag / 2 ^ 24 == 0
    then put_tag_loop rounds next pos buf
    else (put buf pos (tag / 2 ^ 24) >>= λ d. put_tag_loop rounds next (pos + 1) d)

unfoldable pub put_asn1_tag : ℕ → List ℕ → Result (List ℕ)
unfolding put_tag_loop
put_asn1_tag tag buf = put_tag_loop 4 tag 0 buf

unfoldable pub asn1_l_length : ℕ → Result ℕ
asn1_l_length len =
    if ltb len 0x80
    then ok 1
    else if leb len 0xff
    then ok 2
    else if leb len 0xffff
    then ok 3
    else if leb len 0xffffff
    then ok 4
    else if leb len 0xffffffff
    then ok 5
    else throw logged_error

-- Longer lengths write nothing.
unfoldable pub put_asn1_length : ℕ → List ℕ → Result (List ℕ)
put_asn1_length len buf =
    if ltb len 0x80
    then put buf 0 len
    else if leb len 0xff
    then (do d1 ← put buf 0 0x81; put d1 1 len)
    else if leb len 0xffff
    then (do d1 ← put buf 0 0x82; d2 ← put d1 1 (len / 2 ^ 8); put d2 2 (len % 256))
    else if leb len 0xffffff
    then (do
      d1 ← put buf 0 0x83
      d2 ← put d1 1 (len / 2 ^ 16)
      d3 ← put d2 2 (len / 2 ^ 8 % 256)
      put d3 3 (len % 256))
    else if leb len 0xffffffff
    then (do
      d1 ← put buf 0 0x84
      d2 ← put d1 1 (len / 2 ^ 24)
      d3 ← put d2 2 (len / 2 ^ 16 % 256)
      d4 ← put d3 3 (len / 2 ^ 8 % 256)
      put d4 4 (len % 256))
    else ok buf

-- What a write through the view from `start` on leaves in the array.
abbrev pub through : List ℕ → ℕ → (List ℕ → Result (List ℕ)) → Result (List ℕ)
through buf start write = do
  view ← mid_from buf start
  written ← write view
  ok (take start buf ++ written)

-- `setASN1Tag`, and `getASN1Tag` of the content.
unfoldable pub set_asn1_tag : ℕ → List ℕ → Result (List ℕ)
unfolding put_asn1_tag asn1_t_length
set_asn1_tag tag content = do
  ll ← asn1_l_length (length content)
  d1 ← put_asn1_tag tag (replicate (asn1_t_length tag + ll + length content) 0)
  d2 ← through d1 (asn1_t_length tag) (put_asn1_length (length content))
  through d2 (asn1_t_length tag + ll) (λ view. copy view content 0)

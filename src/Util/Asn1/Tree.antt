-- ===== src/Util/Asn1/Tree.antt =====
-- CASNTag and CASNParser of shared/src/crypto/asn_parser.cpp: the tree, its lengths, the access to
-- its nodes, and Encode, which writes through views of one array.
use opencie_pkcs.Base.{
  ℕ, zero, suc, ◌+◌, ◌*◌, ◌/◌, ◌%◌, Bool, false, ◌&&◌, ◌||◌, List, [], ◌∷◌, ◌++◌, ◌==◌,
  if◌then◌else◌, length, take, replicate, Result, ok, throw, logged_error, ◌>>=◌, u64_mod,
}
use opencie_pkcs.Util.Array.{copy, mid_from, equal}
use opencie_pkcs.Util.Asn1.{asn1_l_length, put_asn1_length, through}

-- The octets of the tag, the content, the children, `forcedSequence`, `startPos` and `endPos`.
mutual
  pub data AsnTag : Type 0 where
    asn_tag : List ℕ → List ℕ → AsnTags → Bool → ℕ → ℕ → AsnTag

  pub data AsnTags : Type 0 where
    nil : AsnTags
    cons : AsnTag → AsnTags → AsnTags

-- `(tag[0] & 0x20) == 0x20`
abbrev pub is_constructed : List ℕ → Bool
is_constructed [] = false
is_constructed (b ∷ bs) = b / 32 % 2 == 1

abbrev pub is_sequence : AsnTag → Bool
is_sequence (asn_tag tag content tags forced start end) = forced || is_constructed tag

-- `tag.size() == 1 && tag[0] == value`
abbrev pub is_single : List ℕ → ℕ → Bool
is_single (b ∷ []) value = b == value
is_single bs value = false

-- `tagInt`; size_t wraps around.
unfoldable pub tag_int_loop : ℕ → List ℕ → ℕ
tag_int_loop val [] = val
tag_int_loop val (b ∷ bs) = tag_int_loop ((val * 256 + b) % u64_mod) bs

unfoldable mutual
  pub encode_len : AsnTag → Result ℕ
  encode_len (asn_tag tag content tags forced start end) =
      let children = tags_len tags in
      do
        clen ← if forced || is_constructed tag then children else ok (length content)
        llen ← asn1_l_length clen
        ok (length tag + llen + clen)

  pub tags_len : AsnTags → Result ℕ
  tags_len nil = ok 0
  tags_len (cons t ts) =
      let len = encode_len t in let rest = tags_len ts in do n ← len; m ← rest; ok (n + m)

unfoldable pub content_len : AsnTag → Result ℕ
unfolding encode_len
content_len (asn_tag tag content tags forced start end) =
    if forced || is_constructed tag then tags_len tags else ok (length content)

-- A write through the view from `start` on that also tells a length.
abbrev pub through_len : List ℕ → ℕ → (List ℕ → Result (List ℕ × ℕ)) → Result (List ℕ × ℕ)
through_len buf start write = do
  view ← mid_from buf start
  written ← write view
  ok (take start buf ++ written.0, written.1)

-- The tag and the length of a node with so many octets of content; it gives where these begin.
unfoldable pub encode_header : List ℕ → Bool → ℕ → List ℕ → Result (List ℕ × ℕ)
encode_header tag forced clen buf = if is_single tag 3 && forced then throw logged_error else (do
  d1 ← copy buf tag 0
  llen ← asn1_l_length clen
  d2 ← through d1 (length tag) (put_asn1_length clen)
  ok (d2, length tag + llen))

-- The loop over the children writes from `pos` on, and gives the position after the last.
unfoldable mutual
  unfolding content_len encode_header

  pub encode : AsnTag → List ℕ → Result (List ℕ × ℕ)
  encode (asn_tag tag content tags forced start end) buf =
      let children = encode_tags tags in
      let node = asn_tag tag content tags forced start end in
      do
        clen ← content_len node
        head ← encode_header tag forced clen buf
        if forced || is_constructed tag
            then children head.1 head.0
            else (do d ← through head.0 head.1 (λ view. copy view content 0); ok (d, head.1 + clen))

  pub encode_tags : AsnTags → ℕ → List ℕ → Result (List ℕ × ℕ)
  encode_tags nil pos buf = ok (buf, pos)
  encode_tags (cons t ts) pos buf =
      let one = encode t in
      let rest = encode_tags ts in do step ← through_len buf pos one; rest (pos + step.1) step.0

-- CASNParser::Encode into a buffer of the size it needs.
unfoldable pub encode_all : AsnTags → Result (List ℕ)
unfolding encode_len encode
encode_all tags = do
  size ← tags_len tags
  result ← encode_tags tags 0 (replicate size 0)
  ok (result.0)

unfoldable pub nth_tag : AsnTags → ℕ → Result AsnTag
nth_tag nil num = throw logged_error
nth_tag (cons t ts) zero = ok t
nth_tag (cons t ts) (suc num) = nth_tag ts num

unfoldable pub check_tag : AsnTag → ℕ → Result AsnTag
check_tag (asn_tag tag content tags forced start end) expected =
    if is_single tag expected
    then ok (asn_tag tag content tags forced start end)
    else throw logged_error

-- `Child`
unfoldable pub child : AsnTag → ℕ → ℕ → Result AsnTag
unfolding nth_tag check_tag
child (asn_tag tag content tags forced start end) num expected = do
  t ← nth_tag tags num
  check_tag t expected

unfoldable pub verify_content : AsnTag → List ℕ → Result (Unit {0})
unfolding equal
verify_content (asn_tag tag content tags forced start end) expected =
    if equal content expected then ok tt else throw logged_error

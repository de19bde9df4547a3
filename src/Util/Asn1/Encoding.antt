-- ===== src/Util/Asn1/Encoding.antt =====
-- Encode writes the octets of the tree.
use opencie_pkcs.Base.{
  ℕ, ◌+◌, ◌^◌, ◌<◌, ◌≡◌, refl, sym, Bool, true, false, ◌&&◌, ◌||◌, List, [], ◌∷◌, ◌++◌, arith,
  if◌then◌else◌, length, take, drop, replicate, length-append, length-replicate, length-take,
  length-drop, take-append-drop, Result, ok, ◌>>=◌, take_exact, drop_exact,
}
use mathlib.Core.List.{append-nil, append_assoc}
use opencie_pkcs.Util.Array.{copy, mid_from}
use opencie_pkcs.Util.Array.Writes.{copy_part}
use opencie_pkcs.Util.Asn1.{asn1_l_length, put_asn1_length, through}
use opencie_pkcs.Util.Asn1.Write.{
  length_octets, asn1_l_length_lem, put_asn1_length_lem, through_part,
}
use opencie_pkcs.Util.Asn1.Tree.{
  AsnTag, AsnTags, asn_tag, nil, cons, is_constructed, is_single, encode_len, tags_len, content_len,
  encode_header, encode, encode_tags, encode_all, through_len,
}
use opencie_pkcs.Util.Asn1.Der.{header_octets, der, der_tags, Fits, FitAll}

pub length-header_octets :
    (tag : List ℕ) (len : ℕ)
    → length (header_octets tag len) ≡ length tag + length (length_octets len)
unfolding header_octets
length-header_octets tag len = length-append tag (length_octets len)

clen_lem :
    (b : Bool) (tags : AsnTags) (content : List ℕ)
    → tags_len tags ≡ ok (length (der_tags tags))
    → (if b then tags_len tags else ok (length content))
      ≡ ok (length (if b then der_tags tags else content))
clen_lem true tags content h = h
clen_lem false tags content h = refl

node_len :
    (tag body : List ℕ)
    → length body < 2 ^ 32
    → (asn1_l_length (length body) >>= λ llen. ok (length tag + llen + length body))
      ≡ ok (length (header_octets tag (length body) ++ body))
node_len tag body h = ground (
  arith,
  asn1_l_length_lem (length body),
  length-header_octets tag (length body),
  length-append (header_octets tag (length body)) body,
)

mutual
  unfolding encode_len der Fits

  pub encode_len-der : (t : AsnTag) → Fits t → encode_len t ≡ ok (length (der t))
  encode_len-der (asn_tag tag content tags forced start end) h =
      rw (clen_lem (forced || is_constructed tag) tags content (tags_len-der tags h.2))
        (node_len tag (if forced || is_constructed tag then der_tags tags else content) h.1)

  pub tags_len-der : (ts : AsnTags) → FitAll ts → tags_len ts ≡ ok (length (der_tags ts))
  tags_len-der nil h = refl
  tags_len-der (cons t ts) h =
      ground (arith, encode_len-der t h.0, tags_len-der ts h.1, length-append (der t) (der_tags ts))

encode_header_lem :
    (tag old back : List ℕ) (forced : Bool) (clen : ℕ)
    → clen < 2 ^ 32
    → (is_single tag 3 && forced) ≡ false
    → length old ≡ length (header_octets tag clen)
    → encode_header tag forced clen (old ++ back)
      ≡ ok (header_octets tag clen ++ back, length (header_octets tag clen))
unfolding encode_header header_octets
encode_header_lem tag old back forced clen small single e =
    let n = length tag in
    let size = length-append tag (length_octets clen) in
    let one =
      copy_part [] (take n old) (drop n old ++ back) tag
        (omega (arith, e, size, length-take n old)) in
    let two =
      through_part tag (drop n old ++ back) (length_octets clen ++ back) (put_asn1_length clen) (
        put_asn1_length_lem clen (drop n old) back small
          (omega (arith, e, size, length-drop n old))) in
    rw
      (
        single,
        ← take-append-drop n old,
        append_assoc (take n old) (drop n old) back,
        one,
        asn1_l_length_lem clen small,
        two,
        size,
        append_assoc tag (length_octets clen) back,
      )
      refl

-- Behind the header, the children of a node or its content.
body_lem :
    (c : Bool) (tags : AsnTags) (head content old back : List ℕ)
    → length old ≡ length (if c then der_tags tags else content)
    → (length old ≡ length (der_tags tags)
        → encode_tags tags (length head) (head ++ (old ++ back))
          ≡ ok (head ++ (der_tags tags ++ back), length head + length (der_tags tags)))
    → (if c
        then encode_tags tags (length head) (head ++ (old ++ back))
        else (through (head ++ (old ++ back)) (length head) (λ view. copy view content 0) >>= λ d.
            ok (d, length head + length (if c then der_tags tags else content))))
      ≡ ok (
        (head ++ (if c then der_tags tags else content)) ++ back,
        length (head ++ (if c then der_tags tags else content)),
      )
body_lem true tags head content old back e ih =
    rw (append_assoc head (der_tags tags) back, length-append head (der_tags tags)) (ih e)
body_lem false tags head content old back e ih =
    rw
      (
        append_assoc head content back,
        length-append head content,
        through_part head (old ++ back) (content ++ back) (λ view. copy view content 0)
            (copy_part [] old back content (sym e)),
      )
      refl

through_len_part :
    (front view written : List ℕ) (n : ℕ) (write : List ℕ → Result (List ℕ × ℕ))
    → write view ≡ ok (written, n)
    → through_len (front ++ view) (length front) write ≡ ok (front ++ written, n)
unfolding mid_from
through_len_part front view written n write h = ground (
  arith,
  length-append front view,
  take_exact (length front) front view,
  drop_exact (length front) front view,
)

mutual
  unfolding encode der Fits content_len

  pub encode-der :
      (t : AsnTag) (old back : List ℕ)
      → Fits t
      → length old ≡ length (der t)
      → encode t (old ++ back) ≡ ok (der t ++ back, length (der t))
  encode-der (asn_tag tag content tags forced start end) old back h e =
      let c = forced || is_constructed tag in
      let body = if c then der_tags tags else content in
      let head = header_octets tag (length body) in
      let n = length head in
      let size = length-append head body in
      let first =
        encode_header_lem tag (take n old) (drop n old ++ back) forced (length body) h.1 h.0
          (length-take n old (omega (arith, e, size))) in
      let rest : length (drop n old) ≡ length body = omega (arith, e, size, length-drop n old) in
      rw
        (
          clen_lem c tags content (tags_len-der tags h.2),
          ← take-append-drop n old,
          append_assoc (take n old) (drop n old) back,
          first,
        )
        (body_lem c tags head content (drop n old) back rest
          (encode_tags-der tags head (drop n old) back h.2))

  encode_tags-der :
      (ts : AsnTags) (front old back : List ℕ)
      → FitAll ts
      → length old ≡ length (der_tags ts)
      → encode_tags ts (length front) (front ++ (old ++ back))
        ≡ ok (front ++ (der_tags ts ++ back), length front + length (der_tags ts))
  encode_tags-der nil front [] back h e = ground arith
  encode_tags-der nil front (x ∷ old) back h e = absurd (ground arith)
  encode_tags-der (cons t ts) front old back h e =
      let n = length (der t) in
      let size = length-append (der t) (der_tags ts) in
      let one =
        encode-der t (take n old) (drop n old ++ back) h.0
          (length-take n old (omega (arith, e, size))) in
      let more =
        encode_tags-der ts (front ++ der t) (drop n old) back h.1
          (omega (arith, e, size, length-drop n old)) in
      rw
        (
          ← take-append-drop n old,
          append_assoc (take n old) (drop n old) back,
          through_len_part front (take n old ++ (drop n old ++ back))
              (der t ++ (drop n old ++ back)) n (encode t) one,
          ← append_assoc front (der t) (drop n old ++ back),
          ← length-append front (der t),
          more,
        )
        (ground (
          arith,
          length-append front (der t),
          length-append front (der t ++ der_tags ts),
          size,
          append_assoc front (der t) (der_tags ts ++ back),
          append_assoc (der t) (der_tags ts) back,
        ))

-- CASNParser::Encode
pub encode_all-der : (ts : AsnTags) → FitAll ts → encode_all ts ≡ ok (der_tags ts)
unfolding encode_all
encode_all-der ts h =
    let size = length (der_tags ts) in
    rw (tags_len-der ts h) (
      ground (
        arith,
        append-nil (replicate {A = ℕ} size 0),
        append-nil (der_tags ts),
        encode_tags-der ts [] (replicate size 0) [] h (length-replicate {A = ℕ} size 0),
      ))

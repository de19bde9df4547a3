-- ===== src/Util/Asn1/RoundTrip.antt =====
-- Parse reads back what Encode writes.
use opencie_pkcs.Base.{
  ℕ, zero, suc, ◌+◌, ◌-◌, ◌^◌, ◌<◌, ◌≤◌, ◌≡◌, refl, ◌∙◌, ap, Bool, true, false, List, [], ◌∷◌, ◌++◌,
  arith, ltb, ◌==◌, if◌then◌else◌, length, length-append, ok, drop-append, take-append, ne→==,
  le→ltb,
}
use mathlib.Core.List.{append_assoc}
use opencie_pkcs.Base.Outcome.{Outcome, done, ◌>>=◌}
use opencie_pkcs.Util.Asn1.Write.{length_octets}
use opencie_pkcs.Util.Asn1.Tree.{encode_all, AsnTags, asn_tag, nil, cons, is_constructed}
use opencie_pkcs.Util.Asn1.Header.{
  read_header, read_tag, long_tag, read_length, long_length, ends_content,
}
use opencie_pkcs.Util.Asn1.Parse.{
  Again, parse_round, parse_node, parse_loop, parse, finish, max_depth,
}
use opencie_pkcs.Util.Asn1.Der.{header_octets, der, der_tags}
use opencie_pkcs.Util.Asn1.Encoding.{length-header_octets, encode_all-der}
use opencie_pkcs.Util.Asn1.Placed.{IsLongTag, IsTag, Placed, PlacedAll, PlacedAll-FitAll}

long_tag_lem : (tag rest : List ℕ) → IsLongTag tag → long_tag (tag ++ rest) ≡ ok (tag, rest)
unfolding long_tag
long_tag_lem [] rest h = absurd h
long_tag_lem (c ∷ []) rest h = ground arith
long_tag_lem (c ∷ d ∷ ds) rest h = ground (arith, long_tag_lem (d ∷ ds) rest h.1)

pub read_tag_lem : (tag rest : List ℕ) → IsTag tag → read_tag (tag ++ rest) ≡ ok (tag, rest)
unfolding read_tag
read_tag_lem [] rest h = absurd h
read_tag_lem (b ∷ []) rest h = ground arith
read_tag_lem (b ∷ c ∷ cs) rest h = ground (arith, long_tag_lem (c ∷ cs) rest h.1)

read_length_lem :
    (len : ℕ) (rest : List ℕ)
    → len < 2 ^ 32
    → read_length (length_octets len ++ rest) ≡ ok (length (length_octets len), len)
unfolding read_length length_octets long_length
read_length_lem len rest h = ground arith

read_header_lem :
    (tag body more : List ℕ)
    → IsTag tag
    → length body < 2 ^ 32
    → read_header (header_octets tag (length body) ++ (body ++ more))
      ≡ ok (record {
        tag = tag;
        after = length_octets (length body) ++ (body ++ more);
        llen = length (length_octets (length body));
        len = length body;
      })
unfolding read_header header_octets
read_header_lem tag body more h small =
    rw
      (
        append_assoc tag (length_octets (length body)) (body ++ more),
        read_tag_lem tag (length_octets (length body) ++ (body ++ more)) h,
        read_length_lem (length body) (body ++ more) small,
      )
      refl

IsTag-length : (tag : List ℕ) → IsTag tag → 0 < length tag
IsTag-length [] h = absurd h
IsTag-length (b ∷ bs) h = omega arith

-- After the header of a node with that tag and body, with `more` behind it.
parse_node_lem :
    (again : Again) (depth at : ℕ) (tag octets body more : List ℕ)
    → ends_content tag (length body) ≡ false
    → parse_node again depth at (record {
      tag = tag;
      after = octets ++ (body ++ more);
      llen = length octets;
      len = length body;
    })
      ≡ (let place = at + (length tag + length octets) in
          if is_constructed tag
          then (again (suc depth) place body >>= λ tags.
              again depth (place + length body) more >>= λ ts.
              finish tag [] tags at (place + length body) ts)
          else (again depth (place + length body) more >>= λ ts.
              finish tag body nil at (place + length body) ts))
unfolding parse_node
parse_node_lem again depth at tag octets body more goes =
    let first : ltb (length (octets ++ (body ++ more))) (length octets) ≡ false =
      le→ltb _ _ (omega (arith, length-append octets (body ++ more))) in
    let second : ltb (length (octets ++ (body ++ more)) - length octets) (length body) ≡ false =
      le→ltb _ _ (omega (arith, length-append octets (body ++ more), length-append body more)) in
    rw
      (
        goes,
        first,
        second,
        drop-append octets (body ++ more),
        take-append body more,
        drop-append body more,
      )
      refl

-- One round of the loop, on such a node.
parse_round_lem :
    (again : Again) (depth at : ℕ) (tag body more : List ℕ)
    → IsTag tag
    → length body < 2 ^ 32
    → ends_content tag (length body) ≡ false
    → depth ≤ max_depth
    → parse_round again depth at (header_octets tag (length body) ++ (body ++ more)) ≡ (
        let place = at + length (header_octets tag (length body)) in
        if is_constructed tag
        then (again (suc depth) place body >>= λ tags.
            again depth (place + length body) more >>= λ ts.
            finish tag [] tags at (place + length body) ts)
        else (again depth (place + length body) more >>= λ ts.
            finish tag body nil at (place + length body) ts))
unfolding parse_round
parse_round_lem again depth at tag body more h small goes deep =
    let octets = length_octets (length body) in
    let size = length-header_octets tag (length body) in
    let total = length-append (header_octets tag (length body)) (body ++ more) in
    let some : (length (header_octets tag (length body) ++ (body ++ more)) == 0) ≡ false =
      ne→== _ 0 (λ e. omega (arith, IsTag-length tag h, size, total, e)) in
    let level : ltb max_depth depth ≡ false = le→ltb max_depth depth deep in
    rw (level, some, read_header_lem tag body more h small, size)
      (parse_node_lem again depth at tag octets body more goes)

-- The node that both ways through `parse_node` build.
node_built :
    (c : Bool) (tag content : List ℕ) (tags ts : AsnTags) (at end : ℕ)
    (children rest : Outcome AsnTags)
    → rest ≡ done ts
    → (if c then ((content ≡ []) × (children ≡ done tags)) else (tags ≡ nil))
    → (if c
        then (children >>= λ ts1. rest >>= λ ts2. finish tag [] ts1 at end ts2)
        else (rest >>= λ ts2. finish tag (if c then der_tags tags else content) nil at end ts2))
      ≡ done (cons (asn_tag tag content tags false at end) ts)
node_built true tag content tags ts at end children rest r h = rw (h.1, r, h.0) refl
node_built false tag content tags ts at end children rest r h = rw (r, h) refl

children_parsed :
    (c : Bool) {A B : Type 0} (content : List ℕ) (tags : AsnTags)
    → (c ≡ true → A → B)
    → (if c then ((content ≡ []) × A) else (tags ≡ nil))
    → (if c then ((content ≡ []) × B) else (tags ≡ nil))
children_parsed true content tags f h = (h.0, f refl h.1)
children_parsed false content tags f h = h

PlacedAll-depth : (depth at : ℕ) (ts : AsnTags) → PlacedAll depth at ts → depth ≤ max_depth
unfolding Placed
PlacedAll-depth depth at nil h = h
PlacedAll-depth depth at (cons t ts) h = PlacedAll-depth depth (at + length (der t)) ts h.1

mutual
  unfolding parse_loop der Placed

  parse_loop-der :
      (fuel depth at : ℕ) (ts : AsnTags)
      → PlacedAll depth at ts
      → length (der_tags ts) < fuel
      → parse_loop fuel depth at (der_tags ts) ≡ done ts
  parse_loop-der zero depth at ts h e = absurd (omega (arith, e))
  parse_loop-der (suc fuel) depth at nil h e = rw (le→ltb max_depth depth h) refl
  parse_loop-der (suc fuel) depth at (cons (asn_tag tag content tags true start end) ts) h e =
      absurd (ground (arith, h.0.1))
  parse_loop-der (suc fuel) depth at (cons (asn_tag tag content tags false start end) ts) h e =
      let c = is_constructed tag in
      let body = if c then der_tags tags else content in
      let head = header_octets tag (length body) in
      let place = at + length head in
      let size = length-append (head ++ body) (der_tags ts) in
      let inner = length-append head body in
      let long : 0 < length head =
        omega (arith, length-header_octets tag (length body), IsTag-length tag h.0.0) in
      let behind : place + length body ≡ at + length (head ++ body) = omega (arith, inner) in
      rw
        (
          h.0.4,
          h.0.5,
          append_assoc head body (der_tags ts),
          parse_round_lem (parse_loop fuel) depth at tag body (der_tags ts) h.0.0 h.0.2 h.0.3
              (PlacedAll-depth depth _ ts h.1),
        )
        (node_built c tag content tags ts at (place + length body) _ _
          (rw behind (
            parse_loop-der fuel depth (at + length (head ++ body)) ts h.1
              (omega (arith, e, size, inner, long))))
          (children_parsed c content tags
            (λ q p.
              let same : body ≡ der_tags tags = rw q refl in
              ap (λ b. parse_loop fuel (suc depth) place b) same
              ∙ parse_loop-der fuel (suc depth) place tags p
                  (omega (arith, e, size, inner, long, ap length same)))
            h.0.6))

-- For a tree of CASNTag with well-formed tags, lengths below 2 ^ 32 and no node that ends the
-- content, whose nodes stand at their places and no deeper than 32 levels below the top, Encode
-- returns bytes from which Parse builds the same tree.
pub parse-encode_all :
    (ts : AsnTags)
    → PlacedAll 0 0 ts
    → (bytes : List ℕ) × (encode_all ts ≡ ok bytes) × (parse bytes ≡ done ts)
unfolding parse
parse-encode_all ts placed = (
  der_tags ts,
  encode_all-der ts (PlacedAll-FitAll 0 0 ts placed),
  parse_loop-der (suc (length (der_tags ts))) 0 0 ts placed (omega arith),
)

-- ===== src/Util/Asn1/Parse.antt =====
-- CASNParser::Parse of shared/src/crypto/asn_parser.cpp. `cur` is what is left of the input from
-- the cursor on, and `at` the cursor's place in the whole input.
use opencie_pkcs.Base.{
  ℕ, zero, suc, ◌+◌, true, false, List, [], ltb, ◌==◌, if◌then◌else◌, length, take, drop, ok,
  logged_error,
}
use opencie_pkcs.Base.Outcome.{Outcome, done, thrown, running, outcome, ◌>>=◌}
use opencie_pkcs.Util.Asn1.Tree.{AsnTag, AsnTags, asn_tag, nil, cons, is_constructed, is_single}
use opencie_pkcs.Util.Array.{mid_from}
use opencie_pkcs.Util.Asn1.Header.{Header, read_header, is_end, too_long}

-- kMaxAsn1NestingDepth
abbrev pub max_depth : ℕ
max_depth = 32

abbrev pub finish : List ℕ → List ℕ → AsnTags → ℕ → ℕ → AsnTags → Outcome AsnTags
finish tag content tags start end rest = done (cons (asn_tag tag content tags false start end) rest)

-- Another run of the loop: its depth, its place and its input.
abbrev pub Again : Type 0
Again = ℕ → ℕ → List ℕ → Outcome AsnTags

-- What follows a header: the node's children, where it has any, and the nodes behind it.
unfoldable pub parse_node : Again → ℕ → ℕ → Header → Outcome AsnTags
parse_node again depth at h =
    let place = at + (length h.tag + h.llen) in
    let content = take h.len (drop h.llen h.after) in
    let rest = drop h.len (drop h.llen h.after) in
    if is_end h
    then done nil
    else if too_long h
    then thrown logged_error
    else if is_constructed h.tag
    then (again (suc depth) place content >>= λ tags.
        again depth (place + h.len) rest >>= λ ts. finish h.tag [] tags at (place + h.len) ts)
    else (again depth (place + h.len) rest >>= λ ts. finish h.tag content nil at (place + h.len) ts)

unfoldable pub parse_round : Again → ℕ → ℕ → List ℕ → Outcome AsnTags
unfolding read_header parse_node
parse_round again depth at cur =
    if ltb max_depth depth
    then thrown logged_error
    else if length cur == 0
    then done nil
    else (outcome (read_header cur) >>= λ h. parse_node again depth at h)

unfoldable pub parse_loop : ℕ → ℕ → ℕ → List ℕ → Outcome AsnTags
unfolding parse_round
parse_loop zero depth at cur = running
parse_loop (suc fuel) depth at cur = parse_round (parse_loop fuel) depth at cur

unfoldable pub parse : List ℕ → Outcome AsnTags
unfolding parse_loop
parse buf = parse_loop (suc (length buf)) 0 0 buf

unfoldable pub append_tags : AsnTags → AsnTags → AsnTags
append_tags nil us = us
append_tags (cons t ts) us = cons t (append_tags ts us)

-- What `Reparse` makes of a node, from what its content was parsed to.
abbrev pub with_children : AsnTag → AsnTags → AsnTag
with_children t nil = t
with_children (asn_tag tag content tags forced start end) (cons c cs) =
    asn_tag tag [] (append_tags tags (cons c cs)) true start end

-- The octets after the count of unused bits, for a bit string.
unfoldable pub reparse : AsnTag → Outcome AsnTag
unfolding parse mid_from append_tags
reparse (asn_tag tag content tags forced start end) = do
  input ← outcome (if is_single tag 3 then mid_from content 1 else ok content)
  parsed ← parse input
  done (with_children (asn_tag tag content tags forced start end) parsed)

-- ===== src/Util/Asn1/Der.antt =====
-- The octets of a tree of CASNTag: an independent description of what Encode writes.
use opencie_pkcs.Base.{ℕ, ◌^◌, ◌<◌, ◌≡◌, false, ◌&&◌, ◌||◌, List, [], ◌++◌, if◌then◌else◌, length}
use opencie_pkcs.Util.Asn1.Write.{length_octets}
use opencie_pkcs.Util.Asn1.Tree.{AsnTag, AsnTags, asn_tag, nil, cons, is_constructed, is_single}

unfoldable pub header_octets : List ℕ → ℕ → List ℕ
unfolding length_octets
header_octets tag len = tag ++ length_octets len

unfoldable mutual
  unfolding header_octets

  pub der : AsnTag → List ℕ
  der (asn_tag tag content tags forced start end) =
      let children = der_tags tags in
      let body = if forced || is_constructed tag then children else content in
      header_octets tag (length body) ++ body

  pub der_tags : AsnTags → List ℕ
  der_tags nil = []
  der_tags (cons t ts) = der t ++ der_tags ts

-- No length needs more than 4 octets, and no bit string has been parsed again.
unfoldable mutual
  unfolding der

  pub Fits : AsnTag → Type 0
  Fits (asn_tag tag content tags forced start end) =
      ((is_single tag 3 && forced) ≡ false)
      × (length (if forced || is_constructed tag then der_tags tags else content) < 2 ^ 32)
      × FitAll tags

  pub FitAll : AsnTags → Type 0
  FitAll nil = Unit {0}
  FitAll (cons t ts) = Fits t × FitAll ts

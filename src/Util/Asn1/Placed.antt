-- ===== src/Util/Asn1/Placed.antt =====
-- The trees that Parse builds: with single tags or long ones, each node at its place in the input,
-- and no deeper than the parser goes.
use opencie_pkcs.Base.{
  ℕ, suc, ◌+◌, ◌%◌, ◌^◌, ◌<◌, ◌≤◌, ◌≡◌, ◌≢◌, Bool, true, false, List, [], ◌∷◌, if◌then◌else◌,
  length, arith,
}
use opencie_pkcs.Util.Asn1.Tree.{AsnTag, AsnTags, asn_tag, nil, cons, is_constructed}
use opencie_pkcs.Util.Asn1.Der.{header_octets, der, der_tags, Fits, FitAll}
use opencie_pkcs.Util.Asn1.Parse.{max_depth}
use opencie_pkcs.Util.Asn1.Header.{ends_content}

-- The octets of a long tag after the first.
abbrev pub IsLongTag : List ℕ → Type 0
IsLongTag [] = ⊥
IsLongTag (c ∷ []) = c < 0x80
IsLongTag (c ∷ d ∷ ds) = (0x80 ≤ c) × IsLongTag (d ∷ ds)

abbrev pub IsTag : List ℕ → Type 0
IsTag [] = ⊥
IsTag (b ∷ []) = b % 32 ≢ 31
IsTag (b ∷ c ∷ cs) = (b % 32 ≡ 31) × IsLongTag (c ∷ cs)

unfoldable mutual
  unfolding der

  pub Placed : ℕ → ℕ → AsnTag → Type 0
  Placed depth at (asn_tag tag content tags forced start end) =
      let body = if is_constructed tag then der_tags tags else content in
      let head = header_octets tag (length body) in
      let inside = PlacedAll (suc depth) (at + length head) tags in
      IsTag tag
      × (forced ≡ false)
      × (length body < 2 ^ 32)
      × (ends_content tag (length body) ≡ false)
      × (start ≡ at)
      × (end ≡ at + length head + length body)
      × (if is_constructed tag then ((content ≡ []) × inside) else (tags ≡ nil))

  pub PlacedAll : ℕ → ℕ → AsnTags → Type 0
  PlacedAll depth at nil = depth ≤ max_depth
  PlacedAll depth at (cons t ts) =
      let rest = PlacedAll depth (at + length (der t)) ts in Placed depth at t × rest

fits_children :
    (c : Bool) (content : List ℕ) (tags : AsnTags) {A : Type 0}
    → (A → FitAll tags)
    → (if c then ((content ≡ []) × A) else (tags ≡ nil))
    → FitAll tags
unfolding Fits
fits_children true content tags f h = f h.1
fits_children false content tags f h = rw h tt

mutual
  unfolding Placed Fits der

  pub Placed-Fits : (depth at : ℕ) (t : AsnTag) → Placed depth at t → Fits t
  Placed-Fits depth at (asn_tag tag content tags true start end) h = absurd (ground (arith, h.1))
  Placed-Fits depth at (asn_tag tag content tags false start end) h = (
    ground arith,
    h.2,
    fits_children (is_constructed tag) content tags (λ p. PlacedAll-FitAll _ _ tags p) h.6,
  )

  pub PlacedAll-FitAll : (depth at : ℕ) (ts : AsnTags) → PlacedAll depth at ts → FitAll ts
  PlacedAll-FitAll depth at nil h = tt
  PlacedAll-FitAll depth at (cons t ts) h =
      (Placed-Fits depth at t h.0, PlacedAll-FitAll depth (at + length (der t)) ts h.1)

-- ===== src/Card/Atr.antt =====
-- The table of ATRs in shared/src/csp/atr.cpp, by which a chip is told. Names of makers and the
-- hexadecimal text for the log are left out.
use opencie_pkcs.Base.{
  ℕ, Bool, true, false, ◌&&◌, ◌||◌, List, [], ◌∷◌, ltb, ◌==◌, if◌then◌else◌, length,
}

pub data CieType : Type 0 where
  cie_unknown : CieType
  cie_gemalto : CieType
  cie_gemalto2 : CieType
  cie_stm : CieType
  cie_stm2 : CieType
  cie_stm3 : CieType
  cie_nxp : CieType
  cie_actalis : CieType
  cie_actalis2 : CieType
  cie_bit4id : CieType
  cie_bit4id2 : CieType
  cie_bit4id3 : CieType
  cie_actalis3 : CieType

abbrev pub starts_with : List ℕ → List ℕ → Bool
starts_with haystack [] = true
starts_with [] (n ∷ needle) = false
starts_with (h ∷ haystack) (n ∷ needle) = h == n && starts_with haystack needle

-- `std::search`
abbrev pub search_from : List ℕ → List ℕ → Bool
search_from [] needle = starts_with [] needle
search_from (h ∷ haystack) needle = starts_with (h ∷ haystack) needle || search_from haystack needle

unfoldable pub contains_subsequence : List ℕ → List ℕ → Bool
contains_subsequence haystack needle =
    if ltb (length haystack) (length needle) then false else search_from haystack needle

abbrev pub atr_list : List (CieType × List ℕ)
atr_list =
    (cie_nxp, 0x80 ∷ 0x31 ∷ 0x80 ∷ 0x65 ∷ 0x49 ∷ 0x54 ∷ 0x4e ∷ 0x58 ∷ 0x50 ∷ [])
    ∷ (cie_gemalto, 0x80 ∷ 0x31 ∷ 0x80 ∷ 0x65 ∷ 0xb0 ∷ 0x85 ∷ 0x4 ∷ 0x0 ∷ 0x11 ∷ [])
    ∷ (cie_gemalto2, 0x80 ∷ 0x31 ∷ 0x80 ∷ 0x65 ∷ 0xb0 ∷ 0x85 ∷ 0x3 ∷ 0x0 ∷ 0xef ∷ [])
    ∷ (cie_stm, 0x80 ∷ 0x66 ∷ 0x47 ∷ 0x50 ∷ 0x0 ∷ 0xb8 ∷ 0x0 ∷ 0x7f ∷ [])
    ∷ (cie_stm2, 0x80 ∷ 0x80 ∷ 0x1 ∷ 0x1 ∷ [])
    ∷ (
      cie_stm3,
      0x80 ∷ 0x1 ∷ 0x80 ∷ 0x66 ∷ 0x47 ∷ 0x50 ∷ 0x0 ∷ 0xb8 ∷ 0x0 ∷ 0x94 ∷ 0x82 ∷ 0x90 ∷ 0x0 ∷ 0xc5
          ∷ [],
    )
    ∷ (
      cie_actalis,
      0x80 ∷ 0x1 ∷ 0x80 ∷ 0x31 ∷ 0x80 ∷ 0x65 ∷ 0x49 ∷ 0x54 ∷ 0x4a ∷ 0x34 ∷ 0x41 ∷ 0x12 ∷ 0xf ∷ 0xff
          ∷ 0x82 ∷ 0x90 ∷ 0x0 ∷ 0x88 ∷ [],
    )
    ∷ (
      cie_actalis2,
      0x80 ∷ 0x1 ∷ 0x80 ∷ 0x31 ∷ 0x80 ∷ 0x65 ∷ 0x49 ∷ 0x54 ∷ 0x4a ∷ 0x34 ∷ 0x43 ∷ 0x12 ∷ 0xf ∷ 0xff
          ∷ 0x82 ∷ 0x90 ∷ 0x0 ∷ 0x8a ∷ [],
    )
    ∷ (
      cie_actalis3,
      0x80 ∷ 0x1 ∷ 0x80 ∷ 0x31 ∷ 0x80 ∷ 0x65 ∷ 0x49 ∷ 0x54 ∷ 0x4a ∷ 0x34 ∷ 0x4c ∷ 0x12 ∷ 0xf ∷ 0xff
          ∷ 0x82 ∷ 0x90 ∷ 0x0 ∷ 0x85 ∷ [],
    )
    ∷ (
      cie_bit4id,
      0x80 ∷ 0x1 ∷ 0x80 ∷ 0x31 ∷ 0x80 ∷ 0x65 ∷ 0x49 ∷ 0x54 ∷ 0x4a ∷ 0x34 ∷ 0x42 ∷ 0x12 ∷ 0xf ∷ 0xff
          ∷ 0x82 ∷ 0x90 ∷ 0x0 ∷ 0x8b ∷ [],
    )
    ∷ (
      cie_bit4id2,
      0x80 ∷ 0x1 ∷ 0x80 ∷ 0x31 ∷ 0x80 ∷ 0x65 ∷ 0x49 ∷ 0x54 ∷ 0x4a ∷ 0x34 ∷ 0x44 ∷ 0x12 ∷ 0xf ∷ 0xff
          ∷ 0x82 ∷ 0x90 ∷ 0x0 ∷ 0x8d ∷ [],
    )
    ∷ (
      cie_bit4id3,
      0x80 ∷ 0x1 ∷ 0x80 ∷ 0x31 ∷ 0x80 ∷ 0x65 ∷ 0x49 ∷ 0x54 ∷ 0x4a ∷ 0x34 ∷ 0x49 ∷ 0x12 ∷ 0xf ∷ 0xff
          ∷ 0x82 ∷ 0x90 ∷ 0x0 ∷ 0x80 ∷ [],
    )
    ∷ []

-- `std::find_if` over the table.
unfoldable pub type_in : List ℕ → List (CieType × List ℕ) → CieType
unfolding contains_subsequence
type_in atr [] = cie_unknown
type_in atr ((t, bytes) ∷ rest) =
    let later = type_in atr rest in if contains_subsequence atr bytes then t else later

unfoldable pub get_type : List ℕ → CieType
unfolding type_in
get_type atr = type_in atr atr_list

unfoldable pub cie_family : CieType → CieType
cie_family cie_gemalto2 = cie_gemalto
cie_family cie_actalis2 = cie_actalis
cie_family cie_actalis3 = cie_actalis
cie_family cie_bit4id2 = cie_bit4id
cie_family cie_bit4id3 = cie_bit4id
cie_family type = type

abbrev pub itj4_family : List ℕ
itj4_family = 0x80 ∷ 0x31 ∷ 0x80 ∷ 0x65 ∷ 0x49 ∷ 0x54 ∷ 0x4a ∷ 0x34 ∷ []

abbrev pub is_unknown : CieType → Bool
is_unknown cie_unknown = true
is_unknown type = false

-- The family, and whether it was told by the bytes that all chips of two makers share.
unfoldable pub get_family_type : List ℕ → CieType × Bool
unfolding get_type cie_family contains_subsequence
get_family_type atr =
    if is_unknown (get_type atr)
    then (if contains_subsequence atr itj4_family
        then (cie_actalis, true)
        else (cie_unknown, false))
    else (cie_family (get_type atr), false)

-- `type >= CIE_Type::CIE_NXP`
unfoldable pub nxp_or_later : CieType → Bool
nxp_or_later cie_unknown = false
nxp_or_later cie_gemalto = false
nxp_or_later cie_gemalto2 = false
nxp_or_later cie_stm = false
nxp_or_later cie_stm2 = false
nxp_or_later cie_stm3 = false
nxp_or_later type = true

-- ===== src/Card/Errors.antt =====
-- csp/cie_error.cpp (shared/src): the last error of a thread, and the kind of a status word.
use opencie_pkcs.Base.{ℕ, ◌≡◌, ◌≤◌, ◌↔◌, ◌⊎◌, not, ◌&&◌, ◌||◌, ltb, ◌==◌, if◌then◌else◌, arith}

pub data Kind : Type 0 where
  err_none : Kind
  wrong_pin : Kind
  pin_blocked : Kind
  pin_not_set : Kind
  security_not_satisfied : Kind
  file_not_found : Kind
  wrong_params : Kind
  ins_not_supported : Kind
  card_communication : Kind
  unsupported_card : Kind
  wrong_can : Kind
  card_reset_required : Kind
  unknown : Kind

pub record CieErrorRecord : Type 0 where
  pub kind : Kind
  pub sw : ℕ

-- The switch, after the range of the counters.
abbrev by_case : ℕ → Kind
by_case sw =
    if sw == 0x9000
    then err_none
    else if sw == 0x6300 || sw == 0x6700
    then wrong_pin
    else if sw == 0x6983
    then pin_blocked
    else if sw == 0x6984
    then pin_not_set
    else if sw == 0x6982
    then security_not_satisfied
    else if sw == 0x6a82
    then file_not_found
    else if sw == 0x6a80 || (sw == 0x6a86 || (sw == 0x6a88 || sw == 0x6b00))
    then wrong_params
    else if sw == 0x6d00 || sw == 0x6e00
    then ins_not_supported
    else unknown

unfoldable pub cie_classify_sw : ℕ → Kind
cie_classify_sw sw = if not (ltb sw 0x63c0) && not (ltb 0x63cf sw) then wrong_pin else by_case sw

unfoldable pub cie_record_sw_error : ℕ → CieErrorRecord
unfolding cie_classify_sw
cie_record_sw_error sw = record { kind = cie_classify_sw sw; sw = sw }

unfoldable pub cie_record_transport_error : CieErrorRecord
cie_record_transport_error = record { kind = card_communication; sw = 0 }

unfoldable pub cie_record_unsupported_card : CieErrorRecord
cie_record_unsupported_card = record { kind = unsupported_card; sw = 0 }

unfoldable pub cie_record_wrong_can : CieErrorRecord
cie_record_wrong_can = record { kind = wrong_can; sw = 0 }

unfoldable pub cie_record_card_reset_required : ℕ → CieErrorRecord
cie_record_card_reset_required sw = record { kind = card_reset_required; sw = sw }

unfoldable pub cie_clear_error : CieErrorRecord
cie_clear_error = record { kind = err_none; sw = 0 }

-- cie_classify_sw gives CIE_ERR_WRONG_PIN for 63C0 to 63CF, 6300 and 6700 and for nothing else,
-- and CIE_ERR_NONE for 9000 and for nothing else.
cie_classify_sw_lem :
    (sw : ℕ)
    → ((cie_classify_sw sw ≡ wrong_pin)
        ↔ (((0x63c0 ≤ sw) × (sw ≤ 0x63cf)) ⊎ ((sw ≡ 0x6300) ⊎ (sw ≡ 0x6700))))
      × ((cie_classify_sw sw ≡ err_none) ↔ (sw ≡ 0x9000))
unfolding cie_classify_sw
cie_classify_sw_lem sw = ground arith

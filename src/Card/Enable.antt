-- ===== src/Card/Enable.antt =====
-- CardAuthenticateEx of pkcs11/src/csp/cie_enable.cpp, and how cie_enable tries it again and answers. The
-- object IAS is the parameter of the PIN manager; the progress callback and the log are left out.
use opencie_pkcs.Base.{
  ℕ, ◌-◌, Bool, true, ◌&&◌, ◌||◌, not, List, [], ◌++◌, Option, none, some, ltb, leb, ◌==◌,
  if◌then◌else◌, Result, ok, throw,
}
use opencie_pkcs.P11.Constants.{ckr_general_error}
use opencie_pkcs.Card.Retry.{retry}
use opencie_pkcs.Card.PinManager.{
  Try, returned, unsupported, raised, Call, ◌>>=◌, ◌>>◌, return, Cie, ckr_pin_incorrect,
  ckr_pin_locked,
}
pub mod Once
mod Tests

abbrev pub role_user : ℕ
role_user = 1

abbrev pub role_admin : ℕ
role_admin = 2

-- SCARD_W_WRONG_CHV, SCARD_W_CHV_BLOCKED and SCARD_E_INVALID_PARAMETER
abbrev pub wrong_chv : ℕ
wrong_chv = 0x8010006b

abbrev pub chv_blocked : ℕ
chv_blocked = 0x8010006c

abbrev pub invalid_parameter : ℕ
invalid_parameter = 0x80100004

-- The return code, and what is stored through `pcAttemptsRemaining`.
abbrev pub Code : Type 0
Code = ℕ × Option ℕ

-- What CardAuthenticateEx makes of the status word of VerifyPIN or VerifyPUK.
unfoldable pub verified_code : ℕ → Code
verified_code sw =
    if sw == 0x6983
    then (chv_blocked, none)
    else if leb 0x63c0 sw && leb sw 0x63cf
    then (wrong_chv, some (sw - 0x63c0))
    else if sw == 0x6700 || sw == 0x6300
    then (wrong_chv, none)
    else (0, none)

-- `DappPubKey.isEmpty()` and GetFirstPIN come on top of what the PIN manager calls.
module _ {E : Type 0} (cie : Cie E) (no_dapp_key : E → Bool) where
  unfoldable pub missing_key : Call E (Unit {0})
  missing_key s = if no_dapp_key s then cie.read_dapp_pub_key s else return tt s

  -- The session up to the verification.
  unfoldable pub open_session : Call E (Unit {0})
  unfolding missing_key
  open_session =
      cie.select_aid_ias
      >> (cie.select_aid_cie
          >> (cie.init_dh_param
              >> (missing_key
                  >> (cie.init_ext_auth_key_param >> (cie.dh_key_exchange >> cie.dapp)))))

module _ {E : Type 0} (cie : Cie E) (no_dapp_key : E → Bool) (get_first_pin : Call E (List ℕ)) where
  -- `FULL_PIN` means that the first half is not to be taken from the cache.
  unfoldable pub verify_user : Bool → List ℕ → Call E ℕ
  verify_user full pin =
      (if full then return [] else get_first_pin) >>= λ first. cie.verify_pin (first ++ pin)

  unfoldable pub card_authenticate_ex : ℕ → Bool → List ℕ → Call E Code
  card_authenticate_ex pin_id full pin =
      open_session cie no_dapp_key
      >> (if pin_id == role_user
          then (verify_user full pin >>= λ sw. return (verified_code sw))
          else if pin_id == role_admin
          then (cie.verify_puk pin >>= λ sw. return (verified_code sw))
          else return (invalid_parameter, none))

  -- An attempt of cie_enable: the card is reset before all but the first.
  unfoldable pub authenticate_attempt : List ℕ → ℕ → Call E Code
  authenticate_attempt pin attempt =
      (if ltb 1 attempt then cie.reset else return tt) >> card_authenticate_ex role_user true pin

-- cie_unsupported_card_error is no card_link_error.
abbrev pub as_result : {E A : Type 0} → Try A × E → Result (Try A) × E
as_result (returned a, s) = (ok (returned a), s)
as_result (unsupported, s) = (ok unsupported, s)
as_result (raised e, s) = (throw e, s)

abbrev pub as_try : {E A : Type 0} → Result (Try A) × E → Try A × E
as_try (ok t, s) = (t, s)
as_try (throw e, s) = (raised e, s)

module _ {E : Type 0} (cie : Cie E) (no_dapp_key : E → Bool) (get_first_pin : Call E (List ℕ)) where
  unfoldable pub authenticate_with_retry : List ℕ → Call E Code
  unfolding retry
  authenticate_with_retry pin s = as_try (
      retry
        (λ attempt t. as_result (authenticate_attempt cie no_dapp_key get_first_pin pin attempt t))
        3 s)

-- What cie_enable answers to a code, none where it goes on.
unfoldable pub refused_rv : ℕ → Option ℕ
refused_rv rs =
    if rs == wrong_chv
    then some ckr_pin_incorrect
    else if rs == chv_blocked
    then some ckr_pin_locked
    else if not (rs == 0)
    then some ckr_general_error
    else none

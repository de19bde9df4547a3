-- ===== src/P11/Functions/Info.antt =====
-- pkcs11/src/pkcs11/pkcs11_functions.cpp: what the library tells of sessions and mechanisms, the
-- functions on objects and on saved states, C_Finalize, and the functions that no card supports.
use opencie_pkcs.Base.{
  ℕ, Bool, false, not, ◌&&◌, ◌||◌, List, [], ◌∷◌, Option, none, some, ltb, leb, ◌==◌, if◌then◌else◌,
  length, ok, p11_error,
}
use opencie_pkcs.P11.Buffer.{Buffer}
use opencie_pkcs.P11.Constants.{
  cku_user, cku_nobody, ckr_arguments_bad, ckr_buffer_too_small, ckr_mechanism_invalid,
  ckr_function_not_supported, ckm_rsa_pkcs, ckm_md5, ckm_sha_1, ckm_sha256, ckm_sha1_rsa_pkcs,
  ckm_sha256_rsa_pkcs, ckm_md5_rsa_pkcs,
}
use opencie_pkcs.P11.Functions.{Answer, pkcs11_guard, need_initialized, on_session, need_slot}
use opencie_pkcs.P11.Mechanism.Blocks.{Crypto}
use opencie_pkcs.P11.Session.{close_all_sessions}
use opencie_pkcs.P11.Session.Objects.{
  generate_key, generate_key_pair, generate_random, get_object_size, set_attribute_value,
}
use opencie_pkcs.P11.Session.OperationState.{
  session_get_operation_state, session_set_operation_state,
}
use opencie_pkcs.P11.Slot.{is_rw}
use opencie_pkcs.P11.State.{World, CardTemplate}
use opencie_pkcs.P11.State.Monad.{M, ◌>>=◌, ◌>>◌, return, fail, guard_not, get_slot}

abbrev pub ckr_key_not_needed : ℕ
ckr_key_not_needed = 0x64

abbrev pub ckr_random_seed_not_supported : ℕ
ckr_random_seed_not_supported = 0x120

-- The states of a session, CKS_RO_PUBLIC_SESSION to CKS_RW_SO_FUNCTIONS.
abbrev pub cks_ro_public_session : ℕ
cks_ro_public_session = 0

abbrev pub cks_ro_user_functions : ℕ
cks_ro_user_functions = 1

abbrev pub cks_rw_public_session : ℕ
cks_rw_public_session = 2

abbrev pub cks_rw_user_functions : ℕ
cks_rw_user_functions = 3

abbrev pub cks_rw_so_functions : ℕ
cks_rw_so_functions = 4

-- CK_SESSION_INFO, whose ulDeviceError is 0.
pub record SessionInfo : Type 0 where
  pub slot_id : ℕ
  pub state : ℕ
  pub flags : ℕ

unfoldable pub session_state : ℕ → Bool → ℕ
session_state user rw =
    if user == cku_nobody
    then (if rw then cks_rw_public_session else cks_ro_public_session)
    else if user == cku_user
    then (if rw then cks_rw_user_functions else cks_ro_user_functions)
    else cks_rw_so_functions

abbrev pub p11_mechanisms : List ℕ
p11_mechanisms =
    ckm_rsa_pkcs ∷ ckm_md5 ∷ ckm_sha_1 ∷ ckm_sha256 ∷ ckm_sha1_rsa_pkcs ∷ ckm_sha256_rsa_pkcs
    ∷ ckm_md5_rsa_pkcs ∷ []

-- CK_MECHANISM_INFO.
pub record MechanismInfo : Type 0 where
  pub flags : ℕ
  pub min_key_size : ℕ
  pub max_key_size : ℕ

-- CKF_HW is 1, CKF_ENCRYPT 100, CKF_DECRYPT 200, CKF_DIGEST 400, CKF_SIGN 800, CKF_SIGN_RECOVER
-- 1000, CKF_VERIFY 2000 and CKF_VERIFY_RECOVER 4000.
unfoldable pub mechanism_info : ℕ → Option MechanismInfo
mechanism_info type =
    if type == ckm_rsa_pkcs
    then some (record { flags = 0x7b01; min_key_size = 1024; max_key_size = 2048 })
    else if type == ckm_sha1_rsa_pkcs || (type == ckm_sha256_rsa_pkcs || type == ckm_md5_rsa_pkcs)
    then some (record { flags = 0x2801; min_key_size = 1024; max_key_size = 2048 })
    else if type == ckm_md5 || (type == ckm_sha_1 || type == ckm_sha256)
    then some (record { flags = 0x400; min_key_size = 0; max_key_size = 0 })
    else none

module _ {E : Type 0} where
  unfoldable pub c_get_session_info : ℕ → World E → Answer SessionInfo × World E
  unfolding pkcs11_guard session_state
  c_get_session_info h = pkcs11_guard (
      on_session h (λ v. get_slot v.slot >>= λ sl. return (record {
        slot_id = v.slot;
        state = session_state sl.user (is_rw v.flags);
        flags = if is_rw v.flags then 6 else 4;
      })))

  -- The number of mechanisms, and the mechanisms where the application has memory for so many.
  unfoldable pub c_get_mechanism_list : ℕ → Option ℕ → World E → Answer (ℕ × List ℕ) × World E
  unfolding pkcs11_guard
  c_get_mechanism_list s room = pkcs11_guard (
      need_initialized
      >> (need_slot s >> elim room [
        | none ↦ return (length p11_mechanisms, [])
        | some n ↦
            if leb (length p11_mechanisms) n
            then return (n, p11_mechanisms)
            else fail (p11_error ckr_buffer_too_small)
      ]))

  unfoldable pub c_get_mechanism_info : ℕ → ℕ → World E → Answer MechanismInfo × World E
  unfolding pkcs11_guard mechanism_info
  c_get_mechanism_info s type = pkcs11_guard (
      need_initialized
      >> (need_slot s >> elim (mechanism_info type) [
        | none ↦ fail (p11_error ckr_mechanism_invalid)
        | some info ↦ return info
      ]))

  unfoldable pub c_generate_key : ℕ → Bool → ℕ → World E → Answer ℕ × World E
  unfolding pkcs11_guard generate_key
  c_generate_key h null count = pkcs11_guard (
      guard_not (null && ltb 0 count) (p11_error ckr_arguments_bad)
      >> on_session h (λ v. generate_key h))

  unfoldable pub c_generate_key_pair : ℕ → Bool → ℕ → Bool → ℕ → World E → Answer (ℕ × ℕ) × World E
  unfolding pkcs11_guard generate_key_pair
  c_generate_key_pair h null count null2 count2 = pkcs11_guard (
      guard_not (null && ltb 0 count || null2 && ltb 0 count2) (p11_error ckr_arguments_bad)
      >> on_session h (λ v. generate_key_pair h))

  unfoldable pub c_seed_random : World E → Answer (Unit {0}) × World E
  unfolding pkcs11_guard
  c_seed_random = pkcs11_guard (fail (p11_error ckr_random_seed_not_supported))

  -- The macro for the functions that are not supported.
  unfoldable pub c_unsupported : World E → Answer (Unit {0}) × World E
  unfolding pkcs11_guard
  c_unsupported = pkcs11_guard (fail (p11_error ckr_function_not_supported))

module _ {E : Type 0} (tpl : CardTemplate E) where
  unfoldable pub c_generate_random : ℕ → Buffer → World E → Answer Buffer × World E
  unfolding pkcs11_guard generate_random
  c_generate_random h out = pkcs11_guard (on_session h (λ v. generate_random tpl h out))

  unfoldable pub c_get_object_size : ℕ → ℕ → World E → Answer ℕ × World E
  unfolding pkcs11_guard get_object_size
  c_get_object_size h object = pkcs11_guard (on_session h (λ v. get_object_size tpl h object))

  unfoldable pub c_set_attribute_value :
      ℕ → ℕ → Bool → List (ℕ × List ℕ) → World E → Answer (Unit {0}) × World E
  unfolding pkcs11_guard set_attribute_value
  c_set_attribute_value h object null template = pkcs11_guard (
      guard_not (null && ltb 0 (length template)) (p11_error ckr_arguments_bad)
      >> on_session h (λ v. set_attribute_value tpl h object template))

  -- The loop of C_Finalize over g_mSlots.
  unfoldable pub close_slots : List ℕ → M E (Unit {0})
  unfolding close_all_sessions
  close_slots [] = return tt
  close_slots (s ∷ ss) = close_all_sessions tpl s >> close_slots ss

  -- C_Finalize, without the thread that waits for slot events.
  unfoldable pub c_finalize : Bool → World E → Answer (Unit {0}) × World E
  unfolding pkcs11_guard close_slots
  c_finalize null_reserved = pkcs11_guard (
      guard_not (not null_reserved) (p11_error ckr_arguments_bad)
      >> (need_initialized
          >> ((λ w. (ok tt, record w { initialized = false }))
              >> ((λ w. close_slots w.g_slots w) >> (λ w. (ok tt, record w { g_slots = [] }))))))

module _ {E : Type 0} (tpl : CardTemplate E) (crypto : Crypto) where
  unfoldable pub c_get_operation_state : ℕ → Buffer → World E → Answer Buffer × World E
  unfolding pkcs11_guard session_get_operation_state
  c_get_operation_state h out =
      pkcs11_guard (on_session h (λ v. session_get_operation_state tpl crypto h out))

  -- The handles of an encryption key and an authentication key, 0 for none.
  unfoldable pub c_set_operation_state : ℕ → List ℕ → ℕ → ℕ → World E → Answer (Unit {0}) × World E
  unfolding pkcs11_guard session_set_operation_state
  c_set_operation_state h state encryption_key authentication_key = pkcs11_guard (
      on_session h (λ v.
        guard_not (not (encryption_key == 0)) (p11_error ckr_key_not_needed)
        >> (guard_not (not (authentication_key == 0)) (p11_error ckr_key_not_needed)
            >> session_set_operation_state tpl crypto h state)))

-- ===== src/P11/Functions.antt =====
-- pkcs11/src/pkcs11/pkcs11_functions.cpp: the C_ functions on sessions. Each takes p11Mutex for
-- its whole run, so a call is one step on the state. The logging is left out.
pub mod Outcomes
pub mod Info
use opencie_pkcs.Base.{
  ℕ, ◌+◌, ◌/◌, ◌%◌, ◌≡◌, Bool, true, false, not, ◌&&◌, List, [], ◌∷◌, Option, none, some, ◌==◌,
  if◌then◌else◌, Result, ok, throw, Exception, p11_error, scard_error, card_link_error,
  windows_error, logged_error, crash, ltb, length,
}
use opencie_pkcs.Base.Map
use opencie_pkcs.P11.Buffer.{Buffer, memory, size}
use opencie_pkcs.P11.Constants.{
  cku_so, cku_user, cku_nobody, ckr_ok, ckr_general_error, ckr_arguments_bad, ckr_slot_id_invalid,
  ckr_cryptoki_not_initialized, ckr_session_handle_invalid, ckr_session_parallel_not_supported,
  ckr_session_read_write_so_exists, ckr_user_type_invalid, ckr_user_not_logged_in,
  ckr_mechanism_param_invalid, ckr_operation_not_initialized, ckr_key_function_not_permitted,
}
use opencie_pkcs.P11.Mechanism.{support_multipart}
use opencie_pkcs.P11.Mechanism.Blocks.{Crypto}
use opencie_pkcs.P11.Object.{Attribute}
use opencie_pkcs.P11.Session.{
  new_session, exists_so_rw, add_session, delete_session, close_all_sessions, login, logout,
  is_member,
}
use opencie_pkcs.P11.Session.Digest.{digest_init, digest, digest_update, digest_final}
use opencie_pkcs.P11.Session.Find.{find_objects_init, find_objects, find_objects_final}
use opencie_pkcs.P11.Session.Keys.{
  sign_init, verify_init, sign_recover_init, verify_recover_init, session_get_attribute_value,
  destroy_object, init_pin, set_pin,
}
use opencie_pkcs.P11.Session.Sign.{sign, sign_update, sign_final, sign_recover}
use opencie_pkcs.P11.Session.Verify.{verify, verify_update, verify_final, verify_recover}
use opencie_pkcs.P11.Slot.{is_rw, init}
use opencie_pkcs.P11.State.{Session, Mechanism, World, CardTemplate}
use opencie_pkcs.P11.State.Monad.{
  M, ◌>>=◌, ◌>>◌, return, fail, guard_not, after, get_slot, template_call,
}

-- What a C_ function returns: its CK_RV, with what it wrote for the application. `crashed` is a
-- null pointer on the way, which nothing catches.
pub data Answer (A : Type 0) : Type 0 where
  returned : ℕ → Option A → Answer A
  crashed : Answer A

-- pkcs11_guard.
unfoldable pub answer_of : {A : Type 0} → Result A → Answer A
answer_of (ok a) = returned ckr_ok (some a)
answer_of (throw (p11_error n)) = returned n none
answer_of (throw crash) = crashed
answer_of (throw e) = returned ckr_general_error none

unfoldable pub pkcs11_guard : {E A : Type 0} → M E A → World E → Answer A × World E
unfolding answer_of
pkcs11_guard m w = (answer_of (m w).0, (m w).1)

-- A CK_MECHANISM: its type, and whether a parameter comes with it.
pub record CkMechanism : Type 0 where
  pub mechanism : ℕ
  pub has_parameter : Bool

unfoldable pub check_mechanism_param : CkMechanism → Bool
check_mechanism_param m = not m.has_parameter

module _ {E : Type 0} where
  abbrev pub need_initialized : M E (Unit {0})
  need_initialized w = guard_not (not w.initialized) (p11_error ckr_cryptoki_not_initialized) w

  -- GetSessionFromID, where the pointer may be null.
  abbrev pub session_or : ℕ → M E Session
  session_or h w = elim (Map.find h w.sessions) [
    | none ↦ fail (p11_error ckr_session_handle_invalid) w
    | some v ↦ return v w
  ]

  -- The opening that the functions on a session share.
  abbrev pub on_session : {A : Type 0} → ℕ → (Session → M E A) → M E A
  on_session h k = need_initialized >> (session_or h >>= k)

  -- GetSlotFromID, where the pointer may be null.
  abbrev pub need_slot : ℕ → M E (Unit {0})
  need_slot s w = guard_not (not (is_member s w.g_slots)) (p11_error ckr_slot_id_invalid) w

  -- The tests of `pMechanism`. `none` is the null pointer.
  abbrev pub with_mechanism : {A : Type 0} → Option CkMechanism → (ℕ → M E A) → M E A
  with_mechanism none k = fail (p11_error ckr_arguments_bad)
  with_mechanism (some m) k =
      guard_not (not (check_mechanism_param m)) (p11_error ckr_mechanism_param_invalid)
      >> k m.mechanism

  -- The tests before a further part, and before the end of a signature in parts.
  abbrev pub need_multipart : Option Mechanism → M E (Unit {0})
  need_multipart none = fail (p11_error ckr_operation_not_initialized)
  need_multipart (some m) =
      guard_not (not (support_multipart m.mt_type)) (p11_error ckr_key_function_not_permitted)

  unfoldable pub c_find_objects : ℕ → Bool → ℕ → World E → Answer (List ℕ) × World E
  unfolding pkcs11_guard find_objects
  c_find_objects h null max = pkcs11_guard (
      on_session h
        (λ v. guard_not (null && ltb 0 max) (p11_error ckr_arguments_bad) >> find_objects h max))

  unfoldable pub c_find_objects_final : ℕ → World E → Answer (Unit {0}) × World E
  unfolding pkcs11_guard find_objects_final
  c_find_objects_final h = pkcs11_guard (on_session h (λ v. find_objects_final h))

  unfoldable pub c_digest_init : ℕ → Option CkMechanism → World E → Answer (Unit {0}) × World E
  unfolding pkcs11_guard digest_init
  c_digest_init h mechanism =
      pkcs11_guard (on_session h (λ v. with_mechanism mechanism (λ t. digest_init h t)))

  unfoldable pub c_digest_update : ℕ → List ℕ → World E → Answer (Unit {0}) × World E
  unfolding pkcs11_guard digest_update
  c_digest_update h part = pkcs11_guard (on_session h (λ v. digest_update h part))

  unfoldable pub c_digest : Crypto → ℕ → List ℕ → Buffer → World E → Answer Buffer × World E
  unfolding pkcs11_guard digest
  c_digest crypto h message out = pkcs11_guard (on_session h (λ v. digest crypto h message out))

  -- C_DigestFinal copies the application's memory into an array of its own, and gives back only
  -- the length of the digest: the memory is as it was. A null pointer makes an array too, of
  -- unset bytes, so no call is a query of the length.
  unfoldable pub c_digest_final : Crypto → ℕ → List ℕ → World E → Answer (ℕ × List ℕ) × World E
  unfolding pkcs11_guard digest_final
  c_digest_final crypto h own =
      pkcs11_guard
        (on_session h (λ v. digest_final crypto h (memory own) >>= λ out. return (size out, own)))

module _ {E : Type 0} (tpl : CardTemplate E) where
  unfoldable pub c_open_session : ℕ → ℕ → Bool → World E → Answer ℕ × World E
  unfolding pkcs11_guard exists_so_rw init add_session
  c_open_session s flags null_handle = pkcs11_guard (
      need_initialized
      >> (guard_not (flags / 4 % 2 == 0) (p11_error ckr_session_parallel_not_supported)
          >> (guard_not null_handle (p11_error ckr_arguments_bad)
              >> (need_slot s
                  >> ((λ w.
                        guard_not (not (is_rw flags) && exists_so_rw s w)
                          (p11_error ckr_session_read_write_so_exists) w)
                      >> (init tpl s
                          >> (add_session tpl (new_session s flags) >>= λ h.
                              template_call s (tpl.get_model s) >> return h)))))))

  unfoldable pub c_close_session : ℕ → World E → Answer (Unit {0}) × World E
  unfolding pkcs11_guard delete_session
  c_close_session h = pkcs11_guard (on_session h (λ v. delete_session tpl h))

  unfoldable pub c_close_all_sessions : ℕ → World E → Answer (Unit {0}) × World E
  unfolding pkcs11_guard close_all_sessions
  c_close_all_sessions s =
      pkcs11_guard (need_initialized >> (need_slot s >> close_all_sessions tpl s))

  unfoldable pub c_login : ℕ → ℕ → List ℕ → World E → Answer (Unit {0}) × World E
  unfolding pkcs11_guard login
  c_login h user_type pin = pkcs11_guard (
      on_session h (λ v.
        guard_not (not (user_type == cku_so) && not (user_type == cku_user))
          (p11_error ckr_user_type_invalid)
        >> login tpl v.slot user_type pin))

  unfoldable pub c_logout : ℕ → World E → Answer (Unit {0}) × World E
  unfolding pkcs11_guard logout
  c_logout h = pkcs11_guard (
      on_session h (λ v. get_slot v.slot >>= λ sl.
      guard_not (sl.user == cku_nobody) (p11_error ckr_user_not_logged_in) >> logout tpl v.slot))

  -- The test of the template's pointer comes before the one of the library.
  unfoldable pub c_find_objects_init :
      ℕ → Bool → List Attribute → World E → Answer (Unit {0}) × World E
  unfolding pkcs11_guard find_objects_init
  c_find_objects_init h null template = pkcs11_guard (
      guard_not (null && ltb 0 (length template)) (p11_error ckr_arguments_bad)
      >> on_session h (λ v. find_objects_init tpl h template))

  unfoldable pub c_destroy_object : ℕ → ℕ → World E → Answer (Unit {0}) × World E
  unfolding pkcs11_guard destroy_object
  c_destroy_object h object = pkcs11_guard (on_session h (λ v. destroy_object tpl h object))

  unfoldable pub c_init_pin : ℕ → List ℕ → World E → Answer (Unit {0}) × World E
  unfolding pkcs11_guard init_pin
  c_init_pin h pin = pkcs11_guard (on_session h (λ v. init_pin tpl h pin))

  unfoldable pub c_set_pin : ℕ → List ℕ → List ℕ → World E → Answer (Unit {0}) × World E
  unfolding pkcs11_guard set_pin
  c_set_pin h old_pin new_pin = pkcs11_guard (on_session h (λ v. set_pin tpl h old_pin new_pin))

  unfoldable pub c_sign_init : ℕ → Option CkMechanism → ℕ → World E → Answer (Unit {0}) × World E
  unfolding pkcs11_guard sign_init
  c_sign_init h mechanism key =
      pkcs11_guard (on_session h (λ v. with_mechanism mechanism (λ t. sign_init tpl h t key)))

  unfoldable pub c_verify_init : ℕ → Option CkMechanism → ℕ → World E → Answer (Unit {0}) × World E
  unfolding pkcs11_guard verify_init
  c_verify_init h mechanism key =
      pkcs11_guard (on_session h (λ v. with_mechanism mechanism (λ t. verify_init tpl h t key)))

  unfoldable pub c_sign_recover_init :
      ℕ → Option CkMechanism → ℕ → World E → Answer (Unit {0}) × World E
  unfolding pkcs11_guard sign_recover_init
  c_sign_recover_init h mechanism key =
      pkcs11_guard
        (on_session h (λ v. with_mechanism mechanism (λ t. sign_recover_init tpl h t key)))

  unfoldable pub c_verify_recover_init :
      ℕ → Option CkMechanism → ℕ → World E → Answer (Unit {0}) × World E
  unfolding pkcs11_guard verify_recover_init
  c_verify_recover_init h mechanism key =
      pkcs11_guard
        (on_session h (λ v. with_mechanism mechanism (λ t. verify_recover_init tpl h t key)))

module _ {E : Type 0} (tpl : CardTemplate E) (crypto : Crypto) where
  unfoldable pub c_sign : ℕ → List ℕ → Buffer → World E → Answer Buffer × World E
  unfolding pkcs11_guard sign
  c_sign h message out = pkcs11_guard (on_session h (λ v. sign tpl crypto h message out))

  unfoldable pub c_sign_update : ℕ → List ℕ → World E → Answer (Unit {0}) × World E
  unfolding pkcs11_guard sign_update
  c_sign_update h part =
      pkcs11_guard (on_session h (λ v. need_multipart v.sign >> sign_update tpl crypto h part))

  unfoldable pub c_sign_final : ℕ → Buffer → World E → Answer Buffer × World E
  unfolding pkcs11_guard sign_final
  c_sign_final h out =
      pkcs11_guard (on_session h (λ v. need_multipart v.sign >> sign_final tpl crypto h out))

  unfoldable pub c_sign_recover : ℕ → List ℕ → Buffer → World E → Answer Buffer × World E
  unfolding pkcs11_guard sign_recover
  c_sign_recover h message out =
      pkcs11_guard (on_session h (λ v. sign_recover tpl crypto h message out))

  unfoldable pub c_verify : ℕ → List ℕ → List ℕ → World E → Answer (Unit {0}) × World E
  unfolding pkcs11_guard verify
  c_verify h message signature =
      pkcs11_guard (on_session h (λ v. verify tpl crypto h message signature))

  unfoldable pub c_verify_update : ℕ → List ℕ → World E → Answer (Unit {0}) × World E
  unfolding pkcs11_guard verify_update
  c_verify_update h part =
      pkcs11_guard (on_session h (λ v. need_multipart v.verify >> verify_update tpl crypto h part))

  unfoldable pub c_verify_final : ℕ → List ℕ → World E → Answer (Unit {0}) × World E
  unfolding pkcs11_guard verify_final
  c_verify_final h signature =
      pkcs11_guard
        (on_session h (λ v. need_multipart v.verify >> verify_final tpl crypto h signature))

  unfoldable pub c_verify_recover : ℕ → List ℕ → Buffer → World E → Answer Buffer × World E
  unfolding pkcs11_guard verify_recover
  c_verify_recover h signature out =
      pkcs11_guard (on_session h (λ v. verify_recover tpl crypto h signature out))

-- ===== src/P11/Session/Keys.antt =====
-- pkcs11/src/pkcs11/session.cpp: the tests that SignInit, VerifyInit, SignRecoverInit,
-- VerifyRecoverInit and the object operations make of a handle.
pub mod Checks
use opencie_pkcs.Base.{
  ℕ, ◌+◌, ◌≡◌, Bool, true, false, not, ◌&&◌, List, [], ◌∷◌, Option, none, some, ◌==◌, if◌then◌else◌,
  Result, ok, throw, p11_error, Exception, crash, length, arith, is_some,
}
use opencie_pkcs.P11.Constants.{
  cku_user, ckr_key_handle_invalid, ckr_key_function_not_permitted, ckr_user_not_logged_in,
  ckr_object_handle_invalid, ckr_operation_active, ckr_mechanism_invalid, ckr_session_read_only,
  ckr_general_error, ckr_attribute_type_invalid, ckr_function_not_supported, cko_private_key,
  cko_public_key, cka_sign, cka_verify, cka_sign_recover, cka_verify_recover, cku_so, ckm_rsa_pkcs,
}
use opencie_pkcs.P11.Mechanism.{new_mechanism, is_rsa_mechanism}
use opencie_pkcs.P11.Object.{Attribute, is_private, get_attribute, obj_class, to_bbool}
use opencie_pkcs.P11.Object.Query.{get_attribute_value}
use opencie_pkcs.P11.Slot.{get_object_from_id, is_rw, del_p11_object, get_id_from_object}
use opencie_pkcs.P11.State.{Session, World, CardTemplate}
use opencie_pkcs.P11.State.Monad.{
  M, ◌>>=◌, ◌>>◌, return, fail, guard_not, after, get_slot, get_object, get_session, put_session,
  template_call,
}

module _ {E : Type 0} (tpl : CardTemplate E) where
  -- The object of a handle, or the error for a handle that stands for none.
  unfoldable pub object_or : ℕ → ℕ → ℕ → M E ℕ
  object_or s h code = get_object_from_id s h >>= λ found. elim found [
    | none ↦ fail (p11_error code)
    | some o ↦ return o
  ]

  -- IsPrivate() && User != CKU_USER
  unfoldable pub need_user : ℕ → ℕ → M E (Unit {0})
  need_user s o = is_private tpl o >>= λ p. get_slot s >>= λ sl.
      guard_not (p && not (sl.user == cku_user)) (p11_error ckr_user_not_logged_in)

  -- The attribute that permits the operation.
  unfoldable pub need_permit : ℕ → ℕ → M E (Unit {0})
  need_permit o permit = get_attribute tpl o permit >>= λ v. elim v [
    | none ↦ fail (p11_error ckr_key_function_not_permitted)
    | some bytes ↦
        to_bbool tpl bytes >>= λ b. guard_not (b == 0) (p11_error ckr_key_function_not_permitted)
  ]

  -- The tests of a key: its class, the user, the attribute.
  unfoldable pub need_key : ℕ → ℕ → ℕ → ℕ → M E (Unit {0})
  unfolding object_or need_user need_permit
  need_key s cls permit key = object_or s key ckr_key_handle_invalid >>= λ o.
      get_object o >>= λ obj.
      guard_not (not (obj_class obj == cls)) (p11_error ckr_key_handle_invalid)
      >> (need_user s o >> need_permit o permit)

  unfoldable pub sign_init : ℕ → ℕ → ℕ → M E (Unit {0})
  unfolding need_key
  sign_init h mechanism key = get_session h >>= λ v.
      guard_not (is_some v.sign) (p11_error ckr_operation_active)
      >> (need_key v.slot cko_private_key cka_sign key
          >> (guard_not (not (is_rsa_mechanism mechanism)) (p11_error ckr_mechanism_invalid)
              >> put_session h (record v { sign = some (new_mechanism mechanism key) })))

  unfoldable pub verify_init : ℕ → ℕ → ℕ → M E (Unit {0})
  unfolding need_key
  verify_init h mechanism key = get_session h >>= λ v.
      guard_not (is_some v.verify) (p11_error ckr_operation_active)
      >> (need_key v.slot cko_public_key cka_verify key
          >> (guard_not (not (is_rsa_mechanism mechanism)) (p11_error ckr_mechanism_invalid)
              >> put_session h (record v { verify = some (new_mechanism mechanism key) })))

  unfoldable pub sign_recover_init : ℕ → ℕ → ℕ → M E (Unit {0})
  unfolding need_key
  sign_recover_init h mechanism key = get_session h >>= λ v.
      guard_not (is_some v.sign_recover) (p11_error ckr_operation_active)
      >> (need_key v.slot cko_private_key cka_sign_recover key
          >> (guard_not (not (mechanism == ckm_rsa_pkcs)) (p11_error ckr_mechanism_invalid)
              >> put_session h (record v { sign_recover = some (new_mechanism mechanism key) })))

  unfoldable pub verify_recover_init : ℕ → ℕ → ℕ → M E (Unit {0})
  unfolding need_key
  verify_recover_init h mechanism key = get_session h >>= λ v.
      guard_not (is_some v.verify_recover) (p11_error ckr_operation_active)
      >> (need_key v.slot cko_public_key cka_verify_recover key
          >> (guard_not (not (mechanism == ckm_rsa_pkcs)) (p11_error ckr_mechanism_invalid)
              >> put_session h (record v { verify_recover = some (new_mechanism mechanism key) })))

  -- CSession::GetAttributeValue.
  unfoldable pub session_get_attribute_value : ℕ → ℕ → List Attribute → M E (ℕ × List Attribute)
  unfolding object_or need_user
  session_get_attribute_value h object template = get_session h >>= λ v.
      object_or v.slot object ckr_object_handle_invalid >>= λ o.
      need_user v.slot o >> get_attribute_value tpl o template

  -- CSession::DestroyObject.
  unfoldable pub destroy_object : ℕ → ℕ → M E (Unit {0})
  unfolding object_or
  destroy_object h object = get_session h >>= λ v.
      guard_not (not (is_rw v.flags)) (p11_error ckr_session_read_only)
      >> (get_slot v.slot >>= λ sl.
          guard_not (not (sl.user == cku_user)) (p11_error ckr_user_not_logged_in)
          >> (object_or v.slot object ckr_object_handle_invalid >>= λ o. get_object o >>= λ obj.
              template_call v.slot (tpl.destroy_object v.slot obj) >> del_p11_object v.slot o))

  unfoldable pub init_pin : ℕ → List ℕ → M E (Unit {0})
  init_pin h pin = get_session h >>= λ v. get_slot v.slot >>= λ sl.
      guard_not (not (sl.user == cku_so)) (p11_error ckr_user_not_logged_in)
      >> template_call v.slot (tpl.init_pin v.slot pin)

  unfoldable pub set_pin : ℕ → List ℕ → List ℕ → M E (Unit {0})
  set_pin h old_pin new_pin = get_session h >>= λ v.
      get_slot v.slot >>= λ sl. template_call v.slot (tpl.set_pin v.slot old_pin new_pin sl.user)

-- GetTemplateValue.
unfoldable pub get_template_value : List Attribute → ℕ → Result (List ℕ)
get_template_value [] type = throw (p11_error ckr_attribute_type_invalid)
get_template_value (a ∷ rest) type =
    if a.type == type then ok a.value else get_template_value rest type

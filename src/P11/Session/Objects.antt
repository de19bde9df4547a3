-- ===== src/P11/Session/Objects.antt =====
-- pkcs11/src/pkcs11/session.cpp: GenerateKey, GenerateKeyPair, GenerateRandom, GetObjectSize and
-- SetAttributeValue.
use opencie_pkcs.Base.{ℕ, not, List, ◌==◌, if◌then◌else◌, p11_error}
use opencie_pkcs.P11.Buffer.{Buffer, copy_in, size}
use opencie_pkcs.P11.Constants.{
  cku_user, ckr_function_not_supported, ckr_object_handle_invalid, ckr_session_read_only,
  ckr_user_not_logged_in,
}
use opencie_pkcs.P11.Session.Keys.{object_or, need_user}
use opencie_pkcs.P11.Slot.{is_rw}
use opencie_pkcs.P11.State.{CardTemplate}
use opencie_pkcs.P11.State.Monad.{
  M, ◌>>=◌, ◌>>◌, return, fail, guard_not, get_slot, get_object, set_object, get_session,
  template_call, lift,
}

-- No card of this kind makes keys.
unfoldable pub generate_key : {E : Type 0} → ℕ → M E ℕ
generate_key h = fail (p11_error ckr_function_not_supported)

unfoldable pub generate_key_pair : {E : Type 0} → ℕ → M E (ℕ × ℕ)
generate_key_pair h = fail (p11_error ckr_function_not_supported)

module _ {E : Type 0} (tpl : CardTemplate E) where
  unfoldable pub generate_random : ℕ → Buffer → M E Buffer
  generate_random h out = get_session h >>= λ v.
      template_call v.slot (tpl.generate_random v.slot (size out)) >>= λ bytes.
      lift (copy_in out bytes)

  -- CP11Object::GetObjectSize.
  unfoldable pub p11_object_size : ℕ → M E ℕ
  p11_object_size o = get_object o >>= λ obj.
      (if obj.read_value
        then return tt
        else (template_call obj.slot (tpl.read_object_attributes obj.slot obj) >>= λ read.
            set_object o read))
      >> (get_object o >>= λ known. template_call known.slot (tpl.get_object_size known.slot known))

  unfoldable pub get_object_size : ℕ → ℕ → M E ℕ
  unfolding p11_object_size
  get_object_size h object = get_session h >>= λ v.
      object_or tpl v.slot object ckr_object_handle_invalid >>= λ o.
      need_user tpl v.slot o >> p11_object_size o

  unfoldable pub set_attribute_value : ℕ → ℕ → List (ℕ × List ℕ) → M E (Unit {0})
  set_attribute_value h object template = get_session h >>= λ v.
      object_or tpl v.slot object ckr_object_handle_invalid >>= λ o.
      guard_not (not (is_rw v.flags)) (p11_error ckr_session_read_only)
      >> (get_slot v.slot >>= λ sl.
          guard_not (not (sl.user == cku_user)) (p11_error ckr_user_not_logged_in)
          >> (get_object o >>= λ obj.
              template_call v.slot (tpl.set_attribute v.slot obj template) >>= λ left.
              set_object o left))

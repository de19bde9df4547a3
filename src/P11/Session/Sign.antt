-- ===== src/P11/Session/Sign.antt =====
-- pkcs11/src/pkcs11/session.cpp: Sign, SignUpdate, SignFinal and SignRecover.
pub mod Endings
use opencie_pkcs.Base.{
  ℕ, ◌+◌, ◌≡◌, Bool, true, false, not, ◌&&◌, List, [], ◌∷◌, Option, none, some, ◌==◌, if◌then◌else◌,
  Result, ok, throw, p11_error, Exception, length, ltb, is_some,
}
use opencie_pkcs.P11.Buffer.{Buffer, null_buffer, memory, size, is_null, left_part, copy_in}
use opencie_pkcs.P11.Constants.{
  cko_private_key, ckr_operation_not_initialized, ckr_key_handle_invalid, ckr_buffer_too_small,
}
use opencie_pkcs.P11.Mechanism.{gather, sign_length, mech_sign_final, mech_sign_recover}
use opencie_pkcs.P11.Mechanism.Blocks.{Crypto}
use opencie_pkcs.P11.Object.{obj_class}
use opencie_pkcs.P11.Session.Keys.{object_or, need_user}
use opencie_pkcs.P11.State.{Session, Mechanism, World, CardTemplate}
use opencie_pkcs.P11.State.Monad.{
  M, ◌>>=◌, ◌>>◌, return, fail, guard_not, after, lift, get_object, get_session, put_session,
  template_call,
}

-- How the body of SignFinal ends: the mechanism is reset, or released before the end.
pub data Ending : Type 0 where
  reset_after : Buffer → Ending
  released : Buffer → Ending
  released_throw : Exception → Ending

abbrev pub active : Option Mechanism → Result Mechanism
active (some m) = ok m
active none = throw (p11_error ckr_operation_not_initialized)

-- The destructor of `resetter`, on every way out.
abbrev pub ended : {E : Type 0} → Result Ending × World E → M E (Unit {0}) → Result Buffer × World E
ended (ok (reset_after out), w) reset = after (reset w) (λ _. return out)
ended (ok (released out), w) reset = (ok out, w)
ended (ok (released_throw e), w) reset = (throw e, w)
ended (throw e, w) reset = after (reset w) (λ _. fail e)

-- The end of SignFinal: the signature into the buffer, or the size that it needs.
unfoldable pub finish_sign : {E : Type 0} → Buffer → List ℕ → M E Ending
finish_sign out signature =
    if ltb (size out) (length signature)
    then (lift (left_part out (length signature)) >>= λ part.
        return (released_throw (p11_error ckr_buffer_too_small)))
    else lift (copy_in out signature) >>= λ filled.
        lift (left_part filled (length signature)) >>= λ part. return (reset_after part)

abbrev pub reset_sign : {E : Type 0} → ℕ → M E (Unit {0})
reset_sign h = get_session h >>= λ v. put_session h (record v { sign = none })

module _ {E : Type 0} (tpl : CardTemplate E) (crypto : Crypto) where
  unfoldable pub sign_update : ℕ → List ℕ → M E (Unit {0})
  sign_update h part = get_session h >>= λ v.
      lift (active v.sign) >>= λ m. put_session h (record v { sign = some (gather m part) })

  -- The key of the operation, looked up again.
  unfoldable pub sign_key : ℕ → ℕ → M E ℕ
  sign_key s key = object_or tpl s key ckr_key_handle_invalid >>= λ o. get_object o >>= λ obj.
      guard_not (not (obj_class obj == cko_private_key)) (p11_error ckr_key_handle_invalid)
      >> (need_user tpl s o >> return o)

  unfoldable pub sign_body : ℕ → Mechanism → Buffer → M E Ending
  unfolding sign_key finish_sign
  sign_body s m out = sign_key s m.h_key >>= λ o.
      if is_null out
      then (sign_length tpl crypto s m >>= λ n. return (released (null_buffer n)))
      else mech_sign_final tpl crypto s m >>= λ buffer. get_object o >>= λ obj.
          template_call s (tpl.sign_data s obj buffer m.mt_type) >>= λ signature.
          finish_sign out signature

  unfoldable pub sign_final : ℕ → Buffer → M E Buffer
  unfolding sign_body
  sign_final h out = get_session h >>= λ v.
      lift (active v.sign) >>= λ m. λ w. ended (sign_body v.slot m out w) (reset_sign h)

  unfoldable pub sign : ℕ → List ℕ → Buffer → M E Buffer
  unfolding sign_update sign_final
  sign h message out = get_session h >>= λ v. lift (active v.sign) >>= λ m.
      put_session h (record v { sign = some (record m { gathered = [] }) })
      >> (sign_update h message >> sign_final h out)

  -- SignRecover gives the template an empty buffer to sign: what `SignRecover` of the mechanism
  -- returns is dropped, and so is the signature.
  unfoldable pub sign_recover_body : ℕ → Mechanism → List ℕ → Buffer → M E Ending
  unfolding sign_key
  sign_recover_body s m message out = sign_key s m.h_key >>= λ o.
      if is_null out
      then (sign_length tpl crypto s m >>= λ n. return (released (null_buffer n)))
      else mech_sign_recover tpl crypto s m message >>= λ dropped. get_object o >>= λ obj.
          template_call s (tpl.sign_recover_data s obj [] m.mt_type) >>= λ signature.
          if ltb (size out) (length signature)
          then (lift (left_part out (length signature)) >>= λ part.
              return (released_throw (p11_error ckr_buffer_too_small)))
          else return (reset_after out)

  unfoldable pub sign_recover : ℕ → List ℕ → Buffer → M E Buffer
  unfolding sign_recover_body
  sign_recover h message out = get_session h >>= λ v. lift (active v.sign_recover) >>= λ m. λ w.
      ended (sign_recover_body v.slot m message out w)
        (get_session h >>= λ v1. put_session h (record v1 { sign_recover = none }))

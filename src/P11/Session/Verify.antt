-- ===== src/P11/Session/Verify.antt =====
-- pkcs11/src/pkcs11/session.cpp: Verify, VerifyUpdate, VerifyFinal and VerifyRecover.
use opencie_pkcs.Base.{
  ℕ, not, ◌&&◌, List, Option, none, some, if◌then◌else◌, Result, ok, throw, p11_error, length, ltb,
}
use opencie_pkcs.P11.Buffer.{Buffer, size, is_null, left_part, copy_in}
use opencie_pkcs.P11.Constants.{ckr_operation_not_initialized, ckr_buffer_too_small}
use opencie_pkcs.P11.Mechanism.{gather, mech_verify_final, mech_verify_recover}
use opencie_pkcs.P11.Mechanism.Blocks.{Crypto}
use opencie_pkcs.P11.State.{Mechanism, World, CardTemplate}
use opencie_pkcs.P11.State.Monad.{
  M, ◌>>=◌, ◌>>◌, return, fail, after, lift, get_session, put_session,
}

abbrev active : Option Mechanism → Result Mechanism
active (some m) = ok m
active none = throw (p11_error ckr_operation_not_initialized)

-- The destructor of `resetter`, whatever the result.
abbrev ended :
    {E : Type 0} → Result (Unit {0}) × World E → M E (Unit {0}) → Result (Unit {0}) × World E
ended (ok u, w) reset = reset w
ended (throw e, w) reset = after (reset w) (λ _. fail e)

module _ {E : Type 0} (tpl : CardTemplate E) (crypto : Crypto) where
  unfoldable pub verify_update : ℕ → List ℕ → M E (Unit {0})
  verify_update h part = get_session h >>= λ v.
      lift (active v.verify) >>= λ m. put_session h (record v { verify = some (gather m part) })

  unfoldable pub verify_final : ℕ → List ℕ → M E (Unit {0})
  verify_final h signature = get_session h >>= λ v. lift (active v.verify) >>= λ m. λ w.
      ended (mech_verify_final tpl crypto v.slot m signature w)
        (get_session h >>= λ v1. put_session h (record v1 { verify = none }))

  unfoldable pub verify : ℕ → List ℕ → List ℕ → M E (Unit {0})
  unfolding verify_update verify_final
  verify h message signature = verify_update h message >> verify_final h signature

  -- `auto mech = std::move(pVerifyRecoverMechanism)`: every exception from here on leaves the
  -- session without the mechanism, unless the code moved it back.
  unfoldable pub verify_recover : ℕ → List ℕ → Buffer → M E Buffer
  verify_recover h signature out = get_session h >>= λ v. lift (active v.verify_recover) >>= λ m.
      put_session h (record v { verify_recover = none })
      >> (mech_verify_recover tpl crypto v.slot m signature >>= λ recovered.
          if not (is_null out) && ltb (size out) (length recovered)
          then put_session h v >> fail (p11_error ckr_buffer_too_small)
          else (lift (left_part out (length recovered)) >>= λ part.
              if is_null part
              then put_session h v >> return part
              else lift (copy_in part recovered)))

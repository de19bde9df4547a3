-- ===== src/P11/Session/Digest.antt =====
-- pkcs11/src/pkcs11/session.cpp: DigestInit, Digest, DigestUpdate and DigestFinal.
pub mod Runs
use opencie_pkcs.Base.{
  ℕ, ◌+◌, ◌≡◌, ◌≤◌, ◌<◌, Bool, true, false, not, ◌&&◌, List, [], ◌∷◌, ◌++◌, Option, none, some,
  ◌==◌, if◌then◌else◌, Result, ok, throw, p11_error, logged_error, length, ltb, is_some, arith, sym,
  ◌∙◌, refl, replicate, length-replicate,
}
use opencie_pkcs.Base.Map.{find, assign, find-assign}
use opencie_pkcs.P11.Buffer.{Buffer, null_buffer, memory, size, is_null, left_part, copy_in}
use opencie_pkcs.P11.Constants.{
  ckr_operation_active, ckr_operation_not_initialized, ckr_mechanism_invalid, ckr_buffer_too_small,
}
use opencie_pkcs.P11.Mechanism.{digest_of, gather, new_mechanism}
use opencie_pkcs.P11.Mechanism.Blocks.{Hash, Crypto, digest_length}
use opencie_pkcs.P11.State.{Session, Mechanism, World}
use opencie_pkcs.P11.State.Monad.{
  M, ◌>>=◌, ◌>>◌, return, fail, guard_not, after, lift, get_session, put_session, caught, try_catch,
}

-- The digest object of a mechanism; DigestInit made it for one that `digest_of` knows.
abbrev known : Option Hash → Result Hash
known (some hash) = ok hash
known none = throw logged_error

-- `pDigestMechanism` is there.
abbrev active : Option Mechanism → Result Mechanism
active (some m) = ok m
active none = throw (p11_error ckr_operation_not_initialized)

module _ {E : Type 0} where
  unfoldable pub digest_init : ℕ → ℕ → M E (Unit {0})
  digest_init h mechanism = get_session h >>= λ v.
      guard_not (is_some v.digest) (p11_error ckr_operation_active)
      >> (guard_not (not (is_some (digest_of mechanism))) (p11_error ckr_mechanism_invalid)
          >> put_session h (record v { digest = some (new_mechanism mechanism 0) }))

  unfoldable pub digest_update : ℕ → List ℕ → M E (Unit {0})
  digest_update h part = get_session h >>= λ v.
      lift (active v.digest) >>= λ m. put_session h (record v { digest = some (gather m part) })

  -- `auto mech = std::move(pDigestMechanism)`: from here on the session has no mechanism, until
  -- the code moves it back.
  unfoldable pub digest_final : Crypto → ℕ → Buffer → M E Buffer
  digest_final crypto h out = get_session h >>= λ v. lift (active v.digest) >>= λ m.
      lift (known (digest_of m.mt_type)) >>= λ hash.
      guard_not (not (is_null out) && ltb (size out) (digest_length hash))
        (p11_error ckr_buffer_too_small)
      >> (put_session h (record v { digest = none })
          >> (lift (left_part out (digest_length hash)) >>= λ part.
              if is_null part
              then put_session h v >> return part
              else lift (copy_in part (crypto.digest hash m.gathered))))

  unfoldable pub digest : Crypto → ℕ → List ℕ → Buffer → M E Buffer
  unfolding digest_update digest_final
  digest crypto h message out = get_session h >>= λ v. lift (active v.digest) >>= λ m.
      lift (known (digest_of m.mt_type)) >>= λ hash.
      guard_not (not (is_null out) && ltb (size out) (digest_length hash))
        (p11_error ckr_buffer_too_small)
      >> (lift (left_part out (digest_length hash)) >>= λ part.
          if is_null part
          then return part
          else digest_update h message >> digest_final crypto h part)

-- ===== src/P11/Mechanism.antt =====
-- pkcs11/src/pkcs11/mechanism.h and mechanism.cpp: the digests, RSA signatures with a digest
-- and RSA_PKCS1. The classes of one mechanism differ by its type alone, which `hash_of` reads.
-- The hash functions and the RSA operation are those of OpenSSL, a parameter here.
pub mod Blocks
pub mod Verifying
use opencie_pkcs.Base.{
  ℕ, ◌+◌, ◌-◌, ◌%◌, ◌≡◌, Bool, true, false, not, ◌&&◌, List, [], ◌∷◌, ◌++◌, Option, none, some,
  ◌==◌, ltb, if◌then◌else◌, Result, ok, throw, p11_error, logged_error, crash, length, u64_mod,
  replicate, drop, Exception,
}
use opencie_pkcs.P11.Constants.{
  cko_public_key, cko_private_key, cka_modulus, cka_public_exponent, ckm_sha_1, ckm_sha256, ckm_md5,
  ckm_sha1_rsa_pkcs, ckm_sha256_rsa_pkcs, ckm_md5_rsa_pkcs, ckm_rsa_pkcs, ckr_signature_len_range,
  ckr_data_len_range, ckr_signature_invalid, ckr_function_not_supported, ckr_saved_state_invalid,
}
use opencie_pkcs.P11.State.{Mechanism, World, CardTemplate}
use opencie_pkcs.P11.State.Monad.{M, ◌>>=◌, ◌>>◌, return, fail, guard_not, after, lift, get_object}
use opencie_pkcs.P11.Object.{get_attribute, obj_class}
use opencie_pkcs.P11.Slot.{get_object_from_id}
use opencie_pkcs.P11.Mechanism.Blocks.{
  Hash, sha1, sha256, md5, Crypto, expected_plain, expected_digest, signed_digest,
}
use opencie_pkcs.Util.Array.{append, rightcopy, right, copy, resize_keep, equal, mid_from}
use opencie_pkcs.Util.Padding.BlockType1.{put_padding_bt1, remove_padding_bt1}

-- The digest of a digest mechanism.
unfoldable pub digest_of : ℕ → Option Hash
digest_of t =
    if t == ckm_sha_1
    then some sha1
    else if t == ckm_sha256
    then some sha256
    else if t == ckm_md5
    then some md5
    else none

-- The digest that an RSA mechanism holds; CRSA_PKCS1 has none.
unfoldable pub hash_of : ℕ → Option Hash
hash_of t =
    if t == ckm_sha1_rsa_pkcs
    then some sha1
    else if t == ckm_sha256_rsa_pkcs
    then some sha256
    else if t == ckm_md5_rsa_pkcs
    then some md5
    else none

-- The mechanisms that SignInit and VerifyInit know.
unfoldable pub is_rsa_mechanism : ℕ → Bool
unfolding hash_of
is_rsa_mechanism t = elim (hash_of t) [ some hash ↦ true | none ↦ t == ckm_rsa_pkcs ]

-- SignSupportMultipart and VerifySupportMultipart.
unfoldable pub support_multipart : ℕ → Bool
unfolding hash_of
support_multipart t = elim (hash_of t) [ some hash ↦ true | none ↦ false ]

-- SignUpdate and VerifyUpdate: RSA_PKCS1 resizes its buffer and copies the part behind it, a
-- digest appends to its data. Both leave the two one after the other.
unfoldable pub gather : Mechanism → List ℕ → Mechanism
gather m part = record m { gathered = m.gathered ++ part }

-- The constructor, with VerifyInit or SignInit.
unfoldable pub new_mechanism : ℕ → ℕ → Mechanism
new_mechanism t key = record { mt_type = t; h_key = key; gathered = [] }

-- `ulLength - 11`, an unsigned long.
abbrev pub less_11 : ℕ → ℕ
less_11 n = (n + u64_mod - 11) % u64_mod

module _ {E : Type 0} (tpl : CardTemplate E) (crypto : Crypto) where
  -- The key of an operation, by its handle, of the class it must have.
  unfoldable pub key_object : ℕ → ℕ → ℕ → M E ℕ
  key_object s cls h = get_object_from_id s h >>= λ found. elim found [
    | none ↦ fail logged_error
    | some o ↦
        get_object o >>= λ obj. guard_not (not (obj_class obj == cls)) logged_error >> return o
  ]

  -- An attribute of a key, whose absence throws.
  unfoldable pub key_attribute : ℕ → ℕ → Exception → M E (List ℕ)
  key_attribute o type e =
      get_attribute tpl o type >>= λ v. elim v [ none ↦ fail e | some bytes ↦ return bytes ]

  -- VerifyLength, which asks a null pointer for `isNull`.
  unfoldable pub verify_length : ℕ → Mechanism → M E ℕ
  unfolding key_object key_attribute
  verify_length s m = key_object s cko_public_key m.h_key >>= λ o.
      key_attribute o cka_modulus crash >>= λ modulus. return (length modulus)

  -- VerifyRecoverLength.
  unfoldable pub verify_recover_length : ℕ → Mechanism → M E ℕ
  unfolding key_object key_attribute
  verify_recover_length s m = key_object s cko_public_key m.h_key >>= λ o.
      key_attribute o cka_modulus logged_error >>= λ modulus. return (length modulus)

  -- SignLength and SignRecoverLength.
  unfoldable pub sign_length : ℕ → Mechanism → M E ℕ
  unfolding key_object key_attribute
  sign_length s m = key_object s cko_private_key m.h_key >>= λ o.
      key_attribute o cka_modulus logged_error >>= λ modulus. return (length modulus)

  -- VerifyDecryptSignature and VerifyRecoverDecryptSignature.
  unfoldable pub decrypt_signature : ℕ → Mechanism → List ℕ → M E (List ℕ)
  unfolding key_object key_attribute
  decrypt_signature s m signature = key_object s cko_public_key m.h_key >>= λ o.
      key_attribute o cka_public_exponent logged_error >>= λ exponent.
      key_attribute o cka_modulus logged_error >>= λ modulus.
      guard_not (not (length signature == length modulus)) (p11_error ckr_signature_len_range)
      >> lift (crypto.rsa_pure modulus exponent signature)

  -- VerifyFinal of both classes.
  unfoldable pub mech_verify_final : ℕ → Mechanism → List ℕ → M E (Unit {0})
  unfolding verify_length decrypt_signature expected_plain expected_digest
  mech_verify_final s m signature = verify_length s m >>= λ n.
      guard_not (not (length signature == n)) (p11_error ckr_signature_len_range)
      >> (guard_not (not (support_multipart m.mt_type) && ltb (less_11 n) (length m.gathered))
            (p11_error ckr_data_len_range)
          >> (decrypt_signature s m signature >>= λ plain.
              lift (elim (hash_of m.mt_type) [
                | some hash ↦ expected_digest crypto n hash m.gathered
                | none ↦ expected_plain n m.gathered
              ])
              >>= λ expected.
                  guard_not (not (equal plain expected)) (p11_error ckr_signature_invalid)))

  -- VerifyRecover of RSA_PKCS1.
  unfoldable pub mech_verify_recover : ℕ → Mechanism → List ℕ → M E (List ℕ)
  unfolding verify_recover_length decrypt_signature
  mech_verify_recover s m signature = verify_recover_length s m >>= λ n.
      guard_not (not (length signature == n)) (p11_error ckr_signature_len_range)
      >> (decrypt_signature s m signature >>= λ plain.
          lift (elim (remove_padding_bt1 plain) [
            | throw e ↦ throw (p11_error ckr_signature_invalid)
            | ok pad ↦ ok pad
          ])
          >>= λ pad. lift (mid_from plain pad) >>= λ recovered.
              guard_not (ltb (less_11 n) (length recovered)) (p11_error ckr_data_len_range)
              >> return recovered)

  -- SignFinal: what the card is given to sign.
  unfoldable pub mech_sign_final : ℕ → Mechanism → M E (List ℕ)
  unfolding sign_length signed_digest
  mech_sign_final s m = elim (hash_of m.mt_type) [
    | some hash ↦ lift (signed_digest crypto hash m.gathered)
    | none ↦ sign_length s m >>= λ n.
        guard_not (ltb (less_11 n) (length m.gathered)) (p11_error ckr_data_len_range)
        >> return m.gathered
  ]

  -- SignRecover of RSA_PKCS1.
  unfoldable pub mech_sign_recover : ℕ → Mechanism → List ℕ → M E (List ℕ)
  unfolding sign_length
  mech_sign_recover s m message = sign_length s m >>= λ n.
      guard_not (ltb (less_11 n) (length message)) (p11_error ckr_data_len_range) >> return message

  -- SignGetOperationState and VerifyGetOperationState, and the two Set operations.
  unfoldable pub get_operation_state : Mechanism → Result (List ℕ)
  get_operation_state m =
      if support_multipart m.mt_type then throw (p11_error ckr_function_not_supported) else ok []

  unfoldable pub set_operation_state : Mechanism → List ℕ → Result (Unit {0})
  set_operation_state m state =
      if support_multipart m.mt_type
      then throw (p11_error ckr_function_not_supported)
      else if ltb 0 (length state)
      then throw (p11_error ckr_saved_state_invalid)
      else ok tt

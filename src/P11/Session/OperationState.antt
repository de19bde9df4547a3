-- ===== src/P11/Session/OperationState.antt =====
-- pkcs11/src/pkcs11/session.cpp: GetOperationState and SetOperationState. A saved state is TLV data, with TLV
-- data of each operation inside.
pub mod Mismatch
use opencie_pkcs.Base.{
  ℕ, ◌+◌, ◌≡◌, Bool, true, false, not, ◌||◌, List, [], ◌∷◌, Option, none, some, ltb, ◌==◌,
  if◌then◌else◌, length, take, Result, ok, throw, p11_error, logged_error, crash, to_bytes,
  from_bytes,
}
use opencie_pkcs.Base.Map.{Map}
use opencie_pkcs.Util.Array.{equal}
use opencie_pkcs.Util.Tlv.{ctlv, get_value, set_value, get_buffer}
use opencie_pkcs.P11.Buffer.{Buffer, null_buffer, memory, copy_in, size, is_null}
use opencie_pkcs.P11.Constants.{
  cka_id, cko_private_key, cko_public_key, ckr_saved_state_invalid, ckr_operation_not_initialized,
  ckr_buffer_too_small, ckr_function_not_supported,
}
use opencie_pkcs.P11.Mechanism.Blocks.{Crypto}
use opencie_pkcs.P11.Mechanism.{get_operation_state, set_operation_state}
use opencie_pkcs.P11.Object.{get_attribute}
use opencie_pkcs.P11.Session.Digest.{digest_init}
use opencie_pkcs.P11.Session.Keys.{sign_init, verify_init}
use opencie_pkcs.P11.Slot.{get_object_from_id, find_p11_object, get_id_from_object}
use opencie_pkcs.P11.State.{Session, Mechanism, World, CardTemplate}
use opencie_pkcs.P11.State.Monad.{
  M, ◌>>=◌, ◌>>◌, return, fail, guard_not, get_slot, get_session, put_session, lift,
}

abbrev pub os_flags : ℕ
os_flags = 0

abbrev pub os_user : ℕ
os_user = 1

abbrev pub os_digest : ℕ
os_digest = 2

abbrev pub os_sign : ℕ
os_sign = 3

abbrev pub os_verify : ℕ
os_verify = 4

abbrev pub os_algo : ℕ
os_algo = 7

abbrev pub os_data : ℕ
os_data = 8

abbrev pub os_key : ℕ
os_key = 9

-- `if (!data.isEmpty()) Tlv.setValue(OS_Data, data);`
abbrev pub set_data : List ℕ → Map (List ℕ) → Map (List ℕ)
set_data bytes m = if length bytes == 0 then m else set_value os_data bytes m

abbrev pub tlv_read : {E : Type 0} → Option (Result (Map (List ℕ))) → M E (Map (List ℕ))
tlv_read none = fail crash
tlv_read (some r) = lift r

-- The TLV data of a saved state; more rounds than bytes are never needed to read it.
abbrev pub read_tlv : {E : Type 0} → List ℕ → M E (Map (List ℕ))
read_tlv bytes = tlv_read (ctlv bytes)

-- A value that has to be there.
abbrev pub present : {E : Type 0} → Option (List ℕ) → M E (List ℕ)
present none = fail (p11_error ckr_saved_state_invalid)
present (some v) = return v

abbrev pub saved_value : {E : Type 0} → Map (List ℕ) → ℕ → M E (List ℕ)
saved_value m tag = lift (get_value m tag) >>= λ found. present found

-- `ByteArrayToVar(Algo, CK_MECHANISM_TYPE)`, which reads 8 bytes whatever the length.
abbrev pub mechanism_type : {E : Type 0} → List ℕ → M E ℕ
mechanism_type algo = if ltb (length algo) 8 then fail crash else return (from_bytes (take 8 algo))

abbrev pub if_present : {E : Type 0} → Option (List ℕ) → (List ℕ → M E (Unit {0})) → M E (Unit {0})
if_present none k = return tt
if_present (some v) k = k v

-- With the saved value there, what is done with it.
abbrev pub if_saved : {E : Type 0} → Map (List ℕ) → ℕ → (List ℕ → M E (Unit {0})) → M E (Unit {0})
if_saved m tag k = lift (get_value m tag) >>= λ found. if_present found k

abbrev pub known_object : {E : Type 0} → Option ℕ → M E ℕ
known_object none = fail logged_error
known_object (some o) = return o

abbrev pub known_mechanism : {E : Type 0} → Option Mechanism → M E Mechanism
known_mechanism none = fail crash
known_mechanism (some m) = return m

-- A digest does not tell its state.
unfoldable pub save_digest : {E : Type 0} → Option Mechanism → Map (List ℕ) → M E (Map (List ℕ))
save_digest none m = return m
save_digest (some mech) m = fail (p11_error ckr_function_not_supported)

-- The code saves the flags under both tags.
unfoldable pub base_state : Session → Map (List ℕ)
base_state v = set_value os_user (to_bytes 8 v.flags) (set_value os_flags (to_bytes 8 v.flags) [])

-- What goes to the application's buffer.
unfoldable pub give_state : {E : Type 0} → Buffer → List ℕ → M E Buffer
give_state out bytes =
    guard_not (length bytes == 0) (p11_error ckr_operation_not_initialized)
    >> (if is_null out
        then return (null_buffer (length bytes))
        else (guard_not (ltb (size out) (length bytes)) (p11_error ckr_buffer_too_small)
            >> lift (copy_in out bytes)))

module _ {E : Type 0} (tpl : CardTemplate E) (crypto : Crypto) where
  -- The state of a signature or a verification.
  unfoldable pub key_operation : ℕ → Mechanism → M E (List ℕ)
  unfolding get_operation_state
  key_operation s m = lift (get_operation_state tpl crypto m) >>= λ bytes.
      get_object_from_id s m.h_key >>= λ found. known_object found >>= λ o.
      get_attribute tpl o cka_id >>= λ id. elim id [
        | none ↦ fail logged_error
        | some key ↦ lift (
            get_buffer
              (set_value os_key key (set_data bytes (set_value os_algo (to_bytes 8 m.mt_type) []))))
      ]

  -- `if (pSignMechanism) { … }`
  unfoldable pub save_key_operation : ℕ → ℕ → Option Mechanism → Map (List ℕ) → M E (Map (List ℕ))
  save_key_operation tag s none m = return m
  save_key_operation tag s (some mech) m = key_operation s mech >>= λ b. return (set_value tag b m)

  unfoldable pub operation_state : ℕ → M E (List ℕ)
  operation_state h = get_session h >>= λ v.
      save_key_operation os_sign v.slot v.sign (base_state v) >>= λ m1.
      save_key_operation os_verify v.slot v.verify m1 >>= λ m2.
      save_digest v.digest m2 >>= λ m3. lift (get_buffer m3)

  unfoldable pub session_get_operation_state : ℕ → Buffer → M E Buffer
  session_get_operation_state h out = operation_state h >>= λ bytes. give_state out bytes

  -- The key of a saved operation, by its CKA_ID.
  unfoldable pub saved_key : ℕ → ℕ → Map (List ℕ) → M E ℕ
  saved_key s cls t = saved_value t os_key >>= λ key. get_slot s >>= λ sl.
      find_p11_object tpl sl.p11_objects cls cka_id key >>= λ found.
      known_object found >>= λ o. get_id_from_object tpl s o

  unfoldable pub restore_sign : ℕ → List ℕ → M E (Unit {0})
  restore_sign h bytes = get_session h >>= λ v.
      put_session h (record v { sign = none })
      >> (read_tlv bytes >>= λ t. saved_value t os_algo >>= λ algo. mechanism_type algo >>= λ mech.
          saved_key v.slot cko_private_key t >>= λ key. saved_value t os_data >>= λ state.
          sign_init tpl h mech key
          >> (get_session h >>= λ v1.
              known_mechanism v1.sign >>= λ m. lift (set_operation_state tpl crypto m state)))

  unfoldable pub restore_verify : ℕ → List ℕ → M E (Unit {0})
  restore_verify h bytes = get_session h >>= λ v.
      put_session h (record v { verify = none })
      >> (read_tlv bytes >>= λ t. saved_value t os_algo >>= λ algo. mechanism_type algo >>= λ mech.
          saved_key v.slot cko_public_key t >>= λ key. saved_value t os_data >>= λ state.
          verify_init tpl h mech key
          >> (get_session h >>= λ v1.
              known_mechanism v1.verify >>= λ m. lift (set_operation_state tpl crypto m state)))

  -- A digest takes no state back.
  unfoldable pub restore_digest : ℕ → List ℕ → M E (Unit {0})
  restore_digest h bytes = get_session h >>= λ v.
      put_session h (record v { digest = none })
      >> (read_tlv bytes >>= λ t. saved_value t os_algo >>= λ algo. mechanism_type algo >>= λ mech.
          saved_value t os_data >>= λ state.
          digest_init h mech >> fail (p11_error ckr_function_not_supported))

  unfoldable pub session_set_operation_state : ℕ → List ℕ → M E (Unit {0})
  session_set_operation_state h state = read_tlv state >>= λ t. saved_value t os_flags >>= λ flags.
      saved_value t os_user >>= λ user. get_session h >>= λ v.
      guard_not (not (equal flags (to_bytes 8 v.flags))) (p11_error ckr_saved_state_invalid)
      >> (get_slot v.slot >>= λ sl.
          guard_not (not (equal user (to_bytes 8 sl.user))) (p11_error ckr_saved_state_invalid)
          >> (if_saved t os_sign (λ b. restore_sign h b)
              >> (if_saved t os_verify (λ b. restore_verify h b)
                  >> if_saved t os_digest (λ b. restore_digest h b))))

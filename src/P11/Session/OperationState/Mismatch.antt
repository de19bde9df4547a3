-- ===== src/P11/Session/OperationState/Mismatch.antt =====
-- GetOperationState and then SetOperationState, on a session with no active operation.
use opencie_pkcs.Base.{
  ℕ, ◌^◌, ◌<◌, ◌≤◌, ◌≡◌, refl, true, List, [], ◌∷◌, ◌++◌, none, some, if◌then◌else◌, length, arith,
  ok, throw, p11_error, to_bytes, length-to_bytes, Bool-cases, inl, inr, length-append,
}
use opencie_pkcs.Base.Map.{Map, find, assign, Sorted}
use opencie_pkcs.Util.Array.{equal}
use opencie_pkcs.Util.Tlv.{ctlv, get_value, set_value}
use opencie_pkcs.Util.Tlv.Write.{entries, entry, length-entry}
use opencie_pkcs.Util.Tlv.RoundTrip.{get_value-get_buffer}
use opencie_pkcs.P11.Constants.{ckr_saved_state_invalid}
use opencie_pkcs.P11.Mechanism.Blocks.{Crypto}
use opencie_pkcs.P11.Mechanism.Verifying.{equal_iff}
use opencie_pkcs.P11.Session.OperationState.{
  operation_state, session_set_operation_state, base_state, save_key_operation, save_digest,
}
use opencie_pkcs.P11.State.{Session, World, CardTemplate}

-- What is saved of such a session.
abbrev saved : ℕ → Map (List ℕ)
saved flags = (0, to_bytes 8 flags) ∷ (1, to_bytes 8 flags) ∷ []

saved-Sorted : (flags : ℕ) → Sorted 0 (saved flags)
saved-Sorted flags = (omega arith, (omega arith, tt))

short_entry : (tag flags : ℕ) → length (entry tag (to_bytes 8 flags)) ≤ 14
short_entry tag flags = ground (arith, length-entry tag (to_bytes 8 flags), length-to_bytes 8 flags)

length-saved : (flags : ℕ) → length (entries (saved flags)) < 2 ^ 32
unfolding entries
length-saved flags = omega (
  arith,
  length-append (entry 0 (to_bytes 8 flags)) (entry 1 (to_bytes 8 flags) ++ []),
  length-append (entry 1 (to_bytes 8 flags)) [],
  short_entry 0 flags,
  short_entry 1 flags,
)

base_state_lem : (v : Session) → base_state v ≡ saved v.flags
unfolding base_state set_value assign
base_state_lem v = refl

module _ {E : Type 0} (tpl : CardTemplate E) (crypto : Crypto) where
  restore_lem :
      (h : ℕ) (v : Session) (w : World E) (bytes flags user : List ℕ) (read : Map (List ℕ))
      → find h w.sessions ≡ some v
      → ctlv bytes ≡ some (ok read)
      → get_value read 0 ≡ ok (some flags)
      → get_value read 1 ≡ ok (some user)
      → get_value read 2 ≡ ok none
      → get_value read 3 ≡ ok none
      → get_value read 4 ≡ ok none
      → equal flags (to_bytes 8 v.flags) ≡ true
      → (session_set_operation_state tpl crypto h bytes w).0 ≡ (
          if equal user (to_bytes 8 (w.slots v.slot).user)
          then ok tt
          else throw (p11_error ckr_saved_state_invalid))
  unfolding session_set_operation_state
  restore_lem h v w bytes flags user read e parsed v0 v1 v2 v3 v4 same =
      elim (Bool-cases (equal user (to_bytes 8 (w.slots v.slot).user))) [
        | inl q ↦ rw (session_set_operation_state, parsed, v0, v1, e, same, q, v3, v4, v2) refl
        | inr q ↦ rw (session_set_operation_state, parsed, v0, v1, e, same, q) refl
      ]

  -- On a session with no active signature, verification or digest GetOperationState makes a saved
  -- state and changes nothing. SetOperationState of that state on the same session returns if the
  -- session's flags and the slot's user are the same 8 bytes, and else throws
  -- CKR_SAVED_STATE_INVALID.
  pub set_operation_state_lem :
      (h : ℕ) (v : Session) (w : World E)
      → find h w.sessions ≡ some v
      → v.sign ≡ none
      → v.verify ≡ none
      → v.digest ≡ none
      → (bytes : List ℕ) × (operation_state tpl crypto h w ≡ (ok bytes, w))
        × ((session_set_operation_state tpl crypto h bytes w).0 ≡ (
            if equal (to_bytes 8 v.flags) (to_bytes 8 (w.slots v.slot).user)
            then ok tt
            else throw (p11_error ckr_saved_state_invalid)))
  unfolding operation_state save_key_operation save_digest find
  set_operation_state_lem h v w e s r d =
      let (bytes, read, wrote, parsed, values) =
        get_value-get_buffer (saved v.flags) (saved-Sorted v.flags) (length-saved v.flags) in
      let same = (equal_iff (to_bytes 8 v.flags) (to_bytes 8 v.flags)).1 refl in
      (
        bytes,
        rw (e, base_state_lem v, s, r, d, wrote) refl,
        restore_lem h v w bytes (to_bytes 8 v.flags) (to_bytes 8 v.flags) read e parsed (values 0)
            (values 1) (values 2) (values 3) (values 4) same,
      )

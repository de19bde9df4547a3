-- ===== src/P11/Tests/Searching.antt =====
-- The theorems on a whole search and on saved states, applied, and the functions of this part on small inputs.
use opencie_pkcs.Base.{
  ℕ, ◌≡◌, refl, Bool, true, false, List, [], ◌∷◌, ok, throw, p11_error, some, none, to_bytes,
  if◌then◌else◌, arith,
}
use opencie_pkcs.Base.Map.{find}
use opencie_pkcs.Util.Array.{equal}
use opencie_pkcs.P11.Buffer.{memory}
use opencie_pkcs.P11.Constants.{cku_user, ckr_saved_state_invalid, ckr_ok}
use opencie_pkcs.P11.Functions.{returned}
use opencie_pkcs.P11.Functions.Info.{
  c_get_session_info, c_generate_random, c_finalize, c_set_operation_state, cks_rw_user_functions,
}
use opencie_pkcs.P11.Session.Find.Drain.{drain, drain_lem}
use opencie_pkcs.P11.Session.OperationState.{operation_state, session_set_operation_state}
use opencie_pkcs.P11.Session.OperationState.Mismatch.{set_operation_state_lem}
use opencie_pkcs.P11.Tests.{quiet_card, plain_crypto, world, busy, idle}

drain_lem_example :
    ((drain 1 2 2 (world cku_user busy)).0 ≡ ok (3 ∷ 2 ∷ 1 ∷ []))
    × (find 1 (drain 1 2 2 (world cku_user busy)).1.sessions
        ≡ some (record busy { find_result = [] }))
unfolding find
drain_lem_example = drain_lem 1 2 2 busy (world cku_user busy) refl refl (omega arith)

set_operation_state_lem_example :
    (bytes : List ℕ) × (operation_state quiet_card plain_crypto 1 (world cku_user idle)
      ≡ (ok bytes, world cku_user idle))
    × ((session_set_operation_state quiet_card plain_crypto 1 bytes (world cku_user idle)).0 ≡ (
        if equal (to_bytes 8 6) (to_bytes 8 cku_user)
        then ok tt
        else throw (p11_error ckr_saved_state_invalid)))
unfolding find
set_operation_state_lem_example =
    set_operation_state_lem quiet_card plain_crypto 1 idle (world cku_user idle) refl refl refl refl

session_info :
    (c_get_session_info 1 (world cku_user idle)).0
    ≡ returned ckr_ok (some (record { slot_id = 0; state = cks_rw_user_functions; flags = 6 }))
unfolding c_get_session_info find
session_info = refl

random_bytes :
    (c_generate_random quiet_card 1 (memory (0 ∷ 0 ∷ [])) (world cku_user idle)).0
    ≡ returned ckr_ok (some (memory (4 ∷ 4 ∷ [])))
unfolding c_generate_random find opencie_pkcs.P11.Buffer.copy_in opencie_pkcs.Util.Array.copy
random_bytes = refl

finalized : (c_finalize quiet_card true (world cku_user idle)).1.sessions ≡ []
unfolding c_finalize find opencie_pkcs.P11.Session.count_down opencie_pkcs.P11.Object.is_private
    opencie_pkcs.P11.Slot.del_object_handle opencie_pkcs.P11.Session.set_user
    opencie_pkcs.Base.Map.erase opencie_pkcs.P11.Session.erase_session
finalized = refl

key_not_needed :
    (c_set_operation_state quiet_card plain_crypto 1 [] 5 0 (world cku_user idle)).0
    ≡ returned 0x64 none
unfolding c_set_operation_state find
key_not_needed = refl

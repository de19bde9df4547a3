-- ===== src/P11/Tests/Witnesses.antt =====
-- The theorems on sessions, applied.
use opencie_pkcs.Base.{
  ℕ, ◌+◌, ◌≡◌, ◌≢◌, ◌≤◌, ◌<◌, ◌↔◌, refl, Bool, true, false, List, [], ◌∷◌, ◌++◌, Option, none, some,
  Result, ok, throw, p11_error, replicate, arith, if◌then◌else◌, ◌==◌, ◌⊎◌, inl, inr, length, ltb,
  ◌&&◌, logged_error,
}
use opencie_pkcs.Base.Map.{Map, find}
use opencie_pkcs.P11.Constants.{cku_so, cku_user, cku_nobody}
use opencie_pkcs.P11.Functions.{c_login}
use opencie_pkcs.P11.Functions.Outcomes.{c_login_lem}
use opencie_pkcs.P11.Object.{obj_class}
use opencie_pkcs.P11.Session.{add_session, delete_session, login, logout, new_session, exists_ro}
use opencie_pkcs.P11.Session.Counts.{CountsValid, count_sessions}
use opencie_pkcs.P11.Session.Counts.Kept.{add_session-CountsValid}
use opencie_pkcs.P11.Session.Counts.Closing.{delete_session-CountsValid}
use opencie_pkcs.P11.Session.Find.{find_objects}
use opencie_pkcs.P11.Session.Find.Pages.{find_objects_lem, backwards}
use opencie_pkcs.P11.Session.Logout.{login_lem, logout_lem}
use opencie_pkcs.P11.Slot.{final, handle_of, forget_handle, object_of}
use opencie_pkcs.P11.Slot.Handles.{HandlesValid}
use opencie_pkcs.P11.Tests.{quiet_card, world, busy, slot_of}

world-CountsValid : CountsValid (world cku_user busy)
unfolding count_sessions find
world-CountsValid = record {
  counted = λ s. ground arith;
  bounded = λ s. ground arith;
  sorted = (omega arith, tt);
  below = λ h v e. ground arith;
}

slot-HandlesValid : HandlesValid (slot_of cku_user 1)
unfolding find
slot-HandlesValid = record {
  there = λ o h e. ground arith;
  back = λ h o e. ground arith;
  bounded = λ h o e. ground arith;
}

add_session-CountsValid_example :
    CountsValid (add_session quiet_card (new_session 0 6) (world cku_user busy)).1
unfolding count_sessions new_session
add_session-CountsValid_example =
    add_session-CountsValid quiet_card (new_session 0 6) (world cku_user busy) world-CountsValid
      (omega arith) (omega arith)

delete_session-CountsValid_example :
    CountsValid (delete_session quiet_card 1 (world cku_user busy)).1
unfolding delete_session find opencie_pkcs.P11.Session.count_down opencie_pkcs.P11.Object.is_private
    opencie_pkcs.P11.Slot.del_object_handle opencie_pkcs.P11.Session.set_user
    opencie_pkcs.Base.Map.erase opencie_pkcs.P11.Session.erase_session
delete_session-CountsValid_example =
    delete_session-CountsValid quiet_card 1 (world cku_user busy) world-CountsValid refl

login_lem_example :
    (((world cku_nobody busy).slots 0).user ≡ cku_nobody)
    × (((cku_so == cku_so && exists_ro 0 (world cku_nobody busy)) ≡ false)
        × (((login quiet_card 0 cku_so (1 ∷ []) (world cku_nobody busy)).1.slots 0).user ≡ cku_so))
unfolding login exists_ro opencie_pkcs.P11.Session.set_user
login_lem_example = login_lem quiet_card 0 cku_so (1 ∷ []) (world cku_nobody busy) refl

logout_lem_example :
    (((logout quiet_card 0 (world cku_user busy)).1.slots 0).user ≡ cku_nobody)
    × ((find 0 ((logout quiet_card 0 (world cku_user busy)).1.slots 0).obj_p11_map ≡ none)
        × ((h : ℕ) → object_of ((logout quiet_card 0 (world cku_user busy)).1.slots 0) h ≢ some 0))
unfolding logout opencie_pkcs.P11.Object.is_private find opencie_pkcs.P11.Slot.del_object_handle
    opencie_pkcs.P11.Session.set_user opencie_pkcs.P11.Session.is_member
logout_lem_example =
    logout_lem quiet_card 0 0 (world cku_user busy) slot-HandlesValid refl refl refl

c_login_lem_example :
    ((cku_user ≡ cku_so) ⊎ (cku_user ≡ cku_user))
    × ((((world cku_nobody busy).slots 0).user ≡ cku_nobody)
        × (((cku_user == cku_so && exists_ro 0 (world cku_nobody busy)) ≡ false)
            × (((c_login quiet_card 1 cku_user (1 ∷ []) (world cku_nobody busy)).1.slots 0).user
                ≡ cku_user)))
unfolding c_login find opencie_pkcs.P11.Session.set_user
c_login_lem_example =
    c_login_lem quiet_card 1 cku_user (1 ∷ []) busy (world cku_nobody busy) refl refl

find_objects_lem_example :
    (page : List ℕ) × ((rest : List ℕ) × (((find_objects 1 2 (world cku_user busy)).0 ≡ ok page)
        × ((find 1 (find_objects 1 2 (world cku_user busy)).1.sessions
              ≡ some (record busy { find_result = rest }))
            × ((rest ++ backwards page ≡ 1 ∷ 2 ∷ 3 ∷ [])
                × (length page ≡ (if ltb 2 3 then 2 else 3))))))
unfolding find
find_objects_lem_example = find_objects_lem 1 2 busy (world cku_user busy) refl refl

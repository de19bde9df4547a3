-- ===== src/P11/Session.antt =====
-- pkcs11/src/pkcs11/session.h and session.cpp: opening and closing sessions, login and logout, and
-- CSlot::CloseAllSessions and DeleteSlot of slot.cpp, which call them. A session is known by its
-- handle; g_mSessions holds it until it is erased.
pub mod Loops
pub mod Logout
pub mod Counts
pub mod Find
pub mod Digest
pub mod Keys
pub mod Sign
pub mod Objects
pub mod OperationState
pub mod Verify
use opencie_pkcs.Base.{
  ℕ, ◌+◌, ◌-◌, ◌%◌, ◌≡◌, Bool, true, false, not, ◌&&◌, List, [], ◌∷◌, Option, none, some, ◌==◌,
  if◌then◌else◌, Exception, Result, ok, throw, p11_error, logged_error, u64_mod,
}
use opencie_pkcs.Base.Map
use opencie_pkcs.Base.Map.{Map}
use opencie_pkcs.P11.Constants.{
  cku_so, cku_user, cku_nobody, ckr_user_another_already_logged_in, ckr_session_read_only_exists,
  ckr_user_already_logged_in, ckr_slot_id_invalid,
}
use opencie_pkcs.P11.State.{Slot, Session, World, CardTemplate}
use opencie_pkcs.P11.State.Monad.{
  M, ◌>>=◌, ◌>>◌, return, fail, guard_not, after, get_slot, set_slot, template_call,
}
use opencie_pkcs.P11.Object.{is_private}
use opencie_pkcs.P11.Slot.{is_rw, del_object_handle, add_p11_objects, final}

-- The constructor, and the fields that C_OpenSession sets.
unfoldable pub new_session : ℕ → ℕ → Session
new_session s flags = record {
  slot = s;
  flags = flags;
  find_init = false;
  find_result = [];
  digest = none;
  sign = none;
  verify = none;
  sign_recover = none;
  verify_recover = none;
}

-- The tests of ExistsRO and ExistsSO_RW over g_mSessions.
unfoldable pub any_session : ℕ → Bool → Map Session → Bool
any_session s rw [] = false
any_session s rw ((h, v) ∷ m) =
    let rest = any_session s rw m in
    if v.slot == s && (if rw then is_rw v.flags else not (is_rw v.flags)) then true else rest

unfoldable pub is_member : ℕ → List ℕ → Bool
is_member k [] = false
is_member k (x ∷ xs) = let rest = is_member k xs in if x == k then true else rest

module _ {E : Type 0} where
  unfoldable pub get_session_from_id : ℕ → M E (Option Session)
  get_session_from_id h w = (ok (Map.find h w.sessions), w)

  abbrev pub set_session : ℕ → Session → M E (Unit {0})
  set_session h v w = (ok tt, record w { sessions = Map.assign h v w.sessions })

  unfoldable pub exists_ro : ℕ → World E → Bool
  unfolding any_session
  exists_ro s w = any_session s false w.sessions

  unfoldable pub exists_so_rw : ℕ → World E → Bool
  unfolding any_session
  exists_so_rw s w = if (w.slots s).user == cku_so then any_session s true w.sessions else false

  -- GetNewSessionID; `dwSessionCnt` is an unsigned long.
  unfoldable pub get_new_session_id : M E ℕ
  get_new_session_id w =
      let n = (w.session_cnt + 1) % u64_mod in (ok n, record w { session_cnt = n })

  -- `dwSessionCount++`
  unfoldable pub count_up : ℕ → M E (Unit {0})
  count_up s = get_slot s >>= λ sl.
      set_slot s (record sl { session_count = (sl.session_count + 1) % u64_mod })

  -- `dwSessionCount--`
  unfoldable pub count_down : ℕ → M E (Unit {0})
  count_down s = get_slot s >>= λ sl.
      set_slot s (record sl { session_count = (sl.session_count + u64_mod - 1) % u64_mod })

  unfoldable pub insert_session : ℕ → Session → M E (Unit {0})
  insert_session h v w = (ok tt, record w { sessions = Map.insert h v w.sessions })

  unfoldable pub erase_session : ℕ → M E (Unit {0})
  erase_session h w = (ok tt, record w { sessions = Map.erase h w.sessions })

  unfoldable pub set_user : ℕ → ℕ → M E (Unit {0})
  set_user s user = get_slot s >>= λ sl. set_slot s (record sl { user = user })

module _ {E : Type 0} (tpl : CardTemplate E) where
  unfoldable pub add_session : Session → M E ℕ
  add_session v = get_new_session_id >>= λ id.
      (template_call v.slot (tpl.init_session v.slot) >>= λ objs. add_p11_objects v.slot objs)
      >> (count_up v.slot >> (insert_session id v >> return id))

  unfoldable pub forget_if_private : ℕ → ℕ → M E (Unit {0})
  forget_if_private s o = is_private tpl o >>= λ p. if p then del_object_handle s o else return tt

  -- The loop of Logout over P11Objects.
  unfoldable pub forget_private : ℕ → List ℕ → M E (Unit {0})
  unfolding forget_if_private
  forget_private s [] = return tt
  forget_private s (o ∷ os) = forget_if_private s o >> forget_private s os

  unfoldable pub logout : ℕ → M E (Unit {0})
  unfolding forget_private
  logout s = get_slot s >>= λ sl.
      template_call s (tpl.logout s sl.user)
      >> (get_slot s >>= λ sl1. forget_private s sl1.p11_objects >> set_user s cku_nobody)

  -- The tests of Login, with what it throws.
  unfoldable pub login_refused : ℕ → ℕ → World E → Option Exception
  login_refused s user_type w =
      let user = (w.slots s).user in
      if user == cku_user && user_type == cku_so
      then some (p11_error ckr_user_another_already_logged_in)
      else if user == cku_so && user_type == cku_user
      then some (p11_error ckr_user_another_already_logged_in)
      else if user_type == cku_so && exists_ro s w
      then some (p11_error ckr_session_read_only_exists)
      else if not (user == cku_nobody)
      then some (p11_error ckr_user_already_logged_in)
      else none

  unfoldable pub login : ℕ → ℕ → List ℕ → M E (Unit {0})
  unfolding login_refused
  login s user_type pin w = elim (login_refused s user_type w) [
    | some e ↦ fail e w
    | none ↦ (template_call s (tpl.login s user_type pin) >> set_user s user_type) w
  ]

  -- The logout that comes with the last session of a slot.
  unfoldable pub last_logout : ℕ → M E (Unit {0})
  unfolding logout
  last_logout s = get_slot s >>= λ sl.
      if sl.session_count == 0 && not (sl.user == cku_nobody) then logout s else return tt

  -- DeleteSession after ER_ASSERT.
  unfoldable pub delete_found : ℕ → Session → M E (Unit {0})
  unfolding last_logout
  delete_found h v =
      count_down v.slot
      >> (last_logout v.slot
          >> (template_call v.slot (tpl.final_session v.slot) >> erase_session h))

  unfoldable pub delete_session : ℕ → M E (Unit {0})
  unfolding delete_found
  delete_session h w = elim (Map.find h w.sessions) [
    | none ↦ fail logged_error w
    | some v ↦ delete_found h v w
  ]

  -- The loop of CloseAllSessions, over g_mSessions as it stands: DeleteSession erases the session
  -- that the loop has just left, and no other.
  unfoldable pub close_sessions : ℕ → Map Session → M E (Unit {0})
  unfolding delete_session
  close_sessions s [] = return tt
  close_sessions s ((h, v) ∷ m) =
      let rest : M E (Unit {0}) = close_sessions s m in
      if v.slot == s then delete_session h >> rest else rest

  unfoldable pub close_all_sessions : ℕ → M E (Unit {0})
  unfolding close_sessions
  close_all_sessions s w = close_sessions s w.sessions w

  unfoldable pub delete_slot : ℕ → M E (Unit {0})
  unfolding close_all_sessions
  delete_slot s w =
      (guard_not (not (is_member s w.g_slots)) (p11_error ckr_slot_id_invalid)
          >> (close_all_sessions s >> final tpl s))
        w

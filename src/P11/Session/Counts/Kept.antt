-- ===== src/P11/Session/Counts/Kept.antt =====
-- What AddSession does to the number of sessions of a slot.
use opencie_pkcs.Base.{
  ℕ, ◌+◌, ◌%◌, ◌<◌, ◌≤◌, ◌≡◌, Result, ok, throw, arith, none, Option-cases, inl, inr, u64_mod,
}
use opencie_pkcs.Base.Map.{find, insert, assign-Sorted, find-assign}
use opencie_pkcs.P11.State.{World, Session, CardTemplate}
use opencie_pkcs.P11.State.Monad.{M, after, ◌>>=◌, ◌>>◌, return, template_call}
use opencie_pkcs.P11.Slot.{add_p11_objects}
use opencie_pkcs.P11.Session.{add_session, count_up, insert_session, get_new_session_id}
use opencie_pkcs.P11.Session.Loops.{
  SameSessions, SameSessions-after, add_p11_objects-SameSessions, template_call-SameSessions,
}
use opencie_pkcs.P11.Session.Counts.{
  count_sessions, count_sessions-assign, CountsValid, CountsValid-SameSessions,
}

-- One more step after one that keeps the sessions.
pub keep_then :
    {E A B : Type 0} (P : World E → Type 0) (w : World E) (r : Result A × World E) (f : A → M E B)
    → SameSessions w r.1
    → ((u : World E) → SameSessions w u → P u)
    → ((a : A) (u : World E) → SameSessions w u → P (f a u).1)
    → P (after r f).1
keep_then P w (ok a, u) f k p q = q a u k
keep_then P w (throw e, u) f k p q = p u k

-- The last steps of AddSession, on a state that has no session of that number.
add_last-CountsValid :
    {E : Type 0} (id : ℕ) (v : Session) (u : World E)
    → CountsValid u
    → find id u.sessions ≡ none
    → id ≤ u.session_cnt
    → count_sessions v.slot u.sessions + 1 < u64_mod
    → CountsValid ((count_up v.slot >> (insert_session id v >> return id)) u).1
unfolding count_up insert_session insert
add_last-CountsValid id v u c e le small = rw e (record {
  counted =
      λ s. ground (arith, c.counted s, c.counted v.slot, count_sessions-assign s id v u.sessions);
  bounded = λ s. ground (arith, c.bounded s, c.counted v.slot);
  sorted = assign-Sorted id 0 v u.sessions (omega arith) c.sorted;
  below = λ h x p. ground (arith, find-assign id h v u.sessions, c.below h x);
})

module _ {E : Type 0} (tpl : CardTemplate E) where
  init_session-SameSessions :
      (s : ℕ) (w : World E)
      → SameSessions w
          ((template_call s (tpl.init_session s) >>= λ objs. add_p11_objects s objs) w).1
  init_session-SameSessions s w =
      SameSessions-after w (template_call s (tpl.init_session s) w) (λ objs. add_p11_objects s objs)
        (template_call-SameSessions s (tpl.init_session s) w)
        (λ objs u. add_p11_objects-SameSessions s objs u)

  -- AddSession after its first line.
  add_rest-CountsValid :
      (id : ℕ) (v : Session) (w : World E)
      → CountsValid w
      → find id w.sessions ≡ none
      → id ≤ w.session_cnt
      → count_sessions v.slot w.sessions + 1 < u64_mod
      → CountsValid
          (((template_call v.slot (tpl.init_session v.slot) >>= λ objs. add_p11_objects v.slot objs)
              >> (count_up v.slot >> (insert_session id v >> return id)))
            w).1
  add_rest-CountsValid id v w c e le small =
      keep_then CountsValid w
        ((template_call v.slot (tpl.init_session v.slot) >>= λ objs. add_p11_objects v.slot objs) w)
        (λ _. count_up v.slot >> (insert_session id v >> return id))
        (init_session-SameSessions v.slot w) (λ u k. CountsValid-SameSessions k c)
        (λ a u k.
          add_last-CountsValid id v u (CountsValid-SameSessions k c) (rw k.sessions e)
            (rw k.session_cnt le) (rw k.sessions small))

  -- AddSession keeps dwSessionCount of every slot equal to the number of its sessions in
  -- g_mSessions, the order of g_mSessions, and dwSessionCnt at least as large as every handle,
  -- also when the template throws, provided dwSessionCnt and the slot's number of sessions do not
  -- wrap around.
  pub add_session-CountsValid :
      (v : Session) (w : World E)
      → CountsValid w
      → w.session_cnt + 1 < u64_mod
      → count_sessions v.slot w.sessions + 1 < u64_mod
      → CountsValid (add_session tpl v w).1
  unfolding add_session get_new_session_id
  add_session-CountsValid v w c wide small =
      add_rest-CountsValid ((w.session_cnt + 1) % u64_mod) v
        (record w { session_cnt = (w.session_cnt + 1) % u64_mod })
        (record {
          counted = c.counted;
          bounded = c.bounded;
          sorted = c.sorted;
          below = λ h x p. ground (arith, c.below h x p);
        })
        (unused ((w.session_cnt + 1) % u64_mod) (ground arith)) (omega arith) small
    where
      unused : (id : ℕ) → w.session_cnt < id → find id w.sessions ≡ none
      unused id lt = elim (Option-cases (find id w.sessions)) [
        | inl e ↦ e
        | inr e ↦ absurd (omega (arith, c.below id e.0 e.1))
      ]

-- ===== src/P11/Session/Counts/Closing.antt =====
-- What DeleteSession, CloseAllSessions and Final do to the number of sessions of a slot.
use opencie_pkcs.Base.{
  ℕ, ◌≡◌, refl, [], ◌∷◌, Bool, true, false, Result, ok, throw, arith, ◌==◌, if◌then◌else◌, not,
  ◌&&◌, some, Option-cases, inl, inr,
}
use opencie_pkcs.Base.Map.{Map, find, find-erase}
use opencie_pkcs.P11.State.{World, Session, CardTemplate}
use opencie_pkcs.P11.State.Monad.{M, after, ◌>>◌, template_call}
use opencie_pkcs.P11.Constants.{cku_nobody}
use opencie_pkcs.P11.Slot.{final, clear_slot}
use opencie_pkcs.P11.Session.{
  delete_session, delete_found, close_all_sessions, last_logout, close_sessions, logout, count_down,
  erase_session,
}
use opencie_pkcs.P11.Session.Loops.{
  SameSessions, template_call-SameSessions, logout-SameSessions, SameSessions-refl,
  SameSessions-trans,
}
use opencie_pkcs.P11.Session.Counts.{
  count_sessions-erase, count_sessions-erase_sessions, erase-Sorted, erase_sessions-Sorted,
  find-erase_sessions, CountsValid, CountsValid-SameSessions,
}
use opencie_pkcs.P11.Session.Counts.Kept.{keep_then}

-- The same where the claim is made only of calls that return.
pub keep_then_ok :
    {E A B : Type 0} (P : World E → Type 0) (w : World E) (r : Result A × World E) (f : A → M E B)
    → SameSessions w r.1
    → ((a : A) (u : World E) → SameSessions w u → (b : B) → (f a u).0 ≡ ok b → P (f a u).1)
    → (b : B) → (after r f).0 ≡ ok b
    → P (after r f).1
keep_then_ok P w (ok a, u) f k q b e = q a u k b e
keep_then_ok P w (throw x, u) f k q b e = cc

-- The last step of DeleteSession, after the count went down and steps that keep the sessions.
erased-CountsValid :
    {E : Type 0} (h : ℕ) (v : Session) (w u : World E)
    → CountsValid w
    → find h w.sessions ≡ some v
    → SameSessions (count_down v.slot w).1 u
    → CountsValid (erase_session h u).1
unfolding count_down erase_session
erased-CountsValid h v w u c e k = rw k.sessions (record {
  counted = λ s. ground (
    arith,
    k.count s,
    c.counted s,
    c.bounded s,
    count_sessions-erase s h 0 v w.sessions c.sorted e,
  );
  bounded = λ s. ground (arith, k.count s, c.bounded s);
  sorted = erase-Sorted h 0 w.sessions c.sorted;
  below = λ j x p. ground (arith, find-erase h j w.sessions, c.below j x, k.session_cnt);
})

clear_slot-CountsValid :
    {E : Type 0} (s : ℕ) (w : World E) → CountsValid w → CountsValid (clear_slot s w).1
unfolding clear_slot
clear_slot-CountsValid s w c = record {
  counted = λ t. ground (arith, c.counted t, count_sessions-erase_sessions s t w.sessions);
  bounded = λ t. ground (arith, c.bounded t);
  sorted = erase_sessions-Sorted s 0 w.sessions c.sorted;
  below = λ h x p. c.below h x (find-erase_sessions s h 0 x w.sessions p c.sorted);
}

-- Two steps that both keep `P` when they return.
then_ok :
    {E : Type 0} (P : World E → Type 0) (r : Result (Unit {0}) × World E) (f : M E (Unit {0}))
    → (r.0 ≡ ok tt → P r.1)
    → ((u : World E) → P u → (f u).0 ≡ ok tt → P (f u).1)
    → (after r (λ _. f)).0 ≡ ok tt
    → P (after r (λ _. f)).1
then_ok P (ok tt, u) f p q e = q u (p refl) e
then_ok P (throw x, u) f p q e = absurd cc

module _ {E : Type 0} (tpl : CardTemplate E) where
  pub last_logout-SameSessions : (s : ℕ) (u : World E) → SameSessions u (last_logout tpl s u).1
  unfolding last_logout
  last_logout-SameSessions s u =
      go ((u.slots s).session_count == 0 && not ((u.slots s).user == cku_nobody))
    where
      go : (p : Bool) → SameSessions u ((if p then logout tpl s else (λ w. (ok tt, w))) u).1
      go true = logout-SameSessions tpl s u
      go false = SameSessions-refl u

  delete_found-CountsValid :
      (h : ℕ) (v : Session) (w : World E)
      → CountsValid w
      → find h w.sessions ≡ some v
      → (delete_found tpl h v w).0 ≡ ok tt
      → CountsValid (delete_found tpl h v w).1
  unfolding delete_found count_down
  delete_found-CountsValid h v w c e r =
      keep_then_ok CountsValid (count_down v.slot w).1
        (last_logout tpl v.slot (count_down v.slot w).1)
        (λ _. template_call v.slot (tpl.final_session v.slot) >> erase_session h)
        (last_logout-SameSessions v.slot (count_down v.slot w).1)
        (λ a u k.
          keep_then_ok CountsValid u (template_call v.slot (tpl.final_session v.slot) u)
            (λ _. erase_session h) (template_call-SameSessions v.slot (tpl.final_session v.slot) u)
            (λ b x l q t. erased-CountsValid h v w x c e (SameSessions-trans k l)))
        tt r

  -- A DeleteSession that returns keeps dwSessionCount of every slot equal to the number of its
  -- sessions in g_mSessions, the order of g_mSessions, and dwSessionCnt at least as large as every
  -- handle.
  pub delete_session-CountsValid :
      (h : ℕ) (w : World E)
      → CountsValid w
      → (delete_session tpl h w).0 ≡ ok tt
      → CountsValid (delete_session tpl h w).1
  unfolding delete_session
  delete_session-CountsValid h w c = elim (Option-cases (find h w.sessions)) [
    | inl e ↦ rw (e, delete_session) (λ r. absurd cc)
    | inr e ↦ rw (e.1, delete_session) (λ r. delete_found-CountsValid h e.0 w c e.1 r)
  ]

  -- The loop of CloseAllSessions.
  close_sessions-CountsValid :
      (s : ℕ) (m : Map Session) (w : World E)
      → CountsValid w
      → (close_sessions tpl s m w).0 ≡ ok tt
      → CountsValid (close_sessions tpl s m w).1
  unfolding close_sessions
  close_sessions-CountsValid s [] w c r = c
  close_sessions-CountsValid s ((h, v) ∷ m) w c r =
      go (v.slot == s) (λ u d. close_sessions-CountsValid s m u d) r
    where
      go :
          (p : Bool)
          → ((u : World E)
              → CountsValid u
              → (close_sessions tpl s m u).0 ≡ ok tt
              → CountsValid (close_sessions tpl s m u).1)
          → ((if p then delete_session tpl h >> close_sessions tpl s m else close_sessions tpl s m)
              w).0
            ≡ ok tt
          → CountsValid
              ((if p
                  then delete_session tpl h >> close_sessions tpl s m
                  else close_sessions tpl s m)
                w).1
      go true k =
          then_ok CountsValid (delete_session tpl h w) (close_sessions tpl s m)
            (delete_session-CountsValid h w c) k
      go false k = k w c

  -- The same of CloseAllSessions.
  pub close_all_sessions-CountsValid :
      (s : ℕ) (w : World E)
      → CountsValid w
      → (close_all_sessions tpl s w).0 ≡ ok tt
      → CountsValid (close_all_sessions tpl s w).1
  unfolding close_all_sessions
  close_all_sessions-CountsValid s w c = close_sessions-CountsValid s w.sessions w c

  -- Final keeps dwSessionCount of every slot equal to the number of its sessions in g_mSessions,
  -- the order of g_mSessions, and dwSessionCnt at least as large as every handle, also when the
  -- template throws.
  final-CountsValid : (s : ℕ) (w : World E) → CountsValid w → CountsValid (final tpl s w).1
  unfolding final
  final-CountsValid s w c = go (w.slots s).updated
    where
      go :
          (p : Bool)
          → CountsValid
              ((if p then template_call s (tpl.final_card s) >> clear_slot s else (λ u. (ok tt, u)))
                w).1
      go true =
          keep_then CountsValid w (template_call s (tpl.final_card s) w) (λ _. clear_slot s)
            (template_call-SameSessions s (tpl.final_card s) w)
            (λ u k. CountsValid-SameSessions k c)
            (λ a u k. clear_slot-CountsValid s u (CountsValid-SameSessions k c))
      go false = c

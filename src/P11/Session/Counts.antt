-- ===== src/P11/Session/Counts.antt =====
-- The number of sessions of a slot, against g_mSessions.
pub mod Kept
pub mod Closing
pub mod Emptied
use opencie_pkcs.Base.{
  ℕ, zero, suc, ◌+◌, ◌-◌, ◌%◌, ◌<◌, ◌≤◌, ◌≡◌, refl, sym, ap, ◌∙◌, List, [], ◌∷◌, Bool, true, false,
  Result, ok, throw, arith, ◌==◌, if◌then◌else◌, not, ◌&&◌, Option, none, some, Bool-cases,
  Option-cases, inl, inr, Exception, ◌⊎◌, u64_mod, is_some, ltb,
}
use opencie_pkcs.Base.Map.{
  Map, find, assign, insert, erase, Sorted, Sorted-mono, find-below, assign-Sorted, find-assign,
  find-erase,
}
use opencie_pkcs.P11.State.{World, Slot, P11Object, Session, CardTemplate}
use opencie_pkcs.P11.State.Monad.{M, after, ◌>>=◌, ◌>>◌, update, return, template_call}
use opencie_pkcs.P11.Constants.{cku_nobody}
use opencie_pkcs.P11.Slot.{erase_sessions, final, clear_slot, add_p11_objects}
use opencie_pkcs.P11.Session.{
  add_session, delete_session, delete_found, close_all_sessions, last_logout, close_sessions,
  logout, count_up, count_down, insert_session, erase_session, get_session_from_id,
  get_new_session_id,
}
use opencie_pkcs.P11.Session.Loops.{
  SameSessions, SameSessions-after, add_p11_objects-SameSessions, forget_private-SameSessions,
  template_call-SameSessions, logout-SameSessions, SameSessions-refl, SameSessions-trans,
}

-- How many sessions of the map stand on the slot `s`.
unfoldable pub count_sessions : ℕ → Map Session → ℕ
count_sessions s [] = 0
count_sessions s ((h, v) ∷ m) = if v.slot == s then count_sessions s m + 1 else count_sessions s m

pub count_sessions-assign :
    (s h : ℕ) (v : Session) (m : Map Session)
    → find h m ≡ none
    → count_sessions s (assign h v m)
      ≡ (if v.slot == s then count_sessions s m + 1 else count_sessions s m)
unfolding count_sessions assign find
count_sessions-assign s h v [] e = refl
count_sessions-assign s h v ((k, u) ∷ m) e = ground (arith, count_sessions-assign s h v m)

pub erase-above : {V : Type 0} (h b : ℕ) (m : Map V) → h < b → Sorted b m → erase h m ≡ m
unfolding erase
erase-above h b [] lt s = refl
erase-above h b ((k, u) ∷ m) lt s = ground (arith, erase-above h (k + 1) m (omega arith) s.1)

pub count_sessions-erase :
    (s h b : ℕ) (v : Session) (m : Map Session)
    → Sorted b m
    → find h m ≡ some v
    → count_sessions s m
      ≡ (if v.slot == s then count_sessions s (erase h m) + 1 else count_sessions s (erase h m))
unfolding count_sessions erase find
count_sessions-erase s h b v [] o e = absurd (ground arith)
count_sessions-erase s h b v ((k, u) ∷ m) o e =
    ground (arith, count_sessions-erase s h (k + 1) v m o.1, erase-above h (k + 1) m)

pub count_sessions-erase_sessions :
    (s t : ℕ) (m : Map Session)
    → count_sessions t (erase_sessions s m) ≡ (if s == t then 0 else count_sessions t m)
unfolding count_sessions erase_sessions
count_sessions-erase_sessions s t [] = ground arith
count_sessions-erase_sessions s t ((k, u) ∷ m) = ground (arith, count_sessions-erase_sessions s t m)

pub erase-Sorted : {V : Type 0} (h b : ℕ) (m : Map V) → Sorted b m → Sorted b (erase h m)
unfolding erase
erase-Sorted h b [] s = tt
erase-Sorted h b ((k, u) ∷ m) s =
    ground (arith, erase-Sorted h (k + 1) m s.1, Sorted-mono b (k + 1) (erase h m))

pub erase_sessions-Sorted : (t b : ℕ) (m : Map Session) → Sorted b m → Sorted b (erase_sessions t m)
unfolding erase_sessions
erase_sessions-Sorted t b [] s = tt
erase_sessions-Sorted t b ((k, u) ∷ m) s =
    ground
      (arith, erase_sessions-Sorted t (k + 1) m s.1, Sorted-mono b (k + 1) (erase_sessions t m))

pub find-erase_sessions :
    (s h b : ℕ) (v : Session) (m : Map Session)
    → find h (erase_sessions s m) ≡ some v
    → Sorted b m
    → find h m ≡ some v
unfolding erase_sessions find
find-erase_sessions s h b v [] e o = e
find-erase_sessions s h b v ((k, u) ∷ m) e o = elim (Bool-cases (k == h)) [
  | inl q ↦ ground (arith, find-erase_sessions s h (k + 1) v m, find-below h (k + 1) m, o.1)
  | inr q ↦ ground (arith, find-erase_sessions s h (k + 1) v m, o.1)
]

-- `dwSessionCount` of every slot is the number of its sessions in g_mSessions, which is in the
-- order of the handles, and no handle is above `dwSessionCnt`.
pub record CountsValid {E : Type 0} (w : World E) : Type 0 where
  pub counted : (s : ℕ) → (w.slots s).session_count ≡ count_sessions s w.sessions
  pub bounded : (s : ℕ) → (w.slots s).session_count < u64_mod
  pub sorted : Sorted 0 w.sessions
  pub below : (h : ℕ) (v : Session) → find h w.sessions ≡ some v → h ≤ w.session_cnt

pub CountsValid-SameSessions :
    {E : Type 0} {w w' : World E} → SameSessions w w' → CountsValid w → CountsValid w'
CountsValid-SameSessions e v = record {
  counted = λ s. rw e.sessions (e.count s ∙ v.counted s);
  bounded = λ s. rw (e.count s) (v.bounded s);
  sorted = rw e.sessions v.sorted;
  below = λ h x p. rw e.session_cnt (v.below h x (rw e.sessions at p));
}

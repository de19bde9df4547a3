-- ===== src/P11/State/Frames.antt =====
-- What a method leaves alone.
use opencie_pkcs.Base.{ℕ, ◌≡◌, refl, ◌∙◌, Result, ok, throw, Exception}
use opencie_pkcs.P11.State.{World}
use opencie_pkcs.Base.{Bool, true, false, arith}
use opencie_pkcs.P11.State.Monad.{M, after, ◌>>◌, guard_not, template_call}

-- Only the objects and what the card keeps may differ.
pub record SameTables {E : Type 0} (w w' : World E) : Type 0 where
  pub slots : w'.slots ≡ w.slots
  pub g_slots : w'.g_slots ≡ w.g_slots
  pub sessions : w'.sessions ≡ w.sessions
  pub session_cnt : w'.session_cnt ≡ w.session_cnt

pub SameTables-refl : {E : Type 0} (w : World E) → SameTables w w
SameTables-refl w = record { slots = refl; g_slots = refl; sessions = refl; session_cnt = refl }

pub SameTables-trans :
    {E : Type 0} {u v w : World E} → SameTables u v → SameTables v w → SameTables u w
SameTables-trans p q = record {
  slots = q.slots ∙ p.slots;
  g_slots = q.g_slots ∙ p.g_slots;
  sessions = q.sessions ∙ p.sessions;
  session_cnt = q.session_cnt ∙ p.session_cnt;
}

-- A chain of two steps.
pub SameTables-after :
    {E A B : Type 0} (w : World E) (r : Result A × World E) (f : A → M E B)
    → SameTables w r.1
    → ((a : A) (u : World E) → SameTables u (f a u).1)
    → SameTables w (after r f).1
SameTables-after w (ok a, u) f p q = SameTables-trans p (q a u)
SameTables-after w (throw e, u) f p q = p

-- A test between two steps.
pub SameTables-guard :
    {E B : Type 0} (b : Bool) (e : Exception) (k : M E B) (w : World E)
    → ((u : World E) → SameTables u (k u).1)
    → SameTables w ((guard_not b e >> k) w).1
SameTables-guard true e k w q = SameTables-refl w
SameTables-guard false e k w q = q w

pub template_call-SameTables :
    {E A : Type 0} (s : ℕ) (f : E → Result A × E) (w : World E)
    → SameTables w (template_call s f w).1
template_call-SameTables s f w = ground arith

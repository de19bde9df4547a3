-- ===== src/Card/Io.antt =====
-- The state of an object IAS, and a method of it: it talks to the card, it may throw, and what it
-- did to the state before stays. `C` is the state of whatever is behind the reader.
use opencie_pkcs.Base.{ℕ, Bool, true, false, List, Exception, Result, ok, throw}
use opencie_pkcs.Base.Outcome.{Outcome, done, thrown, running}
use opencie_pkcs.Card.Atr.{CieType}

-- `sessENC`, `sessMAC`, `sessSSC`, `ActiveSM`, `ATR` and `type`.
pub record Ias (C : Type 0) : Type 0 where
  pub card : C
  pub sess_enc : List ℕ
  pub sess_mac : List ℕ
  pub sess_ssc : List ℕ
  pub active_sm : Bool
  pub atr : List ℕ
  pub cie_type : CieType

abbrev pub Io : Type 0 → Type 0 → Type 0
Io C A = Ias C → Outcome A × Ias C

abbrev pub and_then : {C A B : Type 0} → Outcome A × Ias C → (A → Io C B) → Outcome B × Ias C
and_then (done a, s) f = f a s
and_then (thrown e, s) f = (thrown e, s)
and_then (running, s) f = (running, s)

infixl 5 ◌>>=◌ ◌>>◌
abbrev pub ◌>>=◌ : {C A B : Type 0} → Io C A → (A → Io C B) → Io C B
◌>>=◌ m f s = and_then (m s) f

abbrev pub ◌>>◌ : {C B : Type 0} → Io C (Unit {0}) → Io C B → Io C B
◌>>◌ m k s = and_then (m s) (λ _. k)

abbrev pub return : {C A : Type 0} → A → Io C A
return a s = (done a, s)

abbrev pub fail : {C A : Type 0} → Exception → Io C A
fail e s = (thrown e, s)

abbrev pub still_running : {C A : Type 0} → Io C A
still_running s = (running, s)

abbrev pub guard_not : {C : Type 0} → Bool → Exception → Io C (Unit {0})
guard_not true e s = (thrown e, s)
guard_not false e s = (done tt, s)

-- A computation that touches no state.
abbrev pub lift : {C A : Type 0} → Result A → Io C A
lift (ok a) s = (done a, s)
lift (throw e) s = (thrown e, s)

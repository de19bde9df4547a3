-- ===== src/Base/Outcome.antt =====
-- What a computation that may loop gives back: a value, an exception, or nothing so far.
-- `running` stands for a loop whose fuel is used up; no code returns it.
use opencie_pkcs.Base.Exceptions.{Exception, Result, ok, throw}

pub data Outcome {ℓ} (A : Type ℓ) : Type ℓ where
  done : A → Outcome A
  thrown : Exception → Outcome A
  running : Outcome A

infixl 5 ◌>>=◌
abbrev pub ◌>>=◌ {ℓ κ} : {A : Type ℓ} {B : Type κ} → Outcome A → (A → Outcome B) → Outcome B
done a >>= f = f a
thrown e >>= f = thrown e
running >>= f = running

abbrev pub outcome {ℓ} : {A : Type ℓ} → Result A → Outcome A
outcome (ok a) = done a
outcome (throw e) = thrown e

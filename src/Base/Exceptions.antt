-- ===== src/Base/Exceptions.antt =====
-- What a call of the library gives back: a value, or the exception that it throws.
use Prim.Native.Nat.{ℕ}
use mathlib.Core.Bool.{Bool, true, false}

-- The classes of util_exception.h and session.h. Messages are left out.
-- `crash` is no C++ exception: the code went through a null pointer or past an empty array.
pub data Exception : Type 0 where
  logged_error : Exception
  p11_error : ℕ → Exception
  scard_error : ℕ → Exception
  card_link_error : Bool → Exception
  windows_error : ℕ → Exception
  crash : Exception

pub data Result {ℓ} (A : Type ℓ) : Type ℓ where
  ok : A → Result A
  throw : Exception → Result A

infixl 5 ◌>>=◌ ◌>>◌
abbrev pub ◌>>=◌ {ℓ κ} : {A : Type ℓ} {B : Type κ} → Result A → (A → Result B) → Result B
ok a >>= f = f a
throw e >>= f = throw e

abbrev pub ◌>>◌ {ℓ} : {B : Type ℓ} → Result (Unit {0}) → Result B → Result B
m >> k = m >>= λ _. k

-- `if (b) throw e;`
abbrev pub throw_if : Bool → Exception → Result (Unit {0})
throw_if true e = throw e
throw_if false e = ok tt

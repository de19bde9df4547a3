-- ===== src/Card/PinManager/Served.antt =====
-- Searches of pin_manager.cpp that serve a card only where a proposition holds.
use opencie_pkcs.Base.{
  ℕ, ◌≡◌, refl, Bool, true, false, none, ◌==◌, if◌then◌else◌, Exception, crash, arith,
}
use opencie_pkcs.Card.PinManager.{
  Try, returned, unsupported, raised, Call, and_then, ◌>>=◌, return, fail, Search, answer, served,
  not_found, next_reader, after_select,
}

-- What CKR_OK is answered to.
abbrev pub is_success : Try Search → Bool
is_success (returned (answer rv attempts)) = rv == 0
is_success (returned served) = true
is_success r = false

-- A search that serves a card only where `P` holds.
unfoldable pub Proves : {E : Type 0} → Type 0 → Call E Search → Type 0
Proves {E = E} P m = (s : E) → is_success ((m s).0) ≡ true → P

-- A call has answered so.
abbrev pub Answered : {E : Type 0} → Call E ℕ → ℕ → Type 0
Answered {E = E} m sw = (s : E) × ((m s).0 ≡ returned sw)

pub found_none-Proves : (E P : Type 0) (b : Bool) → Proves P (return {E = E} (not_found b))
unfolding Proves
found_none-Proves E P b s h = absurd (ground arith)

pub fail-Proves : (E P : Type 0) (e : Exception) → Proves P (fail {E = E} e)
unfolding Proves
fail-Proves E P e s h = absurd (ground arith)

module _ {E : Type 0} (P : Type 0) where
  pub and_then-Proves :
      {A : Type 0} (r : Try A × E) (f : A → Call E Search)
      → ((a : A) → r.0 ≡ returned a → Proves P (f a))
      → is_success ((and_then r f).0) ≡ true
      → P
  unfolding Proves
  and_then-Proves (returned a, s) f k h = k a refl s h
  and_then-Proves (unsupported, s) f k h = absurd (ground arith)
  and_then-Proves (raised e, s) f k h = absurd (ground arith)

  pub bind-Proves :
      {A : Type 0} (m : Call E A) (f : A → Call E Search)
      → ((s : E) (a : A) → (m s).0 ≡ returned a → Proves P (f a))
      → Proves P (m >>= f)
  unfolding Proves
  bind-Proves m f k s h = and_then-Proves (m s) f (k s) h

  pub then-Proves :
      {A : Type 0} (m : Call E A) (f : A → Call E Search)
      → ((a : A) → Proves P (f a))
      → Proves P (m >>= f)
  then-Proves m f k = bind-Proves m f (λ s a e. k a)

  pub answer-Proves :
      (b : Bool) (rv : ℕ) (m : Call E Search)
      → (rv == 0) ≡ false
      → Proves P m
      → Proves P (if b then return (answer rv none) else m)
  unfolding Proves
  answer-Proves true rv m n k s h = absurd (ground arith)
  answer-Proves false rv m n k s h = k s h

  pub next_reader-Proves :
      (m : Call E Search) (next : Bool → Call E Search)
      → Proves P m
      → ((b : Bool) → Proves P (next b))
      → Proves P (m >>= next_reader next)
  unfolding Proves
  next_reader-Proves m next k l s = go_on (m s) (k s)
    where
      go_on :
          (r : Try Search × E)
          → (is_success (r.0) ≡ true → P)
          → is_success ((and_then r (next_reader next)).0) ≡ true
          → P
      go_on (returned (answer rv a), t) k h = k h
      go_on (returned served, t) k h = k refl
      go_on (returned (not_found b), t) k h = l b t h
      go_on (unsupported, t) k h = absurd (ground arith)
      go_on (raised e, t) k h = absurd (ground arith)

  pub after_select-Proves :
      (go_on : Call E Search) (r : Try (Unit {0}))
      → Proves P go_on
      → Proves P (after_select go_on r)
  unfolding Proves
  after_select-Proves go_on (returned u) k s h = k s h
  after_select-Proves go_on unsupported k s h = absurd (ground arith)
  after_select-Proves go_on (raised crash) k s h = absurd (ground arith)
  after_select-Proves go_on (raised e) k s h = absurd (ground arith)

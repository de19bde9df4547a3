-- ===== src/Card/Enable/Once.antt =====
-- However often CardAuthenticateEx is tried again, the PIN is verified once at most.
use opencie_pkcs.Base.{
  ℕ, zero, suc, ◌+◌, ◌≤◌, ◌≡◌, refl, Bool, true, false, List, ltb, if◌then◌else◌, Exception, Result,
  ok, throw, inl, inr, Bool-cases, arith,
}
use opencie_pkcs.Card.Retry.{is_retryable, after_attempt, retry_loop}
use opencie_pkcs.Card.PinManager.{
  Try, returned, unsupported, raised, Call, and_then, ◌>>=◌, return, Cie,
}
use opencie_pkcs.Card.PinManager.Calls.{Keeps, Costs, bind-Keeps, pure-Keeps}
use opencie_pkcs.Card.PinManager.Attempts.{Tried}
use opencie_pkcs.Card.Enable.{
  missing_key, open_session, verify_user, card_authenticate_ex, authenticate_attempt, as_result,
  as_try, authenticate_with_retry, verified_code, role_user,
}

-- The exceptions of a call that RetryOnCardLinkError does not try again.
unfoldable pub Final : {E A : Type 0} → Call E A → Type 0
Final {E = E} m = (s : E) (e : Exception) → (m s).0 ≡ raised e → is_retryable e ≡ false

-- What an attempt may have cost: nothing, where it is tried again.
abbrev cost : {A : Type 0} → Try A → ℕ
cost (returned a) = 1
cost unsupported = 1
cost (raised e) = if is_retryable e then 0 else 1

module _ {E : Type 0} (tries : E → ℕ) where
  unfoldable pub Spends : {A : Type 0} → Call E A → Type 0
  Spends m = (s : E) → tries ((m s).1) ≤ tries s + cost ((m s).0)

  then-Spends :
      {A B : Type 0} (m : Call E A) (f : A → Call E B)
      → Keeps tries m
      → ((a : A) → Spends (f a))
      → Spends (m >>= f)
  unfolding Spends Keeps
  then-Spends {A = A} m f k l s = after (tries s) (m s) (k s)
    where
      after :
          (n : ℕ) (r : Try A × E)
          → tries (r.1) ≡ n
          → tries ((and_then r f).1) ≤ n + cost ((and_then r f).0)
      after n (returned a, t) e = omega (arith, l a t, e)
      after n (unsupported, t) e = omega (arith, e)
      after n (raised x, t) e = omega (arith, e)

  costly-Spends :
      {A B : Type 0} (m : Call E A) (f : A → B)
      → Costs tries m
      → Final m
      → Spends (m >>= λ a. return (f a))
  unfolding Spends Costs Final
  costly-Spends {A = A} m f k l s = after (tries s) (m s) (k s) (l s)
    where
      after :
          (n : ℕ) (r : Try A × E)
          → tries (r.1) ≤ suc n
          → ((e : Exception) → r.0 ≡ raised e → is_retryable e ≡ false)
          → tries ((and_then r (λ a. return (f a))).1)
            ≤ n + cost ((and_then r (λ a. return (f a))).0)
      after n (returned a, t) e q = omega (arith, e)
      after n (unsupported, t) e q = omega (arith, e)
      after n (raised x, t) e q = rw (q x refl) (omega (arith, e))

  either :
      {A : Type 0} (b : Bool) (x y : Result (Try A) × E) (n : ℕ)
      → tries (x.1) ≤ n
      → tries (y.1) ≤ n
      → tries ((if b then x else y).1) ≤ n
  either true x y n p q = p
  either false x y n p q = q

  -- The loop of RetryOnCardLinkError over attempts that spend.
  retry_loop-tries :
      {A : Type 0} (fn : ℕ → Call E A) (left attempt : ℕ) (s : E)
      → ((n : ℕ) → Spends (fn n))
      → tries ((retry_loop (λ n t. as_result (fn n t)) attempt left s).1) ≤ suc (tries s)
  unfolding retry_loop Spends
  retry_loop-tries fn zero attempt s k = omega arith
  retry_loop-tries {A = A} fn (suc left) attempt s k =
      after (fn attempt s) (k attempt s) (λ t. retry_loop-tries fn left (attempt + 1) t k)
    where
      after :
          (r : Try A × E)
          → tries (r.1) ≤ tries s + cost (r.0)
          → ((t : E)
              → tries ((retry_loop (λ n t. as_result (fn n t)) (attempt + 1) left t).1)
                ≤ suc (tries t))
          → tries (
              (after_attempt left
                (as_result r)
                (λ t. retry_loop (λ n t. as_result (fn n t)) (attempt + 1) left t)).1)
            ≤ suc (tries s)
      after (returned a, t) q again = omega (arith, q)
      after (unsupported, t) q again = omega (arith, q)
      after (raised e, t) q again = elim (Bool-cases (is_retryable e)) [
        | inl yes_again ↦
            let same : tries t ≤ tries s + 0 = rw yes_again at q in
            rw yes_again (
              either (ltb 0 left) (retry_loop (λ n t. as_result (fn n t)) (attempt + 1) left t)
                (throw e, t) (suc (tries s)) (omega (arith, same, again t)) (omega (arith, same)))
        | inr last ↦ rw last (let one : tries t ≤ tries s + 1 = rw last at q in omega (arith, one))
      ]

module _ {E : Type 0} (cie : Cie E) (tries : E → ℕ) (law : Tried cie tries) (no_dapp_key : E → Bool)
    (get_first_pin : Call E (List ℕ)) where
  missing_key-Keeps : Keeps tries (missing_key cie no_dapp_key)
  unfolding missing_key Keeps
  missing_key-Keeps s = chosen (no_dapp_key s)
    where
      chosen : (b : Bool) → tries ((if b then cie.read_dapp_pub_key s else return tt s).1) ≡ tries s
      chosen true = law.reading_key s
      chosen false = refl

  open_session-Keeps : Keeps tries (open_session cie no_dapp_key)
  unfolding open_session
  open_session-Keeps = bind-Keeps tries _ _ law.selecting λ _.
      bind-Keeps tries _ _ law.selecting_cie λ _. bind-Keeps tries _ _ law.preparing λ _.
        bind-Keeps tries _ _ missing_key-Keeps λ _.
          bind-Keeps tries _ _ law.preparing_key
            λ _. bind-Keeps tries _ _ law.exchanging λ _. law.proving

  user-Spends :
      (pin : List ℕ)
      → Final (cie.verify_pin pin)
      → Spends tries (card_authenticate_ex cie no_dapp_key get_first_pin role_user true pin)
  unfolding card_authenticate_ex verify_user
  user-Spends pin final =
      then-Spends tries _ _ open_session-Keeps
        λ _. costly-Spends tries (cie.verify_pin pin) verified_code (law.verifying pin) final

  reset-Keeps : (b : Bool) → Keeps tries (if b then cie.reset else return tt)
  reset-Keeps true = law.resetting
  reset-Keeps false = pure-Keeps tries tt

  attempt-Spends :
      (pin : List ℕ) (n : ℕ)
      → Final (cie.verify_pin pin)
      → Spends tries (authenticate_attempt cie no_dapp_key get_first_pin pin n)
  unfolding authenticate_attempt
  attempt-Spends pin n final =
      then-Spends tries _ _ (reset-Keeps (ltb 1 n)) λ _. user-Spends pin final

  as_try-tries :
      {A : Type 0} (r : Result (Try A) × E) (n : ℕ) → tries (r.1) ≤ n → tries ((as_try r).1) ≤ n
  as_try-tries (ok t, s) n h = h
  as_try-tries (throw e, s) n h = h

  -- The three tries of CardAuthenticateEx by cie_enable lose at most one attempt at the PIN in
  -- all, provided no call but VerifyPIN, VerifyPUK, ChangePIN and the setting of a new PIN loses
  -- one, each of these loses at most one, and no exception of VerifyPIN is one that
  -- RetryOnCardLinkError tries again.
  pub authenticate_with_retry-tries :
      (pin : List ℕ) (s : E)
      → Final (cie.verify_pin pin)
      → tries ((authenticate_with_retry cie no_dapp_key get_first_pin pin s).1) ≤ suc (tries s)
  unfolding authenticate_with_retry
  authenticate_with_retry-tries pin s final = as_try-tries _ (suc (tries s)) (
      retry_loop-tries tries (authenticate_attempt cie no_dapp_key get_first_pin pin) 3 1 s
        (λ n. attempt-Spends pin n final))

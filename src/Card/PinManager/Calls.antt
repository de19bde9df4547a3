-- ===== src/Card/PinManager/Calls.antt =====
-- A number that calls leave as it is or raise by one, for a chain of calls.
use opencie_pkcs.Base.{
  ℕ, suc, ◌+◌, ◌≤◌, ◌≡◌, refl, ap, ◌∙◌, Bool, false, Bool-cases, inl, inr, ◌==◌, arith,
}
use opencie_pkcs.Card.PinManager.{
  Try, returned, unsupported, raised, Call, and_then, ◌>>=◌, return, Search, answer, served,
  not_found, finally, next_reader,
}

-- What a search may have cost: nothing, where it goes on to the next reader.
abbrev pub allowance : Try Search → ℕ
allowance (returned (not_found b)) = 0
allowance r = 1

module _ {E : Type 0} (tries : E → ℕ) where
  unfoldable pub Keeps : {A : Type 0} → Call E A → Type 0
  Keeps m = (s : E) → tries ((m s).1) ≡ tries s

  unfoldable pub Costs : {A : Type 0} → Call E A → Type 0
  Costs m = (s : E) → tries ((m s).1) ≤ suc (tries s)

  unfoldable pub Once : Call E Search → Type 0
  Once m = (s : E) → tries ((m s).1) ≤ tries s + allowance ((m s).0)

  -- A search that keeps the number and ends there.
  unfoldable pub Last : Call E Search → Type 0
  Last m = (s : E) → (tries ((m s).1) ≡ tries s) × (allowance ((m s).0) ≡ 1)

  -- A search that may have cost one, and ends there.
  unfoldable pub Spent : Call E Search → Type 0
  Spent m = (s : E) → (tries ((m s).1) ≤ suc (tries s)) × (allowance ((m s).0) ≡ 1)

  and_then-Keeps :
      {A B : Type 0} (n : ℕ) (r : Try A × E) (f : A → Call E B)
      → tries (r.1) ≡ n
      → ((a : A) → Keeps (f a))
      → tries ((and_then r f).1) ≡ n
  unfolding Keeps Costs Once Last
  and_then-Keeps n (returned a, s) f e k = k a s ∙ e
  and_then-Keeps n (unsupported, s) f e k = e
  and_then-Keeps n (raised x, s) f e k = e

  pub bind-Keeps :
      {A B : Type 0} (m : Call E A) (f : A → Call E B)
      → Keeps m
      → ((a : A) → Keeps (f a))
      → Keeps (m >>= f)
  unfolding Keeps Costs Once Last
  bind-Keeps m f k l s = and_then-Keeps (tries s) (m s) f (k s) l

  and_then-Last :
      {A : Type 0} (n : ℕ) (r : Try A × E) (f : A → Call E Search)
      → tries (r.1) ≡ n
      → ((a : A) → Last (f a))
      → (tries ((and_then r f).1) ≡ n) × (allowance ((and_then r f).0) ≡ 1)
  unfolding Keeps Costs Once Last
  and_then-Last n (returned a, s) f e k = ((k a s).0 ∙ e, (k a s).1)
  and_then-Last n (unsupported, s) f e k = (e, refl)
  and_then-Last n (raised x, s) f e k = (e, refl)

  pub bind-Last :
      {A : Type 0} (m : Call E A) (f : A → Call E Search)
      → Keeps m
      → ((a : A) → Last (f a))
      → Last (m >>= f)
  unfolding Keeps Costs Once Last
  bind-Last m f k l s = and_then-Last (tries s) (m s) f (k s) l

  and_then-Spent :
      {A : Type 0} (n : ℕ) (r : Try A × E) (f : A → Call E Search)
      → tries (r.1) ≡ n
      → ((a : A) → Spent (f a))
      → (tries ((and_then r f).1) ≤ suc n) × (allowance ((and_then r f).0) ≡ 1)
  unfolding Keeps Costs Spent
  and_then-Spent n (returned a, s) f e k = (omega (arith, (k a s).0, e), (k a s).1)
  and_then-Spent n (unsupported, s) f e k = (omega (arith, e), refl)
  and_then-Spent n (raised x, s) f e k = (omega (arith, e), refl)

  pub bind-Spent :
      {A : Type 0} (m : Call E A) (f : A → Call E Search)
      → Keeps m
      → ((a : A) → Spent (f a))
      → Spent (m >>= f)
  unfolding Keeps Costs Spent
  bind-Spent m f k l s = and_then-Spent (tries s) (m s) f (k s) l

  costly-Last :
      {A : Type 0} (n : ℕ) (r : Try A × E) (f : A → Call E Search)
      → tries (r.1) ≤ suc n
      → ((a : A) → Last (f a))
      → (tries ((and_then r f).1) ≤ suc n) × (allowance ((and_then r f).0) ≡ 1)
  unfolding Last
  costly-Last n (returned a, s) f e k = (omega (arith, (k a s).0, e), (k a s).1)
  costly-Last n (unsupported, s) f e k = (e, refl)
  costly-Last n (raised x, s) f e k = (e, refl)

  -- A call that costs, and then a search that ends there at no cost.
  pub bind-Last-Spent :
      {A : Type 0} (m : Call E A) (f : A → Call E Search)
      → Costs m
      → ((a : A) → Last (f a))
      → Spent (m >>= f)
  unfolding Costs Last Spent
  bind-Last-Spent m f k l s = costly-Last (tries s) (m s) f (k s) l

  and_then-Once :
      {A : Type 0} (n : ℕ) (r : Try A × E) (f : A → Call E Search)
      → tries (r.1) ≡ n
      → ((a : A) → Once (f a))
      → tries ((and_then r f).1) ≤ n + allowance ((and_then r f).0)
  unfolding Keeps Costs Once Last
  and_then-Once n (returned a, s) f e k = omega (arith, k a s, e)
  and_then-Once n (unsupported, s) f e k = omega (arith, e)
  and_then-Once n (raised x, s) f e k = omega (arith, e)

  pub bind-Once :
      {A : Type 0} (m : Call E A) (f : A → Call E Search)
      → Keeps m
      → ((a : A) → Once (f a))
      → Once (m >>= f)
  unfolding Keeps Costs Once Last
  bind-Once m f k l s = and_then-Once (tries s) (m s) f (k s) l

  -- What follows a verification: on 9000, which cost nothing, it may cost one.
  and_then-verified :
      (n : ℕ) (r : Try ℕ × E) (f : ℕ → Call E Search)
      → tries (r.1) ≤ suc n
      → (r.0 ≡ returned 0x9000 → tries (r.1) ≤ n)
      → Spent (f 0x9000)
      → ((sw : ℕ) → (sw == 0x9000) ≡ false → Last (f sw))
      → tries ((and_then r f).1) ≤ n + allowance ((and_then r f).0)
  unfolding Spent Last
  and_then-verified n (returned sw, s) f e free k l = elim (Bool-cases (sw == 0x9000)) [
    | inl right ↦
        let at : sw ≡ 0x9000 = ground (arith, right) in
        let none_lost : tries s ≤ n = free (ap returned at) in
        rw at (omega (arith, none_lost, (k s).0, (k s).1))
    | inr other ↦ omega (arith, e, (l sw other s).0, (l sw other s).1)
  ]
  and_then-verified n (unsupported, s) f e free k l = omega (arith, e)
  and_then-verified n (raised x, s) f e free k l = omega (arith, e)

  pub bind-verified :
      (m : Call E ℕ) (f : ℕ → Call E Search)
      → Costs m
      → ((s : E) → (m s).0 ≡ returned 0x9000 → tries ((m s).1) ≤ tries s)
      → Spent (f 0x9000)
      → ((sw : ℕ) → (sw == 0x9000) ≡ false → Last (f sw))
      → Once (m >>= f)
  unfolding Costs Once
  bind-verified m f k free l r s = and_then-verified (tries s) (m s) f (k s) (free s) l r

  next_reader-Once :
      (n : ℕ) (r : Try Search × E) (next : Bool → Call E Search)
      → tries (r.1) ≤ n + allowance (r.0)
      → ((b : Bool) → Once (next b))
      → tries ((and_then r (next_reader next)).1)
        ≤ n + allowance ((and_then r (next_reader next)).0)
  unfolding Keeps Costs Once Last
  next_reader-Once n (returned (answer rv a), s) next e k = e
  next_reader-Once n (returned served, s) next e k = e
  next_reader-Once n (returned (not_found b), s) next e k = omega (arith, k b s, e)
  next_reader-Once n (unsupported, s) next e k = e
  next_reader-Once n (raised x, s) next e k = e

  pub bind-next_reader :
      (m : Call E Search) (next : Bool → Call E Search)
      → Once m
      → ((b : Bool) → Once (next b))
      → Once (m >>= next_reader next)
  unfolding Keeps Costs Once Last
  bind-next_reader m next k l s = next_reader-Once (tries s) (m s) next (k s) l

  pub Keeps→Once : (m : Call E Search) → Keeps m → Once m
  unfolding Keeps Costs Once Last
  Keeps→Once m k s = omega (arith, k s)

  pub Last→Once : (m : Call E Search) → Last m → Once m
  unfolding Keeps Costs Once Last
  Last→Once m k s = omega (arith, (k s).0)

  pub finally-Once :
      (close : E → E) (m : Call E Search)
      → ((s : E) → tries (close s) ≡ tries s)
      → Once m
      → Once (finally close m)
  unfolding Keeps Costs Once Last
  finally-Once close m c k s = omega (arith, c ((m s).1), k s)

  pub pure-Keeps : {A : Type 0} (a : A) → Keeps (return a)
  unfolding Keeps
  pure-Keeps a s = refl

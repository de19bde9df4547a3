-- ===== src/P11/State/Monad.antt =====
-- A method of the module: it may throw, and what it did to the state before stays.
use opencie_pkcs.Base.{
  ℕ, Bool, true, false, ◌==◌, if◌then◌else◌, Result, ok, throw, Exception, crash, Option, none,
  some,
}
use opencie_pkcs.Base.Map
use opencie_pkcs.P11.State.{World, Slot, P11Object, Session}

abbrev pub M : Type 0 → Type 0 → Type 0
M E A = World E → Result A × World E

abbrev pub after : {E A B : Type 0} → Result A × World E → (A → M E B) → Result B × World E
after (ok a, w) f = f a w
after (throw e, w) f = (throw e, w)

infixl 5 ◌>>=◌ ◌>>◌
abbrev pub ◌>>=◌ : {E A B : Type 0} → M E A → (A → M E B) → M E B
◌>>=◌ m f w = after (m w) f

abbrev pub ◌>>◌ : {E B : Type 0} → M E (Unit {0}) → M E B → M E B
◌>>◌ m k w = after (m w) (λ _. k)

abbrev pub return : {E A : Type 0} → A → M E A
return a w = (ok a, w)

abbrev pub fail : {E A : Type 0} → Exception → M E A
fail e w = (throw e, w)

abbrev pub guard_not : {E : Type 0} → Bool → Exception → M E (Unit {0})
guard_not true e w = (throw e, w)
guard_not false e w = (ok tt, w)

-- try { m } catch (...) { handler }
abbrev pub caught : {E A : Type 0} → Result A × World E → (Exception → M E A) → Result A × World E
caught (ok a, w) handler = (ok a, w)
caught (throw e, w) handler = handler e w

abbrev pub try_catch : {E A : Type 0} → M E A → (Exception → M E A) → M E A
try_catch m handler w = caught (m w) handler

abbrev pub update {ℓ} : {A : Type ℓ} → (ℕ → A) → ℕ → A → ℕ → A
update f k v j = if k == j then v else f j

abbrev pub get_slot : {E : Type 0} → ℕ → M E Slot
get_slot s w = (ok (w.slots s), w)

abbrev pub set_slot : {E : Type 0} → ℕ → Slot → M E (Unit {0})
set_slot s v w = (ok tt, record w { slots = update w.slots s v })

abbrev pub held : {A : Type 0} → Option A → Result A
held none = throw crash
held (some v) = ok v

-- The session that a handle stands for, whose object the caller holds.
abbrev pub get_session : {E : Type 0} → ℕ → M E Session
get_session h w = (held (Map.find h w.sessions), w)

abbrev pub put_session : {E : Type 0} → ℕ → Session → M E (Unit {0})
put_session h v w = (ok tt, record w { sessions = Map.assign h v w.sessions })

-- A computation that touches no state.
abbrev pub lift : {E A : Type 0} → Result A → M E A
lift r w = (r, w)

abbrev pub get_object : {E : Type 0} → ℕ → M E P11Object
get_object o w = (ok (w.objects o), w)

abbrev pub set_object : {E : Type 0} → ℕ → P11Object → M E (Unit {0})
set_object o v w = (ok tt, record w { objects = update w.objects o v })

-- What the template does to `env`.
abbrev pub run_env : {E A : Type 0} → Result A × E → World E → Result A × World E
run_env (r, e) w = (r, record w { env = e })

abbrev pub on_env : {E A : Type 0} → (E → Result A × E) → M E A
on_env f w = run_env (f w.env) w

-- A call through `pTemplate` of the slot `s`, which may be null.
abbrev pub template_call : {E A : Type 0} → ℕ → (E → Result A × E) → M E A
template_call s f = get_slot s >>= λ sl. if sl.has_template then on_env f else fail crash

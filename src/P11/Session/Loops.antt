-- ===== src/P11/Session/Loops.antt =====
-- What the loops of Logout and AddP11Object leave alone.
use opencie_pkcs.Base.{
  ℕ, ◌≡◌, refl, ap, ◌∙◌, List, [], ◌∷◌, Bool, true, false, Result, ok, throw, arith, if◌then◌else◌,
  Bool-cases, inl, inr,
}
use opencie_pkcs.P11.State.{World, Slot, P11Object, CardTemplate}
use opencie_pkcs.P11.State.Monad.{M, after, template_call}
use opencie_pkcs.P11.State.Frames.{SameTables}
use opencie_pkcs.P11.Object.{is_private}
use opencie_pkcs.P11.Object.Frame.{is_private-SameTables}
use opencie_pkcs.P11.Slot.{forget_handle, del_object_handle, add_p11_object, add_p11_objects}
use opencie_pkcs.P11.Constants.{cku_nobody}
use opencie_pkcs.P11.Session.{forget_private, forget_if_private, logout, set_user}

-- The sessions, their numbers and the templates are as they were.
pub record SameSessions {E : Type 0} (w w' : World E) : Type 0 where
  pub sessions : w'.sessions ≡ w.sessions
  pub session_cnt : w'.session_cnt ≡ w.session_cnt
  pub count : (s : ℕ) → (w'.slots s).session_count ≡ (w.slots s).session_count
  pub has_template : (s : ℕ) → (w'.slots s).has_template ≡ (w.slots s).has_template
  pub updated : (s : ℕ) → (w'.slots s).updated ≡ (w.slots s).updated

pub SameSessions-refl : {E : Type 0} (w : World E) → SameSessions w w
SameSessions-refl w = record {
  sessions = refl;
  session_cnt = refl;
  count = λ s. refl;
  has_template = λ s. refl;
  updated = λ s. refl;
}

pub SameSessions-trans :
    {E : Type 0} {u v w : World E} → SameSessions u v → SameSessions v w → SameSessions u w
SameSessions-trans p q = record {
  sessions = q.sessions ∙ p.sessions;
  session_cnt = q.session_cnt ∙ p.session_cnt;
  count = λ s. q.count s ∙ p.count s;
  has_template = λ s. q.has_template s ∙ p.has_template s;
  updated = λ s. q.updated s ∙ p.updated s;
}

of_tables : {E : Type 0} {w w' : World E} → SameTables w w' → SameSessions w w'
of_tables {w = w} {w' = w'} t = record {
  sessions = t.sessions;
  session_cnt = t.session_cnt;
  count = λ s. ap (λ (f : ℕ → Slot). (f s).session_count) t.slots;
  has_template = λ s. ap (λ (f : ℕ → Slot). (f s).has_template) t.slots;
  updated = λ s. ap (λ (f : ℕ → Slot). (f s).updated) t.slots;
}

-- A chain of two steps.
pub SameSessions-after :
    {E A B : Type 0} (w : World E) (r : Result A × World E) (f : A → M E B)
    → SameSessions w r.1
    → ((a : A) (u : World E) → SameSessions u (f a u).1)
    → SameSessions w (after r f).1
SameSessions-after w (ok a, u) f p q = SameSessions-trans p (q a u)
SameSessions-after w (throw e, u) f p q = p

add_p11_object-SameSessions :
    {E : Type 0} (s : ℕ) (o : P11Object) (w : World E) → SameSessions w (add_p11_object s o w).1
unfolding add_p11_object
add_p11_object-SameSessions s o w = record {
  sessions = refl;
  session_cnt = refl;
  count = λ t. ground arith;
  has_template = λ t. ground arith;
  updated = λ t. ground arith;
}

pub add_p11_objects-SameSessions :
    {E : Type 0} (s : ℕ) (os : List P11Object) (w : World E)
    → SameSessions w (add_p11_objects s os w).1
unfolding add_p11_objects
add_p11_objects-SameSessions s [] w = SameSessions-refl w
add_p11_objects-SameSessions s (o ∷ os) w =
    SameSessions-after w (add_p11_object s o w) (λ _. add_p11_objects s os)
      (add_p11_object-SameSessions s o w) (λ a u. add_p11_objects-SameSessions s os u)

del_object_handle-SameSessions :
    {E : Type 0} (s o : ℕ) (w : World E) → SameSessions w (del_object_handle s o w).1
unfolding del_object_handle forget_handle
del_object_handle-SameSessions s o w = record {
  sessions = refl;
  session_cnt = refl;
  count = λ t. ground arith;
  has_template = λ t. ground arith;
  updated = λ t. ground arith;
}

pub set_user-SameSessions :
    {E : Type 0} (s user : ℕ) (w : World E) → SameSessions w (set_user s user w).1
unfolding set_user
set_user-SameSessions s user w = record {
  sessions = refl;
  session_cnt = refl;
  count = λ t. ground arith;
  has_template = λ t. ground arith;
  updated = λ t. ground arith;
}

pub template_call-SameSessions :
    {E A : Type 0} (s : ℕ) (f : E → Result A × E) (w : World E)
    → SameSessions w (template_call s f w).1
template_call-SameSessions s f w = elim (Bool-cases (w.slots s).has_template) [
  | inl e ↦ rw e (record {
    sessions = refl;
    session_cnt = refl;
    count = λ t. refl;
    has_template = λ t. refl;
    updated = λ t. refl;
  })
  | inr e ↦ rw e (SameSessions-refl w)
]

module _ {E : Type 0} (tpl : CardTemplate E) where
  forget_if :
      (s o : ℕ) (p : Bool) (u : World E)
      → SameSessions u ((if p then del_object_handle s o else (λ w. (ok tt, w))) u).1
  forget_if s o true u = del_object_handle-SameSessions s o u
  forget_if s o false u = SameSessions-refl u

  pub forget_private-SameSessions :
      (s : ℕ) (os : List ℕ) (w : World E) → SameSessions w (forget_private tpl s os w).1
  unfolding forget_private forget_if_private
  forget_private-SameSessions s [] w = SameSessions-refl w
  forget_private-SameSessions s (o ∷ os) w =
      SameSessions-after w _ _
        (SameSessions-after w (is_private tpl o w) _ (of_tables (is_private-SameTables tpl o w))
          (λ p u. forget_if s o p u))
        (λ a u. forget_private-SameSessions s os u)

  pub logout-SameSessions : (s : ℕ) (w : World E) → SameSessions w (logout tpl s w).1
  unfolding logout
  logout-SameSessions s w =
      SameSessions-after w (template_call s (tpl.logout s (w.slots s).user) w) _
        (template_call-SameSessions s (tpl.logout s (w.slots s).user) w)
        (λ a u.
          SameSessions-after u (forget_private tpl s (u.slots s).p11_objects u)
            (λ _. set_user s cku_nobody) (forget_private-SameSessions s (u.slots s).p11_objects u)
            (λ b x. set_user-SameSessions s cku_nobody x))

-- ===== src/P11/Session/Logout.antt =====
-- What Login and Logout do to the user and to the handles of private objects.
use opencie_pkcs.Base.{
  ℕ, ◌≡◌, List, [], ◌∷◌, Bool, true, false, Result, ok, throw, arith, ◌==◌, if◌then◌else◌, none,
  some, Bool-cases, inl, inr, Exception, ◌&&◌, ◌≢◌, refl,
}
use opencie_pkcs.Base.Map.{find, find-erase}
use opencie_pkcs.P11.Constants.{cku_nobody, cku_so, cka_private}
use opencie_pkcs.P11.State.{World, P11Object, CardTemplate, Slot}
use opencie_pkcs.P11.State.Monad.{after, return}
use opencie_pkcs.P11.Object.{is_private, get_attribute}
use opencie_pkcs.P11.Object.Frame.{is_private-SameTables}
use opencie_pkcs.P11.Slot.{forget_handle, del_object_handle, object_of}
use opencie_pkcs.P11.Slot.Handles.{HandlesValid, forget_handle-HandlesValid}
use opencie_pkcs.P11.Session.{
  login, login_refused, logout, forget_private, forget_if_private, set_user, exists_ro, is_member,
}

-- The object's CKA_PRIVATE has been read, and is CK_TRUE.
abbrev pub IsPrivate : P11Object → Type 0
IsPrivate obj = find cka_private obj.attributes ≡ some (1 ∷ [])

module _ {E : Type 0} (tpl : CardTemplate E) where
  is_private-IsPrivate :
      (o : ℕ) (w : World E) → IsPrivate (w.objects o) → is_private tpl o w ≡ (ok true, w)
  unfolding is_private get_attribute
  is_private-IsPrivate o w p = ground arith

  is_private-keeps :
      (o o' : ℕ) (w : World E)
      → IsPrivate (w.objects o)
      → IsPrivate ((is_private tpl o' w).1.objects o)
  unfolding is_private get_attribute
  is_private-keeps o o' w p = ground arith

  del_step-IsPrivate :
      (s o o' : ℕ) (r : Result Bool × World E)
      → IsPrivate (r.1.objects o)
      → IsPrivate ((after r (λ p. if p then del_object_handle s o' else return tt)).1.objects o)
  unfolding del_object_handle
  del_step-IsPrivate s o o' (ok true, u) p = p
  del_step-IsPrivate s o o' (ok false, u) p = p
  del_step-IsPrivate s o o' (throw e, u) p = p

  del_object_handle-keeps :
      (s o o' : ℕ) (u : World E)
      → find o (u.slots s).obj_p11_map ≡ none
      → find o ((del_object_handle s o' u).1.slots s).obj_p11_map ≡ none
  unfolding del_object_handle forget_handle
  del_object_handle-keeps s o o' u e = ground (arith, find-erase o' o (u.slots s).obj_p11_map)

  del_object_handle-forgets :
      (s o : ℕ) (u : World E) → find o ((del_object_handle s o u).1.slots s).obj_p11_map ≡ none
  unfolding del_object_handle forget_handle
  del_object_handle-forgets s o u = ground (arith, find-erase o o (u.slots s).obj_p11_map)

  del_step-keeps :
      (s o o' : ℕ) (r : Result Bool × World E)
      → find o (r.1.slots s).obj_p11_map ≡ none
      → find o
          ((after r (λ p. if p then del_object_handle s o' else return tt)).1.slots s).obj_p11_map
        ≡ none
  del_step-keeps s o o' (ok true, u) p = del_object_handle-keeps s o o' u p
  del_step-keeps s o o' (ok false, u) p = p
  del_step-keeps s o o' (throw e, u) p = p

  forget_if_private-IsPrivate :
      (s o o' : ℕ) (w : World E)
      → IsPrivate (w.objects o)
      → IsPrivate ((forget_if_private tpl s o' w).1.objects o)
  unfolding forget_if_private
  forget_if_private-IsPrivate s o o' w p =
      del_step-IsPrivate s o o' (is_private tpl o' w) (is_private-keeps o o' w p)

  forget_if_private-forgets :
      (s o : ℕ) (w : World E)
      → IsPrivate (w.objects o)
      → find o ((forget_if_private tpl s o w).1.slots s).obj_p11_map ≡ none
  unfolding forget_if_private
  forget_if_private-forgets s o w p =
      rw (is_private-IsPrivate o w p) (del_object_handle-forgets s o w)

  forget_if_private-keeps :
      (s o o' : ℕ) (w : World E)
      → find o (w.slots s).obj_p11_map ≡ none
      → find o ((forget_if_private tpl s o' w).1.slots s).obj_p11_map ≡ none
  unfolding forget_if_private
  forget_if_private-keeps s o o' w e =
      del_step-keeps s o o' (is_private tpl o' w) (rw (is_private-SameTables tpl o' w).slots e)

  forget_private-keeps :
      (s o : ℕ) (os : List ℕ) (w : World E)
      → find o (w.slots s).obj_p11_map ≡ none
      → find o ((forget_private tpl s os w).1.slots s).obj_p11_map ≡ none
  unfolding forget_private
  forget_private-keeps s o [] w e = e
  forget_private-keeps s o (o' ∷ os) w e = ground (
    arith,
    forget_if_private-keeps s o o' w e,
    forget_private-keeps s o os (forget_if_private tpl s o' w).1,
  )

  forget_private-forgets :
      (s o : ℕ) (os : List ℕ) (w : World E)
      → IsPrivate (w.objects o)
      → is_member o os ≡ true
      → (forget_private tpl s os w).0 ≡ ok tt
      → find o ((forget_private tpl s os w).1.slots s).obj_p11_map ≡ none
  unfolding forget_private is_member
  forget_private-forgets s o [] w p m e = absurd cc
  forget_private-forgets s o (o' ∷ os) w p m e = elim (Bool-cases (o' == o)) [
    | inl q ↦ ground (
      arith,
      q,
      forget_if_private-forgets s o w p,
      forget_private-keeps s o os (forget_if_private tpl s o' w).1,
    )
    | inr q ↦ ground (
      arith,
      q,
      forget_if_private-IsPrivate s o o' w p,
      forget_private-forgets s o os (forget_if_private tpl s o' w).1,
    )
  ]

  del_object_handle-HandlesValid :
      (s o' : ℕ) (u : World E)
      → HandlesValid (u.slots s)
      → HandlesValid ((del_object_handle s o' u).1.slots s)
  unfolding del_object_handle
  del_object_handle-HandlesValid s o' u v =
      let same : (s == s) ≡ true = ground arith in
      rw same (forget_handle-HandlesValid (u.slots s) o' v)

  del_step-HandlesValid :
      (s o' : ℕ) (r : Result Bool × World E)
      → HandlesValid (r.1.slots s)
      → HandlesValid ((after r (λ p. if p then del_object_handle s o' else return tt)).1.slots s)
  del_step-HandlesValid s o' (ok true, u) v = del_object_handle-HandlesValid s o' u v
  del_step-HandlesValid s o' (ok false, u) v = v
  del_step-HandlesValid s o' (throw e, u) v = v

  forget_if_private-HandlesValid :
      (s o' : ℕ) (w : World E)
      → HandlesValid (w.slots s)
      → HandlesValid ((forget_if_private tpl s o' w).1.slots s)
  unfolding forget_if_private
  forget_if_private-HandlesValid s o' w v =
      del_step-HandlesValid s o' (is_private tpl o' w) (rw (is_private-SameTables tpl o' w).slots v)

  then-HandlesValid :
      (s : ℕ) (r : Result (Unit {0}) × World E) (f : World E → Result (Unit {0}) × World E)
      → HandlesValid (r.1.slots s)
      → ((u : World E) → HandlesValid (u.slots s) → HandlesValid ((f u).1.slots s))
      → HandlesValid ((after r (λ _. f)).1.slots s)
  then-HandlesValid s (ok tt, u) f v k = k u v
  then-HandlesValid s (throw e, u) f v k = v

  forget_private-HandlesValid :
      (s : ℕ) (os : List ℕ) (w : World E)
      → HandlesValid (w.slots s)
      → HandlesValid ((forget_private tpl s os w).1.slots s)
  unfolding forget_private
  forget_private-HandlesValid s [] w v = v
  forget_private-HandlesValid s (o' ∷ os) w v =
      then-HandlesValid s (forget_if_private tpl s o' w) (forget_private tpl s os)
        (forget_if_private-HandlesValid s o' w v) (forget_private-HandlesValid s os)

  -- Login returns only where nobody was logged in to the slot, and for the security officer only
  -- where the slot has no read-only session. The slot's user is then the one asked for.
  pub login_lem :
      (s user : ℕ) (pin : List ℕ) (w : World E)
      → (login tpl s user pin w).0 ≡ ok tt
      → ((w.slots s).user ≡ cku_nobody)
        × (((user == cku_so && exists_ro s w) ≡ false)
            × (((login tpl s user pin w).1.slots s).user ≡ user))
  unfolding login login_refused set_user
  login_lem s user pin w e = ground arith

  -- When Login throws, no slot has changed.
  login-fails :
      (s user : ℕ) (pin : List ℕ) (w : World E) (e : Exception)
      → (login tpl s user pin w).0 ≡ throw e
      → (login tpl s user pin w).1.slots ≡ w.slots
  unfolding login login_refused set_user
  login-fails s user pin w x e = ground arith

  -- What an object without a handle in one map means for the other.
  unreachable :
      (sl : Slot) (o : ℕ)
      → HandlesValid sl
      → find o sl.obj_p11_map ≡ none
      → (h : ℕ) → object_of sl h ≢ some o
  unfolding object_of
  unreachable sl o v e h q = let back = v.back h o q in absurd (ground (arith, e, back))

  -- The last step of Logout.
  nobody_lem :
      (s o : ℕ) (r : Result (Unit {0}) × World E)
      → HandlesValid (r.1.slots s)
      → (r.0 ≡ ok tt → find o (r.1.slots s).obj_p11_map ≡ none)
      → (after r (λ _. set_user s cku_nobody)).0 ≡ ok tt
      → (((after r (λ _. set_user s cku_nobody)).1.slots s).user ≡ cku_nobody)
        × ((find o ((after r (λ _. set_user s cku_nobody)).1.slots s).obj_p11_map ≡ none)
            × ((h : ℕ) → object_of ((after r (λ _. set_user s cku_nobody)).1.slots s) h ≢ some o))
  unfolding set_user object_of
  nobody_lem s o (throw x, u) v k e = absurd cc
  nobody_lem s o (ok t, u) v k e =
      let same : (s == s) ≡ true = ground arith in
      rw same (refl, (k refl, unreachable (u.slots s) o v (k refl)))

  -- A Logout that returns, past the template's call.
  called_lem :
      (s : ℕ) (w : World E)
      → (logout tpl s w).0 ≡ ok tt
      → logout tpl s w
        ≡ after
            (forget_private tpl s
              (w.slots s).p11_objects
              (record w { env = (tpl.logout s (w.slots s).user w.env).1 }))
            (λ _. set_user s cku_nobody)
  unfolding logout
  called_lem s w e = ground arith

  -- After a Logout that returns, on a slot whose two handle maps are inverse, nobody is logged in
  -- to the slot, and an object of the slot whose CKA_PRIVATE had been read before as true has no
  -- handle any more: neither has the object one in ObjP11Map, nor does any handle stand for it in
  -- HandleP11Map.
  pub logout_lem :
      (s o : ℕ) (w : World E)
      → HandlesValid (w.slots s)
      → (logout tpl s w).0 ≡ ok tt
      → IsPrivate (w.objects o)
      → is_member o (w.slots s).p11_objects ≡ true
      → (((logout tpl s w).1.slots s).user ≡ cku_nobody)
        × ((find o ((logout tpl s w).1.slots s).obj_p11_map ≡ none)
            × ((h : ℕ) → object_of ((logout tpl s w).1.slots s) h ≢ some o))
  logout_lem s o w v e p m =
      let os = (w.slots s).p11_objects in
      let called = record w { env = (tpl.logout s (w.slots s).user w.env).1 } in
      let same = called_lem s w e in
      rw same (
        nobody_lem s o (forget_private tpl s os called) (forget_private-HandlesValid s os called v)
          (forget_private-forgets s o os called p m) (rw same at e))

-- ===== src/P11/Session/Keys/Checks.antt =====
-- What the Init operations make sure of.
use opencie_pkcs.Base.{
  ℕ, ◌≡◌, true, not, none, some, ◌==◌, ok, throw, p11_error, arith, Option-cases, inl, inr, ◌⊎◌,
}
use opencie_pkcs.Base.Map.{find, find-assign}
use opencie_pkcs.P11.Constants.{cko_private_key, ckr_key_handle_invalid, cka_sign}
use opencie_pkcs.P11.Mechanism.{is_rsa_mechanism, new_mechanism}
use opencie_pkcs.P11.Object.{obj_class, is_private, get_attribute}
use opencie_pkcs.P11.Object.Frame.{is_private-SameTables, get_attribute-SameTables}
use opencie_pkcs.P11.Session.Keys.{object_or, need_user, need_permit, need_key, sign_init}
use opencie_pkcs.P11.Slot.{object_of, get_object_from_id}
use opencie_pkcs.P11.State.{Session, World, CardTemplate}
use opencie_pkcs.P11.State.Frames.{SameTables, SameTables-after, SameTables-guard}

module _ {E : Type 0} (tpl : CardTemplate E) where
  pub object_or_lem :
      (s h code : ℕ) (w : World E)
      → ((object_of (w.slots s) h ≡ none)
          × (object_or tpl s h code w ≡ (throw (p11_error code), w)))
        ⊎ ((o : ℕ) × ((object_of (w.slots s) h ≡ some o) × (object_or tpl s h code w ≡ (ok o, w))))
  unfolding object_or get_object_from_id
  object_or_lem s h code w = elim (Option-cases (object_of (w.slots s) h)) [
    | inl e ↦ inl (e, ground (arith, e))
    | inr e ↦ inr (e.0, (e.1, ground (arith, e.1)))
  ]

  pub need_user-SameTables : (s o : ℕ) (w : World E) → SameTables w (need_user tpl s o w).1
  unfolding need_user
  need_user-SameTables s o w =
      SameTables-after w (is_private tpl o w) _ (is_private-SameTables tpl o w)
        (λ p u. ground arith)

  pub object_or-SameTables :
      (s h code : ℕ) (w : World E) → SameTables w (object_or tpl s h code w).1
  unfolding object_or get_object_from_id
  object_or-SameTables s h code w = ground arith

  need_permit-SameTables :
      (o permit : ℕ) (w : World E) → SameTables w (need_permit tpl o permit w).1
  unfolding need_permit
  need_permit-SameTables o permit w =
      SameTables-after w (get_attribute tpl o permit w) _ (get_attribute-SameTables tpl o permit w)
        (λ v u. ground arith)

  pub need_key-SameTables :
      (s cls permit key : ℕ) (w : World E) → SameTables w (need_key tpl s cls permit key w).1
  unfolding need_key
  need_key-SameTables s cls permit key w =
      SameTables-after w (object_or tpl s key ckr_key_handle_invalid w) _
        (object_or-SameTables s key ckr_key_handle_invalid w)
        (λ o u.
          SameTables-guard (not (obj_class (u.objects o) == cls)) (p11_error ckr_key_handle_invalid)
            _ u
            (λ x.
              SameTables-after x (need_user tpl s o x) _ (need_user-SameTables s o x)
                (λ _ y. need_permit-SameTables o permit y)))

  need_key_lem :
      (s cls permit key : ℕ) (w : World E)
      → (need_key tpl s cls permit key w).0 ≡ ok tt
      → (o : ℕ) × ((object_of (w.slots s) key ≡ some o) × (obj_class (w.objects o) ≡ cls))
  unfolding need_key
  need_key_lem s cls permit key w e = elim (object_or_lem s key 0x60 w) [
    | inl q ↦ absurd (ground (arith, q.1))
    | inr q ↦ (q.0, (q.1.0, ground (arith, q.1.1)))
  ]

  -- SignInit on a session returns only if no signature was active, the mechanism is one of the
  -- four RSA mechanisms, and the handle stands for an object of the slot of class CKO_PRIVATE_KEY.
  -- The session then has that mechanism on that handle and is otherwise as before.
  pub sign_init_lem :
      (h mechanism key : ℕ) (v : Session) (w : World E)
      → find h w.sessions ≡ some v
      → (sign_init tpl h mechanism key w).0 ≡ ok tt
      → (v.sign ≡ none)
        × ((is_rsa_mechanism mechanism ≡ true)
            × (((o : ℕ) × ((object_of (w.slots v.slot) key ≡ some o)
                    × (obj_class (w.objects o) ≡ cko_private_key)))
                × (find h (sign_init tpl h mechanism key w).1.sessions
                    ≡ some (record v { sign = some (new_mechanism mechanism key) }))))
  unfolding sign_init
  sign_init_lem h mechanism key v w e r = (
    ground (arith, e),
    (
      ground (arith, e),
      (
        need_key_lem v.slot cko_private_key cka_sign key w (ground (arith, e)),
        ground (
          arith,
          e,
          find-assign h h (record v { sign = some (new_mechanism mechanism key) })
              (need_key tpl v.slot cko_private_key cka_sign key w).1.sessions,
        ),
      ),
    ),
  )

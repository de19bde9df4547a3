-- ===== src/P11/Session/Sign/Endings.antt =====
-- How a signature ends.
use opencie_pkcs.Base.{
  ℕ, ◌≡◌, true, not, List, none, some, ◌==◌, Exception, Result, ok, throw, p11_error, logged_error,
  arith, Option-cases, Bool-cases, inl, inr, length, ltb,
}
use opencie_pkcs.Base.Map.{find, find-assign}
use opencie_pkcs.P11.Buffer.{Buffer, null_buffer, memory, left_part, copy_in}
use opencie_pkcs.P11.Constants.{
  cko_private_key, cka_modulus, ckr_key_handle_invalid, ckr_data_len_range,
}
use opencie_pkcs.P11.Mechanism.{
  sign_length, mech_sign_final, key_object, key_attribute, hash_of, less_11,
}
use opencie_pkcs.P11.Mechanism.Blocks.{Crypto}
use opencie_pkcs.P11.Object.{obj_class, get_attribute}
use opencie_pkcs.P11.Object.Frame.{get_attribute-SameTables}
use opencie_pkcs.P11.Session.Keys.{object_or, need_user}
use opencie_pkcs.P11.Session.Keys.Checks.{object_or-SameTables, need_user-SameTables}
use opencie_pkcs.P11.Session.Sign.{
  Ending, reset_after, released, released_throw, sign_key, sign_body, sign_final, finish_sign,
  ended, reset_sign,
}
use opencie_pkcs.P11.Slot.{get_object_from_id}
use opencie_pkcs.P11.State.{Session, Mechanism, World, CardTemplate}
use opencie_pkcs.P11.State.Monad.{M, after, return, lift, template_call}
use opencie_pkcs.P11.State.Frames.{
  SameTables, SameTables-refl, SameTables-after, SameTables-guard, template_call-SameTables,
}
use opencie_pkcs.Util.Array.{left}

finish_sign-SameTables :
    {E : Type 0} (bytes signature : List ℕ) (w : World E)
    → SameTables w (finish_sign (memory bytes) signature w).1
unfolding finish_sign
finish_sign-SameTables bytes signature w = ground arith

-- A body that works on memory never ends by releasing the mechanism.
abbrev IsReset : Result Ending → Type 0
IsReset (ok (reset_after out)) = Unit {0}
IsReset (ok (released out)) = ⊥
IsReset (ok (released_throw e)) = ⊥
IsReset (throw e) = Unit {0}

IsReset-after :
    {E A : Type 0} (r : Result A × World E) (f : A → M E Ending)
    → ((a : A) (u : World E) → IsReset (f a u).0)
    → IsReset (after r f).0
IsReset-after (ok a, u) f q = q a u
IsReset-after (throw e, u) f q = tt

left_part-short :
    (bytes : List ℕ) (n : ℕ)
    → ltb (length bytes) n ≡ true
    → left_part (memory bytes) n ≡ throw logged_error
unfolding left_part left
left_part-short bytes n e = ground (arith, e)

finish_sign-IsReset :
    {E : Type 0} (bytes signature : List ℕ) (w : World E)
    → IsReset (finish_sign (memory bytes) signature w).0
unfolding finish_sign
finish_sign-IsReset bytes signature w = elim (Bool-cases (ltb (length bytes) (length signature))) [
  | inl e ↦ rw (e, finish_sign, left_part-short bytes (length signature) e) tt
  | inr e ↦
      rw (e, finish_sign)
        (IsReset-after (lift (copy_in (memory bytes) signature) w) _ (λ filled u.
          IsReset-after (lift (left_part filled (length signature)) u) _ (λ part x. tt)))
]

-- The mechanism is gone at the end.
ended-reset :
    {E : Type 0} (h : ℕ) (v : Session) (r : Result Ending × World E)
    → IsReset r.0
    → find h r.1.sessions ≡ some v
    → find h (ended r (reset_sign h)).1.sessions ≡ some (record v { sign = none })
ended-reset h v (ok (reset_after out), u) q e =
    ground (arith, e, find-assign h h (record v { sign = none }) u.sessions)
ended-reset h v (ok (released out), u) q e = absurd q
ended-reset h v (ok (released_throw x), u) q e = absurd q
ended-reset h v (throw x, u) q e =
    ground (arith, e, find-assign h h (record v { sign = none }) u.sessions)

-- A length query ends by releasing the mechanism, or by an exception.
abbrev IsKept : Result Ending → Type 0
IsKept (ok (reset_after out)) = ⊥
IsKept (ok (released out)) = Unit {0}
IsKept (ok (released_throw e)) = Unit {0}
IsKept (throw e) = Unit {0}

IsKept-after :
    {E A : Type 0} (r : Result A × World E) (f : A → M E Ending)
    → ((a : A) (u : World E) → IsKept (f a u).0)
    → IsKept (after r f).0
IsKept-after (ok a, u) f q = q a u
IsKept-after (throw e, u) f q = tt

ended-kept :
    {E : Type 0} (h : ℕ) (v : Session) (out : Buffer) (r : Result Ending × World E)
    → IsKept r.0
    → find h r.1.sessions ≡ some v
    → (ended r (reset_sign h)).0 ≡ ok out
    → find h (ended r (reset_sign h)).1.sessions ≡ some v
ended-kept h v out (ok (reset_after b), u) q e = absurd q
ended-kept h v out (ok (released b), u) q e = λ k. e
ended-kept h v out (ok (released_throw x), u) q e = λ k. e
ended-kept h v out (throw x, u) q e = λ k. absurd (ground (arith, e))

module _ {E : Type 0} (tpl : CardTemplate E) (crypto : Crypto) where
  sign_key-SameTables : (s key : ℕ) (w : World E) → SameTables w (sign_key tpl crypto s key w).1
  unfolding sign_key
  sign_key-SameTables s key w =
      SameTables-after w (object_or tpl s key ckr_key_handle_invalid w) _
        (object_or-SameTables tpl s key ckr_key_handle_invalid w)
        (λ o u.
          SameTables-guard (not (obj_class (u.objects o) == cko_private_key))
            (p11_error ckr_key_handle_invalid) _ u
            (λ x.
              SameTables-after x (need_user tpl s o x) (λ _. return o)
                (need_user-SameTables tpl s o x) (λ _ y. SameTables-refl y)))

  key_object-SameTables :
      (s cls key : ℕ) (w : World E) → SameTables w (key_object tpl crypto s cls key w).1
  unfolding key_object get_object_from_id
  key_object-SameTables s cls key w = ground arith

  key_attribute-SameTables :
      (o type : ℕ) (e : Exception) (w : World E)
      → SameTables w (key_attribute tpl crypto o type e w).1
  unfolding key_attribute
  key_attribute-SameTables o type e w =
      SameTables-after w (get_attribute tpl o type w) _ (get_attribute-SameTables tpl o type w)
        (λ v u. ground arith)

  sign_length-SameTables :
      (s : ℕ) (m : Mechanism) (w : World E) → SameTables w (sign_length tpl crypto s m w).1
  unfolding sign_length
  sign_length-SameTables s m w =
      SameTables-after w (key_object tpl crypto s cko_private_key m.h_key w) _
        (key_object-SameTables s cko_private_key m.h_key w)
        (λ o u.
          SameTables-after u (key_attribute tpl crypto o cka_modulus logged_error u)
            (λ modulus. return (length modulus))
            (key_attribute-SameTables o cka_modulus logged_error u) (λ a x. SameTables-refl x))

  mech_sign_final-SameTables :
      (s : ℕ) (m : Mechanism) (w : World E) → SameTables w (mech_sign_final tpl crypto s m w).1
  unfolding mech_sign_final
  mech_sign_final-SameTables s m w = elim (Option-cases (hash_of m.mt_type)) [
    | inl e ↦
        rw (e, mech_sign_final)
          (SameTables-after w (sign_length tpl crypto s m w) _ (sign_length-SameTables s m w)
            (λ n u.
              SameTables-guard (ltb (less_11 n) (length m.gathered)) (p11_error ckr_data_len_range)
                (return m.gathered) u (λ x. SameTables-refl x)))
    | inr e ↦ rw (e.1, mech_sign_final) (SameTables-refl w)
  ]

  sign_body-SameTables :
      (s : ℕ) (m : Mechanism) (out : Buffer) (w : World E)
      → SameTables w (sign_body tpl crypto s m out w).1
  unfolding sign_body
  sign_body-SameTables s m (null_buffer n) w =
      SameTables-after w (sign_key tpl crypto s m.h_key w) _ (sign_key-SameTables s m.h_key w)
        (λ o u.
          SameTables-after u (sign_length tpl crypto s m u) (λ k. return (released (null_buffer k)))
            (sign_length-SameTables s m u) (λ k x. SameTables-refl x))
  sign_body-SameTables s m (memory bytes) w =
      SameTables-after w (sign_key tpl crypto s m.h_key w) _ (sign_key-SameTables s m.h_key w)
        (λ o u.
          SameTables-after u (mech_sign_final tpl crypto s m u) _ (mech_sign_final-SameTables s m u)
            (λ b x.
              SameTables-after x (template_call s (tpl.sign_data s (x.objects o) b m.mt_type) x) _
                (template_call-SameTables s (tpl.sign_data s (x.objects o) b m.mt_type) x)
                (λ signature y. finish_sign-SameTables bytes signature y)))

  sign_body-IsReset :
      (s : ℕ) (m : Mechanism) (bytes : List ℕ) (w : World E)
      → IsReset (sign_body tpl crypto s m (memory bytes) w).0
  unfolding sign_body
  sign_body-IsReset s m bytes w = IsReset-after (sign_key tpl crypto s m.h_key w) _ (λ o u.
      IsReset-after (mech_sign_final tpl crypto s m u) _ (λ b x.
        IsReset-after (template_call s (tpl.sign_data s (x.objects o) b m.mt_type) x) _
          (λ signature y. finish_sign-IsReset bytes signature y)))

  -- A SignFinal that writes to memory ends the operation of a session that has one: afterwards the
  -- session has no mechanism for signing and is otherwise as before, whatever is returned or
  -- thrown.
  pub sign_final-memory :
      (h : ℕ) (v : Session) (m : Mechanism) (bytes : List ℕ) (w : World E)
      → find h w.sessions ≡ some v
      → v.sign ≡ some m
      → find h (sign_final tpl crypto h (memory bytes) w).1.sessions
        ≡ some (record v { sign = none })
  unfolding sign_final
  sign_final-memory h v m bytes w e f =
      rw (e, sign_final, f)
        (ended-reset h v (sign_body tpl crypto v.slot m (memory bytes) w)
          (sign_body-IsReset v.slot m bytes w)
          (rw (sign_body-SameTables v.slot m (memory bytes) w).sessions e))

  sign_final_lem :
      (h : ℕ) (out : Buffer) (v : Session) (m : Mechanism) (w : World E)
      → find h w.sessions ≡ some v
      → v.sign ≡ some m
      → sign_final tpl crypto h out w ≡ ended (sign_body tpl crypto v.slot m out w) (reset_sign h)
  unfolding sign_final
  sign_final_lem h out v m w e f = ground (arith, e, f)

  query-IsKept :
      (s : ℕ) (m : Mechanism) (n : ℕ) (w : World E)
      → IsKept (sign_body tpl crypto s m (null_buffer n) w).0
  unfolding sign_body
  query-IsKept s m n w = IsKept-after (sign_key tpl crypto s m.h_key w) _ (λ o u.
      IsKept-after (sign_length tpl crypto s m u) (λ k. return (released (null_buffer k)))
        (λ k x. tt))

  -- A SignFinal with a null buffer that returns, on a session with an active signature, leaves the
  -- session as it was.
  sign_final-null :
      (h n : ℕ) (out : Buffer) (v : Session) (m : Mechanism) (w : World E)
      → find h w.sessions ≡ some v
      → v.sign ≡ some m
      → (sign_final tpl crypto h (null_buffer n) w).0 ≡ ok out
      → find h (sign_final tpl crypto h (null_buffer n) w).1.sessions ≡ some v
  sign_final-null h n out v m w e f = rw (sign_final_lem h (null_buffer n) v m w e f) (
      ended-kept h v out (sign_body tpl crypto v.slot m (null_buffer n) w)
        (query-IsKept v.slot m n w)
        (rw (sign_body-SameTables v.slot m (null_buffer n) w).sessions e))

-- ===== src/P11/Functions/Outcomes.antt =====
-- What an application learns from the return values.
use opencie_pkcs.Base.{◌&&◌, ◌==◌, ℕ, ◌≡◌, ◌⊎◌, false, List, some, arith}
use opencie_pkcs.Base.Map.{find}
use opencie_pkcs.P11.Constants.{cku_so, cku_user, cku_nobody, ckr_ok}
use opencie_pkcs.P11.Functions.{returned, answer_of, pkcs11_guard, c_login}
use opencie_pkcs.P11.Session.{exists_ro}
use opencie_pkcs.P11.Session.Logout.{login_lem}
use opencie_pkcs.P11.State.{Session, World, CardTemplate}

module _ {E : Type 0} (tpl : CardTemplate E) where
  -- When C_Login on a handle of a session answers CKR_OK, the user type is CKU_SO or CKU_USER,
  -- nobody was logged in to the slot, the slot had no read-only session if the type is CKU_SO, and
  -- the slot's user is now the one asked for.
  pub c_login_lem :
      (h user_type : ℕ) (pin : List ℕ) (v : Session) (w : World E)
      → find h w.sessions ≡ some v
      → (c_login tpl h user_type pin w).0 ≡ returned ckr_ok (some tt)
      → ((user_type ≡ cku_so) ⊎ (user_type ≡ cku_user))
        × (((w.slots v.slot).user ≡ cku_nobody)
            × (((user_type == cku_so && exists_ro v.slot w) ≡ false)
                × (((c_login tpl h user_type pin w).1.slots v.slot).user ≡ user_type)))
  unfolding c_login pkcs11_guard answer_of
  c_login_lem h user_type pin v w e r = ground (arith, e, r, login_lem tpl v.slot user_type pin w)

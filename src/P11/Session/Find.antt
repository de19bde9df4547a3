-- ===== src/P11/Session/Find.antt =====
-- pkcs11/src/pkcs11/session.cpp: FindObjectsInit, FindObjects and FindObjectsFinal. `findResult` is
-- filled at its end and emptied from its end.
pub mod Pages
pub mod Drain
use opencie_pkcs.Base.{
  ℕ, zero, suc, ◌+◌, ◌≡◌, Bool, true, false, not, ◌&&◌, List, [], ◌∷◌, ◌++◌, Option, none, some,
  ◌==◌, if◌then◌else◌, Result, ok, throw, Exception, p11_error, scard_error, card_link_error,
  windows_error, logged_error, crash, length, ltb,
}
use opencie_pkcs.P11.Constants.{
  ckr_operation_active, ckr_operation_not_initialized, ckr_user_not_logged_in,
}
use opencie_pkcs.P11.State.{Session, World, CardTemplate}
use opencie_pkcs.P11.State.Monad.{
  M, ◌>>=◌, ◌>>◌, return, fail, guard_not, after, caught, try_catch, get_slot, get_session,
  put_session,
}
use opencie_pkcs.P11.Object.{Attribute, get_attribute}
use opencie_pkcs.P11.Slot.{get_id_from_object}
use opencie_pkcs.Util.Array.{equal}

abbrev is_not_logged_in : Exception → Bool
is_not_logged_in (p11_error n) = n == ckr_user_not_logged_in
is_not_logged_in e = false

-- catch (p11_error &err) { if (code != CKR_USER_NOT_LOGGED_IN) throw; }
abbrev or_not_logged_in : {E A : Type 0} → A → M E A → M E A
or_not_logged_in a m = try_catch m (λ e. if is_not_logged_in e then return a else fail e)

-- The sizes and then the bytes, which `memcmp` reads behind `pValue`.
abbrev compare_value : {E : Type 0} → Option (List ℕ) → Attribute → M E Bool
compare_value none a = return false
compare_value (some bytes) a =
    if not (length bytes == a.value_len)
    then return false
    else if ltb 0 a.value_len && a.null_value
    then fail crash
    else return (equal bytes a.value)

module _ {E : Type 0} (tpl : CardTemplate E) where
  -- The loop over the template of the search; it stops at the first attribute that differs.
  unfoldable pub matches : ℕ → List Attribute → M E Bool
  matches o [] = return true
  matches o (a ∷ template) =
      let rest : M E Bool = matches o template in
      or_not_logged_in false (get_attribute tpl o a.type >>= λ v. compare_value v a) >>= λ same.
      if same then rest else return false

  unfoldable pub push_result : ℕ → ℕ → M E (Unit {0})
  push_result h id =
      get_session h >>= λ v. put_session h (record v { find_result = v.find_result ++ (id ∷ []) })

  -- One object of the search.
  unfoldable pub find_one : ℕ → ℕ → List Attribute → ℕ → M E (Unit {0})
  unfolding matches push_result
  find_one h s template o = matches o template >>= λ same.
      if same
      then or_not_logged_in tt (get_id_from_object tpl s o >>= λ id. push_result h id)
      else return tt

  unfoldable pub find_all : ℕ → ℕ → List Attribute → List ℕ → M E (Unit {0})
  unfolding find_one
  find_all h s template [] = return tt
  find_all h s template (o ∷ os) = find_one h s template o >> find_all h s template os

  -- FindObjectsInit. With no template every object matches, as the first loop of the code has it.
  unfoldable pub find_objects_init : ℕ → List Attribute → M E (Unit {0})
  unfolding find_all
  find_objects_init h template = get_session h >>= λ v.
      guard_not v.find_init (p11_error ckr_operation_active)
      >> (put_session h (record v { find_result = [] })
          >> (get_slot v.slot >>= λ sl.
              find_all h v.slot template sl.p11_objects
              >> (get_session h >>= λ v1. put_session h (record v1 { find_init = true }))))

-- `back` and `pop_back`.
unfoldable pub split_last : List ℕ → Option (List ℕ × ℕ)
split_last [] = none
split_last (x ∷ xs) = elim (split_last xs) [
  | none ↦ some ([], x)
  | some (front, last) ↦ some (x ∷ front, last)
]

-- The loop of FindObjects: the handles it writes to `phObject`, and what is left.
unfoldable pub take_results : ℕ → List ℕ → List ℕ × List ℕ
unfolding split_last
take_results zero results = ([], results)
take_results (suc n) results = elim (split_last results) [
  | none ↦ ([], results)
  | some (front, last) ↦ let rest = take_results n front in (last ∷ rest.0, rest.1)
]

module _ {E : Type 0} where
  unfoldable pub find_objects : ℕ → ℕ → M E (List ℕ)
  unfolding take_results
  find_objects h max = get_session h >>= λ v.
      guard_not (not v.find_init) (p11_error ckr_operation_not_initialized)
      >> (put_session h (record v { find_result = (take_results max v.find_result).1 })
          >> return (take_results max v.find_result).0)

  unfoldable pub find_objects_final : ℕ → M E (Unit {0})
  find_objects_final h = get_session h >>= λ v.
      guard_not (not v.find_init) (p11_error ckr_operation_not_initialized)
      >> put_session h (record v { find_init = false; find_result = [] })

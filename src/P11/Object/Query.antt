-- ===== src/P11/Object/Query.antt =====
-- CP11Object::GetAttributeValue.
use opencie_pkcs.Base.{
  ℕ, Bool, true, false, ◌||◌, List, [], ◌∷◌, Option, none, some, ltb, if◌then◌else◌, length,
}
use opencie_pkcs.P11.Constants.{
  ck_unavailable_information, ckr_ok, ckr_attribute_type_invalid, ckr_buffer_too_small,
}
use opencie_pkcs.P11.State.{CardTemplate}
use opencie_pkcs.P11.State.Monad.{M, ◌>>=◌, return}
use opencie_pkcs.P11.Object.{Attribute, get_attribute}
use opencie_pkcs.Util.Array.{overwrite}

-- The entry as the loop leaves it, `attribInvalid`, and `bufferTooSmall`.
unfoldable pub answer : Attribute → Option (List ℕ) → Attribute × Bool × Bool
answer a none = (record a { value_len = ck_unavailable_information }, true, false)
answer a (some bytes) =
    if a.null_value
    then (record a { value_len = length bytes }, false, false)
    else if ltb a.value_len (length bytes)
    then (record a { value_len = ck_unavailable_information }, false, true)
    else (record a { value = overwrite a.value 0 bytes; value_len = length bytes }, false, false)

module _ {E : Type 0} (tpl : CardTemplate E) where
  unfoldable pub answer_all : ℕ → List Attribute → M E (List Attribute × Bool × Bool)
  unfolding answer
  answer_all o [] = return ([], false, false)
  answer_all o (a ∷ rest) = get_attribute tpl o a.type >>= λ v. answer_all o rest >>= λ r.
      let here = answer a v in return (here.0 ∷ r.0, here.1 || r.1, here.2 || r.2)

  unfoldable pub get_attribute_value : ℕ → List Attribute → M E (ℕ × List Attribute)
  unfolding answer_all
  get_attribute_value o template = answer_all o template >>= λ r. return (
    if r.1 then ckr_attribute_type_invalid else if r.2 then ckr_buffer_too_small else ckr_ok,
    r.0,
  )

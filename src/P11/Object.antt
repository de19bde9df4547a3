-- ===== src/P11/Object.antt =====
-- pkcs11/src/pkcs11/p11_object.h and p11_object.cpp: attributes, which an object reads from the
-- card when they are first asked for.
pub mod Query
pub mod Frame
use opencie_pkcs.Base.{
  ℕ, ◌≡◌, Bool, true, false, not, ◌||◌, ◌&&◌, List, [], ◌∷◌, Option, none, some, ◌==◌,
  if◌then◌else◌, is_some, Result, ok, throw, p11_error, crash, length, to_bytes,
}
use opencie_pkcs.Base.Map.{Map, find, assign}
use opencie_pkcs.P11.Constants.{
  cka_class, cka_private, cka_prime_1, cka_prime_2, cka_exponent_1, cka_exponent_2, cka_coefficient,
  cko_data, cko_certificate, cko_public_key, cko_private_key, ckr_attribute_sensitive,
}
use opencie_pkcs.P11.State.{
  Kind, plain, certificate, data_object, public_key, private_key, P11Object, World, CardTemplate,
}
use opencie_pkcs.P11.State.Monad.{
  M, ◌>>=◌, ◌>>◌, return, fail, after, get_object, set_object, template_call,
}

-- `ObjClass`, which the constructor of each subclass sets.
unfoldable pub obj_class : P11Object → ℕ
obj_class o = elim o.kind [
  | plain c ↦ c
  | certificate ↦ cko_certificate
  | data_object ↦ cko_data
  | public_key ↦ cko_public_key
  | private_key ↦ cko_private_key
]

-- The constructor, before AddP11Object sets the slot.
unfoldable pub new_object : Kind → P11Object
unfolding obj_class
new_object k =
    let bare : P11Object = record { kind = k; read_value = false; slot = 0; attributes = [] } in
    record bare { attributes = assign cka_class (to_bytes 8 (obj_class bare)) [] }

unfoldable pub add_attribute : ℕ → List ℕ → P11Object → P11Object
add_attribute type bytes o = record o { attributes = assign type bytes o.attributes }

abbrev sensitive : ℕ → Bool
sensitive t =
    t == cka_prime_1
    || t == cka_prime_2
    || t == cka_exponent_1
    || t == cka_exponent_2
    || t == cka_coefficient

-- A CK_ATTRIBUTE: `value` is the memory behind `pValue`.
pub record Attribute : Type 0 where
  pub type : ℕ
  pub null_value : Bool
  pub value : List ℕ
  pub value_len : ℕ

abbrev add_all : List Attribute → P11Object → P11Object
add_all [] o = o
add_all (a ∷ rest) o = add_all rest (add_attribute a.type a.value o)

-- SetAttributes, with the overrides of CP11Certificate and CP11Data.
unfoldable pub set_attributes : List Attribute → P11Object → P11Object
unfolding add_attribute
set_attributes template o =
    let o' = add_all template o in
    elim o.kind [
      | certificate ↦ record o' { read_value = true }
      | data_object ↦ record o' { read_value = true }
      | _ ↦ o'
    ]

module _ {E : Type 0} (tpl : CardTemplate E) where
  -- templateReadObjectAttributes on the object.
  unfoldable pub read_attributes : ℕ → M E (Unit {0})
  read_attributes o = get_object o >>= λ obj.
      template_call obj.slot (tpl.read_object_attributes obj.slot obj) >>= λ obj'. set_object o obj'

  -- The override of getAttribute that the four subclasses have in common.
  unfoldable pub lazy_attribute : ℕ → ℕ → M E (Option (List ℕ))
  unfolding read_attributes
  lazy_attribute o type = get_object o >>= λ obj.
      (if not (is_some (find type obj.attributes)) && not obj.read_value
        then read_attributes o
        else return tt)
      >> (get_object o >>= λ obj'. return (find type obj'.attributes))

  -- getAttribute, by the class of the object. `none` is the null pointer.
  unfoldable pub get_attribute : ℕ → ℕ → M E (Option (List ℕ))
  unfolding lazy_attribute
  get_attribute o type = get_object o >>= λ obj. elim obj.kind [
    | plain c ↦ return (find type obj.attributes)
    | private_key ↦
        if sensitive type then fail (p11_error ckr_attribute_sensitive) else lazy_attribute o type
    | _ ↦ lazy_attribute o type
  ]

  -- ByteArrayToVar(value, CK_BBOOL)
  abbrev pub to_bbool : List ℕ → M E ℕ
  to_bbool [] = fail crash
  to_bbool (b ∷ bs) = return b

  unfoldable pub is_private : ℕ → M E Bool
  unfolding get_attribute
  is_private o = get_attribute o cka_private >>= λ v. elim v [
    | none ↦ return false
    | some bytes ↦ to_bbool bytes >>= λ b. return (b == 1)
  ]

-- ===== src/P11/Object/Frame.antt =====
-- What reading an attribute leaves alone.
use opencie_pkcs.Base.{ℕ, arith}
use opencie_pkcs.P11.State.{World, CardTemplate}
use opencie_pkcs.P11.State.Frames.{SameTables}
use opencie_pkcs.P11.Object.{read_attributes, lazy_attribute, get_attribute, is_private}

module _ {E : Type 0} (tpl : CardTemplate E) where
  read_attributes-SameTables : (o : ℕ) (w : World E) → SameTables w (read_attributes tpl o w).1
  unfolding read_attributes
  read_attributes-SameTables o w = ground arith

  lazy_attribute-SameTables : (o t : ℕ) (w : World E) → SameTables w (lazy_attribute tpl o t w).1
  unfolding lazy_attribute
  lazy_attribute-SameTables o t w = ground arith

  pub get_attribute-SameTables : (o t : ℕ) (w : World E) → SameTables w (get_attribute tpl o t w).1
  unfolding get_attribute
  get_attribute-SameTables o t w = ground arith

  pub is_private-SameTables : (o : ℕ) (w : World E) → SameTables w (is_private tpl o w).1
  unfolding is_private
  is_private-SameTables o w = ground arith

-- ===== src/P11/State.antt =====
-- The state of the module: the objects behind shared_ptr<CP11Object>, the CSlot objects, the
-- global maps g_mSlots and g_mSessions, bP11Initialized, and what the card template keeps. A pointer to an object
-- is a number, and so is a pointer to a slot, which is the slot's hSlot.
pub mod Monad
pub mod Frames
use opencie_pkcs.Base.{ℕ, Bool, false, List, [], Option, none, Result}
use opencie_pkcs.Base.Map.{Map}

-- The subclasses of CP11Object, and an object of the class itself.
pub data Kind : Type 0 where
  plain : ℕ → Kind
  certificate : Kind
  data_object : Kind
  public_key : Kind
  private_key : Kind

pub record P11Object : Type 0 where
  pub kind : Kind
  pub read_value : Bool
  pub slot : ℕ
  pub attributes : Map (List ℕ)

pub record Slot : Type 0 where
  pub user : ℕ
  pub session_count : ℕ
  pub updated : Bool
  pub has_template : Bool
  pub atr : List ℕ
  pub serial : List ℕ
  pub p11_objects : List ℕ
  pub p11_obj_cnt : ℕ
  pub handle_p11_map : Map ℕ
  pub obj_p11_map : Map ℕ

-- A mechanism object of an active operation: `mtType`, the key's handle, and the bytes that
-- `baSignBuffer`, `baVerifyBuffer` or the digest's `data` has gathered.
pub record Mechanism : Type 0 where
  pub mt_type : ℕ
  pub h_key : ℕ
  pub gathered : List ℕ

pub record Session : Type 0 where
  pub slot : ℕ
  pub flags : ℕ
  pub find_init : Bool
  pub find_result : List ℕ
  pub digest : Option Mechanism
  pub sign : Option Mechanism
  pub verify : Option Mechanism
  pub sign_recover : Option Mechanism
  pub verify_recover : Option Mechanism

-- `env` is what the template and the card keep.
pub record World (E : Type 0) : Type 0 where
  pub env : E
  pub objects : ℕ → P11Object
  pub next_object : ℕ
  pub slots : ℕ → Slot
  pub g_slots : List ℕ
  pub sessions : Map Session
  pub session_cnt : ℕ
  pub initialized : Bool

-- CCardTemplate::FunctionList: the functions of a card template, as far as slots and sessions call
-- them. Each works on what the template and the card keep. `read_object_attributes` and
-- `set_attribute` return the object as they leave it, and `init_session` the objects that it hands to AddP11Object.
pub record CardTemplate (E : Type 0) : Type 0 where
  pub match_card : ℕ → E → Result Bool × E
  pub init_card : ℕ → E → Result (Unit {0}) × E
  pub final_card : ℕ → E → Result (Unit {0}) × E
  pub init_session : ℕ → E → Result (List P11Object) × E
  pub final_session : ℕ → E → Result (Unit {0}) × E
  pub login : ℕ → ℕ → List ℕ → E → Result (Unit {0}) × E
  pub logout : ℕ → ℕ → E → Result (Unit {0}) × E
  pub read_object_attributes : ℕ → P11Object → E → Result P11Object × E
  pub sign_data : ℕ → P11Object → List ℕ → ℕ → E → Result (List ℕ) × E
  pub sign_recover_data : ℕ → P11Object → List ℕ → ℕ → E → Result (List ℕ) × E
  pub destroy_object : ℕ → P11Object → E → Result (Unit {0}) × E
  pub init_pin : ℕ → List ℕ → E → Result (Unit {0}) × E
  pub set_pin : ℕ → List ℕ → List ℕ → ℕ → E → Result (Unit {0}) × E
  pub set_attribute : ℕ → P11Object → List (ℕ × List ℕ) → E → Result P11Object × E
  pub generate_random : ℕ → ℕ → E → Result (List ℕ) × E
  pub get_object_size : ℕ → P11Object → E → Result ℕ × E
  pub get_model : ℕ → E → Result (Unit {0}) × E

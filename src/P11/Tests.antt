-- ===== src/P11/Tests.antt =====
-- A small module in a running state, at which the theorems on sessions are applied.
pub mod Witnesses
mod Operations
mod Searching
use opencie_pkcs.Base.{
  ℕ, zero, suc, ◌+◌, ◌≡◌, ◌≤◌, ◌<◌, refl, Bool, true, false, List, [], ◌∷◌, ◌++◌, Option, none,
  some, Result, ok, throw, replicate, arith, if◌then◌else◌, ◌==◌,
}
use opencie_pkcs.Base.Map.{Map, find}
use opencie_pkcs.P11.Constants.{
  cku_user, cku_nobody, cka_private, cka_sign, cka_modulus, cka_public_exponent, ckm_md5,
  ckm_rsa_pkcs, ckm_md5_rsa_pkcs,
}
use opencie_pkcs.P11.Mechanism.Blocks.{Crypto, Hash, sha1, sha256, md5}
use opencie_pkcs.P11.State.{
  Kind, private_key, public_key, P11Object, Slot, Mechanism, Session, World, CardTemplate,
}

-- A card that accepts everything and signs with one byte.
abbrev pub quiet_card : CardTemplate (Unit {0})
quiet_card = record {
  match_card = λ s e. (ok true, e);
  init_card = λ s e. (ok tt, e);
  final_card = λ s e. (ok tt, e);
  init_session = λ s e. (ok [], e);
  final_session = λ s e. (ok tt, e);
  login = λ s user pin e. (ok tt, e);
  logout = λ s user e. (ok tt, e);
  read_object_attributes = λ s o e. (ok o, e);
  sign_data = λ s o bytes mechanism e. (ok (7 ∷ []), e);
  sign_recover_data = λ s o bytes mechanism e. (ok (7 ∷ []), e);
  destroy_object = λ s o e. (ok tt, e);
  init_pin = λ s pin e. (ok tt, e);
  set_pin = λ s old_pin new_pin user e. (ok tt, e);
  set_attribute = λ s o template e. (ok o, e);
  generate_random = λ s n e. (ok (replicate n 4), e);
  get_object_size = λ s o e. (ok 9, e);
  get_model = λ s e. (ok tt, e);
}

-- Hashes of the right lengths, and an RSA operation that leaves the bytes as they are.
abbrev pub plain_crypto : Crypto
plain_crypto = record { digest = digest; rsa_pure = λ modulus exponent bytes. ok bytes }
  where
    digest : Hash → List ℕ → List ℕ
    digest sha1 bytes = replicate 20 9
    digest sha256 bytes = replicate 32 9
    digest md5 bytes = replicate 16 9

abbrev pub key : Kind → ℕ → P11Object
key kind n = record {
  kind = kind;
  read_value = true;
  slot = 0;
  attributes =
      (cka_private, 1 ∷ [])
      ∷ (cka_sign, 1 ∷ [])
      ∷ (cka_modulus, replicate n 7)
      ∷ (cka_public_exponent, 3 ∷ [])
      ∷ [];
}

-- Object 0 is a private key, the others are public keys of 12 and of 45 bytes.
abbrev pub objects : ℕ → P11Object
objects o =
    if o == 0 then key private_key 12 else if o == 1 then key public_key 12 else key public_key 45

abbrev pub slot_of : ℕ → ℕ → Slot
slot_of user count = record {
  user = user;
  session_count = count;
  updated = true;
  has_template = true;
  atr = [];
  serial = [];
  p11_objects = 0 ∷ 1 ∷ 2 ∷ [];
  p11_obj_cnt = 3;
  handle_p11_map = (1, 0) ∷ (2, 1) ∷ (3, 2) ∷ [];
  obj_p11_map = (0, 1) ∷ (1, 2) ∷ (2, 3) ∷ [];
}

abbrev pub plain_mechanism : Mechanism
plain_mechanism = record { mt_type = ckm_rsa_pkcs; h_key = 2; gathered = 5 ∷ [] }

abbrev pub md5_mechanism : Mechanism
md5_mechanism = record { mt_type = ckm_md5_rsa_pkcs; h_key = 3; gathered = 5 ∷ [] }

abbrev pub md5_digest : Mechanism
md5_digest = record { mt_type = ckm_md5; h_key = 0; gathered = 5 ∷ [] }

abbrev pub sign_mechanism : Mechanism
sign_mechanism = record { mt_type = ckm_rsa_pkcs; h_key = 1; gathered = 5 ∷ [] }

-- A session in the middle of a search, a digest and a signature.
abbrev pub busy : Session
busy = record {
  slot = 0;
  flags = 6;
  find_init = true;
  find_result = 1 ∷ 2 ∷ 3 ∷ [];
  digest = some md5_digest;
  sign = some sign_mechanism;
  verify = none;
  sign_recover = none;
  verify_recover = none;
}

abbrev pub idle : Session
idle = record busy { find_init = false; find_result = []; digest = none; sign = none }

-- One slot, with the session 1.
abbrev pub world : ℕ → Session → World (Unit {0})
world user v = record {
  env = tt;
  objects = objects;
  next_object = 3;
  slots = λ s. if s == 0 then slot_of user 1 else slot_of user 0;
  g_slots = 0 ∷ [];
  sessions = (1, v) ∷ [];
  session_cnt = 1;
  initialized = true;
}

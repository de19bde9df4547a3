-- ===== src/P11/Tests/Operations.antt =====
-- The theorems on signatures, verifications and digests, applied.
use opencie_pkcs.Base.{ℕ, ◌≡◌, ◌↔◌, refl, true, [], ◌∷◌, none, some, ok, arith}
use opencie_pkcs.Base.Map.{find}
use opencie_pkcs.P11.Buffer.{memory}
use opencie_pkcs.P11.Constants.{cku_user, ckm_rsa_pkcs, cko_private_key}
use opencie_pkcs.P11.Mechanism.{
  mech_verify_recover, mech_verify_final, new_mechanism, is_rsa_mechanism,
}
use opencie_pkcs.P11.Mechanism.Verifying.{verify_plain_lem}
use opencie_pkcs.P11.Object.{obj_class}
use opencie_pkcs.P11.Session.Keys.{sign_init}
use opencie_pkcs.P11.Session.Keys.Checks.{sign_init_lem}
use opencie_pkcs.P11.Session.Sign.{sign_final}
use opencie_pkcs.P11.Session.Sign.Endings.{sign_final-memory}
use opencie_pkcs.P11.Slot.{final, handle_of, forget_handle, object_of}
use opencie_pkcs.P11.Tests.{
  quiet_card, plain_crypto, world, busy, idle, slot_of, plain_mechanism, sign_mechanism,
}
use opencie_pkcs.Util.Padding.BlockType1.{block_type_1}

sign_final-memory_example :
    find 1 (sign_final quiet_card plain_crypto 1 (memory (0 ∷ [])) (world cku_user busy)).1.sessions
    ≡ some (record busy { sign = none })
unfolding find
sign_final-memory_example =
    sign_final-memory quiet_card plain_crypto 1 busy sign_mechanism (0 ∷ []) (world cku_user busy)
      refl refl

sign_init_lem_example :
    (idle.sign ≡ none)
    × ((is_rsa_mechanism ckm_rsa_pkcs ≡ true)
        × (((o : ℕ) × ((object_of (slot_of cku_user 1) 1 ≡ some o)
                × (obj_class ((world cku_user idle).objects o) ≡ cko_private_key)))
            × (find 1 (sign_init quiet_card 1 ckm_rsa_pkcs 1 (world cku_user idle)).1.sessions
                ≡ some (record idle { sign = some (new_mechanism ckm_rsa_pkcs 1) }))))
unfolding sign_init find opencie_pkcs.P11.Slot.get_object_from_id obj_class
    opencie_pkcs.P11.Object.is_private is_rsa_mechanism
sign_init_lem_example =
    sign_init_lem quiet_card 1 ckm_rsa_pkcs 1 idle (world cku_user idle) refl refl

verify_plain_lem_example : (block_type_1 8 (5 ∷ []) ≡ block_type_1 8 (5 ∷ [])) ↔ (
    (mech_verify_final quiet_card plain_crypto 0 plain_mechanism
      (block_type_1 8 (5 ∷ []))
      (world cku_user idle)).0
    ≡ ok tt)
unfolding opencie_pkcs.P11.Mechanism.hash_of opencie_pkcs.P11.Mechanism.verify_length
    opencie_pkcs.P11.Slot.get_object_from_id find obj_class opencie_pkcs.P11.Object.get_attribute
    opencie_pkcs.P11.Mechanism.decrypt_signature
verify_plain_lem_example =
    verify_plain_lem quiet_card plain_crypto 0 8 plain_mechanism (block_type_1 8 (5 ∷ []))
      (block_type_1 8 (5 ∷ [])) (world cku_user idle) (world cku_user idle) refl (omega arith)
      (omega arith) refl refl refl

-- ===== src/P11/Constants.antt =====
-- The values of shared/src/pkcs11/pkcs11t.h and of pkcs11/src/pkcs11/slot.h that the code uses.
use Prim.Native.Nat.{ℕ}

-- User types. CKU_NOBODY stands in slot.h.
abbrev pub cku_so : ℕ
cku_so = 0

abbrev pub cku_user : ℕ
cku_user = 1

abbrev pub cku_nobody : ℕ
cku_nobody = 0xffffff

-- Session flags, by their bit: flags & CKF_RW_SESSION is bit 1, flags & CKF_SERIAL_SESSION bit 2.
abbrev pub ckf_rw_bit : ℕ
ckf_rw_bit = 2

abbrev pub ckf_serial_bit : ℕ
ckf_serial_bit = 4

-- Object classes.
abbrev pub cko_data : ℕ
cko_data = 0

abbrev pub cko_certificate : ℕ
cko_certificate = 1

abbrev pub cko_public_key : ℕ
cko_public_key = 2

abbrev pub cko_private_key : ℕ
cko_private_key = 3

-- Attributes.
abbrev pub cka_class : ℕ
cka_class = 0

abbrev pub cka_private : ℕ
cka_private = 2

abbrev pub cka_id : ℕ
cka_id = 0x102

abbrev pub cka_sign : ℕ
cka_sign = 0x108

abbrev pub cka_verify : ℕ
cka_verify = 0x10a

abbrev pub cka_sign_recover : ℕ
cka_sign_recover = 0x109

abbrev pub cka_verify_recover : ℕ
cka_verify_recover = 0x10b

abbrev pub cka_modulus : ℕ
cka_modulus = 0x120

abbrev pub cka_public_exponent : ℕ
cka_public_exponent = 0x122

abbrev pub cka_prime_1 : ℕ
cka_prime_1 = 0x124

abbrev pub cka_prime_2 : ℕ
cka_prime_2 = 0x125

abbrev pub cka_exponent_1 : ℕ
cka_exponent_1 = 0x126

abbrev pub cka_exponent_2 : ℕ
cka_exponent_2 = 0x127

abbrev pub cka_coefficient : ℕ
cka_coefficient = 0x128

abbrev pub ck_unavailable_information : ℕ
ck_unavailable_information = 0xffff_ffff_ffff_ffff

-- Mechanisms.
abbrev pub ckm_rsa_pkcs : ℕ
ckm_rsa_pkcs = 1

abbrev pub ckm_md5_rsa_pkcs : ℕ
ckm_md5_rsa_pkcs = 5

abbrev pub ckm_sha1_rsa_pkcs : ℕ
ckm_sha1_rsa_pkcs = 6

abbrev pub ckm_sha256_rsa_pkcs : ℕ
ckm_sha256_rsa_pkcs = 0x40

abbrev pub ckm_md5 : ℕ
ckm_md5 = 0x210

abbrev pub ckm_sha_1 : ℕ
ckm_sha_1 = 0x220

abbrev pub ckm_sha256 : ℕ
ckm_sha256 = 0x250

-- Return values.
abbrev pub ckr_ok : ℕ
ckr_ok = 0

abbrev pub ckr_slot_id_invalid : ℕ
ckr_slot_id_invalid = 3

abbrev pub ckr_general_error : ℕ
ckr_general_error = 5

abbrev pub ckr_arguments_bad : ℕ
ckr_arguments_bad = 7

abbrev pub ckr_attribute_sensitive : ℕ
ckr_attribute_sensitive = 0x11

abbrev pub ckr_attribute_type_invalid : ℕ
ckr_attribute_type_invalid = 0x12

abbrev pub ckr_data_len_range : ℕ
ckr_data_len_range = 0x21

abbrev pub ckr_function_not_supported : ℕ
ckr_function_not_supported = 0x54

abbrev pub ckr_key_handle_invalid : ℕ
ckr_key_handle_invalid = 0x60

abbrev pub ckr_key_function_not_permitted : ℕ
ckr_key_function_not_permitted = 0x68

abbrev pub ckr_mechanism_invalid : ℕ
ckr_mechanism_invalid = 0x70

abbrev pub ckr_object_handle_invalid : ℕ
ckr_object_handle_invalid = 0x82

abbrev pub ckr_operation_active : ℕ
ckr_operation_active = 0x90

abbrev pub ckr_operation_not_initialized : ℕ
ckr_operation_not_initialized = 0x91

abbrev pub ckr_session_handle_invalid : ℕ
ckr_session_handle_invalid = 0xb3

abbrev pub ckr_session_parallel_not_supported : ℕ
ckr_session_parallel_not_supported = 0xb4

abbrev pub ckr_session_read_only : ℕ
ckr_session_read_only = 0xb5

abbrev pub ckr_session_read_only_exists : ℕ
ckr_session_read_only_exists = 0xb7

abbrev pub ckr_session_read_write_so_exists : ℕ
ckr_session_read_write_so_exists = 0xb8

abbrev pub ckr_signature_invalid : ℕ
ckr_signature_invalid = 0xc0

abbrev pub ckr_signature_len_range : ℕ
ckr_signature_len_range = 0xc1

abbrev pub ckr_token_not_recognized : ℕ
ckr_token_not_recognized = 0xe1

abbrev pub ckr_user_already_logged_in : ℕ
ckr_user_already_logged_in = 0x100

abbrev pub ckr_user_not_logged_in : ℕ
ckr_user_not_logged_in = 0x101

abbrev pub ckr_user_type_invalid : ℕ
ckr_user_type_invalid = 0x103

abbrev pub ckr_user_another_already_logged_in : ℕ
ckr_user_another_already_logged_in = 0x104

abbrev pub ckr_buffer_too_small : ℕ
ckr_buffer_too_small = 0x150

abbrev pub ckr_saved_state_invalid : ℕ
ckr_saved_state_invalid = 0x160

abbrev pub ckr_cryptoki_not_initialized : ℕ
ckr_cryptoki_not_initialized = 0x190

abbrev pub ckr_mechanism_param_invalid : ℕ
ckr_mechanism_param_invalid = 0x71

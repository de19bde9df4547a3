-- ===== src/Util/Hex/Tests.antt =====
-- The theorems on hexadecimal text, applied, and texts that the readers treat in their own ways.
use opencie_pkcs.Base.{ℕ, ◌≡◌, refl, true, false, List, [], ◌∷◌, crash, arith}
use opencie_pkcs.Base.Outcome.{done, thrown}
use opencie_pkcs.Util.Hex.{read_hex_data, count_hex_data, dump_hex_data}
use opencie_pkcs.Util.Hex.RoundTrip.{read_hex_data-dump_hex_data}

abbrev bytes : List ℕ
bytes = 0x0a ∷ 0xde ∷ 0xff ∷ []

read_hex_data-dump_hex_data_example : read_hex_data (dump_hex_data bytes false true) ≡ done bytes
unfolding dump_hex_data opencie_pkcs.Util.Hex.hex_byte
read_hex_data-dump_hex_data_example =
    read_hex_data-dump_hex_data bytes false true (ground arith) (ground arith)

-- "0x1A, 2Bh3".
read_prefixed :
    read_hex_data (0x30 ∷ 0x78 ∷ 0x31 ∷ 0x41 ∷ 0x2c ∷ 0x20 ∷ 0x32 ∷ 0x42 ∷ 0x68 ∷ 0x33 ∷ [])
    ≡ done (0x1a ∷ 0x2b ∷ 3 ∷ [])
unfolding read_hex_data opencie_pkcs.Util.Hex.hex_loop opencie_pkcs.Util.Hex.hex_round
    opencie_pkcs.Util.Hex.is_space opencie_pkcs.Util.Hex.is_xdigit opencie_pkcs.Util.Hex.digit_round
    opencie_pkcs.Util.Hex.has_prefix opencie_pkcs.Util.Hex.char_at opencie_pkcs.Util.Hex.hex_value
    opencie_pkcs.Util.Hex.push_back opencie_pkcs.Util.Hex.hex2byte
read_prefixed = refl

-- "0A": the test for a prefix looks two places past the end.
read_short : read_hex_data (dump_hex_data (0x0a ∷ []) false true) ≡ thrown crash
unfolding read_hex_data opencie_pkcs.Util.Hex.hex_loop dump_hex_data opencie_pkcs.Util.Hex.hex_byte
    opencie_pkcs.Util.Hex.hex_round opencie_pkcs.Util.Hex.is_space opencie_pkcs.Util.Hex.hex_digit
    opencie_pkcs.Util.Hex.is_xdigit opencie_pkcs.Util.Hex.digit_round
    opencie_pkcs.Util.Hex.has_prefix opencie_pkcs.Util.Hex.char_at
read_short = refl

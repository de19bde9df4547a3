-- ===== src/Card/Ias/Messaging.antt =====
-- SM and respSM of shared/src/csp/ias.cpp: a command under secure messaging, and what its answer holds.
-- `Cipher` stands for CDES3 and CMAC with the initial vector 0: the key comes first.
use opencie_pkcs.Base.{
  ℕ, ◌+◌, ◌-◌, ◌*◌, ◌/◌, ◌%◌, ◌&&◌, ◌||◌, List, [], ◌∷◌, ◌++◌, Option, none, some, ltb, ◌==◌, not,
  if◌then◌else◌, length, replicate, Result, ok, ◌>>=◌,
}
use opencie_pkcs.Util.Array.{get, mid, left}
use opencie_pkcs.Util.Padding.Iso.{iso_pad}
use opencie_pkcs.Util.Asn1.{set_asn1_tag}

pub record Cipher : Type 0 where
  pub raw_encode : List ℕ → List ℕ → Result (List ℕ)
  pub raw_decode : List ℕ → List ℕ → Result (List ℕ)
  pub mac : List ℕ → List ℕ → Result (List ℕ)

-- The counter behind the last octet below 255, none where there is none.
unfoldable pub incremented : List ℕ → Option (List ℕ)
incremented [] = none
incremented (b ∷ bs) =
    let rest = incremented bs in
    elim rest [
      | some cs ↦ some (b ∷ cs)
      | none ↦ if ltb b 255 then some ((b + 1) ∷ replicate (length bs) 0) else none
    ]

unfoldable pub increment : List ℕ → List ℕ
unfolding incremented
increment seq = elim (incremented seq) [ some s ↦ s | none ↦ seq ]

-- `smHead[0] |= 0x0C`
abbrev pub or_0c : ℕ → ℕ
or_0c b = b / 16 * 16 + 12 + b % 4

abbrev pub secure_head : List ℕ → List ℕ
secure_head [] = []
secure_head (b ∷ bs) = or_0c b ∷ bs

-- The data object of encrypted data: 87 with a padding byte for an even instruction, 85 else.
unfoldable pub encrypted_object : Cipher → List ℕ → ℕ → List ℕ → Result (List ℕ)
unfolding iso_pad set_asn1_tag
encrypted_object cipher key_enc ins bytes = do
  padded ← iso_pad bytes
  enc ← cipher.raw_encode key_enc padded
  if ins % 2 == 0 then set_asn1_tag 0x87 (1 ∷ enc) else set_asn1_tag 0x85 enc

-- The data of a command with a short length or with an extended one, as a data object.
unfoldable pub command_object : Cipher → List ℕ → List ℕ → Result (List ℕ)
unfolding encrypted_object mid get
command_object cipher key_enc apdu = do
  ins ← get apdu 1
  lc ← get apdu 4
  if not (lc == 0) && ltb 5 (length apdu)
      then (mid apdu 5 lc >>= λ bytes. encrypted_object cipher key_enc ins bytes)
      else if lc == 0 && ltb 7 (length apdu)
      then (do
        hi ← get apdu 5
        lo ← get apdu 6
        bytes ← mid apdu 7 (hi * 256 + lo)
        encrypted_object cipher key_enc ins bytes)
      else ok []

-- The expected length, as a data object.
unfoldable pub le_object : List ℕ → Result (List ℕ)
unfolding set_asn1_tag get
le_object apdu = do
  lc ← get apdu 4
  if length apdu == 5 || length apdu == lc + 6
      then (get apdu (length apdu - 1) >>= λ le. set_asn1_tag 0x97 (le ∷ []))
      else ok []

-- The command that goes out, with a length of one byte or of three.
unfoldable pub protected_command : List ℕ → List ℕ → List ℕ
protected_command head field =
    if ltb (length field) 0x100
    then head ++ (length field ∷ (field ++ (0 ∷ [])))
    else head
      ++ ((length field / 65536 % 256)
          ∷ (length field / 256 % 256)
          ∷ (length field % 256)
          ∷ (field ++ (0 ∷ 0 ∷ [])))

-- SM, with the counter already raised.
unfoldable pub secure_command : Cipher → List ℕ → List ℕ → List ℕ → List ℕ → Result (List ℕ)
unfolding command_object le_object protected_command left iso_pad set_asn1_tag
secure_command cipher key_enc key_sig apdu seq = do
  plain_head ← left apdu 4
  calc_mac ← iso_pad (seq ++ secure_head plain_head)
  bytes_object ← command_object cipher key_enc apdu
  length_object ← le_object apdu
  to_sign ← iso_pad (calc_mac ++ (bytes_object ++ length_object))
  mac ← cipher.mac key_sig to_sign
  mac_object ← set_asn1_tag 0x8e mac
  ok (protected_command (secure_head plain_head) (bytes_object ++ (length_object ++ mac_object)))

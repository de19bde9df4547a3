-- ===== src/Card/Ias/Response.antt =====
-- respSM of shared/src/csp/ias.cpp: the data objects of an answer under secure messaging.
use opencie_pkcs.Base.{
  ℕ, zero, suc, ◌+◌, ◌-◌, ◌*◌, true, List, [], ◌++◌, ltb, ◌==◌, not, if◌then◌else◌, length, drop,
  Result, ok, throw, logged_error, card_link_error, crash, ◌>>=◌, ◌>>◌, throw_if,
}
use opencie_pkcs.Util.Array.{get, mid, equal, resize_keep}
use opencie_pkcs.Util.Padding.Iso.{iso_pad, remove_iso_pad}
use opencie_pkcs.Card.Ias.Messaging.{Cipher}

-- `sw`, `encData`, `respMac` and `calcMac` while the answer is read.
pub record Objects : Type 0 where
  pub sw : ℕ
  pub enc_data : List ℕ
  pub resp_mac : List ℕ
  pub calc_mac : List ℕ

-- The octets that tell the length behind the first octet `n`, and the length.
unfoldable pub object_length : List ℕ → Result (ℕ × ℕ)
unfolding get
object_length rest = do
  n ← get rest 1
  if ltb 0x80 n
      then (if n == 0x81
          then (get rest 2 >>= λ a. ok (1, a))
          else if n == 0x82
          then (do a ← get rest 2; b ← get rest 3; ok (2, a * 256 + b))
          else throw logged_error)
      else ok (0, n)

-- One object at the head of `rest`, and how long it is.
unfoldable pub status_object : Objects → List ℕ → Result (Objects × ℕ)
unfolding get mid
status_object o rest = do
  n ← get rest 1
  throw_if (not (n == 2)) logged_error >> (do
    part ← mid rest 0 (n + 2)
    hi ← get rest 2
    lo ← get rest 3
    ok (record o { sw = hi * 256 + lo; calc_mac = o.calc_mac ++ part }, 4))

unfoldable pub mac_object : Objects → List ℕ → Result (Objects × ℕ)
unfolding get mid
mac_object o rest = do
  n ← get rest 1
  throw_if (not (n == 8)) logged_error >> (mid rest 2 8 >>= λ m. ok (record o { resp_mac = m }, 10))

unfoldable pub plain_object : Objects → List ℕ → Result (Objects × ℕ)
unfolding object_length mid
plain_object o rest = do
  l ← object_length rest
  enc ← mid rest (l.0 + 2) (l.1)
  part ← mid rest 0 (l.1 + l.0 + 2)
  ok (record o { enc_data = enc; calc_mac = o.calc_mac ++ part }, l.0 + l.1 + 2)

-- With a padding byte before the data.
unfoldable pub padded_object : Objects → List ℕ → Result (Objects × ℕ)
unfolding object_length mid
padded_object o rest = do
  l ← object_length rest
  throw_if (ltb (l.1) 1) logged_error >> (do
    enc ← mid rest (l.0 + 3) (l.1 - 1)
    part ← mid rest 0 (l.1 + l.0 + 2)
    ok (record o { enc_data = enc; calc_mac = o.calc_mac ++ part }, l.0 + l.1 + 2))

unfoldable pub one_object : Objects → List ℕ → Result (Objects × ℕ)
unfolding status_object mac_object plain_object padded_object
one_object o rest = do
  t ← get rest 0
  if t == 0x99
      then status_object o rest
      else if t == 0x8e
      then mac_object o rest
      else if t == 0x85
      then plain_object o rest
      else if t == 0x87
      then padded_object o rest
      else throw logged_error

-- `do { … } while (index < resp.size())`; an object takes at least two bytes, so that the length is
-- fuel enough.
unfoldable pub objects_loop : ℕ → Objects → List ℕ → Result Objects
unfolding one_object
objects_loop zero o rest = throw logged_error
objects_loop (suc fuel) o rest = one_object o rest >>= λ r.
    if length (drop (r.1) rest) == 0 then ok (r.0) else objects_loop fuel (r.0) (drop (r.1) rest)

-- What the catch clause makes of an error in the objects.
abbrev pub as_link_error {ℓ} : {A : Type ℓ} → Result A → Result A
as_link_error (ok a) = ok a
as_link_error (throw crash) = throw crash
as_link_error (throw e) = throw (card_link_error true)

-- The objects of an answer whose checksum is right, with the counter already raised.
unfoldable pub checked_objects : Cipher → List ℕ → List ℕ → List ℕ → Result Objects
checked_objects cipher key_sig resp seq = do
  o ←
      objects_loop (suc (length resp))
        (record { sw = 0xffff; enc_data = []; resp_mac = []; calc_mac = seq }) resp
  to_sign ← iso_pad (o.calc_mac)
  sm_mac ← cipher.mac key_sig to_sign
  if equal sm_mac (o.resp_mac) then ok o else throw logged_error

-- The data, deciphered and without its padding.
unfoldable pub plain_data : Cipher → List ℕ → List ℕ → Result (List ℕ)
unfolding remove_iso_pad resize_keep
plain_data cipher key_enc enc =
    if length enc == 0
    then ok []
    else (do d ← cipher.raw_decode key_enc enc; n ← remove_iso_pad d; ok (resize_keep d n))

-- respSM, with the counter already raised: the data and the status word.
unfoldable pub secure_answer : Cipher → List ℕ → List ℕ → List ℕ → List ℕ → Result (List ℕ × ℕ)
secure_answer cipher key_enc key_sig resp seq = do
  o ← as_link_error (checked_objects cipher key_sig resp seq)
  d ← plain_data cipher key_enc (o.enc_data)
  ok (d, o.sw)

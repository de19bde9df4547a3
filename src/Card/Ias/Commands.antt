-- ===== src/Card/Ias/Commands.antt =====
-- The commands of IAS in shared/src/csp/ias.cpp that verify and change PINs, read files, select the applet
-- and sign.
use opencie_pkcs.Base.{
  ℕ, ◌+◌, ◌%◌, Bool, false, ◌||◌, List, [], ◌∷◌, ◌++◌, none, some, ◌==◌, not, if◌then◌else◌, length,
  card_link_error, scard_error, logged_error,
}
use opencie_pkcs.Base.Outcome.{Outcome, done, thrown, running}
use opencie_pkcs.Util.Asn1.{set_asn1_tag}
use opencie_pkcs.Card.Atr.{CieType, is_unknown, get_family_type, nxp_or_later}
use opencie_pkcs.Card.Io.{Ias, Io, ◌>>=◌, ◌>>◌, return, guard_not, lift}
use opencie_pkcs.Card.Token.{Reader, Answer}
use opencie_pkcs.Card.Ias.{send_apdu}
use opencie_pkcs.Card.Ias.Reading.{read_file, read_dg_loop, tlv_size}
use opencie_pkcs.Card.Ias.Messaging.{Cipher}
use opencie_pkcs.Card.Ias.Secure.{send_apdu_sm}

abbrev pub cie_pin_id : ℕ
cie_pin_id = 0x81

abbrev pub cie_puk_id : ℕ
cie_puk_id = 0x82

abbrev pub cie_key_sign_id : ℕ
cie_key_sign_id = 0x81

-- rethrowAsNonRetryable
abbrev pub non_retryable : {A : Type 0} → Outcome A → Outcome A
non_retryable (done a) = done a
non_retryable (thrown (card_link_error retryable)) = thrown (card_link_error false)
non_retryable (thrown e) = thrown e
non_retryable running = running

abbrev pub as_non_retryable : {C A : Type 0} → Outcome A × Ias C → Outcome A × Ias C
as_non_retryable (r, s) = (non_retryable r, s)

abbrev pub succeeded : {C : Type 0} → Answer → Io C (List ℕ)
succeeded r = guard_not (not (r.1 == 0x9000)) (scard_error (r.1)) >> return (r.0)

-- ReadCIEType, for a type that is not known yet. Its error is a logged_error of a class of its own.
unfoldable pub read_cie_type : {C : Type 0} → Io C (Unit {0})
unfolding get_family_type
read_cie_type s =
    if is_unknown s.cie_type
    then (if is_unknown ((get_family_type s.atr).0)
        then (thrown logged_error, s)
        else (done tt, record s { cie_type = (get_family_type s.atr).0 }))
    else (done tt, s)

-- `fuel` is for the loops of GET RESPONSE, and `rounds` for the read loops.
module _ {C : Type 0} (cipher : Cipher) (reader : Reader C) (fuel rounds : ℕ) where
  unfoldable pub verify : ℕ → List ℕ → Io C ℕ
  unfolding send_apdu_sm
  verify id pin =
      (send_apdu_sm cipher reader fuel (0x00 ∷ 0x20 ∷ 0x00 ∷ id ∷ []) pin none >>= λ r.
      return (r.1))

  unfoldable pub verify_puk : List ℕ → Io C ℕ
  unfolding verify
  verify_puk pin s = as_non_retryable (verify cie_puk_id pin s)

  unfoldable pub verify_pin : List ℕ → Io C ℕ
  unfolding verify
  verify_pin pin s = as_non_retryable (verify cie_pin_id pin s)

  unfoldable pub unblock_pin : Io C ℕ
  unfolding send_apdu_sm
  unblock_pin =
      send_apdu_sm cipher reader fuel (0x00 ∷ 0x2c ∷ 0x03 ∷ cie_pin_id ∷ []) [] none >>= λ r.
      return (r.1)

  unfoldable pub change_pin : List ℕ → List ℕ → Io C ℕ
  unfolding send_apdu_sm
  change_pin old_pin new_pin =
      send_apdu_sm cipher reader fuel (0x00 ∷ 0x24 ∷ 0x00 ∷ cie_pin_id ∷ []) (old_pin ++ new_pin)
        none
      >>= λ r. return (r.1)

  -- The overload for a PIN that has been unblocked.
  unfoldable pub set_new_pin : List ℕ → Io C ℕ
  unfolding send_apdu_sm
  set_new_pin new_pin =
      send_apdu_sm cipher reader fuel (0x00 ∷ 0x2c ∷ 0x02 ∷ cie_pin_id ∷ []) new_pin none >>= λ r.
      return (r.1)

  unfoldable pub readfile : ℕ → List ℕ → Io C (List ℕ)
  readfile id content s =
      if s.active_sm
      then read_file (send_apdu_sm cipher reader fuel) rounds id content s
      else read_file (send_apdu reader fuel) rounds id content s

  unfoldable pub select_aid_cie : List ℕ → Bool → Io C (Unit {0})
  unfolding send_apdu send_apdu_sm
  select_aid_cie cie_aid secure =
      (if secure
        then send_apdu_sm cipher reader fuel (0x00 ∷ 0xa4 ∷ 0x04 ∷ 0x0c ∷ []) cie_aid none
        else send_apdu reader fuel (0x00 ∷ 0xa4 ∷ 0x04 ∷ 0x0c ∷ []) cie_aid none)
      >>= λ r.
          (guard_not (not (r.1 == 0x9000)) (scard_error (r.1)) >> λ s.
          (done tt, record s { active_sm = false }))

  -- Under the type of the chip the master file or the IAS applet is selected.
  unfoldable pub select_ias_command : List ℕ → Bool → CieType → Io C Answer
  unfolding send_apdu send_apdu_sm nxp_or_later
  select_ias_command ias_aid secure type =
      let head = 0x00 ∷ 0xa4 ∷ (if nxp_or_later type then 0x00 ∷ 0x00 ∷ [] else 0x04 ∷ 0x0c ∷ []) in
      let aid = if nxp_or_later type then [] else ias_aid in
      if secure
      then send_apdu_sm cipher reader fuel head aid none
      else send_apdu reader fuel head aid none

  unfoldable pub select_aid_ias : List ℕ → Bool → Io C (Unit {0})
  unfolding read_cie_type select_ias_command
  select_aid_ias ias_aid secure = read_cie_type >> λ s.
      (select_ias_command ias_aid secure s.cie_type >>= λ r.
      (guard_not (not (r.1 == 0x9000)) (scard_error (r.1)) >> λ s.
      (done tt, record s { active_sm = false })))
        s

  unfoldable pub sign : List ℕ → Io C (List ℕ)
  unfolding send_apdu_sm set_asn1_tag
  sign bytes = lift (set_asn1_tag 0x80 (2 ∷ [])) >>= λ algorithm.
      lift (set_asn1_tag 0x84 (cie_key_sign_id ∷ [])) >>= λ key.
      send_apdu_sm cipher reader fuel (0x00 ∷ 0x22 ∷ 0x41 ∷ 0xa4 ∷ []) (algorithm ++ key) none
      >>= λ r. succeeded r >>= λ _.
          send_apdu_sm cipher reader fuel (0x00 ∷ 0x88 ∷ 0x00 ∷ 0x00 ∷ []) bytes none >>= λ r.
          succeeded r

  -- readDGbySFI after the first answer.
  unfoldable pub read_dg_rest : ℕ → List ℕ → Answer → Io C (List ℕ)
  unfolding send_apdu_sm read_file read_dg_loop tlv_size
  read_dg_rest sfi content r =
      if r.1 == 0x6a82 || (r.1 == 0x6a86 || r.1 == 0x6981)
      then read_file (send_apdu_sm cipher reader fuel) rounds (0x0100 + sfi) content
      else (succeeded r >>= λ first.
          read_dg_loop (send_apdu_sm cipher reader fuel) rounds (content ++ first)
            (tlv_size (content ++ first)) (length (content ++ first) % 65536))

  unfoldable pub read_dg_by_sfi : ℕ → List ℕ → Io C (List ℕ)
  unfolding send_apdu send_apdu_sm read_dg_rest
  read_dg_by_sfi sfi content =
      send_apdu reader fuel (0x00 ∷ 0xa4 ∷ 0x04 ∷ 0x0c ∷ [])
        (0xa0 ∷ 0x00 ∷ 0x00 ∷ 0x02 ∷ 0x47 ∷ 0x10 ∷ 0x01 ∷ []) none
      >>= λ r. succeeded r >>= λ _.
          send_apdu_sm cipher reader fuel (0x00 ∷ 0xb0 ∷ (0x80 + sfi) ∷ 0x00 ∷ []) [] (some 6)
          >>= λ r. read_dg_rest sfi content r

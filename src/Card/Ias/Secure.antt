-- ===== src/Card/Ias/Secure.antt =====
-- getResp_SM and SendAPDU_SM of shared/src/csp/ias.cpp.
use opencie_pkcs.Base.{
  ℕ, zero, suc, ◌/◌, ◌%◌, ◌||◌, List, [], ◌∷◌, ◌++◌, Option, none, ltb, ◌==◌, not, if◌then◌else◌,
  length, take, drop, scard_error,
}
use opencie_pkcs.Base.Outcome.{done}
use opencie_pkcs.Card.Io.{Io, ◌>>=◌, ◌>>◌, return, still_running, guard_not, lift}
use opencie_pkcs.Card.Token.{Reader, Answer, transmit, le_octets}
use opencie_pkcs.Card.Ias.{short_command, with_class, class_of, chained}
use opencie_pkcs.Card.Ias.Messaging.{Cipher, increment, secure_command}
use opencie_pkcs.Card.Ias.Response.{secure_answer}

-- `increment(seq)` on sessSSC; it stays raised whatever follows.
unfoldable pub raise_counter : {C : Type 0} → Io C (Unit {0})
unfolding increment
raise_counter s = (done tt, record s { sess_ssc = increment s.sess_ssc })

module _ {C : Type 0} (cipher : Cipher) (reader : Reader C) where
  unfoldable pub sm : List ℕ → Io C (List ℕ)
  unfolding raise_counter secure_command
  sm apdu =
      raise_counter >> λ s. lift (secure_command cipher s.sess_enc s.sess_mac apdu s.sess_ssc) s

  unfoldable pub resp_sm : List ℕ → Io C Answer
  unfolding raise_counter secure_answer
  resp_sm resp =
      raise_counter >> λ s. lift (secure_answer cipher s.sess_enc s.sess_mac resp s.sess_ssc) s

  -- The loop of getResp_SM, at most so often.
  unfoldable pub get_resp_sm_loop : ℕ → List ℕ → ℕ → Io C Answer
  unfolding transmit resp_sm
  get_resp_sm_loop zero so_far sw = still_running
  get_resp_sm_loop (suc fuel) so_far sw =
      let again = get_resp_sm_loop fuel in
      if sw / 256 == 0x61
      then (if sw % 256 == 0
          then (transmit reader (0x0c ∷ 0xc0 ∷ 0x00 ∷ 0x00 ∷ 0x00 ∷ []) >>= λ r.
              again (so_far ++ r.0) (r.1))
          else (transmit reader (0x00 ∷ 0xc0 ∷ 0x00 ∷ 0x00 ∷ (sw % 256) ∷ []) >>= λ r.
              if r.1 == 0x9000
              then resp_sm (so_far ++ r.0)
              else (guard_not (not (r.1 / 256 == 0x61)) (scard_error (r.1))
                  >> again (so_far ++ r.0) (r.1))))
      else if sw == 0x9000 || (sw == 0x6b00 || sw == 0x6282)
      then resp_sm so_far
      else return (so_far, sw)

  unfoldable pub get_resp_sm : ℕ → Answer → Io C Answer
  unfolding get_resp_sm_loop
  get_resp_sm fuel r = get_resp_sm_loop fuel (r.0) (r.1)

  -- One command under secure messaging, and its answer.
  unfoldable pub exchange : ℕ → List ℕ → Io C Answer
  unfolding sm transmit get_resp_sm
  exchange fuel apdu = sm apdu >>= λ command. transmit reader command >>= λ r. get_resp_sm fuel r

  unfoldable pub chain_loop_sm : ℕ → ℕ → List ℕ → List ℕ → Option ℕ → Io C Answer
  unfolding exchange short_command
  chain_loop_sm fuel zero head rest le = still_running
  chain_loop_sm fuel (suc rounds) head rest le =
      let again = chain_loop_sm fuel rounds head (drop 0xe7 rest) le in
      let last = not (ltb 0xe7 (length rest)) in
      let cla = if last then class_of head else chained (class_of head) in
      exchange fuel
        (short_command (with_class cla head) (take 0xe7 rest) (if last then le else none))
      >>= λ r.
          (if last
            then return r
            else (guard_not (not (r.1 == 0x9000)) (scard_error (r.1)) >> again))

  -- SendAPDU_SM; `fuel` is for the loop of getResp_SM.
  unfoldable pub send_apdu_sm : ℕ → List ℕ → List ℕ → Option ℕ → Io C Answer
  unfolding exchange chain_loop_sm
  send_apdu_sm fuel head bytes le =
      if ltb (length bytes) 0xe7
      then exchange fuel (head ++ (length bytes ∷ (bytes ++ le_octets le)))
      else chain_loop_sm fuel (length bytes) head bytes le

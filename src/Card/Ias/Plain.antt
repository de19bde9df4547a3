-- ===== src/Card/Ias/Plain.antt =====
-- readfile without secure messaging, down to the reader: SendAPDU, getResp and Transmit in between.
use opencie_pkcs.Base.{
  ℕ, suc, ◌+◌, ◌-◌, ◌*◌, ◌/◌, ◌%◌, ◌^◌, ◌<◌, ◌≤◌, ◌≡◌, refl, ap, false, List, [], ◌∷◌, ◌++◌, ltb,
  ◌==◌, length, arith, Option, none, some, length-append, length-drop, take_exact, drop_exact, inl,
  inr, ◌⊎◌, ok, logged_error, p11_error, scard_error, card_link_error, windows_error, crash,
  Exception,
}
use opencie_pkcs.Base.Outcome.{Outcome, done, thrown, running}
use opencie_pkcs.Card.Retry.{is_retryable}
use opencie_pkcs.Card.Io.{Ias}
use opencie_pkcs.Card.Token.{Reader, Answer, transmit, received, status_word}
use opencie_pkcs.Card.Ias.{send_apdu, get_resp, get_resp_loop, short_command}
use opencie_pkcs.Card.Ias.Reading.{read_binary, read_file, select_file}
use opencie_pkcs.Card.Ias.Serving.{
  PastEnd, shorter, warning, wrong_length, served, past_end, response,
}
use opencie_pkcs.Card.Ias.Messaging.{Cipher}
use opencie_pkcs.Card.Ias.Commands.{readfile, verify_pin, verify_puk, non_retryable}
use opencie_pkcs.Card.Ias.Whole.{Serves, read_loop_whole}

received-response : (r : Answer) → r.1 < 2 ^ 16 → received 0 (response r) ≡ ok r
unfolding received response status_word
received-response r small =
    let n = length (r.0) in
    let size : length (r.0 ++ ((r.1 / 256) ∷ (r.1 % 256) ∷ [])) ≡ n + 2 =
      length-append (r.0) ((r.1 / 256) ∷ (r.1 % 256) ∷ []) in
    let front : n + 2 - 2 ≡ n = omega arith in
    let long : ltb (n + 2) 2 ≡ false = ground arith in
    let sw : r.1 % 256 + 256 * (r.1 / 256 + 0) ≡ r.1 = omega arith in
    rw
      (
        size,
        front,
        long,
        take_exact n (r.0) ((r.1 / 256) ∷ (r.1 % 256) ∷ []) refl,
        drop_exact n (r.0) ((r.1 / 256) ∷ (r.1 % 256) ∷ []) refl,
      )
      (ap (λ (k : ℕ). ok (r.0, k)) sw)

served_status :
    (style : PastEnd) (file : List ℕ) (at le : ℕ)
    → le < 2 ^ 8
    → ((served style file at le).1 < 2 ^ 16) × (((served style file at le).1 / 256 == 0x61) ≡ false)
unfolding served past_end
served_status shorter file at le small = ground arith
served_status warning file at le small = ground arith
served_status wrong_length file at le small = ground (arith, length-drop at file)

module _ {C : Type 0} (reader : Reader C) where
  -- What the reader answers comes through Transmit.
  pub transmit_lem :
      (command : List ℕ) (s : Ias C) (r : Answer)
      → r.1 < 2 ^ 16
      → (reader command s.card).0 ≡ (0, response r)
      → transmit reader command s ≡ (done r, record s { card = (reader command s.card).1 })
  unfolding transmit
  transmit_lem command s r small e = rw (e, received-response r small) refl

  -- SendAPDU of a short command whose answer is no 61xx.
  short_apdu_lem :
      (fuel : ℕ) (head bytes : List ℕ) (le : Option ℕ) (s : Ias C) (r : Answer)
      → ltb 255 (length bytes) ≡ false
      → r.1 < 2 ^ 16
      → (r.1 / 256 == 0x61) ≡ false
      → (reader (short_command head bytes le) s.card).0 ≡ (0, response r)
      → send_apdu reader (suc fuel) head bytes le s
        ≡ (done r, record s { card = (reader (short_command head bytes le) s.card).1 })
  unfolding send_apdu get_resp get_resp_loop
  short_apdu_lem fuel head bytes le s r short small other e =
      rw (short, transmit_lem (short_command head bytes le) s r small e, other) refl

  module _ (style : PastEnd) (file : List ℕ) (Q : C → Type 0)
      (reads : (c : C) (at le : ℕ)
        → Q c
        → at < 2 ^ 15
        → 0 < le
        → le < 2 ^ 8
        → ((reader (0x00 ∷ 0xb0 ∷ (at / 256) ∷ (at % 256) ∷ le ∷ []) c).0
            ≡ (0, response (served style file at le)))
          × Q ((reader (0x00 ∷ 0xb0 ∷ (at / 256) ∷ (at % 256) ∷ le ∷ []) c).1)) where
    serves_lem : (fuel : ℕ) → Serves (send_apdu reader (suc fuel)) style file (λ s. Q s.card)
    unfolding read_binary short_command
    serves_lem fuel s at le q small positive byte =
        let got = reads s.card at le q small positive byte in
        let status = served_status style file at le byte in
        rw
          (short_apdu_lem fuel (0x00 ∷ 0xb0 ∷ (at / 256) ∷ (at % 256) ∷ []) [] (some le) s
            (served style file at le) refl (status.0) (status.1) (got.0))
          (refl, got.1)

    -- Without secure messaging, on a card that answers the selection of a file of less than 2 ^ 15
    -- bytes with 9000 and READ BINARY as ISO/IEC 7816-4 says for offsets below 2 ^ 15 and expected
    -- lengths from 1 to 255, in any of three ways past the end of the file, readfile into an empty
    -- array ends with the whole file, when as many rounds as one more than there are parts of 224
    -- bytes are allowed.
    pub readfile_lem :
        (cipher : Cipher) (fuel rounds id : ℕ) (fci : List ℕ) (s : Ias C)
        → s.active_sm ≡ false
        → id < 2 ^ 16
        → (reader (0x00 ∷ 0xa4 ∷ 0x02 ∷ 0x04 ∷ 0x02 ∷ (id / 256) ∷ (id % 256) ∷ []) s.card).0
          ≡ (0, response (fci, 0x9000))
        → Q ((reader (0x00 ∷ 0xa4 ∷ 0x02 ∷ 0x04 ∷ 0x02 ∷ (id / 256) ∷ (id % 256) ∷ []) s.card).1)
        → length file < 2 ^ 15
        → length file + 224 ≤ 224 * rounds
        → (readfile cipher reader (suc fuel) rounds id [] s).0 ≡ done file
    unfolding readfile read_file select_file short_command
    readfile_lem cipher fuel rounds id fci s plain two e q small enough =
        rw
          (
            short_apdu_lem fuel (0x00 ∷ 0xa4 ∷ 0x02 ∷ 0x04 ∷ []) ((id / 256) ∷ (id % 256) ∷ []) none
                s (fci, 0x9000) refl (omega arith) refl e,
            plain,
          )
          (read_loop_whole (send_apdu reader (suc fuel)) style file (λ s. Q s.card)
            (serves_lem fuel) rounds _ q small enough).0

thrown-inj : {A : Type 0} {e f : Exception} → ◌≡◌ {A = Outcome A} (thrown e) (thrown f) → e ≡ f
thrown-inj h = ground arith

non_retryable_lem :
    {A : Type 0} (r : Outcome A) (e : Exception)
    → non_retryable r ≡ thrown e
    → is_retryable e ≡ false
non_retryable_lem (done a) e h = absurd (ground arith)
non_retryable_lem running e h = absurd (ground arith)
non_retryable_lem (thrown (card_link_error b)) e h = rw (← thrown-inj h) refl
non_retryable_lem (thrown logged_error) e h = rw (← thrown-inj h) refl
non_retryable_lem (thrown (p11_error n)) e h = rw (← thrown-inj h) refl
non_retryable_lem (thrown (scard_error n)) e h = rw (← thrown-inj h) refl
non_retryable_lem (thrown (windows_error n)) e h = rw (← thrown-inj h) refl
non_retryable_lem (thrown crash) e h = rw (← thrown-inj h) refl

-- An exception of VerifyPIN or VerifyPUK is never one that RetryOnCardLinkError tries again, so a
-- lost link does not cost a second attempt at the PIN.
pub verify_pin_lem :
    {C : Type 0} (cipher : Cipher) (reader : Reader C) (fuel rounds : ℕ) (pin : List ℕ) (s : Ias C)
    (e : Exception)
    → ((verify_pin cipher reader fuel rounds pin s).0 ≡ thrown e)
      ⊎ ((verify_puk cipher reader fuel rounds pin s).0 ≡ thrown e)
    → is_retryable e ≡ false
unfolding verify_pin verify_puk
verify_pin_lem cipher reader fuel rounds pin s e (inl h) = non_retryable_lem _ e h
verify_pin_lem cipher reader fuel rounds pin s e (inr h) = non_retryable_lem _ e h

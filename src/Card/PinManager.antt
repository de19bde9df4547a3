-- ===== src/Card/PinManager.antt =====
-- pkcs11/src/csp/pin_manager.cpp: cie_change_pin and cie_unblock_pin. The readers, the connection and
-- the object IAS are a parameter; the progress callback, the log and the wiping of memory are left
-- out.
use opencie_pkcs.Base.{
  ℕ, ◌+◌, ◌-◌, Bool, true, false, not, ◌||◌, ◌&&◌, List, [], ◌∷◌, Option, none, some, ltb, leb,
  ◌==◌, if◌then◌else◌, length, Exception, Result, ok, throw, scard_error, crash,
}
use opencie_pkcs.Util.Array.{mid, left}
use opencie_pkcs.Util.Hex.{dump_hex_data}
use opencie_pkcs.P11.Constants.{ckr_ok, ckr_general_error, ckr_token_not_recognized}
use opencie_pkcs.Card.Errors.{
  Kind, wrong_pin, pin_blocked, card_communication, CieErrorRecord, cie_classify_sw,
  cie_record_sw_error, cie_record_transport_error, cie_record_unsupported_card, cie_clear_error,
}
pub mod Calls
pub mod Attempts
pub mod Served
pub mod Success
pub mod Tests

abbrev pub ckr_device_error : ℕ
ckr_device_error = 0x30

abbrev pub ckr_pin_incorrect : ℕ
ckr_pin_incorrect = 0xa0

abbrev pub ckr_pin_len_range : ℕ
ckr_pin_len_range = 0xa2

abbrev pub ckr_pin_locked : ℕ
ckr_pin_locked = 0xa4

abbrev pub ckr_token_not_present : ℕ
ckr_token_not_present = 0xe0

-- How a call ends: cie_unsupported_card_error has a clause of its own in what follows.
pub data Try (A : Type 0) : Type 0 where
  returned : A → Try A
  unsupported : Try A
  raised : Exception → Try A

abbrev pub Call : Type 0 → Type 0 → Type 0
Call E A = E → Try A × E

abbrev pub and_then : {E A B : Type 0} → Try A × E → (A → Call E B) → Try B × E
and_then (returned a, s) f = f a s
and_then (unsupported, s) f = (unsupported, s)
and_then (raised e, s) f = (raised e, s)

infixl 5 ◌>>=◌ ◌>>◌
abbrev pub ◌>>=◌ : {E A B : Type 0} → Call E A → (A → Call E B) → Call E B
◌>>=◌ m f s = and_then (m s) f

abbrev pub ◌>>◌ : {E B : Type 0} → Call E (Unit {0}) → Call E B → Call E B
◌>>◌ m k s = and_then (m s) (λ _. k)

abbrev pub return : {E A : Type 0} → A → Call E A
return a s = (returned a, s)

abbrev pub lift : {E A : Type 0} → Result A → Call E A
lift (ok a) s = (returned a, s)
lift (throw e) s = (raised e, s)

abbrev pub fail : {E A : Type 0} → Exception → Call E A
fail e s = (raised e, s)

-- What both functions call: PC/SC through ISmartCardTransport, safeConnection, and the object IAS.
-- `E` is all that they change. A reader is its name.
pub record Cie (E : Type 0) : Type 0 where
  pub establish_context : Call E ℕ
  pub release_context : E → E
  pub readers_length : Call E (ℕ × ℕ)
  pub list_readers : Call E (ℕ × List (List ℕ))
  pub connect : List ℕ → Call E Bool
  pub disconnect : E → E
  pub atr_length : Call E ℕ
  pub get_atr : Call E (ℕ × List ℕ)
  pub new_ias : List ℕ → Call E (Unit {0})
  pub reset : Call E (Unit {0})
  pub select_aid_ias : Call E (Unit {0})
  pub read_pan : Call E (Unit {0})
  pub select_aid_cie : Call E (Unit {0})
  pub init_enc_key : Call E (Unit {0})
  pub read_dapp_pub_key : Call E (Unit {0})
  pub init_dh_param : Call E (Unit {0})
  pub init_ext_auth_key_param : Call E (Unit {0})
  pub dh_key_exchange : Call E (Unit {0})
  pub dapp : Call E (Unit {0})
  pub verify_pin : List ℕ → Call E ℕ
  pub verify_puk : List ℕ → Call E ℕ
  pub change_pin : List ℕ → List ℕ → Call E ℕ
  pub set_new_pin : List ℕ → Call E ℕ
  pub is_enrolled : Call E Bool
  pub get_certificate : Call E (List ℕ)
  pub pan : Call E (List ℕ)
  pub set_cache : List ℕ → List ℕ → List ℕ → Call E (Unit {0})

-- What a function gives back: the return value, what it stores through `pAttempts`, and the last
-- error of the thread.
pub record Reply : Type 0 where
  pub rv : ℕ
  pub attempts : Option ℕ
  pub last_error : CieErrorRecord

-- How the search for a card ends: the function returns, the card was served, or there are no more
-- readers, and whether a card was refused by its ATR.
pub data Search : Type 0 where
  answer : ℕ → Option ℕ → Search
  served : Search
  not_found : Bool → Search

unfoldable pub strnlen : List ℕ → ℕ → ℕ
strnlen p n = if ltb (length p) n then length p else n

abbrev pub is_wrong_length : Option (List ℕ) → Bool
is_wrong_length none = true
is_wrong_length (some p) = not (strnlen p 9 == 8)

abbrev pub chars : Option (List ℕ) → List ℕ
chars none = []
chars (some p) = p

-- The inner clauses catch every logged_error of SelectAID_IAS.
abbrev pub after_select : {E : Type 0} → Call E Search → Try (Unit {0}) → Call E Search
after_select go_on (returned u) s = go_on s
after_select go_on unsupported s = (returned (not_found true), s)
after_select go_on (raised crash) s = (raised crash, s)
after_select go_on (raised e) s = (returned (not_found false), s)

-- A destructor, which runs however its block ends.
abbrev pub finally : {E : Type 0} → (E → E) → Call E Search → Call E Search
finally close m s = ((m s).0, close ((m s).1))

-- `continue` or not, after a reader.
abbrev pub next_reader : {E : Type 0} → (Bool → Call E Search) → Search → Call E Search
next_reader next (answer rv attempts) s = (returned (answer rv attempts), s)
next_reader next served s = (returned served, s)
next_reader next (not_found b) s = next b s

-- The answer to an scard_error.
abbrev pub by_kind : Kind → ℕ
by_kind pin_blocked = ckr_pin_locked
by_kind wrong_pin = ckr_pin_incorrect
by_kind card_communication = ckr_device_error
by_kind kind = ckr_general_error

-- What follows the loop, and the catch clauses.
unfoldable pub conclude : CieErrorRecord → Try Search → Result Reply
unfolding cie_record_sw_error cie_record_transport_error cie_record_unsupported_card cie_clear_error
conclude last (returned (answer rv attempts)) =
    ok (record { rv = rv; attempts = attempts; last_error = last })
conclude last (returned served) =
    ok (record { rv = ckr_ok; attempts = none; last_error = cie_clear_error })
conclude last (returned (not_found saw)) = ok (record {
  rv = ckr_token_not_recognized;
  attempts = none;
  last_error = if saw then cie_record_unsupported_card else last;
})
conclude last unsupported = ok (record {
  rv = ckr_token_not_recognized;
  attempts = none;
  last_error = cie_record_unsupported_card;
})
conclude last (raised (scard_error sw)) = ok (record {
  rv = by_kind (cie_classify_sw sw);
  attempts = none;
  last_error = cie_record_sw_error sw;
})
conclude last (raised crash) = throw crash
conclude last (raised e) =
    ok (record { rv = ckr_general_error; attempts = none; last_error = cie_record_transport_error })

module _ {E : Type 0} (cie : Cie E) where
  -- What follows the status word of VerifyPIN or VerifyPUK.
  unfoldable pub after_verify : Call E Search → ℕ → Call E Search
  after_verify go_on sw =
      if sw == 0x6983
      then return (answer ckr_pin_locked none)
      else if leb 0x63c0 sw && leb sw 0x63cf
      then return (answer ckr_pin_incorrect (some (sw - 0x63c0)))
      else if sw == 0x6700 || sw == 0x6300
      then return (answer ckr_pin_incorrect none)
      else if not (sw == 0x9000)
      then fail (scard_error sw)
      else go_on

  unfoldable pub update_cache : List ℕ → List ℕ → Call E (Unit {0})
  unfolding mid left
  update_cache cert new_pin = cie.pan >>= λ pan. lift (mid pan 5 6) >>= λ part.
      lift (left new_pin 4) >>= λ first. cie.set_cache (dump_hex_data part false true) cert first

  -- From IsEnrolled on: the new PIN, and the cached one where the card is enrolled.
  unfoldable pub store_pin : (List ℕ → Call E ℕ) → List ℕ → Call E Search
  store_pin change new_pin = cie.is_enrolled >>= λ enrolled.
      (if enrolled then cie.get_certificate else return []) >>= λ cert. change new_pin >>= λ sw.
      (if not (sw == 0x9000)
        then fail (scard_error sw)
        else ((if enrolled then update_cache cert new_pin else return tt) >> return served))

  unfoldable pub authenticate : Call E (Unit {0})
  authenticate =
      cie.read_pan
      >> (cie.select_aid_cie
          >> (cie.init_enc_key
              >> (cie.read_dapp_pub_key
                  >> (cie.init_dh_param
                      >> (cie.init_ext_auth_key_param >> (cie.dh_key_exchange >> cie.dapp))))))

  -- The session with a card that is a CIE.
  unfoldable pub serve : Call E ℕ → (List ℕ → Call E ℕ) → List ℕ → Call E Search
  serve verify change new_pin =
      authenticate >> (verify >>= λ sw. after_verify (store_pin change new_pin) sw)

  unfoldable pub with_card : Call E Search → Call E Search
  with_card go_on = cie.atr_length >>= λ n.
      if not (n == 0)
      then return (answer ckr_device_error none)
      else (cie.get_atr >>= λ r.
          if not (r.0 == 0)
          then return (answer ckr_device_error none)
          else (cie.new_ias (r.1)
              >> (cie.reset >> λ s.
                  after_select go_on ((cie.select_aid_ias s).0) ((cie.select_aid_ias s).1))))

  -- A round of the loop over the readers.
  unfoldable pub reader_round : Call E Search → List ℕ → Call E Search
  unfolding with_card
  reader_round go_on reader = cie.connect reader >>= λ card.
      finally cie.disconnect (if card then with_card go_on else return (not_found false))

  unfoldable pub search_loop : Call E Search → Bool → List (List ℕ) → Call E Search
  search_loop go_on saw [] = return (not_found saw)
  search_loop go_on saw (reader ∷ readers) = reader_round go_on reader >>= λ found.
      next_reader (λ b. search_loop go_on (saw || b) readers) found

  -- The body of the try block, over what is done with a card.
  unfoldable pub with_cards : Call E Search → Call E Search
  with_cards go_on = cie.establish_context >>= λ n.
      if not (n == 0)
      then return (answer ckr_device_error none)
      else finally cie.release_context (
          cie.readers_length >>= λ l.
          if not (l.0 == 0) || (l.1 == 1)
          then return (answer ckr_token_not_present none)
          else (cie.list_readers >>= λ r.
              if not (r.0 == 0)
              then return (answer ckr_token_not_present none)
              else search_loop go_on false (r.1)))

  -- The function over the verification and the change of its secret.
  unfoldable pub with_secret :
      (List ℕ → Call E ℕ)
      → (List ℕ → List ℕ → Call E ℕ)
      → Option (List ℕ)
      → Option (List ℕ)
      → CieErrorRecord
      → E
      → Result Reply × E
  with_secret verify change secret new_pin last s =
      if is_wrong_length secret || is_wrong_length new_pin
      then (ok (record { rv = ckr_pin_len_range; attempts = none; last_error = last }), s)
      else (let r =
            with_cards (serve (verify (chars secret)) (change (chars secret)) (chars new_pin)) s in
          (conclude last (r.0), r.1))

  unfoldable pub cie_change_pin :
      Option (List ℕ) → Option (List ℕ) → CieErrorRecord → E → Result Reply × E
  unfolding with_secret
  cie_change_pin = with_secret cie.verify_pin cie.change_pin

  unfoldable pub cie_unblock_pin :
      Option (List ℕ) → Option (List ℕ) → CieErrorRecord → E → Result Reply × E
  unfolding with_secret
  cie_unblock_pin = with_secret cie.verify_puk (λ _. cie.set_new_pin)

-- ===== src/Card/PinManager/Tests.antt =====
-- A card for pin_manager.cpp that counts attempts and knows its PIN, behind the second of two readers.
use opencie_pkcs.Base.{
  ℕ, suc, ◌≤◌, ◌==◌, ◌≡◌, ◌≢◌, inl, refl, false, List, [], ◌∷◌, none, some, if◌then◌else◌, length,
  ok, arith,
}
use opencie_pkcs.Util.Array.{equal}
use opencie_pkcs.Card.Errors.{cie_clear_error}
use opencie_pkcs.Card.PinManager.{
  returned, Call, return, Cie, cie_change_pin, cie_unblock_pin, ckr_pin_incorrect, ckr_pin_locked,
  Reply, chars,
}
use opencie_pkcs.Card.PinManager.Calls.{Keeps, Costs}
use opencie_pkcs.P11.Constants.{ckr_ok}
use opencie_pkcs.Card.PinManager.Success.{cie_change_pin-refused}
use opencie_pkcs.Card.PinManager.Attempts.{Tried, attempts_lem}

-- The number of failed attempts, and the PIN.
abbrev pub Card : Type 0
Card = ℕ × List ℕ

abbrev compare_pin : List ℕ → Call Card ℕ
compare_pin p s = (
  returned (if equal p (s.1) then 0x9000 else 0x63c2),
  (if equal p (s.1) then s.0 else suc (s.0), s.1),
)

abbrev store : List ℕ → Call Card ℕ
store p s = (returned 0x9000, (s.0, p))

abbrev pub counting_card : Cie Card
counting_card = record {
  establish_context = return 0;
  release_context = λ s. s;
  readers_length = return (0, 5);
  list_readers = return (0, (65 ∷ []) ∷ (66 ∷ 67 ∷ []) ∷ []);
  connect = λ r. return (length r == 2);
  disconnect = λ s. s;
  atr_length = return 0;
  get_atr = return (0, 0x3b ∷ []);
  new_ias = λ atr. return tt;
  reset = return tt;
  select_aid_ias = return tt;
  read_pan = return tt;
  select_aid_cie = return tt;
  init_enc_key = return tt;
  read_dapp_pub_key = return tt;
  init_dh_param = return tt;
  init_ext_auth_key_param = return tt;
  dh_key_exchange = return tt;
  dapp = return tt;
  verify_pin = compare_pin;
  verify_puk = compare_pin;
  change_pin = λ p q. store q;
  set_new_pin = store;
  is_enrolled = return false;
  get_certificate = return [];
  pan = return [];
  set_cache = λ a b c. return tt;
}

abbrev pub old_pin : List ℕ
old_pin = 1 ∷ 2 ∷ 3 ∷ 4 ∷ 5 ∷ 6 ∷ 7 ∷ 8 ∷ []

abbrev pub new_pin : List ℕ
new_pin = 8 ∷ 7 ∷ 6 ∷ 5 ∷ 4 ∷ 3 ∷ 2 ∷ 1 ∷ []

pub law : Tried counting_card (λ s. s.0)
unfolding Keeps Costs
law = record {
  establishing = λ s. refl;
  releasing = λ s. refl;
  counting = λ s. refl;
  listing = λ s. refl;
  connecting = λ r s. refl;
  disconnecting = λ s. refl;
  measuring = λ s. refl;
  identifying = λ s. refl;
  making = λ a s. refl;
  resetting = λ s. refl;
  selecting = λ s. refl;
  reading = λ s. refl;
  selecting_cie = λ s. refl;
  keying = λ s. refl;
  reading_key = λ s. refl;
  preparing = λ s. refl;
  preparing_key = λ s. refl;
  exchanging = λ s. refl;
  proving = λ s. refl;
  verifying = λ p s. ground arith;
  verifying_puk = λ p s. ground arith;
  changing = λ p q s. omega arith;
  setting = λ q s. omega arith;
  asking = λ s. refl;
  fetching = λ s. refl;
  showing = λ s. refl;
  caching = λ a b c s. refl;
}

right_secret :
    (p : List ℕ) (t : Card) → (compare_pin p t).0 ≡ returned 0x9000 → (compare_pin p t).1.0 ≤ t.0
right_secret p t e = ground arith

attempts_lem_example :
    ((cie_change_pin counting_card (some new_pin) (some old_pin) cie_clear_error (4, old_pin)).1.0
      ≤ 5)
    × ((cie_unblock_pin counting_card
          (some new_pin)
          (some old_pin)
          cie_clear_error
          (4, old_pin)).1.0
        ≤ 5)
attempts_lem_example =
    attempts_lem counting_card (λ s. s.0) law (some new_pin) (some old_pin) cie_clear_error
      (4, old_pin) right_secret right_secret

-- A card with a locked PIN.
abbrev locked_card : Cie Card
locked_card = record counting_card { verify_pin = λ p. return 0x6983 }

abbrev locked_reply : Reply
locked_reply = record { rv = ckr_pin_locked; attempts = none; last_error = cie_clear_error }

locked : (t : Card) → (locked_card.verify_pin (chars (some old_pin)) t).0 ≢ returned 0x9000
locked t = ground arith

locked_answer :
    (cie_change_pin locked_card (some old_pin) (some new_pin) cie_clear_error (0, old_pin)).0
    ≡ ok locked_reply
unfolding cie_change_pin opencie_pkcs.Card.PinManager.strnlen opencie_pkcs.Card.PinManager.conclude
    opencie_pkcs.Card.PinManager.with_cards opencie_pkcs.Card.PinManager.search_loop
    opencie_pkcs.Card.PinManager.reader_round opencie_pkcs.Card.PinManager.serve
    opencie_pkcs.Card.PinManager.authenticate opencie_pkcs.Card.PinManager.after_verify
locked_answer = refl

cie_change_pin-refused_example : locked_reply.rv ≢ ckr_ok
cie_change_pin-refused_example =
    cie_change_pin-refused locked_card (some old_pin) (some new_pin) cie_clear_error (0, old_pin)
      locked_reply (inl locked) locked_answer

change_pin_right :
    cie_change_pin counting_card (some old_pin) (some new_pin) cie_clear_error (0, old_pin)
    ≡ (ok (record { rv = 0; attempts = none; last_error = cie_clear_error }), (0, new_pin))
unfolding cie_change_pin opencie_pkcs.Card.PinManager.strnlen opencie_pkcs.Card.PinManager.conclude
    opencie_pkcs.Card.PinManager.with_cards opencie_pkcs.Card.PinManager.search_loop
    opencie_pkcs.Card.PinManager.reader_round opencie_pkcs.Card.PinManager.serve
    opencie_pkcs.Card.PinManager.authenticate opencie_pkcs.Card.PinManager.after_verify equal
    opencie_pkcs.Card.PinManager.store_pin
change_pin_right = refl

-- The last error does not tell of the wrong PIN.
change_pin_wrong :
    cie_change_pin counting_card (some new_pin) (some old_pin) cie_clear_error (0, old_pin) ≡ (
      ok (record { rv = ckr_pin_incorrect; attempts = some 2; last_error = cie_clear_error }),
      (1, old_pin),
    )
unfolding cie_change_pin opencie_pkcs.Card.PinManager.strnlen opencie_pkcs.Card.PinManager.conclude
    opencie_pkcs.Card.PinManager.with_cards opencie_pkcs.Card.PinManager.search_loop
    opencie_pkcs.Card.PinManager.reader_round opencie_pkcs.Card.PinManager.serve
    opencie_pkcs.Card.PinManager.authenticate opencie_pkcs.Card.PinManager.after_verify equal
change_pin_wrong = refl

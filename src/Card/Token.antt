-- ===== src/Card/Token.antt =====
-- CToken of shared/src/pcsc/token.cpp and APDU of shared/src/pcsc/apdu.cpp. `reader` stands for
-- the transmit callback: it takes a command and gives a return code and the bytes of the answer.
use opencie_pkcs.Base.{
  ℕ, ◌-◌, ◌/◌, ◌%◌, true, ◌||◌, List, [], ◌∷◌, ◌++◌, Option, none, some, ltb, ◌==◌, not,
  if◌then◌else◌, length, take, drop, Result, ok, throw, logged_error, card_link_error, scard_error,
  from_bytes,
}
use opencie_pkcs.Base.Outcome.{Outcome, done, thrown}
use opencie_pkcs.Card.Io.{Ias, Io, ◌>>=◌, ◌>>◌, return, guard_not, lift}

-- What the callback does: `SCARD_S_SUCCESS` is 0.
abbrev pub Reader : Type 0 → Type 0
Reader C = List ℕ → C → (ℕ × List ℕ) × C

-- The data and the status word of a response APDU.
abbrev pub Answer : Type 0
Answer = List ℕ × ℕ

unfoldable pub reverse : List ℕ → List ℕ
reverse [] = []
reverse (b ∷ bs) = reverse bs ++ (b ∷ [])

-- `ByteArrayToVar(scResp.right(2).reverse(), uint16_t)`
unfoldable pub status_word : List ℕ → ℕ
unfolding reverse from_bytes
status_word sc_resp = from_bytes (reverse (drop (length sc_resp - 2) sc_resp))

-- What Transmit makes of a return code and an answer.
unfoldable pub received : ℕ → List ℕ → Result Answer
unfolding status_word
received res sc_resp =
    if not (res == 0) || ltb (length sc_resp) 2
    then throw (card_link_error true)
    else ok (take (length sc_resp - 2) sc_resp, status_word sc_resp)

abbrev pub to_outcome : {A : Type 0} → Result A → Outcome A
to_outcome (ok a) = done a
to_outcome (throw e) = thrown e

abbrev pub with_card : {C : Type 0} → Ias C → (ℕ × List ℕ) × C → Outcome Answer × Ias C
with_card s (answer, c) = (to_outcome (received (answer.0) (answer.1)), record s { card = c })

-- The four cases of APDU: the data and the expected length, where there is one.
pub record Apdu : Type 0 where
  pub cla : ℕ
  pub ins : ℕ
  pub p1 : ℕ
  pub p2 : ℕ
  pub data_field : Option (List ℕ)
  pub le : Option ℕ

-- Constructors: the length of the data is a byte, of at most 250 with an expected length and of at most 251
-- without.
unfoldable pub new_apdu : ℕ → ℕ → ℕ → ℕ → Option (List ℕ) → Option ℕ → Result Apdu
new_apdu cla ins p1 p2 none le =
    ok (record { cla = cla; ins = ins; p1 = p1; p2 = p2; data_field = none; le = le })
new_apdu cla ins p1 p2 (some bs) none =
    if ltb 251 (length bs)
    then throw logged_error
    else ok (record { cla = cla; ins = ins; p1 = p1; p2 = p2; data_field = some bs; le = none })
new_apdu cla ins p1 p2 (some bs) (some n) =
    if ltb 250 (length bs)
    then throw logged_error
    else ok (record { cla = cla; ins = ins; p1 = p1; p2 = p2; data_field = some bs; le = some n })

abbrev pub data_octets : Option (List ℕ) → List ℕ
data_octets none = []
data_octets (some bs) = length bs ∷ bs

abbrev pub le_octets : Option ℕ → List ℕ
le_octets none = []
le_octets (some n) = n ∷ []

unfoldable pub apdu_bytes : Apdu → List ℕ
apdu_bytes a = a.cla ∷ a.ins ∷ a.p1 ∷ a.p2 ∷ (data_octets a.data_field ++ le_octets a.le)

module _ {C : Type 0} (reader : Reader C) where
  unfoldable pub transmit : List ℕ → Io C Answer
  unfolding received
  transmit command s = with_card s (reader command s.card)

  unfoldable pub transmit_apdu : Apdu → Io C Answer
  unfolding transmit apdu_bytes
  transmit_apdu a = transmit (apdu_bytes a)

  unfoldable pub select_mf : Io C (Unit {0})
  unfolding transmit_apdu new_apdu
  select_mf = lift (new_apdu 0x00 0xa4 0x00 0x00 none none) >>= λ a.
      transmit_apdu a >>= λ r. guard_not (not (r.1 == 0x9000)) (scard_error (r.1))

  unfoldable pub binary_read : ℕ → ℕ → Io C (List ℕ)
  unfolding transmit_apdu new_apdu
  binary_read start size =
      lift (new_apdu 0x00 0xb0 (start / 256) (start % 256) none (some size)) >>= λ a.
      transmit_apdu a >>= λ r. (guard_not (not (r.1 == 0x9000)) (scard_error (r.1)) >> return (r.0))

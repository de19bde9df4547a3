-- ===== src/Card/Ias/Tests.antt =====
-- The theorems on the commands to the card, applied to small readers and ciphers.
use opencie_pkcs.Base.{
  ℕ, ◌+◌, ◌*◌, ◌/◌, ◌%◌, ◌^◌, ◌<◌, ◌≡◌, refl, inl, true, false, Bool, List, [], ◌∷◌, ◌++◌, ok,
  replicate, length, arith, card_link_error, if◌then◌else◌, throw, none, ◌==◌,
}
use mathlib.Core.List.{append-nil}
use opencie_pkcs.Base.Outcome.{done}
use opencie_pkcs.Util.Array.{equal}
use opencie_pkcs.Card.Retry.{is_retryable}
use opencie_pkcs.Card.Atr.{cie_nxp}
use opencie_pkcs.Card.Io.{Ias}
use opencie_pkcs.Card.Token.{Reader}
use opencie_pkcs.Card.Ias.{send_apdu}
use opencie_pkcs.Card.Ias.Chaining.{Gathers, send_apdu_lem}
use opencie_pkcs.Card.Ias.Serving.{wrong_length, served, response}
use opencie_pkcs.Card.Ias.Messaging.{Cipher, increment}
use opencie_pkcs.Card.Ias.Response.{secure_answer}
use opencie_pkcs.Card.Ias.Commands.{readfile, verify_pin}
use opencie_pkcs.Card.Ias.Plain.{readfile_lem, verify_pin_lem}
use opencie_pkcs.Card.Ias.Unwrapping.{secure_answer_lem, protected_answer, iso_padded}

abbrev file : List ℕ
file = 10 ∷ 20 ∷ 30 ∷ []

-- It takes every command of 5 bytes as READ BINARY, and selects the file on any other.
abbrev file_reader : Reader Bool
file_reader (cla ∷ ins ∷ hi ∷ lo ∷ le ∷ []) c =
    ((0, response (served wrong_length file (hi * 256 + lo) le)), c)
file_reader command c = ((0, response ([], 0x9000)), true)

abbrev lost_reader : Reader Bool
lost_reader command c = ((1, []), c)

abbrev toy_cipher : Cipher
toy_cipher = record {
  raw_encode = λ key bytes. ok bytes;
  raw_decode = λ key bytes. ok bytes;
  mac = λ key bytes. ok (replicate 8 7);
}

abbrev fresh : Ias Bool
fresh = record {
  card = false;
  sess_enc = [];
  sess_mac = [];
  sess_ssc = replicate 8 0;
  active_sm = false;
  atr = [];
  cie_type = cie_nxp;
}

file_reads :
    (c : Bool) (at le : ℕ)
    → c ≡ true
    → at < 2 ^ 15
    → 0 < le
    → le < 2 ^ 8
    → ((file_reader (0x00 ∷ 0xb0 ∷ (at / 256) ∷ (at % 256) ∷ le ∷ []) c).0
        ≡ (0, response (served wrong_length file at le)))
      × ((file_reader (0x00 ∷ 0xb0 ∷ (at / 256) ∷ (at % 256) ∷ le ∷ []) c).1 ≡ true)
file_reads c at le q small positive byte =
    let whole : at / 256 * 256 + at % 256 ≡ at = omega arith in (rw whole refl, q)

readfile_lem_example : (readfile toy_cipher file_reader 1 2 0x1002 [] fresh).0 ≡ done file
unfolding response
readfile_lem_example =
    readfile_lem file_reader wrong_length file (λ c. c ≡ true) file_reads toy_cipher 0 2 0x1002 []
      fresh refl (omega arith) refl refl (omega arith) (omega arith)

verify_pin_lem_example : is_retryable (card_link_error false) ≡ false
unfolding verify_pin opencie_pkcs.Util.Array.copy opencie_pkcs.Util.Array.fill_mid
    opencie_pkcs.Util.Array.put opencie_pkcs.Util.Asn1.asn1_l_length
    opencie_pkcs.Util.Array.mid_from opencie_pkcs.Util.Asn1.put_asn1_length
verify_pin_lem_example =
    verify_pin_lem toy_cipher lost_reader 1 1 (1 ∷ 2 ∷ []) fresh (card_link_error false) (inl refl)

abbrev enciphered : List ℕ
enciphered = iso_padded (1 ∷ 2 ∷ [])

secure_answer_lem_example :
    secure_answer toy_cipher [] []
      (protected_answer (1 ∷ 2 ∷ 0x80 ∷ 0 ∷ 0 ∷ 0 ∷ 0 ∷ 0 ∷ []) 0x9000 (replicate 8 7))
      (replicate 8 0)
    ≡ (if equal (replicate 8 7) (replicate 8 7)
        then ok (1 ∷ 2 ∷ [], 0x9000)
        else throw (card_link_error true))
unfolding opencie_pkcs.Util.Padding.Iso.iso_pad_len
secure_answer_lem_example =
    secure_answer_lem toy_cipher [] [] (replicate 8 0) (1 ∷ 2 ∷ 0x80 ∷ 0 ∷ 0 ∷ 0 ∷ 0 ∷ 0 ∷ [])
      (1 ∷ 2 ∷ []) (replicate 8 7) (replicate 8 7) 0x9000 (omega arith) (omega arith) refl refl refl

counter : increment (0 ∷ 4 ∷ 255 ∷ []) ≡ 0 ∷ 5 ∷ 0 ∷ []
unfolding increment
counter = refl

-- It gathers the data of a chain, and on the last command tells how much it has.
abbrev gathering_reader : Reader (List ℕ)
gathering_reader (cla ∷ ins ∷ p1 ∷ p2 ∷ lc ∷ part) c =
    if cla == 0x10
    then ((0, response ([], 0x9000)), c ++ part)
    else ((0, response (length (c ++ part) / 256 ∷ length (c ++ part) % 256 ∷ [], 0x9000)), [])
gathering_reader short c = ((0, []), c)

abbrev put_data : List ℕ
put_data = 0x00 ∷ 0xda ∷ 0x01 ∷ 0x02 ∷ []

abbrev told : List ℕ → List ℕ × ℕ
told xs = (length xs / 256 ∷ length xs % 256 ∷ [], 0x9000)

gathers : Gathers gathering_reader put_data none told (λ c xs. c ≡ xs)
gathers c xs part e short = rw (append-nil part) (rw e (refl, refl, refl))

abbrev empty_card : Ias (List ℕ)
empty_card = record {
  card = [];
  sess_enc = [];
  sess_mac = [];
  sess_ssc = [];
  active_sm = false;
  atr = [];
  cie_type = cie_nxp;
}

send_apdu_lem_example :
    (send_apdu gathering_reader 1 put_data (replicate 300 5) none empty_card).0
    ≡ done (told (replicate 300 5))
send_apdu_lem_example =
    send_apdu_lem gathering_reader put_data none told (λ c xs. c ≡ xs) gathers
      (λ xs. (omega arith, refl)) 0 (replicate 300 5) empty_card refl (omega arith)

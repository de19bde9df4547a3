-- ===== src/Card/Ias/Unwrapping.antt =====
-- What respSM gives for an answer that the card has protected.
use opencie_pkcs.Base.{
  ℕ, suc, ◌+◌, ◌-◌, ◌*◌, ◌/◌, ◌%◌, ◌^◌, ◌<◌, ◌≡◌, refl, sym, ap, ◌∙◌, true, false, List, [], ◌∷◌,
  ◌++◌, ltb, ◌==◌, if◌then◌else◌, length, drop, replicate, arith, length-append, ok, throw,
  card_link_error, Bool-cases, inl, inr, le→ltb, take-append, drop-append, length-drop,
}
use mathlib.Core.List.{append-nil, append_assoc}
use opencie_pkcs.Util.Array.{get, mid, equal, resize_keep}
use opencie_pkcs.Util.Padding.Iso.{
  iso_pad, iso_pad_len, iso_pad-shape, iso_pad_len_bounds, remove_iso_pad-padded,
}
use opencie_pkcs.Util.Asn1.Write.{length_octets}
use opencie_pkcs.Card.Ias.Messaging.{Cipher}
use opencie_pkcs.Card.Ias.Response.{
  Objects, object_length, status_object, mac_object, padded_object, one_object, objects_loop,
  checked_objects, plain_data, secure_answer,
}

abbrev pub iso_padded : List ℕ → List ℕ
iso_padded msg = msg ++ (0x80 ∷ replicate (iso_pad_len (length msg) - suc (length msg)) 0)

iso_pad_lem : (msg : List ℕ) → iso_pad msg ≡ ok (iso_padded msg)
iso_pad_lem msg =
    iso_pad-shape msg (iso_pad_len (length msg) - suc (length msg))
      (omega (arith, (iso_pad_len_bounds (length msg)).0))

-- The object 87 of enciphered data, none where there is no data.
unfoldable pub data_octets : List ℕ → List ℕ
data_octets [] = []
data_octets (b ∷ bs) = 0x87 ∷ (length_octets (suc (length (b ∷ bs))) ++ (1 ∷ b ∷ bs))

-- The object 99 of a status word.
abbrev pub status_octets : ℕ → List ℕ
status_octets sw = 0x99 ∷ 2 ∷ (sw / 256) ∷ (sw % 256) ∷ []

unfoldable pub protected_answer : List ℕ → ℕ → List ℕ → List ℕ
unfolding data_octets
protected_answer enc sw mac = data_octets enc ++ (status_octets sw ++ (0x8e ∷ 8 ∷ mac))

mid_lem :
    (a front xs ys : List ℕ) (start size : ℕ)
    → a ≡ front ++ (xs ++ ys)
    → start ≡ length front
    → size ≡ length xs
    → mid a start size ≡ ok xs
unfolding mid
mid_lem a front xs ys start size e f g =
    rw (e, f, g, drop-append front (xs ++ ys), take-append xs ys)
      (ground (arith, length-append front (xs ++ ys), length-append xs ys))

status_object_lem :
    (o : Objects) (sw : ℕ) (rest : List ℕ)
    → sw < 2 ^ 16
    → one_object o (status_octets sw ++ rest)
      ≡ ok (record o { sw = sw; calc_mac = o.calc_mac ++ status_octets sw }, 4)
unfolding one_object status_object get
status_object_lem o sw rest small =
    let whole : sw / 256 * 256 + sw % 256 ≡ sw = omega arith in
    rw (mid_lem (status_octets sw ++ rest) [] (status_octets sw) rest 0 4 refl refl refl, whole)
      refl

mac_object_lem :
    (o : Objects) (m : List ℕ)
    → length m ≡ 8
    → one_object o (0x8e ∷ 8 ∷ m) ≡ ok (record o { resp_mac = m }, 10)
unfolding one_object mac_object get
mac_object_lem o m e =
    rw (mid_lem (0x8e ∷ 8 ∷ m) (0x8e ∷ 8 ∷ []) m [] 2 8 (rw (append-nil m) refl) refl (sym e)) refl

object_length_lem :
    (t n : ℕ) (rest : List ℕ)
    → n < 2 ^ 16
    → object_length (t ∷ (length_octets n ++ rest)) ≡ ok (length (length_octets n) - 1, n)
unfolding object_length length_octets get
object_length_lem t n rest small = ground arith

length_octets-pos : (n : ℕ) → 0 < length (length_octets n)
unfolding length_octets
length_octets-pos n = ground arith

padded_object_lem :
    (o : Objects) (b : ℕ) (bs more : List ℕ)
    → length bs + 2 < 2 ^ 16
    → one_object o (data_octets (b ∷ bs) ++ more)
      ≡ ok (
        record o { enc_data = b ∷ bs; calc_mac = o.calc_mac ++ data_octets (b ∷ bs) },
        length (data_octets (b ∷ bs)),
      )
unfolding one_object padded_object get data_octets
padded_object_lem o b bs more small =
    let n = suc (suc (length bs)) in
    let octets = length_octets n in
    let field = octets ++ (1 ∷ b ∷ bs) in
    let pos = length_octets-pos n in
    let whole = length-append octets (1 ∷ b ∷ bs) in
    let one = append_assoc octets (1 ∷ b ∷ bs) more in
    let front : 0x87 ∷ (field ++ more) ≡ (0x87 ∷ (octets ++ (1 ∷ []))) ++ ((b ∷ bs) ++ more) =
      ap (λ x. 0x87 ∷ x) (one ∙ sym (append_assoc octets (1 ∷ []) ((b ∷ bs) ++ more))) in
    let enc =
      mid_lem (0x87 ∷ (field ++ more)) (0x87 ∷ (octets ++ (1 ∷ []))) (b ∷ bs) more
        (length octets - 1 + 3) (n - 1) front (omega (arith, pos, length-append octets (1 ∷ [])))
        (omega arith) in
    let part =
      mid_lem (0x87 ∷ (field ++ more)) [] (0x87 ∷ field) more 0 (n + (length octets - 1) + 2) refl
        refl (omega (arith, pos, whole)) in
    let used : length octets - 1 + n + 2 ≡ suc (length field) = omega (arith, pos, whole) in
    let long : ltb n 1 ≡ false = le→ltb _ _ (omega arith) in
    let len : object_length (0x87 ∷ (field ++ more)) ≡ ok (length octets - 1, n) =
      rw one (object_length_lem 0x87 n ((1 ∷ b ∷ bs) ++ more) (omega (arith, small))) in
    rw (len, long, enc, part, used) refl

last_objects :
    (fuel : ℕ) (o : Objects) (sw : ℕ) (m : List ℕ)
    → sw < 2 ^ 16
    → length m ≡ 8
    → objects_loop (suc (suc fuel)) o (status_octets sw ++ (0x8e ∷ 8 ∷ m))
      ≡ ok (record o { sw = sw; calc_mac = o.calc_mac ++ status_octets sw; resp_mac = m })
unfolding objects_loop
last_objects fuel o sw m small e =
    let o1 : Objects = record o { sw = sw; calc_mac = o.calc_mac ++ status_octets sw } in
    let end : (length (drop 8 m) == 0) ≡ true = ground (arith, length-drop 8 m) in
    let some : (suc (suc (length m)) == 0) ≡ false = ground arith in
    rw (status_object_lem o sw (0x8e ∷ 8 ∷ m) small, some, mac_object_lem o1 m e, end) refl

abbrev start : List ℕ → Objects
start seq = record { sw = 0xffff; enc_data = []; resp_mac = []; calc_mac = seq }

all_objects :
    (fuel : ℕ) (seq enc : List ℕ) (sw : ℕ) (m : List ℕ)
    → sw < 2 ^ 16
    → length m ≡ 8
    → length enc + 1 < 2 ^ 16
    → objects_loop (suc (suc (suc fuel))) (start seq) (protected_answer enc sw m)
      ≡ ok (record {
        sw = sw;
        enc_data = enc;
        calc_mac = seq ++ (data_octets enc ++ status_octets sw);
        resp_mac = m;
      })
unfolding protected_answer data_octets objects_loop
all_objects fuel seq [] sw m small e short = last_objects (suc fuel) (start seq) sw m small e
all_objects fuel seq (b ∷ bs) sw m small e short =
    let enc = data_octets (b ∷ bs) in
    let rest = status_octets sw ++ (0x8e ∷ 8 ∷ m) in
    let o1 : Objects = record {
      sw = 0xffff;
      enc_data = b ∷ bs;
      resp_mac = [];
      calc_mac = seq ++ enc;
    } in
    let some : (length rest == 0) ≡ false = ground arith in
    rw
      (
        padded_object_lem (start seq) b bs rest (omega (arith, short)),
        drop-append enc rest,
        some,
        last_objects fuel o1 sw m small e,
        append_assoc seq enc (status_octets sw),
      )
      refl

-- What the card enciphered to `enc`.
abbrev pub Deciphers : Cipher → List ℕ → List ℕ → List ℕ → Type 0
Deciphers cipher key [] plain = plain ≡ []
Deciphers cipher key (b ∷ bs) plain = cipher.raw_decode key (b ∷ bs) ≡ ok (iso_padded plain)

plain_data_lem :
    (cipher : Cipher) (key enc plain : List ℕ)
    → Deciphers cipher key enc plain
    → plain_data cipher key enc ≡ ok plain
unfolding plain_data resize_keep
plain_data_lem cipher key [] plain h = rw h refl
plain_data_lem cipher key (b ∷ bs) plain h =
    let n = iso_pad_len (length plain) - suc (length plain) in
    let some : (suc (length bs) == 0) ≡ false = ground arith in
    let none : length plain - length (iso_padded plain) ≡ 0 =
      omega (arith, length-append plain (0x80 ∷ replicate n 0)) in
    rw
      (
        some,
        h,
        remove_iso_pad-padded plain n,
        none,
        take-append plain (0x80 ∷ replicate n 0),
        append-nil plain,
      )
      refl

answer_length :
    (enc : List ℕ) (sw : ℕ) (m : List ℕ)
    → length (protected_answer enc sw m) ≡ suc (suc (length (data_octets enc) + 4 + length m))
unfolding protected_answer
answer_length enc sw m =
    omega (arith, length-append (data_octets enc) (status_octets sw ++ (0x8e ∷ 8 ∷ m)))

-- For an answer made of enciphered data of at most 65534 bytes or none, a status word and a
-- checksum of 8 bytes, respSM compares the checksum with that of the raised counter, the data
-- object and the status object, padded. If they are the same it returns the deciphered data
-- without their padding and the status word, and else it throws a retryable card_link_error.
pub secure_answer_lem :
    (cipher : Cipher) (key_enc key_sig seq enc plain m right : List ℕ) (sw : ℕ)
    → sw < 2 ^ 16
    → length enc + 1 < 2 ^ 16
    → Deciphers cipher key_enc enc plain
    → cipher.mac key_sig (iso_padded (seq ++ (data_octets enc ++ status_octets sw))) ≡ ok right
    → length m ≡ 8
    → secure_answer cipher key_enc key_sig (protected_answer enc sw m) seq
      ≡ (if equal right m then ok (plain, sw) else throw (card_link_error true))
unfolding secure_answer checked_objects
secure_answer_lem cipher key_enc key_sig seq enc plain m right sw small short h mac e =
    let to_sign = seq ++ (data_octets enc ++ status_octets sw) in
    let fuel = length (data_octets enc) + 4 + length m in
    elim (Bool-cases (equal right m)) [
      | inl q ↦
          rw
            (
              answer_length enc sw m,
              all_objects fuel seq enc sw m small e short,
              iso_pad_lem to_sign,
              mac,
              q,
              plain_data_lem cipher key_enc enc plain h,
            )
            refl
      | inr q ↦
          rw
            (
              answer_length enc sw m,
              all_objects fuel seq enc sw m small e short,
              iso_pad_lem to_sign,
              mac,
              q,
            )
            refl
    ]

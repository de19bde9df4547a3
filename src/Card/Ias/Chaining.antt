-- ===== src/Card/Ias/Chaining.antt =====
-- SendAPDU of any length of data, on a card that follows the command chaining of ISO/IEC 7816-4.
use opencie_pkcs.Base.{
  ℕ, zero, suc, ◌*◌, ◌/◌, ◌%◌, ◌^◌, ◌<◌, ◌≤◌, ◌≡◌, refl, ap, ◌∙◌, false, List, [], ◌∷◌, ◌++◌, ltb,
  ◌==◌, length, take, drop, arith, Option, length-drop, length-take, take_past, take-append-drop,
  Bool-cases, inl, inr, ltb→lt,
}
use mathlib.Core.List.{append_assoc}
use opencie_pkcs.Base.Outcome.{done}
use opencie_pkcs.Card.Io.{Ias}
use opencie_pkcs.Card.Token.{Reader, Answer, le_octets}
use opencie_pkcs.Card.Ias.{
  send_apdu, chain_loop, get_resp, get_resp_loop, short_command, with_class, class_of, chained,
}
use opencie_pkcs.Card.Ias.Serving.{response}
use opencie_pkcs.Card.Ias.Plain.{transmit_lem}

-- A command with a length of the data.
abbrev pub command : List ℕ → List ℕ → Option ℕ → List ℕ
command head part le = head ++ (length part ∷ (part ++ le_octets le))

-- A card that gathers the data of a chain, so that `B c xs` says that it has `xs`, and on the last
-- command answers as `execute` says for all of it.
abbrev pub Gathers :
    {C : Type 0} → Reader C → List ℕ → Option ℕ → (List ℕ → Answer) → (C → List ℕ → Type 0) → Type 0
Gathers {C} reader head le execute B =
    (c : C) (xs part : List ℕ)
    → B c xs
    → length part ≤ 255
    → ((reader (command (with_class (chained (class_of head)) head) part le) c).0
        ≡ (0, response ([], 0x9000)))
      × B ((reader (command (with_class (chained (class_of head)) head) part le) c).1) (xs ++ part)
      × ((reader (command head part le) c).0 ≡ (0, response (execute (xs ++ part))))

with_class_of : (head : List ℕ) → with_class (class_of head) head ≡ head
with_class_of [] = refl
with_class_of (b ∷ bs) = refl

short_lem : (n : ℕ) → ltb 255 n ≡ false → n ≤ 255
short_lem n q = ground arith

module _ {C : Type 0} (reader : Reader C) (head : List ℕ) (le : Option ℕ)
    (execute : List ℕ → Answer) (B : C → List ℕ → Type 0)
    (gathers : Gathers reader head le execute B)
    (status : (xs : List ℕ)
      → ((execute xs).1 < 2 ^ 16) × (((execute xs).1 / 256 == 0x61) ≡ false)) where
  get_resp_lem :
      (fuel : ℕ) (r : Answer) (s : Ias C)
      → (r.1 / 256 == 0x61) ≡ false
      → (get_resp reader (suc fuel) r s).0 ≡ done r
  unfolding get_resp get_resp_loop
  get_resp_lem fuel r s e = rw e refl

  chain_loop_lem :
      (fuel rounds : ℕ) (xs rest : List ℕ) (s : Ias C)
      → B s.card xs
      → length rest ≤ 255 * rounds
      → 0 < rounds
      → (chain_loop reader (suc fuel) rounds head rest le s).0 ≡ done (execute (xs ++ rest))
  unfolding chain_loop
  chain_loop_lem fuel zero xs rest s b enough pos = absurd (omega (arith, pos))
  chain_loop_lem fuel (suc rounds) xs rest s b enough pos =
      elim (Bool-cases (ltb 255 (length rest))) [
        | inl q ↦
            let long : 255 < length rest = ltb→lt 255 (length rest) q in
            let full : length (take 255 rest) ≡ 255 = length-take 255 rest (omega (arith, long)) in
            let n : length (take 255 rest) % 256 ≡ length (take 255 rest) = omega (arith, full) in
            let got = gathers s.card xs (take 255 rest) b (omega (arith, full)) in
            let more =
              chain_loop_lem fuel rounds (xs ++ take 255 rest) (drop 255 rest)
                (record s {
                  card =
                      (reader
                        (command (with_class (chained (class_of head)) head) (take 255 rest) le)
                        s.card).1;
                })
                (got.1) (omega (arith, enough, length-drop 255 rest))
                (omega (arith, long, enough)) in
            let whole : xs ++ take 255 rest ++ drop 255 rest ≡ xs ++ rest =
              append_assoc xs (take 255 rest) (drop 255 rest)
              ∙ ap (λ ys. xs ++ ys) (take-append-drop 255 rest) in
            rw (q, n, transmit_lem reader _ s ([], 0x9000) (omega arith) (got.0))
              (more ∙ ap (λ ys. done (execute ys)) whole)
        | inr q ↦
            let short = short_lem (length rest) q in
            let all : take 255 rest ≡ rest = take_past 255 rest short in
            let n : length rest % 256 ≡ length rest = omega (arith, short) in
            let got = gathers s.card xs rest b short in
            rw
              (
                q,
                all,
                n,
                with_class_of head,
                transmit_lem reader _ s (execute (xs ++ rest)) ((status (xs ++ rest)).0) (got.2),
              )
              (get_resp_lem fuel (execute (xs ++ rest)) _ ((status (xs ++ rest)).1))
      ]

  -- On a card that gathers the data of chained commands as ISO/IEC 7816-4 says, and answers the
  -- last of them by a function of all the data, whose status words are below 2 ^ 16 and no 61xx,
  -- SendAPDU of any data but none ends with what that function gives for the data, as one command
  -- with all of it would.
  pub send_apdu_lem :
      (fuel : ℕ) (bytes : List ℕ) (s : Ias C)
      → B s.card []
      → 0 < length bytes
      → (send_apdu reader (suc fuel) head bytes le s).0 ≡ done (execute bytes)
  unfolding send_apdu short_command
  send_apdu_lem fuel [] s b pos = absurd (omega (arith, pos))
  send_apdu_lem fuel (x ∷ xs) s b pos = elim (Bool-cases (ltb 255 (length (x ∷ xs)))) [
    | inl q ↦
        rw q (chain_loop_lem fuel (length (x ∷ xs)) [] (x ∷ xs) s b (omega arith) (omega arith))
    | inr q ↦
        let short = short_lem (length (x ∷ xs)) q in
        let n : length (x ∷ xs) % 256 ≡ length (x ∷ xs) = omega (arith, short) in
        let got = gathers s.card [] (x ∷ xs) b short in
        rw (q, n, transmit_lem reader _ s (execute (x ∷ xs)) ((status (x ∷ xs)).0) (got.2))
          (get_resp_lem fuel (execute (x ∷ xs)) _ ((status (x ∷ xs)).1))
  ]

-- ===== src/Card/PinManager/Success.antt =====
-- What the card has answered where a function of pin_manager.cpp answers CKR_OK.
use opencie_pkcs.Card.PinManager.Served.{
  is_success, Proves, Answered, found_none-Proves, bind-Proves, then-Proves, answer-Proves,
  next_reader-Proves, after_select-Proves,
}
use opencie_pkcs.Base.{
  ℕ, ◌≡◌, ◌≢◌, ◌⊎◌, inl, inr, refl, ◌∙◌, ap, Bool, true, false, not, ◌||◌, List, [], ◌∷◌, Option,
  none, ◌==◌, if◌then◌else◌, Result, ok, scard_error, crash, arith,
}
use opencie_pkcs.P11.Constants.{ckr_ok}
use opencie_pkcs.Card.Errors.{CieErrorRecord, Kind, cie_classify_sw}
use opencie_pkcs.Card.PinManager.{
  Try, returned, unsupported, raised, Call, ◌>>◌, return, fail, Cie, Reply, Search, answer, served,
  not_found, finally, after_select, after_verify, update_cache, store_pin, authenticate, serve,
  with_card, reader_round, search_loop, with_cards, with_secret, chars, cie_change_pin,
  is_wrong_length, conclude, by_kind,
}

module _ {E : Type 0} (cie : Cie E) where
  after_verify-Proves :
      (P : Type 0) (go_on : Call E Search) (sw : ℕ)
      → (sw ≡ 0x9000 → Proves P go_on)
      → Proves P (after_verify cie go_on sw)
  unfolding after_verify Proves
  after_verify-Proves P go_on sw k s h =
      let both : (sw ≡ 0x9000) × (is_success ((go_on s).0) ≡ true) = ground arith in
      k (both.0) s (both.1)

  changed-Proves :
      (P : Type 0) (m : Call E Search) (sw : ℕ)
      → (sw ≡ 0x9000 → P)
      → Proves P (if not (sw == 0x9000) then fail (scard_error sw) else m)
  unfolding Proves
  changed-Proves P m sw k s h = k (ground arith)

  store_pin-Proves :
      (P : Type 0) (change : List ℕ → Call E ℕ) (new_pin : List ℕ)
      → (Answered (change new_pin) 0x9000 → P)
      → Proves P (store_pin cie change new_pin)
  unfolding store_pin
  store_pin-Proves P change new_pin k = then-Proves P cie.is_enrolled _ λ b.
      then-Proves P (if b then cie.get_certificate else return []) _ λ cert.
        bind-Proves P (change new_pin) _ λ s sw e.
          changed-Proves P
            ((if b then update_cache cie cert new_pin else return tt) >> return served) sw
            λ same. k (s, e ∙ ap (λ n. returned n) same)

  serve-Proves :
      (verify : Call E ℕ) (change : List ℕ → Call E ℕ) (new_pin : List ℕ)
      → Proves
          (Answered verify 0x9000 × Answered (change new_pin) 0x9000)
          (serve cie verify change new_pin)
  unfolding serve
  serve-Proves verify change new_pin =
      let P = Answered verify 0x9000 × Answered (change new_pin) 0x9000 in
      then-Proves P (authenticate cie) _ λ _. bind-Proves P verify _ λ s sw e.
        after_verify-Proves P (store_pin cie change new_pin) sw
          λ same. store_pin-Proves P change new_pin λ a. ((s, e ∙ ap (λ n. returned n) same), a)

  select-Proves :
      (P : Type 0) (go_on : Call E Search)
      → Proves P go_on
      → Proves P (λ s. after_select go_on ((cie.select_aid_ias s).0) ((cie.select_aid_ias s).1))
  unfolding Proves
  select-Proves P go_on k s h =
      after_select-Proves P go_on ((cie.select_aid_ias s).0) k ((cie.select_aid_ias s).1) h

  with_card-Proves :
      (P : Type 0) (go_on : Call E Search) → Proves P go_on → Proves P (with_card cie go_on)
  unfolding with_card
  with_card-Proves P go_on k = then-Proves P cie.atr_length _ λ n.
      answer-Proves P (not (n == 0)) _ _ refl (
        then-Proves P cie.get_atr _ λ r. answer-Proves P (not (r.0 == 0)) _ _ refl (
          then-Proves P (cie.new_ias (r.1)) _
            λ _. then-Proves P cie.reset _ λ _. select-Proves P go_on k))

  found_card-Proves :
      (P : Type 0) (b : Bool) (go_on : Call E Search)
      → Proves P go_on
      → Proves P (if b then with_card cie go_on else return (not_found false))
  found_card-Proves P true go_on k = with_card-Proves P go_on k
  found_card-Proves P false go_on k = found_none-Proves E P false

  finally-Proves :
      (P : Type 0) (close : E → E) (m : Call E Search) → Proves P m → Proves P (finally close m)
  unfolding Proves
  finally-Proves P close m k s h = k s h

  search_loop-Proves :
      (P : Type 0) (go_on : Call E Search) (saw : Bool) (readers : List (List ℕ))
      → Proves P go_on
      → Proves P (search_loop cie go_on saw readers)
  unfolding search_loop reader_round
  search_loop-Proves P go_on saw [] k = found_none-Proves E P saw
  search_loop-Proves P go_on saw (reader ∷ readers) k =
      next_reader-Proves P (reader_round cie go_on reader) _
        (then-Proves P (cie.connect reader) _
          λ b. finally-Proves P cie.disconnect _ (found_card-Proves P b go_on k))
        (λ b. search_loop-Proves P go_on (saw || b) readers k)

  with_cards-Proves :
      (P : Type 0) (go_on : Call E Search) → Proves P go_on → Proves P (with_cards cie go_on)
  unfolding with_cards
  with_cards-Proves P go_on k = then-Proves P cie.establish_context _ λ n.
      answer-Proves P (not (n == 0)) _ _ refl (
        finally-Proves P cie.release_context _ (
          then-Proves P cie.readers_length _ λ l.
            answer-Proves P (not (l.0 == 0) || (l.1 == 1)) _ _ refl (
              then-Proves P cie.list_readers _ λ r.
                answer-Proves P (not (r.0 == 0)) _ _ refl
                  (search_loop-Proves P go_on false (r.1) k))))

  by_kind-fails : (k : Kind) → (by_kind k == ckr_ok) ≡ false
  by_kind-fails k = ground arith

  conclude-success :
      (last : CieErrorRecord) (t : Try Search) (r : Reply)
      → conclude last t ≡ ok r
      → r.rv ≡ ckr_ok
      → is_success t ≡ true
  unfolding conclude
  conclude-success last (returned (answer rv a)) r e z = ground arith
  conclude-success last (returned served) r e z = refl
  conclude-success last (returned (not_found b)) r e z = absurd (ground arith)
  conclude-success last unsupported r e z = absurd (ground arith)
  conclude-success last (raised (scard_error sw)) r e z =
      absurd (ground (arith, by_kind-fails (cie_classify_sw sw)))
  conclude-success last (raised crash) r e z = absurd (ground arith)
  conclude-success last (raised x) r e z = absurd (ground arith)

  checked_length :
      (b : Bool) (last : CieErrorRecord) (s : E) (x : Result Reply × E) (r : Reply)
      → (if b then (ok (record { rv = 0xa2; attempts = none; last_error = last }), s) else x).0
        ≡ ok r
      → r.rv ≡ ckr_ok
      → x.0 ≡ ok r
  checked_length true last s x r e z = absurd (ground arith)
  checked_length false last s x r e z = e

  cie_change_pin-Answered :
      (current_pin new_pin : Option (List ℕ)) (last : CieErrorRecord) (s : E) (r : Reply)
      → (cie_change_pin cie current_pin new_pin last s).0 ≡ ok r
      → r.rv ≡ ckr_ok
      → Answered (cie.verify_pin (chars current_pin)) 0x9000
        × Answered (cie.change_pin (chars current_pin) (chars new_pin)) 0x9000
  unfolding cie_change_pin with_secret Proves
  cie_change_pin-Answered current_pin new_pin last s r e z =
      let verify = cie.verify_pin (chars current_pin) in
      let change = cie.change_pin (chars current_pin) in
      let go_on = serve cie verify change (chars new_pin) in
      with_cards-Proves _ go_on (serve-Proves verify change (chars new_pin)) s (
        conclude-success last ((with_cards cie go_on s).0) r
          (checked_length (is_wrong_length current_pin || is_wrong_length new_pin) last s _ r e z)
          z)

  -- On a card whose VerifyPIN never answers 9000 to the current PIN, or whose ChangePIN never
  -- answers 9000 to the current PIN and the new one, cie_change_pin does not answer CKR_OK.
  pub cie_change_pin-refused :
      (current_pin new_pin : Option (List ℕ)) (last : CieErrorRecord) (s : E) (r : Reply)
      → ((t : E) → (cie.verify_pin (chars current_pin) t).0 ≢ returned 0x9000)
        ⊎ ((t : E) → (cie.change_pin (chars current_pin) (chars new_pin) t).0 ≢ returned 0x9000)
      → (cie_change_pin cie current_pin new_pin last s).0 ≡ ok r
      → r.rv ≢ ckr_ok
  cie_change_pin-refused current_pin new_pin last s r (inl never) e z =
      let ((t, same), _) = cie_change_pin-Answered current_pin new_pin last s r e z in never t same
  cie_change_pin-refused current_pin new_pin last s r (inr never) e z =
      let (_, (t, same)) = cie_change_pin-Answered current_pin new_pin last s r e z in never t same

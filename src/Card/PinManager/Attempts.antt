-- ===== src/Card/PinManager/Attempts.antt =====
-- How many attempts at a secret one call of pin_manager.cpp costs.
use opencie_pkcs.Base.{
  ℕ, suc, ◌≤◌, ◌≡◌, refl, Bool, true, false, not, ◌||◌, List, [], ◌∷◌, Option, none, ◌==◌,
  if◌then◌else◌, Exception, Result, ok, throw, scard_error, crash, arith,
}
use opencie_pkcs.Util.Array.{mid, left}
use opencie_pkcs.Util.Hex.{dump_hex_data}
use opencie_pkcs.Card.Errors.{CieErrorRecord}
use opencie_pkcs.Card.PinManager.{
  Try, returned, unsupported, raised, Call, ◌>>◌, return, lift, fail, Cie, Reply, Search, answer,
  served, not_found, after_select, after_verify, update_cache, store_pin, authenticate, serve,
  with_card, reader_round, search_loop, with_cards, with_secret, chars, cie_change_pin,
  cie_unblock_pin, is_wrong_length,
}
use opencie_pkcs.Card.PinManager.Calls.{
  allowance, Keeps, Costs, Once, Last, Spent, bind-Keeps, bind-Last, bind-Once, bind-Spent,
  bind-Last-Spent, bind-verified, bind-next_reader, Keeps→Once, Last→Once, finally-Once,
}

-- That only the verifications and the changes of the PIN can lose an attempt, and each one at most.
pub record Tried {E : Type 0} (cie : Cie E) (tries : E → ℕ) : Type 0 where
  pub establishing : Keeps tries cie.establish_context
  pub releasing : (s : E) → tries (cie.release_context s) ≡ tries s
  pub counting : Keeps tries cie.readers_length
  pub listing : Keeps tries cie.list_readers
  pub connecting : (reader : List ℕ) → Keeps tries (cie.connect reader)
  pub disconnecting : (s : E) → tries (cie.disconnect s) ≡ tries s
  pub measuring : Keeps tries cie.atr_length
  pub identifying : Keeps tries cie.get_atr
  pub making : (atr : List ℕ) → Keeps tries (cie.new_ias atr)
  pub resetting : Keeps tries cie.reset
  pub selecting : Keeps tries cie.select_aid_ias
  pub reading : Keeps tries cie.read_pan
  pub selecting_cie : Keeps tries cie.select_aid_cie
  pub keying : Keeps tries cie.init_enc_key
  pub reading_key : Keeps tries cie.read_dapp_pub_key
  pub preparing : Keeps tries cie.init_dh_param
  pub preparing_key : Keeps tries cie.init_ext_auth_key_param
  pub exchanging : Keeps tries cie.dh_key_exchange
  pub proving : Keeps tries cie.dapp
  pub verifying : (pin : List ℕ) → Costs tries (cie.verify_pin pin)
  pub verifying_puk : (puk : List ℕ) → Costs tries (cie.verify_puk puk)
  pub changing : (pin new_pin : List ℕ) → Costs tries (cie.change_pin pin new_pin)
  pub setting : (new_pin : List ℕ) → Costs tries (cie.set_new_pin new_pin)
  pub asking : Keeps tries cie.is_enrolled
  pub fetching : Keeps tries cie.get_certificate
  pub showing : Keeps tries cie.pan
  pub caching : (pan cert pin : List ℕ) → Keeps tries (cie.set_cache pan cert pin)

allowance_bound : (r : Try Search) → allowance r ≤ 1
allowance_bound (returned (answer rv a)) = omega arith
allowance_bound (returned served) = omega arith
allowance_bound (returned (not_found b)) = omega arith
allowance_bound unsupported = omega arith
allowance_bound (raised e) = omega arith

module _ {E : Type 0} (cie : Cie E) (tries : E → ℕ) (law : Tried cie tries) where
  -- The calls that find the secret right lose no attempt.
  abbrev Free : Call E ℕ → Type 0
  Free m = (s : E) → (m s).0 ≡ returned 0x9000 → tries ((m s).1) ≤ tries s

  lift-Keeps : {A : Type 0} (r : Result A) → Keeps tries (lift r)
  unfolding Keeps
  lift-Keeps (ok a) s = refl
  lift-Keeps (throw e) s = refl

  return-Keeps : {A : Type 0} (a : A) → Keeps tries (return a)
  unfolding Keeps
  return-Keeps a s = refl

  authenticate-Keeps : Keeps tries (authenticate cie)
  unfolding authenticate
  authenticate-Keeps = bind-Keeps tries _ _ law.reading λ _.
      bind-Keeps tries _ _ law.selecting_cie λ _. bind-Keeps tries _ _ law.keying λ _.
        bind-Keeps tries _ _ law.reading_key λ _. bind-Keeps tries _ _ law.preparing λ _.
          bind-Keeps tries _ _ law.preparing_key
            λ _. bind-Keeps tries _ _ law.exchanging λ _. law.proving

  update_cache-Keeps : (cert new_pin : List ℕ) → Keeps tries (update_cache cie cert new_pin)
  unfolding update_cache
  update_cache-Keeps cert new_pin = bind-Keeps tries _ _ law.showing λ pan.
      bind-Keeps tries _ _ (lift-Keeps (mid pan 5 6)) λ part.
        bind-Keeps tries _ _ (lift-Keeps (left new_pin 4))
          λ first. law.caching (dump_hex_data part false true) cert first

  certificate-Keeps : (b : Bool) → Keeps tries (if b then cie.get_certificate else return [])
  certificate-Keeps true = law.fetching
  certificate-Keeps false = return-Keeps []

  cache-Keeps :
      (b : Bool) (cert new_pin : List ℕ)
      → Keeps tries (if b then update_cache cie cert new_pin else return tt)
  cache-Keeps true cert new_pin = update_cache-Keeps cert new_pin
  cache-Keeps false cert new_pin = return-Keeps tt

  answer-Last : (rv : ℕ) (a : Option ℕ) → Last tries (return (answer rv a))
  unfolding Last
  answer-Last rv a s = (refl, refl)

  fail-Last : (e : Exception) → Last tries (fail e)
  unfolding Last
  fail-Last e s = (refl, refl)

  served-Last : Last tries (return served)
  unfolding Last
  served-Last s = (refl, refl)

  changed-Last :
      (t : Bool) (sw : ℕ) (b : Bool) (cert new_pin : List ℕ)
      → Last tries (
          if t
          then fail (scard_error sw)
          else ((if b then update_cache cie cert new_pin else return tt) >> return served))
  changed-Last true sw b cert new_pin = fail-Last (scard_error sw)
  changed-Last false sw b cert new_pin =
      bind-Last tries _ _ (cache-Keeps b cert new_pin) λ _. served-Last

  store_pin-Spent :
      (change : List ℕ → Call E ℕ) (new_pin : List ℕ)
      → Costs tries (change new_pin)
      → Spent tries (store_pin cie change new_pin)
  unfolding store_pin
  store_pin-Spent change new_pin k = bind-Spent tries _ _ law.asking λ b.
      bind-Spent tries _ _ (certificate-Keeps b) λ cert.
        bind-Last-Spent tries _ _ k λ sw. changed-Last (not (sw == 0x9000)) sw b cert new_pin

  -- On another status than 9000 no further call is made.
  after_verify-Last :
      (go_on : Call E Search) (sw : ℕ)
      → (sw == 0x9000) ≡ false
      → Last tries (after_verify cie go_on sw)
  unfolding after_verify Last
  after_verify-Last go_on sw other s = ground (arith, other)

  after_verify-Spent :
      (go_on : Call E Search) → Spent tries go_on → Spent tries (after_verify cie go_on 0x9000)
  unfolding after_verify
  after_verify-Spent go_on k = k

  serve-Once :
      (verify : Call E ℕ) (change : List ℕ → Call E ℕ) (new_pin : List ℕ)
      → Costs tries verify
      → Free verify
      → Costs tries (change new_pin)
      → Once tries (serve cie verify change new_pin)
  unfolding serve
  serve-Once verify change new_pin v free k =
      let go_on = store_pin cie change new_pin in
      bind-Once tries _ _ authenticate-Keeps λ _.
        bind-verified tries _ _ v free (after_verify-Spent go_on (store_pin-Spent change new_pin k))
          (after_verify-Last go_on)

  after_select-Once :
      (go_on : Call E Search) (r : Try (Unit {0}))
      → Once tries go_on
      → Once tries (after_select go_on r)
  unfolding Once
  after_select-Once go_on (returned u) k s = k s
  after_select-Once go_on unsupported k s = omega arith
  after_select-Once go_on (raised crash) k s = omega arith
  after_select-Once go_on (raised e) k s = omega arith

  device_error-Once :
      (b : Bool) (rv : ℕ) (m : Call E Search)
      → Once tries m
      → Once tries (if b then return (answer rv none) else m)
  device_error-Once true rv m k = Last→Once tries _ (answer-Last rv none)
  device_error-Once false rv m k = k

  -- SelectAID_IAS, where its exceptions are caught.
  select-Once :
      (go_on : Call E Search)
      → Once tries go_on
      → Once tries (λ s. after_select go_on ((cie.select_aid_ias s).0) ((cie.select_aid_ias s).1))
  unfolding Once Keeps
  select-Once go_on k s =
      let same = law.selecting s in
      let after = after_select-Once go_on ((cie.select_aid_ias s).0) k ((cie.select_aid_ias s).1) in
      omega (arith, same, after)

  with_card-Once : (go_on : Call E Search) → Once tries go_on → Once tries (with_card cie go_on)
  unfolding with_card
  with_card-Once go_on k = bind-Once tries _ _ law.measuring λ n.
      device_error-Once (not (n == 0)) _ _ (
        bind-Once tries _ _ law.identifying λ r. device_error-Once (not (r.0 == 0)) _ _ (
          bind-Once tries _ _ (law.making (r.1))
            λ _. bind-Once tries _ _ law.resetting λ _. select-Once go_on k))

  found_card-Once :
      (b : Bool) (go_on : Call E Search)
      → Once tries go_on
      → Once tries (if b then with_card cie go_on else return (not_found false))
  found_card-Once true go_on k = with_card-Once go_on k
  found_card-Once false go_on k = Keeps→Once tries _ (return-Keeps (not_found false))

  reader_round-Once :
      (go_on : Call E Search) (reader : List ℕ)
      → Once tries go_on
      → Once tries (reader_round cie go_on reader)
  unfolding reader_round
  reader_round-Once go_on reader k =
      bind-Once tries _ _ (law.connecting reader)
        λ b. finally-Once tries cie.disconnect _ law.disconnecting (found_card-Once b go_on k)

  search_loop-Once :
      (go_on : Call E Search) (saw : Bool) (readers : List (List ℕ))
      → Once tries go_on
      → Once tries (search_loop cie go_on saw readers)
  unfolding search_loop
  search_loop-Once go_on saw [] k = Keeps→Once tries _ (return-Keeps (not_found saw))
  search_loop-Once go_on saw (reader ∷ readers) k =
      bind-next_reader tries _ _ (reader_round-Once go_on reader k)
        λ b. search_loop-Once go_on (saw || b) readers k

  with_cards-Once : (go_on : Call E Search) → Once tries go_on → Once tries (with_cards cie go_on)
  unfolding with_cards
  with_cards-Once go_on k = bind-Once tries _ _ law.establishing λ n.
      device_error-Once (not (n == 0)) _ _ (
        finally-Once tries cie.release_context _ law.releasing (
          bind-Once tries _ _ law.counting λ l.
            device_error-Once (not (l.0 == 0) || (l.1 == 1)) _ _ (
              bind-Once tries _ _ law.listing λ r.
                device_error-Once (not (r.0 == 0)) _ _ (search_loop-Once go_on false (r.1) k))))

  either_way :
      (b : Bool) (s : E) (r : Result Reply) (x : Result Reply × E)
      → tries (x.1) ≤ suc (tries s)
      → tries ((if b then (r, s) else x).1) ≤ suc (tries s)
  either_way true s r x k = omega arith
  either_way false s r x k = k

  with_secret-Once :
      (verify : List ℕ → Call E ℕ) (change : List ℕ → List ℕ → Call E ℕ)
      (secret new_pin : Option (List ℕ)) (last : CieErrorRecord) (s : E)
      → ((p : List ℕ) → Costs tries (verify p))
      → ((p : List ℕ) → Free (verify p))
      → ((p q : List ℕ) → Costs tries (change p q))
      → tries ((with_secret cie verify change secret new_pin last s).1) ≤ suc (tries s)
  unfolding with_secret Once
  with_secret-Once verify change secret new_pin last s v free k =
      let go_on = serve cie (verify (chars secret)) (change (chars secret)) (chars new_pin) in
      let once =
        with_cards-Once go_on
          (serve-Once (verify (chars secret)) (change (chars secret)) (chars new_pin)
            (v (chars secret)) (free (chars secret)) (k (chars secret) (chars new_pin)))
          s in
      either_way (is_wrong_length secret || is_wrong_length new_pin) s _ _
        (omega (arith, once, allowance_bound ((with_cards cie go_on s).0)))

  -- One call of cie_change_pin or of cie_unblock_pin loses at most one attempt at a PIN or a PUK,
  -- over all readers and whatever it answers, provided no call but VerifyPIN, VerifyPUK, ChangePIN
  -- and the setting of a new PIN loses one, each of these loses at most one, and VerifyPIN and
  -- VerifyPUK lose none where they answer 9000.
  pub attempts_lem :
      (secret new_pin : Option (List ℕ)) (last : CieErrorRecord) (s : E)
      → ((pin : List ℕ) (t : E)
          → (cie.verify_pin pin t).0 ≡ returned 0x9000
          → tries ((cie.verify_pin pin t).1) ≤ tries t)
      → ((puk : List ℕ) (t : E)
          → (cie.verify_puk puk t).0 ≡ returned 0x9000
          → tries ((cie.verify_puk puk t).1) ≤ tries t)
      → (tries ((cie_change_pin cie secret new_pin last s).1) ≤ suc (tries s))
        × (tries ((cie_unblock_pin cie secret new_pin last s).1) ≤ suc (tries s))
  unfolding cie_change_pin cie_unblock_pin
  attempts_lem secret new_pin last s right_pin right_puk = (
    with_secret-Once cie.verify_pin cie.change_pin secret new_pin last s law.verifying right_pin
        law.changing,
    with_secret-Once cie.verify_puk (λ _. cie.set_new_pin) secret new_pin last s law.verifying_puk
        right_puk (λ _. law.setting),
  )

-- ===== src/Card/Sod/Unchecked.antt =====
-- What VerificaSOD does not look at.
use opencie_pkcs.Base.{ℕ, ◌≡◌, refl, List, [], Result, ok, throw, ◌>>=◌ as bind}
use opencie_pkcs.Base.Map.{Map, insert}
use opencie_pkcs.Base.Outcome.{Outcome, done, thrown, running, outcome, ◌>>=◌}
use opencie_pkcs.Util.Asn1.Tree.{AsnTags, nil, cons, child}
use opencie_pkcs.Card.Sod.{SodCrypto, data_group}
use opencie_pkcs.Card.Sod.Pss.{read_issuers}
use opencie_pkcs.Card.Sod.Rsa.{
  rsa_sod_parts, is_sha1, check_rsa_digest, check_rsa_signature, rsa_group_hashes, log_groups,
  verifica_sod,
}

-- Whether a call has returned, threw or is still running, with the exception.
abbrev pub ending {ℓ} : {A : Type ℓ} → Outcome A → Outcome (Unit {0})
ending (done a) = done tt
ending (thrown e) = thrown e
ending running = running

bind-ending {ℓ κ} :
    {A : Type ℓ} {B : Type κ} (r : Outcome A) (f g : A → Outcome B)
    → ((a : A) → ending (f a) ≡ ending (g a))
    → ending (r >>= f) ≡ ending (r >>= g)
bind-ending (done a) f g k = k a
bind-ending (thrown e) f g k = refl
bind-ending running f g k = refl

bind-result {ℓ κ} :
    {A : Type ℓ} {B : Type κ} (r : Result A) (f g : A → Result B)
    → ((a : A) → ending (outcome (f a)) ≡ ending (outcome (g a)))
    → ending (outcome (bind r f)) ≡ ending (outcome (bind r g))
bind-result (ok a) f g k = k a
bind-result (throw e) f g k = refl

log_groups-ending :
    (tags : AsnTags) (h1 h2 : Map (List ℕ))
    → ending (outcome (log_groups tags h1)) ≡ ending (outcome (log_groups tags h2))
unfolding log_groups
log_groups-ending nil h1 h2 = refl
log_groups-ending (cons t ts) h1 h2 =
    bind-result (data_group t) _ _
      λ group. log_groups-ending ts (insert (group.0) [] h1) (insert (group.0) [] h2)

-- How VerificaSOD ends, and with which exception, does not depend on the hashes of the data groups
-- that it is given.
pub verifica_sod-ending :
    (crypto : SodCrypto) (sod : List ℕ) (h1 h2 : Map (List ℕ))
    → ending (verifica_sod crypto sod h1) ≡ ending (verifica_sod crypto sod h2)
unfolding verifica_sod
verifica_sod-ending crypto sod h1 h2 = bind-ending (rsa_sod_parts sod) _ _ λ p.
    bind-ending (outcome (is_sha1 p.signer)) _ _ λ sha1.
      bind-ending (outcome (child p.signer 5 4)) _ _ λ signature.
        bind-ending (outcome (check_rsa_digest crypto p)) _ _ λ u.
          bind-ending (check_rsa_signature crypto sod p sha1 signature) _ _ λ issuer_ba.
            bind-ending (read_issuers p.issuer issuer_ba) _ _ λ t.
              bind-result (rsa_group_hashes p.signed_data) _ _
                λ groups. log_groups-ending groups h1 h2

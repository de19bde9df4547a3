-- ===== src/Sdk/Certificate/Rounds.antt =====
-- When the loop of CCertificate::verify ends, and after how many rounds.
use mathlib.Core.Path.{subst}
use opencie_pkcs.Base.{
  ℕ, zero, suc, ◌<◌, ◌≤◌, ◌≡◌, refl, sym, ◌⊎◌, inl, inr, Bool, true, false, ◌||◌, Option, none,
  some, List, [], ◌∷◌, if◌then◌else◌, Bool-cases, Option-cases, arith, ◌==◌, length, ◌↔◌,
}
use opencie_pkcs.Base.Map.{find}
use opencie_pkcs.Sdk.Object.{Asn1Object, Parsed, parsed, failed}
use opencie_pkcs.Sdk.Sequence.{GenericSequence}
use opencie_pkcs.Sdk.Certificate.{get_authority_key_identifier, get_issuer}
use opencie_pkcs.Sdk.Certificate.Signature.{CertificateCrypto, verify_signature}
use opencie_pkcs.Sdk.Certificate.Accepted.{bind-parsed}
use opencie_pkcs.Sdk.Certificate.Chain.{
  CertStore, get_certificate, check_candidate, is_issuer, store_key, otherwise, after_step, step,
  climb, bits_of, verify,
}
use opencie_pkcs.Sdk.Certificate.Climbing.{verified-cases}

is_listed : ℕ → List ℕ → Bool
is_listed k [] = false
is_listed k (j ∷ js) = (j == k) || is_listed k js

-- The entries of the map under other keys than those listed.
unlisted : List ℕ → CertStore → ℕ
unlisted ks [] = 0
unlisted ks ((k, v) ∷ m) = if is_listed k ks then unlisted ks m else suc (unlisted ks m)

unlisted-none : (m : CertStore) → unlisted [] m ≡ length m
unfolding unlisted is_listed
unlisted-none [] = refl
unlisted-none ((k, v) ∷ m) = ground (arith, unlisted-none m)

unlisted-fewer : (k : ℕ) (ks : List ℕ) (m : CertStore) → unlisted (k ∷ ks) m ≤ unlisted ks m
unfolding unlisted is_listed
unlisted-fewer k ks [] = omega arith
unlisted-fewer k ks ((j, v) ∷ m) = ground (arith, unlisted-fewer k ks m)

-- Another key of the map leaves fewer entries.
unlisted-found :
    (k : ℕ) (ks : List ℕ) (c : GenericSequence) (m : CertStore)
    → is_listed k ks ≡ false
    → find k m ≡ some c
    → unlisted (k ∷ ks) m < unlisted ks m
unfolding unlisted is_listed find
unlisted-found k ks c [] out e = absurd (ground arith)
unlisted-found k ks c ((j, v) ∷ m) out e = elim (Bool-cases (j == k)) [
  | inl here ↦ let at : j ≡ k = ground (arith, here) in ground (arith, at, unlisted-fewer k ks m)
  | inr on ↦ ground (arith, on, unlisted-found k ks c m)
]

otherwise-some :
    (m : Parsed (Option GenericSequence)) (c : GenericSequence)
    → otherwise none m ≡ some c
    → m ≡ parsed (some c)
unfolding otherwise
otherwise-some (parsed (some d)) c e = ground (arith, e)
otherwise-some (parsed none) c e = absurd (ground (arith, e))
otherwise-some (failed x) c e = absurd (ground (arith, e))

module _ (name_text : GenericSequence → Parsed (List ℕ)) (crypto : CertificateCrypto)
    (store : CertStore) where
  check_candidate-some :
      (cert : GenericSequence) (aki : Asn1Object) (o : Option GenericSequence) (c : GenericSequence)
      → check_candidate name_text cert aki o ≡ parsed (some c)
      → o ≡ some c
  unfolding check_candidate
  check_candidate-some cert aki none c e = absurd (ground (arith, e))
  check_candidate-some cert aki (some d) c e =
      let (b, q, r) = bind-parsed (is_issuer name_text cert aki d) _ _ e in chosen b r
    where
      chosen : (b : Bool) → parsed (if b then some d else none) ≡ parsed (some c) → some d ≡ some c
      chosen true r = ground (arith, r)
      chosen false r = absurd (ground (arith, r))

  -- What GetCertificate answers is in the store.
  get_certificate-found :
      (cert c : GenericSequence)
      → get_certificate name_text store cert ≡ some c
      → (k : ℕ) × (find k store ≡ some c)
  unfolding get_certificate
  get_certificate-found cert c e =
      let (aki, q1, e1) =
        bind-parsed (get_authority_key_identifier cert) _ _ (otherwise-some _ c e) in
      let (key, q2, e2) = bind-parsed (store_key name_text aki (get_issuer cert)) _ _ e1 in
      (key, check_candidate-some cert aki (find key store) c e2)

  -- The loop goes from one certificate to another.
  pub record Goes (c ca : GenericSequence) : Type 0 where
    pub up_to : get_certificate name_text store c ≡ some ca
    pub by : verify_signature crypto c ca ≡ parsed true

  -- It does so once or more.
  pub data Way : GenericSequence → GenericSequence → Type 0 where
    last : {c d : GenericSequence} → Goes c d → Way c d
    more : {c d e : GenericSequence} → Goes c d → Way d e → Way c e

  farther : (c d e : GenericSequence) → Way c d → Goes d e → Way c e
  farther c d e (last g) h = more g (last h)
  farther c d e (more {d = x} g w) h = more g (farther x d e w h)

  around :
      (fuel : ℕ) (c d : GenericSequence) (found : Bool)
      → Way d d
      → Way c d
      → climb name_text crypto fuel store c found ≡ none
  unfolding climb step after_step
  around zero c d found cycle w = refl
  around (suc fuel) c d found cycle (last g) = rw (g.up_to, g.by) (around fuel d d true cycle cycle)
  around (suc fuel) c d found cycle (more {d = x} g w) =
      rw (g.up_to, g.by) (around fuel x d true cycle w)

  -- The loop comes to a certificate that it comes back to.
  unfoldable pub Circles : GenericSequence → Type 0
  Circles c = (d : GenericSequence) × Way d d × ((c ≡ d) ⊎ Way c d)

  Circles-before : (c ca : GenericSequence) → Goes c ca → Circles ca → Circles c
  unfolding Circles
  Circles-before c ca g (d, cycle, inl same) = (d, cycle, inr (subst (Way c) same (last g)))
  Circles-before c ca g (d, cycle, inr w) = (d, cycle, inr (more g w))

  -- A loop that does not end in a round goes on.
  climb-none :
      (fuel : ℕ) (c : GenericSequence) (found : Bool)
      → climb name_text crypto (suc fuel) store c found ≡ none
      → (ca : GenericSequence) × Goes c ca × (climb name_text crypto fuel store ca true ≡ none)
  unfolding climb step after_step
  climb-none fuel c found h = elim (Option-cases (get_certificate name_text store c)) [
    | inl e ↦ absurd (ground (arith, rw e at h))
    | inr (ca, e) ↦ elim (verified-cases (verify_signature crypto c ca)) [
      | inl v ↦ (ca, record { up_to = e; by = v }, rw (e, v) at h)
      | inr (inl v) ↦ absurd (ground (arith, rw (e, v) at h))
      | inr (inr (x, v)) ↦ absurd (ground (arith, rw (e, v) at h))
    ]
  ]

  -- Every certificate under a key of the list is this one, or leads to it.
  Visited : List ℕ → GenericSequence → Type 0
  Visited ks c =
      (k : ℕ) (v : GenericSequence)
      → is_listed k ks ≡ true
      → find k store ≡ some v
      → (v ≡ c) ⊎ Way v c

  Visited-next :
      (ks : List ℕ) (k : ℕ) (c ca : GenericSequence)
      → Goes c ca
      → find k store ≡ some ca
      → Visited ks c
      → Visited (k ∷ ks) ca
  unfolding Visited is_listed
  Visited-next ks k c ca g e seen j v m f = elim (Bool-cases (k == j)) [
    | inl here ↦ let at : k ≡ j = ground (arith, here) in inl (ground (arith, rw at at e, f))
    | inr on ↦ elim (seen j v (ground (arith, on, m)) f) [
      | inl same ↦ inr (subst (λ x. Way x ca) (sym same) (last g))
      | inr w ↦ inr (farther v c ca w g)
    ]
  ]

  back_again : (c ca : GenericSequence) → Goes c ca → (ca ≡ c) ⊎ Way ca c → Circles c
  unfolding Circles
  back_again c ca g (inl same) = (c, last (subst (Goes c) same g), inl refl)
  back_again c ca g (inr w) = (c, more g w, inl refl)

  -- A loop that goes on for more rounds than there are certificates left is in a circle.
  climb-Circles :
      (fuel : ℕ) (ks : List ℕ) (c : GenericSequence) (found : Bool)
      → Visited ks c
      → unlisted ks store < fuel
      → climb name_text crypto fuel store c found ≡ none
      → Circles c
  unfolding Visited
  climb-Circles zero ks c found seen lt h = absurd (omega (arith, lt))
  climb-Circles (suc fuel) ks c found seen lt h =
      let (ca, g, on) = climb-none fuel c found h in
      let (k, e) = get_certificate-found c ca g.up_to in
      elim (Bool-cases (is_listed k ks)) [
        | inl known ↦ back_again c ca g (seen k ca known e)
        | inr out ↦ Circles-before c ca g (
            climb-Circles fuel (k ∷ ks) ca true (Visited-next ks k c ca g e seen)
              (omega (arith, lt, unlisted-found k ks ca store out e)) on)
      ]

  Visited-none : (c : GenericSequence) → Visited [] c
  unfolding Visited is_listed
  Visited-none c k v m e = absurd (ground (arith, m))

  Circles-climb :
      (fuel : ℕ) (c : GenericSequence) (found : Bool)
      → Circles c
      → climb name_text crypto fuel store c found ≡ none
  unfolding Circles
  Circles-climb fuel c found (d, cycle, inl same) =
      around fuel c d found cycle (subst (λ x. Way x d) (sym same) cycle)
  Circles-climb fuel c found (d, cycle, inr w) = around fuel c d found cycle w

  verify-climb :
      (fuel : ℕ) (cert : GenericSequence)
      → verify name_text crypto fuel store cert ≡ none
      → climb name_text crypto fuel store cert false ≡ none
  unfolding verify bits_of
  verify-climb fuel cert h = elim (Option-cases (climb name_text crypto fuel store cert false)) [
    | inl e ↦ e
    | inr (p, e) ↦ absurd (ground (arith, rw e at h))
  ]

  -- With more rounds allowed than the store has certificates, the loop of CCertificate::verify is
  -- unfinished exactly where the certificate, up the issuers that GetCertificate finds and whose
  -- keys verify the signatures, is or leads to a certificate that leads back to itself. In such a
  -- circle no number of rounds is enough, and elsewhere one more than the certificates is.
  pub verify-Circles :
      (fuel : ℕ) (cert : GenericSequence)
      → length store < fuel
      → (verify name_text crypto fuel store cert ≡ none) ↔ Circles cert
  unfolding verify bits_of
  verify-Circles fuel cert lt =
      let few : unlisted [] store < fuel = omega (arith, lt, unlisted-none store) in
      (
        λ h. climb-Circles fuel [] cert false (Visited-none cert) few (verify-climb fuel cert h),
        λ c. rw (Circles-climb fuel cert false c) refl,
      )

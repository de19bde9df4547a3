-- ===== src/Sdk/Certificate/Crl.antt =====
-- CCrl of sign-sdk/src/asn1/crl.cpp, and CCertificate::isValid. A time is given as UTCTime, and the
-- REVOCATION_INFO that the caller may pass is left out: it repeats the answer.
use opencie_pkcs.Base.{
  ℕ, zero, suc, ◌+◌, ◌-◌, Bool, true, false, not, Option, none, some, List, [], ◌∷◌, ltb, ◌==◌,
  if◌then◌else◌, length,
}
use opencie_pkcs.Sdk.Object.{Asn1Object, Parsed, parsed, failed, past_content, ◌>>=◌, same_object}
use opencie_pkcs.Sdk.Sequence.{GenericSequence, is_present}
use opencie_pkcs.Sdk.Certificate.{element, sub_sequence, last_13, get_validity}
use opencie_pkcs.Sdk.Certificate.Signature.{CertificateCrypto, verify_signature, caught}
pub mod Revoked

pub data Order : Type 0 where
  below : Order
  same : Order
  above : Order

-- memcmp over so many octets; octets past the end of an array are read at their own risk.
unfoldable pub compare_octets : ℕ → List ℕ → List ℕ → Parsed Order
compare_octets zero xs ys = parsed same
compare_octets (suc n) [] ys = failed past_content
compare_octets (suc n) (x ∷ xs) [] = failed past_content
compare_octets (suc n) (x ∷ xs) (y ∷ ys) =
    let rest = compare_octets n xs ys in
    if ltb x y then parsed below else if ltb y x then parsed above else rest

unfoldable pub is_above : Order → Bool
is_above below = false
is_above same = false
is_above above = true

unfoldable pub is_below : Order → Bool
is_below below = true
is_below same = false
is_below above = false

-- isValid at a time.
unfoldable pub is_valid : GenericSequence → List ℕ → Parsed Bool
unfolding get_validity last_13 compare_octets is_above is_below
is_valid cert time = get_validity cert 1 >>= λ expiration.
    compare_octets 13 time (last_13 expiration.value) >>= λ order.
    if is_above order
    then parsed false
    else (get_validity cert 0 >>= λ from.
        compare_octets 13 time (last_13 from.value) >>= λ start. parsed (not (is_below start)))

-- REVOCATION_STATUS_GOOD, REVOCATION_STATUS_REVOKED and REVOCATION_STATUS_SUSPENDED
abbrev pub revocation_good : ℕ
revocation_good = 0

abbrev pub revocation_revoked : ℕ
revocation_revoked = 1

abbrev pub revocation_suspended : ℕ
revocation_suspended = 2

-- `pVal->data()[2]`
unfoldable pub reason_status : List ℕ → Parsed ℕ
reason_status [] = failed past_content
reason_status (a ∷ []) = failed past_content
reason_status (a ∷ b ∷ []) = failed past_content
reason_status (a ∷ b ∷ reason ∷ rest) =
    parsed (if reason == 6 then revocation_suspended else revocation_revoked)

unfoldable pub revocation_reason : GenericSequence → Parsed ℕ
unfolding reason_status sub_sequence element
revocation_reason entry =
    if ltb 2 entry.size
    then (sub_sequence entry 2 >>= λ extension. sub_sequence extension 0 >>= λ crl_reason.
        element crl_reason 1 >>= λ code. reason_status code.value)
    else parsed revocation_revoked

-- Whether the revocation is later than the time asked for.
unfoldable pub is_later : Option (List ℕ) → List ℕ → Parsed Bool
unfolding last_13 compare_octets is_below
is_later none date = parsed false
is_later (some time) date =
    compare_octets 13 time (last_13 date) >>= λ order. parsed (is_below order)

-- The entry of the serial number: the answer and the reason.
unfoldable pub revoked_entry : GenericSequence → Option (List ℕ) → Parsed (Bool × ℕ)
unfolding is_later revocation_reason element
revoked_entry entry time = element entry 1 >>= λ date. is_later time date.value >>= λ later.
    if later
    then parsed (false, revocation_good)
    else (revocation_reason entry >>= λ reason. parsed (true, reason))

-- The loop of isRevoked, with so many entries left.
unfoldable pub find_revoked :
    GenericSequence → Asn1Object → Option (List ℕ) → ℕ → ℕ → Parsed (Bool × ℕ)
unfolding sub_sequence element same_object revoked_entry
find_revoked revoked serial time zero i = parsed (false, revocation_good)
find_revoked revoked serial time (suc left) i = sub_sequence revoked i >>= λ entry.
    element entry 0 >>= λ number.
    let next = find_revoked revoked serial time left (suc i) in
    if same_object serial (record number { tag = 0x02 }) then revoked_entry entry time else next

unfoldable pub is_revoked : GenericSequence → Asn1Object → Option (List ℕ) → Parsed (Bool × ℕ)
unfolding find_revoked sub_sequence
is_revoked crl serial time = sub_sequence crl 0 >>= λ tbs.
    sub_sequence tbs 5 >>= λ revoked. find_revoked revoked serial time revoked.size 0

-- The list is signed in the shape of a certificate; an exception is a refusal.
unfoldable pub verify_crl_signature : CertificateCrypto → GenericSequence → GenericSequence → Bool
unfolding caught
verify_crl_signature crypto crl issuer = caught (verify_signature crypto crl issuer)

-- The end of the period, where there is one that is a UTCTime.
unfoldable pub before_next_update : GenericSequence → List ℕ → Parsed Bool
unfolding is_present element last_13 compare_octets is_above
before_next_update tbs time =
    if is_present tbs 4
    then (element tbs 4 >>= λ next.
        if not (next.tag == 0x17)
        then parsed true
        else if ltb (length next.value) 13
        then parsed false
        else (compare_octets 13 time (last_13 next.value) >>= λ order.
            parsed (not (is_above order))))
    else parsed true

-- isCurrent at a time: it refuses a list whose dates it cannot read.
unfoldable pub is_current : GenericSequence → List ℕ → Bool
unfolding before_next_update sub_sequence element last_13 compare_octets is_below caught
is_current crl time = caught (
    sub_sequence crl 0 >>= λ tbs. element tbs 3 >>= λ update.
    if ltb (length update.value) 13
    then parsed false
    else (compare_octets 13 time (last_13 update.value) >>= λ order.
        if is_below order then parsed false else before_next_update tbs time))

-- ===== src/Sdk/Certificate/Crl/Revoked.antt =====
-- What it takes for isRevoked to answer that a certificate is good, or that it is not.
use opencie_pkcs.Base.{
  ℕ, zero, suc, ◌+◌, ◌<◌, ◌≤◌, ◌≡◌, ◌≢◌, refl, inl, inr, Bool, true, false, none, ◌==◌,
  if◌then◌else◌, Bool-cases, arith,
}
use mathlib.Core.Path.{subst}
use opencie_pkcs.Sdk.Object.{Asn1Object, Parsed, parsed, same_object}
use opencie_pkcs.Sdk.Sequence.{GenericSequence}
use opencie_pkcs.Sdk.Certificate.{element, sub_sequence}
use opencie_pkcs.Sdk.Certificate.Accepted.{bind-parsed}
use opencie_pkcs.Sdk.Certificate.Crl.{
  is_later, revocation_reason, revoked_entry, find_revoked, is_revoked,
}

-- An entry of the list whose serial number is another.
unfoldable pub IsOther : GenericSequence → Asn1Object → ℕ → Type 0
IsOther revoked serial i =
    (entry : GenericSequence) × (number : Asn1Object) × (sub_sequence revoked i ≡ parsed entry)
    × (element entry 0 ≡ parsed number)
    × (same_object serial (record number { tag = 0x02 }) ≡ false)

revoked_entry-true :
    (entry : GenericSequence) (r : ℕ) → revoked_entry entry none ≢ parsed (false, r)
unfolding revoked_entry is_later
revoked_entry-true entry r e =
    let (date, q1, e1) = bind-parsed (element entry 1) _ _ e in
    let (reason, q2, e2) = bind-parsed (revocation_reason entry) _ _ e1 in ground (arith, e2)

later_index : (i j : ℕ) → i ≤ j → (j == i) ≡ false → suc i ≤ j
later_index i j lo on = ground arith

passed_over :
    (b : Bool) (m next : Parsed (Bool × ℕ)) (r : ℕ)
    → m ≢ parsed (false, r)
    → (if b then m else next) ≡ parsed (false, r)
    → (b ≡ false) × (next ≡ parsed (false, r))
passed_over true m next r ne e = absurd (ne e)
passed_over false m next r ne e = (refl, e)

find_revoked-IsOther :
    (revoked : GenericSequence) (serial : Asn1Object) (left i r : ℕ)
    → find_revoked revoked serial none left i ≡ parsed (false, r)
    → (j : ℕ) → i ≤ j
    → j < i + left
    → IsOther revoked serial j
unfolding find_revoked IsOther
find_revoked-IsOther revoked serial zero i r e j lo hi = absurd (omega (arith, lo, hi))
find_revoked-IsOther revoked serial (suc left) i r e j lo hi =
    let (entry, q1, e1) = bind-parsed (sub_sequence revoked i) _ _ e in
    let (number, q2, e2) = bind-parsed (element entry 0) _ _ e1 in
    let (other, more) = passed_over _ _ _ r (revoked_entry-true entry r) e2 in
    elim (Bool-cases (j == i)) [
      | inl here ↦
          let at : i ≡ j = ground (arith, here) in
          subst (IsOther revoked serial) at (entry, number, q1, q2, other)
      | inr on ↦
          find_revoked-IsOther revoked serial left (suc i) r more j (later_index i j lo on)
            (omega (arith, hi))
    ]

-- Where CCrl::isRevoked without a time answers false, each entry of the sixth element of the
-- signed part of the list, read as a sequence and empty where there is no such element, begins
-- with another serial number.
pub is_revoked-others :
    (crl : GenericSequence) (serial : Asn1Object) (r : ℕ)
    → is_revoked crl serial none ≡ parsed (false, r)
    → (tbs : GenericSequence) × (revoked : GenericSequence) × (sub_sequence crl 0 ≡ parsed tbs)
      × (sub_sequence tbs 5 ≡ parsed revoked)
      × ((j : ℕ) → j < revoked.size → IsOther revoked serial j)
unfolding is_revoked
is_revoked-others crl serial r e =
    let (tbs, q1, e1) = bind-parsed (sub_sequence crl 0) _ _ e in
    let (revoked, q2, e2) = bind-parsed (sub_sequence tbs 5) _ _ e1 in
    (
      tbs,
      revoked,
      q1,
      q2,
      λ j h.
          find_revoked-IsOther revoked serial revoked.size 0 r e2 j (omega arith)
            (omega (arith, h)),
    )

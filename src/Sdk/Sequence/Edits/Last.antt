-- ===== src/Sdk/Sequence/Edits/Last.antt =====
-- The last element, whose end is not in the table: what removing or replacing it leaves.
use opencie_pkcs.Base.{
  All-append, All-take, ℕ, suc, ◌≡◌, refl, sym, ap, ◌∙◌, inl, inr, false, List, [], ◌∷◌, ◌++◌, ltb,
  ◌==◌, length, take, length-append, length-take, take_exact, drop_exact, Bool-cases, arith,
}
use opencie_pkcs.Sdk.Object.{Asn1Object, parsed}
use opencie_pkcs.Sdk.Sequence.{GenericSequence, cut, remove_element_at, set_element_at}
use opencie_pkcs.Sdk.Sequence.Holding.{IsShort, encode_all, Holds}
use opencie_pkcs.Sdk.Sequence.Offsets.{holding, holding-Holds}
use opencie_pkcs.Sdk.Sequence.Elements.{encode_all-append}
use opencie_pkcs.Sdk.Sequence.Edits.{
  Holds-IsShort, IsPlace, insert_at, cut-Holds, set_content_lem, not_empty, add_element_at-Holds,
}

-- Cut at an entry that is still zero.
cut_none : (content : List ℕ) → cut content 0 ≡ parsed ([], content)
unfolding cut
cut_none content = let e : ltb (length content) 0 ≡ false = ground arith in rw e refl

pub remove_element_at-last :
    (s : GenericSequence) (objs : List Asn1Object) (pos : ℕ)
    → Holds s objs
    → suc pos ≡ length objs
    → s.offsets (length objs) ≡ 0
    → remove_element_at s pos ≡ parsed (holding s (take pos objs ++ objs))
unfolding remove_element_at Holds
remove_element_at-last s objs pos (value, count, short, table) h unset =
    let held : Holds s objs = (value, count, short, table) in
    let valid : ltb s.size pos ≡ false = ground (arith, count, h) in
    let some_held : (length s.object.value == 0) ≡ false =
      rw value (not_empty objs (omega (arith, h))) in
    let zeroed : cut s.object.value (s.offsets (suc pos)) ≡ parsed ([], s.object.value) =
      rw h (rw unset (cut_none s.object.value)) in
    let goal = λ (content : List ℕ) (e : content ≡ encode_all (take pos objs ++ objs)).
      set_content_lem s (take pos objs ++ objs) content e
        (All-append IsShort (take pos objs) objs (All-take IsShort pos objs short) short) in
    rw valid (
      rw some_held (elim (Bool-cases (pos == 0)) [
        | inl z ↦ rw z (
            let first : pos ≡ 0 = ground (arith, z) in
            let at_one : cut s.object.value (s.offsets 1) ≡ parsed ([], s.object.value) =
              ap (λ n. cut s.object.value (s.offsets (suc n))) (sym first) ∙ zeroed in
            rw at_one (goal s.object.value (rw first value)))
        | inr n ↦ rw n (
            rw (cut-Holds s objs pos held (omega (arith, h))) (
              rw zeroed (
                goal (encode_all (take pos objs) ++ s.object.value)
                  (rw value (sym (encode_all-append (take pos objs) objs))))))
      ]))

-- Where the entry of the table behind the last one is zero, CASN1GenericSequence::setElementAt at
-- the last position of a sequence leaves the elements before it, the new one, and then all the old
-- elements again, for content below 2 ^ 31 octets in all, where offsets do not wrap around.
pub set_element_at-last :
    (s : GenericSequence) (objs : List Asn1Object) (obj : Asn1Object) (pos : ℕ)
    → Holds s objs
    → IsShort obj
    → suc pos ≡ length objs
    → s.offsets (length objs) ≡ 0
    → (s' : GenericSequence) × set_element_at s obj pos ≡ parsed s'
      × Holds s' (take pos objs ++ (obj ∷ objs))
unfolding set_element_at IsPlace
set_element_at-last s objs obj pos held short h unset =
    let left = take pos objs ++ objs in
    let cut_at : pos ≡ length (take pos objs) = sym (length-take pos objs (omega (arith, h))) in
    let long = length-append (take pos objs) objs in
    let shorts = Holds-IsShort s objs held in
    let lefts = All-append IsShort (take pos objs) objs (All-take IsShort pos objs shorts) shorts in
    let place : IsPlace left pos = inr (omega (arith, long, h)) in
    let inserted : insert_at left obj pos ≡ take pos objs ++ (obj ∷ objs) =
      rw (take_exact pos (take pos objs) objs cut_at)
        (rw (drop_exact pos (take pos objs) objs cut_at) refl) in
    let last = take pos objs ++ (obj ∷ objs) in
    (
      holding (holding s left) last,
      rw (remove_element_at-last s objs pos held h unset) (
          add_element_at-Holds (holding s left) left obj pos (holding-Holds s left lefts) short
            place
          ∙ ap (λ xs. parsed (holding (holding s left) xs)) inserted),
      holding-Holds (holding s left) last (
          All-append IsShort (take pos objs) (obj ∷ objs) (All-take IsShort pos objs shorts)
            (short, shorts)),
    )

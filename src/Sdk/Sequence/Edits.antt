-- ===== src/Sdk/Sequence/Edits.antt =====
-- Changing the elements of a sequence.
use opencie_pkcs.Base.{
  All-append, All-take, All-drop, ℕ, zero, suc, ◌+◌, ◌-◌, ◌≤◌, ◌<◌, ◌≡◌, refl, sym, ap, ◌∙◌, ◌⊎◌,
  inl, inr, Bool, true, false, List, [], ◌∷◌, ◌++◌, All, ltb, ◌==◌, if◌then◌else◌, length, take,
  drop, length-append, take_exact, take-append-drop, Bool-cases, arith,
}
use mathlib.Core.List.{append-nil, append_assoc}
use opencie_pkcs.Sdk.Object.{
  Asn1Object, Parsed, parsed, failed, ◌>>=◌, to_byte_array, get_serialized_length,
}
use opencie_pkcs.Sdk.Sequence.{
  GenericSequence, set_content, cut, add_element, add_element_at, remove_element_at, set_element_at,
}
use opencie_pkcs.Sdk.Sequence.Holding.{
  IsShort, encode_all, span_all, Holds, length-to_byte_array, length-encode_all, two_octets,
}
use opencie_pkcs.Sdk.Sequence.Offsets.{holding, holding-Holds, set_content-encode_all}
use opencie_pkcs.Sdk.Sequence.Elements.{encode_all-append, drop-encode_all, span_all-take_le}
pub mod Last
pub mod Scripts

pub cut-encode_all :
    (objs : List Asn1Object) (n : ℕ)
    → cut (encode_all objs) (span_all (take n objs))
      ≡ parsed (encode_all (take n objs), encode_all (drop n objs))
unfolding cut
cut-encode_all objs n =
    let e : ltb (length (encode_all objs)) (span_all (take n objs)) ≡ false =
      ground (arith, span_all-take_le objs n) in
    let whole : encode_all (take n objs) ++ encode_all (drop n objs) ≡ encode_all objs =
      sym (encode_all-append (take n objs) (drop n objs))
      ∙ ap encode_all (take-append-drop n objs) in
    let front : take (span_all (take n objs)) (encode_all objs) ≡ encode_all (take n objs) =
      ap (take (span_all (take n objs))) (sym whole)
      ∙ take_exact (span_all (take n objs)) (encode_all (take n objs)) (encode_all (drop n objs))
          (sym (length-encode_all (take n objs))) in
    rw e (rw front (rw (drop-encode_all objs n) refl))

-- No elements are no octets, and the other way round.
empty_cases : (objs : List Asn1Object) → (objs ≡ []) ⊎ ((length (encode_all objs) == 0) ≡ false)
unfolding encode_all
empty_cases [] = inl refl
empty_cases (obj ∷ objs) = inr (
    ground (
      arith,
      length-append (to_byte_array obj) (encode_all objs),
      length-to_byte_array obj,
      two_octets (length obj.value),
    ))

pub Holds-IsShort : (s : GenericSequence) (objs : List Asn1Object) → Holds s objs → All IsShort objs
unfolding Holds
Holds-IsShort s objs (value, count, short, table) = short

-- An operation that sets the octets of such a list leaves the state that holds it.
pub set_content_lem :
    (s : GenericSequence) (objs : List Asn1Object) (content : List ℕ)
    → content ≡ encode_all objs
    → All IsShort objs
    → set_content s content ≡ parsed (holding s objs)
set_content_lem s objs content e short = rw e (set_content-encode_all s objs short)

encode_one : (obj : Asn1Object) → encode_all (obj ∷ []) ≡ to_byte_array obj
unfolding encode_all
encode_one obj = append-nil (to_byte_array obj)

pub add_element-Holds :
    (s : GenericSequence) (objs : List Asn1Object) (obj : Asn1Object)
    → Holds s objs
    → IsShort obj
    → add_element s obj ≡ parsed (holding s (objs ++ (obj ∷ [])))
unfolding add_element Holds encode_all holding
add_element-Holds s objs obj (value, count, short, table) h =
    let one : All IsShort (obj ∷ []) = (h, tt) in
    let all = All-append IsShort objs (obj ∷ []) short one in
    let bytes : encode_all objs ++ to_byte_array obj ≡ encode_all (objs ++ (obj ∷ [])) =
      sym (encode_all-append objs (obj ∷ []) ∙ ap (λ b. encode_all objs ++ b) (encode_one obj)) in
    rw value (elim (empty_cases objs) [
      | inl e ↦ rw e (set_content_lem s (obj ∷ []) (to_byte_array obj) (sym (encode_one obj)) one)
      | inr e ↦
          rw e (
            set_content_lem s (objs ++ (obj ∷ [])) (encode_all objs ++ to_byte_array obj) bytes all)
    ])

-- The list with an object at a position, and without the one there.
abbrev pub insert_at : List Asn1Object → Asn1Object → ℕ → List Asn1Object
insert_at objs obj pos = take pos objs ++ (obj ∷ drop pos objs)

abbrev pub delete_at : List Asn1Object → ℕ → List Asn1Object
delete_at objs pos = take pos objs ++ drop (suc pos) objs

pub insert_at-IsShort :
    (objs : List Asn1Object) (obj : Asn1Object) (pos : ℕ)
    → All IsShort objs
    → IsShort obj
    → All IsShort (insert_at objs obj pos)
insert_at-IsShort objs obj pos short h =
    All-append IsShort (take pos objs) (obj ∷ drop pos objs) (All-take IsShort pos objs short)
      (h, All-drop IsShort pos objs short)

-- The octets cut where the table says.
pub cut-Holds :
    (s : GenericSequence) (objs : List Asn1Object) (n : ℕ)
    → Holds s objs
    → n < length objs
    → cut s.object.value (s.offsets n) ≡ parsed (encode_all (take n objs), encode_all (drop n objs))
unfolding Holds
cut-Holds s objs n (value, count, short, table) h =
    ap (λ v. cut v (s.offsets n)) value
    ∙ ap (cut (encode_all objs)) (table n h)
    ∙ cut-encode_all objs n

-- Where an element can go by the table: first, or before another.
unfoldable pub IsPlace : List Asn1Object → ℕ → Type 0
IsPlace objs pos = (pos ≡ 0) ⊎ (pos < length objs)

insert_first :
    (objs : List Asn1Object) (obj : Asn1Object)
    → to_byte_array obj ++ encode_all objs ≡ encode_all (insert_at objs obj 0)
unfolding encode_all
insert_first objs obj = refl

insert_before :
    (objs : List Asn1Object) (obj : Asn1Object) (pos : ℕ)
    → encode_all (take pos objs) ++ (to_byte_array obj ++ encode_all (drop pos objs))
      ≡ encode_all (insert_at objs obj pos)
unfolding encode_all
insert_before objs obj pos = sym (encode_all-append (take pos objs) (obj ∷ drop pos objs))

empty_place : (objs : List Asn1Object) (pos : ℕ) → IsPlace objs pos → objs ≡ [] → pos ≡ 0
unfolding IsPlace
empty_place [] pos (inl z) e = z
empty_place [] pos (inr below) e = omega (arith, below)
empty_place (obj ∷ objs) pos at e = absurd (ground (arith, e))

pub add_element_at-Holds :
    (s : GenericSequence) (objs : List Asn1Object) (obj : Asn1Object) (pos : ℕ)
    → Holds s objs
    → IsShort obj
    → IsPlace objs pos
    → add_element_at s obj pos ≡ parsed (holding s (insert_at objs obj pos))
unfolding add_element_at Holds IsPlace
add_element_at-Holds s objs obj pos (value, count, short, table) h at =
    let valid : ltb s.size pos ≡ false = elim at [
      | inl z ↦ rw z (ground arith)
      | inr below ↦ ground (arith, count)
    ] in
    let all = insert_at-IsShort objs obj pos short h in
    let goal = λ (content : List ℕ) (e : content ≡ encode_all (insert_at objs obj pos)).
      set_content_lem s (insert_at objs obj pos) content e all in
    let old : length s.object.value ≡ length (encode_all objs) = ap length value in
    rw valid (elim (empty_cases objs) [
      | inl e ↦
          let none_held : (length s.object.value == 0) ≡ true = rw old (rw e refl) in
          rw none_held (
            goal (to_byte_array obj) (rw (empty_place objs pos at e) (rw e (sym (encode_one obj)))))
      | inr e ↦ rw old (
          rw e (elim (Bool-cases (pos == 0)) [
            | inl z ↦ rw z (
                goal (to_byte_array obj ++ s.object.value) (
                  let first : pos ≡ 0 = ground (arith, z) in
                  rw first (rw value (insert_first objs obj))))
            | inr n ↦ rw n (
                let below : pos < length objs = elim at [
                  | inl z ↦ absurd (ground (arith, n, z))
                  | inr below ↦ below
                ] in
                rw (cut-Holds s objs pos (value, count, short, table) below) (
                  goal
                    (encode_all (take pos objs)
                      ++ (to_byte_array obj ++ encode_all (drop pos objs)))
                    (insert_before objs obj pos)))
          ]))
    ])

pub delete_at-IsShort :
    (objs : List Asn1Object) (pos : ℕ) → All IsShort objs → All IsShort (delete_at objs pos)
delete_at-IsShort objs pos short =
    All-append IsShort (take pos objs) (drop (suc pos) objs) (All-take IsShort pos objs short)
      (All-drop IsShort (suc pos) objs short)

pub not_empty : (objs : List Asn1Object) → 0 < length objs → (length (encode_all objs) == 0) ≡ false
not_empty objs h = elim (empty_cases objs) [
  | inl e ↦ absurd (ground (arith, ap length e))
  | inr e ↦ e
]

pub remove_element_at-Holds :
    (s : GenericSequence) (objs : List Asn1Object) (pos : ℕ)
    → Holds s objs
    → suc pos < length objs
    → remove_element_at s pos ≡ parsed (holding s (delete_at objs pos))
unfolding remove_element_at Holds
remove_element_at-Holds s objs pos (value, count, short, table) h =
    let held : Holds s objs = (value, count, short, table) in
    let valid : ltb s.size pos ≡ false = ground (arith, count) in
    let some_held : (length s.object.value == 0) ≡ false =
      rw value (not_empty objs (omega (arith, h))) in
    let goal = λ (content : List ℕ) (e : content ≡ encode_all (delete_at objs pos)).
      set_content_lem s (delete_at objs pos) content e (delete_at-IsShort objs pos short) in
    rw valid (
      rw some_held (elim (Bool-cases (pos == 0)) [
        | inl z ↦ rw z (
            let first : pos ≡ 0 = ground (arith, z) in
            rw (cut-Holds s objs 1 held (omega (arith, h, first)))
              (goal (encode_all (drop 1 objs)) (rw first refl)))
        | inr n ↦ rw n (
            rw (cut-Holds s objs pos held (omega (arith, h))) (
              rw (cut-Holds s objs (suc pos) held h) (
                goal (encode_all (take pos objs) ++ encode_all (drop (suc pos) objs))
                  (sym (encode_all-append (take pos objs) (drop (suc pos) objs))))))
      ]))

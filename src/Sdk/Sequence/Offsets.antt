-- ===== src/Sdk/Sequence/Offsets.antt =====
-- What makeOffset finds in the octets of a list of elements.
use opencie_pkcs.Base.{
  ℕ, zero, suc, ◌+◌, ◌≤◌, ◌<◌, ◌≡◌, refl, sym, ap, ◌∙◌, true, false, List, [], ◌∷◌, ◌++◌, All, ltb,
  ◌==◌, length, take, drop, length-append, drop_exact, drop-drop, Bool-cases, inl, inr, arith,
}
use opencie_pkcs.Sdk.Object.{Asn1Object, parsed, to_byte_array, get_serialized_length}
use opencie_pkcs.Sdk.Object.RoundTrip.{as_read, extra_octets}
use opencie_pkcs.Sdk.Sequence.{
  GenericSequence, set_offset, after_current, make_offset_from, make_offset, set_content,
}
use opencie_pkcs.Sdk.Sequence.Holding.{
  IsShort, encode_all, span_all, Holds, length-to_byte_array, two_octets,
  current_object-to_byte_array,
}

-- The table that the loop leaves, from the element `i` at `offset` on.
unfoldable pub offsets_from : List Asn1Object → ℕ → ℕ → (ℕ → ℕ) → ℕ → ℕ
unfolding set_offset
offsets_from [] offset i table = table
offsets_from (obj ∷ objs) offset i table =
    offsets_from objs (offset + get_serialized_length (length obj.value)) (suc i)
      (set_offset table i offset)

-- What the loop adds is the span of the element.
step_span :
    (obj : Asn1Object)
    → (as_read obj).len_read + length obj.value + 2 ≡ get_serialized_length (length obj.value)
unfolding as_read extra_octets get_serialized_length
step_span obj = elim (Bool-cases (ltb (length obj.value) 0x80)) [
  | inl e ↦ rw e (omega arith)
  | inr e ↦ rw e (omega arith)
]

drop-skip :
    (content : List ℕ) (offset : ℕ) (obj : Asn1Object) (rest : List ℕ)
    → drop offset content ≡ to_byte_array obj ++ rest
    → drop (offset + get_serialized_length (length obj.value)) content ≡ rest
drop-skip content offset obj rest h =
    drop-drop offset (get_serialized_length (length obj.value)) content
    ∙ rw h (
        drop_exact (get_serialized_length (length obj.value)) (to_byte_array obj) rest
          (sym (length-to_byte_array obj)))

make_offset_from-encode_all :
    (fuel : ℕ) (content : List ℕ) (objs : List Asn1Object) (offset i : ℕ) (table : ℕ → ℕ)
    → All IsShort objs
    → drop offset content ≡ encode_all objs
    → offset + length (encode_all objs) ≡ length content
    → length objs ≤ fuel
    → make_offset_from fuel content offset i table
      ≡ parsed (i + length objs, offsets_from objs offset i table)
unfolding make_offset_from after_current encode_all offsets_from as_read
make_offset_from-encode_all zero content [] offset i table short at fits enough = ground arith
make_offset_from-encode_all (suc fuel) content [] offset i table short at fits enough =
    let e : ltb offset (length content) ≡ false = ground arith in rw e (ground arith)
make_offset_from-encode_all zero content (obj ∷ objs) offset i table short at fits enough =
    absurd (omega (arith, enough))
make_offset_from-encode_all (suc fuel) content (obj ∷ objs) offset i table (s, ss) at fits enough =
    let n = get_serialized_length (length obj.value) in
    let table' = set_offset table i offset in
    let whole : length (to_byte_array obj ++ encode_all objs) ≡ n + length (encode_all objs) =
      omega
        (arith, length-append (to_byte_array obj) (encode_all objs), length-to_byte_array obj) in
    let more : ltb offset (length content) ≡ true = ground (arith, two_octets (length obj.value)) in
    let count : i + length (obj ∷ objs) ≡ suc i + length objs = omega arith in
    rw at (
      rw more (
        rw (current_object-to_byte_array obj (encode_all objs) s) (
          rw (step_span obj) (
            rw count (
              make_offset_from-encode_all fuel content objs (offset + n) (suc i) table' ss
                (drop-skip content offset obj (encode_all objs) at) (omega (arith, whole, fits))
                (omega (arith, enough)))))))

-- Entries below the first one stay.
offsets_from-below :
    (objs : List Asn1Object) (offset i : ℕ) (table : ℕ → ℕ) (j : ℕ)
    → j < i
    → offsets_from objs offset i table j ≡ table j
unfolding offsets_from set_offset
offsets_from-below [] offset i table j h = refl
offsets_from-below (obj ∷ objs) offset i table j h =
    let e : (j == i) ≡ false = ground arith in
    offsets_from-below objs (offset + get_serialized_length (length obj.value)) (suc i)
      (set_offset table i offset) j (omega (arith, h))
    ∙ rw e refl

offsets_from-at :
    (objs : List Asn1Object) (offset i : ℕ) (table : ℕ → ℕ) (j : ℕ)
    → j < length objs
    → offsets_from objs offset i table (i + j) ≡ offset + span_all (take j objs)
unfolding offsets_from set_offset span_all
offsets_from-at [] offset i table j h = absurd (omega (arith, h))
offsets_from-at (obj ∷ objs) offset i table zero h =
    let e : i + 0 ≡ i = omega arith in
    let s : (i == i) ≡ true = ground arith in
    rw e (
      offsets_from-below objs (offset + get_serialized_length (length obj.value)) (suc i)
        (set_offset table i offset) i (omega arith)
      ∙ rw s (omega arith))
offsets_from-at (obj ∷ objs) offset i table (suc j) h =
    let e : i + suc j ≡ suc i + j = omega arith in
    rw e (
      offsets_from-at objs (offset + get_serialized_length (length obj.value)) (suc i)
        (set_offset table i offset) j (omega (arith, h))
      ∙ omega arith)

-- Entries from the number of elements on stay: makeOffset never sets them.
pub offsets_from-beyond :
    (objs : List Asn1Object) (offset i : ℕ) (table : ℕ → ℕ) (j : ℕ)
    → i + length objs ≤ j
    → offsets_from objs offset i table j ≡ table j
unfolding offsets_from set_offset
offsets_from-beyond [] offset i table j h = refl
offsets_from-beyond (obj ∷ objs) offset i table j h =
    let e : (j == i) ≡ false = ground arith in
    offsets_from-beyond objs (offset + get_serialized_length (length obj.value)) (suc i)
      (set_offset table i offset) j (omega (arith, h))
    ∙ rw e refl

length-objs_le : (objs : List Asn1Object) → length objs ≤ length (encode_all objs)
unfolding encode_all
length-objs_le [] = omega arith
length-objs_le (obj ∷ objs) = omega (
  arith,
  length-append (to_byte_array obj) (encode_all objs),
  length-to_byte_array obj,
  two_octets (length obj.value),
  length-objs_le objs,
)

-- The state that setValue and makeOffset leave.
unfoldable pub holding : GenericSequence → List Asn1Object → GenericSequence
unfolding encode_all offsets_from
holding s objs = record s {
  object = record s.object { value = encode_all objs };
  size = length objs;
  offsets = offsets_from objs 0 0 s.offsets;
}

pub set_content-encode_all :
    (s : GenericSequence) (objs : List Asn1Object)
    → All IsShort objs
    → set_content s (encode_all objs) ≡ parsed (holding s objs)
unfolding set_content make_offset holding
set_content-encode_all s objs short =
    let all = encode_all objs in
    rw
      (make_offset_from-encode_all (length all) all objs 0 0 s.offsets short refl (omega arith)
        (length-objs_le objs))
      (let e : 0 + length objs ≡ length objs = omega arith in rw e refl)

pub holding-Holds :
    (s : GenericSequence) (objs : List Asn1Object) → All IsShort objs → Holds (holding s objs) objs
unfolding Holds holding
holding-Holds s objs short = (
  refl,
  refl,
  short,
  λ i h.
      let e : 0 + i ≡ i = omega arith in
      ap (offsets_from objs 0 0 s.offsets) (sym e)
      ∙ offsets_from-at objs 0 0 s.offsets i h
      ∙ omega arith,
)

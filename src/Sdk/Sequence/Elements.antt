-- ===== src/Sdk/Sequence/Elements.antt =====
-- Reading the elements of a sequence.
use opencie_pkcs.Base.{
  All-get_elem?, get_elem?-lt, get_elem?-drop, ℕ, zero, suc, ◌+◌, ◌≤◌, ◌<◌, ◌≡◌, refl, sym, ap, ◌∙◌,
  true, false, List, [], ◌∷◌, ◌++◌, map, some, ltb, length, take, drop, get_elem?, drop_exact,
  take-append-drop, drop-get_elem?, take-suc, arith,
}
use mathlib.Core.List.{append_assoc}
use opencie_pkcs.Sdk.Object.{
  Asn1Object, Parsed, parsed, ◌>>=◌, to_byte_array, get_serialized_length,
}
use opencie_pkcs.Sdk.Object.RoundTrip.{as_read}
use opencie_pkcs.Sdk.Sequence.{GenericSequence, element_from, element_at, next_element}
use opencie_pkcs.Sdk.Sequence.Holding.{
  IsShort, encode_all, span_all, Holds, length-encode_all, current_object-to_byte_array,
}

pub encode_all-append :
    (xs ys : List Asn1Object) → encode_all (xs ++ ys) ≡ encode_all xs ++ encode_all ys
unfolding encode_all
encode_all-append [] ys = refl
encode_all-append (x ∷ xs) ys =
    rw (encode_all-append xs ys)
      (sym (append_assoc (to_byte_array x) (encode_all xs) (encode_all ys)))

-- What stands at an offset of the table is the element and those behind it.
pub drop-encode_all :
    (objs : List Asn1Object) (n : ℕ)
    → drop (span_all (take n objs)) (encode_all objs) ≡ encode_all (drop n objs)
drop-encode_all objs n =
    let all : encode_all (take n objs) ++ encode_all (drop n objs) ≡ encode_all objs =
      sym (encode_all-append (take n objs) (drop n objs))
      ∙ ap encode_all (take-append-drop n objs) in
    rw (← all) (
      drop_exact (span_all (take n objs)) (encode_all (take n objs)) (encode_all (drop n objs))
        (sym (length-encode_all (take n objs))))

span_all-append : (xs ys : List Asn1Object) → span_all (xs ++ ys) ≡ span_all xs + span_all ys
unfolding span_all
span_all-append [] ys = omega arith
span_all-append (x ∷ xs) ys = omega (arith, span_all-append xs ys)

span_one : (obj : Asn1Object) → span_all (obj ∷ []) ≡ get_serialized_length (length obj.value)
unfolding span_all
span_one obj = omega arith

pub span_all-take :
    (objs : List Asn1Object) (n : ℕ) (obj : Asn1Object)
    → get_elem? objs n ≡ some obj
    → span_all (take (suc n) objs)
      ≡ span_all (take n objs) + get_serialized_length (length obj.value)
span_all-take objs n obj h = rw (take-suc objs n obj h) (
    span_all-append (take n objs) (obj ∷ [])
    ∙ (let e : span_all (obj ∷ []) ≡ get_serialized_length (length obj.value) = span_one obj in
        rw e refl))

-- The state that reading the element `n` leaves.
abbrev pub behind : GenericSequence → List Asn1Object → ℕ → GenericSequence
behind s objs n = record s { next_offset = span_all (take (suc n) objs) }

element_from-encode_all :
    (s : GenericSequence) (objs : List Asn1Object) (n : ℕ) (obj : Asn1Object)
    → Holds s objs
    → get_elem? objs n ≡ some obj
    → element_from s (span_all (take n objs)) ≡ parsed (as_read obj, behind s objs n)
unfolding element_from Holds as_read encode_all
element_from-encode_all s objs n obj (value, count, short, table) h = rw value (
    rw (drop-encode_all objs n) (
      rw (drop-get_elem? objs n obj h) (
        rw
          (current_object-to_byte_array obj (encode_all (drop (suc n) objs))
            (All-get_elem? IsShort objs n obj short h))
          (rw (span_all-take objs n obj h) refl))))

-- CASN1GenericSequence::elementAt on a sequence that holds a list of objects gives the object at
-- the position, and moves the cursor of nextElement behind it, for content below 2 ^ 31 octets in
-- all, where offsets do not wrap around.
pub element_at-Holds :
    (s : GenericSequence) (objs : List Asn1Object) (n : ℕ) (obj : Asn1Object)
    → Holds s objs
    → get_elem? objs n ≡ some obj
    → element_at s n ≡ parsed (as_read obj, behind s objs n)
unfolding element_at Holds
element_at-Holds s objs n obj (value, count, short, table) h =
    let below : n < length objs = get_elem?-lt objs n obj h in
    let e : ltb n s.size ≡ true = ground (arith, count) in
    rw e (rw (table n below) (element_from-encode_all s objs n obj (value, count, short, table) h))

pub span_all-take_le :
    (objs : List Asn1Object) (n : ℕ) → span_all (take n objs) ≤ length (encode_all objs)
span_all-take_le objs n =
    let all : span_all objs ≡ span_all (take n objs) + span_all (drop n objs) =
      sym (ap span_all (take-append-drop n objs)) ∙ span_all-append (take n objs) (drop n objs) in
    omega (arith, all, length-encode_all objs)

-- The element behind the one just read.
next_element-Holds :
    (s : GenericSequence) (objs : List Asn1Object) (n : ℕ) (obj : Asn1Object)
    → Holds s objs
    → s.next_offset ≡ span_all (take n objs)
    → get_elem? objs n ≡ some obj
    → next_element s ≡ parsed (as_read obj, behind s objs n)
unfolding next_element Holds
next_element-Holds s objs n obj (value, count, short, table) cursor h =
    let le = span_all-take_le objs n in
    let e : ltb (length s.object.value) s.next_offset ≡ false =
      rw value (rw cursor (ground (arith, le))) in
    rw e (rw cursor (element_from-encode_all s objs n obj (value, count, short, table) h))

-- So many calls of nextElement.
unfoldable pub walk : ℕ → GenericSequence → Parsed (List Asn1Object)
unfolding next_element
walk zero s = parsed []
walk (suc n) s = next_element s >>= λ r. walk n (r.1) >>= λ objs. parsed (r.0 ∷ objs)

walk-drop :
    (rest : List Asn1Object) (s : GenericSequence) (objs : List Asn1Object) (n : ℕ)
    → Holds s objs
    → s.next_offset ≡ span_all (take n objs)
    → drop n objs ≡ rest
    → walk (length rest) s ≡ parsed (map as_read rest)
unfolding walk Holds
walk-drop [] s objs n held cursor h = refl
walk-drop (x ∷ rest) s objs n held cursor h =
    let (here, more) = get_elem?-drop objs n x rest h in
    rw (next_element-Holds s objs n x held cursor here)
      (rw (walk-drop rest (behind s objs n) objs (suc n) held refl more) refl)

-- On a sequence that holds a list of objects and whose cursor is at the start, as many calls of
-- nextElement as it has elements give all of them in order, for content below 2 ^ 31 octets in
-- all, where offsets do not wrap around.
pub walk-Holds :
    (s : GenericSequence) (objs : List Asn1Object)
    → Holds s objs
    → s.next_offset ≡ 0
    → walk (length objs) s ≡ parsed (map as_read objs)
unfolding span_all
walk-Holds s objs held cursor = walk-drop objs s objs 0 held cursor refl

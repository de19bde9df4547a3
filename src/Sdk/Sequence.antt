-- ===== src/Sdk/Sequence.antt =====
-- CASN1GenericSequence of sign-sdk/src/asn1/asn1_generic_sequence.cpp: the octets of the elements, a
-- table of where each starts, and a cursor. Content is below 2 ^ 31 octets.
use opencie_pkcs.Base.{
  ℕ, zero, suc, ◌+◌, ◌-◌, ◌^◌, Bool, ◌||◌, List, [], ◌∷◌, ◌++◌, ltb, ◌==◌, if◌then◌else◌, length,
  take, drop,
}
use opencie_pkcs.Sdk.Object.{
  Asn1Object, Asn1Error, Parsed, parsed, failed, bad_object, object_not_found, invalid_position,
  past_content, ◌>>=◌, get_serialized_length, to_byte_array, shift_in, from_reader, from_byte_array,
}
pub mod Holding
pub mod Offsets
pub mod Elements
pub mod Edits
pub mod Decoding
pub mod Tests

-- `m_pnOffsets` as a function: makeOffset sets the entries below `m_nSize` only.
pub record GenericSequence : Type 0 where
  pub object : Asn1Object
  pub next_offset : ℕ
  pub offsets : ℕ → ℕ
  pub size : ℕ

-- `total`, or 0 if it is more than what is available.
unfoldable pub within : ℕ → ℕ → ℕ
within available total = if ltb available total then 0 else total

-- PeekTlvSpan: `shift_in` of four octets at most is the shift on size_t.
unfoldable pub peek_tlv_span : List ℕ → ℕ
unfolding shift_in within
peek_tlv_span [] = 0
peek_tlv_span (tag ∷ []) = 0
peek_tlv_span (tag ∷ l ∷ rest) =
    let octets = l - 0x80 in
    let available = 2 + length rest in
    if l == 0x80
    then 0
    else if ltb l 0x80
    then within available (2 + l)
    else if (octets == 0) || (ltb 4 octets || ltb (length rest) octets)
    then 0
    else within available (2 + octets + shift_in 0 (take octets rest))

-- The element that starts here: its own span, or all there is.
unfoldable pub current_object : List ℕ → Parsed Asn1Object
unfolding peek_tlv_span from_byte_array
current_object bytes =
    let span = peek_tlv_span bytes in from_byte_array (if span == 0 then bytes else take span bytes)

unfoldable pub set_offset : (ℕ → ℕ) → ℕ → ℕ → ℕ → ℕ
set_offset table i offset j = if j == i then offset else table j

-- One turn of makeOffset's loop: a CASN1ParsingException ends it, any other exception leaves it.
unfoldable pub after_current :
    (ℕ → Parsed (ℕ × (ℕ → ℕ))) → ℕ → (ℕ → ℕ) → Parsed Asn1Object → Parsed (ℕ × (ℕ → ℕ))
after_current again i table (failed bad_object) = parsed (i, table)
after_current again i table (failed object_not_found) = failed object_not_found
after_current again i table (failed invalid_position) = failed invalid_position
after_current again i table (failed past_content) = failed past_content
after_current again i table (parsed obj) = again (obj.len_read + length obj.value + 2)

-- makeOffset from `offset` and `i`: every turn moves on by two octets at least.
unfoldable pub make_offset_from : ℕ → List ℕ → ℕ → ℕ → (ℕ → ℕ) → Parsed (ℕ × (ℕ → ℕ))
unfolding current_object set_offset after_current
make_offset_from zero content offset i table = parsed (i, table)
make_offset_from (suc fuel) content offset i table =
    let table' = set_offset table i offset in
    let turn =
      after_current (λ n. make_offset_from fuel content (offset + n) (suc i) table') i table'
        (current_object (drop offset content)) in
    if ltb offset (length content) then turn else parsed (i, table)

unfoldable pub make_offset : List ℕ → (ℕ → ℕ) → Parsed (ℕ × (ℕ → ℕ))
unfolding make_offset_from
make_offset content = make_offset_from (length content) content 0 0

-- setValue, then `m_nSize = makeOffset()`.
unfoldable pub set_content : GenericSequence → List ℕ → Parsed GenericSequence
unfolding make_offset
set_content s content = make_offset content s.offsets >>= λ r.
    parsed (record s { object = record s.object { value = content }; size = r.0; offsets = r.1 })

-- The table that calloc clears; `unset` is what realloc leaves in the entries it adds.
unfoldable pub alloc_offsets : (ℕ → ℕ) → ℕ → ℕ
alloc_offsets unset i = if ltb i 102 then 0 else unset i

unfoldable pub new_sequence : (ℕ → ℕ) → ℕ → GenericSequence
unfolding alloc_offsets
new_sequence unset tag = record {
  object = record { tag = tag; value = []; len_read = 0 };
  next_offset = 0;
  offsets = alloc_offsets unset;
  size = 0;
}

-- The constructors from octets, over CASN1Object's.
unfoldable pub read_sequence : (ℕ → ℕ) → List ℕ → Parsed GenericSequence
unfolding from_byte_array set_content alloc_offsets
read_sequence unset bytes = from_byte_array bytes >>= λ obj.
    set_content (record { object = obj; next_offset = 0; offsets = alloc_offsets unset; size = 0 })
      (obj.value)

-- The octets up to an offset and from it on.
unfoldable pub cut : List ℕ → ℕ → Parsed (List ℕ × List ℕ)
cut content offset =
    if ltb (length content) offset
    then failed past_content
    else parsed (take offset content, drop offset content)

unfoldable pub add_element : GenericSequence → Asn1Object → Parsed GenericSequence
unfolding set_content to_byte_array
add_element s obj =
    let old = s.object.value in
    set_content s (if length old == 0 then to_byte_array obj else old ++ to_byte_array obj)

unfoldable pub add_element_at : GenericSequence → Asn1Object → ℕ → Parsed GenericSequence
unfolding set_content to_byte_array
add_element_at s obj pos =
    let old = s.object.value in
    let bytes = to_byte_array obj in
    if ltb s.size pos
    then failed invalid_position
    else if length old == 0
    then set_content s bytes
    else if pos == 0
    then set_content s (bytes ++ old)
    else (cut old (s.offsets pos) >>= λ r. set_content s (r.0 ++ (bytes ++ r.1)))

unfoldable pub remove_element_at : GenericSequence → ℕ → Parsed GenericSequence
unfolding set_content
remove_element_at s pos =
    let old = s.object.value in
    if ltb s.size pos
    then failed invalid_position
    else if length old == 0
    then set_content s []
    else if pos == 0
    then (cut old (s.offsets 1) >>= λ r. set_content s (r.1))
    else (cut old (s.offsets pos) >>= λ r.
        cut old (s.offsets (suc pos)) >>= λ q. set_content s (r.0 ++ q.1))

unfoldable pub set_element_at : GenericSequence → Asn1Object → ℕ → Parsed GenericSequence
unfolding remove_element_at add_element_at
set_element_at s obj pos = remove_element_at s pos >>= λ s'. add_element_at s' obj pos

unfoldable pub remove_all : GenericSequence → GenericSequence
remove_all s = record s { object = record s.object { value = [] }; size = 0 }

unfoldable pub is_present : GenericSequence → ℕ → Bool
is_present s pos = ltb pos s.size

-- The element at an offset; the cursor moves behind it.
unfoldable pub element_from : GenericSequence → ℕ → Parsed (Asn1Object × GenericSequence)
unfolding current_object get_serialized_length
element_from s offset = current_object (drop offset s.object.value) >>= λ obj.
    parsed (obj, record s { next_offset = offset + get_serialized_length (length obj.value) })

-- `CASN1Object()`
abbrev pub empty_object : Asn1Object
empty_object = record { tag = 0; value = []; len_read = 0 }

unfoldable pub element_at : GenericSequence → ℕ → Parsed (Asn1Object × GenericSequence)
unfolding element_from
element_at s pos =
    if ltb pos s.size then element_from s (s.offsets pos) else parsed (empty_object, s)

unfoldable pub next_element : GenericSequence → Parsed (Asn1Object × GenericSequence)
unfolding element_from
next_element s =
    if ltb (length s.object.value) s.next_offset
    then failed bad_object
    else element_from s s.next_offset

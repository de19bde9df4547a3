-- ===== src/Sdk/Sequence/Tests.antt =====
-- A content info of two elements, its content replaced, and a script of changes.
use opencie_pkcs.Base.{◌≡◌, refl, inl, List, [], ◌∷◌, ◌++◌, All, arith}
use opencie_pkcs.Sdk.Object.{Asn1Object, parsed, to_byte_array, from_reader}
use opencie_pkcs.Sdk.Object.RoundTrip.{as_read, from_reader-to_byte_array}
use opencie_pkcs.Sdk.Sequence.{
  GenericSequence, new_sequence, read_sequence, element_at, set_element_at,
}
use opencie_pkcs.Sdk.Sequence.Holding.{IsShort, Holds, encode_all}
use opencie_pkcs.Sdk.Sequence.Offsets.{holding, holding-Holds, offsets_from}
use opencie_pkcs.Sdk.Sequence.Elements.{behind, element_at-Holds, walk, walk-Holds}
use opencie_pkcs.Sdk.Sequence.Edits.{IsPlace}
use opencie_pkcs.Sdk.Sequence.Edits.Last.{set_element_at-last}
use opencie_pkcs.Sdk.Sequence.Edits.Scripts.{
  Edit, append, insert, remove, replace, edit_all, edited_all, AllSafe, IsSafe, edit_all-Holds,
}
use opencie_pkcs.Sdk.Sequence.Decoding.{read_sequence-to_byte_array}

abbrev content_type : Asn1Object
content_type = record { tag = 6; value = 42 ∷ 3 ∷ []; len_read = 0 }

abbrev old_content : Asn1Object
old_content = record { tag = 0xA0; value = 48 ∷ 0 ∷ []; len_read = 0 }

abbrev new_content : Asn1Object
new_content = record { tag = 0xA0; value = 5 ∷ []; len_read = 0 }

unfoldable empty : GenericSequence
unfolding new_sequence
empty = new_sequence (λ i. 0) 0x30

abbrev two : List Asn1Object
two = content_type ∷ old_content ∷ []

IsShort-two : All IsShort two
unfolding IsShort
IsShort-two = (omega arith, (omega arith, tt))

-- The content info that two calls of addElement leave.
unfoldable content_info : GenericSequence
unfolding empty holding
content_info = holding empty two

content_info-Holds : Holds content_info two
unfolding content_info
content_info-Holds = holding-Holds empty two IsShort-two

unset : content_info.offsets 2 ≡ 0
unfolding content_info offsets_from new_sequence
unset = refl

new_content-IsShort : IsShort new_content
unfolding IsShort
new_content-IsShort = omega arith

from_start : content_info.next_offset ≡ 0
unfolding content_info
from_start = refl

content_info-IsShort : IsShort (content_info.object)
unfolding IsShort content_info encode_all
content_info-IsShort = omega arith

from_reader-to_byte_array_example :
    from_reader (to_byte_array content_type ++ (1 ∷ [])) ≡ parsed (as_read content_type, 1 ∷ [])
from_reader-to_byte_array_example = from_reader-to_byte_array content_type (1 ∷ []) (omega arith)

element_at-Holds_example :
    element_at content_info 1 ≡ parsed (as_read old_content, behind content_info two 1)
element_at-Holds_example = element_at-Holds content_info two 1 old_content content_info-Holds refl

walk-Holds_example : walk 2 content_info ≡ parsed (as_read content_type ∷ as_read old_content ∷ [])
walk-Holds_example = walk-Holds content_info two content_info-Holds from_start

set_element_at-last_example :
    (s' : GenericSequence) × set_element_at content_info new_content 1 ≡ parsed s'
    × Holds s' (content_type ∷ new_content ∷ two)
set_element_at-last_example =
    set_element_at-last content_info two new_content 1 content_info-Holds new_content-IsShort refl
      unset

read_sequence-to_byte_array_example :
    (s' : GenericSequence) × read_sequence (λ i. 7) (to_byte_array (content_info.object))
      ≡ parsed s'
    × Holds s' two
read_sequence-to_byte_array_example =
    read_sequence-to_byte_array (λ i. 7) content_info two content_info-Holds content_info-IsShort

abbrev script : List Edit
script =
    append content_type
    ∷ insert old_content 0
    ∷ replace new_content 0
    ∷ append old_content
    ∷ remove 1
    ∷ []

empty-Holds : Holds empty []
unfolding Holds empty encode_all
empty-Holds = (refl, refl, tt, λ i h. absurd (omega (arith, h)))

script_safe : AllSafe [] script
unfolding AllSafe IsSafe edited_all IsShort IsPlace
script_safe = (
  omega arith,
  ((omega arith, inl refl), ((omega arith, omega arith), (omega arith, (omega arith, tt)))),
)

edit_all-Holds_example :
    (s' : GenericSequence) × edit_all empty script ≡ parsed s' × Holds s' (edited_all [] script)
edit_all-Holds_example = edit_all-Holds empty [] script empty-Holds script_safe

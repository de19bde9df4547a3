-- ===== src/Sdk/Sequence/Decoding.antt =====
-- A sequence written out and read again.
use opencie_pkcs.Base.{ℕ, ◌≡◌, List}
use opencie_pkcs.Sdk.Object.{Asn1Object, parsed, to_byte_array}
use opencie_pkcs.Sdk.Object.RoundTrip.{as_read}
use opencie_pkcs.Sdk.Sequence.{GenericSequence, read_sequence, alloc_offsets}
use opencie_pkcs.Sdk.Sequence.Holding.{IsShort, Holds, from_byte_array-to_byte_array}
use opencie_pkcs.Sdk.Sequence.Offsets.{holding, holding-Holds}
use opencie_pkcs.Sdk.Sequence.Edits.{set_content_lem}

-- A sequence that holds a list of objects, written with toByteArray and read with the constructor
-- of CASN1GenericSequence, holds the same objects, for content shorter than 2 ^ 31 octets.
pub read_sequence-to_byte_array :
    (unset : ℕ → ℕ) (s : GenericSequence) (objs : List Asn1Object)
    → Holds s objs
    → IsShort s.object
    → (s' : GenericSequence) × read_sequence unset (to_byte_array s.object) ≡ parsed s'
      × Holds s' objs
unfolding read_sequence as_read Holds
read_sequence-to_byte_array unset s objs (value, count, shorts, table) short =
    let start : GenericSequence = record {
      object = as_read s.object;
      next_offset = 0;
      offsets = alloc_offsets unset;
      size = 0;
    } in
    (
      holding start objs,
      rw (from_byte_array-to_byte_array s.object short)
          (set_content_lem start objs s.object.value value shorts),
      holding-Holds start objs shorts,
    )

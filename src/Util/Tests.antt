-- ===== src/Util/Tests.antt =====
-- The theorems on paddings and TLV data, applied.
use opencie_pkcs.Base.{ℕ, ◌≡◌, List, [], ◌∷◌, ◌++◌, some, ok, replicate, arith}
use opencie_pkcs.Base.Map.{Map, find}
use opencie_pkcs.Util.Tlv.{ctlv, get_value, get_buffer}
use opencie_pkcs.Util.Tlv.RoundTrip.{get_value-get_buffer}

abbrev block : List ℕ
block = 0 ∷ 1 ∷ (replicate 8 0xff ++ (0 ∷ 5 ∷ 6 ∷ []))

abbrev saved : Map (List ℕ)
saved = (0, 6 ∷ 0 ∷ []) ∷ (3, 1 ∷ []) ∷ []

abbrev eleven : ℕ
eleven = 11

get_value-get_buffer_example :
    (bytes : List ℕ) × (read : Map (List ℕ)) × (get_buffer saved ≡ ok bytes)
    × (ctlv bytes ≡ some (ok read))
    × ((tag : ℕ) → get_value read tag ≡ ok (find tag saved))
unfolding opencie_pkcs.Util.Tlv.Write.entries opencie_pkcs.Util.Tlv.Write.entry
get_value-get_buffer_example =
    get_value-get_buffer saved (omega arith, (omega arith, tt)) (omega arith)

-- ===== src/Card/Ias/Reading.antt =====
-- The read loop that readfile and readfile_SM of shared/src/csp/ias.cpp share, over a way to send a command,
-- and the loop of readDGbySFI.
use opencie_pkcs.Base.{
  ℕ, zero, suc, ◌+◌, ◌-◌, ◌*◌, ◌/◌, ◌%◌, List, [], ◌∷◌, ◌++◌, Option, none, some, ltb, leb, ◌==◌,
  not, if◌then◌else◌, length, scard_error,
}
use opencie_pkcs.Card.Io.{Io, ◌>>=◌, ◌>>◌, return, fail, still_running, guard_not}
use opencie_pkcs.Card.Token.{Answer}

-- SendAPDU or SendAPDU_SM: the header, the data, and the expected length where there is one.
abbrev pub Send : Type 0 → Type 0
Send C = List ℕ → List ℕ → Option ℕ → Io C Answer

module _ {C : Type 0} (send : Send C) where
  unfoldable pub read_binary : ℕ → ℕ → Io C Answer
  read_binary cnt le = send (0x00 ∷ 0xb0 ∷ (cnt / 256) ∷ (cnt % 256) ∷ []) [] (some le)

  -- Once more with the length that the card names.
  unfoldable pub read_chunk : ℕ → ℕ → Io C Answer
  unfolding read_binary
  read_chunk cnt chunk = read_binary cnt chunk >>= λ r.
      if r.1 / 256 == 0x6c then read_binary cnt (r.1 % 256) else return r

  -- What follows an answer: `again` is the rest of the loop, from the content that there is then.
  unfoldable pub after_chunk : (List ℕ → Io C (List ℕ)) → List ℕ → Answer → Io C (List ℕ)
  after_chunk again content r =
      if r.1 == 0x9000
      then again (content ++ r.0)
      else if r.1 == 0x6282
      then return (content ++ r.0)
      else if r.1 == 0x6b00
      then return content
      else fail (scard_error (r.1))

  -- The loop, at most so often; `cnt` is a WORD.
  unfoldable pub read_loop : ℕ → List ℕ → ℕ → Io C (List ℕ)
  unfolding read_chunk after_chunk
  read_loop zero content cnt = still_running
  read_loop (suc fuel) content cnt = read_chunk cnt 224 >>= λ r.
      after_chunk (λ longer. read_loop fuel longer (length longer % 65536)) content r

  unfoldable pub select_file : ℕ → Io C (Unit {0})
  select_file id =
      send (0x00 ∷ 0xa4 ∷ 0x02 ∷ 0x04 ∷ []) ((id / 256) ∷ (id % 256) ∷ []) none >>= λ r.
      guard_not (not (r.1 == 0x9000)) (scard_error (r.1))

  unfoldable pub read_file : ℕ → ℕ → List ℕ → Io C (List ℕ)
  read_file fuel id content = select_file id >> read_loop fuel content 0

  -- The loop of readDGbySFI: it asks for no more than what is left of the file.
  unfoldable pub read_dg_loop : ℕ → List ℕ → ℕ → ℕ → Io C (List ℕ)
  unfolding read_chunk after_chunk
  read_dg_loop zero content file_size cnt = still_running
  read_dg_loop (suc fuel) content file_size cnt =
      let again = read_dg_loop fuel in
      let remaining = if ltb (file_size - cnt) 224 then file_size - cnt else 224 in
      if ltb cnt file_size
      then (read_chunk cnt remaining >>= λ r.
          after_chunk (λ longer. again longer file_size (length longer % 65536)) content r)
      else return content

-- The length of the file that the first octets of its TLV tell, 0 where they do not.
unfoldable pub tlv_size : List ℕ → ℕ
tlv_size (t ∷ a ∷ []) = if leb a 0x7f then 2 + a else 0
tlv_size (t ∷ a ∷ b ∷ []) = if leb a 0x7f then 2 + a else if a == 0x81 then 3 + b else 0
tlv_size (t ∷ a ∷ b ∷ c ∷ bs) =
    if leb a 0x7f
    then 2 + a
    else if a == 0x81
    then 3 + b
    else if a == 0x82
    then 4 + (b * 256 + c)
    else 0
tlv_size bs = 0

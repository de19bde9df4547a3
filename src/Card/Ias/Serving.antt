-- ===== src/Card/Ias/Serving.antt =====
-- A card that serves READ BINARY of a file as ISO/IEC 7816-4 says: an independent description, in
-- the three ways in which cards answer past the end of the file. P1 and P2 are an offset while P1 is
-- below 80, and an expected length is from 1 on, since 00 asks for 256.
use opencie_pkcs.Base.{
  ℕ, ◌+◌, ◌/◌, ◌%◌, List, [], ◌∷◌, ◌++◌, leb, if◌then◌else◌, length, take, drop,
}
use opencie_pkcs.Card.Token.{Answer}

pub data PastEnd : Type 0 where
  -- 9000 with what there is
  shorter : PastEnd
  -- 6282 with what there is
  warning : PastEnd
  -- 6Cxx with its length
  wrong_length : PastEnd

unfoldable pub past_end : PastEnd → List ℕ → Answer
past_end shorter rest = (rest, 0x9000)
past_end warning rest = (rest, 0x6282)
past_end wrong_length rest = ([], 0x6c00 + length rest)

-- The answer on offset `at` and expected length `le`.
unfoldable pub served : PastEnd → List ℕ → ℕ → ℕ → Answer
unfolding past_end
served style file at le =
    if leb (length file) at
    then ([], 0x6b00)
    else if leb (at + le) (length file)
    then (take le (drop at file), 0x9000)
    else past_end style (drop at file)

-- A response APDU.
unfoldable pub response : Answer → List ℕ
response r = r.0 ++ ((r.1 / 256) ∷ (r.1 % 256) ∷ [])

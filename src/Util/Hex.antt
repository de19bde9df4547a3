-- ===== src/Util/Hex.antt =====
-- Hexadecimal text of shared/src/util/util.cpp: hex2byte, countHexData, setHexData, readHexData,
-- HexByte and dumpHexData. A character is its code, and isspace and isxdigit are those of the C
-- locale. `rest` is the text from the index on and `slen` the length of the whole text.
use opencie_pkcs.Base.{
  ℕ, zero, suc, ◌+◌, ◌-◌, ◌*◌, ◌/◌, ◌%◌, Bool, true, false, not, ◌&&◌, ◌||◌, List, [], ◌∷◌, ◌++◌,
  Option, none, some, ltb, leb, ◌==◌, if◌then◌else◌, length, drop, get_elem?, Result, ok, throw,
  logged_error, crash, ◌>>=◌ as bind,
}
use opencie_pkcs.Base.Outcome.{Outcome, done, thrown, running, outcome, ◌>>=◌}
pub mod Digits
pub mod RoundTrip
pub mod Tests

unfoldable pub hex2byte : ℕ → ℕ
hex2byte h =
    if leb 0x30 h && leb h 0x39
    then h - 0x30
    else if leb 0x41 h && leb h 0x46
    then h + 10 - 0x41
    else if leb 0x61 h && leb h 0x66
    then h + 10 - 0x61
    else 0

unfoldable pub is_space : ℕ → Bool
is_space c = (c == 0x20) || (leb 0x09 c && leb c 0x0d)

unfoldable pub is_xdigit : ℕ → Bool
is_xdigit c =
    (leb 0x30 c && leb c 0x39) || ((leb 0x41 c && leb c 0x46) || (leb 0x61 c && leb c 0x66))

-- `data[i + k]` of a std::string: a zero at its end, and nothing behind it.
unfoldable pub char_at : List ℕ → ℕ → Result ℕ
char_at [] zero = ok 0
char_at [] (suc k) = throw crash
char_at (c ∷ cs) zero = ok c
char_at (c ∷ cs) (suc k) = char_at cs k

-- `(i < slen - k) && data[i] == '0' && data[i + j] == c`, where `slen - k` wraps around.
unfoldable pub has_prefix : ℕ → ℕ → ℕ → ℕ → ℕ → List ℕ → Result Bool
has_prefix slen k j c a cs =
    if (ltb slen k || ltb k (suc (length cs))) && (a == 0x30)
    then bind (char_at (a ∷ cs) j) (λ b. ok (b == c))
    else ok false

-- The `h` that may follow a byte.
abbrev pub skip_h : List ℕ → List ℕ
skip_h [] = []
skip_h (c ∷ cs) = if c == 0x68 then cs else c ∷ cs

-- The byte that starts with the digit `a`; countHexData takes no second digit.
unfoldable pub hex_value : ℕ → List ℕ → Result ℕ
hex_value a [] = ok (hex2byte a)
hex_value a (b ∷ cs) =
    if is_xdigit b
    then ok (hex2byte a * 16 + hex2byte b)
    else if is_space b
    then ok (hex2byte a)
    else throw logged_error

unfoldable pub counted_value : ℕ → List ℕ → Result ℕ
counted_value a [] = ok a
counted_value a (b ∷ cs) = if is_space b then ok a else throw logged_error

unfoldable pub push_back : Option ℕ → List ℕ → List ℕ
push_back none vs = vs
push_back (some v) vs = v ∷ vs

module _ (value : ℕ → List ℕ → Result ℕ) where
  -- A round from the digit `a` on.
  unfoldable pub digit_round : ℕ → ℕ → List ℕ → Result (Option ℕ × List ℕ)
  digit_round slen a cs = bind (has_prefix slen 3 3 0x68 a cs) (λ long.
      if long
      then ok (none, cs)
      else bind (has_prefix slen 2 1 0x78 a cs) (λ short.
        if short
        then ok (none, drop 1 cs)
        else bind (value a cs) (λ v. ok (some v, skip_h (drop 1 cs)))))

  -- A round of the loop: the byte it reads, where it reads one, and what follows.
  unfoldable pub hex_round : ℕ → ℕ → List ℕ → Result (Option ℕ × List ℕ)
  hex_round slen a cs =
      if is_space a || (a == 0x2c)
      then ok (none, cs)
      else if not (is_xdigit a)
      then throw logged_error
      else digit_round slen a cs

  unfoldable pub hex_loop : ℕ → ℕ → List ℕ → Outcome (List ℕ)
  hex_loop zero slen rest = running
  hex_loop (suc fuel) slen [] = done []
  hex_loop (suc fuel) slen (a ∷ cs) = outcome (hex_round slen a cs) >>= λ r.
      hex_loop fuel slen (r.1) >>= λ vs. done (push_back (r.0) vs)

unfoldable pub read_hex_data : List ℕ → Outcome (List ℕ)
read_hex_data text = hex_loop hex_value (suc (length text)) (length text) text

-- The bytes for `buf`, and their number.
unfoldable pub set_hex_data : List ℕ → Outcome (List ℕ × ℕ)
set_hex_data text =
    hex_loop hex_value (suc (length text)) (length text) text >>= λ vs. done (vs, length vs)

unfoldable pub count_hex_data : List ℕ → Outcome ℕ
count_hex_data text =
    hex_loop counted_value (suc (length text)) (length text) text >>= λ vs. done (length vs)

unfoldable pub hex_digit : Bool → ℕ → ℕ
hex_digit uppercase n = if ltb n 10 then 0x30 + n else if uppercase then 0x37 + n else 0x57 + n

unfoldable pub hex_byte : ℕ → Bool → List ℕ
hex_byte n uppercase = hex_digit uppercase (n / 16) ∷ hex_digit uppercase (n % 16) ∷ []

unfoldable pub dump_hex_data : List ℕ → Bool → Bool → List ℕ
dump_hex_data [] with_space uppercase = []
dump_hex_data (b ∷ bs) with_space uppercase =
    let rest = dump_hex_data bs with_space uppercase in
    hex_byte b uppercase ++ (if with_space then 0x20 ∷ rest else rest)

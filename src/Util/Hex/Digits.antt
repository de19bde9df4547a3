-- ===== src/Util/Hex/Digits.antt =====
-- The characters that dumpHexData writes, and what the tests of the readers say of them.
use opencie_pkcs.Base.{
  ℕ, ◌+◌, ◌*◌, ◌/◌, ◌%◌, ◌≤◌, ◌<◌, ◌≡◌, ◌≢◌, refl, Bool, true, false, ◌||◌, List, [], ◌∷◌, ◌==◌,
  All, ok, arith,
}
use opencie_pkcs.Util.Hex.{
  hex2byte, is_space, is_xdigit, char_at, has_prefix, skip_h, hex_digit, hex_byte, dump_hex_data,
}

pub hex2byte-hex_digit : (up : Bool) (n : ℕ) → n < 16 → hex2byte (hex_digit up n) ≡ n
unfolding hex2byte hex_digit
hex2byte-hex_digit up n h = ground arith

pub is_xdigit-hex_digit : (up : Bool) (n : ℕ) → n < 16 → is_xdigit (hex_digit up n) ≡ true
unfolding is_xdigit hex_digit
is_xdigit-hex_digit up n h = ground arith

pub separator-hex_digit :
    (up : Bool) (n : ℕ) → n < 16 → (is_space (hex_digit up n) || (hex_digit up n == 0x2c)) ≡ false
unfolding is_space hex_digit
separator-hex_digit up n h = ground arith

pub is_space-hex_digit : (up : Bool) (n : ℕ) → n < 16 → is_space (hex_digit up n) ≡ false
unfolding is_space hex_digit
is_space-hex_digit up n h = ground arith

-- The characters that dumpHexData writes are no `h` and no `x`.
unfoldable pub IsPlain : ℕ → Type 0
IsPlain c = (c ≢ 0x68) × (c ≢ 0x78)

pub hex_digit-IsPlain : (up : Bool) (n : ℕ) → n < 16 → IsPlain (hex_digit up n)
unfolding hex_digit IsPlain
hex_digit-IsPlain up n h = ground arith

pub nibbles : (b : ℕ) → b < 256 → (b / 16 < 16) × (b % 16 < 16) × (b / 16 * 16 + b % 16 ≡ b)
nibbles b h = omega arith

abbrev pub Bytes : List ℕ → Type 0
Bytes = All (λ b. b < 256)

pub space-IsPlain : IsPlain 0x20
unfolding IsPlain
space-IsPlain = ground arith

pub dump_hex_data-IsPlain :
    (bs : List ℕ) (sp up : Bool) → Bytes bs → All IsPlain (dump_hex_data bs sp up)
unfolding dump_hex_data hex_byte IsPlain
dump_hex_data-IsPlain [] sp up h = tt
dump_hex_data-IsPlain (b ∷ bs) true up (small, h) =
    let (hi, lo, _) = nibbles b small in
    (
      hex_digit-IsPlain up (b / 16) hi,
      (hex_digit-IsPlain up (b % 16) lo, (space-IsPlain, dump_hex_data-IsPlain bs true up h)),
    )
dump_hex_data-IsPlain (b ∷ bs) false up (small, h) =
    let (hi, lo, _) = nibbles b small in
    (
      hex_digit-IsPlain up (b / 16) hi,
      (hex_digit-IsPlain up (b % 16) lo, dump_hex_data-IsPlain bs false up h),
    )

-- No `0__h` and no `0x` stands where the text goes on with plain characters.
pub has_prefix-long :
    (slen a : ℕ) (cs : List ℕ)
    → 3 ≤ slen
    → All IsPlain cs
    → has_prefix slen 3 3 0x68 a cs ≡ ok false
unfolding has_prefix char_at IsPlain
has_prefix-long slen a [] s h = ground arith
has_prefix-long slen a (c ∷ []) s h = ground arith
has_prefix-long slen a (c ∷ d ∷ []) s h = ground arith
has_prefix-long slen a (c ∷ d ∷ e ∷ cs) s h = ground arith

pub has_prefix-short :
    (slen a : ℕ) (cs : List ℕ)
    → 3 ≤ slen
    → All IsPlain cs
    → has_prefix slen 2 1 0x78 a cs ≡ ok false
unfolding has_prefix char_at IsPlain
has_prefix-short slen a [] s h = ground arith
has_prefix-short slen a (c ∷ cs) s h = ground arith

pub skip_h-plain : (cs : List ℕ) → All IsPlain cs → skip_h cs ≡ cs
unfolding IsPlain
skip_h-plain [] h = refl
skip_h-plain (c ∷ cs) h = ground arith

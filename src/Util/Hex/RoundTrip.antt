-- ===== src/Util/Hex/RoundTrip.antt =====
-- readHexData reads back what dumpHexData writes, and countHexData does not.
use opencie_pkcs.Base.{
  ℕ, zero, suc, ◌+◌, ◌*◌, ◌/◌, ◌%◌, ◌≤◌, ◌<◌, ◌≡◌, ◌≢◌, refl, Bool, true, false, List, [], ◌∷◌,
  ◌++◌, some, if◌then◌else◌, length, All, Result, ok, throw, logged_error, ◌>>=◌ as bind, arith,
}
use opencie_pkcs.Base.Outcome.{Outcome, done, thrown, running, ◌>>=◌}
use opencie_pkcs.Util.Hex.Digits.{
  hex2byte-hex_digit, is_xdigit-hex_digit, separator-hex_digit, is_space-hex_digit, IsPlain,
  hex_digit-IsPlain, nibbles, Bytes, dump_hex_data-IsPlain, space-IsPlain, has_prefix-long,
  has_prefix-short, skip_h-plain,
}
use opencie_pkcs.Util.Hex.{
  is_space, hex_value, counted_value, digit_round, hex_round, push_back, hex_loop, read_hex_data,
  count_hex_data, hex_digit, hex_byte, dump_hex_data,
}

-- A round on two digits, for any use of them.
hex_round-digits :
    (value : ℕ → List ℕ → Result ℕ) (slen x y : ℕ) (up : Bool) (rest : List ℕ)
    → 3 ≤ slen
    → x < 16
    → All IsPlain (hex_digit up y ∷ rest)
    → hex_round value slen (hex_digit up x) (hex_digit up y ∷ rest)
      ≡ bind (value (hex_digit up x) (hex_digit up y ∷ rest)) (λ v. ok (some v, rest))
unfolding hex_round digit_round
hex_round-digits value slen x y up rest long small plain =
    rw
      (
        separator-hex_digit up x small,
        is_xdigit-hex_digit up x small,
        has_prefix-long slen (hex_digit up x) (hex_digit up y ∷ rest) long plain,
        has_prefix-short slen (hex_digit up x) (hex_digit up y ∷ rest) long plain,
        skip_h-plain rest (plain.1),
      )
      refl

hex_value-digits :
    (x y : ℕ) (up : Bool) (rest : List ℕ)
    → x < 16
    → y < 16
    → hex_value (hex_digit up x) (hex_digit up y ∷ rest) ≡ ok (x * 16 + y)
unfolding hex_value
hex_value-digits x y up rest hx hy =
    rw (is_xdigit-hex_digit up y hy, hex2byte-hex_digit up x hx, hex2byte-hex_digit up y hy) refl

counted_value-digits :
    (a y : ℕ) (up : Bool) (rest : List ℕ)
    → y < 16
    → counted_value a (hex_digit up y ∷ rest) ≡ throw logged_error
unfolding counted_value
counted_value-digits a y up rest hy = rw (is_space-hex_digit up y hy) refl

-- The loop on the two digits of a byte.
hex_loop-byte :
    (fuel slen b : ℕ) (up : Bool) (rest : List ℕ)
    → 3 ≤ slen
    → b < 256
    → All IsPlain rest
    → hex_loop hex_value (suc fuel) slen (hex_byte b up ++ rest)
      ≡ (hex_loop hex_value fuel slen rest >>= λ vs. done (b ∷ vs))
unfolding hex_loop hex_byte push_back
hex_loop-byte fuel slen b up rest long small plain =
    let (hi, lo, whole) = nibbles b small in
    rw
      (
        hex_round-digits hex_value slen (b / 16) (b % 16) up rest long hi
            (hex_digit-IsPlain up (b % 16) lo, plain),
        hex_value-digits (b / 16) (b % 16) up rest hi lo,
        whole,
      )
      refl

bind_done : (r : Outcome (List ℕ)) → (r >>= λ vs. done vs) ≡ r
bind_done (done vs) = refl
bind_done (thrown e) = refl
bind_done running = refl

-- A space is passed over.
hex_loop-space :
    (fuel slen : ℕ) (rest : List ℕ)
    → hex_loop hex_value (suc fuel) slen (0x20 ∷ rest) ≡ hex_loop hex_value fuel slen rest
unfolding hex_loop hex_round is_space push_back
hex_loop-space fuel slen rest = bind_done (hex_loop hex_value fuel slen rest)

hex_loop-dump :
    (bs : List ℕ) (sp up : Bool) (fuel slen : ℕ)
    → 3 ≤ slen
    → Bytes bs
    → length (dump_hex_data bs sp up) < fuel
    → hex_loop hex_value fuel slen (dump_hex_data bs sp up) ≡ done bs
unfolding hex_loop dump_hex_data hex_byte
hex_loop-dump bs sp up zero slen long h enough = absurd (omega (arith, enough))
hex_loop-dump [] sp up (suc fuel) slen long h enough = refl
hex_loop-dump (b ∷ bs) false up (suc fuel) slen long (small, h) enough =
    rw
      (
        hex_loop-byte fuel slen b up (dump_hex_data bs false up) long small
            (dump_hex_data-IsPlain bs false up h),
        hex_loop-dump bs false up fuel slen long h (omega (arith, enough)),
      )
      refl
hex_loop-dump (b ∷ bs) true up (suc zero) slen long (small, h) enough =
    absurd (omega (arith, enough))
hex_loop-dump (b ∷ bs) true up (suc (suc fuel)) slen long (small, h) enough =
    rw
      (
        hex_loop-byte (suc fuel) slen b up (0x20 ∷ dump_hex_data bs true up) long small
            (space-IsPlain, dump_hex_data-IsPlain bs true up h),
        hex_loop-space fuel slen (dump_hex_data bs true up),
        hex_loop-dump bs true up fuel slen long h (omega (arith, enough)),
      )
      refl

dump_length :
    (b : ℕ) (bs : List ℕ) (sp up : Bool)
    → length (dump_hex_data (b ∷ bs) sp up) ≢ 2
    → 3 ≤ length (dump_hex_data (b ∷ bs) sp up)
unfolding dump_hex_data hex_byte
dump_length b bs true up ne = omega arith
dump_length b bs false up ne = omega (arith, ne)

-- readHexData of what dumpHexData writes of an array of bytes gives the array back, with spaces or
-- without, in upper or lower case, unless the text has just two characters.
pub read_hex_data-dump_hex_data :
    (bs : List ℕ) (sp up : Bool)
    → Bytes bs
    → length (dump_hex_data bs sp up) ≢ 2
    → read_hex_data (dump_hex_data bs sp up) ≡ done bs
unfolding read_hex_data hex_loop dump_hex_data
read_hex_data-dump_hex_data [] sp up h ne = refl
read_hex_data-dump_hex_data (b ∷ bs) sp up h ne =
    let text = dump_hex_data (b ∷ bs) sp up in
    hex_loop-dump (b ∷ bs) sp up (suc (length text)) (length text) (dump_length b bs sp up ne) h
      (omega arith)

-- countHexData throws logged_error on what dumpHexData writes of an array of bytes that is not
-- empty, unless the text has just two characters.
count_hex_data-dump_hex_data :
    (b : ℕ) (bs : List ℕ) (sp up : Bool)
    → Bytes (b ∷ bs)
    → length (dump_hex_data (b ∷ bs) sp up) ≢ 2
    → count_hex_data (dump_hex_data (b ∷ bs) sp up) ≡ thrown logged_error
unfolding count_hex_data hex_loop dump_hex_data hex_byte
count_hex_data-dump_hex_data b bs sp up (small, h) ne =
    let (hi, lo, _) = nibbles b small in
    rw
      (
        hex_round-digits counted_value (length (dump_hex_data (b ∷ bs) sp up)) (b / 16) (b % 16) up
            (if sp then 0x20 ∷ dump_hex_data bs sp up else dump_hex_data bs sp up)
            (dump_length b bs sp up ne) hi (dump_hex_data-IsPlain (b ∷ bs) sp up (small, h)).1,
        counted_value-digits (hex_digit up (b / 16)) (b % 16) up
            (if sp then 0x20 ∷ dump_hex_data bs sp up else dump_hex_data bs sp up) lo,
      )
      refl

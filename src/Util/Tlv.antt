-- ===== src/Util/Tlv.antt =====
-- shared/src/util/tlv.h and tlv.cpp: CTLV reads a buffer of tag, length and value records, and
-- CTLVCreate writes one. A length byte below 255 is the length; 255 announces a uint32_t.
pub mod Write
pub mod RoundTrip
use opencie_pkcs.Base.{
  ℕ, zero, suc, ◌+◌, ◌-◌, ◌%◌, ◌≡◌, List, [], ◌∷◌, ◌++◌, Option, none, some, arith, ltb,
  if◌then◌else◌, length, take, drop, replicate, Result, ok, throw, throw_if, logged_error, ◌>>=◌,
  ◌>>◌, to_bytes, from_bytes, u32_mod,
}
use opencie_pkcs.Base.Map.{Map, find, assign}
use opencie_pkcs.Util.Array.{get, mid_from}

-- The while loop of the constructor of CTLV. The list is what `dwPtr` has not reached; the map
-- holds each record whole, under its tag. `none`: the fuel ran out.
unfoldable pub ctlv_loop : ℕ → List ℕ → Map (List ℕ) → Option (Result (Map (List ℕ)))
ctlv_loop fuel [] m = some (ok m)
ctlv_loop zero (t ∷ rest) m = none
ctlv_loop (suc fuel) (t ∷ []) m = some (throw logged_error)
ctlv_loop (suc fuel) (t ∷ n ∷ rest) m =
    let whole = t ∷ n ∷ rest in
    let dw_len = from_bytes (take 4 rest) in
    let short = ctlv_loop fuel (drop (n + 2) whole) (assign t (take (n + 2) whole) m) in
    let long = ctlv_loop fuel (drop (dw_len + 6) whole) (assign t (take (dw_len + 6) whole) m) in
    if ltb n 255
    then (if ltb (length whole) (n + 2) then some (throw logged_error) else short)
    else if ltb (length whole) 6
    then some (throw logged_error)
    else if ltb (length whole - 2 - 4) dw_len
    then some (throw logged_error)
    else long

-- Each round takes two bytes or more.
unfoldable pub ctlv : List ℕ → Option (Result (Map (List ℕ)))
unfolding ctlv_loop
ctlv bytes = ctlv_loop (length bytes) bytes []

unfoldable pub get_tag : Map (List ℕ) → ℕ → Option (List ℕ)
get_tag m tag = find tag m

-- CTLV::getValue. `none` is the null array that it returns for a tag that is not there.
unfoldable pub get_value : Map (List ℕ) → ℕ → Result (Option (List ℕ))
get_value m tag = elim (find tag m) [
  | none ↦ ok none
  | some r ↦ do n ← get r 1; v ← mid_from r (if ltb n 0xff then 2 else 6); ok (some v)
]

-- CTLVCreate::setValue and addValue.
unfoldable pub set_value : ℕ → List ℕ → Map (List ℕ) → Map (List ℕ)
set_value tag v m = assign tag v m

unfoldable pub add_value : ℕ → Map (List ℕ) → Map (List ℕ)
add_value tag m = assign tag [] m

-- `dwSize`, a uint32_t.
unfoldable pub buffer_size : ℕ → Map (List ℕ) → ℕ
buffer_size size [] = size
buffer_size size ((t, v) ∷ m) =
    buffer_size ((size + (length v + (if ltb (length v) 0xff then 2 else 6))) % u32_mod) m

-- A write at `dwPtr`, which is behind all that is written; it throws past the end of the buffer.
abbrev pub push : ℕ → List ℕ → List ℕ → Result (List ℕ)
push cap written src =
    if ltb cap (length written + length src) then throw logged_error else ok (written ++ src)

abbrev pub push_length : ℕ → List ℕ → ℕ → Result (List ℕ)
push_length cap written n =
    if ltb n 0xff
    then push cap written (n ∷ [])
    else push cap written (0xff ∷ []) >>= λ w. push cap w (to_bytes 4 (n % u32_mod))

unfoldable pub write_entries : ℕ → List ℕ → Map (List ℕ) → Result (List ℕ)
write_entries cap written [] = ok written
write_entries cap written ((t, v) ∷ m) = do
  w1 ← push cap written (t ∷ [])
  w2 ← push_length cap w1 (length v)
  w3 ← push cap w2 v
  write_entries cap w3 m

-- What the loop does not reach of the buffer stays as it was allocated.
unfoldable pub get_buffer : Map (List ℕ) → Result (List ℕ)
unfolding buffer_size write_entries
get_buffer m = do
  let cap = buffer_size 0 m
  w ← write_entries cap [] m
  ok (w ++ replicate (cap - length w) 0)

-- ===== src/Util/Tlv/RoundTrip.antt =====
-- Reading what CTLVCreate wrote, and the end of the loop that reads.
use opencie_pkcs.Base.{
  ℕ, zero, suc, ◌+◌, ◌^◌, ◌≤◌, ◌<◌, ◌≡◌, ◌≢◌, refl, ap, sym, List, [], ◌∷◌, ◌++◌, none, some,
  Bool-cases, Option-cases, inl, inr, arith, ltb, length, take, drop, length-append, length-drop,
  take_exact, drop_exact, ok, to_bytes, from_bytes, length-to_bytes, from_bytes-to_bytes4,
}
use mathlib.Core.List.{append_assoc}
use opencie_pkcs.Base.Map.{Map, find, assign, Sorted, find-assign, find-below}
use opencie_pkcs.Util.Array.{get, mid_from}
use opencie_pkcs.Util.Tlv.{ctlv_loop, ctlv, get_value, get_buffer}
use opencie_pkcs.Util.Tlv.Write.{length_field, entry, entries, length-entry, get_buffer-entries}

ctlv_loop-total :
    (fuel : ℕ) (bytes : List ℕ) (m : Map (List ℕ))
    → length bytes ≤ fuel
    → ctlv_loop fuel bytes m ≢ none
unfolding ctlv_loop
ctlv_loop-total fuel [] m h = λ e. cc
ctlv_loop-total zero (t ∷ rest) m h = absurd (omega arith)
ctlv_loop-total (suc fuel) (t ∷ []) m h = λ e. cc
ctlv_loop-total (suc fuel) (t ∷ n ∷ rest) m h =
    let whole : List ℕ = t ∷ n ∷ rest in
    let dw_len = from_bytes (take 4 rest) in
    ground (
      arith,
      length-drop (n + 2) whole,
      length-drop (dw_len + 6) whole,
      ctlv_loop-total fuel (drop (n + 2) whole) (assign t (take (n + 2) whole) m),
      ctlv_loop-total fuel (drop (dw_len + 6) whole) (assign t (take (dw_len + 6) whole) m),
    )

-- The constructor of CTLV ends on every input: as many rounds of its loop as there are bytes are
-- enough.
ctlv-ne-none : (bytes : List ℕ) → ctlv bytes ≢ none
unfolding ctlv
ctlv-ne-none bytes = ctlv_loop-total (length bytes) bytes [] (omega arith)

short_entry :
    (fuel t n : ℕ) (v rest : List ℕ) (m : Map (List ℕ))
    → n ≡ length v
    → n < 255
    → ctlv_loop (suc fuel) (t ∷ n ∷ (v ++ rest)) m ≡ ctlv_loop fuel rest (assign t (t ∷ n ∷ v) m)
unfolding ctlv_loop
short_entry fuel t n v rest m h lt =
    rw
      (
        take_exact (n + 2) (t ∷ n ∷ v) rest (omega arith),
        drop_exact (n + 2) (t ∷ n ∷ v) rest (omega arith),
      )
      (ground (arith, length-append v rest))

long_entry :
    (fuel t : ℕ) (field v rest : List ℕ) (m : Map (List ℕ))
    → length field ≡ 4
    → from_bytes field ≡ length v
    → ctlv_loop (suc fuel) (t ∷ 255 ∷ (field ++ (v ++ rest))) m
      ≡ ctlv_loop fuel rest (assign t (t ∷ 255 ∷ (field ++ v)) m)
unfolding ctlv_loop
long_entry fuel t field v rest m h e =
    let whole : t ∷ 255 ∷ (field ++ (v ++ rest)) ≡ (t ∷ 255 ∷ (field ++ v)) ++ rest =
      ap (λ l. t ∷ 255 ∷ l) (sym (append_assoc field v rest)) in
    let total : length v + 6 ≡ length (t ∷ 255 ∷ (field ++ v)) =
      omega (arith, length-append field v) in
    rw
      (
        take_exact 4 field (v ++ rest) (sym h),
        e,
        whole,
        take_exact (length v + 6) (t ∷ 255 ∷ (field ++ v)) rest total,
        drop_exact (length v + 6) (t ∷ 255 ∷ (field ++ v)) rest total,
      )
      (ground (arith, length-append (field ++ v) rest, length-append field v))

ctlv_loop-entry :
    (fuel t : ℕ) (v rest : List ℕ) (m : Map (List ℕ))
    → length v < 2 ^ 32
    → ctlv_loop (suc fuel) (entry t v ++ rest) m ≡ ctlv_loop fuel rest (assign t (entry t v) m)
unfolding entry length_field
ctlv_loop-entry fuel t v rest m h = elim (Bool-cases (ltb (length v) 0xff)) [
  | inl e ↦ rw e (short_entry fuel t (length v) v rest m refl (ground arith))
  | inr e ↦
      rw (e, append_assoc (to_bytes 4 (length v)) v rest)
        (long_entry fuel t (to_bytes 4 (length v)) v rest m (length-to_bytes 4 (length v))
          (from_bytes-to_bytes4 (length v) h))
]

-- The map that the reader has built when it has seen the records of `m`.
abbrev read_entries : Map (List ℕ) → Map (List ℕ) → Map (List ℕ)
read_entries [] acc = acc
read_entries ((t, v) ∷ m) acc = read_entries m (assign t (entry t v) acc)

ctlv_loop-entries :
    (m : Map (List ℕ)) (fuel : ℕ) (acc : Map (List ℕ))
    → length (entries m) < 2 ^ 32
    → length (entries m) ≤ fuel
    → ctlv_loop fuel (entries m) acc ≡ some (ok (read_entries m acc))
unfolding entries
ctlv_loop-entries [] fuel acc h f = unfold ctlv_loop in refl
ctlv_loop-entries ((t, v) ∷ m) zero acc h f =
    absurd (ground (arith, length-append (entry t v) (entries m), length-entry t v))
ctlv_loop-entries ((t, v) ∷ m) (suc fuel) acc h f =
    let e = length-append (entry t v) (entries m) in
    let n = length-entry t v in
    rw (
      ctlv_loop-entry fuel t v (entries m) acc (ground (arith, e, n)),
      ctlv_loop-entries m fuel (assign t (entry t v) acc) (omega (arith, e)) (ground (arith, e, n)),
    )

find-read_entries :
    (k b : ℕ) (m acc : Map (List ℕ))
    → Sorted b m
    → find k (read_entries m acc)
      ≡ elim (find k m) [ none ↦ find k acc | some v ↦ some (entry k v) ]
unfolding find
find-read_entries k b [] acc s = refl
find-read_entries k b ((t, v) ∷ m) acc s = ground (
  arith,
  find-read_entries k (t + 1) m (assign t (entry t v) acc) s.1,
  find-assign t k (entry t v) acc,
  find-below k (t + 1) m,
)

get_value-entry :
    (k : ℕ) (v : List ℕ) (m : Map (List ℕ))
    → length v < 2 ^ 32
    → find k m ≡ some (entry k v)
    → get_value m k ≡ ok (some v)
unfolding get_value entry length_field get mid_from
get_value-entry k v m h e = elim (Bool-cases (ltb (length v) 0xff)) [
  | inl s ↦ rw (e, get_value, s) (ground arith)
  | inr s ↦
      rw (e, get_value, s)
        (ground (
          arith,
          length-append (to_bytes 4 (length v)) v,
          length-to_bytes 4 (length v),
          drop_exact 4 (to_bytes 4 (length v)) v,
        ))
]

get_value-missing : (k : ℕ) (m : Map (List ℕ)) → find k m ≡ none → get_value m k ≡ ok none
unfolding get_value
get_value-missing k m e = rw (e, get_value)

length-find :
    (k : ℕ) (v : List ℕ) (m : Map (List ℕ)) → find k m ≡ some v → length v ≤ length (entries m)
unfolding find entries
length-find k v [] e = absurd (ground arith)
length-find k v ((t, w) ∷ m) e =
    ground (arith, length-find k v m, length-append (entry t w) (entries m), length-entry t w)

-- When the entries of a map in the order of its tags take less than 2 ^ 32 bytes, getBuffer of
-- CTLVCreate returns bytes that CTLV reads, and getValue then gives the value of each tag that is
-- in the map and null for every other tag.
pub get_value-get_buffer :
    (m : Map (List ℕ))
    → Sorted 0 m
    → length (entries m) < 2 ^ 32
    → (bytes : List ℕ) × (read : Map (List ℕ)) × (get_buffer m ≡ ok bytes)
      × (ctlv bytes ≡ some (ok read))
      × ((tag : ℕ) → get_value read tag ≡ ok (find tag m))
unfolding ctlv
get_value-get_buffer m s h = (
  entries m,
  read_entries m [],
  get_buffer-entries m h,
  ctlv_loop-entries m (length (entries m)) [] h (omega arith),
  λ tag. elim (Option-cases (find tag m)) [
    | inl e ↦ rw e (
        get_value-missing tag (read_entries m [])
          (rw (find-read_entries tag 0 m [] s, e) (unfold find in refl)))
    | inr (v, e) ↦ rw e (
        get_value-entry tag v (read_entries m []) (omega (arith, length-find tag v m e))
          (rw (find-read_entries tag 0 m [] s, e) refl))
  ],
)

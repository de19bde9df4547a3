-- ===== src/Util/Tlv/Write.antt =====
-- What CTLVCreate::getBuffer writes.
use opencie_pkcs.Base.{
  ℕ, Bool-cases, inl, inr, ◌+◌, ◌%◌, ◌^◌, ◌≤◌, ◌<◌, ◌≡◌, List, [], ◌∷◌, ◌++◌, arith, ltb,
  if◌then◌else◌, length, length-append, ok, to_bytes, u32_mod, length-to_bytes,
}
use mathlib.Core.List.{append-nil, append_assoc}
use opencie_pkcs.Base.Map.{Map}
use opencie_pkcs.Util.Tlv.{buffer_size, push, push_length, write_entries, get_buffer}

-- The length field of a record.
unfoldable pub length_field : ℕ → List ℕ
length_field n = if ltb n 0xff then n ∷ [] else 0xff ∷ to_bytes 4 n

unfoldable pub entry : ℕ → List ℕ → List ℕ
unfolding length_field
entry t v = t ∷ (length_field (length v) ++ v)

-- The records of a map, one after the other.
unfoldable pub entries : Map (List ℕ) → List ℕ
entries [] = []
entries ((t, v) ∷ m) = entry t v ++ entries m

pub length-entry :
    (t : ℕ) (v : List ℕ) → length (entry t v) ≡ length v + (if ltb (length v) 0xff then 2 else 6)
unfolding entry
length-entry t v =
    ground (arith, length-append (length_field (length v)) v, length-to_bytes 4 (length v))

buffer_size-entries :
    (m : Map (List ℕ)) (size : ℕ)
    → size + length (entries m) < 2 ^ 32
    → buffer_size size m ≡ size + length (entries m)
unfolding buffer_size entries
buffer_size-entries [] size h = omega arith
buffer_size-entries ((t, v) ∷ m) size h =
    let e = length-append (entry t v) (entries m) in
    let n = length-entry t v in
    let step : (size + (length v + (if ltb (length v) 0xff then 2 else 6))) % u32_mod
        ≡ size + length (entry t v) =
      rw (← n) (omega (arith, e)) in
    rw step (omega (arith, e, buffer_size-entries m (size + length (entry t v)) (omega (arith, e))))

push_fits :
    (cap : ℕ) (w src : List ℕ) → length w + length src ≤ cap → push cap w src ≡ ok (w ++ src)
push_fits cap w src h = ground arith

push_length_fits :
    (cap n : ℕ) (w : List ℕ)
    → n < 2 ^ 32
    → length w + length (length_field n) ≤ cap
    → push_length cap w n ≡ ok (w ++ length_field n)
unfolding length_field
push_length_fits cap n w hn h = elim (Bool-cases (ltb n 0xff)) [
  | inl e ↦ rw e (ground arith)
  | inr e ↦
      let small : n % u32_mod ≡ n = omega arith in
      rw (e, small)
        (ground (
          arith,
          length-append w (0xff ∷ []),
          length-to_bytes 4 n,
          append_assoc w (0xff ∷ []) (to_bytes 4 n),
        ))
]

write_entry :
    (cap : ℕ) (w : List ℕ) (t : ℕ) (v : List ℕ) (m : Map (List ℕ))
    → cap < 2 ^ 32
    → length w + length (entry t v) ≤ cap
    → write_entries cap w ((t, v) ∷ m) ≡ write_entries cap (w ++ entry t v) m
unfolding write_entries entry
write_entry cap w t v m hc h =
    let e = length-append (length_field (length v)) v in
    let e1 = length-append w (t ∷ []) in
    let w1 : List ℕ = w ++ (t ∷ []) in
    let w2 : List ℕ = w1 ++ length_field (length v) in
    let e2 = length-append w1 (length_field (length v)) in
    let assoc : w2 ++ v ≡ w ++ (t ∷ (length_field (length v) ++ v)) = simp append_assoc in
    rw (
      push_fits cap w (t ∷ []) (omega (arith, e)),
      push_length_fits cap (length v) w1 (omega (arith, e)) (omega (arith, e, e1)),
      push_fits cap w2 v (omega (arith, e, e1, e2)),
      assoc,
    )

write_entries-fit :
    (m : Map (List ℕ)) (cap : ℕ) (w : List ℕ)
    → cap < 2 ^ 32
    → length w + length (entries m) ≤ cap
    → write_entries cap w m ≡ ok (w ++ entries m)
unfolding entries
write_entries-fit [] cap w hc h = unfold write_entries in rw append-nil
write_entries-fit ((t, v) ∷ m) cap w hc h =
    let e = length-append (entry t v) (entries m) in
    let e1 = length-append w (entry t v) in
    rw (
      write_entry cap w t v m hc (omega (arith, e)),
      write_entries-fit m cap (w ++ entry t v) hc (omega (arith, e, e1)),
      append_assoc w (entry t v) (entries m),
    )

-- CTLVCreate::getBuffer returns the records of the map in the order of their tags, when these take
-- less than 2^32 bytes.
pub get_buffer-entries :
    (m : Map (List ℕ)) → length (entries m) < 2 ^ 32 → get_buffer m ≡ ok (entries m)
unfolding get_buffer
get_buffer-entries m h =
    rw
      (
        buffer_size-entries m 0 (omega arith),
        write_entries-fit m (0 + length (entries m)) [] (omega arith) (omega arith),
      )
      (ground (arith, append-nil (entries m)))

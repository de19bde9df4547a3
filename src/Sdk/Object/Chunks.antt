-- ===== src/Sdk/Object/Chunks.antt =====
-- The loop of read_object_value, over a reader that holds the value and more.
use opencie_pkcs.Base.{
  ℕ, zero, suc, ◌-◌, ◌≤◌, ◌<◌, ◌≡◌, refl, sym, ap, false, List, [], ◌∷◌, ◌++◌, ltb, ◌==◌,
  if◌then◌else◌, length, take, drop, length-take, length-drop, take-append-drop, take_front,
  drop_front, arith,
}
use opencie_pkcs.Sdk.Object.{parsed, read_chunks}

chunk : ℕ → ℕ
chunk n = if ltb n 8192 then n else 8192

chunk_le : (n : ℕ) → chunk n ≤ n
unfolding chunk
chunk_le n = ground arith

chunk_some : (n : ℕ) → 0 < n → 0 < chunk n
unfolding chunk
chunk_some n h = ground arith

-- One round, whose chunk is the front of what is left.
read_chunks_more :
    (fuel : ℕ) (v rest : List ℕ)
    → 0 < length v
    → read_chunks fuel (length (drop (chunk (length v)) v)) (drop (chunk (length v)) v ++ rest)
      ≡ parsed (drop (chunk (length v)) v, rest)
    → read_chunks (suc fuel) (length v) (v ++ rest) ≡ parsed (v, rest)
unfolding read_chunks chunk
read_chunks_more fuel v rest h more =
    let k = chunk (length v) in
    let le : k ≤ length v = chunk_le (length v) in
    let e : (length v == 0) ≡ false = ground arith in
    let t : take k (v ++ rest) ≡ take k v = take_front k v rest le in
    let d : drop k (v ++ rest) ≡ drop k v ++ rest = drop_front k v rest le in
    let l : length (take k v) ≡ k = length-take k v le in
    let some_read : (length (take k v) == 0) ≡ false = ground (arith, chunk_some (length v) h, l) in
    let left : length v - k ≡ length (drop k v) = sym (length-drop k v) in
    rw e (
      rw t (
        rw d (
          rw some_read
            (rw l (rw left (rw more (ap (λ w. parsed (w, rest)) (take-append-drop k v))))))))

pub read_chunks-append :
    (fuel : ℕ) (v rest : List ℕ)
    → length v ≤ fuel
    → read_chunks fuel (length v) (v ++ rest) ≡ parsed (v, rest)
unfolding read_chunks
read_chunks-append zero [] rest h = refl
read_chunks-append zero (x ∷ v) rest h = absurd (omega (arith, h))
read_chunks-append (suc fuel) [] rest h = refl
read_chunks-append (suc fuel) (x ∷ v) rest h =
    let k = chunk (length (x ∷ v)) in
    read_chunks_more fuel (x ∷ v) rest (omega arith) (
      read_chunks-append fuel (drop k (x ∷ v)) rest
        (omega (arith, h, length-drop k (x ∷ v), chunk_some (length (x ∷ v)) (omega arith))))

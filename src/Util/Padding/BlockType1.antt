-- ===== src/Util/Padding/BlockType1.antt =====
-- PutPaddingBT1 and RemovePaddingBT1 of shared/src/util/util.cpp.
use opencie_pkcs.Base.{
  Bool-cases, inl, inr, ℕ, zero, suc, ◌+◌, ◌-◌, ◌≤◌, ◌≡◌, refl, ◌||◌, List, [], ◌∷◌, ◌++◌, arith,
  ltb, ◌==◌, if◌then◌else◌, length, replicate, Result, ok, throw, throw_if, logged_error, ◌>>=◌,
  ◌>>◌, length-append, length-replicate,
}
use opencie_pkcs.Util.Array.Writes.{put_part, fill_part}
use opencie_pkcs.Util.Array.{put, fill_mid}

unfoldable pub put_padding_bt1 : List ℕ → ℕ → Result (List ℕ)
put_padding_bt1 ba len = do
  throw_if (ltb (length ba) 3 || ltb (length ba - 3) len) logged_error
  b1 ← put ba 0 0
  b2 ← put b1 1 1
  b3 ← fill_mid b2 2 (length ba - len - 3) 0xff
  put b3 (length ba - len - 1) 0

-- The loop of RemovePaddingBT1 at index `i`, over the bytes from there on.
unfoldable pub remove_padding_loop : ℕ → List ℕ → Result ℕ
remove_padding_loop i [] = throw logged_error
remove_padding_loop i (b ∷ bs) =
    let rest = remove_padding_loop (i + 1) bs in
    if b == 0
    then (if ltb (i - 2) 8 then throw logged_error else ok (i + 1))
    else if b == 0xff
    then rest
    else throw logged_error

-- The two leading bytes, then the loop. The test on the size comes first.
unfoldable pub remove_padding_bt1 : List ℕ → Result ℕ
unfolding remove_padding_loop
remove_padding_bt1 (b0 ∷ b1 ∷ bs) =
    if ltb (length (b0 ∷ b1 ∷ bs)) 11
    then throw logged_error
    else if b0 == 0
    then (if b1 == 1 then remove_padding_loop 2 bs else throw logged_error)
    else throw logged_error
remove_padding_bt1 short = throw logged_error

-- The block that PKCS#1 describes: 00 01 FF .. FF 00 and the data.
abbrev pub block_type_1 : ℕ → List ℕ → List ℕ
block_type_1 n payload = 0 ∷ 1 ∷ (replicate n 0xff ++ 0 ∷ payload)

remove_padding_loop-run :
    (n i : ℕ) (payload : List ℕ)
    → 10 ≤ i + n
    → remove_padding_loop i (replicate n 0xff ++ 0 ∷ payload) ≡ ok (i + n + 1)
unfolding remove_padding_loop
remove_padding_loop-run zero i payload h = ground arith
remove_padding_loop-run (suc n) i payload h =
    ground (arith, remove_padding_loop-run n (i + 1) payload)

-- RemovePaddingBT1 accepts every block of type 1 that has eight or more padding bytes, and returns
-- the index at which its data begin.
pub remove_padding-block :
    (n : ℕ) (payload : List ℕ) → 8 ≤ n → remove_padding_bt1 (block_type_1 n payload) ≡ ok (n + 3)
unfolding remove_padding_bt1
remove_padding-block n payload h = ground (
  arith,
  remove_padding_loop-run n 2 payload,
  length-append (replicate n 0xff) (0 ∷ payload),
  length-replicate {A = ℕ} n 0xff,
)

remove_padding_loop-inv :
    (i k : ℕ) (bs : List ℕ)
    → 2 ≤ i
    → remove_padding_loop i bs ≡ ok k
    → (n : ℕ) × (payload : List ℕ) × (bs ≡ replicate n 0xff ++ 0 ∷ payload)
      × (k ≡ i + n + 1)
      × (10 ≤ i + n)
unfolding remove_padding_loop
remove_padding_loop-inv i k [] hi h = absurd (ground arith)
remove_padding_loop-inv i k (b ∷ bs) hi h = elim (Bool-cases (b == 0)) [
  | inl e ↦ (0, bs, ground arith, ground arith, ground arith)
  | inr e ↦
      let (n, payload, shape, at, wide) =
        remove_padding_loop-inv (i + 1) k bs (omega arith) (ground arith) in
      (suc n, payload, ground arith, omega arith, omega arith)
]

-- Where RemovePaddingBT1 returns k, the array is 00 01, then k - 3 bytes FF, at least 8 of them,
-- then 00 and the rest.
remove_padding-shape :
    (ba : List ℕ) (k : ℕ)
    → remove_padding_bt1 ba ≡ ok k
    → (n : ℕ) × (payload : List ℕ) × (ba ≡ block_type_1 n payload) × (k ≡ n + 3) × (8 ≤ n)
unfolding remove_padding_bt1
remove_padding-shape [] k h = absurd (ground arith)
remove_padding-shape (b0 ∷ []) k h = absurd (ground arith)
remove_padding-shape (b0 ∷ b1 ∷ bs) k h =
    let (n, payload, shape, at, wide) =
      remove_padding_loop-inv 2 k bs (omega arith) (ground arith) in
    (n, payload, ground arith, omega arith, omega arith)

-- PutPaddingBT1 turns any array that ends in the data, with three or more bytes before them, into
-- the block of type 1 of that length.
pub put_padding-block :
    (j k z : ℕ) (pad payload : List ℕ)
    → put_padding_bt1 (j ∷ k ∷ (pad ++ (z ∷ payload))) (length payload)
      ≡ ok (block_type_1 (length pad) payload)
unfolding put_padding_bt1
put_padding-block j k z pad payload = ground (
  arith,
  length-append pad (z ∷ payload),
  length-replicate {A = ℕ} (length pad) 0xff,
  put_part [] j (k ∷ (pad ++ (z ∷ payload))) 0,
  put_part (0 ∷ []) k (pad ++ (z ∷ payload)) 1,
  fill_part (0 ∷ 1 ∷ []) pad (z ∷ payload) (length pad) 0xff refl,
  put_part (0 ∷ 1 ∷ replicate (length pad) 0xff) z payload 0,
)

-- For an array that ends in a payload with at least 11 bytes before it, PutPaddingBT1 returns, and
-- RemovePaddingBT1 of what it leaves gives the place of the payload.
remove_padding-put_padding :
    (j k z : ℕ) (pad payload : List ℕ)
    → 8 ≤ length pad
    → (put_padding_bt1 (j ∷ k ∷ (pad ++ (z ∷ payload))) (length payload) >>= remove_padding_bt1)
      ≡ ok (length pad + 3)
remove_padding-put_padding j k z pad payload h =
    rw (put_padding-block j k z pad payload) (remove_padding-block (length pad) payload h)

-- ===== src/Util/Padding/Iso.antt =====
-- ISOPadLen, ISOPad, ISOPadLen16, ISOPad16 and RemoveISOPad of shared/src/util/util.cpp.
use opencie_pkcs.Base.{
  ℕ, zero, suc, ◌+◌, ◌-◌, ◌%◌, ◌≤◌, ◌<◌, ◌≡◌, refl, ◌∙◌, sym, List, [], ◌∷◌, ◌++◌, arith, ◌==◌,
  if◌then◌else◌, length, take, replicate, get_elem?, Option-cases, Bool-cases, inl, inr, take-suc,
  take-length, get_elem?-append, get_elem?-replicate, replicate-add, Result, ok, throw,
  logged_error, ◌>>=◌, length-append, length-replicate,
}
use mathlib.Core.List.{append-nil, append_assoc}
use opencie_pkcs.Util.Array.{put, copy, fill_mid, get}
use opencie_pkcs.Util.Array.Writes.{put_part, fill_part, copy_part}

-- `Len & 7` is `len % 8`, and `Len & 15` is `len % 16`.
unfoldable pub iso_pad_len : ℕ → ℕ
iso_pad_len len = if len % 8 == 0 then len + 8 else len - len % 8 + 8

unfoldable pub iso_pad_len16 : ℕ → ℕ
iso_pad_len16 len = len - len % 16 + 16

-- The overload that pads in place.
unfoldable pub iso_pad_at : List ℕ → ℕ → Result (List ℕ)
iso_pad_at buffer len = do b1 ← fill_mid buffer len (length buffer - len) 0; put b1 len 0x80

unfoldable pub iso_pad : List ℕ → Result (List ℕ)
unfolding iso_pad_at iso_pad_len
iso_pad msg = do
  resp ← copy (replicate (iso_pad_len (length msg)) 0) msg 0
  iso_pad_at resp (length msg)

unfoldable pub iso_pad16 : List ℕ → Result (List ℕ)
unfolding iso_pad_at iso_pad_len16
iso_pad16 msg = do
  resp ← copy (replicate (iso_pad_len16 (length msg)) 0) msg 0
  iso_pad_at resp (length msg)

-- `for (i = size; i-- > 0;)`
unfoldable pub remove_iso_loop : List ℕ → ℕ → Result ℕ
remove_iso_loop a zero = throw logged_error
remove_iso_loop a (suc i) =
    let rest = remove_iso_loop a i in
    do b ← get a i; if b == 0 then rest else if b == 0x80 then ok i else throw logged_error

unfoldable pub remove_iso_pad : List ℕ → Result ℕ
unfolding remove_iso_loop
remove_iso_pad a = remove_iso_loop a (length a)

iso_pad_at-shape :
    (msg : List ℕ) (z n : ℕ)
    → iso_pad_at (msg ++ (z ∷ replicate n 0)) (length msg) ≡ ok (msg ++ (0x80 ∷ replicate n 0))
unfolding iso_pad_at
iso_pad_at-shape msg z n = ground (
  arith,
  length-append msg (z ∷ replicate n 0),
  length-replicate {A = ℕ} n 0,
  append-nil {A = ℕ} (z ∷ replicate n 0),
  append-nil {A = ℕ} (replicate (suc n) 0),
  fill_part msg (z ∷ replicate n 0) [] (suc n) 0,
  put_part msg 0 (replicate n 0) 0x80,
)

fresh_copy :
    (msg : List ℕ) (n : ℕ) → copy (replicate (length msg + n) 0) msg 0 ≡ ok (msg ++ replicate n 0)
fresh_copy msg n = rw (← replicate-add {A = ℕ} (length msg) n 0) (
    copy_part [] (replicate (length msg) 0) (replicate n 0) msg
      (omega (arith, length-replicate {A = ℕ} (length msg) 0)))

-- ISOPadLen gives a multiple of 8 above the length and at most 8 above it.
pub iso_pad_len_bounds :
    (len : ℕ) → (len < iso_pad_len len) × (iso_pad_len len ≤ len + 8) × (iso_pad_len len % 8 ≡ 0)
unfolding iso_pad_len
iso_pad_len_bounds len = ground arith

pub iso_pad_len16_bounds :
    (len : ℕ)
    → (len < iso_pad_len16 len) × (iso_pad_len16 len ≤ len + 16) × (iso_pad_len16 len % 16 ≡ 0)
unfolding iso_pad_len16
iso_pad_len16_bounds len = omega arith

pub iso_pad-shape :
    (msg : List ℕ) (n : ℕ)
    → iso_pad_len (length msg) ≡ length msg + suc n
    → iso_pad msg ≡ ok (msg ++ (0x80 ∷ replicate n 0))
unfolding iso_pad
iso_pad-shape msg n h = rw (h, fresh_copy msg (suc n)) (iso_pad_at-shape msg 0 n)

iso_pad16-shape :
    (msg : List ℕ) (n : ℕ)
    → iso_pad_len16 (length msg) ≡ length msg + suc n
    → iso_pad16 msg ≡ ok (msg ++ (0x80 ∷ replicate n 0))
unfolding iso_pad16
iso_pad16-shape msg n h = rw (h, fresh_copy msg (suc n)) (iso_pad_at-shape msg 0 n)

remove_iso_loop-run :
    (msg : List ℕ) (n j p : ℕ)
    → j ≤ n
    → p ≡ length msg + j
    → remove_iso_loop (msg ++ (0x80 ∷ replicate n 0)) (suc p) ≡ ok (length msg)
unfolding remove_iso_loop get
remove_iso_loop-run msg n zero p h e = ground (arith, get_elem?-append msg (0x80 ∷ replicate n 0) 0)
remove_iso_loop-run msg n (suc j) zero h e = absurd (omega arith)
remove_iso_loop-run msg n (suc j) (suc p) h e = ground (
  arith,
  get_elem?-append msg (0x80 ∷ replicate n 0) (suc j),
  get_elem?-replicate {A = ℕ} n 0 j,
  remove_iso_loop-run msg n j p,
)

pub remove_iso_pad-padded :
    (msg : List ℕ) (n : ℕ) → remove_iso_pad (msg ++ (0x80 ∷ replicate n 0)) ≡ ok (length msg)
unfolding remove_iso_pad
remove_iso_pad-padded msg n =
    let e : length (msg ++ (0x80 ∷ replicate n 0)) ≡ suc (length msg + n) =
      omega (arith, length-append msg (0x80 ∷ replicate n 0), length-replicate {A = ℕ} n 0) in
    rw e (remove_iso_loop-run msg n n (length msg + n) (omega arith) refl)

remove_iso_loop-inv :
    (a : List ℕ) (i k : ℕ)
    → remove_iso_loop a i ≡ ok k
    → (k < i) × (take i a ≡ take k a ++ (0x80 ∷ replicate (i - suc k) 0))
unfolding remove_iso_loop get
remove_iso_loop-inv a zero k h = absurd (ground arith)
remove_iso_loop-inv a (suc i) k h = elim (Option-cases (get_elem? a i)) [
  | inl e ↦ absurd (ground arith)
  | inr (b, e) ↦ elim (Bool-cases (b == 0)) [
    | inl z ↦
        let (lt, shape) = remove_iso_loop-inv a i k (ground arith) in
        let more : suc i - suc k ≡ (i - suc k) + 1 = omega arith in
        (
          omega arith,
          rw (take-suc a i b e, shape, more, ← replicate-add {A = ℕ} (i - suc k) 1 0)
              (ground (arith, append_assoc (take k a) (0x80 ∷ replicate (i - suc k) 0) (b ∷ []))),
        )
    | inr z ↦
        let same : k ≡ i = ground arith in (omega arith, rw (same, take-suc a i b e) (ground arith))
  ]
]

-- Where RemoveISOPad returns k, the bytes from k on are 80 and zeros up to the end.
remove_iso_pad-inv :
    (a : List ℕ) (k : ℕ)
    → remove_iso_pad a ≡ ok k
    → (n : ℕ) × (a ≡ take k a ++ (0x80 ∷ replicate n 0))
unfolding remove_iso_pad
remove_iso_pad-inv a k h =
    let (lt, shape) = remove_iso_loop-inv a (length a) k h in
    (length a - suc k, sym (take-length a) ∙ shape)

-- For every message ISOPad and ISOPad16 return, and RemoveISOPad of what they return gives the
-- length of the message.
remove_iso_pad-iso_pad :
    (msg : List ℕ)
    → ((iso_pad msg >>= λ padded. remove_iso_pad padded) ≡ ok (length msg))
      × ((iso_pad16 msg >>= λ padded. remove_iso_pad padded) ≡ ok (length msg))
remove_iso_pad-iso_pad msg =
    let b = iso_pad_len_bounds (length msg) in
    let b16 = iso_pad_len16_bounds (length msg) in
    let n : ℕ = iso_pad_len (length msg) - suc (length msg) in
    let n16 : ℕ = iso_pad_len16 (length msg) - suc (length msg) in
    (
      rw (iso_pad-shape msg n (omega (arith, b.0))) (remove_iso_pad-padded msg n),
      rw (iso_pad16-shape msg n16 (omega (arith, b16.0))) (remove_iso_pad-padded msg n16),
    )

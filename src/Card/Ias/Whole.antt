-- ===== src/Card/Ias/Whole.antt =====
-- The read loop gets a whole file from a card that serves it.
use opencie_pkcs.Base.{
  ℕ, zero, suc, ◌+◌, ◌*◌, ◌/◌, ◌%◌, ◌^◌, ◌<◌, ◌≤◌, ◌≡◌, refl, sym, ap, ◌∙◌, true, false, List, [],
  ◌∷◌, ◌++◌, leb, ◌==◌, if◌then◌else◌, length, take, drop, arith, length-drop, length-take,
  take_past, Bool-cases, inl, inr, take-append-drop,
}
use opencie_pkcs.Base.Outcome.{Outcome, done, thrown, running}
use opencie_pkcs.Card.Io.{Ias, Io, and_then}
use opencie_pkcs.Card.Token.{Answer}
use opencie_pkcs.Card.Ias.Reading.{Send, read_binary, read_chunk, after_chunk, read_loop}
use opencie_pkcs.Card.Ias.Serving.{PastEnd, shorter, warning, wrong_length, served, past_end}

take-add {ℓ} :
    {A : Type ℓ} (m n : ℕ) (xs : List A) → take m xs ++ take n (drop m xs) ≡ take (m + n) xs
take-add zero n xs = ap (λ (k : ℕ). take k xs) (omega arith)
take-add {A = A} (suc m) zero [] = let e : suc m + 0 ≡ suc m = omega arith in rw e refl
take-add (suc m) (suc n) [] = let e : suc m + suc n ≡ suc (m + suc n) = omega arith in rw e refl
take-add (suc m) n (x ∷ xs) =
    let e : suc m + n ≡ suc (m + n) = omega arith in rw e (ap (◌∷◌ x) (take-add m n xs))

pub and_then-done :
    {C A B : Type 0} (r : Outcome A × Ias C) (f : A → Io C B) (a : A)
    → r.0 ≡ done a
    → and_then r f ≡ f a (r.1)
and_then-done (done b, s) f a h = ground arith
and_then-done (thrown e, s) f a h = absurd (ground arith)
and_then-done (running, s) f a h = absurd (ground arith)

-- What is read of the file at `at` with an expected length of 224, in place of a wrong length.
abbrev end_status : PastEnd → ℕ
end_status shorter = 0x9000
end_status warning = 0x6282
end_status wrong_length = 0x9000

unfoldable chunk : PastEnd → List ℕ → ℕ → Answer
chunk style file at =
    if leb (length file) at
    then ([], 0x6b00)
    else if leb (at + 224) (length file)
    then (take 224 (drop at file), 0x9000)
    else (drop at file, end_status style)

-- In a state with `P` the card gives such answers, and `P` stays.
abbrev pub Serves : {C : Type 0} → Send C → PastEnd → List ℕ → (Ias C → Type 0) → Type 0
Serves {C} send style file P =
    (s : Ias C) (at le : ℕ)
    → P s
    → at < 2 ^ 15
    → 0 < le
    → le < 2 ^ 8
    → ((read_binary send at le s).0 ≡ done (served style file at le))
      × P ((read_binary send at le s).1)

module _ {C : Type 0} (send : Send C) (style : PastEnd) (file : List ℕ) (P : Ias C → Type 0)
    (serves : Serves send style file P) where
  -- One answer is had, and it is not 6Cxx.
  one_answer :
      (s : Ias C) (at : ℕ) (a : Answer)
      → P s
      → at < 2 ^ 15
      → served style file at 224 ≡ a
      → (a.1 / 256 == 0x6c) ≡ false
      → ((read_chunk send at 224 s).0 ≡ done a) × P ((read_chunk send at 224 s).1)
  unfolding read_chunk
  one_answer s at a p small e other =
      let got = serves s at 224 p small (omega arith) (omega arith) in
      rw (and_then-done (read_binary send at 224 s) _ (served style file at 224) (got.0), e, other)
        (refl, got.1)

  -- The first answer is 6Cxx, and the second is had.
  two_answers :
      (s : Ias C) (at n : ℕ) (a : Answer)
      → P s
      → at < 2 ^ 15
      → 0 < n
      → n < 2 ^ 8
      → served style file at 224 ≡ ([], 0x6c00 + n)
      → served style file at n ≡ a
      → ((read_chunk send at 224 s).0 ≡ done a) × P ((read_chunk send at 224 s).1)
  unfolding read_chunk
  two_answers s at n a p small some_left few e f =
      let got = serves s at 224 p small (omega arith) (omega arith) in
      let more = serves ((read_binary send at 224 s).1) at n (got.1) small some_left few in
      let is_6c : ((0x6c00 + n) / 256 == 0x6c) ≡ true = ground arith in
      let le : (0x6c00 + n) % 256 ≡ n = omega (arith, few) in
      rw
        (
          and_then-done (read_binary send at 224 s) _ (served style file at 224) (got.0),
          e,
          is_6c,
          le,
        )
        (more.0 ∙ ap (λ r. done r) f, more.1)

  past_end_lem :
      (s : Ias C) (at : ℕ) (style1 : PastEnd)
      → style ≡ style1
      → P s
      → at < 2 ^ 15
      → leb (length file) at ≡ false
      → leb (at + 224) (length file) ≡ false
      → ((read_chunk send at 224 s).0 ≡ done (drop at file, end_status style1))
        × P ((read_chunk send at 224 s).1)
  unfolding served past_end
  past_end_lem s at shorter e p small q r = one_answer s at _ p small (rw (e, q, r) refl) refl
  past_end_lem s at warning e p small q r = one_answer s at _ p small (rw (e, q, r) refl) refl
  past_end_lem s at wrong_length e p small q r =
      let n = length (drop at file) in
      let left : at + n ≡ length file = ground (arith, length-drop at file) in
      let whole : leb (at + n) (length file) ≡ true = ground (arith, left) in
      two_answers s at n _ p small (ground (arith, left)) (ground (arith, left)) (rw (e, q, r) refl)
        (rw (q, whole, take_past n (drop at file) (omega arith)) refl)

  read_chunk_lem :
      (s : Ias C) (at : ℕ)
      → P s
      → at < 2 ^ 15
      → ((read_chunk send at 224 s).0 ≡ done (chunk style file at))
        × P ((read_chunk send at 224 s).1)
  unfolding chunk served
  read_chunk_lem s at p small = elim (Bool-cases (leb (length file) at)) [
    | inl q ↦ rw q (one_answer s at _ p small (rw q refl) refl)
    | inr q ↦ elim (Bool-cases (leb (at + 224) (length file))) [
      | inl r ↦ rw (q, r) (one_answer s at _ p small (rw (q, r) refl) refl)
      | inr r ↦ rw (q, r) (past_end_lem s at style refl p small q r)
    ]
  ]

  -- The file is there, or the loop goes on with all of it but the end.
  abbrev Ends : Outcome (List ℕ) × Ias C → Type 0
  Ends r = (r.0 ≡ done file) × P (r.1)

  abbrev GoesOn : ℕ → Type 0
  GoesOn fuel =
      (at : ℕ) (s : Ias C)
      → P s
      → at ≤ length file
      → length file + 224 ≤ at + 224 * fuel
      → Ends (read_loop send fuel (take at file) at s)

  longer_lem :
      (fuel at : ℕ) (s : Ias C) (longer : List ℕ)
      → GoesOn fuel
      → P s
      → length file < 2 ^ 15
      → at ≤ length file
      → length file + 224 ≤ at + 224 * fuel
      → longer ≡ take at file
      → Ends (read_loop send fuel longer (length longer % 65536) s)
  longer_lem fuel at s longer go p small inside enough e =
      let n : length (take at file) % 65536 ≡ at =
        omega (arith, small, inside, length-take at file inside) in
      rw (e, n) (go at s p inside enough)

  last_lem :
      (fuel at : ℕ) (s : Ias C) (style1 : PastEnd)
      → GoesOn fuel
      → P s
      → length file < 2 ^ 15
      → 224 ≤ 224 * fuel
      → Ends (
          after_chunk send
            (λ longer. read_loop send fuel longer (length longer % 65536))
            (take at file)
            (drop at file, end_status style1)
            s)
  unfolding after_chunk
  last_lem fuel at s shorter go p small enough =
      longer_lem fuel (length file) s (take at file ++ drop at file) go p small (omega arith)
        (omega (arith, enough))
        (take-append-drop at file ∙ sym (take_past (length file) file (omega arith)))
  last_lem fuel at s wrong_length go p small enough =
      longer_lem fuel (length file) s (take at file ++ drop at file) go p small (omega arith)
        (omega (arith, enough))
        (take-append-drop at file ∙ sym (take_past (length file) file (omega arith)))
  last_lem fuel at s warning go p small enough = (ap (λ x. done x) (take-append-drop at file), p)

  -- From `at` on the loop adds what is left of the file.
  read_loop_lem : (fuel : ℕ) → length file < 2 ^ 15 → GoesOn fuel
  unfolding read_loop chunk after_chunk
  read_loop_lem zero small at s p inside enough = absurd (omega (arith, inside, enough))
  read_loop_lem (suc fuel) small at s p inside enough =
      let got = read_chunk_lem s at p (omega (arith, small, inside)) in
      let rest =
        after_chunk send (λ longer. read_loop send fuel longer (length longer % 65536))
          (take at file) in
      let next = and_then-done (read_chunk send at 224 s) rest (chunk style file at) (got.0) in
      let s1 = (read_chunk send at 224 s).1 in
      elim (Bool-cases (leb (length file) at)) [
        | inl q ↦ rw (next, q) (ap (λ x. done x) (take_past at file (ground (arith, q))), got.1)
        | inr q ↦ elim (Bool-cases (leb (at + 224) (length file))) [
          | inl r ↦
              rw (next, q, r)
                (longer_lem fuel (at + 224) s1 (take at file ++ take 224 (drop at file))
                  (read_loop_lem fuel small) (got.1) small (ground (arith, r))
                  (omega (arith, enough)) (take-add at 224 file))
          | inr r ↦
              rw (next, q, r)
                (last_lem fuel at s1 style (read_loop_lem fuel small) (got.1) small
                  (ground (arith, q, enough)))
        ]
      ]

  -- From the start the loop gets the whole file.
  pub read_loop_whole :
      (fuel : ℕ) (s : Ias C)
      → P s
      → length file < 2 ^ 15
      → length file + 224 ≤ 224 * fuel
      → ((read_loop send fuel [] 0 s).0 ≡ done file) × P ((read_loop send fuel [] 0 s).1)
  read_loop_whole fuel s p small enough =
      read_loop_lem fuel small 0 s p (omega arith) (omega (arith, enough))

-- ===== src/Util/Asn1/Total.antt =====
-- Parse ends on every input.
use opencie_pkcs.Base.{
  ℕ, zero, suc, ◌%◌, ◌<◌, ◌≤◌, ◌≢◌, List, [], ◌∷◌, arith, ltb, ◌==◌, length, take, drop,
  length-drop, Result, ok, throw, ◌>>=◌ as bind, Bool-cases, inl, inr,
}
use opencie_pkcs.Base.Outcome.{Outcome, done, thrown, running, outcome, ◌>>=◌}
use opencie_pkcs.Util.Asn1.Tree.{AsnTags, is_constructed}
use opencie_pkcs.Util.Asn1.Header.{
  Header, is_end, too_long, read_header, read_tag, long_tag, read_length,
}
use opencie_pkcs.Util.Asn1.Parse.{Again, parse_node, parse_round, parse_loop, parse, max_depth}

length-take_le {ℓ} : {A : Type ℓ} (n : ℕ) (xs : List A) → length (take n xs) ≤ length xs
length-take_le zero xs = omega arith
length-take_le (suc n) [] = omega arith
length-take_le (suc n) (x ∷ xs) = omega (arith, length-take_le n xs)

-- What is left after a tag that could be read.
abbrev Leaves : ℕ → Result (List ℕ × List ℕ) → Type 0
Leaves n (ok r) = length (r.1) < n
Leaves n (throw e) = Unit {0}

Leaves-more :
    (c n : ℕ) (r : Result (List ℕ × List ℕ))
    → Leaves n r
    → Leaves (suc n) (bind r (λ p. ok (c ∷ p.0, p.1)))
Leaves-more c n (ok r) h = omega (arith, h)
Leaves-more c n (throw e) h = tt

long_tag-Leaves : (cur : List ℕ) → Leaves (length cur) (long_tag cur)
unfolding long_tag
long_tag-Leaves [] = tt
long_tag-Leaves (c ∷ cs) = elim (Bool-cases (ltb c 0x80)) [
  | inl q ↦ rw q (omega arith)
  | inr q ↦ rw q (Leaves-more c (length cs) (long_tag cs) (long_tag-Leaves cs))
]

read_tag-Leaves : (cur : List ℕ) → Leaves (length cur) (read_tag cur)
unfolding read_tag
read_tag-Leaves [] = tt
read_tag-Leaves (b ∷ bs) = elim (Bool-cases (b % 32 == 31)) [
  | inl q ↦ rw q (Leaves-more b (length bs) (long_tag bs) (long_tag-Leaves bs))
  | inr q ↦ rw q (omega arith)
]

>>=-ne-running {ℓ κ} :
    {A : Type ℓ} {B : Type κ} (m : Outcome A) (f : A → Outcome B)
    → m ≢ running
    → ((a : A) → f a ≢ running)
    → (m >>= f) ≢ running
>>=-ne-running (done a) f h g = g a
>>=-ne-running (thrown e) f h g = λ p. absurd (ground arith)
>>=-ne-running running f h g = λ p. h (λ i. running)

-- `again` ends on every input shorter than `n`.
abbrev EndsBelow : ℕ → Again → Type 0
EndsBelow n again = (depth at : ℕ) (cur : List ℕ) → length cur < n → again depth at cur ≢ running

done-ne-running {ℓ} : {A : Type ℓ} (a : A) → done a ≢ running
done-ne-running a p = absurd (ground arith)

parse_node-ne-running :
    (n : ℕ) (again : Again) (depth at : ℕ) (h : Header)
    → EndsBelow n again
    → length h.after < n
    → parse_node again depth at h ≢ running
unfolding parse_node
parse_node-ne-running n again depth at h ends short =
    let after = drop h.llen h.after in
    let behind : length (drop h.len after) < n =
      omega (arith, short, length-drop h.len after, length-drop h.llen h.after) in
    let inside : length (take h.len after) < n =
      omega (arith, short, length-take_le h.len after, length-drop h.llen h.after) in
    elim (Bool-cases (is_end h)) [
      | inl q ↦ rw q (done-ne-running _)
      | inr q ↦ elim (Bool-cases (too_long h)) [
        | inl r ↦ rw (q, r) (λ p. absurd (ground arith))
        | inr r ↦ elim (Bool-cases (is_constructed h.tag)) [
          | inl c ↦
              rw (q, r, c)
                (>>=-ne-running _ _ (ends _ _ _ inside)
                  (λ tags. >>=-ne-running _ _ (ends _ _ _ behind) (λ ts. done-ne-running _)))
          | inr c ↦ rw (q, r, c) (>>=-ne-running _ _ (ends _ _ _ behind) (λ ts. done-ne-running _))
        ]
      ]
    ]

header_ends :
    (n : ℕ) (t : List ℕ × List ℕ) (l : Result (ℕ × ℕ)) (f : Header → Outcome AsnTags)
    → length (t.1) < n
    → ((h : Header) → length h.after < n → f h ≢ running)
    → (outcome (bind l (λ l. ok (record { tag = t.0; after = t.1; llen = l.0; len = l.1 }))) >>= f)
      ≢ running
header_ends n t (ok l) f short ends = ends _ short
header_ends n t (throw e) f short ends = λ p. absurd (ground arith)

tag_ends :
    (n : ℕ) (t : Result (List ℕ × List ℕ)) (f : Header → Outcome AsnTags)
    → Leaves n t
    → ((h : Header) → length h.after < n → f h ≢ running)
    → (outcome (
          bind t (λ t.
            bind
              (read_length (t.1))
              (λ l. ok (record { tag = t.0; after = t.1; llen = l.0; len = l.1 }))))
        >>= f)
      ≢ running
tag_ends n (ok t) f short ends = header_ends n t (read_length (t.1)) f short ends
tag_ends n (throw e) f short ends = λ p. absurd (ground arith)

parse_round-ne-running :
    (again : Again) (depth at : ℕ) (cur : List ℕ)
    → EndsBelow (length cur) again
    → parse_round again depth at cur ≢ running
unfolding parse_round read_header
parse_round-ne-running again depth at cur ends = elim (Bool-cases (ltb max_depth depth)) [
  | inl q ↦ rw q (λ p. absurd (ground arith))
  | inr q ↦ elim (Bool-cases (length cur == 0)) [
    | inl r ↦ rw (q, r) (done-ne-running _)
    | inr r ↦
        rw (q, r)
          (tag_ends (length cur) (read_tag cur) _ (read_tag-Leaves cur)
            (λ h short. parse_node-ne-running (length cur) again depth at h ends short))
  ]
]

parse_loop-ne-running : (fuel : ℕ) → EndsBelow fuel (parse_loop fuel)
unfolding parse_loop
parse_loop-ne-running zero depth at cur h = absurd (omega (arith, h))
parse_loop-ne-running (suc fuel) depth at cur h =
    parse_round-ne-running (parse_loop fuel) depth at cur
      (λ d a xs short. parse_loop-ne-running fuel d a xs (omega (arith, h, short)))

-- Parse ends on every input, with a tree or with an exception: one more round than there are bytes
-- is enough.
pub parse-ne-running : (buf : List ℕ) → parse buf ≢ running
unfolding parse
parse-ne-running buf = parse_loop-ne-running (suc (length buf)) 0 0 buf (omega arith)

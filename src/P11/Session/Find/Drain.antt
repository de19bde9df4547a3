-- ===== src/P11/Session/Find/Drain.antt =====
-- Page after page of FindObjects, until there is nothing left.
use opencie_pkcs.Base.{
  ℕ, zero, suc, ◌+◌, ◌*◌, ◌≤◌, ◌≡◌, refl, sym, ap, ◌∙◌, true, List, [], ◌∷◌, ◌++◌, some,
  if◌then◌else◌, ok, length, ltb, arith, length-append, Result, throw,
}
use mathlib.Core.List.{append-nil, append_assoc}
use opencie_pkcs.Base.Map.{find}
use opencie_pkcs.P11.State.{Session, World}
use opencie_pkcs.P11.State.Monad.{M, ◌>>=◌, return, after}
use opencie_pkcs.P11.Session.Find.{find_objects}
use opencie_pkcs.P11.Session.Find.Pages.{backwards, find_objects_lem}

backwards-append : (xs ys : List ℕ) → backwards (xs ++ ys) ≡ backwards ys ++ backwards xs
backwards-append [] ys = sym (append-nil (backwards ys))
backwards-append (x ∷ xs) ys =
    ap (λ zs. zs ++ (x ∷ [])) (backwards-append xs ys)
    ∙ append_assoc (backwards ys) (backwards xs) (x ∷ [])

backwards-backwards : (xs : List ℕ) → backwards (backwards xs) ≡ xs
backwards-backwards [] = refl
backwards-backwards (x ∷ xs) =
    backwards-append (backwards xs) (x ∷ []) ∙ ap (λ ys. x ∷ ys) (backwards-backwards xs)

length-backwards : (xs : List ℕ) → length (backwards xs) ≡ length xs
length-backwards [] = refl
length-backwards (x ∷ xs) =
    omega (arith, length-append (backwards xs) (x ∷ []), length-backwards xs)

-- So many calls of FindObjects, and the handles that they give.
unfoldable pub drain : {E : Type 0} → ℕ → ℕ → ℕ → M E (List ℕ)
drain h max zero = return []
drain h max (suc n) = find_objects h max >>= λ page. drain h max n >>= λ more. return (page ++ more)

after-ok :
    {E A B : Type 0} (r : Result A × World E) (f : A → M E B) (a : A)
    → r.0 ≡ ok a
    → after r f ≡ f a (r.1)
after-ok (ok b, w) f a e = ground arith
after-ok (throw x, w) f a e = absurd (ground arith)

no_results : (xs : List ℕ) → length xs ≤ 0 → xs ≡ []
no_results [] e = refl
no_results (x ∷ xs) e = absurd (omega (arith, e))

fewer_left :
    (total left page max more : ℕ)
    → left + page ≡ total
    → page ≡ (if ltb max total then max else total)
    → total ≤ max + more
    → left ≤ more
fewer_left total left page max more e size enough = ground arith

next_total : (n max : ℕ) → suc n * max ≡ max + n * max
next_total n max = omega arith

-- On a session with an active search, so many calls of FindObjects with a page size that they
-- cover the results give all handles of the search in the opposite order and leave no result, with
-- nothing else of the session changed.
pub drain_lem :
    {E : Type 0} (h max n : ℕ) (v : Session) (w : World E)
    → find h w.sessions ≡ some v
    → v.find_init ≡ true
    → length v.find_result ≤ n * max
    → ((drain h max n w).0 ≡ ok (backwards v.find_result))
      × (find h (drain h max n w).1.sessions ≡ some (record v { find_result = [] }))
unfolding drain
drain_lem h max zero v w e i enough =
    let none = no_results v.find_result (omega (arith, enough)) in
    let same : (record v { find_result = [] }) ≡ v =
      ap (λ xs. record v { find_result = xs }) (sym none) in
    (ap (λ xs. ok (backwards xs)) (sym none), e ∙ ap (λ u. some u) (sym same))
drain_lem h max (suc n) v w e i enough =
    let (page, (rest, (got, (kept, (parts, size))))) = find_objects_lem h max v w e i in
    let w1 = (find_objects h max w).1 in
    let fewer : length rest ≤ n * max =
      fewer_left (length v.find_result) (length rest) (length page) max (n * max)
        (omega (arith, ap length parts, length-append rest (backwards page), length-backwards page))
        size (omega (arith, enough, next_total n max)) in
    let more = drain_lem h max n (record v { find_result = rest }) w1 kept i fewer in
    let whole : page ++ backwards rest ≡ backwards v.find_result =
      ap (λ xs. xs ++ backwards rest) (sym (backwards-backwards page))
      ∙ sym (backwards-append rest (backwards page))
      ∙ ap (λ xs. backwards xs) parts in
    rw
      (
        after-ok (find_objects h max w) (λ page. drain h max n >>= λ more. return (page ++ more))
            page got,
        after-ok (drain h max n w1) (λ more. return (page ++ more)) (backwards rest) (more.0),
        whole,
      )
      (refl, more.1)

-- ===== src/P11/Session/Find/Pages.antt =====
-- The pages of FindObjects, against the results of the search.
use opencie_pkcs.Base.{
  ℕ, zero, suc, ◌≡◌, refl, sym, ap, ◌∙◌, true, List, [], ◌∷◌, ◌++◌, none, some, if◌then◌else◌, ok,
  length, ltb, arith, Option-cases, inl, inr, length-append,
}
use mathlib.Core.List.{append-nil, append_assoc}
use opencie_pkcs.Base.Map.{find, find-assign}
use opencie_pkcs.P11.State.{Session, World}
use opencie_pkcs.P11.Session.Find.{split_last, take_results, find_objects}

abbrev pub backwards : List ℕ → List ℕ
backwards [] = []
backwards (x ∷ xs) = backwards xs ++ (x ∷ [])

split_last-none : (xs : List ℕ) → split_last xs ≡ none → xs ≡ []
unfolding split_last
split_last-none [] e = refl
split_last-none (y ∷ ys) e = absurd (ground arith)

split_last-some :
    (xs front : List ℕ) (x : ℕ) → split_last xs ≡ some (front, x) → xs ≡ front ++ (x ∷ [])
unfolding split_last
split_last-some [] front x e = absurd cc
split_last-some (y ∷ ys) front x e = elim (Option-cases (split_last ys)) [
  | inl q ↦ ground (arith, split_last-none ys q, q)
  | inr q ↦ ground (arith, split_last-some ys q.0.0 q.0.1 q.1, q.1)
]

take_results-none :
    (n : ℕ) (results : List ℕ)
    → split_last results ≡ none
    → take_results (suc n) results ≡ ([], results)
unfolding take_results
take_results-none n results e = ground (arith, e)

take_results-some :
    (n : ℕ) (results front : List ℕ) (last : ℕ)
    → split_last results ≡ some (front, last)
    → take_results (suc n) results ≡ (last ∷ (take_results n front).0, (take_results n front).1)
unfolding take_results
take_results-some n results front last e = ground (arith, e)

-- What is left and what was taken make up the results; a page is short only at the end.
pub take_results_lem :
    (n : ℕ) (results : List ℕ)
    → ((take_results n results).1 ++ backwards (take_results n results).0 ≡ results)
      × (length (take_results n results).0 ≡ (if ltb n (length results) then n else length results))
unfolding take_results
take_results_lem zero results = (append-nil results, ground arith)
take_results_lem (suc n) results = elim (Option-cases (split_last results)) [
  | inl e ↦ rw (take_results-none n results e, split_last-none results e) (refl, ground arith)
  | inr e ↦
      rw (take_results-some n results e.0.0 e.0.1 e.1, split_last-some results e.0.0 e.0.1 e.1)
        (
          sym (
                append_assoc (take_results n e.0.0).1 (backwards (take_results n e.0.0).0)
                  (e.0.1 ∷ []))
              ∙ ap (λ xs. xs ++ (e.0.1 ∷ [])) (take_results_lem n e.0.0).0,
          ground (arith, (take_results_lem n e.0.0).1, length-append e.0.0 (e.0.1 ∷ [])),
        )
]

-- On a session with an active search FindObjects returns. The results that it leaves, followed by
-- the handles of the page in the opposite order, are the results that there were; the page is as
-- long as asked for, or as there were results when they were no more; and nothing else of the
-- session changes.
pub find_objects_lem :
    {E : Type 0} (h max : ℕ) (v : Session) (w : World E)
    → find h w.sessions ≡ some v
    → v.find_init ≡ true
    → (page : List ℕ) × ((rest : List ℕ) × (((find_objects h max w).0 ≡ ok page)
          × ((find h (find_objects h max w).1.sessions ≡ some (record v { find_result = rest }))
              × ((rest ++ backwards page ≡ v.find_result)
                  × (length page
                      ≡ (if ltb max (length v.find_result) then max else length v.find_result))))))
unfolding find_objects
find_objects_lem h max v w e i = (
  (take_results max v.find_result).0,
  (
    (take_results max v.find_result).1,
    (
      ground (arith, e, i),
      (
        ground (
          arith,
          e,
          i,
          find-assign h h (record v { find_result = (take_results max v.find_result).1 })
              w.sessions,
        ),
        take_results_lem max v.find_result,
      ),
    ),
  ),
)

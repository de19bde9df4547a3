-- ===== src/P11/Slot/Handles.antt =====
-- The two maps between objects and handles.
use opencie_pkcs.Base.{
  ℕ, Bool, false, ◌⊎◌, ◌+◌, ◌%◌, ◌≤◌, ◌<◌, ◌≡◌, refl, Option, none, some, arith, ◌==◌,
  if◌then◌else◌, u64_mod, Option-cases, inl, inr,
}
use opencie_pkcs.Base.Map.{find, find-assign, find-erase}
use opencie_pkcs.P11.State.{Slot}
use opencie_pkcs.P11.Slot.{handle_of, forget_handle, object_of}

-- The object is there, and is `o`.
abbrev pub opt_eq : Option ℕ → ℕ → Bool
opt_eq none o = false
opt_eq (some o') o = o' == o

-- Each map is the other's inverse, and no handle is above the counter.
pub record HandlesValid (sl : Slot) : Type 0 where
  pub there : (o h : ℕ) → find o sl.obj_p11_map ≡ some h → find h sl.handle_p11_map ≡ some o
  pub back : (h o : ℕ) → find h sl.handle_p11_map ≡ some o → find o sl.obj_p11_map ≡ some h
  pub bounded : (h o : ℕ) → find h sl.handle_p11_map ≡ some o → (0 < h) × (h ≤ sl.p11_obj_cnt)

-- GetIDFromObject, past its check of the user, keeps the two handle maps of a slot inverse and the
-- handles between 1 and the counter, provided the counter does not wrap around.
handle_of-HandlesValid :
    (sl : Slot) (o : ℕ)
    → HandlesValid sl
    → sl.p11_obj_cnt + 1 < u64_mod
    → HandlesValid (handle_of sl o).1
unfolding handle_of
handle_of-HandlesValid sl o v h = elim (Option-cases (find o sl.obj_p11_map)) [
  | inr (k, e) ↦ rw (e, handle_of) v
  | inl e ↦
      let k = sl.p11_obj_cnt + 1 in
      let same : (sl.p11_obj_cnt + 1) % u64_mod ≡ k = omega arith in
      rw (e, handle_of, same)
        (record {
          there = λ o' h' p. ground (
            arith,
            find-assign o o' k sl.obj_p11_map,
            find-assign k h' o sl.handle_p11_map,
            v.there o' h',
            v.bounded h' o',
          );
          back = λ h' o' p. ground (
            arith,
            find-assign o o' k sl.obj_p11_map,
            find-assign k h' o sl.handle_p11_map,
            v.back h' o',
          );
          bounded =
              λ h' o' p. ground (arith, find-assign k h' o sl.handle_p11_map, v.bounded h' o');
        })
]

-- DelObjectHandle keeps the two handle maps of a slot inverse and the handles between 1 and the
-- counter.
pub forget_handle-HandlesValid :
    (sl : Slot) (o : ℕ) → HandlesValid sl → HandlesValid (forget_handle sl o)
unfolding forget_handle
forget_handle-HandlesValid sl o v = elim (Option-cases (find o sl.obj_p11_map)) [
  | inl e ↦ rw (e, forget_handle) v
  | inr (k, e) ↦
      rw (e, forget_handle)
        (record {
          there = λ o' h' p. ground (
            arith,
            find-erase o o' sl.obj_p11_map,
            find-erase k h' sl.handle_p11_map,
            v.there o' h',
            v.there o k,
          );
          back = λ h' o' p. ground (
            arith,
            find-erase o o' sl.obj_p11_map,
            find-erase k h' sl.handle_p11_map,
            v.back h' o',
            v.there o k,
          );
          bounded = λ h' o' p. ground (arith, find-erase k h' sl.handle_p11_map, v.bounded h' o');
        })
]

-- In a slot whose two handle maps are inverse and whose counter does not wrap around, the handle
-- that GetIDFromObject gives for an object stands for that object afterwards, and before it stood
-- for the same object or for none.
object_of-handle_of :
    (sl : Slot) (o : ℕ)
    → HandlesValid sl
    → sl.p11_obj_cnt + 1 < u64_mod
    → (object_of (handle_of sl o).1 (handle_of sl o).0 ≡ some o)
      × ((object_of sl (handle_of sl o).0 ≡ some o) ⊎ (object_of sl (handle_of sl o).0 ≡ none))
unfolding handle_of object_of
object_of-handle_of sl o v h = elim (Option-cases (find o sl.obj_p11_map)) [
  | inr (k, e) ↦ rw (e, handle_of) (v.there o k e, inl (v.there o k e))
  | inl e ↦
      let k = sl.p11_obj_cnt + 1 in
      let same : (sl.p11_obj_cnt + 1) % u64_mod ≡ k = omega arith in
      rw (e, handle_of, same)
        (
          ground (arith, find-assign k k o sl.handle_p11_map),
          inr (elim (Option-cases (find k sl.handle_p11_map)) [
            | inl n ↦ n
            | inr (o', n) ↦ absurd (omega (arith, v.bounded k o' n))
          ]),
        )
]

-- In a slot whose two handle maps are inverse, DelObjectHandle of an object makes the handles of
-- that object stand for nothing and leaves what every other handle stands for.
object_of-forget_handle :
    (sl : Slot) (o h : ℕ)
    → HandlesValid sl
    → object_of (forget_handle sl o) h
      ≡ (if opt_eq (object_of sl h) o then none else object_of sl h)
unfolding forget_handle object_of
object_of-forget_handle sl o h v = elim (Option-cases (find o sl.obj_p11_map)) [
  | inl e ↦ elim (Option-cases (find h sl.handle_p11_map)) [
    | inl n ↦ rw (e, forget_handle, n) refl
    | inr (o', n) ↦ rw (e, forget_handle, n) (ground (arith, v.back h o' n))
  ]
  | inr (k, e) ↦ elim (Option-cases (find h sl.handle_p11_map)) [
    | inl n ↦ rw (e, forget_handle) (ground (arith, find-erase k h sl.handle_p11_map))
    | inr (o', n) ↦
        rw (e, forget_handle)
          (ground (arith, find-erase k h sl.handle_p11_map, v.back h o' n, v.there o k e))
  ]
]

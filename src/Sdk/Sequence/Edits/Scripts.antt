-- ===== src/Sdk/Sequence/Edits/Scripts.antt =====
-- A run of changes, against the list that each of them describes.
use opencie_pkcs.Base.{
  All-append, All-take, All-drop, ℕ, suc, ◌<◌, ◌≡◌, refl, sym, ap, ◌∙◌, inr, List, [], ◌∷◌, ◌++◌,
  All, length, take, drop, length-append, length-take, length-drop, take_exact, drop_exact, arith,
}
use opencie_pkcs.Sdk.Object.{Asn1Object, Parsed, parsed, ◌>>=◌}
use opencie_pkcs.Sdk.Sequence.{
  GenericSequence, add_element, add_element_at, remove_element_at, set_element_at, remove_all,
}
use opencie_pkcs.Sdk.Sequence.Holding.{IsShort, encode_all, Holds}
use opencie_pkcs.Sdk.Sequence.Offsets.{holding, holding-Holds}
use opencie_pkcs.Sdk.Sequence.Edits.{
  IsPlace, insert_at, delete_at, insert_at-IsShort, delete_at-IsShort, Holds-IsShort,
  add_element-Holds, add_element_at-Holds, remove_element_at-Holds,
}

pub data Edit : Type 0 where
  append : Asn1Object → Edit
  insert : Asn1Object → ℕ → Edit
  remove : ℕ → Edit
  replace : Asn1Object → ℕ → Edit
  clear : Edit

unfoldable pub edit : GenericSequence → Edit → Parsed GenericSequence
unfolding add_element add_element_at remove_element_at set_element_at remove_all
edit s (append obj) = add_element s obj
edit s (insert obj pos) = add_element_at s obj pos
edit s (remove pos) = remove_element_at s pos
edit s (replace obj pos) = set_element_at s obj pos
edit s clear = parsed (remove_all s)

unfoldable pub edit_all : GenericSequence → List Edit → Parsed GenericSequence
unfolding edit
edit_all s [] = parsed s
edit_all s (e ∷ es) = edit s e >>= λ s'. edit_all s' es

-- The same on the list.
unfoldable pub edited : List Asn1Object → Edit → List Asn1Object
edited objs (append obj) = objs ++ (obj ∷ [])
edited objs (insert obj pos) = take pos objs ++ (obj ∷ drop pos objs)
edited objs (remove pos) = take pos objs ++ drop (suc pos) objs
edited objs (replace obj pos) = take pos objs ++ (obj ∷ drop (suc pos) objs)
edited objs clear = []

unfoldable pub edited_all : List Asn1Object → List Edit → List Asn1Object
unfolding edited
edited_all objs [] = objs
edited_all objs (e ∷ es) = edited_all (edited objs e) es

-- Objects that `int` can measure, and positions whose end the table has.
unfoldable pub IsSafe : List Asn1Object → Edit → Type 0
unfolding IsShort IsPlace
IsSafe objs (append obj) = IsShort obj
IsSafe objs (insert obj pos) = IsShort obj × IsPlace objs pos
IsSafe objs (remove pos) = suc pos < length objs
IsSafe objs (replace obj pos) = IsShort obj × suc pos < length objs
IsSafe objs clear = Unit

unfoldable pub AllSafe : List Asn1Object → List Edit → Type 0
unfolding IsSafe edited
AllSafe objs [] = Unit
AllSafe objs (e ∷ es) = IsSafe objs e × AllSafe (edited objs e) es

-- After a removal the place of the object removed is still one to insert at.
replaced :
    (s : GenericSequence) (objs : List Asn1Object) (obj : Asn1Object) (pos : ℕ)
    → Holds s objs
    → IsShort obj
    → suc pos < length objs
    → set_element_at s obj pos
      ≡ parsed (holding (holding s (delete_at objs pos)) (edited objs (replace obj pos)))
unfolding set_element_at edited IsPlace
replaced s objs obj pos held short h =
    let left = delete_at objs pos in
    let shorts = delete_at-IsShort objs pos (Holds-IsShort s objs held) in
    let front = length-take pos objs (omega (arith, h)) in
    let place : IsPlace left pos = inr (
      omega (
        arith,
        length-append (take pos objs) (drop (suc pos) objs),
        front,
        length-drop (suc pos) objs,
        h,
      )) in
    let inserted : insert_at left obj pos ≡ edited objs (replace obj pos) =
      rw (take_exact pos (take pos objs) (drop (suc pos) objs) (sym front))
        (rw (drop_exact pos (take pos objs) (drop (suc pos) objs) (sym front)) refl) in
    rw (remove_element_at-Holds s objs pos held h) (
      add_element_at-Holds (holding s left) left obj pos (holding-Holds s left shorts) short place
      ∙ ap (λ xs. parsed (holding (holding s left) xs)) inserted)

edit-Holds :
    (s : GenericSequence) (objs : List Asn1Object) (e : Edit)
    → Holds s objs
    → IsSafe objs e
    → (s' : GenericSequence) × edit s e ≡ parsed s' × Holds s' (edited objs e)
unfolding edit edited IsSafe Holds remove_all encode_all
edit-Holds s objs (append obj) held short =
    let one : All IsShort (obj ∷ []) = (short, tt) in
    let objs' = objs ++ (obj ∷ []) in
    (
      holding s objs',
      add_element-Holds s objs obj held short,
      holding-Holds s objs' (All-append IsShort objs (obj ∷ []) (Holds-IsShort s objs held) one),
    )
edit-Holds s objs (insert obj pos) held (short, place) =
    let objs' = insert_at objs obj pos in
    (
      holding s objs',
      add_element_at-Holds s objs obj pos held short place,
      holding-Holds s objs' (insert_at-IsShort objs obj pos (Holds-IsShort s objs held) short),
    )
edit-Holds s objs (remove pos) held h =
    let objs' = delete_at objs pos in
    (
      holding s objs',
      remove_element_at-Holds s objs pos held h,
      holding-Holds s objs' (delete_at-IsShort objs pos (Holds-IsShort s objs held)),
    )
edit-Holds s objs (replace obj pos) held (short, h) =
    let left = delete_at objs pos in
    let shorts = Holds-IsShort s objs held in
    let objs' = edited objs (replace obj pos) in
    (
      holding (holding s left) objs',
      replaced s objs obj pos held short h,
      holding-Holds (holding s left) objs' (
          All-append IsShort (take pos objs) (obj ∷ drop (suc pos) objs)
            (All-take IsShort pos objs shorts) (short, All-drop IsShort (suc pos) objs shorts)),
    )
edit-Holds s objs clear held t =
    (remove_all s, refl, (refl, refl, tt, λ i h. absurd (omega (arith, h))))

-- A script of changes (addElement, addElementAt, removeElementAt, setElementAt, removeAll) on a
-- sequence that holds a list of objects succeeds and leaves a sequence that holds the list so
-- changed, its octets and its table of offsets included, provided every object is shorter than 2 ^
-- 31 octets, insertions are at 0 or before an element, and no removal or replacement is of the
-- last element. Offsets are taken without wrap-around, so this is of content below 2 ^ 31 octets
-- in all.
pub edit_all-Holds :
    (s : GenericSequence) (objs : List Asn1Object) (es : List Edit)
    → Holds s objs
    → AllSafe objs es
    → (s' : GenericSequence) × edit_all s es ≡ parsed s' × Holds s' (edited_all objs es)
unfolding edit_all edited_all AllSafe
edit_all-Holds s objs [] held t = (s, refl, held)
edit_all-Holds s objs (e ∷ es) held (safe, more) =
    let (s', done, held') = edit-Holds s objs e held safe in
    let (s'', ran, last) = edit_all-Holds s' (edited objs e) es held' more in
    (s'', rw done ran, last)

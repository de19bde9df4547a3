-- ===== src/Util/Array.antt =====
-- shared/src/util/array.h and array.cpp: views and copies of byte arrays. A view is the list of
-- its bytes, so what is written through a view is returned as the new list. A fresh array holds
-- zeros here; the code leaves it undefined and writes every byte of it before it reads one.
pub mod Writes
use opencie_pkcs.Base.{
  ℕ, suc, ◌+◌, ◌-◌, ◌≤◌, ◌<◌, ◌≡◌, refl, ap, ◌∙◌, sym, Bool, true, false, ◌||◌, List, [], ◌∷◌, ◌++◌,
  Option, none, some, arith, ltb, ◌==◌, ◌&&◌, if◌then◌else◌, length, take, drop, replicate,
  get_elem?, Result, ok, throw, logged_error, ◌>>=◌, length-append, length-take, length-drop,
  length-replicate, take-append, drop-append,
}

abbrev pub IsByte : ℕ → Type 0
IsByte b = b < 256

-- `start > _size || size > _size - start`
abbrev pub out_of_range : ℕ → ℕ → ℕ → Bool
out_of_range total start size = ltb total start || ltb (total - start) size

unfoldable pub mid : List ℕ → ℕ → ℕ → Result (List ℕ)
mid a start size =
    if out_of_range (length a) start size then throw logged_error else ok (take size (drop start a))

-- The overload with no size.
unfoldable pub mid_from : List ℕ → ℕ → Result (List ℕ)
mid_from a start = if ltb (length a) start then throw logged_error else ok (drop start a)

unfoldable pub left : List ℕ → ℕ → Result (List ℕ)
unfolding mid
left a size = if ltb (length a) size then throw logged_error else mid a 0 size

unfoldable pub right : List ℕ → ℕ → Result (List ℕ)
unfolding mid
right a size = if ltb (length a) size then throw logged_error else mid a (length a - size) size

unfoldable pub revmid_from : List ℕ → ℕ → Result (List ℕ)
unfolding mid
revmid_from a toend =
    if ltb (length a) toend then throw logged_error else mid a 0 (length a - toend)

unfoldable pub revmid : List ℕ → ℕ → ℕ → Result (List ℕ)
unfolding mid
revmid a toend size =
    if out_of_range (length a) toend size
    then throw logged_error
    else mid a (length a - toend - size) size

-- What `memcpy` leaves in the array.
abbrev pub overwrite : List ℕ → ℕ → List ℕ → List ℕ
overwrite a start src = take start a ++ (src ++ drop (start + length src) a)

unfoldable pub copy : List ℕ → List ℕ → ℕ → Result (List ℕ)
copy a src start =
    if out_of_range (length a) start (length src)
    then throw logged_error
    else ok (overwrite a start src)

unfoldable pub rightcopy : List ℕ → List ℕ → ℕ → Result (List ℕ)
rightcopy a src end =
    if out_of_range (length a) end (length src)
    then throw logged_error
    else ok (overwrite a (length a - end - length src) src)

-- `mid(start, count).fill(value)`
unfoldable pub fill_mid : List ℕ → ℕ → ℕ → ℕ → Result (List ℕ)
fill_mid a start count value =
    if out_of_range (length a) start count
    then throw logged_error
    else ok (overwrite a start (replicate count value))

unfoldable pub get : List ℕ → ℕ → Result ℕ
get a pos = elim (get_elem? a pos) [ none ↦ throw logged_error | some b ↦ ok b ]

-- `a[pos] = value`
unfoldable pub put : List ℕ → ℕ → ℕ → Result (List ℕ)
put a pos value =
    if ltb pos (length a) then ok (overwrite a pos (value ∷ [])) else throw logged_error

-- `resize(size, true)`
unfoldable pub resize_keep : List ℕ → ℕ → List ℕ
resize_keep a size = take size a ++ replicate (size - length a) 0

unfoldable pub append : List ℕ → List ℕ → Result (List ℕ)
unfolding resize_keep rightcopy
append a src =
    if ltb 0 (length src) then rightcopy (resize_keep a (length a + length src)) src 0 else ok a

-- `operator==`
unfoldable pub equal : List ℕ → List ℕ → Bool
equal [] [] = true
equal (x ∷ xs) (y ∷ ys) = x == y && equal xs ys
equal xs ys = false

pub equal_sound : (a b : List ℕ) → equal a b ≡ true → a ≡ b
unfolding equal
equal_sound [] [] e = refl
equal_sound [] (y ∷ ys) e = absurd (ground arith)
equal_sound (x ∷ xs) [] e = absurd (ground arith)
equal_sound (x ∷ xs) (y ∷ ys) e = ground (arith, equal_sound xs ys)

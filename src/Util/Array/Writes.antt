-- ===== src/Util/Array/Writes.antt =====
-- What a write into a known part of an array leaves.
use opencie_pkcs.Base.{
  ℕ, zero, suc, ◌+◌, ◌-◌, ◌≡◌, refl, ap, ◌∙◌, List, [], ◌∷◌, ◌++◌, arith, length, drop, replicate,
  ok, length-append, length-replicate, take-append, drop-append, take_past,
}
use native.Mathlib.Nat.{zero-add}
use mathlib.Core.List.{append-nil}
use opencie_pkcs.Util.Array.{put, copy, rightcopy, fill_mid, overwrite, append, resize_keep}

drop_past :
    (n : ℕ) (front old back : List ℕ)
    → n ≡ length front + length old
    → drop n (front ++ (old ++ back)) ≡ back
drop_past n [] old back h = rw (h, zero-add (length old)) (drop-append old back)
drop_past zero (x ∷ front) old back h = absurd (omega arith)
drop_past (suc n) (x ∷ front) old back h = drop_past n front old back (omega arith)

-- A write of as many bytes as `old` has replaces `old`.
pub overwrite_part :
    (front old back src : List ℕ)
    → length src ≡ length old
    → overwrite (front ++ (old ++ back)) (length front) src ≡ front ++ (src ++ back)
overwrite_part front old back src h = rw (
  take-append front (old ++ back),
  drop_past (length front + length src) front old back (omega (arith, h)),
)

pub copy_part :
    (front old back src : List ℕ)
    → length src ≡ length old
    → copy (front ++ (old ++ back)) src (length front) ≡ ok (front ++ (src ++ back))
unfolding copy
copy_part front old back src h =
    rw (overwrite_part front old back src h)
      (ground (arith, length-append front (old ++ back), length-append old back))

pub put_part :
    (front : List ℕ) (b : ℕ) (back : List ℕ) (value : ℕ)
    → put (front ++ (b ∷ back)) (length front) value ≡ ok (front ++ (value ∷ back))
unfolding put
put_part front b back value =
    rw (overwrite_part front (b ∷ []) back (value ∷ []) refl)
      (ground (arith, length-append front (b ∷ back)))

pub fill_part :
    (front old back : List ℕ) (count value : ℕ)
    → count ≡ length old
    → fill_mid (front ++ (old ++ back)) (length front) count value
      ≡ ok (front ++ (replicate count value ++ back))
unfolding fill_mid
fill_part front old back count value h =
    rw (overwrite_part front old back (replicate count value) (length-replicate count value ∙ h))
      (ground (arith, length-append front (old ++ back), length-append old back))

pub rightcopy_part :
    (front old back src : List ℕ)
    → length src ≡ length old
    → rightcopy (front ++ (old ++ back)) src (length back) ≡ ok (front ++ (src ++ back))
unfolding rightcopy
rightcopy_part front old back src h =
    let total : length (front ++ (old ++ back)) ≡ length front + (length old + length back) =
      length-append front (old ++ back) ∙ ap (λ n. length front + n) (length-append old back) in
    let at : length front + (length old + length back) - length back - length src ≡ length front =
      omega (arith, h) in
    rw (total, at, overwrite_part front old back src h) (ground arith)

-- A copy over the whole array.
pub copy_all : (old src : List ℕ) → length src ≡ length old → copy old src 0 ≡ ok src
copy_all old src h = rw (append-nil old) at (rw (append-nil src) at (copy_part [] old [] src h))

pub rightcopy_end :
    (front old src : List ℕ)
    → length src ≡ length old
    → rightcopy (front ++ old) src 0 ≡ ok (front ++ src)
rightcopy_end front old src h =
    rw (append-nil old) at (rw (append-nil src) at (rightcopy_part front old [] src h))

append_some :
    (a src : List ℕ) → rightcopy (resize_keep a (length a + length src)) src 0 ≡ ok (a ++ src)
unfolding resize_keep
append_some a src = rw (take_past (length a + length src) a (omega arith)) (
    rightcopy_end a (replicate (length a + length src - length a) 0) src
      (omega (arith, length-replicate {A = ℕ} (length a + length src - length a) 0)))

pub append_lem : (a src : List ℕ) → append a src ≡ ok (a ++ src)
unfolding append
append_lem a [] = rw (append-nil a) refl
append_lem a (b ∷ bs) = ground (arith, append_some a (b ∷ bs))

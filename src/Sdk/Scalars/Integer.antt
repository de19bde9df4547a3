-- ===== src/Sdk/Scalars/Integer.antt =====
-- An integer made of a number, and read.
use mathlib.Core.List.{reverse, reverse-reverse}
use opencie_pkcs.Base.{
  ℕ, zero, suc, ◌+◌, ◌*◌, ◌/◌, ◌%◌, ◌^◌, ◌<◌, ◌≡◌, refl, ap, ◌∙◌, List, ◌∷◌, ◌==◌, if◌then◌else◌,
  Bool-cases, inl, inr, arith,
}
use opencie_pkcs.Sdk.Scalars.{new_integer, integer_digits, get_long_value, long_value_from}

long_value_from-integer_digits :
    (k j n : ℕ) → n < 256 ^ k → n < 256 ^ j → long_value_from k (integer_digits j n) ≡ n
unfolding long_value_from integer_digits
long_value_from-integer_digits zero j n h g = omega (arith, h)
long_value_from-integer_digits (suc k) zero n h g = omega (arith, g)
long_value_from-integer_digits (suc k) (suc j) n h g = elim (Bool-cases (n == 0)) [
  | inl e ↦ rw e (ground (arith, e))
  | inr e ↦ rw e (
      rw (long_value_from-integer_digits k j (n / 256) (omega (arith, h)) (omega (arith, g)))
        (omega arith))
]

get_long_value-reverse : (ds : List ℕ) → get_long_value (reverse ds) ≡ long_value_from 8 ds
unfolding get_long_value
get_long_value-reverse ds = ap (long_value_from 8) (reverse-reverse ds)

long_value_from-cons :
    (k b : ℕ) (bs : List ℕ) → long_value_from (suc k) (b ∷ bs) ≡ b + 256 * long_value_from k bs
unfolding long_value_from
long_value_from-cons k b bs = refl

-- getLongValue of CASN1Integer(n), for n below 2 ^ 56, is n unless the last octet of n is 80, and
-- then 256 * n.
pub get_long_value-new_integer :
    (n : ℕ) → n < 2 ^ 56 → get_long_value (new_integer n) ≡ (if n % 256 == 0x80 then 256 * n else n)
unfolding new_integer
get_long_value-new_integer n h =
    let ds = integer_digits 8 (n / 256) in
    elim (Bool-cases (n % 256 == 0x80)) [
      | inl e ↦ rw e (
          get_long_value-reverse (0x00 ∷ 0x80 ∷ ds)
          ∙ long_value_from-cons 7 0x00 (0x80 ∷ ds)
          ∙ ap (λ m. 0 + 256 * m)
              (long_value_from-cons 6 0x80 ds
                ∙ ap (λ m. 0x80 + 256 * m)
                    (long_value_from-integer_digits 6 8 (n / 256) (omega (arith, h))
                      (omega (arith, h))))
          ∙ ground (arith, e))
      | inr e ↦ rw e (
          get_long_value-reverse ((n % 256) ∷ ds)
          ∙ long_value_from-cons 7 (n % 256) ds
          ∙ ap (λ m. n % 256 + 256 * m)
              (long_value_from-integer_digits 7 8 (n / 256) (omega (arith, h)) (omega (arith, h)))
          ∙ omega arith)
    ]

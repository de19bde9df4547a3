-- ===== src/Sdk/Object/Octets.antt =====
-- The octets of a length, and values in chunks.
use opencie_pkcs.Base.{
  ℕ, zero, suc, ◌+◌, ◌*◌, ◌/◌, ◌%◌, ◌^◌, ◌≤◌, ◌<◌, ◌≡◌, refl, ap, ◌∙◌, false, List, [], ◌∷◌, ◌++◌,
  ◌==◌, length, length-append, Bool-cases, inl, inr, arith,
}
use opencie_pkcs.Sdk.Object.{length_octets, shift_in}

shift_in-append :
    (n b : ℕ) (bs : List ℕ) → shift_in n (bs ++ (b ∷ [])) ≡ (shift_in n bs * 256 + b) % 2 ^ 32
unfolding shift_in
shift_in-append n b [] = refl
shift_in-append n b (c ∷ cs) = shift_in-append ((n * 256 + c) % 2 ^ 32) b cs

pub length-length_octets : (k n : ℕ) → length (length_octets k n) ≤ k
unfolding length_octets
length-length_octets zero n = omega arith
length-length_octets (suc k) n = elim (Bool-cases (n == 0)) [
  | inl e ↦ rw e (omega arith)
  | inr e ↦ rw e (
      omega (
        arith,
        length-append (length_octets k (n / 256)) ((n % 256) ∷ []),
        length-length_octets k (n / 256),
      ))
]

pub length_octets-some : (k n : ℕ) → 0 < n → 1 ≤ length (length_octets (suc k) n)
unfolding length_octets
length_octets-some k n h =
    let e : (n == 0) ≡ false = ground arith in
    rw e (omega (arith, length-append (length_octets k (n / 256)) ((n % 256) ∷ [])))

pub shift_in-length_octets :
    (k n : ℕ) → n < 256 ^ k → n < 2 ^ 32 → shift_in 0 (length_octets k n) ≡ n
unfolding length_octets shift_in
shift_in-length_octets zero n h w = omega (arith, h)
shift_in-length_octets (suc k) n h w = elim (Bool-cases (n == 0)) [
  | inl e ↦ rw e (ground arith)
  | inr e ↦ rw e (
      shift_in-append 0 (n % 256) (length_octets k (n / 256))
      ∙ ap (λ m. (m * 256 + n % 256) % 2 ^ 32)
          (shift_in-length_octets k (n / 256) (omega (arith, h)) (omega (arith, w)))
      ∙ omega (arith, w))
]

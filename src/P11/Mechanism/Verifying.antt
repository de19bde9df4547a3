-- ===== src/P11/Mechanism/Verifying.antt =====
-- Which signatures VerifyFinal accepts, and what VerifyRecover gives back.
use opencie_pkcs.Base.{
  ℕ, ◌+◌, ◌≡◌, ◌≤◌, ◌<◌, ◌↔◌, true, false, not, List, [], ◌∷◌, ◌++◌, none, some, Exception, ok,
  p11_error, arith, refl, replicate, length-append, length-replicate, drop_exact, ap, sym,
  Bool-cases, inl, inr, length, u64_mod,
}
use opencie_pkcs.P11.Constants.{ckr_signature_invalid}
use opencie_pkcs.P11.Mechanism.{
  hash_of, support_multipart, verify_length, decrypt_signature, mech_verify_final,
  verify_recover_length, mech_verify_recover,
}
use opencie_pkcs.P11.Mechanism.Blocks.{
  Hash, Crypto, digest_length, digest_info, expected_digest, expected_plain, expected_plain-block,
  expected_digest-block, signed_digest_lem,
}
use opencie_pkcs.P11.State.{Mechanism, World, CardTemplate}
use opencie_pkcs.P11.State.Monad.{guard_not}
use opencie_pkcs.Util.Array.{equal, mid_from}
use opencie_pkcs.Util.Padding.BlockType1.{block_type_1, remove_padding-block}
use mathlib.Core.List.{append_assoc}

pub equal_iff : (a b : List ℕ) → (equal a b ≡ true) ↔ (a ≡ b)
unfolding equal
equal_iff [] [] = (λ e. refl, λ e. refl)
equal_iff [] (y ∷ ys) = (λ e. absurd (ground arith), λ e. absurd (ground arith))
equal_iff (x ∷ xs) [] = (λ e. absurd (ground arith), λ e. absurd (ground arith))
equal_iff (x ∷ xs) (y ∷ ys) = ground (arith, (equal_iff xs ys).0, (equal_iff xs ys).1)

not_multipart : (t : ℕ) → hash_of t ≡ none → support_multipart t ≡ false
unfolding support_multipart
not_multipart t e = rw (e, support_multipart) refl

is_multipart : (t : ℕ) (hash : Hash) → hash_of t ≡ some hash → support_multipart t ≡ true
unfolding support_multipart
is_multipart t hash e = rw (e, support_multipart) refl

-- A comparison, as the last step of VerifyFinal makes it.
guard-equal :
    {E : Type 0} (a b : List ℕ) (e : Exception) (u : World E)
    → (a ≡ b) ↔ ((guard_not (not (equal a b)) e u).0 ≡ ok tt)
guard-equal a b e u = elim (Bool-cases (equal a b)) [
  | inl q ↦ (λ p. rw q refl, λ r. (equal_iff a b).0 q)
  | inr q ↦
      (λ p. absurd (ground (arith, q, (equal_iff a b).1 p)), λ r. absurd (ground (arith, q, r)))
]

-- The data behind a block's padding.
mid_from-block : (k : ℕ) (payload : List ℕ) → mid_from (block_type_1 k payload) (k + 3) ≡ ok payload
unfolding mid_from
mid_from-block k payload =
    let front : List ℕ = 0 ∷ 1 ∷ (replicate k 0xff ++ (0 ∷ [])) in
    let size : k + 3 ≡ length front =
      omega (
        arith,
        length-append {A = ℕ} (replicate k 0xff) (0 ∷ []),
        length-replicate {A = ℕ} k 0xff,
      ) in
    let split : front ++ payload ≡ block_type_1 k payload =
      ap (λ xs. 0 ∷ 1 ∷ xs) (append_assoc {A = ℕ} (replicate k 0xff) (0 ∷ []) payload) in
    rw (sym split)
      (ground (arith, drop_exact (k + 3) front payload size, length-append front payload, size))

module _ {E : Type 0} (tpl : CardTemplate E) (crypto : Crypto) where
  plain_run :
      (s n : ℕ) (m : Mechanism) (signature plain block : List ℕ) (w u : World E)
      → hash_of m.mt_type ≡ none
      → verify_length tpl crypto s m w ≡ (ok n, w)
      → decrypt_signature tpl crypto s m signature w ≡ (ok plain, u)
      → length signature ≡ n
      → n < u64_mod
      → length m.gathered + 11 ≤ n
      → expected_plain n m.gathered ≡ ok block
      → mech_verify_final tpl crypto s m signature w
        ≡ guard_not (not (equal plain block)) (p11_error ckr_signature_invalid) u
  unfolding mech_verify_final
  plain_run s n m signature plain block w u a b c d e f g =
      ground (arith, a, b, c, d, e, f, g, not_multipart m.mt_type a)

  -- For an RSA_PKCS mechanism, a public key whose modulus is k + 3 bytes longer than what was
  -- gathered, with 8 ≤ k and a length below 2 ^ 64, and a signature as long as the modulus that
  -- decrypts, VerifyFinal returns exactly when the signature decrypts to the block of type 1 with
  -- k bytes FF and what was gathered.
  pub verify_plain_lem :
      (s k : ℕ) (m : Mechanism) (signature plain : List ℕ) (w u : World E)
      → hash_of m.mt_type ≡ none
      → 8 ≤ k
      → k + 3 + length m.gathered < u64_mod
      → verify_length tpl crypto s m w ≡ (ok (k + 3 + length m.gathered), w)
      → length signature ≡ k + 3 + length m.gathered
      → decrypt_signature tpl crypto s m signature w ≡ (ok plain, u)
      → (plain ≡ block_type_1 k m.gathered)
        ↔ ((mech_verify_final tpl crypto s m signature w).0 ≡ ok tt)
  verify_plain_lem s k m signature plain w u a wide small b d c =
      rw
        (plain_run s (k + 3 + length m.gathered) m signature plain (block_type_1 k m.gathered) w u a
          b c d small (omega arith) (expected_plain-block k m.gathered))
        (guard-equal plain (block_type_1 k m.gathered) (p11_error ckr_signature_invalid) u)

  digest_run :
      (s n : ℕ) (m : Mechanism) (hash : Hash) (signature plain block : List ℕ) (w u : World E)
      → hash_of m.mt_type ≡ some hash
      → verify_length tpl crypto s m w ≡ (ok n, w)
      → decrypt_signature tpl crypto s m signature w ≡ (ok plain, u)
      → length signature ≡ n
      → expected_digest crypto n hash m.gathered ≡ ok block
      → mech_verify_final tpl crypto s m signature w
        ≡ guard_not (not (equal plain block)) (p11_error ckr_signature_invalid) u
  unfolding mech_verify_final
  digest_run s n m hash signature plain block w u a b c d g =
      ground (arith, a, b, c, d, g, is_multipart m.mt_type hash a)

  -- For an RSA mechanism with a digest, when the hash has its length, the public key's modulus is
  -- k + 3 bytes longer than the DigestInfo and the hash, and a signature as long as the modulus
  -- decrypts, VerifyFinal returns exactly when the signature decrypts to the block of type 1 with
  -- k bytes FF, the DigestInfo and the hash of what was gathered.
  verify_digest_lem :
      (s k : ℕ) (m : Mechanism) (hash : Hash) (signature plain : List ℕ) (w u : World E)
      → hash_of m.mt_type ≡ some hash
      → length (crypto.digest hash m.gathered) ≡ digest_length hash
      → verify_length tpl crypto s m w
        ≡ (ok (k + 3 + (length (digest_info hash) + digest_length hash)), w)
      → length signature ≡ k + 3 + (length (digest_info hash) + digest_length hash)
      → decrypt_signature tpl crypto s m signature w ≡ (ok plain, u)
      → (plain ≡ block_type_1 k (digest_info hash ++ crypto.digest hash m.gathered))
        ↔ ((mech_verify_final tpl crypto s m signature w).0 ≡ ok tt)
  verify_digest_lem s k m hash signature plain w u a l b d c =
      rw
        (digest_run s (k + 3 + (length (digest_info hash) + digest_length hash)) m hash signature
          plain (block_type_1 k (digest_info hash ++ crypto.digest hash m.gathered)) w u a b c d
          (rw (signed_digest_lem crypto hash m.gathered l) at
            (expected_digest-block crypto hash m.gathered k l)))
        (guard-equal plain (block_type_1 k (digest_info hash ++ crypto.digest hash m.gathered))
          (p11_error ckr_signature_invalid) u)

  -- For a public key with a modulus below 2 ^ 64 bytes and a signature as long as it that decrypts
  -- to a block of type 1 with at least 8 bytes FF around a payload at least 11 bytes shorter than
  -- the modulus, VerifyRecover returns the payload.
  verify_recover_lem :
      (s n k : ℕ) (m : Mechanism) (signature payload : List ℕ) (w u : World E)
      → verify_recover_length tpl crypto s m w ≡ (ok n, w)
      → length signature ≡ n
      → n < u64_mod
      → decrypt_signature tpl crypto s m signature w ≡ (ok (block_type_1 k payload), u)
      → 8 ≤ k
      → length payload + 11 ≤ n
      → mech_verify_recover tpl crypto s m signature w ≡ (ok payload, u)
  unfolding mech_verify_recover
  verify_recover_lem s n k m signature payload w u a b c d e f =
      ground (arith, a, b, c, d, f, remove_padding-block k payload e, mid_from-block k payload)

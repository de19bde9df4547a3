-- ===== src/P11/Mechanism/Blocks.antt =====
-- pkcs11/src/pkcs11/mechanism.cpp: the digests, and the blocks that VerifyFinal compares with. The
-- hash functions and the RSA operation are those of OpenSSL, a parameter.
use opencie_pkcs.Base.{
  ℕ, ◌+◌, ◌-◌, ◌≡◌, refl, sym, ap, ◌∙◌, List, [], ◌∷◌, ◌++◌, Result, ok, ◌>>=◌, length, replicate,
  arith, length-append, length-replicate, replicate-add, take_past, drop_exact, zero, suc,
}
use mathlib.Core.List.{append_assoc}
use opencie_pkcs.Util.Array.Writes.{rightcopy_part, copy_all, append_lem, rightcopy_end}
use opencie_pkcs.Util.Array.{append, rightcopy, right, copy, mid}
use opencie_pkcs.Util.Padding.BlockType1.{put_padding_bt1, block_type_1, put_padding-block}

pub data Hash : Type 0 where
  sha1 : Hash
  sha256 : Hash
  md5 : Hash

pub record Crypto : Type 0 where
  pub digest : Hash → List ℕ → List ℕ
  pub rsa_pure : List ℕ → List ℕ → List ℕ → Result (List ℕ)

unfoldable pub digest_length : Hash → ℕ
digest_length sha1 = 20
digest_length sha256 = 32
digest_length md5 = 16

unfoldable pub digest_info : Hash → List ℕ
digest_info sha1 =
    0x30 ∷ 0x21 ∷ 0x30 ∷ 9 ∷ 6 ∷ 5 ∷ 0x2b ∷ 0x0e ∷ 3 ∷ 2 ∷ 0x1a ∷ 5 ∷ 0 ∷ 4 ∷ 0x14 ∷ []
digest_info sha256 =
    0x30 ∷ 0x31 ∷ 0x30 ∷ 0x0d ∷ 6 ∷ 9 ∷ 0x60 ∷ 0x86 ∷ 0x48 ∷ 1 ∷ 0x65 ∷ 3 ∷ 4 ∷ 2 ∷ 1 ∷ 5 ∷ 0 ∷ 4
    ∷ 0x20 ∷ []
digest_info md5 =
    0x30 ∷ 0x20 ∷ 0x30 ∷ 0x0c ∷ 6 ∷ 8 ∷ 0x2a ∷ 0x86 ∷ 0x48 ∷ 0x86 ∷ 0xf7 ∷ 0x0d ∷ 2 ∷ 5 ∷ 5 ∷ 0 ∷ 4
    ∷ 0x10 ∷ []

-- `rightcopy` into a fresh array, then PutPaddingBT1: what RSA_PKCS1 expects.
unfoldable pub expected_plain : ℕ → List ℕ → Result (List ℕ)
expected_plain n gathered =
    rightcopy (replicate n 0) gathered 0 >>= λ block. put_padding_bt1 block (length gathered)

module _ (crypto : Crypto) where
  -- DigestFinal: the digest is copied into the buffer.
  unfoldable pub digest_final_into : Hash → List ℕ → List ℕ → Result (List ℕ)
  digest_final_into hash gathered out = copy out (crypto.digest hash gathered) 0

  -- The same for RSA with a digest. `ba1` is a view of the last bytes.
  unfoldable pub expected_digest : ℕ → Hash → List ℕ → Result (List ℕ)
  unfolding digest_final_into
  expected_digest n hash gathered = right (replicate n 0) (digest_length hash) >>= λ ba1.
      digest_final_into hash gathered ba1 >>= λ written.
      rightcopy (replicate n 0) written 0 >>= λ block.
      rightcopy block (digest_info hash) (digest_length hash) >>= λ block1.
      put_padding_bt1 block1 (digest_length hash + length (digest_info hash))

  -- What a signature with a digest gives the card to sign.
  unfoldable pub signed_digest : Hash → List ℕ → Result (List ℕ)
  unfolding digest_final_into
  signed_digest hash gathered =
      digest_final_into hash gathered (replicate (digest_length hash) 0) >>= λ written.
      append (digest_info hash) written

-- A fresh array with `payload` copied to its end.
rightcopy-fresh :
    (k : ℕ) (payload : List ℕ)
    → rightcopy (replicate (k + length payload) 0) payload 0 ≡ ok (replicate k 0 ++ payload)
rightcopy-fresh k payload = rw (sym (replicate-add {A = ℕ} k (length payload) 0)) (
    rightcopy_end (replicate k 0) (replicate (length payload) 0) payload
      (sym (length-replicate {A = ℕ} (length payload) 0)))

replicate-shift : (k : ℕ) (xs : List ℕ) → 0 ∷ (replicate k 0 ++ xs) ≡ replicate k 0 ++ (0 ∷ xs)
replicate-shift zero xs = refl
replicate-shift (suc k) xs = ap (λ ys. 0 ∷ ys) (replicate-shift k xs)

put_padding-fresh :
    (k n : ℕ) (payload : List ℕ)
    → n ≡ length payload
    → put_padding_bt1 (replicate (k + 3) 0 ++ payload) n ≡ ok (block_type_1 k payload)
put_padding-fresh k n payload h =
    let three : k + 3 ≡ suc (suc (suc k)) = omega arith in
    rw (three, h, replicate-shift k payload)
      (rw (length-replicate {A = ℕ} k 0) at (put_padding-block 0 0 0 (replicate k 0) payload))

-- The block of RSA_PKCS1 is that of PKCS#1 around what was gathered.
pub expected_plain-block :
    (k : ℕ) (payload : List ℕ)
    → expected_plain (k + 3 + length payload) payload ≡ ok (block_type_1 k payload)
unfolding expected_plain
expected_plain-block k payload =
    rw (rightcopy-fresh (k + 3) payload) (put_padding-fresh k (length payload) payload refl)

-- The digest has its length.
pub signed_digest_lem :
    (crypto : Crypto) (hash : Hash) (gathered : List ℕ)
    → length (crypto.digest hash gathered) ≡ digest_length hash
    → signed_digest crypto hash gathered ≡ ok (digest_info hash ++ crypto.digest hash gathered)
unfolding signed_digest digest_final_into
signed_digest_lem crypto hash gathered h =
    rw
      (copy_all (replicate (digest_length hash) 0) (crypto.digest hash gathered)
        (h ∙ sym (length-replicate {A = ℕ} (digest_length hash) 0)))
      (append_lem (digest_info hash) (crypto.digest hash gathered))

right-fresh : (m l : ℕ) → right (replicate (m + l) 0) l ≡ ok (replicate l 0)
unfolding right mid
right-fresh m l =
    let total : length (replicate {A = ℕ} (m + l) 0) ≡ m + l = length-replicate {A = ℕ} (m + l) 0 in
    let at : m + l - l ≡ m = omega arith in
    rw (total, at, sym (replicate-add {A = ℕ} m l 0))
      (ground (
        arith,
        drop_exact m (replicate m 0) (replicate l 0) (sym (length-replicate {A = ℕ} m 0)),
        take_past l (replicate {A = ℕ} l 0),
        length-replicate {A = ℕ} l 0,
        length-append (replicate {A = ℕ} m 0) (replicate l 0),
        length-replicate {A = ℕ} m 0,
      ))

-- The two copies of VerifyFinal for a signature with a digest, and the padding.
digest_steps :
    (k : ℕ) (info hashed : List ℕ)
    → (rightcopy (replicate (k + 3 + (length info + length hashed)) 0) hashed 0 >>= λ block.
        rightcopy block info (length hashed) >>= λ block1.
        put_padding_bt1 block1 (length hashed + length info))
      ≡ ok (block_type_1 k (info ++ hashed))
digest_steps k info hashed =
    let total : k + 3 + (length info + length hashed) ≡ k + 3 + length info + length hashed =
      omega arith in
    rw
      (
        total,
        rightcopy-fresh (k + 3 + length info) hashed,
        sym (replicate-add {A = ℕ} (k + 3) (length info) 0),
        append_assoc (replicate (k + 3) 0) (replicate (length info) 0) hashed,
        rightcopy_part (replicate (k + 3) 0) (replicate (length info) 0) hashed info
            (sym (length-replicate {A = ℕ} (length info) 0)),
      )
      (put_padding-fresh k (length hashed + length info) (info ++ hashed)
        (omega (arith, length-append info hashed)))

-- A signature with a digest is compared with the block around what the signer gave the card.
pub expected_digest-block :
    (crypto : Crypto) (hash : Hash) (gathered : List ℕ) (k : ℕ)
    → length (crypto.digest hash gathered) ≡ digest_length hash
    → expected_digest crypto
        (k + 3 + (length (digest_info hash) + digest_length hash))
        hash
        gathered
      ≡ (signed_digest crypto hash gathered >>= λ sent. ok (block_type_1 k sent))
unfolding expected_digest digest_final_into
expected_digest-block crypto hash gathered k h =
    let total : k + 3 + (length (digest_info hash) + digest_length hash)
        ≡ k + 3 + length (digest_info hash) + digest_length hash =
      omega arith in
    rw (signed_digest_lem crypto hash gathered h) (
      rw
        (
          total,
          right-fresh (k + 3 + length (digest_info hash)) (digest_length hash),
          copy_all (replicate (digest_length hash) 0) (crypto.digest hash gathered)
              (h ∙ sym (length-replicate {A = ℕ} (digest_length hash) 0)),
          sym total,
          sym h,
        )
        (digest_steps k (digest_info hash) (crypto.digest hash gathered)))

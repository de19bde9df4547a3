-- ===== src/Util/Padding/DigestInfo.antt =====
-- RemoveSha1 and RemoveSha256 of shared/src/util/util.cpp.
use opencie_pkcs.Base.{
  ℕ, List, [], ◌∷◌, if◌then◌else◌, length, Result, ok, throw, logged_error, ◌>>=◌,
}
use opencie_pkcs.Util.Array.{left, equal}

abbrev pub sha1_algo : List ℕ
sha1_algo =
    0x30 ∷ 0x21 ∷ 0x30 ∷ 0x09 ∷ 0x06 ∷ 0x05 ∷ 0x2b ∷ 0x0e ∷ 0x03 ∷ 0x02 ∷ 0x1a ∷ 0x05 ∷ 0x00 ∷ 0x04
    ∷ 0x14 ∷ []

abbrev pub sha256_algo : List ℕ
sha256_algo =
    0x30 ∷ 0x31 ∷ 0x30 ∷ 0x0d ∷ 0x06 ∷ 0x09 ∷ 0x60 ∷ 0x86 ∷ 0x48 ∷ 0x01 ∷ 0x65 ∷ 0x03 ∷ 0x04 ∷ 0x02
    ∷ 0x01 ∷ 0x05 ∷ 0x00 ∷ 0x04 ∷ 0x20 ∷ []

unfoldable pub remove_algo : List ℕ → List ℕ → Result ℕ
unfolding left equal
remove_algo algo padded = left padded (length algo) >>= λ head.
    if equal head algo then ok (length algo) else throw logged_error

unfoldable pub remove_sha1 : List ℕ → Result ℕ
unfolding remove_algo
remove_sha1 = remove_algo sha1_algo

unfoldable pub remove_sha256 : List ℕ → Result ℕ
unfolding remove_algo
remove_sha256 = remove_algo sha256_algo

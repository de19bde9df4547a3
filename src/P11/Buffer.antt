-- ===== src/P11/Buffer.antt =====
-- The buffer that the application hands to an operation for its result: a null pointer with a
-- length, or memory (ByteArray of shared/src/util/array.h, as pkcs11_functions.cpp makes it).
use opencie_pkcs.Base.{
  ℕ, Bool, true, false, List, ltb, length, Result, ok, throw, logged_error, crash, if◌then◌else◌,
  ◌>>=◌,
}
use opencie_pkcs.Util.Array.{left, copy}

pub data Buffer : Type 0 where
  null_buffer : ℕ → Buffer
  memory : List ℕ → Buffer

abbrev pub size : Buffer → ℕ
size (null_buffer n) = n
size (memory bytes) = length bytes

abbrev pub is_null : Buffer → Bool
is_null (null_buffer n) = true
is_null (memory bytes) = false

-- `left` on either.
unfoldable pub left_part : Buffer → ℕ → Result Buffer
left_part (null_buffer n) k = if ltb n k then throw logged_error else ok (null_buffer k)
left_part (memory bytes) k = left bytes k >>= λ part. ok (memory part)

-- `copy` into memory. A null pointer is never written to.
unfoldable pub copy_in : Buffer → List ℕ → Result Buffer
copy_in (null_buffer n) src = throw crash
copy_in (memory bytes) src = copy bytes src 0 >>= λ all. ok (memory all)

-- ===== src/Base/Words.antt =====
-- Machine words, and their bytes in memory. The host is little endian.
use Prim.Native.Nat.{ℕ, zero, suc, ◌+◌, ◌*◌, ◌/◌, ◌%◌, ◌^◌, ◌<◌}
use mathlib.Core.Path.{◌≡◌, refl}
use mathlib.Core.List.{List, [], ◌∷◌}
use native.Mathlib.Omega.{arith}
use opencie_pkcs.Base.Lists.{length}

-- A uint32_t, and a size_t or CK_ULONG of the 64-bit build.
abbrev pub u32_mod : ℕ
u32_mod = 2 ^ 32

abbrev pub u64_mod : ℕ
u64_mod = 2 ^ 64

-- The first `k` bytes of `n`, lowest first.
unfoldable pub to_bytes : ℕ → ℕ → List ℕ
to_bytes zero n = []
to_bytes (suc k) n = (n % 256) ∷ to_bytes k (n / 256)

unfoldable pub from_bytes : List ℕ → ℕ
from_bytes [] = 0
from_bytes (b ∷ bs) = b + 256 * from_bytes bs

pub length-to_bytes : (k n : ℕ) → length (to_bytes k n) ≡ k
unfolding to_bytes
length-to_bytes zero n = refl
length-to_bytes (suc k) n = omega (arith, length-to_bytes k (n / 256))

pub from_bytes-to_bytes4 : (n : ℕ) → n < 2 ^ 32 → from_bytes (to_bytes 4 n) ≡ n
unfolding from_bytes to_bytes
from_bytes-to_bytes4 n h = omega arith

pub from_bytes-to_bytes8 : (n : ℕ) → n < 2 ^ 64 → from_bytes (to_bytes 8 n) ≡ n
unfolding from_bytes to_bytes
from_bytes-to_bytes8 n h = omega arith

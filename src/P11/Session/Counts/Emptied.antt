-- ===== src/P11/Session/Counts/Emptied.antt =====
-- Which sessions CloseAllSessions deletes.
use opencie_pkcs.Base.{ℕ, [], ◌∷◌, ◌==◌, if◌then◌else◌}
use opencie_pkcs.Base.Map.{Map, erase}
use opencie_pkcs.P11.State.{Session}

-- The map, without the sessions of the slot that another map lists.
erase_listed : ℕ → Map Session → Map Session → Map Session
erase_listed s [] xs = xs
erase_listed s ((h, v) ∷ m) xs =
    let rest = erase_listed s m in if v.slot == s then rest (erase h xs) else rest xs

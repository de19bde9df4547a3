-- ===== src/Card/Tests.antt =====
-- The theorems on failing cards, applied.
use opencie_pkcs.Base.{
  ℕ, ◌+◌, ◌≡◌, ◌<◌, Result, ok, throw, card_link_error, true, arith, ◌==◌, if◌then◌else◌,
}
use opencie_pkcs.Card.Retry.{retry, attempted, Failed, retry_lem}

-- A card that is put back before the third attempt. The state counts the attempts.
abbrev lifted_card : ℕ → ℕ → Result ℕ × ℕ
lifted_card n s = (if n == 3 then ok s else throw (card_link_error true), s + 1)

retry_lem_example :
    (k : ℕ) × ((k < 3)
      × ((retry lifted_card 3 0 ≡ attempted lifted_card k 0)
          × (((n : ℕ) → n < k → Failed (attempted lifted_card n 0))
              × (Failed (attempted lifted_card k 0) → k + 1 ≡ 3))))
retry_lem_example = retry_lem lifted_card 3 0 (omega arith)

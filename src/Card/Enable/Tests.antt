-- ===== src/Card/Enable/Tests.antt =====
-- The theorems on CardAuthenticateEx, applied to the card of the PIN manager's tests.
use opencie_pkcs.Base.{◌≤◌, true, [], arith}
use opencie_pkcs.Card.PinManager.{return}
use opencie_pkcs.Card.PinManager.Tests.{counting_card, law, old_pin, new_pin}
use opencie_pkcs.Card.Enable.{authenticate_with_retry}
use opencie_pkcs.Card.Enable.Once.{Final, authenticate_with_retry-tries}

comparing : Final (counting_card.verify_pin new_pin)
unfolding Final
comparing s e q = absurd (ground arith)

authenticate_with_retry-tries_example :
    (authenticate_with_retry counting_card (λ s. true) (return []) new_pin (4, old_pin)).1.0 ≤ 5
authenticate_with_retry-tries_example =
    authenticate_with_retry-tries counting_card (λ s. s.0) law (λ s. true) (return []) new_pin
      (4, old_pin) comparing

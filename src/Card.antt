-- ===== src/Card.antt =====
-- What the code below the card template knows of failing cards.
pub mod Retry
pub mod Io
pub mod Token
pub mod Ias
pub mod Errors
pub mod Atr
pub mod PinManager
pub mod Enable
pub mod Sod
pub mod Tests

-- ===== src/P11.antt =====
-- pkcs11/src/pkcs11: slots, sessions, objects and mechanisms of the PKCS#11 module.
pub mod Constants
pub mod State
pub mod Object
pub mod Slot
pub mod Session
pub mod Buffer
pub mod Mechanism
pub mod Functions
pub mod Tests

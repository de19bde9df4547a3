-- ===== src/Sdk.antt =====
-- sign-sdk: the ASN.1 objects that the signing library is built on.
pub mod Object
pub mod Sequence
pub mod Scalars
pub mod Certificate

-- ===== src/External.antt =====
-- The third-party crates that the modelled code calls, as records of operations with the laws that
-- the code relies on, and a concrete instance of each for the tests.
pub mod Cids
pub mod Multi
pub mod Crypto

-- ===== src/Doc.antt =====
-- src/doc.rs: DID documents, their verification methods and their proof. The types stand in Types,
-- the crates that the code calls in Crates, the operations in Method, Operations, Proving and
-- Extension.
pub mod Types
pub mod Crates
pub mod Method
pub mod Operations
pub mod Proving
pub mod Extension
pub mod Methods
pub mod Validity
pub mod Signing
pub mod Tests

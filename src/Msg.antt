-- ===== src/Msg.antt =====
-- src/msg.rs: signed messages, their envelopes and the replay guard. The types stand in Types, the
-- crates that the code calls in Crates, the operations in Check, Create, Replay and Seal.
pub mod Types
pub mod Crates
pub mod Check
pub mod Create
pub mod Replay
pub mod Seal
pub mod Fresh
pub mod Window
pub mod Signed
pub mod Opened
pub mod Guarded
pub mod Tests

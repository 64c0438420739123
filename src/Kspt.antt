-- ===== src/Kspt.antt =====
-- The compact KSPT v1 envelope, src/transaction/interchange/kspt/wire.
pub mod Model
pub mod Reader
pub mod Writer
pub mod Encode
pub mod Fields
pub mod Decode
pub mod Grammar
mod Tests

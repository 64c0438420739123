-- ===== src/Planning.antt =====
-- The arithmetic of planning a transaction: amounts, mass, fees and the choice of UTXOs,
-- src/transaction/mass.rs and src/transaction/builder.
pub mod Errors
pub mod Amounts
pub mod Mass
pub mod Withdraw
pub mod Selection
pub mod Change
mod Tests

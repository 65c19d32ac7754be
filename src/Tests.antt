-- ===== src/Tests.antt =====
-- Runs of the definitions and of the theorems at concrete inputs.
pub mod World
pub mod Written
pub mod Habs
pub mod Signers
pub mod Messages
pub mod Codec
pub mod Composing
pub mod Kevers
pub mod Delegates
pub mod Thresholds
pub mod Escrows
pub mod Drivers
pub mod Saids
pub mod Stores

-- ===== src/Tests.antt =====
-- A small service, and the theorems of the other modules on it.
pub mod Ascii
pub mod Service
pub mod Flags
pub mod Members
pub mod Groups
pub mod Dice

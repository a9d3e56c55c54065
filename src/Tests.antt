-- ===== src/Tests.antt =====
-- Concrete runs of the code that the theorems are applied to.
pub mod Disasm
pub mod Gdb
pub mod Memory
pub mod Search
pub mod Session
pub mod Symbols
pub mod Tools

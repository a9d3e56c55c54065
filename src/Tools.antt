-- ===== src/Tools.antt =====
-- tools/ and stop_watcher.py: what the agent calls, and the watcher that runs beside it.
pub mod Quiesce
pub mod Matching
pub mod Breakpoints
pub mod Order
pub mod Reachable
pub mod Watcher
pub mod Execution
pub mod Modes
pub mod Ends
pub mod Memory
pub mod Disasm
pub mod Step
pub mod Compound

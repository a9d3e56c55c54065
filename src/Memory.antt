-- ===== src/Memory.antt =====
-- memory/: address routing and the two memory backends.
pub mod Routing
pub mod Attach

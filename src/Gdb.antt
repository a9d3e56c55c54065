-- ===== src/Gdb.antt =====
-- gdb/: the GDB remote-protocol client, register numbers and stop replies.
pub mod Socket
pub mod Stub
pub mod Packets
pub mod Acks
pub mod Commands
pub mod Execution
pub mod Diagnostics
pub mod Registers
pub mod StopReply

-- ===== src/Disasm.antt =====
-- disasm/ppc.py: decoded instructions. Capstone is a parameter, a function from bytes to the
-- instructions that it decodes.
pub mod Mnemonics
pub mod Operands
pub mod Decode
pub mod Pairs

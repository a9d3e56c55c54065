-- ===== src/Disasm/Decode.antt =====
-- disasm/ppc.py: `DisasmInstruction` and `disasm_bytes`.
use dolphin_re_mcp.Prelude.{
  ℕ, ◌-◌, ◌%◌, Bool, true, false, Option, none, some, List, [], ◌∷◌, map, length, take, drop,
  is_empty, if◌then◌else◌,
}
use dolphin_re_mcp.Prelude.Int.{ℤ, ◌-ℤ◌, pos_part, mask32}
use dolphin_re_mcp.Prelude.Dict.{Dict}
use dolphin_re_mcp.Prelude.Text.{Text, Bytes, to_hex, word32}
use dolphin_re_mcp.Disasm.Mnemonics.{
  InstructionKind, load, store, branch, branch_cond, branch_link, classify,
}
use dolphin_re_mcp.Disasm.Operands.{parse_branch_target, compute_effective_address}

pub record DisasmInstruction : Type 0 where
  pub pc : ℤ
  pub bytes_hex : Text
  pub mnemonic : Text
  pub operands : Text
  pub kind : InstructionKind
  pub ea : Option ℕ
  pub imm_value : Option ℕ
  pub branch_target : Option ℤ

-- What Capstone gives for an instruction.
pub record Decoded : Type 0 where
  pub address : ℤ
  pub mnemonic : Text
  pub op_str : Text

-- `cs.disasm(blob, pc)`
abbrev pub Capstone : Type 0
Capstone = Bytes → ℤ → List Decoded

abbrev pub has_target : InstructionKind → Bool
has_target branch = true
has_target branch_cond = true
has_target branch_link = true
has_target _ = false

abbrev pub is_memory_op : InstructionKind → Bool
is_memory_op load = true
is_memory_op store = true
is_memory_op _ = false

-- The registers, if they were supplied and are not empty.
abbrev pub address_with : Text → Option (Dict Text ℕ) → Option ℕ
address_with op_str none = none
address_with op_str (some []) = none
address_with op_str (some (g ∷ gprs)) = compute_effective_address op_str (g ∷ gprs)

unfoldable pub instruction_of : ℤ → Bytes → Option (Dict Text ℕ) → Decoded → DisasmInstruction
instruction_of pc blob gprs insn =
    let kind = classify insn.mnemonic in
    record {
      pc = insn.address;
      bytes_hex = to_hex (take 4 (drop (pos_part (insn.address -ℤ pc)) blob));
      mnemonic = insn.mnemonic;
      operands = insn.op_str;
      kind = kind;
      ea = if is_memory_op kind then address_with insn.op_str gprs else none;
      imm_value = none;
      branch_target = if has_target kind then parse_branch_target insn.op_str else none;
    }

-- Instructions take four bytes; a rest is cut off.
abbrev pub aligned : Bytes → Bytes
aligned blob = take (length blob - length blob % 4) blob

-- `disasm_bytes(pc, blob, gprs)`
unfoldable pub disasm_bytes : Capstone → ℤ → Bytes → Option (Dict Text ℕ) → List DisasmInstruction
disasm_bytes cs pc blob gprs =
    if is_empty blob then [] else map (instruction_of pc (aligned blob) gprs) (cs (aligned blob) pc)

-- `insn_word_to_bytes(word)`
unfoldable pub insn_word_to_bytes : ℤ → Bytes
insn_word_to_bytes word = word32 (mask32 word)

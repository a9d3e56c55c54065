-- ===== src/Disasm/Pairs.antt =====
-- disasm/ppc.py: `post_process_imm_load_pairs`, which joins `lis` with the `addi`, `subi` or `ori`
-- that completes a 32-bit value.
pub mod Runs
pub mod Parsing
pub mod Waiting
pub mod Values
pub mod Clobbered
use Prim.Native.Nat.{bit_or}
use dolphin_re_mcp.Prelude.{
  ℕ, ◌+◌, ◌*◌, ◌^◌, String, Bool, true, false, not, ◌&&◌, Option, none, some, List, [], ◌∷◌, leb,
  if◌then◌else◌, is_empty, drop,
}
use dolphin_re_mcp.Prelude.Int.{ℤ, pos, ◌+ℤ◌, ◌-ℤ◌, mask16, mask32}
use dolphin_re_mcp.Prelude.Text.{
  Text, codes, eq_text, starts_with, strip, lower, split_once, parse_int,
}
use dolphin_re_mcp.Disasm.Mnemonics.{imm_load_pair, is_in}
use dolphin_re_mcp.Disasm.Operands.{operands_of, sign_extend}
use dolphin_re_mcp.Disasm.Decode.{DisasmInstruction}

abbrev pub lis_parts : List Text → Option (Text × ℕ)
lis_parts (dst ∷ imm ∷ []) = elim (parse_int 0 imm) [ none ↦ none | some n ↦ some (dst, mask16 n) ]
lis_parts _ = none

-- `_parse_lis(op_str)`
unfoldable pub parse_lis : Text → Option (Text × ℕ)
parse_lis op_str = lis_parts (operands_of op_str)

-- A third operand that is no number counts as 0.
abbrev pub or_zero : Option ℤ → ℤ
or_zero none = pos 0
or_zero (some n) = n

pub record ThreeOp : Type 0 where
  pub dst : Text
  pub src : Text
  pub imm : ℤ

abbrev pub three_parts : List Text → Option ThreeOp
three_parts (dst ∷ src ∷ imm ∷ []) =
    some (record { dst = dst; src = src; imm = or_zero (parse_int 0 imm) })
three_parts _ = none

-- `_parse_three_op(op_str)`
unfoldable pub parse_three_op : Text → Option ThreeOp
parse_three_op op_str = three_parts (operands_of op_str)

-- `s.isdigit()`
unfoldable pub all_digits : Text → Bool
all_digits [] = true
all_digits (c ∷ s) = (leb b'0' c && leb c b'9') && all_digits s

abbrev pub is_register : Text → Bool
is_register name =
    starts_with name (codes "r") && (not (is_empty (drop 1 name)) && all_digits (drop 1 name))

abbrev pub register_or_none : Option (Text × Text) → Option Text
register_or_none none = none
register_or_none (some (first, rest)) =
    if is_register (strip first) then some (strip first) else none

-- `_first_destination_register(op_str)`
unfoldable pub first_destination_register : Text → Option Text
first_destination_register op_str = register_or_none (split_once b',' op_str)

-- The high halves that wait for their low half, by register.
abbrev pub Pending : Type 0
Pending = Text → Option ℕ

unfoldable pub keep_pending : Text → ℕ → Pending → Pending
keep_pending dst hi pending r = if eq_text r dst then some hi else pending r

unfoldable pub drop_pending : Text → Pending → Pending
drop_pending dst pending r = if eq_text r dst then none else pending r

-- The value of a high half and the low half of `addi`, `subi` or `ori`.
unfoldable pub joined_value : Text → ℕ → ℤ → ℕ
joined_value mnem hi imm =
    if eq_text mnem (codes "ori")
    then bit_or hi (mask16 imm)
    else if eq_text mnem (codes "subi")
    then mask32 (pos hi -ℤ sign_extend imm)
    else mask32 (pos hi +ℤ sign_extend imm)

abbrev pub tagged : DisasmInstruction → ℕ → DisasmInstruction
tagged ins value = record ins { kind = imm_load_pair; imm_value = some value }

abbrev pub after_lis : Option (Text × ℕ) → Pending → Pending
after_lis none pending = pending
after_lis (some (dst, hi)) pending = keep_pending dst (hi * 2 ^ 16) pending

abbrev pub finish :
    DisasmInstruction → Text → ThreeOp → Pending → Option ℕ → DisasmInstruction × Pending
finish ins mnem op pending none = (ins, pending)
finish ins mnem op pending (some hi) =
    (tagged ins (joined_value mnem hi op.imm), drop_pending op.dst pending)

abbrev pub combine :
    DisasmInstruction → Text → Option ThreeOp → Pending → DisasmInstruction × Pending
combine ins mnem none pending = (ins, pending)
combine ins mnem (some op) pending =
    finish ins mnem op pending (if eq_text op.src op.dst then pending op.dst else none)

abbrev pub invalidate : Option Text → Pending → Pending
invalidate none pending = pending
invalidate (some dst) pending = drop_pending dst pending

abbrev pub combining : List String
combining = "addi" ∷ "subi" ∷ "ori" ∷ []

-- One instruction of the walk: the instruction with its tag, and what is pending behind it.
unfoldable pub pair_step : DisasmInstruction → Pending → DisasmInstruction × Pending
pair_step ins pending =
    let mnem = lower ins.mnemonic in
    if eq_text mnem (codes "lis")
    then (ins, after_lis (parse_lis ins.operands) pending)
    else if is_in mnem combining
    then combine ins mnem (parse_three_op ins.operands) pending
    else (ins, invalidate (first_destination_register ins.operands) pending)

unfoldable pub pairs_from : List DisasmInstruction → Pending → List DisasmInstruction
pairs_from [] pending = []
pairs_from (ins ∷ insns) pending =
    let (ins', pending') = pair_step ins pending in ins' ∷ pairs_from insns pending'

-- `post_process_imm_load_pairs(insns)`, the list afterwards.
unfoldable pub post_process_imm_load_pairs : List DisasmInstruction → List DisasmInstruction
post_process_imm_load_pairs insns = pairs_from insns (λ r. none)

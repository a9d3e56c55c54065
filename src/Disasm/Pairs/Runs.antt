-- ===== src/Disasm/Pairs/Runs.antt =====
-- What the instructions of the walk do to the registers when the processor runs them.
use Prim.Native.Nat.{bit_or}
use dolphin_re_mcp.Prelude.{
  ℕ, ◌+◌, ◌*◌, ◌%◌, ◌^◌, ◌≡◌, refl, ◌≢◌, ◌≤◌, ◌⊎◌, ◌++◌, All, true, some, List, [], ◌∷◌, arith, inl,
  inr, Bool-cases, if◌then◌else◌,
}
use dolphin_re_mcp.Prelude.Int.{ℤ, pos, negsuc, ◌+ℤ◌, ◌-ℤ◌, ◌≤ℤ◌, ◌<ℤ◌, mask16, mask32}
use dolphin_re_mcp.Prelude.Text.{Text, codes, eq_text, lower, parse_int, IsSolid, Lacks}
use dolphin_re_mcp.Disasm.Operands.{sign_extend}
use dolphin_re_mcp.Disasm.Operands.Addresses.{exts, add_field}
use dolphin_re_mcp.Disasm.Decode.{DisasmInstruction}
use dolphin_re_mcp.Disasm.Pairs.{joined_value}

-- The general registers, by name, as words of 32 bits.
abbrev pub Registers : Type 0
Registers = Text → ℕ

-- What the processor computes from a register and an immediate field: `addi` adds the extended
-- field, `subi` is `addi` of the negated number, `ori` does not extend.
abbrev pub computed : Text → ℕ → ℤ → ℕ
computed mnem a imm =
    if eq_text mnem (codes "ori")
    then bit_or a (mask16 imm)
    else if eq_text mnem (codes "subi")
    then (a + exts (mask16 (pos 0 -ℤ imm))) % 2 ^ 32
    else (a + exts (mask16 imm)) % 2 ^ 32

-- Numbers that an instruction has a field for, as they are printed: with a sign, or, but for
-- `subi`, as the 16 bits.
abbrev pub HasField : Text → ℤ → Type 0
HasField mnem imm =
    (pos 0 -ℤ pos 0x8000 ≤ℤ imm)
    × (imm ≤ℤ pos 0xffff)
    × (eq_text mnem (codes "subi") ≡ true → (pos 0 -ℤ pos 0x8000 <ℤ imm) × (imm <ℤ pos 0x8000))

sub_field :
    (a : ℕ) (imm : ℤ)
    → pos 0 -ℤ pos 0x8000 <ℤ imm
    → imm <ℤ pos 0x8000
    → mask32 (pos a -ℤ sign_extend imm) ≡ (a + exts (mask16 (pos 0 -ℤ imm))) % 2 ^ 32
unfolding mask32 mask16 sign_extend ◌+ℤ◌ ◌-ℤ◌
sub_field a (pos n) low high = ground arith
sub_field a (negsuc n) low high = ground arith

-- The value that the code gives is the one that the processor computes.
pub joined_value-computed :
    (mnem : Text) (a : ℕ) (imm : ℤ)
    → HasField mnem imm
    → joined_value mnem a imm ≡ computed mnem a imm
unfolding joined_value
joined_value-computed mnem a imm (low, high, narrow) =
    elim (Bool-cases (eq_text mnem (codes "ori"))) [
      | inl is_ori ↦ rw is_ori refl
      | inr not_ori ↦ elim (Bool-cases (eq_text mnem (codes "subi"))) [
        | inl is_subi ↦
            rw (not_ori, is_subi) (sub_field a imm (narrow is_subi).0 (narrow is_subi).1)
        | inr not_subi ↦ rw (not_ori, not_subi) (add_field a imm low high)
      ]
    ]

-- A register gets a value, and the others stay.
abbrev pub Sets : Text → ℕ → Registers → Registers → Type 0
Sets dst value before after = (after dst ≡ value) × ((r : Text) → r ≢ dst → after r ≡ before r)

-- The name of a general register.
abbrev pub IsDigit : ℕ → Type 0
IsDigit c = (b'0' ≤ c) × (c ≤ b'9')

abbrev pub IsRegister : Text → Type 0
IsRegister [] = ⊥
IsRegister (c ∷ []) = ⊥
IsRegister (c ∷ d ∷ s) = (c ≡ b'r') × All IsDigit (d ∷ s)

-- The text of an operand has no space and no comma.
abbrev pub IsOperand : Text → Type 0
IsOperand s = All IsSolid s × Lacks b',' s

-- Operands as Capstone prints them.
abbrev pub two_operands : Text → Text → Text
two_operands a b = a ++ b',' ∷ (b' ' ∷ b)

abbrev pub three_operands : Text → Text → Text → Text
three_operands a b c = a ++ b',' ∷ (b' ' ∷ (b ++ b',' ∷ (b' ' ∷ c)))

abbrev pub IsCombining : Text → Type 0
IsCombining mnem = (mnem ≡ codes "addi") ⊎ (mnem ≡ codes "subi") ⊎ (mnem ≡ codes "ori")

-- `lis`: the number is the high half of the register.
pub record LoadsHigh (ins : DisasmInstruction) (before after : Registers) : Type 0 where
  pub dst : Text
  pub imm : Text
  pub number : ℤ
  pub is_lis : lower ins.mnemonic ≡ codes "lis"
  pub printed : ins.operands ≡ two_operands dst imm
  pub into : IsRegister dst
  pub solid : IsOperand imm
  pub reads : parse_int 0 imm ≡ some number
  pub sets : Sets dst (mask16 number * 2 ^ 16) before after

-- `addi`, `subi` or `ori`: the register is computed from another one, or itself.
pub record Combines (ins : DisasmInstruction) (before after : Registers) : Type 0 where
  pub dst : Text
  pub src : Text
  pub imm : Text
  pub number : ℤ
  pub is_combining : IsCombining (lower ins.mnemonic)
  pub printed : ins.operands ≡ three_operands dst src imm
  pub into : IsRegister dst
  pub from : IsRegister src
  pub solid : IsOperand imm
  pub reads : parse_int 0 imm ≡ some number
  pub field : HasField (lower ins.mnemonic) number
  pub sets : Sets dst (computed (lower ins.mnemonic) (before src) number) before after

-- Another instruction with a comma in its operands: it writes at most what stands in front of it.
pub record WritesFirst (ins : DisasmInstruction) (before after : Registers) : Type 0 where
  pub first : Text
  pub rest : Text
  pub no_lis : lower ins.mnemonic ≢ codes "lis"
  pub no_combining : ¬ IsCombining (lower ins.mnemonic)
  pub printed : ins.operands ≡ first ++ b',' ∷ rest
  pub no_comma : Lacks b',' first
  pub same : (r : Text) → r ≢ first → after r ≡ before r

-- Another instruction: it writes no register.
pub record WritesNone (ins : DisasmInstruction) (before after : Registers) : Type 0 where
  pub no_lis : lower ins.mnemonic ≢ codes "lis"
  pub no_combining : ¬ IsCombining (lower ins.mnemonic)
  pub same : (r : Text) → after r ≡ before r

-- What running an instruction does to the registers.
abbrev pub Executes : DisasmInstruction → Registers → Registers → Type 0
Executes ins before after =
    LoadsHigh ins before after
    ⊎ Combines ins before after
    ⊎ WritesFirst ins before after
    ⊎ WritesNone ins before after

-- A run, with the registers behind each instruction.
abbrev pub Runs : List DisasmInstruction → Registers → List Registers → Type 0
Runs [] before [] = Unit
Runs [] before (_ ∷ _) = ⊥
Runs (ins ∷ insns) before [] = ⊥
Runs (ins ∷ insns) before (after ∷ states) = Executes ins before after × Runs insns after states

-- ===== src/Disasm/Operands.antt =====
-- disasm/ppc.py: branch targets and effective addresses, read off Capstone's operand text.
pub mod Addresses
use dolphin_re_mcp.Prelude.{
  ℕ, ◌+◌, ◌-◌, ◌%◌, ◌^◌, Bool, true, false, ◌&&◌, Option, none, some, List, [], ◌∷◌, map, leb,
  if◌then◌else◌, length, take,
}
use dolphin_re_mcp.Prelude.Int.{ℤ, pos, ◌+ℤ◌, ◌-ℤ◌, mask32}
use dolphin_re_mcp.Prelude.Dict.{Dict, lookup}
use dolphin_re_mcp.Prelude.Text.{
  Text, codes, eq_text, starts_with, ends_with, strip, split_on, split_once, parse_int,
}

-- `[p.strip() for p in op_str.split(",")]`
unfoldable pub operands_of : Text → List Text
operands_of op_str = map strip (split_on b',' op_str)

abbrev pub last_or_empty : List Text → Text
last_or_empty [] = []
last_or_empty (p ∷ []) = p
last_or_empty (p ∷ q ∷ ps) = last_or_empty (q ∷ ps)

-- `_parse_branch_target(op_str)`
unfoldable pub parse_branch_target : Text → Option ℤ
parse_branch_target op_str =
    let candidate = last_or_empty (operands_of op_str) in
    if starts_with candidate (codes "0x") then parse_int 16 candidate else none

-- A positive 16-bit value with its high bit set stands for a negative number.
unfoldable pub sign_extend : ℤ → ℤ
sign_extend (pos n) = if leb 0x8000 n && leb n 0xffff then pos n -ℤ pos 0x10000 else pos n
sign_extend disp = disp

-- The text behind the destination register.
abbrev pub behind_first : Text → Option (Text × Text) → Text
behind_first op_str none = strip op_str
behind_first op_str (some (dst, rest)) = strip rest

abbrev pub base_of : Text → Dict Text ℕ → Option ℕ
base_of reg gprs =
    if eq_text reg (codes "0")
    then some 0
    else elim (lookup eq_text reg gprs) [ none ↦ none | some v ↦ some (v % 2 ^ 32) ]

abbrev pub displaced : Option ℤ → Option ℕ → Option ℕ
displaced (some disp) (some base) = some (mask32 (pos base +ℤ sign_extend disp))
displaced _ _ = none

-- `reg` still has the closing parenthesis.
abbrev pub displacement_form : Text → Text → Dict Text ℕ → Option ℕ
displacement_form imm reg gprs =
    displaced (parse_int 0 (strip imm)) (base_of (strip (take (length reg - 1) reg)) gprs)

abbrev pub sum_of : Option ℕ → Option ℕ → Option ℕ
sum_of (some a) (some b) = some ((a + b) % 2 ^ 32)
sum_of _ _ = none

abbrev pub indexed_form : List Text → Dict Text ℕ → Option ℕ
indexed_form (ra ∷ rb ∷ []) gprs =
    sum_of (if eq_text ra (codes "0") then some 0 else lookup eq_text ra gprs)
      (lookup eq_text rb gprs)
indexed_form _ gprs = none

abbrev pub address_of : Text → Option (Text × Text) → Dict Text ℕ → Option ℕ
address_of rhs none gprs = indexed_form (operands_of rhs) gprs
address_of rhs (some (imm, reg)) gprs =
    if ends_with rhs (codes ")")
    then displacement_form imm reg gprs
    else indexed_form (operands_of rhs) gprs

-- `compute_effective_address(op_str, gprs)`
unfoldable pub compute_effective_address : Text → Dict Text ℕ → Option ℕ
compute_effective_address op_str gprs =
    let rhs = behind_first op_str (split_once b',' op_str) in
    address_of rhs (split_once b'(' rhs) gprs

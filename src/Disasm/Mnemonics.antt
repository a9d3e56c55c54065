-- ===== src/Disasm/Mnemonics.antt =====
-- disasm/ppc.py: the kinds of instructions and the tables of mnemonics.
pub mod Dots
use dolphin_re_mcp.Prelude.{
  String, Bool, true, false, ◌&&◌, ◌||◌, List, [], ◌∷◌, map, drop, if◌then◌else◌,
}
use dolphin_re_mcp.Prelude.Text.{Text, codes, eq_text, mem_text, starts_with, lower, rstrip_char}

pub data InstructionKind : Type 0 where
  load store branch branch_cond branch_link branch_return : InstructionKind
  imm_load imm_load_pair fp_arith int_arith cmp syscall nop other : InstructionKind

abbrev pub load_mnems : List String
load_mnems =
    "lwz" ∷ "lwzu" ∷ "lwzx" ∷ "lwzux" ∷ "lbz" ∷ "lbzu" ∷ "lbzx" ∷ "lbzux" ∷ "lhz" ∷ "lhzu" ∷ "lhzx"
    ∷ "lhzux" ∷ "lha" ∷ "lhau" ∷ "lhax" ∷ "lhaux" ∷ "lwa" ∷ "ld" ∷ "ldu" ∷ "ldx" ∷ "ldux" ∷ "lmw"
    ∷ "lfd" ∷ "lfdu" ∷ "lfdx" ∷ "lfdux" ∷ "lfs" ∷ "lfsu" ∷ "lfsx" ∷ "lfsux" ∷ "psq_l" ∷ "psq_lu"
    ∷ []

abbrev pub store_mnems : List String
store_mnems =
    "stw" ∷ "stwu" ∷ "stwx" ∷ "stwux" ∷ "stb" ∷ "stbu" ∷ "stbx" ∷ "stbux" ∷ "sth" ∷ "sthu" ∷ "sthx"
    ∷ "sthux" ∷ "std" ∷ "stdu" ∷ "stdx" ∷ "stdux" ∷ "stmw" ∷ "stfd" ∷ "stfdu" ∷ "stfdx" ∷ "stfdux"
    ∷ "stfs" ∷ "stfsu" ∷ "stfsx" ∷ "stfsux" ∷ "psq_st" ∷ "psq_stu" ∷ []

abbrev pub int_arith_mnems : List String
int_arith_mnems =
    "add" ∷ "addc" ∷ "adde" ∷ "addi" ∷ "addic" ∷ "addic." ∷ "addis" ∷ "addme" ∷ "addze" ∷ "and"
    ∷ "andc" ∷ "andi." ∷ "andis." ∷ "divw" ∷ "divwu" ∷ "extsb" ∷ "extsh" ∷ "extsw" ∷ "mulhw"
    ∷ "mulhwu" ∷ "mulli" ∷ "mullw" ∷ "nand" ∷ "neg" ∷ "nor" ∷ "or" ∷ "orc" ∷ "ori" ∷ "oris"
    ∷ "rlwimi" ∷ "rlwinm" ∷ "rlwnm" ∷ "slw" ∷ "sraw" ∷ "srawi" ∷ "srw" ∷ "sub" ∷ "subc" ∷ "subf"
    ∷ "subfc" ∷ "subfe" ∷ "subfic" ∷ "subfme" ∷ "subfze" ∷ "xor" ∷ "xori" ∷ "xoris" ∷ []

abbrev pub fp_arith_mnems : List String
fp_arith_mnems =
    "fabs" ∷ "fadd" ∷ "fadds" ∷ "fcfid" ∷ "fctid" ∷ "fctidz" ∷ "fctiw" ∷ "fctiwz" ∷ "fdiv" ∷ "fdivs"
    ∷ "fmadd" ∷ "fmadds" ∷ "fmr" ∷ "fmsub" ∷ "fmsubs" ∷ "fmul" ∷ "fmuls" ∷ "fnabs" ∷ "fneg"
    ∷ "fnmadd" ∷ "fnmadds" ∷ "fnmsub" ∷ "fnmsubs" ∷ "fres" ∷ "frsp" ∷ "frsqrte" ∷ "fsel" ∷ "fsqrt"
    ∷ "fsqrts" ∷ "fsub" ∷ "fsubs" ∷ "fcmpo" ∷ "fcmpu" ∷ "ps_add" ∷ "ps_sub" ∷ "ps_mul" ∷ "ps_div"
    ∷ "ps_madd" ∷ "ps_msub" ∷ "ps_nmadd" ∷ "ps_nmsub" ∷ "ps_neg" ∷ "ps_mr" ∷ "ps_abs" ∷ "ps_sum0"
    ∷ "ps_sum1" ∷ "ps_muls0" ∷ "ps_muls1" ∷ "ps_madds0" ∷ "ps_madds1" ∷ "ps_cmpu0" ∷ "ps_cmpu1" ∷ []

abbrev pub cmp_mnems : List String
cmp_mnems = "cmp" ∷ "cmpw" ∷ "cmpwi" ∷ "cmpl" ∷ "cmplw" ∷ "cmplwi" ∷ []

abbrev pub branch_cond_mnems : List String
branch_cond_mnems =
    "bc" ∷ "bcl" ∷ "bca" ∷ "bcla" ∷ "bne" ∷ "beq" ∷ "blt" ∷ "ble" ∷ "bgt" ∷ "bge" ∷ "bnl" ∷ "bng"
    ∷ "bso" ∷ "bns" ∷ "bun" ∷ "bnu" ∷ "bne+" ∷ "beq+" ∷ "blt+" ∷ "ble+" ∷ "bgt+" ∷ "bge+" ∷ "bne-"
    ∷ "beq-" ∷ "blt-" ∷ "ble-" ∷ "bgt-" ∷ "bge-" ∷ "bdz" ∷ "bdnz" ∷ "bdzf" ∷ "bdnzf" ∷ "bdzt"
    ∷ "bdnzt" ∷ []

abbrev pub uncond_branch_mnems : List String
uncond_branch_mnems = "b" ∷ "ba" ∷ []

abbrev pub branch_link_mnems : List String
branch_link_mnems = "bl" ∷ "bla" ∷ "bctrl" ∷ "blrl" ∷ "bcctrl" ∷ "bclrl" ∷ []

abbrev pub branch_return_mnems : List String
branch_return_mnems = "blr" ∷ "bctr" ∷ "bclr" ∷ []

-- The conditions that may follow a `b`.
abbrev pub conditions : List String
conditions = "ne" ∷ "eq" ∷ "lt" ∷ "le" ∷ "gt" ∷ "ge" ∷ "nl" ∷ "ng" ∷ "so" ∷ "ns" ∷ "un" ∷ "nu" ∷ []

abbrev pub is_in : Text → List String → Bool
is_in m names = mem_text m (map codes names)

-- The kind of a mnemonic in lower case and without its record dot.
unfoldable pub classify_plain : Text → InstructionKind
classify_plain m =
    if is_in m load_mnems
    then load
    else if is_in m store_mnems
    then store
    else if is_in m uncond_branch_mnems
    then branch
    else if is_in m branch_link_mnems
    then branch_link
    else if is_in m branch_return_mnems
    then branch_return
    else if is_in m branch_cond_mnems || (starts_with m (codes "b") && is_in (drop 1 m) conditions)
    then branch_cond
    else if is_in m ("li" ∷ "lis" ∷ [])
    then imm_load
    else if is_in m cmp_mnems
    then cmp
    else if is_in m fp_arith_mnems || (starts_with m (codes "f") || starts_with m (codes "ps_"))
    then fp_arith
    else if is_in m int_arith_mnems
    then int_arith
    else if is_in m ("sc" ∷ "rfi" ∷ "trap" ∷ "twi" ∷ "tw" ∷ [])
    then syscall
    else if eq_text m (codes "nop")
    then nop
    else other

-- `classify(mnem)`
unfoldable pub classify : Text → InstructionKind
classify mnem = classify_plain (rstrip_char b'.' (lower mnem))

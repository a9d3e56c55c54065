-- ===== src/Gdb/Registers.antt =====
-- gdb/registers.py: the numbers and the names of the registers, and the payload of `g`.
pub mod Words
use dolphin_re_mcp.Prelude.{
  ℕ, zero, suc, ◌+◌, ◌*◌, none, some, List, [], ◌∷◌, ◌++◌, ltb, ◌==◌, if◌then◌else◌, length, take,
  drop,
}
use dolphin_re_mcp.Prelude.Dict.{Dict, lookup}
use dolphin_re_mcp.Prelude.Text.{Text, Bytes, codes, decimal_nat, big_endian}

abbrev pub pc_num : ℕ
pc_num = 0x40

abbrev pub msr_num : ℕ
msr_num = 0x41

abbrev pub cr_num : ℕ
cr_num = 0x42

abbrev pub lr_num : ℕ
lr_num = 0x43

abbrev pub ctr_num : ℕ
ctr_num = 0x44

abbrev pub xer_num : ℕ
xer_num = 0x45

-- `f"r{i}"`, `f"f{i}"`
abbrev pub numbered : ℕ → ℕ → Text
numbered c i = c ∷ decimal_nat i

-- `REG_NAMES.setdefault(base + i, …) for i in range(n)`, behind the entries that are there.
unfoldable pub set_defaults : ℕ → ℕ → ℕ → Dict ℕ Text → Dict ℕ Text
set_defaults c base zero names = names
set_defaults c base (suc n) names =
    let rest = set_defaults c base n names in
    elim (lookup ◌==◌ (base + n) rest) [
      | none ↦ rest ++ (base + n, numbered c n) ∷ []
      | some _ ↦ rest
    ]

unfoldable pub reg_names : Dict ℕ Text
unfolding set_defaults
reg_names = set_defaults b'f' 0x20 32 (
    set_defaults b'r' 0 32 (
      (1, codes "sp")
      ∷ (pc_num, codes "pc")
      ∷ (msr_num, codes "msr")
      ∷ (cr_num, codes "cr")
      ∷ (lr_num, codes "lr")
      ∷ (ctr_num, codes "ctr")
      ∷ (xer_num, codes "xer")
      ∷ []))

-- `{v: k for k, v in REG_NAMES.items()}`
abbrev swapped : Dict ℕ Text → Dict Text ℕ
swapped [] = []
swapped ((k, v) ∷ d) = (v, k) ∷ swapped d

unfoldable pub reg_nums : Dict Text ℕ
unfolding reg_names
reg_nums = swapped reg_names

-- The loop of `parse_dolphin_gprs` from register `i` on, with the registers that are left.
unfoldable pub gprs_from : ℕ → ℕ → Bytes → List (Text × ℕ)
gprs_from i zero blob = []
gprs_from i (suc n) blob =
    let rest = gprs_from (suc i) n blob in
    if ltb (length blob) (i * 4 + 4)
    then []
    else (numbered b'r' i, big_endian (take 4 (drop (i * 4) blob))) ∷ rest

unfoldable pub parse_dolphin_gprs : Bytes → Dict Text ℕ
unfolding gprs_from
parse_dolphin_gprs blob = gprs_from 0 32 blob

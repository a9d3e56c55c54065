-- ===== src/Tests/Disasm.antt =====
-- Instructions of a game, as Capstone prints them.
use dolphin_re_mcp.Prelude.{
  ℕ, ◌+◌, ◌%◌, ◌^◌, ◌≡◌, ◌≢◌, refl, ap, ◌∙◌, arith, inl, inr, Bool-cases, none, some, [], ◌∷◌,
  get_elem?, if◌then◌else◌,
}
use dolphin_re_mcp.Prelude.Int.{ℤ, pos, negsuc, ◌-ℤ◌, mask16}
use dolphin_re_mcp.Prelude.Dict.{Dict}
use dolphin_re_mcp.Prelude.Text.{
  Text, codes, eq_text, eq_text_iff, split_on, strip, lstrip, parse_int,
}
use dolphin_re_mcp.Disasm.Mnemonics.{other}
use dolphin_re_mcp.Disasm.Operands.{compute_effective_address, operands_of}
use dolphin_re_mcp.Disasm.Operands.Addresses.{exts, compute_effective_address_lem}
use dolphin_re_mcp.Disasm.Decode.{DisasmInstruction}
use dolphin_re_mcp.Disasm.Pairs.{post_process_imm_load_pairs, tagged}
use dolphin_re_mcp.Disasm.Pairs.Runs.{Registers, Sets, HasField, IsRegister, IsOperand, Executes}
use dolphin_re_mcp.Disasm.Pairs.Parsing.{operands_of-three, IsRegister-IsOperand}
use dolphin_re_mcp.Disasm.Pairs.Values.{AllTags, AllClean, post_process-AllTags}
use dolphin_re_mcp.Disasm.Pairs.Clobbered.{Overwritten, stale_value, post_process-overwritten}

-- The registers of a load from the small data area.
abbrev gprs : Dict Text ℕ
gprs = (codes "r1", 0x8059a1b0) ∷ (codes "r13", 0x806b8000) ∷ []

compute_effective_address_lem_example :
    compute_effective_address (codes "r3, -0x4a2c(r13)") gprs
    ≡ some ((0x806b8000 + exts (mask16 (negsuc 0x4a2b))) % 2 ^ 32)
unfolding eq_text parse_int ◌-ℤ◌
compute_effective_address_lem_example =
    compute_effective_address_lem (codes "r3") (codes "-0x4a2c") (codes "r13") (negsuc 0x4a2b)
      0x806b8000 gprs (refl, (refl, tt)) (refl, (refl, (refl, (refl, (refl, (refl, (refl, tt)))))))
      (refl, (refl, (refl, (refl, (refl, (refl, (refl, tt))))))) (refl, (refl, (refl, tt))) refl
      (omega arith) (omega arith) refl

-- An instruction without a tag.
abbrev instruction : ℤ → Text → Text → DisasmInstruction
instruction at mnemonic operands = record {
  pc = at;
  bytes_hex = [];
  mnemonic = mnemonic;
  operands = operands;
  kind = other;
  ea = none;
  imm_value = none;
  branch_target = none;
}

abbrev load_high : DisasmInstruction
load_high = instruction (pos 0x80004300) (codes "lis") (codes "r3, 0x8059")

abbrev add_low : DisasmInstruction
add_low = instruction (pos 0x80004304) (codes "addi") (codes "r3, r3, -0x5e50")

abbrev add_other : DisasmInstruction
add_other = instruction (pos 0x80004304) (codes "addi") (codes "r3, r4, 0x10")

abbrev set : Text → ℕ → Registers → Registers
set dst value regs r = if eq_text r dst then value else regs r

set-Sets : (dst : Text) (value : ℕ) (regs : Registers) → Sets dst value regs (set dst value regs)
set-Sets dst value regs = (
  rw ((eq_text_iff dst dst).1 refl) refl,
  λ r other. elim (Bool-cases (eq_text r dst)) [
    | inl q ↦ absurd (other ((eq_text_iff r dst).0 q))
    | inr q ↦ rw q refl
  ],
)

abbrev reset : Registers
reset r = 0

abbrev loaded : Registers
loaded = set (codes "r3") 0x80590000 reset

-- The decimals of a register's name, and a text of an immediate.
abbrev r3_IsRegister : IsRegister (codes "r3")
r3_IsRegister = (refl, ((omega arith, omega arith), tt))

load_high-runs : Executes load_high reset loaded
unfolding parse_int mask16
load_high-runs = inl (record {
  dst = codes "r3";
  imm = codes "0x8059";
  number = pos 0x8059;
  is_lis = refl;
  printed = refl;
  into = r3_IsRegister;
  solid = (
    (refl, (refl, (refl, (refl, (refl, (refl, tt)))))),
    (refl, (refl, (refl, (refl, (refl, (refl, tt)))))),
  );
  reads = refl;
  sets = set-Sets (codes "r3") 0x80590000 reset;
})

low_IsOperand : IsOperand (codes "-0x5e50")
low_IsOperand = (
  (refl, (refl, (refl, (refl, (refl, (refl, (refl, tt))))))),
  (refl, (refl, (refl, (refl, (refl, (refl, (refl, tt))))))),
)

field : HasField (codes "addi") (negsuc 0x5e4f)
unfolding eq_text ◌-ℤ◌
field = (omega arith, omega arith, λ e. cc)

add_low-runs : Executes add_low loaded (set (codes "r3") 0x8058a1b0 loaded)
unfolding parse_int mask16 ◌-ℤ◌ eq_text
add_low-runs = inr (
    inl (record {
      dst = codes "r3";
      src = codes "r3";
      imm = codes "-0x5e50";
      number = negsuc 0x5e4f;
      is_combining = inl refl;
      printed = refl;
      into = r3_IsRegister;
      from = r3_IsRegister;
      solid = low_IsOperand;
      reads = refl;
      field = field;
      sets = set-Sets (codes "r3") 0x8058a1b0 loaded;
    }))

clean : AllClean (load_high ∷ add_low ∷ []) (λ r. none)
unfolding operands_of split_on strip lstrip
clean = (
  (λ dst src imm name to from solid printed other. refl),
  (
    (λ dst src imm name to from solid printed other.
        let read : codes "r3" ∷ codes "r3" ∷ codes "-0x5e50" ∷ [] ≡ dst ∷ src ∷ imm ∷ [] =
          ap operands_of printed
          ∙ operands_of-three dst src imm (IsRegister-IsOperand dst to)
              (IsRegister-IsOperand src from) solid in
        let same : src ≡ dst = cc read in absurd (other same)),
    tt,
  ),
)

post_process-AllTags_example :
    AllTags
      (post_process_imm_load_pairs (load_high ∷ add_low ∷ []))
      (loaded ∷ set (codes "r3") 0x8058a1b0 loaded ∷ [])
post_process-AllTags_example =
    post_process-AllTags (load_high ∷ add_low ∷ []) reset
      (loaded ∷ set (codes "r3") 0x8058a1b0 loaded ∷ []) (refl, (refl, tt)) clean
      (load_high-runs, (add_low-runs, tt))

abbrev add_low_again : DisasmInstruction
add_low_again = instruction (pos 0x80004308) (codes "addi") (codes "r3, r3, -0x5e50")

abbrev copied : Registers
copied = set (codes "r3") 0x10 loaded

overwritten :
    Overwritten load_high add_other add_low_again
      (codes "r3")
      (codes "r4")
      (pos 0x8059)
      (pos 0x10)
      (negsuc 0x5e4f)
unfolding parse_int eq_text
overwritten = record {
  high = codes "0x8059";
  low = codes "-0x5e50";
  other = codes "0x10";
  is_lis = refl;
  printed_lis = refl;
  is_addi = refl;
  printed = refl;
  differ = λ e. cc ((eq_text_iff (codes "r4") (codes "r3")).1 e);
  is_addi_again = refl;
  printed_again = refl;
  into = r3_IsRegister;
  from = (refl, ((omega arith, omega arith), tt));
  solid = (
    (
      (refl, (refl, (refl, (refl, (refl, (refl, tt)))))),
      (refl, (refl, (refl, (refl, (refl, (refl, tt)))))),
    ),
    ((refl, (refl, (refl, (refl, tt)))), (refl, (refl, (refl, (refl, tt))))),
    low_IsOperand,
  );
  read_high = refl;
  read_other = refl;
  read_low = refl;
  field = field;
}

post_process-overwritten_example :
    (get_elem? (post_process_imm_load_pairs (load_high ∷ add_other ∷ add_low_again ∷ [])) 2
      ≡ some (tagged add_low_again (stale_value (pos 0x8059) (negsuc 0x5e4f))))
    × (set (codes "r3") 0xffffa1c0 copied (codes "r3") ≢ stale_value (pos 0x8059) (negsuc 0x5e4f))
unfolding eq_text mask16 ◌-ℤ◌
post_process-overwritten_example =
    post_process-overwritten load_high add_other add_low_again (codes "r3") (codes "r4")
      (pos 0x8059) (pos 0x10) (negsuc 0x5e4f) overwritten [] [] loaded copied
      (set (codes "r3") 0xffffa1c0 copied) (set-Sets (codes "r3") 0x10 loaded)
      (set-Sets (codes "r3") 0xffffa1c0 copied) (λ e. cc)

-- ===== src/Tools/Disasm.antt =====
-- tools/disasm_tools.py: `disasm`, over Capstone and the table of symbols that is loaded.
use dolphin_re_mcp.Prelude.{
  ℕ, Bool, true, false, Option, none, some, List, [], ◌∷◌, ◌++◌, map, if◌then◌else◌,
}
use dolphin_re_mcp.Prelude.Int.{ℤ, pos, ◌*ℤ◌, leb_ℤ}
use dolphin_re_mcp.Prelude.Dict.{Dict}
use dolphin_re_mcp.Prelude.Text.{Text, Bytes, codes}
use dolphin_re_mcp.Exec.{Exec, pure, catch, ◌>>=◌, ◌>>◌}
use dolphin_re_mcp.Symbols.{SymbolMap, name_of}
use dolphin_re_mcp.Disasm.Decode.{DisasmInstruction, Capstone, disasm_bytes}
use dolphin_re_mcp.Disasm.Pairs.{post_process_imm_load_pairs}
use dolphin_re_mcp.Session.{Session, Environment, ensure_connected, mem_read, is_exception}
use dolphin_re_mcp.Tools.Execution.{get_gprs}

-- An instruction as it is reported, with the comment on its target.
pub record Line : Type 0 where
  pub instruction : DisasmInstruction
  pub comment : Option Text

abbrev pub or_else : {A : Type 0} → Option A → Option A → Option A
or_else (some a) other = some a
or_else none other = other

abbrev pub as_integer : Option ℕ → Option ℤ
as_integer none = none
as_integer (some n) = some (pos n)

-- The target that a comment names: the branch target, else the value, else the address.
unfoldable pub target_of : DisasmInstruction → Option ℤ
target_of ins = or_else ins.branch_target (or_else (as_integer ins.imm_value) (as_integer ins.ea))

abbrev pub arrow : Option Text → Option Text
arrow none = none
arrow (some display) = some (codes "-> " ++ display)

abbrev pub comment_on : SymbolMap → Option ℤ → Option Text
comment_on symbols none = none
comment_on symbols (some target) = arrow (name_of symbols target)

-- `_annotate_targets(insns)`
unfoldable pub annotate_targets : SymbolMap → List DisasmInstruction → List Line
annotate_targets symbols insns =
    map (λ ins. record { instruction = ins; comment = comment_on symbols (target_of ins) }) insns

-- `try: gprs = _get_gprs()`
abbrev pub registers_if : Environment → Bool → Exec Session (Option (Dict Text ℕ))
registers_if env false = pure none
registers_if env true = catch (get_gprs env >>= λ g. pure (some g)) is_exception (pure none)

module _ (cs : Capstone) (symbols : SymbolMap) where
  abbrev pub decode : ℤ → Bytes → Option (Dict Text ℕ) → List Line
  decode addr blob gprs =
      annotate_targets symbols (post_process_imm_load_pairs (disasm_bytes cs addr blob gprs))

  -- `disasm(addr, count, with_gprs)`
  unfoldable pub disasm : Environment → ℤ → ℤ → Bool → Exec Session (List Line)
  disasm env addr count with_gprs = if leb_ℤ count (pos 0) then pure [] else (do
    ensure_connected env
    blob ← mem_read env.host addr (count *ℤ pos 4)
    gprs ← registers_if env with_gprs
    pure (decode addr blob gprs))

  abbrev pub first_line : List Line → Option Line
  first_line [] = none
  first_line (line ∷ lines) = some line

  -- `_disasm_one_at(addr)`
  unfoldable pub disasm_one_at : Environment → ℤ → Exec Session (Option Line)
  disasm_one_at env addr =
      catch (disasm env addr (pos 1) false >>= λ lines. pure (first_line lines)) is_exception
        (pure none)

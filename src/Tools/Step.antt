-- ===== src/Tools/Step.antt =====
-- tools/execution_tools.py: `step`, `step_over` and `step_out`, which disassemble where they stop.
pub mod Connected
pub mod Temporary
pub mod Order
pub mod Undecoded
use dolphin_re_mcp.Prelude.{
  ℕ, ◌+◌, Bool, true, false, ◌&&◌, Option, none, some, List, [], ◌∷◌, if◌then◌else◌,
}
use dolphin_re_mcp.Prelude.Int.{ℤ, pos}
use dolphin_re_mcp.Prelude.Text.{Text, codes, eq_text, lower}
use dolphin_re_mcp.Errors.{attribute_error}
use dolphin_re_mcp.Exec.{Exec, pure, raise, modify, finally, ◌>>=◌, ◌>>◌}
use dolphin_re_mcp.Gdb.Execution.{step as step_stub, wait_for_stop}
use dolphin_re_mcp.Gdb.StopReply.{parse_stop_reply, pc, sp}
use dolphin_re_mcp.Disasm.Decode.{DisasmInstruction, Capstone}
use dolphin_re_mcp.Symbols.{SymbolMap}
use dolphin_re_mcp.Session.{Session, BreakpointSpec, Environment, on_stub, mark_paused}
use dolphin_re_mcp.Tools.Breakpoints.{add_breakpoint}
use dolphin_re_mcp.Tools.Disasm.{Line, disasm_one_at}
use dolphin_re_mcp.Tools.Execution.{begin, get_pc, get_lr, resume, pc_or_read, clean_up}

-- What the tools return.
pub record Stepped : Type 0 where
  pub raw : Text
  pub at : ℤ
  pub stack_pointer : Option ℤ
  pub instruction : Option Line

abbrev pub is_some : {A : Type 0} → Option A → Bool
is_some none = false
is_some (some a) = true

-- `mnem == "bl" and insn.get("branch_target") is not None`
unfoldable pub is_call : DisasmInstruction → Bool
is_call ins = eq_text (lower ins.mnemonic) (codes "bl") && is_some ins.branch_target

module _ (cs : Capstone) (symbols : SymbolMap) (env : Environment) where
  -- From the stop reply on: the pc, read if the reply has none, and the instruction there.
  unfoldable pub stepped : Text → Exec Session Stepped
  stepped raw = do
    at ← pc_or_read env (pc (parse_stop_reply raw))
    line ← disasm_one_at cs symbols env at
    pure (record {
      raw = raw;
      at = at;
      stack_pointer = sp (parse_stop_reply raw);
      instruction = line;
    })

  unfoldable pub step_and_stop : Exec Session Stepped
  step_and_stop = do raw ← on_stub (step_stub (some 5_000_000)); modify mark_paused; stepped raw

  -- `step()`
  unfoldable pub step : Exec Session Stepped
  step = do begin env; step_and_stop

  -- A run to the next stop, in the `try` of `step_over` and `step_out`.
  unfoldable pub run_and_stop : ℕ → Exec Session Stepped
  run_and_stop timeout = do
    resume env
    raw ← on_stub (wait_for_stop (some timeout))
    modify mark_paused
    stepped raw

  abbrev pub stop_and_clean : ℕ → BreakpointSpec → Exec Session Stepped
  stop_and_clean timeout bp = finally (run_and_stop timeout) (clean_up env bp)

  -- A run to a breakpoint that is set for it alone.
  unfoldable pub run_to : ℤ → ℕ → Exec Session Stepped
  run_to addr timeout = do bp ← add_breakpoint env addr; stop_and_clean timeout bp

  abbrev pub call_or_step : ℕ → Bool → Exec Session Stepped
  call_or_step at true = run_to (pos (at + 4)) 10_000_000
  call_or_step at false = step

  -- `insn.get(…)` fails where there is no instruction.
  abbrev pub over_line : ℕ → Option Line → Exec Session Stepped
  over_line at none = raise attribute_error
  over_line at (some line) = call_or_step at (is_call line.instruction)

  -- `step_over()`
  unfoldable pub step_over : Exec Session Stepped
  step_over = do
    begin env
    at ← get_pc env
    line ← disasm_one_at cs symbols env (pos at)
    over_line at line

  -- `step_out()`
  unfoldable pub step_out : Exec Session Stepped
  step_out = do begin env; lr ← get_lr env; run_to (pos lr) 30_000_000

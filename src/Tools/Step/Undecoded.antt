-- ===== src/Tools/Step/Undecoded.antt =====
-- `step_over` where the instruction cannot be read.
use dolphin_re_mcp.Prelude.{ℕ, ◌≡◌, refl, true, false, some, none}
use dolphin_re_mcp.Prelude.Int.{pos, ◌*ℤ◌}
use dolphin_re_mcp.Errors.{Error, err, ok, attribute_error}
use dolphin_re_mcp.Gdb.Stub.{Stub}
use dolphin_re_mcp.Gdb.Registers.{pc_num}
use dolphin_re_mcp.Gdb.Commands.{read_register}
use dolphin_re_mcp.Symbols.{SymbolMap}
use dolphin_re_mcp.Disasm.Decode.{Capstone}
use dolphin_re_mcp.Session.{Session, Environment, mem_read, is_exception, is_watching}
use dolphin_re_mcp.Tools.Execution.{begin, refuse_if_watcher_running, get_pc, get_register}
use dolphin_re_mcp.Tools.Execution.Ends.{Connected}
use dolphin_re_mcp.Tools.Disasm.{disasm, disasm_one_at}
use dolphin_re_mcp.Tools.Step.{step_over}
use dolphin_re_mcp.Tools.Execution.Quiet.{ensure_connected-stays}

begin-stays :
    (env : Environment) (s : Session)
    → Connected s
    → is_watching s.watcher ≡ false
    → begin env s ≡ (ok tt, s)
unfolding begin refuse_if_watcher_running
begin-stays env s c free = rw (ensure_connected-stays env s c) (rw free refl)

get_pc-reads :
    (env : Environment) (s : Session) (at : ℕ) (u : Stub)
    → Connected s
    → is_watching s.watcher ≡ false
    → read_register pc_num s.stub ≡ (ok (some at), u)
    → get_pc env s ≡ (ok at, record s { stub = u })
unfolding get_pc get_register
get_pc-reads env s at u c free reads = rw (begin-stays env s c free) (rw reads refl)

module _ (cs : Capstone) (symbols : SymbolMap) (env : Environment) where
  disasm_one_at-unread :
      (at : ℕ) (s t : Session) (e : Error)
      → Connected s
      → mem_read env.host (pos at) (pos 4) s ≡ (err e, t)
      → is_exception e ≡ true
      → disasm_one_at cs symbols env (pos at) s ≡ (ok none, t)
  unfolding disasm_one_at disasm ◌*ℤ◌
  disasm_one_at-unread at s t e c fails caught =
      rw (ensure_connected-stays env s c) (rw fails (rw caught refl))

  -- In a connected session without a watcher, where the pc can be read but the memory there cannot,
  -- stepping over raises AttributeError: it neither steps nor sets a breakpoint.
  pub step_over-undecoded :
      (s t : Session) (u : Stub) (at : ℕ) (e : Error)
      → Connected s
      → is_watching s.watcher ≡ false
      → read_register pc_num s.stub ≡ (ok (some at), u)
      → mem_read env.host (pos at) (pos 4) (record s { stub = u }) ≡ (err e, t)
      → is_exception e ≡ true
      → step_over cs symbols env s ≡ (err attribute_error, t)
  unfolding step_over
  step_over-undecoded s t u at e c free reads fails caught = rw (begin-stays env s c free) (
      rw (get_pc-reads env s at u c free reads)
        (rw (disasm_one_at-unread at (record s { stub = u }) t e c fails caught) refl))

-- ===== src/Tools/Step/Order.antt =====
-- The tools that step keep the registry in good order.
use dolphin_re_mcp.Prelude.{ℕ, ◌+◌, Bool, true, false, Option, none, some}
use dolphin_re_mcp.Prelude.Int.{ℤ, pos}
use dolphin_re_mcp.Exec.{modify}
use dolphin_re_mcp.Exec.Along.{Along}
use dolphin_re_mcp.Gdb.Execution.{step as step_stub}
use dolphin_re_mcp.Symbols.{SymbolMap}
use dolphin_re_mcp.Disasm.Decode.{Capstone}
use dolphin_re_mcp.Session.{Environment, on_stub, mark_paused}
use dolphin_re_mcp.Tools.Order.{KeepsOrder, order_stay, order_bind}
use dolphin_re_mcp.Tools.Execution.{begin, get_pc, get_lr}
use dolphin_re_mcp.Tools.Execution.Quiet.{
  Quietly, quiet_bind, begin-quiet, get_pc-quiet, get_lr-quiet, on_stub-quiet, mark_paused-quiet,
}
use dolphin_re_mcp.Tools.Execution.Order.{quiet-order, temporary-order, begin-order}
use dolphin_re_mcp.Tools.Disasm.{Line, disasm_one_at}
use dolphin_re_mcp.Tools.Step.{
  is_call, stepped, step_and_stop, step, run_and_stop, run_to, call_or_step, over_line, step_over,
  step_out,
}
use dolphin_re_mcp.Tools.Step.Connected.{run_and_stop-quiet, disasm_one_at-quiet, stepped-quiet}

module _ (cs : Capstone) (symbols : SymbolMap) (env : Environment) where
  pub step-quiet : Along Quietly (step cs symbols env)
  unfolding step step_and_stop
  step-quiet = quiet_bind (begin env) _ (begin-quiet env) λ _.
      quiet_bind (on_stub (step_stub (some 5_000_000))) _
        (on_stub-quiet (step_stub (some 5_000_000)))
        λ raw.
          quiet_bind (modify mark_paused) (λ _. stepped cs symbols env raw) mark_paused-quiet
            λ _. stepped-quiet cs symbols env raw

  pub step-order : Along KeepsOrder (step cs symbols env)
  step-order = quiet-order (step cs symbols env) step-quiet

  run_to-order : (addr : ℤ) (timeout : ℕ) → Along KeepsOrder (run_to cs symbols env addr timeout)
  unfolding run_to
  run_to-order addr timeout =
      temporary-order env addr (run_and_stop cs symbols env timeout)
        (run_and_stop-quiet cs symbols env timeout)

  call_or_step-order : (at : ℕ) (b : Bool) → Along KeepsOrder (call_or_step cs symbols env at b)
  call_or_step-order at true = run_to-order (pos (at + 4)) 10_000_000
  call_or_step-order at false = step-order

  over_line-order : (at : ℕ) (o : Option Line) → Along KeepsOrder (over_line cs symbols env at o)
  over_line-order at none = order_stay
  over_line-order at (some line) = call_or_step-order at (is_call line.instruction)

  pub step_over-order : Along KeepsOrder (step_over cs symbols env)
  unfolding step_over
  step_over-order = order_bind (begin env) _ (begin-order env) λ _.
      order_bind (get_pc env) _ (quiet-order (get_pc env) (get_pc-quiet env)) λ at.
        order_bind (disasm_one_at cs symbols env (pos at)) _
          (quiet-order (disasm_one_at cs symbols env (pos at))
            (disasm_one_at-quiet cs symbols env (pos at)))
          (over_line-order at)

  pub step_out-order : Along KeepsOrder (step_out cs symbols env)
  unfolding step_out
  step_out-order = order_bind (begin env) _ (begin-order env) λ _.
      order_bind (get_lr env) _ (quiet-order (get_lr env) (get_lr-quiet env))
        λ lr. run_to-order (pos lr) 30_000_000

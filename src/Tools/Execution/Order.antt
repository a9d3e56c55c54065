-- ===== src/Tools/Execution/Order.antt =====
-- Pausing, resuming and running to an address keep the registry in good order.
use dolphin_re_mcp.Prelude.{ℕ, refl, Bool, true, false, Option, none, some}
use dolphin_re_mcp.Prelude.Int.{ℤ}
use dolphin_re_mcp.Prelude.Text.{Text}
use dolphin_re_mcp.Exec.{Exec, pure, finally, ◌>>=◌, modify}
use dolphin_re_mcp.Exec.Along.{Along, Along-catch, Along-finally}
use dolphin_re_mcp.Gdb.Commands.{probe_responsive}
use dolphin_re_mcp.Gdb.StopReply.{parse_stop_reply}
use dolphin_re_mcp.Session.{
  Session, SessionState, disconnected, connected_paused, connected_running, error, Environment,
  on_stub, mark_paused, is_exception,
}
use dolphin_re_mcp.Session.Registry.{SameRegistry, same_bind, on_stub-same}
use dolphin_re_mcp.Tools.Order.{
  KeepsOrder, order_stay, order_next, order_bind, SameRegistry-KeepsOrder, add_breakpoint-order,
  remove-order,
}
use dolphin_re_mcp.Tools.Execution.Quiet.{
  Quietly, begin-quiet, get_pc-quiet, resume-quiet, run_to_stop-quiet,
}
use dolphin_re_mcp.Tools.Quiesce.{wedged}
use dolphin_re_mcp.Tools.Quiesce.Untouched.{mark_paused-same}
use dolphin_re_mcp.Tools.Breakpoints.{add_breakpoint, remove}
use dolphin_re_mcp.Tools.Execution.{
  already_paused, stopped, begin, get_pc, interrupt_twice, stopped_or_raise, interrupt_if_alive,
  pause_in, pause, resume, run_to_stop, run_until, clean_up, run_and_clean,
}

pub quiet-order : {A : Type 0} (m : Exec Session A) → Along Quietly m → Along KeepsOrder m
quiet-order m quiet s = SameRegistry-KeepsOrder s (m s).1 (quiet s).0

stopped_or_raise-same : (o : Option Text) → Along SameRegistry (stopped_or_raise o)
stopped_or_raise-same none s = (refl, refl)
stopped_or_raise-same (some reply) s =
    same_bind (modify mark_paused) (λ _. pure (stopped (parse_stop_reply reply))) mark_paused-same
      (λ _ t. (refl, refl)) s

interrupt_if_alive-same : (b : Bool) → Along SameRegistry (interrupt_if_alive b)
unfolding wedged
interrupt_if_alive-same false s = (refl, refl)
interrupt_if_alive-same true s =
    same_bind (on_stub interrupt_twice) stopped_or_raise (on_stub-same interrupt_twice)
      stopped_or_raise-same s

probing-same : Along SameRegistry (on_stub (probe_responsive 500_000) >>= interrupt_if_alive)
probing-same =
    same_bind (on_stub (probe_responsive 500_000)) interrupt_if_alive
      (on_stub-same (probe_responsive 500_000)) interrupt_if_alive-same

pause_in-same : (env : Environment) (state : SessionState) → Along SameRegistry (pause_in env state)
pause_in-same env connected_paused s =
    same_bind (get_pc env) (λ v. pure (already_paused v)) (λ t. (get_pc-quiet env t).0)
      (λ v t. (refl, refl)) s
pause_in-same env connected_running s = probing-same s
pause_in-same env disconnected s = probing-same s
pause_in-same env error s = probing-same s

pub pause-order : (env : Environment) → Along KeepsOrder (pause env)
unfolding pause
pause-order env s = SameRegistry-KeepsOrder s (pause env s).1 (
    same_bind (begin env) (λ _ t. pause_in env t.state t) (λ t. (begin-quiet env t).0)
      (λ _ t. pause_in-same env t.state t) s)

pub resume-order : (env : Environment) → Along KeepsOrder (resume env)
resume-order env = quiet-order (resume env) (resume-quiet env)

-- A run to a breakpoint that is set for it alone.
pub temporary-order :
    {A : Type 0} (env : Environment) (addr : ℤ) (body : Exec Session A)
    → Along Quietly body
    → Along KeepsOrder (add_breakpoint env addr >>= λ bp. finally body (clean_up env bp))
temporary-order env addr body quiet =
    order_bind (add_breakpoint env addr) (λ bp. finally body (clean_up env bp))
      (add_breakpoint-order env addr)
      λ bp.
        Along-finally KeepsOrder order_stay order_next body (clean_up env bp)
          (quiet-order body quiet)
          (Along-catch KeepsOrder order_stay order_next (remove env bp.bp_id >>= λ _. pure tt)
            is_exception (pure tt)
            (order_bind (remove env bp.bp_id) (λ _. pure tt) (remove-order env bp.bp_id)
              λ _. order_stay)
            order_stay)

pub begin-order : (env : Environment) → Along KeepsOrder (begin env)
begin-order env = quiet-order (begin env) (begin-quiet env)

pub run_until-order :
    (env : Environment) (addr : ℤ) (timeout : ℕ) → Along KeepsOrder (run_until env addr timeout)
unfolding run_until
run_until-order env addr timeout =
    order_bind (begin env) (λ _. add_breakpoint env addr >>= run_and_clean env addr timeout)
      (begin-order env)
      λ _.
        temporary-order env addr (run_to_stop env addr timeout) (run_to_stop-quiet env addr timeout)

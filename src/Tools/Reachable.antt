-- ===== src/Tools/Reachable.antt =====
-- The tools and the rounds of the watcher take turns under the session's lock. Any order of them,
-- from a new session on, is a run.
use dolphin_re_mcp.Prelude.{ℕ, Bool, Option, List}
use dolphin_re_mcp.Prelude.Int.{ℤ}
use dolphin_re_mcp.Prelude.Text.{Text}
use dolphin_re_mcp.Symbols.{SymbolMap}
use dolphin_re_mcp.Disasm.Decode.{Capstone}
use dolphin_re_mcp.Gdb.Stub.{Stub}
use dolphin_re_mcp.Session.{
  Session, Capture, Environment, ensure_connected, disconnect, new_session,
}
use dolphin_re_mcp.Session.WellFormed.{WellFormed}
use dolphin_re_mcp.Tools.Breakpoints.{
  add_breakpoint, add_watchpoint, remove, remove_all, wait_for_hit, capture_on_hit,
  clear_capture_log, stop_capturing,
}
use dolphin_re_mcp.Tools.Order.{
  KeepsOrder, ensure_connected-order, add_breakpoint-order, add_watchpoint-order, remove-order,
  remove_all-order, wait_for_hit-order, capture_on_hit-order, clear_capture_log-order,
  stop_capturing-order, disconnect-order,
}
use dolphin_re_mcp.Tools.Execution.{pause, resume, run_until}
use dolphin_re_mcp.Tools.Execution.Order.{pause-order, resume-order, run_until-order}
use dolphin_re_mcp.Tools.Step.{step, step_over, step_out}
use dolphin_re_mcp.Tools.Step.Order.{step-order, step_over-order, step_out-order}
use dolphin_re_mcp.Tools.Compound.{trace_until, trace_writes_to, trace_calls_to}
use dolphin_re_mcp.Tools.Compound.Order.{
  trace_until-order, trace_writes_to-order, trace_calls_to-order,
}
use dolphin_re_mcp.Tools.Watcher.{watch}
use dolphin_re_mcp.Tools.Watcher.Turns.{watch-order}

module _ (cs : Capstone) (symbols : SymbolMap) (env : Environment)
    (eval_condition : Text → Capture → Bool) where
  -- A tool that is called, whether it returns or raises, or a round of the watcher.
  pub data Turn : Session → Session → Type 0 where
    connects : (s : Session) → Turn s (ensure_connected env s).1
    disconnects : (send_detach : Bool) (s : Session) → Turn s (disconnect send_detach s).1
    adds_breakpoint : (addr : ℤ) (s : Session) → Turn s (add_breakpoint env addr s).1
    adds_watchpoint :
        (addr size : ℤ) (on : Text) (s : Session) → Turn s (add_watchpoint env addr size on s).1
    removes : (bp_id : ℕ) (s : Session) → Turn s (remove env bp_id s).1
    removes_all : (s : Session) → Turn s (remove_all env s).1
    waits : (timeout : ℕ) (s : Session) → Turn s (wait_for_hit env timeout s).1
    captures :
        (bp_id : ℕ) (keys : List Text) (auto_resume : Bool) (s : Session)
        → Turn s (capture_on_hit env bp_id keys auto_resume s).1
    clears : (bp_id : ℕ) (s : Session) → Turn s (clear_capture_log bp_id s).1
    stops : (bp_id : Option ℕ) (s : Session) → Turn s (stop_capturing bp_id s).1
    pauses : (s : Session) → Turn s (pause env s).1
    resumes : (s : Session) → Turn s (resume env s).1
    runs : (addr : ℤ) (timeout : ℕ) (s : Session) → Turn s (run_until env addr timeout s).1
    steps : (s : Session) → Turn s (step cs symbols env s).1
    steps_over : (s : Session) → Turn s (step_over cs symbols env s).1
    steps_out : (s : Session) → Turn s (step_out cs symbols env s).1
    traces :
        (until_pc : Option ℤ) (until_blr : Bool) (max_steps : ℤ) (capture : List Text) (s : Session)
        → Turn s (trace_until cs symbols env until_pc until_blr max_steps capture s).1
    traces_writes :
        (addr size duration : ℤ) (keys : List Text) (rounds : ℕ) (s : Session)
        → Turn s (trace_writes_to env eval_condition addr size duration keys rounds s).1
    traces_calls :
        (entry_addr duration : ℤ) (keys : List Text) (rounds : ℕ) (s : Session)
        → Turn s (trace_calls_to env eval_condition entry_addr duration keys rounds s).1
    watcher_acts : (s : Session) → Turn s (watch eval_condition s)

  pub data Reachable (stub : Stub) : Session → Type 0 where
    start : Reachable stub (new_session stub)
    turn : (s t : Session) → Reachable stub s → Turn s t → Reachable stub t

  Turn-order : (s t : Session) → Turn s t → KeepsOrder s t
  Turn-order s t (connects _) = ensure_connected-order env s
  Turn-order s t (disconnects send_detach _) = disconnect-order send_detach s
  Turn-order s t (adds_breakpoint addr _) = add_breakpoint-order env addr s
  Turn-order s t (adds_watchpoint addr size on _) = add_watchpoint-order env addr size on s
  Turn-order s t (removes bp_id _) = remove-order env bp_id s
  Turn-order s t (removes_all _) = remove_all-order env s
  Turn-order s t (waits timeout _) = wait_for_hit-order env timeout s
  Turn-order s t (captures bp_id keys auto_resume _) =
      capture_on_hit-order env bp_id keys auto_resume s
  Turn-order s t (clears bp_id _) = clear_capture_log-order bp_id s
  Turn-order s t (stops bp_id _) = stop_capturing-order bp_id s
  Turn-order s t (pauses _) = pause-order env s
  Turn-order s t (resumes _) = resume-order env s
  Turn-order s t (runs addr timeout _) = run_until-order env addr timeout s
  Turn-order s t (steps _) = step-order cs symbols env s
  Turn-order s t (steps_over _) = step_over-order cs symbols env s
  Turn-order s t (steps_out _) = step_out-order cs symbols env s
  Turn-order s t (traces until_pc until_blr max_steps capture _) =
      trace_until-order cs symbols env until_pc until_blr max_steps capture s
  Turn-order s t (traces_writes addr size duration keys rounds _) =
      trace_writes_to-order env eval_condition addr size duration keys rounds s
  Turn-order s t (traces_calls entry_addr duration keys rounds _) =
      trace_calls_to-order env eval_condition entry_addr duration keys rounds s
  Turn-order s t (watcher_acts _) = watch-order eval_condition s

  -- In every state that is reached, the ids of the breakpoints are different, each breakpoint is
  -- under its own id, and each id is below the next one to be given out.
  pub Reachable-WellFormed : (stub : Stub) (s : Session) → Reachable stub s → WellFormed s
  unfolding new_session
  Reachable-WellFormed stub s start = tt
  Reachable-WellFormed stub t (turn s _ r done) =
      Turn-order s t done (Reachable-WellFormed stub s r)

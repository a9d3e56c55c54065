-- ===== src/Tools/Ends.antt =====
-- No tool runs out of the fuel of its loops.
pub mod Breakpoints
pub mod Execution
pub mod Memory
pub mod Steps
pub mod Traces
use dolphin_re_mcp.Prelude.{ℕ, Bool, Option, List}
use dolphin_re_mcp.Prelude.Int.{ℤ}
use dolphin_re_mcp.Prelude.Text.{Text}
use dolphin_re_mcp.Symbols.{SymbolMap}
use dolphin_re_mcp.Disasm.Decode.{Capstone}
use dolphin_re_mcp.Session.{Session, Capture, Environment, ensure_connected}
use dolphin_re_mcp.Session.Proper.{Proper, Ends}
use dolphin_re_mcp.Session.Ends.{Bounded, ensure_connected-Ends}
use dolphin_re_mcp.Tools.Breakpoints.{
  add_breakpoint, add_watchpoint, remove, remove_all, wait_for_hit, capture_on_hit,
}
use dolphin_re_mcp.Tools.Execution.{pause, resume, run_until}
use dolphin_re_mcp.Tools.Step.{step, step_over, step_out}
use dolphin_re_mcp.Tools.Compound.{trace_until, trace_writes_to, trace_calls_to}
use dolphin_re_mcp.Tools.Memory.Search.{search_mem}
use Breakpoints.{
  add_breakpoint-Ends, add_watchpoint-Ends, remove-Ends, remove_all-Ends, wait_for_hit-Ends,
  capture_on_hit-Ends,
}
use Execution.{pause-Ends, resume-Ends, run_until-Ends}
use Steps.{step-Ends, step_over-Ends, step_out-Ends}
use Traces.{trace_until-Ends, trace_writes_to-Ends, trace_calls_to-Ends}
use Memory.{search_mem-Ends}

module _ (env : Environment) (bounded : Bounded env.host) (s : Session) where
  -- From any state and against any peer, where the system has no regions of memory from the limit of
  -- a process's address space on: connecting, setting and removing breakpoints, waiting, starting a
  -- capture and searching memory return or raise an exception of the program, so that each of their
  -- loops has enough fuel.
  pub registry-Proper :
      (addr size : ℤ) (bp_id timeout : ℕ) (on pattern region : Text) (keys : List Text)
      (auto_resume : Bool)
      → Proper (ensure_connected env s)
        × Proper (add_breakpoint env addr s)
        × Proper (add_watchpoint env addr size on s)
        × Proper (remove env bp_id s)
        × Proper (remove_all env s)
        × Proper (wait_for_hit env timeout s)
        × Proper (capture_on_hit env bp_id keys auto_resume s)
        × Proper (search_mem env pattern region s)
  registry-Proper addr size bp_id timeout on pattern region keys auto_resume = (
    ensure_connected-Ends env bounded s,
    add_breakpoint-Ends env bounded addr s,
    add_watchpoint-Ends env bounded addr size on s,
    remove-Ends env bounded bp_id s,
    remove_all-Ends env bounded s,
    wait_for_hit-Ends env bounded timeout s,
    capture_on_hit-Ends env bounded bp_id keys auto_resume s,
    search_mem-Ends env bounded pattern region s,
  )

  -- The same for pausing, resuming, runs to an address, steps and traces.
  execution-Proper :
      (cs : Capstone) (symbols : SymbolMap) (eval_condition : Text → Capture → Bool)
      (addr size duration max_steps : ℤ) (timeout rounds : ℕ) (until_pc : Option ℤ)
      (until_blr : Bool) (keys : List Text)
      → Proper (pause env s)
        × Proper (resume env s)
        × Proper (run_until env addr timeout s)
        × Proper (step cs symbols env s)
        × Proper (step_over cs symbols env s)
        × Proper (step_out cs symbols env s)
        × Proper (trace_until cs symbols env until_pc until_blr max_steps keys s)
        × Proper (trace_writes_to env eval_condition addr size duration keys rounds s)
        × Proper (trace_calls_to env eval_condition addr duration keys rounds s)
  execution-Proper cs symbols eval_condition addr size duration max_steps timeout rounds until_pc
        until_blr keys =
      (
        pause-Ends env bounded s,
        resume-Ends env bounded s,
        run_until-Ends env bounded addr timeout s,
        step-Ends cs symbols env bounded s,
        step_over-Ends cs symbols env bounded s,
        step_out-Ends cs symbols env bounded s,
        trace_until-Ends cs symbols env bounded until_pc until_blr max_steps keys s,
        trace_writes_to-Ends env eval_condition bounded addr size duration keys rounds s,
        trace_calls_to-Ends env eval_condition bounded addr duration keys rounds s,
      )

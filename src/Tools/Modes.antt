-- ===== src/Tools/Modes.antt =====
-- The states in which pausing, resuming and waiting leave the session.
use dolphin_re_mcp.Prelude.{ℕ}
use dolphin_re_mcp.Exec.Along.{OnReturn}
use dolphin_re_mcp.Session.{Session, Environment, connected_paused, connected_running}
use dolphin_re_mcp.Tools.Quiesce.Resumes.{InState}
use dolphin_re_mcp.Tools.Execution.{pause, resume}
use dolphin_re_mcp.Tools.Execution.Ends.{pause-OnReturn, resume-OnReturn}
use dolphin_re_mcp.Tools.Breakpoints.{wait_for_hit}
use dolphin_re_mcp.Tools.Breakpoints.Hits.{wait_for_hit-OnReturn}

-- Whatever state the session was in: a pause that returns leaves it paused, a resume that returns
-- leaves it running, and a wait that returns a hit leaves it paused.
pub modes-OnReturn :
    (env : Environment) (timeout : ℕ) (s : Session)
    → OnReturn (InState connected_paused) (pause env s)
      × OnReturn (InState connected_running) (resume env s)
      × OnReturn (InState connected_paused) (wait_for_hit env timeout s)
modes-OnReturn env timeout s =
    (pause-OnReturn env s, resume-OnReturn env s, wait_for_hit-OnReturn env timeout s)

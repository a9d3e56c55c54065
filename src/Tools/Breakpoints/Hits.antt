-- ===== src/Tools/Breakpoints/Hits.antt =====
-- The state that a wait for a hit ends in.
use dolphin_re_mcp.Prelude.{ℕ, refl, Bool, true, false, some}
use dolphin_re_mcp.Exec.Along.{OnReturn, OnReturn-bind, OnReturn-trivial}
use dolphin_re_mcp.Gdb.Execution.{wait_for_stop}
use dolphin_re_mcp.Session.{
  Session, SessionState, disconnected, connected_paused, connected_running, error, Environment,
  ensure_connected, on_stub, is_watching,
}
use dolphin_re_mcp.Tools.Quiesce.Resumes.{InState, on_stub-OnReturn, mark_paused-running}
use dolphin_re_mcp.Tools.Breakpoints.{await_hit, hit_when, hit_guard, wait_for_hit}

await_hit-OnReturn :
    (timeout : ℕ) (s : Session)
    → InState connected_running s
    → OnReturn (InState connected_paused) (await_hit timeout s)
unfolding await_hit
await_hit-OnReturn timeout s h =
    OnReturn-bind (InState connected_running) (InState connected_paused)
      (on_stub (wait_for_stop (some timeout))) _ s
      (on_stub-OnReturn (wait_for_stop (some timeout)) connected_running s h)
      λ raw t k. mark_paused-running t k

hit_when-OnReturn :
    (watching : Bool) (state : SessionState) (timeout : ℕ) (s : Session)
    → InState state s
    → OnReturn (InState connected_paused) (hit_when watching state timeout s)
hit_when-OnReturn true state timeout s h = tt
hit_when-OnReturn false connected_running timeout s h = await_hit-OnReturn timeout s h
hit_when-OnReturn false connected_paused timeout s h = tt
hit_when-OnReturn false disconnected timeout s h = tt
hit_when-OnReturn false error timeout s h = tt

-- A wait that returns a hit leaves the session paused, whatever state it was in.
pub wait_for_hit-OnReturn :
    (env : Environment) (timeout : ℕ) (s : Session)
    → OnReturn (InState connected_paused) (wait_for_hit env timeout s)
unfolding wait_for_hit hit_guard
wait_for_hit-OnReturn env timeout s =
    OnReturn-bind (λ t. Unit) (InState connected_paused) (ensure_connected env)
      (λ _. hit_guard timeout) s (OnReturn-trivial (ensure_connected env s))
      λ _ t _. hit_when-OnReturn (is_watching t.watcher) t.state timeout t refl

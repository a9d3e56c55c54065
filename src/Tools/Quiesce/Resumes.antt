-- ===== src/Tools/Quiesce/Resumes.antt =====
-- A modification leaves the target running if it was.
use dolphin_re_mcp.Prelude.{◌≡◌, refl, Bool, true, false}
use dolphin_re_mcp.Errors.{Result, ok, err}
use dolphin_re_mcp.Exec.{Exec, modify, ◌>>=◌, finally}
use dolphin_re_mcp.Exec.Along.{OnReturn, OnReturn-bind, OnReturn-finally}
use dolphin_re_mcp.Gdb.Stub.{Stub}
use dolphin_re_mcp.Gdb.Commands.{probe_responsive}
use dolphin_re_mcp.Gdb.Execution.{continue_async, drain_stop_replies}
use dolphin_re_mcp.Session.{
  Session, SessionState, disconnected, connected_paused, connected_running, error, on_stub,
  mark_paused, mark_running,
}
use dolphin_re_mcp.Tools.Quiesce.{
  quiesce_stub, quiesce_for_modify, wedged, unless_wedged, pause_for_modify, resume_after_modify,
  modify_when, safe_to_modify, is_running,
}

abbrev pub InState : SessionState → Session → Type 0
InState state t = t.state ≡ state

on_stub-OnReturn_at :
    {A : Type 0} (state : SessionState) (s : Session) (r : Result A × Stub)
    → InState state s
    → OnReturn (InState state) (r.0, record s { stub = r.1 })
on_stub-OnReturn_at state s (ok a, u) h = h
on_stub-OnReturn_at state s (err e, u) h = tt

pub on_stub-OnReturn :
    {A : Type 0} (m : Exec Stub A) (state : SessionState) (s : Session)
    → InState state s
    → OnReturn (InState state) (on_stub m s)
on_stub-OnReturn m state s h = on_stub-OnReturn_at state s (m s.stub) h

-- A call of the client and what it tells the session.
pub marked-OnReturn :
    {A : Type 0} (m : Exec Stub A) (f : Session → Session) (P Q : SessionState) (s : Session)
    → ((t : Session) → InState P t → InState Q (f t))
    → InState P s
    → OnReturn (InState Q) ((on_stub m >>= λ _. modify f) s)
marked-OnReturn m f P Q s step h =
    OnReturn-bind (InState P) (InState Q) (on_stub m) (λ _. modify f) s (on_stub-OnReturn m P s h)
      λ _ t k. step t k

pub mark_paused-running :
    (t : Session) → InState connected_running t → InState connected_paused (mark_paused t)
unfolding mark_paused
mark_paused-running t h = rw h refl

mark_paused-paused :
    (t : Session) → InState connected_paused t → InState connected_paused (mark_paused t)
unfolding mark_paused
mark_paused-paused t h = rw h refl

pub mark_running-paused :
    (t : Session) → InState connected_paused t → InState connected_running (mark_running t)
unfolding mark_running
mark_running-paused t h = rw h refl

unless_wedged-OnReturn :
    (b : Bool) (s : Session)
    → InState connected_running s
    → OnReturn (InState connected_paused) (unless_wedged b s)
unfolding wedged quiesce_for_modify
unless_wedged-OnReturn false s h = tt
unless_wedged-OnReturn true s h =
    OnReturn-bind (InState connected_paused) (InState connected_paused) quiesce_for_modify
      (λ _. on_stub (drain_stop_replies 100_000) >>= λ _. modify mark_paused) s
      (marked-OnReturn quiesce_stub mark_paused connected_running connected_paused s
        mark_paused-running h)
      λ _ t k.
        marked-OnReturn (drain_stop_replies 100_000) mark_paused connected_paused connected_paused t
          mark_paused-paused k

pause_for_modify-OnReturn :
    (s : Session)
    → InState connected_running s
    → OnReturn (InState connected_paused) (pause_for_modify s)
unfolding pause_for_modify
pause_for_modify-OnReturn s h =
    OnReturn-bind (InState connected_running) (InState connected_paused)
      (on_stub (probe_responsive 500_000)) unless_wedged s
      (on_stub-OnReturn (probe_responsive 500_000) connected_running s h) unless_wedged-OnReturn

resume_after_modify-OnReturn :
    (s : Session)
    → InState connected_paused s
    → OnReturn (InState connected_running) (resume_after_modify s)
unfolding resume_after_modify
resume_after_modify-OnReturn s h =
    OnReturn-bind (InState connected_paused) (InState connected_running)
      (on_stub (drain_stop_replies 50_000))
      (λ _. on_stub continue_async >>= λ _. modify mark_running) s
      (on_stub-OnReturn (drain_stop_replies 50_000) connected_paused s h)
      λ _ t k.
        marked-OnReturn continue_async mark_running connected_paused connected_running t
          mark_running-paused k

modify_when-OnReturn :
    {A : Type 0} (m : Exec Stub A) (state : SessionState) (s : Session)
    → InState state s
    → OnReturn (InState state) (modify_when (is_running state) (on_stub m) s)
modify_when-OnReturn m connected_running s h =
    OnReturn-bind (InState connected_paused) (InState connected_running) pause_for_modify
      (λ _. finally (on_stub m) resume_after_modify) s (pause_for_modify-OnReturn s h)
      λ _ t k.
        OnReturn-finally (InState connected_paused) (InState connected_running) (on_stub m)
          resume_after_modify t (on_stub-OnReturn m connected_paused t k)
          resume_after_modify-OnReturn
modify_when-OnReturn m connected_paused s h = on_stub-OnReturn m connected_paused s h
modify_when-OnReturn m disconnected s h = on_stub-OnReturn m disconnected s h
modify_when-OnReturn m error s h = on_stub-OnReturn m error s h

-- A modification that returns leaves the session in the state it was in: a target that ran was
-- stopped for the modification and runs again.
pub safe_to_modify-OnReturn :
    {A : Type 0} (m : Exec Stub A) (s : Session)
    → OnReturn (InState s.state) (safe_to_modify (on_stub m) s)
unfolding safe_to_modify
safe_to_modify-OnReturn m s = modify_when-OnReturn m s.state s refl

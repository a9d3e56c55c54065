-- ===== src/Tools/Quiesce/Untouched.antt =====
-- Quiescing, pausing and resuming leave the registry alone.
use dolphin_re_mcp.Prelude.{Bool, true, false, refl}
use dolphin_re_mcp.Exec.{Exec, modify, ◌>>=◌, finally}
use dolphin_re_mcp.Exec.Along.{Along, Along-finally}
use dolphin_re_mcp.Gdb.Commands.{probe_responsive}
use dolphin_re_mcp.Gdb.Execution.{continue_async, drain_stop_replies}
use dolphin_re_mcp.Session.{Session, on_stub, mark_paused, mark_running}
use dolphin_re_mcp.Session.Registry.{SameRegistry, same_stay, same_next, same_bind, on_stub-same}
use dolphin_re_mcp.Tools.Quiesce.{
  quiesce_stub, quiesce_for_modify, wedged, unless_wedged, pause_for_modify, resume_after_modify,
  modify_when, safe_to_modify, is_running,
}

pub mark_paused-same : Along SameRegistry (modify mark_paused)
unfolding mark_paused
mark_paused-same s = (refl, refl)

mark_running-same : Along SameRegistry (modify mark_running)
unfolding mark_running
mark_running-same s = (refl, refl)

quiesce-same : Along SameRegistry quiesce_for_modify
unfolding quiesce_for_modify
quiesce-same =
    same_bind (on_stub quiesce_stub) (λ _. modify mark_paused) (on_stub-same quiesce_stub)
      λ _. mark_paused-same

unless_wedged-same : (b : Bool) → Along SameRegistry (unless_wedged b)
unfolding wedged
unless_wedged-same false s = (refl, refl)
unless_wedged-same true s =
    same_bind quiesce_for_modify
      (λ _. on_stub (drain_stop_replies 100_000) >>= λ _. modify mark_paused) quiesce-same
      (λ _.
        same_bind (on_stub (drain_stop_replies 100_000)) (λ _. modify mark_paused)
          (on_stub-same (drain_stop_replies 100_000)) λ _. mark_paused-same)
      s

pause_for_modify-same : Along SameRegistry pause_for_modify
unfolding pause_for_modify
pause_for_modify-same =
    same_bind (on_stub (probe_responsive 500_000)) unless_wedged
      (on_stub-same (probe_responsive 500_000)) unless_wedged-same

resume_after_modify-same : Along SameRegistry resume_after_modify
unfolding resume_after_modify
resume_after_modify-same =
    same_bind (on_stub (drain_stop_replies 50_000))
      (λ _. on_stub continue_async >>= λ _. modify mark_running)
      (on_stub-same (drain_stop_replies 50_000))
      λ _.
        same_bind (on_stub continue_async) (λ _. modify mark_running) (on_stub-same continue_async)
          λ _. mark_running-same

modify_when-same :
    {A : Type 0} (b : Bool) (body : Exec Session A)
    → Along SameRegistry body
    → Along SameRegistry (modify_when b body)
modify_when-same true body h s =
    same_bind pause_for_modify (λ _. finally body resume_after_modify) pause_for_modify-same
      (λ _.
        Along-finally SameRegistry same_stay same_next body resume_after_modify h
          resume_after_modify-same)
      s
modify_when-same false body h s = h s

pub safe_to_modify-same :
    {A : Type 0} (body : Exec Session A)
    → Along SameRegistry body
    → Along SameRegistry (safe_to_modify body)
unfolding safe_to_modify
safe_to_modify-same body h s = modify_when-same (is_running s.state) body h s

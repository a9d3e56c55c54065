-- ===== src/Tools/Ends/Breakpoints.antt =====
-- The breakpoint tools end.
use dolphin_re_mcp.Prelude.{
  ℕ, refl, ◌==◌, Bool, true, false, not, any, Option, none, some, List, [], ◌∷◌, ◌++◌,
  if◌then◌else◌,
}
use dolphin_re_mcp.Prelude.Int.{ℤ, pos}
use dolphin_re_mcp.Prelude.Dict.{lookup, keys}
use dolphin_re_mcp.Prelude.Text.{Text, codes, eq_text, lower, mem_text}
use dolphin_re_mcp.Errors.{value_error, capture_error}
use dolphin_re_mcp.Exec.{Exec, pure, raise, modify, gets, catch, ◌>>=◌}
use dolphin_re_mcp.Gdb.Commands.{
  probe_responsive, set_break, add_sw_breakpoint, add_write_watchpoint, add_read_watchpoint,
  add_access_watchpoint, remove_sw_breakpoint, remove_hw_breakpoint, remove_write_watchpoint,
  remove_read_watchpoint, remove_access_watchpoint,
}
use dolphin_re_mcp.Gdb.Packets.{read_packet}
use dolphin_re_mcp.Gdb.Commands.Robust.{probes-Return}
use dolphin_re_mcp.Gdb.Execution.{continue_async, wait_for_stop, drain_stop_replies}
use dolphin_re_mcp.Session.{
  Session, SessionState, disconnected, connected_paused, connected_running, error, Kind, sw_bp,
  hw_bp, write_wp, read_wp, access_wp, BreakpointSpec, Environment, on_stub, ensure_connected,
  mark_running, mark_paused, alloc_bp_id, unregister_bp, is_watching,
}
use dolphin_re_mcp.Session.Proper.{
  Ends, Ends-bind, Ends-if, Ends-catch, Ends-finally, Ends-on_stub, Returns-Proper,
}
use dolphin_re_mcp.Session.Ends.{
  Bounded, ensure_connected-Ends, set_break-Ends, continue_async-Ends, read_packet-Ends,
}
use dolphin_re_mcp.Tools.Quiesce.{
  quiesce_for_modify, wedged, unless_wedged, pause_for_modify, resume_after_modify, is_running,
  modify_when, safe_to_modify,
}
use dolphin_re_mcp.Tools.Quiesce.Ends.{quiesce_for_modify-Returns, drain-Returns}
use dolphin_re_mcp.Tools.Breakpoints.{
  enter, add_breakpoint, armed, arm, add_watchpoint, disarm_as, disarm, is_forgiven, removed_spec,
  remove, remove_each, remove_all, await_hit, hit_when, hit_guard, wait_for_hit, or_gprs,
  resume_paused, begin_watch, ensure_watcher_running, start_capture, capture_of, capture_on_hit,
  capture_choices, configure, update_bp, quieted, stop_capturing,
}

drain-Ends : (max_wait : ℕ) → Ends (on_stub (drain_stop_replies max_wait))
drain-Ends max_wait =
    Ends-on_stub (drain_stop_replies max_wait)
      λ s. Returns-Proper (drain_stop_replies max_wait) s (drain-Returns max_wait s)

pub probe-Ends : (timeout : ℕ) → Ends (on_stub (probe_responsive timeout))
probe-Ends timeout =
    Ends-on_stub (probe_responsive timeout)
      λ s. Returns-Proper (probe_responsive timeout) s (probes-Return timeout s).1

quiesce_for_modify-Ends : Ends quiesce_for_modify
quiesce_for_modify-Ends s =
    let (t, run, _) = quiesce_for_modify-Returns s in
    Returns-Proper quiesce_for_modify s (tt, t, run)

unless_wedged-Ends : (b : Bool) → Ends (unless_wedged b)
unfolding wedged
unless_wedged-Ends false s = refl
unless_wedged-Ends true s =
    Ends-bind quiesce_for_modify _ quiesce_for_modify-Ends
      (λ _.
        Ends-bind (on_stub (drain_stop_replies 100_000)) (λ _. modify mark_paused)
          (drain-Ends 100_000) λ _ t. tt)
      s

pub resuming-Ends : Ends (on_stub continue_async >>= λ _. modify mark_running)
resuming-Ends =
    Ends-bind (on_stub continue_async) (λ _. modify mark_running)
      (Ends-on_stub continue_async continue_async-Ends) λ _ s. tt

resume_after_modify-Ends : Ends resume_after_modify
unfolding resume_after_modify
resume_after_modify-Ends =
    Ends-bind (on_stub (drain_stop_replies 50_000)) _ (drain-Ends 50_000) λ _. resuming-Ends

modify_when-Ends :
    {A : Type 0} (b : Bool) (body : Exec Session A) → Ends body → Ends (modify_when b body)
unfolding pause_for_modify
modify_when-Ends true body h =
    Ends-bind pause_for_modify _
      (Ends-bind (on_stub (probe_responsive 500_000)) unless_wedged (probe-Ends 500_000)
        unless_wedged-Ends)
      λ _. Ends-finally body resume_after_modify h resume_after_modify-Ends
modify_when-Ends false body h = h

safe_to_modify-Ends : {A : Type 0} (body : Exec Session A) → Ends body → Ends (safe_to_modify body)
unfolding safe_to_modify
safe_to_modify-Ends body h s = modify_when-Ends (is_running s.state) body h s

armed-Ends : (kind : Kind) (op : Text) (addr size : ℤ) → Ends (armed kind (set_break op addr size))
armed-Ends kind op addr size =
    Ends-bind (on_stub (set_break op addr size)) (λ _. pure kind)
      (Ends-on_stub (set_break op addr size) (set_break-Ends op addr size)) λ _ s. tt

arm-Ends : (on : Text) (addr size : ℤ) → Ends (arm on addr size)
unfolding arm add_write_watchpoint add_read_watchpoint add_access_watchpoint
arm-Ends on addr size =
    Ends-if (eq_text on (codes "write")) (armed write_wp (add_write_watchpoint addr size)) _
      (armed-Ends write_wp (codes "Z2") addr size)
      (Ends-if (eq_text on (codes "read")) (armed read_wp (add_read_watchpoint addr size)) _
        (armed-Ends read_wp (codes "Z3") addr size)
        (Ends-if (eq_text on (codes "access")) (armed access_wp (add_access_watchpoint addr size))
          (raise value_error) (armed-Ends access_wp (codes "Z4") addr size) λ s. refl))

disarm_as-Ends : (kind : Kind) (addr size : ℤ) → Ends (disarm_as kind addr size)
unfolding disarm_as remove_sw_breakpoint remove_hw_breakpoint remove_write_watchpoint
    remove_read_watchpoint remove_access_watchpoint
disarm_as-Ends sw_bp addr size = set_break-Ends (codes "z0") addr (pos 4)
disarm_as-Ends hw_bp addr size = set_break-Ends (codes "z1") addr (pos 4)
disarm_as-Ends write_wp addr size = set_break-Ends (codes "z2") addr size
disarm_as-Ends read_wp addr size = set_break-Ends (codes "z3") addr size
disarm_as-Ends access_wp addr size = set_break-Ends (codes "z4") addr size

removed_spec-Ends : (o : Option BreakpointSpec) → Ends (removed_spec o)
unfolding disarm
removed_spec-Ends none s = tt
removed_spec-Ends (some spec) s =
    let disarming = on_stub (disarm_as spec.kind spec.addr spec.size) in
    let m = safe_to_modify disarming >>= λ _. pure tt in
    Ends-bind (catch m is_forgiven (pure tt)) (λ _. pure true)
      (Ends-catch m is_forgiven (pure tt)
        (Ends-bind (safe_to_modify disarming) (λ _. pure tt)
          (safe_to_modify-Ends disarming (
            Ends-on_stub (disarm_as spec.kind spec.addr spec.size)
              (disarm_as-Ends spec.kind spec.addr spec.size)))
          λ _ t. tt)
        λ t. tt)
      (λ _ t. tt) s

await_hit-Ends : (timeout : ℕ) → Ends (await_hit timeout)
unfolding await_hit wait_for_stop
await_hit-Ends timeout =
    Ends-bind (on_stub (read_packet (some timeout))) _
      (Ends-on_stub (read_packet (some timeout)) (read_packet-Ends (some timeout))) λ raw s. tt

hit_when-Ends : (b : Bool) (state : SessionState) (timeout : ℕ) → Ends (hit_when b state timeout)
hit_when-Ends true state timeout s = refl
hit_when-Ends false connected_running timeout s = await_hit-Ends timeout s
hit_when-Ends false connected_paused timeout s = refl
hit_when-Ends false disconnected timeout s = refl
hit_when-Ends false error timeout s = refl

resume_paused-Ends : (b : Bool) (state : SessionState) → Ends (resume_paused b state)
resume_paused-Ends true connected_paused s = resuming-Ends s
resume_paused-Ends true connected_running s = tt
resume_paused-Ends true disconnected s = tt
resume_paused-Ends true error s = tt
resume_paused-Ends false state s = tt

begin_watch-Ends : (auto_resume : Bool) → Ends (begin_watch auto_resume)
unfolding begin_watch
begin_watch-Ends auto_resume =
    Ends-bind (λ s. resume_paused auto_resume s.state s) (λ _. modify ensure_watcher_running)
      (λ s. resume_paused-Ends auto_resume s.state s) λ _ s. tt

capture_of-Ends :
    (bp_id : ℕ) (captures : List Text) (auto_resume : Bool) (o : Option BreakpointSpec)
    → Ends (capture_of bp_id captures auto_resume o)
unfolding start_capture
capture_of-Ends bp_id captures auto_resume none s = refl
capture_of-Ends bp_id captures auto_resume (some spec) s =
    Ends-if (any (λ c. not (mem_text c capture_choices)) captures) (raise capture_error)
      (start_capture bp_id auto_resume (configure captures spec)) (λ t. refl)
      (λ t. begin_watch-Ends auto_resume (update_bp bp_id (configure captures spec) t)) s

quieted-Ends : (bp_id : ℕ) (o : Option BreakpointSpec) → Ends (quieted bp_id o)
quieted-Ends bp_id none s = refl
quieted-Ends bp_id (some spec) s = tt

pub stop_capturing-Ends : (bp_id : Option ℕ) → Ends (stop_capturing bp_id)
unfolding stop_capturing
stop_capturing-Ends none s = tt
stop_capturing-Ends (some bp_id) s = quieted-Ends bp_id (lookup ◌==◌ bp_id s.breakpoints) s

module _ (env : Environment) (bounded : Bounded env.host) where
  pub add_breakpoint-Ends : (addr : ℤ) → Ends (add_breakpoint env addr)
  unfolding add_breakpoint add_sw_breakpoint enter alloc_bp_id
  add_breakpoint-Ends addr =
      let setting = on_stub (set_break (codes "Z0") addr (pos 4)) in
      Ends-bind (ensure_connected env) _ (ensure_connected-Ends env bounded) λ _.
        Ends-bind (safe_to_modify setting) (λ _. enter addr (pos 4) sw_bp)
          (safe_to_modify-Ends setting (
            Ends-on_stub (set_break (codes "Z0") addr (pos 4))
              (set_break-Ends (codes "Z0") addr (pos 4))))
          λ _ s. tt

  pub add_watchpoint-Ends : (addr size : ℤ) (on : Text) → Ends (add_watchpoint env addr size on)
  unfolding add_watchpoint enter alloc_bp_id
  add_watchpoint-Ends addr size on =
      Ends-bind (ensure_connected env) _ (ensure_connected-Ends env bounded) λ _.
        Ends-bind (safe_to_modify (arm (lower on) addr size)) (enter addr size)
          (safe_to_modify-Ends (arm (lower on) addr size) (arm-Ends (lower on) addr size))
          λ kind s. tt

  pub remove-Ends : (bp_id : ℕ) → Ends (remove env bp_id)
  unfolding remove unregister_bp
  remove-Ends bp_id =
      Ends-bind (ensure_connected env) _ (ensure_connected-Ends env bounded)
        λ _. Ends-bind (unregister_bp bp_id) removed_spec (λ s. tt) removed_spec-Ends

  remove_each-Ends : (ids removed : List ℕ) → Ends (remove_each env ids removed)
  unfolding remove_each
  remove_each-Ends [] removed s = tt
  remove_each-Ends (bp_id ∷ ids) removed s =
      Ends-bind (remove env bp_id) _ (remove-Ends bp_id)
        (λ was_there. remove_each-Ends ids (if was_there then removed ++ bp_id ∷ [] else removed)) s

  pub remove_all-Ends : Ends (remove_all env)
  unfolding remove_all
  remove_all-Ends = Ends-bind (ensure_connected env) _ (ensure_connected-Ends env bounded) λ _.
      Ends-bind (gets (λ s. keys s.breakpoints)) (λ ids. remove_each env ids []) (λ s. tt)
        λ ids. remove_each-Ends ids []

  pub wait_for_hit-Ends : (timeout : ℕ) → Ends (wait_for_hit env timeout)
  unfolding wait_for_hit hit_guard
  wait_for_hit-Ends timeout =
      Ends-bind (ensure_connected env) (λ _. hit_guard timeout) (ensure_connected-Ends env bounded)
        λ _ s. hit_when-Ends (is_watching s.watcher) s.state timeout s

  pub capture_on_hit-Ends :
      (bp_id : ℕ) (captures : List Text) (auto_resume : Bool)
      → Ends (capture_on_hit env bp_id captures auto_resume)
  unfolding capture_on_hit
  capture_on_hit-Ends bp_id captures auto_resume =
      Ends-bind (ensure_connected env) _ (ensure_connected-Ends env bounded) λ _ s.
        capture_of-Ends bp_id (or_gprs captures) auto_resume (lookup ◌==◌ bp_id s.breakpoints) s

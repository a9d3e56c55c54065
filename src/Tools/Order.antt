-- ===== src/Tools/Order.antt =====
-- Each tool and each round of the watcher keeps the registry in good order.
use dolphin_re_mcp.Prelude.{
  if◌then◌else◌, ℕ, ◌+◌, ◌≡◌, refl, ap, inl, inr, Bool, true, false, Option, none, some, List, [],
  ◌∷◌, ◌++◌, ◌==◌, arith, Bool-cases, any, not,
}
use dolphin_re_mcp.Prelude.Int.{ℤ, pos}
use dolphin_re_mcp.Prelude.Dict.{lookup, keys}
use dolphin_re_mcp.Prelude.Text.{Text, mem_text}
use dolphin_re_mcp.Errors.{Result, ok, err}
use dolphin_re_mcp.Exec.{Exec, ◌>>=◌, modify, gets}
use dolphin_re_mcp.Exec.Along.{Along, Along-bind}
use dolphin_re_mcp.Gdb.Execution.{wait_for_stop, continue_async}
use dolphin_re_mcp.Session.{
  Session, SessionState, disconnected, connected_paused, connected_running, error, mark_running,
  BreakpointSpec, Environment, ensure_connected, disconnect, on_stub, mark_paused, hang_up, forget,
  detach_memory,
}
use dolphin_re_mcp.Session.Registry.{SameRegistry, ensure_connected-same}
use dolphin_re_mcp.Session.WellFormed.{
  Breakpoints, Kept, WellFormed, Kept-mono, Kept-insert, Kept-erase, Kept-update, Lacking,
  insert-Lacking,
}
use dolphin_re_mcp.Tools.Breakpoints.{
  add_breakpoint, add_watchpoint, remove, remove_each, remove_all, wait_for_hit, capture_on_hit,
  clear_capture_log, stop_capturing, await_hit, hit_guard, update_bp, resume_paused, begin_watch,
  ensure_watcher_running, start_capture, capture_of, or_gprs, configure, capture_choices, cleared,
  quieted, quiet_spec, quiet_all, stop_if_idle, stop_watcher,
}
use dolphin_re_mcp.Tools.Breakpoints.Registry.{
  Added, add_breakpoint-Added, add_watchpoint-Added, Removed, remove-Removed,
}

-- A step keeps the registry in good order.
abbrev pub KeepsOrder : Session → Session → Type 0
KeepsOrder s t = WellFormed s → WellFormed t

pub order_stay : (s : Session) → KeepsOrder s s
order_stay s h = h

pub order_next : (s t u : Session) → KeepsOrder s t → KeepsOrder t u → KeepsOrder s u
order_next s t u h k w = k (h w)

pub SameRegistry-KeepsOrder : (s t : Session) → SameRegistry s t → KeepsOrder s t
SameRegistry-KeepsOrder s t (same, next) w = rw (same, next) w

pub order_bind :
    {A B : Type 0} (m : Exec Session A) (f : A → Exec Session B)
    → Along KeepsOrder m
    → ((a : A) → Along KeepsOrder (f a))
    → Along KeepsOrder (m >>= f)
order_bind = Along-bind KeepsOrder order_stay order_next

pub ensure_connected-order : (env : Environment) → Along KeepsOrder (ensure_connected env)
ensure_connected-order env s =
    SameRegistry-KeepsOrder s (ensure_connected env s).1 (ensure_connected-same env s)

Kept-append :
    (n : ℕ) (spec : BreakpointSpec) (d : Breakpoints)
    → spec.bp_id ≡ n
    → Lacking n d
    → Kept n d
    → Kept (n + 1) (d ++ (n, spec) ∷ [])
Kept-append n spec d same lacks h =
    rw (← insert-Lacking n spec d lacks)
      (Kept-insert (n + 1) n spec d same (omega arith) (Kept-mono n (n + 1) d (omega arith) h))

Added-order :
    (addr size : ℤ) (s : Session) (r : Result BreakpointSpec × Session)
    → WellFormed s
    → Added addr size s r
    → WellFormed r.1
Added-order addr size s (ok spec, t) w (made, there, fresh, next) =
    rw (there, next)
      (Kept-append s.next_id spec s.breakpoints (ap (λ (x : BreakpointSpec). x.bp_id) made) fresh w)
Added-order addr size s (err e, t) w h = SameRegistry-KeepsOrder s t h w

Removed-order :
    (bp_id : ℕ) (s : Session) (r : Result Bool × Session)
    → WellFormed s
    → Removed bp_id s r
    → WellFormed r.1
Removed-order bp_id s (ok b, t) w ((gone, next), _) =
    rw (gone, next) (Kept-erase s.next_id bp_id s.breakpoints w)
Removed-order bp_id s (err e, t) w (inl same) = SameRegistry-KeepsOrder s t same w
Removed-order bp_id s (err e, t) w (inr ((gone, next), _)) =
    rw (gone, next) (Kept-erase s.next_id bp_id s.breakpoints w)

pub remove-order : (env : Environment) (bp_id : ℕ) → Along KeepsOrder (remove env bp_id)
remove-order env bp_id s w =
    Removed-order bp_id s (remove env bp_id s) w (remove-Removed env bp_id s)

remove_each-order :
    (env : Environment) (ids removed : List ℕ) → Along KeepsOrder (remove_each env ids removed)
unfolding remove_each
remove_each-order env [] removed s = order_stay s
remove_each-order env (bp_id ∷ ids) removed s =
    order_bind (remove env bp_id)
      (λ was_there. remove_each env ids (if was_there then removed ++ bp_id ∷ [] else removed))
      (remove-order env bp_id) (λ was_there. remove_each-order env ids _) s

pub remove_all-order : (env : Environment) → Along KeepsOrder (remove_all env)
unfolding remove_all
remove_all-order env =
    order_bind (ensure_connected env)
      (λ _. gets (λ s. keys s.breakpoints) >>= λ ids. remove_each env ids [])
      (ensure_connected-order env) λ _ t. remove_each-order env (keys t.breakpoints) [] t

pub add_breakpoint-order :
    (env : Environment) (addr : ℤ) → Along KeepsOrder (add_breakpoint env addr)
add_breakpoint-order env addr s w =
    Added-order addr (pos 4) s (add_breakpoint env addr s) w (add_breakpoint-Added env addr s w)

pub add_watchpoint-order :
    (env : Environment) (addr size : ℤ) (on : Text)
    → Along KeepsOrder (add_watchpoint env addr size on)
add_watchpoint-order env addr size on s w =
    Added-order addr size s (add_watchpoint env addr size on s) w
      (add_watchpoint-Added env addr size on s w)

pub disconnect-order : (send_detach : Bool) → Along KeepsOrder (disconnect send_detach)
unfolding disconnect
disconnect-order send_detach s =
    order_bind (λ t. on_stub (hang_up send_detach t.stub.sock) t) (λ _. modify forget) (λ t w. w)
      (λ _ t w. tt) (detach_memory s)

-- Waiting

mark_paused-order : Along KeepsOrder (modify mark_paused)
unfolding mark_paused
mark_paused-order s w = w

await_hit-order : (timeout : ℕ) → Along KeepsOrder (await_hit timeout)
unfolding await_hit mark_paused
await_hit-order timeout =
    order_bind (on_stub (wait_for_stop (some timeout))) _ (λ s w. w) λ raw s w. w

pub wait_for_hit-order :
    (env : Environment) (timeout : ℕ) → Along KeepsOrder (wait_for_hit env timeout)
unfolding wait_for_hit hit_guard
wait_for_hit-order env timeout =
    order_bind (ensure_connected env) (λ _. hit_guard timeout) (ensure_connected-order env)
      λ _ s. ground (arith, await_hit-order timeout s)

-- Captures

update_bp-order :
    (bp_id : ℕ) (old new : BreakpointSpec) (s : Session)
    → lookup ◌==◌ bp_id s.breakpoints ≡ some old
    → new.bp_id ≡ old.bp_id
    → KeepsOrder s (update_bp bp_id new s)
unfolding update_bp
update_bp-order bp_id old new s there same w =
    Kept-update s.next_id bp_id s.breakpoints old new w there same

resume_paused-order :
    (auto_resume : Bool) (state : SessionState) → Along KeepsOrder (resume_paused auto_resume state)
unfolding mark_running
resume_paused-order true connected_paused s =
    order_bind (on_stub continue_async) (λ _. modify mark_running) (λ t w. w) (λ _ t w. w) s
resume_paused-order true connected_running s = order_stay s
resume_paused-order true disconnected s = order_stay s
resume_paused-order true error s = order_stay s
resume_paused-order false state s = order_stay s

ensure_watcher_running-order : Along KeepsOrder (modify ensure_watcher_running)
unfolding ensure_watcher_running
ensure_watcher_running-order s w = ground arith

begin_watch-order : (auto_resume : Bool) → Along KeepsOrder (begin_watch auto_resume)
unfolding begin_watch
begin_watch-order auto_resume =
    order_bind (λ s. resume_paused auto_resume s.state s) (λ _. modify ensure_watcher_running)
      (λ s. resume_paused-order auto_resume s.state s) λ _. ensure_watcher_running-order

start_capture-order :
    (bp_id : ℕ) (auto_resume : Bool) (old new : BreakpointSpec) (s : Session)
    → lookup ◌==◌ bp_id s.breakpoints ≡ some old
    → new.bp_id ≡ old.bp_id
    → KeepsOrder s (start_capture bp_id auto_resume new s).1
unfolding start_capture
start_capture-order bp_id auto_resume old new s there same w =
    begin_watch-order auto_resume (update_bp bp_id new s)
      (update_bp-order bp_id old new s there same w)

capture_of-order :
    (bp_id : ℕ) (captures : List Text) (auto_resume : Bool) (o : Option BreakpointSpec)
    (s : Session)
    → lookup ◌==◌ bp_id s.breakpoints ≡ o
    → KeepsOrder s (capture_of bp_id captures auto_resume o s).1
capture_of-order bp_id captures auto_resume none s there w = w
capture_of-order bp_id captures auto_resume (some spec) s there w =
    elim (Bool-cases (any (λ c. not (mem_text c capture_choices)) captures)) [
      | inl unknown ↦ rw unknown w
      | inr known ↦
          rw known
            (start_capture-order bp_id auto_resume spec (configure captures spec) s there refl w)
    ]

pub capture_on_hit-order :
    (env : Environment) (bp_id : ℕ) (captures : List Text) (auto_resume : Bool)
    → Along KeepsOrder (capture_on_hit env bp_id captures auto_resume)
unfolding capture_on_hit
capture_on_hit-order env bp_id captures auto_resume =
    order_bind (ensure_connected env)
      (λ _ s. capture_of bp_id (or_gprs captures) auto_resume (lookup ◌==◌ bp_id s.breakpoints) s)
      (ensure_connected-order env)
      λ _ s.
        capture_of-order bp_id (or_gprs captures) auto_resume (lookup ◌==◌ bp_id s.breakpoints) s
          refl

cleared-order :
    (bp_id : ℕ) (o : Option BreakpointSpec) (s : Session)
    → lookup ◌==◌ bp_id s.breakpoints ≡ o
    → KeepsOrder s (cleared bp_id o s).1
cleared-order bp_id none s there w = w
cleared-order bp_id (some spec) s there w =
    update_bp-order bp_id spec (record spec { log = [] }) s there refl w

pub clear_capture_log-order : (bp_id : ℕ) → Along KeepsOrder (clear_capture_log bp_id)
unfolding clear_capture_log
clear_capture_log-order bp_id s = cleared-order bp_id (lookup ◌==◌ bp_id s.breakpoints) s refl

stop_if_idle-order : (s : Session) → KeepsOrder s (stop_if_idle s)
unfolding stop_if_idle stop_watcher
stop_if_idle-order s w = ground arith

quieted-order :
    (bp_id : ℕ) (o : Option BreakpointSpec) (s : Session)
    → lookup ◌==◌ bp_id s.breakpoints ≡ o
    → KeepsOrder s (quieted bp_id o s).1
quieted-order bp_id none s there w = w
quieted-order bp_id (some spec) s there w =
    stop_if_idle-order (update_bp bp_id (quiet_spec spec) s)
      (update_bp-order bp_id spec (quiet_spec spec) s there refl w)

Lacking-quiet_all : (k : ℕ) (d : Breakpoints) → Lacking k d → Lacking k (quiet_all d)
Lacking-quiet_all k [] h = tt
Lacking-quiet_all k ((j, spec) ∷ d) h = (h.0, Lacking-quiet_all k d h.1)

Kept-quiet_all : (n : ℕ) (d : Breakpoints) → Kept n d → Kept n (quiet_all d)
Kept-quiet_all n [] h = tt
Kept-quiet_all n ((j, spec) ∷ d) (same, low, lacks, h) =
    (same, low, Lacking-quiet_all j d lacks, Kept-quiet_all n d h)

pub stop_capturing-order : (bp_id : Option ℕ) → Along KeepsOrder (stop_capturing bp_id)
unfolding stop_capturing
stop_capturing-order none s w =
    stop_if_idle-order (record s { breakpoints = quiet_all s.breakpoints })
      (Kept-quiet_all s.next_id s.breakpoints w)
stop_capturing-order (some bp_id) s w =
    quieted-order bp_id (lookup ◌==◌ bp_id s.breakpoints) s refl w

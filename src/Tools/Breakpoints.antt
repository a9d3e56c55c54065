-- ===== src/Tools/Breakpoints.antt =====
-- tools/breakpoint_tools.py: the tools that set, remove, list and wait for breakpoints, and the
-- capture configuration.
pub mod Hits
pub mod Registry
use dolphin_re_mcp.Prelude.{
  ℕ, Bool, true, false, not, ◌||◌, ◌&&◌, Option, none, some, List, [], ◌∷◌, ◌++◌, ◌==◌, leb,
  if◌then◌else◌, keep, any, length, is_empty, drop, ◌-◌,
}
use dolphin_re_mcp.Prelude.Int.{ℤ, pos}
use dolphin_re_mcp.Prelude.Dict.{Dict, keys, values, lookup, insert}
use dolphin_re_mcp.Prelude.Text.{Text, codes, eq_text, mem_text, lower}
use dolphin_re_mcp.Errors.{
  Error, Result, ok, err, value_error, wrong_state, breakpoint_not_found, capture_error, stub_error,
  timed_out,
}
use dolphin_re_mcp.Exec.{Exec, pure, raise, modify, gets, catch, ◌>>=◌, ◌>>◌}
use dolphin_re_mcp.Gdb.Stub.{Stub}
use dolphin_re_mcp.Gdb.Commands.{
  add_sw_breakpoint, add_write_watchpoint, add_read_watchpoint, add_access_watchpoint,
  remove_sw_breakpoint, remove_hw_breakpoint, remove_write_watchpoint, remove_read_watchpoint,
  remove_access_watchpoint,
}
use dolphin_re_mcp.Gdb.Execution.{continue_async, wait_for_stop}
use dolphin_re_mcp.Gdb.StopReply.{StopReply, parse_stop_reply}
use dolphin_re_mcp.Session.{
  Session, SessionState, connected_paused, connected_running, BreakpointSpec, Kind, sw_bp, hw_bp,
  write_wp, read_wp, access_wp, Capture, Environment, ensure_connected, alloc_bp_id, register_bp,
  unregister_bp, on_stub, mark_running, mark_paused, is_watching,
}
use dolphin_re_mcp.Tools.Quiesce.{safe_to_modify, is_running}
use dolphin_re_mcp.Tools.Matching.{match_bp, is_breakpoint, is_watchpoint}

-- `BreakpointSpec(bp_id=…, addr=…, kind=…, size=…)`
abbrev pub new_spec : ℕ → ℤ → Kind → ℤ → BreakpointSpec
new_spec bp_id addr kind size = record {
  bp_id = bp_id;
  addr = addr;
  kind = kind;
  size = size;
  condition = none;
  captures = [];
  auto_continue = false;
  log = [];
}

-- The entry of a breakpoint that has been set.
unfoldable pub enter : ℤ → ℤ → Kind → Exec Session BreakpointSpec
enter addr size kind = do
  bp_id ← alloc_bp_id
  modify (register_bp (new_spec bp_id addr kind size))
  pure (new_spec bp_id addr kind size)

unfoldable pub add_breakpoint : Environment → ℤ → Exec Session BreakpointSpec
add_breakpoint env addr = do
  ensure_connected env
  safe_to_modify (on_stub (add_sw_breakpoint addr))
  enter addr (pos 4) sw_bp

abbrev pub armed : Kind → Exec Stub Text → Exec Session Kind
armed kind m = on_stub m >>= λ _. pure kind

-- The body of the `with` in `add_watchpoint`, which gives the kind.
unfoldable pub arm : Text → ℤ → ℤ → Exec Session Kind
arm on addr size =
    if eq_text on (codes "write")
    then armed write_wp (add_write_watchpoint addr size)
    else if eq_text on (codes "read")
    then armed read_wp (add_read_watchpoint addr size)
    else if eq_text on (codes "access")
    then armed access_wp (add_access_watchpoint addr size)
    else raise value_error

unfoldable pub add_watchpoint : Environment → ℤ → ℤ → Text → Exec Session BreakpointSpec
add_watchpoint env addr size on = do
  ensure_connected env
  kind ← safe_to_modify (arm (lower on) addr size)
  enter addr size kind

unfoldable pub disarm_as : Kind → ℤ → ℤ → Exec Stub Text
disarm_as sw_bp addr size = remove_sw_breakpoint addr
disarm_as hw_bp addr size = remove_hw_breakpoint addr
disarm_as write_wp addr size = remove_write_watchpoint addr size
disarm_as read_wp addr size = remove_read_watchpoint addr size
disarm_as access_wp addr size = remove_access_watchpoint addr size

unfoldable pub disarm : BreakpointSpec → Exec Session Text
disarm spec = on_stub (disarm_as spec.kind spec.addr spec.size)

-- `except GDBStubError`, `except (socket.timeout, TimeoutError)`
abbrev pub is_forgiven : Error → Bool
is_forgiven stub_error = true
is_forgiven timed_out = true
is_forgiven _ = false

-- Whether the breakpoint was there.
abbrev pub removed_spec : Option BreakpointSpec → Exec Session Bool
removed_spec none = pure false
removed_spec (some spec) = do
  catch (safe_to_modify (disarm spec) >>= λ _. pure tt) is_forgiven (pure tt)
  pure true

unfoldable pub remove : Environment → ℕ → Exec Session Bool
remove env bp_id = do ensure_connected env; spec ← unregister_bp bp_id; removed_spec spec

-- The loop of `remove_all`; `removed` are the ids so far.
unfoldable pub remove_each : Environment → List ℕ → List ℕ → Exec Session (List ℕ)
remove_each env [] removed = pure removed
remove_each env (bp_id ∷ ids) removed = remove env bp_id >>= λ was_there.
    remove_each env ids (if was_there then removed ++ bp_id ∷ [] else removed)

unfoldable pub remove_all : Environment → Exec Session (List ℕ)
remove_all env = do
  ensure_connected env
  ids ← gets (λ s. keys s.breakpoints)
  remove_each env ids []

unfoldable pub list_breakpoints : Session → List BreakpointSpec
list_breakpoints s = keep (λ (b : BreakpointSpec). is_breakpoint b.kind) (values s.breakpoints)

unfoldable pub list_watchpoints : Session → List BreakpointSpec
list_watchpoints s = keep (λ (b : BreakpointSpec). is_watchpoint b.kind) (values s.breakpoints)

unfoldable pub list_all : Session → List BreakpointSpec
list_all s = values s.breakpoints

-- Waiting

pub record Hit : Type 0 where
  pub reply : StopReply
  pub matched_bp_id : Option ℕ

unfoldable pub await_hit : ℕ → Exec Session Hit
await_hit timeout = do
  raw ← on_stub (wait_for_stop (some timeout))
  modify mark_paused
  gets λ s. record {
    reply = parse_stop_reply raw;
    matched_bp_id = match_bp (parse_stop_reply raw) s.breakpoints;
  }

-- The guards of `wait_for_hit`: no watcher, and a target that runs.
abbrev pub hit_when : Bool → SessionState → ℕ → Exec Session Hit
hit_when true state timeout = raise wrong_state
hit_when false connected_running timeout = await_hit timeout
hit_when false _ timeout = raise wrong_state

unfoldable pub hit_guard : ℕ → Exec Session Hit
hit_guard timeout s = hit_when (is_watching s.watcher) s.state timeout s

unfoldable pub wait_for_hit : Environment → ℕ → Exec Session Hit
wait_for_hit env timeout = do ensure_connected env; hit_guard timeout

-- Captures

unfoldable pub capture_choices : List Text
capture_choices = codes "gprs" ∷ codes "fprs" ∷ codes "lr" ∷ codes "stack" ∷ []

-- `captures or ["gprs"]`
abbrev pub or_gprs : List Text → List Text
or_gprs [] = codes "gprs" ∷ []
or_gprs (c ∷ cs) = c ∷ cs

-- An object that the registry holds, after a change of its fields.
unfoldable pub update_bp : ℕ → BreakpointSpec → Session → Session
update_bp bp_id spec s = record s { breakpoints = insert ◌==◌ bp_id spec s.breakpoints }

-- `d[bp_id].captures = captures; d[bp_id].auto_continue = True`, an object that the registry holds.
abbrev pub configure : List Text → BreakpointSpec → BreakpointSpec
configure captures spec = record spec { captures = captures; auto_continue = true }

-- `ensure_watcher_running(session)`
unfoldable pub ensure_watcher_running : Session → Session
ensure_watcher_running s = if is_watching s.watcher then s else record s { watcher = some true }

abbrev pub resume_paused : Bool → SessionState → Exec Session Unit
resume_paused true connected_paused = on_stub continue_async >>= λ _. modify mark_running
resume_paused _ _ = pure tt

unfoldable pub begin_watch : Bool → Exec Session Unit
begin_watch auto_resume = do
  (λ s. resume_paused auto_resume s.state s)
  modify ensure_watcher_running

unfoldable pub start_capture : ℕ → Bool → BreakpointSpec → Exec Session Unit
start_capture bp_id auto_resume spec s = begin_watch auto_resume (update_bp bp_id spec s)

abbrev pub capture_of : ℕ → List Text → Bool → Option BreakpointSpec → Exec Session Unit
capture_of bp_id captures auto_resume none = raise breakpoint_not_found
capture_of bp_id captures auto_resume (some spec) =
    if any (λ c. not (mem_text c capture_choices)) captures
    then raise capture_error
    else start_capture bp_id auto_resume (configure captures spec)

-- `capture_on_hit(bp_id, captures, auto_resume)`
unfoldable pub capture_on_hit : Environment → ℕ → List Text → Bool → Exec Session Unit
capture_on_hit env bp_id captures auto_resume = do
  ensure_connected env
  (λ s. capture_of bp_id (or_gprs captures) auto_resume (lookup ◌==◌ bp_id s.breakpoints) s)

-- `log_entries[-limit:]`
abbrev pub last_entries : Option ℕ → List Capture → List Capture
last_entries none entries = entries
last_entries (some limit) entries =
    if leb 1 limit then drop (length entries - limit) entries else entries

abbrev pub log_of : (Capture → Bool) → Option ℕ → Option BreakpointSpec → Result (List Capture)
log_of where_ limit none = err breakpoint_not_found
log_of where_ limit (some spec) = ok (last_entries limit (keep where_ spec.log))

-- `get_capture_log(bp_id, where, limit)`, the predicate as a test that is false where it raises.
unfoldable pub get_capture_log : ℕ → (Capture → Bool) → Option ℕ → Session → Result (List Capture)
get_capture_log bp_id where_ limit s = log_of where_ limit (lookup ◌==◌ bp_id s.breakpoints)

abbrev pub cleared : ℕ → Option BreakpointSpec → Exec Session ℕ
cleared bp_id none = raise breakpoint_not_found
cleared bp_id (some spec) = do
  modify (update_bp bp_id (record spec { log = [] }))
  pure (length spec.log)

unfoldable pub clear_capture_log : ℕ → Exec Session ℕ
clear_capture_log bp_id s = cleared bp_id (lookup ◌==◌ bp_id s.breakpoints) s

abbrev pub quiet_spec : BreakpointSpec → BreakpointSpec
quiet_spec spec = record spec { auto_continue = false }

-- Every entry with its flag off; the ids of those that had it on.
abbrev pub quiet_all : Dict ℕ BreakpointSpec → Dict ℕ BreakpointSpec
quiet_all [] = []
quiet_all ((k, spec) ∷ d) = (k, quiet_spec spec) ∷ quiet_all d

unfoldable pub any_auto_continue : Session → Bool
any_auto_continue s = any (λ (spec : BreakpointSpec). spec.auto_continue) (values s.breakpoints)

-- `stop_watcher(session)`: the thread is told to end, and dropped.
unfoldable pub stop_watcher : Session → Session
stop_watcher s = record s { watcher = none }

unfoldable pub stop_if_idle : Session → Session
stop_if_idle s = if any_auto_continue s then s else stop_watcher s

abbrev pub auto_ids : List BreakpointSpec → List ℕ
auto_ids [] = []
auto_ids (spec ∷ specs) =
    let rest = auto_ids specs in if spec.auto_continue then spec.bp_id ∷ rest else rest

abbrev pub quieted : ℕ → Option BreakpointSpec → Exec Session (List ℕ)
quieted bp_id none = raise breakpoint_not_found
quieted bp_id (some spec) = do
  modify (update_bp bp_id (quiet_spec spec))
  modify stop_if_idle
  pure (bp_id ∷ [])

-- `stop_capturing(bp_id)`
unfoldable pub stop_capturing : Option ℕ → Exec Session (List ℕ)
stop_capturing none s = (
  ok (auto_ids (values s.breakpoints)),
  stop_if_idle (record s { breakpoints = quiet_all s.breakpoints }),
)
stop_capturing (some bp_id) s = quieted bp_id (lookup ◌==◌ bp_id s.breakpoints) s

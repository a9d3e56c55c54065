-- ===== src/Session.antt =====
-- session.py: the owner of the client, the registry of breakpoints and the memory backends.
pub mod Registry
pub mod WellFormed
pub mod Disconnect
pub mod Health
pub mod Proper
pub mod Ends
use dolphin_re_mcp.Prelude.{
  ℕ, ◌+◌, ◌≤◌, Bool, true, false, not, Option, none, some, List, [], ◌∷◌, ◌==◌, if◌then◌else◌,
}
use dolphin_re_mcp.Prelude.Int.{ℤ}
use dolphin_re_mcp.Prelude.Dict.{Dict, lookup, insert, erase}
use dolphin_re_mcp.Prelude.Text.{Text, Bytes}
use dolphin_re_mcp.Errors.{
  Error, Result, ok, err, connection_lost, is_attach_error, out_of_fuel, is_socket_error,
}
use dolphin_re_mcp.Exec.{Exec, pure, raise, lift, modify, catch, ◌>>=◌, ◌>>◌}
use dolphin_re_mcp.Gdb.Stub.{Stub, connect, close}
use dolphin_re_mcp.Gdb.Commands.{why_halted, detach}
use dolphin_re_mcp.Gdb.Execution.{continue_async}
use dolphin_re_mcp.Memory.Attach.{
  AttachBackend, Host, find_dolphin, close_handle, attach_read, attach_write, gdb_mem_read,
  gdb_mem_write,
}

pub data SessionState : Type 0 where
  disconnected connected_paused connected_running error : SessionState

-- The strings of `BreakpointSpec.kind`.
pub data Kind : Type 0 where
  sw_bp hw_bp write_wp read_wp access_wp : Kind

-- An entry of a capture log. A floating-point register keeps its eight bytes.
pub record Capture : Type 0 where
  pub ts : ℕ
  pub pc : Option ℤ
  pub sp : Option ℤ
  pub signal : Option ℤ
  pub watch_addr : Option ℤ
  pub gprs : Option (Dict Text ℕ)
  pub lr : Option ℕ
  pub fprs : Option (Dict Text Bytes)

pub record BreakpointSpec : Type 0 where
  pub bp_id : ℕ
  pub addr : ℤ
  pub kind : Kind
  pub size : ℤ
  pub condition : Option Text
  pub captures : List Text
  pub auto_continue : Bool
  pub log : List Capture

pub record Session : Type 0 where
  pub stub : Stub
  pub state : SessionState
  pub attach_backend : Option AttachBackend
  pub breakpoints : Dict ℕ BreakpointSpec
  pub next_id : ℕ
  -- `self.watcher`: none, or whether the thread is alive.
  pub watcher : Option Bool

-- `DOLPHIN_NO_AUTO_RESUME`, and the operating system.
pub record Environment : Type 0 where
  pub no_auto_resume : Bool
  pub host : Host

-- `Session()`, over a client that is given.
unfoldable pub new_session : Stub → Session
new_session stub = record {
  stub = stub;
  state = disconnected;
  attach_backend = none;
  breakpoints = [];
  next_id = 1;
  watcher = none;
}

-- A call of the client.
abbrev pub on_stub : {A : Type 0} → Exec Stub A → Exec Session A
on_stub m s = let r = m s.stub in (r.0, record s { stub = r.1 })

abbrev pub with_state : SessionState → Session → Session
with_state state s = record s { state = state }

-- `except Exception`; the model's own error is none.
abbrev pub is_exception : Error → Bool
is_exception out_of_fuel = false
is_exception _ = true

-- Connection lifecycle

abbrev pub when_paused : SessionState → SessionState
when_paused connected_paused = connected_running
when_paused state = state

abbrev pub when_running : SessionState → SessionState
when_running connected_running = connected_paused
when_running state = state

unfoldable pub mark_running : Session → Session
mark_running s = with_state (when_paused s.state) s

unfoldable pub mark_paused : Session → Session
mark_paused s = with_state (when_running s.state) s

abbrev pub attached : Result AttachBackend → Exec Session Unit
attached (ok b) s = (ok tt, record s { attach_backend = some b })
attached (err e) s =
    if is_attach_error e then (ok tt, record s { attach_backend = none }) else (err e, s)

-- `_try_attach()`
unfoldable pub try_attach : Host → Exec Session Unit
try_attach host s = if host.is_windows then attached (find_dolphin host) s else (ok tt, s)

-- `connect` and `why_halted`, in the first `try`.
unfoldable pub reach : Exec Session Unit
reach =
    catch (do on_stub connect; on_stub why_halted; modify (with_state connected_paused))
      is_socket_error (modify (with_state disconnected) >> raise connection_lost)

unfoldable pub auto_resume : Exec Session Unit
auto_resume =
    catch (on_stub continue_async >> modify (with_state connected_running)) is_exception (pure tt)

abbrev pub auto_resume_unless : Bool → Exec Session Unit
auto_resume_unless true = pure tt
auto_resume_unless false = auto_resume

unfoldable pub make_connection : Environment → Exec Session Unit
make_connection env = do reach; try_attach env.host; auto_resume_unless env.no_auto_resume

abbrev pub connected_in : SessionState → Exec Session Unit → Exec Session Unit
connected_in connected_paused m = pure tt
connected_in connected_running m = pure tt
connected_in _ m = m

-- `ensure_connected()`
unfoldable pub ensure_connected : Environment → Exec Session Unit
ensure_connected env s = connected_in s.state (make_connection env) s

abbrev pub hang_up : Bool → Option ℕ → Exec Stub Unit
hang_up send_detach none = pure tt
hang_up send_detach (some _) = if send_detach then detach else modify close

abbrev pub forget : Session → Session
forget s = record s { state = disconnected; breakpoints = [] }

-- The backend, if there is one, is closed and dropped.
abbrev pub detach_memory : Session → Session
detach_memory s = record s { attach_backend = none }

-- `disconnect(send_detach)`
unfoldable pub disconnect : Bool → Exec Session Unit
disconnect send_detach = do
  modify detach_memory
  (λ s. on_stub (hang_up send_detach s.stub.sock) s)
  modify forget

unfoldable pub on_connection_lost : Exec Session Unit
on_connection_lost = disconnect false

-- Memory backend selection

abbrev pub read_backend : Host → Option AttachBackend → ℤ → ℤ → Exec Session Bytes
read_backend host none addr size = on_stub (gdb_mem_read addr size)
read_backend host (some b) addr size =
    if b.handle then lift (attach_read host b addr size) else on_stub (gdb_mem_read addr size)

-- `session.mem.read(addr, size)`
unfoldable pub mem_read : Host → ℤ → ℤ → Exec Session Bytes
mem_read host addr size s = read_backend host s.attach_backend addr size s

abbrev pub write_backend : Host → Option AttachBackend → ℤ → Bytes → Exec Session Unit
write_backend host none addr bytes = on_stub (gdb_mem_write addr bytes)
write_backend host (some b) addr bytes =
    if b.handle then lift (attach_write host b addr bytes) else on_stub (gdb_mem_write addr bytes)

-- `session.mem.write(addr, data)`
unfoldable pub mem_write : Host → ℤ → Bytes → Exec Session Unit
mem_write host addr bytes s = write_backend host s.attach_backend addr bytes s

-- Breakpoint registry

unfoldable pub alloc_bp_id : Exec Session ℕ
alloc_bp_id s = (ok s.next_id, record s { next_id = s.next_id + 1 })

unfoldable pub register_bp : BreakpointSpec → Session → Session
register_bp spec s = record s { breakpoints = insert ◌==◌ spec.bp_id spec s.breakpoints }

unfoldable pub unregister_bp : ℕ → Exec Session (Option BreakpointSpec)
unregister_bp bp_id s = (
  ok (lookup ◌==◌ bp_id s.breakpoints),
  record s { breakpoints = erase ◌==◌ bp_id s.breakpoints },
)

-- `self.watcher is not None and self.watcher.is_alive()`
abbrev pub is_watching : Option Bool → Bool
is_watching (some alive) = alive
is_watching none = false

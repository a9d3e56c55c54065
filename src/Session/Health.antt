-- ===== src/Session/Health.antt =====
-- session.py: `health`.
pub mod Untouched
use dolphin_re_mcp.Prelude.{
  ℕ, Bool, true, false, not, ◌&&◌, Option, none, some, List, [], ◌∷◌, map, if◌then◌else◌, length,
}
use dolphin_re_mcp.Prelude.Int.{ℤ}
use dolphin_re_mcp.Prelude.Dict.{values}
use dolphin_re_mcp.Exec.{Exec, pure, catch, gets, ◌>>=◌, ◌>>◌}
use dolphin_re_mcp.Gdb.Registers.{pc_num}
use dolphin_re_mcp.Gdb.Commands.{probe_responsive, read_register}
use dolphin_re_mcp.Memory.Attach.{AttachBackend}
use dolphin_re_mcp.Session.{
  Session, SessionState, connected_paused, Kind, BreakpointSpec, on_stub, is_exception, is_watching,
}

-- What is told of the attached process, and of a breakpoint.
pub record Attachment : Type 0 where
  pub process : ℕ
  pub mem1_host_base : ℕ
  pub mem2_host_base : ℕ

pub record BreakpointLine : Type 0 where
  pub line_id : ℕ
  pub line_addr : ℤ
  pub line_kind : Kind
  pub line_size : ℤ
  pub continues : Bool
  pub log_size : ℕ

-- What the probe adds; the pc where it was read.
pub record Probed : Type 0 where
  pub stub_responsive : Bool
  pub pc : Option ℕ
  pub pending : ℕ

pub record Health : Type 0 where
  pub known_state : SessionState
  pub watcher_running : Bool
  pub attach : Option Attachment
  pub probed : Option Probed
  pub lines : List BreakpointLine

abbrev pub attachment_of : Option AttachBackend → Option Attachment
attachment_of none = none
attachment_of (some b) = some (record {
  process = b.pid;
  mem1_host_base = b.mem1_region.base_addr;
  mem2_host_base = b.mem2_region.base_addr;
})

abbrev pub line_of : BreakpointSpec → BreakpointLine
line_of b = record {
  line_id = b.bp_id;
  line_addr = b.addr;
  line_kind = b.kind;
  line_size = b.size;
  continues = b.auto_continue;
  log_size = length b.log;
}

abbrev pub is_open : Option ℕ → Bool
is_open none = false
is_open (some timeout) = true

-- `sock_open()`
unfoldable pub sock_open : Session → Bool
sock_open s = is_open s.stub.sock

abbrev pub is_paused_in : SessionState → Bool
is_paused_in connected_paused = true
is_paused_in _ = false

-- The pc is read only where neither the target nor the watcher may interfere.
abbrev pub pc_if : Bool → Exec Session (Option ℕ)
pc_if true = catch (on_stub (read_register pc_num)) is_exception (pure none)
pc_if false = pure none

abbrev pub may_read : Bool → Session → Bool
may_read alive s = alive && (is_paused_in s.state && not (is_watching s.watcher))

unfoldable pub probe_stub : Exec Session Probed
probe_stub = do
  alive ← on_stub (probe_responsive 500_000)
  pc ← (λ s. pc_if (may_read alive s) s)
  gets λ s. record { stub_responsive = alive; pc = pc; pending = length s.stub.pending_replies }

abbrev pub probe_when : Bool → Exec Session (Option Probed)
probe_when true = probe_stub >>= λ p. pure (some p)
probe_when false = pure none

-- The report on `s`, whose breakpoints are listed behind the probe.
abbrev pub report : Session → Option Probed → Session → Health
report s probed u = record {
  known_state = s.state;
  watcher_running = is_watching s.watcher;
  attach = attachment_of s.attach_backend;
  probed = probed;
  lines = map line_of (values u.breakpoints);
}

-- `health(probe)`, without the host, the port and the directory of the dumps.
unfoldable pub health : Bool → Exec Session Health
health probe s = (probe_when (probe && sock_open s) >>= λ probed. gets (report s probed)) s

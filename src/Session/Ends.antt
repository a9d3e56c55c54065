-- ===== src/Session/Ends.antt =====
-- The client's commands, memory accesses and connecting end.
pub mod Client
pub mod Access
pub use Client.*
pub use Access.*
use dolphin_re_mcp.Prelude.{
  ℕ, ◌≤◌, ◌≡◌, refl, Bool, true, false, Option, none, some, List, [], ◌∷◌, if◌then◌else◌, arith,
  suc,
}
use dolphin_re_mcp.Prelude.Int.{ℤ, pos, negsuc}
use dolphin_re_mcp.Prelude.Text.{Text, Bytes, codes, hex_nat}
use dolphin_re_mcp.Errors.{
  Error, Result, ok, err, is_socket_error, is_link_error, attach_error, connection_lost,
}
use dolphin_re_mcp.Exec.{Exec, pure, raise, lift, modify, ◌>>=◌, ◌>>◌}
use dolphin_re_mcp.Gdb.Stub.{Stub, recv, unread, connect, take_fault}
use dolphin_re_mcp.Gdb.Packets.{read_packet, read_packet_from_wire}
use dolphin_re_mcp.Gdb.Packets.Fuel.{Within, Within-error, read_packet_from_wire-Within}
use dolphin_re_mcp.Gdb.Acks.{send_packet, cmd}
use dolphin_re_mcp.Gdb.Acks.Fuel.{send_packet-Within, cmd-Within}
use dolphin_re_mcp.Gdb.Commands.{
  why_halted, raise_if_error, decode_hex, read_registers, read_register, read_register_bytes,
  read_mem, read_mem_packet, break_packet, break_reply, set_break,
}
use dolphin_re_mcp.Gdb.Execution.{continue_async}
use dolphin_re_mcp.Memory.Routing.{route, RoutedAddress}
use dolphin_re_mcp.Memory.Attach.{
  Host, AttachBackend, HostRegion, address_space, find_dolphin, find_regions, choose_regions,
  open_handle, walk_mem_regions, pick_first, mem1_reserved_size, mem2_reserved_size, host_addr,
  based_result, whole, read_at, attach_read, gdb_mem_read,
}
use dolphin_re_mcp.Memory.Attach.Hosts.{walk_mem_regions-ends}
use dolphin_re_mcp.Session.{
  Session, SessionState, disconnected, connected_paused, connected_running, error, Environment,
  is_exception, on_stub, attached, try_attach, reach, auto_resume, auto_resume_unless,
  make_connection, connected_in, ensure_connected, read_backend, mem_read, with_state,
}
use dolphin_re_mcp.Session.Proper.{
  Proper, Ends, Ends-bind, Ends-if, Ends-catch, IsClean, IsClean-if, Proper-if, Ends-lift,
  Ends-on_stub,
}

-- Connecting.
connect-Ends : Ends connect
unfolding connect take_fault
connect-Ends s = ground arith

reach-Ends : Ends reach
unfolding reach why_halted
reach-Ends =
    Ends-catch _ is_socket_error (modify (with_state disconnected) >> raise connection_lost)
      (Ends-bind (on_stub connect) _ (Ends-on_stub connect connect-Ends) λ _.
        Ends-bind (on_stub (cmd (codes "?") none)) (λ _. modify (with_state connected_paused))
          (Ends-on_stub (cmd (codes "?") none) (cmd-Ends (codes "?") none)) λ _ s. tt)
      λ s. refl

-- The system has no regions from the limit of a process's address space on.
abbrev pub Bounded : Host → Type 0
Bounded host = (a : ℕ) → address_space ≤ a → host.query a ≡ none

opened-IsClean :
    (host : Host) (pid : ℕ) (m1 m2 : Option HostRegion) → IsClean (open_handle host pid m1 m2)
opened-IsClean host pid (some m1) (some m2) = ground arith
opened-IsClean host pid (some m1) none = refl
opened-IsClean host pid none m2 = refl

choose_regions-IsClean :
    (host : Host) (pid : ℕ) (r : Result (List HostRegion))
    → IsClean r
    → IsClean (choose_regions host pid r)
choose_regions-IsClean host pid (ok rs) h =
    opened-IsClean host pid (pick_first rs mem1_reserved_size) (pick_first rs mem2_reserved_size)
choose_regions-IsClean host pid (err e) h = h

find_regions-IsClean : (host : Host) (o : Option ℕ) → Bounded host → IsClean (find_regions host o)
find_regions-IsClean host none bounded = refl
find_regions-IsClean host (some pid) bounded =
    let (rs, run) = walk_mem_regions-ends host pid bounded in
    let clean : IsClean (if host.open_process pid then ok rs else err attach_error) =
      ground arith in
    choose_regions-IsClean host pid (walk_mem_regions host pid) (rw run clean)

pub find_dolphin-IsClean : (host : Host) → Bounded host → IsClean (find_dolphin host)
unfolding find_dolphin
find_dolphin-IsClean host bounded =
    IsClean-if host.is_windows (find_regions host host.find_pid) (err attach_error)
      (find_regions-IsClean host host.find_pid bounded) refl

attached-Ends : (r : Result AttachBackend) → IsClean r → Ends (attached r)
attached-Ends (ok b) h s = tt
attached-Ends (err e) h s = ground arith

try_attach-Ends : (host : Host) → Bounded host → Ends (try_attach host)
unfolding try_attach
try_attach-Ends host bounded s =
    Proper-if host.is_windows (attached (find_dolphin host) s) (ok tt, s)
      (attached-Ends (find_dolphin host) (find_dolphin-IsClean host bounded) s) tt

pub continue_async-Ends : Ends continue_async
unfolding continue_async
continue_async-Ends = send_packet-Ends (codes "c")

auto_resume_unless-Ends : (off : Bool) → Ends (auto_resume_unless off)
unfolding auto_resume
auto_resume_unless-Ends true s = tt
auto_resume_unless-Ends false s =
    Ends-catch (on_stub continue_async >> modify (with_state connected_running)) is_exception
      (pure tt)
      (Ends-bind (on_stub continue_async) (λ _. modify (with_state connected_running))
        (Ends-on_stub continue_async continue_async-Ends) λ _ t. tt)
      (λ t. tt) s

make_connection-Ends : (env : Environment) → Bounded env.host → Ends (make_connection env)
unfolding make_connection
make_connection-Ends env bounded = Ends-bind reach _ reach-Ends λ _.
    Ends-bind (try_attach env.host) (λ _. auto_resume_unless env.no_auto_resume)
      (try_attach-Ends env.host bounded) λ _. auto_resume_unless-Ends env.no_auto_resume

connected_in-Ends :
    (state : SessionState) (m : Exec Session Unit) → Ends m → Ends (connected_in state m)
connected_in-Ends connected_paused m h s = tt
connected_in-Ends connected_running m h s = tt
connected_in-Ends disconnected m h s = h s
connected_in-Ends error m h s = h s

pub ensure_connected-Ends : (env : Environment) → Bounded env.host → Ends (ensure_connected env)
unfolding ensure_connected
ensure_connected-Ends env bounded s =
    connected_in-Ends s.state (make_connection env) (make_connection-Ends env bounded) s

-- ===== src/Tests/Session.antt =====
-- A session with one watchpoint that captures, and one breakpoint.
use dolphin_re_mcp.Prelude.{
  arith, map, ◌≡◌, refl, List, [], ◌∷◌, ◌++◌, none, some, ℕ, Bool, true, false,
}
use dolphin_re_mcp.Prelude.Int.{ℤ, pos, eqb_ℤ}
use dolphin_re_mcp.Prelude.Text.{codes, Text}
use dolphin_re_mcp.Errors.{ok, err, wrong_state}
use dolphin_re_mcp.Exec.Along.{OnReturn, OnValue}
use dolphin_re_mcp.Tools.Execution.{pause, resume, get_stack}
use dolphin_re_mcp.Tools.Modes.{modes-OnReturn}
use dolphin_re_mcp.Tools.Execution.Stack.{Walked, get_stack-Climbs}
use dolphin_re_mcp.Gdb.Socket.{Event}
use dolphin_re_mcp.Gdb.Stub.{Stub}
use dolphin_re_mcp.Gdb.StopReply.{parse_stop_reply, blank, pc, reg_name}
use dolphin_re_mcp.Gdb.Registers.{reg_names}
use dolphin_re_mcp.Gdb.Packets.{read_packet}
use dolphin_re_mcp.Gdb.StopReply.Fields.{
  parse_stop_reply_lem, register, watchpoint, on_write, encode, tell_all,
}
use dolphin_re_mcp.Prelude.Text.{
  terminated, to_hex, parse_int, rstrip_char, split_on, split_once, eq_text,
}
use dolphin_re_mcp.Gdb.Commands.{add_sw_breakpoint}
use dolphin_re_mcp.Gdb.Execution.{wait_for_stop}
use dolphin_re_mcp.Symbols.{SymbolMap}
use dolphin_re_mcp.Memory.Attach.{Host}
use dolphin_re_mcp.Session.{
  Session, disconnected, connected_paused, connected_running, BreakpointSpec, Kind, write_wp, sw_bp,
  Capture, Environment, new_session, disconnect, on_stub,
}
use dolphin_re_mcp.Session.Disconnect.{disconnect-Clears}
use dolphin_re_mcp.Session.WellFormed.{WellFormed}
use dolphin_re_mcp.Tools.Quiesce.{safe_to_modify}
use dolphin_re_mcp.Tools.Quiesce.Resumes.{InState}
use dolphin_re_mcp.Tools.Quiesce.Around.{Modified, safe_to_modify-Modified}
use dolphin_re_mcp.Tools.Matching.{match_bp, matching_spec}
use dolphin_re_mcp.Tools.Breakpoints.{
  add_breakpoint, add_watchpoint, remove, wait_for_hit, any_auto_continue,
}
use dolphin_re_mcp.Tools.Breakpoints.Registry.{
  Added, Removed, add_breakpoint-Added, add_watchpoint-Added, remove-Removed,
}
use dolphin_re_mcp.Tools.Watcher.{handle_stop, watch}
use dolphin_re_mcp.Tools.Watcher.Handling.{Handled, handle_stop-Handled}
use dolphin_re_mcp.Tools.Watcher.Turns.{watch-surfaces}
use dolphin_re_mcp.Tools.Reachable.{start, turn, adds_breakpoint, Reachable-WellFormed}

abbrev pub opened : List Event → List Text → Stub
opened es pending = record {
  sock = some 5_000_000;
  default_timeout = 5_000_000;
  recv_buf = [];
  pending_replies = pending;
  diag = [];
  diag_buf_size = 256;
  last_send_ts = none;
  last_send_payload = none;
  wire = record { incoming = es; send_faults = []; dial_faults = []; sent = []; clock = 7 };
}

abbrev spec : ℕ → ℤ → Kind → Bool → BreakpointSpec
spec bp_id addr kind auto = record {
  bp_id = bp_id;
  addr = addr;
  kind = kind;
  size = pos 4;
  condition = none;
  captures = [];
  auto_continue = auto;
  log = [];
}

-- The hit of the breakpoint waits among the pending replies.
abbrev pub hunting : Session
hunting = record {
  stub = opened [] (codes "T0540:80004304;01:8059a1b0;" ∷ []);
  state = connected_running;
  attach_backend = none;
  breakpoints =
      (1, spec 1 (pos 0x806bbc74) write_wp true) ∷ (2, spec 2 (pos 0x80004304) sw_bp false) ∷ [];
  next_id = 3;
  watcher = some true;
}

abbrev pub hunting-WellFormed : WellFormed hunting
hunting-WellFormed = (refl, omega arith, (refl, tt), (refl, omega arith, tt, tt))

abbrev pub no_process : Host
no_process = record {
  is_windows = false;
  find_pid = none;
  open_process = λ pid. true;
  query = λ a. none;
  read_process = λ a n. none;
  write_process = λ a bytes. none;
}

abbrev pub env : Environment
env = record { no_auto_resume = false; host = no_process }

-- No map file is loaded.
abbrev pub no_symbols : SymbolMap
no_symbols = record { symbols = []; sorted_addrs = []; exact = []; skipped = 0 }

-- A predicate that wants every hit.
abbrev pub always : Text → Capture → Bool
always condition capture = true

parse_stop_reply_lem_example :
    parse_stop_reply (
      b'T'
      ∷ (to_hex (5 ∷ [])
          ++ terminated b';' (
              map encode (
                register 0 0x40 0 0x80004304
                ∷ register 1 1 0 0x8059a1b0
                ∷ watchpoint on_write 0 0x806bbc74
                ∷ []))))
    ≡ tell_all
        (record (blank (
          b'T'
          ∷ (to_hex (5 ∷ [])
              ++ terminated b';' (
                  map encode (
                    register 0 0x40 0 0x80004304
                    ∷ register 1 1 0 0x8059a1b0
                    ∷ watchpoint on_write 0 0x806bbc74
                    ∷ []))))) { signal = some (pos 5) })
        (register 0 0x40 0 0x80004304
          ∷ register 1 1 0 0x8059a1b0
          ∷ watchpoint on_write 0 0x806bbc74
          ∷ [])
parse_stop_reply_lem_example =
    parse_stop_reply_lem 5
      (register 0 0x40 0 0x80004304
        ∷ register 1 1 0 0x8059a1b0
        ∷ watchpoint on_write 0 0x806bbc74
        ∷ [])
      (omega arith) (tt, (tt, (tt, tt)))

disconnect-Clears_example :
    (t : Session) × (disconnect true hunting ≡ (ok tt, t))
    × (t.state ≡ disconnected)
    × (t.breakpoints ≡ [])
    × (t.attach_backend ≡ none)
    × (t.stub.sock ≡ none)
disconnect-Clears_example = disconnect-Clears true hunting

safe_to_modify-Modified_example :
    Modified
      (add_sw_breakpoint (pos 0x80004304))
      hunting
      connected_running
      (safe_to_modify (on_stub (add_sw_breakpoint (pos 0x80004304))) hunting)
safe_to_modify-Modified_example =
    safe_to_modify-Modified (add_sw_breakpoint (pos 0x80004304)) hunting

add_breakpoint-Added_example :
    Added (pos 0x80004304) (pos 4) hunting (add_breakpoint env (pos 0x80004304) hunting)
add_breakpoint-Added_example = add_breakpoint-Added env (pos 0x80004304) hunting hunting-WellFormed

add_watchpoint-Added_example :
    Added
      (pos 0x806bbc78)
      (pos 8)
      hunting
      (add_watchpoint env (pos 0x806bbc78) (pos 8) (codes "Write") hunting)
add_watchpoint-Added_example =
    add_watchpoint-Added env (pos 0x806bbc78) (pos 8) (codes "Write") hunting hunting-WellFormed

remove-Removed_example : Removed 2 hunting (remove env 2 hunting)
remove-Removed_example = remove-Removed env 2 hunting

handle_stop-Handled_example :
    Handled always (codes "T05") hunting (handle_stop always (codes "T05") hunting)
handle_stop-Handled_example = handle_stop-Handled always (codes "T05") hunting

abbrev surfaced : Session
surfaced = record hunting { stub = opened [] [] }

watch-surfaces_example :
    let v = watch always hunting in
    (v.stub.pending_replies ≡ codes "T0540:80004304;01:8059a1b0;" ∷ [])
    × ((wait_for_hit env 30_000_000 v).0 ≡ err wrong_state)
unfolding any_auto_continue wait_for_stop read_packet handle_stop match_bp matching_spec
    parse_stop_reply parse_int rstrip_char split_on split_once pc eq_text reg_name reg_names eqb_ℤ
watch-surfaces_example =
    watch-surfaces always env 30_000_000 (codes "T0540:80004304;01:8059a1b0;") hunting surfaced
      surfaced refl refl refl refl

Reachable-WellFormed_example :
    WellFormed (add_breakpoint env (pos 0x80004304) (new_session (opened [] []))).1
Reachable-WellFormed_example =
    Reachable-WellFormed (λ blob at. []) no_symbols env always (opened [] []) _
      (turn (new_session (opened [] [])) _ start
        (adds_breakpoint (pos 0x80004304) (new_session (opened [] []))))

modes-OnReturn_example :
    OnReturn (InState connected_paused) (pause env surfaced)
    × OnReturn (InState connected_running) (resume env surfaced)
    × OnReturn (InState connected_paused) (wait_for_hit env 30_000_000 surfaced)
modes-OnReturn_example = modes-OnReturn env 30_000_000 surfaced

get_stack-Climbs_example : OnValue (Walked 4 0) (get_stack env 4 surfaced)
get_stack-Climbs_example = get_stack-Climbs env 4 surfaced

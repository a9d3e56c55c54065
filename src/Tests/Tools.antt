-- ===== src/Tests/Tools.antt =====
-- The tools over a process that does not answer, and the doctor.
use dolphin_re_mcp.Prelude.{ℕ, ◌&&◌, ◌≡◌, refl, none, some, true, false, [], ◌∷◌}
use dolphin_re_mcp.Prelude.Int.{pos, ◌+ℤ◌, ◌-ℤ◌, pos_part}
use dolphin_re_mcp.Prelude.Text.{
  codes, from_hex, eq_text, starts_with, big_endian, split_once, digit_value, hex_nat, hex_digit,
}
use dolphin_re_mcp.Errors.{ok, err, os_error, attribute_error}
use dolphin_re_mcp.Exec.Along.{OnRun}
use dolphin_re_mcp.Memory.Attach.{Host, attach_read, host_addr}
use dolphin_re_mcp.Memory.Routing.{route}
use dolphin_re_mcp.Disasm.Decode.{Capstone}
use dolphin_re_mcp.Session.{
  Session, connected_running, connected_paused, Environment, ensure_connected, mem_read,
}
use dolphin_re_mcp.Tools.Memory.Search.{search_mem}
use dolphin_re_mcp.Session.Proper.{Proper}
use dolphin_re_mcp.Session.Health.{Health, health, sock_open}
use dolphin_re_mcp.Session.Health.Untouched.{health-ReadOnly}
use dolphin_re_mcp.Cli.{Surroundings, doctor, dependency_failures, is_missing, find_dolphin_pid}
use dolphin_re_mcp.Cli.Doctor.{doctor-Passes}
use dolphin_re_mcp.Tools.Breakpoints.{
  add_breakpoint, add_watchpoint, remove, remove_all, wait_for_hit, capture_on_hit,
}
use dolphin_re_mcp.Tools.Ends.{registry-Proper}
use dolphin_re_mcp.Tools.Execution.{run_until}
use dolphin_re_mcp.Tools.Step.{step_over, step_out}
use dolphin_re_mcp.Tools.Step.Temporary.{Restored, runs-Restored}
use dolphin_re_mcp.Tools.Step.Undecoded.{step_over-undecoded}
use dolphin_re_mcp.Tools.Compound.{trace_until}
use dolphin_re_mcp.Tools.Compound.Timeline.{Trace, trace_until-Timeline}
use dolphin_re_mcp.Tools.Quiesce.{quiesce_for_modify}
use dolphin_re_mcp.Tools.Quiesce.Ends.{quiesce_for_modify-Returns}
use dolphin_re_mcp.Gdb.Socket.{Wire, chunk, receive}
use dolphin_re_mcp.Gdb.Stub.{Stub, record_send, record_recv, append_bounded, take_fault}
use dolphin_re_mcp.Gdb.Packets.{
  require_sock, send_or_close, send_all, recv_some, read_packet_from_wire, read_packet_body,
  fill_until, fill, has_start, fill_once, has_end, ends_of, has_checksum, packet_of, take_packet,
  body_of, set_timeout?, set_timeout, after_checksum, frame, checksum,
}
use dolphin_re_mcp.Gdb.Acks.{
  cmd, consume_ack, ack_byte, send_packet, ack_loop, ack_round, read_exact, read_more,
}
use dolphin_re_mcp.Gdb.Registers.{pc_num}
use dolphin_re_mcp.Gdb.Commands.{read_register, register_reply}
use dolphin_re_mcp.Tests.Session.{opened, env, no_symbols, hunting, hunting-WellFormed}
use dolphin_re_mcp.Tests.Search.{zeros, zero_env, in_process}

-- Capstone as one that knows the return alone.
abbrev only_blr : Capstone
only_blr blob at = record { address = at; mnemonic = codes "blr"; op_str = [] } ∷ []

runs-Restored_example :
    Restored hunting (run_until env (pos 0x80004304) 30_000_000 hunting)
    × Restored hunting (step_over only_blr no_symbols env hunting)
    × Restored hunting (step_out only_blr no_symbols env hunting)
runs-Restored_example =
    runs-Restored only_blr no_symbols env (pos 0x80004304) 30_000_000 hunting hunting-WellFormed

trace_until-Timeline_example :
    OnRun
      (Trace only_blr no_symbols zero_env none true 0 (pos_part (pos 3)))
      (trace_until only_blr no_symbols zero_env none true (pos 3) [] in_process)
trace_until-Timeline_example =
    trace_until-Timeline only_blr no_symbols zero_env none true (pos 3) [] in_process

quiesce_for_modify-Returns_example :
    (t : Session) × (quiesce_for_modify hunting ≡ (ok tt, t))
    × (hunting.state ≡ connected_running → t.state ≡ connected_paused)
quiesce_for_modify-Returns_example = quiesce_for_modify-Returns hunting

-- The peer tells the pc, and the process cannot be read.
abbrev unreadable : Host
unreadable = record zeros { read_process = λ a n. none }

abbrev unread_env : Environment
unread_env = record { no_auto_resume = false; host = unreadable }

abbrev told : Session
told = record in_process {
  state = connected_paused;
  stub = opened (chunk b'+' (codes "$80004304#93") ∷ []) [];
}

step_over-undecoded_example :
    step_over only_blr no_symbols unread_env told
    ≡ (err attribute_error, record told { stub = (read_register pc_num told.stub).1 })
unfolding read_register cmd send_packet require_sock send_or_close send_all record_send consume_ack
    ack_loop ack_round read_exact read_more recv_some ack_byte read_packet_from_wire
    read_packet_body fill_until fill has_start fill_once has_end ends_of has_checksum packet_of
    take_packet body_of set_timeout? register_reply from_hex starts_with big_endian eq_text mem_read
    attach_read host_addr route ◌+ℤ◌ ◌-ℤ◌ split_once after_checksum set_timeout digit_value hex_nat
    hex_digit frame checksum receive record_recv append_bounded take_fault
step_over-undecoded_example =
    step_over-undecoded only_blr no_symbols unread_env told
      (record told { stub = (read_register pc_num told.stub).1 }) (read_register pc_num told.stub).1
      0x80004304 os_error tt refl refl refl refl

registry-Proper_example :
    Proper (ensure_connected env hunting)
    × Proper (add_breakpoint env (pos 0x80004308) hunting)
    × Proper (add_watchpoint env (pos 0x80004308) (pos 4) (codes "read") hunting)
    × Proper (remove env 2 hunting)
    × Proper (remove_all env hunting)
    × Proper (wait_for_hit env 30_000_000 hunting)
    × Proper (capture_on_hit env 2 (codes "lr" ∷ []) true hunting)
    × Proper (search_mem env (codes "0000") (codes "mem2") hunting)
registry-Proper_example =
    registry-Proper env (λ a h. refl) hunting (pos 0x80004308) (pos 4) 2 30_000_000 (codes "read")
      (codes "0000") (codes "mem2") (codes "lr" ∷ []) true

health-ReadOnly_example :
    (h : Health) × (t : Stub) × (health true told ≡ (ok h, record told { stub = t }))
    × (h.known_state ≡ told.state)
    × ((true && sock_open told) ≡ false → t ≡ told.stub)
health-ReadOnly_example = health-ReadOnly true told

-- A stub that stops listening when the first connection is closed.
abbrev one_shot : Wire
one_shot = record told.stub.wire { dial_faults = false ∷ true ∷ [] }

abbrev prepared : Surroundings
prepared = record { importable = λ m. true; dolphin_pid = some 4711; host = zeros }

doctor-Passes_example :
    (code : ℕ) × (t : Wire) × (doctor prepared one_shot ≡ (ok code, t))
    × (code ≡ 0
        → (dependency_failures prepared ≡ 0)
          × (is_missing (find_dolphin_pid prepared) ≡ false)
          × ((take_fault one_shot.dial_faults).0 ≡ false)
          × ((take_fault (take_fault one_shot.dial_faults).1).0 ≡ false))
doctor-Passes_example = doctor-Passes prepared (λ a h. refl) one_shot

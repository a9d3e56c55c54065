-- ===== src/Tests/Gdb.antt =====
-- A session with a peer that cuts its packets anywhere.
use dolphin_re_mcp.Prelude.{
  arith, inr, ◌≡◌, refl, List, [], ◌∷◌, ◌++◌, none, some, map, true, ◌<◌, ◌↔◌,
}
use dolphin_re_mcp.Prelude.Int.{pos}
use dolphin_re_mcp.Prelude.Text.{codes, Bytes}
use dolphin_re_mcp.Errors.{ok, timed_out, is_link_error}
use dolphin_re_mcp.Exec.{Returns, modify, ◌>>=◌}
use dolphin_re_mcp.Gdb.Execution.{wait_for_stop}
use dolphin_re_mcp.Gdb.Execution.Stale.{pending-survives}
use dolphin_re_mcp.Gdb.Stub.{connect, close}
use dolphin_re_mcp.Gdb.Registers.{parse_dolphin_gprs}
use dolphin_re_mcp.Gdb.Registers.Words.{words, named_from, parse_dolphin_gprs-words}
use dolphin_re_mcp.Gdb.Socket.{Event, chunk, flow}
use dolphin_re_mcp.Gdb.Stub.{Stub, recv, record_send}
use dolphin_re_mcp.Gdb.Packets.{
  frame, decode, packet_of, read_packet_from_wire, require_sock, send_or_close, send_all, recv_some,
}
use dolphin_re_mcp.Gdb.Packets.Reading.{stream}
use dolphin_re_mcp.Gdb.Packets.Delivery.{received, read_packet_from_wire_lem}
use dolphin_re_mcp.Gdb.Acks.{
  cmd, consume_ack, send_packet, ack_loop, ack_round, read_exact, read_more,
}
use dolphin_re_mcp.Gdb.Acks.Exchange.{cmd_exchange, acks}
use dolphin_re_mcp.Gdb.Acks.Fuel.{cmd-errors}
use dolphin_re_mcp.Gdb.Commands.{
  is_alive, probe_responsive, detach, read_mem_packet, write_mem_packet, break_packet,
}
use dolphin_re_mcp.Gdb.Commands.Robust.{probes-Return}
use dolphin_re_mcp.Gdb.Commands.Fields.{
  break_size, break_packet_size_iff, mem_range, mem_packets, mem_data,
}

-- Cut after the first byte.
abbrev chunks : Bytes → List Event
chunks [] = []
chunks (c ∷ []) = chunk c [] ∷ []
chunks (c ∷ d ∷ cs) = chunk c [] ∷ chunk d cs ∷ []

abbrev stop_reply : Bytes
stop_reply = codes "T05"

abbrev opened : List Event → Stub
opened es = record {
  sock = some 5_000_000;
  default_timeout = 5_000_000;
  recv_buf = [];
  pending_replies = codes "S02" ∷ [];
  diag = [];
  diag_buf_size = 256;
  last_send_ts = none;
  last_send_payload = none;
  wire = record { incoming = es; send_faults = []; dial_faults = []; sent = []; clock = 7 };
}

-- A stop reply overtakes the acknowledgement of a query.
abbrev busy : Stub
busy = opened (chunks (codes "$T05#b9+$OK#9a"))

abbrev answering : Stub
answering = opened (chunks (codes "$T05#b9+"))

abbrev telling : Stub
telling = opened (chunks (codes "noise$T05#b9$"))

read_packet_from_wire_lem_example :
    (b : Bytes) × (es : List Event) × (read_packet_from_wire (some 20_000) recv telling
      ≡ (ok (decode stop_reply), received recv stop_reply b es telling))
    × (b ++ flow es ≡ codes "$")
unfolding packet_of
read_packet_from_wire_lem_example =
    read_packet_from_wire_lem (some 20_000) recv telling stop_reply (codes "$") refl refl refl

cmd_exchange_example :
    (u : Stub) × (cmd (codes "g") none busy ≡ (ok (decode (codes "OK")), u))
    × (stream u ≡ [])
    × (u.pending_replies ≡ busy.pending_replies ++ map decode (stop_reply ∷ []))
    × (u.wire.sent
        ≡ ((busy.wire.sent ++ frame (codes "g")) ++ acks (stop_reply ∷ [])) ++ (b'+' ∷ []))
    × (u.sock ≡ some 5_000_000)
unfolding frame
cmd_exchange_example =
    cmd_exchange (codes "g") none (stop_reply ∷ []) (codes "OK") [] busy refl refl
      ((refl, (refl, (refl, tt))), tt) (refl, (refl, tt)) refl

cmd-errors_example : is_link_error timed_out ≡ true
unfolding cmd send_packet require_sock send_or_close send_all record_send consume_ack ack_loop
    ack_round read_exact read_more recv_some
cmd-errors_example = cmd-errors (codes "g") none (opened []) timed_out refl

probes-Return_example :
    Returns (is_alive busy) × Returns (probe_responsive 500_000 busy) × Returns (detach busy)
probes-Return_example = probes-Return 500_000 busy

mem_packets_example :
    (mem_range (read_mem_packet (pos 0x80004304) (pos 16)) ≡ some (pos 0x80004304, pos 16))
    × (mem_data (write_mem_packet (pos 0x80004304) (0x60 ∷ 0 ∷ 0 ∷ 0 ∷ []))
        ≡ some (pos 0x80004304, pos 4, 0x60 ∷ 0 ∷ 0 ∷ 0 ∷ []))
mem_packets_example =
    mem_packets 0x80004304 16 (0x60 ∷ 0 ∷ 0 ∷ 0 ∷ [])
      (omega arith, (omega arith, (omega arith, (omega arith, tt))))

break_packet_size_iff_example :
    (break_size (break_packet (codes "Z2") (pos 0x806bbc74) (pos 16)) ≡ some (pos 16)) ↔ (16 < 10)
break_packet_size_iff_example = break_packet_size_iff (codes "Z2") 0x806bbc74 16 (refl, (refl, tt))

pending-survives_example :
    ((modify close >>= λ _. connect >>= λ _. wait_for_stop none) busy).0 ≡ ok (codes "S02")
pending-survives_example = pending-survives none (codes "S02") [] busy refl refl refl

parse_dolphin_gprs-words_example :
    parse_dolphin_gprs (words (0x80004304 ∷ 0x8059a1b0 ∷ []) ++ (1 ∷ 2 ∷ []))
    ≡ named_from 0 (0x80004304 ∷ 0x8059a1b0 ∷ [])
parse_dolphin_gprs-words_example =
    parse_dolphin_gprs-words (0x80004304 ∷ 0x8059a1b0 ∷ []) (1 ∷ 2 ∷ []) (omega arith)
      (inr (omega arith))

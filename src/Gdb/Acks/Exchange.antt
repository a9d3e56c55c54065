-- ===== src/Gdb/Acks/Exchange.antt =====
-- One command and its reply, from the first byte sent to the last one read.
use dolphin_re_mcp.Prelude.{
  ℕ, ◌≡◌, refl, sym, ap, ◌∙◌, Option, some, List, [], ◌∷◌, ◌++◌, append_assoc, append-nil, map, All,
}
use dolphin_re_mcp.Prelude.Text.{Text, Bytes, Lacks}
use dolphin_re_mcp.Errors.{ok}
use dolphin_re_mcp.Gdb.Stub.{Stub, recv, record_send, record_recv}
use dolphin_re_mcp.Gdb.Packets.{frame, decode, packet_of}
use dolphin_re_mcp.Gdb.Packets.Reading.{with_input, stream}
use dolphin_re_mcp.Gdb.Packets.Delivery.{received, read_packet_from_wire_lem, packet_of-frame}
use dolphin_re_mcp.Gdb.Acks.{cmd}
use dolphin_re_mcp.Gdb.Acks.Order.{queued, all_queued, frames}
use dolphin_re_mcp.Gdb.Acks.Commands.{dispatched, send_packet_lem}

-- One `+` for each packet that was read.
abbrev pub acks : List Bytes → Bytes
acks = map (λ _. b'+')

all_queued-sock : (s : Stub) (ps : List Bytes) → (all_queued s ps).sock ≡ s.sock
unfolding record_recv
all_queued-sock s [] = refl
all_queued-sock s (p ∷ ps) = all_queued-sock (queued s p) ps

all_queued-send_faults :
    (s : Stub) (ps : List Bytes) → (all_queued s ps).wire.send_faults ≡ s.wire.send_faults
unfolding record_recv
all_queued-send_faults s [] = refl
all_queued-send_faults s (p ∷ ps) = all_queued-send_faults (queued s p) ps

all_queued-pending :
    (s : Stub) (ps : List Bytes)
    → (all_queued s ps).pending_replies ≡ s.pending_replies ++ map decode ps
unfolding record_recv
all_queued-pending s [] = sym (append-nil s.pending_replies)
all_queued-pending s (p ∷ ps) =
    all_queued-pending (queued s p) ps ∙ append_assoc s.pending_replies _ _

all_queued-sent :
    (s : Stub) (ps : List Bytes) → (all_queued s ps).wire.sent ≡ s.wire.sent ++ acks ps
unfolding record_recv
all_queued-sent s [] = sym (append-nil s.wire.sent)
all_queued-sent s (p ∷ ps) = all_queued-sent (queued s p) ps ∙ append_assoc s.wire.sent _ _

-- A command on an open socket whose sends succeed, against a peer that sends the frames of `ps`,
-- the acknowledgement, the frame of `reply` and then `rest`, cut into chunks in any way:
-- the call returns `reply`; the payloads of `ps` are behind the replies that were pending, in
-- order; exactly `rest` is left to read; what was sent is the frame of the command and one `+`
-- for each packet; and the socket keeps its timeout.
pub cmd_exchange :
    (payload : Text) (timeout : Option ℕ) (ps : List Bytes) (reply rest : Bytes) (s : Stub) {t : ℕ}
    → s.sock ≡ some t
    → s.wire.send_faults ≡ []
    → All (Lacks b'#') ps
    → Lacks b'#' reply
    → stream s ≡ frames ps ++ (b'+' ∷ (frame reply ++ rest))
    → (u : Stub) × (cmd payload timeout s ≡ (ok (decode reply), u))
      × (stream u ≡ rest)
      × (u.pending_replies ≡ s.pending_replies ++ map decode ps)
      × (u.wire.sent ≡ ((s.wire.sent ++ frame payload) ++ acks ps) ++ (b'+' ∷ []))
      × (u.sock ≡ some t)
unfolding cmd record_send record_recv
cmd_exchange payload timeout ps reply rest s {t} is_open sends lacks lacks_reply h =
    let s0 = dispatched payload s in
    let (b, es, run, kept) =
      send_packet_lem payload ps s (frame reply ++ rest) is_open sends lacks h in
    let s1 = with_input b es (all_queued s0 ps) in
    let open1 : s1.sock ≡ some t = all_queued-sock s0 ps ∙ is_open in
    let sends1 : s1.wire.send_faults ≡ [] = all_queued-send_faults s0 ps ∙ sends in
    let whole : packet_of (stream s1) ≡ some (reply, rest) =
      ap packet_of kept ∙ packet_of-frame reply rest lacks_reply in
    let (b', es', run', kept') =
      read_packet_from_wire_lem timeout recv s1 reply rest open1 whole sends1 in
    (
      received recv reply b' es' s1,
      rw run run',
      kept',
      all_queued-pending s0 ps,
      ap (λ (x : Bytes). x ++ b'+' ∷ []) (all_queued-sent s0 ps),
      open1,
    )

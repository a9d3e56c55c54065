-- ===== src/Gdb/Acks/Commands.antt =====
-- `_consume_ack`, `_send_packet` and `cmd` against a peer that queues packets before it answers.
use dolphin_re_mcp.Prelude.{
  ℕ, zero, suc, ◌<◌, ◌≤◌, ◌≡◌, refl, ap, ◌∙◌, some, List, [], ◌∷◌, ◌++◌, append_assoc, arith,
  length, length-append, All,
}
use dolphin_re_mcp.Prelude.Text.{Text, Bytes, Lacks}
use dolphin_re_mcp.Errors.{ok}
use dolphin_re_mcp.Gdb.Socket.{Event, chunk, closed, quiet, broken, flow, weight}
use dolphin_re_mcp.Gdb.Stub.{Stub, record_send, record_recv, unread}
use dolphin_re_mcp.Gdb.Packets.{frame}
use dolphin_re_mcp.Gdb.Packets.Reading.{with_input, stream}
use dolphin_re_mcp.Gdb.Packets.Delivery.{with_sent, require_sock_lem, send_or_close_lem}
use dolphin_re_mcp.Gdb.Acks.{ack_loop, consume_ack, send_packet}
use dolphin_re_mcp.Gdb.Acks.Order.{queued, all_queued, frames, ack_round_done, ack_round_again}

all_queued-with_input :
    (b b' : Bytes) (es es' : List Event) (s : Stub) (ps : List Bytes)
    → with_input b' es' (all_queued (with_input b es s) ps) ≡ with_input b' es' (all_queued s ps)
unfolding record_recv
all_queued-with_input b b' es es' s [] = refl
all_queued-with_input b b' es es' s (p ∷ ps) = all_queued-with_input b b' es es' (queued s p) ps

ack_loop_lem :
    (ps : List Bytes) (fuel : ℕ) (s : Stub) {t : ℕ} (rest : Bytes)
    → length ps < fuel
    → s.sock ≡ some t
    → s.wire.send_faults ≡ []
    → All (Lacks b'#') ps
    → stream s ≡ frames ps ++ (b'+' ∷ rest)
    → (b : Bytes) × (es : List Event) × (ack_loop fuel s
        ≡ (ok tt, with_input b es (all_queued s ps)))
      × (b ++ flow es ≡ rest)
unfolding ack_loop record_recv
ack_loop_lem ps zero s rest w is_open sends lacks h = absurd (omega arith)
ack_loop_lem [] (suc fuel) s rest w is_open sends lacks h =
    let (b, es, run, kept) = ack_round_done s rest is_open h in (b, es, rw run, kept)
ack_loop_lem (p ∷ ps) (suc fuel) s rest w is_open sends lacks h =
    let more = frames ps ++ (b'+' ∷ rest) in
    let (b, es, run, kept) =
      ack_round_again s p more is_open sends lacks.0 (h ∙ append_assoc (frame p) (frames ps) _) in
    let (b', es', run', kept') =
      ack_loop_lem ps fuel (with_input b es (queued s p)) rest (omega arith) is_open sends lacks.1
        kept in
    (
      b',
      es',
      rw run (
          run' ∙ ap (λ (u : Stub). (ok tt, u)) (all_queued-with_input b b' es es' (queued s p) ps)),
      kept',
    )

frames-long : (ps : List Bytes) → length ps ≤ length (frames ps)
unfolding frame
frames-long [] = omega arith
frames-long (p ∷ ps) = omega (arith, frames-long ps, length-append (frame p) (frames ps))

flow-short : (es : List Event) → length (flow es) ≤ weight es
flow-short [] = omega arith
flow-short (chunk c cs ∷ es) = omega (arith, flow-short es, length-append cs (flow es))
flow-short (closed ∷ es) = omega arith
flow-short (quiet ∷ es) = omega arith
flow-short (broken ∷ es) = omega arith

stream-short : (s : Stub) → length (stream s) ≤ unread s
stream-short s =
    omega (arith, flow-short s.wire.incoming, length-append s.recv_buf (flow s.wire.incoming))

-- What `_consume_ack` does with the packets in front of the acknowledgement.
consume_ack_lem :
    (ps : List Bytes) (s : Stub) {t : ℕ} (rest : Bytes)
    → s.sock ≡ some t
    → s.wire.send_faults ≡ []
    → All (Lacks b'#') ps
    → stream s ≡ frames ps ++ (b'+' ∷ rest)
    → (b : Bytes) × (es : List Event) × (consume_ack s ≡ (ok tt, with_input b es (all_queued s ps)))
      × (b ++ flow es ≡ rest)
unfolding consume_ack
consume_ack_lem ps s rest is_open sends lacks h =
    let enough : length ps < suc (unread s) = omega (
      arith,
      frames-long ps,
      length-append (frames ps) (b'+' ∷ rest),
      stream-short s,
      ap length h,
    ) in
    ack_loop_lem ps (suc (unread s)) s rest enough is_open sends lacks h

-- The state once a packet is on its way.
abbrev pub dispatched : Text → Stub → Stub
dispatched payload s = with_sent (frame payload) (record_send payload s)

pub send_packet_lem :
    (payload : Text) (ps : List Bytes) (s : Stub) {t : ℕ} (rest : Bytes)
    → s.sock ≡ some t
    → s.wire.send_faults ≡ []
    → All (Lacks b'#') ps
    → stream s ≡ frames ps ++ (b'+' ∷ rest)
    → (b : Bytes) × (es : List Event) × (send_packet payload s
        ≡ (ok tt, with_input b es (all_queued (dispatched payload s) ps)))
      × (b ++ flow es ≡ rest)
unfolding send_packet record_send
send_packet_lem payload ps s {t} rest is_open sends lacks h =
    let s' = dispatched payload s in
    let (b, es, run, kept) = consume_ack_lem ps s' rest is_open sends lacks h in
    (
      b,
      es,
      rw (
        require_sock_lem s is_open,
        send_or_close_lem (frame payload) (record_send payload s) sends,
        run,
      ),
      kept,
    )

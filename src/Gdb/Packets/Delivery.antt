-- ===== src/Gdb/Packets/Delivery.antt =====
-- `_read_packet_from_wire` as a function of the stream.
use dolphin_re_mcp.Prelude.{
  ℕ, ◌/◌, ◌%◌, ◌≡◌, sym, ap, ◌∙◌, Option, none, some, List, [], ◌∷◌, ◌++◌, append_assoc, arith,
}
use dolphin_re_mcp.Prelude.Text.{Bytes, hex_digit, Lacks, split_once, split_once-Lacks}
use dolphin_re_mcp.Errors.{ok}
use dolphin_re_mcp.Gdb.Socket.{Event, flow}
use dolphin_re_mcp.Gdb.Stub.{Stub, Direction, record_recv, take_fault}
use dolphin_re_mcp.Gdb.Packets.{
  packet_of, has_start, has_end, has_checksum, take_packet, send_all, frame, checksum, ends_of,
  body_of, after_checksum, read_packet_body, read_packet_from_wire, send_or_close, decode,
  require_sock, set_timeout, set_timeout?,
}
use dolphin_re_mcp.Gdb.Packets.Reading.{
  with_input, stream, fill_until_lem, packet_of-append, packet-tests, has_checksum-packet,
}

-- A frame is a packet with its payload, if no `#` stands in the payload.
pub packet_of-frame : (p rest : Bytes) → Lacks b'#' p → packet_of (frame p ++ rest) ≡ some (p, rest)
unfolding packet_of frame ends_of body_of after_checksum split_once
packet_of-frame p rest h =
    let x = hex_digit (checksum p / 16) in
    let y = hex_digit (checksum p % 16) in
    rw (append_assoc p (b'#' ∷ x ∷ y ∷ []) rest)
      (ground (arith, split_once-Lacks b'#' p (x ∷ y ∷ rest) h))

-- Bytes were sent.
abbrev pub with_sent : Bytes → Stub → Stub
with_sent bytes s = record s { wire = record s.wire { sent = s.wire.sent ++ bytes } }

-- The state after a packet: its bytes are gone from the stream, it is acknowledged and recorded.
abbrev pub received : Direction → Bytes → Bytes → List Event → Stub → Stub
received kind payload b es s =
    record_recv (decode payload) kind (with_sent (b'+' ∷ []) (with_input b es s))

pub send_or_close_lem :
    (bytes : Bytes) (s : Stub)
    → s.wire.send_faults ≡ []
    → send_or_close bytes s ≡ (ok tt, with_sent bytes s)
unfolding send_or_close send_all take_fault
send_or_close_lem bytes s h = rw h (ground arith)

take_packet_lem :
    (b : Bytes) (es : List Event) (s : Stub) {p r : Bytes}
    → packet_of b ≡ some (p, r)
    → take_packet (with_input b es s) ≡ (ok (decode p), with_input r es s)
unfolding take_packet
take_packet_lem b es s h = rw (h, take_packet)

read_packet_body_lem :
    (kind : Direction) (s : Stub) (payload rest : Bytes)
    → packet_of (stream s) ≡ some (payload, rest)
    → s.wire.send_faults ≡ []
    → (b : Bytes) × (es : List Event) × (read_packet_body kind s
        ≡ (ok (decode payload), received kind payload b es s))
      × (b ++ flow es ≡ rest)
unfolding read_packet_body
read_packet_body_lem kind s payload rest whole sends =
    let (t1, t2, t3) = packet-tests (stream s) whole in
    let (b1, e1, r1, p1, k1) = fill_until_lem has_start s t1 in
    let s1 = with_input b1 e1 s in
    let (b2, e2, r2, p2, k2) = fill_until_lem has_end s1 (rw k1 t2) in
    let s2 = with_input b2 e2 s in
    let (b3, e3, r3, p3, k3) = fill_until_lem has_checksum s2 (rw (k2 ∙ k1) t3) in
    let (q, e) = has_checksum-packet b3 p3 in
    let same : packet_of (stream s) ≡ some (q.0, q.1 ++ flow e3) =
      ap packet_of (sym (k3 ∙ (k2 ∙ k1))) ∙ packet_of-append b3 (flow e3) e in
    let taken = take_packet_lem b3 e3 s e in
    let acked = send_or_close_lem (b'+' ∷ []) (with_input q.1 e3 s) sends in
    let name : q.0 ≡ payload = cc in (q.1, e3, rw (r1, r2, r3, taken, acked, name), cc)

pub require_sock_lem : (s : Stub) {t : ℕ} → s.sock ≡ some t → require_sock s ≡ (ok t, s)
unfolding require_sock
require_sock_lem s h = ground arith

set_timeout-received :
    (kind : Direction) (p b : Bytes) (es : List Event) (s : Stub) (t : ℕ)
    → s.sock ≡ some t
    → set_timeout t (received kind p b es s) ≡ received kind p b es s
unfolding set_timeout record_recv
set_timeout-received kind p b es s t h = ground arith

set_timeout_twice :
    (kind : Direction) (p b : Bytes) (es : List Event) (s : Stub) (t u : ℕ)
    → s.sock ≡ some t
    → set_timeout t (received kind p b es (record s { sock = some u })) ≡ received kind p b es s
unfolding set_timeout record_recv
set_timeout_twice kind p b es s t u h = ground arith

set_timeout-open :
    (s : Stub) (t u : ℕ) → s.sock ≡ some t → set_timeout u s ≡ record s { sock = some u }
unfolding set_timeout
set_timeout-open s t u h = rw (h, set_timeout)

-- A packet at the front of the stream is returned whatever the chunks, the buffer and the timeout
-- of the call; its bytes and those before it are consumed, it is acknowledged by one `+`, and the
-- timeout of the socket is what it was.
pub read_packet_from_wire_lem :
    (timeout : Option ℕ) (kind : Direction) (s : Stub) {t : ℕ} (payload rest : Bytes)
    → s.sock ≡ some t
    → packet_of (stream s) ≡ some (payload, rest)
    → s.wire.send_faults ≡ []
    → (b : Bytes) × (es : List Event) × (read_packet_from_wire timeout kind s
        ≡ (ok (decode payload), received kind payload b es s))
      × (b ++ flow es ≡ rest)
unfolding read_packet_from_wire set_timeout?
read_packet_from_wire_lem none kind s {t} payload rest is_open whole sends =
    let (b, es, run, kept) = read_packet_body_lem kind s payload rest whole sends in
    (
      b,
      es,
      rw (require_sock_lem s is_open, run, set_timeout-received kind payload b es s t is_open),
      kept,
    )
read_packet_from_wire_lem (some u) kind s {t} payload rest is_open whole sends =
    let s' = record s { sock = some u } in
    let (b, es, run, kept) = read_packet_body_lem kind s' payload rest whole sends in
    (
      b,
      es,
      rw (
        require_sock_lem s is_open,
        set_timeout-open s t u is_open,
        run,
        set_timeout_twice kind payload b es s t u is_open,
      ),
      kept,
    )

-- ===== src/Gdb/Acks/Order.antt =====
-- Packets that arrive before an acknowledgement are queued, in order, and none is lost.
use dolphin_re_mcp.Prelude.{ℕ, ◌≡◌, refl, sym, ap, ◌∙◌, none, some, List, [], ◌∷◌, ◌++◌, drop}
use dolphin_re_mcp.Prelude.Text.{Bytes, Lacks, eq_text}
use dolphin_re_mcp.Errors.{ok}
use dolphin_re_mcp.Gdb.Socket.{Event, chunk, closed, quiet, broken, flow, receive}
use dolphin_re_mcp.Gdb.Stub.{Stub, oob, record_recv}
use dolphin_re_mcp.Gdb.Packets.{packet_of, frame, decode, recv_some}
use dolphin_re_mcp.Gdb.Packets.Reading.{with_input, stream}
use dolphin_re_mcp.Gdb.Packets.Delivery.{
  with_sent, read_packet_from_wire_lem, packet_of-frame, require_sock_lem,
}
use dolphin_re_mcp.Gdb.Acks.{read_more, read_exact, done, again, ack_byte, ack_round}

read_byte_from :
    (b : Bytes) (es : List Event) (s : Stub) {t : ℕ} (c : ℕ) (rest : Bytes)
    → s.sock ≡ some t
    → b ++ flow es ≡ c ∷ rest
    → (b' : Bytes) × (es' : List Event) × (read_exact 1 (with_input b es s)
        ≡ (ok (c ∷ []), with_input b' es' s))
      × (b' ++ flow es' ≡ rest)
unfolding read_exact read_more recv_some receive
read_byte_from (d ∷ b) es s c rest is_open h =
    let same : d ≡ c = cc in let more : b ++ flow es ≡ rest = cc in (b, es, rw same, more)
read_byte_from [] (chunk d [] ∷ es) s c rest is_open h =
    let same : d ≡ c = cc in
    let more : flow es ≡ rest = cc in
    ([], es, rw (require_sock_lem (with_input [] (chunk d [] ∷ es) s) is_open, same), more)
read_byte_from [] (chunk d (x ∷ xs) ∷ es) s c rest is_open h =
    let same : d ≡ c = cc in
    let more : (x ∷ xs) ++ flow es ≡ rest = cc in
    (
      [],
      chunk x xs ∷ es,
      rw (require_sock_lem (with_input [] (chunk d (x ∷ xs) ∷ es) s) is_open, same),
      more,
    )
read_byte_from [] [] s c rest is_open h = cc
read_byte_from [] (closed ∷ es) s c rest is_open h = cc
read_byte_from [] (quiet ∷ es) s c rest is_open h = cc
read_byte_from [] (broken ∷ es) s c rest is_open h = cc

-- One byte, whether it is buffered or still to come.
pub read_byte :
    (s : Stub) {t : ℕ} (c : ℕ) (rest : Bytes)
    → s.sock ≡ some t
    → stream s ≡ c ∷ rest
    → (b : Bytes) × (es : List Event) × (read_exact 1 s ≡ (ok (c ∷ []), with_input b es s))
      × (b ++ flow es ≡ rest)
read_byte s = read_byte_from s.recv_buf s.wire.incoming s

-- The state once a packet has been taken for a stop reply.
abbrev pub queued : Stub → Bytes → Stub
queued s p =
    let s' = record_recv (decode p) oob (with_sent (b'+' ∷ []) s) in
    record s' { pending_replies = s'.pending_replies ++ decode p ∷ [] }

abbrev pub all_queued : Stub → List Bytes → Stub
all_queued s [] = s
all_queued s (p ∷ ps) = all_queued (queued s p) ps

abbrev pub frames : List Bytes → Bytes
frames [] = []
frames (p ∷ ps) = frame p ++ frames ps

pub ack_round_done :
    (s : Stub) {t : ℕ} (rest : Bytes)
    → s.sock ≡ some t
    → stream s ≡ b'+' ∷ rest
    → (b : Bytes) × (es : List Event) × (ack_round s ≡ (ok done, with_input b es s))
      × (b ++ flow es ≡ rest)
unfolding ack_round ack_byte eq_text
ack_round_done s rest is_open h =
    let (b, es, run, kept) = read_byte s b'+' rest is_open h in (b, es, rw run, kept)

frame_body : Bytes → Bytes
unfolding frame
frame_body p = drop 1 (frame p)

frame_cons : (p : Bytes) → frame p ≡ b'$' ∷ frame_body p
unfolding frame_body
frame_cons p = refl

pub ack_round_again :
    (s : Stub) {t : ℕ} (p rest : Bytes)
    → s.sock ≡ some t
    → s.wire.send_faults ≡ []
    → Lacks b'#' p
    → stream s ≡ frame p ++ rest
    → (b : Bytes) × (es : List Event) × (ack_round s ≡ (ok again, with_input b es (queued s p)))
      × (b ++ flow es ≡ rest)
unfolding ack_round ack_byte eq_text record_recv
ack_round_again s p rest is_open sends lacks h =
    let start : stream s ≡ b'$' ∷ (frame_body p ++ rest) =
      h ∙ ap (λ (x : Bytes). x ++ rest) (frame_cons p) in
    let (b, es, run, kept) = read_byte s b'$' (frame_body p ++ rest) is_open start in
    let back = with_input (b'$' ∷ b) es s in
    let whole : packet_of (stream back) ≡ some (p, rest) =
      ap packet_of (ap (◌∷◌ b'$') kept ∙ ap (λ (x : Bytes). x ++ rest) (sym (frame_cons p)))
      ∙ packet_of-frame p rest lacks in
    let (b', es', run', kept') =
      read_packet_from_wire_lem none oob back p rest is_open whole sends in
    (b', es', rw (run, run'), kept')

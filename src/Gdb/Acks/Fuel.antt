-- ===== src/Gdb/Acks/Fuel.antt =====
-- `_consume_ack`, `_send_packet` and `cmd` end, whatever the peer does.
use dolphin_re_mcp.Prelude.{
  ℕ, zero, suc, ◌+◌, ◌<◌, ◌≡◌, true, inl, inr, Option, none, List, [], ◌∷◌, arith, Bool-cases,
  length,
}
use dolphin_re_mcp.Prelude.Text.{Text, Bytes, eq_text}
use dolphin_re_mcp.Errors.{Error, Result, ok, err, is_link_error, is_socket_error}
use dolphin_re_mcp.Exec.{Exec}
use dolphin_re_mcp.Gdb.Socket.{Event, chunk, closed, quiet, broken, receive, weight}
use dolphin_re_mcp.Gdb.Stub.{Stub, recv, oob, close, record_send, unread}
use dolphin_re_mcp.Gdb.Packets.{
  recv_some, require_sock, send_or_close, read_packet_from_wire, frame,
}
use dolphin_re_mcp.Gdb.Packets.Reading.{with_input}
use dolphin_re_mcp.Gdb.Packets.Fuel.{
  Within, Within-bind, Within-mono, Within-error, require_sock-Within, send_or_close-Within,
  read_packet_from_wire-Within,
}
use dolphin_re_mcp.Gdb.Acks.{
  after_ack, read_more, read_exact, Ack, done, again, ack_byte, ack_round, ack_loop, consume_ack,
  send_packet, cmd,
}

-- A socket error is one of the exceptions of a command.
socket→link : (e : Error) → is_socket_error e ≡ true → is_link_error e ≡ true
socket→link e h = ground arith

pub Within-link :
    {A : Type 0} (n : ℕ) (r : Result A × Stub)
    → Within is_socket_error n r
    → Within is_link_error n r
Within-link n (ok a, t) h = h
Within-link n (err e, t) h = socket→link e h

read_exact-Within_from :
    (b : Bytes) (es : List Event) (s : Stub)
    → Within is_link_error (length b + weight es) (read_exact 1 (with_input b es s))
unfolding read_exact read_more recv_some receive require_sock close
read_exact-Within_from (c ∷ b) es s = ground arith
read_exact-Within_from [] [] s = ground arith
read_exact-Within_from [] (closed ∷ es) s = ground arith
read_exact-Within_from [] (quiet ∷ es) s = ground arith
read_exact-Within_from [] (broken ∷ es) s = ground arith
read_exact-Within_from [] (chunk c [] ∷ es) s = ground arith
read_exact-Within_from [] (chunk c (x ∷ xs) ∷ es) s = ground arith

read_exact-Within : (s : Stub) → Within is_link_error (unread s) (read_exact 1 s)
read_exact-Within s = read_exact-Within_from s.recv_buf s.wire.incoming s

ack_byte-Within :
    (bytes : Bytes) (s : Stub) → Within is_link_error (suc (unread s)) (ack_byte bytes s)
unfolding ack_byte
ack_byte-Within bytes s = elim (Bool-cases (eq_text bytes (b'+' ∷ []))) [
  | inl e ↦ rw e (omega arith)
  | inr e ↦ elim (Bool-cases (eq_text bytes (b'-' ∷ []))) [
    | inl f ↦ rw (e, f)
    | inr f ↦ elim (Bool-cases (eq_text bytes (b'$' ∷ []))) [
      | inl g ↦
          let back : Stub = record s { recv_buf = b'$' ∷ s.recv_buf } in
          rw (e, f, g)
            (Within-bind is_link_error (unread back) (suc (unread s))
              (read_packet_from_wire none oob) _ back
              (Within-link _ _ (read_packet_from_wire-Within none oob back)) λ p t h. omega arith)
      | inr g ↦ rw (e, f, g)
    ]
  ]
]

ack_round-Within : (s : Stub) → Within is_link_error (unread s) (ack_round s)
unfolding ack_round
ack_round-Within s =
    Within-bind is_link_error (unread s) (unread s) (read_exact 1) ack_byte s (read_exact-Within s)
      λ bytes t h.
        Within-mono is_link_error (suc (unread t)) (unread s) (ack_byte bytes t) h
          (ack_byte-Within bytes t)

after_ack-Within :
    (n : ℕ) (next : Exec Stub Unit) (a : Ack) (t : Stub)
    → unread t < n
    → Within is_link_error (suc (unread t)) (next t)
    → Within is_link_error n (after_ack next a t)
after_ack-Within n next done t h hn = h
after_ack-Within n next again t h hn = Within-mono is_link_error (suc (unread t)) n (next t) h hn

ack_loop-Within :
    (fuel : ℕ) (s : Stub)
    → unread s < fuel
    → Within is_link_error (suc (unread s)) (ack_loop fuel s)
unfolding ack_loop
ack_loop-Within zero s w = absurd (omega arith)
ack_loop-Within (suc fuel) s w =
    Within-bind is_link_error (unread s) (suc (unread s)) ack_round (after_ack (ack_loop fuel)) s
      (ack_round-Within s)
      λ a t h.
        after_ack-Within (suc (unread s)) (ack_loop fuel) a t (omega arith)
          (ack_loop-Within fuel t (omega arith))

consume_ack-Within : (s : Stub) → Within is_link_error (suc (unread s)) (consume_ack s)
unfolding consume_ack
consume_ack-Within s = ack_loop-Within (suc (unread s)) s (omega arith)

pub send_packet-Within :
    (payload : Text) (s : Stub) → Within is_link_error (suc (unread s)) (send_packet payload s)
unfolding send_packet record_send
send_packet-Within payload s =
    Within-bind is_link_error (suc (unread s)) (suc (unread s)) require_sock _ s
      (Within-link _ _ (require_sock-Within s))
      λ _ s1 h1.
        let s2 = record_send payload s1 in
        Within-bind is_link_error (suc (unread s2)) (suc (unread s)) (send_or_close (frame payload))
          _ s2 (Within-link _ _ (send_or_close-Within (frame payload) s2))
          λ _ s3 h3.
            Within-mono is_link_error (suc (unread s3)) (suc (unread s)) (consume_ack s3)
              (omega arith) (consume_ack-Within s3)

-- A call that returns has read a packet, and none runs out of fuel.
pub cmd-Within :
    (payload : Text) (timeout : Option ℕ) (s : Stub)
    → Within is_link_error (unread s) (cmd payload timeout s)
unfolding cmd
cmd-Within payload timeout s =
    Within-bind is_link_error (suc (unread s)) (unread s) (send_packet payload) _ s
      (send_packet-Within payload s)
      λ _ t h.
        Within-mono is_link_error (unread t) (unread s) (read_packet_from_wire timeout recv t)
          (omega arith) (Within-link _ _ (read_packet_from_wire-Within timeout recv t))

-- A command ends, whatever the peer sends and however it fails: it returns with less unread, or
-- it raises ConnectionLost, GDBProtocolError or an OSError (a timeout is one).
pub cmd-errors :
    (payload : Text) (timeout : Option ℕ) (s : Stub) (e : Error)
    → (cmd payload timeout s).0 ≡ err e
    → is_link_error e ≡ true
cmd-errors payload timeout s e =
    Within-error is_link_error (unread s) (cmd payload timeout s) e (cmd-Within payload timeout s)

-- ===== src/Gdb/Acks/Sent.antt =====
-- Sending a packet: its frame is sent behind what was, and a closed socket stays closed.
use dolphin_re_mcp.Prelude.{
  ℕ, zero, suc, ◌-◌, ◌≡◌, refl, sym, ap, ◌∙◌, Option-cases, Bool, true, false, none, [], ◌∷◌, ◌++◌,
  arith, inl, inr, ltb, leb, length, take, drop, Bool-cases, is_empty, if◌then◌else◌,
}
use dolphin_re_mcp.Prelude.Text.{Text, Bytes, eq_text}
use dolphin_re_mcp.Errors.{Error, Result, ok, err, connection_lost, protocol_error}
use dolphin_re_mcp.Exec.{Exec, continue, ◌>>=◌, ◌>>◌, modify, raise, pure}
use dolphin_re_mcp.Exec.Along.{Along, OnReturn, OnReturn-bind, OnReturn-always}
use dolphin_re_mcp.Gdb.Stub.{Stub, oob, close, record_send}
use dolphin_re_mcp.Gdb.Packets.{
  frame, require_sock, send_or_close, recv_some, read_packet_from_wire,
}
use dolphin_re_mcp.Gdb.Packets.Clock.{
  Forward, Forward-silent, Forward-bind, Forward-stay, Forward-next, recv_some-Forward,
  close-Forward, require_sock-Forward, send_or_close-Forward, send_or_close-Sent,
  read_packet_from_wire-Forward,
}
use dolphin_re_mcp.Gdb.Acks.{
  read_more, read_exact, Ack, done, again, ack_byte, ack_round, after_ack, ack_loop, consume_ack,
  send_packet,
}
use native.Mathlib.Nat.{le_refl}

Forward-if :
    {A : Type 0} (b : Bool) (m n : Exec Stub A)
    → Along Forward m
    → Along Forward n
    → Along Forward (if b then m else n)
Forward-if true m n h k = h
Forward-if false m n h k = k

lost-Forward : Along {A = Bytes} Forward (modify close >> raise connection_lost)
lost-Forward =
    Forward-bind {B = Bytes} (modify close) (λ _. raise connection_lost) close-Forward
      λ _. Forward-stay

read_more-Forward : (n : ℕ) (out : Bytes) (fuel : ℕ) → Along Forward (read_more n out fuel)
unfolding read_more
read_more-Forward n out zero s = Forward-stay s
read_more-Forward n out (suc fuel) s = elim (Bool-cases (ltb (length out) n)) [
  | inr full ↦ rw (full, read_more) (Forward-stay s)
  | inl short ↦
      rw (short, read_more)
        (Forward-bind (recv_some (n - length out)) _ (recv_some-Forward (n - length out))
          (λ chunk.
            Forward-if (is_empty chunk) (modify close >> raise connection_lost)
              (read_more n (out ++ chunk) fuel) lost-Forward
              (read_more-Forward n (out ++ chunk) fuel))
          s)
]

read_exact-Forward : (n : ℕ) → Along Forward (read_exact n)
unfolding read_exact
read_exact-Forward n s =
    let out = take n s.recv_buf in
    let s' : Stub = record s { recv_buf = drop n s.recv_buf } in
    let here : Forward s s' = Forward-silent s s' (le_refl s.wire.clock) refl (λ e. e) in
    elim (Bool-cases (leb n (length out))) [
      | inl full ↦ rw (full, read_exact) here
      | inr short ↦
          rw (short, read_exact)
            (Forward-next s s' ((require_sock >>= λ _. read_more n out (suc n)) s').1 here (
              Forward-bind require_sock (λ _. read_more n out (suc n)) require_sock-Forward
                (λ _. read_more-Forward n out (suc n)) s'))
    ]

abbrev push_back : Stub → Stub
push_back s = record s { recv_buf = b'$' ∷ s.recv_buf }

abbrev enqueue : Text → Stub → Stub
enqueue packet s = record s { pending_replies = s.pending_replies ++ packet ∷ [] }

abbrev queue_packet : Text → Exec Stub Ack
queue_packet packet = modify (enqueue packet) >>= λ _. pure again

abbrev read_oob : Exec Stub Ack
read_oob = read_packet_from_wire none oob >>= queue_packet

abbrev overtaking : Exec Stub Ack
overtaking = modify push_back >>= λ _. read_oob

queue_packet-Forward : (packet : Text) → Along Forward (queue_packet packet)
queue_packet-Forward packet =
    Forward-bind {B = Ack} (modify (enqueue packet)) (λ _. pure again)
      (λ s. Forward-silent s (enqueue packet s) (le_refl s.wire.clock) refl (λ e. e))
      λ _. Forward-stay

read_oob-Forward : Along Forward read_oob
read_oob-Forward =
    Forward-bind (read_packet_from_wire none oob) queue_packet
      (read_packet_from_wire-Forward none oob) queue_packet-Forward

overtaking-Forward : Along Forward overtaking
overtaking-Forward =
    Forward-bind {B = Ack} (modify push_back) (λ _. read_oob)
      (λ s. Forward-silent s (push_back s) (le_refl s.wire.clock) refl (λ e. e))
      λ _. read_oob-Forward

ack_byte-Forward : (bytes : Bytes) → Along Forward (ack_byte bytes)
unfolding ack_byte
ack_byte-Forward bytes =
    let foreign = if eq_text bytes (b'$' ∷ []) then overtaking else raise protocol_error in
    Forward-if (eq_text bytes (b'+' ∷ [])) (pure done)
      (if eq_text bytes (b'-' ∷ []) then raise protocol_error else foreign) Forward-stay
      (Forward-if (eq_text bytes (b'-' ∷ [])) (raise protocol_error) foreign Forward-stay (
        Forward-if (eq_text bytes (b'$' ∷ [])) overtaking (raise protocol_error) overtaking-Forward
          Forward-stay))

after_ack-Forward :
    (a : Ack) (next : Exec Stub Unit) → Along Forward next → Along Forward (after_ack next a)
after_ack-Forward done next h = Forward-stay
after_ack-Forward again next h = h

ack_loop-Forward : (fuel : ℕ) → Along Forward (ack_loop fuel)
unfolding ack_loop ack_round
ack_loop-Forward zero = Forward-stay
ack_loop-Forward (suc fuel) =
    Forward-bind ack_round (after_ack (ack_loop fuel))
      (Forward-bind (read_exact 1) ack_byte (read_exact-Forward 1) ack_byte-Forward)
      λ a. after_ack-Forward a (ack_loop fuel) (ack_loop-Forward fuel)

consume_ack-Forward : Along Forward consume_ack
unfolding consume_ack
consume_ack-Forward s = ack_loop-Forward _ s

record_send-Forward : (payload : Text) → Along Forward (modify (record_send payload))
unfolding record_send
record_send-Forward payload s = Forward-silent s (record_send payload s) (omega arith) refl λ e. e

-- The last two steps, and those but for the first one.
abbrev transmit : Text → Exec Stub Unit
transmit payload = send_or_close (frame payload) >>= λ _. consume_ack

abbrev record_and_transmit : Text → Exec Stub Unit
record_and_transmit payload = modify (record_send payload) >>= λ _. transmit payload

transmit-Forward : (payload : Text) → Along Forward (transmit payload)
transmit-Forward payload =
    Forward-bind {B = Unit} (send_or_close (frame payload)) (λ _. consume_ack)
      (send_or_close-Forward (frame payload)) λ _. consume_ack-Forward

pub send_packet-Forward : (payload : Text) → Along Forward (send_packet payload)
unfolding send_packet
send_packet-Forward payload =
    Forward-bind {B = Unit} require_sock (λ _. record_and_transmit payload) require_sock-Forward
      λ _.
        Forward-bind {B = Unit} (modify (record_send payload)) (λ _. transmit payload)
          (record_send-Forward payload) λ _. transmit-Forward payload

-- What was sent ends, but for acknowledgements, in the frame of the packet.
abbrev pub Framed : Text → Stub → Stub → Type 0
Framed payload s t = (more : Bytes) × (t.wire.sent ≡ (s.wire.sent ++ frame payload) ++ more)

-- Once the frame is sent, the rest only sends behind it.
ok-not_err :
    (a : Unit {0}) (e : Error) (t u : Stub)
    → ¬ (Path (Result (Unit {0}) × Stub) (ok a, t) (err e, u))
ok-not_err a e t u h = cc

sock_sent : (s : Stub) → OnReturn (λ t. t.wire.sent ≡ s.wire.sent) (require_sock s)
unfolding require_sock
sock_sent s = elim (Option-cases s.sock) [ inl e ↦ rw e tt | inr (t, e) ↦ rw e refl ]

Framed-at :
    (payload : Text) (s t : Stub)
    → t.wire.sent ≡ s.wire.sent ++ frame payload
    → OnReturn (Framed payload s) (consume_ack t)
Framed-at payload s t e =
    let ((more, f), shut) = (consume_ack-Forward t).1 in
    OnReturn-always (Framed payload s) (consume_ack t) (more, f ∙ ap (λ (x : Bytes). x ++ more) e)

Framed-sent :
    (payload : Text) (s t : Stub) (r : Result (Unit {0}) × Stub)
    → t.wire.sent ≡ s.wire.sent
    → send_or_close (frame payload) t ≡ r
    → OnReturn (Framed payload s) (continue r.0 (λ _. consume_ack) r.1)
Framed-sent payload s t (err e, u) same run = tt
Framed-sent payload s t (ok a, u) same run = elim (send_or_close-Sent (frame payload) t) [
  | inl sent ↦ Framed-at payload s u (
      ap (λ (x : Result (Unit {0}) × Stub). x.1.wire.sent) (sym run)
      ∙ (sent ∙ ap (λ (x : Bytes). x ++ frame payload) same))
  | inr (v, failed, shut) ↦ absurd (ok-not_err a connection_lost u v (sym run ∙ failed))
]

pub send_packet-Framed :
    (payload : Text) (s : Stub) → OnReturn (Framed payload s) (send_packet payload s)
unfolding send_packet record_send
send_packet-Framed payload s =
    OnReturn-bind (λ t. t.wire.sent ≡ s.wire.sent) (Framed payload s) require_sock
      (λ _. record_and_transmit payload) s (sock_sent s)
      λ _ t same.
        Framed-sent payload s (record_send payload t)
          (send_or_close (frame payload) (record_send payload t)) same refl

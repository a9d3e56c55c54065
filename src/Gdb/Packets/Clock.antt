-- ===== src/Gdb/Packets/Clock.antt =====
-- While a packet is read the clock does not go back, what was sent stays sent, and a socket that is
-- closed stays closed.
use native.Mathlib.Nat.{le_trans, le_refl}
use dolphin_re_mcp.Prelude.{sym, ap, ◌∙◌, append-nil, append_assoc}
use dolphin_re_mcp.Prelude.{
  ℕ, zero, suc, ◌≤◌, ◌≡◌, refl, Bool, true, false, ◌⊎◌, inl, inr, Option, none, some, List, [], ◌∷◌,
  ◌++◌, arith, Bool-cases, is_empty, if◌then◌else◌,
}
use dolphin_re_mcp.Prelude.Text.{Text, Bytes}
use dolphin_re_mcp.Errors.{err, connection_lost}
use dolphin_re_mcp.Exec.{Exec, ◌>>=◌, ◌>>◌, modify, raise, pure, finally}
use dolphin_re_mcp.Exec.Along.{Along, Along-bind, Along-finally}
use dolphin_re_mcp.Gdb.Socket.{Event, chunk, closed, quiet, broken, receive, Wire}
use dolphin_re_mcp.Gdb.Stub.{Stub, Direction, recv, close, record_recv, take_fault}
use dolphin_re_mcp.Gdb.Packets.{
  require_sock, send_all, send_or_close, recv_some, timeout_of, fill_once, fill, fill_until,
  has_start, has_end, has_checksum, take_packet, read_packet_body, set_timeout, set_timeout?,
  read_packet_from_wire, read_packet,
}

-- Bytes are sent behind those that were.
abbrev pub Grows : Stub → Stub → Type 0
Grows s t = (more : Bytes) × (t.wire.sent ≡ s.wire.sent ++ more)

abbrev pub StaysClosed : Stub → Stub → Type 0
StaysClosed s t = s.sock ≡ none → t.sock ≡ none

abbrev pub Forward : Stub → Stub → Type 0
Forward s t = (s.wire.clock ≤ t.wire.clock) × (Grows s t × StaysClosed s t)

pub Forward-silent :
    (s t : Stub)
    → s.wire.clock ≤ t.wire.clock
    → t.wire.sent ≡ s.wire.sent
    → StaysClosed s t
    → Forward s t
Forward-silent s t h e k = (h, (([], e ∙ sym (append-nil s.wire.sent)), k))

pub Forward-stay : (s : Stub) → Forward s s
Forward-stay s = Forward-silent s s (le_refl s.wire.clock) refl λ e. e

pub Forward-next : (s t u : Stub) → Forward s t → Forward t u → Forward s u
Forward-next s t u (h, ((a, e), c)) (k, ((b, f), d)) = (
  le_trans h k,
  ((a ++ b, f ∙ (ap (λ (x : Bytes). x ++ b) e ∙ append_assoc s.wire.sent a b)), λ shut. d (c shut)),
)

pub Forward-bind :
    {A B : Type 0} (m : Exec Stub A) (f : A → Exec Stub B)
    → Along Forward m
    → ((a : A) → Along Forward (f a))
    → Along Forward (m >>= f)
Forward-bind = Along-bind Forward Forward-stay Forward-next

receive-Forward :
    (timeout n : ℕ) (es : List Event) (w : Wire) → w.clock ≤ (receive timeout n es w).1.clock
unfolding receive
receive-Forward timeout n [] w = omega arith
receive-Forward timeout n (chunk c cs ∷ es) w = omega arith
receive-Forward timeout n (closed ∷ es) w = omega arith
receive-Forward timeout n (quiet ∷ es) w = omega arith
receive-Forward timeout n (broken ∷ es) w = omega arith

receive-sent :
    (timeout n : ℕ) (es : List Event) (w : Wire) → (receive timeout n es w).1.sent ≡ w.sent
unfolding receive
receive-sent timeout n [] w = refl
receive-sent timeout n (chunk c cs ∷ es) w = refl
receive-sent timeout n (closed ∷ es) w = refl
receive-sent timeout n (quiet ∷ es) w = refl
receive-sent timeout n (broken ∷ es) w = refl

pub recv_some-Forward : (n : ℕ) → Along Forward (recv_some n)
unfolding recv_some
recv_some-Forward n s =
    Forward-silent s (recv_some n s).1
      (receive-Forward (timeout_of s.sock) n s.wire.incoming s.wire)
      (receive-sent (timeout_of s.sock) n s.wire.incoming s.wire) λ e. e

pub close-Forward : Along Forward (modify close)
unfolding close
close-Forward s = Forward-silent s (close s) (ground arith) (ground arith) (ground arith)

filled-Forward :
    (bytes : Bytes) (b : Bool)
    → Along {A = Unit} Forward (
        if b
        then modify close >> raise connection_lost
        else modify (λ s. record s { recv_buf = s.recv_buf ++ bytes }))
filled-Forward bytes true =
    Forward-bind {B = Unit} (modify close) (λ _. raise connection_lost) close-Forward
      λ _ s. Forward-stay s
filled-Forward bytes false = λ s. Forward-stay s

fill_once-Forward : Along Forward fill_once
unfolding fill_once
fill_once-Forward =
    Forward-bind (recv_some 4096) _ (recv_some-Forward 4096)
      λ bytes. filled-Forward bytes (is_empty bytes)

fill-Forward : (test : Bytes → Bool) (fuel : ℕ) → Along Forward (fill test fuel)
unfolding fill
fill-Forward test zero s = Forward-stay s
fill-Forward test (suc fuel) s = elim (Bool-cases (test s.recv_buf)) [
  | inl e ↦ rw (e, fill) (Forward-stay s)
  | inr e ↦
      rw (e, fill)
        (Forward-bind fill_once (λ _. fill test fuel) fill_once-Forward
          (λ _. fill-Forward test fuel) s)
]

fill_until-Forward : (test : Bytes → Bool) → Along Forward (fill_until test)
unfolding fill_until
fill_until-Forward test s = fill-Forward test _ s

pub require_sock-Forward : Along Forward require_sock
unfolding require_sock
require_sock-Forward s =
    Forward-silent s ((require_sock s).1) (ground arith) (ground arith) (ground arith)

take_packet-Forward : Along Forward take_packet
unfolding take_packet
take_packet-Forward s =
    Forward-silent s ((take_packet s).1) (ground arith) (ground arith) (ground arith)

pub send_or_close-Forward : (bytes : Bytes) → Along Forward (send_or_close bytes)
unfolding send_or_close send_all take_fault close
send_or_close-Forward bytes s = elim (Bool-cases (take_fault s.wire.send_faults).0) [
  | inl fault ↦
      let s' : Stub = record s {
        wire = record s.wire { send_faults = (take_fault s.wire.send_faults).1 };
      } in
      rw fault (
        Forward-next s s' (close s') (Forward-silent s s' (le_refl s.wire.clock) refl λ e. e)
          (close-Forward s'))
  | inr fine ↦ rw fine (le_refl s.wire.clock, ((bytes, refl), λ e. e))
]

-- What is sent is behind what was, or the socket is closed.
pub send_or_close-Sent :
    (bytes : Bytes) (s : Stub)
    → ((send_or_close bytes s).1.wire.sent ≡ s.wire.sent ++ bytes)
      ⊎ ((t : Stub) × (send_or_close bytes s ≡ (err connection_lost, t)) × (t.sock ≡ none))
unfolding send_or_close send_all take_fault close
send_or_close-Sent bytes s = elim (Bool-cases (take_fault s.wire.send_faults).0) [
  | inl fault ↦
      let s' : Stub = record s {
        wire = record s.wire { send_faults = (take_fault s.wire.send_faults).1 };
      } in
      inr (close s', rw fault refl, ground arith)
  | inr fine ↦ inl (rw fine refl)
]

record_recv-Forward : (p : Text) (kind : Direction) → Along Forward (modify (record_recv p kind))
unfolding record_recv
record_recv-Forward p kind s = Forward-silent s (record_recv p kind s) (omega arith) refl λ e. e

read_packet_body-Forward : (kind : Direction) → Along Forward (read_packet_body kind)
unfolding read_packet_body
read_packet_body-Forward kind =
    Forward-bind (fill_until has_start) _ (fill_until-Forward has_start) λ _.
      Forward-bind (fill_until has_end) _ (fill_until-Forward has_end) λ _.
        Forward-bind (fill_until has_checksum) _ (fill_until-Forward has_checksum) λ _.
          Forward-bind take_packet _ take_packet-Forward λ p.
            Forward-bind (send_or_close (b'+' ∷ [])) _ (send_or_close-Forward (b'+' ∷ [])) λ _.
              Forward-bind (modify (record_recv p kind)) (λ _. pure p) (record_recv-Forward p kind)
                λ _. Forward-stay

pub set_timeout-Forward : (t : ℕ) → Along Forward (modify (set_timeout t))
unfolding set_timeout
set_timeout-Forward t s =
    Forward-silent s (set_timeout t s) (ground arith) (ground arith) (ground arith)

set_timeout?-Forward : (t : Option ℕ) → Along Forward (modify (set_timeout? t))
unfolding set_timeout?
set_timeout?-Forward none s = Forward-stay s
set_timeout?-Forward (some t) s = set_timeout-Forward t s

pub read_packet_from_wire-Forward :
    (timeout : Option ℕ) (kind : Direction) → Along Forward (read_packet_from_wire timeout kind)
unfolding read_packet_from_wire
read_packet_from_wire-Forward timeout kind = Forward-bind require_sock _ require_sock-Forward λ old.
    Forward-bind (modify (set_timeout? timeout))
      (λ _. finally (read_packet_body kind) (modify (set_timeout old)))
      (set_timeout?-Forward timeout)
      λ _.
        Along-finally Forward Forward-stay Forward-next (read_packet_body kind)
          (modify (set_timeout old)) (read_packet_body-Forward kind) (set_timeout-Forward old)

read_packet-Forward_at :
    (timeout : Option ℕ) (s : Stub) (pending : List Text)
    → s.pending_replies ≡ pending
    → Forward s (read_packet timeout s).1
unfolding read_packet
read_packet-Forward_at timeout s [] e =
    rw (e, read_packet) (read_packet_from_wire-Forward timeout recv s)
read_packet-Forward_at timeout s (reply ∷ rest) e = rw (e, read_packet) (Forward-stay s)

pub read_packet-Forward : (timeout : Option ℕ) → Along Forward (read_packet timeout)
read_packet-Forward timeout s = read_packet-Forward_at timeout s s.pending_replies refl

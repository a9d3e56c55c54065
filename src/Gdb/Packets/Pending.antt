-- ===== src/Gdb/Packets/Pending.antt =====
-- Reading from the wire leaves the queue of pending replies alone.
use dolphin_re_mcp.Prelude.{
  ℕ, zero, suc, ◌≡◌, refl, ◌∙◌, Bool, Option, none, some, [], ◌∷◌, arith, inl, inr, Bool-cases,
  Option-cases,
}
use dolphin_re_mcp.Prelude.Text.{Text, Bytes}
use dolphin_re_mcp.Errors.{Result, ok, err}
use dolphin_re_mcp.Exec.{Exec, ◌>>=◌, finally, modify, bind-ok, bind-err}
use dolphin_re_mcp.Gdb.Socket.{receive}
use dolphin_re_mcp.Gdb.Stub.{Stub, Direction, close, record_recv, take_fault}
use dolphin_re_mcp.Gdb.Packets.{
  fill_once, fill, fill_until, has_start, has_end, has_checksum, take_packet, packet_of, recv_some,
  read_packet_body, read_packet_from_wire, send_or_close, send_all, require_sock, set_timeout,
  set_timeout?,
}

-- `m` leaves the queue as it is, whether it returns or raises.
abbrev pub Leaves : {A : Type 0} → Exec Stub A → Type 0
Leaves m = (s : Stub) → (m s).1.pending_replies ≡ s.pending_replies

module _ {A B : Type 0} (m : Exec Stub A) (f : A → Exec Stub B) where
  Leaves-bind_at :
      (s : Stub) (r : Result A × Stub)
      → m s ≡ r
      → r.1.pending_replies ≡ s.pending_replies
      → ((a : A) → Leaves (f a))
      → ((m >>= f) s).1.pending_replies ≡ s.pending_replies
  Leaves-bind_at s (ok a, t) e h hf = rw (bind-ok m f s e) (hf a t ∙ h)
  Leaves-bind_at s (err x, t) e h hf = rw (bind-err m f s e) h

  Leaves-bind : Leaves m → ((a : A) → Leaves (f a)) → Leaves (m >>= f)
  Leaves-bind hm hf s = Leaves-bind_at s (m s) refl (hm s) hf

fill_once-Leaves : Leaves fill_once
unfolding fill_once recv_some receive close
fill_once-Leaves s = ground arith

fill-Leaves : (test : Bytes → Bool) (fuel : ℕ) → Leaves (fill test fuel)
unfolding fill
fill-Leaves test zero s = refl
fill-Leaves test (suc fuel) s = elim (Bool-cases (test s.recv_buf)) [
  | inl e ↦ rw (e, fill)
  | inr e ↦
      rw (e, fill)
        (Leaves-bind fill_once (λ _. fill test fuel) fill_once-Leaves (λ _. fill-Leaves test fuel)
          s)
]

fill_until-Leaves : (test : Bytes → Bool) → Leaves (fill_until test)
unfolding fill_until
fill_until-Leaves test s = fill-Leaves test _ s

take_packet-Leaves : Leaves take_packet
unfolding take_packet
take_packet-Leaves s = elim (Option-cases (packet_of s.recv_buf)) [
  | inl e ↦ rw (e, take_packet)
  | inr (q, e) ↦ rw (e, take_packet)
]

send_or_close-Leaves : (bytes : Bytes) → Leaves (send_or_close bytes)
unfolding send_or_close send_all take_fault close
send_or_close-Leaves bytes s = ground arith

record_recv-Leaves : (kind : Direction) (p : Text) → Leaves (modify (record_recv p kind))
unfolding record_recv
record_recv-Leaves kind p s = refl

read_packet_body-Leaves : (kind : Direction) → Leaves (read_packet_body kind)
unfolding read_packet_body
read_packet_body-Leaves kind =
    Leaves-bind (fill_until has_start) _ (fill_until-Leaves has_start) λ _.
      Leaves-bind (fill_until has_end) _ (fill_until-Leaves has_end) λ _.
        Leaves-bind (fill_until has_checksum) _ (fill_until-Leaves has_checksum) λ _.
          Leaves-bind take_packet _ take_packet-Leaves λ p.
            Leaves-bind (send_or_close (b'+' ∷ [])) _ (send_or_close-Leaves (b'+' ∷ []))
              λ _. record_recv-Leaves kind p

Leaves-finally :
    {A : Type 0} (m : Exec Stub A) (f : Stub → Stub)
    → Leaves m
    → ((s : Stub) → (f s).pending_replies ≡ s.pending_replies)
    → Leaves (finally m (modify f))
Leaves-finally m f hm hf s = hf (m s).1 ∙ hm s

set_timeout-pending : (t : ℕ) (s : Stub) → (set_timeout t s).pending_replies ≡ s.pending_replies
unfolding set_timeout
set_timeout-pending t s = ground arith

set_timeout?-pending :
    (t : Option ℕ) (s : Stub) → (set_timeout? t s).pending_replies ≡ s.pending_replies
unfolding set_timeout?
set_timeout?-pending none s = refl
set_timeout?-pending (some t) s = set_timeout-pending t s

require_sock-Leaves : Leaves require_sock
unfolding require_sock
require_sock-Leaves s = ground arith

pub read_packet_from_wire-Leaves :
    (timeout : Option ℕ) (kind : Direction) → Leaves (read_packet_from_wire timeout kind)
unfolding read_packet_from_wire
read_packet_from_wire-Leaves timeout kind = Leaves-bind require_sock _ require_sock-Leaves λ old s.
    Leaves-finally (read_packet_body kind) (set_timeout old) (read_packet_body-Leaves kind)
      (set_timeout-pending old) (set_timeout? timeout s)
    ∙ set_timeout?-pending timeout s

-- ===== src/Session/Ends/Client.antt =====
-- The client's commands end.
use dolphin_re_mcp.Prelude.{ℕ, ◌≡◌, refl, true, Option, none, List, [], ◌∷◌, arith, suc}
use dolphin_re_mcp.Prelude.Int.{ℤ}
use dolphin_re_mcp.Prelude.Text.{Text, codes, hex_nat}
use dolphin_re_mcp.Errors.{Error, Result, ok, err, is_socket_error, is_link_error}
use dolphin_re_mcp.Exec.{lift, ◌>>=◌}
use dolphin_re_mcp.Gdb.Stub.{Stub, recv, unread}
use dolphin_re_mcp.Gdb.Packets.{read_packet, read_packet_from_wire}
use dolphin_re_mcp.Gdb.Packets.Fuel.{Within, Within-error, read_packet_from_wire-Within}
use dolphin_re_mcp.Gdb.Acks.{send_packet, cmd}
use dolphin_re_mcp.Gdb.Acks.Fuel.{send_packet-Within, cmd-Within}
use dolphin_re_mcp.Gdb.Commands.{
  raise_if_error, decode_hex, read_registers, read_register, read_register_bytes, read_mem,
  read_mem_packet, break_packet, break_reply, set_break,
}
use dolphin_re_mcp.Session.{is_exception}
use dolphin_re_mcp.Session.Proper.{Proper, Ends, Ends-bind, IsClean, Ends-lift}

link→exception : (e : Error) → is_link_error e ≡ true → is_exception e ≡ true
link→exception e h = ground arith

pub socket→exception : (e : Error) → is_socket_error e ≡ true → is_exception e ≡ true
socket→exception e h = ground arith

-- A wait or a read that raises raises an exception of the socket.
pub read_packet-errors_at :
    (timeout : Option ℕ) (s : Stub) (pending : List Text) (e : Error)
    → s.pending_replies ≡ pending
    → (read_packet timeout s).0 ≡ err e
    → is_socket_error e ≡ true
unfolding read_packet
read_packet-errors_at timeout s [] e same h =
    Within-error is_socket_error (unread s) (read_packet_from_wire timeout recv s) e
      (read_packet_from_wire-Within timeout recv s) (rw (same, read_packet) at h)
read_packet-errors_at timeout s (reply ∷ rest) e same h = cc (rw (same, read_packet) at h)

pub Within-Proper : {A : Type 0} (n : ℕ) (r : Result A × Stub) → Within is_link_error n r → Proper r
Within-Proper n (ok a, t) h = tt
Within-Proper n (err e, t) h = link→exception e h

-- What reads a packet, or sends one.
socket-Proper :
    {A : Type 0} (r : Result A × Stub)
    → ((e : Error) → r.0 ≡ err e → is_socket_error e ≡ true)
    → Proper r
socket-Proper (ok a, t) h = tt
socket-Proper (err e, t) h = socket→exception e (h e refl)

pub read_packet-Ends : (timeout : Option ℕ) → Ends (read_packet timeout)
read_packet-Ends timeout s =
    socket-Proper (read_packet timeout s)
      λ e. read_packet-errors_at timeout s s.pending_replies e refl

pub send_packet-Ends : (payload : Text) → Ends (send_packet payload)
send_packet-Ends payload s =
    Within-Proper (suc (unread s)) (send_packet payload s) (send_packet-Within payload s)

pub cmd-Ends : (payload : Text) (timeout : Option ℕ) → Ends (cmd payload timeout)
cmd-Ends payload timeout s =
    Within-Proper (unread s) (cmd payload timeout s) (cmd-Within payload timeout s)

-- The replies.
raise_if_error-IsClean : (reply : Text) → IsClean (raise_if_error reply)
unfolding raise_if_error
raise_if_error-IsClean reply = ground arith

decode_hex-IsClean : (reply : Text) → IsClean (decode_hex reply)
unfolding decode_hex
decode_hex-IsClean reply = ground arith

break_reply-IsClean : (reply : Text) → IsClean (break_reply reply)
unfolding break_reply
break_reply-IsClean reply = ground arith

checked-Ends :
    (reply : Text) → Ends {S = Stub} (lift (raise_if_error reply) >>= λ _. lift (decode_hex reply))
checked-Ends reply =
    Ends-bind (lift (raise_if_error reply)) (λ _. lift (decode_hex reply))
      (Ends-lift (raise_if_error reply) (raise_if_error-IsClean reply))
      λ _. Ends-lift (decode_hex reply) (decode_hex-IsClean reply)

pub read_registers-Ends : Ends read_registers
unfolding read_registers
read_registers-Ends = Ends-bind (cmd (codes "g") none) _ (cmd-Ends (codes "g") none) checked-Ends

pub read_register-Ends : (regnum : ℕ) → Ends (read_register regnum)
unfolding read_register
read_register-Ends regnum =
    Ends-bind (cmd (b'p' ∷ hex_nat regnum) none) _ (cmd-Ends (b'p' ∷ hex_nat regnum) none)
      λ reply s. tt

pub read_register_bytes-Ends : (regnum : ℕ) → Ends (read_register_bytes regnum)
unfolding read_register_bytes
read_register_bytes-Ends regnum =
    Ends-bind (cmd (b'p' ∷ hex_nat regnum) none) _ (cmd-Ends (b'p' ∷ hex_nat regnum) none)
      λ reply s. tt

pub read_mem-Ends : (addr size : ℤ) → Ends (read_mem addr size)
unfolding read_mem
read_mem-Ends addr size =
    Ends-bind (cmd (read_mem_packet addr size) none) _ (cmd-Ends (read_mem_packet addr size) none)
      checked-Ends

pub set_break-Ends : (op : Text) (addr size : ℤ) → Ends (set_break op addr size)
unfolding set_break
set_break-Ends op addr size =
    Ends-bind (cmd (break_packet op addr size) none) _ (cmd-Ends (break_packet op addr size) none)
      λ reply. Ends-lift (break_reply reply) (break_reply-IsClean reply)

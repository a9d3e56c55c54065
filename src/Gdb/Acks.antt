-- ===== src/Gdb/Acks.antt =====
-- gdb/client.py: `_read_exact`, `_consume_ack`, `_send_packet` and `cmd` of `GDBStub`.
pub mod Order
pub mod Commands
pub mod Exchange
pub mod Fuel
pub mod Sent
use dolphin_re_mcp.Prelude.{
  ℕ, zero, suc, ◌+◌, ◌-◌, ◌%◌, ◌/◌, Bool, true, false, not, ◌&&◌, Option, none, some, List, [], ◌∷◌,
  ◌++◌, map, ltb, leb, ◌==◌, if◌then◌else◌, length, take, drop, is_empty,
}
use dolphin_re_mcp.Prelude.Text.{Text, Bytes, codes, hex_digit, split_once, eq_text}
use dolphin_re_mcp.Errors.{
  Error, Result, ok, err, connection_lost, protocol_error, value_error, out_of_fuel, is_os_error,
  os_error,
}
use dolphin_re_mcp.Exec.{Exec, pure, raise, gets, modify, ◌>>=◌, ◌>>◌, catch, finally}
use dolphin_re_mcp.Gdb.Socket.{receive, weight}
use dolphin_re_mcp.Gdb.Stub.{Stub, Direction, recv, oob, close, record_send, unread}
use dolphin_re_mcp.Gdb.Packets.{
  frame, require_sock, send_or_close, recv_some, read_packet_from_wire,
}

-- `_read_exact(n)`: `out` is what has been read, `fuel` the bytes that are still missing.
unfoldable pub read_more : ℕ → Bytes → ℕ → Exec Stub Bytes
read_more n out zero s = (err out_of_fuel, s)
read_more n out (suc fuel) s = elim (ltb (length out) n) [
  | false ↦ (ok out, s)
  | true ↦
      (recv_some (n - length out) >>= λ chunk.
      if is_empty chunk
      then modify close >> raise connection_lost
      else read_more n (out ++ chunk) fuel)
        s
]

unfoldable pub read_exact : ℕ → Exec Stub Bytes
read_exact n s =
    let out = take n s.recv_buf in
    let s' = record s { recv_buf = drop n s.recv_buf } in
    elim (leb n (length out)) [
      | true ↦ (ok out, s')
      | false ↦ (require_sock >>= λ _. read_more n out (suc n)) s'
    ]

-- What one byte of the loop in `_consume_ack` tells it to do.
pub data Ack : Type 0 where
  done again : Ack

unfoldable pub ack_byte : Bytes → Exec Stub Ack
ack_byte bytes =
    if eq_text bytes (b'+' ∷ [])
    then pure done
    else if eq_text bytes (b'-' ∷ [])
    then raise protocol_error
    else if eq_text bytes (b'$' ∷ [])
    then (do
      modify (λ s. record s { recv_buf = b'$' ∷ s.recv_buf })
      packet ← read_packet_from_wire none oob
      modify (λ s. record s { pending_replies = s.pending_replies ++ packet ∷ [] })
      pure again)
    else raise protocol_error

unfoldable pub ack_round : Exec Stub Ack
ack_round = do bytes ← read_exact 1; ack_byte bytes

abbrev pub after_ack : Exec Stub Unit → Ack → Exec Stub Unit
after_ack next done = pure tt
after_ack next again = next

unfoldable pub ack_loop : ℕ → Exec Stub Unit
ack_loop zero = raise out_of_fuel
ack_loop (suc fuel) = ack_round >>= after_ack (ack_loop fuel)

-- Each round takes at least one byte off the buffer and the script together.
-- `_consume_ack()`
unfoldable pub consume_ack : Exec Stub Unit
consume_ack s = ack_loop (suc (unread s)) s

-- `_send_packet(payload)`
unfoldable pub send_packet : Text → Exec Stub Unit
send_packet payload = do
  require_sock
  modify (record_send payload)
  send_or_close (frame payload)
  consume_ack

-- `cmd(payload, timeout)`: the replies that are pending are not looked at.
unfoldable pub cmd : Text → Option ℕ → Exec Stub Text
cmd payload timeout = do send_packet payload; read_packet_from_wire timeout recv

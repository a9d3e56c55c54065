-- ===== src/Gdb/Packets.antt =====
-- gdb/client.py: framing and reading packets of `GDBStub`.
pub mod Reading
pub mod Delivery
pub mod Fuel
pub mod Pending
pub mod Clock
use dolphin_re_mcp.Prelude.{
  ℕ, zero, suc, ◌+◌, ◌-◌, ◌%◌, ◌/◌, Bool, true, false, not, ◌&&◌, Option, none, some, List, [], ◌∷◌,
  ◌++◌, map, ltb, leb, ◌==◌, if◌then◌else◌, length, take, drop, is_empty,
}
use dolphin_re_mcp.Prelude.Text.{Text, Bytes, codes, hex_digit, split_once, eq_text}
use dolphin_re_mcp.Errors.{
  Error, Result, ok, err, connection_lost, protocol_error, value_error, out_of_fuel, is_os_error,
  os_error,
}
use dolphin_re_mcp.Exec.{Exec, pure, raise, gets, modify, ◌>>=◌, ◌>>◌, catch, finally}
use dolphin_re_mcp.Gdb.Socket.{receive, weight}
use dolphin_re_mcp.Gdb.Stub.{
  Stub, Direction, recv, oob, close, record_send, record_recv, take_fault,
}

-- The wire

unfoldable pub checksum : Bytes → ℕ
checksum [] = 0
checksum (c ∷ p) = (c + checksum p) % 256

-- `f"${payload}#{checksum:02x}"`, encoded.
unfoldable pub frame : Bytes → Bytes
unfolding checksum hex_digit
frame payload =
    b'$'
    ∷ (payload
        ++ (b'#' ∷ hex_digit (checksum payload / 16) ∷ hex_digit (checksum payload % 16) ∷ []))

-- `bytes.decode(errors="replace")` of ASCII; any other byte is taken to be undecodable.
abbrev pub decode : Bytes → Text
decode = map (λ b. if ltb b 128 then b else 0xfffd)

unfoldable pub require_sock : Exec Stub ℕ
require_sock s = elim s.sock [ none ↦ (err connection_lost, s) | some t ↦ (ok t, s) ]

-- `sock.sendall(data)`
unfoldable pub send_all : Bytes → Exec Stub Unit
unfolding take_fault
send_all bytes s =
    let (fault, rest) = take_fault s.wire.send_faults in
    if fault then (err os_error, record s { wire = record s.wire { send_faults = rest } }) else (
      ok tt,
      record s { wire = record s.wire { send_faults = rest; sent = s.wire.sent ++ bytes } },
    )

-- `except OSError: self.close(); raise ConnectionLost`
unfoldable pub send_or_close : Bytes → Exec Stub Unit
send_or_close bytes = catch (send_all bytes) is_os_error (do modify close; raise connection_lost)

abbrev pub timeout_of : Option ℕ → ℕ
timeout_of none = 0
timeout_of (some t) = t

-- `sock.recv(n)`
unfoldable pub recv_some : ℕ → Exec Stub Bytes
unfolding receive
recv_some n s =
    let r = receive (timeout_of s.sock) n s.wire.incoming s.wire in (r.0, record s { wire = r.1 })

-- `chunk = sock.recv(4096)`: an empty one is the end of the stream.
unfoldable pub fill_once : Exec Stub Unit
fill_once = recv_some 4096 >>= λ chunk.
    if is_empty chunk
    then modify close >> raise connection_lost
    else modify (λ s. record s { recv_buf = s.recv_buf ++ chunk })

-- `while not test(self._recv_buf): …`. Each round takes at least one byte or event off the script.
unfoldable pub fill : (Bytes → Bool) → ℕ → Exec Stub Unit
fill test zero s = (err out_of_fuel, s)
fill test (suc fuel) s = elim (test s.recv_buf) [
  | true ↦ (ok tt, s)
  | false ↦ (fill_once >>= λ _. fill test fuel) s
]

unfoldable pub fill_until : (Bytes → Bool) → Exec Stub Unit
fill_until test s = fill test (suc (weight s.wire.incoming)) s

-- The three tests: a `$`, a `#` behind it, two more bytes behind that.
unfoldable pub body_of : Bytes → Option Bytes
unfolding split_once
body_of buf = elim (split_once b'$' buf) [ none ↦ none | some (_, body) ↦ some body ]

unfoldable pub ends_of : Bytes → Option (Bytes × Bytes)
unfolding body_of
ends_of buf = elim (body_of buf) [ none ↦ none | some body ↦ split_once b'#' body ]

unfoldable pub after_checksum : Bytes → Option Bytes
after_checksum (x ∷ y ∷ rest) = some rest
after_checksum _ = none

-- The first packet of a buffer that holds all of it, and what follows.
unfoldable pub packet_of : Bytes → Option (Bytes × Bytes)
unfolding ends_of after_checksum
packet_of buf = elim (ends_of buf) [
  | none ↦ none
  | some (payload, tail) ↦ elim (after_checksum tail) [
    | none ↦ none
    | some rest ↦ some (payload, rest)
  ]
]

abbrev pub is_some {ℓ} : {A : Type ℓ} → Option A → Bool
is_some none = false
is_some (some _) = true

unfoldable pub has_start : Bytes → Bool
has_start buf = is_some (body_of buf)

unfoldable pub has_end : Bytes → Bool
has_end buf = is_some (ends_of buf)

unfoldable pub has_checksum : Bytes → Bool
has_checksum buf = is_some (packet_of buf)

-- `payload = buf[start:end].decode(…); self._recv_buf = buf[end + 3:]`
unfoldable pub take_packet : Exec Stub Text
take_packet s = elim (packet_of s.recv_buf) [
  | none ↦ (err value_error, s)
  | some (payload, rest) ↦ (ok (decode payload), record s { recv_buf = rest })
]

unfoldable pub read_packet_body : Direction → Exec Stub Text
read_packet_body kind = do
  fill_until has_start
  fill_until has_end
  fill_until has_checksum
  payload ← take_packet
  send_or_close (b'+' ∷ [])
  modify (record_recv payload kind)
  pure payload

-- `sock.settimeout(t)`; on a socket that was closed it raises OSError, which is ignored.
unfoldable pub set_timeout : ℕ → Stub → Stub
set_timeout t s = elim s.sock [ none ↦ s | some _ ↦ record s { sock = some t } ]

unfoldable pub set_timeout? : Option ℕ → Stub → Stub
set_timeout? none s = s
set_timeout? (some t) s = set_timeout t s

-- `_read_packet_from_wire(timeout, _record_kind)`
unfoldable pub read_packet_from_wire : Option ℕ → Direction → Exec Stub Text
read_packet_from_wire timeout kind = do
  old ← require_sock
  modify (set_timeout? timeout)
  finally (read_packet_body kind) (modify (set_timeout old))

-- `_read_packet(timeout)`
unfoldable pub read_packet : Option ℕ → Exec Stub Text
read_packet timeout s = elim s.pending_replies [
  | [] ↦ read_packet_from_wire timeout recv s
  | reply ∷ rest ↦ (ok reply, record s { pending_replies = rest })
]

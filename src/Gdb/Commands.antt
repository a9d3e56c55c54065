-- ===== src/Gdb/Commands.antt =====
-- gdb/client.py: the commands of `GDBStub` and their replies.
pub mod Robust
pub mod Fields
use dolphin_re_mcp.Prelude.{
  ℕ, zero, suc, ◌+◌, Bool, true, false, not, ◌&&◌, ◌||◌, Option, none, some, List, [], ◌∷◌, ◌++◌,
  ltb, leb, if◌then◌else◌, length, is_empty,
}
use dolphin_re_mcp.Prelude.Int.{ℤ, pos}
use dolphin_re_mcp.Prelude.Text.{
  Text, Bytes, codes, eq_text, starts_with, hex, hex_nat, decimal, to_hex, from_hex, big_endian,
  digit_value,
}
use dolphin_re_mcp.Errors.{
  Error, Result, ok, err, connection_lost, protocol_error, stub_error, value_error, is_link_error,
}
use dolphin_re_mcp.Exec.{Exec, pure, raise, lift, modify, ◌>>=◌, ◌>>◌, catch, finally}
use dolphin_re_mcp.Gdb.Stub.{Stub, recv, close, monotonic, unread}
use dolphin_re_mcp.Gdb.Packets.{
  require_sock, send_or_close, read_packet_from_wire, read_packet, set_timeout,
}
use dolphin_re_mcp.Gdb.Acks.{send_packet, cmd}

-- Lifecycle

unfoldable pub detach : Exec Stub Unit
detach = do catch (cmd (codes "D") none >>= λ _. pure tt) is_link_error (pure tt); modify close

abbrev pub is_alive_on : Option ℕ → Exec Stub Bool
is_alive_on none = pure false
is_alive_on (some _) = catch (cmd (codes "qC") none >>= λ _. pure true) is_link_error (pure false)

unfoldable pub is_alive : Exec Stub Bool
is_alive s = is_alive_on s.sock s

unfoldable pub probe_reply : ℕ → Exec Stub Bool
probe_reply timeout = do
  send_packet (codes "qC")
  reply ← read_packet_from_wire (some timeout) recv
  pure (not (starts_with reply (codes "E")))

abbrev pub probe_on : Option ℕ → ℕ → Exec Stub Bool
probe_on none timeout s = (ok false, s)
probe_on (some old) timeout s =
    finally (catch (probe_reply timeout) is_link_error (pure false)) (modify (set_timeout old))
      (set_timeout timeout s)

unfoldable pub probe_responsive : ℕ → Exec Stub Bool
probe_responsive timeout s = probe_on s.sock timeout s

-- Queries

unfoldable pub query_supported : Exec Stub Text
query_supported = cmd (codes "qSupported:multiprocess+;swbreak+;hwbreak+") none

unfoldable pub why_halted : Exec Stub Text
why_halted = cmd (codes "?") none

-- Replies

unfoldable pub is_hex_char : ℕ → Bool
is_hex_char c = ltb (digit_value c) 16

-- The test of `_raise_if_error`: `E` and two hex digits, whatever follows.
unfoldable pub is_error_reply : Text → Bool
unfolding is_hex_char digit_value
is_error_reply (e ∷ x ∷ y ∷ _) = eq_text (e ∷ []) (codes "E") && (is_hex_char x && is_hex_char y)
is_error_reply _ = false

unfoldable pub raise_if_error : Text → Result (Unit {0})
unfolding is_error_reply
raise_if_error reply =
    if is_empty reply
    then err stub_error
    else if is_error_reply reply
    then err stub_error
    else ok tt

unfoldable pub decode_hex : Text → Result Bytes
unfolding from_hex
decode_hex reply = elim (from_hex reply) [ none ↦ err value_error | some bytes ↦ ok bytes ]

-- What `read_register_bytes` makes of a reply.
unfoldable pub register_reply : Text → Option Bytes
unfolding from_hex starts_with
register_reply reply =
    if is_empty reply || starts_with reply (codes "E") then none else from_hex reply

-- Registers

unfoldable pub read_registers : Exec Stub Bytes
read_registers = do
  reply ← cmd (codes "g") none
  lift (raise_if_error reply)
  lift (decode_hex reply)

unfoldable pub read_register_bytes : ℕ → Exec Stub (Option Bytes)
read_register_bytes regnum = do
  reply ← cmd (b'p' ∷ hex_nat regnum) none
  pure (register_reply reply)

-- `int.from_bytes` of no bytes is 0.
abbrev pub as_number : Option Bytes → Option ℕ
as_number none = none
as_number (some bytes) = some (big_endian bytes)

unfoldable pub read_register : ℕ → Exec Stub (Option ℕ)
read_register regnum = do
  reply ← cmd (b'p' ∷ hex_nat regnum) none
  pure (as_number (register_reply reply))

-- Memory

unfoldable pub read_mem_packet : ℤ → ℤ → Text
read_mem_packet addr size = b'm' ∷ (hex addr ++ (b',' ∷ hex size))

unfoldable pub read_mem : ℤ → ℤ → Exec Stub Bytes
read_mem addr size = do
  reply ← cmd (read_mem_packet addr size) none
  lift (raise_if_error reply)
  lift (decode_hex reply)

unfoldable pub write_mem_packet : ℤ → Bytes → Text
write_mem_packet addr bytes =
    b'M' ∷ (hex addr ++ (b',' ∷ (hex_nat (length bytes) ++ (b':' ∷ to_hex bytes))))

unfoldable pub write_mem : ℤ → Bytes → Exec Stub Unit
write_mem addr bytes = do
  reply ← cmd (write_mem_packet addr bytes) none
  lift (raise_if_error reply)
  if eq_text reply (codes "OK") then pure tt else raise protocol_error

-- Breakpoints and watchpoints

-- `f"{op},{addr:x},{size}"`
unfoldable pub break_packet : Text → ℤ → ℤ → Text
break_packet op addr size = op ++ (b',' ∷ (hex addr ++ (b',' ∷ decimal size)))

unfoldable pub break_reply : Text → Result Text
unfolding starts_with
break_reply reply =
    if is_empty reply
    then err stub_error
    else if starts_with reply (codes "E")
    then err stub_error
    else ok reply

-- `_set_break(op, addr, size)`
unfoldable pub set_break : Text → ℤ → ℤ → Exec Stub Text
set_break op addr size = do reply ← cmd (break_packet op addr size) none; lift (break_reply reply)

unfoldable pub add_sw_breakpoint : ℤ → Exec Stub Text
add_sw_breakpoint addr = set_break (codes "Z0") addr (pos 4)

unfoldable pub remove_sw_breakpoint : ℤ → Exec Stub Text
remove_sw_breakpoint addr = set_break (codes "z0") addr (pos 4)

unfoldable pub add_hw_breakpoint : ℤ → Exec Stub Text
add_hw_breakpoint addr = set_break (codes "Z1") addr (pos 4)

unfoldable pub remove_hw_breakpoint : ℤ → Exec Stub Text
remove_hw_breakpoint addr = set_break (codes "z1") addr (pos 4)

unfoldable pub add_write_watchpoint : ℤ → ℤ → Exec Stub Text
add_write_watchpoint = set_break (codes "Z2")

unfoldable pub remove_write_watchpoint : ℤ → ℤ → Exec Stub Text
remove_write_watchpoint = set_break (codes "z2")

unfoldable pub add_read_watchpoint : ℤ → ℤ → Exec Stub Text
add_read_watchpoint = set_break (codes "Z3")

unfoldable pub remove_read_watchpoint : ℤ → ℤ → Exec Stub Text
remove_read_watchpoint = set_break (codes "z3")

unfoldable pub add_access_watchpoint : ℤ → ℤ → Exec Stub Text
add_access_watchpoint = set_break (codes "Z4")

unfoldable pub remove_access_watchpoint : ℤ → ℤ → Exec Stub Text
remove_access_watchpoint = set_break (codes "z4")

-- ===== src/Gdb/Execution.antt =====
-- gdb/client.py: running, stepping, interrupting and draining stop replies.
pub mod Draining
pub mod Stale
use dolphin_re_mcp.Prelude.{
  ℕ, zero, suc, ◌+◌, Bool, true, false, none, some, List, [], ◌∷◌, ◌++◌, Option, ltb,
}
use dolphin_re_mcp.Prelude.Text.{Text, codes}
use dolphin_re_mcp.Errors.{Error, Result, ok, err, out_of_fuel, is_socket_error}
use dolphin_re_mcp.Exec.{Exec, pure, raise, gets, modify, ◌>>=◌, ◌>>◌}
use dolphin_re_mcp.Gdb.Stub.{Stub, recv, monotonic, unread}
use dolphin_re_mcp.Gdb.Packets.{require_sock, send_or_close, read_packet_from_wire, read_packet}
use dolphin_re_mcp.Gdb.Acks.{send_packet}

unfoldable pub continue_async : Exec Stub Unit
continue_async = send_packet (codes "c")

unfoldable pub wait_for_stop : Option ℕ → Exec Stub Text
wait_for_stop = read_packet

unfoldable pub continue_and_wait : Option ℕ → Exec Stub Text
continue_and_wait timeout = do continue_async; wait_for_stop timeout

unfoldable pub step : Option ℕ → Exec Stub Text
step timeout = do send_packet (codes "s"); read_packet timeout

-- The byte 0x03.
unfoldable pub interrupt : Exec Stub Unit
interrupt = do require_sock; send_or_close (3 ∷ [])

unfoldable pub drain_pending_replies : Exec Stub (List Text)
drain_pending_replies s = (ok s.pending_replies, record s { pending_replies = [] })

-- One read of the drain: none ends the loop.
abbrev pub drained : Result Text × Stub → Result (Option Text) × Stub
drained (ok packet, s) = (ok (some packet), s)
drained (err e, s) = elim (is_socket_error e) [ true ↦ (ok none, s) | false ↦ (err e, s) ]

unfoldable pub drain_one : Exec Stub (Option Text)
drain_one s = drained (read_packet_from_wire (some 20_000) recv s)

-- The rest of a round, once the read is done.
abbrev pub drain_next :
    (List Text → Exec Stub (List Text)) → List Text → Option Text → Exec Stub (List Text)
drain_next next out none = pure out
drain_next next out (some packet) = next (out ++ packet ∷ [])

abbrev pub drain_turn : Bool → Exec Stub (List Text) → List Text → Exec Stub (List Text)
drain_turn true round out = round
drain_turn false round out = pure out

-- `while time.monotonic() < end`; each packet read leaves less unread.
unfoldable pub drain_loop : ℕ → ℕ → List Text → Exec Stub (List Text)
drain_loop zero stop out s = (err out_of_fuel, s)
drain_loop (suc fuel) stop out s =
    (monotonic >>= λ now.
    drain_turn (ltb now stop) (drain_one >>= drain_next (drain_loop fuel stop) out) out)
      s

unfoldable pub drain_stop_replies : ℕ → Exec Stub (List Text)
drain_stop_replies max_wait = do
  out ← drain_pending_replies
  now ← monotonic
  fuel ← gets unread
  drain_loop (suc fuel) (now + max_wait) out

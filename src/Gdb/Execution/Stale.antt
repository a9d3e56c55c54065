-- ===== src/Gdb/Execution/Stale.antt =====
-- What a new connection finds pending.
use dolphin_re_mcp.Prelude.{ℕ, ◌≡◌, refl, Option, none, some, List, [], ◌∷◌}
use dolphin_re_mcp.Prelude.Text.{Text}
use dolphin_re_mcp.Errors.{ok}
use dolphin_re_mcp.Exec.{modify, ◌>>=◌}
use dolphin_re_mcp.Gdb.Stub.{Stub, connect, close, take_fault}
use dolphin_re_mcp.Gdb.Packets.{read_packet}
use dolphin_re_mcp.Gdb.Execution.{wait_for_stop}

-- The reply of the pending replies that a wait gives first.
wait_for_stop-pending :
    (timeout : Option ℕ) (reply : Text) (rest : List Text) (s : Stub)
    → s.pending_replies ≡ reply ∷ rest
    → (wait_for_stop timeout s).0 ≡ ok reply
unfolding wait_for_stop read_packet
wait_for_stop-pending timeout reply rest s h = rw h refl

close_lem : (s : Stub) {t : ℕ} → s.sock ≡ some t → close s ≡ record s { sock = none; recv_buf = [] }
unfolding close
close_lem s h = rw (h, close) refl

connect_lem :
    (s : Stub)
    → s.sock ≡ none
    → s.wire.dial_faults ≡ []
    → connect s ≡ (
      ok tt,
      record s {
        sock = some s.default_timeout;
        recv_buf = [];
        wire = record s.wire { dial_faults = [] };
      },
    )
unfolding connect take_fault
connect_lem s h k = rw (h, k, connect) refl

-- A stop reply that is pending when the connection is closed is still pending on the next
-- connection, where a wait returns it although the new target has not stopped.
pub pending-survives :
    (timeout : Option ℕ) (reply : Text) (rest : List Text) (s : Stub) {t : ℕ}
    → s.sock ≡ some t
    → s.wire.dial_faults ≡ []
    → s.pending_replies ≡ reply ∷ rest
    → ((modify close >>= λ _. connect >>= λ _. wait_for_stop timeout) s).0 ≡ ok reply
pending-survives timeout reply rest s {t} open_ dials h =
    let closed : Stub = record s { sock = none; recv_buf = [] } in
    rw (close_lem s open_, connect_lem closed refl dials)
      (wait_for_stop-pending timeout reply rest _ h)

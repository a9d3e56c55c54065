-- ===== src/Gdb/Commands/Robust.antt =====
-- The probes of the stub return, whatever the peer does.
use dolphin_re_mcp.Prelude.{
  ◌≡◌, arith, ℕ, suc, refl, true, false, none, some, Option, String, arith,
}
use dolphin_re_mcp.Prelude.Text.{codes}
use dolphin_re_mcp.Errors.{ok, is_link_error}
use dolphin_re_mcp.Exec.{Returns, catch, catch-Returns, finally-Returns, pure, ◌>>=◌}
use dolphin_re_mcp.Gdb.Stub.{Stub, recv, unread, close}
use dolphin_re_mcp.Gdb.Packets.{read_packet_from_wire, set_timeout}
use dolphin_re_mcp.Gdb.Packets.Fuel.{
  Within, Within-bind, Within-error, read_packet_from_wire-Within,
}
use dolphin_re_mcp.Gdb.Acks.{cmd, send_packet}
use dolphin_re_mcp.Gdb.Acks.Fuel.{cmd-Within, send_packet-Within, Within-link}
use dolphin_re_mcp.Gdb.Commands.{
  is_alive_on, probe_on, is_alive, probe_reply, probe_responsive, detach,
}

command-Within :
    {A : Type 0} (a : A) (packet : String) (s : Stub)
    → Within is_link_error (suc (unread s)) ((cmd (codes packet) none >>= λ _. pure a) s)
command-Within a packet s =
    Within-bind is_link_error (unread s) (suc (unread s)) (cmd (codes packet) none) (λ _. pure a) s
      (cmd-Within (codes packet) none s) (λ _ t h. omega arith)

probe_reply-Within :
    (timeout : ℕ) (s : Stub) → Within is_link_error (suc (unread s)) (probe_reply timeout s)
unfolding probe_reply
probe_reply-Within timeout s =
    Within-bind is_link_error (suc (unread s)) (suc (unread s)) (send_packet (codes "qC")) _ s
      (send_packet-Within (codes "qC") s)
      λ _ t h.
        Within-bind is_link_error (unread t) (suc (unread s))
          (read_packet_from_wire (some timeout) recv) _ t
          (Within-link _ _ (read_packet_from_wire-Within (some timeout) recv t))
          λ reply u k. omega arith

is_alive_on-Returns : (o : Option ℕ) (s : Stub) → Returns (is_alive_on o s)
is_alive_on-Returns none s = (false, s, refl)
is_alive_on-Returns (some t) s =
    catch-Returns (cmd (codes "qC") none >>= λ _. pure true) is_link_error false s
      λ e. Within-error is_link_error (suc (unread s)) _ e (command-Within true "qC" s)

probe_on-Returns : (o : Option ℕ) (timeout : ℕ) (s : Stub) → Returns (probe_on o timeout s)
probe_on-Returns none timeout s = (false, s, refl)
probe_on-Returns (some old) timeout s =
    let s' = set_timeout timeout s in
    finally-Returns (catch (probe_reply timeout) is_link_error (pure false)) (set_timeout old) s' (
      catch-Returns (probe_reply timeout) is_link_error false s'
        λ e. Within-error is_link_error (suc (unread s')) _ e (probe_reply-Within timeout s'))

close-sock_at : (o : Option ℕ) (s : Stub) → s.sock ≡ o → (close s).sock ≡ none
unfolding close
close-sock_at none s h = ground arith
close-sock_at (some t) s h = ground arith

pub close-sock : (s : Stub) → (close s).sock ≡ none
close-sock s = close-sock_at s.sock s refl

pub detach-Closes : (s : Stub) → (t : Stub) × (detach s ≡ (ok tt, t)) × (t.sock ≡ none)
unfolding detach
detach-Closes s =
    let (a, t, e) =
      catch-Returns (cmd (codes "D") none >>= λ _. pure tt) is_link_error tt s
        λ e. Within-error is_link_error (suc (unread s)) _ e (command-Within tt "D" s) in
    (close t, rw e, close-sock t)

detach-Returns : (s : Stub) → Returns (detach s)
detach-Returns s = let (t, run, closed) = detach-Closes s in (tt, t, run)

-- No failure of the peer or of the socket escapes the client's probes or its detach: each returns,
-- in any state and against any peer.
pub probes-Return :
    (timeout : ℕ) (s : Stub)
    → Returns (is_alive s) × Returns (probe_responsive timeout s) × Returns (detach s)
unfolding is_alive probe_responsive
probes-Return timeout s =
    (is_alive_on-Returns s.sock s, probe_on-Returns s.sock timeout s, detach-Returns s)

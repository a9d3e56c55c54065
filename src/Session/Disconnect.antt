-- ===== src/Session/Disconnect.antt =====
-- `disconnect` leaves nothing behind.
use dolphin_re_mcp.Prelude.{ℕ, ◌≡◌, refl, Bool, true, false, Option, none, some, []}
use dolphin_re_mcp.Errors.{ok}
use dolphin_re_mcp.Gdb.Stub.{Stub, close}
use dolphin_re_mcp.Gdb.Commands.Robust.{detach-Closes, close-sock}
use dolphin_re_mcp.Session.{Session, disconnected, hang_up, forget, detach_memory, disconnect}

hang_up-Closes :
    (send_detach : Bool) (o : Option ℕ) (s : Stub)
    → s.sock ≡ o
    → (t : Stub) × (hang_up send_detach o s ≡ (ok tt, t)) × (t.sock ≡ none)
hang_up-Closes send_detach none s h = (s, refl, h)
hang_up-Closes true (some t) s h = detach-Closes s
hang_up-Closes false (some t) s h = (close s, refl, close-sock s)

-- Disconnecting returns, in any state and against any peer. It leaves the session disconnected, with
-- no breakpoint, no attached process and no socket.
pub disconnect-Clears :
    (send_detach : Bool) (s : Session)
    → (t : Session) × (disconnect send_detach s ≡ (ok tt, t))
      × (t.state ≡ disconnected)
      × (t.breakpoints ≡ [])
      × (t.attach_backend ≡ none)
      × (t.stub.sock ≡ none)
unfolding disconnect
disconnect-Clears send_detach s =
    let (u, run, closed) = hang_up-Closes send_detach s.stub.sock s.stub refl in
    (forget (record (detach_memory s) { stub = u }), rw run refl, refl, refl, refl, closed)

-- ===== src/Tools/Quiesce/Around.antt =====
-- What `_safe_to_modify` does around the body, on a target that runs.
use dolphin_re_mcp.Prelude.{◌≡◌, refl, ap, ◌∙◌, Bool, true, false, [], ◌++◌, append_assoc}
use dolphin_re_mcp.Prelude.Text.{Bytes, codes}
use dolphin_re_mcp.Errors.{Result, ok, err}
use dolphin_re_mcp.Exec.{Exec, modify, continue, ◌>>=◌, finally, after_cleanup}
use dolphin_re_mcp.Exec.Along.{OnReturn, OnReturn-bind, OnReturn-always}
use dolphin_re_mcp.Gdb.Stub.{Stub}
use dolphin_re_mcp.Gdb.Packets.{frame}
use dolphin_re_mcp.Gdb.Packets.Clock.{Forward}
use dolphin_re_mcp.Gdb.Acks.Sent.{Framed, send_packet-Framed}
use dolphin_re_mcp.Gdb.Commands.{probe_responsive}
use dolphin_re_mcp.Gdb.Execution.{continue_async, drain_stop_replies}
use dolphin_re_mcp.Gdb.Execution.Draining.{drain_stop_replies-Drains}
use dolphin_re_mcp.Session.{
  Session, SessionState, disconnected, connected_paused, connected_running, error, on_stub,
  mark_paused, mark_running,
}
use dolphin_re_mcp.Tools.Quiesce.{
  quiesce_stub, quiesce_for_modify, wedged, unless_wedged, pause_for_modify, resume_after_modify,
  modify_when, safe_to_modify, is_running,
}
use dolphin_re_mcp.Tools.Quiesce.Sent.{
  Interrupted, Interrupted-next, Interrupted-after, quiesce_stub-Interrupted,
  drain_stop_replies-Forward, probe_responsive-Forward,
}

-- The session is marked as paused, no stop reply waits, and the interrupt was sent since `s`, unless
-- the socket is closed.
abbrev pub PausedSince : Session → Session → Type 0
PausedSince s t =
    (t.state ≡ connected_paused) × (t.stub.pending_replies ≡ []) × Interrupted s.stub t.stub

-- The session is marked as running, and the frame of `c` was sent since `s`.
abbrev pub Continued : Session → Session → Type 0
Continued s t =
    (t.state ≡ connected_running)
    × ((a b : Bytes) × (t.stub.wire.sent ≡ s.stub.wire.sent ++ (a ++ (frame (codes "c") ++ b))))

module _ (s : Session) where
  -- The stub after quiescing, drained and marked.
  drained_and_marked :
      (t : Session)
      → t.state ≡ connected_paused
      → Interrupted s.stub t.stub
      → OnReturn
          (PausedSince s)
          ((on_stub (drain_stop_replies 100_000) >>= λ _. modify mark_paused) t)
  unfolding mark_paused
  drained_and_marked t paused told =
      let (more, u, run, empty, few, ended) = drain_stop_replies-Drains 100_000 t.stub in
      let on : Forward t.stub u = rw run at (drain_stop_replies-Forward 100_000 t.stub) in
      rw run (rw paused (refl, empty, Interrupted-next s.stub t.stub u told on))

  -- Before the drain: quiesced, and marked.
  abbrev Told : SessionState → Session → Type 0
  Told state t = (t.state ≡ state) × Interrupted s.stub t.stub

  quiesced :
      (t : Session)
      → t.state ≡ connected_running
      → Forward s.stub t.stub
      → OnReturn (Told connected_paused) (quiesce_for_modify t)
  unfolding quiesce_for_modify mark_paused
  quiesced t runs on =
      OnReturn-bind (Told connected_running) (Told connected_paused) (on_stub quiesce_stub)
        (λ _. modify mark_paused) t
        (OnReturn-always (Told connected_running) (on_stub quiesce_stub t) (
          runs,
          Interrupted-after s.stub t.stub (quiesce_stub t.stub).1 on
              (quiesce_stub-Interrupted t.stub),
        ))
        λ _ u h. rw (h.0) (refl, h.1)

  unless_wedged-PausedSince :
      (b : Bool) (t : Session)
      → t.state ≡ connected_running
      → Forward s.stub t.stub
      → OnReturn (PausedSince s) (unless_wedged b t)
  unfolding wedged
  unless_wedged-PausedSince false t runs on = tt
  unless_wedged-PausedSince true t runs on =
      OnReturn-bind (Told connected_paused) (PausedSince s) quiesce_for_modify
        (λ _. on_stub (drain_stop_replies 100_000) >>= λ _. modify mark_paused) t
        (quiesced t runs on) λ _ u h. drained_and_marked u h.0 h.1

  pause_for_modify-PausedSince :
      s.state ≡ connected_running → OnReturn (PausedSince s) (pause_for_modify s)
  unfolding pause_for_modify
  pause_for_modify-PausedSince runs =
      let Probed : Session → Type 0 = λ t. (t.state ≡ connected_running) × Forward s.stub t.stub in
      OnReturn-bind Probed (PausedSince s) (on_stub (probe_responsive 500_000)) unless_wedged s
        (OnReturn-always Probed (on_stub (probe_responsive 500_000) s)
          (runs, probe_responsive-Forward 500_000 s.stub))
        λ b t h. unless_wedged-PausedSince b t h.0 h.1

-- The frame of `c` was sent, in a session that is marked as paused.
abbrev Sent : Session → Session → Type 0
Sent t u = (u.state ≡ connected_paused) × Framed (codes "c") t.stub u.stub

on_stub-Sent :
    (t : Session) (r : Result (Unit {0}) × Stub)
    → t.state ≡ connected_paused
    → OnReturn (Framed (codes "c") t.stub) r
    → OnReturn (Sent t) (r.0, record t { stub = r.1 })
on_stub-Sent t (ok a, u) paused h = (paused, h)
on_stub-Sent t (err e, u) paused h = tt

Continued-from :
    (s t : Session)
    → t.state ≡ connected_paused
    → Forward s.stub t.stub
    → OnReturn (Continued s) ((on_stub continue_async >>= λ _. modify mark_running) t)
unfolding mark_running continue_async
Continued-from s t paused (_, ((a, e), _)) =
    OnReturn-bind (Sent t) (Continued s) (on_stub continue_async) (λ _. modify mark_running) t
      (on_stub-Sent t (continue_async t.stub) paused (send_packet-Framed (codes "c") t.stub))
      λ _ u (marked, (b, f)).
        let frame_c = frame (codes "c") in
        let all : u.stub.wire.sent ≡ s.stub.wire.sent ++ (a ++ (frame_c ++ b)) =
          f
          ∙ (ap (λ (x : Bytes). (x ++ frame_c) ++ b) e
              ∙ (append_assoc (s.stub.wire.sent ++ a) frame_c b
                  ∙ append_assoc s.stub.wire.sent a (frame_c ++ b))) in
        rw marked (refl, (a, b, all))

resume_after_modify-Continued :
    (s : Session) → s.state ≡ connected_paused → OnReturn (Continued s) (resume_after_modify s)
unfolding resume_after_modify
resume_after_modify-Continued s paused =
    let On : Session → Type 0 = λ t. (t.state ≡ connected_paused) × Forward s.stub t.stub in
    OnReturn-bind On (Continued s) (on_stub (drain_stop_replies 50_000))
      (λ _. on_stub continue_async >>= λ _. modify mark_running) s
      (OnReturn-always On (on_stub (drain_stop_replies 50_000) s)
        (paused, drain_stop_replies-Forward 50_000 s.stub))
      λ _ t on. Continued-from s t on.0 on.1

module _ {A : Type 0} (m : Exec Stub A) (s : Session) where
  -- A run that returns: the body ran on a target that was stopped for it, and gave the value, and
  -- the target was continued behind it.
  abbrev pub Around : Result A × Session → Type 0
  Around (ok a, t) = (u v : Session) × PausedSince s u × (on_stub m u ≡ (ok a, v)) × Continued v t
  Around (err e, t) = Unit

  Around-cleaned :
      (u : Session) (q : Result A × Session) (p : Result (Unit {0}) × Session)
      → PausedSince s u
      → on_stub m u ≡ q
      → OnReturn (Continued q.1) p
      → Around (after_cleanup q.0 p)
  Around-cleaned u (ok a, v) (ok b, t) paused run h = (u, v, paused, run, h)
  Around-cleaned u (ok a, v) (err e, t) paused run h = tt
  Around-cleaned u (err x, v) (ok b, t) paused run h = tt
  Around-cleaned u (err x, v) (err e, t) paused run h = tt

  Around-paused :
      (r : Result (Unit {0}) × Session)
      → OnReturn (PausedSince s) r
      → Around (continue r.0 (λ _. finally (on_stub m) resume_after_modify) r.1)
  Around-paused (ok a, u) h =
      Around-cleaned u (on_stub m u) (resume_after_modify (on_stub m u).1) h refl
        (resume_after_modify-Continued (on_stub m u).1 h.0)
  Around-paused (err e, u) h = tt

  -- By the state of the session: a target that does not run is left as it is.
  abbrev pub Modified : SessionState → Result A × Session → Type 0
  Modified connected_running r = Around r
  Modified _ r = r ≡ on_stub m s

  modify_when-Modified :
      (state : SessionState)
      → s.state ≡ state
      → Modified state (modify_when (is_running state) (on_stub m) s)
  modify_when-Modified connected_running h =
      Around-paused (pause_for_modify s) (pause_for_modify-PausedSince s h)
  modify_when-Modified connected_paused h = refl
  modify_when-Modified disconnected h = refl
  modify_when-Modified error h = refl

-- A modification of a target that runs and that returns has run its body in a session marked as
-- paused, with no stop reply waiting, and, if the socket was open then, with the interrupt sent
-- before; and behind the body the frame of `c` was sent, and the session is marked as running. On a
-- target that does not run it is just its body.
pub safe_to_modify-Modified :
    {A : Type 0} (m : Exec Stub A) (s : Session)
    → Modified m s s.state (safe_to_modify (on_stub m) s)
unfolding safe_to_modify
safe_to_modify-Modified m s = modify_when-Modified m s s.state refl

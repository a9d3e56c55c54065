-- ===== src/Tools/Quiesce/Ends.antt =====
-- Quiescing ends: the clock moves on, so both loops pass their deadlines.
use dolphin_re_mcp.Prelude.{
  ℕ, zero, suc, ◌+◌, ◌≤◌, ◌<◌, ◌≡◌, refl, ap, Bool, true, false, inl, inr, some, [], ◌∷◌, ◌++◌,
  arith, Bool-cases, ltb, ltb→lt,
}
use dolphin_re_mcp.Prelude.Text.{codes}
use dolphin_re_mcp.Errors.{Error, Result, ok, err, is_socket_error}
use dolphin_re_mcp.Exec.{Exec, Returns, ◌>>=◌, pure, catch-Returns}
use dolphin_re_mcp.Exec.Along.{Along, Along-catch}
use dolphin_re_mcp.Gdb.Stub.{Stub, recv, monotonic, unread}
use dolphin_re_mcp.Gdb.Packets.{read_packet, read_packet_from_wire, require_sock, send_or_close}
use dolphin_re_mcp.Gdb.Packets.Clock.{
  Forward, Forward-bind, Forward-stay, Forward-next, read_packet-Forward,
  read_packet_from_wire-Forward,
}
use dolphin_re_mcp.Gdb.Packets.Fuel.{
  Within-bind, Within-mono, Within-error, read_packet_from_wire-Within, require_sock-Within,
  send_or_close-Within,
}
use dolphin_re_mcp.Gdb.Acks.{send_packet}
use dolphin_re_mcp.Gdb.Acks.Fuel.{send_packet-Within, Within-link}
use dolphin_re_mcp.Gdb.Execution.{wait_for_stop, interrupt, drain_stop_replies}
use dolphin_re_mcp.Gdb.Execution.Draining.{drain_stop_replies-Drains}
use dolphin_re_mcp.Session.{Session, connected_paused, connected_running, mark_paused, is_exception}
use dolphin_re_mcp.Session.Proper.{Proper, Proper-bind, Returns-Proper, Proper-errors, Ends}
use dolphin_re_mcp.Session.Ends.{Within-Proper, socket→exception, read_packet-errors_at}
use dolphin_re_mcp.Tools.Quiesce.{
  attempt, budget, stop_came, after_wait, while_early, await_stops, is_fence, fence_came,
  unless_done, await_fence, fence, quiesce_stub, quiesce_for_modify,
}

map-errors :
    {A B : Type 0} (m : Exec Stub A) (f : A → B) (s : Stub) (e : Error) (r : Result A × Stub)
    → m s ≡ r
    → ((m >>= λ a. pure (f a)) s).0 ≡ err e
    → (m s).0 ≡ err e
map-errors m f s e (ok a, t) run h = cc (rw run at h)
map-errors {B} m f s e (err x, t) run h =
    let raised : Path (Result B) (err x) (err e) = rw run at h in
    let same : x ≡ e = cc in rw run (ap err same)

stop_came-Returns : (s : Stub) → Returns (stop_came s)
unfolding stop_came wait_for_stop
stop_came-Returns s =
    catch-Returns (read_packet (some 100_000) >>= λ _. pure true) is_exception false s λ e h.
      socket→exception e (
        read_packet-errors_at (some 100_000) s s.pending_replies e refl (
          map-errors (read_packet (some 100_000)) (λ _. true) s e (read_packet (some 100_000) s)
            refl h))

pub stop_came-Forward : Along Forward stop_came
unfolding stop_came wait_for_stop
stop_came-Forward =
    Along-catch Forward Forward-stay Forward-next (read_packet (some 100_000) >>= λ _. pure true)
      is_exception (pure false)
      (Forward-bind (read_packet (some 100_000)) (λ _. pure true)
        (read_packet-Forward (some 100_000)) λ _. Forward-stay)
      Forward-stay

fence_came-Returns : (s : Stub) → Returns (fence_came s)
unfolding fence_came
fence_came-Returns s =
    let read = read_packet_from_wire (some 200_000) recv in
    catch-Returns (read >>= λ pkt. pure (is_fence pkt)) is_exception false s λ e h.
      socket→exception e (
        Within-error is_socket_error (unread s) (read s) e
          (read_packet_from_wire-Within (some 200_000) recv s)
          (map-errors read is_fence s e (read s) refl h))

pub fence_came-Forward : Along Forward fence_came
unfolding fence_came
fence_came-Forward =
    let read = read_packet_from_wire (some 200_000) recv in
    Along-catch Forward Forward-stay Forward-next (read >>= λ pkt. pure (is_fence pkt)) is_exception
      (pure false)
      (Forward-bind read (λ pkt. pure (is_fence pkt))
        (read_packet_from_wire-Forward (some 200_000) recv) λ _. Forward-stay)
      Forward-stay

-- A test that returns, and whose next step returns wherever the clock is not earlier.
test-Returns :
    (test : Exec Stub Bool) (next : Bool → Exec Stub Unit) (s : Stub)
    → Returns (test s)
    → Along Forward test
    → ((b : Bool) (t : Stub) → Forward s t → Returns (next b t))
    → Returns ((test >>= next) s)
test-Returns test next s (b, t, run) forward rest =
    let later : Forward s t = rw run at (forward s) in rw run (rest b t later)

after_wait-Returns :
    (saw_one b : Bool) (seen unseen : Exec Stub Unit) (t : Stub)
    → Returns (seen t)
    → Returns (unseen t)
    → Returns (after_wait saw_one seen unseen b t)
after_wait-Returns saw_one true seen unseen t h k = h
after_wait-Returns true false seen unseen t h k = (tt, t, refl)
after_wait-Returns false false seen unseen t h k = k

unless_done-Returns :
    (b : Bool) (next : Exec Stub Unit) (t : Stub)
    → Returns (next t)
    → Returns (unless_done next b t)
unless_done-Returns true next t h = (tt, t, refl)
unless_done-Returns false next t h = h

ticked : (s : Stub) → (monotonic s).1.wire.clock ≡ s.wire.clock + 1
unfolding monotonic
ticked s = refl

-- A round behind the test of the clock, which takes a tick.
early-Returns :
    (deadline : ℕ) (round : Exec Stub Unit) (s : Stub)
    → (s.wire.clock < deadline → Returns (round (monotonic s).1))
    → Returns ((monotonic >>= λ now. while_early (ltb now deadline) round) s)
unfolding monotonic
early-Returns deadline round s h = elim (Bool-cases (ltb s.wire.clock deadline)) [
  | inl early ↦ rw early (h (ltb→lt s.wire.clock deadline early))
  | inr late ↦ rw late (tt, (monotonic s).1, refl)
]

-- With a round of fuel for each tick that is left, and one for the last test, both loops return.
await_stops-Returns :
    (fuel deadline : ℕ) (saw_one : Bool) (s : Stub)
    → deadline ≤ s.wire.clock + fuel
    → Returns (await_stops (suc fuel) deadline saw_one s)
unfolding await_stops
await_stops-Returns zero deadline saw_one s h =
    early-Returns deadline _ s λ early. absurd (omega arith)
await_stops-Returns (suc fuel) deadline saw_one s h =
    let seen = await_stops (suc fuel) deadline true in
    let unseen = await_stops (suc fuel) deadline false in
    early-Returns deadline (stop_came >>= after_wait saw_one seen unseen) s λ early.
      let s' = (monotonic s).1 in
      test-Returns stop_came (after_wait saw_one seen unseen) s' (stop_came-Returns s')
        stop_came-Forward
        λ b t later.
          let enough : deadline ≤ t.wire.clock + fuel = omega (arith, ticked s) in
          after_wait-Returns saw_one b seen unseen t
            (await_stops-Returns fuel deadline true t enough)
            (await_stops-Returns fuel deadline false t enough)

await_fence-Returns :
    (fuel deadline : ℕ) (s : Stub)
    → deadline ≤ s.wire.clock + fuel
    → Returns (await_fence (suc fuel) deadline s)
unfolding await_fence
await_fence-Returns zero deadline s h = early-Returns deadline _ s λ early. absurd (omega arith)
await_fence-Returns (suc fuel) deadline s h =
    let next = await_fence (suc fuel) deadline in
    early-Returns deadline (fence_came >>= unless_done next) s λ early.
      let s' = (monotonic s).1 in
      test-Returns fence_came (unless_done next) s' (fence_came-Returns s') fence_came-Forward
        λ b t later.
          unless_done-Returns b next t
            (await_fence-Returns fuel deadline t (omega (arith, ticked s)))

attempt-Returns : (m : Exec Stub Unit) (s : Stub) → Proper (m s) → Returns (attempt m s)
attempt-Returns m s h = catch-Returns m is_exception tt s (λ e. Proper-errors (m s) e h)

Returns-bind :
    {S A B : Type 0} (m : Exec S A) (f : A → Exec S B) (s : S)
    → Returns (m s)
    → ((a : A) (t : S) → Returns (f a t))
    → Returns ((m >>= f) s)
Returns-bind m f s (a, t, run) h = rw run (h a t)

pub interrupt-Ends : Ends interrupt
unfolding interrupt
interrupt-Ends s = Within-Proper (suc (unread s)) (interrupt s) (
    Within-link (suc (unread s)) (interrupt s) (
      Within-bind is_socket_error (suc (unread s)) (suc (unread s)) require_sock
        (λ _. send_or_close (3 ∷ [])) s (require_sock-Within s)
        λ _ t h.
          Within-mono is_socket_error (suc (unread t)) (suc (unread s)) (send_or_close (3 ∷ []) t) h
            (send_or_close-Within (3 ∷ []) t)))

-- From the reading of the clock on, whatever the budget is.
timed_stops-Returns :
    (time : ℕ) (rest : Exec Stub Unit) (s : Stub)
    → ((t : Stub) → Returns (rest t))
    → Returns ((monotonic >>= λ now. await_stops (suc time) (now + time) false >>= λ _. rest) s)
unfolding monotonic
timed_stops-Returns time rest s h =
    let stop = s.wire.clock + time in
    Returns-bind (await_stops (suc time) stop false) (λ _. rest) (monotonic s).1
      (await_stops-Returns time stop false (monotonic s).1 (omega arith)) λ _ t. h t

timed_fence-Returns :
    (time : ℕ) (s : Stub) → Returns ((monotonic >>= λ now. await_fence (suc time) (now + time)) s)
unfolding monotonic
timed_fence-Returns time s =
    await_fence-Returns time (s.wire.clock + time) (monotonic s).1 (omega arith)

fence-Proper : (s : Stub) → Proper (fence s)
unfolding fence
fence-Proper s =
    Proper-bind (λ _. monotonic >>= λ now. await_fence (suc budget) (now + budget))
      (send_packet (codes "qC")) s
      (Within-Proper (suc (unread s)) (send_packet (codes "qC") s)
        (send_packet-Within (codes "qC") s))
      λ _ t.
        Returns-Proper (monotonic >>= λ now. await_fence (suc budget) (now + budget)) t
          (timed_fence-Returns budget t)

pub drain-Returns : (max_wait : ℕ) (s : Stub) → Returns (drain_stop_replies max_wait s)
drain-Returns max_wait s =
    let (more, t, run, _, _, _) = drain_stop_replies-Drains max_wait s in
    (s.pending_replies ++ more, t, run)

quiesce_stub-Returns : (s : Stub) → Returns (quiesce_stub s)
unfolding quiesce_stub
quiesce_stub-Returns s =
    Returns-bind (attempt interrupt) _ s (attempt-Returns interrupt s (interrupt-Ends s)) λ _ t.
      timed_stops-Returns budget (drain_stop_replies 50_000 >>= λ _. attempt fence) t λ u.
        Returns-bind (drain_stop_replies 50_000) (λ _. attempt fence) u (drain-Returns 50_000 u)
          λ _ v. attempt-Returns fence v (fence-Proper v)

-- Quiescing returns, in any state and against any peer: the loops that wait for stop replies and for
-- the fence's answer have enough fuel. A session that ran is paused then.
pub quiesce_for_modify-Returns :
    (s : Session)
    → (t : Session) × (quiesce_for_modify s ≡ (ok tt, t))
      × (s.state ≡ connected_running → t.state ≡ connected_paused)
unfolding quiesce_for_modify mark_paused
quiesce_for_modify-Returns s =
    let (a, u, run) = quiesce_stub-Returns s.stub in
    (mark_paused (record s { stub = u }), rw run refl, λ h. rw h refl)

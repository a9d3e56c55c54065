-- ===== src/Tools/Quiesce/Sent.antt =====
-- What quiescing sends: first of all the interrupt.
use dolphin_re_mcp.Prelude.{
  ℕ, zero, suc, ◌+◌, ◌≡◌, refl, sym, ap, ◌∙◌, ◌⊎◌, inl, inr, Bool, true, false, not, none, some,
  Option, List, [], ◌∷◌, ◌++◌, append_assoc, arith, Option-cases, Bool-cases, ltb,
}
use dolphin_re_mcp.Prelude.Text.{Text, Bytes, codes, starts_with}
use dolphin_re_mcp.Errors.{Result, ok, err, is_link_error}
use dolphin_re_mcp.Exec.{Exec, ◌>>=◌, modify, pure, continue, catch, catching, finally}
use dolphin_re_mcp.Exec.Along.{Along, Along-catch, Along-finally}
use dolphin_re_mcp.Gdb.Stub.{Stub, recv, monotonic, unread}
use dolphin_re_mcp.Gdb.Packets.{require_sock, read_packet_from_wire, set_timeout}
use dolphin_re_mcp.Gdb.Packets.Clock.{
  Forward, Forward-silent, Forward-bind, Forward-stay, Forward-next, send_or_close-Sent,
  read_packet_from_wire-Forward, set_timeout-Forward,
}
use dolphin_re_mcp.Gdb.Acks.{send_packet}
use dolphin_re_mcp.Gdb.Acks.Sent.{send_packet-Forward}
use dolphin_re_mcp.Gdb.Commands.{probe_reply, probe_on, probe_responsive}
use dolphin_re_mcp.Gdb.Execution.{
  drained, drain_one, drain_next, drain_turn, drain_loop, drain_stop_replies, drain_pending_replies,
  interrupt,
}
use dolphin_re_mcp.Session.{is_exception}
use dolphin_re_mcp.Tools.Quiesce.{
  attempt, budget, stop_came, after_wait, while_early, await_stops, fence_came, unless_done,
  await_fence, fence, quiesce_stub,
}
use dolphin_re_mcp.Tools.Quiesce.Ends.{stop_came-Forward, fence_came-Forward}
use native.Mathlib.Nat.{le_refl}
use mathlib.Core.Path.{subst}

monotonic-Forward : Along Forward monotonic
unfolding monotonic
monotonic-Forward s = Forward-silent s (monotonic s).1 (omega arith) refl λ e. e

-- A round behind a reading of the clock.
timed-Forward :
    {A : Type 0} (f : ℕ → Exec Stub A)
    → ((now : ℕ) → Along Forward (f now))
    → Along Forward (monotonic >>= f)
timed-Forward f h = Forward-bind monotonic f monotonic-Forward h

drained_state : (r : Result Text × Stub) → (drained r).1 ≡ r.1
drained_state (ok p, t) = refl
drained_state (err e, t) = ground arith

drain_one-Forward : Along Forward drain_one
unfolding drain_one
drain_one-Forward s =
    rw (drained_state (read_packet_from_wire (some 20_000) recv s))
      (read_packet_from_wire-Forward (some 20_000) recv s)

drain_turn-Forward :
    (b : Bool) (round : Exec Stub (List Text)) (out : List Text)
    → Along Forward round
    → Along Forward (drain_turn b round out)
drain_turn-Forward true round out h = h
drain_turn-Forward false round out h = Forward-stay

drain_next-Forward :
    (next : List Text → Exec Stub (List Text)) (out : List Text) (o : Option Text)
    → ((more : List Text) → Along Forward (next more))
    → Along Forward (drain_next next out o)
drain_next-Forward next out none h = Forward-stay
drain_next-Forward next out (some p) h = h (out ++ p ∷ [])

drain_loop-Forward : (fuel stop : ℕ) (out : List Text) → Along Forward (drain_loop fuel stop out)
unfolding drain_loop
drain_loop-Forward zero stop out s = Forward-stay s
drain_loop-Forward (suc fuel) stop out s =
    let round = drain_one >>= drain_next (drain_loop fuel stop) out in
    timed-Forward (λ now. drain_turn (ltb now stop) round out)
      (λ now. drain_turn-Forward (ltb now stop) round out (
        Forward-bind drain_one (drain_next (drain_loop fuel stop) out) drain_one-Forward
          λ o. drain_next-Forward (drain_loop fuel stop) out o (drain_loop-Forward fuel stop)))
      s

pub drain_stop_replies-Forward : (max_wait : ℕ) → Along Forward (drain_stop_replies max_wait)
unfolding drain_stop_replies drain_pending_replies
drain_stop_replies-Forward max_wait s =
    let s' : Stub = record s { pending_replies = [] } in
    Forward-next s s' (drain_stop_replies max_wait s).1
      (Forward-silent s s' (le_refl s.wire.clock) refl λ e. e)
      (timed-Forward (λ now t. drain_loop (suc (unread t)) (now + max_wait) s.pending_replies t)
        (λ now t. drain_loop-Forward (suc (unread t)) (now + max_wait) s.pending_replies t) s')

while_early-Forward :
    (b : Bool) (round : Exec Stub (Unit {0}))
    → Along Forward round
    → Along Forward (while_early b round)
while_early-Forward true round h = h
while_early-Forward false round h = Forward-stay

after_wait-Forward :
    (saw_one b : Bool) (seen unseen : Exec Stub (Unit {0}))
    → Along Forward seen
    → Along Forward unseen
    → Along Forward (after_wait saw_one seen unseen b)
after_wait-Forward saw_one true seen unseen h k = h
after_wait-Forward true false seen unseen h k = Forward-stay
after_wait-Forward false false seen unseen h k = k

await_stops-Forward :
    (fuel deadline : ℕ) (saw_one : Bool) → Along Forward (await_stops fuel deadline saw_one)
unfolding await_stops
await_stops-Forward zero deadline saw_one s = Forward-stay s
await_stops-Forward (suc fuel) deadline saw_one s =
    let seen = await_stops fuel deadline true in
    let unseen = await_stops fuel deadline false in
    let round = stop_came >>= after_wait saw_one seen unseen in
    timed-Forward (λ now. while_early (ltb now deadline) round)
      (λ now. while_early-Forward (ltb now deadline) round (
        Forward-bind stop_came (after_wait saw_one seen unseen) stop_came-Forward λ b.
          after_wait-Forward saw_one b seen unseen (await_stops-Forward fuel deadline true)
            (await_stops-Forward fuel deadline false)))
      s

unless_done-Forward :
    (b : Bool) (next : Exec Stub (Unit {0}))
    → Along Forward next
    → Along Forward (unless_done next b)
unless_done-Forward true next h = Forward-stay
unless_done-Forward false next h = h

await_fence-Forward : (fuel deadline : ℕ) → Along Forward (await_fence fuel deadline)
unfolding await_fence
await_fence-Forward zero deadline s = Forward-stay s
await_fence-Forward (suc fuel) deadline s =
    let next = await_fence fuel deadline in
    let round = fence_came >>= unless_done next in
    timed-Forward (λ now. while_early (ltb now deadline) round)
      (λ now. while_early-Forward (ltb now deadline) round (
        Forward-bind fence_came (unless_done next) fence_came-Forward
          λ b. unless_done-Forward b next (await_fence-Forward fuel deadline)))
      s

fence-Forward : Along Forward fence
unfolding fence
fence-Forward =
    Forward-bind {B = Unit} (send_packet (codes "qC"))
      (λ _. monotonic >>= λ now. await_fence (suc budget) (now + budget))
      (send_packet-Forward (codes "qC"))
      λ _.
        timed-Forward (λ now. await_fence (suc budget) (now + budget))
          λ now. await_fence-Forward (suc budget) (now + budget)

attempt-Forward : (m : Exec Stub (Unit {0})) → Along Forward m → Along Forward (attempt m)
attempt-Forward m h =
    Along-catch Forward Forward-stay Forward-next m is_exception (pure tt) h Forward-stay

-- The byte of an interrupt is among those sent since, or the socket is closed.
abbrev pub Interrupted : Stub → Stub → Type 0
Interrupted s t = ((a b : Bytes) × (t.wire.sent ≡ s.wire.sent ++ (a ++ 3 ∷ b))) ⊎ (t.sock ≡ none)

pub Interrupted-next : (s t u : Stub) → Interrupted s t → Forward t u → Interrupted s u
Interrupted-next s t u (inl (a, b, e)) (h, ((more, f), c)) =
    let rest : (s.wire.sent ++ (a ++ 3 ∷ b)) ++ more ≡ s.wire.sent ++ (a ++ 3 ∷ (b ++ more)) =
      append_assoc s.wire.sent (a ++ 3 ∷ b) more
      ∙ ap (λ (x : Bytes). s.wire.sent ++ x) (append_assoc a (3 ∷ b) more) in
    inl (a, b ++ more, f ∙ (ap (λ (x : Bytes). x ++ more) e ∙ rest))
Interrupted-next s t u (inr shut) (h, (g, c)) = inr (c shut)

pub Interrupted-after : (s t u : Stub) → Forward s t → Interrupted t u → Interrupted s u
Interrupted-after s t u (h, ((more, f), c)) (inl (a, b, e)) =
    let rest : (s.wire.sent ++ more) ++ (a ++ 3 ∷ b) ≡ s.wire.sent ++ ((more ++ a) ++ 3 ∷ b) =
      append_assoc s.wire.sent more (a ++ 3 ∷ b)
      ∙ ap (λ (x : Bytes). s.wire.sent ++ x) (sym (append_assoc more a (3 ∷ b))) in
    inl (more ++ a, b, e ∙ (ap (λ (x : Bytes). x ++ (a ++ 3 ∷ b)) f ∙ rest))
Interrupted-after s t u h (inr shut) = inr shut

-- What follows sends behind the interrupt.
Interrupted-continue :
    {A B : Type 0} (s : Stub) (r : Result A × Stub) (rest : A → Exec Stub B)
    → Interrupted s r.1
    → ((a : A) → Along Forward (rest a))
    → Interrupted s (continue r.0 rest r.1).1
Interrupted-continue s (ok a, t) rest h k = Interrupted-next s t (rest a t).1 h (k a t)
Interrupted-continue s (err e, t) rest h k = h

interrupt-Interrupted : (s : Stub) → Interrupted s (interrupt s).1
unfolding interrupt require_sock
interrupt-Interrupted s = elim (Option-cases s.sock) [
  | inl shut ↦ rw (shut, require_sock) (inr shut)
  | inr (t, opened) ↦
      rw (opened, require_sock)
        (elim (send_or_close-Sent (3 ∷ []) s) [
          | inl sent ↦ inl ([], [], sent)
          | inr (u, run, shut) ↦ rw run (inr shut)
        ])
]

attempt_state : (r : Result (Unit {0}) × Stub) → (catching is_exception r (pure tt)).1 ≡ r.1
attempt_state (ok a, t) = refl
attempt_state (err e, t) = elim (Bool-cases (is_exception e)) [
  | inl b ↦ rw b refl
  | inr b ↦ rw b refl
]

attempt-Interrupted : (s : Stub) → Interrupted s (attempt interrupt s).1
attempt-Interrupted s =
    subst (Interrupted s) (sym (attempt_state (interrupt s))) (interrupt-Interrupted s)

abbrev drain_and_fence : Exec Stub (Unit {0})
drain_and_fence = drain_stop_replies 50_000 >>= λ _. attempt fence

drain_and_fence-Forward : Along Forward drain_and_fence
drain_and_fence-Forward =
    Forward-bind {B = Unit {0}} (drain_stop_replies 50_000) (λ _. attempt fence)
      (drain_stop_replies-Forward 50_000) λ _. attempt-Forward fence fence-Forward

abbrev wait_and_fence : ℕ → Exec Stub (Unit {0})
wait_and_fence now = await_stops (suc budget) (now + budget) false >>= λ _. drain_and_fence

-- The steps behind the interrupt.
abbrev settle : Exec Stub (Unit {0})
settle = monotonic >>= wait_and_fence

settle-Forward : Along Forward settle
settle-Forward = timed-Forward wait_and_fence λ now.
    Forward-bind {B = Unit {0}} (await_stops (suc budget) (now + budget) false)
      (λ _. drain_and_fence) (await_stops-Forward (suc budget) (now + budget) false)
      λ _. drain_and_fence-Forward

pub quiesce_stub-Interrupted : (s : Stub) → Interrupted s (quiesce_stub s).1
unfolding quiesce_stub
quiesce_stub-Interrupted s =
    Interrupted-continue s (attempt interrupt s) (λ _. settle) (attempt-Interrupted s)
      λ _. settle-Forward

probe_reply-Forward : (timeout : ℕ) → Along Forward (probe_reply timeout)
unfolding probe_reply
probe_reply-Forward timeout =
    Forward-bind {B = Bool} (send_packet (codes "qC"))
      (λ _. read_packet_from_wire (some timeout) recv >>= λ reply.
        pure (not (starts_with reply (codes "E"))))
      (send_packet-Forward (codes "qC"))
      λ _.
        Forward-bind {B = Bool} (read_packet_from_wire (some timeout) recv)
          (λ reply. pure (not (starts_with reply (codes "E"))))
          (read_packet_from_wire-Forward (some timeout) recv) λ reply. Forward-stay

probe_on-Forward : (o : Option ℕ) (timeout : ℕ) → Along Forward (probe_on o timeout)
probe_on-Forward none timeout s = Forward-stay s
probe_on-Forward (some old) timeout s =
    let answer = catch (probe_reply timeout) is_link_error (pure false) in
    Forward-next s (set_timeout timeout s)
      (finally answer (modify (set_timeout old)) (set_timeout timeout s)).1
      (set_timeout-Forward timeout s)
      (Along-finally Forward Forward-stay Forward-next answer (modify (set_timeout old))
        (Along-catch Forward Forward-stay Forward-next (probe_reply timeout) is_link_error
          (pure false) (probe_reply-Forward timeout) Forward-stay)
        (set_timeout-Forward old) (set_timeout timeout s))

pub probe_responsive-Forward : (timeout : ℕ) → Along Forward (probe_responsive timeout)
unfolding probe_responsive
probe_responsive-Forward timeout s = probe_on-Forward s.sock timeout s

-- ===== src/Gdb/Execution/Draining.antt =====
-- `drain_stop_replies` returns, whatever the peer does.
use mathlib.Core.Path.{subst}
use native.Mathlib.Nat.{le_refl}
use dolphin_re_mcp.Prelude.{
  ℕ, zero, suc, ◌+◌, ◌-◌, ◌<◌, ◌≤◌, ◌≡◌, refl, sym, ap, length, true, ◌∙◌, none, some, List, [],
  ◌∷◌, ◌++◌, append-nil, append_assoc, arith, ◌⊎◌, inl, inr, Bool-cases, ltb,
}
use dolphin_re_mcp.Prelude.Text.{Text}
use dolphin_re_mcp.Errors.{Error, Result, ok, err, is_socket_error}
use dolphin_re_mcp.Gdb.Stub.{Stub, recv, monotonic, unread}
use dolphin_re_mcp.Gdb.Packets.{read_packet_from_wire}
use dolphin_re_mcp.Gdb.Packets.Clock.{read_packet_from_wire-Forward}
use dolphin_re_mcp.Gdb.Packets.Fuel.{Within, read_packet_from_wire-Within}
use dolphin_re_mcp.Gdb.Packets.Pending.{read_packet_from_wire-Leaves}
use dolphin_re_mcp.Gdb.Execution.{
  drained, drain_one, drain_loop, drain_stop_replies, drain_pending_replies,
}

-- Why a drain ends: its time is over, or the last read raised an error of the socket, as it does when
-- nothing came for as long as it waits.
abbrev pub Ended : ℕ → Stub → Type 0
Ended stop t =
    (stop ≤ t.wire.clock)
    ⊎ ((u : Stub) × (e : Error) × (read_packet_from_wire (some 20_000) recv u ≡ (err e, t))
        × (is_socket_error e ≡ true))

-- What a drain that started with `out` gives: `out` and what came after it, at most as many as there
-- are ticks of the clock, and an empty queue.
abbrev pub Drains : List Text → ℕ → ℕ → Result (List Text) × Stub → Type 0
Drains out ticks stop r =
    (more : List Text) × (t : Stub) × (r ≡ (ok (out ++ more), t))
    × (t.pending_replies ≡ [])
    × (length more ≤ ticks)
    × Ended stop t

drained_lem :
    (n : ℕ) (r : Result Text × Stub)
    → Within is_socket_error n r
    → ((t : Stub) × (e : Error) × (drained r ≡ (ok none, t))
        × (r ≡ (err e, t))
        × (is_socket_error e ≡ true))
      ⊎ ((p : Text) × (t : Stub) × (drained r ≡ (ok (some p), t))
          × (r ≡ (ok p, t))
          × (unread t < n))
drained_lem n (ok p, t) h = inr (p, t, refl, refl, h)
drained_lem n (err e, t) h = inl (t, e, rw (h, drained), refl, h)

drain_loop_lem :
    (fuel stop : ℕ) (out : List Text) (s : Stub)
    → unread s < fuel
    → s.pending_replies ≡ []
    → Drains out (stop - s.wire.clock) stop (drain_loop fuel stop out s)
unfolding drain_loop monotonic drain_one
drain_loop_lem zero stop out s w h = absurd (omega arith)
drain_loop_lem (suc fuel) stop out s w h = elim (Bool-cases (ltb s.wire.clock stop)) [
  | inr late ↦
      let over : stop ≤ s.wire.clock + 1 = ground arith in
      ([], (monotonic s).1, rw (late, append-nil), h, omega arith, inl over)
  | inl early ↦
      let s' : Stub = (monotonic s).1 in
      let r = read_packet_from_wire (some 20_000) recv s' in
      let kept = read_packet_from_wire-Leaves (some 20_000) recv s' in
      elim (drained_lem (unread s') r (read_packet_from_wire-Within (some 20_000) recv s')) [
        | inl (t, e, run, read, socket) ↦ (
          [],
          t,
          rw (early, run, append-nil),
          ap (λ (x : Result Text × Stub). x.1.pending_replies) (sym read) ∙ (kept ∙ h),
          omega arith,
          inr (s', e, read, socket),
        )
        | inr (p, t, run, read, less) ↦
            let clock : s.wire.clock + 1 ≤ t.wire.clock =
              subst (λ (x : Result Text × Stub). s.wire.clock + 1 ≤ x.1.wire.clock) read
                (read_packet_from_wire-Forward (some 20_000) recv s').0 in
            let before : s.wire.clock < stop = ground arith in
            let (more, u, run', empty, few, ended) =
              drain_loop_lem fuel stop (out ++ p ∷ []) t (omega arith)
                (ap (λ (x : Result Text × Stub). x.1.pending_replies) (sym read) ∙ (kept ∙ h)) in
            (
              p ∷ more,
              u,
              rw (early, run)
                  (run' ∙ ap (λ (x : List Text). (ok x, u)) (append_assoc out (p ∷ []) more)),
              empty,
              omega arith,
              ended,
            )
      ]
]

pub drain_stop_replies-Drains :
    (max_wait : ℕ) (s : Stub)
    → Drains s.pending_replies max_wait (s.wire.clock + max_wait) (drain_stop_replies max_wait s)
unfolding drain_stop_replies drain_pending_replies monotonic
drain_stop_replies-Drains max_wait s =
    let s' : Stub = record s {
      pending_replies = [];
      wire = record s.wire { clock = s.wire.clock + 1 };
    } in
    let (more, t, run, empty, few, ended) =
      drain_loop_lem (suc (unread s')) (s.wire.clock + max_wait) s.pending_replies s' (le_refl _)
        refl in
    (more, t, run, empty, omega arith, ended)

-- ===== src/Tools/Watcher/Turns.antt =====
-- The rounds of the watcher: they keep the registry in good order, and what a stop that is not the
-- watcher's leaves for the foreground.
use mathlib.Core.Path.{subst}
use dolphin_re_mcp.Prelude.{
  ℕ, ◌≡◌, refl, ap, sym, ◌∙◌, inl, inr, Bool, true, false, some, [], ◌∷◌, ◌++◌, arith, Bool-cases,
}
use dolphin_re_mcp.Prelude.Text.{Text}
use dolphin_re_mcp.Errors.{Result, ok, err, is_socket_error, wrong_state}
use dolphin_re_mcp.Exec.{◌>>=◌, pure}
use dolphin_re_mcp.Exec.Along.{Along, Along-catch}
use dolphin_re_mcp.Gdb.Execution.{wait_for_stop, continue_async}
use dolphin_re_mcp.Session.{
  Session, connected_running, Capture, Environment, ensure_connected, on_stub, mark_paused,
}
use dolphin_re_mcp.Session.WellFormed.{WellFormed, Kept-update}
use dolphin_re_mcp.Tools.Breakpoints.{wait_for_hit, hit_guard, any_auto_continue}
use dolphin_re_mcp.Tools.Order.{
  KeepsOrder, order_stay, order_next, order_bind, SameRegistry-KeepsOrder,
}
use dolphin_re_mcp.Tools.Watcher.{
  is_wanted, handle_stop, surface, resume_watched, after_stop, waited, watch_round, ended, watch,
}
use dolphin_re_mcp.Tools.Watcher.Handling.{Handled, handle_stop-Handled}

module _ (eval_condition : Text → Capture → Bool) where
  Handled-order :
      (raw : Text) (s : Session) (r : Result Bool × Session)
      → Handled eval_condition raw s r
      → KeepsOrder s r.1
  Handled-order raw s (ok false, t) same w = rw same w
  Handled-order raw s (ok true, t) (bp_id, spec, capture, matched, there, auto, kept, next, state)
        w =
      elim (Bool-cases (is_wanted eval_condition spec.condition capture)) [
        | inl wanted ↦
            rw (next, kept, wanted)
              (Kept-update s.next_id bp_id s.breakpoints spec
                (record spec { log = spec.log ++ capture ∷ [] }) w there refl)
        | inr dropped ↦ rw (next, kept, dropped) w
      ]
  Handled-order raw s (err e, t) (same, _) w = SameRegistry-KeepsOrder s t same w

  resume_watched-order : Along KeepsOrder (resume_watched eval_condition)
  unfolding resume_watched
  resume_watched-order =
      Along-catch KeepsOrder order_stay order_next (on_stub continue_async >>= λ _. pure true)
        is_socket_error (pure false)
        (order_bind (on_stub continue_async) (λ _. pure true) (λ s w. w) λ _ s w. w) λ s w. w

  after_stop-order : (raw : Text) (b : Bool) → Along KeepsOrder (after_stop eval_condition raw b)
  unfolding surface mark_paused
  after_stop-order raw true s w = resume_watched-order s w
  after_stop-order raw false s w = w

  waited-order : (r : Result Text × Session) → KeepsOrder r.1 (waited eval_condition r).1
  waited-order (ok raw, s) w =
      order_bind (handle_stop eval_condition raw) (after_stop eval_condition raw)
        (λ t.
          Handled-order raw t (handle_stop eval_condition raw t)
            (handle_stop-Handled eval_condition raw t))
        (after_stop-order raw) s w
  waited-order (err e, s) w = ground arith

  ended-order : (r : Result Bool × Session) → KeepsOrder r.1 (ended eval_condition r)
  ended-order (ok true, s) w = w
  ended-order (ok false, s) w = w
  ended-order (err e, s) w = w

  watch_round-order : Along KeepsOrder (watch_round eval_condition)
  unfolding watch_round
  watch_round-order s w =
      let round : WellFormed (waited eval_condition (on_stub (wait_for_stop (some 200_000)) s)).1 =
        waited-order (on_stub (wait_for_stop (some 200_000)) s) w in
      elim (Bool-cases (any_auto_continue s)) [ inl b ↦ rw b round | inr b ↦ rw b w ]

  pub watch-order : (s : Session) → KeepsOrder s (watch eval_condition s)
  unfolding watch
  watch-order s w = ended-order (watch_round eval_condition s) (watch_round-order s w)

  -- A stop that the watcher leaves to the foreground is put where a wait finds it, and the session
  -- is marked as paused, on which `wait_for_hit` refuses to wait.
  pub watch-surfaces :
      (env : Environment) (timeout : ℕ) (raw : Text) (s t u : Session)
      → s.state ≡ connected_running
      → any_auto_continue s ≡ true
      → on_stub (wait_for_stop (some 200_000)) s ≡ (ok raw, t)
      → handle_stop eval_condition raw t ≡ (ok false, u)
      → let v = watch eval_condition s in
        (v.stub.pending_replies ≡ t.stub.pending_replies ++ raw ∷ [])
        × ((wait_for_hit env timeout v).0 ≡ err wrong_state)
  unfolding watch watch_round surface mark_paused wait_for_hit ensure_connected hit_guard
  watch-surfaces env timeout raw s t u running auto came foreign =
      let same : u ≡ t =
        subst (Handled eval_condition raw t) foreign (handle_stop-Handled eval_condition raw t) in
      let runs : u.state ≡ connected_running =
        ap (λ (x : Session). x.state) same
        ∙ (ap (λ (r : Result Text × Session). r.1.state) (sym came) ∙ running) in
      rw (auto, came, foreign)
        (rw runs (ap (λ (x : Session). x.stub.pending_replies ++ raw ∷ []) same, refl))

-- ===== src/Tools/Watcher/Handling.antt =====
-- What `_handle_stop` does with a stop, and what a round of the watcher leaves.
use dolphin_re_mcp.Prelude.{
  ℕ, ◌≡◌, refl, Bool, true, false, Option, none, some, List, [], ◌∷◌, ◌++◌, ◌==◌, arith,
  if◌then◌else◌, ◌||◌,
}
use dolphin_re_mcp.Prelude.Dict.{lookup, insert}
use dolphin_re_mcp.Prelude.Text.{Text, codes, mem_text}
use dolphin_re_mcp.Errors.{Error, Result, ok, err, is_socket_error}
use dolphin_re_mcp.Exec.{Exec, ◌>>=◌, pure, modify}
use dolphin_re_mcp.Gdb.Stub.{Stub}
use dolphin_re_mcp.Gdb.StopReply.{parse_stop_reply}
use dolphin_re_mcp.Session.{Session, BreakpointSpec, Capture, on_stub}
use dolphin_re_mcp.Session.Registry.{SameRegistry}
use dolphin_re_mcp.Tools.Matching.{match_bp}
use dolphin_re_mcp.Tools.Breakpoints.{update_bp}
use dolphin_re_mcp.Tools.Watcher.{
  first_capture, staged, stage, when, capture_gprs, capture_lr, capture_fprs, fill_capture,
  keep_capture, is_wanted, capture_hit, if_watched, hit_spec, hit_matched, handle_stop,
}

-- Only errors that are no socket errors escape the reads.
abbrev NoSocketError : Result Capture × Stub → Type 0
NoSocketError (ok capture, s) = Unit
NoSocketError (err e, s) = is_socket_error e ≡ false

kept-NoSocketError :
    (b : Bool) (e : Error) (capture : Capture) (s : Stub)
    → is_socket_error e ≡ b
    → NoSocketError (if b then (ok capture, s) else (err e, s))
kept-NoSocketError true e capture s h = tt
kept-NoSocketError false e capture s h = h

staged-NoSocketError :
    (next : Capture → Exec Stub Capture) (capture : Capture) (r : Result Capture × Stub)
    → ((c : Capture) (s : Stub) → NoSocketError (next c s))
    → NoSocketError (staged next capture r)
staged-NoSocketError next capture (ok c, s) h = h c s
staged-NoSocketError next capture (err e, s) h =
    kept-NoSocketError (is_socket_error e) e capture s refl

stage-NoSocketError :
    (m next : Capture → Exec Stub Capture)
    → ((c : Capture) (s : Stub) → NoSocketError (next c s))
    → (c : Capture) (s : Stub) → NoSocketError (stage m next c s)
stage-NoSocketError m next h c s = staged-NoSocketError next c (m c s) h

fill_capture-NoSocketError :
    (captures : List Text) (capture : Capture) (s : Stub)
    → NoSocketError (fill_capture captures capture s)
unfolding fill_capture
fill_capture-NoSocketError captures =
    let gprs = when (mem_text (codes "gprs") captures) capture_gprs in
    let lr =
      when (mem_text (codes "lr") captures || mem_text (codes "stack") captures) capture_lr in
    let fprs = when (mem_text (codes "fprs") captures) capture_fprs in
    stage-NoSocketError gprs (stage lr (stage fprs pure))
      (stage-NoSocketError lr (stage fprs pure) (stage-NoSocketError fprs pure λ c s. tt))

module _ (eval_condition : Text → Capture → Bool) where
  -- The outcomes of handling a stop.
  abbrev pub Handled : Text → Session → Result Bool × Session → Type 0
  Handled raw s (ok false, t) = t ≡ s
  Handled raw s (ok true, t) =
      (bp_id : ℕ) × (spec : BreakpointSpec) × (capture : Capture) × (match_bp (parse_stop_reply raw)
          s.breakpoints
        ≡ some bp_id)
      × (lookup ◌==◌ bp_id s.breakpoints ≡ some spec)
      × (spec.auto_continue ≡ true)
      × (t.breakpoints ≡ (
          if is_wanted eval_condition spec.condition capture
          then insert ◌==◌ bp_id (record spec { log = spec.log ++ capture ∷ [] }) s.breakpoints
          else s.breakpoints))
      × (t.next_id ≡ s.next_id)
      × (t.state ≡ s.state)
  Handled raw s (err e, t) = SameRegistry s t × (is_socket_error e ≡ false)

  keep_capture-breakpoints :
      (bp_id : ℕ) (spec : BreakpointSpec) (capture : Capture) (s : Session)
      → let t = keep_capture eval_condition bp_id spec capture s in
        (t.breakpoints ≡ (
          if is_wanted eval_condition spec.condition capture
          then insert ◌==◌ bp_id (record spec { log = spec.log ++ capture ∷ [] }) s.breakpoints
          else s.breakpoints))
        × (t.next_id ≡ s.next_id)
        × (t.state ≡ s.state)
  unfolding update_bp
  keep_capture-breakpoints bp_id spec capture s = ground arith

  captured-Handled :
      (raw : Text) (bp_id : ℕ) (spec : BreakpointSpec) (s : Session) (m : Exec Stub Capture)
      (r : Result Capture × Stub)
      → m s.stub ≡ r
      → NoSocketError r
      → match_bp (parse_stop_reply raw) s.breakpoints ≡ some bp_id
      → lookup ◌==◌ bp_id s.breakpoints ≡ some spec
      → spec.auto_continue ≡ true
      → Handled raw s (
          (on_stub m >>= λ capture.
          modify (keep_capture eval_condition bp_id spec capture) >>= λ _. pure true)
            s)
  captured-Handled raw bp_id spec s m (ok capture, u) run h matched there auto =
      let (kept, next, state) =
        keep_capture-breakpoints bp_id spec capture (record s { stub = u }) in
      rw run (bp_id, spec, capture, matched, there, auto, kept, next, state)
  captured-Handled raw bp_id spec s m (err e, u) run h matched there auto = rw run ((refl, refl), h)

  if_watched-Handled :
      (raw : Text) (bp_id : ℕ) (s : Session) (spec : BreakpointSpec) (b : Bool)
      → match_bp (parse_stop_reply raw) s.breakpoints ≡ some bp_id
      → lookup ◌==◌ bp_id s.breakpoints ≡ some spec
      → spec.auto_continue ≡ b
      → Handled raw s (
          if_watched eval_condition b
            (capture_hit eval_condition (parse_stop_reply raw) bp_id spec)
            s)
  unfolding capture_hit
  if_watched-Handled raw bp_id s spec true matched there auto =
      let m = fill_capture spec.captures (first_capture s.stub.wire.clock (parse_stop_reply raw)) in
      captured-Handled raw bp_id spec s m (m s.stub) refl
        (fill_capture-NoSocketError spec.captures _ s.stub) matched there auto
  if_watched-Handled raw bp_id s spec false matched there auto = refl

  hit_spec-Handled :
      (raw : Text) (bp_id : ℕ) (s : Session) (o : Option BreakpointSpec)
      → match_bp (parse_stop_reply raw) s.breakpoints ≡ some bp_id
      → lookup ◌==◌ bp_id s.breakpoints ≡ o
      → Handled raw s (hit_spec eval_condition (parse_stop_reply raw) bp_id o s)
  hit_spec-Handled raw bp_id s none matched there = refl
  hit_spec-Handled raw bp_id s (some spec) matched there =
      if_watched-Handled raw bp_id s spec spec.auto_continue matched there refl

  hit_matched-Handled :
      (raw : Text) (s : Session) (o : Option ℕ)
      → match_bp (parse_stop_reply raw) s.breakpoints ≡ o
      → Handled raw s (hit_matched eval_condition (parse_stop_reply raw) o s)
  hit_matched-Handled raw s none matched = refl
  hit_matched-Handled raw s (some bp_id) matched =
      hit_spec-Handled raw bp_id s (lookup ◌==◌ bp_id s.breakpoints) matched refl

  -- Handling a stop returns false and changes nothing; or it returns true, the stop is attributed to
  -- an auto-continue breakpoint, and the registry changes only by a capture behind the others in its
  -- log, if its condition wants the capture; or an error that is no socket error is raised, and the
  -- registry is the same.
  pub handle_stop-Handled :
      (raw : Text) (s : Session) → Handled raw s (handle_stop eval_condition raw s)
  unfolding handle_stop
  handle_stop-Handled raw s =
      hit_matched-Handled raw s (match_bp (parse_stop_reply raw) s.breakpoints) refl

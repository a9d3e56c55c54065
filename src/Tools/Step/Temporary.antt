-- ===== src/Tools/Step/Temporary.antt =====
-- The breakpoint that a run sets for itself is gone afterwards.
use dolphin_re_mcp.Prelude.{
  ℕ, ◌+◌, ◌≡◌, refl, ap, ◌∙◌, Bool, true, false, Option, none, some, [], ◌∷◌, ◌++◌, ◌==◌, arith,
}
use dolphin_re_mcp.Prelude.Int.{ℤ, pos}
use dolphin_re_mcp.Prelude.Dict.{lookup, erase}
use dolphin_re_mcp.Errors.{Error, Result, ok, err}
use dolphin_re_mcp.Exec.{
  Exec, pure, modify, catch, catching, continue, finally, after_cleanup, ◌>>=◌,
}
use dolphin_re_mcp.Exec.Along.{Along, OnReturn, OnReturn-bind}
use dolphin_re_mcp.Gdb.Commands.{add_sw_breakpoint}
use dolphin_re_mcp.Gdb.Execution.{step as step_stub}
use dolphin_re_mcp.Symbols.{SymbolMap}
use dolphin_re_mcp.Disasm.Decode.{Capstone}
use dolphin_re_mcp.Session.{
  Session, BreakpointSpec, sw_bp, Environment, ensure_connected, on_stub, unregister_bp,
  alloc_bp_id, register_bp, is_exception, mark_paused,
}
use dolphin_re_mcp.Session.Registry.{SameRegistry, same_bind, same_catch, same_stay}
use dolphin_re_mcp.Session.WellFormed.{Breakpoints, Lacking, WellFormed}
use dolphin_re_mcp.Tools.Quiesce.{safe_to_modify}
use dolphin_re_mcp.Tools.Quiesce.Untouched.{safe_to_modify-same}
use dolphin_re_mcp.Tools.Quiesce.Resumes.{InState, safe_to_modify-OnReturn}
use dolphin_re_mcp.Tools.Breakpoints.{
  enter, add_breakpoint, disarm, removed_spec, remove, is_forgiven,
}
use dolphin_re_mcp.Tools.Breakpoints.Registry.{Added, add_breakpoint-Added, disarm-same}
use dolphin_re_mcp.Tools.Execution.{
  begin, get_pc, get_lr, run_to_stop, clean_up, run_and_clean, run_until,
}
use dolphin_re_mcp.Tools.Execution.Ends.{Connected, ensure_connected-OnReturn}
use dolphin_re_mcp.Tools.Disasm.{Line, disasm_one_at}
use dolphin_re_mcp.Tools.Step.{
  is_call, stepped, step_and_stop, step, run_and_stop, run_to, call_or_step, over_line, step_over,
  step_out,
}
use dolphin_re_mcp.Tools.Execution.Quiet.{
  Quietly, ensure_connected-stays, run_to_stop-quiet, begin-quiet, get_pc-quiet, get_lr-quiet,
  quiet_bind, on_stub-quiet, mark_paused-quiet,
}
use dolphin_re_mcp.Tools.Step.Connected.{run_and_stop-quiet, disasm_one_at-quiet, stepped-quiet}

erase-append :
    (k : ℕ) (spec : BreakpointSpec) (d : Breakpoints)
    → Lacking k d
    → erase ◌==◌ k (d ++ (k, spec) ∷ []) ≡ d
erase-append k spec [] h = ground arith
erase-append k spec (e ∷ d) h =
    rw (h.0) (ap (λ (x : Breakpoints). e ∷ x) (erase-append k spec d h.1))

removed_spec-same : (o : Option BreakpointSpec) → Along SameRegistry (removed_spec o)
removed_spec-same none s = (refl, refl)
removed_spec-same (some spec) s =
    let disarming = safe_to_modify (disarm spec) >>= λ _. pure tt in
    same_bind (catch disarming is_forgiven (pure tt)) (λ _. pure true)
      (same_catch disarming is_forgiven (pure tt)
        (same_bind (safe_to_modify (disarm spec)) (λ _. pure tt)
          (safe_to_modify-same (disarm spec) (disarm-same spec)) λ _. same_stay)
        same_stay)
      (λ _. same_stay) s

-- In a connected session a removal takes the id out, whether it returns or raises.
remove-erases :
    (env : Environment) (k : ℕ) (s : Session)
    → Connected s
    → (remove env k s).1.breakpoints ≡ erase ◌==◌ k s.breakpoints
unfolding remove unregister_bp
remove-erases env k s c =
    rw (ensure_connected-stays env s c) (removed_spec-same (lookup ◌==◌ k s.breakpoints) _).0

catching-state :
    {A B : Type 0} (test : Error → Bool) (b : B) (r : Result A × Session)
    → (catching test (continue r.0 (λ _. pure b) r.1) (pure b)).1 ≡ r.1
catching-state test b (ok a, t) = refl
catching-state test b (err e, t) = ground arith

cleanup-state : {A B : Type 0} (r : Result A) (p : Result B × Session) → (after_cleanup r p).1 ≡ p.1
cleanup-state r (ok b, t) = refl
cleanup-state r (err e, t) = refl

clean_up-erases :
    (env : Environment) (bp : BreakpointSpec) (s : Session)
    → Connected s
    → (clean_up env bp s).1.breakpoints ≡ erase ◌==◌ bp.bp_id s.breakpoints
clean_up-erases env bp s c =
    ap (λ (t : Session). t.breakpoints) (catching-state is_exception tt (remove env bp.bp_id s))
    ∙ remove-erases env bp.bp_id s c

-- Adding a breakpoint connects the session.
add_breakpoint-Connected :
    (env : Environment) (addr : ℤ) (s : Session) → OnReturn Connected (add_breakpoint env addr s)
unfolding add_breakpoint enter alloc_bp_id register_bp
add_breakpoint-Connected env addr s =
    OnReturn-bind Connected Connected (ensure_connected env) _ s (ensure_connected-OnReturn env s)
      λ _ t c.
        OnReturn-bind (InState t.state) Connected
          (safe_to_modify (on_stub (add_sw_breakpoint addr))) (λ _. enter addr (pos 4) sw_bp) t
          (safe_to_modify-OnReturn (add_sw_breakpoint addr) t) λ _ u same. rw same c

-- The registry is what it was; the next id may have moved on.
abbrev pub Restored : {A : Type 0} → Session → Result A × Session → Type 0
Restored s r = r.1.breakpoints ≡ s.breakpoints

module _ {A : Type 0} (env : Environment) (addr : ℤ) (body : Exec Session A)
    (quiet : Along Quietly body) where
  temporary_at :
      (s : Session) (r : Result BreakpointSpec × Session)
      → Added addr (pos 4) s r
      → OnReturn Connected r
      → Restored s (continue r.0 (λ bp. finally body (clean_up env bp)) r.1)
  temporary_at s (err e, t) same c = same.0
  temporary_at s (ok bp, t) (made, there, fresh, next) c =
      let ((same, _), keeps) = quiet t in
      let own : bp.bp_id ≡ s.next_id = ap (λ (x : BreakpointSpec). x.bp_id) made in
      ap (λ (x : Session). x.breakpoints) (cleanup-state (body t).0 (clean_up env bp (body t).1))
      ∙ clean_up-erases env bp (body t).1 (keeps c)
      ∙ ap (erase ◌==◌ bp.bp_id) (same ∙ there)
      ∙ ap (λ k. erase ◌==◌ k (s.breakpoints ++ (s.next_id, bp) ∷ [])) own
      ∙ erase-append s.next_id bp s.breakpoints fresh

  -- A run with a breakpoint of its own, whether it returns or raises.
  temporary-Restored :
      (s : Session)
      → WellFormed s
      → Restored s ((add_breakpoint env addr >>= λ bp. finally body (clean_up env bp)) s)
  temporary-Restored s w =
      temporary_at s (add_breakpoint env addr s) (add_breakpoint-Added env addr s w)
        (add_breakpoint-Connected env addr s)

-- Steps in front of such a run leave the registry and its order.
module _ {A B : Type 0} (f : A → Exec Session B) (s : Session)
    (then_restored : (a : A) (t : Session) → WellFormed t → Restored t (f a t)) where
  before-Restored_at :
      (r : Result A × Session) → Quietly s r.1 → WellFormed s → Restored s (continue r.0 f r.1)
  before-Restored_at (err e, t) h w = h.0.0
  before-Restored_at (ok a, t) ((same, next), _) w =
      let still : WellFormed t = rw (same, next) w in then_restored a t still ∙ same

  before-Restored : (m : Exec Session A) → Along Quietly m → WellFormed s → Restored s ((m >>= f) s)
  before-Restored m h w = before-Restored_at (m s) (h s) w

run_until-Restored :
    (env : Environment) (addr : ℤ) (timeout : ℕ) (s : Session)
    → WellFormed s
    → Restored s (run_until env addr timeout s)
unfolding run_until
run_until-Restored env addr timeout s w =
    before-Restored (λ _. add_breakpoint env addr >>= run_and_clean env addr timeout) s
      (λ _ t.
        temporary-Restored env addr (run_to_stop env addr timeout)
          (run_to_stop-quiet env addr timeout) t)
      (begin env) (begin-quiet env) w

module _ (cs : Capstone) (symbols : SymbolMap) (env : Environment) where
  run_to-Restored :
      (addr : ℤ) (timeout : ℕ) (s : Session)
      → WellFormed s
      → Restored s (run_to cs symbols env addr timeout s)
  unfolding run_to
  run_to-Restored addr timeout s w =
      temporary-Restored env addr (run_and_stop cs symbols env timeout)
        (run_and_stop-quiet cs symbols env timeout) s w

  step-quiet : Along Quietly (step cs symbols env)
  unfolding step step_and_stop
  step-quiet = quiet_bind (begin env) _ (begin-quiet env) λ _.
      quiet_bind (on_stub (step_stub (some 5_000_000))) _
        (on_stub-quiet (step_stub (some 5_000_000)))
        λ raw.
          quiet_bind (modify mark_paused) (λ _. stepped cs symbols env raw) mark_paused-quiet
            λ _. stepped-quiet cs symbols env raw

  call_or_step-Restored :
      (at : ℕ) (b : Bool) (s : Session)
      → WellFormed s
      → Restored s (call_or_step cs symbols env at b s)
  call_or_step-Restored at true s w = run_to-Restored (pos (at + 4)) 10_000_000 s w
  call_or_step-Restored at false s w = (step-quiet s).0.0

  over_line-Restored :
      (at : ℕ) (o : Option Line) (s : Session)
      → WellFormed s
      → Restored s (over_line cs symbols env at o s)
  over_line-Restored at none s w = refl
  over_line-Restored at (some line) s w = call_or_step-Restored at (is_call line.instruction) s w

  steps-Restored :
      (s : Session)
      → WellFormed s
      → Restored s (step_over cs symbols env s) × Restored s (step_out cs symbols env s)
  unfolding step_over step_out
  steps-Restored s w = (
    before-Restored _ s
        (λ _ t v.
          before-Restored _ t
            (λ at u x.
              before-Restored (over_line cs symbols env at) u (over_line-Restored at)
                (disasm_one_at cs symbols env (pos at))
                (disasm_one_at-quiet cs symbols env (pos at)) x)
            (get_pc env) (get_pc-quiet env) v)
        (begin env) (begin-quiet env) w,
    before-Restored _ s
        (λ _ t v.
          before-Restored (λ lr. run_to cs symbols env (pos lr) 30_000_000) t
            (λ lr u x. run_to-Restored (pos lr) 30_000_000 u x) (get_lr env) (get_lr-quiet env) v)
        (begin env) (begin-quiet env) w,
  )

  -- From a registry in good order, a run to an address, stepping over an instruction and stepping
  -- out of a function leave the entries as they were, whether they return, time out or raise.
  pub runs-Restored :
      (addr : ℤ) (timeout : ℕ) (s : Session)
      → WellFormed s
      → Restored s (run_until env addr timeout s)
        × Restored s (step_over cs symbols env s)
        × Restored s (step_out cs symbols env s)
  runs-Restored addr timeout s w =
      let (over, out) = steps-Restored s w in (run_until-Restored env addr timeout s w, over, out)

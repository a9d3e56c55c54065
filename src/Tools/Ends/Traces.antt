-- ===== src/Tools/Ends/Traces.antt =====
-- Traces end.
use dolphin_re_mcp.Prelude.{
  ℕ, zero, suc, refl, ◌==◌, ◌&&◌, Bool, true, false, Option, none, some, List, [], ◌∷◌,
  if◌then◌else◌,
}
use dolphin_re_mcp.Prelude.Int.{ℤ, pos, negsuc}
use dolphin_re_mcp.Prelude.Dict.{lookup}
use dolphin_re_mcp.Prelude.Text.{Text, Bytes, codes, from_hex, mem_text}
use dolphin_re_mcp.Errors.{value_error}
use dolphin_re_mcp.Exec.{Exec, pure, raise, modify, ◌>>=◌}
use dolphin_re_mcp.Symbols.{SymbolMap}
use dolphin_re_mcp.Disasm.Decode.{Capstone}
use dolphin_re_mcp.Session.{Session, Capture, BreakpointSpec, Environment, is_exception}
use dolphin_re_mcp.Session.Proper.{
  Ends, Ends-bind, Ends-if, Ends-catch, Ends-finally, Ends-lift, IsClean,
}
use dolphin_re_mcp.Session.Ends.{Bounded}
use dolphin_re_mcp.Tools.Quiesce.{attempt}
use dolphin_re_mcp.Tools.Breakpoints.{
  add_breakpoint, add_watchpoint, remove, capture_on_hit, log_of, get_capture_log, stop_capturing,
}
use dolphin_re_mcp.Tools.Execution.{get_pc, get_gprs, get_fprs}
use dolphin_re_mcp.Tools.Disasm.{disasm, first_line}
use dolphin_re_mcp.Tools.Memory.{read, read_mem}
use dolphin_re_mcp.Tools.Step.{step}
use dolphin_re_mcp.Tools.Ends.Breakpoints.{
  add_breakpoint-Ends, add_watchpoint-Ends, remove-Ends, capture_on_hit-Ends, stop_capturing-Ends,
}
use dolphin_re_mcp.Tools.Ends.Execution.{get_pc-Ends, get_gprs-Ends, get_fprs-Ends}
use dolphin_re_mcp.Tools.Ends.Steps.{disasm-Ends, step-Ends}
use dolphin_re_mcp.Tools.Ends.Memory.{read-Ends}
use dolphin_re_mcp.Tools.Compound.{
  watch_for, collect, clean_trace, trace_with, bad_duration, trace_writes_to, trace_calls_to,
  or_gprs_lr, TraceEntry, is_fp, ea_of, optional, word_of, word_at, or_gprs_only, stops, cons_entry,
  go_on, observe, record_entry, try_step, trace_loop, trace_steps, trace_until,
}

log_of-IsClean :
    (test : Capture → Bool) (limit : Option ℕ) (o : Option BreakpointSpec)
    → IsClean (log_of test limit o)
log_of-IsClean test limit none = refl
log_of-IsClean test limit (some spec) = tt

log-Ends :
    (bp_id : ℕ) → Ends {A = List Capture} (λ s. (get_capture_log bp_id (λ c. true) none s, s))
unfolding get_capture_log
log-Ends bp_id s =
    Ends-lift (log_of (λ c. true) none (lookup ◌==◌ bp_id s.breakpoints))
      (log_of-IsClean (λ c. true) none (lookup ◌==◌ bp_id s.breakpoints)) s

attempt-Ends : {A : Type 0} (m : Exec Session A) → Ends m → Ends (attempt (m >>= λ _. pure tt))
attempt-Ends m h =
    Ends-catch (m >>= λ _. pure tt) is_exception (pure tt) (Ends-bind m (λ _. pure tt) h λ _ s. tt)
      λ s. tt

module _ (env : Environment) (eval_condition : Text → Capture → Bool)
    (bounded : Bounded env.host) where
  trace_with-Ends :
      (captures : List Text) (rounds : ℕ) (bp : BreakpointSpec)
      → Ends (trace_with env eval_condition captures rounds bp)
  trace_with-Ends captures rounds bp =
      Ends-finally (collect env eval_condition bp.bp_id captures rounds)
        (clean_trace env eval_condition bp.bp_id)
        (Ends-bind (capture_on_hit env bp.bp_id captures true) _
          (capture_on_hit-Ends env bounded bp.bp_id captures true)
          λ _.
            Ends-bind (modify (watch_for env eval_condition rounds))
              (λ _ s. (get_capture_log bp.bp_id (λ c. true) none s, s)) (λ s. tt)
              λ _. log-Ends bp.bp_id)
        (Ends-bind (attempt (stop_capturing (some bp.bp_id) >>= λ _. pure tt)) _
          (attempt-Ends (stop_capturing (some bp.bp_id)) (stop_capturing-Ends (some bp.bp_id)))
          λ _. attempt-Ends (remove env bp.bp_id) (remove-Ends env bounded bp.bp_id))

  pub trace_writes_to-Ends :
      (addr size duration : ℤ) (captures : List Text) (rounds : ℕ)
      → Ends (trace_writes_to env eval_condition addr size duration captures rounds)
  unfolding trace_writes_to
  trace_writes_to-Ends addr size duration captures rounds =
      Ends-if (bad_duration duration) (raise value_error) _ (λ s. refl)
        (Ends-bind (add_watchpoint env addr size (codes "write")) _
          (add_watchpoint-Ends env bounded addr size (codes "write"))
          (trace_with-Ends (or_gprs_lr captures) rounds))

  pub trace_calls_to-Ends :
      (entry_addr duration : ℤ) (captures : List Text) (rounds : ℕ)
      → Ends (trace_calls_to env eval_condition entry_addr duration captures rounds)
  unfolding trace_calls_to
  trace_calls_to-Ends entry_addr duration captures rounds =
      Ends-if (bad_duration duration) (raise value_error) _ (λ s. refl)
        (Ends-bind (add_breakpoint env entry_addr) _ (add_breakpoint-Ends env bounded entry_addr)
          (trace_with-Ends (or_gprs_lr captures) rounds))

optional-Ends : {A : Type 0} (b : Bool) (m : Exec Session A) → Ends m → Ends (optional b m)
optional-Ends true m h = Ends-bind m (λ a. pure (some a)) h λ a s. tt
optional-Ends false m h = λ s. tt

word_of-Ends : (o : Option Bytes) → Ends (word_of o)
word_of-Ends none s = refl
word_of-Ends (some blob) s = tt

module _ (cs : Capstone) (symbols : SymbolMap) (env : Environment)
    (bounded : Bounded env.host) where
  word_at-Ends : (ea : Option ℕ) → Ends (word_at env ea)
  unfolding read_mem
  word_at-Ends none s = tt
  word_at-Ends (some ea) s =
      Ends-catch (read_mem env (pos ea) (pos 4) >>= λ d. word_of (from_hex d.text)) is_exception
        (pure none)
        (Ends-bind (read_mem env (pos ea) (pos 4)) (λ d. word_of (from_hex d.text))
          (Ends-bind (read env (pos ea) (pos 4)) _ (read-Ends env bounded (pos ea) (pos 4))
            λ bytes t. tt)
          λ d. word_of-Ends (from_hex d.text))
        (λ t. tt) s

  observe-Ends : (caps : List Text) → Ends (observe cs symbols env caps)
  unfolding observe
  observe-Ends caps =
      let gprs = mem_text (codes "gprs") caps in
      Ends-bind (get_pc env) _ (get_pc-Ends env bounded) λ at.
        Ends-bind (disasm cs symbols env (pos at) (pos 1) gprs) _
          (disasm-Ends cs symbols env bounded (pos at) (pos 1) gprs)
          λ lines.
            let line = first_line cs symbols lines in
            let fprs = mem_text (codes "fprs") caps && is_fp line in
            let ea = if mem_text (codes "mem_operands") caps then ea_of line else none in
            Ends-bind (optional gprs (get_gprs env)) _
              (optional-Ends gprs (get_gprs env) (get_gprs-Ends env bounded))
              λ g.
                Ends-bind (optional fprs (get_fprs env)) _
                  (optional-Ends fprs (get_fprs env) (get_fprs-Ends env bounded))
                  λ f. Ends-bind (word_at env ea) _ (word_at-Ends ea) λ value s. tt

  try_step-Ends : Ends (try_step cs symbols env)
  unfolding try_step
  try_step-Ends =
      Ends-catch (step cs symbols env >>= λ _. pure true) is_exception (pure false)
        (Ends-bind (step cs symbols env) (λ _. pure true) (step-Ends cs symbols env bounded)
          λ _ s. tt)
        λ s. tt

  go_on-Ends : (b : Bool) (rest : Exec Session (List TraceEntry)) → Ends rest → Ends (go_on b rest)
  go_on-Ends true rest h = h
  go_on-Ends false rest h = λ s. tt

  trace_loop-Ends :
      (until_pc : Option ℤ) (until_blr : Bool) (caps : List Text) (n i : ℕ)
      → Ends (trace_loop cs symbols env until_pc until_blr caps n i)
  unfolding trace_loop
  trace_loop-Ends until_pc until_blr caps zero i s = tt
  trace_loop-Ends until_pc until_blr caps (suc n) i s =
      let rest = trace_loop cs symbols env until_pc until_blr caps n (suc i) in
      Ends-bind (record_entry cs symbols env caps i) _
        (Ends-bind (observe cs symbols env caps) _ (observe-Ends caps) λ seen t. tt)
        (λ e.
          let on = try_step cs symbols env >>= λ worked. go_on worked rest in
          Ends-if (stops until_pc until_blr e) (pure (e ∷ [])) (cons_entry e on) (λ t. tt)
            (Ends-bind on (λ es. pure (e ∷ es))
              (Ends-bind (try_step cs symbols env) (λ worked. go_on worked rest) try_step-Ends
                λ worked.
                  go_on-Ends worked rest (trace_loop-Ends until_pc until_blr caps n (suc i)))
              λ es t. tt))
        s

  trace_steps-Ends :
      (until_pc : Option ℤ) (until_blr : Bool) (max_steps : ℤ) (caps : List Text)
      → Ends (trace_steps cs symbols env until_pc until_blr max_steps caps)
  trace_steps-Ends until_pc until_blr (negsuc n) caps s = tt
  trace_steps-Ends until_pc until_blr (pos n) caps s = trace_loop-Ends until_pc until_blr caps n 0 s

  pub trace_until-Ends :
      (until_pc : Option ℤ) (until_blr : Bool) (max_steps : ℤ) (capture : List Text)
      → Ends (trace_until cs symbols env until_pc until_blr max_steps capture)
  unfolding trace_until
  trace_until-Ends until_pc until_blr max_steps capture =
      let steps = trace_steps cs symbols env until_pc until_blr max_steps (or_gprs_only capture) in
      Ends-if _ (raise value_error) steps (λ s. refl)
        (trace_steps-Ends until_pc until_blr max_steps (or_gprs_only capture))

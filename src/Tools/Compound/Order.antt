-- ===== src/Tools/Compound/Order.antt =====
-- Traces keep the registry in good order.
use dolphin_re_mcp.Prelude.{
  ℕ, zero, suc, Bool, true, false, ◌&&◌, Option, none, some, List, [], ◌∷◌, if◌then◌else◌,
}
use dolphin_re_mcp.Prelude.Int.{ℤ, pos, negsuc}
use dolphin_re_mcp.Prelude.Text.{Text, Bytes, codes, from_hex, mem_text}
use dolphin_re_mcp.Exec.{Exec, pure, modify, raise, ◌>>=◌}
use dolphin_re_mcp.Errors.{value_error}
use dolphin_re_mcp.Exec.Along.{Along, Along-catch, Along-finally}
use dolphin_re_mcp.Symbols.{SymbolMap}
use dolphin_re_mcp.Disasm.Decode.{Capstone}
use dolphin_re_mcp.Session.{Session, Capture, BreakpointSpec, Environment, is_exception}
use dolphin_re_mcp.Tools.Order.{
  KeepsOrder, order_stay, order_next, order_bind, add_breakpoint-order, add_watchpoint-order,
  remove-order, capture_on_hit-order, stop_capturing-order,
}
use dolphin_re_mcp.Tools.Quiesce.{attempt}
use dolphin_re_mcp.Tools.Breakpoints.{
  add_breakpoint, add_watchpoint, remove, capture_on_hit, get_capture_log, stop_capturing,
}
use dolphin_re_mcp.Tools.Watcher.{watch}
use dolphin_re_mcp.Tools.Watcher.Turns.{watch-order}
use dolphin_re_mcp.Tools.Execution.{get_pc, get_gprs, get_fprs}
use dolphin_re_mcp.Tools.Execution.Quiet.{
  Quietly, quiet_stay, quiet_next, quiet_bind, quiet_if, get_pc-quiet, get_fprs-quiet,
}
use dolphin_re_mcp.Tools.Execution.Order.{quiet-order}
use dolphin_re_mcp.Tools.Disasm.{disasm, first_line}
use dolphin_re_mcp.Tools.Memory.{read, read_mem}
use dolphin_re_mcp.Tools.Step.{step}
use dolphin_re_mcp.Tools.Step.Connected.{read-quiet, get_gprs-quiet, disasm-quiet}
use dolphin_re_mcp.Tools.Step.Order.{step-quiet}
use dolphin_re_mcp.Tools.Compound.{
  watch_for, collect, clean_trace, trace_with, bad_duration, trace_writes_to, trace_calls_to,
  or_gprs_lr, TraceEntry, is_fp, ea_of, optional, word_of, word_at, or_gprs_only, stops, cons_entry,
  go_on, observe, record_entry, try_step, trace_loop, trace_steps, trace_until,
}

attempt-order :
    {A : Type 0} (m : Exec Session A)
    → Along KeepsOrder m
    → Along KeepsOrder (attempt (m >>= λ _. pure tt))
attempt-order m h =
    Along-catch KeepsOrder order_stay order_next (m >>= λ _. pure tt) is_exception (pure tt)
      (order_bind m (λ _. pure tt) h λ _. order_stay) order_stay

order_if :
    {A : Type 0} (b : Bool) (m n : Exec Session A)
    → Along KeepsOrder m
    → Along KeepsOrder n
    → Along KeepsOrder (if b then m else n)
order_if true m n h k = h
order_if false m n h k = k

-- Traces of writes and calls
module _ (env : Environment) (eval_condition : Text → Capture → Bool) where
  watch_for-order :
      (rounds : ℕ) (s : Session) → KeepsOrder s (watch_for env eval_condition rounds s)
  unfolding watch_for
  watch_for-order zero s = order_stay s
  watch_for-order (suc rounds) s =
      order_next s (watch eval_condition s)
        (watch_for env eval_condition rounds (watch eval_condition s))
        (watch-order eval_condition s) (watch_for-order rounds (watch eval_condition s))

  collect-order :
      (bp_id : ℕ) (captures : List Text) (rounds : ℕ)
      → Along KeepsOrder (collect env eval_condition bp_id captures rounds)
  collect-order bp_id captures rounds =
      order_bind (capture_on_hit env bp_id captures true) _
        (capture_on_hit-order env bp_id captures true)
        λ _.
          order_bind (modify (watch_for env eval_condition rounds))
            (λ _ s. (get_capture_log bp_id (λ c. true) none s, s)) (watch_for-order rounds)
            λ _. order_stay

  clean_trace-order : (bp_id : ℕ) → Along KeepsOrder (clean_trace env eval_condition bp_id)
  clean_trace-order bp_id =
      order_bind (attempt (stop_capturing (some bp_id) >>= λ _. pure tt)) _
        (attempt-order (stop_capturing (some bp_id)) (stop_capturing-order (some bp_id)))
        λ _. attempt-order (remove env bp_id) (remove-order env bp_id)

  trace_with-order :
      (captures : List Text) (rounds : ℕ) (bp : BreakpointSpec)
      → Along KeepsOrder (trace_with env eval_condition captures rounds bp)
  trace_with-order captures rounds bp =
      Along-finally KeepsOrder order_stay order_next
        (collect env eval_condition bp.bp_id captures rounds)
        (clean_trace env eval_condition bp.bp_id) (collect-order bp.bp_id captures rounds)
        (clean_trace-order bp.bp_id)

  pub trace_writes_to-order :
      (addr size duration : ℤ) (captures : List Text) (rounds : ℕ)
      → Along KeepsOrder (trace_writes_to env eval_condition addr size duration captures rounds)
  unfolding trace_writes_to
  trace_writes_to-order addr size duration captures rounds =
      order_if (bad_duration duration) (raise value_error) _ order_stay (
        order_bind (add_watchpoint env addr size (codes "write")) _
          (add_watchpoint-order env addr size (codes "write"))
          (trace_with-order (or_gprs_lr captures) rounds))

  pub trace_calls_to-order :
      (entry_addr duration : ℤ) (captures : List Text) (rounds : ℕ)
      → Along KeepsOrder (trace_calls_to env eval_condition entry_addr duration captures rounds)
  unfolding trace_calls_to
  trace_calls_to-order entry_addr duration captures rounds =
      order_if (bad_duration duration) (raise value_error) _ order_stay (
        order_bind (add_breakpoint env entry_addr) _ (add_breakpoint-order env entry_addr)
          (trace_with-order (or_gprs_lr captures) rounds))

-- Traces of single steps
optional-quiet :
    {A : Type 0} (b : Bool) (m : Exec Session A) → Along Quietly m → Along Quietly (optional b m)
optional-quiet true m h = quiet_bind m (λ a. pure (some a)) h λ a. quiet_stay
optional-quiet false m h = quiet_stay

word_of-quiet : (o : Option Bytes) → Along Quietly (word_of o)
word_of-quiet none = quiet_stay
word_of-quiet (some blob) = quiet_stay

word_at-quiet : (env : Environment) (ea : Option ℕ) → Along Quietly (word_at env ea)
unfolding read_mem
word_at-quiet env none = quiet_stay
word_at-quiet env (some ea) =
    Along-catch Quietly quiet_stay quiet_next
      (read_mem env (pos ea) (pos 4) >>= λ d. word_of (from_hex d.text)) is_exception (pure none)
      (quiet_bind (read_mem env (pos ea) (pos 4)) (λ d. word_of (from_hex d.text))
        (quiet_bind (read env (pos ea) (pos 4)) _ (read-quiet env (pos ea) (pos 4))
          λ bytes. quiet_stay)
        λ d. word_of-quiet (from_hex d.text))
      quiet_stay

module _ (cs : Capstone) (symbols : SymbolMap) (env : Environment) where
  observe-quiet : (caps : List Text) → Along Quietly (observe cs symbols env caps)
  unfolding observe
  observe-quiet caps =
      let gprs = mem_text (codes "gprs") caps in
      quiet_bind (get_pc env) _ (get_pc-quiet env) λ at.
        quiet_bind (disasm cs symbols env (pos at) (pos 1) gprs) _
          (disasm-quiet cs symbols env (pos at) (pos 1) gprs)
          λ lines.
            let line = first_line cs symbols lines in
            let fprs = mem_text (codes "fprs") caps && is_fp line in
            let ea = if mem_text (codes "mem_operands") caps then ea_of line else none in
            quiet_bind (optional gprs (get_gprs env)) _
              (optional-quiet gprs (get_gprs env) (get_gprs-quiet env))
              λ g.
                quiet_bind (optional fprs (get_fprs env)) _
                  (optional-quiet fprs (get_fprs env) (get_fprs-quiet env))
                  λ f. quiet_bind (word_at env ea) _ (word_at-quiet env ea) λ value. quiet_stay

  try_step-quiet : Along Quietly (try_step cs symbols env)
  unfolding try_step
  try_step-quiet =
      Along-catch Quietly quiet_stay quiet_next (step cs symbols env >>= λ _. pure true)
        is_exception (pure false)
        (quiet_bind (step cs symbols env) (λ _. pure true) (step-quiet cs symbols env)
          λ _. quiet_stay)
        quiet_stay

  go_on-quiet :
      (b : Bool) (rest : Exec Session (List TraceEntry))
      → Along Quietly rest
      → Along Quietly (go_on b rest)
  go_on-quiet true rest h = h
  go_on-quiet false rest h = quiet_stay

  trace_loop-quiet :
      (until_pc : Option ℤ) (until_blr : Bool) (caps : List Text) (n i : ℕ)
      → Along Quietly (trace_loop cs symbols env until_pc until_blr caps n i)
  unfolding trace_loop
  trace_loop-quiet until_pc until_blr caps zero i = quiet_stay
  trace_loop-quiet until_pc until_blr caps (suc n) i =
      let rest = trace_loop cs symbols env until_pc until_blr caps n (suc i) in
      quiet_bind (record_entry cs symbols env caps i) _
        (quiet_bind (observe cs symbols env caps) _ (observe-quiet caps) λ seen. quiet_stay)
        λ e.
          let on = try_step cs symbols env >>= λ worked. go_on worked rest in
          quiet_if (stops until_pc until_blr e) (pure (e ∷ [])) (cons_entry e on) quiet_stay (
            quiet_bind on (λ es. pure (e ∷ es))
              (quiet_bind (try_step cs symbols env) (λ worked. go_on worked rest) try_step-quiet
                λ worked.
                  go_on-quiet worked rest (trace_loop-quiet until_pc until_blr caps n (suc i)))
              λ es. quiet_stay)

  trace_steps-quiet :
      (until_pc : Option ℤ) (until_blr : Bool) (max_steps : ℤ) (caps : List Text)
      → Along Quietly (trace_steps cs symbols env until_pc until_blr max_steps caps)
  trace_steps-quiet until_pc until_blr (negsuc n) caps = quiet_stay
  trace_steps-quiet until_pc until_blr (pos n) caps = trace_loop-quiet until_pc until_blr caps n 0

  pub trace_until-order :
      (until_pc : Option ℤ) (until_blr : Bool) (max_steps : ℤ) (capture : List Text)
      → Along KeepsOrder (trace_until cs symbols env until_pc until_blr max_steps capture)
  unfolding trace_until
  trace_until-order until_pc until_blr max_steps capture =
      let steps = trace_steps cs symbols env until_pc until_blr max_steps (or_gprs_only capture) in
      order_if _ (raise value_error) steps order_stay
        (quiet-order steps (trace_steps-quiet until_pc until_blr max_steps (or_gprs_only capture)))

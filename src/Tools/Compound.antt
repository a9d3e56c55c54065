-- ===== src/Tools/Compound.antt =====
-- tools/compound_tools.py: traces of writes and calls, and of single steps. While a trace sleeps, the
-- watcher has a number of rounds, which is an argument.
pub mod Timeline
pub mod Order
use dolphin_re_mcp.Prelude.{
  ℕ, zero, suc, Bool, true, false, not, ◌&&◌, ◌||◌, Option, none, some, List, [], ◌∷◌,
  if◌then◌else◌,
}
use dolphin_re_mcp.Prelude.Int.{ℤ, pos, negsuc, leb_ℤ, ltb_ℤ, eqb_ℤ}
use dolphin_re_mcp.Prelude.Dict.{Dict}
use dolphin_re_mcp.Prelude.Text.{Text, Bytes, codes, eq_text, mem_text, lower, from_hex, big_endian}
use dolphin_re_mcp.Errors.{value_error}
use dolphin_re_mcp.Exec.{Exec, pure, raise, modify, catch, finally, ◌>>=◌, ◌>>◌}
use dolphin_re_mcp.Symbols.{SymbolMap, name_of}
use dolphin_re_mcp.Disasm.Mnemonics.{InstructionKind, fp_arith}
use dolphin_re_mcp.Disasm.Decode.{DisasmInstruction, Capstone}
use dolphin_re_mcp.Session.{Session, Capture, BreakpointSpec, Environment, is_exception}
use dolphin_re_mcp.Tools.Quiesce.{attempt}
use dolphin_re_mcp.Tools.Breakpoints.{
  add_breakpoint, add_watchpoint, remove, capture_on_hit, get_capture_log, stop_capturing,
}
use dolphin_re_mcp.Tools.Watcher.{watch}
use dolphin_re_mcp.Tools.Execution.{get_pc, get_gprs, get_fprs}
use dolphin_re_mcp.Tools.Disasm.{Line, disasm, first_line}
use dolphin_re_mcp.Tools.Memory.{Dump, read_mem}
use dolphin_re_mcp.Tools.Step.{step}

-- Traces of writes and calls

-- `captures or ["gprs", "lr"]`
abbrev pub or_gprs_lr : List Text → List Text
or_gprs_lr [] = codes "gprs" ∷ codes "lr" ∷ []
or_gprs_lr (c ∷ cs) = c ∷ cs

-- `duration_s <= 0 or duration_s > 600`, in microseconds.
abbrev pub bad_duration : ℤ → Bool
bad_duration duration = leb_ℤ duration (pos 0) || ltb_ℤ (pos 600_000_000) duration

module _ (env : Environment) (eval_condition : Text → Capture → Bool) where
  -- The watcher's rounds during `time.sleep(duration_s)`.
  unfoldable pub watch_for : ℕ → Session → Session
  watch_for zero s = s
  watch_for (suc rounds) s = watch_for rounds (watch eval_condition s)

  abbrev pub collect : ℕ → List Text → ℕ → Exec Session (List Capture)
  collect bp_id captures rounds = do
    capture_on_hit env bp_id captures true
    modify (watch_for rounds)
    (λ s. (get_capture_log bp_id (λ c. true) none s, s))

  -- What the `finally` does; each part may fail.
  abbrev pub clean_trace : ℕ → Exec Session Unit
  clean_trace bp_id = do
    attempt (stop_capturing (some bp_id) >>= λ _. pure tt)
    attempt (remove env bp_id >>= λ _. pure tt)

  abbrev pub trace_with : List Text → ℕ → BreakpointSpec → Exec Session (List Capture)
  trace_with captures rounds bp = finally (collect bp.bp_id captures rounds) (clean_trace bp.bp_id)

  -- `trace_writes_to(addr, size, duration_s, captures)`
  unfoldable pub trace_writes_to : ℤ → ℤ → ℤ → List Text → ℕ → Exec Session (List Capture)
  trace_writes_to addr size duration captures rounds =
      if bad_duration duration
      then raise value_error
      else (add_watchpoint env addr size (codes "write")
          >>= trace_with (or_gprs_lr captures) rounds)

  -- `trace_calls_to(entry_addr, duration_s, captures)`
  unfoldable pub trace_calls_to : ℤ → ℤ → List Text → ℕ → Exec Session (List Capture)
  trace_calls_to entry_addr duration captures rounds =
      if bad_duration duration
      then raise value_error
      else (add_breakpoint env entry_addr >>= trace_with (or_gprs_lr captures) rounds)

-- Traces of single steps

-- An entry, but for the number of its step.
pub record Observation : Type 0 where
  pub at : ℕ
  pub instruction : Option Line
  pub gprs : Option (Dict Text ℕ)
  pub fprs : Option (Dict Text Bytes)
  pub mem_value : Option ℕ
  pub pc_symbol : Option Text

pub record TraceEntry : Type 0 where
  pub step_number : ℕ
  pub seen : Observation

abbrev pub is_fp : Option Line → Bool
is_fp none = false
is_fp (some line) = elim line.instruction.kind [ fp_arith ↦ true | _ ↦ false ]

abbrev pub ea_of : Option Line → Option ℕ
ea_of none = none
ea_of (some line) = line.instruction.ea

abbrev pub is_none : {A : Type 0} → Option A → Bool
is_none none = true
is_none (some a) = false

abbrev pub optional : {A : Type 0} → Bool → Exec Session A → Exec Session (Option A)
optional true m = m >>= λ a. pure (some a)
optional false m = pure none

abbrev pub word_of : Option Bytes → Exec Session (Option ℕ)
word_of none = raise value_error
word_of (some blob) = pure (some (big_endian blob))

-- `try: read_mem(insn["ea"], 4)`
abbrev pub word_at : Environment → Option ℕ → Exec Session (Option ℕ)
word_at env none = pure none
word_at env (some ea) =
    catch (read_mem env (pos ea) (pos 4) >>= λ d. word_of (from_hex d.text)) is_exception
      (pure none)

abbrev pub or_gprs_only : List Text → List Text
or_gprs_only [] = codes "gprs" ∷ []
or_gprs_only (c ∷ cs) = c ∷ cs

-- `insn["mnemonic"].lower() in ("blr", "bctr")`
abbrev pub is_return : Option Line → Bool
is_return none = false
is_return (some line) = mem_text (lower line.instruction.mnemonic) (codes "blr" ∷ codes "bctr" ∷ [])

abbrev pub is_target : Option ℤ → ℕ → Bool
is_target none at = false
is_target (some until_pc) at = eqb_ℤ (pos at) until_pc

-- The stop conditions, which are tried once the entry is recorded.
unfoldable pub stops : Option ℤ → Bool → TraceEntry → Bool
stops until_pc until_blr e =
    is_target until_pc e.seen.at || (until_blr && is_return e.seen.instruction)

abbrev pub cons_entry : TraceEntry → Exec Session (List TraceEntry) → Exec Session (List TraceEntry)
cons_entry e m = m >>= λ es. pure (e ∷ es)

abbrev pub go_on : Bool → Exec Session (List TraceEntry) → Exec Session (List TraceEntry)
go_on true rest = rest
go_on false rest = pure []

module _ (cs : Capstone) (symbols : SymbolMap) (env : Environment) where
  -- What a round records.
  unfoldable pub observe : List Text → Exec Session Observation
  observe caps = do
    at ← get_pc env
    lines ← disasm cs symbols env (pos at) (pos 1) (mem_text (codes "gprs") caps)
    gprs ← optional (mem_text (codes "gprs") caps) (get_gprs env)
    fprs ←
        optional (mem_text (codes "fprs") caps && is_fp (first_line cs symbols lines))
          (get_fprs env)
    value ←
        word_at env (
          if mem_text (codes "mem_operands") caps
          then ea_of (first_line cs symbols lines)
          else none)
    pure (record {
      at = at;
      instruction = first_line cs symbols lines;
      gprs = gprs;
      fprs = fprs;
      mem_value = value;
      pc_symbol = name_of symbols (pos at);
    })

  abbrev pub record_entry : List Text → ℕ → Exec Session TraceEntry
  record_entry caps i = observe caps >>= λ seen. pure (record { step_number = i; seen = seen })

  -- `try: step()`, whether it worked.
  unfoldable pub try_step : Exec Session Bool
  try_step = catch (step cs symbols env >>= λ _. pure true) is_exception (pure false)

  -- `for i in range(max_steps)`
  unfoldable pub trace_loop : Option ℤ → Bool → List Text → ℕ → ℕ → Exec Session (List TraceEntry)
  trace_loop until_pc until_blr caps zero i = pure []
  trace_loop until_pc until_blr caps (suc n) i = record_entry caps i >>= λ e.
      if stops until_pc until_blr e
      then pure (e ∷ [])
      else cons_entry e
          (try_step >>= λ worked. go_on worked (trace_loop until_pc until_blr caps n (suc i)))

  abbrev pub trace_steps : Option ℤ → Bool → ℤ → List Text → Exec Session (List TraceEntry)
  trace_steps until_pc until_blr (negsuc n) caps = pure []
  trace_steps until_pc until_blr (pos n) caps = trace_loop until_pc until_blr caps n 0

  -- `trace_until(until_pc, until_blr, max_steps, capture)`
  unfoldable pub trace_until : Option ℤ → Bool → ℤ → List Text → Exec Session (List TraceEntry)
  trace_until until_pc until_blr max_steps capture =
      if is_none until_pc && (not until_blr && ltb_ℤ (pos 10_000) max_steps)
      then raise value_error
      else trace_steps until_pc until_blr max_steps (or_gprs_only capture)

-- ===== src/Tools/Watcher.antt =====
-- stop_watcher.py: the thread that captures the hits of auto-continue breakpoints.
pub mod Handling
pub mod Turns
use dolphin_re_mcp.Prelude.{
  ℕ, zero, suc, ◌+◌, Bool, true, false, not, ◌&&◌, ◌||◌, Option, none, some, List, [], ◌∷◌, ◌++◌,
  ◌==◌, if◌then◌else◌, length,
}
use dolphin_re_mcp.Prelude.Dict.{Dict, lookup}
use dolphin_re_mcp.Prelude.Text.{Text, Bytes, codes, mem_text}
use dolphin_re_mcp.Errors.{Error, Result, ok, err, is_time_out, is_connection_lost, is_socket_error}
use dolphin_re_mcp.Exec.{Exec, pure, modify, catch, ◌>>=◌, ◌>>◌}
use dolphin_re_mcp.Gdb.Stub.{Stub}
use dolphin_re_mcp.Gdb.Commands.{read_registers, read_register, read_register_bytes}
use dolphin_re_mcp.Gdb.Execution.{continue_async, wait_for_stop}
use dolphin_re_mcp.Gdb.Registers.{lr_num, numbered, parse_dolphin_gprs}
use dolphin_re_mcp.Gdb.StopReply.{StopReply, parse_stop_reply, pc, sp}
use dolphin_re_mcp.Session.{Session, BreakpointSpec, Capture, on_stub, mark_paused}
use dolphin_re_mcp.Tools.Matching.{match_bp}
use dolphin_re_mcp.Tools.Breakpoints.{update_bp, any_auto_continue}

-- The capture of a stop before any register is read.
abbrev pub first_capture : ℕ → StopReply → Capture
first_capture ts parsed = record {
  ts = ts;
  pc = pc parsed;
  sp = sp parsed;
  signal = parsed.signal;
  watch_addr = parsed.watch_addr;
  gprs = none;
  lr = none;
  fprs = none;
}

-- One of the reads and then the next: a socket error ends the reads and keeps what there is.
abbrev pub staged :
    (Capture → Exec Stub Capture) → Capture → Result Capture × Stub → Result Capture × Stub
staged next capture (ok capture', s) = next capture' s
staged next capture (err e, s) = if is_socket_error e then (ok capture, s) else (err e, s)

abbrev pub stage :
    (Capture → Exec Stub Capture) → (Capture → Exec Stub Capture) → Capture → Exec Stub Capture
stage m next capture s = staged next capture (m capture s)

-- The arguments r3 to r10 are entries of `gprs`.
unfoldable pub capture_gprs : Capture → Exec Stub Capture
capture_gprs capture = do
  blob ← read_registers
  pure (record capture { gprs = some (parse_dolphin_gprs blob) })

abbrev pub with_lr : Capture → Option ℕ → Capture
with_lr capture none = capture
with_lr capture (some lr) = record capture { lr = some lr }

unfoldable pub capture_lr : Capture → Exec Stub Capture
capture_lr capture = do lr ← read_register lr_num; pure (with_lr capture lr)

abbrev pub with_fpr : ℕ → Dict Text Bytes → Option Bytes → Dict Text Bytes
with_fpr i fprs none = fprs
with_fpr i fprs (some raw) = if length raw == 8 then fprs ++ (numbered b'f' i, raw) ∷ [] else fprs

unfoldable pub read_fprs : ℕ → ℕ → Dict Text Bytes → Exec Stub (Dict Text Bytes)
read_fprs i zero fprs = pure fprs
read_fprs i (suc n) fprs =
    read_register_bytes (0x20 + i) >>= λ raw. read_fprs (suc i) n (with_fpr i fprs raw)

unfoldable pub capture_fprs : Capture → Exec Stub Capture
capture_fprs capture = do fprs ← read_fprs 0 32 []; pure (record capture { fprs = some fprs })

abbrev pub when : Bool → (Capture → Exec Stub Capture) → Capture → Exec Stub Capture
when true m capture = m capture
when false m capture = pure capture

-- The reads that `spec.captures` asks for.
unfoldable pub fill_capture : List Text → Capture → Exec Stub Capture
fill_capture captures = stage (when (mem_text (codes "gprs") captures) capture_gprs) (
    stage (when (mem_text (codes "lr") captures || mem_text (codes "stack") captures) capture_lr)
      (stage (when (mem_text (codes "fprs") captures) capture_fprs) pure))

-- `eval_condition` is Python's `eval` on a capture, true where it raises.
module _ (eval_condition : Text → Capture → Bool) where
  abbrev pub is_wanted : Option Text → Capture → Bool
  is_wanted none capture = true
  is_wanted (some []) capture = true
  is_wanted (some (c ∷ s)) capture = eval_condition (c ∷ s) capture

  -- `spec.log.append(capture)`
  abbrev pub keep_capture : ℕ → BreakpointSpec → Capture → Session → Session
  keep_capture bp_id spec capture s =
      if is_wanted spec.condition capture
      then update_bp bp_id (record spec { log = spec.log ++ capture ∷ [] }) s
      else s

  unfoldable pub capture_hit : StopReply → ℕ → BreakpointSpec → Exec Session Bool
  capture_hit parsed bp_id spec =
      (λ s. on_stub (fill_capture spec.captures (first_capture s.stub.wire.clock parsed)) s)
      >>= λ capture. modify (keep_capture bp_id spec capture) >> pure true

  abbrev pub if_watched : Bool → Exec Session Bool → Exec Session Bool
  if_watched true m = m
  if_watched false m = pure false

  abbrev pub hit_spec : StopReply → ℕ → Option BreakpointSpec → Exec Session Bool
  hit_spec parsed bp_id none = pure false
  hit_spec parsed bp_id (some spec) = if_watched spec.auto_continue (capture_hit parsed bp_id spec)

  abbrev pub hit_matched : StopReply → Option ℕ → Exec Session Bool
  hit_matched parsed none s = (ok false, s)
  hit_matched parsed (some bp_id) s = hit_spec parsed bp_id (lookup ◌==◌ bp_id s.breakpoints) s

  -- `_handle_stop(raw)`: whether the watcher goes on.
  unfoldable pub handle_stop : Text → Exec Session Bool
  handle_stop raw s =
      let parsed = parse_stop_reply raw in hit_matched parsed (match_bp parsed s.breakpoints) s

  -- A stop for the foreground: it is put where `wait_for_hit` finds it.
  unfoldable pub surface : Text → Session → Session
  surface raw s =
      mark_paused
        (record s { stub = record s.stub { pending_replies = s.stub.pending_replies ++ raw ∷ [] } })

  unfoldable pub resume_watched : Exec Session Bool
  resume_watched = catch (on_stub continue_async >>= λ _. pure true) is_socket_error (pure false)

  abbrev pub after_stop : Text → Bool → Exec Session Bool
  after_stop raw true = resume_watched
  after_stop raw false = modify (surface raw) >> pure false

  -- What the wait gave: a reply; a time-out, on which the thread goes on; a lost connection.
  abbrev pub waited : Result Text × Session → Result Bool × Session
  waited (ok raw, s) = (handle_stop raw >>= after_stop raw) s
  waited (err e, s) =
      if is_time_out e
      then (ok true, s)
      else if is_connection_lost e
      then (ok false, s)
      else (err e, s)

  -- One round of `run`, under the lock: whether there is another one.
  unfoldable pub watch_round : Exec Session Bool
  watch_round s =
      if any_auto_continue s
      then waited (on_stub (wait_for_stop (some 200_000)) s)
      else (ok false, s)

  -- The thread ends with an error, or where the round says so.
  abbrev pub ended : Result Bool × Session → Session
  ended (ok true, s) = s
  ended (_, s) = record s { watcher = some false }

  unfoldable pub watch : Session → Session
  watch s = ended (watch_round s)

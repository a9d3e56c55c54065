-- ===== src/Tools/Execution.antt =====
-- tools/execution_tools.py: pausing and resuming, registers, the stack walk and runs to an address.
pub mod Stack
pub mod Quiet
pub mod Order
pub mod Ends
use dolphin_re_mcp.Prelude.{
  ℕ, zero, suc, Bool, true, false, Option, none, some, List, [], ◌∷◌, ◌++◌, leb, ◌==◌,
  if◌then◌else◌, take, drop,
}
use dolphin_re_mcp.Prelude.Int.{ℤ, pos, eqb_ℤ}
use dolphin_re_mcp.Prelude.Dict.{Dict, lookup}
use dolphin_re_mcp.Prelude.Text.{Text, Bytes, codes, eq_text, big_endian}
use dolphin_re_mcp.Errors.{
  Error, Result, ok, err, wrong_state, runtime_error, timed_out, stub_wedged, is_time_out,
}
use dolphin_re_mcp.Exec.{Exec, pure, raise, modify, catch, finally, ◌>>=◌, ◌>>◌}
use dolphin_re_mcp.Gdb.Stub.{Stub}
use dolphin_re_mcp.Gdb.Commands.{probe_responsive, read_register, read_registers}
use dolphin_re_mcp.Gdb.Execution.{continue_async, wait_for_stop, interrupt, drain_stop_replies}
use dolphin_re_mcp.Gdb.Registers.{
  pc_num, msr_num, cr_num, lr_num, ctr_num, xer_num, parse_dolphin_gprs,
}
use dolphin_re_mcp.Gdb.StopReply.{StopReply, parse_stop_reply, pc}
use dolphin_re_mcp.Memory.Attach.{Host}
use dolphin_re_mcp.Session.{
  Session, SessionState, connected_paused, connected_running, error, BreakpointSpec, Environment,
  ensure_connected, on_stub, with_state, mark_paused, mark_running, mem_read, is_exception,
  is_watching,
}
use dolphin_re_mcp.Tools.Quiesce.{wedged, attempt}
use dolphin_re_mcp.Tools.Breakpoints.{add_breakpoint, remove}
use dolphin_re_mcp.Tools.Watcher.{read_fprs}

abbrev pub refuse_when : Bool → Exec Session Unit
refuse_when true = raise wrong_state
refuse_when false = pure tt

-- `_refuse_if_watcher_running`
unfoldable pub refuse_if_watcher_running : Exec Session Unit
refuse_if_watcher_running s = refuse_when (is_watching s.watcher) s

-- The guards that every tool begins with.
unfoldable pub begin : Environment → Exec Session Unit
begin env = do ensure_connected env; refuse_if_watcher_running

-- Registers

abbrev pub value_or_raise : Option ℕ → Exec Session ℕ
value_or_raise none = raise runtime_error
value_or_raise (some v) = pure v

unfoldable pub get_register : Environment → ℕ → Exec Session ℕ
get_register env num = do begin env; v ← on_stub (read_register num); value_or_raise v

unfoldable pub get_pc : Environment → Exec Session ℕ
get_pc env = get_register env pc_num

unfoldable pub get_lr : Environment → Exec Session ℕ
get_lr env = get_register env lr_num

unfoldable pub get_ctr : Environment → Exec Session ℕ
get_ctr env = get_register env ctr_num

unfoldable pub get_gprs : Environment → Exec Session (Dict Text ℕ)
get_gprs env = do begin env; blob ← on_stub read_registers; pure (parse_dolphin_gprs blob)

abbrev pub special_registers : List (Text × ℕ)
special_registers =
    (codes "pc", pc_num)
    ∷ (codes "msr", msr_num)
    ∷ (codes "cr", cr_num)
    ∷ (codes "lr", lr_num)
    ∷ (codes "ctr", ctr_num)
    ∷ (codes "xer", xer_num)
    ∷ []

abbrev pub with_register : Text → Dict Text ℕ → Option ℕ → Dict Text ℕ
with_register name out none = out
with_register name out (some v) = out ++ (name, v) ∷ []

unfoldable pub read_each : List (Text × ℕ) → Dict Text ℕ → Exec Stub (Dict Text ℕ)
read_each [] out = pure out
read_each ((name, num) ∷ rest) out =
    read_register num >>= λ v. read_each rest (with_register name out v)

unfoldable pub get_sprs : Environment → Exec Session (Dict Text ℕ)
get_sprs env = do begin env; on_stub (read_each special_registers [])

unfoldable pub get_fprs : Environment → Exec Session (Dict Text Bytes)
get_fprs env = do begin env; on_stub (read_fprs 0 32 [])

-- Core control

-- `{"already_paused": True, "pc": pc}`, or the stop reply.
pub data Paused : Type 0 where
  already_paused : ℕ → Paused
  stopped : StopReply → Paused

-- One try of the loop: none where it timed out.
unfoldable pub interrupt_once : Exec Stub (Option Text)
interrupt_once =
    catch (interrupt >>= λ _. wait_for_stop (some 2_000_000) >>= λ reply. pure (some reply))
      is_time_out (pure none)

abbrev pub or_again : Option Text → Exec Stub (Option Text)
or_again none = interrupt_once
or_again (some reply) = pure (some reply)

unfoldable pub interrupt_twice : Exec Stub (Option Text)
interrupt_twice = do drain_stop_replies 50_000; first ← interrupt_once; or_again first

abbrev pub stopped_or_raise : Option Text → Exec Session Paused
stopped_or_raise none = raise timed_out
stopped_or_raise (some reply) = modify mark_paused >>= λ _. pure (stopped (parse_stop_reply reply))

abbrev pub interrupt_if_alive : Bool → Exec Session Paused
interrupt_if_alive false = wedged
interrupt_if_alive true = on_stub interrupt_twice >>= stopped_or_raise

abbrev pub pause_in : Environment → SessionState → Exec Session Paused
pause_in env connected_paused = get_pc env >>= λ v. pure (already_paused v)
pause_in env _ = on_stub (probe_responsive 500_000) >>= interrupt_if_alive

unfoldable pub pause : Environment → Exec Session Paused
pause env = do begin env; (λ s. pause_in env s.state s)

abbrev pub resume_in : SessionState → Exec Session Unit
resume_in connected_running = pure tt
resume_in _ = on_stub continue_async >>= λ _. modify mark_running

unfoldable pub resume : Environment → Exec Session Unit
resume env = do begin env; (λ s. resume_in s.state s)

abbrev pub is_paused_state : SessionState → Bool
is_paused_state connected_paused = true
is_paused_state _ = false

unfoldable pub is_paused : Session → Bool
is_paused s = is_paused_state s.state

-- The stack

pub record Frame : Type 0 where
  pub frame_sp : ℕ
  pub saved_lr : ℕ

-- `try: session.mem.read(sp, 8)`
unfoldable pub try_read : Host → ℕ → Exec Session (Option Bytes)
try_read host sp =
    catch (mem_read host (pos sp) (pos 8) >>= λ blob. pure (some blob)) is_exception (pure none)

abbrev pub frame_of : ℕ → Bytes → Frame
frame_of sp blob = record { frame_sp = sp; saved_lr = big_endian (take 4 (drop 4 blob)) }

abbrev pub in_front : Frame → Exec Session (List Frame) → Exec Session (List Frame)
in_front frame m = m >>= λ frames. pure (frame ∷ frames)

abbrev pub walk_on : Bool → Exec Session (List Frame) → Exec Session (List Frame)
walk_on true rest = pure []
walk_on false rest = rest

-- The loop goes on only to a greater stack pointer.
abbrev pub frames_at :
    ℕ → (ℕ → Exec Session (List Frame)) → Option Bytes → Exec Session (List Frame)
frames_at sp next none = pure []
frames_at sp next (some blob) =
    let prev_sp = big_endian (take 4 blob) in
    in_front (frame_of sp blob) (walk_on (leb prev_sp sp) (next prev_sp))

unfoldable pub stack_from : Host → ℕ → ℕ → Exec Session (List Frame)
stack_from host zero sp = pure []
stack_from host (suc depth) sp =
    walk_on (sp == 0) (try_read host sp >>= frames_at sp (stack_from host depth))

abbrev pub or_zero : Option ℕ → ℕ
or_zero none = 0
or_zero (some v) = v

unfoldable pub get_stack : Environment → ℕ → Exec Session (List Frame)
get_stack env depth = do
  ensure_connected env
  gprs ← get_gprs env
  stack_from env.host depth (or_zero (lookup eq_text (codes "r1") gprs))

-- Runs to an address

abbrev pub pc_or_read : Environment → Option ℤ → Exec Session ℤ
pc_or_read env none = get_pc env >>= λ v. pure (pos v)
pc_or_read env (some at) = pure at

-- `{"hit": False, "timed_out": True, …}`, or the pc where it stopped and whether it is the target.
pub data RunResult : Type 0 where
  run_timed_out : RunResult
  run_hit : ℤ → Bool → RunResult

abbrev pub reached : Environment → ℤ → Option Text → Exec Session RunResult
reached env addr none = pure run_timed_out
reached env addr (some raw) = modify mark_paused >>= λ _.
    pc_or_read env (pc (parse_stop_reply raw)) >>= λ new_pc.
    pure (run_hit new_pc (eqb_ℤ new_pc addr))

unfoldable pub wait_or_time_out : ℕ → Exec Stub (Option Text)
wait_or_time_out timeout =
    catch (wait_for_stop (some timeout) >>= λ raw. pure (some raw)) is_time_out (pure none)

unfoldable pub run_to_stop : Environment → ℤ → ℕ → Exec Session RunResult
run_to_stop env addr timeout = do
  resume env
  raw ← on_stub (wait_or_time_out timeout)
  reached env addr raw

-- `finally: try: remove(bp["id"]) except Exception: log`
abbrev pub clean_up : Environment → BreakpointSpec → Exec Session Unit
clean_up env bp = attempt (remove env bp.bp_id >>= λ _. pure tt)

abbrev pub run_and_clean : Environment → ℤ → ℕ → BreakpointSpec → Exec Session RunResult
run_and_clean env addr timeout bp = finally (run_to_stop env addr timeout) (clean_up env bp)

unfoldable pub run_until : Environment → ℤ → ℕ → Exec Session RunResult
run_until env addr timeout = do
  begin env
  bp ← add_breakpoint env addr
  run_and_clean env addr timeout bp

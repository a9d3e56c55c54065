-- ===== src/Tools/Ends/Steps.antt =====
-- Disassembling and stepping end.
use dolphin_re_mcp.Prelude.{ℕ, ◌+◌, refl, Bool, true, false, Option, none, some, []}
use dolphin_re_mcp.Prelude.Int.{ℤ, pos, leb_ℤ, ◌*ℤ◌}
use dolphin_re_mcp.Prelude.Text.{Text, codes}
use dolphin_re_mcp.Exec.{pure, modify, ◌>>=◌}
use dolphin_re_mcp.Gdb.Registers.{lr_num}
use dolphin_re_mcp.Gdb.Packets.{read_packet}
use dolphin_re_mcp.Gdb.Acks.{send_packet}
use dolphin_re_mcp.Gdb.Execution.{step as step_stub, wait_for_stop}
use dolphin_re_mcp.Gdb.StopReply.{parse_stop_reply, pc}
use dolphin_re_mcp.Symbols.{SymbolMap}
use dolphin_re_mcp.Disasm.Decode.{Capstone}
use dolphin_re_mcp.Session.{
  Environment, on_stub, ensure_connected, is_exception, mark_paused, mem_read,
}
use dolphin_re_mcp.Session.Proper.{Ends, Ends-bind, Ends-if, Ends-catch, Ends-on_stub}
use dolphin_re_mcp.Session.Ends.{
  Bounded, ensure_connected-Ends, read_packet-Ends, send_packet-Ends, mem_read-Ends,
}
use dolphin_re_mcp.Tools.Execution.{begin, get_pc, get_lr, get_gprs, resume, pc_or_read}
use dolphin_re_mcp.Tools.Ends.Execution.{
  begin-Ends, get_register-Ends, get_pc-Ends, get_gprs-Ends, resume-Ends, pc_or_read-Ends,
  temporary-Ends,
}
use dolphin_re_mcp.Tools.Disasm.{Line, disasm, disasm_one_at, first_line, registers_if}
use dolphin_re_mcp.Tools.Step.{
  is_call, stepped, step_and_stop, step, run_and_stop, run_to, call_or_step, over_line, step_over,
  step_out,
}

module _ (env : Environment) (bounded : Bounded env.host) where
  registers_if-Ends : (with_gprs : Bool) → Ends (registers_if env with_gprs)
  registers_if-Ends false s = tt
  registers_if-Ends true s =
      Ends-catch (get_gprs env >>= λ g. pure (some g)) is_exception (pure none)
        (Ends-bind (get_gprs env) (λ g. pure (some g)) (get_gprs-Ends env bounded) λ g t. tt)
        (λ t. tt) s

module _ (cs : Capstone) (symbols : SymbolMap) (env : Environment)
    (bounded : Bounded env.host) where
  pub disasm-Ends :
      (addr count : ℤ) (with_gprs : Bool) → Ends (disasm cs symbols env addr count with_gprs)
  unfolding disasm
  disasm-Ends addr count with_gprs =
      Ends-if (leb_ℤ count (pos 0)) (pure []) _ (λ s. tt)
        (Ends-bind (ensure_connected env) _ (ensure_connected-Ends env bounded) λ _.
          Ends-bind (mem_read env.host addr (count *ℤ pos 4)) _
            (mem_read-Ends env.host addr (count *ℤ pos 4))
            λ blob.
              Ends-bind (registers_if env with_gprs) _ (registers_if-Ends env bounded with_gprs)
                λ gprs s. tt)

  disasm_one_at-Ends : (addr : ℤ) → Ends (disasm_one_at cs symbols env addr)
  unfolding disasm_one_at
  disasm_one_at-Ends addr =
      Ends-catch
        (disasm cs symbols env addr (pos 1) false >>= λ lines. pure (first_line cs symbols lines))
        is_exception (pure none)
        (Ends-bind (disasm cs symbols env addr (pos 1) false)
          (λ lines. pure (first_line cs symbols lines)) (disasm-Ends addr (pos 1) false)
          λ lines s. tt)
        λ s. tt

  stepped-Ends : (raw : Text) → Ends (stepped cs symbols env raw)
  unfolding stepped
  stepped-Ends raw =
      Ends-bind (pc_or_read env (pc (parse_stop_reply raw))) _
        (pc_or_read-Ends env bounded (pc (parse_stop_reply raw)))
        λ at. Ends-bind (disasm_one_at cs symbols env at) _ (disasm_one_at-Ends at) λ line s. tt

  -- From the reply of a stop on.
  stopped-Ends : (raw : Text) → Ends (modify mark_paused >>= λ _. stepped cs symbols env raw)
  stopped-Ends raw =
      Ends-bind (modify mark_paused) (λ _. stepped cs symbols env raw) (λ s. tt)
        λ _. stepped-Ends raw

  pub step-Ends : Ends (step cs symbols env)
  unfolding step step_and_stop step_stub
  step-Ends = Ends-bind (begin env) _ (begin-Ends env bounded) λ _.
      let stub = send_packet (codes "s") >>= λ _. read_packet (some 5_000_000) in
      Ends-bind (on_stub stub) _
        (Ends-on_stub stub (
          Ends-bind (send_packet (codes "s")) (λ _. read_packet (some 5_000_000))
            (send_packet-Ends (codes "s")) λ _. read_packet-Ends (some 5_000_000)))
        stopped-Ends

  run_and_stop-Ends : (timeout : ℕ) → Ends (run_and_stop cs symbols env timeout)
  unfolding run_and_stop wait_for_stop
  run_and_stop-Ends timeout = Ends-bind (resume env) _ (resume-Ends env bounded) λ _.
      Ends-bind (on_stub (read_packet (some timeout))) _
        (Ends-on_stub (read_packet (some timeout)) (read_packet-Ends (some timeout))) stopped-Ends

  run_to-Ends : (addr : ℤ) (timeout : ℕ) → Ends (run_to cs symbols env addr timeout)
  unfolding run_to
  run_to-Ends addr timeout =
      temporary-Ends env bounded addr (run_and_stop cs symbols env timeout)
        (run_and_stop-Ends timeout)

  call_or_step-Ends : (at : ℕ) (b : Bool) → Ends (call_or_step cs symbols env at b)
  call_or_step-Ends at true s = run_to-Ends (pos (at + 4)) 10_000_000 s
  call_or_step-Ends at false s = step-Ends s

  over_line-Ends : (at : ℕ) (o : Option Line) → Ends (over_line cs symbols env at o)
  over_line-Ends at none s = refl
  over_line-Ends at (some line) s = call_or_step-Ends at (is_call line.instruction) s

  pub step_over-Ends : Ends (step_over cs symbols env)
  unfolding step_over
  step_over-Ends = Ends-bind (begin env) _ (begin-Ends env bounded) λ _.
      Ends-bind (get_pc env) _ (get_pc-Ends env bounded) λ at.
        Ends-bind (disasm_one_at cs symbols env (pos at)) _ (disasm_one_at-Ends (pos at))
          (over_line-Ends at)

  pub step_out-Ends : Ends (step_out cs symbols env)
  unfolding step_out get_lr
  step_out-Ends = Ends-bind (begin env) _ (begin-Ends env bounded) λ _.
      Ends-bind (get_lr env) _ (get_register-Ends env bounded lr_num)
        λ lr. run_to-Ends (pos lr) 30_000_000

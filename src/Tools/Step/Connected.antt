-- ===== src/Tools/Step/Connected.antt =====
-- What disassembles keeps the registry and, once the session is connected, its connection.
use dolphin_re_mcp.Prelude.{ℕ, Bool, true, false, Option, none, some, []}
use dolphin_re_mcp.Prelude.Int.{ℤ, pos, leb_ℤ, ◌*ℤ◌}
use dolphin_re_mcp.Prelude.Text.{Text}
use dolphin_re_mcp.Exec.{pure, lift, modify, ◌>>=◌}
use dolphin_re_mcp.Exec.Along.{Along, Along-catch}
use dolphin_re_mcp.Gdb.Commands.{read_registers}
use dolphin_re_mcp.Gdb.Execution.{wait_for_stop}
use dolphin_re_mcp.Gdb.StopReply.{parse_stop_reply, pc}
use dolphin_re_mcp.Memory.Attach.{Host, AttachBackend, gdb_mem_read, attach_read}
use dolphin_re_mcp.Symbols.{SymbolMap}
use dolphin_re_mcp.Disasm.Decode.{Capstone}
use dolphin_re_mcp.Session.{
  Environment, on_stub, ensure_connected, is_exception, mark_paused, mem_read, read_backend,
}
use dolphin_re_mcp.Tools.Memory.{read}
use dolphin_re_mcp.Tools.Execution.{begin, get_gprs, resume, pc_or_read}
use dolphin_re_mcp.Tools.Disasm.{disasm, disasm_one_at, first_line, registers_if}
use dolphin_re_mcp.Tools.Step.{stepped, run_and_stop}
use dolphin_re_mcp.Tools.Execution.Quiet.{
  Quietly, quiet_stay, quiet_next, quiet_bind, quiet_if, begin-quiet, on_stub-quiet,
  ensure_connected-quiet, mark_paused-quiet, resume-quiet, pc_or_read-quiet,
}

-- Reading memory and disassembling.
read_backend-quiet :
    (host : Host) (b : Option AttachBackend) (addr size : ℤ)
    → Along Quietly (read_backend host b addr size)
read_backend-quiet host none addr size s = on_stub-quiet (gdb_mem_read addr size) s
read_backend-quiet host (some b) addr size s =
    quiet_if b.handle (lift (attach_read host b addr size)) (on_stub (gdb_mem_read addr size))
      quiet_stay (on_stub-quiet (gdb_mem_read addr size)) s

mem_read-quiet : (host : Host) (addr size : ℤ) → Along Quietly (mem_read host addr size)
unfolding mem_read
mem_read-quiet host addr size s = read_backend-quiet host s.attach_backend addr size s

pub read-quiet : (env : Environment) (addr size : ℤ) → Along Quietly (read env addr size)
unfolding read
read-quiet env addr size =
    quiet_bind (ensure_connected env) (λ _. mem_read env.host addr size)
      (ensure_connected-quiet env) λ _. mem_read-quiet env.host addr size

pub get_gprs-quiet : (env : Environment) → Along Quietly (get_gprs env)
unfolding get_gprs
get_gprs-quiet env =
    quiet_bind (begin env) _ (begin-quiet env)
      λ _. quiet_bind (on_stub read_registers) _ (on_stub-quiet read_registers) λ blob. quiet_stay

registers_if-quiet :
    (env : Environment) (with_gprs : Bool) → Along Quietly (registers_if env with_gprs)
registers_if-quiet env false = quiet_stay
registers_if-quiet env true =
    Along-catch Quietly quiet_stay quiet_next (get_gprs env >>= λ g. pure (some g)) is_exception
      (pure none) (quiet_bind (get_gprs env) _ (get_gprs-quiet env) λ g. quiet_stay) quiet_stay

module _ (cs : Capstone) (symbols : SymbolMap) (env : Environment) where
  pub disasm-quiet :
      (addr count : ℤ) (with_gprs : Bool)
      → Along Quietly (disasm cs symbols env addr count with_gprs)
  unfolding disasm
  disasm-quiet addr count with_gprs = quiet_if (leb_ℤ count (pos 0)) (pure []) _ quiet_stay (
      quiet_bind (ensure_connected env) _ (ensure_connected-quiet env) λ _.
        quiet_bind (mem_read env.host addr (count *ℤ pos 4)) _
          (mem_read-quiet env.host addr (count *ℤ pos 4))
          λ blob.
            quiet_bind (registers_if env with_gprs) _ (registers_if-quiet env with_gprs)
              λ gprs. quiet_stay)

  pub disasm_one_at-quiet : (addr : ℤ) → Along Quietly (disasm_one_at cs symbols env addr)
  unfolding disasm_one_at
  disasm_one_at-quiet addr =
      Along-catch Quietly quiet_stay quiet_next
        (disasm cs symbols env addr (pos 1) false >>= λ lines. pure (first_line cs symbols lines))
        is_exception (pure none)
        (quiet_bind (disasm cs symbols env addr (pos 1) false)
          (λ lines. pure (first_line cs symbols lines)) (disasm-quiet addr (pos 1) false)
          λ lines. quiet_stay)
        quiet_stay

  pub stepped-quiet : (raw : Text) → Along Quietly (stepped cs symbols env raw)
  unfolding stepped
  stepped-quiet raw =
      quiet_bind (pc_or_read env (pc (parse_stop_reply raw))) _
        (pc_or_read-quiet env (pc (parse_stop_reply raw)))
        λ at.
          quiet_bind (disasm_one_at cs symbols env at) _ (disasm_one_at-quiet at) λ line. quiet_stay

  pub run_and_stop-quiet : (timeout : ℕ) → Along Quietly (run_and_stop cs symbols env timeout)
  unfolding run_and_stop
  run_and_stop-quiet timeout = quiet_bind (resume env) _ (resume-quiet env) λ _.
      quiet_bind (on_stub (wait_for_stop (some timeout))) _
        (on_stub-quiet (wait_for_stop (some timeout)))
        λ raw.
          quiet_bind (modify mark_paused) (λ _. stepped cs symbols env raw) mark_paused-quiet
            λ _. stepped-quiet raw

-- ===== src/Tools/Ends/Execution.antt =====
-- Pausing, resuming and runs to an address end.
use dolphin_re_mcp.Prelude.{ℕ, zero, suc, ◌+◌, refl, Bool, true, false, Option, none, some, []}
use dolphin_re_mcp.Prelude.Int.{ℤ, pos, eqb_ℤ}
use dolphin_re_mcp.Prelude.Dict.{Dict}
use dolphin_re_mcp.Prelude.Text.{Text, Bytes}
use dolphin_re_mcp.Errors.{is_time_out}
use dolphin_re_mcp.Exec.{Exec, pure, modify, finally, ◌>>=◌}
use dolphin_re_mcp.Gdb.Packets.{read_packet}
use dolphin_re_mcp.Gdb.Registers.{pc_num}
use dolphin_re_mcp.Gdb.Commands.{
  read_register, read_register_bytes, read_registers, probe_responsive,
}
use dolphin_re_mcp.Gdb.Execution.{interrupt, wait_for_stop, drain_stop_replies}
use dolphin_re_mcp.Gdb.StopReply.{parse_stop_reply, pc}
use dolphin_re_mcp.Session.{
  Session, SessionState, disconnected, connected_paused, connected_running, error, BreakpointSpec,
  Environment, on_stub, ensure_connected, is_exception, is_watching, mark_paused,
}
use dolphin_re_mcp.Session.Proper.{
  Ends, Ends-bind, Ends-catch, Ends-finally, Ends-on_stub, Returns-Proper,
}
use dolphin_re_mcp.Session.Ends.{
  Bounded, ensure_connected-Ends, read_register-Ends, read_register_bytes-Ends, read_registers-Ends,
  read_packet-Ends,
}
use dolphin_re_mcp.Tools.Quiesce.{wedged}
use dolphin_re_mcp.Tools.Quiesce.Ends.{drain-Returns, interrupt-Ends}
use dolphin_re_mcp.Tools.Watcher.{read_fprs, with_fpr}
use dolphin_re_mcp.Tools.Breakpoints.{add_breakpoint, remove}
use dolphin_re_mcp.Tools.Ends.Breakpoints.{
  probe-Ends, resuming-Ends, add_breakpoint-Ends, remove-Ends,
}
use dolphin_re_mcp.Tools.Execution.{
  refuse_when, refuse_if_watcher_running, begin, value_or_raise, get_register, get_pc, get_gprs,
  get_fprs, already_paused, interrupt_once, or_again, interrupt_twice, stopped_or_raise,
  interrupt_if_alive, pause_in, pause, resume_in, resume, pc_or_read, reached, run_hit,
  wait_or_time_out, run_to_stop, clean_up, run_and_clean, run_until,
}

refuse_when-Ends : (b : Bool) → Ends (refuse_when b)
refuse_when-Ends true s = refl
refuse_when-Ends false s = tt

value_or_raise-Ends : (o : Option ℕ) → Ends (value_or_raise o)
value_or_raise-Ends none s = refl
value_or_raise-Ends (some v) s = tt

-- Interrupting.
interrupt_once-Ends : Ends interrupt_once
unfolding interrupt_once wait_for_stop
interrupt_once-Ends =
    Ends-catch _ is_time_out (pure none)
      (Ends-bind interrupt _ interrupt-Ends λ _.
        Ends-bind (read_packet (some 2_000_000)) (λ reply. pure (some reply))
          (read_packet-Ends (some 2_000_000)) λ reply s. tt)
      λ s. tt

or_again-Ends : (o : Option Text) → Ends (or_again o)
or_again-Ends none s = interrupt_once-Ends s
or_again-Ends (some reply) s = tt

interrupt_twice-Ends : Ends interrupt_twice
unfolding interrupt_twice
interrupt_twice-Ends =
    Ends-bind (drain_stop_replies 50_000) _
      (λ s. Returns-Proper (drain_stop_replies 50_000) s (drain-Returns 50_000 s))
      λ _. Ends-bind interrupt_once or_again interrupt_once-Ends or_again-Ends

stopped_or_raise-Ends : (o : Option Text) → Ends (stopped_or_raise o)
stopped_or_raise-Ends none s = refl
stopped_or_raise-Ends (some reply) s = tt

interrupt_if_alive-Ends : (b : Bool) → Ends (interrupt_if_alive b)
unfolding wedged
interrupt_if_alive-Ends false s = refl
interrupt_if_alive-Ends true s =
    Ends-bind (on_stub interrupt_twice) stopped_or_raise
      (Ends-on_stub interrupt_twice interrupt_twice-Ends) stopped_or_raise-Ends s

interrupting-Ends : Ends (on_stub (probe_responsive 500_000) >>= interrupt_if_alive)
interrupting-Ends =
    Ends-bind (on_stub (probe_responsive 500_000)) interrupt_if_alive (probe-Ends 500_000)
      interrupt_if_alive-Ends

resume_in-Ends : (state : SessionState) → Ends (resume_in state)
resume_in-Ends connected_running s = tt
resume_in-Ends connected_paused s = resuming-Ends s
resume_in-Ends disconnected s = resuming-Ends s
resume_in-Ends error s = resuming-Ends s

wait_or_time_out-Ends : (timeout : ℕ) → Ends (wait_or_time_out timeout)
unfolding wait_or_time_out wait_for_stop
wait_or_time_out-Ends timeout =
    Ends-catch (read_packet (some timeout) >>= λ raw. pure (some raw)) is_time_out (pure none)
      (Ends-bind (read_packet (some timeout)) (λ raw. pure (some raw))
        (read_packet-Ends (some timeout)) λ raw s. tt)
      λ s. tt

read_fprs-Ends : (i n : ℕ) (fprs : Dict Text Bytes) → Ends (read_fprs i n fprs)
unfolding read_fprs
read_fprs-Ends i zero fprs s = tt
read_fprs-Ends i (suc n) fprs s =
    Ends-bind (read_register_bytes (0x20 + i)) _ (read_register_bytes-Ends (0x20 + i))
      (λ raw. read_fprs-Ends (suc i) n (with_fpr i fprs raw)) s

module _ (env : Environment) (bounded : Bounded env.host) where
  pub begin-Ends : Ends (begin env)
  unfolding begin refuse_if_watcher_running
  begin-Ends =
      Ends-bind (ensure_connected env) (λ _ s. refuse_when (is_watching s.watcher) s)
        (ensure_connected-Ends env bounded) λ _ s. refuse_when-Ends (is_watching s.watcher) s

  pub get_register-Ends : (num : ℕ) → Ends (get_register env num)
  unfolding get_register
  get_register-Ends num = Ends-bind (begin env) _ begin-Ends λ _.
      Ends-bind (on_stub (read_register num)) value_or_raise
        (Ends-on_stub (read_register num) (read_register-Ends num)) value_or_raise-Ends

  pub get_pc-Ends : Ends (get_pc env)
  unfolding get_pc
  get_pc-Ends = get_register-Ends pc_num

  pub get_gprs-Ends : Ends (get_gprs env)
  unfolding get_gprs
  get_gprs-Ends = Ends-bind (begin env) _ begin-Ends λ _.
      Ends-bind (on_stub read_registers) _ (Ends-on_stub read_registers read_registers-Ends)
        λ blob s. tt

  pub get_fprs-Ends : Ends (get_fprs env)
  unfolding get_fprs
  get_fprs-Ends =
      Ends-bind (begin env) (λ _. on_stub (read_fprs 0 32 [])) begin-Ends
        λ _. Ends-on_stub (read_fprs 0 32 []) (read_fprs-Ends 0 32 [])

  pause_in-Ends : (state : SessionState) → Ends (pause_in env state)
  pause_in-Ends connected_paused s =
      Ends-bind (get_pc env) (λ v. pure (already_paused v)) get_pc-Ends (λ v t. tt) s
  pause_in-Ends connected_running s = interrupting-Ends s
  pause_in-Ends disconnected s = interrupting-Ends s
  pause_in-Ends error s = interrupting-Ends s

  pub pause-Ends : Ends (pause env)
  unfolding pause
  pause-Ends =
      Ends-bind (begin env) (λ _ s. pause_in env s.state s) begin-Ends
        λ _ s. pause_in-Ends s.state s

  pub resume-Ends : Ends (resume env)
  unfolding resume
  resume-Ends =
      Ends-bind (begin env) (λ _ s. resume_in s.state s) begin-Ends λ _ s. resume_in-Ends s.state s

  pub pc_or_read-Ends : (o : Option ℤ) → Ends (pc_or_read env o)
  pc_or_read-Ends none s = Ends-bind (get_pc env) (λ v. pure (pos v)) get_pc-Ends (λ v t. tt) s
  pc_or_read-Ends (some at) s = tt

  reached-Ends : (addr : ℤ) (o : Option Text) → Ends (reached env addr o)
  reached-Ends addr none s = tt
  reached-Ends addr (some raw) s =
      Ends-bind (modify mark_paused)
        (λ _. pc_or_read env (pc (parse_stop_reply raw)) >>= λ new_pc.
          pure (run_hit new_pc (eqb_ℤ new_pc addr)))
        (λ t. tt)
        (λ _.
          Ends-bind (pc_or_read env (pc (parse_stop_reply raw)))
            (λ new_pc. pure (run_hit new_pc (eqb_ℤ new_pc addr)))
            (pc_or_read-Ends (pc (parse_stop_reply raw))) λ new_pc t. tt)
        s

  run_to_stop-Ends : (addr : ℤ) (timeout : ℕ) → Ends (run_to_stop env addr timeout)
  unfolding run_to_stop
  run_to_stop-Ends addr timeout = Ends-bind (resume env) _ resume-Ends λ _.
      Ends-bind (on_stub (wait_or_time_out timeout)) (reached env addr)
        (Ends-on_stub (wait_or_time_out timeout) (wait_or_time_out-Ends timeout))
        (reached-Ends addr)

  clean_up-Ends : (bp : BreakpointSpec) → Ends (clean_up env bp)
  clean_up-Ends bp =
      Ends-catch (remove env bp.bp_id >>= λ _. pure tt) is_exception (pure tt)
        (Ends-bind (remove env bp.bp_id) (λ _. pure tt) (remove-Ends env bounded bp.bp_id)
          λ _ s. tt)
        λ s. tt

  -- A run to a breakpoint that is set for it alone.
  pub temporary-Ends :
      {A : Type 0} (addr : ℤ) (body : Exec Session A)
      → Ends body
      → Ends (add_breakpoint env addr >>= λ bp. finally body (clean_up env bp))
  temporary-Ends addr body h =
      Ends-bind (add_breakpoint env addr) (λ bp. finally body (clean_up env bp))
        (add_breakpoint-Ends env bounded addr)
        λ bp. Ends-finally body (clean_up env bp) h (clean_up-Ends bp)

  pub run_until-Ends : (addr : ℤ) (timeout : ℕ) → Ends (run_until env addr timeout)
  unfolding run_until
  run_until-Ends addr timeout =
      Ends-bind (begin env) (λ _. add_breakpoint env addr >>= run_and_clean env addr timeout)
        begin-Ends
        λ _. temporary-Ends addr (run_to_stop env addr timeout) (run_to_stop-Ends addr timeout)

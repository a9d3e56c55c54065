-- ===== src/Tools/Execution/Quiet.antt =====
-- Tools that keep the registry and, once the session is connected, its connection.
use dolphin_re_mcp.Prelude.{
  ℕ, ◌≡◌, refl, ◌∙◌, if◌then◌else◌, Bool, true, false, Option, none, some, [],
}
use dolphin_re_mcp.Prelude.Int.{ℤ, pos, eqb_ℤ}
use dolphin_re_mcp.Prelude.Text.{Text}
use dolphin_re_mcp.Errors.{ok}
use dolphin_re_mcp.Exec.{Exec, pure, modify, ◌>>=◌}
use dolphin_re_mcp.Exec.Along.{Along, Along-bind}
use dolphin_re_mcp.Gdb.Stub.{Stub}
use dolphin_re_mcp.Gdb.Commands.{read_register}
use dolphin_re_mcp.Gdb.Execution.{continue_async}
use dolphin_re_mcp.Gdb.Registers.{pc_num, lr_num}
use dolphin_re_mcp.Gdb.StopReply.{parse_stop_reply, pc}
use dolphin_re_mcp.Session.{
  Session, SessionState, disconnected, connected_paused, connected_running, error, Environment,
  on_stub, make_connection, connected_in, ensure_connected, mark_running, mark_paused, when_paused,
  when_running, is_watching,
}
use dolphin_re_mcp.Session.Registry.{SameRegistry, ensure_connected-same}
use dolphin_re_mcp.Tools.Execution.{
  refuse_when, refuse_if_watcher_running, begin, value_or_raise, get_register, get_pc, get_lr,
  get_fprs, read_fprs, resume_in, resume, pc_or_read, reached, run_hit, wait_or_time_out,
  run_to_stop,
}
use dolphin_re_mcp.Tools.Execution.Ends.{IsConnected, Connected}

-- The registry stays, and a session that is connected stays so.
abbrev pub Quietly : Session → Session → Type 0
Quietly s t = SameRegistry s t × (Connected s → Connected t)

pub quiet_stay : (s : Session) → Quietly s s
quiet_stay s = ((refl, refl), λ c. c)

pub quiet_next : (s t u : Session) → Quietly s t → Quietly t u → Quietly s u
quiet_next s t u (h, c) (k, d) = ((k.0 ∙ h.0, k.1 ∙ h.1), λ x. d (c x))

pub quiet_bind :
    {A B : Type 0} (m : Exec Session A) (f : A → Exec Session B)
    → Along Quietly m
    → ((a : A) → Along Quietly (f a))
    → Along Quietly (m >>= f)
quiet_bind = Along-bind Quietly quiet_stay quiet_next

pub quiet_if :
    {A : Type 0} (b : Bool) (m n : Exec Session A)
    → Along Quietly m
    → Along Quietly n
    → Along Quietly (if b then m else n)
quiet_if true m n h k = h
quiet_if false m n h k = k

pub on_stub-quiet : {A : Type 0} (m : Exec Stub A) → Along Quietly (on_stub m)
on_stub-quiet m s = ((refl, refl), λ c. c)

connected_in-stays :
    (state : SessionState) (m : Exec Session Unit) (s : Session)
    → IsConnected state
    → connected_in state m s ≡ (ok tt, s)
connected_in-stays connected_paused m s c = refl
connected_in-stays connected_running m s c = refl
connected_in-stays disconnected m s c = elim c [ ]
connected_in-stays error m s c = elim c [ ]

-- A session that is connected is not connected again.
pub ensure_connected-stays :
    (env : Environment) (s : Session) → Connected s → ensure_connected env s ≡ (ok tt, s)
unfolding ensure_connected
ensure_connected-stays env s c = connected_in-stays s.state (make_connection env) s c

pub ensure_connected-quiet : (env : Environment) → Along Quietly (ensure_connected env)
ensure_connected-quiet env s =
    (ensure_connected-same env s, λ c. rw (ensure_connected-stays env s c) c)

when_running-IsConnected :
    (state : SessionState) → IsConnected state → IsConnected (when_running state)
when_running-IsConnected connected_paused c = tt
when_running-IsConnected connected_running c = tt
when_running-IsConnected disconnected c = c
when_running-IsConnected error c = c

when_paused-IsConnected :
    (state : SessionState) → IsConnected state → IsConnected (when_paused state)
when_paused-IsConnected connected_paused c = tt
when_paused-IsConnected connected_running c = tt
when_paused-IsConnected disconnected c = c
when_paused-IsConnected error c = c

pub mark_paused-quiet : Along Quietly (modify mark_paused)
unfolding mark_paused
mark_paused-quiet s = ((refl, refl), when_running-IsConnected s.state)

mark_running-quiet : Along Quietly (modify mark_running)
unfolding mark_running
mark_running-quiet s = ((refl, refl), when_paused-IsConnected s.state)

refuse_when-quiet : (b : Bool) → Along Quietly (refuse_when b)
refuse_when-quiet true s = quiet_stay s
refuse_when-quiet false s = quiet_stay s

pub begin-quiet : (env : Environment) → Along Quietly (begin env)
unfolding begin refuse_if_watcher_running
begin-quiet env =
    quiet_bind (ensure_connected env) (λ _ t. refuse_when (is_watching t.watcher) t)
      (ensure_connected-quiet env) λ _ t. refuse_when-quiet (is_watching t.watcher) t

value_or_raise-quiet : (o : Option ℕ) → Along Quietly (value_or_raise o)
value_or_raise-quiet none s = quiet_stay s
value_or_raise-quiet (some v) s = quiet_stay s

pub get_pc-quiet : (env : Environment) → Along Quietly (get_pc env)
unfolding get_pc get_register
get_pc-quiet env =
    quiet_bind (begin env) (λ _. on_stub (read_register pc_num) >>= value_or_raise)
      (begin-quiet env)
      λ _.
        quiet_bind (on_stub (read_register pc_num)) value_or_raise
          (on_stub-quiet (read_register pc_num)) value_or_raise-quiet

pub get_lr-quiet : (env : Environment) → Along Quietly (get_lr env)
unfolding get_lr get_register
get_lr-quiet env =
    quiet_bind (begin env) (λ _. on_stub (read_register lr_num) >>= value_or_raise)
      (begin-quiet env)
      λ _.
        quiet_bind (on_stub (read_register lr_num)) value_or_raise
          (on_stub-quiet (read_register lr_num)) value_or_raise-quiet

pub get_fprs-quiet : (env : Environment) → Along Quietly (get_fprs env)
unfolding get_fprs
get_fprs-quiet env =
    quiet_bind (begin env) (λ _. on_stub (read_fprs 0 32 [])) (begin-quiet env)
      λ _. on_stub-quiet (read_fprs 0 32 [])

resuming-quiet : Along Quietly (on_stub continue_async >>= λ _. modify mark_running)
resuming-quiet =
    quiet_bind (on_stub continue_async) (λ _. modify mark_running) (on_stub-quiet continue_async)
      λ _. mark_running-quiet

resume_in-quiet : (state : SessionState) → Along Quietly (resume_in state)
resume_in-quiet connected_running s = quiet_stay s
resume_in-quiet connected_paused s = resuming-quiet s
resume_in-quiet disconnected s = resuming-quiet s
resume_in-quiet error s = resuming-quiet s

pub resume-quiet : (env : Environment) → Along Quietly (resume env)
unfolding resume
resume-quiet env =
    quiet_bind (begin env) (λ _ t. resume_in t.state t) (begin-quiet env)
      λ _ t. resume_in-quiet t.state t

pub pc_or_read-quiet : (env : Environment) (o : Option ℤ) → Along Quietly (pc_or_read env o)
pc_or_read-quiet env (some at) s = quiet_stay s
pc_or_read-quiet env none s =
    quiet_bind (get_pc env) (λ v. pure (pos v)) (get_pc-quiet env) (λ v. quiet_stay) s

-- The run of `run_until`.
reached-quiet :
    (env : Environment) (addr : ℤ) (o : Option Text) → Along Quietly (reached env addr o)
reached-quiet env addr none s = quiet_stay s
reached-quiet env addr (some raw) s =
    quiet_bind (modify mark_paused)
      (λ _. pc_or_read env (pc (parse_stop_reply raw)) >>= λ new_pc.
        pure (run_hit new_pc (eqb_ℤ new_pc addr)))
      mark_paused-quiet
      (λ _.
        quiet_bind (pc_or_read env (pc (parse_stop_reply raw)))
          (λ new_pc. pure (run_hit new_pc (eqb_ℤ new_pc addr)))
          (pc_or_read-quiet env (pc (parse_stop_reply raw))) λ v. quiet_stay)
      s

pub run_to_stop-quiet :
    (env : Environment) (addr : ℤ) (timeout : ℕ) → Along Quietly (run_to_stop env addr timeout)
unfolding run_to_stop
run_to_stop-quiet env addr timeout =
    quiet_bind (resume env) (λ _. on_stub (wait_or_time_out timeout) >>= reached env addr)
      (resume-quiet env)
      λ _.
        quiet_bind (on_stub (wait_or_time_out timeout)) (reached env addr)
          (on_stub-quiet (wait_or_time_out timeout)) (reached-quiet env addr)

-- ===== src/Tools/Execution/Ends.antt =====
-- The states that pausing and resuming end in.
use dolphin_re_mcp.Prelude.{
  ℕ, ◌≡◌, refl, inl, inr, Bool, true, false, Option, none, some, arith, Bool-cases,
}
use dolphin_re_mcp.Prelude.Text.{Text}
use dolphin_re_mcp.Errors.{Result, ok, err, connection_lost, is_socket_error}
use dolphin_re_mcp.Exec.{Exec, pure, raise, ◌>>=◌, modify}
use dolphin_re_mcp.Exec.Along.{OnReturn, OnReturn-bind, OnReturn-catch}
use dolphin_re_mcp.Gdb.Stub.{Stub, connect}
use dolphin_re_mcp.Gdb.Commands.{why_halted, read_register, probe_responsive}
use dolphin_re_mcp.Gdb.Execution.{continue_async}
use dolphin_re_mcp.Gdb.Registers.{pc_num}
use dolphin_re_mcp.Memory.Attach.{Host, AttachBackend, find_dolphin}
use dolphin_re_mcp.Session.{
  Session, SessionState, disconnected, connected_paused, connected_running, error, Environment,
  on_stub, with_state, reach, try_attach, attached, auto_resume, auto_resume_unless,
  make_connection, connected_in, ensure_connected, is_exception, mark_running, is_watching,
}
use dolphin_re_mcp.Tools.Quiesce.{wedged}
use dolphin_re_mcp.Tools.Quiesce.Resumes.{
  InState, on_stub-OnReturn, marked-OnReturn, mark_paused-running, mark_running-paused,
}
use dolphin_re_mcp.Tools.Execution.{
  already_paused, begin, refuse_when, refuse_if_watcher_running, get_pc, get_register,
  value_or_raise, interrupt_twice, stopped_or_raise, interrupt_if_alive, pause_in, pause, resume_in,
  resume,
}

abbrev pub IsConnected : SessionState → Type 0
IsConnected connected_paused = Unit
IsConnected connected_running = Unit
IsConnected disconnected = ⊥
IsConnected error = ⊥

abbrev pub Connected : Session → Type 0
Connected t = IsConnected t.state

any-OnReturn : {A : Type 0} (r : Result A × Session) → OnReturn (λ t. Unit) r
any-OnReturn (ok a, t) = tt
any-OnReturn (err e, t) = tt

reach-OnReturn : (s : Session) → OnReturn (InState connected_paused) (reach s)
unfolding reach
reach-OnReturn s =
    let handler = modify (with_state disconnected) >>= λ _. raise connection_lost in
    let body =
      on_stub connect >>= λ _. on_stub why_halted >>= λ _. modify (with_state connected_paused) in
    OnReturn-catch (InState connected_paused) is_socket_error handler body s
      (OnReturn-bind (λ t. Unit) (InState connected_paused) (on_stub connect)
        (λ _. on_stub why_halted >>= λ _. modify (with_state connected_paused)) s
        (any-OnReturn (on_stub connect s))
        λ _ t _.
          OnReturn-bind (λ u. Unit) (InState connected_paused) (on_stub why_halted)
            (λ _. modify (with_state connected_paused)) t (any-OnReturn (on_stub why_halted t))
            λ _ u _. refl)
      (λ e h. tt)

attached-OnReturn :
    (r : Result AttachBackend) (state : SessionState) (s : Session)
    → InState state s
    → OnReturn (InState state) (attached r s)
attached-OnReturn (ok b) state s h = h
attached-OnReturn (err e) state s h = ground arith

try_attach-OnReturn :
    (host : Host) (state : SessionState) (s : Session)
    → InState state s
    → OnReturn (InState state) (try_attach host s)
unfolding try_attach
try_attach-OnReturn host state s h = ground (arith, attached-OnReturn (find_dolphin host) state s h)

auto_resume-OnReturn_at :
    (s : Session) (r : Result (Unit {0}) × Stub)
    → continue_async s.stub ≡ r
    → InState connected_paused s
    → OnReturn Connected (auto_resume s)
unfolding auto_resume
auto_resume-OnReturn_at s (ok a, u) e h = rw e tt
auto_resume-OnReturn_at s (err x, u) e h = elim (Bool-cases (is_exception x)) [
  | inl caught ↦ rw e (rw caught (rw h tt))
  | inr escapes ↦ rw e (rw escapes tt)
]

auto_resume_unless-OnReturn :
    (b : Bool) (s : Session)
    → InState connected_paused s
    → OnReturn Connected (auto_resume_unless b s)
auto_resume_unless-OnReturn true s h = rw h tt
auto_resume_unless-OnReturn false s h = auto_resume-OnReturn_at s (continue_async s.stub) refl h

make_connection-OnReturn :
    (env : Environment) (s : Session) → OnReturn Connected (make_connection env s)
unfolding make_connection
make_connection-OnReturn env s =
    OnReturn-bind (InState connected_paused) Connected reach
      (λ _. try_attach env.host >>= λ _. auto_resume_unless env.no_auto_resume) s (reach-OnReturn s)
      λ _ t h.
        OnReturn-bind (InState connected_paused) Connected (try_attach env.host)
          (λ _. auto_resume_unless env.no_auto_resume) t
          (try_attach-OnReturn env.host connected_paused t h)
          λ _ u k. auto_resume_unless-OnReturn env.no_auto_resume u k

connected_in-OnReturn :
    (state : SessionState) (m : Exec Session Unit) (s : Session)
    → InState state s
    → OnReturn Connected (m s)
    → OnReturn Connected (connected_in state m s)
connected_in-OnReturn connected_paused m s h k = rw h tt
connected_in-OnReturn connected_running m s h k = rw h tt
connected_in-OnReturn disconnected m s h k = k
connected_in-OnReturn error m s h k = k

-- Once a session is connected, the target is known to be paused or to run.
pub ensure_connected-OnReturn :
    (env : Environment) (s : Session) → OnReturn Connected (ensure_connected env s)
unfolding ensure_connected
ensure_connected-OnReturn env s =
    connected_in-OnReturn s.state (make_connection env) s refl (make_connection-OnReturn env s)

refuse_when-OnReturn :
    (P : Session → Type 0) (b : Bool) (s : Session) → P s → OnReturn P (refuse_when b s)
refuse_when-OnReturn P true s h = tt
refuse_when-OnReturn P false s h = h

begin-OnReturn :
    (env : Environment) (P : Session → Type 0) (s : Session)
    → OnReturn P (ensure_connected env s)
    → OnReturn P (begin env s)
unfolding begin refuse_if_watcher_running
begin-OnReturn env P s h =
    OnReturn-bind P P (ensure_connected env) (λ _. refuse_if_watcher_running) s h
      λ _ t k. refuse_when-OnReturn P (is_watching t.watcher) t k

connected_in-paused :
    (state : SessionState) (m : Exec Session Unit) (s : Session)
    → state ≡ connected_paused
    → InState connected_paused s
    → OnReturn (InState connected_paused) (connected_in state m s)
connected_in-paused connected_paused m s e h = h
connected_in-paused connected_running m s e h = ground arith
connected_in-paused disconnected m s e h = ground arith
connected_in-paused error m s e h = ground arith

-- A session that is paused is not connected again.
paused-OnReturn :
    (env : Environment) (s : Session)
    → InState connected_paused s
    → OnReturn (InState connected_paused) (ensure_connected env s)
unfolding ensure_connected
paused-OnReturn env s h = connected_in-paused s.state (make_connection env) s h h

value_or_raise-OnReturn :
    (o : Option ℕ) (s : Session)
    → InState connected_paused s
    → OnReturn (InState connected_paused) (value_or_raise o s)
value_or_raise-OnReturn none s h = tt
value_or_raise-OnReturn (some v) s h = h

get_pc-OnReturn :
    (env : Environment) (s : Session)
    → InState connected_paused s
    → OnReturn (InState connected_paused) (get_pc env s)
unfolding get_pc get_register
get_pc-OnReturn env s h =
    OnReturn-bind (InState connected_paused) (InState connected_paused) (begin env)
      (λ _. on_stub (read_register pc_num) >>= value_or_raise) s
      (begin-OnReturn env (InState connected_paused) s (paused-OnReturn env s h))
      λ _ t k.
        OnReturn-bind (InState connected_paused) (InState connected_paused)
          (on_stub (read_register pc_num)) value_or_raise t
          (on_stub-OnReturn (read_register pc_num) connected_paused t k) value_or_raise-OnReturn

stopped_or_raise-OnReturn :
    (o : Option Text) (s : Session)
    → InState connected_running s
    → OnReturn (InState connected_paused) (stopped_or_raise o s)
stopped_or_raise-OnReturn none s h = tt
stopped_or_raise-OnReturn (some reply) s h = mark_paused-running s h

interrupt_if_alive-OnReturn :
    (b : Bool) (s : Session)
    → InState connected_running s
    → OnReturn (InState connected_paused) (interrupt_if_alive b s)
unfolding wedged
interrupt_if_alive-OnReturn false s h = tt
interrupt_if_alive-OnReturn true s h =
    OnReturn-bind (InState connected_running) (InState connected_paused) (on_stub interrupt_twice)
      stopped_or_raise s (on_stub-OnReturn interrupt_twice connected_running s h)
      stopped_or_raise-OnReturn

pause_in-OnReturn :
    (env : Environment) (state : SessionState) (s : Session)
    → InState state s
    → IsConnected state
    → OnReturn (InState connected_paused) (pause_in env state s)
pause_in-OnReturn env connected_paused s h c =
    OnReturn-bind (InState connected_paused) (InState connected_paused) (get_pc env)
      (λ v. pure (already_paused v)) s (get_pc-OnReturn env s h) λ v t k. k
pause_in-OnReturn env connected_running s h c =
    OnReturn-bind (InState connected_running) (InState connected_paused)
      (on_stub (probe_responsive 500_000)) interrupt_if_alive s
      (on_stub-OnReturn (probe_responsive 500_000) connected_running s h)
      interrupt_if_alive-OnReturn
pause_in-OnReturn env disconnected s h c = elim c [ ]
pause_in-OnReturn env error s h c = elim c [ ]

-- A pause that returns leaves the session paused, whatever state it was in.
pub pause-OnReturn :
    (env : Environment) (s : Session) → OnReturn (InState connected_paused) (pause env s)
unfolding pause
pause-OnReturn env s =
    OnReturn-bind Connected (InState connected_paused) (begin env) (λ _ t. pause_in env t.state t) s
      (begin-OnReturn env Connected s (ensure_connected-OnReturn env s))
      λ _ t h. pause_in-OnReturn env t.state t refl h

resume_in-OnReturn :
    (state : SessionState) (s : Session)
    → InState state s
    → IsConnected state
    → OnReturn (InState connected_running) (resume_in state s)
resume_in-OnReturn connected_running s h c = h
resume_in-OnReturn connected_paused s h c =
    marked-OnReturn continue_async mark_running connected_paused connected_running s
      mark_running-paused h
resume_in-OnReturn disconnected s h c = elim c [ ]
resume_in-OnReturn error s h c = elim c [ ]

-- A resume that returns leaves the session running.
pub resume-OnReturn :
    (env : Environment) (s : Session) → OnReturn (InState connected_running) (resume env s)
unfolding resume
resume-OnReturn env s =
    OnReturn-bind Connected (InState connected_running) (begin env) (λ _ t. resume_in t.state t) s
      (begin-OnReturn env Connected s (ensure_connected-OnReturn env s))
      λ _ t h. resume_in-OnReturn t.state t refl h

-- ===== src/Session/Registry.antt =====
-- The calls of the session and of the guards around a modification that leave the registry alone.
use dolphin_re_mcp.Prelude.{arith, ◌≡◌, refl, ◌∙◌, Bool, true, false, none}
use dolphin_re_mcp.Errors.{
  connection_lost, is_socket_error, is_attach_error, Error, Result, ok, err,
}
use dolphin_re_mcp.Exec.{Exec, ◌>>=◌, pure, raise, modify, catch}
use dolphin_re_mcp.Exec.Along.{Along, Along-bind, Along-catch, Along-if}
use dolphin_re_mcp.Gdb.Stub.{Stub, connect}
use dolphin_re_mcp.Gdb.Commands.{why_halted}
use dolphin_re_mcp.Gdb.Execution.{continue_async}
use dolphin_re_mcp.Memory.Attach.{Host, find_dolphin, AttachBackend}
use dolphin_re_mcp.Session.{
  Session, SessionState, Environment, on_stub, reach, try_attach, auto_resume, auto_resume_unless,
  make_connection, ensure_connected, connected_in, attached, with_state, connected_paused,
  connected_running, disconnected, error, is_exception,
}

-- The same breakpoints under the same ids, and the same next id.
abbrev pub SameRegistry : Session → Session → Type 0
SameRegistry s t = (t.breakpoints ≡ s.breakpoints) × (t.next_id ≡ s.next_id)

pub same_stay : (s : Session) → SameRegistry s s
same_stay s = (refl, refl)

pub same_next : (s t u : Session) → SameRegistry s t → SameRegistry t u → SameRegistry s u
same_next s t u (h, h') (k, k') = (k ∙ h, k' ∙ h')

pub same_bind :
    {A B : Type 0} (m : Exec Session A) (f : A → Exec Session B)
    → Along SameRegistry m
    → ((a : A) → Along SameRegistry (f a))
    → Along SameRegistry (m >>= f)
same_bind = Along-bind SameRegistry same_stay same_next

pub same_catch :
    {A : Type 0} (m : Exec Session A) (test : Error → Bool) (handler : Exec Session A)
    → Along SameRegistry m
    → Along SameRegistry handler
    → Along SameRegistry (catch m test handler)
same_catch = Along-catch SameRegistry same_stay same_next

pub on_stub-same : {A : Type 0} (m : Exec Stub A) → Along SameRegistry (on_stub m)
on_stub-same m s = (refl, refl)

reach-same : Along SameRegistry reach
unfolding reach
reach-same =
    same_catch
      (on_stub connect >>= λ _. on_stub why_halted >>= λ _. modify (with_state connected_paused))
      is_socket_error (modify (with_state disconnected) >>= λ _. raise connection_lost)
      (same_bind (on_stub connect)
        (λ _. on_stub why_halted >>= λ _. modify (with_state connected_paused))
        (on_stub-same connect)
        λ _.
          same_bind (on_stub why_halted) (λ _. modify (with_state connected_paused))
            (on_stub-same why_halted) λ _ s. (refl, refl))
      λ s. (refl, refl)

attached-same : (r : Result AttachBackend) → Along SameRegistry (attached r)
attached-same (ok b) s = (refl, refl)
attached-same (err e) s =
    Along-if SameRegistry same_stay same_next (is_attach_error e) s
      (ok tt, record s { attach_backend = none }) (err e, s) (refl, refl) (refl, refl)

try_attach-same : (host : Host) → Along SameRegistry (try_attach host)
unfolding try_attach
try_attach-same host s = ground (arith, attached-same (find_dolphin host) s)

auto_resume-same : Along SameRegistry auto_resume
unfolding auto_resume
auto_resume-same =
    same_catch (on_stub continue_async >>= λ _. modify (with_state connected_running)) is_exception
      (pure tt)
      (same_bind (on_stub continue_async) (λ _. modify (with_state connected_running))
        (on_stub-same continue_async) λ _ s. (refl, refl))
      λ s. (refl, refl)

auto_resume_unless-same : (b : Bool) → Along SameRegistry (auto_resume_unless b)
auto_resume_unless-same true s = (refl, refl)
auto_resume_unless-same false s = auto_resume-same s

make_connection-same : (env : Environment) → Along SameRegistry (make_connection env)
unfolding make_connection
make_connection-same env =
    same_bind reach (λ _. try_attach env.host >>= λ _. auto_resume_unless env.no_auto_resume)
      reach-same
      λ _.
        same_bind (try_attach env.host) (λ _. auto_resume_unless env.no_auto_resume)
          (try_attach-same env.host) λ _. auto_resume_unless-same env.no_auto_resume

connected_in-same :
    (state : SessionState) (m : Exec Session Unit)
    → Along SameRegistry m
    → Along SameRegistry (connected_in state m)
connected_in-same disconnected m h s = h s
connected_in-same connected_paused m h s = (refl, refl)
connected_in-same connected_running m h s = (refl, refl)
connected_in-same error m h s = h s

pub ensure_connected-same : (env : Environment) → Along SameRegistry (ensure_connected env)
unfolding ensure_connected
ensure_connected-same env s =
    connected_in-same s.state (make_connection env) (make_connection-same env) s

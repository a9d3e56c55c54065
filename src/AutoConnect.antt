-- ===== src/AutoConnect.antt =====
-- auto_connect.py: the worker that connects in the background, and its back-off.
use dolphin_re_mcp.Prelude.{
  ℕ, ◌*◌, ◌/◌, ◌≤◌, Bool, true, false, List, [], ◌∷◌, if◌then◌else◌, leb, arith,
}
use dolphin_re_mcp.Errors.{Result, ok, err}
use dolphin_re_mcp.Session.{
  Session, SessionState, disconnected, connected_paused, connected_running, error, Environment,
  ensure_connected,
}

-- In microseconds, in which every interval that the worker meets is a whole number.
abbrev pub poll_interval : ℕ
poll_interval = 500_000

abbrev pub backoff_max : ℕ
backoff_max = 5_000_000

-- `min(current * BACKOFF_FACTOR, BACKOFF_MAX_S)`, or the poll interval once connected.
unfoldable pub step_interval : ℕ → Bool → ℕ
step_interval current true = poll_interval
step_interval current false =
    if leb (current * 3 / 2) backoff_max then current * 3 / 2 else backoff_max

-- The interval and the session after an attempt to connect.
abbrev pub after_attempt : ℕ → Result (Unit {0}) × Session → ℕ × Session
after_attempt interval (ok a, s) = (poll_interval, s)
after_attempt interval (err e, s) = (step_interval interval false, s)

abbrev pub worker_in : Environment → SessionState → ℕ → Session → ℕ × Session
worker_in env disconnected interval s = after_attempt interval (ensure_connected env s)
worker_in env _ interval s = (poll_interval, s)

-- One round of `_worker`, after its wait.
unfoldable pub worker_round : Environment → ℕ × Session → ℕ × Session
worker_round env (interval, s) = worker_in env s.state interval s

-- What happens to the session between two rounds is given.
unfoldable pub worker : Environment → List (Session → Session) → ℕ × Session → ℕ × Session
worker env [] (interval, s) = (interval, s)
worker env (other ∷ others) (interval, s) = worker env others (worker_round env (interval, other s))

abbrev pub IsInterval : ℕ → Type 0
IsInterval n = (poll_interval ≤ n) × (n ≤ backoff_max)

after_attempt-IsInterval :
    (n : ℕ) (r : Result (Unit {0}) × Session) → IsInterval n → IsInterval (after_attempt n r).0
unfolding step_interval
after_attempt-IsInterval n (ok a, s) h = (omega arith, omega arith)
after_attempt-IsInterval n (err e, s) h = ground arith

worker_in-IsInterval :
    (env : Environment) (state : SessionState) (n : ℕ) (s : Session)
    → IsInterval n
    → IsInterval (worker_in env state n s).0
worker_in-IsInterval env disconnected n s h = after_attempt-IsInterval n (ensure_connected env s) h
worker_in-IsInterval env connected_paused n s h = (omega arith, omega arith)
worker_in-IsInterval env connected_running n s h = (omega arith, omega arith)
worker_in-IsInterval env error n s h = (omega arith, omega arith)

-- However often the worker fails to connect, and whatever is done to the session in between, it waits
-- between half a second and five seconds before it tries again.
worker-IsInterval :
    (env : Environment) (others : List (Session → Session)) (n : ℕ) (s : Session)
    → IsInterval n
    → IsInterval (worker env others (n, s)).0
unfolding worker worker_round
worker-IsInterval env [] n s h = h
worker-IsInterval env (other ∷ others) n s h =
    worker-IsInterval env others (worker_round env (n, other s)).0 (worker_round env (n, other s)).1
      (worker_in-IsInterval env (other s).state n (other s) h)

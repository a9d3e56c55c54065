-- ===== src/Session/Health/Untouched.antt =====
-- `health` is read-only.
use dolphin_re_mcp.Prelude.{ℕ, ◌≡◌, refl, ◌&&◌, Bool, true, false, Option, none, some, length}
use dolphin_re_mcp.Errors.{Result, ok, err}
use dolphin_re_mcp.Exec.{pure, catching}
use dolphin_re_mcp.Gdb.Stub.{Stub}
use dolphin_re_mcp.Gdb.Registers.{pc_num}
use dolphin_re_mcp.Gdb.Commands.{read_register}
use dolphin_re_mcp.Gdb.Commands.Robust.{probes-Return}
use dolphin_re_mcp.Session.{Session, is_exception}
use dolphin_re_mcp.Session.Proper.{Proper}
use dolphin_re_mcp.Session.Ends.{read_register-Ends}
use dolphin_re_mcp.Session.Health.{
  Probed, Health, may_read, pc_if, probe_stub, probe_when, sock_open, report, health,
}

-- A run that returns and touches the client alone.
abbrev TouchesStub : {A : Type 0} → Session → Result A × Session → Type 0
TouchesStub {A} s r = (a : A) × (t : Stub) × (r ≡ (ok a, record s { stub = t }))

caught :
    (s : Session) (r : Result (Option ℕ) × Stub)
    → Proper r
    → TouchesStub s (catching is_exception (r.0, record s { stub = r.1 }) (pure none))
caught s (ok v, t) h = (v, t, refl)
caught s (err e, t) h = (none, t, rw h refl)

pc_if-TouchesStub : (b : Bool) (s : Session) → TouchesStub s (pc_if b s)
pc_if-TouchesStub true s = caught s (read_register pc_num s.stub) (read_register-Ends pc_num s.stub)
pc_if-TouchesStub false s = (none, s.stub, refl)

probe_stub-TouchesStub : (s : Session) → TouchesStub s (probe_stub s)
unfolding probe_stub
probe_stub-TouchesStub s =
    let (alive, t, responds) = (probes-Return 500_000 s.stub).1 in
    let s' : Session = record s { stub = t } in
    let (pc, u, reads) = pc_if-TouchesStub (may_read alive s') s' in
    (
      record { stub_responsive = alive; pc = pc; pending = length u.pending_replies },
      u,
      rw responds (rw reads refl),
    )

probe_when-TouchesStub :
    (b : Bool) (s : Session)
    → (o : Option Probed) × (t : Stub) × (probe_when b s ≡ (ok o, record s { stub = t }))
      × (b ≡ false → t ≡ s.stub)
probe_when-TouchesStub true s =
    let (p, t, run) = probe_stub-TouchesStub s in (some p, t, rw run refl, λ off. cc)
probe_when-TouchesStub false s = (none, s.stub, refl, λ off. refl)

-- A report of the health returns, against any peer. It leaves the state, the registry of breakpoints,
-- the backend and the watcher as they were, and without an open socket, or without a probe, the whole
-- session: it does not connect.
pub health-ReadOnly :
    (probe : Bool) (s : Session)
    → (h : Health) × (t : Stub) × (health probe s ≡ (ok h, record s { stub = t }))
      × (h.known_state ≡ s.state)
      × ((probe && sock_open s) ≡ false → t ≡ s.stub)
unfolding health
health-ReadOnly probe s =
    let (o, t, run, still) = probe_when-TouchesStub (probe && sock_open s) s in
    (report s o (record s { stub = t }), t, rw run refl, refl, still)

-- ===== src/Cli.antt =====
-- cli.py: `doctor`, the checks of a session, without what it prints. Which packages can be imported,
-- the scan of the processes and the directory of the dumps are parameters.
pub mod Doctor
use dolphin_re_mcp.Prelude.{
  ℕ, zero, suc, ◌+◌, Bool, true, false, not, Option, none, some, List, [], ◌∷◌, if◌then◌else◌,
}
use dolphin_re_mcp.Prelude.Int.{ℤ, pos}
use dolphin_re_mcp.Prelude.Text.{Text, Bytes, codes, eq_text}
use dolphin_re_mcp.Errors.{Result, ok, err}
use dolphin_re_mcp.Exec.{Exec, pure, lift, modify, catch, ◌>>=◌, ◌>>◌}
use dolphin_re_mcp.Gdb.Socket.{Wire}
use dolphin_re_mcp.Gdb.Stub.{Stub, init, connect, close, take_fault}
use dolphin_re_mcp.Gdb.Commands.{query_supported, why_halted, read_mem}
use dolphin_re_mcp.Memory.Attach.{Host, AttachBackend, find_dolphin, attach_read}
use dolphin_re_mcp.Session.{is_exception}

-- What the doctor looks at besides the stub. `dolphin_pid` is what the scan of the processes finds,
-- `host` the system that the attach backend works on.
pub record Surroundings : Type 0 where
  pub importable : Text → Bool
  pub dolphin_pid : Option ℕ
  pub host : Host

abbrev pub one_if : Bool → ℕ
one_if true = 1
one_if false = 0

abbrev pub missing : (Text → Bool) → List Text → ℕ
missing importable [] = 0
missing importable (m ∷ ms) = one_if (not (importable m)) + missing importable ms

-- Check 1, the failures.
unfoldable pub dependency_failures : Surroundings → ℕ
dependency_failures s =
    missing s.importable (codes "mcp" ∷ codes "capstone" ∷ codes "psutil" ∷ [])
    + (if s.host.is_windows then missing s.importable (codes "pymem" ∷ []) else 0)

abbrev pub is_missing : Option ℕ → Bool
is_missing none = true
is_missing (some pid) = false

-- `_find_dolphin_pid()`: there is no scan without psutil.
unfoldable pub find_dolphin_pid : Surroundings → Option ℕ
find_dolphin_pid s = if s.importable (codes "psutil") then s.dolphin_pid else none

-- `_port_open(host, port)`, which opens a connection and closes it again.
unfoldable pub port_open : Wire → Bool × Wire
port_open w =
    let (fault, rest) = take_fault w.dial_faults in (not fault, record w { dial_faults = rest })

-- `try: m except Exception: fails += 1`, the failures.
abbrev pub failing : Exec Stub ℕ → Exec Stub ℕ
failing m = catch m is_exception (pure 1)

-- Check 6.
unfoldable pub cross_check : Surroundings → AttachBackend → Exec Stub ℕ
cross_check s attach = do
  gdb_bytes ← read_mem (pos 0x80000000) (pos 4)
  att_bytes ← lift (attach_read s.host attach (pos 0x80000000) (pos 4))
  pure (one_if (not (eq_text gdb_bytes att_bytes)))

-- Check 5, on Windows where Dolphin runs, and check 6.
abbrev pub attach_failures : Surroundings → Bool → Option ℕ → Exec Stub ℕ
attach_failures s true (some pid) = failing (lift (find_dolphin s.host) >>= cross_check s)
attach_failures s true none = pure 0
attach_failures s false _ = pure 0

abbrev pub exit_code : ℕ → ℕ
exit_code zero = 0
exit_code (suc n) = 1

-- From the handshake on, after `fails` failures.
unfoldable pub checks : Surroundings → ℕ → Exec Stub ℕ
checks s fails = do
  a ← failing (query_supported >>= λ _. pure 0)
  b ← failing (why_halted >>= λ _. pure 0)
  c ← attach_failures s s.host.is_windows (find_dolphin_pid s)
  modify close
  pure (exit_code (fails + (a + (b + c))))

abbrev pub after_connect : Surroundings → ℕ → Result (Unit {0}) × Stub → Result ℕ × Stub
after_connect s fails (ok _, t) = checks s fails t
after_connect s fails (err e, t) = (ok 1, t)

-- `stub = GDBStub(host=host, port=port)`
abbrev pub with_stub : (Stub → Result ℕ × Stub) → Exec Wire ℕ
with_stub m w = let r = m (init 5_000_000 64 w) in (r.0, r.1.wire)

-- The failures of checks 1 and 2.
abbrev pub early_failures : Surroundings → ℕ
early_failures s = dependency_failures s + one_if (is_missing (find_dolphin_pid s))

-- `doctor()`, the exit code.
unfoldable pub doctor : Surroundings → Exec Wire ℕ
doctor s w =
    let (is_open, w') = port_open w in
    if is_open
    then with_stub (λ stub. after_connect s (early_failures s) (connect stub)) w'
    else (ok 1, w')

-- ===== src/Cli/Doctor.antt =====
-- When the doctor passes.
use dolphin_re_mcp.Prelude.{
  ℕ, zero, suc, ◌+◌, ◌≡◌, refl, arith, Bool, true, false, Option, none, some, Bool-cases, inl, inr,
}
use dolphin_re_mcp.Prelude.Int.{pos}
use dolphin_re_mcp.Prelude.Text.{codes}
use dolphin_re_mcp.Errors.{Result, ok, err}
use dolphin_re_mcp.Exec.{Exec, Returns, catch-Returns, pure, lift, ◌>>=◌}
use dolphin_re_mcp.Gdb.Socket.{Wire}
use dolphin_re_mcp.Gdb.Stub.{Stub, init, connect, close, take_fault}
use dolphin_re_mcp.Gdb.Commands.{query_supported, why_halted, read_mem}
use dolphin_re_mcp.Memory.Attach.{AttachBackend, find_dolphin, attach_read}
use dolphin_re_mcp.Session.{is_exception}
use dolphin_re_mcp.Session.Proper.{Ends, Ends-bind, Ends-lift, Proper-errors}
use dolphin_re_mcp.Session.Ends.{
  Bounded, cmd-Ends, read_mem-Ends, find_dolphin-IsClean, attach_read-IsClean,
}
use dolphin_re_mcp.Cli.{
  Surroundings, one_if, dependency_failures, is_missing, find_dolphin_pid, port_open, failing,
  cross_check, attach_failures, exit_code, checks, after_connect, early_failures, doctor,
}

failing-Returns : (m : Exec Stub ℕ) (s : Stub) → Ends m → Returns (failing m s)
failing-Returns m s h = catch-Returns m is_exception 1 s λ e. Proper-errors (m s) e (h s)

query_supported-Ends : Ends {A = ℕ} (query_supported >>= λ _. pure 0)
unfolding query_supported
query_supported-Ends =
    let query = codes "qSupported:multiprocess+;swbreak+;hwbreak+" in
    Ends-bind query_supported (λ _. pure 0) (cmd-Ends query none) λ _ s. tt

why_halted-Ends : Ends {A = ℕ} (why_halted >>= λ _. pure 0)
unfolding why_halted
why_halted-Ends = Ends-bind why_halted (λ _. pure 0) (cmd-Ends (codes "?") none) λ _ s. tt

cross_check-Ends : (s : Surroundings) (attach : AttachBackend) → Ends (cross_check s attach)
unfolding cross_check
cross_check-Ends s attach =
    let att = attach_read s.host attach (pos 0x80000000) (pos 4) in
    Ends-bind (read_mem (pos 0x80000000) (pos 4)) _ (read_mem-Ends (pos 0x80000000) (pos 4))
      λ gdb_bytes.
        Ends-bind (lift att) _
          (Ends-lift att (attach_read-IsClean s.host attach (pos 0x80000000) (pos 4)))
          λ att_bytes t. tt

one_if-zero : (b : Bool) → one_if b ≡ 0 → b ≡ false
one_if-zero true h = absurd (omega arith)
one_if-zero false h = refl

-- A new client connects where the stub accepts.
dialled :
    (w : Wire) → (connect (init 5_000_000 64 w)).0 ≡ ok tt → (take_fault w.dial_faults).0 ≡ false
unfolding connect init
dialled w h = elim (Bool-cases (take_fault w.dial_faults).0) [
  | inl refused ↦ cc (rw refused at h)
  | inr accepted ↦ accepted
]

exit_code-zero : (n : ℕ) → exit_code n ≡ 0 → n ≡ 0
exit_code-zero zero h = refl
exit_code-zero (suc n) h = absurd (omega arith)

module _ (s : Surroundings) (bounded : Bounded s.host) where
  attach_failures-Returns : (b : Bool) (o : Option ℕ) (t : Stub) → Returns (attach_failures s b o t)
  attach_failures-Returns true (some pid) t =
      failing-Returns (lift (find_dolphin s.host) >>= cross_check s) t (
        Ends-bind (lift (find_dolphin s.host)) (cross_check s)
          (Ends-lift (find_dolphin s.host) (find_dolphin-IsClean s.host bounded))
          (cross_check-Ends s))
  attach_failures-Returns true none t = (0, t, refl)
  attach_failures-Returns false o t = (0, t, refl)

  -- The exit code behind the handshake counts the failures from before.
  checks-Returns :
      (fails : ℕ) (t : Stub)
      → (n : ℕ) × (u : Stub) × (checks s fails t ≡ (ok (exit_code (fails + n)), u))
  unfolding checks
  checks-Returns fails t =
      let (a, t1, r1) = failing-Returns (query_supported >>= λ _. pure 0) t query_supported-Ends in
      let (b, t2, r2) = failing-Returns (why_halted >>= λ _. pure 0) t1 why_halted-Ends in
      let (c, t3, r3) = attach_failures-Returns s.host.is_windows (find_dolphin_pid s) t2 in
      (a + (b + c), close t3, rw r1 (rw r2 (rw r3 refl)))

  after_connect-Returns :
      (fails : ℕ) (r : Result (Unit {0}) × Stub)
      → (code : ℕ) × (u : Stub) × (after_connect s fails r ≡ (ok code, u))
        × (code ≡ 0 → (fails ≡ 0) × (r.0 ≡ ok tt))
  after_connect-Returns fails (ok _, t) =
      let (n, u, run) = checks-Returns fails t in
      (
        exit_code (fails + n),
        u,
        run,
        λ passed. let none_failed = exit_code-zero (fails + n) passed in (omega arith, refl),
      )
  after_connect-Returns fails (err e, t) = (1, t, refl, λ passed. absurd (omega arith))

  -- The doctor returns, against any peer, and its exit code is 0 only if every package that it looks
  -- for can be imported, Dolphin runs, and the stub accepts two connections one behind the other: the
  -- test of the port uses up the first one.
  pub doctor-Passes :
      (w : Wire)
      → (code : ℕ) × (t : Wire) × (doctor s w ≡ (ok code, t))
        × (code ≡ 0
            → (dependency_failures s ≡ 0)
              × (is_missing (find_dolphin_pid s) ≡ false)
              × ((take_fault w.dial_faults).0 ≡ false)
              × ((take_fault (take_fault w.dial_faults).1).0 ≡ false))
  unfolding doctor port_open init
  doctor-Passes w =
      let w' : Wire = record w { dial_faults = (take_fault w.dial_faults).1 } in
      let (code, u, run, pass) =
        after_connect-Returns (early_failures s) (connect (init 5_000_000 64 w')) in
      elim (Bool-cases (take_fault w.dial_faults).0) [
        | inl refused ↦ (1, w', rw refused refl, λ passed. absurd (omega arith))
        | inr accepted ↦ (
          code,
          u.wire,
          rw accepted (rw run refl),
          λ passed.
              let (none_failed, connected) = pass passed in
              let found = is_missing (find_dolphin_pid s) in
              (omega arith, one_if-zero found (omega arith), accepted, dialled w' connected),
        )
      ]

-- ===== src/Tools/Breakpoints/Registry.antt =====
-- What adding and removing does to the registry, whatever the stub does.
use dolphin_re_mcp.Prelude.{
  ℕ, ◌+◌, ◌≡◌, refl, ap, ◌∙◌, ◌⊎◌, inl, inr, Bool, true, false, Option, none, some, [], ◌∷◌, ◌++◌,
  ◌==◌, arith,
}
use dolphin_re_mcp.Prelude.Int.{ℤ, pos}
use dolphin_re_mcp.Prelude.Dict.{lookup, erase}
use dolphin_re_mcp.Prelude.Text.{Text, lower}
use dolphin_re_mcp.Errors.{Result, ok, err}
use dolphin_re_mcp.Exec.{Exec, ◌>>=◌, catch, pure}
use dolphin_re_mcp.Exec.Along.{Along, outcome-bind, outcome-catch, outcome-map}
use dolphin_re_mcp.Gdb.Stub.{Stub}
use dolphin_re_mcp.Gdb.Commands.{
  add_sw_breakpoint, add_write_watchpoint, add_read_watchpoint, add_access_watchpoint,
}
use dolphin_re_mcp.Session.{
  Session, BreakpointSpec, Kind, sw_bp, write_wp, read_wp, access_wp, Environment, ensure_connected,
  on_stub, unregister_bp, alloc_bp_id, register_bp,
}
use dolphin_re_mcp.Session.Registry.{
  SameRegistry, same_next, same_bind, on_stub-same, ensure_connected-same,
}
use dolphin_re_mcp.Session.WellFormed.{WellFormed, Lacking, Kept-Lacking, insert-Lacking}
use dolphin_re_mcp.Tools.Quiesce.{safe_to_modify}
use dolphin_re_mcp.Tools.Quiesce.Untouched.{safe_to_modify-same}
use dolphin_re_mcp.Tools.Breakpoints.{
  new_spec, enter, armed, add_breakpoint, arm, add_watchpoint, disarm, disarm_as, is_forgiven,
  removed_spec, remove,
}

-- The outcomes of adding, for an address and a size.
abbrev pub Added : ℤ → ℤ → Session → Result BreakpointSpec × Session → Type 0
Added addr size s (ok spec, t) =
    (spec ≡ new_spec s.next_id addr spec.kind size)
    × (t.breakpoints ≡ s.breakpoints ++ (s.next_id, spec) ∷ [])
    × Lacking s.next_id s.breakpoints
    × (t.next_id ≡ s.next_id + 1)
Added addr size s (err e, t) = SameRegistry s t

enter-Added :
    (addr size : ℤ) (kind : Kind) (s t : Session)
    → WellFormed s
    → SameRegistry s t
    → Added addr size s (enter addr size kind t)
unfolding enter alloc_bp_id register_bp
enter-Added addr size kind s t wf (same, next) =
    let fresh : Lacking s.next_id s.breakpoints =
      Kept-Lacking s.next_id s.next_id s.breakpoints (omega arith) wf in
    (
      rw next refl,
      rw (same, next)
          (insert-Lacking s.next_id (new_spec s.next_id addr kind size) s.breakpoints fresh),
      fresh,
      rw next refl,
    )

-- In a session whose registry is in good order, adding a breakpoint that returns puts it behind the
-- other entries under the id that was next, which no entry had, with the address and size 4, and
-- moves the next id on; one that raises leaves the entries and the next id as they were.
pub add_breakpoint-Added :
    (env : Environment) (addr : ℤ) (s : Session)
    → WellFormed s
    → Added addr (pos 4) s (add_breakpoint env addr s)
unfolding add_breakpoint
add_breakpoint-Added env addr s wf =
    let body = on_stub (add_sw_breakpoint addr) in
    outcome-bind (SameRegistry s) (Added addr (pos 4) s) (λ e t h. h) (ensure_connected env)
      (λ _. safe_to_modify body >>= λ _. enter addr (pos 4) sw_bp) s (ensure_connected-same env s)
      λ _ t h.
        outcome-bind (SameRegistry s) (Added addr (pos 4) s) (λ e u k. k) (safe_to_modify body)
          (λ _. enter addr (pos 4) sw_bp) t
          (same_next s t (safe_to_modify body t).1 h
            (safe_to_modify-same body (on_stub-same (add_sw_breakpoint addr)) t))
          λ _ u k. enter-Added addr (pos 4) sw_bp s u wf k

armed-same : (kind : Kind) (m : Exec Stub Text) → Along SameRegistry (armed kind m)
armed-same kind m s =
    same_bind (on_stub m) (λ _. pure kind) (on_stub-same m) (λ _ t. (refl, refl)) s

arm-same : (on : Text) (addr size : ℤ) → Along SameRegistry (arm on addr size)
unfolding arm
arm-same on addr size s = ground (
  arith,
  armed-same write_wp (add_write_watchpoint addr size) s,
  armed-same read_wp (add_read_watchpoint addr size) s,
  armed-same access_wp (add_access_watchpoint addr size) s,
)

-- In a session whose registry is in good order, adding a watchpoint that returns puts it behind the
-- other entries under the id that was next, which no entry had, with the address and size, and moves
-- the next id on; one that raises, also for a wrong kind, leaves the entries and the next id alone.
pub add_watchpoint-Added :
    (env : Environment) (addr size : ℤ) (on : Text) (s : Session)
    → WellFormed s
    → Added addr size s (add_watchpoint env addr size on s)
unfolding add_watchpoint
add_watchpoint-Added env addr size on s wf =
    let body = arm (lower on) addr size in
    outcome-bind (SameRegistry s) (Added addr size s) (λ e t h. h) (ensure_connected env)
      (λ _. safe_to_modify body >>= enter addr size) s (ensure_connected-same env s)
      λ _ t h.
        outcome-bind (SameRegistry s) (Added addr size s) (λ e u k. k) (safe_to_modify body)
          (enter addr size) t
          (same_next s t (safe_to_modify body t).1 h
            (safe_to_modify-same body (arm-same (lower on) addr size) t))
          λ kind u k. enter-Added addr size kind s u wf k

-- The registry without the id.
abbrev pub Erased : ℕ → Session → Session → Type 0
Erased bp_id s t = (t.breakpoints ≡ erase ◌==◌ bp_id s.breakpoints) × (t.next_id ≡ s.next_id)

abbrev pub is_there : Option BreakpointSpec → Bool
is_there none = false
is_there (some spec) = true

-- The outcomes of a removal.
abbrev pub Removed : ℕ → Session → Result Bool × Session → Type 0
Removed bp_id s (ok was_there, t) =
    Erased bp_id s t × (was_there ≡ is_there (lookup ◌==◌ bp_id s.breakpoints))
Removed bp_id s (err e, t) = SameRegistry s t ⊎ (Erased bp_id s t × (is_forgiven e ≡ false))

-- The part of a removal behind the registry.
abbrev Forgiven : ℕ → Session → Result (Unit {0}) × Session → Type 0
Forgiven bp_id s (ok _, t) = Erased bp_id s t
Forgiven bp_id s (err e, t) = Erased bp_id s t × (is_forgiven e ≡ false)

pub disarm-same : (spec : BreakpointSpec) → Along SameRegistry (disarm spec)
unfolding disarm
disarm-same spec = on_stub-same (disarm_as spec.kind spec.addr spec.size)

removed_spec-Removed :
    (bp_id : ℕ) (s t : Session) (o : Option BreakpointSpec)
    → o ≡ lookup ◌==◌ bp_id s.breakpoints
    → Erased bp_id s t
    → Removed bp_id s (removed_spec o t)
removed_spec-Removed bp_id s t none e h = (h, ap is_there e)
removed_spec-Removed bp_id s t (some spec) e h =
    let disarming = safe_to_modify (disarm spec) >>= λ _. pure tt in
    let same : SameRegistry t (disarming t).1 =
      same_bind (safe_to_modify (disarm spec)) (λ _. pure tt)
        (safe_to_modify-same (disarm spec) (disarm-same spec)) (λ _ u. (refl, refl)) t in
    outcome-map (Forgiven bp_id s) (Removed bp_id s) true (λ _ u k. (k, ap is_there e))
      (λ _ u k. inr k) (catch disarming is_forgiven (pure tt)) t
      (outcome-catch is_forgiven (Erased bp_id s) (Forgiven bp_id s) (λ _ u k. k)
        (λ x u not_forgiven k. (k, not_forgiven)) disarming tt t (same.0 ∙ h.0, same.1 ∙ h.1))

-- A removal that returns has taken the id out, and only that, and tells whether it was there. One
-- that raises has left the entries as they were, or has taken the id out and raises neither an error
-- of the stub's reply nor a time-out.
pub remove-Removed :
    (env : Environment) (bp_id : ℕ) (s : Session) → Removed bp_id s (remove env bp_id s)
unfolding remove unregister_bp
remove-Removed env bp_id s =
    outcome-bind (SameRegistry s) (Removed bp_id s) (λ e t h. inl h) (ensure_connected env)
      (λ _. unregister_bp bp_id >>= removed_spec) s (ensure_connected-same env s)
      λ _ t h.
        removed_spec-Removed bp_id s _ (lookup ◌==◌ bp_id t.breakpoints)
          (ap (lookup ◌==◌ bp_id) h.0) (ap (erase ◌==◌ bp_id) h.0, h.1)

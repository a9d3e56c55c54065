-- ===== src/Tools/Compound/Timeline.antt =====
-- The timeline of a trace of single steps.
use mathlib.Core.Option.{some-injective}
use dolphin_re_mcp.Prelude.{
  ℕ, zero, suc, ◌≡◌, refl, sym, ap, ◌∙◌, ◌↔◌, ◌⊎◌, inl, inr, Bool, true, false, Option, none, some,
  List, [], ◌∷◌, Bool-cases, arith, if◌then◌else◌,
}
use dolphin_re_mcp.Prelude.Int.{ℤ, pos, negsuc, pos_part, eqb_ℤ_iff}
use dolphin_re_mcp.Prelude.Text.{Text, codes, eq_text, eq_text_iff, mem_text, lower}
use dolphin_re_mcp.Errors.{Error, Result, ok, err, value_error}
use dolphin_re_mcp.Exec.{Exec, pure, raise, continue, catching, ◌>>=◌}
use dolphin_re_mcp.Exec.Along.{OnRun, OnRun-bind, OnRun-map, OnRun-trivial}
use dolphin_re_mcp.Symbols.{SymbolMap}
use dolphin_re_mcp.Disasm.Decode.{Capstone}
use dolphin_re_mcp.Session.{Session, Environment, is_exception}
use dolphin_re_mcp.Tools.Disasm.{Line}
use dolphin_re_mcp.Tools.Step.{Stepped, step}
use dolphin_re_mcp.Tools.Compound.{
  TraceEntry, is_return, is_target, stops, cons_entry, go_on, observe, record_entry, try_step,
  trace_loop, trace_steps, trace_until, or_gprs_only,
}

-- The line is a return.
abbrev pub IsReturn : Line → Type 0
IsReturn line =
    (lower line.instruction.mnemonic ≡ codes "blr")
    ⊎ (lower line.instruction.mnemonic ≡ codes "bctr")

-- The pc that was asked for, or a return if it was asked for.
abbrev pub Meets : Option ℤ → Bool → TraceEntry → Type 0
Meets until_pc until_blr e =
    (until_pc ≡ some (pos e.seen.at))
    ⊎ ((until_blr ≡ true) × (line : Line) × (e.seen.instruction ≡ some line) × IsReturn line)

-- The state is the one that a call of `step` left when it raised.
abbrev pub StepFailed : Exec Session Stepped → Session → Type 0
StepFailed stepping u = (t : Session) × (e : Error) × (stepping t ≡ (err e, u))

module _ (F : Type 0) (M : TraceEntry → Type 0) where
  -- With `n` entries to go, numbered from `i` on: there are `n`, but that one in `M` is the last,
  -- and that where `F` holds any may be the last.
  abbrev pub Timeline : ℕ → ℕ → List TraceEntry → Type 0
  Timeline i zero [] = Unit
  Timeline i (suc n) [] = ⊥
  Timeline i zero (e ∷ es) = ⊥
  Timeline i (suc n) (e ∷ es) =
      (e.step_number ≡ i)
      × ((M e × (es ≡ [])) ⊎ (¬ M e × ((F × (es ≡ [])) ⊎ Timeline (suc i) n es)))

abbrev Numbered : ℕ → TraceEntry → Session → Type 0
Numbered i e t = e.step_number ≡ i

is_return_sound :
    (o : Option Line) → is_return o ≡ true → (line : Line) × (o ≡ some line) × IsReturn line
unfolding mem_text
is_return_sound none h = ground arith
is_return_sound (some line) h =
    let name = lower line.instruction.mnemonic in
    elim (Bool-cases (eq_text name (codes "blr"))) [
      | inl b ↦ (line, refl, inl ((eq_text_iff name (codes "blr")).0 b))
      | inr b ↦
          let other : eq_text name (codes "bctr") ≡ true = ground (arith, h, b) in
          (line, refl, inr ((eq_text_iff name (codes "bctr")).0 other))
    ]

is_return_complete : (line : Line) → IsReturn line → is_return (some line) ≡ true
unfolding mem_text
is_return_complete line (inl e) =
    let same = (eq_text_iff (lower line.instruction.mnemonic) (codes "blr")).1 e in
    ground (arith, same)
is_return_complete line (inr e) =
    let same = (eq_text_iff (lower line.instruction.mnemonic) (codes "bctr")).1 e in
    ground (arith, same)

is_target_iff :
    (until_pc : Option ℤ) (at : ℕ) → (is_target until_pc at ≡ true) ↔ (until_pc ≡ some (pos at))
is_target_iff none at = ((λ h. ground arith), (λ h. ground arith))
is_target_iff (some a) at = (
  (λ h. ap some (sym ((eqb_ℤ_iff (pos at) a).0 h))),
  (λ h. (eqb_ℤ_iff (pos at) a).1 (sym (some-injective a (pos at) h))),
)

-- The test of the code is the condition.
stops_sound :
    (until_pc : Option ℤ) (until_blr : Bool) (e : TraceEntry)
    → stops until_pc until_blr e ≡ true
    → Meets until_pc until_blr e
unfolding stops
stops_sound until_pc until_blr e h = elim (Bool-cases (is_target until_pc e.seen.at)) [
  | inl b ↦ inl ((is_target_iff until_pc e.seen.at).0 b)
  | inr b ↦
      let asked : until_blr ≡ true = ground (arith, h, b) in
      let returns : is_return e.seen.instruction ≡ true = ground (arith, h, b) in
      let (line, is_line, how) = is_return_sound e.seen.instruction returns in
      inr (asked, line, is_line, how)
]

stops_complete :
    (until_pc : Option ℤ) (until_blr : Bool) (e : TraceEntry)
    → stops until_pc until_blr e ≡ false
    → ¬ Meets until_pc until_blr e
unfolding stops
stops_complete until_pc until_blr e h (inl at) =
    let hit : is_target until_pc e.seen.at ≡ true = (is_target_iff until_pc e.seen.at).1 at in
    ground (arith, h, hit)
stops_complete until_pc until_blr e h (inr (asked, line, is_line, returns)) =
    let hit : is_return e.seen.instruction ≡ true =
      ap is_return is_line ∙ is_return_complete line returns in
    ground (arith, h, hit, asked)

module _ (cs : Capstone) (symbols : SymbolMap) (env : Environment) where
  abbrev Worked : Bool → Session → Type 0
  Worked true u = Unit
  Worked false u = StepFailed (step cs symbols env) u

  Worked-at :
      (t : Session) (r : Result Stepped × Session)
      → step cs symbols env t ≡ r
      → OnRun Worked (catching is_exception (continue r.0 (λ _. pure true) r.1) (pure false))
  Worked-at t (ok a, u) h = tt
  Worked-at t (err e, u) h = elim (Bool-cases (is_exception e)) [
    | inl b ↦ rw b (t, e, h)
    | inr b ↦ rw b tt
  ]

  try_step-Worked : (t : Session) → OnRun Worked (try_step cs symbols env t)
  unfolding try_step
  try_step-Worked t = Worked-at t (step cs symbols env t) refl

module _ (cs : Capstone) (symbols : SymbolMap) (env : Environment) (until_pc : Option ℤ)
    (until_blr : Bool) where
  -- The entries of a trace, by the state behind it.
  abbrev pub Trace : ℕ → ℕ → List TraceEntry → Session → Type 0
  Trace i n es u = Timeline (StepFailed (step cs symbols env) u) (Meets until_pc until_blr) i n es

  -- What follows an entry that does not stop the trace.
  abbrev Goes : ℕ → ℕ → List TraceEntry → Session → Type 0
  Goes i n es u = (StepFailed (step cs symbols env) u × (es ≡ [])) ⊎ Trace i n es u

  cons-Timeline :
      (i n : ℕ) (e : TraceEntry) (m : Exec Session (List TraceEntry)) (s : Session)
      → e.step_number ≡ i
      → stops until_pc until_blr e ≡ false
      → OnRun (Goes (suc i) n) (m s)
      → OnRun (Trace i (suc n)) (cons_entry e m s)
  cons-Timeline i n e m s own goes_on h =
      OnRun-bind (Goes (suc i) n) (Trace i (suc n)) m (λ es. pure (e ∷ es)) s h
        λ es t rest. (own, inr (stops_complete until_pc until_blr e goes_on, rest))

  go_on-Timeline :
      (i n : ℕ) (b : Bool) (rest : Exec Session (List TraceEntry)) (s : Session)
      → Worked cs symbols env b s
      → OnRun (Trace i n) (rest s)
      → OnRun (Goes i n) (go_on b rest s)
  go_on-Timeline i n true rest s worked h =
      OnRun-map (Trace i n) (Goes i n) (rest s) h (λ es t k. inr k)
  go_on-Timeline i n false rest s failed h = inl (failed, refl)

  module _ (caps : List Text) where
    record_entry-Numbered :
        (i : ℕ) (s : Session) → OnRun (Numbered i) (record_entry cs symbols env caps i s)
    record_entry-Numbered i s =
        OnRun-bind (λ o t. Unit) (Numbered i) (observe cs symbols env caps)
          (λ o. pure (record { step_number = i; seen = o })) s
          (OnRun-trivial (observe cs symbols env caps s)) λ o t _. refl

    trace_loop-Timeline :
        (n i : ℕ) (s : Session)
        → OnRun (Trace i n) (trace_loop cs symbols env until_pc until_blr caps n i s)
    unfolding trace_loop
    trace_loop-Timeline zero i s = tt
    trace_loop-Timeline (suc n) i s =
        let rest = trace_loop cs symbols env until_pc until_blr caps n (suc i) in
        let stepping = try_step cs symbols env >>= λ worked. go_on worked rest in
        OnRun-bind (Numbered i) (Trace i (suc n)) (record_entry cs symbols env caps i)
          (λ e. if stops until_pc until_blr e then pure (e ∷ []) else cons_entry e stepping) s
          (record_entry-Numbered i s)
          λ e t own. elim (Bool-cases (stops until_pc until_blr e)) [
            | inl ends ↦ rw ends (own, inl (stops_sound until_pc until_blr e ends, refl))
            | inr goes_on ↦ rw goes_on (
                cons-Timeline i n e stepping t own goes_on (
                  OnRun-bind (Worked cs symbols env) (Goes (suc i) n) (try_step cs symbols env)
                    (λ worked. go_on worked rest) t (try_step-Worked cs symbols env t)
                    λ worked u h.
                      go_on-Timeline (suc i) n worked rest u h (trace_loop-Timeline n (suc i) u)))
          ]

    trace_steps-Timeline :
        (max_steps : ℤ) (s : Session)
        → OnRun
            (Trace 0 (pos_part max_steps))
            (trace_steps cs symbols env until_pc until_blr max_steps caps s)
    trace_steps-Timeline (negsuc n) s = tt
    trace_steps-Timeline (pos n) s = trace_loop-Timeline n 0 s

OnRun-guard :
    {A : Type 0} (P : A → Session → Type 0) (b : Bool) (m : Exec Session A) (s : Session)
    → OnRun P (m s)
    → OnRun P ((if b then raise value_error else m) s)
OnRun-guard P true m s h = tt
OnRun-guard P false m s h = h

-- A trace of steps that returns has as many entries as the limit, numbered from 0 on, and none if
-- the limit is not positive, with two exceptions. An entry at the pc that was asked for, or at a
-- `blr` or `bctr` if returns were asked for, is the last. And where the state behind the trace is the
-- one that a call of `step` left when it raised, the trace may end with any entry.
pub trace_until-Timeline :
    (cs : Capstone) (symbols : SymbolMap) (env : Environment) (until_pc : Option ℤ)
    (until_blr : Bool) (max_steps : ℤ) (capture : List Text) (s : Session)
    → OnRun
        (Trace cs symbols env until_pc until_blr 0 (pos_part max_steps))
        (trace_until cs symbols env until_pc until_blr max_steps capture s)
unfolding trace_until
trace_until-Timeline cs symbols env until_pc until_blr max_steps capture s =
    OnRun-guard (Trace cs symbols env until_pc until_blr 0 (pos_part max_steps)) _
      (trace_steps cs symbols env until_pc until_blr max_steps (or_gprs_only capture)) s
      (trace_steps-Timeline cs symbols env until_pc until_blr (or_gprs_only capture) max_steps s)

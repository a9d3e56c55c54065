-- ===== src/Tools/Matching/Rules.antt =====
-- The rules that attribute a stop to a breakpoint, and that the tests of the code decide them.
use mathlib.Core.Option.{some-injective}
use mathlib.Core.Path.{subst}
use dolphin_re_mcp.Prelude.{
  ◌≡◌, refl, ap, sym, ◌∙◌, ◌⊎◌, ◌↔◌, inl, inr, Bool, true, false, ◌&&◌, Option, none, some, arith,
  Bool-cases,
}
use dolphin_re_mcp.Prelude.Int.{ℤ, eqb_ℤ, eqb_ℤ_iff}
use dolphin_re_mcp.Prelude.Text.{Text, codes, eq_text, eq_text_iff}
use dolphin_re_mcp.Gdb.StopReply.{StopReply, pc}
use dolphin_re_mcp.Session.{BreakpointSpec, Kind, sw_bp, hw_bp, write_wp, read_wp, access_wp}
use dolphin_re_mcp.Tools.Matching.{
  is_breakpoint, is_watchpoint, eq_kind, kind_filter, passes, watches, breaks_at,
}

-- The kind of access that a reply names, if it names one of the three, is the watchpoint's.
abbrev pub KindFits : Option Text → Kind → Type 0
KindFits named kind =
    (named ≡ some (codes "watch") → kind ≡ write_wp)
    × (named ≡ some (codes "rwatch") → kind ≡ read_wp)
    × (named ≡ some (codes "awatch") → kind ≡ access_wp)

-- The reply names the address of the entry, and no other kind of access.
abbrev pub Annotated : StopReply → BreakpointSpec → Type 0
Annotated parsed x = (parsed.watch_addr ≡ some x.addr) × KindFits parsed.watch_kind x.kind

-- The target stands at the breakpoint.
abbrev pub AtPc : StopReply → BreakpointSpec → Type 0
AtPc parsed x = (pc parsed ≡ some x.addr) × ((x.kind ≡ sw_bp) ⊎ (x.kind ≡ hw_bp))

abbrev pub IsWatchpoint : BreakpointSpec → Type 0
IsWatchpoint x = (x.kind ≡ write_wp) ⊎ (x.kind ≡ read_wp) ⊎ (x.kind ≡ access_wp)

-- A test that decides a property.
abbrev pub Decides : (BreakpointSpec → Bool) → (BreakpointSpec → Type 0) → Type 0
Decides test P = (x : BreakpointSpec) → (test x ≡ true) ↔ P x

eq_kind_iff : (k l : Kind) → (eq_kind k l ≡ true) ↔ (k ≡ l)
eq_kind_iff k l = ground arith

-- What the test of the code says of a kind that the reply names.
abbrev Passing : Option Text → Kind → Type 0
Passing named kind = (passes (kind_filter named) kind ≡ true) ↔ KindFits named kind

passes_watch : (kind : Kind) → Passing (some (codes "watch")) kind
unfolding kind_filter eq_text
passes_watch kind = (
  (λ h. ((λ e. (eq_kind_iff kind write_wp).0 h), (λ e. cc), (λ e. cc))),
  (λ f. (eq_kind_iff kind write_wp).1 (f.0 refl)),
)

passes_rwatch : (kind : Kind) → Passing (some (codes "rwatch")) kind
unfolding kind_filter eq_text
passes_rwatch kind = (
  (λ h. ((λ e. cc), (λ e. (eq_kind_iff kind read_wp).0 h), (λ e. cc))),
  (λ f. (eq_kind_iff kind read_wp).1 (f.1 refl)),
)

passes_awatch : (kind : Kind) → Passing (some (codes "awatch")) kind
unfolding kind_filter eq_text
passes_awatch kind = (
  (λ h. ((λ e. cc), (λ e. cc), (λ e. (eq_kind_iff kind access_wp).0 h))),
  (λ f. (eq_kind_iff kind access_wp).1 (f.2 refl)),
)

passes_other :
    (k : Text) (kind : Kind)
    → eq_text k (codes "watch") ≡ false
    → eq_text k (codes "rwatch") ≡ false
    → eq_text k (codes "awatch") ≡ false
    → Passing (some k) kind
unfolding kind_filter
passes_other k kind a b c =
    let apart : (t : Text) → eq_text k t ≡ false → ¬ (some k ≡ some t) = λ t differ e.
      let same : eq_text k t ≡ true = (eq_text_iff k t).1 (some-injective k t e) in
      ground (arith, same, differ) in
    (
      (λ h. (
        (λ e. absurd (apart (codes "watch") a e)),
        (λ e. absurd (apart (codes "rwatch") b e)),
        (λ e. absurd (apart (codes "awatch") c e)),
      )),
      (λ f. rw (a, b, c) refl),
    )

passes_iff : (named : Option Text) (kind : Kind) → Passing named kind
unfolding kind_filter
passes_iff none kind = ((λ h. ((λ e. cc), (λ e. cc), (λ e. cc))), (λ h. refl))
passes_iff (some k) kind = elim (Bool-cases (eq_text k (codes "watch"))) [
  | inl a ↦
      let same : k ≡ codes "watch" = (eq_text_iff k (codes "watch")).0 a in
      subst (λ (t : Text). Passing (some t) kind) (sym same) (passes_watch kind)
  | inr a ↦ elim (Bool-cases (eq_text k (codes "rwatch"))) [
    | inl b ↦
        let same : k ≡ codes "rwatch" = (eq_text_iff k (codes "rwatch")).0 b in
        subst (λ (t : Text). Passing (some t) kind) (sym same) (passes_rwatch kind)
    | inr b ↦ elim (Bool-cases (eq_text k (codes "awatch"))) [
      | inl c ↦
          let same : k ≡ codes "awatch" = (eq_text_iff k (codes "awatch")).0 c in
          subst (λ (t : Text). Passing (some t) kind) (sym same) (passes_awatch kind)
      | inr c ↦ passes_other k kind a b c
    ]
  ]
]

at_addr :
    (o : Option ℤ) (addr : ℤ) (x : BreakpointSpec)
    → o ≡ some addr
    → (eqb_ℤ x.addr addr ≡ true) ↔ (o ≡ some x.addr)
at_addr o addr x is = (
  (λ h. is ∙ ap some (sym ((eqb_ℤ_iff x.addr addr).0 h))),
  (λ h. (eqb_ℤ_iff x.addr addr).1 (some-injective x.addr addr (sym h ∙ is))),
)

both_iff : (a b : Bool) → (a && b ≡ true) ↔ ((a ≡ true) × (b ≡ true))
both_iff a b = ground arith

is_breakpoint_iff : (k : Kind) → (is_breakpoint k ≡ true) ↔ ((k ≡ sw_bp) ⊎ (k ≡ hw_bp))
is_breakpoint_iff k = ground arith

pub watches-Decides :
    (parsed : StopReply) (addr : ℤ)
    → parsed.watch_addr ≡ some addr
    → Decides (watches addr (kind_filter parsed.watch_kind)) (Annotated parsed)
watches-Decides parsed addr is x =
    let both = both_iff (eqb_ℤ x.addr addr) (passes (kind_filter parsed.watch_kind) x.kind) in
    let here = at_addr parsed.watch_addr addr x is in
    let fits = passes_iff parsed.watch_kind x.kind in
    ((λ h. (here.0 (both.0 h).0, fits.0 (both.0 h).1)), (λ h. both.1 (here.1 h.0, fits.1 h.1)))

pub breaks-Decides :
    (parsed : StopReply) (at : ℤ) → pc parsed ≡ some at → Decides (breaks_at at) (AtPc parsed)
breaks-Decides parsed at is x =
    let both = both_iff (is_breakpoint x.kind) (eqb_ℤ x.addr at) in
    let here = at_addr (pc parsed) at x is in
    let kinds = is_breakpoint_iff x.kind in
    ((λ h. (here.0 (both.0 h).1, kinds.0 (both.0 h).0)), (λ h. both.1 (kinds.1 h.1, here.1 h.0)))

pub is_watchpoint_iff : (x : BreakpointSpec) → (is_watchpoint x.kind ≡ true) ↔ IsWatchpoint x
is_watchpoint_iff x = ground arith

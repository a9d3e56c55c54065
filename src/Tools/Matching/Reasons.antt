-- ===== src/Tools/Matching/Reasons.antt =====
-- Why `_match_bp` gives the id that it gives.
use dolphin_re_mcp.Prelude.{ℕ, ◌≡◌, ◌⊎◌, Bool, Option, none, some, List, ◌==◌, All}
use dolphin_re_mcp.Prelude.Dict.{lookup, values}
use dolphin_re_mcp.Gdb.StopReply.{StopReply}
use dolphin_re_mcp.Session.{BreakpointSpec}
use dolphin_re_mcp.Session.WellFormed.{Breakpoints}
use dolphin_re_mcp.Tools.Matching.{is_watchpoint}
use dolphin_re_mcp.Tools.Matching.Rules.{Annotated, AtPc, IsWatchpoint}

abbrev pub Specs : Type 0
Specs = List BreakpointSpec

-- A breakpoint that the registry holds under its own id.
abbrev pub Held : Breakpoints → BreakpointSpec → Type 0
Held d x = lookup ◌==◌ x.bp_id d ≡ some x

-- The only watchpoint there is.
abbrev pub Lone : Specs → BreakpointSpec → Type 0
Lone specs x = IsWatchpoint x × All (λ y. IsWatchpoint y → y ≡ x) specs

abbrev pub NoneIs : (BreakpointSpec → Type 0) → Specs → Type 0
NoneIs P specs = All (λ y. ¬ P y) specs

-- The reasons, in their order: a later one counts only if no entry has an earlier one.
abbrev pub Reason : StopReply → Specs → BreakpointSpec → Type 0
Reason parsed specs x =
    Annotated parsed x
    ⊎ (NoneIs (Annotated parsed) specs
        × (AtPc parsed x ⊎ (NoneIs (AtPc parsed) specs × Lone specs x)))

-- What the answer says: an entry that there is a reason for, or that no entry is named or stood at.
abbrev pub Explains : StopReply → Breakpoints → Option ℕ → Type 0
Explains parsed d none = NoneIs (Annotated parsed) (values d) × NoneIs (AtPc parsed) (values d)
Explains parsed d (some i) =
    (x : BreakpointSpec) × (lookup ◌==◌ i d ≡ some x) × Reason parsed (values d) x

-- What a reason by a test tells of the entry it finds, or else of all.
abbrev Finds : (BreakpointSpec → Type 0) → Breakpoints → Option BreakpointSpec → Type 0
Finds P d none = NoneIs P (values d)
Finds P d (some x) = Held d x × P x

abbrev watching : BreakpointSpec → Bool
watching x = is_watchpoint x.kind

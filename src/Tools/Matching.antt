-- ===== src/Tools/Matching.antt =====
-- tools/breakpoint_tools.py: `_match_bp`, which says whose stop a stop reply is.
pub mod Rules
pub mod Reasons
use dolphin_re_mcp.Prelude.{
  ℕ, Bool, true, false, ◌&&◌, Option, none, some, List, [], ◌∷◌, if◌then◌else◌, keep, find,
}
use dolphin_re_mcp.Prelude.Int.{ℤ, eqb_ℤ}
use dolphin_re_mcp.Prelude.Dict.{Dict, values}
use dolphin_re_mcp.Prelude.Text.{Text, codes, eq_text}
use dolphin_re_mcp.Gdb.StopReply.{StopReply, pc}
use dolphin_re_mcp.Session.{BreakpointSpec, Kind, sw_bp, hw_bp, write_wp, read_wp, access_wp}

-- `spec.kind in ("sw_bp", "hw_bp")`
abbrev pub is_breakpoint : Kind → Bool
is_breakpoint sw_bp = true
is_breakpoint hw_bp = true
is_breakpoint _ = false

-- `spec.kind in ("write_wp", "read_wp", "access_wp")`
abbrev pub is_watchpoint : Kind → Bool
is_watchpoint sw_bp = false
is_watchpoint hw_bp = false
is_watchpoint _ = true

abbrev pub eq_kind : Kind → Kind → Bool
eq_kind sw_bp sw_bp = true
eq_kind hw_bp hw_bp = true
eq_kind write_wp write_wp = true
eq_kind read_wp read_wp = true
eq_kind access_wp access_wp = true
eq_kind _ _ = false

-- `{"watch": "write_wp", …}.get(parsed.watch_kind or "")`
unfoldable pub kind_filter : Option Text → Option Kind
kind_filter none = none
kind_filter (some k) =
    if eq_text k (codes "watch")
    then some write_wp
    else if eq_text k (codes "rwatch")
    then some read_wp
    else if eq_text k (codes "awatch")
    then some access_wp
    else none

abbrev pub passes : Option Kind → Kind → Bool
passes none kind = true
passes (some k) kind = eq_kind kind k

abbrev pub watches : ℤ → Option Kind → BreakpointSpec → Bool
watches addr filter spec = eqb_ℤ spec.addr addr && passes filter spec.kind

abbrev pub breaks_at : ℤ → BreakpointSpec → Bool
breaks_at pc spec = is_breakpoint spec.kind && eqb_ℤ spec.addr pc

abbrev pub by_annotation : Option ℤ → Option Text → List BreakpointSpec → Option BreakpointSpec
by_annotation none kind specs = none
by_annotation (some addr) kind specs = find (watches addr (kind_filter kind)) specs

abbrev pub by_pc : Option ℤ → List BreakpointSpec → Option BreakpointSpec
by_pc none specs = none
by_pc (some pc) specs = find (breaks_at pc) specs

abbrev pub only : List BreakpointSpec → Option BreakpointSpec
only (spec ∷ []) = some spec
only _ = none

abbrev pub lone_watchpoint : List BreakpointSpec → Option BreakpointSpec
lone_watchpoint specs = only (keep (λ (spec : BreakpointSpec). is_watchpoint spec.kind) specs)

abbrev pub first_of : Option BreakpointSpec → Option BreakpointSpec → Option BreakpointSpec
first_of (some spec) other = some spec
first_of none other = other

abbrev pub id_of : Option BreakpointSpec → Option ℕ
id_of none = none
id_of (some spec) = some spec.bp_id

unfoldable pub matching_spec : StopReply → List BreakpointSpec → Option BreakpointSpec
matching_spec parsed specs =
    first_of (by_annotation parsed.watch_addr parsed.watch_kind specs)
      (first_of (by_pc (pc parsed) specs) (lone_watchpoint specs))

-- `_match_bp(parsed, session)`
unfoldable pub match_bp : StopReply → Dict ℕ BreakpointSpec → Option ℕ
match_bp parsed breakpoints = id_of (matching_spec parsed (values breakpoints))

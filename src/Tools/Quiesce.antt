-- ===== src/Tools/Quiesce.antt =====
-- tools/breakpoint_tools.py: `_quiesce_for_modify` and `_safe_to_modify`.
pub mod Untouched
pub mod Resumes
pub mod Ends
pub mod Sent
pub mod Around
use dolphin_re_mcp.Prelude.{
  ℕ, zero, suc, ◌+◌, Bool, true, false, not, ◌||◌, none, some, Option, ltb, if◌then◌else◌, is_empty,
}
use dolphin_re_mcp.Prelude.Text.{Text, codes, starts_with}
use dolphin_re_mcp.Errors.{Result, ok, err, out_of_fuel, stub_wedged}
use dolphin_re_mcp.Exec.{Exec, pure, raise, modify, catch, finally, ◌>>=◌, ◌>>◌}
use dolphin_re_mcp.Gdb.Stub.{Stub, recv, monotonic}
use dolphin_re_mcp.Gdb.Packets.{read_packet_from_wire}
use dolphin_re_mcp.Gdb.Acks.{send_packet}
use dolphin_re_mcp.Gdb.Commands.{probe_responsive}
use dolphin_re_mcp.Gdb.Execution.{continue_async, wait_for_stop, interrupt, drain_stop_replies}
use dolphin_re_mcp.Session.{
  Session, SessionState, connected_running, error, with_state, on_stub, is_exception, mark_running,
  mark_paused,
}

-- `try: m except Exception: log`
abbrev pub attempt {ℓ} : {S : Type ℓ} → Exec S Unit → Exec S Unit
attempt m = catch m is_exception (pure tt)

-- Both loops last a second; each round reads the clock, which moves on by a tick at least.
abbrev pub budget : ℕ
budget = 1_000_000

-- Whether a stop reply came: `try: stub.wait_for_stop(timeout=0.1)`.
unfoldable pub stop_came : Exec Stub Bool
stop_came = catch (wait_for_stop (some 100_000) >>= λ _. pure true) is_exception (pure false)

-- Where the first loop goes after a wait.
abbrev pub after_wait : Bool → Exec Stub Unit → Exec Stub Unit → Bool → Exec Stub Unit
after_wait saw_one seen unseen true = seen
after_wait true seen unseen false = pure tt
after_wait false seen unseen false = unseen

abbrev pub while_early : Bool → Exec Stub Unit → Exec Stub Unit
while_early true round = round
while_early false round = pure tt

-- `while time.monotonic() < deadline` of step 2.
unfoldable pub await_stops : ℕ → ℕ → Bool → Exec Stub Unit
await_stops zero deadline saw_one s = (err out_of_fuel, s)
await_stops (suc fuel) deadline saw_one s =
    (monotonic >>= λ now. while_early (ltb now deadline) (
        stop_came
        >>= after_wait saw_one (await_stops fuel deadline true) (await_stops fuel deadline false)))
      s

-- `pkt.startswith("QC") or pkt == "" or pkt.startswith("E")`
unfoldable pub is_fence : Text → Bool
is_fence pkt = starts_with pkt (codes "QC") || (is_empty pkt || starts_with pkt (codes "E"))

-- Whether the answer to `qC` came.
unfoldable pub fence_came : Exec Stub Bool
fence_came =
    catch (read_packet_from_wire (some 200_000) recv >>= λ pkt. pure (is_fence pkt)) is_exception
      (pure false)

abbrev pub unless_done : Exec Stub Unit → Bool → Exec Stub Unit
unless_done next true = pure tt
unless_done next false = next

-- `while time.monotonic() < deadline` of step 4.
unfoldable pub await_fence : ℕ → ℕ → Exec Stub Unit
await_fence zero deadline s = (err out_of_fuel, s)
await_fence (suc fuel) deadline s =
    (monotonic >>= λ now.
    while_early (ltb now deadline) (fence_came >>= unless_done (await_fence fuel deadline)))
      s

unfoldable pub fence : Exec Stub Unit
fence = do send_packet (codes "qC"); now ← monotonic; await_fence (suc budget) (now + budget)

-- `_quiesce_for_modify`, as far as it talks to the stub.
unfoldable pub quiesce_stub : Exec Stub Unit
quiesce_stub = do
  attempt interrupt
  now ← monotonic
  await_stops (suc budget) (now + budget) false
  drain_stop_replies 50_000
  attempt fence

-- `_quiesce_for_modify(session)`
unfoldable pub quiesce_for_modify : Exec Session Unit
quiesce_for_modify = do on_stub quiesce_stub; modify mark_paused

unfoldable pub wedged : {A : Type 0} → Exec Session A
wedged s = (err stub_wedged, with_state error s)

-- What `_safe_to_modify` does before the body, on a target that runs.
abbrev pub unless_wedged : Bool → Exec Session Unit
unless_wedged false = wedged
unless_wedged true = do quiesce_for_modify; on_stub (drain_stop_replies 100_000); modify mark_paused

unfoldable pub pause_for_modify : Exec Session Unit
pause_for_modify = on_stub (probe_responsive 500_000) >>= unless_wedged

-- What it does after the body.
unfoldable pub resume_after_modify : Exec Session Unit
resume_after_modify = do
  on_stub (drain_stop_replies 50_000)
  on_stub continue_async
  modify mark_running

abbrev pub is_running : SessionState → Bool
is_running connected_running = true
is_running _ = false

abbrev pub modify_when : {A : Type 0} → Bool → Exec Session A → Exec Session A
modify_when true body = pause_for_modify >>= λ _. finally body resume_after_modify
modify_when false body = body

-- `with _safe_to_modify(session): body`
unfoldable pub safe_to_modify : {A : Type 0} → Exec Session A → Exec Session A
safe_to_modify body s = modify_when (is_running s.state) body s

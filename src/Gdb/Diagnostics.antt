-- ===== src/Gdb/Diagnostics.antt =====
-- gdb/client.py: `record_note` and `diag_snapshot`. Times are in microseconds and are not rounded.
use dolphin_re_mcp.Prelude.{
  ℕ, ◌+◌, ◌-◌, Option, none, some, List, [], ◌∷◌, map, leb, if◌then◌else◌, length, take, drop,
}
use dolphin_re_mcp.Prelude.Int.{ℤ, pos, ◌-ℤ◌}
use dolphin_re_mcp.Prelude.Text.{Text}
use dolphin_re_mcp.Exec.{Exec, pure, ◌>>=◌}
use dolphin_re_mcp.Gdb.Stub.{Stub, Direction, note, PacketRecord, append_bounded, monotonic}

unfoldable pub record_note : Text → Stub → Stub
record_note text s =
    let now = s.wire.clock in
    record s {
      wire = record s.wire { clock = now + 1 };
      diag =
          append_bounded s.diag_buf_size s.diag
            (record { ts = now; direction = note; payload = text; latency = 0 });
    }

-- An event of a snapshot, `rel` behind now.
pub record DiagEvent : Type 0 where
  pub rel : ℤ
  pub dir : Direction
  pub text : Text
  pub latency_of : ℕ

-- `items[-last_n:]`
abbrev pub last_items : Option ℕ → List PacketRecord → List PacketRecord
last_items none items = items
last_items (some last_n) items = if leb 1 last_n then drop (length items - last_n) items else items

abbrev pub event_of : ℕ → PacketRecord → DiagEvent
event_of now rec = record {
  rel = pos rec.ts -ℤ pos now;
  dir = rec.direction;
  text = take 200 rec.payload;
  latency_of = rec.latency;
}

-- No event, no reading of the clock.
abbrev pub events_of : List PacketRecord → Exec Stub (List DiagEvent)
events_of [] = pure []
events_of (rec ∷ recs) = monotonic >>= λ now. pure (map (event_of now) (rec ∷ recs))

-- `diag_snapshot(last_n)`, for a number that is not negative.
unfoldable pub diag_snapshot : Option ℕ → Exec Stub (List DiagEvent)
diag_snapshot last_n s = events_of (last_items last_n s.diag) s

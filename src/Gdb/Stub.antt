-- ===== src/Gdb/Stub.antt =====
-- gdb/client.py: the state of `GDBStub`, its lifecycle and its diagnostic ring buffer.
use dolphin_re_mcp.Prelude.{
  ℕ, ◌+◌, ◌-◌, Bool, false, Option, none, some, List, [], ◌∷◌, ◌++◌, if◌then◌else◌, length, drop,
}
use dolphin_re_mcp.Prelude.Text.{Text, Bytes}
use dolphin_re_mcp.Errors.{ok, err, os_error}
use dolphin_re_mcp.Exec.{Exec}
use dolphin_re_mcp.Gdb.Socket.{Wire, weight}

pub data Direction : Type 0 where
  sent recv oob note : Direction

-- `ts` and `latency` are in microseconds.
pub record PacketRecord : Type 0 where
  pub ts : ℕ
  pub direction : Direction
  pub payload : Text
  pub latency : ℕ

pub record Stub : Type 0 where
  -- `self.sock`: the timeout of the open socket, or none.
  pub sock : Option ℕ
  pub default_timeout : ℕ
  pub recv_buf : Bytes
  pub pending_replies : List Text
  pub diag : List PacketRecord
  pub diag_buf_size : ℕ
  pub last_send_ts : Option ℕ
  pub last_send_payload : Option Text
  pub wire : Wire

-- What the buffer and the script still hold: no loop makes more rounds.
abbrev pub unread : Stub → ℕ
unread s = length s.recv_buf + weight s.wire.incoming

-- `GDBStub(timeout=…, diag_buf_size=…)`, over a socket layer that is given.
unfoldable pub init : ℕ → ℕ → Wire → Stub
init timeout diag_buf_size wire = record {
  sock = none;
  default_timeout = timeout;
  recv_buf = [];
  pending_replies = [];
  diag = [];
  diag_buf_size = diag_buf_size;
  last_send_ts = none;
  last_send_payload = none;
  wire = wire;
}

-- Lifecycle

unfoldable pub take_fault : List Bool → Bool × List Bool
take_fault [] = (false, [])
take_fault (b ∷ bs) = (b, bs)

unfoldable pub connect : Exec Stub Unit
unfolding take_fault
connect s = elim s.sock [
  | some _ ↦ (ok tt, s)
  | none ↦
      let (fault, rest) = take_fault s.wire.dial_faults in
      let s' = record s { wire = record s.wire { dial_faults = rest } } in
      if fault
      then (err os_error, s')
      else (ok tt, record s' { sock = some s.default_timeout; recv_buf = [] })
]

unfoldable pub close : Stub → Stub
close s = elim s.sock [ none ↦ s | some _ ↦ record s { sock = none; recv_buf = [] } ]

-- The clock: each reading is one tick later than the one before.
unfoldable pub monotonic : Exec Stub ℕ
monotonic s = (ok s.wire.clock, record s { wire = record s.wire { clock = s.wire.clock + 1 } })

-- Diagnostics

-- `deque(maxlen=n).append`
unfoldable pub append_bounded {ℓ} : {A : Type ℓ} → ℕ → List A → A → List A
append_bounded n xs x = let ys = xs ++ x ∷ [] in drop (length ys - n) ys

unfoldable pub record_send : Text → Stub → Stub
unfolding append_bounded
record_send payload s =
    let now = s.wire.clock in
    record s {
      wire = record s.wire { clock = now + 1 };
      diag =
          append_bounded s.diag_buf_size s.diag
            (record { ts = now; direction = sent; payload = payload; latency = 0 });
      last_send_ts = some now;
      last_send_payload = some payload;
    }

latency_since : Direction → ℕ → Option ℕ → ℕ
latency_since recv now (some ts) = now - ts
latency_since _ now _ = 0

unfoldable pub record_recv : Text → Direction → Stub → Stub
unfolding append_bounded latency_since
record_recv payload kind s =
    let now = s.wire.clock in
    record s {
      wire = record s.wire { clock = now + 1 };
      diag = append_bounded s.diag_buf_size s.diag (record {
        ts = now;
        direction = kind;
        payload = payload;
        latency = latency_since kind now s.last_send_ts;
      });
    }

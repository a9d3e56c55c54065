-- ===== src/Gdb/Socket.antt =====
-- The TCP socket that gdb/client.py talks through, and the clock. What the peer does is a script:
-- the model makes no choice of its own. Times are in microseconds.
use dolphin_re_mcp.Prelude.{ℕ, ◌+◌, Bool, List, [], ◌∷◌, ◌++◌, take, drop, length}
use dolphin_re_mcp.Prelude.Text.{Bytes}
use dolphin_re_mcp.Errors.{Result, ok, err, timed_out, os_error}

-- What `recv` meets next: bytes (at least one), the end of the stream, a wait as long as the
-- socket's timeout, or another OSError.
pub data Event : Type 0 where
  chunk : ℕ → Bytes → Event
  closed quiet broken : Event

pub record Wire : Type 0 where
  pub incoming : List Event
  -- For each `sendall` to come, whether it raises OSError; with none left they succeed.
  pub send_faults : List Bool
  -- For each `create_connection` to come, whether it raises OSError.
  pub dial_faults : List Bool
  pub sent : Bytes
  pub clock : ℕ

-- What `recv` leaves of a chunk stays in front.
abbrev pub requeue : Bytes → List Event → List Event
requeue [] es = es
requeue (c ∷ cs) es = chunk c cs ∷ es

-- `sock.recv(n)` on a socket with the given timeout. A script that has run out is a silent peer.
unfoldable pub receive : ℕ → ℕ → List Event → Wire → Result Bytes × Wire
receive timeout n [] w = (err timed_out, record w { clock = w.clock + timeout })
receive timeout n (chunk c cs ∷ es) w =
    (ok (take n (c ∷ cs)), record w { incoming = requeue (drop n (c ∷ cs)) es })
receive timeout n (closed ∷ es) w = (ok [], w)
receive timeout n (quiet ∷ es) w =
    (err timed_out, record w { incoming = es; clock = w.clock + timeout })
receive timeout n (broken ∷ es) w = (err os_error, record w { incoming = es })

-- The bytes that arrive before the stream ends or fails.
abbrev pub flow : List Event → Bytes
flow [] = []
flow (chunk c cs ∷ es) = (c ∷ cs) ++ flow es
flow (_ ∷ es) = []

-- A bound for the calls of `recv` that the script can answer.
abbrev pub weight : List Event → ℕ
weight [] = 0
weight (chunk c cs ∷ es) = 2 + length cs + weight es
weight (_ ∷ es) = 1 + weight es

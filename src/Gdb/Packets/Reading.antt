-- ===== src/Gdb/Packets/Reading.antt =====
-- A packet is read whatever the chunks in which it arrives.
use dolphin_re_mcp.Prelude.{
  ℕ, zero, suc, ◌+◌, ◌<◌, ◌≡◌, refl, ap, ◌∙◌, Bool, true, false, inl, inr, some, List, [], ◌∷◌,
  ◌++◌, append-nil, append_assoc, arith, Bool-cases, Option-cases, length, take, drop,
}
use dolphin_re_mcp.Prelude.Text.{Bytes, split_once, split_once-append}
use dolphin_re_mcp.Errors.{ok}
use dolphin_re_mcp.Gdb.Socket.{Event, chunk, closed, quiet, broken, receive, requeue, flow, weight}
use dolphin_re_mcp.Gdb.Stub.{Stub}
use dolphin_re_mcp.Gdb.Packets.{
  fill_once, fill, fill_until, ends_of, after_checksum, packet_of, has_start, has_end, has_checksum,
  recv_some,
}

flow-requeue :
    (n : ℕ) (xs : Bytes) (es : List Event)
    → take n xs ++ flow (requeue (drop n xs) es) ≡ xs ++ flow es
flow-requeue zero [] es = refl
flow-requeue zero (x ∷ xs) es = refl
flow-requeue (suc n) [] es = refl
flow-requeue (suc n) (x ∷ xs) es = ap (◌∷◌ x) (flow-requeue n xs es)

weight-requeue :
    (n : ℕ) (xs : Bytes) (es : List Event)
    → weight (requeue (drop n xs) es) < 2 + length xs + weight es
weight-requeue zero [] es = omega arith
weight-requeue zero (x ∷ xs) es = omega arith
weight-requeue (suc n) [] es = omega arith
weight-requeue (suc n) (x ∷ xs) es = omega (arith, weight-requeue n xs es)

-- A state with another buffer and another script.
abbrev pub with_input : Bytes → List Event → Stub → Stub
with_input b es s = record s { recv_buf = b; wire = record s.wire { incoming = es } }

-- What is read and what still arrives.
abbrev pub stream : Stub → Bytes
stream s = s.recv_buf ++ flow s.wire.incoming

fill_once_chunk :
    (b : Bytes) (c : ℕ) (cs : Bytes) (es : List Event) (s : Stub)
    → fill_once (with_input b (chunk c cs ∷ es) s)
      ≡ (ok tt, with_input (b ++ take 4096 (c ∷ cs)) (requeue (drop 4096 (c ∷ cs)) es) s)
unfolding fill_once recv_some receive
fill_once_chunk b c cs es s = refl

-- What `fill` leaves when the test holds of the whole stream.
abbrev Filled : (Bytes → Bool) → ℕ → Bytes → List Event → Stub → Type 0
Filled test fuel b es s =
    (b' : Bytes) × (es' : List Event) × (fill test fuel (with_input b es s)
      ≡ (ok tt, with_input b' es' s))
    × (test b' ≡ true)
    × (b' ++ flow es' ≡ b ++ flow es)

module _ (test : Bytes → Bool) (s : Stub) where
  fill_enough :
      (fuel : ℕ) (b : Bytes) (es : List Event) → test b ≡ true → Filled test (suc fuel) b es s
  unfolding fill
  fill_enough fuel b es h = (b, es, rw (h, fill), h, refl)

  fill_step :
      (fuel : ℕ) (t u : Stub)
      → test t.recv_buf ≡ false
      → fill_once t ≡ (ok tt, u)
      → fill test (suc fuel) t ≡ fill test fuel u
  unfolding fill
  fill_step fuel t u h e = rw (h, fill) (rw e)

  fill_lem :
      (fuel : ℕ) (b : Bytes) (es : List Event)
      → weight es < fuel
      → test (b ++ flow es) ≡ true
      → Filled test fuel b es s
  unfolding fill
  fill_lem zero b es w h = absurd (omega arith)
  fill_lem (suc fuel) b [] w h = fill_enough fuel b [] (rw append-nil at h)
  fill_lem (suc fuel) b (closed ∷ es) w h = fill_enough fuel b (closed ∷ es) (rw append-nil at h)
  fill_lem (suc fuel) b (quiet ∷ es) w h = fill_enough fuel b (quiet ∷ es) (rw append-nil at h)
  fill_lem (suc fuel) b (broken ∷ es) w h = fill_enough fuel b (broken ∷ es) (rw append-nil at h)
  fill_lem (suc fuel) b (chunk c cs ∷ es) w h = elim (Bool-cases (test b)) [
    | inl e ↦ fill_enough fuel b (chunk c cs ∷ es) e
    | inr e ↦
        let xs : Bytes = c ∷ cs in
        let same : (b ++ take 4096 xs) ++ flow (requeue (drop 4096 xs) es) ≡ b ++ (xs ++ flow es) =
          append_assoc b (take 4096 xs) _ ∙ ap (◌++◌ b) (flow-requeue 4096 xs es) in
        let (b', es', run, passed, kept) =
          fill_lem fuel (b ++ take 4096 xs) (requeue (drop 4096 xs) es)
            (omega (arith, weight-requeue 4095 cs es)) (rw same h) in
        (
          b',
          es',
          fill_step fuel (with_input b (chunk c cs ∷ es) s) _ e (fill_once_chunk b c cs es s) ∙ run,
          passed,
          kept ∙ same,
        )
  ]

-- `fill_until` at a stream that passes the test.
pub fill_until_lem :
    (test : Bytes → Bool) (s : Stub)
    → test (stream s) ≡ true
    → (b : Bytes) × (es : List Event) × (fill_until test s ≡ (ok tt, with_input b es s))
      × (test b ≡ true)
      × (b ++ flow es ≡ stream s)
unfolding fill_until
fill_until_lem test s h =
    fill_lem test s (suc (weight s.wire.incoming)) s.recv_buf s.wire.incoming (omega arith) h

ends_of-append :
    (a more : Bytes) {p t : Bytes}
    → ends_of a ≡ some (p, t)
    → ends_of (a ++ more) ≡ some (p, t ++ more)
unfolding ends_of
ends_of-append a more h = elim (Option-cases (split_once b'$' a)) [
  | inl e ↦ ground arith
  | inr (q, e) ↦
      let start : split_once b'$' (a ++ more) ≡ some (q.0, q.1 ++ more) =
        split_once-append b'$' a more e in
      rw (start, ends_of) (split_once-append b'#' q.1 more (ground arith))
]

after_checksum-append :
    (t more : Bytes) {r : Bytes}
    → after_checksum t ≡ some r
    → after_checksum (t ++ more) ≡ some (r ++ more)
unfolding after_checksum
after_checksum-append [] more h = cc
after_checksum-append (x ∷ []) more h = cc
after_checksum-append (x ∷ y ∷ t) more h = ground arith

-- More bytes behind a packet do not change it.
pub packet_of-append :
    (a more : Bytes) {p r : Bytes}
    → packet_of a ≡ some (p, r)
    → packet_of (a ++ more) ≡ some (p, r ++ more)
unfolding packet_of
packet_of-append a more h = elim (Option-cases (ends_of a)) [
  | inl e ↦ ground arith
  | inr (q, e) ↦ elim (Option-cases (after_checksum q.1)) [
    | inl f ↦ ground arith
    | inr (r', f) ↦
        let ends : ends_of (a ++ more) ≡ some (q.0, q.1 ++ more) = ends_of-append a more e in
        let rest : after_checksum (q.1 ++ more) ≡ some (r' ++ more) =
          after_checksum-append q.1 more f in
        ground arith
  ]
]

-- A whole packet passes the three tests.
pub packet-tests :
    (a : Bytes) {p r : Bytes}
    → packet_of a ≡ some (p, r)
    → (has_start a ≡ true) × (has_end a ≡ true) × (has_checksum a ≡ true)
unfolding packet_of has_start has_end has_checksum
packet-tests a h = ground arith

pub has_checksum-packet :
    (a : Bytes) → has_checksum a ≡ true → (q : Bytes × Bytes) × (packet_of a ≡ some q)
unfolding has_checksum
has_checksum-packet a h = ground arith

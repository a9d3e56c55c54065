-- ===== src/Gdb/Packets/Fuel.antt =====
-- Reading a packet ends, whatever the peer does: the loops have enough fuel.
use native.Mathlib.Nat.{le_trans, le_refl}
use dolphin_re_mcp.Prelude.{
  ℕ, zero, suc, ◌+◌, ◌<◌, ◌≤◌, ◌≡◌, refl, ap, Bool, true, inl, inr, Option, none, some, List, [],
  ◌∷◌, arith, Bool-cases, Option-cases, length, length-append, take, drop,
}
use dolphin_re_mcp.Prelude.Text.{Bytes, split_once}
use dolphin_re_mcp.Errors.{Error, Result, ok, err, is_socket_error}
use dolphin_re_mcp.Exec.{Exec, ◌>>=◌, bind-ok, bind-err, finally, modify}
use dolphin_re_mcp.Gdb.Socket.{Event, chunk, closed, quiet, broken, receive, requeue, weight}
use dolphin_re_mcp.Gdb.Stub.{Stub, Direction, close, record_recv, take_fault, unread}
use dolphin_re_mcp.Gdb.Packets.{
  fill_once, fill, fill_until, packet_of, ends_of, has_start, has_end, has_checksum, take_packet,
  read_packet_body, read_packet_from_wire, recv_some, send_or_close, send_all, require_sock,
  set_timeout, set_timeout?,
}
use dolphin_re_mcp.Gdb.Packets.Reading.{with_input, has_checksum-packet}

-- A run that returns leaves less than `n` unread; one that raises raises what `handled` allows.
abbrev pub Within : (Error → Bool) → {A : Type 0} → ℕ → Result A × Stub → Type 0
Within handled n (ok a, t) = unread t < n
Within handled n (err e, t) = handled e ≡ true

module _ {A B : Type 0} (handled : Error → Bool) (n k : ℕ) (m : Exec Stub A) (f : A → Exec Stub B)
    (s : Stub) where
  Within-bind_at :
      (r : Result A × Stub)
      → m s ≡ r
      → Within handled n r
      → ((a : A) (t : Stub) → m s ≡ (ok a, t) → unread t < n → Within handled k (f a t))
      → Within handled k ((m >>= f) s)
  Within-bind_at (ok a, t) e h hf = rw (bind-ok m f s e) (hf a t e h)
  Within-bind_at (err x, t) e h hf = rw (bind-err m f s e) h

  -- The rule for a sequence.
  pub Within-bind :
      Within handled n (m s)
      → ((a : A) (t : Stub) → unread t < n → Within handled k (f a t))
      → Within handled k ((m >>= f) s)
  Within-bind h hf = Within-bind_at (m s) refl h (λ a t _. hf a t)

  -- The same, where the rest uses what the first step did.
  Within-bind_run :
      Within handled n (m s)
      → ((a : A) (t : Stub) → m s ≡ (ok a, t) → unread t < n → Within handled k (f a t))
      → Within handled k ((m >>= f) s)
  Within-bind_run = Within-bind_at (m s) refl

pub Within-mono :
    (handled : Error → Bool) {A : Type 0} (n k : ℕ) (r : Result A × Stub)
    → n ≤ k
    → Within handled n r
    → Within handled k r
Within-mono handled n k (ok a, t) le h = le_trans h le
Within-mono handled n k (err e, t) le h = h

pub Within-error :
    (handled : Error → Bool) {A : Type 0} (n : ℕ) (r : Result A × Stub) (e : Error)
    → Within handled n r
    → r.0 ≡ err e
    → handled e ≡ true
Within-error handled n (ok a, t) e h eq = cc
Within-error handled n (err x, t) e h eq = let same : x ≡ e = cc in rw (← same) h

requeue-total :
    (n : ℕ) (xs : Bytes) (es : List Event)
    → length (take n xs) + weight (requeue (drop n xs) es) ≤ 1 + length xs + weight es
requeue-total zero [] es = omega arith
requeue-total zero (x ∷ xs) es = omega arith
requeue-total (suc n) [] es = omega arith
requeue-total (suc n) (x ∷ xs) es = omega (arith, requeue-total n xs es)

fill_once-Within :
    (b : Bytes) (es : List Event) (s : Stub)
    → let r = fill_once (with_input b es s) in
      Within is_socket_error (suc (length b + weight es)) r
      × (r.0 ≡ ok tt → weight r.1.wire.incoming < weight es)
unfolding fill_once recv_some receive close
fill_once-Within b [] s = (cc, λ h. cc)
fill_once-Within b (closed ∷ es) s = (cc, λ h. cc)
fill_once-Within b (quiet ∷ es) s = (cc, λ h. cc)
fill_once-Within b (broken ∷ es) s = (cc, λ h. cc)
fill_once-Within b (chunk c cs ∷ es) s = (
  omega (arith, requeue-total 4095 cs es, length-append b (c ∷ take 4095 cs)),
  λ h. omega (arith, requeue-total 4095 cs es),
)

fill_rest :
    (n fuel : ℕ) (k : Stub → Result Unit × Stub) (s : Stub) (r : Result Unit × Stub)
    → fill_once s ≡ r
    → Within is_socket_error (suc n) r
    → (r.0 ≡ ok tt → weight r.1.wire.incoming < fuel)
    → ((t : Stub) → weight t.wire.incoming < fuel → Within is_socket_error (suc (unread t)) (k t))
    → Within is_socket_error (suc n) ((fill_once >>= λ _. k) s)
fill_rest n fuel k s (ok tt, t) e h w hk =
    rw (bind-ok fill_once (λ _. k) s e)
      (Within-mono is_socket_error (suc (unread t)) (suc n) (k t) h (hk t (w refl)))
fill_rest n fuel k s (err x, t) e h w hk = rw (bind-err fill_once (λ _. k) s e) h

fill-Within :
    (test : Bytes → Bool) (fuel : ℕ) (s : Stub)
    → weight s.wire.incoming < fuel
    → Within is_socket_error (suc (unread s)) (fill test fuel s)
unfolding fill
fill-Within test zero s w = absurd (omega arith)
fill-Within test (suc fuel) s w = elim (Bool-cases (test s.recv_buf)) [
  | inl e ↦ rw (e, fill) (le_refl (suc (unread s)))
  | inr e ↦
      let (h, less) = fill_once-Within s.recv_buf s.wire.incoming s in
      rw (e, fill)
        (fill_rest (unread s) fuel (fill test fuel) s (fill_once s) refl h
          (λ x. omega (arith, less x)) (fill-Within test fuel))
]

fill_until-Within :
    (test : Bytes → Bool) (s : Stub) → Within is_socket_error (suc (unread s)) (fill_until test s)
unfolding fill_until
fill_until-Within test s = fill-Within test (suc (weight s.wire.incoming)) s (omega arith)

fill_rest-test :
    (P : Type 0) (k : Stub → Result Unit × Stub) (s t : Stub) (r : Result Unit × Stub)
    → fill_once s ≡ r
    → ((u : Stub) → k u ≡ (ok tt, t) → P)
    → (fill_once >>= λ _. k) s ≡ (ok tt, t)
    → P
fill_rest-test P k s t (ok tt, u) e rest h = rest u (rw (bind-ok fill_once (λ _. k) s e) at h)
fill_rest-test P k s t (err x, u) e rest h = cc (bind-err fill_once (λ _. k) s e)

-- A loop that ends without an exception has its test.
fill-test :
    (test : Bytes → Bool) (fuel : ℕ) (s t : Stub)
    → fill test fuel s ≡ (ok tt, t)
    → test t.recv_buf ≡ true
unfolding fill
fill-test test zero s t h = cc
fill-test test (suc fuel) s t h = elim (Bool-cases (test s.recv_buf)) [
  | inl e ↦
      let same : s ≡ t = ap (λ (r : Result Unit × Stub). r.1) (rw (e, fill) at h) in rw (← same) e
  | inr e ↦
      fill_rest-test (test t.recv_buf ≡ true) (fill test fuel) s t (fill_once s) refl
        (λ u. fill-test test fuel u t) (rw (e, fill) at h)
]

fill_until-test :
    (test : Bytes → Bool) (s t : Stub) → fill_until test s ≡ (ok tt, t) → test t.recv_buf ≡ true
unfolding fill_until
fill_until-test test s t = fill-test test (suc (weight s.wire.incoming)) s t

split_once-length :
    (c : ℕ) (s : Bytes) {a b : Bytes} → split_once c s ≡ some (a, b) → length b < length s
unfolding split_once
split_once-length c [] h = cc
split_once-length c (d ∷ s) {a} {b} h = elim (Option-cases (split_once c s)) [
  | inl e ↦ ground arith
  | inr (p, e) ↦ ground (arith, split_once-length c s e)
]

ends_of-length : (s : Bytes) {p t : Bytes} → ends_of s ≡ some (p, t) → length t < length s
unfolding ends_of
ends_of-length s {p} {t} h = elim (Option-cases (split_once b'$' s)) [
  | inl e ↦ ground arith
  | inr (q, e) ↦
      let body : split_once b'#' q.1 ≡ some (p, t) = ground arith in
      omega (arith, split_once-length b'$' s e, split_once-length b'#' q.1 body)
]

packet_of-length : (s : Bytes) {p r : Bytes} → packet_of s ≡ some (p, r) → length r < length s
unfolding packet_of
packet_of-length s h = elim (Option-cases (ends_of s)) [
  | inl e ↦ ground arith
  | inr ((q, []), e) ↦ ground arith
  | inr ((q, x ∷ []), e) ↦ ground arith
  | inr ((q, x ∷ y ∷ t), e) ↦ ground (arith, ends_of-length s e)
]

take_packet-Within :
    (s : Stub) → has_checksum s.recv_buf ≡ true → Within is_socket_error (unread s) (take_packet s)
unfolding take_packet
take_packet-Within s h =
    let (q, e) = has_checksum-packet s.recv_buf h in
    rw (e, take_packet) (omega (arith, packet_of-length s.recv_buf e))

pub send_or_close-Within :
    (bytes : Bytes) (s : Stub) → Within is_socket_error (suc (unread s)) (send_or_close bytes s)
unfolding send_or_close send_all take_fault close
send_or_close-Within bytes s = ground arith

-- A packet that is read is taken off what is unread.
read_packet_body-Within :
    (kind : Direction) (s : Stub) → Within is_socket_error (unread s) (read_packet_body kind s)
unfolding read_packet_body record_recv
read_packet_body-Within kind s =
    Within-bind is_socket_error (suc (unread s)) (unread s) (fill_until has_start) _ s
      (fill_until-Within has_start s)
      λ _ s1 h1.
        Within-bind is_socket_error (suc (unread s1)) (unread s) (fill_until has_end) _ s1
          (fill_until-Within has_end s1)
          λ _ s2 h2.
            Within-bind_run is_socket_error (suc (unread s2)) (unread s) (fill_until has_checksum) _
              s2 (fill_until-Within has_checksum s2)
              λ _ s3 run h3.
                Within-bind is_socket_error (unread s3) (unread s) take_packet _ s3
                  (take_packet-Within s3 (fill_until-test has_checksum s2 s3 run))
                  λ p s4 h4.
                    Within-bind is_socket_error (suc (unread s4)) (unread s)
                      (send_or_close (b'+' ∷ [])) _ s4 (send_or_close-Within (b'+' ∷ []) s4)
                      λ _ s5 h5. omega arith

Within-finally :
    {A : Type 0} (n : ℕ) (m : Exec Stub A) (f : Stub → Stub) (s : Stub) (r : Result A × Stub)
    → m s ≡ r
    → ((t : Stub) → unread (f t) ≡ unread t)
    → Within is_socket_error n r
    → Within is_socket_error n (finally m (modify f) s)
Within-finally n m f s (ok a, t) e keep h = rw e (rw (keep t) h)
Within-finally n m f s (err x, t) e keep h = rw e h

unread-set_timeout : (t : ℕ) (s : Stub) → unread (set_timeout t s) ≡ unread s
unfolding set_timeout
unread-set_timeout t s = ground arith

unread-set_timeout? : (t : Option ℕ) (s : Stub) → unread (set_timeout? t s) ≡ unread s
unfolding set_timeout?
unread-set_timeout? none s = refl
unread-set_timeout? (some t) s = unread-set_timeout t s

pub require_sock-Within : (s : Stub) → Within is_socket_error (suc (unread s)) (require_sock s)
unfolding require_sock
require_sock-Within s = ground arith

pub read_packet_from_wire-Within :
    (timeout : Option ℕ) (kind : Direction) (s : Stub)
    → Within is_socket_error (unread s) (read_packet_from_wire timeout kind s)
unfolding read_packet_from_wire
read_packet_from_wire-Within timeout kind s =
    Within-bind is_socket_error (suc (unread s)) (unread s) require_sock _ s (require_sock-Within s)
      λ old s1 h1.
        let s2 = set_timeout? timeout s1 in
        Within-mono is_socket_error (unread s2) (unread s) _
          (omega (arith, unread-set_timeout? timeout s1))
          (Within-finally (unread s2) (read_packet_body kind) (set_timeout old) s2 _ refl
            (unread-set_timeout old) (read_packet_body-Within kind s2))

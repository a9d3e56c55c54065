-- ===== src/Tests/Search.antt =====
-- The memory tools over a process whose memory is all zeros.
use dolphin_re_mcp.Prelude.{
  ℕ, zero, suc, ◌+◌, ◌-◌, ◌≤◌, ◌<◌, ◌≡◌, refl, sym, ap, ◌∙◌, arith, inl, none, some, true, false,
  List, [], ◌∷◌, length, take, drop, get_elem?,
}
use dolphin_re_mcp.Prelude.Int.{pos, ◌+ℤ◌, ◌-ℤ◌, pos_part}
use dolphin_re_mcp.Prelude.Text.{Bytes, codes, from_hex, repeat, length-repeat}
use dolphin_re_mcp.Errors.{ok}
use dolphin_re_mcp.Memory.Attach.{Host, attach_read, host_addr}
use dolphin_re_mcp.Memory.Routing.{RoutedAddress, mem1, route, mem1_base, mem1_size}
use dolphin_re_mcp.Session.{Session, Environment, ensure_connected, mem_read}
use dolphin_re_mcp.Tools.Memory.{read}
use dolphin_re_mcp.Tools.Memory.Search.{search_mem}
use dolphin_re_mcp.Tools.Memory.Search.Splits.{occurrences}
use dolphin_re_mcp.Tools.Memory.Search.Rounds.{Shows, addresses}
use dolphin_re_mcp.Tools.Memory.Search.Complete.{search_mem-occurrences}
use dolphin_re_mcp.Tools.Memory.Report.{Difference, saved_slice, diff_live_vs_dump}
use dolphin_re_mcp.Tools.Memory.Report.Differences.{entry_at, expected, diff_live_vs_dump-entries}
use dolphin_re_mcp.Tests.Session.{hunting}
use dolphin_re_mcp.Tests.Memory.{dolphin}

-- Every read of the process succeeds and gives zeros.
abbrev pub zeros : Host
zeros = record {
  is_windows = true;
  find_pid = some 4711;
  open_process = λ pid. true;
  query = λ a. none;
  read_process = λ a n. some (repeat (pos_part n) 0);
  write_process = λ a bytes. none;
}

abbrev pub zero_env : Environment
zero_env = record { no_auto_resume = false; host = zeros }

abbrev pub in_process : Session
in_process = record hunting { attach_backend = some dolphin; watcher = none }

take-repeat : (n m : ℕ) → n ≤ m → take {A = ℕ} n (repeat m 0) ≡ repeat n 0
take-repeat zero m h = refl
take-repeat (suc n) zero h = absurd (omega arith)
take-repeat (suc n) (suc m) h = ap (λ x. 0 ∷ x) (take-repeat n m (omega arith))

drop-repeat : (n m : ℕ) → drop {A = ℕ} n (repeat m 0) ≡ repeat (m - n) 0
drop-repeat zero m = let e : m ≡ m - 0 = omega arith in ap (λ k. repeat k 0) e
drop-repeat (suc n) zero = let e : 0 ≡ 0 - suc n = omega arith in ap (λ k. repeat k 0) e
drop-repeat (suc n) (suc m) =
    let e : m - n ≡ suc m - suc n = omega arith in drop-repeat n m ∙ ap (λ k. repeat k 0) e

-- A region of zeros. It is as long as MEM1 and is never written out.
unfoldable image : ℕ → Bytes
image size = repeat size 0

length-image : (size : ℕ) → length (image size) ≡ size
unfolding image
length-image size = length-repeat {A = ℕ} size 0

slice-image : (size off n : ℕ) → off + n ≤ size → take n (drop off (image size)) ≡ repeat n 0
unfolding image
slice-image size off n h =
    ap (take n) (drop-repeat off size) ∙ take-repeat n (size - off) (omega arith)

abbrev routed_at : ℕ → RoutedAddress
routed_at off = record { region = mem1; offset = pos off; size = pos (mem1_size - off) }

in_mem1 :
    (off n : ℕ)
    → 0 < n
    → off + n ≤ mem1_size
    → route (pos (mem1_base + off)) (pos n) ≡ ok (routed_at off)
unfolding route ◌+ℤ◌ ◌-ℤ◌
in_mem1 off n some_byte inside = ground arith

zeros-reads :
    (off n : ℕ)
    → 0 < n
    → off + n ≤ mem1_size
    → mem_read zeros (pos (mem1_base + off)) (pos n) in_process ≡ (ok (repeat n 0), in_process)
unfolding mem_read attach_read host_addr
zeros-reads off n some_byte inside =
    rw (in_mem1 off n some_byte inside) (rw (length-repeat {A = ℕ} n 0) (ground arith))

zeros-Shows : Shows zero_env mem1_base mem1_size (image mem1_size) in_process
unfolding ensure_connected
zeros-Shows = record {
  connected = refl;
  covers = length-image mem1_size;
  reads = λ off n some_byte inside.
      zeros-reads off n some_byte inside
      ∙ ap (λ x. (ok x, in_process)) (sym (slice-image mem1_size off n inside));
}

search_mem-occurrences_example :
    search_mem zero_env (codes "0000") (codes "mem1") in_process
    ≡ (ok (addresses mem1_base (occurrences (0 ∷ 0 ∷ []) (image mem1_size) 0)), in_process)
unfolding from_hex
search_mem-occurrences_example =
    search_mem-occurrences zero_env (codes "0000") (codes "mem1") mem1_base mem1_size
      (image mem1_size) (0 ∷ 0 ∷ []) in_process (inl (refl, refl, refl)) zeros-Shows refl
      (omega arith) (omega arith)

-- The dump has a byte that is not zero.
diff_live_vs_dump-entries_example :
    (out : List Difference) × (diff_live_vs_dump zero_env
        (pos 0x80000004)
        (pos 2)
        (some (9 ∷ 9 ∷ 9 ∷ 9 ∷ 0 ∷ 7 ∷ []))
        in_process
      ≡ (ok out, in_process))
    × ((i : ℕ)
        → entry_at i out
          ≡ expected
              (pos 0x80000004)
              i
              (get_elem? (0 ∷ 0 ∷ []) i)
              (get_elem? (saved_slice (pos 4) (pos 2) (9 ∷ 9 ∷ 9 ∷ 9 ∷ 0 ∷ 7 ∷ [])) i))
unfolding read ensure_connected ◌+ℤ◌
diff_live_vs_dump-entries_example =
    diff_live_vs_dump-entries zero_env (pos 0x80000004) (pos 2) (9 ∷ 9 ∷ 9 ∷ 9 ∷ 0 ∷ 7 ∷ [])
      (0 ∷ 0 ∷ []) in_process (routed_at 4) (in_mem1 4 2 (omega arith) (omega arith)) (omega arith)
      (zeros-reads 4 2 (omega arith) (omega arith))

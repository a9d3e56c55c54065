-- ===== src/Tools/Memory/Search.antt =====
-- tools/memory_tools.py: `search_mem`, which looks for a pattern chunk by chunk.
pub mod Splits
pub mod Rounds
pub mod Complete
use Prim.Native.Nat.{min}
use dolphin_re_mcp.Prelude.{
  ℕ, zero, suc, ◌+◌, ◌-◌, ◌*◌, Bool, true, false, Option, none, some, List, [], ◌∷◌, ◌++◌, map, ltb,
  if◌then◌else◌, length, drop,
}
use dolphin_re_mcp.Prelude.Int.{ℤ, pos, ◌+ℤ◌, ◌-ℤ◌}
use dolphin_re_mcp.Prelude.Text.{Text, Bytes, codes, eq_text, starts_with, from_hex, upper}
use dolphin_re_mcp.Errors.{Result, ok, err, value_error, out_of_fuel}
use dolphin_re_mcp.Exec.{Exec, pure, raise, lift, ◌>>=◌}
use dolphin_re_mcp.Memory.Routing.{mem1_base, mem1_size, mem2_base, mem2_size}
use dolphin_re_mcp.Session.{Session, Environment}
use dolphin_re_mcp.Tools.Memory.{read}

-- `CHUNK`
abbrev pub chunk_size : ℕ
chunk_size = 4 * 1024 * 1024

-- `buf.find(pat)`, the index counted from `i`; none stands for -1.
unfoldable pub find_from : Bytes → Bytes → ℕ → Option ℕ
find_from pat [] i = if starts_with [] pat then some i else none
find_from pat (c ∷ s) i =
    let rest = find_from pat s (suc i) in if starts_with (c ∷ s) pat then some i else rest

-- `buf.find(pat, start)`, for a start in the buffer or at its end.
abbrev pub find : Bytes → Bytes → ℕ → Option ℕ
find buf pat start = find_from pat (drop start buf) start

abbrev pub with_hit : ℕ → Result (List ℕ) → Result (List ℕ)
with_hit i (ok hits) = ok (i ∷ hits)
with_hit i (err e) = err e

-- What a round of the inner loop does with the index it found.
abbrev pub after_find : Option ℕ → (ℕ → Result (List ℕ)) → Result (List ℕ)
after_find none next = ok []
after_find (some i) next = with_hit i (next (suc i))

-- The inner loop, the indices in the buffer. Each round starts behind the hit before.
unfoldable pub find_all : ℕ → Bytes → Bytes → ℕ → Result (List ℕ)
find_all zero buf pat start = err out_of_fuel
find_all (suc fuel) buf pat start = after_find (find buf pat start) (find_all fuel buf pat)

-- `chunk[-overlap:] if overlap > 0 else b""`
abbrev pub tail_of : ℕ → Bytes → Bytes
tail_of overlap chunk = drop (length chunk - overlap) chunk

-- Where in the guest a hit of the buffer lies, `base + cursor + (i - len(prev_tail))`.
abbrev pub at_guest : ℕ → ℕ → ℕ → ℤ
at_guest start tail i = pos start +ℤ (pos i -ℤ pos tail)

-- The outer loop, over a region from `base` on; each round moves the cursor on.
module _ (env : Environment) (base size chunk : ℕ) (pat : Bytes) where
  unfoldable pub search_loop : ℕ → ℕ → Bytes → List ℤ → Exec Session (List ℤ)
  search_loop zero cursor prev_tail hits = raise out_of_fuel
  search_loop (suc fuel) cursor prev_tail hits =
      if ltb cursor size
      then (read env (pos (base + cursor)) (pos (min chunk (size - cursor))) >>= λ bytes.
          lift (find_all (suc (length (prev_tail ++ bytes))) (prev_tail ++ bytes) pat 0)
          >>= λ found.
              search_loop fuel (cursor + min chunk (size - cursor)) (tail_of (length pat - 1) bytes)
                (hits ++ map (at_guest (base + cursor) (length prev_tail)) found))
      else pure hits

abbrev pub search_region : Environment → ℕ → ℕ → Bytes → Exec Session (List ℤ)
search_region env base size pat = search_loop env base size chunk_size pat (suc size) 0 [] []

abbrev pub search_in : Environment → Text → Bytes → Exec Session (List ℤ)
search_in env region pat =
    if eq_text region (codes "MEM1")
    then search_region env mem1_base mem1_size pat
    else if eq_text region (codes "MEM2")
    then search_region env mem2_base mem2_size pat
    else raise value_error

abbrev pub search_for : Environment → Text → Option Bytes → Exec Session (List ℤ)
search_for env region none = raise value_error
search_for env region (some []) = raise value_error
search_for env region (some (c ∷ pat)) = search_in env (upper region) (c ∷ pat)

-- `search_mem(pattern_hex, region)`
unfoldable pub search_mem : Environment → Text → Text → Exec Session (List ℤ)
search_mem env pattern_hex region = search_for env region (from_hex pattern_hex)

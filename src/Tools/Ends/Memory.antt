-- ===== src/Tools/Ends/Memory.antt =====
-- Reading and searching memory end.
use Prim.Native.Nat.{min}
use dolphin_re_mcp.Prelude.{
  ℕ, zero, suc, ◌+◌, ◌-◌, ◌≤◌, ◌<◌, refl, arith, inl, inr, Bool-cases, Option, none, some, List, [],
  ◌∷◌, ◌++◌, map, ltb, ltb→lt, length,
}
use dolphin_re_mcp.Prelude.Int.{ℤ, pos}
use dolphin_re_mcp.Prelude.Text.{Text, Bytes, codes, eq_text, from_hex, upper}
use dolphin_re_mcp.Errors.{value_error}
use dolphin_re_mcp.Exec.{raise, lift}
use dolphin_re_mcp.Memory.Routing.{mem1_base, mem1_size, mem2_base, mem2_size}
use dolphin_re_mcp.Session.{Environment, ensure_connected}
use dolphin_re_mcp.Session.Proper.{Ends, Ends-bind, Ends-if, IsClean, Ends-lift}
use dolphin_re_mcp.Session.Ends.{Bounded, ensure_connected-Ends, mem_read-Ends}
use dolphin_re_mcp.Tools.Memory.{read}
use dolphin_re_mcp.Tools.Memory.Search.{
  chunk_size, find_all, tail_of, at_guest, search_loop, search_region, search_for, search_mem,
}
use dolphin_re_mcp.Tools.Memory.Search.Splits.{find_all-occurrences}

find_all-IsClean :
    (buf : Bytes) (p : ℕ) (pat : Bytes) → IsClean (find_all (suc (length buf)) buf (p ∷ pat) 0)
find_all-IsClean buf p pat =
    rw (find_all-occurrences (suc (length buf)) buf p pat 0 (omega arith)) tt

module _ (env : Environment) (bounded : Bounded env.host) where
  pub read-Ends : (addr size : ℤ) → Ends (read env addr size)
  unfolding read
  read-Ends addr size =
      Ends-bind (ensure_connected env) _ (ensure_connected-Ends env bounded)
        λ _. mem_read-Ends env.host addr size

  -- Each round moves the cursor on by a byte at least.
  search_loop-Ends :
      (base size chunk p : ℕ) (pat : Bytes) (fuel cursor : ℕ) (tail : Bytes) (hits : List ℤ)
      → 0 < chunk
      → cursor ≤ size
      → size < cursor + fuel
      → Ends (search_loop env base size chunk (p ∷ pat) fuel cursor tail hits)
  unfolding search_loop
  search_loop-Ends base size chunk p pat zero cursor tail hits some_chunk inside enough s =
      absurd (omega arith)
  search_loop-Ends base size chunk p pat (suc fuel) cursor tail hits some_chunk inside enough s =
      let n = min chunk (size - cursor) in
      elim (Bool-cases (ltb cursor size)) [
        | inr done ↦ rw done tt
        | inl more ↦
            let low : cursor < size = ltb→lt cursor size more in
            rw more (
              Ends-bind (read env (pos (base + cursor)) (pos n)) _
                (read-Ends (pos (base + cursor)) (pos n))
                (λ bytes.
                  let buf = tail ++ bytes in
                  Ends-bind (lift (find_all (suc (length buf)) buf (p ∷ pat) 0)) _
                    (Ends-lift (find_all (suc (length buf)) buf (p ∷ pat) 0)
                      (find_all-IsClean buf p pat))
                    λ found.
                      search_loop-Ends base size chunk p pat fuel (cursor + n)
                        (tail_of (length (p ∷ pat) - 1) bytes)
                        (hits ++ map (at_guest (base + cursor) (length tail)) found) some_chunk
                        (omega arith) (omega arith))
                s)
      ]

  search_region-Ends :
      (base size p : ℕ) (pat : Bytes) → Ends (search_region env base size (p ∷ pat))
  search_region-Ends base size p pat =
      search_loop-Ends base size chunk_size p pat (suc size) 0 [] [] (omega arith) (omega arith)
        (omega arith)

  search_for-Ends : (region : Text) (o : Option Bytes) → Ends (search_for env region o)
  search_for-Ends region none s = refl
  search_for-Ends region (some []) s = refl
  search_for-Ends region (some (p ∷ pat)) s =
      let mem1 = search_region env mem1_base mem1_size (p ∷ pat) in
      let mem2 = search_region env mem2_base mem2_size (p ∷ pat) in
      Ends-if (eq_text (upper region) (codes "MEM1")) mem1 _
        (search_region-Ends mem1_base mem1_size p pat)
        (Ends-if (eq_text (upper region) (codes "MEM2")) mem2 (raise value_error)
          (search_region-Ends mem2_base mem2_size p pat) λ t. refl)
        s

  pub search_mem-Ends : (pattern_hex region : Text) → Ends (search_mem env pattern_hex region)
  unfolding search_mem
  search_mem-Ends pattern_hex region = search_for-Ends region (from_hex pattern_hex)

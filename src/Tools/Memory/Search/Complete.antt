-- ===== src/Tools/Memory/Search/Complete.antt =====
-- `search_mem` over memory that holds still while it is searched.
use Prim.Native.Nat.{min}
use mathlib.Core.List.{map-append}
use dolphin_re_mcp.Prelude.{
  ℕ, zero, suc, ◌+◌, ◌-◌, ◌≤◌, ◌<◌, ◌≡◌, refl, sym, ap, ◌∙◌, ◌⊎◌, inl, inr, some, List, [], ◌∷◌,
  ◌++◌, map, arith, ltb, Bool-cases, append_assoc, append-nil, length, take, drop, drop_all, tests,
  leb→le, ltb→lt, length-take, length-drop, take-append-drop,
}
use dolphin_re_mcp.Prelude.Int.{ℤ, pos}
use dolphin_re_mcp.Prelude.Text.{Text, Bytes, codes, from_hex, upper, eq_text}
use dolphin_re_mcp.Errors.{Result, ok}
use dolphin_re_mcp.Exec.{Exec, ◌>>=◌, bind-ok, lift}
use dolphin_re_mcp.Memory.Routing.{mem1_base, mem1_size, mem2_base, mem2_size}
use dolphin_re_mcp.Session.{Session, Environment, ensure_connected, mem_read}
use dolphin_re_mcp.Tools.Memory.{read}
use dolphin_re_mcp.Tools.Memory.Search.{
  chunk_size, find_all, tail_of, at_guest, search_loop, search_region, search_in, search_mem,
}
use dolphin_re_mcp.Tools.Memory.Search.Splits.{
  occurrences, occurrences_short, find_all-occurrences, drop-add,
}
use dolphin_re_mcp.Tools.Memory.Search.Rounds.{
  Shows, occurrences-round, addresses, shift, at_guest-pos,
}

-- The outer loop, over the rest of a region.
module _ {env : Environment} {base size chunk : ℕ} {image : Bytes} {s : Session}
    (still : Shows env base size image s) (p : ℕ) (ps : Bytes) (some_chunk : 0 < chunk)
    (fits : length ps ≤ chunk) where
  read-image :
      (off n : ℕ)
      → 0 < n
      → off + n ≤ size
      → read env (pos (base + off)) (pos n) s ≡ (ok (take n (drop off image)), s)
  unfolding read
  read-image off n some_n within =
      bind-ok (ensure_connected env) (λ _. mem_read env.host (pos (base + off)) (pos n)) s
        still.connected
      ∙ still.reads off n some_n within

  -- The bytes of the round at `cursor`, and how many.
  abbrev step_of : ℕ → ℕ
  step_of cursor = min chunk (size - cursor)

  abbrev bytes_at : ℕ → Bytes
  bytes_at cursor = take (step_of cursor) (drop cursor image)

  length-bytes_at : (cursor : ℕ) → length (bytes_at cursor) ≡ step_of cursor
  length-bytes_at cursor = omega (
    arith,
    still.covers,
    length-take (step_of cursor) (drop cursor image),
    length-drop cursor image,
  )

  -- The last round leaves nothing, and every other takes a whole chunk.
  whole_or_last :
      (cursor : ℕ)
      → (length ps ≤ length (bytes_at cursor)) ⊎ (drop (cursor + step_of cursor) image ≡ [])
  whole_or_last cursor = elim (Bool-cases (ltb (size - cursor) chunk)) [
    | inl last ↦ inr (drop_all (cursor + step_of cursor) image (omega (tests, still.covers)))
    | inr whole ↦
        inl (omega (arith, length-bytes_at cursor, leb→le chunk (size - cursor) (ground arith)))
  ]

  -- One round, and then the rest.
  round-addresses :
      (cursor : ℕ) (tail : Bytes)
      → length tail ≤ cursor
      → addresses base (occurrences (p ∷ ps) (tail ++ drop cursor image) (cursor - length tail))
        ≡ map
            (at_guest (base + cursor) (length tail))
            (occurrences (p ∷ ps) (tail ++ bytes_at cursor) 0)
          ++ addresses base (
              occurrences
                (p ∷ ps)
                (tail_of (length ps) (bytes_at cursor) ++ drop (cursor + step_of cursor) image)
                (cursor + step_of cursor - length (tail_of (length ps) (bytes_at cursor))))
  round-addresses cursor tail low =
      let bytes = bytes_at cursor in
      let r = drop (cursor + step_of cursor) image in
      let tail' = tail_of (length ps) bytes in
      let found = occurrences (p ∷ ps) (tail ++ bytes) (cursor - length tail) in
      let cut : drop cursor image ≡ bytes ++ r =
        sym (take-append-drop (step_of cursor) (drop cursor image))
        ∙ ap (λ x. bytes ++ x) (sym (drop-add cursor (step_of cursor) image)) in
      let later = occurrences (p ∷ ps) (tail' ++ r) (cursor + step_of cursor - length tail') in
      let split : occurrences (p ∷ ps) (tail ++ (bytes ++ r)) (cursor - length tail)
          ≡ found ++ later =
        occurrences-round (p ∷ ps) (length ps) refl tail bytes r cursor low (whole_or_last cursor)
        ∙ ap (λ n. found ++ occurrences (p ∷ ps) (tail' ++ r) (cursor + n - length tail'))
            (length-bytes_at cursor) in
      let shifted : map (at_guest (base + cursor) (length tail))
            (occurrences (p ∷ ps) (tail ++ bytes) 0)
          ≡ addresses base found =
        shift (at_guest (base + cursor) (length tail)) (λ i. pos (base + i)) (p ∷ ps)
          (tail ++ bytes) 0 (cursor - length tail)
          (λ d. at_guest-pos base cursor (length tail) d low) in
      ap (λ x. addresses base (occurrences (p ∷ ps) (tail ++ x) (cursor - length tail))) cut
      ∙ ap (addresses base) split
      ∙ map-append (λ i. pos (base + i)) found later
      ∙ ap (λ x. x ++ addresses base later) (sym shifted)

  abbrev found_at : ℕ → Bytes → List ℤ
  found_at cursor tail =
      map (at_guest (base + cursor) (length tail))
        (occurrences (p ∷ ps) (tail ++ bytes_at cursor) 0)

  -- What the loop returns from `cursor` on.
  abbrev Searched : ℕ → Bytes → List ℤ → Result (List ℤ) × Session → Type 0
  Searched cursor tail hits r = r ≡ (
    ok (
        hits
        ++ addresses base
            (occurrences (p ∷ ps) (tail ++ drop cursor image) (cursor - length tail))),
    s,
  )

  none-image :
      (cursor : ℕ) (tail : Bytes) (hits : List ℤ)
      → size ≤ cursor
      → length tail ≤ length ps
      → Searched cursor tail hits (ok hits, s)
  none-image cursor tail hits done short =
      let nothing : occurrences (p ∷ ps) tail (cursor - length tail) ≡ [] =
        occurrences_short (p ∷ ps) tail (cursor - length tail) (omega arith) in
      rw (drop_all cursor image (omega (arith, still.covers)), append-nil tail)
        (rw nothing (rw append-nil refl))

  round-image :
      (cursor : ℕ) (tail : Bytes) (hits : List ℤ) (next : Bytes → List ℤ → Exec Session (List ℤ))
      → cursor < size
      → length tail ≤ cursor
      → Searched
          (cursor + step_of cursor)
          (tail_of (length ps) (bytes_at cursor))
          (hits ++ found_at cursor tail)
          (next (tail_of (length ps) (bytes_at cursor)) (hits ++ found_at cursor tail) s)
      → Searched cursor tail hits (
          (read env (pos (base + cursor)) (pos (step_of cursor)) >>= λ bytes.
          lift (find_all (suc (length (tail ++ bytes))) (tail ++ bytes) (p ∷ ps) 0) >>= λ found.
          next
            (tail_of (length ps) bytes)
            (hits ++ map (at_guest (base + cursor) (length tail)) found))
            s)
  round-image cursor tail hits next more low ih =
      let bytes = bytes_at cursor in
      let buf = tail ++ bytes in
      let got : read env (pos (base + cursor)) (pos (step_of cursor)) s ≡ (ok bytes, s) =
        read-image cursor (step_of cursor) (omega arith) (omega arith) in
      let found : find_all (suc (length buf)) buf (p ∷ ps) 0 ≡ ok (occurrences (p ∷ ps) buf 0) =
        find_all-occurrences (suc (length buf)) buf p ps 0 (omega arith) in
      rw got (
        rw found (
          ih
          ∙ ap (λ x. (ok x, s))
              (append_assoc hits (found_at cursor tail) _
                ∙ ap (λ x. hits ++ x) (sym (round-addresses cursor tail low)))))

  search_loop-image :
      (fuel cursor : ℕ) (tail : Bytes) (hits : List ℤ)
      → cursor ≤ size
      → size - cursor < fuel
      → length tail ≤ cursor
      → length tail ≤ length ps
      → search_loop env base size chunk (p ∷ ps) fuel cursor tail hits s ≡ (
        ok (
            hits
            ++ addresses base
                (occurrences (p ∷ ps) (tail ++ drop cursor image) (cursor - length tail))),
        s,
      )
  unfolding search_loop
  search_loop-image zero cursor tail hits in_range enough low short = absurd (omega arith)
  search_loop-image (suc fuel) cursor tail hits in_range enough low short =
      let bytes = bytes_at cursor in
      let overlap : length (p ∷ ps) - 1 ≡ length ps = omega arith in
      let kept : length (tail_of (length ps) bytes) ≡ length bytes - (length bytes - length ps) =
        length-drop (length bytes - length ps) bytes in
      let many : length bytes ≡ step_of cursor = length-bytes_at cursor in
      elim (Bool-cases (ltb cursor size)) [
        | inl more ↦
            let below : cursor < size = ltb→lt cursor size more in
            rw (more, overlap)
              (round-image cursor tail hits
                (search_loop env base size chunk (p ∷ ps) fuel (cursor + step_of cursor)) below low
                (search_loop-image fuel (cursor + step_of cursor) (tail_of (length ps) bytes)
                  (hits ++ found_at cursor tail) (omega arith) (omega arith) (omega arith)
                  (omega arith)))
        | inr done ↦ rw done (none-image cursor tail hits (ground arith) short)
      ]

-- The regions by their names.
abbrev pub RegionName : Text → ℕ → ℕ → Type 0
RegionName region base size =
    ((upper region ≡ codes "MEM1") × (base ≡ mem1_base) × (size ≡ mem1_size))
    ⊎ ((upper region ≡ codes "MEM2") × (base ≡ mem2_base) × (size ≡ mem2_size))

search_in-region :
    (env : Environment) (region : Text) (base size : ℕ) (pat : Bytes) (s : Session)
    → RegionName region base size
    → search_in env (upper region) pat s ≡ search_region env base size pat s
search_in-region env region base size pat s (inl (name, b, n)) =
    rw (name, b, n) (unfold eq_text in refl)
search_in-region env region base size pat s (inr (name, b, n)) =
    rw (name, b, n) (unfold eq_text in refl)

-- In a connected session over a region that holds still, and for a pattern of at most a chunk and
-- one byte, the chunked search returns the guest address of every position of the region at which
-- the pattern stands, in order and each once, and leaves the session as it was: the result is that
-- of one pass over the whole region.
pub search_mem-occurrences :
    (env : Environment) (pattern_hex region : Text) (base size : ℕ) (image pat : Bytes)
    (s : Session)
    → RegionName region base size
    → Shows env base size image s
    → from_hex pattern_hex ≡ some pat
    → 0 < length pat
    → length pat ≤ chunk_size + 1
    → search_mem env pattern_hex region s ≡ (ok (addresses base (occurrences pat image 0)), s)
unfolding search_mem
search_mem-occurrences env pattern_hex region base size image [] s name still decoded some_pat
      fits =
    absurd (omega arith)
search_mem-occurrences env pattern_hex region base size image (p ∷ ps) s name still decoded some_pat
      fits =
    rw decoded (
      search_in-region env region base size (p ∷ ps) s name
      ∙ search_loop-image still p ps (omega arith) (omega arith) (suc size) 0 [] [] (omega arith)
          (omega arith) (omega arith) (omega arith))

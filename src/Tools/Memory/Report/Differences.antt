-- ===== src/Tools/Memory/Report/Differences.antt =====
-- What a comparison with a dump reports.
use dolphin_re_mcp.Prelude.{
  ℕ, zero, suc, ◌+◌, ◌<◌, ◌≡◌, refl, false, Option, none, some, List, [], ◌∷◌, arith, inl, inr,
  ◌==◌, if◌then◌else◌, length, get_elem?, Bool-cases,
}
use dolphin_re_mcp.Prelude.Int.{ℤ, pos, ◌+ℤ◌, ◌≤ℤ◌, ltb_ℤ}
use dolphin_re_mcp.Prelude.Text.{Bytes}
use dolphin_re_mcp.Errors.{ok}
use dolphin_re_mcp.Memory.Routing.{route, RoutedAddress}
use dolphin_re_mcp.Session.{Session, Environment}
use dolphin_re_mcp.Tools.Memory.{read}
use dolphin_re_mcp.Tools.Memory.Report.{Difference, differences, saved_slice, diff_live_vs_dump}

-- The entry for an offset, if there is one.
unfoldable pub entry_at : ℕ → List Difference → Option Difference
entry_at i [] = none
entry_at i (d ∷ ds) = if d.offset == i then some d else entry_at i ds

-- What the entry for an offset has to be: none where the bytes are equal or one is missing.
abbrev pub expected : ℤ → ℕ → Option ℕ → Option ℕ → Option Difference
expected addr i (some a) (some b) =
    if a == b then none else some (record { offset = i; addr = addr +ℤ pos i; live = a; dump = b })
expected addr i _ _ = none

-- Nothing in front of the first offset.
entry_at-before :
    (addr : ℤ) (i k : ℕ) (live saved : Bytes)
    → k < i
    → entry_at k (differences addr i live saved) ≡ none
unfolding entry_at differences
entry_at-before addr i k (a ∷ live) (b ∷ saved) h =
    ground (arith, entry_at-before addr (suc i) k live saved)
entry_at-before addr i k [] saved h = refl
entry_at-before addr i k (a ∷ live) [] h = refl

no_entry : (addr : ℤ) (i : ℕ) (o : Option ℕ) → none ≡ expected addr i o none
no_entry addr i none = refl
no_entry addr i (some a) = refl

entry_at-differences :
    (addr : ℤ) (i k : ℕ) (live saved : Bytes)
    → entry_at (i + k) (differences addr i live saved)
      ≡ expected addr (i + k) (get_elem? live k) (get_elem? saved k)
unfolding entry_at differences
entry_at-differences addr i zero (a ∷ live) (b ∷ saved) =
    let here : i + 0 ≡ i = omega arith in
    rw here (ground (arith, entry_at-before addr (suc i) i live saved))
entry_at-differences addr i (suc k) (a ∷ live) (b ∷ saved) =
    let moved : i + suc k ≡ suc i + k = omega arith in
    let rest = differences addr (suc i) live saved in
    let skip : (i == suc i + k) ≡ false = ground arith in
    let ih : entry_at (suc i + k) rest
        ≡ expected addr (suc i + k) (get_elem? live k) (get_elem? saved k) =
      entry_at-differences addr (suc i) k live saved in
    rw moved (elim (Bool-cases (a == b)) [ inl e ↦ rw e ih | inr e ↦ rw e (rw skip ih) ])
entry_at-differences addr i k [] saved = refl
entry_at-differences addr i k (a ∷ live) [] = no_entry addr (i + k) (get_elem? (a ∷ live) k)

-- The dump's slice stands at the same offset in its region as the address.
module _ (env : Environment) (addr size : ℤ) (blob live : Bytes) (s : Session)
    (routed : RoutedAddress) where
  -- For an access that routes, a dump that is long enough and a read that gives the live bytes, the
  -- comparison succeeds, leaves the session as it was, and has for each offset an entry exactly
  -- where the live byte and the byte of the dump at the same place of the region differ, with both.
  pub diff_live_vs_dump-entries :
      route addr size ≡ ok routed
      → routed.offset +ℤ size ≤ℤ pos (length blob)
      → read env addr size s ≡ (ok live, s)
      → (out : List Difference) × (diff_live_vs_dump env addr size (some blob) s ≡ (ok out, s))
        × ((i : ℕ)
            → entry_at i out
              ≡ expected addr i
                  (get_elem? live i)
                  (get_elem? (saved_slice routed.offset size blob) i))
  unfolding diff_live_vs_dump
  diff_live_vs_dump-entries in_region long_enough got =
      let saved = saved_slice routed.offset size blob in
      let enough : ltb_ℤ (pos (length blob)) (routed.offset +ℤ size) ≡ false = ground arith in
      (
        differences addr 0 live saved,
        rw in_region (rw enough (rw got refl)),
        λ i.
            let same : 0 + i ≡ i = omega arith in
            rw same at (entry_at-differences addr 0 i live saved),
      )

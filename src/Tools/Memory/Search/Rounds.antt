-- ===== src/Tools/Memory/Search/Rounds.antt =====
-- One round of `search_mem` over memory that holds still, and what is left to find behind it.
use mathlib.Core.Path.{ap₂}
use dolphin_re_mcp.Prelude.{
  ℕ, suc, ◌+◌, ◌-◌, ◌≤◌, ◌<◌, ◌≡◌, refl, sym, ap, ◌∙◌, ◌⊎◌, inl, inr, Bool, true, false, List, [],
  ◌∷◌, ◌++◌, map, arith, if◌then◌else◌, append_assoc, append-nil, length, take, drop, length-append,
  length-take, length-drop, take-append-drop,
}
use dolphin_re_mcp.Prelude.Int.{ℤ, pos, int_laws}
use dolphin_re_mcp.Prelude.Text.{Bytes, starts_with}
use dolphin_re_mcp.Errors.{ok}
use dolphin_re_mcp.Session.{Session, Environment, ensure_connected, mem_read}
use dolphin_re_mcp.Tools.Memory.Search.{tail_of, at_guest}
use dolphin_re_mcp.Tools.Memory.Search.Splits.{occurrences, occurrences-overlap, occurrences_short}

-- A session that is connected, over a region whose bytes are those of a fixed image.
pub record Shows (env : Environment) (base size : ℕ) (image : Bytes) (s : Session) : Type 0 where
  pub connected : ensure_connected env s ≡ (ok tt, s)
  pub covers : length image ≡ size
  pub reads :
      (off n : ℕ)
      → 0 < n
      → off + n ≤ size
      → mem_read env.host (pos (base + off)) (pos n) s ≡ (ok (take n (drop off image)), s)

module _ (pat : Bytes) (overlap : ℕ) (one_less : suc overlap ≡ length pat) where
  -- One round: what is found in the buffer and what is left to find.
  pub occurrences-round :
      (tail bytes r : Bytes) (c : ℕ)
      → length tail ≤ c
      → (overlap ≤ length bytes) ⊎ (r ≡ [])
      → occurrences pat (tail ++ (bytes ++ r)) (c - length tail)
        ≡ occurrences pat (tail ++ bytes) (c - length tail)
          ++ occurrences pat
              (tail_of overlap bytes ++ r)
              (c + length bytes - length (tail_of overlap bytes))
  occurrences-round tail bytes r c low (inl long) =
      let k = length bytes - overlap in
      let t = drop k bytes in
      let short : suc (length t) ≡ length pat = omega (arith, length-drop k bytes) in
      let joined : (tail ++ take k bytes) ++ t ≡ tail ++ bytes =
        append_assoc tail (take k bytes) t ∙ ap (λ x. tail ++ x) (take-append-drop k bytes) in
      let joined_r : (tail ++ take k bytes) ++ (t ++ r) ≡ tail ++ (bytes ++ r) =
        sym (append_assoc (tail ++ take k bytes) t r)
        ∙ ap (λ x. x ++ r) joined
        ∙ append_assoc tail bytes r in
      let moved : c - length tail + length (tail ++ take k bytes) ≡ c + length bytes - length t =
        omega
          (arith, length-append tail (take k bytes), length-take k bytes, length-drop k bytes) in
      rw (← joined_r, ← joined, ← moved)
        (occurrences-overlap pat (tail ++ take k bytes) t r (c - length tail) short)
  occurrences-round tail bytes r c low (inr none_left) =
      let k = length bytes - overlap in
      let t = drop k bytes in
      let nothing : occurrences pat t (c + length bytes - length t) ≡ [] =
        occurrences_short pat t (c + length bytes - length t)
          (omega (arith, length-drop k bytes)) in
      rw none_left (rw (append-nil bytes, append-nil t) (rw nothing (sym (append-nil _))))

-- The guest addresses of positions.
abbrev pub addresses : ℕ → List ℕ → List ℤ
addresses base is = map (λ i. pos (base + i)) is

shift-if :
    (f g : ℕ → ℤ) {i j : ℕ} (is js : List ℕ) (b : Bool)
    → f i ≡ g j
    → map f is ≡ map g js
    → map f (if b then i ∷ is else is) ≡ map g (if b then j ∷ js else js)
shift-if f g is js true h k = ap₂ ◌∷◌ h k
shift-if f g is js false h k = k

pub shift :
    (f g : ℕ → ℤ) (pat s : Bytes) (i j : ℕ)
    → ((d : ℕ) → f (i + d) ≡ g (j + d))
    → map f (occurrences pat s i) ≡ map g (occurrences pat s j)
unfolding occurrences
shift f g pat [] i j h = refl
shift f g pat (c ∷ s) i j h =
    let here : f i ≡ g j = ap f (omega arith) ∙ h 0 ∙ ap g (omega arith) in
    let later : map f (occurrences pat s (suc i)) ≡ map g (occurrences pat s (suc j)) =
      shift f g pat s (suc i) (suc j) (λ d. ap f (omega arith) ∙ h (suc d) ∙ ap g (omega arith)) in
    shift-if f g _ _ (starts_with (c ∷ s) pat) here later

pub at_guest-pos :
    (base cursor tail d : ℕ)
    → tail ≤ cursor
    → at_guest (base + cursor) tail (0 + d) ≡ pos (base + (cursor - tail + d))
at_guest-pos base cursor tail d h = omega int_laws

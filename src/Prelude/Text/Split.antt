-- ===== src/Prelude/Text/Split.antt =====
-- `split`, `partition` at a separator, `split()` at white space, `splitlines`.
use Prim.Native.Nat.{ℕ, zero, suc}
use mathlib.Core.Bool.{Bool, true, false, ◌&&◌, ◌||◌}
use mathlib.Core.List.{List, [], ◌∷◌, ◌++◌}
use mathlib.Core.Option.{Option, none, some}
use dolphin_re_mcp.Prelude.Tests.{leb, ◌==◌, Option-cases, if◌then◌else◌}
use mathlib.Core.Path.{◌≡◌}
use mathlib.Core.Logic.{inl, inr}
use native.Mathlib.Omega.{arith}
use dolphin_re_mcp.Prelude.Lists.{reverse_onto, All}
use dolphin_re_mcp.Prelude.Text.Chars.{Text, is_space, lstrip}

-- What a split puts in front of the first part.
abbrev grow : ℕ → List Text → List Text
grow c [] = (c ∷ []) ∷ []
grow c (p ∷ ps) = (c ∷ p) ∷ ps

-- `s.split(sep)` for a separator of one character: never empty.
unfoldable pub split_on : ℕ → Text → List Text
split_on sep [] = [] ∷ []
split_on sep (c ∷ s) = let rest = split_on sep s in if c == sep then [] ∷ rest else grow c rest

-- `s.split(sep, 1)`, where `sep in s` was tested.
unfoldable pub split_once : ℕ → Text → Option (Text × Text)
split_once sep [] = none
split_once sep (c ∷ s) =
    let rest = split_once sep s in
    if c == sep then some ([], s) else elim rest [ none ↦ none | some (a, b) ↦ some (c ∷ a, b) ]

-- The text up to the first white space, and what follows.
unfoldable pub word : Text → Text × Text
word [] = ([], [])
word (c ∷ s) = let rest = word s in if is_space c then ([], c ∷ s) else (c ∷ rest.0, rest.1)

-- `s.split(None, n)`: n words, then the rest with its leading white space gone.
split_words_from : ℕ → Text → List Text
unfolding word lstrip
split_words_from n [] = []
split_words_from zero (c ∷ s) = (c ∷ s) ∷ []
split_words_from (suc n) (c ∷ s) = let (w, r) = word (c ∷ s) in w ∷ split_words_from n (lstrip r)

unfoldable pub split_words : ℕ → Text → List Text
unfolding split_words_from
split_words n s = split_words_from n (lstrip s)

abbrev two_parts : Text → Text → Option (Text × Text)
two_parts [] w = none
two_parts (c ∷ s) w = some (reverse_onto (c ∷ s) [], reverse_onto w [])

-- `s.rsplit(None, 1)`, where it gives two parts.
unfoldable pub split_last_word : Text → Option (Text × Text)
unfolding word lstrip
split_last_word s = let (w, r) = word (lstrip (reverse_onto s [])) in two_parts (lstrip r) w

-- The line breaks of `splitlines`: LF, VT, FF, CR, FS, GS, RS, NEL; CR LF is one break.
abbrev pub is_line_break : ℕ → Bool
is_line_break c = (leb 10 c && leb c 13) || (leb 28 c && leb c 30) || c == 0x85

-- `cur` is the line so far, backwards; `cr` tells that a CR has just ended a line.
lines_from : Text → Bool → Text → List Text
lines_from [] cr [] = []
lines_from (d ∷ cur) cr [] = reverse_onto (d ∷ cur) [] ∷ []
lines_from cur cr (c ∷ s) = elim (cr && c == 10) [
  | true ↦ lines_from [] false s
  | false ↦ elim (is_line_break c) [
    | true ↦ reverse_onto cur [] ∷ lines_from [] (c == 13) s
    | false ↦ lines_from (c ∷ cur) false s
  ]
]

-- `s.splitlines()`; the text behind the last break is a line unless it is empty.
unfoldable pub split_lines : Text → List Text
unfolding lines_from
split_lines s = lines_from [] false s

-- What is split off does not change when more text follows.
pub split_once-append :
    (c : ℕ) (s t : Text) {a b : Text}
    → split_once c s ≡ some (a, b)
    → split_once c (s ++ t) ≡ some (a, b ++ t)
unfolding split_once
split_once-append c [] t h = cc
split_once-append c (d ∷ s) t h = elim (Option-cases (split_once c s)) [
  | inl e ↦ ground arith
  | inr (p, e) ↦
      let ih : split_once c (s ++ t) ≡ some (p.0, p.1 ++ t) = split_once-append c s t e in
      ground arith
]

abbrev pub Lacks : ℕ → Text → Type 0
Lacks c = All (λ d. (d == c) ≡ false)

pub split_once-Lacks : (c : ℕ) (s t : Text) → Lacks c s → split_once c (s ++ (c ∷ t)) ≡ some (s, t)
unfolding split_once
split_once-Lacks c [] t h = ground arith
split_once-Lacks c (d ∷ s) t h = ground (arith, split_once-Lacks c s t h.1)

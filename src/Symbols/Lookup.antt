-- ===== src/Symbols/Lookup.antt =====
-- What a lookup finds.
use mathlib.Core.Option.{some-injective}
use mathlib.Core.Path.{subst}
use dolphin_re_mcp.Prelude.{
  ℕ, zero, suc, ◌≡◌, refl, ap, sym, ◌∙◌, ◌⊎◌, inl, inr, true, false, Option, none, some, List, [],
  ◌∷◌, ◌++◌, ◌≢◌, All, All-append, is_empty, map, arith, get_elem?, Bool-cases, Option-cases,
  if◌then◌else◌,
}
use dolphin_re_mcp.Prelude.Int.{ℤ, ◌+ℤ◌, ◌≤ℤ◌, ◌<ℤ◌, leb_ℤ, eqb_ℤ, eqb_ℤ_iff}
use dolphin_re_mcp.Prelude.Dict.{Dict, lookup, insert}
use dolphin_re_mcp.Symbols.{
  Symbol, bisect_right, end_of, contains, if_contains, before, or_before, lookup_symbol, exact_from,
  table,
}

abbrev pub Among : Symbol → List Symbol → Type 0
Among x [] = ⊥
Among x (s ∷ ss) = (s ≡ x) ⊎ Among x ss

-- Each symbol ends before the next one starts.
abbrev pub Spaced : List Symbol → Type 0
Spaced [] = Unit
Spaced (s ∷ []) = Unit
Spaced (s ∷ t ∷ ss) = (end_of s ≤ℤ t.addr) × Spaced (t ∷ ss)

-- The last symbol that starts at the address or below.
pick : Symbol → List Symbol → ℤ → Symbol
pick s [] x = s
pick s (t ∷ ss) x = let rest = pick t ss x in if leb_ℤ t.addr x then rest else s

get_elem?-bisect :
    (s : Symbol) (ss : List Symbol) (x : ℤ)
    → get_elem? (s ∷ ss) (bisect_right (map (λ (t : Symbol). t.addr) ss) x) ≡ some (pick s ss x)
unfolding bisect_right pick
get_elem?-bisect s [] x = refl
get_elem?-bisect s (t ∷ ss) x = elim (Bool-cases (leb_ℤ t.addr x)) [
  | inl b ↦ rw b (get_elem?-bisect t ss x)
  | inr b ↦ rw b refl
]

starts-below : (s : Symbol) (x : ℤ) → contains s x ≡ true → s.addr ≤ℤ x
unfolding contains
starts-below s x h = ground arith

ends-above :
    (s t : Symbol) (x : ℤ) → contains s x ≡ true → end_of s ≤ℤ t.addr → leb_ℤ t.addr x ≡ false
unfolding contains
ends-above s t x h k = ground arith

end-above_start : (s : Symbol) → s.addr ≤ℤ end_of s
unfolding end_of ◌+ℤ◌
end-above_start s = ground arith

first-lowest :
    (t : Symbol) (ss : List Symbol) (x : Symbol)
    → Spaced (t ∷ ss)
    → Among x (t ∷ ss)
    → t.addr ≤ℤ x.addr
first-lowest t ss x h (inl e) = rw e (omega arith)
first-lowest t [] x h (inr k) = elim k [ ]
first-lowest t (u ∷ ss) x h (inr k) =
    omega (arith, h.0, end-above_start t, first-lowest u ss x h.1 k)

pick-Among : (s : Symbol) (ss : List Symbol) (x : ℤ) → Among (pick s ss x) (s ∷ ss)
unfolding pick
pick-Among s [] x = inl refl
pick-Among s (t ∷ ss) x = elim (Bool-cases (leb_ℤ t.addr x)) [
  | inl b ↦
      let later : pick s (t ∷ ss) x ≡ pick t ss x = rw b refl in
      subst (λ (z : Symbol). Among z (s ∷ t ∷ ss)) (sym later) (inr (pick-Among t ss x))
  | inr b ↦
      let here : pick s (t ∷ ss) x ≡ s = rw b refl in
      subst (λ (z : Symbol). Among z (s ∷ t ∷ ss)) (sym here) (inl refl)
]

-- In a spaced table the symbol that contains an address is the last that starts at it or below.
pick-Spaced :
    (s : Symbol) (ss : List Symbol) (y : Symbol) (x : ℤ)
    → Spaced (s ∷ ss)
    → Among y (s ∷ ss)
    → contains y x ≡ true
    → pick s ss x ≡ y
unfolding pick
pick-Spaced s [] y x h (inl e) c = e
pick-Spaced s [] y x h (inr k) c = elim k [ ]
pick-Spaced s (t ∷ ss) y x h (inl e) c =
    let later : leb_ℤ t.addr x ≡ false =
      ends-above s t x (ap (λ (z : Symbol). contains z x) e ∙ c) h.0 in
    rw later e
pick-Spaced s (t ∷ ss) y x h (inr k) c =
    let low : t.addr ≤ℤ y.addr = first-lowest t ss y h.1 k in
    let at : y.addr ≤ℤ x = starts-below y x c in
    let here : leb_ℤ t.addr x ≡ true = ground arith in rw here (pick-Spaced t ss y x h.1 k c)

-- What an insertion lets a lookup find.
lookup-insert_cases :
    (x k : ℤ) (v : Symbol) (d : Dict ℤ Symbol) (y : Symbol)
    → lookup eqb_ℤ x (insert eqb_ℤ k v d) ≡ some y
    → ((k ≡ x) × (v ≡ y)) ⊎ (lookup eqb_ℤ x d ≡ some y)
lookup-insert_cases x k v [] y h = ground (arith, eqb_ℤ_iff x k)
lookup-insert_cases x k v (e ∷ d) y h =
    ground (arith, lookup-insert_cases x k v d y, eqb_ℤ_iff k e.0, eqb_ℤ_iff x e.0)

lookup-exact :
    (x : ℤ) (d : Dict ℤ Symbol) (ss : List Symbol) (y : Symbol)
    → lookup eqb_ℤ x (exact_from d ss) ≡ some y
    → (Among y ss × (y.addr ≡ x)) ⊎ (lookup eqb_ℤ x d ≡ some y)
lookup-exact x d [] y h = inr h
lookup-exact x d (s ∷ ss) y h = elim (lookup-exact x (insert eqb_ℤ s.addr s d) ss y h) [
  | inl (there, same) ↦ inl (inr there, same)
  | inr found ↦ elim (lookup-insert_cases x s.addr s d y found) [
    | inl (at, same) ↦ inl (inl same, ap (λ (z : Symbol). z.addr) (sym same) ∙ at)
    | inr old ↦ inr old
  ]
]

contains-start : (y : Symbol) (x : ℤ) → y.addr ≡ x → contains y x ≡ true
unfolding contains end_of ◌+ℤ◌
contains-start y x h = ground arith

get_elem?-Among : (ss : List Symbol) (i : ℕ) (y : Symbol) → get_elem? ss i ≡ some y → Among y ss
get_elem?-Among [] i y h = ground arith
get_elem?-Among (s ∷ ss) zero y h = inl (some-injective s y h)
get_elem?-Among (s ∷ ss) (suc i) y h = inr (get_elem?-Among ss i y h)

before-Among : (ss : List Symbol) (i : ℕ) (y : Symbol) → before ss i ≡ some y → Among y ss
before-Among ss zero y h = ground arith
before-Among ss (suc i) y h = get_elem?-Among ss i y h

if_contains_sound :
    (x : ℤ) (o : Option Symbol) (y : Symbol)
    → if_contains x o ≡ some y
    → (o ≡ some y) × (contains y x ≡ true)
if_contains_sound x none y h = ground arith
if_contains_sound x (some s) y h = elim (Bool-cases (contains s x)) [
  | inl b ↦
      let found : if_contains x (some s) ≡ some s = rw b refl in
      let same : s ≡ y = some-injective s y (sym found ∙ h) in
      (ap (λ (z : Symbol). some z) same, ap (λ (z : Symbol). contains z x) (sym same) ∙ b)
  | inr b ↦
      let found : if_contains x (some s) ≡ none = rw b refl in absurd (ground (arith, found, h))
]

or_before_sound :
    (syms : List Symbol) (n : ℕ) (x : ℤ) (o : Option Symbol) (y : Symbol)
    → lookup eqb_ℤ x (exact_from [] syms) ≡ o
    → or_before (table syms n) x o ≡ some y
    → Among y syms × (contains y x ≡ true)
unfolding table
or_before_sound syms n x (some s) y e h = elim (lookup-exact x [] syms s e) [
  | inl (there, at) ↦
      let same : s ≡ y = some-injective s y h in
      (
        subst (λ (z : Symbol). Among z syms) same there,
        contains-start y x (ap (λ (z : Symbol). z.addr) (sym same) ∙ at),
      )
  | inr old ↦ absurd (ground (arith, old))
]
or_before_sound syms n x none y e h =
    let (found, c) =
      if_contains_sound x (before syms (bisect_right (map (λ (s : Symbol). s.addr) syms) x)) y h in
    (before-Among syms _ y found, c)

-- What a lookup finds is a symbol of the table, and it contains the address.
pub lookup_symbol_sound :
    (syms : List Symbol) (n : ℕ) (x : ℤ) (y : Symbol)
    → lookup_symbol (table syms n) x ≡ some y
    → Among y syms × (contains y x ≡ true)
unfolding lookup_symbol table
lookup_symbol_sound [] n x y h = ground arith
lookup_symbol_sound (s ∷ ss) n x y h =
    or_before_sound (s ∷ ss) n x (lookup eqb_ℤ x (exact_from [] (s ∷ ss))) y refl h

before-Spaced :
    (s : Symbol) (ss : List Symbol) (y : Symbol) (x : ℤ)
    → Spaced (s ∷ ss)
    → Among y (s ∷ ss)
    → contains y x ≡ true
    → before (s ∷ ss) (bisect_right (map (λ (t : Symbol). t.addr) (s ∷ ss)) x) ≡ some y
unfolding bisect_right
before-Spaced s ss y x h k c =
    let low : s.addr ≤ℤ y.addr = first-lowest s ss y h k in
    let at : y.addr ≤ℤ x = starts-below y x c in
    let here : leb_ℤ s.addr x ≡ true = ground arith in
    rw here (get_elem?-bisect s ss x ∙ ap (λ (z : Symbol). some z) (pick-Spaced s ss y x h k c))

or_before-Spaced :
    (s : Symbol) (ss : List Symbol) (n : ℕ) (x : ℤ) (o : Option Symbol) (y : Symbol)
    → Spaced (s ∷ ss)
    → Among y (s ∷ ss)
    → contains y x ≡ true
    → lookup eqb_ℤ x (exact_from [] (s ∷ ss)) ≡ o
    → or_before (table (s ∷ ss) n) x o ≡ some y
unfolding table
or_before-Spaced s ss n x none y h k c e =
    ap (if_contains x) (before-Spaced s ss y x h k c) ∙ rw c refl
or_before-Spaced s ss n x (some z) y h k c e = elim (lookup-exact x [] (s ∷ ss) z e) [
  | inl (there, at) ↦
      let z_is_y : z ≡ y =
        sym (pick-Spaced s ss z x h there (contains-start z x at)) ∙ pick-Spaced s ss y x h k c in
      ap (λ (w : Symbol). some w) z_is_y
  | inr old ↦ absurd (ground (arith, old))
]

-- In a table whose symbols do not overlap, a lookup finds the symbol that contains the address,
-- although it looks at one symbol only.
pub lookup_symbol-Spaced :
    (syms : List Symbol) (n : ℕ) (x : ℤ) (y : Symbol)
    → Spaced syms
    → Among y syms
    → contains y x ≡ true
    → lookup_symbol (table syms n) x ≡ some y
unfolding lookup_symbol table
lookup_symbol-Spaced [] n x y h k c = elim k [ ]
lookup_symbol-Spaced (s ∷ ss) n x y h k c =
    or_before-Spaced s ss n x (lookup eqb_ℤ x (exact_from [] (s ∷ ss))) y h k c refl

abbrev pub StartsBelow : ℤ → Symbol → Type 0
StartsBelow x s = s.addr <ℤ x

abbrev pub StartsAbove : ℤ → Symbol → Type 0
StartsAbove x s = x <ℤ s.addr

All-Among : (P : Symbol → Type 0) (ss : List Symbol) (y : Symbol) → All P ss → Among y ss → P y
All-Among P [] y h k = elim k [ ]
All-Among P (s ∷ ss) y h (inl e) = subst P e h.0
All-Among P (s ∷ ss) y h (inr k) = All-Among P ss y h.1 k

abbrev StartsElsewhere : ℤ → Symbol → Type 0
StartsElsewhere x s = s.addr ≢ x

below-Elsewhere : (x : ℤ) (ss : List Symbol) → All (StartsBelow x) ss → All (StartsElsewhere x) ss
below-Elsewhere x [] h = tt
below-Elsewhere x (s ∷ ss) h =
    ((λ e. ground (arith, h.0, ap (λ (z : ℤ). leb_ℤ x z) e)), below-Elsewhere x ss h.1)

above-Elsewhere : (x : ℤ) (ss : List Symbol) → All (StartsAbove x) ss → All (StartsElsewhere x) ss
above-Elsewhere x [] h = tt
above-Elsewhere x (s ∷ ss) h =
    ((λ e. ground (arith, h.0, ap (λ (z : ℤ). leb_ℤ z x) e)), above-Elsewhere x ss h.1)

bisect_right_above :
    (x : ℤ) (ss : List Symbol)
    → All (StartsAbove x) ss
    → bisect_right (map (λ (s : Symbol). s.addr) ss) x ≡ 0
unfolding bisect_right
bisect_right_above x [] h = refl
bisect_right_above x (s ∷ ss) h = let high : leb_ℤ s.addr x ≡ false = ground arith in rw high refl

-- The symbol in front of the place that the bisection gives.
before-bisect_last :
    (below above : List Symbol) (t : Symbol) (x : ℤ)
    → All (StartsBelow x) below
    → StartsBelow x t
    → All (StartsAbove x) above
    → (i : ℕ) × (bisect_right (map (λ (s : Symbol). s.addr) (below ++ t ∷ above)) x ≡ suc i)
      × (get_elem? (below ++ t ∷ above) i ≡ some t)
unfolding bisect_right
before-bisect_last [] above t x h low k =
    let here : leb_ℤ t.addr x ≡ true = ground arith in
    (0, rw here (ap suc (bisect_right_above x above k)), refl)
before-bisect_last (s ∷ below) above t x h low k =
    let here : leb_ℤ s.addr x ≡ true = ground (arith, h.0) in
    let (i, at, found) = before-bisect_last below above t x h.1 low k in
    (suc i, rw here (ap suc at), found)

append-not_empty : (ss above : List Symbol) (t : Symbol) → is_empty (ss ++ t ∷ above) ≡ false
append-not_empty [] above t = refl
append-not_empty (s ∷ ss) above t = refl

-- Take the table of symbols of which the last that starts below an address does not contain it,
-- and none starts at it. The address is not resolved, whichever of the symbols in front contain it:
-- a symbol that starts inside another one hides the rest of it, however many there are.
pub lookup_symbol_hidden :
    (below above : List Symbol) (t : Symbol) (n : ℕ) (x : ℤ)
    → All (StartsBelow x) below
    → StartsBelow x t
    → All (StartsAbove x) above
    → contains t x ≡ false
    → lookup_symbol (table (below ++ t ∷ above) n) x ≡ none
unfolding lookup_symbol table
lookup_symbol_hidden below above t n x h low k out =
    let syms = below ++ t ∷ above in
    let elsewhere : All (StartsElsewhere x) syms =
      All-append (StartsElsewhere x) below (t ∷ above) (below-Elsewhere x below h)
        ((below-Elsewhere x (t ∷ []) (low, tt)).0, above-Elsewhere x above k) in
    let (i, at, found) = before-bisect_last below above t x h low k in
    rw (append-not_empty below above t) (elim (Option-cases (lookup eqb_ℤ x (exact_from [] syms))) [
      | inl e ↦ rw (e, at, found, out) refl
      | inr (z, e) ↦ elim (lookup-exact x [] syms z e) [
        | inr old ↦ absurd (ground (arith, old))
        | inl (there, start) ↦ absurd (All-Among (StartsElsewhere x) syms z elsewhere there start)
      ]
    ])

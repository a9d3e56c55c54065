-- ===== src/Prelude/Dict.antt =====
-- A Python dict in insertion order, for keys with a Boolean equality.
use mathlib.Core.Path.{◌≡◌, refl}
use mathlib.Core.Logic.{◌↔◌, inl, inr}
use mathlib.Core.Bool.{Bool, true}
use mathlib.Core.Option.{Option, none, some}
use mathlib.Core.List.{List, [], ◌∷◌, map}
use dolphin_re_mcp.Prelude.Tests.{if◌then◌else◌, Bool-cases}

abbrev pub Dict : Type 0 → Type 0 → Type 0
Dict K V = List (K × V)

module _ {K V : Type 0} where
  abbrev pub keys : Dict K V → List K
  keys d = map (λ e. e.0) d

  abbrev pub values : Dict K V → List V
  values d = map (λ e. e.1) d

module _ {K V : Type 0} (eq : K → K → Bool) where
  -- `d.get(k)`
  abbrev pub lookup : K → Dict K V → Option V
  lookup k [] = none
  lookup k (e ∷ d) = if eq k e.0 then some e.1 else lookup k d

  -- `d[k] = v`: a key that is there keeps its place.
  abbrev pub insert : K → V → Dict K V → Dict K V
  insert k v [] = (k, v) ∷ []
  insert k v (e ∷ d) = if eq k e.0 then (e.0, v) ∷ d else e ∷ insert k v d

  -- `d.pop(k, None)`, the dict that is left.
  abbrev pub erase : K → Dict K V → Dict K V
  erase k [] = []
  erase k (e ∷ d) = if eq k e.0 then d else e ∷ erase k d

module _ {K V : Type 0} (eq : K → K → Bool) (law : (a b : K) → (eq a b ≡ true) ↔ (a ≡ b)) where
  pub lookup-insert : (k : K) (v : V) (d : Dict K V) → lookup eq k (insert eq k v d) ≡ some v
  lookup-insert k v [] = rw ((law k k).1 refl) refl
  lookup-insert k v (e ∷ d) = elim (Bool-cases (eq k e.0)) [
    | inl h ↦ rw (h, h) refl
    | inr h ↦ rw (h, h) (lookup-insert k v d)
  ]

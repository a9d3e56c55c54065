-- ===== src/Symbols/Sort.antt =====
-- The order a symbol map is loaded in.
use mathlib.Core.Path.{subst}
use dolphin_re_mcp.Prelude.{
  ◌≡◌, refl, ◌↔◌, ◌⊎◌, inl, inr, true, false, some, List, [], ◌∷◌, arith, Bool-cases,
}
use dolphin_re_mcp.Prelude.Int.{ℤ, pos, ◌+ℤ◌, ◌≤ℤ◌, ltb_ℤ, eqb_ℤ_iff}
use dolphin_re_mcp.Prelude.Text.{Text}
use dolphin_re_mcp.Symbols.{
  Symbol, end_of, contains, lookup_symbol, key_le, insert_sorted, sort, load, parse_text,
}
use dolphin_re_mcp.Symbols.Lookup.{Among, Spaced, lookup_symbol-Spaced, lookup_symbol_sound}

-- Neither symbol starts inside the other one.
abbrev Apart : Symbol → Symbol → Type 0
Apart s t = (end_of s ≤ℤ t.addr) ⊎ (end_of t ≤ℤ s.addr)

abbrev ApartFromAll : Symbol → List Symbol → Type 0
ApartFromAll s [] = Unit
ApartFromAll s (t ∷ ts) = Apart s t × ApartFromAll s ts

-- No two symbols overlap, in whatever order they stand.
abbrev pub Disjoint : List Symbol → Type 0
Disjoint [] = Unit
Disjoint (s ∷ ss) = ApartFromAll s ss × Disjoint ss

end-past_start : (s : Symbol) (x : ℤ) → end_of s ≤ℤ x → x ≤ℤ s.addr → ⊥
unfolding end_of ◌+ℤ◌
end-past_start s x h k = elim (Bool-cases (ltb_ℤ (pos 0) s.size)) [
  | inl b ↦ ground arith
  | inr b ↦ ground arith
]

key_le-low : (s t : Symbol) → key_le s t ≡ true → s.addr ≤ℤ t.addr
key_le-low s t k = elim (Bool-cases (ltb_ℤ s.addr t.addr)) [
  | inl b ↦ ground arith
  | inr b ↦ ground (arith, eqb_ℤ_iff s.addr t.addr)
]

key_le-high : (s t : Symbol) → key_le s t ≡ false → t.addr ≤ℤ s.addr
key_le-high s t k = elim (Bool-cases (ltb_ℤ s.addr t.addr)) [
  | inl b ↦ ground arith
  | inr b ↦ ground arith
]

Apart-key_le : (s t : Symbol) → Apart s t → key_le s t ≡ true → end_of s ≤ℤ t.addr
Apart-key_le s t (inl h) k = h
Apart-key_le s t (inr h) k = absurd (end-past_start t s.addr h (key_le-low s t k))

Apart-key_gt : (s t : Symbol) → Apart s t → key_le s t ≡ false → end_of t ≤ℤ s.addr
Apart-key_gt s t (inl h) k = absurd (end-past_start s t.addr h (key_le-high s t k))
Apart-key_gt s t (inr h) k = h

insert_sorted-behind :
    (t s : Symbol) (ts : List Symbol)
    → Spaced (t ∷ ts)
    → end_of t ≤ℤ s.addr
    → ApartFromAll s ts
    → Spaced (t ∷ insert_sorted s ts)
unfolding insert_sorted
insert_sorted-behind t s [] h low k = (low, tt)
insert_sorted-behind t s (u ∷ us) h low k = elim (Bool-cases (key_le s u)) [
  | inl b ↦ rw b (low, (Apart-key_le s u k.0 b, h.1))
  | inr b ↦ rw b (h.0, insert_sorted-behind u s us h.1 (Apart-key_gt s u k.0 b) k.1)
]

insert_sorted-Spaced :
    (s : Symbol) (ts : List Symbol) → Spaced ts → ApartFromAll s ts → Spaced (insert_sorted s ts)
unfolding insert_sorted
insert_sorted-Spaced s [] h k = tt
insert_sorted-Spaced s (t ∷ ts) h k = elim (Bool-cases (key_le s t)) [
  | inl b ↦ rw b (Apart-key_le s t k.0 b, h)
  | inr b ↦ rw b (insert_sorted-behind t s ts h (Apart-key_gt s t k.0 b) k.1)
]

insert_sorted-ApartFromAll :
    (x s : Symbol) (ts : List Symbol)
    → Apart x s
    → ApartFromAll x ts
    → ApartFromAll x (insert_sorted s ts)
unfolding insert_sorted
insert_sorted-ApartFromAll x s [] h k = (h, tt)
insert_sorted-ApartFromAll x s (t ∷ ts) h k = elim (Bool-cases (key_le s t)) [
  | inl b ↦ rw b (h, k)
  | inr b ↦ rw b (k.0, insert_sorted-ApartFromAll x s ts h k.1)
]

sort-ApartFromAll : (x : Symbol) (ss : List Symbol) → ApartFromAll x ss → ApartFromAll x (sort ss)
unfolding sort
sort-ApartFromAll x [] h = tt
sort-ApartFromAll x (s ∷ ss) h =
    insert_sorted-ApartFromAll x s (sort ss) h.0 (sort-ApartFromAll x ss h.1)

sort-Spaced : (ss : List Symbol) → Disjoint ss → Spaced (sort ss)
unfolding sort
sort-Spaced [] h = tt
sort-Spaced (s ∷ ss) h =
    insert_sorted-Spaced s (sort ss) (sort-Spaced ss h.1) (sort-ApartFromAll s ss h.0)

insert_sorted-Among :
    (y s : Symbol) (ts : List Symbol) → (s ≡ y) ⊎ Among y ts → Among y (insert_sorted s ts)
unfolding insert_sorted
insert_sorted-Among y s [] h = h
insert_sorted-Among y s (t ∷ ts) h = elim (Bool-cases (key_le s t)) [
  | inl b ↦ rw b h
  | inr b ↦ rw b (elim h [
    | inl e ↦ inr (insert_sorted-Among y s ts (inl e))
    | inr (inl e) ↦ inl e
    | inr (inr k) ↦ inr (insert_sorted-Among y s ts (inr k))
  ])
]

sort-Among : (y : Symbol) (ss : List Symbol) → Among y ss → Among y (sort ss)
unfolding sort
sort-Among y [] h = h
sort-Among y (s ∷ ss) (inl e) = insert_sorted-Among y s (sort ss) (inl e)
sort-Among y (s ∷ ss) (inr k) = insert_sorted-Among y s (sort ss) (inr (sort-Among y ss k))

insert_sorted-Among_only :
    (y s : Symbol) (ts : List Symbol) → Among y (insert_sorted s ts) → (s ≡ y) ⊎ Among y ts
unfolding insert_sorted
insert_sorted-Among_only y s [] h = h
insert_sorted-Among_only y s (t ∷ ts) h = elim (Bool-cases (key_le s t)) [
  | inl b ↦ let first : insert_sorted s (t ∷ ts) ≡ s ∷ t ∷ ts = rw b refl in subst (Among y) first h
  | inr b ↦
      let later : insert_sorted s (t ∷ ts) ≡ t ∷ insert_sorted s ts = rw b refl in
      elim (subst (Among y) later h) [
        | inl e ↦ inr (inl e)
        | inr k ↦ elim (insert_sorted-Among_only y s ts k) [ inl e ↦ inl e | inr l ↦ inr (inr l) ]
      ]
]

sort-Among_only : (y : Symbol) (ss : List Symbol) → Among y (sort ss) → Among y ss
unfolding sort
sort-Among_only y [] h = h
sort-Among_only y (s ∷ ss) h = elim (insert_sorted-Among_only y s (sort ss) h) [
  | inl e ↦ inl e
  | inr k ↦ inr (sort-Among_only y ss k)
]

-- When no two symbols of a map file overlap, then, in whatever order the file lists them, a lookup
-- in the loaded map finds a symbol exactly if the file has it and it contains the address.
pub lookup_symbol-load :
    (file : Text) (x : ℤ) (y : Symbol)
    → Disjoint (parse_text file).0
    → (lookup_symbol (load file) x ≡ some y) ↔ (Among y (parse_text file).0 × (contains y x ≡ true))
unfolding load
lookup_symbol-load file x y h =
    let syms = (parse_text file).0 in
    let skipped = (parse_text file).1 in
    (
      λ found.
          let (there, c) = lookup_symbol_sound (sort syms) skipped x y found in
          (sort-Among_only y syms there, c),
      λ k.
          lookup_symbol-Spaced (sort syms) skipped x y (sort-Spaced syms h) (sort-Among y syms k.0)
            k.1,
    )

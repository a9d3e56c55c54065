-- ===== src/Prelude/Text/Chars.antt =====
-- Characters, equality of texts, `startswith`, `strip`, `lower`.
use Prim.Native.Char.{code}
use Prim.Native.Nat.{ℕ, ◌+◌}
use Prim.Native.String.{String}
use mathlib.Core.Path.{◌≡◌, refl}
use mathlib.Core.Logic.{◌↔◌}
use mathlib.Core.Bool.{Bool, true, false, ◌&&◌, ◌||◌}
use mathlib.Core.List.{List, [], ◌∷◌, ◌++◌, map, append-nil}
use native.Mathlib.Omega.{arith}
use dolphin_re_mcp.Prelude.Tests.{leb, ◌==◌, if◌then◌else◌}
use dolphin_re_mcp.Prelude.Lists.{reverse_onto, All}

abbrev pub Text : Type 0
Text = List ℕ

abbrev pub Bytes : Type 0
Bytes = List ℕ

-- The code points of a literal.
abbrev pub codes : String → Text
codes String.[] = []
codes (String.◌∷◌ c s) = code c ∷ codes s

unfoldable pub eq_text : Text → Text → Bool
eq_text [] [] = true
eq_text (c ∷ s) (d ∷ t) = (c == d) && eq_text s t
eq_text _ _ = false

pub eq_text_iff : (s t : Text) → (eq_text s t ≡ true) ↔ (s ≡ t)
unfolding eq_text
eq_text_iff (c ∷ s) (d ∷ t) = ground (arith, eq_text_iff s t)
eq_text_iff _ _ = ground arith

-- `s in {…}` for a set of texts.
unfoldable pub mem_text : Text → List Text → Bool
unfolding eq_text
mem_text s [] = false
mem_text s (t ∷ ts) = eq_text s t || mem_text s ts

-- `s.startswith(p)`
unfoldable pub starts_with : Text → Text → Bool
starts_with s [] = true
starts_with [] (d ∷ p) = false
starts_with (c ∷ s) (d ∷ p) = (c == d) && starts_with s p

-- `s.endswith(p)`
unfoldable pub ends_with : Text → Text → Bool
unfolding starts_with
ends_with s p = starts_with (reverse_onto s []) (reverse_onto p [])

-- `s.isspace()` at one character.
abbrev pub is_space : ℕ → Bool
is_space c = (leb 9 c && leb c 13) || (leb 28 c && leb c 32) || c == 0x85 || c == 0xa0

unfoldable pub lstrip : Text → Text
lstrip [] = []
lstrip (c ∷ s) = if is_space c then lstrip s else c ∷ s

-- `s.strip()`
unfoldable pub strip : Text → Text
unfolding lstrip
strip s = reverse_onto (lstrip (reverse_onto (lstrip s) [])) []

-- `s.rstrip(c)` for one character.
unfoldable pub lstrip_char : ℕ → Text → Text
lstrip_char d [] = []
lstrip_char d (c ∷ s) = if c == d then lstrip_char d s else c ∷ s

unfoldable pub rstrip_char : ℕ → Text → Text
unfolding lstrip_char
rstrip_char d s = reverse_onto (lstrip_char d (reverse_onto s [])) []

-- `s.lower()`
abbrev pub lower_char : ℕ → ℕ
lower_char c = if leb b'A' c && leb c b'Z' then c + 32 else c

abbrev pub lower : Text → Text
lower s = map lower_char s

-- Text that `strip` leaves alone.
abbrev pub IsSolid : ℕ → Type 0
IsSolid c = is_space c ≡ false

lstrip_solid : (s : Text) → All IsSolid s → lstrip s ≡ s
unfolding lstrip
lstrip_solid [] h = refl
lstrip_solid (c ∷ s) h = ground arith

reverse_onto-IsSolid : (s t : Text) → All IsSolid s → All IsSolid t → All IsSolid (reverse_onto s t)
reverse_onto-IsSolid [] t hs ht = ht
reverse_onto-IsSolid (c ∷ s) t hs ht = reverse_onto-IsSolid s (c ∷ t) hs.1 (hs.0, ht)

pub reverse_onto_twice :
    (s t u : Text) → reverse_onto (reverse_onto s t) u ≡ reverse_onto t (s ++ u)
reverse_onto_twice [] t u = refl
reverse_onto_twice (c ∷ s) t u = reverse_onto_twice s (c ∷ t) u

pub reverse_onto_append :
    (s t u : Text) → reverse_onto (s ++ t) u ≡ reverse_onto t (reverse_onto s u)
reverse_onto_append [] t u = refl
reverse_onto_append (c ∷ s) t u = reverse_onto_append s t (c ∷ u)

pub strip_solid : (s : Text) → All IsSolid s → strip s ≡ s
unfolding strip
strip_solid s h =
    rw (lstrip_solid s h, lstrip_solid (reverse_onto s []) (reverse_onto-IsSolid s [] h tt))
      (rw reverse_onto_twice (append-nil s))

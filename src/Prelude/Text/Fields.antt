-- ===== src/Prelude/Text/Fields.antt =====
-- Fields that a separator ends, and numbers with leading zeros.
use Prim.Native.Nat.{ℕ, zero, suc}
use mathlib.Core.Path.{◌≡◌, refl, ap, sym, ◌∙◌}
use mathlib.Core.Bool.{true, false}
use mathlib.Core.List.{List, [], ◌∷◌, ◌++◌, append_assoc}
use mathlib.Core.Option.{some}
use native.Mathlib.Omega.{arith}
use dolphin_re_mcp.Prelude.Tests.{◌==◌}
use dolphin_re_mcp.Prelude.Lists.{All, reverse_onto}
use dolphin_re_mcp.Prelude.Int.{pos}
use dolphin_re_mcp.Prelude.Text.Chars.{Text, rstrip_char, lstrip_char, reverse_onto_twice}
use dolphin_re_mcp.Prelude.Text.Split.{split_on, Lacks}
use dolphin_re_mcp.Prelude.Text.Number.{
  scan_digits, parse_int, parse_int_hex, hex_nat, scan-hex_nat, IsHexDigit, hex_nat-IsHexDigit,
  digit_value, as_pos,
}

-- Each part with the separator behind it.
abbrev pub terminated : ℕ → List Text → Text
terminated d [] = []
terminated d (p ∷ ps) = p ++ (d ∷ terminated d ps)

-- A part that is not empty and lacks the separator.
abbrev pub IsPart : ℕ → Text → Type 0
IsPart d [] = ⊥
IsPart d (c ∷ s) = Lacks d (c ∷ s)

-- The last character is another one.
abbrev Ends : ℕ → Text → Type 0
Ends d s = (t : Text) × (c : ℕ) × (s ≡ t ++ (c ∷ [])) × ((c == d) ≡ false)

Ends-cons : (d c : ℕ) (s : Text) → Ends d s → Ends d (c ∷ s)
Ends-cons d c s (t, e, same, other) = (c ∷ t, e, ap (λ (x : Text). c ∷ x) same, other)

Ends-append : (d : ℕ) (s t : Text) → Ends d t → Ends d (s ++ t)
Ends-append d [] t h = h
Ends-append d (c ∷ s) t h = Ends-cons d c (s ++ t) (Ends-append d s t h)

IsPart-Ends : (d : ℕ) (s : Text) → IsPart d s → Ends d s
IsPart-Ends d [] h = elim h [ ]
IsPart-Ends d (c ∷ []) h = ([], c, refl, h.0)
IsPart-Ends d (c ∷ e ∷ s) h = Ends-cons d c (e ∷ s) (IsPart-Ends d (e ∷ s) h.1)

-- The parts with the separator between them.
abbrev joined : ℕ → Text → List Text → Text
joined d p [] = p
joined d p (q ∷ ps) = p ++ (d ∷ joined d q ps)

joined-Ends : (d : ℕ) (p : Text) (ps : List Text) → All (IsPart d) (p ∷ ps) → Ends d (joined d p ps)
joined-Ends d p [] h = IsPart-Ends d p h.0
joined-Ends d p (q ∷ ps) h =
    Ends-append d p _ (Ends-cons d d (joined d q ps) (joined-Ends d q ps h.1))

terminated-joined :
    (d : ℕ) (p : Text) (ps : List Text) → terminated d (p ∷ ps) ≡ joined d p ps ++ (d ∷ [])
terminated-joined d p [] = refl
terminated-joined d p (q ∷ ps) =
    ap (λ (x : Text). p ++ (d ∷ x)) (terminated-joined d q ps)
    ∙ sym (append_assoc p (d ∷ joined d q ps) (d ∷ []))

reverse_onto-append : (s t u : Text) → reverse_onto (s ++ t) u ≡ reverse_onto t (reverse_onto s u)
reverse_onto-append [] t u = refl
reverse_onto-append (c ∷ s) t u = reverse_onto-append s t (c ∷ u)

rstrip-last :
    (d c : ℕ) (t : Text)
    → (c == d) ≡ false
    → rstrip_char d ((t ++ (c ∷ [])) ++ (d ∷ [])) ≡ t ++ (c ∷ [])
unfolding rstrip_char lstrip_char
rstrip-last d c t other =
    let self : (d == d) ≡ true = ground arith in
    rw
      (
        reverse_onto-append (t ++ (c ∷ [])) (d ∷ []) [],
        reverse_onto-append t (c ∷ []) [],
        self,
        other,
      )
      (reverse_onto_twice t [] (c ∷ []))

rstrip-Ends : (d : ℕ) (s : Text) → Ends d s → rstrip_char d (s ++ (d ∷ [])) ≡ s
rstrip-Ends d s (t, c, same, other) = rw same (rstrip-last d c t other)

pub split_on-part : (d : ℕ) (p : Text) → Lacks d p → split_on d p ≡ p ∷ []
unfolding split_on
split_on-part d [] h = refl
split_on-part d (c ∷ p) h = ground (arith, split_on-part d p h.1)

pub split_on-append :
    (d : ℕ) (p s : Text) → Lacks d p → split_on d (p ++ (d ∷ s)) ≡ p ∷ split_on d s
unfolding split_on
split_on-append d [] s h = ground arith
split_on-append d (c ∷ p) s h = ground (arith, split_on-append d p s h.1)

pub IsPart-Lacks : (d : ℕ) (p : Text) → IsPart d p → Lacks d p
IsPart-Lacks d [] h = tt
IsPart-Lacks d (c ∷ s) h = h

split_on-joined :
    (d : ℕ) (p : Text) (ps : List Text)
    → All (IsPart d) (p ∷ ps)
    → split_on d (joined d p ps) ≡ p ∷ ps
split_on-joined d p [] h = split_on-part d p (IsPart-Lacks d p h.0)
split_on-joined d p (q ∷ ps) h =
    split_on-append d p (joined d q ps) (IsPart-Lacks d p h.0)
    ∙ ap (λ (x : List Text). p ∷ x) (split_on-joined d q ps h.1)

-- Stripped of its last separator, the text is split into the parts.
pub split-terminated :
    (d : ℕ) (p : Text) (ps : List Text)
    → All (IsPart d) (p ∷ ps)
    → split_on d (rstrip_char d (terminated d (p ∷ ps))) ≡ p ∷ ps
split-terminated d p ps h =
    rw (terminated-joined d p ps, rstrip-Ends d (joined d p ps) (joined-Ends d p ps h))
      (split_on-joined d p ps h)

-- `f"{n:0{w}x}"`, with the zeros counted.
abbrev pub padded_hex : ℕ → ℕ → Text
padded_hex zero n = hex_nat n
padded_hex (suc z) n = b'0' ∷ padded_hex z n

pub padded_hex-IsHexDigit : (z n : ℕ) → All IsHexDigit (padded_hex z n)
unfolding digit_value
padded_hex-IsHexDigit zero n = hex_nat-IsHexDigit n
padded_hex-IsHexDigit (suc z) n = (ground arith, padded_hex-IsHexDigit z n)

-- A digit may follow a digit.
scan-later :
    (s : Text) (n : ℕ) → scan_digits 16 s 0 false ≡ some n → scan_digits 16 s 0 true ≡ some n
unfolding scan_digits
scan-later [] n h = ground arith
scan-later (c ∷ s) n h = ground arith

scan-padded_hex : (z n : ℕ) → scan_digits 16 (padded_hex z n) 0 false ≡ some n
unfolding scan_digits digit_value
scan-padded_hex zero n = scan-hex_nat n
scan-padded_hex (suc z) n = ground (arith, scan-later (padded_hex z n) n (scan-padded_hex z n))

pub parse_int-padded_hex : (z n : ℕ) → parse_int 16 (padded_hex z n) ≡ some (pos n)
parse_int-padded_hex z n =
    parse_int_hex (padded_hex z n) (padded_hex-IsHexDigit z n) ∙ ap as_pos (scan-padded_hex z n)

-- ===== src/Disasm/Mnemonics/Dots.antt =====
-- Mnemonics with a record dot.
use dolphin_re_mcp.Prelude.{◌≡◌, refl, ap, ◌∙◌, [], ◌∷◌, ◌++◌}
use mathlib.Core.List.{map-append}
use dolphin_re_mcp.Prelude.Text.{
  Text, codes, rstrip_char, lstrip_char, reverse_onto_append, lower, lower_char, eq_text, mem_text,
  starts_with,
}
use dolphin_re_mcp.Disasm.Mnemonics.{classify, classify_plain, other}

rstrip_char_dot : (s : Text) → rstrip_char b'.' (s ++ b'.' ∷ []) ≡ rstrip_char b'.' s
unfolding rstrip_char lstrip_char
rstrip_char_dot s = rw (reverse_onto_append s (b'.' ∷ []) []) refl

-- A record dot makes no difference to the kind.
pub classify-dot : (mnem : Text) → classify (mnem ++ b'.' ∷ []) ≡ classify mnem
unfolding classify
classify-dot mnem =
    ap classify_plain (
      ap (rstrip_char b'.') (map-append lower_char mnem (b'.' ∷ [])) ∙ rstrip_char_dot (lower mnem))

andi_dot : classify (codes "andi.") ≡ other
unfolding classify classify_plain eq_text mem_text starts_with rstrip_char lstrip_char
andi_dot = refl

-- ===== src/Disasm/Operands/Addresses.antt =====
-- The effective address of a load or a store with a displacement.
use mathlib.Core.Path.{ap₂}
use dolphin_re_mcp.Prelude.{
  ℕ, ◌+◌, ◌-◌, ◌%◌, ◌^◌, ◌≡◌, refl, ap, ◌∙◌, true, some, [], ◌∷◌, ◌++◌, arith, append_assoc, All,
  All-append, length, take, length-append, if◌then◌else◌, leb,
}
use dolphin_re_mcp.Prelude.Int.{ℤ, pos, negsuc, ◌+ℤ◌, ◌-ℤ◌, ◌≤ℤ◌, mask16, mask32}
use dolphin_re_mcp.Prelude.Dict.{Dict}
use dolphin_re_mcp.Prelude.Text.{
  Text, codes, strip, lstrip, strip_solid, IsSolid, Lacks, split_once-Lacks, ends_with, starts_with,
  reverse_onto_append, parse_int,
}
use dolphin_re_mcp.Disasm.Operands.{
  sign_extend, base_of, displaced, displacement_form, compute_effective_address,
}

-- A field of 16 bits extended by its sign to a word.
abbrev pub exts : ℕ → ℕ
exts field = if leb 0x8000 field then field + (2 ^ 32 - 2 ^ 16) else field

pub add_field :
    (a : ℕ) (imm : ℤ)
    → pos 0 -ℤ pos 0x8000 ≤ℤ imm
    → imm ≤ℤ pos 0xffff
    → mask32 (pos a +ℤ sign_extend imm) ≡ (a + exts (mask16 imm)) % 2 ^ 32
unfolding mask32 mask16 sign_extend ◌+ℤ◌ ◌-ℤ◌
add_field a (pos n) low high = ground arith
add_field a (negsuc n) low high = ground arith

take_front : (s t : Text) → take (length s) (s ++ t) ≡ s
take_front [] t = refl
take_front (c ∷ s) t = rw (take_front s t)

ends_with-last : (s : Text) (c : ℕ) → ends_with (s ++ c ∷ []) (c ∷ []) ≡ true
unfolding ends_with starts_with
ends_with-last s c = rw (reverse_onto_append s (c ∷ []) []) (ground arith)

pub strip_space : (s : Text) → strip (b' ' ∷ s) ≡ strip s
unfolding strip lstrip
strip_space s = refl

-- The text `imm(reg)`.
abbrev pub displacement : Text → Text → Text
displacement imm reg = imm ++ b'(' ∷ (reg ++ b')' ∷ [])

displacement-IsSolid :
    (imm reg : Text) → All IsSolid imm → All IsSolid reg → All IsSolid (displacement imm reg)
displacement-IsSolid imm reg hi hr =
    All-append IsSolid imm (b'(' ∷ (reg ++ b')' ∷ [])) hi
      (refl, All-append IsSolid reg (b')' ∷ []) hr (refl, tt))

displacement_form_lem :
    (imm reg : Text) (disp : ℤ) (base : ℕ) (gprs : Dict Text ℕ)
    → All IsSolid imm
    → All IsSolid reg
    → parse_int 0 imm ≡ some disp
    → base_of reg gprs ≡ some base
    → displacement_form imm (reg ++ b')' ∷ []) gprs ≡ some (mask32 (pos base +ℤ sign_extend disp))
displacement_form_lem imm reg disp base gprs hi hr read found =
    let inner : length (reg ++ b')' ∷ []) - 1 ≡ length reg =
      omega (arith, length-append reg (b')' ∷ [])) in
    let name : strip (take (length (reg ++ b')' ∷ []) - 1) (reg ++ b')' ∷ [])) ≡ reg =
      rw inner (rw (take_front reg (b')' ∷ [])) (strip_solid reg hr)) in
    ap₂ displaced (ap (parse_int 0) (strip_solid imm hi) ∙ read)
      (ap (λ r. base_of r gprs) name ∙ found)

-- For operands `dst, imm(reg)` where the displacement reads as a number that has a field of 16 bits,
-- with a sign or as the 16 bits, and the base register is known, or is `0`, the effective address is
-- the one the processor computes: the base plus the field extended by its sign, modulo 2 ^ 32.
pub compute_effective_address_lem :
    (dst imm reg : Text) (disp : ℤ) (base : ℕ) (gprs : Dict Text ℕ)
    → Lacks b',' dst
    → Lacks b'(' imm
    → All IsSolid imm
    → All IsSolid reg
    → parse_int 0 imm ≡ some disp
    → pos 0 -ℤ pos 0x8000 ≤ℤ disp
    → disp ≤ℤ pos 0xffff
    → base_of reg gprs ≡ some base
    → compute_effective_address (dst ++ b',' ∷ (b' ' ∷ displacement imm reg)) gprs
      ≡ some ((base + exts (mask16 disp)) % 2 ^ 32)
unfolding compute_effective_address
compute_effective_address_lem dst imm reg disp base gprs no_comma no_paren hi hr read low high
      found =
    let rhs = displacement imm reg in
    let stripped : strip (b' ' ∷ rhs) ≡ rhs =
      strip_space rhs ∙ strip_solid rhs (displacement-IsSolid imm reg hi hr) in
    let closes : ends_with rhs (codes ")") ≡ true =
      rw (← append_assoc imm (b'(' ∷ reg) (b')' ∷ [])) (ends_with-last (imm ++ b'(' ∷ reg) b')') in
    rw (split_once-Lacks b',' dst (b' ' ∷ rhs) no_comma) (
      rw stripped (
        rw (split_once-Lacks b'(' imm (reg ++ b')' ∷ []) no_paren) (
          rw closes (
            displacement_form_lem imm reg disp base gprs hi hr read found
            ∙ ap some (add_field base disp low high)))))

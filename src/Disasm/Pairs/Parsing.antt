-- ===== src/Disasm/Pairs/Parsing.antt =====
-- The parsers of the walk read operands as they are printed.
use dolphin_re_mcp.Prelude.{
  ◌≡◌, refl, ap, ◌∙◌, ◌≢◌, inl, inr, true, false, some, List, [], ◌∷◌, ◌++◌, arith, All, Bool-cases,
  ◌==◌,
}
use dolphin_re_mcp.Prelude.Int.{ℤ, mask16}
use dolphin_re_mcp.Prelude.Text.{
  Text, codes, eq_text, eq_text_iff, mem_text, starts_with, strip_solid, split_on-part,
  split_on-append, split_once-Lacks, parse_int, IsSolid,
}
use dolphin_re_mcp.Disasm.Mnemonics.{is_in}
use dolphin_re_mcp.Disasm.Operands.{operands_of}
use dolphin_re_mcp.Disasm.Operands.Addresses.{strip_space}
use dolphin_re_mcp.Disasm.Pairs.{
  lis_parts, parse_lis, parse_three_op, first_destination_register, combining, all_digits,
  is_register,
}
use dolphin_re_mcp.Disasm.Pairs.Runs.{
  IsDigit, IsRegister, IsOperand, two_operands, three_operands, IsCombining,
}

operands_of-one : (b : Text) → IsOperand b → operands_of (b' ' ∷ b) ≡ b ∷ []
unfolding operands_of
operands_of-one b (solid, lacks) =
    rw (split_on-part b',' (b' ' ∷ b) (refl, lacks))
      (ap (λ (x : Text). x ∷ []) (strip_space b ∙ strip_solid b solid))

operands_of-cons : (a s : Text) → IsOperand a → operands_of (a ++ b',' ∷ s) ≡ a ∷ operands_of s
unfolding operands_of
operands_of-cons a s (solid, lacks) =
    rw (split_on-append b',' a s lacks) (ap (λ (x : Text). x ∷ operands_of s) (strip_solid a solid))

operands_of-space :
    (a s : Text) → IsOperand a → operands_of (b' ' ∷ (a ++ b',' ∷ s)) ≡ a ∷ operands_of s
unfolding operands_of
operands_of-space a s (solid, lacks) =
    rw (split_on-append b',' (b' ' ∷ a) s (refl, lacks))
      (ap (λ (x : Text). x ∷ operands_of s) (strip_space a ∙ strip_solid a solid))

operands_of-two :
    (a b : Text) → IsOperand a → IsOperand b → operands_of (two_operands a b) ≡ a ∷ b ∷ []
operands_of-two a b h k =
    operands_of-cons a (b' ' ∷ b) h ∙ ap (λ (x : List Text). a ∷ x) (operands_of-one b k)

pub operands_of-three :
    (a b c : Text)
    → IsOperand a
    → IsOperand b
    → IsOperand c
    → operands_of (three_operands a b c) ≡ a ∷ b ∷ c ∷ []
operands_of-three a b c h k l =
    operands_of-cons a _ h
    ∙ ap (λ (x : List Text). a ∷ x)
        (operands_of-space b (b' ' ∷ c) k ∙ ap (λ (x : List Text). b ∷ x) (operands_of-one c l))

pub parse_lis-printed :
    (dst imm : Text) (n : ℤ)
    → IsOperand dst
    → IsOperand imm
    → parse_int 0 imm ≡ some n
    → parse_lis (two_operands dst imm) ≡ some (dst, mask16 n)
unfolding parse_lis
parse_lis-printed dst imm n h k e = rw (operands_of-two dst imm h k) (rw (e, lis_parts) refl)

pub parse_three_op-printed :
    (dst src imm : Text) (n : ℤ)
    → IsOperand dst
    → IsOperand src
    → IsOperand imm
    → parse_int 0 imm ≡ some n
    → parse_three_op (three_operands dst src imm) ≡ some (record { dst = dst; src = src; imm = n })
unfolding parse_three_op
parse_three_op-printed dst src imm n h k l e = rw (operands_of-three dst src imm h k l) (rw e refl)

-- The name of a register is an operand, and is recognised.
digits-IsOperand : (s : Text) → All IsDigit s → IsOperand s
digits-IsOperand [] h = (tt, tt)
digits-IsOperand (c ∷ s) h =
    let (solid, lacks) = digits-IsOperand s h.1 in
    let own : IsSolid c = ground (arith, h.0) in
    let no_comma : (c == b',') ≡ false = ground (arith, h.0) in ((own, solid), (no_comma, lacks))

pub IsRegister-IsOperand : (r : Text) → IsRegister r → IsOperand r
IsRegister-IsOperand [] h = elim h [ ]
IsRegister-IsOperand (c ∷ []) h = elim h [ ]
IsRegister-IsOperand (c ∷ d ∷ s) (e, h) =
    let (solid, lacks) = digits-IsOperand (d ∷ s) h in
    let own : IsSolid c = ground arith in
    let no_comma : (c == b',') ≡ false = ground arith in ((own, solid), (no_comma, lacks))

digits-All : (s : Text) → All IsDigit s → all_digits s ≡ true
unfolding all_digits
digits-All [] h = refl
digits-All (c ∷ s) h = ground (arith, h.0, digits-All s h.1)

IsRegister-is_register : (r : Text) → IsRegister r → is_register r ≡ true
unfolding starts_with
IsRegister-is_register [] h = elim h [ ]
IsRegister-is_register (c ∷ []) h = elim h [ ]
IsRegister-is_register (c ∷ d ∷ s) (e, h) =
    let digits : all_digits (d ∷ s) ≡ true = digits-All (d ∷ s) h in ground arith

pub first_destination_register-printed :
    (r rest : Text) → IsRegister r → first_destination_register (r ++ b',' ∷ rest) ≡ some r
unfolding first_destination_register
first_destination_register-printed r rest h =
    let (solid, lacks) = IsRegister-IsOperand r h in
    let name : is_register r ≡ true = IsRegister-is_register r h in
    rw (split_once-Lacks b',' r rest lacks) (rw (strip_solid r solid) (rw name refl))

-- The mnemonics that the walk combines.
pub is_combining_lem : (m : Text) → IsCombining m → is_in m combining ≡ true
unfolding mem_text eq_text
is_combining_lem m (inl e) = rw e refl
is_combining_lem m (inr (inl e)) = rw e refl
is_combining_lem m (inr (inr e)) = rw e refl

pub differs : (m t : Text) → m ≢ t → eq_text m t ≡ false
differs m t h = elim (Bool-cases (eq_text m t)) [
  | inl b ↦ absurd (h ((eq_text_iff m t).0 b))
  | inr b ↦ b
]

pub not_combining_lem : (m : Text) → ¬ IsCombining m → is_in m combining ≡ false
unfolding mem_text
not_combining_lem m h =
    let addi = differs m (codes "addi") (λ e. h (inl e)) in
    let subi = differs m (codes "subi") (λ e. h (inr (inl e))) in
    let ori = differs m (codes "ori") (λ e. h (inr (inr e))) in rw (addi, subi, ori) refl

pub combining_not_lis : (m : Text) → IsCombining m → eq_text m (codes "lis") ≡ false
unfolding eq_text
combining_not_lis m (inl e) = rw e refl
combining_not_lis m (inr (inl e)) = rw e refl
combining_not_lis m (inr (inr e)) = rw e refl

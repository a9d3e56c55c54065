-- ===== src/Disasm/Pairs/Clobbered.antt =====
-- A half that waits is not dropped when `addi` overwrites its register from another one.
use mathlib.Core.Path.{subst}
use dolphin_re_mcp.Prelude.{
  ℕ, ◌*◌, ◌^◌, ◌<◌, ◌≡◌, refl, sym, ap, ◌∙◌, ◌≢◌, Option, none, some, List, [], ◌∷◌, ◌++◌, length,
  drop, get_elem?, arith,
}
use dolphin_re_mcp.Prelude.Int.{ℤ, mask16}
use dolphin_re_mcp.Prelude.Text.{Text, codes, eq_text, eq_text_iff, mem_text, lower, parse_int}
use dolphin_re_mcp.Disasm.Decode.{DisasmInstruction}
use dolphin_re_mcp.Disasm.Pairs.{
  parse_lis, parse_three_op, joined_value, Pending, keep_pending, pair_step, pairs_from,
  post_process_imm_load_pairs, tagged,
}
use dolphin_re_mcp.Disasm.Pairs.Runs.{
  Registers, computed, joined_value-computed, HasField, Sets, IsRegister, IsOperand, two_operands,
  three_operands,
}
use dolphin_re_mcp.Disasm.Pairs.Parsing.{
  parse_lis-printed, parse_three_op-printed, IsRegister-IsOperand, differs,
}

-- `lis d, hi`, then `addi d, s, imm` from another register, then `addi d, d, lo`.
pub record Overwritten (i j k : DisasmInstruction) (dst src : Text) (hi imm lo : ℤ) : Type 0 where
  pub high : Text
  pub other : Text
  pub low : Text
  pub is_lis : lower i.mnemonic ≡ codes "lis"
  pub printed_lis : i.operands ≡ two_operands dst high
  pub is_addi : lower j.mnemonic ≡ codes "addi"
  pub printed : j.operands ≡ three_operands dst src other
  pub differ : src ≢ dst
  pub is_addi_again : lower k.mnemonic ≡ codes "addi"
  pub printed_again : k.operands ≡ three_operands dst dst low
  pub into : IsRegister dst
  pub from : IsRegister src
  pub solid : IsOperand high × IsOperand other × IsOperand low
  pub read_high : parse_int 0 high ≡ some hi
  pub read_other : parse_int 0 other ≡ some imm
  pub read_low : parse_int 0 low ≡ some lo
  pub field : HasField (codes "addi") lo

-- The value of the first half and the last immediate.
abbrev pub stale_value : ℤ → ℤ → ℕ
stale_value hi lo = computed (codes "addi") (mask16 hi * 2 ^ 16) lo

-- What `addi` computes tells what it was computed from.
addi_injective :
    (a b : ℕ) (imm : ℤ)
    → a < 2 ^ 32
    → b < 2 ^ 32
    → computed (codes "addi") a imm ≡ computed (codes "addi") b imm
    → a ≡ b
unfolding eq_text
addi_injective a b imm h k e = omega arith

computed-word : (a : ℕ) (imm : ℤ) → computed (codes "addi") a imm < 2 ^ 32
unfolding eq_text
computed-word a imm = omega arith

high-word : (hi : ℤ) → mask16 hi * 2 ^ 16 < 2 ^ 32
unfolding mask16
high-word hi = ground arith

-- An item of the walk behind others.
pairs_from-behind :
    (front rest : List DisasmInstruction) (n : ℕ) (o : Option DisasmInstruction) (pending : Pending)
    → ((q : Pending) → get_elem? (pairs_from rest q) n ≡ o)
    → get_elem? (drop (length front) (pairs_from (front ++ rest) pending)) n ≡ o
unfolding pairs_from
pairs_from-behind [] rest n o pending h = h pending
pairs_from-behind (ins ∷ front) rest n o pending h =
    pairs_from-behind front rest n o (pair_step ins pending).1 h

module _ (i j k : DisasmInstruction) (dst src : Text) (hi imm lo : ℤ)
    (o : Overwritten i j k dst src hi imm lo) where
  lis_step :
      (pending : Pending) → pair_step i pending ≡ (i, keep_pending dst (mask16 hi * 2 ^ 16) pending)
  unfolding pair_step eq_text
  lis_step pending =
      let parsed : parse_lis i.operands ≡ some (dst, mask16 hi) =
        ap parse_lis o.printed_lis
        ∙ parse_lis-printed dst o.high hi (IsRegister-IsOperand dst o.into) o.solid.0 o.read_high in
      rw o.is_lis (rw parsed refl)

  other_step : (pending : Pending) → pair_step j pending ≡ (j, pending)
  unfolding pair_step eq_text mem_text
  other_step pending =
      let parsed : parse_three_op j.operands ≡ some (record { dst = dst; src = src; imm = imm }) =
        ap parse_three_op o.printed
        ∙ parse_three_op-printed dst src o.other imm (IsRegister-IsOperand dst o.into)
            (IsRegister-IsOperand src o.from) o.solid.1 o.read_other in
      rw o.is_addi (rw parsed (rw (differs src dst o.differ) refl))

  addi_step :
      (v : ℕ) (pending : Pending)
      → (pair_step k (keep_pending dst v pending)).0 ≡ tagged k (joined_value (codes "addi") v lo)
  unfolding pair_step keep_pending eq_text mem_text
  addi_step v pending =
      let parsed : parse_three_op k.operands ≡ some (record { dst = dst; src = dst; imm = lo }) =
        ap parse_three_op o.printed_again
        ∙ parse_three_op-printed dst dst o.low lo (IsRegister-IsOperand dst o.into)
            (IsRegister-IsOperand dst o.into) o.solid.2 o.read_low in
      rw o.is_addi_again (rw parsed (rw ((eq_text_iff dst dst).1 refl) refl))

  third :
      (back : List DisasmInstruction) (pending : Pending)
      → get_elem? (pairs_from (i ∷ j ∷ k ∷ back) pending) 2 ≡ some (tagged k (stale_value hi lo))
  unfolding pairs_from
  third back pending =
      let v = mask16 hi * 2 ^ 16 in
      rw (lis_step pending) (
        rw (other_step (keep_pending dst v pending)) (
          rw (addi_step v pending) (
            ap (λ (x : ℕ). some (tagged k x)) (joined_value-computed (codes "addi") v lo o.field))))

  -- Take a list in which `lis d, hi`, `addi d, s, imm` from another register and `addi d, d, lo`
  -- stand one behind the other, and a run of the last two that loads into `d` anything but the high
  -- half again. The walk tags the third with the value of the two halves, and that is not what the
  -- register has.
  pub post_process-overwritten :
      (front back : List DisasmInstruction) (before between after : Registers)
      → Sets dst (computed (codes "addi") (before src) imm) before between
      → Sets dst (computed (codes "addi") (between dst) lo) between after
      → computed (codes "addi") (before src) imm ≢ mask16 hi * 2 ^ 16
      → (get_elem? (drop (length front) (post_process_imm_load_pairs (front ++ i ∷ j ∷ k ∷ back))) 2
          ≡ some (tagged k (stale_value hi lo)))
        × (after dst ≢ stale_value hi lo)
  unfolding post_process_imm_load_pairs
  post_process-overwritten front back before between after first second apart = (
    pairs_from-behind front (i ∷ j ∷ k ∷ back) 2 (some (tagged k (stale_value hi lo))) (λ r. none)
        (third back),
    λ same.
        let loaded : between dst < 2 ^ 32 =
          subst (λ (x : ℕ). x < 2 ^ 32) (sym first.0) (computed-word (before src) imm) in
        let equal : between dst ≡ mask16 hi * 2 ^ 16 =
          addi_injective (between dst) (mask16 hi * 2 ^ 16) lo loaded (high-word hi)
            (sym second.0 ∙ same) in
        apart (sym first.0 ∙ equal),
  )

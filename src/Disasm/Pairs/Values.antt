-- ===== src/Disasm/Pairs/Values.antt =====
-- The values of the pairs are those of the registers.
use dolphin_re_mcp.Prelude.{
  ℕ, ◌*◌, ◌^◌, ◌≡◌, refl, sym, ap, ◌∙◌, ◌≢◌, inl, inr, Option, none, some, List, [], ◌∷◌, ◌++◌,
  Bool-cases, All,
}
use dolphin_re_mcp.Prelude.Text.{Text, codes, eq_text, eq_text_iff, lower}
use dolphin_re_mcp.Prelude.Int.{mask16}
use dolphin_re_mcp.Disasm.Decode.{DisasmInstruction}
use dolphin_re_mcp.Disasm.Pairs.{
  parse_lis, parse_three_op, ThreeOp, first_destination_register, joined_value, Pending, finish,
  combine, invalidate, pair_step, pairs_from, post_process_imm_load_pairs,
}
use dolphin_re_mcp.Disasm.Pairs.Runs.{
  Registers, computed, joined_value-computed, IsRegister, IsOperand, three_operands, IsCombining,
  LoadsHigh, Combines, WritesFirst, WritesNone, Executes, Runs,
}
use dolphin_re_mcp.Disasm.Pairs.Parsing.{
  parse_lis-printed, parse_three_op-printed, IsRegister-IsOperand,
  first_destination_register-printed, is_combining_lem, differs, not_combining_lem,
  combining_not_lis,
}
use dolphin_re_mcp.Disasm.Pairs.Waiting.{
  Holds, Holds-none, Holds-drop, Holds-keep, invalidate-old, invalidate-gone,
}

-- The value of a tag is in the register that the operands of the instruction begin with.
abbrev pub TagHolds : DisasmInstruction → Registers → Type 0
TagHolds ins after =
    (value : ℕ)
    → ins.imm_value ≡ some value
    → (dst src imm : Text) × IsRegister dst
      × (ins.operands ≡ three_operands dst src imm)
      × (after dst ≡ value)

-- What holds behind an instruction.
abbrev Behind : DisasmInstruction × Pending → Registers → Type 0
Behind (ins, pending) after = Holds pending after × TagHolds ins after

-- No `addi`, `subi` or `ori` overwrites a register whose high half waits from another register.
abbrev pub IsClean : DisasmInstruction → Pending → Type 0
IsClean ins pending =
    (dst src imm : Text)
    → IsCombining (lower ins.mnemonic)
    → IsRegister dst
    → IsRegister src
    → IsOperand imm
    → ins.operands ≡ three_operands dst src imm
    → src ≢ dst
    → pending dst ≡ none

-- Those that the walk passes are clean at what waits there.
abbrev pub AllClean : List DisasmInstruction → Pending → Type 0
AllClean [] pending = Unit
AllClean (ins ∷ insns) pending = IsClean ins pending × AllClean insns (pair_step ins pending).1

abbrev pub IsUntagged : DisasmInstruction → Type 0
IsUntagged ins = ins.imm_value ≡ none

untagged : (ins : DisasmInstruction) (after : Registers) → IsUntagged ins → TagHolds ins after
untagged ins after h value e = cc

lis-Behind :
    (ins : DisasmInstruction) (pending : Pending) (before after : Registers)
    → IsUntagged ins
    → Holds pending before
    → LoadsHigh ins before after
    → Behind (pair_step ins pending) after
unfolding pair_step eq_text
lis-Behind ins pending before after new h run =
    let parsed : parse_lis ins.operands ≡ some (run.dst, mask16 run.number) =
      ap parse_lis run.printed
      ∙ parse_lis-printed run.dst run.imm run.number (IsRegister-IsOperand run.dst run.into)
          run.solid run.reads in
    rw run.is_lis (
      rw parsed (
        Holds-keep run.dst (mask16 run.number * 2 ^ 16) pending before after run.into h run.sets,
        untagged ins after new,
      ))

other_step :
    (ins : DisasmInstruction) (pending : Pending)
    → lower ins.mnemonic ≢ codes "lis"
    → ¬ IsCombining (lower ins.mnemonic)
    → pair_step ins pending ≡ (ins, invalidate (first_destination_register ins.operands) pending)
unfolding pair_step
other_step ins pending no_lis no_combining =
    rw
      (
        differs (lower ins.mnemonic) (codes "lis") no_lis,
        not_combining_lem (lower ins.mnemonic) no_combining,
      )
      refl

first-Behind :
    (ins : DisasmInstruction) (pending : Pending) (before after : Registers)
    → IsUntagged ins
    → Holds pending before
    → WritesFirst ins before after
    → Behind (pair_step ins pending) after
first-Behind ins pending before after new h run =
    rw (other_step ins pending run.no_lis run.no_combining) (
      λ r hi e.
          let (named, value) =
            h r hi (invalidate-old (first_destination_register ins.operands) pending r hi e) in
          let other : r ≢ run.first = λ q.
            let dropped : first_destination_register ins.operands ≡ some r =
              ap first_destination_register run.printed
              ∙ (ap (λ (x : Text). first_destination_register (x ++ b',' ∷ run.rest)) (sym q)
                  ∙ first_destination_register-printed r run.rest named) in
            invalidate-gone pending r hi
              (ap (λ (o : Option Text). invalidate o pending r) (sym dropped) ∙ e) in
          (named, run.same r other ∙ value),
      untagged ins after new,
    )

none-Behind :
    (ins : DisasmInstruction) (pending : Pending) (before after : Registers)
    → IsUntagged ins
    → Holds pending before
    → WritesNone ins before after
    → Behind (pair_step ins pending) after
none-Behind ins pending before after new h run =
    rw (other_step ins pending run.no_lis run.no_combining) (
      λ r hi e.
          let (named, value) =
            h r hi (invalidate-old (first_destination_register ins.operands) pending r hi e) in
          (named, run.same r ∙ value),
      untagged ins after new,
    )

module _ (ins : DisasmInstruction) (pending : Pending) (before after : Registers)
    (new : IsUntagged ins) (h : Holds pending before) (run : Combines ins before after) where
  abbrev op : ThreeOp
  op = record { dst = run.dst; src = run.src; imm = run.number }

  abbrev mnem : Text
  mnem = lower ins.mnemonic

  -- A pair: the high half is in the source, which is the destination.
  pair-Behind :
      (hi : ℕ)
      → run.src ≡ run.dst
      → pending run.dst ≡ some hi
      → Behind (finish ins mnem op pending (some hi)) after
  pair-Behind hi same_register waits =
      let (set, same) = run.sets in
      let source : before run.src ≡ hi = ap before same_register ∙ (h run.dst hi waits).1 in
      let value : after run.dst ≡ joined_value mnem hi run.number =
        set
        ∙ ap (λ (a : ℕ). computed mnem a run.number) source
        ∙ sym (joined_value-computed mnem hi run.number run.field) in
      (
        Holds-drop run.dst pending before after h same,
        λ v e. (run.dst, run.src, run.imm, run.into, run.printed, value ∙ cc),
      )

  plain-Behind : pending run.dst ≡ none → Behind (finish ins mnem op pending none) after
  plain-Behind waits =
      (Holds-none run.dst pending before after h waits run.sets.1, untagged ins after new)

  combine-Behind_at :
      (o : Option ℕ)
      → pending run.dst ≡ o
      → run.src ≡ run.dst
      → Behind (finish ins mnem op pending o) after
  combine-Behind_at none waits same_register = plain-Behind waits
  combine-Behind_at (some hi) waits same_register = pair-Behind hi same_register waits

  combine-Behind : IsClean ins pending → Behind (combine ins mnem (some op) pending) after
  combine-Behind clean = elim (Bool-cases (eq_text run.src run.dst)) [
    | inl q ↦ rw q (combine-Behind_at (pending run.dst) refl ((eq_text_iff run.src run.dst).0 q))
    | inr q ↦
        let other : run.src ≢ run.dst = λ x. cc ((eq_text_iff run.src run.dst).1 x) in
        rw q (
          plain-Behind (
            clean run.dst run.src run.imm run.is_combining run.into run.from run.solid run.printed
              other))
  ]

  combine_step : pair_step ins pending ≡ combine ins mnem (some op) pending
  unfolding pair_step
  combine_step =
      let parsed : parse_three_op ins.operands ≡ some op =
        ap parse_three_op run.printed
        ∙ parse_three_op-printed run.dst run.src run.imm run.number
            (IsRegister-IsOperand run.dst run.into) (IsRegister-IsOperand run.src run.from)
            run.solid run.reads in
      rw (combining_not_lis mnem run.is_combining, is_combining_lem mnem run.is_combining)
        (rw parsed refl)

pair_step-Behind :
    (ins : DisasmInstruction) (pending : Pending) (before after : Registers)
    → IsUntagged ins
    → Holds pending before
    → IsClean ins pending
    → Executes ins before after
    → Behind (pair_step ins pending) after
pair_step-Behind ins pending before after new h clean (inl run) =
    lis-Behind ins pending before after new h run
pair_step-Behind ins pending before after new h clean (inr (inl run)) =
    rw (combine_step ins pending before after new h run)
      (combine-Behind ins pending before after new h run clean)
pair_step-Behind ins pending before after new h clean (inr (inr (inl run))) =
    first-Behind ins pending before after new h run
pair_step-Behind ins pending before after new h clean (inr (inr (inr run))) =
    none-Behind ins pending before after new h run

-- Every tag of a list holds in the registers behind its instruction.
abbrev pub AllTags : List DisasmInstruction → List Registers → Type 0
AllTags [] states = Unit
AllTags (ins ∷ insns) [] = ⊥
AllTags (ins ∷ insns) (after ∷ states) = TagHolds ins after × AllTags insns states

pairs_from-AllTags :
    (insns : List DisasmInstruction) (pending : Pending) (before : Registers)
    (states : List Registers)
    → All IsUntagged insns
    → Holds pending before
    → AllClean insns pending
    → Runs insns before states
    → AllTags (pairs_from insns pending) states
unfolding pairs_from
pairs_from-AllTags [] pending before states new h clean run = tt
pairs_from-AllTags (ins ∷ insns) pending before [] new h clean run = run
pairs_from-AllTags (ins ∷ insns) pending before (after ∷ states) new h clean run =
    let (holds, tag) = pair_step-Behind ins pending before after new.0 h clean.0 run.0 in
    (tag, pairs_from-AllTags insns (pair_step ins pending).1 after states new.1 holds clean.1 run.1)

-- Take a list of instructions without tags, in which no `addi`, `subi` or `ori` writes, from another
-- register, a register whose high half waits, and that the processor runs one behind the other. Each
-- is a `lis` or one of these three, with a register, or registers, and a number as the operands, or
-- another one that writes no register but the one, if any, in front of the first comma of its
-- operands; so a load with update, and an `mflr`, which has no comma, are not among them. Then
-- every value that the walk tags an instruction with is in the first register of its operands right
-- behind it.
pub post_process-AllTags :
    (insns : List DisasmInstruction) (before : Registers) (states : List Registers)
    → All IsUntagged insns
    → AllClean insns (λ r. none)
    → Runs insns before states
    → AllTags (post_process_imm_load_pairs insns) states
unfolding post_process_imm_load_pairs
post_process-AllTags insns before states new clean run =
    pairs_from-AllTags insns (λ r. none) before states new (λ r hi e. cc) clean run

-- ===== src/Disasm/Pairs/Waiting.antt =====
-- The high halves that wait are in their registers.
use dolphin_re_mcp.Prelude.{
  ℕ, ◌≡◌, refl, sym, ap, ◌∙◌, ◌≢◌, inl, inr, true, Option, none, some, Bool-cases,
}
use dolphin_re_mcp.Prelude.Text.{Text, eq_text, eq_text_iff}
use mathlib.Core.Path.{subst}
use dolphin_re_mcp.Disasm.Pairs.{Pending, keep_pending, drop_pending, invalidate}
use dolphin_re_mcp.Disasm.Pairs.Runs.{Registers, Sets, IsRegister}

-- Each high half that waits is in its register.
abbrev pub Holds : Pending → Registers → Type 0
Holds pending regs = (r : Text) (hi : ℕ) → pending r ≡ some hi → IsRegister r × (regs r ≡ hi)

pub Holds-same :
    (pending : Pending) (before after : Registers)
    → Holds pending before
    → ((r : Text) → after r ≡ before r)
    → Holds pending after
Holds-same pending before after h same r hi e =
    let (named, value) = h r hi e in (named, same r ∙ value)

-- Where nothing waits for the register that is written.
pub Holds-none :
    (dst : Text) (pending : Pending) (before after : Registers)
    → Holds pending before
    → pending dst ≡ none
    → ((r : Text) → r ≢ dst → after r ≡ before r)
    → Holds pending after
Holds-none dst pending before after h waits same r hi e =
    let other : r ≢ dst = λ q. cc (ap pending q) in
    let (named, value) = h r hi e in (named, same r other ∙ value)

pub Holds-drop :
    (dst : Text) (pending : Pending) (before after : Registers)
    → Holds pending before
    → ((r : Text) → r ≢ dst → after r ≡ before r)
    → Holds (drop_pending dst pending) after
unfolding drop_pending
Holds-drop dst pending before after h same r hi e = elim (Bool-cases (eq_text r dst)) [
  | inl q ↦ absurd (cc (rw q at e))
  | inr q ↦
      let other : r ≢ dst = λ x. cc ((eq_text_iff r dst).1 x) in
      let old : pending r ≡ some hi = rw q at e in
      let (named, value) = h r hi old in (named, same r other ∙ value)
]

pub Holds-keep :
    (dst : Text) (new : ℕ) (pending : Pending) (before after : Registers)
    → IsRegister dst
    → Holds pending before
    → Sets dst new before after
    → Holds (keep_pending dst new pending) after
unfolding keep_pending
Holds-keep dst new pending before after named h (set, same) r hi e =
    elim (Bool-cases (eq_text r dst)) [
      | inl q ↦
          let here : r ≡ dst = (eq_text_iff r dst).0 q in
          let value : some new ≡ some hi = rw q at e in
          (subst IsRegister (sym here) named, ap after here ∙ set ∙ cc)
      | inr q ↦
          let other : r ≢ dst = λ x. cc ((eq_text_iff r dst).1 x) in
          let old : pending r ≡ some hi = rw q at e in
          let (name, value) = h r hi old in (name, same r other ∙ value)
    ]

-- What still waits has waited before, and not for the register that is dropped.
pub invalidate-old :
    (o : Option Text) (pending : Pending) (r : Text) (hi : ℕ)
    → invalidate o pending r ≡ some hi
    → pending r ≡ some hi
unfolding drop_pending
invalidate-old none pending r hi e = e
invalidate-old (some dst) pending r hi e = elim (Bool-cases (eq_text r dst)) [
  | inl q ↦ absurd (cc (rw q at e))
  | inr q ↦ rw q at e
]

pub invalidate-gone :
    (pending : Pending) (r : Text) (hi : ℕ) → ¬ (invalidate (some r) pending r ≡ some hi)
unfolding drop_pending
invalidate-gone pending r hi e =
    let self : eq_text r r ≡ true = (eq_text_iff r r).1 refl in cc (rw self at e)

-- ===== src/Session/WellFormed.antt =====
-- The registry of breakpoints in good order: each entry under its own id, all ids different and
-- given out already.
use dolphin_re_mcp.Prelude.{
  ℕ, ◌≤◌, ◌<◌, ◌≡◌, refl, ap, ◌∙◌, false, none, some, [], ◌∷◌, ◌++◌, ◌==◌, arith, All, Bool-cases,
  inl, inr,
}
use dolphin_re_mcp.Prelude.Dict.{Dict, lookup, insert, erase}
use dolphin_re_mcp.Session.{Session, BreakpointSpec}

abbrev pub Breakpoints : Type 0
Breakpoints = Dict ℕ BreakpointSpec

-- No entry has the id.
abbrev pub Lacking : ℕ → Breakpoints → Type 0
Lacking k = All (λ (e : ℕ × BreakpointSpec). (k == e.0) ≡ false)

abbrev pub Kept : ℕ → Breakpoints → Type 0
Kept n [] = Unit
Kept n ((k, spec) ∷ d) = (spec.bp_id ≡ k) × (k < n) × Lacking k d × Kept n d

abbrev pub WellFormed : Session → Type 0
WellFormed s = Kept s.next_id s.breakpoints

pub Kept-mono : (m n : ℕ) (d : Breakpoints) → m ≤ n → Kept m d → Kept n d
Kept-mono m n [] le h = tt
Kept-mono m n ((k, spec) ∷ d) le (same, low, lacks, h) =
    (same, omega arith, lacks, Kept-mono m n d le h)

Lacking-insert :
    (j k : ℕ) (spec : BreakpointSpec) (d : Breakpoints)
    → (j == k) ≡ false
    → Lacking j d
    → Lacking j (insert ◌==◌ k spec d)
Lacking-insert j k spec [] h l = (h, tt)
Lacking-insert j k spec (e ∷ d) h l = ground (arith, Lacking-insert j k spec d h l.1)

pub Kept-insert :
    (n k : ℕ) (spec : BreakpointSpec) (d : Breakpoints)
    → spec.bp_id ≡ k
    → k < n
    → Kept n d
    → Kept n (insert ◌==◌ k spec d)
Kept-insert n k spec [] same low h = (same, low, tt, tt)
Kept-insert n k spec ((j, other) ∷ d) same low (same', low', lacks, h) =
    elim (Bool-cases (k == j)) [
      | inl e ↦ let k_is_j : k ≡ j = ground arith in rw e (same ∙ k_is_j, low', lacks, h)
      | inr e ↦
          let apart : (j == k) ≡ false = ground arith in
          rw e
            (same', low', Lacking-insert j k spec d apart lacks, Kept-insert n k spec d same low h)
    ]

Lacking-erase : (j k : ℕ) (d : Breakpoints) → Lacking j d → Lacking j (erase ◌==◌ k d)
Lacking-erase j k [] h = tt
Lacking-erase j k (e ∷ d) h = ground (arith, Lacking-erase j k d h.1)

pub Kept-erase : (n k : ℕ) (d : Breakpoints) → Kept n d → Kept n (erase ◌==◌ k d)
Kept-erase n k [] h = tt
Kept-erase n k ((j, spec) ∷ d) (same, low, lacks, h) = elim (Bool-cases (k == j)) [
  | inl e ↦ rw e h
  | inr e ↦ rw e (same, low, Lacking-erase j k d lacks, Kept-erase n k d h)
]

-- An id that has not been given out is in no entry.
pub Kept-Lacking : (n k : ℕ) (d : Breakpoints) → n ≤ k → Kept n d → Lacking k d
Kept-Lacking n k [] le h = tt
Kept-Lacking n k ((j, spec) ∷ d) le (same, low, lacks, h) = (ground arith, Kept-Lacking n k d le h)

-- A new key goes to the end.
pub insert-Lacking :
    (k : ℕ) (spec : BreakpointSpec) (d : Breakpoints)
    → Lacking k d
    → insert ◌==◌ k spec d ≡ d ++ (k, spec) ∷ []
insert-Lacking k spec [] h = refl
insert-Lacking k spec (e ∷ d) h =
    rw (h.0) (ap (λ (x : Breakpoints). e ∷ x) (insert-Lacking k spec d h.1))

pub lookup-Lacking : (k : ℕ) (d : Breakpoints) → Lacking k d → lookup ◌==◌ k d ≡ none
lookup-Lacking k [] h = refl
lookup-Lacking k (e ∷ d) h = rw (h.0) (lookup-Lacking k d h.1)

-- After a removal the id is gone.
pub erase-Lacking : (n k : ℕ) (d : Breakpoints) → Kept n d → Lacking k (erase ◌==◌ k d)
erase-Lacking n k [] h = tt
erase-Lacking n k ((j, spec) ∷ d) (same, low, lacks, h) = elim (Bool-cases (k == j)) [
  | inl e ↦ let k_is_j : k ≡ j = ground arith in rw e (rw k_is_j lacks)
  | inr e ↦ rw e (e, erase-Lacking n k d h)
]

-- An entry that is found is under its own id.
pub lookup-bp_id :
    (n k : ℕ) (d : Breakpoints) {spec : BreakpointSpec}
    → Kept n d
    → lookup ◌==◌ k d ≡ some spec
    → (spec.bp_id ≡ k) × (k < n)
lookup-bp_id n k [] {spec} h e = ground arith
lookup-bp_id n k ((j, other) ∷ d) {spec} (same, low, lacks, h) e = elim (Bool-cases (k == j)) [
  | inl b ↦ ground arith
  | inr b ↦ ground (arith, lookup-bp_id n k d {spec = spec} h)
]

-- An object of the registry is changed in place, its id kept.
pub Kept-update :
    (n k : ℕ) (d : Breakpoints) (old new : BreakpointSpec)
    → Kept n d
    → lookup ◌==◌ k d ≡ some old
    → new.bp_id ≡ old.bp_id
    → Kept n (insert ◌==◌ k new d)
Kept-update n k d old new h e same =
    let (own, low) = lookup-bp_id n k d h e in Kept-insert n k new d (same ∙ own) low h

-- ===== src/Tools/Memory/Search/Splits.antt =====
-- The occurrences of a pattern, and how they split where a text is cut with an overlap.
use dolphin_re_mcp.Prelude.{
  ℕ, zero, suc, ◌+◌, ◌≤◌, ◌<◌, ◌≡◌, refl, sym, ap, ◌∙◌, Bool, true, false, List, [], ◌∷◌, ◌++◌,
  arith, if◌then◌else◌, length, drop, length-append, inl, inr, Bool-cases, Option, none, some,
  append_assoc, length-drop,
}
use dolphin_re_mcp.Prelude.Text.{Bytes, starts_with}
use dolphin_re_mcp.Errors.{ok}
use dolphin_re_mcp.Tools.Memory.Search.{find_from, find, after_find, find_all}

-- Every position, counted from `i`, at which the pattern stands, in order.
unfoldable pub occurrences : Bytes → Bytes → ℕ → List ℕ
occurrences pat [] i = []
occurrences pat (c ∷ s) i =
    let rest = occurrences pat s (suc i) in if starts_with (c ∷ s) pat then i ∷ rest else rest

-- A text that is shorter than a pattern does not start with it.
starts_with_short : (s p : Bytes) → length s < length p → starts_with s p ≡ false
unfolding starts_with
starts_with_short s [] h = absurd (omega arith)
starts_with_short [] (d ∷ p) h = refl
starts_with_short (c ∷ s) (d ∷ p) h = ground (arith, starts_with_short s p)

-- What follows a text does not matter to a pattern that fits.
starts_with-append :
    (s r p : Bytes) → length p ≤ length s → starts_with (s ++ r) p ≡ starts_with s p
unfolding starts_with
starts_with-append [] r [] h = unfold starts_with in refl
starts_with-append s r [] h = unfold starts_with in refl
starts_with-append [] r (d ∷ p) h = absurd (omega arith)
starts_with-append (c ∷ s) r (d ∷ p) h = ground (arith, starts_with-append s r p)

pub occurrences_short : (pat s : Bytes) (i : ℕ) → length s < length pat → occurrences pat s i ≡ []
unfolding occurrences
occurrences_short pat [] i h = refl
occurrences_short pat (c ∷ s) i h =
    rw (starts_with_short (c ∷ s) pat h) (occurrences_short pat s (suc i) (omega arith))

if-append :
    (b : Bool) (i : ℕ) (xs ys : List ℕ)
    → (if b then i ∷ (xs ++ ys) else xs ++ ys) ≡ (if b then i ∷ xs else xs) ++ ys
if-append true i xs ys = refl
if-append false i xs ys = refl

-- A text `a ++ t ++ r` is searched in two parts that share `t`, which is one shorter than the
-- pattern: none is found twice and none is lost.
pub occurrences-overlap :
    (pat a t r : Bytes) (i : ℕ)
    → suc (length t) ≡ length pat
    → occurrences pat (a ++ (t ++ r)) i
      ≡ occurrences pat (a ++ t) i ++ occurrences pat (t ++ r) (i + length a)
unfolding occurrences
occurrences-overlap pat [] t r i h =
    let none_yet : occurrences pat t i ≡ [] = occurrences_short pat t i (omega arith) in
    let same : i ≡ i + 0 = omega arith in rw none_yet (ap (occurrences pat (t ++ r)) same)
occurrences-overlap pat (c ∷ a) t r i h =
    let fits : starts_with (c ∷ (a ++ (t ++ r))) pat ≡ starts_with (c ∷ (a ++ t)) pat =
      rw (← append_assoc a t r)
        (starts_with-append (c ∷ (a ++ t)) r pat (omega (arith, length-append a t))) in
    let moved : suc i + length a ≡ i + suc (length a) = omega arith in
    let rest : occurrences pat (a ++ (t ++ r)) (suc i)
        ≡ occurrences pat (a ++ t) (suc i) ++ occurrences pat (t ++ r) (i + suc (length a)) =
      rw (← moved) (occurrences-overlap pat a t r (suc i) h) in
    rw (fits, rest) (if-append (starts_with (c ∷ (a ++ t)) pat) i _ _)

-- The first occurrence, and those behind it.
abbrev Found : Bytes → Bytes → ℕ → Option ℕ → Type 0
Found pat s i none = occurrences pat s i ≡ []
Found pat s i (some k) =
    (d : ℕ) × (k ≡ i + d)
    × (d < length s)
    × (occurrences pat s i ≡ k ∷ occurrences pat (drop (suc d) s) (suc k))

Found-later :
    (pat s : Bytes) (c i : ℕ) (o : Option ℕ)
    → starts_with (c ∷ s) pat ≡ false
    → Found pat s (suc i) o
    → Found pat (c ∷ s) i o
unfolding occurrences
Found-later pat s c i none h f = rw h f
Found-later pat s c i (some k) h (d, at, fits, e) = (suc d, omega arith, omega arith, rw h e)

find_from-Found : (p : ℕ) (pat s : Bytes) (i : ℕ) → Found (p ∷ pat) s i (find_from (p ∷ pat) s i)
unfolding occurrences find_from
find_from-Found p pat [] i = unfold starts_with in refl
find_from-Found p pat (c ∷ s) i = elim (Bool-cases (starts_with (c ∷ s) (p ∷ pat))) [
  | inl h ↦ rw h (0, omega arith, omega arith, rw h refl)
  | inr h ↦ rw h (
      Found-later (p ∷ pat) s c i (find_from (p ∷ pat) s (suc i)) h
        (find_from-Found p pat s (suc i)))
]

drop-nil : (n : ℕ) → drop {A = ℕ} n [] ≡ []
drop-nil zero = refl
drop-nil (suc n) = refl

pub drop-add : (m n : ℕ) (xs : Bytes) → drop (m + n) xs ≡ drop n (drop m xs)
drop-add zero n xs = ap (λ k. drop k xs) (omega arith)
drop-add (suc m) n [] = drop-nil (suc m + n) ∙ sym (drop-nil n)
drop-add (suc m) n (x ∷ xs) =
    let moved : suc m + n ≡ suc (m + n) = omega arith in rw moved (drop-add m n xs)

find_all-Found :
    (fuel : ℕ) (buf pat : Bytes) (start : ℕ) (o : Option ℕ)
    → Found pat (drop start buf) start o
    → ((k : ℕ)
        → length (drop k buf) < length (drop start buf)
        → find_all fuel buf pat k ≡ ok (occurrences pat (drop k buf) k))
    → after_find o (find_all fuel buf pat) ≡ ok (occurrences pat (drop start buf) start)
find_all-Found fuel buf pat start none f next = rw f refl
find_all-Found fuel buf pat start (some k) (d, at, fits, e) next =
    let moved : suc k ≡ start + suc d = omega arith in
    let behind : drop (suc k) buf ≡ drop (suc d) (drop start buf) =
      ap (λ n. drop n buf) moved ∙ drop-add start (suc d) buf in
    let less : length (drop (suc k) buf) < length (drop start buf) =
      omega (arith, ap (length {A = ℕ}) behind, length-drop {A = ℕ} (suc d) (drop start buf)) in
    rw (next (suc k) less) (rw behind (rw e refl))

-- The inner loop ends and gives all occurrences.
pub find_all-occurrences :
    (fuel : ℕ) (buf : Bytes) (p : ℕ) (pat : Bytes) (start : ℕ)
    → length (drop start buf) < fuel
    → find_all fuel buf (p ∷ pat) start ≡ ok (occurrences (p ∷ pat) (drop start buf) start)
unfolding find_all
find_all-occurrences zero buf p pat start h = absurd (omega arith)
find_all-occurrences (suc fuel) buf p pat start h =
    find_all-Found fuel buf (p ∷ pat) start (find buf (p ∷ pat) start)
      (find_from-Found p pat (drop start buf) start)
      λ k less. find_all-occurrences fuel buf p pat k (omega arith)

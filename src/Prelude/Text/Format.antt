-- ===== src/Prelude/Text/Format.antt =====
-- `upper`, `ljust`, `join`, the format `:0Nx`, and lists cut into pieces of one length.
use Prim.Native.Nat.{ℕ, zero, suc, ◌-◌}
use mathlib.Core.Bool.{◌&&◌}
use mathlib.Core.List.{List, [], ◌∷◌, ◌++◌, map}
use native.Mathlib.Omega.{arith}
use mathlib.Core.Path.{◌≡◌}
use dolphin_re_mcp.Prelude.Tests.{leb, if◌then◌else◌}
use dolphin_re_mcp.Prelude.Lists.{length, take, drop}
use dolphin_re_mcp.Prelude.Int.{ℤ, pos, negsuc}
use dolphin_re_mcp.Prelude.Text.Chars.{Text}
use dolphin_re_mcp.Prelude.Text.Number.{hex_nat}

-- `s.upper()`
abbrev pub upper : Text → Text
upper s = map (λ c. if leb b'a' c && leb c b'z' then c - 32 else c) s

abbrev pub repeat {ℓ} : {A : Type ℓ} → ℕ → A → List A
repeat zero x = []
repeat (suc n) x = x ∷ repeat n x

pub length-repeat {ℓ} : {A : Type ℓ} (n : ℕ) (x : A) → length (repeat n x) ≡ n
length-repeat zero x = omega arith
length-repeat (suc n) x = omega (arith, length-repeat n x)

-- `s.ljust(n)`
unfoldable pub ljust : ℕ → Text → Text
ljust n s = s ++ repeat (n - length s) b' '

-- `sep.join(parts)`
abbrev pub join_behind : Text → List Text → Text
join_behind sep [] = []
join_behind sep (p ∷ ps) = sep ++ (p ++ join_behind sep ps)

unfoldable pub join : Text → List Text → Text
join sep [] = []
join sep (p ∷ ps) = p ++ join_behind sep ps

abbrev zero_padded : ℕ → Text → Text
zero_padded n s = repeat (n - length s) b'0' ++ s

-- `f"{n:0Nx}"`; a sign counts as one of the N characters.
unfoldable pub hex_padded : ℕ → ℤ → Text
hex_padded width (pos n) = zero_padded width (hex_nat n)
hex_padded width (negsuc n) = b'-' ∷ zero_padded (width - 1) (hex_nat (suc n))

-- `[xs[i : i + n] for i in range(0, len(xs), n)]`; there are no more pieces than items.
unfoldable pub pieces_from {ℓ} : {A : Type ℓ} → ℕ → ℕ → List A → List (List A)
pieces_from zero n xs = []
pieces_from (suc fuel) n [] = []
pieces_from (suc fuel) n (x ∷ xs) = take n (x ∷ xs) ∷ pieces_from fuel n (drop n (x ∷ xs))

unfoldable pub pieces {ℓ} : {A : Type ℓ} → ℕ → List A → List (List A)
unfolding pieces_from
pieces n xs = pieces_from (length xs) n xs

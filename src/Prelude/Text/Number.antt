-- ===== src/Prelude/Text/Number.antt =====
-- `int(s, base)` and the formats `:x`, `:0Nx` and `:02x`.
use Prim.Native.Nat.{ℕ, zero, suc, ◌+◌, ◌-◌, ◌*◌, ◌/◌, ◌%◌, ◌≤◌, ◌<◌}
use mathlib.Core.Path.{◌≡◌, refl, ap, ◌∙◌}
use mathlib.Core.Logic.{◌↔◌}
use mathlib.Core.Bool.{Bool, true, false, ◌&&◌, ◌||◌}
use mathlib.Core.List.{[], ◌∷◌}
use mathlib.Core.Option.{Option, none, some}
use native.Mathlib.Omega.{arith}
use dolphin_re_mcp.Prelude.Tests.{leb, ltb, ◌==◌, if◌then◌else◌}
use dolphin_re_mcp.Prelude.Lists.{All}
use dolphin_re_mcp.Prelude.Int.{ℤ, pos, negsuc, neg_ℕ}
use dolphin_re_mcp.Prelude.Text.Chars.{Text, strip, strip_solid, IsSolid}

-- The value of a digit; what is no digit has a value above every base.
unfoldable pub digit_value : ℕ → ℕ
digit_value c =
    if leb b'0' c && leb c b'9'
    then c - b'0'
    else if leb b'a' c && leb c b'z'
    then c - b'a' + 10
    else if leb b'A' c && leb c b'Z'
    then c - b'A' + 10
    else 99

-- Digits with single underscores between them; `after` tells that a digit stands just before.
unfoldable pub scan_digits : ℕ → Text → ℕ → Bool → Option ℕ
unfolding digit_value
scan_digits base [] n true = some n
scan_digits base [] n false = none
scan_digits base (c ∷ s) n after = elim (c == b'_') [
  | true ↦ elim after [ true ↦ scan_digits base s n false | false ↦ none ]
  | false ↦ elim (ltb (digit_value c) base) [
    | true ↦ scan_digits base s (n * base + digit_value c) true
    | false ↦ none
  ]
]

-- The digits behind a prefix may begin with one underscore.
skip_underscore : Text → Text
skip_underscore [] = []
skip_underscore (c ∷ s) = if c == b'_' then s else c ∷ s

is_letter : ℕ → ℕ → Bool
is_letter c d = c == d || c + 32 == d

prefixed : ℕ → Text → Option ℕ
unfolding scan_digits skip_underscore
prefixed base s = scan_digits base (skip_underscore s) 0 false

-- A decimal of base 0 has no leading zero, unless it is zero.
plain_decimal : Text → Option ℕ
unfolding scan_digits
plain_decimal s = elim (scan_digits 10 s 0 false) [ some zero ↦ some 0 | _ ↦ none ]

-- A text without its sign. Base 0 reads the base off the prefix.
unsigned : ℕ → Text → Option ℕ
unfolding scan_digits prefixed plain_decimal is_letter
unsigned base [] = none
unsigned base (c ∷ []) = scan_digits (if base == 0 then 10 else base) (c ∷ []) 0 false
unsigned base (c ∷ d ∷ s) =
    let number = c ∷ d ∷ s in
    if base == 0
    then (if c == b'0'
        then (if is_letter d b'x'
            then prefixed 16 s
            else if is_letter d b'o'
            then prefixed 8 s
            else if is_letter d b'b'
            then prefixed 2 s
            else plain_decimal number)
        else scan_digits 10 number 0 false)
    else if c == b'0' && (base == 16 && is_letter d b'x')
    then prefixed 16 s
    else scan_digits base number 0 false

signed : ℕ → Text → Option ℤ
unfolding unsigned
signed base [] = none
signed base (c ∷ s) =
    if c == b'-'
    then elim (unsigned base s) [ none ↦ none | some n ↦ some (neg_ℕ n) ]
    else elim (unsigned base (if c == b'+' then s else c ∷ s)) [
      | none ↦ none
      | some n ↦ some (pos n)
    ]

-- `int(s, base)`: `none` stands for ValueError.
unfoldable pub parse_int : ℕ → Text → Option ℤ
unfolding signed strip
parse_int base s = signed base (strip s)

unfoldable pub hex_digit : ℕ → ℕ
hex_digit d = if ltb d 10 then b'0' + d else b'a' + (d - 10)

hex_onto : ℕ → ℕ → Text → Text
unfolding hex_digit
hex_onto zero n acc = acc
hex_onto (suc f) n acc =
    let rest = hex_onto f (n / 16) (hex_digit (n % 16) ∷ acc) in
    if n / 16 == 0 then hex_digit (n % 16) ∷ acc else rest

-- `f"{n:x}"` for n ≥ 0.
unfoldable pub hex_nat : ℕ → Text
unfolding hex_onto
hex_nat n = hex_onto (suc n) n []

-- `f"{n:x}"`
unfoldable pub hex : ℤ → Text
unfolding hex_nat
hex (pos n) = hex_nat n
hex (negsuc n) = b'-' ∷ hex_nat (suc n)

-- The text of a number is read back.
scan-hex_onto :
    (f n : ℕ) (acc : Text)
    → n < f
    → scan_digits 16 (hex_onto f n acc) 0 false ≡ scan_digits 16 acc n true
unfolding scan_digits hex_onto
scan-hex_onto zero n acc h = elim h [ ]
scan-hex_onto (suc f) n acc h = ground (arith, scan-hex_onto f (n / 16) (hex_digit (n % 16) ∷ acc))

abbrev pub IsHexDigit : ℕ → Type 0
IsHexDigit c = digit_value c < 16

hex_onto-IsHexDigit :
    (f n : ℕ) (acc : Text) → All IsHexDigit acc → All IsHexDigit (hex_onto f n acc)
unfolding hex_onto digit_value
hex_onto-IsHexDigit zero n acc h = h
hex_onto-IsHexDigit (suc f) n acc h =
    let d : IsHexDigit (hex_digit (n % 16)) = ground arith in
    ground (arith, hex_onto-IsHexDigit f (n / 16) (hex_digit (n % 16) ∷ acc) (d, h))

IsHexDigit-IsSolid : (s : Text) → All IsHexDigit s → All IsSolid s
unfolding digit_value
IsHexDigit-IsSolid [] h = tt
IsHexDigit-IsSolid (c ∷ s) h =
    let solid : IsSolid c = ground arith in (solid, IsHexDigit-IsSolid s h.1)

abbrev pub as_pos : Option ℕ → Option ℤ
as_pos none = none
as_pos (some n) = some (pos n)

unsigned_hex : (s : Text) → All IsHexDigit s → unsigned 16 s ≡ scan_digits 16 s 0 false
unfolding unsigned digit_value
unsigned_hex [] h = unfold scan_digits in refl
unsigned_hex (c ∷ []) h = ground arith
unsigned_hex (c ∷ d ∷ s) h = ground arith

signed_hex : (s : Text) → All IsHexDigit s → signed 16 s ≡ as_pos (scan_digits 16 s 0 false)
unfolding signed digit_value
signed_hex [] h = unfold scan_digits in refl
signed_hex (c ∷ s) h = ground (arith, unsigned_hex (c ∷ s) h)

pub parse_int_hex :
    (s : Text) → All IsHexDigit s → parse_int 16 s ≡ as_pos (scan_digits 16 s 0 false)
unfolding parse_int
parse_int_hex s h = rw (strip_solid s (IsHexDigit-IsSolid s h)) (signed_hex s h)

pub hex_nat-IsHexDigit : (n : ℕ) → All IsHexDigit (hex_nat n)
unfolding hex_nat
hex_nat-IsHexDigit n = hex_onto-IsHexDigit (suc n) n [] tt

pub digit_value-hex_digit : (d : ℕ) → d < 16 → digit_value (hex_digit d) ≡ d
unfolding digit_value hex_digit
digit_value-hex_digit d h = ground arith

pub hex_digit_high : (d : ℕ) → 48 ≤ hex_digit d
unfolding hex_digit
hex_digit_high d = ground arith

pub scan-hex_nat : (n : ℕ) → scan_digits 16 (hex_nat n) 0 false ≡ some n
unfolding hex_nat scan_digits
scan-hex_nat n = scan-hex_onto (suc n) n [] (omega arith)

-- `int(f"{n:x}", 16) == n`
pub parse_int-hex_nat : (n : ℕ) → parse_int 16 (hex_nat n) ≡ some (pos n)
parse_int-hex_nat n = parse_int_hex (hex_nat n) (hex_nat-IsHexDigit n) ∙ ap as_pos (scan-hex_nat n)

decimal_onto : ℕ → ℕ → Text → Text
decimal_onto zero n acc = acc
decimal_onto (suc f) n acc =
    let rest = decimal_onto f (n / 10) ((b'0' + n % 10) ∷ acc) in
    if n / 10 == 0 then (b'0' + n % 10) ∷ acc else rest

unfoldable pub decimal_nat : ℕ → Text
unfolding decimal_onto
decimal_nat n = decimal_onto (suc n) n []

-- `f"{n}"`
unfoldable pub decimal : ℤ → Text
unfolding decimal_nat
decimal (pos n) = decimal_nat n
decimal (negsuc n) = b'-' ∷ decimal_nat (suc n)

-- A decimal that is read as a hexadecimal.
abbrev IsDigit : ℕ → Type 0
IsDigit c = digit_value c < 10

decimal_onto-IsHexDigit :
    (f n : ℕ) (acc : Text) → All IsHexDigit acc → All IsHexDigit (decimal_onto f n acc)
unfolding decimal_onto digit_value
decimal_onto-IsHexDigit zero n acc h = h
decimal_onto-IsHexDigit (suc f) n acc h =
    let d : IsHexDigit (b'0' + n % 10) = ground arith in
    ground (arith, decimal_onto-IsHexDigit f (n / 10) ((b'0' + n % 10) ∷ acc) (d, h))

pub decimal_nat-IsHexDigit : (n : ℕ) → All IsHexDigit (decimal_nat n)
unfolding decimal_nat
decimal_nat-IsHexDigit n = decimal_onto-IsHexDigit (suc n) n [] tt

as_hex : ℕ → ℕ → ℕ
as_hex zero n = 0
as_hex (suc f) n =
    let rest = as_hex f (n / 10) * 16 + n % 10 in if n / 10 == 0 then n % 10 else rest

scan-decimal_onto :
    (f n : ℕ) (acc : Text)
    → n < f
    → scan_digits 16 (decimal_onto f n acc) 0 false ≡ scan_digits 16 acc (as_hex f n) true
unfolding scan_digits decimal_onto as_hex
scan-decimal_onto zero n acc h = elim h [ ]
scan-decimal_onto (suc f) n acc h =
    ground (arith, scan-decimal_onto f (n / 10) ((b'0' + n % 10) ∷ acc))

as_hex_low : (f n : ℕ) → n < f → n < 10 → as_hex f n ≡ n
unfolding as_hex
as_hex_low zero n h k = absurd (omega arith)
as_hex_low (suc f) n h k = ground arith

as_hex_ge : (f n : ℕ) → n < f → n ≤ as_hex f n
unfolding as_hex
as_hex_ge zero n h = absurd (omega arith)
as_hex_ge (suc f) n h = ground (arith, as_hex_ge f (n / 10))

as_hex_high : (f n : ℕ) → n < f → 10 ≤ n → n < as_hex f n
unfolding as_hex
as_hex_high zero n h k = absurd (omega arith)
as_hex_high (suc f) n h k = ground (arith, as_hex_ge f (n / 10))

scan-decimal_nat : (n : ℕ) → scan_digits 16 (decimal_nat n) 0 false ≡ some (as_hex (suc n) n)
unfolding decimal_nat scan_digits
scan-decimal_nat n = scan-decimal_onto (suc n) n [] (omega arith)

-- A decimal read as a hexadecimal is the same number exactly when it has one digit.
pub parse_int-decimal_iff : (n : ℕ) → (parse_int 16 (decimal_nat n) ≡ some (pos n)) ↔ (n < 10)
parse_int-decimal_iff n =
    let read : parse_int 16 (decimal_nat n) ≡ some (pos (as_hex (suc n) n)) =
      parse_int_hex (decimal_nat n) (decimal_nat-IsHexDigit n) ∙ ap as_pos (scan-decimal_nat n) in
    (
      λ h. ground (arith, as_hex_high (suc n) n (omega arith)),
      λ h. read ∙ ap (λ (k : ℕ). some (pos k)) (as_hex_low (suc n) n (omega arith) h),
    )

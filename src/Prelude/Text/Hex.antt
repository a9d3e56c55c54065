-- ===== src/Prelude/Text/Hex.antt =====
-- `bytes.hex()`, `bytes.fromhex` and `int.from_bytes(…, "big")`.
use Prim.Native.Nat.{ℕ, ◌+◌, ◌*◌, ◌/◌, ◌%◌, ◌<◌}
use mathlib.Core.Path.{◌≡◌, refl, ap}
use mathlib.Core.Bool.{Bool, true, false, ◌&&◌, ◌||◌}
use mathlib.Core.List.{[], ◌∷◌}
use mathlib.Core.Option.{Option, none, some}
use native.Mathlib.Omega.{arith}
use dolphin_re_mcp.Prelude.Tests.{leb, ltb, ◌==◌}
use dolphin_re_mcp.Prelude.Lists.{All}
use dolphin_re_mcp.Prelude.Text.Chars.{Text, Bytes}
use dolphin_re_mcp.Prelude.Text.Number.{
  digit_value, hex_digit, digit_value-hex_digit, hex_digit_high,
}

-- `data.hex()`
unfoldable pub to_hex : Bytes → Text
to_hex [] = []
to_hex (b ∷ bs) = hex_digit (b / 16) ∷ hex_digit (b % 16) ∷ to_hex bs

abbrev is_blank : ℕ → Bool
is_blank c = (leb 9 c && leb c 13) || c == 32

-- The last argument is the first digit of a pair, if the pair is half read.
read_pairs : Text → Option ℕ → Option Bytes
read_pairs [] none = some []
read_pairs [] (some hi) = none
read_pairs (c ∷ s) none = elim (is_blank c) [
  | true ↦ read_pairs s none
  | false ↦ elim (ltb (digit_value c) 16) [
    | true ↦ read_pairs s (some (digit_value c))
    | false ↦ none
  ]
]
read_pairs (c ∷ s) (some hi) = elim (ltb (digit_value c) 16) [
  | true ↦ elim (read_pairs s none) [
    | none ↦ none
    | some bs ↦ some ((hi * 16 + digit_value c) ∷ bs)
  ]
  | false ↦ none
]

-- `bytes.fromhex(s)`: `none` stands for ValueError.
unfoldable pub from_hex : Text → Option Bytes
unfolding read_pairs digit_value
from_hex s = read_pairs s none

abbrev pub IsByte : ℕ → Type 0
IsByte b = b < 256

read_pairs-hex_digit :
    (x y : ℕ) (s : Text)
    → x < 16
    → y < 16
    → read_pairs (hex_digit x ∷ hex_digit y ∷ s) none
      ≡ elim (read_pairs s none) [ none ↦ none | some bs ↦ some ((x * 16 + y) ∷ bs) ]
unfolding read_pairs
read_pairs-hex_digit x y s hx hy =
    ground (arith, digit_value-hex_digit x hx, digit_value-hex_digit y hy, hex_digit_high x)

read_pairs-to_hex : (bs : Bytes) → All IsByte bs → read_pairs (to_hex bs) none ≡ some bs
unfolding to_hex read_pairs
read_pairs-to_hex [] h = refl
read_pairs-to_hex (b ∷ bs) h =
    let e : b / 16 * 16 + b % 16 ≡ b = omega arith in
    rw
      (
        read_pairs-hex_digit (b / 16) (b % 16) (to_hex bs) (omega arith) (omega arith),
        read_pairs-to_hex bs h.1,
      )
      (ap (λ (c : ℕ). some (c ∷ bs)) e)

pub from_hex-to_hex : (bs : Bytes) → All IsByte bs → from_hex (to_hex bs) ≡ some bs
unfolding from_hex
from_hex-to_hex = read_pairs-to_hex

-- `int.from_bytes(data, "big")`
big_endian_from : ℕ → Bytes → ℕ
big_endian_from n [] = n
big_endian_from n (b ∷ bs) = big_endian_from (n * 256 + b) bs

unfoldable pub big_endian : Bytes → ℕ
unfolding big_endian_from
big_endian bs = big_endian_from 0 bs

-- `n.to_bytes(4, "big")`
abbrev pub word32 : ℕ → Bytes
word32 n = (n / 16777216) ∷ (n / 65536 % 256) ∷ (n / 256 % 256) ∷ (n % 256) ∷ []

pub big_endian-word32 : (n : ℕ) → big_endian (word32 n) ≡ n
unfolding big_endian big_endian_from
big_endian-word32 n = omega arith

-- ===== src/Gdb/Commands/Fields.antt =====
-- The packets as the stub reads them: its numbers are hexadecimal.
use dolphin_re_mcp.Prelude.{
  ℕ, ◌<◌, ◌≤◌, ◌≡◌, ◌↔◌, refl, ap, false, inl, inr, Bool-cases, length, Option, none, some, [], ◌∷◌,
  ◌++◌, arith, All, ◌==◌,
}
use dolphin_re_mcp.Prelude.Int.{ℤ, pos}
use dolphin_re_mcp.Prelude.Text.{
  Text, Bytes, IsByte, from_hex, to_hex, from_hex-to_hex, Lacks, split_once, split_once-Lacks,
  hex_nat, hex, decimal_nat, decimal, parse_int, parse_int-hex_nat, parse_int-decimal_iff,
  IsHexDigit, hex_nat-IsHexDigit, digit_value,
}
use dolphin_re_mcp.Gdb.Commands.{read_mem_packet, write_mem_packet, break_packet}

abbrev pub with_rest : Option ℤ → Text → Option (ℤ × Text)
with_rest none s = none
with_rest (some n) s = some (n, s)

abbrev pub number_before : Option (Text × Text) → Option (ℤ × Text)
number_before none = none
number_before (some (a, b)) = with_rest (parse_int 16 a) b

-- A field up to the separator, as a number, and what follows.
abbrev pub number_field : ℕ → Text → Option (ℤ × Text)
number_field sep s = number_before (split_once sep s)

not_digit : (c d : ℕ) → 16 ≤ digit_value c → IsHexDigit d → (d == c) ≡ false
not_digit c d no_digit h = elim (Bool-cases (d == c)) [
  | inl q ↦ let same : d ≡ c = ground arith in absurd (omega (arith, ap digit_value same))
  | inr q ↦ q
]

hex-Lacks : (c : ℕ) (s : Text) → 16 ≤ digit_value c → All IsHexDigit s → Lacks c s
hex-Lacks c [] no_digit h = tt
hex-Lacks c (d ∷ s) no_digit h =
    let other : (d == c) ≡ false = not_digit c d no_digit h.0 in (other, hex-Lacks c s no_digit h.1)

number_field-hex :
    (c n : ℕ) (s : Text)
    → 16 ≤ digit_value c
    → number_field c (hex_nat n ++ (c ∷ s)) ≡ some (pos n, s)
number_field-hex c n s no_digit = rw (
  split_once-Lacks c (hex_nat n) s (hex-Lacks c (hex_nat n) no_digit (hex_nat-IsHexDigit n)),
  parse_int-hex_nat n,
)

abbrev pub with_size : ℤ → Option ℤ → Option (ℤ × ℤ)
with_size addr none = none
with_size addr (some size) = some (addr, size)

abbrev pub and_size : Option (ℤ × Text) → Option (ℤ × ℤ)
and_size none = none
and_size (some (addr, s)) = with_size addr (parse_int 16 s)

-- What the stub makes of an `m` packet: an address and a size.
abbrev pub mem_range : Text → Option (ℤ × ℤ)
mem_range [] = none
mem_range (op ∷ s) = and_size (number_field b',' s)

abbrev pub with_bytes : ℤ → ℤ → Option Bytes → Option (ℤ × ℤ × Bytes)
with_bytes addr size none = none
with_bytes addr size (some bytes) = some (addr, size, bytes)

abbrev pub with_data : ℤ → Option (ℤ × Text) → Option (ℤ × ℤ × Bytes)
with_data addr none = none
with_data addr (some (size, s)) = with_bytes addr size (from_hex s)

abbrev pub and_data : Option (ℤ × Text) → Option (ℤ × ℤ × Bytes)
and_data none = none
and_data (some (addr, s)) = with_data addr (number_field b':' s)

-- What the stub makes of an `M` packet: an address, a size and the bytes.
abbrev pub mem_data : Text → Option (ℤ × ℤ × Bytes)
mem_data [] = none
mem_data (op ∷ s) = and_data (number_field b',' s)

-- The stub reads from an `m` packet the address and the size that were asked for, and from an `M`
-- packet the address, the number of bytes and the bytes.
pub mem_packets :
    (addr size : ℕ) (bytes : Bytes)
    → All IsByte bytes
    → (mem_range (read_mem_packet (pos addr) (pos size)) ≡ some (pos addr, pos size))
      × (mem_data (write_mem_packet (pos addr) bytes) ≡ some (pos addr, pos (length bytes), bytes))
unfolding read_mem_packet write_mem_packet hex digit_value
mem_packets addr size bytes h = (
  rw (number_field-hex b',' addr (hex_nat size) (omega arith), parse_int-hex_nat size) refl,
  rw
      (
        number_field-hex b',' addr (hex_nat (length bytes) ++ (b':' ∷ to_hex bytes)) (omega arith),
        number_field-hex b':' (length bytes) (to_hex bytes) (omega arith),
        from_hex-to_hex bytes h,
      )
      refl,
)

abbrev pub and_number : Option (ℤ × Text) → Option ℤ
and_number none = none
and_number (some (addr, s)) = parse_int 16 s

abbrev pub size_after : Option (Text × Text) → Option ℤ
size_after none = none
size_after (some (op, s)) = and_number (number_field b',' s)

-- What the stub makes of the size in a `Z` or `z` packet.
abbrev pub break_size : Text → Option ℤ
break_size s = size_after (split_once b',' s)

-- The size of a watchpoint is printed in decimal and read in hexadecimal: the stub watches as many
-- bytes as were asked for exactly when they are fewer than ten.
pub break_packet_size_iff :
    (op : Text) (addr size : ℕ)
    → Lacks b',' op
    → (break_size (break_packet op (pos addr) (pos size)) ≡ some (pos size)) ↔ (size < 10)
unfolding break_packet hex decimal
break_packet_size_iff op addr size h =
    rw
      (
        split_once-Lacks b',' op (hex_nat addr ++ (b',' ∷ decimal_nat size)) h,
        number_field-hex b',' addr (decimal_nat size) (unfold digit_value in omega arith),
      )
      (parse_int-decimal_iff size)

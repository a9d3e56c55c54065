-- ===== src/Memory/Routing.antt =====
-- memory/routing.py: which region of guest memory an address lies in, and address arguments.
pub mod Ranges
use dolphin_re_mcp.Prelude.{
  ℕ, ◌+◌, ◌≡◌, refl, Bool, true, false, ◌&&◌, Option, none, some, ◌∷◌, if◌then◌else◌, is_empty,
}
use dolphin_re_mcp.Prelude.Int.{ℤ, pos, leb_ℤ, ltb_ℤ, ◌+ℤ◌, ◌-ℤ◌}
use dolphin_re_mcp.Prelude.Text.{Text, codes, strip, parse_int}
use dolphin_re_mcp.Errors.{Result, ok, err, value_error, type_error, address_out_of_range}

abbrev pub mem1_base : ℕ
mem1_base = 0x8000_0000

abbrev pub mem1_size : ℕ
mem1_size = 0x0180_0000

abbrev pub mem1_end : ℕ
mem1_end = mem1_base + mem1_size

abbrev pub mem2_base : ℕ
mem2_base = 0x9000_0000

abbrev pub mem2_size : ℕ
mem2_size = 0x0400_0000

abbrev pub mem2_end : ℕ
mem2_end = mem2_base + mem2_size

pub data Region : Type 0 where
  mem1 mem2 : Region

pub record RoutedAddress : Type 0 where
  pub region : Region
  pub offset : ℤ
  pub size : ℤ

unfoldable pub route : ℤ → ℤ → Result RoutedAddress
unfolding ◌+ℤ◌ ◌-ℤ◌
route addr size =
    if leb_ℤ size (pos 0)
    then err value_error
    else if leb_ℤ (pos mem1_base) addr && ltb_ℤ addr (pos mem1_end)
    then (if ltb_ℤ (pos mem1_end) (addr +ℤ size)
        then err address_out_of_range
        else ok
            (record { region = mem1; offset = addr -ℤ pos mem1_base; size = pos mem1_end -ℤ addr }))
    else if leb_ℤ (pos mem2_base) addr && ltb_ℤ addr (pos mem2_end)
    then (if ltb_ℤ (pos mem2_end) (addr +ℤ size)
        then err address_out_of_range
        else ok
            (record { region = mem2; offset = addr -ℤ pos mem2_base; size = pos mem2_end -ℤ addr }))
    else err address_out_of_range

-- `route` raises nothing but the two exceptions that `is_valid` handles.
unfoldable pub is_valid : ℤ → ℤ → Bool
unfolding route
is_valid addr size = elim (route addr size) [ ok _ ↦ true | err _ ↦ false ]

-- An argument as the tool wrappers receive it: JSON has other values too.
pub data Argument : Type 0 where
  integer : ℤ → Argument
  text : Text → Argument
  other : Argument

unfoldable pub coerce_addr : Argument → Result ℤ
unfolding parse_int strip
coerce_addr (integer n) = ok n
coerce_addr (text x) =
    let s = strip x in
    if is_empty s
    then err value_error
    else elim (parse_int 0 s) [ some n ↦ ok n | none ↦ err value_error ]
coerce_addr other = err type_error

hex_argument : coerce_addr (text (codes " 0x806BBC74 ")) ≡ ok (pos 2154544244)
unfolding coerce_addr
hex_argument = refl

bare_hex_argument : coerce_addr (text (codes "806BBC74")) ≡ err value_error
unfolding coerce_addr
bare_hex_argument = refl

-- ===== src/Tools/Memory/Report.antt =====
-- tools/memory_tools.py: `dump_hex`, the comparison with a saved dump, and `addr_info_tool`.
pub mod Differences
use dolphin_re_mcp.Prelude.{
  ℕ, zero, suc, ◌+◌, ◌-◌, ◌*◌, ◌/◌, ◌%◌, Bool, true, false, not, ◌&&◌, ◌||◌, Option, none, some,
  List, [], ◌∷◌, ◌++◌, map, ltb, leb, ◌==◌, if◌then◌else◌, length, take, drop,
}
use dolphin_re_mcp.Prelude.Int.{ℤ, pos, negsuc, ◌+ℤ◌, leb_ℤ, ltb_ℤ, pos_part}
use dolphin_re_mcp.Prelude.Text.{
  Text, Bytes, codes, to_hex, hex_padded, join, ljust, pieces, decimal,
}
use dolphin_re_mcp.Errors.{Result, ok, err, value_error, type_error, file_not_found}
use dolphin_re_mcp.Exec.{Exec, pure, raise, lift, ◌>>=◌, ◌>>◌}
use dolphin_re_mcp.Memory.Routing.{Region, RoutedAddress, route, Argument, coerce_addr}
use dolphin_re_mcp.Symbols.{SymbolMap, LookupResult, enrich}
use dolphin_re_mcp.Session.{Session, Environment}
use dolphin_re_mcp.Tools.Memory.{read, hex_text}

-- `dump_hex`

-- A row in words of four bytes, as wide as the code pads it.
unfoldable pub hex_column : ℕ → Bytes → Text
hex_column width row =
    ljust (width * 2 + (width / 4 - 1) * 1) (join (codes "  ") (map to_hex (pieces 4 row)))

abbrev pub printable : ℕ → ℕ
printable b = if leb 32 b && ltb b 127 then b else b'.'

unfoldable pub dump_line : ℤ → ℕ → Bytes → Text
dump_line at width row =
    hex_text 8 at ++ (codes ": " ++ (hex_column width row ++ (codes "  " ++ map printable row)))

-- The rows from an offset on.
unfoldable pub dump_lines : ℤ → ℕ → ℕ → List Bytes → List Text
dump_lines addr off width [] = []
dump_lines addr off width (row ∷ rows) =
    dump_line (addr +ℤ pos off) width row ∷ dump_lines addr (off + width) width rows

pub record HexDump : Type 0 where
  pub at : Text
  pub size : ℤ
  pub lines : List Text
  pub text : Text

abbrev pub dump_rows : Environment → ℤ → ℤ → ℤ → Exec Session HexDump
dump_rows env addr size (negsuc n) = raise value_error
dump_rows env addr size (pos width) =
    if ltb width 4 || not (width % 4 == 0)
    then raise value_error
    else (read env addr size >>= λ blob. pure (record {
      at = hex_text 8 addr;
      size = size;
      lines = dump_lines addr 0 width (pieces width blob);
      text = to_hex blob;
    }))

-- `dump_hex(addr, size, width)`
unfoldable pub dump_hex : Environment → ℤ → ℤ → ℤ → Exec Session HexDump
dump_hex env addr size width =
    if leb_ℤ size (pos 0)
    then pure (record { at = hex_text 8 addr; size = pos 0; lines = []; text = [] })
    else if ltb_ℤ (pos 4096) size
    then raise value_error
    else dump_rows env addr size width

-- `diff_live_vs_dump`

pub record Difference : Type 0 where
  pub offset : ℕ
  pub addr : ℤ
  pub live : ℕ
  pub dump : ℕ

-- `for i, (a, b) in enumerate(zip(live, saved))`
unfoldable pub differences : ℤ → ℕ → Bytes → Bytes → List Difference
differences addr i (a ∷ live) (b ∷ saved) =
    let rest = differences addr (suc i) live saved in
    if a == b
    then rest
    else (record { offset = i; addr = addr +ℤ pos i; live = a; dump = b }) ∷ rest
differences addr i _ _ = []

-- `blob[off : off + size]`, for an offset and a size that are not negative.
abbrev pub saved_slice : ℤ → ℤ → Bytes → Bytes
saved_slice off size blob = take (pos_part size) (drop (pos_part off) blob)

abbrev pub compare_with : Environment → ℤ → ℤ → Bytes → ℤ → Exec Session (List Difference)
compare_with env addr size blob off =
    if ltb_ℤ (pos (length blob)) (off +ℤ size)
    then raise value_error
    else (read env addr size >>= λ live. pure (differences addr 0 live (saved_slice off size blob)))

abbrev pub diff_with : Environment → ℤ → ℤ → Option Bytes → Exec Session (List Difference)
diff_with env addr size none = raise file_not_found
diff_with env addr size (some blob) =
    lift (route addr size) >>= λ routed. compare_with env addr size blob routed.offset

-- `diff_live_vs_dump(addr, size, dump_path)`, on the bytes of the file, if there is one.
unfoldable pub diff_live_vs_dump :
    Environment → ℤ → ℤ → Option Bytes → Exec Session (List Difference)
diff_live_vs_dump env addr size file = diff_with env addr size file

-- `addr_info_tool`

-- The offset stands under the name of its region.
pub record AddrInfo : Type 0 where
  pub decimal_value : ℤ
  pub digits : Text
  pub region : Option Region
  pub valid : Bool
  pub region_offset : Option ℤ
  pub symbol : Option LookupResult

abbrev pub info_of : ℤ → Result RoutedAddress → Option LookupResult → AddrInfo
info_of n (ok r) sym = record {
  decimal_value = n;
  digits = hex_text 8 n;
  region = some r.region;
  valid = true;
  region_offset = some r.offset;
  symbol = sym;
}
info_of n (err e) sym = record {
  decimal_value = n;
  digits = hex_text 8 n;
  region = none;
  valid = false;
  region_offset = none;
  symbol = sym;
}

abbrev pub info_at : SymbolMap → Result ℤ → Result AddrInfo
info_at m (err e) = err e
info_at m (ok n) = ok (info_of n (route n (pos 1)) (enrich m n))

-- `addr_info_tool(addr)`
unfoldable pub addr_info : SymbolMap → Argument → Result AddrInfo
addr_info m arg = info_at m (coerce_addr arg)

-- `resolve_addr_tool`: an argument that is no address, an address in no symbol, or what is found.
pub data Resolved : Type 0 where
  invalid_address : Argument → Resolved
  unresolved : Text → Resolved
  resolved : LookupResult → Resolved

abbrev pub resolved_as : ℤ → Option LookupResult → Resolved
resolved_as n none = unresolved (hex_text 8 n)
resolved_as n (some found) = resolved found

-- `coerce_addr` raises nothing but the two exceptions that are handled here.
unfoldable pub resolve_addr : SymbolMap → Argument → Resolved
resolve_addr m arg = elim (coerce_addr arg) [
  | ok n ↦ resolved_as n (enrich m n)
  | err _ ↦ invalid_address arg
]

-- ===== src/Symbols.antt =====
-- symbol_map.py: the table of symbols, its text format and its lookup.
pub mod Lookup
pub mod Sort
use dolphin_re_mcp.Prelude.{
  ℕ, zero, suc, ◌+◌, Bool, true, false, not, ◌&&◌, ◌||◌, Option, none, some, List, [], ◌∷◌, ◌++◌,
  map, if◌then◌else◌, get_elem?, is_empty, any,
}
use dolphin_re_mcp.Prelude.Int.{ℤ, pos, ◌+ℤ◌, ◌-ℤ◌, leb_ℤ, ltb_ℤ, eqb_ℤ}
use dolphin_re_mcp.Prelude.Dict.{Dict, lookup, insert}
use dolphin_re_mcp.Prelude.Text.{
  Text, codes, eq_text, mem_text, starts_with, ends_with, strip, split_words, split_once,
  split_last_word, split_lines, parse_int, hex, hex_padded,
}

pub record Symbol : Type 0 where
  pub addr : ℤ
  pub size : ℤ
  pub name : Text

pub record SymbolMap : Type 0 where
  pub symbols : List Symbol
  pub sorted_addrs : List ℤ
  pub exact : Dict ℤ Symbol
  pub skipped : ℕ

-- Lookup

-- `bisect.bisect_right` on a sorted list: the index of the first item above `x`.
unfoldable pub bisect_right : List ℤ → ℤ → ℕ
bisect_right [] x = 0
bisect_right (a ∷ rest_addrs) x =
    let rest = bisect_right rest_addrs x in if leb_ℤ a x then suc rest else 0

-- `sym.addr + (sym.size if sym.size > 0 else 1)`
unfoldable pub end_of : Symbol → ℤ
end_of sym = sym.addr +ℤ (if ltb_ℤ (pos 0) sym.size then sym.size else pos 1)

unfoldable pub contains : Symbol → ℤ → Bool
unfolding end_of
contains sym addr = leb_ℤ sym.addr addr && ltb_ℤ addr (end_of sym)

abbrev pub if_contains : ℤ → Option Symbol → Option Symbol
if_contains addr none = none
if_contains addr (some sym) = if contains sym addr then some sym else none

-- The symbol in front of the index that `bisect_right` gave.
abbrev pub before : List Symbol → ℕ → Option Symbol
before syms zero = none
before syms (suc i) = get_elem? syms i

abbrev pub or_before : SymbolMap → ℤ → Option Symbol → Option Symbol
or_before m addr (some sym) = some sym
or_before m addr none = if_contains addr (before m.symbols (bisect_right m.sorted_addrs addr))

-- `lookup(addr)`, the symbol.
unfoldable pub lookup_symbol : SymbolMap → ℤ → Option Symbol
lookup_symbol m addr =
    if is_empty m.symbols then none else or_before m addr (lookup eqb_ℤ addr m.exact)

-- Parsing

-- The section words that a name may be followed by.
abbrev pub section_words : List Text
section_words = codes "Global" ∷ codes "Local" ∷ codes "Weak" ∷ codes "Common" ∷ []

abbrev pub name_before_section : Text → Option (Text × Text) → Text
name_before_section rest none = strip rest
name_before_section rest (some (head, last)) =
    if mem_text last section_words then strip head else strip rest

abbrev pub name_before_tab : Text → Option (Text × Text) → Text
name_before_tab rest none = name_before_section rest (split_last_word rest)
name_before_tab rest (some (head, tail)) = strip head

abbrev pub named_symbol : ℤ → ℤ → Text → Option Symbol
named_symbol addr size [] = none
named_symbol addr size (c ∷ s) = some (record { addr = addr; size = size; name = c ∷ s })

abbrev pub parsed_symbol : Option ℤ → Option ℤ → Option ℤ → Text → Option Symbol
parsed_symbol (some addr) (some size) (some align) rest =
    named_symbol addr size (name_before_tab rest (split_once 9 rest))
parsed_symbol _ _ _ rest = none

abbrev pub symbol_of : List Text → Option Symbol
symbol_of (addr_s ∷ size_s ∷ vaddr_s ∷ align_s ∷ rest ∷ []) =
    parsed_symbol (parse_int 16 addr_s) (parse_int 16 size_s) (parse_int 10 align_s) rest
symbol_of _ = none

-- `_parse_line(line)`
unfoldable pub parse_line : Text → Option Symbol
parse_line line = symbol_of (split_words 4 line)

-- Empty lines, headers and separators.
unfoldable pub is_no_data : Text → Bool
is_no_data line =
    is_empty line
    || (starts_with line (codes "---")
        || (starts_with line (codes "Starting") || ends_with line (codes "section layout")))

-- `key in seen`, for the symbols so far.
abbrev pub same_key : Symbol → Symbol → Bool
same_key s t = eqb_ℤ s.addr t.addr && eq_text s.name t.name

unfoldable pub is_seen : Symbol → List Symbol → Bool
is_seen s syms = any (same_key s) syms

abbrev pub add_symbol : List Symbol × ℕ → Option Symbol → List Symbol × ℕ
add_symbol (syms, skipped) none = (syms, suc skipped)
add_symbol (syms, skipped) (some s) =
    if is_seen s syms then (syms, skipped) else (syms ++ s ∷ [], skipped)

abbrev pub add_line : List Symbol × ℕ → Text → List Symbol × ℕ
add_line acc line = if is_no_data line then acc else add_symbol acc (parse_line line)

abbrev pub add_lines : List Symbol × ℕ → List Text → List Symbol × ℕ
add_lines acc [] = acc
add_lines acc (raw ∷ rest) = add_lines (add_line acc (strip raw)) rest

-- `_parse_text(text)`
unfoldable pub parse_text : Text → List Symbol × ℕ
parse_text t = add_lines ([], 0) (split_lines t)

-- Loading

-- `(s.addr, -s.size) <= (t.addr, -t.size)`
abbrev pub key_le : Symbol → Symbol → Bool
key_le s t = ltb_ℤ s.addr t.addr || (eqb_ℤ s.addr t.addr && leb_ℤ t.size s.size)

-- A stable sort: an item goes in front of the first that is greater.
unfoldable pub insert_sorted : Symbol → List Symbol → List Symbol
insert_sorted s [] = s ∷ []
insert_sorted s (t ∷ ts) =
    let rest = insert_sorted s ts in if key_le s t then s ∷ t ∷ ts else t ∷ rest

-- `syms.sort(key=…)`
unfoldable pub sort : List Symbol → List Symbol
unfolding insert_sorted
sort [] = []
sort (s ∷ ss) = insert_sorted s (sort ss)

-- `{s.addr: s for s in syms}`
abbrev pub exact_from : Dict ℤ Symbol → List Symbol → Dict ℤ Symbol
exact_from d [] = d
exact_from d (s ∷ ss) = exact_from (insert eqb_ℤ s.addr s d) ss

-- The table of symbols in their order.
unfoldable pub table : List Symbol → ℕ → SymbolMap
table syms skipped = record {
  symbols = syms;
  sorted_addrs = map (λ (s : Symbol). s.addr) syms;
  exact = exact_from [] syms;
  skipped = skipped;
}

-- `load(path)`, on the text of the file.
unfoldable pub load : Text → SymbolMap
load t = let (syms, skipped) = parse_text t in table (sort syms) skipped

unfoldable pub clear : SymbolMap
clear = record { symbols = []; sorted_addrs = []; exact = []; skipped = 0 }

-- What a lookup tells of a symbol.
pub record LookupResult : Type 0 where
  pub address : Text
  pub symbol_name : Text
  pub symbol_address : Text
  pub offset_in_symbol : Text
  pub display : Text

abbrev pub offset_suffix : ℤ → Text
offset_suffix off = if eqb_ℤ off (pos 0) then [] else codes "+0x" ++ hex off

-- `_to_lookup_dict(addr, sym)`
unfoldable pub to_lookup_dict : ℤ → Symbol → LookupResult
to_lookup_dict addr sym = record {
  address = codes "0x" ++ hex_padded 8 addr;
  symbol_name = sym.name;
  symbol_address = codes "0x" ++ hex_padded 8 sym.addr;
  offset_in_symbol = codes "0x" ++ hex (addr -ℤ sym.addr);
  display = sym.name ++ offset_suffix (addr -ℤ sym.addr);
}

abbrev pub lookup_with : ℤ → Option Symbol → Option LookupResult
lookup_with addr none = none
lookup_with addr (some sym) = some (to_lookup_dict addr sym)

-- `lookup(addr)`, and `enrich(addr)` over the map that is loaded.
unfoldable pub enrich : SymbolMap → ℤ → Option LookupResult
enrich m addr = lookup_with addr (lookup_symbol m addr)

abbrev pub display_of : Option LookupResult → Option Text
display_of none = none
display_of (some found) = some found.display

-- `name_of(addr)`
unfoldable pub name_of : SymbolMap → ℤ → Option Text
name_of m addr = display_of (enrich m addr)

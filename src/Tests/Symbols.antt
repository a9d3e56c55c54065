-- ===== src/Tests/Symbols.antt =====
-- The table of a small map file.
use dolphin_re_mcp.Prelude.{◌≡◌, ◌↔◌, refl, [], ◌∷◌, none, some, true, arith, inl, inr}
use dolphin_re_mcp.Prelude.Int.{pos, eqb_ℤ, ◌+ℤ◌}
use dolphin_re_mcp.Prelude.Text.{
  Text, codes, split_lines, strip, starts_with, ends_with, split_words, parse_int, split_once,
  split_last_word,
}
use dolphin_re_mcp.Symbols.{
  Symbol, contains, lookup_symbol, table, load, parse_text, is_no_data, parse_line, is_seen, end_of,
}
use dolphin_re_mcp.Symbols.Sort.{Disjoint, lookup_symbol-load}
use dolphin_re_mcp.Symbols.Lookup.{Among, lookup_symbol_hidden}

abbrev memcpy : Symbol
memcpy = record { addr = pos 0x80004000; size = pos 0x29c; name = codes "memcpy" }

abbrev memset : Symbol
memset = record { addr = pos 0x8000429c; size = pos 0x30; name = codes "memset" }

abbrev loop : Symbol
loop = record { addr = pos 0x80004010; size = pos 0x20; name = codes "loop" }

lookup_symbol_hidden_example :
    lookup_symbol (table (memcpy ∷ loop ∷ memset ∷ []) 0) (pos 0x80004100) ≡ none
unfolding contains ◌+ℤ◌
lookup_symbol_hidden_example =
    lookup_symbol_hidden (memcpy ∷ []) (memset ∷ []) loop 0 (pos 0x80004100) (omega arith, tt)
      (omega arith) (omega arith, tt) refl

-- A line for each symbol, the higher one first, behind a comment.
abbrev map_file : Text
map_file =
    codes "# code\n8000429c 00000030 8000429c 0 memset\n80004000 0000029c 80004000 0 memcpy\n"

parsed : (parse_text map_file).0 ≡ memset ∷ memcpy ∷ []
unfolding parse_text split_lines is_no_data strip starts_with ends_with parse_line split_words
    parse_int split_once split_last_word is_seen eqb_ℤ
parsed = refl

parsed-Disjoint : Disjoint (parse_text map_file).0
unfolding end_of ◌+ℤ◌
parsed-Disjoint = rw parsed ((inr (omega arith), tt), (tt, tt))

parsed-Among : Among memcpy (parse_text map_file).0
parsed-Among = rw parsed (inr (inl refl))

lookup_symbol-load_example :
    (lookup_symbol (load map_file) (pos 0x80004010) ≡ some memcpy)
    ↔ (Among memcpy (parse_text map_file).0 × (contains memcpy (pos 0x80004010) ≡ true))
lookup_symbol-load_example = lookup_symbol-load map_file (pos 0x80004010) memcpy parsed-Disjoint

found_in_file : lookup_symbol (load map_file) (pos 0x80004010) ≡ some memcpy
unfolding contains ◌+ℤ◌
found_in_file =
    (lookup_symbol-load map_file (pos 0x80004010) memcpy parsed-Disjoint).1 (parsed-Among, refl)

-- ===== src/Gdb/StopReply.antt =====
-- gdb/stop_reply.py: the packets that tell why the target has stopped.
pub mod Fields
use dolphin_re_mcp.Prelude.{
  ℕ, Bool, true, false, ◌||◌, Option, none, some, List, [], ◌∷◌, ◌++◌, ◌==◌, if◌then◌else◌, take,
  drop, is_empty,
}
use dolphin_re_mcp.Prelude.Int.{ℤ, pos, negsuc}
use dolphin_re_mcp.Prelude.Dict.{Dict, lookup, insert}
use dolphin_re_mcp.Prelude.Text.{
  Text, codes, eq_text, mem_text, hex, parse_int, split_on, split_once, rstrip_char,
}
use dolphin_re_mcp.Gdb.Registers.{reg_names}

pub record StopReply : Type 0 where
  pub raw : Text
  pub signal : Option ℤ
  pub registers : Dict Text ℤ
  pub watch_kind : Option Text
  pub watch_addr : Option ℤ
  pub extra : Dict Text Text

-- `out.pc`
unfoldable pub pc : StopReply → Option ℤ
pc out = lookup eq_text (codes "pc") out.registers

-- `out.sp`
unfoldable pub sp : StopReply → Option ℤ
sp out = lookup eq_text (codes "sp") out.registers

-- `StopReply(raw=reply)`
abbrev pub blank : Text → StopReply
blank reply = record {
  raw = reply;
  signal = none;
  registers = [];
  watch_kind = none;
  watch_addr = none;
  extra = [];
}

-- `REG_NAMES.get(regnum, f"reg_0x{regnum:x}")`
abbrev pub or_numbered : ℤ → Option Text → Text
or_numbered regnum none = codes "reg_0x" ++ hex regnum
or_numbered regnum (some name) = name

unfoldable pub reg_name : ℤ → Text
reg_name (pos n) = or_numbered (pos n) (lookup ◌==◌ n reg_names)
reg_name (negsuc n) = or_numbered (negsuc n) none

abbrev pub or_else : Option ℤ → Option ℤ → Option ℤ
or_else none old = old
or_else (some n) old = some n

abbrev pub add_register : StopReply → ℤ → Option ℤ → StopReply
add_register out regnum none = out
add_register out regnum (some value) = record out {
  registers = insert eq_text (reg_name regnum) value out.registers;
}

unfoldable pub watch_kinds : List Text
watch_kinds = codes "watch" ∷ codes "rwatch" ∷ codes "awatch" ∷ []

-- A pair whose key is read as a number, or a named field.
abbrev pub add_pair : StopReply → Text → Text → Option ℤ → StopReply
add_pair out k v (some regnum) = add_register out regnum (parse_int 16 v)
add_pair out k v none =
    if mem_text k watch_kinds
    then record out { watch_kind = some k; watch_addr = or_else (parse_int 16 v) out.watch_addr }
    else record out { extra = insert eq_text k v out.extra }

abbrev pub add_split : StopReply → Option (Text × Text) → StopReply
add_split out none = out
add_split out (some (k, v)) = add_pair out k v (parse_int 16 k)

-- The loop over the fields.
abbrev pub add_fields : StopReply → List Text → StopReply
add_fields out [] = out
add_fields out (kv ∷ rest) = add_fields (add_split out (split_once b':' kv)) rest

abbrev pub add_body : StopReply → Text → StopReply
add_body out [] = out
add_body out (c ∷ s) = add_fields out (split_on b';' (c ∷ s))

abbrev pub with_signal : StopReply → Option ℤ → StopReply
with_signal out none = out
with_signal out (some n) = record out { signal = some n }

-- What follows the signal, which ends the parse where it is no number.
abbrev pub signalled : Bool → StopReply → Text → Option ℤ → StopReply
signalled has_body out s none = out
signalled has_body out s (some n) =
    let out' = record out { signal = some n } in
    if has_body then add_body out' (rstrip_char b';' s) else out'

unfoldable pub parse_stop_reply : Text → StopReply
parse_stop_reply [] = blank []
parse_stop_reply (head ∷ s) =
    let out = blank (head ∷ s) in
    let signal = parse_int 16 (take 2 s) in
    if (head == b'S') || ((head == b'T') || (head == b'X'))
    then signalled (head == b'T') out (drop 2 s) signal
    else if head == b'W'
    then with_signal out signal
    else out

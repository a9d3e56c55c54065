-- ===== src/Gdb/StopReply/Fields.antt =====
-- A T packet that the stub writes, and what is read from it.
use dolphin_re_mcp.Prelude.{
  ℕ, ◌/◌, ◌%◌, ◌≢◌, All-append, ◌≡◌, refl, ◌∙◌, ap, true, false, none, some, List, [], ◌∷◌, ◌++◌,
  arith, All, map, ◌<◌,
}
use dolphin_re_mcp.Prelude.Int.{pos}
use dolphin_re_mcp.Prelude.Dict.{insert}
use dolphin_re_mcp.Prelude.Text.{
  Text, codes, eq_text, mem_text, parse_int, Lacks, split_once, split_once-Lacks, padded_hex,
  parse_int-padded_hex, padded_hex-IsHexDigit, IsHexDigit, digit_value, to_hex, terminated,
  split-terminated, IsPart, IsPart-Lacks, rstrip_char, split_on, hex_digit, digit_value-hex_digit,
  hex_digit_high, parse_int_hex, scan_digits,
}
use dolphin_re_mcp.Gdb.StopReply.{
  StopReply, blank, reg_name, watch_kinds, parse_stop_reply, add_fields, add_split, add_body,
}

pub data WatchKind : Type 0 where
  on_write on_read on_access : WatchKind

abbrev pub kind_text : WatchKind → Text
kind_text on_write = codes "watch"
kind_text on_read = codes "rwatch"
kind_text on_access = codes "awatch"

-- A register's number and value with leading zeros, a watchpoint's address, or another field.
pub data Field : Type 0 where
  register : (zeros n zeros' v : ℕ) → Field
  watchpoint : (kind : WatchKind) (zeros addr : ℕ) → Field
  named : (k v : Text) → Field

abbrev pub key_of : Field → Text
key_of (register z n z' v) = padded_hex z n
key_of (watchpoint kind z addr) = kind_text kind
key_of (named k v) = k

abbrev pub value_of : Field → Text
value_of (register z n z' v) = padded_hex z' v
value_of (watchpoint kind z addr) = padded_hex z addr
value_of (named k v) = v

abbrev pub encode : Field → Text
encode f = key_of f ++ (b':' ∷ value_of f)

-- A named field has a name that is no number and no watchpoint; neither has a separator.
abbrev pub IsField : Field → Type 0
IsField (register z n z' v) = Unit
IsField (watchpoint kind z addr) = Unit
IsField (named k v) =
    (parse_int 16 k ≡ none)
    × (mem_text k watch_kinds ≡ false)
    × Lacks b':' k
    × Lacks b';' k
    × Lacks b';' v

-- What a field tells.
abbrev pub tell : StopReply → Field → StopReply
tell out (register z n z' v) = record out {
  registers = insert eq_text (reg_name (pos n)) (pos v) out.registers;
}
tell out (watchpoint kind z addr) = record out {
  watch_kind = some (kind_text kind);
  watch_addr = some (pos addr);
}
tell out (named k v) = record out { extra = insert eq_text k v out.extra }

abbrev pub tell_all : StopReply → List Field → StopReply
tell_all out [] = out
tell_all out (f ∷ fs) = tell_all (tell out f) fs

hex-Lacks : (d : ℕ) (s : Text) → digit_value d ≡ 99 → All IsHexDigit s → Lacks d s
hex-Lacks d [] e h = tt
hex-Lacks d (c ∷ s) e h =
    let other : c ≢ d = λ same. omega (arith, e, h.0, ap digit_value same) in
    (ground (arith, other), hex-Lacks d s e h.1)

kind_text-Lacks : (kind : WatchKind) → Lacks b':' (kind_text kind) × Lacks b';' (kind_text kind)
kind_text-Lacks on_write =
    ((refl, (refl, (refl, (refl, (refl, tt))))), (refl, (refl, (refl, (refl, (refl, tt))))))
kind_text-Lacks on_read = (
  (refl, (refl, (refl, (refl, (refl, (refl, tt)))))),
  (refl, (refl, (refl, (refl, (refl, (refl, tt)))))),
)
kind_text-Lacks on_access = (
  (refl, (refl, (refl, (refl, (refl, (refl, tt)))))),
  (refl, (refl, (refl, (refl, (refl, (refl, tt)))))),
)

kind_text-named :
    (kind : WatchKind)
    → (parse_int 16 (kind_text kind) ≡ none) × (mem_text (kind_text kind) watch_kinds ≡ true)
unfolding parse_int mem_text watch_kinds
kind_text-named on_write = (refl, refl)
kind_text-named on_read = (refl, refl)
kind_text-named on_access = (refl, refl)

add_split-encode :
    (out : StopReply) (f : Field)
    → IsField f
    → add_split out (split_once b':' (encode f)) ≡ tell out f
unfolding digit_value
add_split-encode out (register z n z' v) h =
    rw
      (
        split_once-Lacks b':' (padded_hex z n) (padded_hex z' v)
            (hex-Lacks b':' _ refl (padded_hex-IsHexDigit z n)),
        parse_int-padded_hex z n,
        parse_int-padded_hex z' v,
      )
      refl
add_split-encode out (watchpoint kind z addr) h =
    rw
      (
        split_once-Lacks b':' (kind_text kind) (padded_hex z addr) (kind_text-Lacks kind).0,
        (kind_text-named kind).0,
        (kind_text-named kind).1,
        parse_int-padded_hex z addr,
      )
      refl
add_split-encode out (named k v) (no_number, no_watch, lacks, _, _) =
    rw (split_once-Lacks b':' k v lacks, no_number, no_watch) refl

IsPart-append : (d : ℕ) (s t : Text) → Lacks d s → IsPart d t → IsPart d (s ++ t)
IsPart-append d [] t h k = k
IsPart-append d (c ∷ s) t h k = (h.0, All-append _ s t h.1 (IsPart-Lacks d t k))

encode-IsPart : (f : Field) → IsField f → IsPart b';' (encode f)
unfolding digit_value
encode-IsPart (register z n z' v) h =
    IsPart-append b';' (padded_hex z n) _ (hex-Lacks b';' _ refl (padded_hex-IsHexDigit z n))
      (refl, hex-Lacks b';' _ refl (padded_hex-IsHexDigit z' v))
encode-IsPart (watchpoint kind z addr) h =
    IsPart-append b';' (kind_text kind) _ (kind_text-Lacks kind).1
      (refl, hex-Lacks b';' _ refl (padded_hex-IsHexDigit z addr))
encode-IsPart (named k v) (_, _, _, lacks, lacks') = IsPart-append b';' k _ lacks (refl, lacks')

encode-All-IsPart : (fs : List Field) → All IsField fs → All (IsPart b';') (map encode fs)
encode-All-IsPart [] h = tt
encode-All-IsPart (f ∷ fs) h = (encode-IsPart f h.0, encode-All-IsPart fs h.1)

add_fields-encode :
    (out : StopReply) (fs : List Field)
    → All IsField fs
    → add_fields out (map encode fs) ≡ tell_all out fs
add_fields-encode out [] h = refl
add_fields-encode out (f ∷ fs) h =
    ap (λ (x : StopReply). add_fields x (map encode fs)) (add_split-encode out f h.0)
    ∙ add_fields-encode (tell out f) fs h.1

add_body-split : (out : StopReply) (s : Text) → add_body out s ≡ add_fields out (split_on b';' s)
unfolding split_on split_once
add_body-split out [] = refl
add_body-split out (c ∷ s) = refl

-- The body of a packet, whose last separator is stripped.
add_body-encode :
    (out : StopReply) (fs : List Field)
    → All IsField fs
    → add_body out (rstrip_char b';' (terminated b';' (map encode fs))) ≡ tell_all out fs
unfolding rstrip_char
add_body-encode out [] h = refl
add_body-encode out (f ∷ fs) h =
    add_body-split out _
    ∙ ap (add_fields out)
        (split-terminated b';' (encode f) (map encode fs) (encode-All-IsPart (f ∷ fs) h))
    ∙ add_fields-encode out (f ∷ fs) h

-- `f"{sig:02x}"`
parse_int-signal : (n : ℕ) → n < 256 → parse_int 16 (to_hex (n ∷ [])) ≡ some (pos n)
unfolding to_hex scan_digits
parse_int-signal n h =
    let hi : digit_value (hex_digit (n / 16)) ≡ n / 16 =
      digit_value-hex_digit (n / 16) (omega arith) in
    let lo : digit_value (hex_digit (n % 16)) ≡ n % 16 =
      digit_value-hex_digit (n % 16) (omega arith) in
    parse_int_hex (to_hex (n ∷ [])) (omega (arith, hi), (omega (arith, lo), tt))
    ∙ ground (arith, hex_digit_high (n / 16), hex_digit_high (n % 16))

-- A T packet with a signal below 256 and any registers, watchpoints and named fields is parsed into
-- just these: the fields take effect one after the other, on a record that has the raw text and the
-- signal only.
pub parse_stop_reply_lem :
    (n : ℕ) (fs : List Field)
    → n < 256
    → All IsField fs
    → let raw = b'T' ∷ (to_hex (n ∷ []) ++ terminated b';' (map encode fs)) in
      parse_stop_reply raw ≡ tell_all (record (blank raw) { signal = some (pos n) }) fs
unfolding parse_stop_reply to_hex
parse_stop_reply_lem n fs h k = rw (parse_int-signal n h) (add_body-encode _ fs k)

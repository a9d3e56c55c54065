-- ===== src/Gdb/Registers/Words.antt =====
-- The payload of `g`, word by word.
use dolphin_re_mcp.Prelude.{
  ℕ, zero, suc, ◌+◌, ◌*◌, ◌<◌, ◌≤◌, ◌≡◌, refl, sym, ap, ◌∙◌, ◌⊎◌, false, List, [], ◌∷◌, ◌++◌,
  append_assoc, arith, length, length-append, drop, ltb,
}
use dolphin_re_mcp.Prelude.Dict.{Dict}
use dolphin_re_mcp.Prelude.Text.{Text, Bytes, word32, big_endian-word32}
use dolphin_re_mcp.Gdb.Registers.{numbered, gprs_from, parse_dolphin_gprs}

abbrev pub words : List ℕ → Bytes
words [] = []
words (w ∷ ws) = word32 w ++ words ws

-- The words under the names of the registers from `i` on.
abbrev pub named_from : ℕ → List ℕ → Dict Text ℕ
named_from i [] = []
named_from i (w ∷ ws) = (numbered b'r' i, w) ∷ named_from (suc i) ws

drop-append : (xs ys : Bytes) (n : ℕ) → length xs ≡ n → drop n (xs ++ ys) ≡ ys
drop-append [] ys zero h = refl
drop-append [] ys (suc n) h = absurd (omega (arith, h))
drop-append (x ∷ xs) ys zero h = absurd (omega (arith, h))
drop-append (x ∷ xs) ys (suc n) h = drop-append xs ys n (omega (arith, h))

gprs_from-words :
    (i n : ℕ) (front : Bytes) (ws : List ℕ) (tail : Bytes)
    → length front ≡ i * 4
    → length ws ≤ n
    → (length ws ≡ n) ⊎ (length tail < 4)
    → gprs_from i n (front ++ (words ws ++ tail)) ≡ named_from i ws
unfolding gprs_from
gprs_from-words i zero front [] tail at short stop = refl
gprs_from-words i zero front (w ∷ ws) tail at short stop = absurd (omega (arith, short))
gprs_from-words i (suc n) front [] tail at short stop =
    let size : length (front ++ tail) ≡ length front + length tail = length-append front tail in
    ground (arith, size, at, stop)
gprs_from-words i (suc n) front (w ∷ ws) tail at short stop =
    let rest = words ws ++ tail in
    let blob = front ++ (word32 w ++ rest) in
    let size : length blob ≡ length front + length (word32 w ++ rest) =
      length-append front (word32 w ++ rest) in
    let enough : ltb (length blob) (i * 4 + 4) ≡ false = ground (arith, size, at) in
    let shifted : (front ++ word32 w) ++ rest ≡ blob = append_assoc front (word32 w) rest in
    let further : length (front ++ word32 w) ≡ suc i * 4 =
      omega (arith, length-append front (word32 w), at) in
    let later : gprs_from (suc i) n blob ≡ named_from (suc i) ws =
      ap (gprs_from (suc i) n) (sym shifted)
      ∙ gprs_from-words (suc i) n (front ++ word32 w) ws tail further (omega (arith, short))
          (ground (arith, stop)) in
    rw (enough, drop-append front (word32 w ++ rest) (i * 4) at, big_endian-word32 w, later) refl

-- The payload of `g` is decoded into one register for each word of four bytes, up to 32 registers:
-- bytes that make no whole word, or that follow the last register, are left out.
pub parse_dolphin_gprs-words :
    (ws : List ℕ) (tail : Bytes)
    → length ws ≤ 32
    → (length ws ≡ 32) ⊎ (length tail < 4)
    → parse_dolphin_gprs (words ws ++ tail) ≡ named_from 0 ws
unfolding parse_dolphin_gprs
parse_dolphin_gprs-words ws tail short stop =
    gprs_from-words 0 32 [] ws tail (omega arith) short stop

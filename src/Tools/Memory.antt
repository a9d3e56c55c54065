-- ===== src/Tools/Memory.antt =====
-- tools/memory_tools.py: reads of typed values, structures and pointer chains, and guarded writes.
-- A floating-point value keeps its bytes.
pub mod Search
pub mod Report
use dolphin_re_mcp.Prelude.{
  ℕ, ◌+◌, ◌-◌, ◌%◌, ◌^◌, Bool, true, false, Option, none, some, List, [], ◌∷◌, ◌++◌, ltb, leb, ◌==◌,
  if◌then◌else◌, length,
}
use dolphin_re_mcp.Prelude.Int.{ℤ, pos, ◌+ℤ◌, sub_ℕ, mask32}
use dolphin_re_mcp.Prelude.Dict.{Dict, insert}
use dolphin_re_mcp.Prelude.Text.{
  Text, Bytes, codes, eq_text, to_hex, from_hex, big_endian, hex_padded, decimal,
}
use dolphin_re_mcp.Errors.{
  Error, Result, ok, err, value_error, index_error, struct_error, write_refused,
}
use dolphin_re_mcp.Exec.{Exec, pure, raise, lift, catch, ◌>>=◌, ◌>>◌}
use dolphin_re_mcp.Memory.Routing.{is_valid}
use dolphin_re_mcp.Session.{
  Session, Environment, ensure_connected, mem_read, mem_write, is_exception,
}

-- `_read(addr, size)`
unfoldable pub read : Environment → ℤ → ℤ → Exec Session Bytes
read env addr size = do ensure_connected env; mem_read env.host addr size

-- `_write(addr, data)`
unfoldable pub write : Environment → ℤ → Bytes → Exec Session Unit
write env addr bytes = do ensure_connected env; mem_write env.host addr bytes

-- `{"addr": …, "size": …, "hex": …}`
pub record Dump : Type 0 where
  pub at : ℤ
  pub size : ℤ
  pub text : Text

unfoldable pub read_mem : Environment → ℤ → ℤ → Exec Session Dump
read_mem env addr size = do
  bytes ← read env addr size
  pure (record { at = addr; size = size; text = to_hex bytes })

-- Typed values

abbrev pub first_byte : Bytes → Exec Session ℕ
first_byte [] = raise index_error
first_byte (b ∷ bs) = pure b

unfoldable pub read_u8 : Environment → ℤ → Exec Session ℕ
read_u8 env addr = do bytes ← read env addr (pos 1); first_byte bytes

unfoldable pub read_u16 : Environment → ℤ → Exec Session ℕ
read_u16 env addr = do bytes ← read env addr (pos 2); pure (big_endian bytes)

unfoldable pub read_u32 : Environment → ℤ → Exec Session ℕ
read_u32 env addr = do bytes ← read env addr (pos 4); pure (big_endian bytes)

-- `struct.unpack` wants the size of its format.
unfoldable pub exactly : ℕ → Bytes → Exec Session Bytes
exactly n bytes = if length bytes == n then pure bytes else raise struct_error

-- A word of 32 bits as a number with a sign.
unfoldable pub signed_word : ℕ → ℤ
signed_word n = if ltb n (2 ^ 31) then pos n else sub_ℕ n (2 ^ 32)

unfoldable pub read_s32 : Environment → ℤ → Exec Session ℤ
read_s32 env addr = do
  bytes ← read env addr (pos 4)
  word ← exactly 4 bytes
  pure (signed_word (big_endian word))

unfoldable pub read_f32 : Environment → ℤ → Exec Session Bytes
read_f32 env addr = do bytes ← read env addr (pos 4); exactly 4 bytes

unfoldable pub read_f64 : Environment → ℤ → Exec Session Bytes
read_f64 env addr = do bytes ← read env addr (pos 8); exactly 8 bytes

-- `{"addr": …, "value": …, "hex": …}`
pub record Reading : Type 0 where
  pub addr : Text
  pub value : ℤ
  pub digits : Text

-- `f"0x{n:0Nx}"`
abbrev pub hex_text : ℕ → ℤ → Text
hex_text width n = b'0' ∷ b'x' ∷ hex_padded width n

unfoldable pub u_dict : ℤ → ℕ → ℕ → Reading
u_dict addr value width = record {
  addr = hex_text 8 addr;
  value = pos value;
  digits = hex_text width (pos value);
}

unfoldable pub read_u8_dict : Environment → ℤ → Exec Session Reading
read_u8_dict env addr = do v ← read_u8 env addr; pure (u_dict addr v 2)

unfoldable pub read_u16_dict : Environment → ℤ → Exec Session Reading
read_u16_dict env addr = do v ← read_u16 env addr; pure (u_dict addr v 4)

unfoldable pub read_u32_dict : Environment → ℤ → Exec Session Reading
read_u32_dict env addr = do v ← read_u32 env addr; pure (u_dict addr v 8)

unfoldable pub read_s32_dict : Environment → ℤ → Exec Session Reading
read_s32_dict env addr = do
  v ← read_s32 env addr
  pure (record { addr = hex_text 8 addr; value = v; digits = hex_text 8 (pos (mask32 v)) })

-- The same fields as those of `read_u32_dict`, in another order.
unfoldable pub read_ptr : Environment → ℤ → Exec Session Reading
read_ptr env addr = do
  v ← read_u32 env addr
  pure (record { addr = hex_text 8 addr; value = pos v; digits = hex_text 8 (pos v) })

-- Writes

abbrev pub write_decoded : Environment → ℤ → Option Bytes → Exec Session ℕ
write_decoded env addr none = raise value_error
write_decoded env addr (some bytes) = do write env addr bytes; pure (length bytes)

-- `write_mem(addr, hex_data, confirm)`, the number of bytes written.
unfoldable pub write_mem : Environment → ℤ → Text → Bool → Exec Session ℕ
write_mem env addr hex_data confirm =
    if confirm then write_decoded env addr (from_hex hex_data) else raise write_refused

-- Pointers

-- The loop over the offsets behind the first.
unfoldable pub follow_from : Environment → ℤ → List ℤ → Exec Session ℤ
follow_from env cursor [] = pure cursor
follow_from env cursor (off ∷ offsets) =
    read_u32 env cursor >>= λ v. follow_from env (pos v +ℤ off) offsets

unfoldable pub follow_pointer : Environment → ℤ → List ℤ → Exec Session ℤ
follow_pointer env addr [] = read_u32 env addr >>= λ v. pure (pos v)
follow_pointer env addr (off ∷ offsets) =
    read_u32 env addr >>= λ v. follow_from env (pos v +ℤ off) offsets

unfoldable pub is_valid_ptr : Environment → ℤ → Exec Session Bool
is_valid_ptr env addr =
    if is_valid addr (pos 1)
    then catch (read env addr (pos 1) >>= λ _. pure true) is_exception (pure false)
    else pure false

-- Structures

-- The kinds of a layout: a name, `("bytes", N)`, or anything else.
pub data FieldKind : Type 0 where
  u8 u16 u32 s32 f32 f64 unsupported : FieldKind
  byte_string : ℤ → FieldKind

-- An entry of a layout; one that has not three parts is malformed.
pub data Entry : Type 0 where
  entry : Text → FieldKind → ℤ → Entry
  malformed : Entry

-- A float keeps its bytes.
pub data FieldValue : Type 0 where
  number : ℤ → FieldValue
  float : Bytes → FieldValue
  hex_string : Text → FieldValue

abbrev pub as_number : Exec Session ℕ → Exec Session FieldValue
as_number m = m >>= λ v. pure (number (pos v))

abbrev pub as_float : Exec Session Bytes → Exec Session FieldValue
as_float m = m >>= λ v. pure (float v)

unfoldable pub read_field : Environment → FieldKind → ℤ → Exec Session FieldValue
read_field env u8 ea = as_number (read_u8 env ea)
read_field env u16 ea = as_number (read_u16 env ea)
read_field env u32 ea = as_number (read_u32 env ea)
read_field env s32 ea = read_s32 env ea >>= λ v. pure (number v)
read_field env f32 ea = as_float (read_f32 env ea)
read_field env f64 ea = as_float (read_f64 env ea)
read_field env (byte_string n) ea = read env ea n >>= λ v. pure (hex_string (to_hex v))
read_field env unsupported ea = raise value_error

unfoldable pub read_fields :
    Environment → ℤ → List Entry → Dict Text FieldValue → Exec Session (Dict Text FieldValue)
read_fields env addr [] out = pure out
read_fields env addr (malformed ∷ layout) out = raise value_error
read_fields env addr (entry name kind off ∷ layout) out = read_field env kind (addr +ℤ off) >>= λ v.
    read_fields env addr layout (insert eq_text name v out)

unfoldable pub read_struct : Environment → ℤ → List Entry → Exec Session (Dict Text FieldValue)
read_struct env addr layout = read_fields env addr layout []

-- ===== src/Errors.antt =====
-- The exceptions that the program raises or handles, without their messages, and Python's
-- subclass tests on them. `socket.timeout` is `TimeoutError` (Python 3.10 on), a kind of `OSError`.
use dolphin_re_mcp.Prelude.{Bool, true, false}

pub data Error : Type 0 where
  -- builtins
  value_error type_error runtime_error os_error timed_out file_not_found index_error : Error
  -- gdb/client.py
  protocol_error stub_error connection_lost stub_wedged : Error
  -- memory/routing.py, memory/attach.py
  address_out_of_range attach_error : Error
  -- tools
  wrong_state breakpoint_not_found capture_error write_refused dump_dir_missing : Error
  -- `struct.error`, which is a plain Exception
  struct_error : Error
  -- a method of None
  attribute_error : Error
  -- the model's own: a loop ran out of fuel, which the theorems exclude
  out_of_fuel : Error

-- `except OSError`
abbrev pub is_os_error : Error → Bool
is_os_error os_error = true
is_os_error timed_out = true
is_os_error file_not_found = true
is_os_error _ = false

-- `except (ConnectionLost, OSError, GDBProtocolError)`
abbrev pub is_link_error : Error → Bool
is_link_error connection_lost = true
is_link_error protocol_error = true
is_link_error e = is_os_error e

-- `except (ConnectionLost, OSError)`
abbrev pub is_socket_error : Error → Bool
is_socket_error connection_lost = true
is_socket_error e = is_os_error e

-- `except socket.timeout`
abbrev pub is_time_out : Error → Bool
is_time_out timed_out = true
is_time_out _ = false

-- `except ConnectionLost`
abbrev pub is_connection_lost : Error → Bool
is_connection_lost connection_lost = true
is_connection_lost _ = false

-- `except AttachError`
abbrev pub is_attach_error : Error → Bool
is_attach_error attach_error = true
is_attach_error _ = false

-- `except ValueError`
abbrev pub is_value_error : Error → Bool
is_value_error value_error = true
is_value_error address_out_of_range = true
is_value_error _ = false

-- A call that returns or raises.
pub data Result {ℓ} (A : Type ℓ) : Type ℓ where
  ok : A → Result A
  err : Error → Result A

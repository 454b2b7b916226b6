-- ===== src/Net/Exception.antt =====
-- src/net/netio_exception.cpp and netio_exception.hpp, with the exceptions of the standard library
-- that the modelled code lets through.
use read_mail_really_fast.Prelude.{Bytes}

pub data Exception : Type 0 where
  netio_exception : Bytes → Exception
  bad_function_call : Exception
  out_of_range : Exception

-- `netio_exception::what`: the cause it was made with. (The others are not the program's.)
unfoldable pub what : Exception → Bytes → Bytes
what (netio_exception cause) other = cause
what bad_function_call other = other
what out_of_range other = other

-- The result of an operation that may throw.
pub data Checked {ℓ} (A : Type ℓ) : Type ℓ where
  ok : A → Checked A
  throws : Exception → Checked A

-- ===== src/Net/Address.antt =====
-- src/net/address.hpp. A string literal is the list of its bytes, without the final NUL: the
-- array size `N` of the source is `length str + 1`, and position `length str` holds 0. Positions
-- that may be -1 are integers.
pub mod Chars
pub mod Component
pub mod Inet4
pub mod Inet6
pub mod Literals
mod Tests

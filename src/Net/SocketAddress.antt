-- ===== src/Net/SocketAddress.antt =====
-- src/net/socketaddress.hpp. A `sockaddr` structure in memory is its family, its port field (for
-- the families that have one) and the bytes of its other fields; the C++ type that it is read at
-- is an argument. The sizes of the structures are the platform's.
pub mod Laws
mod Tests
use read_mail_really_fast.Prelude.{
  ℕ, ◌+◌, Bool, not, ◌++◌, Bytes, codes, length, drop, ◌==◌, if◌then◌else◌,
}
use read_mail_really_fast.Net.Exception.{Exception, netio_exception, Checked, ok, throws}

pub data Family : Type 0 where
  af_unspec af_inet af_inet6 af_unix af_netlink : Family
  af_other : ℕ → Family

abbrev family_code : Family → ℕ
family_code af_unspec = 0
family_code af_inet = 1
family_code af_inet6 = 2
family_code af_unix = 3
family_code af_netlink = 4
family_code (af_other n) = n + 5

abbrev pub same_family : Family → Family → Bool
same_family f g = family_code f == family_code g

-- `sockaddr_in`, `sockaddr_in6`, `sockaddr_un` and `sockaddr_nl`
pub data Structure : Type 0 where
  sockaddr_in sockaddr_in6 sockaddr_un sockaddr_nl : Structure

-- `family_map<T>::sa_family`
abbrev pub sa_family : Structure → Family
sa_family sockaddr_in = af_inet
sa_family sockaddr_in6 = af_inet6
sa_family sockaddr_un = af_unix
sa_family sockaddr_nl = af_netlink

pub record Sockaddr : Type 0 where
  pub family_field : Family
  pub port_field : ℕ
  pub body : Bytes

pub record Socketaddr : Type 0 where
  pub addr : Sockaddr
  pub len : ℕ

abbrev mismatch : Exception
mismatch = netio_exception (codes "Address family mismatch in sockaddr structure.")

-- `memcpy(&addr, rhs, sizeof(T))` leaves what lies behind the structure.
abbrev pub copy_over : Sockaddr → Sockaddr → Sockaddr
copy_over rhs old = record rhs { body = rhs.body ++ drop (length rhs.body) old.body }

unfoldable pub family : Socketaddr → Family
family a = a.addr.family_field

unfoldable pub ptr : Socketaddr → Sockaddr
ptr a = a.addr

unfoldable pub size : Socketaddr → ℕ
size a = a.len

-- `operator T*`
unfoldable pub convert : Structure → Socketaddr → Checked Sockaddr
convert t a =
    if not (same_family a.addr.family_field (sa_family t))
    then throws
        (netio_exception (codes "Cannot convert address family of stored sockaddr structure."))
    else ok a.addr

module _ (size_of : Structure → ℕ) where
  -- `socketaddr(T *)`; `addr` and `len` start as zeros.
  unfoldable pub from_pointer : Structure → Sockaddr → Checked Socketaddr
  from_pointer t other =
      if not (same_family other.family_field (sa_family t))
      then throws mismatch
      else ok (record { addr = other; len = size_of t })

  -- `socketaddr(const T &)`
  unfoldable pub from_reference : Structure → Sockaddr → Checked Socketaddr
  from_reference t other =
      if not (same_family other.family_field (sa_family t))
      then throws mismatch
      else ok (record { addr = other; len = size_of t })

  -- `operator=(const T *)`
  unfoldable pub assign : Structure → Sockaddr → Socketaddr → Checked Socketaddr
  assign t rhs a =
      if not (same_family rhs.family_field (sa_family t))
      then throws mismatch
      else ok (record { addr = copy_over rhs a.addr; len = size_of t })

  assign_by_family : Family → Sockaddr → Socketaddr → Checked Socketaddr
  unfolding assign
  assign_by_family af_inet rhs a = assign sockaddr_in rhs a
  assign_by_family af_inet6 rhs a = assign sockaddr_in6 rhs a
  assign_by_family af_unix rhs a = assign sockaddr_un rhs a
  assign_by_family af_netlink rhs a = assign sockaddr_nl rhs a
  assign_by_family _ rhs a =
      throws (netio_exception (codes "Trying to assign unknown address family"))

  -- `operator=(sockaddr *)`
  unfoldable pub assign_sockaddr : Sockaddr → Socketaddr → Checked Socketaddr
  unfolding assign_by_family
  assign_sockaddr rhs a = assign_by_family rhs.family_field rhs a

  -- `operator=(const sockaddr_storage *)`
  unfoldable pub assign_storage : Sockaddr → Socketaddr → Checked Socketaddr
  unfolding assign_sockaddr
  assign_storage rhs a = assign_sockaddr rhs a

-- ===== src/Net/Address/Literals.antt =====
-- The functions that address.hpp offers, and its literals. A literal that does not compile is
-- `none`.
use read_mail_really_fast.Prelude.{
  ℕ, ◌%◌, ◌^◌, Bool, true, false, ◌||◌, Option, none, some, Bytes, replicate, ltb, if◌then◌else◌,
}
use read_mail_really_fast.Net.Address.Chars.{host_to_net_16}
use read_mail_really_fast.Net.Address.Inet4.{inet_addr_impl, inet_aton_impl, inet_aton_canonical}
use read_mail_really_fast.Net.Address.Inet6.{inet6_aton}

abbrev is_some {ℓ} : {A : Type ℓ} → Option A → Bool
is_some none = false
is_some (some a) = true

abbrev stored {ℓ} : {A : Type ℓ} → A → Option A → A
stored initial none = initial
stored initial (some a) = a

pub data IpAddr : Type 0 where
  v4 : ℕ → IpAddr
  v6 : Bytes → IpAddr

module _ (big_endian : Bool) where
  unfoldable pub inet_addr : Bytes → ℕ
  unfolding inet_addr_impl
  inet_addr str = stored 0xffff_ffff (inet_addr_impl big_endian str)

  unfoldable pub inet_aton : Bytes → ℕ
  unfolding inet_aton_impl
  inet_aton str = stored 0xffff_ffff (inet_aton_impl big_endian str)

  -- `inet_pton<AF_INET>`
  unfoldable pub inet_pton_v4 : Bytes → ℕ
  unfolding inet_aton_canonical
  inet_pton_v4 str = stored 0 (inet_aton_canonical big_endian str)

  -- `inet_pton<AF_INET6>`
  unfoldable pub inet_pton_v6 : Bytes → Bytes
  unfolding inet6_aton
  inet_pton_v6 str = stored (replicate 16 0) (inet6_aton big_endian str)

  unfoldable pub is_valid_ip4addr : Bytes → Bool
  unfolding inet_aton_impl
  is_valid_ip4addr str = is_some (inet_aton_impl big_endian str)

  unfoldable pub is_valid_ip6addr : Bytes → Bool
  unfolding inet6_aton
  is_valid_ip6addr str = is_some (inet6_aton big_endian str)

  -- `operator"" _ipaddr`
  unfoldable pub ipaddr_literal : Bytes → Option IpAddr
  unfolding is_valid_ip4addr is_valid_ip6addr inet_aton inet_pton_v6
  ipaddr_literal str =
      if is_valid_ip4addr str || is_valid_ip6addr str
      then some (if is_valid_ip4addr str then v4 (inet_aton str) else v6 (inet_pton_v6 str))
      else none

  -- `operator"" _ip4`
  unfoldable pub ip4_literal : Bytes → Option ℕ
  unfolding is_valid_ip4addr inet_aton
  ip4_literal str = if is_valid_ip4addr str then some (inet_aton str) else none

  -- `operator"" _ip6`
  unfoldable pub ip6_literal : Bytes → Option Bytes
  unfolding is_valid_ip6addr inet_pton_v6
  ip6_literal str = if is_valid_ip6addr str then some (inet_pton_v6 str) else none

  -- `operator"" _ipport`
  unfoldable pub ipport_literal : ℕ → ℕ
  unfolding host_to_net_16
  ipport_literal port = if ltb 65535 port then 0 else host_to_net_16 big_endian (port % 2 ^ 16)

-- ===== src/Net/SocketAddress/Tests.antt =====
-- The theorems on socket addresses at an IPv4 address.
use read_mail_really_fast.Prelude.{◌≡◌, ◌≢◌, refl, ℕ, [], ◌∷◌}
use read_mail_really_fast.Net.Exception.{ok}
use read_mail_really_fast.Net.SocketAddress.{
  Structure, sockaddr_in, sockaddr_in6, sockaddr_un, sockaddr_nl, af_inet, Sockaddr, Socketaddr,
  convert, from_pointer, size,
}
use read_mail_really_fast.Net.SocketAddress.Laws.{convert-from_pointer}

-- The sizes on Linux.
abbrev size_of : Structure → ℕ
size_of sockaddr_in = 16
size_of sockaddr_in6 = 28
size_of sockaddr_un = 110
size_of sockaddr_nl = 12

abbrev local : Sockaddr
local = record {
  family_field = af_inet;
  port_field = 6400;
  body = 127 ∷ 0 ∷ 0 ∷ 1 ∷ 0 ∷ 0 ∷ 0 ∷ 0 ∷ 0 ∷ 0 ∷ 0 ∷ 0 ∷ [];
}

abbrev held : Socketaddr
held = record { addr = local; len = 16 }

convert-from_pointer_example :
    (convert sockaddr_in held ≡ ok local)
    × (size held ≡ size_of sockaddr_in)
    × ((u : Structure) → u ≢ sockaddr_in → convert u held ≢ ok local)
unfolding from_pointer
convert-from_pointer_example = convert-from_pointer size_of sockaddr_in local refl

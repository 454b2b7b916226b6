-- ===== src/Net/TcpServer/Opening.antt =====
-- The descriptors that the constructors of tcp_server_socket.cpp open and close.
use read_mail_really_fast.Prelude.{
  ℕ, ◌+◌, ◌≡◌, refl, Bool, true, false, ◌++◌, [], ◌∷◌, arith, replicate, Bytes, codes,
  if◌then◌else◌,
}
use read_mail_really_fast.Prelude.Int.{ℤ, pos, negsuc}
use read_mail_really_fast.Net.AsyncFd.{auto_fd}
use read_mail_really_fast.Net.AsyncFd.Ownership.{is_number, count, count-destruct}
use read_mail_really_fast.Net.Exception.{netio_exception}
use read_mail_really_fast.Net.SocketAddress.{
  Structure, af_inet6, sockaddr_in6, Socketaddr, family, ptr, size,
}
use read_mail_really_fast.Net.TcpClient.Connect.{Descriptors, log_close}
use read_mail_really_fast.Net.TcpServer.{
  Opener, Serving, serving, refused, open_server, with_listener, tcp_server_socket,
  get_ipv6_socketaddr, server_on_port,
}

-- Every descriptor that was opened has been closed, but for the one the server listens on.
abbrev pub ServingCloses : Serving → Type 0
ServingCloses (serving s d) =
    (n : ℕ) → count n d.closed + is_number n s.ss.socket.fd ≡ count n d.opened
ServingCloses (refused e d) = (n : ℕ) → count n d.closed ≡ count n d.opened

ServingCloses-if :
    (b : Bool) (x y : Serving)
    → ServingCloses x
    → ServingCloses y
    → ServingCloses (if b then x else y)
ServingCloses-if true x y hx hy = hx
ServingCloses-if false x y hx hy = hy

module _ (o : Opener) where
  with_listener-Closes : (sa : Socketaddr) (x : ℤ) → ServingCloses (with_listener o sa x)
  unfolding with_listener open_server
  with_listener-Closes sa (negsuc n) = λ m. refl
  with_listener-Closes sa (pos n) =
      let d : Descriptors = record { opened = n ∷ []; closed = [] } in
      let given_up = log_close (auto_fd (pos n)) d in
      let balanced : (m : ℕ) → count m given_up.closed ≡ count m d.opened =
        λ m. omega (arith, count-destruct m (auto_fd (pos n)) []) in
      ServingCloses-if (o.bind (pos n) (ptr sa) (size sa))
        (refused (netio_exception (codes "Failed to bind to all addresses (FIXME)")) given_up)
        (if o.listen (pos n) 5
          then refused (netio_exception (codes "Failed to enable listening mode for raw socket"))
              given_up
          else open_server (auto_fd (pos n)) d)
        balanced
        (ServingCloses-if (o.listen (pos n) 5)
          (refused (netio_exception (codes "Failed to enable listening mode for raw socket"))
            given_up)
          (open_server (auto_fd (pos n)) d) balanced
          (λ m. omega (arith, count-destruct m (auto_fd (negsuc 0)) [])))

  tcp_server_socket-Closes : (sa : Socketaddr) → ServingCloses (tcp_server_socket o sa)
  unfolding tcp_server_socket
  tcp_server_socket-Closes sa = with_listener-Closes sa (o.socket (family sa))

  -- However a constructor ends, with a server or with an exception, and whatever `socket`, `bind`
  -- and `listen` answer, each descriptor it opened has been closed, but for the descriptor that
  -- the server it returns listens on, which is left open. The constructor that takes a port never
  -- refuses the address it builds: it is the other one, on an IPv6 address with that port.
  pub constructors-Close :
      (size_of : Structure → ℕ) (htons : ℕ → ℕ) (flow scope : Bytes) (port : ℕ) (sa : Socketaddr)
      → let any : Socketaddr = record {
        addr = record {
          family_field = af_inet6;
          port_field = htons port;
          body = flow ++ (replicate 16 0 ++ scope);
        };
        len = size_of sockaddr_in6;
      } in
        ServingCloses (tcp_server_socket o sa)
        × (server_on_port o size_of htons flow scope port ≡ tcp_server_socket o any)
  unfolding server_on_port get_ipv6_socketaddr
  constructors-Close size_of htons flow scope port sa = (tcp_server_socket-Closes sa, refl)

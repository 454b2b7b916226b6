-- ===== src/Net/TcpClient/Connect/Port.antt =====
-- The port of a client that the constructor of tcp_client.cpp connected.
use read_mail_really_fast.Prelude.{
  ℕ, ◌+◌, ◌≡◌, refl, Bool, true, false, not, ◌&&◌, ◌||◌, List, [], ◌∷◌, Option, none, some, Bytes,
  codes, if◌then◌else◌,
}
use read_mail_really_fast.Prelude.Int.{ℤ}
use read_mail_really_fast.Net.AsyncFd.{AutoFd, auto_fd, get, valid, move_assign}
use read_mail_really_fast.Net.Exception.{netio_exception, Checked, ok, throws}
use read_mail_really_fast.Net.SocketAddress.{
  Family, af_inet, af_inet6, same_family, Socketaddr, family,
}
use read_mail_really_fast.Net.TcpClient.Connect.{
  AddrInfo, Kernel, Descriptors, Connecting, connected, failed, log_open, log_close, add_candidates,
  find_port, end_connect, adopt, try_candidates, connect_client, resolved, with_socket,
}

abbrev pub HasNoPort : Connecting → Type 0
HasNoPort (connected c d) = c.port ≡ 0
HasNoPort (failed e d) = Unit

module _ (k : Kernel) (succeeds : (fd : ℤ) → (k.getsockname fd).0 ≡ false) where
  end_connect-HasNoPort :
      (address : Bytes) (a left : AutoFd) (d : Descriptors)
      → HasNoPort (end_connect k address a left d (find_port k (get a) 0))
  unfolding end_connect find_port
  end_connect-HasNoPort address a left d = rw (succeeds (get a)) refl

  HasNoPort-if :
      (b : Bool) (x y : Connecting) → HasNoPort x → HasNoPort y → HasNoPort (if b then x else y)
  HasNoPort-if true x y hx hy = hx
  HasNoPort-if false x y hx hy = hy

  try_candidates-HasNoPort :
      (address : Bytes) (net_socket : AutoFd) (n : ℕ) (cs : List Socketaddr) (d : Descriptors)
      → HasNoPort (try_candidates k address net_socket n cs d)
  unfolding try_candidates adopt
  try_candidates-HasNoPort address net_socket n [] d = tt
  try_candidates-HasNoPort address net_socket n (c ∷ cs) d =
      let candidate = auto_fd (k.socket n (family c)) in
      let opened = log_open candidate.fd d in
      let (a, left, closed') = move_assign net_socket candidate opened.closed in
      HasNoPort-if (valid candidate && k.connect n c) (adopt k address net_socket candidate opened)
        (try_candidates k address net_socket (n + 1) cs (log_close candidate opened))
        (end_connect-HasNoPort address a left (record opened { closed = closed' }))
        (try_candidates-HasNoPort address net_socket (n + 1) cs (log_close candidate opened))

  HasNoPort-checked :
      (address : Bytes) (net_socket : AutoFd) (d : Descriptors) (r : Checked (List Socketaddr))
      → HasNoPort (elim r [
        | throws e ↦ failed e (log_close net_socket d)
        | ok candidates ↦ try_candidates k address net_socket 1 candidates d
      ])
  HasNoPort-checked address net_socket d (throws e) = tt
  HasNoPort-checked address net_socket d (ok cs) =
      try_candidates-HasNoPort address net_socket 1 cs d

  resolved-HasNoPort :
      (address service : Bytes) (f : Family) (net_socket : AutoFd) (d : Descriptors)
      (r : Option (List AddrInfo))
      → HasNoPort (resolved k address service f net_socket d r)
  unfolding resolved
  resolved-HasNoPort address service f net_socket d none = tt
  resolved-HasNoPort address service f net_socket d (some servinfo) =
      HasNoPort-checked address net_socket d (add_candidates k servinfo [])

  -- If every call of `getsockname` succeeds, that is returns 0, then a client that the constructor
  -- returns has the port 0, whichever candidate connected and whatever local address it has.
  pub connect_client-HasNoPort :
      (address service : Bytes) (f : Family) → HasNoPort (connect_client k address service f)
  unfolding connect_client with_socket
  connect_client-HasNoPort address service f =
      let x = k.socket 0 f in
      let d = log_open x (record { opened = []; closed = [] }) in
      HasNoPort-if (not (same_family f af_inet || same_family f af_inet6))
        (failed (netio_exception (codes "Invalid IP address family."))
          (record { opened = []; closed = [] }))
        (with_socket k address service f x) tt
        (HasNoPort-if (not (valid (auto_fd x)))
          (failed (netio_exception (codes "Failed to request socket fd from kernel.")) d)
          (resolved k address service f (auto_fd x) d (k.getaddrinfo address service f)) tt
          (resolved-HasNoPort address service f (auto_fd x) d (k.getaddrinfo address service f)))

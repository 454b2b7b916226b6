-- ===== src/Net/TcpClient/Connect/Candidates.antt =====
-- The descriptors that the connecting constructors of tcp_client.cpp open and close.
use read_mail_really_fast.Prelude.{
  ℕ, ◌+◌, ◌≡◌, refl, ap, Bool, true, false, not, ◌&&◌, ◌||◌, List, [], ◌∷◌, Option, none, some,
  arith, Bytes, codes, if◌then◌else◌,
}
use read_mail_really_fast.Prelude.Int.{ℤ, pos, negsuc}
use read_mail_really_fast.Net.AsyncFd.{AutoFd, auto_fd, get, valid, move_assign, destruct}
use read_mail_really_fast.Net.AsyncFd.Ownership.{is_number, count, count-destruct, move_assign_lem}
use read_mail_really_fast.Net.Exception.{netio_exception, Checked, ok, throws}
use read_mail_really_fast.Net.SocketAddress.{
  Family, af_inet, af_inet6, same_family, Socketaddr, family,
}
use read_mail_really_fast.Net.TcpClient.Connect.{
  AddrInfo, Kernel, Descriptors, Connecting, connected, failed, log_open, log_close, opened_number,
  add_candidates, find_port, end_connect, adopt, try_candidates, connect_client, connect_any,
  connect_port, resolved, with_socket,
}

-- The two constructors without a family refuse every address, before any call of the system.
pub connect_any_fails :
    (k : Kernel) (to_string : ℕ → Bytes) (address service : Bytes) (port : ℕ)
    → let refused =
        failed
          (netio_exception (codes "Invalid IP address family."))
          (record { opened = []; closed = [] }) in
      (connect_any k address service ≡ refused) × (connect_port k to_string address port ≡ refused)
unfolding connect_any connect_port connect_client
connect_any_fails k to_string address service port = (refl, refl)

module _ (k : Kernel) where
  -- Every descriptor that was opened has been closed, but for the one of the new client.
  abbrev pub Closes : Connecting → Type 0
  Closes (connected c d) =
      (n : ℕ) → count n d.closed + is_number n c.net_socket.fd ≡ count n d.opened
  Closes (failed e d) = (n : ℕ) → count n d.closed ≡ count n d.opened

  -- The same while `a` holds a descriptor.
  abbrev Holds : AutoFd → Descriptors → Type 0
  Holds a d = (n : ℕ) → count n d.closed + is_number n a.fd ≡ count n d.opened

  count-open :
      (n : ℕ) (x : ℤ) (ns : List ℕ) → count n (opened_number x ns) ≡ is_number n x + count n ns
  count-open n (pos m) ns = omega arith
  count-open n (negsuc m) ns = omega arith

  end_connect-Closes :
      (address : Bytes) (a left : AutoFd) (d : Descriptors) (r : Checked ℕ)
      → left.fd ≡ negsuc 0
      → Holds a d
      → Closes (end_connect k address a left d r)
  unfolding end_connect
  end_connect-Closes address a left d (ok port) l h =
      λ n. omega (arith, h n, count-destruct n left d.closed, ap (is_number n) l)
  end_connect-Closes address a left d (throws e) l h = λ n. omega (
    arith,
    h n,
    count-destruct n a (destruct left d.closed),
    count-destruct n left d.closed,
    ap (is_number n) l,
  )

  adopt_parts :
      (address : Bytes) (net_socket candidate : AutoFd) (d : Descriptors)
      → adopt k address net_socket candidate d ≡ (
          let (a, left, closed') = move_assign net_socket candidate d.closed in
          end_connect k address a left (record d { closed = closed' }) (find_port k (get a) 0))
  unfolding adopt
  adopt_parts address net_socket candidate d = refl

  adopt-Closes :
      (address : Bytes) (net_socket candidate : AutoFd) (d : Descriptors)
      → ((n : ℕ)
          → count n d.closed + is_number n net_socket.fd + is_number n candidate.fd
            ≡ count n d.opened)
      → Closes (adopt k address net_socket candidate d)
  adopt-Closes address net_socket candidate d h =
      let (a, left, closed') = move_assign net_socket candidate d.closed in
      rw (adopt_parts address net_socket candidate d) (
        end_connect-Closes address a left (record d { closed = closed' }) (find_port k (get a) 0)
          (move_assign_lem 0 net_socket candidate d.closed).1
          (λ n.
            let m = move_assign_lem n net_socket candidate d.closed in
            omega (arith, h n, m.2, ap (is_number n) m.0)))

  Closes-if : (b : Bool) (x y : Connecting) → Closes x → Closes y → Closes (if b then x else y)
  Closes-if true x y hx hy = hx
  Closes-if false x y hx hy = hy

  try_candidates-Closes :
      (address : Bytes) (net_socket : AutoFd) (n : ℕ) (cs : List Socketaddr) (d : Descriptors)
      → Holds net_socket d
      → Closes (try_candidates k address net_socket n cs d)
  unfolding try_candidates
  try_candidates-Closes address net_socket n [] d h =
      λ m. omega (arith, h m, count-destruct m net_socket d.closed)
  try_candidates-Closes address net_socket n (c ∷ cs) d h =
      let x = k.socket n (family c) in
      let opened = log_open x d in
      Closes-if (valid (auto_fd x) && k.connect n c) (adopt k address net_socket (auto_fd x) opened)
        (try_candidates k address net_socket (n + 1) cs (log_close (auto_fd x) opened))
        (adopt-Closes address net_socket (auto_fd x) opened
          (λ m. omega (arith, h m, count-open m x d.opened)))
        (try_candidates-Closes address net_socket (n + 1) cs (log_close (auto_fd x) opened)
          (λ m. omega (arith, h m, count-open m x d.opened, count-destruct m (auto_fd x) d.closed)))

  Closes-checked :
      (address : Bytes) (net_socket : AutoFd) (d : Descriptors) (r : Checked (List Socketaddr))
      → Holds net_socket d
      → Closes (elim r [
        | throws e ↦ failed e (log_close net_socket d)
        | ok candidates ↦ try_candidates k address net_socket 1 candidates d
      ])
  Closes-checked address net_socket d (throws e) h =
      λ m. omega (arith, h m, count-destruct m net_socket d.closed)
  Closes-checked address net_socket d (ok cs) h = try_candidates-Closes address net_socket 1 cs d h

  resolved-Closes :
      (address service : Bytes) (f : Family) (net_socket : AutoFd) (d : Descriptors)
      (r : Option (List AddrInfo))
      → Holds net_socket d
      → Closes (resolved k address service f net_socket d r)
  unfolding resolved
  resolved-Closes address service f net_socket d none h =
      λ m. omega (arith, h m, count-destruct m net_socket d.closed)
  resolved-Closes address service f net_socket d (some servinfo) h =
      Closes-checked address net_socket d (add_candidates k servinfo []) h

  with_socket-Closes :
      (address service : Bytes) (f : Family) (x : ℤ) → Closes (with_socket k address service f x)
  unfolding with_socket
  with_socket-Closes address service f (pos n) =
      resolved-Closes address service f (auto_fd (pos n)) (record { opened = n ∷ []; closed = [] })
        (k.getaddrinfo address service f) (λ m. omega arith)
  with_socket-Closes address service f (negsuc n) = λ m. refl

  -- However the constructor ends, with a client or with an exception, and whatever the kernel and
  -- the resolver answer, each descriptor it opened has been closed as often as it was opened, but
  -- for the descriptor of the client it returns, which is left open.
  pub connect_client-Closes :
      (address service : Bytes) (f : Family) → Closes (connect_client k address service f)
  unfolding connect_client
  connect_client-Closes address service f =
      Closes-if (not (same_family f af_inet || same_family f af_inet6))
        (failed (netio_exception (codes "Invalid IP address family."))
          (record { opened = []; closed = [] }))
        (with_socket k address service f (k.socket 0 f)) (λ m. refl)
        (with_socket-Closes address service f (k.socket 0 f))

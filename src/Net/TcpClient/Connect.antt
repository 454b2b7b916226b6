-- ===== src/Net/TcpClient/Connect.antt =====
-- The constructors of tcp_client.cpp that connect. The kernel and the resolver are a record of
-- answers, indexed by the number of the `socket` call; the descriptors opened and closed are
-- logged. `fcntl`, whose result is not read, is left out.
pub mod Candidates
pub mod Order
pub mod Port
use read_mail_really_fast.Prelude.{
  ℕ, zero, suc, ◌+◌, Bool, true, false, not, ◌&&◌, ◌||◌, List, [], ◌∷◌, ◌++◌, Option, none, some,
  Bytes, codes, if◌then◌else◌,
}
use read_mail_really_fast.Prelude.Int.{ℤ, pos, negsuc}
use read_mail_really_fast.Net.AsyncFd.{AutoFd, auto_fd, get, valid, move_assign, destruct}
use read_mail_really_fast.Net.Exception.{Exception, netio_exception, Checked, ok, throws}
use read_mail_really_fast.Net.Ioqueue.{new_queue}
use read_mail_really_fast.Net.SocketAddress.{
  Family, af_unspec, af_inet, af_inet6, same_family, Structure, sockaddr_in, sockaddr_in6, Sockaddr,
  Socketaddr, family, convert, from_pointer, assign_sockaddr,
}
use read_mail_really_fast.Net.TcpClient.{TcpClient, read_bit}

pub record AddrInfo : Type 0 where
  pub ai_family : Family
  pub ai_addr : Sockaddr

-- The answers. `getsockname` gives its result and what it leaves in the local address.
pub record Kernel : Type 0 where
  pub size_of : Structure → ℕ
  pub ntohs : ℕ → ℕ
  pub getaddrinfo : Bytes → Bytes → Family → Option (List AddrInfo)
  pub gai_error : Bytes → Bytes → Family → Bytes
  pub socket : ℕ → Family → ℤ
  pub connect : ℕ → Socketaddr → Bool
  pub getsockname : ℤ → Bool × Socketaddr

-- The descriptors of the process: opened and closed so far, newest first.
pub record Descriptors : Type 0 where
  pub opened : List ℕ
  pub closed : List ℕ

pub data Connecting : Type 0 where
  connected : TcpClient → Descriptors → Connecting
  failed : Exception → Descriptors → Connecting

abbrev pub opened_number : ℤ → List ℕ → List ℕ
opened_number (pos n) ns = n ∷ ns
opened_number (negsuc n) ns = ns

-- `auto_fd{socket(...)}`
abbrev pub log_open : ℤ → Descriptors → Descriptors
log_open n d = record d { opened = opened_number n d.opened }

-- A destructor at the end of a scope, or on the way of an exception.
abbrev pub log_close : AutoFd → Descriptors → Descriptors
log_close a d = record d { closed = destruct a d.closed }

module _ (k : Kernel) where
  -- The loop over the resolver's answers: IPv4 to the back, IPv6 to the front.
  unfoldable pub add_candidates : List AddrInfo → List Socketaddr → Checked (List Socketaddr)
  add_candidates [] candidates = ok candidates
  add_candidates (p ∷ ps) candidates =
      if same_family p.ai_family af_inet
      then elim (from_pointer k.size_of sockaddr_in p.ai_addr) [
        | ok sa ↦ add_candidates ps (candidates ++ (sa ∷ []))
        | throws e ↦ throws e
      ]
      else if same_family p.ai_family af_inet6
      then elim (from_pointer k.size_of sockaddr_in6 p.ai_addr) [
        | ok sa ↦ add_candidates ps (sa ∷ candidates)
        | throws e ↦ throws e
      ]
      else add_candidates ps candidates

  port_of : Structure → Socketaddr → Checked ℕ
  unfolding convert
  port_of t sa = elim (convert t sa) [ ok a ↦ ok (k.ntohs a.port_field) | throws e ↦ throws e ]

  local_port : Socketaddr → Checked ℕ
  unfolding port_of family
  local_port sa =
      if same_family (family sa) af_inet
      then port_of sockaddr_in sa
      else if same_family (family sa) af_inet6
      then port_of sockaddr_in6 sa
      else throws (netio_exception (codes "Invalid/unexpected local socket address type"))

  -- The port after `connect`: looked up if the result of `getsockname` is not 0.
  unfoldable pub find_port : ℤ → ℕ → Checked ℕ
  unfolding local_port assign_sockaddr
  find_port fd port =
      let (nonzero, sa_local) = k.getsockname fd in
      if nonzero
      then elim (assign_sockaddr k.size_of sa_local.addr sa_local) [
        | ok sa ↦ local_port sa
        | throws e ↦ throws e
      ]
      else ok port

  -- The end of the constructor, with the watcher started.
  abbrev pub started : Bytes → AutoFd → ℕ → TcpClient
  started address socket_fd port = record {
    destructor_cb = false;
    peer_address = address;
    port = port;
    net_socket = socket_fd;
    io = record { fd = get socket_fd; events = read_bit; active = true };
    write_queue = new_queue;
    in_data_cb = false;
  }

  -- The constructor returns, or the exception destroys the candidate, by now empty, and then
  -- `net_socket`.
  end_connect : Bytes → AutoFd → AutoFd → Descriptors → Checked ℕ → Connecting
  unfolding get new_queue
  end_connect address adopted left d (ok port) =
      connected (started address adopted port) (log_close left d)
  end_connect address adopted left d (throws e) = failed e (log_close adopted (log_close left d))

  -- What follows a successful `connect`: the candidate's descriptor moves into `net_socket`.
  adopt : Bytes → AutoFd → AutoFd → Descriptors → Connecting
  unfolding find_port move_assign get end_connect
  adopt address net_socket candidate d =
      let (adopted, left, closed') = move_assign net_socket candidate d.closed in
      end_connect address adopted left (record d { closed = closed' }) (find_port (get adopted) 0)

  -- The `do` loop, at the call of `socket` with number `n`. An exception destroys `net_socket`.
  unfoldable pub try_candidates : Bytes → AutoFd → ℕ → List Socketaddr → Descriptors → Connecting
  unfolding adopt valid auto_fd family
  try_candidates address net_socket n [] d =
      failed (netio_exception (codes "Unable to find suitable connection candidate."))
        (log_close net_socket d)
  try_candidates address net_socket n (c ∷ cs) d =
      let candidate = auto_fd (k.socket n (family c)) in
      let opened = log_open candidate.fd d in
      let again = try_candidates address net_socket (n + 1) cs (log_close candidate opened) in
      if valid candidate && k.connect n c then adopt address net_socket candidate opened else again

  resolve_error : Bytes → Bytes → Family → Exception
  resolve_error address service f = netio_exception (
      codes "Failed to resolve address '"
      ++ (address
          ++ (codes "' with service '"
              ++ (service ++ (codes "': " ++ k.gai_error address service f)))))

  -- From the answer of the resolver to the end of the constructor.
  resolved : Bytes → Bytes → Family → AutoFd → Descriptors → Option (List AddrInfo) → Connecting
  unfolding add_candidates try_candidates resolve_error
  resolved address service f net_socket d none =
      failed (resolve_error address service f) (log_close net_socket d)
  resolved address service f net_socket d (some servinfo) = elim (add_candidates servinfo []) [
    | throws e ↦ failed e (log_close net_socket d)
    | ok candidates ↦ try_candidates address net_socket 1 candidates d
  ]

  -- From the first `socket`, whose result is `x`.
  with_socket : Bytes → Bytes → Family → ℤ → Connecting
  unfolding resolved valid auto_fd
  with_socket address service f x =
      let d = log_open x (record { opened = []; closed = [] }) in
      if not (valid (auto_fd x))
      then failed (netio_exception (codes "Failed to request socket fd from kernel.")) d
      else resolved address service f (auto_fd x) d (k.getaddrinfo address service f)

  -- `tcp_client(peer_address, service_or_port, ip_addr_family)`
  unfoldable pub connect_client : Bytes → Bytes → Family → Connecting
  unfolding with_socket
  connect_client address service f =
      if not (same_family f af_inet || same_family f af_inet6)
      then failed (netio_exception (codes "Invalid IP address family."))
          (record { opened = []; closed = [] })
      else with_socket address service f (k.socket 0 f)

  -- `tcp_client(peer_address, service_or_port)`
  unfoldable pub connect_any : Bytes → Bytes → Connecting
  unfolding connect_client
  connect_any address service = connect_client address service af_unspec

  -- `tcp_client(peer_address, port)`; `std::to_string` is an argument.
  unfoldable pub connect_port : (ℕ → Bytes) → Bytes → ℕ → Connecting
  unfolding connect_any
  connect_port to_string address port = connect_any address (to_string port)

-- ===== src/Net/TcpServer.antt =====
-- src/net/tcp_server_socket.cpp: opening a listening socket and accepting clients. The answers of
-- `socket`, `bind`, `listen` and `accept`, `inet_ntoa`, the byte order functions and the
-- registered listener are arguments; `fcntl`, whose result is not read, is left out.
pub mod Opening
pub mod Counting
mod Tests
use read_mail_really_fast.Prelude.{
  ℕ, ◌+◌, ◌-◌, ◌%◌, ◌^◌, Bool, true, false, not, List, [], ◌∷◌, ◌++◌, Option, none, some, Bytes,
  codes, take, replicate, if◌then◌else◌,
}
use read_mail_really_fast.Prelude.Int.{ℤ, signed_32}
use read_mail_really_fast.Net.AsyncFd.{AutoFd, auto_fd, get, valid, is_open}
use read_mail_really_fast.Net.Exception.{Exception, netio_exception, Checked, ok, throws}
use read_mail_really_fast.Net.SocketAddress.{
  af_inet6, Family, Structure, sockaddr_in6, Sockaddr, Socketaddr, family, ptr, size,
  from_reference,
}
use read_mail_really_fast.Net.TcpClient.{
  ExitStatus, TcpClient, World, accepted_client, destruct_client, Bits,
}
use read_mail_really_fast.Net.TcpClient.Connect.{Descriptors, log_open, log_close}
use read_mail_really_fast.Net.AsyncServer.{
  AsyncServer, async_server_socket, set_accept_handler, Served, returned, raised, cb_ev,
}

-- The answers of the calls that open the socket; `bind` and `listen` tell whether they fail.
pub record Opener : Type 0 where
  pub socket : Family → ℤ
  pub bind : ℤ → Sockaddr → ℕ → Bool
  pub listen : ℤ → ℕ → Bool

-- `announced` holds what the listener was given, newest first: the client, and the number of
-- clients at that moment.
pub record TcpServer : Type 0 where
  pub ss : AsyncServer
  pub number_of_connected_clients : ℕ
  pub announced : List (TcpClient × ℕ)
  pub world : World

pub data Serving : Type 0 where
  serving : TcpServer → Descriptors → Serving
  refused : Exception → Descriptors → Serving

abbrev silent : World
silent = record { sent = []; delivered = []; exits = []; closed = [] }

-- The last part of the constructor: the descriptor moves into the new listening socket.
abbrev pub open_server : AutoFd → Descriptors → Serving
unfolding async_server_socket set_accept_handler
open_server socket_fd d =
    let (ss, left) = async_server_socket socket_fd in
    serving
      (record {
        ss = set_accept_handler ss;
        number_of_connected_clients = 0;
        announced = [];
        world = silent;
      })
      (log_close left d)

-- From the first `socket`, whose result is `x`.
with_listener : Opener → Socketaddr → ℤ → Serving
unfolding auto_fd valid get ptr size
with_listener o socket_identifier x =
    let socket_fd = auto_fd x in
    let d = log_open x (record { opened = []; closed = [] }) in
    if not (valid socket_fd)
    then refused (netio_exception (codes "Failed to create socket fd.")) d
    else if o.bind (get socket_fd) (ptr socket_identifier) (size socket_identifier)
    then refused (netio_exception (codes "Failed to bind to all addresses (FIXME)"))
        (log_close socket_fd d)
    else if o.listen (get socket_fd) 5
    then refused (netio_exception (codes "Failed to enable listening mode for raw socket"))
        (log_close socket_fd d)
    else open_server socket_fd d

-- `tcp_server_socket(socket_identifier, client_listener)`
unfoldable pub tcp_server_socket : Opener → Socketaddr → Serving
unfolding with_listener family
tcp_server_socket o socket_identifier =
    with_listener o socket_identifier (o.socket (family socket_identifier))

-- `sin6_flowinfo` and `sin6_scope_id` are not set: what the stack held there is an argument.
unfoldable pub get_ipv6_socketaddr :
    (Structure → ℕ) → (ℕ → ℕ) → Bytes → Bytes → ℕ → Checked Socketaddr
unfolding from_reference
get_ipv6_socketaddr size_of htons flow scope port = from_reference size_of sockaddr_in6 (record {
  family_field = af_inet6;
  port_field = htons port;
  body = flow ++ (replicate 16 0 ++ scope);
})

-- `tcp_server_socket(port, client_listener)`
unfoldable pub server_on_port : Opener → (Structure → ℕ) → (ℕ → ℕ) → Bytes → Bytes → ℕ → Serving
unfolding get_ipv6_socketaddr tcp_server_socket
server_on_port o size_of htons flow scope port =
    elim (get_ipv6_socketaddr size_of htons flow scope port) [
      | throws e ↦ refused e (record { opened = []; closed = [] })
      | ok sa ↦ tcp_server_socket o sa
    ]

unfoldable pub get_number_of_connected_clients : TcpServer → ℤ
get_number_of_connected_clients s = signed_32 s.number_of_connected_clients

unfoldable pub client_destructed_cb : ExitStatus → TcpServer → TcpServer
client_destructed_cb exit_status s = record s {
  number_of_connected_clients = (s.number_of_connected_clients + (2 ^ 32 - 1)) % 2 ^ 32;
}

-- What surrounds an accepted connection: how the address is printed and the port read, and
-- whether the listener throws on the client it is given.
pub record Surroundings : Type 0 where
  pub inet_ntoa : Bytes → Bytes
  pub ntohs : ℕ → ℕ
  pub client_listener : TcpClient → Option Exception

-- The end of the listener's call, which destroys the temporary client and so counts it out.
abbrev pub end_announcement : Option Exception → TcpClient → TcpServer → Served TcpServer
unfolding destruct_client client_destructed_cb
end_announcement result c s =
    let destroyed =
      client_destructed_cb ExitStatus.no_error (record s { world = destruct_client c s.world }) in
    elim result [ none ↦ returned destroyed | some e ↦ raised e destroyed ]

-- The handler of an accept event. `accept` gives a number and the peer; only the first 12 bytes
-- behind its port have room in the `sockaddr_in` that takes it, and 4 of them are the address.
unfoldable pub await_raw_socket_incomming :
    Surroundings → ℤ × Sockaddr → AsyncServer → TcpServer → Served TcpServer
unfolding accepted_client auto_fd
await_raw_socket_incomming r (client_fd_raw, peer) ass s =
    if not (is_open client_fd_raw)
    then raised (netio_exception (codes "Unable to bind incoming client")) s
    else let sin_addr = take 4 (take 12 peer.body) in
      let n = (s.number_of_connected_clients + 1) % 2 ^ 32 in
      let c =
        accepted_client true (auto_fd client_fd_raw) (r.inet_ntoa sin_addr)
          (r.ntohs peer.port_field) in
      end_announcement (r.client_listener c) c
        (record s { number_of_connected_clients = n; announced = (c, n) ∷ s.announced })

-- An event of the server's watcher.
unfoldable pub on_event : Surroundings → Bits → ℤ × Sockaddr → TcpServer → Served TcpServer
unfolding cb_ev await_raw_socket_incomming
on_event r events answer s = cb_ev (await_raw_socket_incomming r answer) s.ss events s

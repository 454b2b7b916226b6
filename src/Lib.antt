-- ===== src/Lib.antt =====
-- ReadMailReallyFast: its network layer, its hex dump, its user interface and the start of its
-- daemon.
--
-- The parts. A `tcp_client` owns a descriptor (`auto_fd`), a libev watcher and a queue of what is
-- still to be sent (`ioqueue` of `iorecord`); its event handler reads, calls the registered
-- callback, writes, and asks for writability while something is queued. A connecting constructor
-- finds the peer by `getaddrinfo`, holds the answers as `socketaddr` and tries them in turn. A
-- `connection_line_buffer` registers at a client and cuts what comes in into lines. A
-- `tcp_server_socket` opens a listening socket, hands it to an `async_server_socket`, and on an
-- accept event makes a client and gives it to a listener. net/address.hpp parses textual
-- addresses when the program is compiled. utils/hexdump.cpp prints data. app/mumta.cpp checks the
-- versions of its libraries and runs the event loop. A `view` of the user interface hangs in a tree
-- under its parent; a `display` opens and ends the ncurses screen and locks it for each use.
--
-- The files. Each module opens with the file it is about; its functions have the source's names,
-- a constructor has the name of its class or says what it makes.
--   Net/Exception        src/net/netio_exception.cpp
--   Net/AsyncFd          src/net/async_fd.hpp
--   Net/Ioqueue          src/net/ioqueue.cpp
--   Net/SocketAddress    src/net/socketaddress.hpp
--   Net/TcpClient        src/net/tcp_client.cpp, connection_client.cpp; Connect: its constructors
--   Net/LineBuffer       src/net/connection_line_buffer.cpp
--   Net/Address          src/net/address.hpp: Chars, Component, Inet4, Inet6, Literals
--                        (descriptions to compare with, not code: Inet4/Split, Forms, Canonical
--                        and Inet6/Reader, which read a text from its start by its parts)
--   Net/AsyncServer      src/net/async_server.cpp
--   Net/TcpServer        src/net/tcp_server_socket.cpp
--   Utils/Hexdump        src/utils/hexdump.cpp
--   Ui/Event, Ui/View    src/ui/event.cpp, view.cpp
--   Ui/Display           src/ui/display.cpp, src/app/rmrf.cpp, nc-test.cpp
--   Doubles/Loopback     src/test/loopback_connection_client.cpp
--   App/Startup          src/app/mumta.cpp, src/lib/ev, src/lib/nl, src/lib/openssl
--   App/Evloop           src/mumta/evloop.cpp
--   Service              src/service/daemonctl.hpp, daemonctl_systemd.cpp, daemonctl_rcd.cpp
-- A class is a record; an operation takes the object and gives it back. An exception is a value,
-- and so is a use of an object after its deletion, or a sum of offsets that overflows.
-- The calls of the system are arguments (answers of `recv`, `write`, `accept`) or fields of a
-- record of answers (`Kernel`, `Opener`), and nothing is assumed of them but what a theorem
-- says. Descriptors that are opened and closed are logged in lists, newest first.
--
-- Bounds and fuel. Bytes and numbers are natural numbers; `size_t`, `int` and 32-bit arithmetic
-- wrap where the source's does. The loop of the line buffer runs on the fuel it is given: a search
-- that moves on answers at most once for each byte, so that the length of the text and one more
-- is enough. The outer loop of the hex dump gives itself the end offset and two more, since every
-- round moves on by a byte or more. All other loops recur on the text or on a count of what is
-- left.
--
-- Not modelled: the ncurses bindings (src/lib/nccpp), a copy of another library; `fcntl` but for
-- the flags of standard input; memory other than the objects named.
pub mod Prelude
pub mod Net
pub mod Utils
pub mod App
pub mod Doubles
pub mod Ui
pub mod Service

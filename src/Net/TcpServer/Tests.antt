-- ===== src/Net/TcpServer/Tests.antt =====
-- The theorems on the server at concrete events.
use read_mail_really_fast.Prelude.{
  ℕ, ◌≡◌, refl, true, false, List, [], ◌∷◌, ◌++◌, none, some, arith, Bytes, replicate, ◌==◌,
  if◌then◌else◌,
}
use read_mail_really_fast.Prelude.Int.{pos, negsuc}
use read_mail_really_fast.Net.Exception.{bad_function_call}
use read_mail_really_fast.Net.SocketAddress.{
  Structure, sockaddr_in, sockaddr_in6, sockaddr_un, sockaddr_nl, af_inet, af_inet6, Sockaddr,
  Socketaddr,
}
use read_mail_really_fast.Net.TcpClient.{read_bit}
use read_mail_really_fast.Net.TcpServer.{
  Opener, Surroundings, TcpServer, tcp_server_socket, server_on_port,
}
use read_mail_really_fast.Net.TcpServer.Counting.{
  Event, accepted, run, run_closes_clients, announced_by, run_announces,
}
use read_mail_really_fast.Net.TcpServer.Opening.{ServingCloses, constructors-Close}

abbrev size_of : Structure → ℕ
size_of sockaddr_in = 16
size_of sockaddr_in6 = 28
size_of sockaddr_un = 110
size_of sockaddr_nl = 12

-- Calls that all succeed but for `listen`.
abbrev opener : Opener
opener = record { socket = λ f. pos 3; bind = λ fd a n. false; listen = λ fd n. true }

abbrev local : Sockaddr
local = record { family_field = af_inet; port_field = 25; body = 127 ∷ 0 ∷ 0 ∷ 1 ∷ replicate 8 0 }

abbrev flow : Bytes
flow = replicate 4 0

abbrev any_address : Socketaddr
any_address = record {
  addr = record {
    family_field = af_inet6;
    port_field = 25;
    body = flow ++ (replicate 16 0 ++ flow);
  };
  len = 28;
}

constructors-Close_example :
    ServingCloses (tcp_server_socket opener (record { addr = local; len = 16 }))
    × (server_on_port opener size_of (λ n. n) flow flow 25 ≡ tcp_server_socket opener any_address)
constructors-Close_example =
    constructors-Close opener size_of (λ n. n) flow flow 25 (record { addr = local; len = 16 })

-- A listener that throws on the clients of port 26.
abbrev around : Surroundings
around = record {
  inet_ntoa = λ b. b;
  ntohs = λ n. n;
  client_listener = λ c. if c.port == 26 then some bad_function_call else none;
}

abbrev listening : TcpServer
listening = record {
  ss = record {
    socket = record { fd = pos 3 };
    on_accept = true;
    io = record { fd = pos 3; events = read_bit; active = true };
  };
  number_of_connected_clients = 0;
  announced = [];
  world = record { sent = []; delivered = []; exits = []; closed = [] };
}

-- Two clients, the second one's listener throws, and an `accept` that fails.
abbrev events : List Event
events =
    record { bits = read_bit; answer = (pos 5, local) }
    ∷ record { bits = read_bit; answer = (pos 6, record local { port_field = 26 }) }
    ∷ record { bits = read_bit; answer = (negsuc 0, local) }
    ∷ []

run_closes_clients_example :
    ((run around events listening).world.closed ≡ accepted events [])
    × ((run around events listening).number_of_connected_clients ≡ 0)
run_closes_clients_example = run_closes_clients around events listening (refl, omega arith)

-- Two peers of the IPv6 server, whose addresses differ, are given the same address.
abbrev peers : List Event
peers =
    record {
      bits = read_bit;
      answer = (pos 5, record any_address.addr { body = flow ++ replicate 20 1 });
    }
    ∷ record {
      bits = read_bit;
      answer = (pos 5, record any_address.addr { body = flow ++ replicate 20 2 });
    }
    ∷ []

run_announces_example : (run around peers listening).announced ≡ announced_by around 0 peers []
run_announces_example = run_announces around peers listening (refl, omega arith)

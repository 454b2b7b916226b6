-- ===== src/Net/TcpClient/Tests.antt =====
-- The theorems on the client at a session with two buffers queued.
use read_mail_really_fast.Prelude.{
  ℕ, ◌+◌, ◌≡◌, refl, true, false, List, [], ◌∷◌, ◌++◌, some, arith, Bytes, codes, replicate, ◌==◌,
  if◌then◌else◌,
}
use read_mail_really_fast.Prelude.Int.{pos}
use read_mail_really_fast.Net.Exception.{netio_exception, ok}
use read_mail_really_fast.Net.Ioqueue.{is_empty, ptr, push_back_move, from_buffer}
use read_mail_really_fast.Net.Ioqueue.Stream.{IsQueue}
use read_mail_really_fast.Net.SocketAddress.{
  Structure, sockaddr_in, sockaddr_in6, sockaddr_un, sockaddr_nl, af_inet, af_inet6, Sockaddr,
}
use read_mail_really_fast.Net.TcpClient.{
  Bits, Session, Outcome, done, threw, deleted, used_after_free, received, written, read_write_bits,
  cb_ev, handle_read, push_write_queue, write_all, write_buffer, update_interest, write_data,
}
use read_mail_really_fast.Net.TcpClient.Stream.{output}
use read_mail_really_fast.Net.TcpClient.Events.{Settled, answers, cb_ev-Settled}
use read_mail_really_fast.Net.TcpClient.History.{
  Call, writes, event, step, run, all_asked, IsSession, run-output,
}
use read_mail_really_fast.Net.TcpClient.EndOfStream.{is_used_after_free}
use read_mail_really_fast.Net.TcpClient.Drain.{all_taking, run_drains}
use read_mail_really_fast.Net.TcpClient.Connect.{
  AddrInfo, Kernel, connect_client, connect_any, connect_port, failed, add_candidates,
}
use read_mail_really_fast.Net.TcpClient.Connect.Candidates.{
  Closes, connect_any_fails, connect_client-Closes,
}
use read_mail_really_fast.Net.TcpClient.Connect.Order.{addresses, prepend, add_candidates_order}
use read_mail_really_fast.Net.TcpClient.Connect.Port.{HasNoPort, connect_client-HasNoPort}

abbrev waiting : Session
waiting = record {
  client = record {
    destructor_cb = true;
    peer_address = codes "localhost";
    port = 25;
    net_socket = record { fd = pos 5 };
    io = record { fd = pos 5; events = read_write_bits; active = true };
    write_queue = record {
      queue =
          record { offset = 1; bytes = codes "HELO" }
          ∷ record { offset = 0; bytes = codes "!" }
          ∷ [];
    };
    in_data_cb = true;
  };
  world = record { sent = codes "H"; delivered = []; exits = []; closed = [] };
}

-- A callback that sends all it is given back.
abbrev echo : Bytes → List Bytes
echo text = text ∷ []

waiting-IsQueue : IsQueue waiting.client.write_queue
unfolding ptr
waiting-IsQueue = (
  record { within = omega arith; fits = omega arith },
  omega arith,
  (record { within = omega arith; fits = omega arith }, omega arith, tt),
)

waiting-IsSession : IsSession echo waiting
waiting-IsSession = (waiting-IsQueue, λ _. refl)

abbrev both : Bits
both = record { error = false; reads = true; writes = true }

-- The session behind a call that returns.
abbrev left_by : Outcome → Session
left_by (done t) = t
left_by (threw e t) = t
left_by (deleted w) = waiting
left_by (used_after_free w) = waiting

abbrev after_event : Session
unfolding cb_ev
after_event = left_by (cb_ev echo waiting both (received (codes "hi")) (written 2))

cb_ev-Settled_example :
    Settled (output waiting ++ answers echo true (received (codes "hi"))) after_event
unfolding after_event cb_ev handle_read push_write_queue is_empty write_all write_data
    push_back_move from_buffer write_buffer update_interest
cb_ev-Settled_example =
    cb_ev-Settled echo waiting both (received (codes "hi")) (written 2) (omega arith, tt)
      waiting-IsQueue refl refl

abbrev history : List Call
history = writes (codes "DATA") ∷ event both (received (codes "hi")) (written 2) ∷ []

abbrev after_history : Session
unfolding run
after_history = left_by (run echo waiting history)

run-output_example :
    IsSession echo after_history × (output after_history ≡ output waiting ++ all_asked echo history)
unfolding after_history run step cb_ev handle_read push_write_queue is_empty write_all write_data
    push_back_move from_buffer write_buffer update_interest
run-output_example =
    run-output echo waiting history (omega arith, ((omega arith, tt), tt)) waiting-IsSession refl

run_drains_example :
    (t : Session) × (run echo waiting (all_taking echo (0 ∷ 0 ∷ 9 ∷ 0 ∷ [])) ≡ done t)
    × (is_empty t.client.write_queue ≡ true)
    × (t.world.sent ≡ output waiting)
unfolding ptr
run_drains_example = run_drains echo (0 ∷ 0 ∷ 9 ∷ 0 ∷ []) waiting waiting-IsQueue (omega arith)

abbrev size_of : Structure → ℕ
size_of sockaddr_in = 16
size_of sockaddr_in6 = 28
size_of sockaddr_un = 110
size_of sockaddr_nl = 12

abbrev local : Sockaddr
local = record { family_field = af_inet; port_field = 25; body = 127 ∷ 0 ∷ 0 ∷ 1 ∷ replicate 8 0 }

abbrev local6 : Sockaddr
local6 = record { family_field = af_inet6; port_field = 25; body = replicate 24 0 }

abbrev answers_of_localhost : List AddrInfo
answers_of_localhost =
    record { ai_family = af_inet; ai_addr = local }
    ∷ record { ai_family = af_inet6; ai_addr = local6 }
    ∷ []

-- A kernel that numbers the sockets from 3 on and connects the second candidate.
abbrev kernel : Kernel
kernel = record {
  size_of = size_of;
  ntohs = λ n. n;
  getaddrinfo = λ address service f. some answers_of_localhost;
  gai_error = λ address service f. [];
  socket = λ n f. pos (n + 3);
  connect = λ n a. if n == 2 then true else false;
  getsockname = λ fd. (false, record { addr = local; len = 16 });
}

connect_any_fails_example :
    let refused =
      failed
        (netio_exception (codes "Invalid IP address family."))
        (record { opened = []; closed = [] }) in
    (connect_any kernel (codes "localhost") (codes "25") ≡ refused)
    × (connect_port kernel (λ n. codes "25") (codes "localhost") 25 ≡ refused)
connect_any_fails_example =
    connect_any_fails kernel (λ n. codes "25") (codes "localhost") (codes "25") 25

connect_client-Closes_example :
    Closes kernel (connect_client kernel (codes "localhost") (codes "25") af_inet)
connect_client-Closes_example =
    connect_client-Closes kernel (codes "localhost") (codes "25") af_inet

add_candidates_order_example :
    add_candidates kernel answers_of_localhost []
    ≡ ok (
        prepend (addresses kernel sockaddr_in6 answers_of_localhost) []
        ++ addresses kernel sockaddr_in answers_of_localhost)
add_candidates_order_example =
    add_candidates_order kernel answers_of_localhost [] (refl, (refl, tt))

connect_client-HasNoPort_example :
    HasNoPort (connect_client kernel (codes "localhost") (codes "25") af_inet)
connect_client-HasNoPort_example =
    connect_client-HasNoPort kernel (λ fd. refl) (codes "localhost") (codes "25") af_inet

-- The peer closes while bytes wait: the handler goes on with a client that is gone.
abbrev closed_by_peer : List Call
closed_by_peer = writes (codes "DATA") ∷ event read_write_bits (received []) (written 2) ∷ []

closed_by_peer_is_used : is_used_after_free (run echo waiting closed_by_peer) ≡ true
unfolding run step cb_ev handle_read
closed_by_peer_is_used = refl

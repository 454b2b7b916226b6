-- ===== src/Net/TcpClient.antt =====
-- src/net/tcp_client.cpp, tcp_client.hpp and connection_client.cpp: the open connection and its
-- event handler. The answers of `recv(2)` and `write(2)` are arguments, and so is what the
-- registered callback writes back through `write_data` for the data it is given. The kernel's
-- side of the socket is the field `sent`, the bytes that `write` took, in order.
pub mod Stream
pub mod Events
pub mod History
pub mod EndOfStream
pub mod Drain
pub mod Delivery
pub mod Connect
mod Tests
use read_mail_really_fast.Prelude.{
  ℕ, ◌+◌, Bool, true, false, ◌||◌, List, [], ◌∷◌, ◌++◌, Bytes, codes, length, take, if◌then◌else◌,
}
use read_mail_really_fast.Prelude.Int.{ℤ}
use read_mail_really_fast.Net.AsyncFd.{AutoFd, get, destruct}
use read_mail_really_fast.Net.Exception.{Exception, netio_exception, bad_function_call}
use read_mail_really_fast.Net.Ioqueue.{
  Iorecord, from_buffer, ptr, size, advance, Ioqueue, new_queue, is_empty, push_back_move,
  push_front, pop_front,
}

-- A set of libev event bits.
pub record Bits : Type 0 where
  pub error : Bool
  pub reads : Bool
  pub writes : Bool

abbrev pub read_bit : Bits
read_bit = record { error = false; reads = true; writes = false }

abbrev pub read_write_bits : Bits
read_write_bits = record { error = false; reads = true; writes = true }

-- The watcher `io`: its descriptor, the events it waits for, and whether it is started.
pub record Watcher : Type 0 where
  pub fd : ℤ
  pub events : Bits
  pub active : Bool

-- `io.set(events)` keeps the descriptor, and a started watcher started.
abbrev pub set_events : Watcher → Bits → Watcher
set_events io e = record io { events = e }

pub data ExitStatus : Type 0 where
  no_error timeout : ExitStatus

pub record TcpClient : Type 0 where
  pub destructor_cb : Bool
  pub peer_address : Bytes
  pub port : ℕ
  pub net_socket : AutoFd
  pub io : Watcher
  pub write_queue : Ioqueue
  pub in_data_cb : Bool

-- What the rest of the program and the kernel see: the bytes sent, the data handed to the
-- callback, the calls of the destructor's callback and the descriptors closed.
pub record World : Type 0 where
  pub sent : Bytes
  pub delivered : List Bytes
  pub exits : List ExitStatus
  pub closed : List ℕ

pub record Session : Type 0 where
  pub client : TcpClient
  pub world : World

-- A call returns, throws, has deleted its object, or has gone on to use an object that it deleted.
pub data Outcome : Type 0 where
  done : Session → Outcome
  threw : Exception → Session → Outcome
  deleted used_after_free : World → Outcome

-- What comes next looks at a member of the object, which may be gone by then.
infixl 5 ◌>>=◌
abbrev pub ◌>>=◌ : Outcome → (Session → Outcome) → Outcome
done s >>= f = f s
threw e s >>= f = threw e s
deleted w >>= f = used_after_free w
used_after_free w >>= f = used_after_free w

-- `recv`: an error, or the bytes read, none of them at the end of the stream.
pub data RecvResult : Type 0 where
  recv_failed : RecvResult
  received : Bytes → RecvResult

-- `write`: the number of bytes taken, `EAGAIN`, or another error.
pub data WriteResult : Type 0 where
  written : ℕ → WriteResult
  would_block write_failed : WriteResult

-- `connection_client::set_incomming_data_callback`, with a callback that can be called.
unfoldable pub set_incomming_data_callback : TcpClient → TcpClient
set_incomming_data_callback c = record c { in_data_cb = true }

-- `tcp_client(destructor_cb, socket_fd, peer_address, port)`, for an accepted connection.
unfoldable pub accepted_client : Bool → AutoFd → Bytes → ℕ → TcpClient
unfolding get new_queue
accepted_client cb socket_fd address port = record {
  destructor_cb = cb;
  peer_address = address;
  port = port;
  net_socket = socket_fd;
  io = record { fd = get socket_fd; events = read_bit; active = true };
  write_queue = new_queue;
  in_data_cb = false;
}

-- `~tcp_client`, then the members: the watcher is stopped and the descriptor closed.
unfoldable pub destruct_client : TcpClient → World → World
destruct_client c w = record w {
  exits = if c.destructor_cb then ExitStatus.no_error ∷ w.exits else w.exits;
  closed = destruct c.net_socket w.closed;
}

unfoldable pub write_data : TcpClient → Bytes → TcpClient
write_data c text = record c {
  write_queue = (push_back_move c.write_queue (from_buffer text (length text))).0;
  io = set_events c.io read_write_bits;
}

unfoldable pub get_peer_address : TcpClient → Bytes
get_peer_address c = c.peer_address

unfoldable pub get_port : TcpClient → ℕ
get_port c = c.port

-- The callback writes its answers back, one `write_data` for each.
unfoldable pub write_all : TcpClient → List Bytes → TcpClient
write_all c [] = c
write_all c (t ∷ ts) = write_all (write_data c t) ts

abbrev pub put_back : Session → Ioqueue → Iorecord → Session
put_back s rest buffer = record s {
  client = record s.client { write_queue = push_front rest buffer };
}

-- The end of `push_write_queue`, on the answer of `write` to the popped buffer.
unfoldable pub write_buffer : Session → Iorecord × Ioqueue → WriteResult → Outcome
write_buffer s (buffer, rest) (written n) = done (
    put_back (record s { world = record s.world { sent = s.world.sent ++ take n (ptr buffer) } })
      rest (advance buffer n))
write_buffer s (buffer, rest) would_block = done (put_back s rest buffer)
write_buffer s (buffer, rest) write_failed =
    threw (netio_exception (codes "Failed to write latest buffer content."))
      (record s { client = record s.client { write_queue = rest } })

unfoldable pub push_write_queue : Session → WriteResult → Outcome
push_write_queue s answer =
    if is_empty s.client.write_queue
    then done (record s { client = record s.client { io = set_events s.client.io read_bit } })
    else write_buffer s (pop_front s.client.write_queue) answer

module _ (reply : Bytes → List Bytes) where
  -- `this->in_data_cb(data)`; an empty `std::function` throws.
  call_in_data_cb : Session → Bytes → Outcome
  call_in_data_cb s text =
      if s.client.in_data_cb
      then done (record {
        client = write_all s.client (reply text);
        world = record s.world { delivered = s.world.delivered ++ (text ∷ []) };
      })
      else threw bad_function_call s

  -- The READ branch, with `delete this` at the end of the stream.
  unfoldable pub handle_read : Session → RecvResult → Outcome
  unfolding call_in_data_cb
  handle_read s recv_failed =
      threw (netio_exception (codes "Failed to read from network socket.")) s
  handle_read s (received []) = deleted (destruct_client s.client s.world)
  handle_read s (received (b ∷ bs)) = call_in_data_cb s (b ∷ bs)

  -- The last step: wait for writability while something is queued.
  unfoldable pub update_interest : Session → Outcome
  update_interest s = done (record s {
    client = record s.client {
      io =
          set_events s.client.io
            (if is_empty s.client.write_queue then read_bit else read_write_bits);
    };
  })

  -- Behind the READ branch the handler reads `write_queue` on every path: in `push_write_queue`, and
  -- in any case for the last step.
  unfoldable pub cb_ev : Session → Bits → RecvResult → WriteResult → Outcome
  cb_ev s events read_answer write_answer = if events.error then done s else do
    t ← if events.reads then handle_read s read_answer else done s
    u ← if events.writes then push_write_queue t write_answer else done t
    update_interest u

-- ===== src/Net/AsyncServer.antt =====
-- src/net/async_server.cpp: the listening socket and its watcher. The accept handler is an
-- argument of the event handler, which acts on the state of whoever registered it.
use read_mail_really_fast.Prelude.{Bool, true, false, List, if◌then◌else◌, ℕ}
use read_mail_really_fast.Net.AsyncFd.{AutoFd, get, move_construct, destruct}
use read_mail_really_fast.Net.Exception.{Exception, bad_function_call}
use read_mail_really_fast.Net.TcpClient.{Bits, read_bit, Watcher}

pub record AsyncServer : Type 0 where
  pub socket : AutoFd
  pub on_accept : Bool
  pub io : Watcher

-- A call returns or throws, and leaves a state.
pub data Served {ℓ} (S : Type ℓ) : Type ℓ where
  returned : S → Served S
  raised : Exception → S → Served S

-- `async_server_socket(auto_fd &&)`: the new object and the argument it leaves behind.
unfoldable pub async_server_socket : AutoFd → AsyncServer × AutoFd
unfolding move_construct get
async_server_socket socket_fd =
    let (moved, left) = move_construct socket_fd in
    (
      record {
        socket = moved;
        on_accept = false;
        io = record { fd = get moved; events = read_bit; active = true };
      },
      left,
    )

-- `~async_server_socket`, then the members.
unfoldable pub destruct_async : AsyncServer → List ℕ → List ℕ
unfolding destruct
destruct_async ss closed = destruct ss.socket closed

-- A handler that can be called is registered.
unfoldable pub set_accept_handler : AsyncServer → AsyncServer
set_accept_handler ss = record ss { on_accept = true }

unfoldable pub get_accept_handler : AsyncServer → Bool
get_accept_handler ss = ss.on_accept

unfoldable pub cb_ev {ℓ} :
    {S : Type ℓ} (ah : AsyncServer → S → Served S) → AsyncServer → Bits → S → Served S
unfolding get_accept_handler
cb_ev ah ss events s =
    if events.error
    then returned s
    else if events.reads
    then if get_accept_handler ss then ah ss s else raised bad_function_call s
    else returned s

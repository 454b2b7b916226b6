-- ===== src/Doubles/Loopback.antt =====
-- src/test/loopback_connection_client.cpp: a client that keeps what it is told to send. The calls
-- of its two callbacks are logged in order; a callback is set or is `nullptr`.
pub mod Archive
mod Tests
use read_mail_really_fast.Prelude.{Bool, false, List, [], ◌∷◌, ◌++◌, Bytes, if◌then◌else◌}

pub record LoopbackClient : Type 0 where
  pub in_data_cb : Bool
  pub mut_send_data_cb : Bool
  pub send_data_archive : List Bytes

-- What the two callbacks were called with.
pub record Called : Type 0 where
  pub mut_calls : List Bytes
  pub in_calls : List Bytes

unfoldable pub loopback_connection_client : Bool → LoopbackClient
loopback_connection_client mut_cb = record {
  in_data_cb = false;
  mut_send_data_cb = mut_cb;
  send_data_archive = [];
}

unfoldable pub write_data : LoopbackClient → Called → Bytes → LoopbackClient × Called
write_data c w text = (
  record c { send_data_archive = c.send_data_archive ++ (text ∷ []) },
  (if c.mut_send_data_cb then record w { mut_calls = w.mut_calls ++ (text ∷ []) } else w),
)

unfoldable pub send_data_to_incomming_data_cb : LoopbackClient → Called → Bytes → Called
send_data_to_incomming_data_cb c w text =
    if c.in_data_cb then record w { in_calls = w.in_calls ++ (text ∷ []) } else w

unfoldable pub get_send_data : LoopbackClient → List Bytes
get_send_data c = c.send_data_archive

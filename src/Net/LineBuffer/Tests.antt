-- ===== src/Net/LineBuffer/Tests.antt =====
-- The theorems on the line buffer at concrete texts.
use read_mail_really_fast.Prelude.{
  ℕ, ◌+◌, ◌≤◌, ◌<◌, ◌≡◌, refl, ◌++◌, Option, none, some, arith, Bytes, codes, length, inr, false,
  List, [], ◌∷◌, ◌&&◌, ◌==◌, if◌then◌else◌, ltb,
}
use read_mail_really_fast.Prelude.Int.{pos}
use read_mail_really_fast.Net.AsyncFd.{auto_fd}
use read_mail_really_fast.Net.Ioqueue.{is_empty}
use read_mail_really_fast.Net.TcpClient.{
  Session, Outcome, done, threw, deleted, used_after_free, read_bit, received, would_block, cb_ev,
  handle_read, update_interest, set_incomming_data_callback, accepted_client, write_all,
}
use read_mail_really_fast.Net.TcpClient.History.{Call, event, step, run}
use read_mail_really_fast.Net.TcpClient.Delivery.{all_arrived}
use read_mail_really_fast.Net.LineBuffer.Feed.{feed, concat}
use read_mail_really_fast.Net.LineBuffer.Received.{received_text-run}
use read_mail_really_fast.Net.LineBuffer.{
  default_eol_search, LineBuffer, new_line_buffer, returned, running, conn_data_in_cb,
}
use read_mail_really_fast.Net.LineBuffer.Search.{
  IsEnd, IsPlain, default_eol_search-IsEnd, conn_data_in_cb_stuck,
}
use read_mail_really_fast.Net.LineBuffer.Whole.{received_text, conn_data_in_cb_whole}

default_eol_search-IsEnd_example :
    ((q : ℕ) → default_eol_search (codes "a\r\nb") 1 ≡ some q → (1 ≤ q) × IsEnd (codes "a\r\nb") q)
    × ((k : ℕ)
        → default_eol_search (codes "a\r\nb") 1 ≡ none
        → 1 ≤ k
        → k < length (codes "a\r\nb")
        → IsPlain (codes "a\r\nb") k)
default_eol_search-IsEnd_example = default_eol_search-IsEnd (codes "a\r\nb") 1 (omega arith)

conn_data_in_cb_stuck_example :
    (c : LineBuffer) × (conn_data_in_cb default_eol_search 5 (new_line_buffer 80) (codes "a\nb")
      ≡ running c)
    × (length c.lines ≡ length (new_line_buffer 80).lines + 5)
conn_data_in_cb_stuck_example =
    conn_data_in_cb_stuck 5 (new_line_buffer 80) (codes "a\nb") 1 (omega arith) (inr refl)

-- A search for the position behind the next blank, up to position 3.
abbrev search : Bytes → ℕ → Option ℕ
search text p = if ltb p 2 then some 2 else none

search_advances : (p q : ℕ) → search (codes "a b") p ≡ some q → (p < q) × (q ≤ length (codes "a b"))
search_advances p q e = ground arith

conn_data_in_cb_whole_example :
    (c : LineBuffer) × (conn_data_in_cb search 4 (new_line_buffer 80) (codes "a b") ≡ returned c)
    × (received_text c ≡ received_text (new_line_buffer 80) ++ codes "a b")
    × (length c.buffer ≤ (new_line_buffer 80).max_size)
    × (c.max_size ≡ (new_line_buffer 80).max_size)
conn_data_in_cb_whole_example =
    conn_data_in_cb_whole search (codes "a b") search_advances (omega arith) 4 (new_line_buffer 80)
      (omega arith)

-- A search for a line feed behind the position, itself included in the line.
abbrev after_feed : ℕ → Bytes → ℕ → Option ℕ
after_feed n [] p = none
after_feed n (c ∷ cs) p =
    let rest = after_feed (n + 1) cs p in if ltb p (n + 1) && c == b'\n' then some (n + 1) else rest

after_feed_range :
    (n : ℕ) (t : Bytes) (p q : ℕ) → after_feed n t p ≡ some q → (p < q) × (q ≤ n + length t)
after_feed_range n [] p q e = cc
after_feed_range n (c ∷ cs) p q e = ground (arith, after_feed_range (n + 1) cs p q)

after_feed_advances : (t : Bytes) (p q : ℕ) → after_feed 0 t p ≡ some q → (p < q) × (q ≤ length t)
after_feed_advances t p q e = omega (arith, after_feed_range 0 t p q e)

-- An accepted connection with a callback that writes nothing back.
abbrev quiet : Bytes → List Bytes
quiet t = []

abbrev connected : Session
connected = record {
  client = set_incomming_data_callback (accepted_client false (auto_fd (pos 5)) [] 25);
  world = record { sent = []; delivered = []; exits = []; closed = [] };
}

abbrev two_reads : List Call
two_reads =
    event read_bit (received (codes "a\nb")) would_block
    ∷ event read_bit (received (codes "c\n")) would_block
    ∷ []

abbrev left_by : Outcome → Session
left_by (done t) = t
left_by (threw e t) = t
left_by (deleted w) = connected
left_by (used_after_free w) = connected

abbrev after_reads : Session
unfolding run
after_reads = left_by (run quiet connected two_reads)

received_text-run_example :
    (c : LineBuffer) × (feed (after_feed 0) (new_line_buffer 80) after_reads.world.delivered
      ≡ returned c)
    × (received_text c ≡ received_text (new_line_buffer 80) ++ concat (all_arrived two_reads))
    × (length c.buffer ≤ (new_line_buffer 80).max_size)
unfolding after_reads run step cb_ev handle_read update_interest set_incomming_data_callback
    accepted_client write_all is_empty new_line_buffer
received_text-run_example =
    received_text-run quiet (after_feed 0) after_feed_advances connected two_reads
      (new_line_buffer 80) refl refl (omega arith) (omega arith)

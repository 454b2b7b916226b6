-- ===== src/Net/LineBuffer/Received.antt =====
-- A line buffer that is registered at a TCP client: from `recv` to the lines. What the line
-- buffer's own callback writes back through the client depends on the text of the call only.
use read_mail_really_fast.Prelude.{
  ℕ, ◌≤◌, ◌<◌, ◌≡◌, ap, ◌∙◌, List, [], ◌++◌, Option, some, Bytes, length,
}
use read_mail_really_fast.Net.TcpClient.{Session, done}
use read_mail_really_fast.Net.TcpClient.History.{Call, run}
use read_mail_really_fast.Net.TcpClient.Delivery.{all_arrived, run-delivered}
use read_mail_really_fast.Net.LineBuffer.{LineBuffer, returned}
use read_mail_really_fast.Net.LineBuffer.Whole.{received_text}
use read_mail_really_fast.Net.LineBuffer.Feed.{feed, feed_whole, concat, AllShort}

module _ (reply : Bytes → List Bytes) (search : Bytes → ℕ → Option ℕ)
    (advances : (t : Bytes) (p q : ℕ) → search t p ≡ some q → (p < q) × (q ≤ length t)) where
  -- With a search that moves on, over any history of a client that returns, and that had handed in
  -- nothing before: the line buffer returns from every text that the client hands in, and the lines
  -- given out and the buffer are those of before followed by all the bytes that the readable events
  -- brought, in order; the buffer stays within its limit.
  pub received_text-run :
      (s : Session) (cs : List Call) (b : LineBuffer) {t : Session}
      → run reply s cs ≡ done t
      → s.world.delivered ≡ []
      → AllShort (all_arrived cs)
      → length b.buffer ≤ b.max_size
      → (c : LineBuffer) × (feed search b t.world.delivered ≡ returned c)
        × (received_text c ≡ received_text b ++ concat (all_arrived cs))
        × (length c.buffer ≤ b.max_size)
  received_text-run s cs b {t} e n h k =
      let given = run-delivered reply s cs e ∙ ap (λ l. l ++ all_arrived cs) n in
      let (c, r, x, y) = feed_whole search advances (all_arrived cs) b h k in
      (c, ap (feed search b) given ∙ r, x, y)

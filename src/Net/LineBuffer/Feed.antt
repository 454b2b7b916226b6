-- ===== src/Net/LineBuffer/Feed.antt =====
-- The line buffer on all the texts that a client hands it, one call for each.
use read_mail_really_fast.Prelude.{
  ℕ, suc, ◌^◌, ◌≤◌, ◌<◌, ◌≡◌, refl, sym, ap, ◌∙◌, List, [], ◌∷◌, ◌++◌, append-nil, append_assoc,
  Option, some, arith, Bytes, length,
}
use read_mail_really_fast.Net.LineBuffer.{
  LineBuffer, Progress, returned, threw_out_of_range, running, conn_data_in_cb,
}
use read_mail_really_fast.Net.LineBuffer.Whole.{received_text, conn_data_in_cb_whole}

infixl 5 ◌>>=◌
abbrev ◌>>=◌ : Progress → (LineBuffer → Progress) → Progress
returned b >>= f = f b
threw_out_of_range b >>= f = threw_out_of_range b
running b >>= f = running b

abbrev pub concat : List Bytes → Bytes
concat [] = []
concat (t ∷ ts) = t ++ concat ts

-- Every text is shorter than the address space.
abbrev pub AllShort : List Bytes → Type 0
AllShort [] = Unit {0}
AllShort (t ∷ ts) = (length t < 2 ^ 64) × AllShort ts

module _ (search : Bytes → ℕ → Option ℕ) where
  -- Each call with one round for each byte, and one more.
  unfoldable pub feed : LineBuffer → List Bytes → Progress
  feed b [] = returned b
  feed b (t ∷ ts) = conn_data_in_cb search (suc (length t)) b t >>= λ c. feed c ts

  module _ (advances : (t : Bytes) (p q : ℕ) → search t p ≡ some q → (p < q) × (q ≤ length t)) where
    -- With a search that moves on, every call returns, and nothing that is handed in is lost or
    -- changed: the lines given out and the buffer are those of before followed by the texts; and
    -- the buffer stays within the limit.
    pub feed_whole :
        (ts : List Bytes) (b : LineBuffer)
        → AllShort ts
        → length b.buffer ≤ b.max_size
        → (c : LineBuffer) × (feed b ts ≡ returned c)
          × (received_text c ≡ received_text b ++ concat ts)
          × (length c.buffer ≤ b.max_size)
    unfolding feed
    feed_whole [] b h k = (b, refl, sym (append-nil (received_text b)), k)
    feed_whole (t ∷ ts) b h k =
        let (c, r, x, y, z) =
          conn_data_in_cb_whole search t (advances t) h.0 (suc (length t)) b (omega arith) in
        let (d, s, u, v) = feed_whole ts c h.1 (omega (arith, y, z)) in
        (
          d,
          rw r s,
          u ∙ ap (λ w. w ++ concat ts) x ∙ append_assoc (received_text b) t (concat ts),
          omega (arith, v, z),
        )

-- ===== src/Net/TcpClient/Stream.antt =====
-- The bytes of a connection, sent and queued, under the operations of tcp_client.cpp.
use read_mail_really_fast.Prelude.{
  ◌<◌, ◌≡◌, refl, sym, ap, ◌∙◌, List, [], ◌∷◌, ◌++◌, append-nil, append_assoc, arith, Bytes, length,
  take, drop, take_all, take-append-drop, Bool-cases, inl, inr,
}
use read_mail_really_fast.Net.Ioqueue.{
  size_mod, Iorecord, from_buffer, ptr, advance, Ioqueue, is_empty, pop_front,
}
use read_mail_really_fast.Net.Ioqueue.Stream.{
  IsQueue, stream, from_buffer-IsRecord, advance-IsRecord, ptr-advance, push_back-IsQueue,
  push_front-IsQueue, stream-push_back, stream-push_front, push_back_move-push_back,
  pop_front-Splits, Splits,
}
use read_mail_really_fast.Net.TcpClient.{
  TcpClient, Session, Outcome, done, threw, deleted, used_after_free, WriteResult, written,
  would_block, write_failed, write_data, write_all, push_write_queue, write_buffer,
}

abbrev pub queued : TcpClient → Bytes
queued c = stream c.write_queue

-- The connection's whole output so far: what the kernel took, then what still waits.
abbrev pub output : Session → Bytes
output s = s.world.sent ++ queued s.client

abbrev pub concat : List Bytes → Bytes
concat [] = []
concat (t ∷ ts) = t ++ concat ts

abbrev pub AllFit : List Bytes → Type 0
AllFit [] = Unit {0}
AllFit (t ∷ ts) = (length t < size_mod) × AllFit ts

ptr-from_buffer : (text : Bytes) → ptr (from_buffer text (length text)) ≡ text
unfolding ptr from_buffer
ptr-from_buffer text = take_all (length text) text (omega arith)

pub write_data-IsQueue :
    (c : TcpClient) (text : Bytes)
    → length text < size_mod
    → IsQueue c.write_queue
    → IsQueue (write_data c text).write_queue
unfolding write_data
write_data-IsQueue c text h v =
    rw push_back_move-push_back
      (push_back-IsQueue c.write_queue _ v (from_buffer-IsRecord text (length text) h))

-- `write_data` puts the text behind what is queued.
pub queued-write_data :
    (c : TcpClient) (text : Bytes)
    → length text < size_mod
    → IsQueue c.write_queue
    → queued (write_data c text) ≡ queued c ++ text
unfolding write_data
queued-write_data c text h v = rw push_back_move-push_back (
    stream-push_back c.write_queue _ v (from_buffer-IsRecord text (length text) h)
    ∙ ap (◌++◌ (queued c)) (ptr-from_buffer text))

pub write_all-IsQueue :
    (c : TcpClient) (ts : List Bytes)
    → AllFit ts
    → IsQueue c.write_queue
    → IsQueue (write_all c ts).write_queue
unfolding write_all
write_all-IsQueue c [] h v = v
write_all-IsQueue c (t ∷ ts) h v =
    write_all-IsQueue (write_data c t) ts h.1 (write_data-IsQueue c t h.0 v)

pub queued-write_all :
    (c : TcpClient) (ts : List Bytes)
    → AllFit ts
    → IsQueue c.write_queue
    → queued (write_all c ts) ≡ queued c ++ concat ts
unfolding write_all
queued-write_all c [] h v = sym (append-nil (queued c))
queued-write_all c (t ∷ ts) h v =
    queued-write_all (write_data c t) ts h.1 (write_data-IsQueue c t h.0 v)
    ∙ ap (λ q. q ++ concat ts) (queued-write_data c t h.0 v)
    ∙ append_assoc (queued c) t (concat ts)

-- What one answer of `write` leaves of the output: all of it, unless the write fails.
abbrev pub Kept : Session → Outcome → Type 0
Kept s (done t) = IsQueue t.client.write_queue × (output t ≡ output s)
Kept s (threw e t) = IsQueue t.client.write_queue × (t.world ≡ s.world)
Kept s (deleted w) = ⊥
Kept s (used_after_free w) = ⊥

pub write_buffer-Kept :
    (s : Session) (p : Iorecord × Ioqueue) (a : WriteResult)
    → Splits s.client.write_queue p
    → Kept s (write_buffer s p a)
unfolding write_buffer
write_buffer-Kept s (buffer, rest) (written n) (r, q, e) = (
  push_front-IsQueue rest (advance buffer n) q (advance-IsRecord buffer n r),
  ap (◌++◌ (s.world.sent ++ take n (ptr buffer))) (
        stream-push_front rest (advance buffer n) q (advance-IsRecord buffer n r)
        ∙ ap (λ b. b ++ stream rest) (ptr-advance buffer n r))
      ∙ append_assoc s.world.sent (take n (ptr buffer)) (drop n (ptr buffer) ++ stream rest)
      ∙ ap (◌++◌ s.world.sent) (
          sym (append_assoc (take n (ptr buffer)) (drop n (ptr buffer)) (stream rest))
          ∙ ap (λ b. b ++ stream rest) (take-append-drop n (ptr buffer))
          ∙ e),
)
write_buffer-Kept s (buffer, rest) would_block (r, q, e) = (
  push_front-IsQueue rest buffer q r,
  ap (◌++◌ s.world.sent) (stream-push_front rest buffer q r ∙ e),
)
write_buffer-Kept s (buffer, rest) write_failed (r, q, e) = (q, refl)

pub push_write_queue-Kept :
    (s : Session) (a : WriteResult) → IsQueue s.client.write_queue → Kept s (push_write_queue s a)
unfolding push_write_queue
push_write_queue-Kept s a v = elim (Bool-cases (is_empty s.client.write_queue)) [
  | inl e ↦ rw e (v, refl)
  | inr e ↦ rw e (write_buffer-Kept s (pop_front s.client.write_queue) a (pop_front-Splits _ v))
]

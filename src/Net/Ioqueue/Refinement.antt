-- ===== src/Net/Ioqueue/Refinement.antt =====
-- The queue behind the stream of the bytes that wait in it.
use read_mail_really_fast.Prelude.{ℕ, ◌≡◌, ◌↔◌, true, [], ◌++◌, drop}
use read_mail_really_fast.Net.Ioqueue.{
  Iorecord, Ioqueue, push_back, push_front, pop_front, ptr, advance, is_empty,
}
use read_mail_really_fast.Net.Ioqueue.Stream.{
  IsRecord, IsQueue, stream, Splits, push_back-IsQueue, push_front-IsQueue, stream-push_back,
  stream-push_front, pop_front-Splits, advance-IsRecord, ptr-advance, is_empty_iff,
}

-- On a sound queue and a sound record, each operation does to the stream of waiting bytes what it
-- promises, and leaves what is sound: `push_back` puts the record's unsent bytes behind the stream
-- and `push_front` before it; `pop_front` splits the stream into a record's bytes and those of the
-- queue that is left; `advance` drops bytes from a record's front, and no more than there are; and
-- the queue is empty exactly when no byte waits.
pub ioqueue_keeps_stream :
    (q : Ioqueue) (r : Iorecord) (n : ℕ)
    → IsQueue q
    → IsRecord r
    → (IsQueue (push_back q r) × (stream (push_back q r) ≡ stream q ++ ptr r))
      × (IsQueue (push_front q r) × (stream (push_front q r) ≡ ptr r ++ stream q))
      × Splits q (pop_front q)
      × (IsRecord (advance r n) × (ptr (advance r n) ≡ drop n (ptr r)))
      × ((is_empty q ≡ true) ↔ (stream q ≡ []))
ioqueue_keeps_stream q r n v w = (
  (push_back-IsQueue q r v w, stream-push_back q r v w),
  (push_front-IsQueue q r v w, stream-push_front q r v w),
  pop_front-Splits q v,
  (advance-IsRecord r n w, ptr-advance r n w),
  is_empty_iff q v,
)

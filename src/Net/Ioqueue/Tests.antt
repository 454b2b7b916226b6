-- ===== src/Net/Ioqueue/Tests.antt =====
-- The theorems on the queue at a queue of two records, the first of them sent in part.
use read_mail_really_fast.Prelude.{◌≡◌, ◌↔◌, [], ◌∷◌, ◌++◌, arith, codes, drop, true}
use read_mail_really_fast.Net.Ioqueue.{
  Iorecord, Ioqueue, push_back, push_front, pop_front, ptr, advance, is_empty,
}
use read_mail_really_fast.Net.Ioqueue.Stream.{IsRecord, IsQueue, stream, Splits}
use read_mail_really_fast.Net.Ioqueue.Refinement.{ioqueue_keeps_stream}

abbrev abc : Iorecord
abc = record { offset = 1; bytes = codes "abc" }

abbrev two : Ioqueue
two = record { queue = abc ∷ record { offset = 0; bytes = codes "de" } ∷ [] }

abc-IsRecord : IsRecord abc
abc-IsRecord = record { within = omega arith; fits = omega arith }

two-IsQueue : IsQueue two
unfolding ptr
two-IsQueue = (
  abc-IsRecord,
  omega arith,
  (record { within = omega arith; fits = omega arith }, omega arith, tt),
)

ioqueue_keeps_stream_example :
    (IsQueue (push_back two abc) × (stream (push_back two abc) ≡ stream two ++ ptr abc))
    × (IsQueue (push_front two abc) × (stream (push_front two abc) ≡ ptr abc ++ stream two))
    × Splits two (pop_front two)
    × (IsRecord (advance abc 1) × (ptr (advance abc 1) ≡ drop 1 (ptr abc)))
    × ((is_empty two ≡ true) ↔ (stream two ≡ []))
ioqueue_keeps_stream_example = ioqueue_keeps_stream two abc 1 two-IsQueue abc-IsRecord

-- ===== src/Net/Ioqueue.antt =====
-- src/net/ioqueue.cpp and ioqueue.hpp. A record is the unsent rest of one buffer: `bytes` from
-- `offset` on. Offsets and sizes are `size_t`, with the wrap of their arithmetic.
pub mod Stream
pub mod Refinement
mod Tests
use read_mail_really_fast.Prelude.{
  ℕ, ◌+◌, ◌-◌, ◌%◌, ◌^◌, min, Bool, not, List, [], ◌∷◌, ◌++◌, Bytes, length, take, drop, ◌==◌,
  if◌then◌else◌,
}

abbrev pub size_mod : ℕ
size_mod = 2 ^ 64

pub record Iorecord : Type 0 where
  pub offset : ℕ
  pub bytes : Bytes

-- `iorecord()`
unfoldable pub empty_record : Iorecord
empty_record = record { offset = 0; bytes = [] }

-- `iorecord(buf, size)`: `buf` is the memory from the pointer on.
unfoldable pub from_buffer : Bytes → ℕ → Iorecord
from_buffer buf size = record { offset = 0; bytes = take size buf }

-- `iorecord(const iorecord &)`
unfoldable pub copy_record : Iorecord → Iorecord
copy_record other = record { offset = other.offset; bytes = other.bytes }

-- `iorecord(iorecord &&)`: the new record, and what is left of the old one.
unfoldable pub move_record : Iorecord → Iorecord × Iorecord
move_record other =
    (record { offset = other.offset; bytes = other.bytes }, record other { bytes = [] })

unfoldable pub size : Iorecord → ℕ
size r = (length r.bytes + size_mod - r.offset) % size_mod

unfoldable pub is_empty_record : Iorecord → Bool
unfolding size
is_empty_record r = size r == 0

-- The memory behind `ptr()`, up to the end of the buffer.
unfoldable pub ptr : Iorecord → Bytes
ptr r = drop r.offset r.bytes

unfoldable pub advance : Iorecord → ℕ → Iorecord
unfolding size
advance r amount = record r { offset = (r.offset + min amount (size r)) % size_mod }

pub record Ioqueue : Type 0 where
  pub queue : List Iorecord

unfoldable pub new_queue : Ioqueue
new_queue = record { queue = [] }

abbrev no_records : List Iorecord → Bool
no_records [] = Bool.true
no_records (_ ∷ _) = Bool.false

unfoldable pub is_empty : Ioqueue → Bool
is_empty q = no_records q.queue

-- `push_back(const iorecord &)`
unfoldable pub push_back : Ioqueue → Iorecord → Ioqueue
unfolding is_empty_record copy_record
push_back q r =
    if not (is_empty_record r) then record { queue = q.queue ++ (copy_record r ∷ []) } else q

-- `push_back(iorecord &&)`: the queue, and what is left of the argument.
unfoldable pub push_back_move : Ioqueue → Iorecord → Ioqueue × Iorecord
unfolding is_empty_record move_record
push_back_move q r =
    if not (is_empty_record r)
    then (record { queue = q.queue ++ ((move_record r).0 ∷ []) }, (move_record r).1)
    else (q, r)

-- `push_front(const iorecord &)`
unfoldable pub push_front : Ioqueue → Iorecord → Ioqueue
unfolding is_empty_record copy_record
push_front q r = if not (is_empty_record r) then record { queue = copy_record r ∷ q.queue } else q

-- `push_front(iorecord &&)`
unfoldable pub push_front_move : Ioqueue → Iorecord → Ioqueue × Iorecord
unfolding is_empty_record move_record
push_front_move q r =
    if not (is_empty_record r)
    then (record { queue = (move_record r).0 ∷ q.queue }, (move_record r).1)
    else (q, r)

-- The front record is copied out, then removed; an empty queue gives an empty record.
pop_records : List Iorecord → Iorecord × Ioqueue
unfolding empty_record copy_record
pop_records [] = (empty_record, record { queue = [] })
pop_records (r ∷ rs) = (copy_record r, record { queue = rs })

unfoldable pub pop_front : Ioqueue → Iorecord × Ioqueue
unfolding pop_records
pop_front q = pop_records q.queue

-- ===== src/Net/Ioqueue/Stream.antt =====
-- The queue as the stream of bytes that are still to be sent.
use read_mail_really_fast.Prelude.{
  ℕ, zero, suc, ◌-◌, ◌≤◌, ◌<◌, ◌≡◌, refl, sym, ap, ◌∙◌, ◌↔◌, ◌⊎◌, true, false, List, [], ◌∷◌, ◌++◌,
  append-nil, append_assoc, arith, Bytes, length, take, drop, length-drop, drop-drop, drop_all,
  length-append, nil_of_length, Bool-cases, inl, inr,
}
use read_mail_really_fast.Net.Ioqueue.{
  size_mod, Iorecord, empty_record, from_buffer, size, is_empty_record, ptr, advance, Ioqueue,
  is_empty, push_back, push_back_move, push_front, push_front_move, pop_front, pop_records,
}

-- The offset lies in the buffer, and the buffer in the address space.
le_or_lt : (a b : ℕ) → (a ≤ b) ⊎ (b < a)
le_or_lt a b = grind arith

pub record IsRecord (r : Iorecord) : Type 0 where
  pub within : r.offset ≤ length r.bytes
  pub fits : length r.bytes < size_mod

-- What the queue keeps: records that have bytes left.
abbrev pub AllPending : List Iorecord → Type 0
AllPending [] = Unit {0}
AllPending (r ∷ rs) = IsRecord r × (0 < length (ptr r)) × AllPending rs

abbrev pub IsQueue : Ioqueue → Type 0
IsQueue q = AllPending q.queue

abbrev pub concat_ptr : List Iorecord → Bytes
concat_ptr [] = []
concat_ptr (r ∷ rs) = ptr r ++ concat_ptr rs

abbrev pub stream : Ioqueue → Bytes
stream q = concat_ptr q.queue

pub size-length : (r : Iorecord) → IsRecord r → size r ≡ length (ptr r)
unfolding size ptr
size-length r v = omega (arith, length-drop r.offset r.bytes)

size_lem : (r : Iorecord) → IsRecord r → size r ≡ length r.bytes - r.offset
unfolding size
size_lem r v = omega arith

pub is_empty_record_iff :
    (r : Iorecord) → IsRecord r → (is_empty_record r ≡ true) ↔ (length (ptr r) ≡ 0)
unfolding is_empty_record
is_empty_record_iff r v =
    (λ e. ground (arith, size-length r v), λ e. ground (arith, size-length r v))

pub empty_record-IsRecord : IsRecord empty_record
unfolding empty_record
empty_record-IsRecord = omega arith

length-take-le : (k : ℕ) (xs : Bytes) → length (take k xs) ≤ length xs
length-take-le zero xs = omega arith
length-take-le (suc k) [] = omega arith
length-take-le (suc k) (x ∷ xs) = omega (arith, length-take-le k xs)

pub from_buffer-IsRecord :
    (buf : Bytes) (n : ℕ) → length buf < size_mod → IsRecord (from_buffer buf n)
unfolding from_buffer
from_buffer-IsRecord buf n h = omega (arith, length-take-le n buf)

pub advance-IsRecord : (r : Iorecord) (n : ℕ) → IsRecord r → IsRecord (advance r n)
unfolding advance
advance-IsRecord r n v = omega (arith, size_lem r v)

-- Advancing a sound record drops bytes from its front, and no more than there are.
pub ptr-advance : (r : Iorecord) (n : ℕ) → IsRecord r → ptr (advance r n) ≡ drop n (ptr r)
unfolding advance ptr
ptr-advance r n v = elim (le_or_lt (size r) n) [
  | inl all ↦
      drop_all _ r.bytes (omega (arith, size_lem r v))
      ∙ sym (
          drop_all n (drop r.offset r.bytes)
            (omega (arith, size_lem r v, length-drop r.offset r.bytes)))
  | inr part ↦
      ap (λ k. drop k r.bytes) (omega (arith, size_lem r v)) ∙ sym (drop-drop r.offset n r.bytes)
]

module _ (q : Ioqueue) (r : Iorecord) (v : IsQueue q) (w : IsRecord r) where
  AllPending-append :
      (rs : List Iorecord) → AllPending rs → 0 < length (ptr r) → AllPending (rs ++ (r ∷ []))
  AllPending-append [] a h = (w, h, tt)
  AllPending-append (x ∷ rs) a h = (a.0, a.1, AllPending-append rs a.2 h)

  pub push_back-IsQueue : IsQueue (push_back q r)
  unfolding push_back
  push_back-IsQueue = ground (arith, is_empty_record_iff r w, AllPending-append q.queue v)

  pub push_front-IsQueue : IsQueue (push_front q r)
  unfolding push_front
  push_front-IsQueue = ground (arith, is_empty_record_iff r w)

  concat_ptr-append : (rs : List Iorecord) → concat_ptr (rs ++ (r ∷ [])) ≡ concat_ptr rs ++ ptr r
  concat_ptr-append [] = append-nil (ptr r)
  concat_ptr-append (x ∷ rs) =
      ap (◌++◌ (ptr x)) (concat_ptr-append rs) ∙ sym (append_assoc (ptr x) _ _)

  ptr_nil : is_empty_record r ≡ true → ptr r ≡ []
  ptr_nil e = nil_of_length (ptr r) ((is_empty_record_iff r w).0 e)

  -- On a sound queue and record, `push_back` puts the unsent bytes of the record behind the stream.
  pub stream-push_back : stream (push_back q r) ≡ stream q ++ ptr r
  unfolding push_back
  stream-push_back = elim (Bool-cases (is_empty_record r)) [
    | inl e ↦ rw (e, ptr_nil e) (sym (append-nil (stream q)))
    | inr e ↦ rw e (concat_ptr-append q.queue)
  ]

  -- On a sound queue and record, `push_front` puts the unsent bytes of the record before the
  -- stream.
  pub stream-push_front : stream (push_front q r) ≡ ptr r ++ stream q
  unfolding push_front
  stream-push_front = elim (Bool-cases (is_empty_record r)) [
    | inl e ↦ rw (e, ptr_nil e)
    | inr e ↦ rw e
  ]

-- The overloads that move leave the same queue as those that copy.
pub push_back_move-push_back : (q : Ioqueue) (r : Iorecord) → (push_back_move q r).0 ≡ push_back q r
unfolding push_back_move push_back
push_back_move-push_back q r = ground arith

pub push_front_move-push_front :
    (q : Ioqueue) (r : Iorecord) → (push_front_move q r).0 ≡ push_front q r
unfolding push_front_move push_front
push_front_move-push_front q r = ground arith

abbrev pub Splits : Ioqueue → Iorecord × Ioqueue → Type 0
Splits q (r, rest) = IsRecord r × IsQueue rest × (ptr r ++ stream rest ≡ stream q)

pop_records-Splits :
    (rs : List Iorecord) → AllPending rs → Splits (record { queue = rs }) (pop_records rs)
unfolding pop_records ptr
pop_records-Splits [] v = (empty_record-IsRecord, tt, refl)
pop_records-Splits (r ∷ rs) v = (v.0, v.2, refl)

-- On a sound queue `pop_front` splits the stream: the record's unsent bytes, then those of the
-- queue that is left, which is sound.
pub pop_front-Splits : (q : Ioqueue) → IsQueue q → Splits q (pop_front q)
unfolding pop_front
pop_front-Splits q v = pop_records-Splits q.queue v

is_empty_iff_records :
    (rs : List Iorecord)
    → AllPending rs
    → (is_empty (record { queue = rs }) ≡ true) ↔ (concat_ptr rs ≡ [])
unfolding is_empty
is_empty_iff_records [] v = (λ _. refl, λ _. refl)
is_empty_iff_records (r ∷ rs) v =
    (λ e. cc, λ e. absurd (omega (arith, ap length e, length-append (ptr r) (concat_ptr rs), v.1)))

-- A sound queue is empty exactly when no byte waits.
pub is_empty_iff : (q : Ioqueue) → IsQueue q → (is_empty q ≡ true) ↔ (stream q ≡ [])
is_empty_iff q v = is_empty_iff_records q.queue v

pop_records_pending :
    (rs : List Iorecord)
    → AllPending rs
    → is_empty (record { queue = rs }) ≡ false
    → 0 < length (ptr (pop_records rs).0)
unfolding pop_records is_empty ptr
pop_records_pending [] v e = cc
pop_records_pending (r ∷ rs) v e = v.1

-- What a queue that is not empty gives has bytes left.
pub pop_front_pending :
    (q : Ioqueue) → IsQueue q → is_empty q ≡ false → 0 < length (ptr (pop_front q).0)
unfolding pop_front
pop_front_pending q v e = pop_records_pending q.queue v e

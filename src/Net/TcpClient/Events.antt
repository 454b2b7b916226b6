-- ===== src/Net/TcpClient/Events.antt =====
-- The event handler of tcp_client.cpp as a whole.
use read_mail_really_fast.Prelude.{
  ◌≡◌, ◌≢◌, ◌↔◌, refl, sym, ap, ◌∙◌, Bool, true, false, List, [], ◌∷◌, ◌++◌, append-nil,
  append_assoc, Bytes, if◌then◌else◌, Bool-cases, inl, inr,
}
use read_mail_really_fast.Net.Ioqueue.{is_empty}
use read_mail_really_fast.Net.Ioqueue.Stream.{IsQueue, is_empty_iff}
use read_mail_really_fast.Net.TcpClient.{
  Bits, Session, Outcome, done, threw, deleted, used_after_free, ◌>>=◌, RecvResult, recv_failed,
  received, WriteResult, push_write_queue, handle_read, update_interest, cb_ev,
}
use read_mail_really_fast.Net.TcpClient.Stream.{
  queued, output, concat, AllFit, Kept, push_write_queue-Kept, write_all-IsQueue, queued-write_all,
}

abbrev pub Ensures : (Session → Type 0) → Outcome → Type 0
Ensures P (done t) = P t
Ensures P (threw e t) = Unit
Ensures P (deleted w) = Unit
Ensures P (used_after_free w) = Unit

pub Ensures-bind :
    (P Q : Session → Type 0) (m : Outcome) (f : Session → Outcome)
    → Ensures P m
    → ((u : Session) → P u → Ensures Q (f u))
    → Ensures Q (m >>= f)
Ensures-bind P Q (done u) f p k = k u p
Ensures-bind P Q (threw e u) f p k = tt
Ensures-bind P Q (deleted w) f p k = tt
Ensures-bind P Q (used_after_free w) f p k = tt

Ensures-if :
    (P : Session → Type 0) (b : Bool) (m n : Outcome)
    → Ensures P m
    → Ensures P n
    → Ensures P (if b then m else n)
Ensures-if P true m n h k = h
Ensures-if P false m n h k = k

pub Ensures-done :
    (P : Session → Type 0) (m : Outcome) {t : Session} → m ≡ done t → Ensures P m → P t
Ensures-done P m e h = rw e at h

Ensures-Kept :
    (s : Session) (m : Outcome)
    → Kept s m
    → Ensures (λ t. IsQueue t.client.write_queue × (output t ≡ output s)) m
Ensures-Kept s (done t) k = k
Ensures-Kept s (threw e t) k = tt
Ensures-Kept s (deleted w) k = tt
Ensures-Kept s (used_after_free w) k = tt

-- Writability is waited for exactly while bytes are queued.
abbrev pub WaitsExactly : Session → Type 0
WaitsExactly s = (s.client.io.events.writes ≡ true) ↔ (queued s.client ≢ [])

-- No byte waits unnoticed.
abbrev pub WaitsForAll : Session → Type 0
WaitsForAll s = queued s.client ≢ [] → s.client.io.events.writes ≡ true

abbrev pub Settled : Bytes → Session → Type 0
Settled out t = IsQueue t.client.write_queue × (output t ≡ out) × WaitsExactly t

update_interest-Settled :
    (reply : Bytes → List Bytes) (s : Session) (out : Bytes)
    → IsQueue s.client.write_queue
    → output s ≡ out
    → Ensures (Settled out) (update_interest reply s)
unfolding update_interest
update_interest-Settled reply s out v e =
    let i = is_empty_iff s.client.write_queue v in
    elim (Bool-cases (is_empty s.client.write_queue)) [
      | inl x ↦ (v, e, rw x ((λ w. cc), (λ n. absurd (n (i.0 x)))))
      | inr x ↦ (v, e, rw x ((λ w n. cc (i.1 n)), (λ n. refl)))
    ]

module _ (reply : Bytes → List Bytes) where
  -- What the callback answers to one reading.
  abbrev pub answers : Bool → RecvResult → Bytes
  answers false a = []
  answers true recv_failed = []
  answers true (received bs) = concat (reply bs)

  abbrev pub RepliesFit : RecvResult → Type 0
  RepliesFit recv_failed = Unit {0}
  RepliesFit (received bs) = AllFit (reply bs)

  abbrev Reads : Bytes → Session → Type 0
  Reads out t = IsQueue t.client.write_queue × (output t ≡ out)

  handle_read-Reads :
      (s : Session) (a : RecvResult)
      → RepliesFit a
      → IsQueue s.client.write_queue
      → Ensures (Reads (output s ++ answers true a)) (handle_read reply s a)
  unfolding handle_read
  handle_read-Reads s recv_failed f v = tt
  handle_read-Reads s (received []) f v = tt
  handle_read-Reads s (received (b ∷ bs)) f v =
      Ensures-if (Reads (output s ++ concat (reply (b ∷ bs)))) s.client.in_data_cb _ _
        (
          write_all-IsQueue s.client (reply (b ∷ bs)) f v,
          ap (◌++◌ s.world.sent) (queued-write_all s.client (reply (b ∷ bs)) f v)
              ∙ sym (append_assoc s.world.sent (queued s.client) (concat (reply (b ∷ bs)))),
        )
        tt

  read_step-Reads :
      (s : Session) (b : Bool) (a : RecvResult)
      → RepliesFit a
      → IsQueue s.client.write_queue
      → Ensures (Reads (output s ++ answers b a)) (if b then handle_read reply s a else done s)
  read_step-Reads s true a f v = handle_read-Reads s a f v
  read_step-Reads s false a f v = (v, sym (append-nil (output s)))

  write_step-Reads :
      (out : Bytes) (s : Session) (b : Bool) (a : WriteResult)
      → Reads out s
      → Ensures (Reads out) (if b then push_write_queue s a else done s)
  write_step-Reads out s true a (v, e) =
      rw (← e) (Ensures-Kept s (push_write_queue s a) (push_write_queue-Kept s a v))
  write_step-Reads out s false a r = r

  pub cb_ev-Ensures :
      (s : Session) (ev : Bits) (ra : RecvResult) (wa : WriteResult)
      → RepliesFit ra
      → IsQueue s.client.write_queue
      → ev.error ≡ false
      → Ensures (Settled (output s ++ answers ev.reads ra)) (cb_ev reply s ev ra wa)
  unfolding cb_ev
  cb_ev-Ensures s ev ra wa f v e = rw e (
      let out = output s ++ answers ev.reads ra in
      Ensures-bind (Reads out) (Settled out) _ _ (read_step-Reads s ev.reads ra f v) (λ t r.
        Ensures-bind (Reads out) (Settled out) _ _ (write_step-Reads out t ev.writes wa r)
          (λ u q. update_interest-Settled reply u out q.0 q.1)))

  -- If the queue is sound, the replies are below 2 ^ 64 bytes and the handler returns from an event
  -- without the error bit, then the bytes sent and queued are those of before followed by the
  -- callback's answers, the queue is sound, and writability is waited for exactly while bytes are
  -- queued.
  pub cb_ev-Settled :
      (s : Session) (ev : Bits) (ra : RecvResult) (wa : WriteResult) {t : Session}
      → RepliesFit ra
      → IsQueue s.client.write_queue
      → ev.error ≡ false
      → cb_ev reply s ev ra wa ≡ done t
      → Settled (output s ++ answers ev.reads ra) t
  cb_ev-Settled s ev ra wa f v e h =
      Ensures-done (Settled (output s ++ answers ev.reads ra)) _ h (cb_ev-Ensures s ev ra wa f v e)

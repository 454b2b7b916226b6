-- ===== src/Net/TcpClient/Delivery.antt =====
-- What the registered callback of a connection is given over a history.
use read_mail_really_fast.Prelude.{
  ◌≡◌, refl, sym, ◌∙◌, Bool, true, false, List, [], ◌∷◌, ◌++◌, append-nil, append_assoc, Bytes,
  if◌then◌else◌, Bool-cases, inl, inr,
}
use read_mail_really_fast.Net.Ioqueue.{Iorecord, Ioqueue, is_empty, pop_front}
use read_mail_really_fast.Net.TcpClient.{
  Session, done, RecvResult, recv_failed, received, WriteResult, written, would_block, write_failed,
  write_buffer, push_write_queue, handle_read, update_interest, cb_ev,
}
use read_mail_really_fast.Net.TcpClient.Events.{Ensures, Ensures-bind, Ensures-done}
use read_mail_really_fast.Net.TcpClient.History.{Call, writes, event, step, run}

-- The text that one answer of `recv` brings.
abbrev pub brought : RecvResult → List Bytes
brought recv_failed = []
brought (received []) = []
brought (received (b ∷ bs)) = (b ∷ bs) ∷ []

-- The texts that a call brings in, and those of a history.
abbrev pub arrived : Call → List Bytes
arrived (writes text) = []
arrived (event ev ra wa) = if ev.error then [] else if ev.reads then brought ra else []

abbrev pub all_arrived : List Call → List Bytes
all_arrived [] = []
all_arrived (c ∷ cs) = arrived c ++ all_arrived cs

abbrev Delivers : List Bytes → Session → Type 0
Delivers texts t = t.world.delivered ≡ texts

write_buffer-Delivers :
    (s : Session) (popped : Iorecord × Ioqueue) (wa : WriteResult)
    → Ensures (Delivers s.world.delivered) (write_buffer s popped wa)
unfolding write_buffer
write_buffer-Delivers s popped (written n) = refl
write_buffer-Delivers s popped would_block = refl
write_buffer-Delivers s popped write_failed = tt

push_write_queue-Delivers :
    (s : Session) (wa : WriteResult) → Ensures (Delivers s.world.delivered) (push_write_queue s wa)
unfolding push_write_queue
push_write_queue-Delivers s wa = elim (Bool-cases (is_empty s.client.write_queue)) [
  | inl x ↦ rw x refl
  | inr x ↦ rw x (write_buffer-Delivers s (pop_front s.client.write_queue) wa)
]

module _ (reply : Bytes → List Bytes) where
  handle_read-Delivers :
      (s : Session) (ra : RecvResult)
      → Ensures (Delivers (s.world.delivered ++ brought ra)) (handle_read reply s ra)
  unfolding handle_read
  handle_read-Delivers s recv_failed = tt
  handle_read-Delivers s (received []) = tt
  handle_read-Delivers s (received (b ∷ bs)) = elim (Bool-cases s.client.in_data_cb) [
    | inl x ↦ simp x refl
    | inr x ↦ simp x tt
  ]

  reads-Delivers :
      (s : Session) (reads : Bool) (ra : RecvResult)
      → Ensures
          (Delivers (s.world.delivered ++ (if reads then brought ra else [])))
          (if reads then handle_read reply s ra else done s)
  reads-Delivers s true ra = handle_read-Delivers s ra
  reads-Delivers s false ra = sym (append-nil s.world.delivered)

  writes-Delivers :
      (s : Session) (w : Bool) (wa : WriteResult)
      → Ensures (Delivers s.world.delivered) (if w then push_write_queue s wa else done s)
  writes-Delivers s true wa = push_write_queue-Delivers s wa
  writes-Delivers s false wa = refl

  step-Delivers :
      (s : Session) (c : Call)
      → Ensures (Delivers (s.world.delivered ++ arrived c)) (step reply s c)
  unfolding step cb_ev update_interest
  step-Delivers s (writes text) = sym (append-nil s.world.delivered)
  step-Delivers s (event ev ra wa) = elim (Bool-cases ev.error) [
    | inl x ↦ rw x (sym (append-nil s.world.delivered))
    | inr x ↦ rw x (
        Ensures-bind (Delivers (s.world.delivered ++ (if ev.reads then brought ra else []))) _ _ _
          (reads-Delivers s ev.reads ra)
          (λ t k.
            Ensures-bind (Delivers t.world.delivered) _ _ _ (writes-Delivers t ev.writes wa)
              (λ u j. j ∙ k)))
  ]

  run-Delivers :
      (s : Session) (cs : List Call)
      → Ensures (Delivers (s.world.delivered ++ all_arrived cs)) (run reply s cs)
  unfolding run
  run-Delivers s [] = sym (append-nil s.world.delivered)
  run-Delivers s (c ∷ cs) =
      Ensures-bind (Delivers (s.world.delivered ++ arrived c))
        (Delivers (s.world.delivered ++ all_arrived (c ∷ cs))) (step reply s c) _
        (step-Delivers s c) (λ t k. rw (← append_assoc) (rw (← k) (run-Delivers t cs)))

  -- Over any history that returns, the callback is given what the readable events brought, each text
  -- once and in order, behind what it was given before.
  pub run-delivered :
      (s : Session) (cs : List Call) {t : Session}
      → run reply s cs ≡ done t
      → t.world.delivered ≡ s.world.delivered ++ all_arrived cs
  run-delivered s cs e =
      Ensures-done (Delivers (s.world.delivered ++ all_arrived cs)) _ e (run-Delivers s cs)

-- ===== src/Net/TcpClient/Drain.antt =====
-- Runs of writable events, and the queue under them.
use read_mail_really_fast.Prelude.{
  ℕ, suc, ◌-◌, ◌≤◌, ◌<◌, ◌≡◌, refl, sym, ap, ◌∙◌, true, false, List, [], ◌∷◌, ◌++◌, append-nil,
  arith, Bytes, length, length-append, length-drop, Bool-cases, inl, inr, nil_of_length,
}
use read_mail_really_fast.Net.Ioqueue.{is_empty, Iorecord, Ioqueue, ptr, pop_front, advance}
use read_mail_really_fast.Net.Ioqueue.Stream.{
  IsQueue, is_empty_iff, pop_front_pending, pop_front-Splits, Splits, ptr-advance,
  stream-push_front, advance-IsRecord, stream,
}
use read_mail_really_fast.Net.TcpClient.{
  Bits, Session, Outcome, done, ◌>>=◌, received, written, push_write_queue, write_buffer, cb_ev,
  update_interest,
}
use read_mail_really_fast.Net.TcpClient.Stream.{output, queued, write_buffer-Kept}
use read_mail_really_fast.Net.TcpClient.History.{Call, event, step, run}

-- The call returns, and its result satisfies `P`.
abbrev Yields : (Session → Type 0) → Outcome → Type 0
Yields P m = (t : Session) × (m ≡ done t) × P t

Yields-bind :
    (P Q : Session → Type 0) (m : Outcome) (f : Session → Outcome)
    → Yields P m
    → ((t : Session) → P t → Yields Q (f t))
    → Yields Q (m >>= f)
Yields-bind P Q m f (t, e, p) k = rw e (k t p)

abbrev pub writable : Bits
writable = record { error = false; reads = false; writes = true }

-- A writable event at which `write` takes up to `n` bytes.
abbrev pub taking : ℕ → Call
taking n = event writable (received []) (written n)

abbrev pub Drains : Bytes → ℕ → Session → Type 0
Drains out k t = IsQueue t.client.write_queue × (output t ≡ out) × (length (queued t.client) ≤ k)

write_buffer-Drains :
    (s : Session) (p : Iorecord × Ioqueue) (n : ℕ)
    → Splits s.client.write_queue p
    → 0 < length (ptr p.0)
    → Yields (Drains (output s) (length (queued s.client) - 1)) (write_buffer s p (written (suc n)))
unfolding write_buffer
write_buffer-Drains s (buffer, rest) n (r, q, e) h =
    let (v, o) = write_buffer-Kept s (buffer, rest) (written (suc n)) (r, q, e) in
    (
      _,
      refl,
      (
        v,
        o,
        omega (
          arith,
          ap length (
              stream-push_front rest (advance buffer (suc n)) q
                (advance-IsRecord buffer (suc n) r)),
          ap length (ptr-advance buffer (suc n) r),
          ap length e,
          length-append (ptr buffer) (stream rest),
          length-append (ptr (advance buffer (suc n))) (stream rest),
          length-drop (suc n) (ptr buffer),
        ),
      ),
    )

push_write_queue-Drains :
    (s : Session) (n : ℕ)
    → IsQueue s.client.write_queue
    → Yields
        (Drains (output s) (length (queued s.client) - 1))
        (push_write_queue s (written (suc n)))
unfolding push_write_queue
push_write_queue-Drains s n v = elim (Bool-cases (is_empty s.client.write_queue)) [
  | inl e ↦
      rw e
        (_, refl, (v, refl, omega (arith, ap length ((is_empty_iff s.client.write_queue v).0 e))))
  | inr e ↦ rw e (
      write_buffer-Drains s (pop_front s.client.write_queue) n (pop_front-Splits _ v)
        (pop_front_pending _ v e))
]

module _ (reply : Bytes → List Bytes) where
  step-Drains :
      (s : Session) (n : ℕ)
      → IsQueue s.client.write_queue
      → Yields (Drains (output s) (length (queued s.client) - 1)) (step reply s (taking (suc n)))
  unfolding step cb_ev update_interest
  step-Drains s n v =
      Yields-bind _ (Drains (output s) (length (queued s.client) - 1)) _ _
        (push_write_queue-Drains s n v) (λ t d. (_, refl, d))

  -- The events of a kernel that takes a byte at least, and up to `n + 1` of them.
  abbrev pub all_taking : List ℕ → List Call
  all_taking [] = []
  all_taking (n ∷ ns) = taking (suc n) ∷ all_taking ns

  run-Drains :
      (ns : List ℕ) (s : Session)
      → IsQueue s.client.write_queue
      → Yields
          (Drains (output s) (length (queued s.client) - length ns))
          (run reply s (all_taking ns))
  unfolding run
  run-Drains [] s v = (s, refl, (v, refl, omega arith))
  run-Drains (n ∷ ns) s v =
      Yields-bind (Drains (output s) (length (queued s.client) - 1))
        (Drains (output s) (length (queued s.client) - suc (length ns))) _ _ (step-Drains s n v)
        (λ t d.
          let (u, e, x) = run-Drains ns t d.0 in (u, e, (x.0, x.1 ∙ d.1, omega (arith, x.2, d.2))))

  -- From a session whose queue is sound, after at least as many writable events as there are bytes
  -- queued, each taking a byte or more: the handler has returned every time, the queue is empty and
  -- every byte has been sent in order.
  pub run_drains :
      (ns : List ℕ) (s : Session)
      → IsQueue s.client.write_queue
      → length (queued s.client) ≤ length ns
      → (t : Session) × (run reply s (all_taking ns) ≡ done t)
        × (is_empty t.client.write_queue ≡ true)
        × (t.world.sent ≡ output s)
  run_drains ns s v h =
      let (t, e, d) = run-Drains ns s v in
      let q = nil_of_length (queued t.client) (omega (arith, d.2)) in
      (
        t,
        e,
        (is_empty_iff t.client.write_queue d.0).1 q,
        sym (append-nil t.world.sent) ∙ ap (◌++◌ t.world.sent) (sym q) ∙ d.1,
      )

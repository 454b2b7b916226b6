-- ===== src/Net/TcpClient/History.antt =====
-- Histories of a connection: any interleaving of `write_data` and events.
use read_mail_really_fast.Prelude.{
  ◌<◌, ◌≡◌, refl, sym, ap, ◌∙◌, List, [], ◌∷◌, ◌++◌, append-nil, append_assoc, Bytes, length,
  if◌then◌else◌, Bool-cases, inl, inr,
}
use read_mail_really_fast.Net.Ioqueue.{size_mod}
use read_mail_really_fast.Net.Ioqueue.Stream.{IsQueue}
use read_mail_really_fast.Net.TcpClient.{
  Bits, Session, Outcome, done, threw, deleted, used_after_free, ◌>>=◌, RecvResult, WriteResult,
  write_data, cb_ev,
}
use read_mail_really_fast.Net.TcpClient.Stream.{
  output, queued, queued-write_data, write_data-IsQueue,
}
use read_mail_really_fast.Net.TcpClient.Events.{
  Settled, WaitsForAll, answers, RepliesFit, Ensures, Ensures-bind, Ensures-done, cb_ev-Ensures,
}

Ensures-weaken :
    (P Q : Session → Type 0) (m : Outcome) → ((t : Session) → P t → Q t) → Ensures P m → Ensures Q m
Ensures-weaken P Q (done t) k p = k t p
Ensures-weaken P Q (threw e t) k p = tt
Ensures-weaken P Q (deleted w) k p = tt
Ensures-weaken P Q (used_after_free w) k p = tt

pub data Call : Type 0 where
  writes : Bytes → Call
  event : Bits → RecvResult → WriteResult → Call

module _ (reply : Bytes → List Bytes) where
  unfoldable pub step : Session → Call → Outcome
  step s (writes text) = done (record s { client = write_data s.client text })
  step s (event ev ra wa) = cb_ev reply s ev ra wa

  unfoldable pub run : Session → List Call → Outcome
  run s [] = done s
  run s (c ∷ cs) = step s c >>= λ t. run t cs

  -- The bytes that a call asks to be sent.
  abbrev pub asked : Call → Bytes
  asked (writes text) = text
  asked (event ev ra wa) = if ev.error then [] else answers reply ev.reads ra

  abbrev pub all_asked : List Call → Bytes
  all_asked [] = []
  all_asked (c ∷ cs) = asked c ++ all_asked cs

  abbrev pub Fits : Call → Type 0
  Fits (writes text) = length text < size_mod
  Fits (event ev ra wa) = RepliesFit reply ra

  abbrev pub AllFits : List Call → Type 0
  AllFits [] = Unit {0}
  AllFits (c ∷ cs) = Fits c × AllFits cs

  -- The queue is sound, and writability is waited for while a byte is queued.
  abbrev pub IsSession : Session → Type 0
  IsSession s = IsQueue s.client.write_queue × WaitsForAll s

  abbrev Next : Bytes → Session → Type 0
  Next out t = IsSession t × (output t ≡ out)

  step-Next :
      (s : Session) (c : Call)
      → Fits c
      → IsSession s
      → Ensures (Next (output s ++ asked c)) (step s c)
  unfolding step
  step-Next s (writes text) f v = (
    (write_data-IsQueue s.client text f v.0, unfold write_data in λ _. refl),
    ap (◌++◌ s.world.sent) (queued-write_data s.client text f v.0)
        ∙ sym (append_assoc s.world.sent (queued s.client) text),
  )
  step-Next s (event ev ra wa) f v = elim (Bool-cases ev.error) [
    | inl x ↦ simp (x, append-nil) (unfold cb_ev in simp x (v, refl))
    | inr x ↦ simp x (
        Ensures-weaken (Settled (output s ++ answers reply ev.reads ra))
          (Next (output s ++ answers reply ev.reads ra)) _ (λ t k. ((k.0, k.2.1), k.1))
          (cb_ev-Ensures reply s ev ra wa f v.0 x))
  ]

  run-Next :
      (s : Session) (cs : List Call)
      → AllFits cs
      → IsSession s
      → Ensures (Next (output s ++ all_asked cs)) (run s cs)
  unfolding run
  run-Next s [] f v = (v, sym (append-nil (output s)))
  run-Next s (c ∷ cs) f v =
      Ensures-bind (Next (output s ++ asked c)) (Next (output s ++ all_asked (c ∷ cs))) (step s c) _
        (step-Next s c f.0 v) (λ t k. rw (← append_assoc) (rw (← k.1) (run-Next t cs f.1 k.0)))

  -- From a session whose queue is sound (records within their buffers, none empty, all below 2 ^ 64
  -- bytes) and whose queued bytes are waited for, over any history of writes and events that
  -- returns, with texts and replies below 2 ^ 64 bytes: the bytes sent and then those queued are
  -- what was sent and queued at the start, followed by all that was asked for since, in order, and
  -- the session is again such a one.
  pub run-output :
      (s : Session) (cs : List Call) {t : Session}
      → AllFits cs
      → IsSession s
      → run s cs ≡ done t
      → IsSession t × (output t ≡ output s ++ all_asked cs)
  run-output s cs f v e = Ensures-done (Next (output s ++ all_asked cs)) _ e (run-Next s cs f v)

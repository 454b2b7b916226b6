-- ===== src/Net/TcpClient/EndOfStream.antt =====
-- The end of the stream, in one event and in a history.
use read_mail_really_fast.Prelude.{
  ◌≡◌, Bool, true, false, not, ◌&&◌, ◌||◌, List, [], ◌∷◌, Bytes, if◌then◌else◌,
}
use read_mail_really_fast.Net.Ioqueue.{Ioqueue}
use read_mail_really_fast.Net.TcpClient.{
  Bits, Session, Outcome, done, threw, deleted, used_after_free, ◌>>=◌, RecvResult, recv_failed,
  received, WriteResult, push_write_queue, update_interest,
}
use read_mail_really_fast.Net.TcpClient.History.{Call, writes, event}

abbrev pub is_used_after_free : Outcome → Bool
is_used_after_free (done t) = false
is_used_after_free (threw e t) = false
is_used_after_free (deleted w) = false
is_used_after_free (used_after_free w) = true

abbrev pub returns : Outcome → Bool
returns (done t) = true
returns (threw e t) = false
returns (deleted w) = false
returns (used_after_free w) = false

-- The event makes the handler read, and the peer has closed.
abbrev pub ends_stream : Bits → RecvResult → Bool
ends_stream ev recv_failed = false
ends_stream ev (received []) = not ev.error && ev.reads
ends_stream ev (received (b ∷ bs)) = false

abbrev pub any_ends : List Call → Bool
any_ends [] = false
any_ends (writes text ∷ cs) = any_ends cs
any_ends (event ev ra wa ∷ cs) = ends_stream ev ra || any_ends cs

-- A deleted object was used, if and only if `b`, and no call is left with one.
abbrev IsUse : Bool → Outcome → Type 0
IsUse b (done t) = b ≡ false
IsUse b (threw e t) = b ≡ false
IsUse b (deleted w) = ⊥
IsUse b (used_after_free w) = b ≡ true

module _ (reply : Bytes → List Bytes) where
  -- What the handler does behind its READ branch.
  behind_read : Bits → WriteResult → Session → Outcome
  behind_read ev wa t =
      (if ev.writes then push_write_queue t wa else done t) >>= λ u. update_interest reply u

  abbrev Agrees : Bool → Outcome → Type 0
  Agrees b m = ((not (is_used_after_free m) || b) ≡ true) × ((not b || not (returns m)) ≡ true)

-- ===== src/App/Evloop/Tests.antt =====
-- The event loop of the daemon on a run that is a function.
use read_mail_really_fast.Prelude.{ℕ, ◌/◌, ◌%◌, ◌≡◌, ap, true, false, [], ◌∷◌, arith, if◌then◌else◌}
use read_mail_really_fast.Prelude.Int.{pos}
use read_mail_really_fast.Net.TcpClient.{Bits, read_bit}
use read_mail_really_fast.App.Evloop.{
  set_flags, io_start, io_stop, StdinWaiter, cb, loop, loop_ends,
}

-- Each active watcher gets one event.
abbrev run_once : (StdinWaiter → Bits → StdinWaiter) → StdinWaiter → StdinWaiter
run_once handler w = if w.e_stdin.active then handler w read_bit else w

run_once-idle : (w : StdinWaiter) → w.e_stdin.active ≡ false → run_once cb w ≡ w
run_once-idle w e = ap (λ b. if b then cb w read_bit else w) e

run_once-served :
    (w : StdinWaiter)
    → w.e_stdin.active ≡ true
    → (events : Bits) × (run_once cb w ≡ run_once cb (cb w events))
unfolding cb
run_once-served w e = (read_bit, ap (λ b. if b then cb w read_bit else w) e)

loop_ends_example :
    (set : ℕ) × ((set / 2048 % 2 ≡ 1)
      × (loop run_once 2048 32770 ≡ record {
        e_stdin = record { fd = pos 0; events = read_bit; active = false };
        calls = set_flags set ∷ io_start ∷ io_stop ∷ io_stop ∷ [];
      }))
loop_ends_example = loop_ends run_once run_once-idle run_once-served 2048 32770 (omega arith)

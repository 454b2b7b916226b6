-- ===== src/App/Evloop.antt =====
-- src/mumta/evloop.cpp: the event loop of the daemon, with its watcher of standard input. The run
-- of libev's loop is an argument. The calls of libev and of `fcntl` that change something are a
-- list, in order; that `fcntl` fails is left out.
mod Tests
use read_mail_really_fast.Prelude.{
  ℕ, ◌+◌, ◌/◌, ◌%◌, ◌<◌, ◌≡◌, refl, ap, ◌∙◌, Bool, true, false, List, [], ◌∷◌, ◌++◌, arith, ◌==◌,
  if◌then◌else◌,
}
use native.Mathlib.Nat.{add-div_right}
use read_mail_really_fast.Prelude.Int.{pos}
use read_mail_really_fast.Net.TcpClient.{Bits, read_bit, Watcher}

pub data Call : Type 0 where
  set_flags : ℕ → Call
  io_start io_stop : Call

-- The watcher, and the calls so far.
pub record StdinWaiter : Type 0 where
  pub e_stdin : Watcher
  pub calls : List Call

abbrev start : StdinWaiter → StdinWaiter
start w = record w {
  e_stdin = record w.e_stdin { active = true };
  calls = w.calls ++ (io_start ∷ []);
}

abbrev pub stop : StdinWaiter → StdinWaiter
stop w = record w {
  e_stdin = record w.e_stdin { active = false };
  calls = w.calls ++ (io_stop ∷ []);
}

-- `flags | bit`, for a flag that is one bit.
unfoldable or_bit : ℕ → ℕ → ℕ
or_bit bit flags = if flags / bit % 2 == 1 then flags else flags + bit

-- `stdin_waiter()`, on the flag O_NONBLOCK and the answer of `fcntl(0, F_GETFL)`.
unfoldable pub stdin_waiter : ℕ → ℕ → StdinWaiter
unfolding or_bit
stdin_waiter o_nonblock flags = start (record {
  e_stdin = record { fd = pos 0; events = read_bit; active = false };
  calls = set_flags (or_bit o_nonblock flags) ∷ [];
})

-- `~stdin_waiter`
unfoldable pub destruct : StdinWaiter → StdinWaiter
destruct w = stop w

unfoldable pub cb : StdinWaiter → Bits → StdinWaiter
cb w events = stop w

-- `rmrf::ev::loop()`: the watcher's last pointer goes at its end.
unfoldable pub loop :
    ((StdinWaiter → Bits → StdinWaiter) → StdinWaiter → StdinWaiter) → ℕ → ℕ → StdinWaiter
unfolding stdin_waiter destruct cb
loop run o_nonblock flags = destruct (run cb (stdin_waiter o_nonblock flags))

chosen :
    (b f : ℕ) (t : Bool)
    → (f / b % 2 == 1) ≡ t
    → (f + b) / b ≡ f / b + 1
    → (if t then f else f + b) / b % 2 ≡ 1
chosen b f true e d = ground arith
chosen b f false e d = ground (arith, d)

or_bit-sets : (b flags : ℕ) → 0 < b → or_bit b flags / b % 2 ≡ 1
unfolding or_bit
or_bit-sets b flags h = chosen b flags (flags / b % 2 == 1) refl (add-div_right flags h)

-- Where libev's run gives back the state once the watcher is not active, and before that runs the
-- handler on some event and goes on, the loop ends after one event, whatever it is: what it does is
-- to set the flags of standard input, start the watcher, stop it in the handler and stop it in the
-- destructor. It leaves the watcher stopped, on descriptor 0 and on input.
pub loop_ends :
    (run : (StdinWaiter → Bits → StdinWaiter) → StdinWaiter → StdinWaiter)
    (idle : (w : StdinWaiter) → w.e_stdin.active ≡ false → run cb w ≡ w)
    (served : (w : StdinWaiter)
      → w.e_stdin.active ≡ true
      → (events : Bits) × (run cb w ≡ run cb (cb w events)))
    (o_nonblock flags : ℕ)
    → 0 < o_nonblock
    → (set : ℕ) × ((set / o_nonblock % 2 ≡ 1)
        × (loop run o_nonblock flags ≡ record {
          e_stdin = record { fd = pos 0; events = read_bit; active = false };
          calls = set_flags set ∷ io_start ∷ io_stop ∷ io_stop ∷ [];
        }))
unfolding loop stdin_waiter destruct cb
loop_ends run idle served o_nonblock flags h =
    let w = stdin_waiter o_nonblock flags in
    let (events, e) = served w refl in
    (
      or_bit o_nonblock flags,
      (or_bit-sets o_nonblock flags h, ap destruct (e ∙ idle (cb w events) refl)),
    )

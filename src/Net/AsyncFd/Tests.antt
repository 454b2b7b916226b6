-- ===== src/Net/AsyncFd/Tests.antt =====
-- The theorems on descriptors at concrete histories.
use read_mail_really_fast.Prelude.{◌≡◌, ◌≤◌, refl, List, [], ◌∷◌, arith}
use read_mail_really_fast.Net.AsyncFd.{
  auto_fd, reset, close, release, destruct, move_construct, move_assign_at,
}
use read_mail_really_fast.Net.AsyncFd.Ownership.{
  Call, constructs, moves, takes, destructs, no_owners, step, run, count, owners, run_owns_once,
}

-- Two descriptors, one moved over the other, then out of it into a new object, and this destroyed.
abbrev history : List Call
history = constructs 3 ∷ constructs 4 ∷ moves 0 1 ∷ takes 0 ∷ destructs 0 ∷ []

run_owns_once_example :
    let o = run no_owners history in
    (count 3 o.closed ≤ 1)
    × (count 3 o.closed ≡ 0 → count 3 o.released ≡ 0 → owners 3 o.slots ≡ 1)
    × (1 ≤ count 3 o.closed → owners 3 o.slots ≡ 0)
unfolding run step auto_fd reset close release destruct move_construct move_assign_at
run_owns_once_example =
    run_owns_once history 3
      (tt, (tt, ((omega arith, omega arith), (omega arith, (omega arith, tt))))) refl

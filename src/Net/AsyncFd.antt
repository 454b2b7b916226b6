-- ===== src/Net/AsyncFd.antt =====
-- src/net/async_fd.hpp. A descriptor is an `int`, negative for none. `close(2)` is an entry of the
-- list `closed`, newest first; its result is not read by the source.
pub mod Ownership
mod Tests
use read_mail_really_fast.Prelude.{ℕ, Bool, true, false, not, List, ◌∷◌, get_or, set, if◌then◌else◌}
use read_mail_really_fast.Prelude.Int.{ℤ, pos, negsuc, eq_ℤ}

-- `null_fd`, as an `int`
unfoldable pub null_fd : ℤ
null_fd = negsuc 0

pub record AutoFd : Type 0 where
  pub fd : ℤ

unfoldable pub auto_fd : ℤ → AutoFd
auto_fd n = record { fd = n }

unfoldable pub get : AutoFd → ℤ
get a = a.fd

-- `_fd >= 0`
abbrev pub is_open : ℤ → Bool
is_open (pos n) = true
is_open (negsuc n) = false

unfoldable pub valid : AutoFd → Bool
valid a = is_open a.fd

-- The number handed out, and the object left behind.
unfoldable pub release : AutoFd → ℤ × AutoFd
release a = (a.fd, record { fd = negsuc 0 })

abbrev close_number : ℤ → List ℕ → List ℕ
close_number (pos n) closed = n ∷ closed
close_number (negsuc n) closed = closed

unfoldable pub close : AutoFd → List ℕ → AutoFd × List ℕ
close a closed =
    if is_open a.fd then (record { fd = negsuc 0 }, close_number a.fd closed) else (a, closed)

unfoldable pub reset : ℤ → AutoFd → List ℕ → AutoFd × List ℕ
unfolding close
reset n a closed =
    let closed' = if is_open a.fd then (close a closed).1 else closed in
    (record { fd = n }, closed')

-- `auto_fd(auto_fd &&)`: the new object and the old one.
unfoldable pub move_construct : AutoFd → AutoFd × AutoFd
unfolding release
move_construct source = (record { fd = (release source).0 }, (release source).1)

-- `operator=(auto_fd &&)`: the target, the source and the closed descriptors.
unfoldable pub move_assign : AutoFd → AutoFd → List ℕ → AutoFd × AutoFd × List ℕ
unfolding release reset
move_assign target source closed =
    let (n, left) = release source in
    let (target', closed') = reset n target closed in (target', left, closed')

-- The same on the objects of a program, which may be one and the same: the source is emptied
-- before the target is looked at.
unfoldable pub move_assign_at : ℕ → ℕ → List AutoFd → List ℕ → List AutoFd × List ℕ
unfolding release reset
move_assign_at i j objects closed =
    let (n, left) = release (get_or objects j (record { fd = negsuc 0 })) in
    let emptied = set objects j left in
    let (target', closed') = reset n (get_or emptied i (record { fd = negsuc 0 })) closed in
    (set emptied i target', closed')

-- `~auto_fd`
unfoldable pub destruct : AutoFd → List ℕ → List ℕ
unfolding reset
destruct a closed = (reset (negsuc 0) a closed).1

unfoldable pub same_fd : AutoFd → AutoFd → Bool
same_fd x y = eq_ℤ x.fd y.fd

unfoldable pub differs : AutoFd → AutoFd → Bool
unfolding same_fd
differs x y = not (same_fd x y)

unfoldable pub is_null : AutoFd → Bool
is_null x = eq_ℤ x.fd (negsuc 0)

unfoldable pub is_not_null : AutoFd → Bool
unfolding is_null
is_not_null x = not (is_null x)

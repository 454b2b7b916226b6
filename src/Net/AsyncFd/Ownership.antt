-- ===== src/Net/AsyncFd/Ownership.antt =====
-- The many `auto_fd` objects of a program, and the histories of calls on them.
use read_mail_really_fast.Prelude.{
  ℕ, zero, suc, ◌+◌, ◌≤◌, ◌<◌, ◌≡◌, refl, ap, List, [], ◌∷◌, arith, length, get_or, set, ◌==◌,
  if◌then◌else◌,
}
use read_mail_really_fast.Prelude.Int.{ℤ, pos, negsuc}
use read_mail_really_fast.Net.AsyncFd.{
  AutoFd, auto_fd, null_fd, release, close, reset, move_construct, move_assign, move_assign_at,
  destruct,
}

-- The objects of a program, and the descriptors closed, handed out by `release`, and opened.
pub record Owners : Type 0 where
  pub slots : List AutoFd
  pub closed : List ℕ
  pub released : List ℕ
  pub opened : List ℕ

pub data Call : Type 0 where
  constructs takes : ℕ → Call
  constructs_null : Call
  resets : ℕ → ℕ → Call
  clears closes releases destructs : ℕ → Call
  moves : ℕ → ℕ → Call

abbrev no_fd : AutoFd
no_fd = record { fd = negsuc 0 }

abbrev slot : Owners → ℕ → AutoFd
slot o i = get_or o.slots i no_fd

abbrev number : ℤ → List ℕ → List ℕ
number (pos n) ns = n ∷ ns
number (negsuc n) ns = ns

-- Each call names objects by their places; a destructed object's place holds none from then on.
-- The numbers that come in are those that the kernel has just opened. `takes` constructs an object
-- by moving from the one named.
unfoldable pub step : Owners → Call → Owners
step o (constructs n) = record o { slots = auto_fd (pos n) ∷ o.slots; opened = n ∷ o.opened }
step o constructs_null = record o { slots = auto_fd null_fd ∷ o.slots }
step o (takes j) =
    let (made, left) = move_construct (slot o j) in record o { slots = made ∷ set o.slots j left }
step o (resets i n) =
    let (a, closed') = reset (pos n) (slot o i) o.closed in
    record o { slots = set o.slots i a; closed = closed'; opened = n ∷ o.opened }
step o (clears i) =
    let (a, closed') = reset (negsuc 0) (slot o i) o.closed in
    record o { slots = set o.slots i a; closed = closed' }
step o (closes i) =
    let (a, closed') = close (slot o i) o.closed in
    record o { slots = set o.slots i a; closed = closed' }
step o (releases i) =
    let (n, a) = release (slot o i) in
    record o { slots = set o.slots i a; released = number n o.released }
step o (destructs i) = record o {
  slots = set o.slots i no_fd;
  closed = destruct (slot o i) o.closed;
}
step o (moves i j) =
    let (slots', closed') = move_assign_at i j o.slots o.closed in
    record o { slots = slots'; closed = closed' }

-- The call names objects that there are.
abbrev pub Names : ℕ → Call → Type 0
Names n (constructs k) = Unit {0}
Names n constructs_null = Unit {0}
Names n (takes j) = j < n
Names n (resets i k) = i < n
Names n (clears i) = i < n
Names n (closes i) = i < n
Names n (releases i) = i < n
Names n (destructs i) = i < n
Names n (moves i j) = (i < n) × (j < n)

abbrev pub is_number : ℕ → ℤ → ℕ
is_number n (pos k) = if k == n then 1 else 0
is_number n (negsuc k) = 0

abbrev pub count : ℕ → List ℕ → ℕ
count n [] = 0
count n (k ∷ ks) = is_number n (pos k) + count n ks

abbrev pub owners : ℕ → List AutoFd → ℕ
owners n [] = 0
owners n (a ∷ xs) = is_number n a.fd + owners n xs

owners-set :
    (n : ℕ) (xs : List AutoFd) (i : ℕ) (a : AutoFd)
    → i < length xs
    → owners n (set xs i a) + is_number n (get_or xs i no_fd).fd ≡ owners n xs + is_number n a.fd
owners-set n [] i a h = absurd (omega arith)
owners-set n (x ∷ xs) zero a h = omega arith
owners-set n (x ∷ xs) (suc i) a h = omega (arith, owners-set n xs i a (omega arith))

length-set : (xs : List AutoFd) (i : ℕ) (a : AutoFd) → length (set xs i a) ≡ length xs
length-set [] i a = refl
length-set (x ∷ xs) zero a = refl
length-set (x ∷ xs) (suc i) a = ap suc (length-set xs i a)

-- Every opened descriptor is owned, closed or handed out, and that as often as it was opened.
abbrev pub Balanced : Owners → Type 0
Balanced o = (n : ℕ) → owners n o.slots + count n o.closed + count n o.released ≡ count n o.opened

count-close :
    (n : ℕ) (a : AutoFd) (closed : List ℕ)
    → is_number n (close a closed).0.fd + count n (close a closed).1
      ≡ is_number n a.fd + count n closed
unfolding close
count-close n a closed = ground arith

pub count-reset :
    (n : ℕ) (m : ℤ) (a : AutoFd) (closed : List ℕ)
    → count n (reset m a closed).1 ≡ is_number n a.fd + count n closed
unfolding reset
count-reset n m a closed = ground arith

reset_fd : (m : ℤ) (a : AutoFd) (closed : List ℕ) → (reset m a closed).0.fd ≡ m
unfolding reset
reset_fd m a closed = refl

pub count-destruct :
    (n : ℕ) (a : AutoFd) (closed : List ℕ)
    → count n (destruct a closed) ≡ is_number n a.fd + count n closed
unfolding destruct
count-destruct n a closed = count-reset n (negsuc 0) a closed

-- Move assignment closes what the target held, moves the number and leaves the source empty.
pub move_assign_lem :
    (n : ℕ) (target source : AutoFd) (closed : List ℕ)
    → let (target', left, closed') = move_assign target source closed in
      (target'.fd ≡ source.fd)
      × (left.fd ≡ negsuc 0)
      × (count n closed' ≡ is_number n target.fd + count n closed)
unfolding move_assign release
move_assign_lem n target source closed =
    (reset_fd source.fd target closed, refl, count-reset n source.fd target closed)

count-number : (n : ℕ) (m : ℤ) (ns : List ℕ) → count n (number m ns) ≡ is_number n m + count n ns
count-number n (pos k) ns = omega arith
count-number n (negsuc k) ns = omega arith

update_balance :
    (n : ℕ) (m : ℤ) (i : ℕ) (o : Owners)
    → i < length o.slots
    → let (a, closed') = reset m (slot o i) o.closed in
      owners n (set o.slots i a) + count n closed'
      ≡ owners n o.slots + count n o.closed + is_number n m
update_balance n m i o h = omega (
  arith,
  owners-set n o.slots i (reset m (slot o i) o.closed).0 h,
  ap (is_number n) (reset_fd m (slot o i) o.closed),
  count-reset n m (slot o i) o.closed,
)

owners-move :
    (n i j : ℕ) (xs : List AutoFd) (closed : List ℕ)
    → i < length xs
    → j < length xs
    → let (ys, closed') = move_assign_at i j xs closed in
      owners n ys + count n closed' ≡ owners n xs + count n closed
unfolding move_assign_at release
owners-move n i j xs closed h k =
    let emptied = set xs j no_fd in
    omega (
      arith,
      owners-set n xs j no_fd k,
      owners-set n emptied i (reset (get_or xs j no_fd).fd (get_or emptied i no_fd) closed).0
          (omega (arith, length-set xs j no_fd)),
      count-reset n (get_or xs j no_fd).fd (get_or emptied i no_fd) closed,
      ap (is_number n) (reset_fd (get_or xs j no_fd).fd (get_or emptied i no_fd) closed),
    )

owners-move_construct :
    (n j : ℕ) (xs : List AutoFd)
    → j < length xs
    → let (made, left) = move_construct (get_or xs j no_fd) in
      owners n (made ∷ set xs j left) ≡ owners n xs
unfolding move_construct release
owners-move_construct n j xs h = omega (arith, owners-set n xs j no_fd h)

-- No call that names existing objects loses a descriptor, closes one twice, or leaves one with two
-- owners: if what was opened is owned, closed or handed out as often as it was opened, then it is
-- so after the call.
pub step-Balanced :
    (o : Owners) (c : Call) → Names (length o.slots) c → Balanced o → Balanced (step o c)
unfolding step
step-Balanced o (constructs k) h b n = unfold auto_fd in omega (arith, b n)
step-Balanced o constructs_null h b n = unfold auto_fd in unfold null_fd in omega (arith, b n)
step-Balanced o (takes j) h b n = omega (arith, b n, owners-move_construct n j o.slots h)
step-Balanced o (resets i k) h b n = omega (arith, b n, update_balance n (pos k) i o h)
step-Balanced o (clears i) h b n = omega (arith, b n, update_balance n (negsuc 0) i o h)
step-Balanced o (closes i) h b n = omega (
  arith,
  b n,
  count-close n (slot o i) o.closed,
  owners-set n o.slots i (close (slot o i) o.closed).0 h,
)
step-Balanced o (releases i) h b n =
    unfold release in
    omega (arith, b n, count-number n (slot o i).fd o.released, owners-set n o.slots i no_fd h)
step-Balanced o (destructs i) h b n =
    unfold destruct in
    omega (arith, b n, count-reset n (negsuc 0) (slot o i) o.closed, owners-set n o.slots i no_fd h)
step-Balanced o (moves i j) h b n = omega (arith, b n, owners-move n i j o.slots o.closed h.0 h.1)

unfoldable pub run : Owners → List Call → Owners
run o [] = o
run o (c ∷ cs) = run (step o c) cs

abbrev pub AllName : Owners → List Call → Type 0
AllName o [] = Unit {0}
AllName o (c ∷ cs) = Names (length o.slots) c × AllName (step o c) cs

run-Balanced : (o : Owners) (cs : List Call) → AllName o cs → Balanced o → Balanced (run o cs)
unfolding run
run-Balanced o [] h b = b
run-Balanced o (c ∷ cs) h b = run-Balanced (step o c) cs h.1 (step-Balanced o c h.0 b)

abbrev pub no_owners : Owners
no_owners = record { slots = []; closed = []; released = []; opened = [] }

-- After any history of constructions (from a descriptor just opened, from none, and by moving),
-- resets (to such a descriptor or to none), closes, releases, move assignments and destructions that
-- name existing objects, a descriptor that was opened once has been closed at most once, has no owner
-- once it was closed, and has exactly one if it was neither closed nor handed out.
pub run_owns_once :
    (cs : List Call) (n : ℕ)
    → AllName no_owners cs
    → count n (run no_owners cs).opened ≡ 1
    → let o = run no_owners cs in
      (count n o.closed ≤ 1)
      × (count n o.closed ≡ 0 → count n o.released ≡ 0 → owners n o.slots ≡ 1)
      × (1 ≤ count n o.closed → owners n o.slots ≡ 0)
run_owns_once cs n h e =
    let b = run-Balanced no_owners cs h (λ k. refl) n in
    (omega arith, (λ c r. omega arith), (λ c. omega arith))

-- ===== src/Net/Address/Inet6/Shift.antt =====
-- `rshift_array`: what the shortener's shift does to the components.
use read_mail_really_fast.Prelude.{
  ℕ, zero, suc, ◌+◌, ◌-◌, ◌≤◌, ◌<◌, ◌≡◌, refl, ap, ◌∙◌, false, ◌&&◌, List, [], ◌∷◌, arith, length,
  get_or, set, ltb, if◌then◌else◌, ◌==◌, leb,
}
use read_mail_really_fast.Net.Address.Inet6.{shift_loop, rshift_array}

pub length-set : (xs : List ℕ) (i v : ℕ) → length (set xs i v) ≡ length xs
length-set [] i v = refl
length-set (x ∷ xs) zero v = refl
length-set (x ∷ xs) (suc i) v = ap suc (length-set xs i v)

get_or-set :
    (xs : List ℕ) (i j v : ℕ)
    → i < length xs
    → get_or (set xs i v) j 0 ≡ (if j == i then v else get_or xs j 0)
get_or-set [] i j v h = absurd (omega arith)
get_or-set (x ∷ xs) zero zero v h = refl
get_or-set (x ∷ xs) zero (suc j) v h = ground arith
get_or-set (x ∷ xs) (suc i) zero v h = ground arith
get_or-set (x ∷ xs) (suc i) (suc j) v h = ground (arith, get_or-set xs i j v (omega arith))

-- One round: the component at `p - shift` moves to `p`.
round_at :
    (a : List ℕ) (p shift j : ℕ)
    → p < length a
    → get_or (set (set a p (get_or a (p - shift) 0)) (p - shift) 0) j 0
      ≡ (if j == p - shift then 0 else if j == p then get_or a (p - shift) 0 else get_or a j 0)
round_at a p shift j h =
    let v = get_or a (p - shift) 0 in
    get_or-set (set a p v) (p - shift) j 0 (omega (arith, length-set a p v))
    ∙ ap (λ r. if j == p - shift then 0 else r) (get_or-set a p j v h)

-- The component at `j` once those from `lo` to `p` have been moved up by `shift`.
abbrev pub moved : List ℕ → ℕ → ℕ → ℕ → ℕ → ℕ
moved a lo p shift j =
    if leb lo j && leb j p
    then get_or a (j - shift) 0
    else if leb lo (j + shift) && leb (j + shift) p
    then 0
    else get_or a j 0

moved_inside :
    (a : List ℕ) (lo p shift j : ℕ) → lo ≤ j → j ≤ p → moved a lo p shift j ≡ get_or a (j - shift) 0
moved_inside a lo p shift j h k = ground arith

shift_loop-moved :
    (n p shift lo : ℕ) (a : List ℕ) (j : ℕ)
    → p < length a
    → lo + n ≡ p + 1
    → shift ≤ lo
    → 0 < shift
    → get_or (shift_loop n p shift a) j 0 ≡ moved a lo p shift j
unfolding shift_loop
shift_loop-moved zero p shift lo a j h e k s = ground arith
shift_loop-moved (suc n) p shift lo a j h e k s =
    let a1 = set (set a p (get_or a (p - shift) 0)) (p - shift) 0 in
    let l : length a1 ≡ length a = length-set _ (p - shift) 0 ∙ length-set a p _ in
    shift_loop-moved n (p - 1) shift lo a1 j (omega arith) (omega arith) k s
    ∙ one_more a a1 (round_at a p shift j h) (round_at a p shift (j - shift) h)
  where
    one_more :
        (a a1 : List ℕ)
        → get_or a1 j 0
          ≡ (if j == p - shift then 0 else if j == p then get_or a (p - shift) 0 else get_or a j 0)
        → get_or a1 (j - shift) 0 ≡ (
            if j - shift == p - shift
            then 0
            else if j - shift == p
            then get_or a (p - shift) 0
            else get_or a (j - shift) 0)
        → moved a1 lo (p - 1) shift j ≡ moved a lo p shift j
    one_more a a1 x y = ground arith

shift_loop-zero :
    (n p lo : ℕ) (a : List ℕ) (j : ℕ)
    → p < length a
    → lo + n ≡ p + 1
    → get_or (shift_loop n p 0 a) j 0 ≡ (if leb lo j && leb j p then 0 else get_or a j 0)
unfolding shift_loop
shift_loop-zero zero p lo a j h e = ground arith
shift_loop-zero (suc zero) p lo a j h e = round_at a p 0 j h ∙ ground arith
shift_loop-zero (suc (suc n)) p lo a j h e =
    let a1 = set (set a p (get_or a (p - 0) 0)) (p - 0) 0 in
    let l : length a1 ≡ length a = length-set _ (p - 0) 0 ∙ length-set a p _ in
    let x = round_at a p 0 j h in
    shift_loop-zero (suc n) (p - 1) lo a1 j (omega arith) (omega arith) ∙ ground arith

-- For a shift that is not 0 and a start in the array that the shift keeps in it, `rshift_array`
-- moves the components from the start on up by the shift, and leaves zeros at the places that were
-- left and not filled again.
pub rshift_array-moved :
    (a : List ℕ) (start shift j : ℕ)
    → 0 < shift
    → start + shift ≤ length a
    → start < length a
    → get_or (rshift_array a start shift) j 0 ≡ moved a (start + shift) (length a - 1) shift j
unfolding rshift_array
rshift_array-moved a start shift j s h k =
    let inside : ltb (length a - 1) start ≡ false = ground arith in
    rw inside (
      shift_loop-moved (length a - (start + shift)) (length a - 1) shift (start + shift) a j
        (omega arith) (omega arith) (omega arith) s)

-- A shift of 0 clears the components from `start` on.
pub rshift_array_zero_shift :
    (a : List ℕ) (start j : ℕ)
    → start < length a
    → get_or (rshift_array a start 0) j 0
      ≡ (if leb start j && leb j (length a - 1) then 0 else get_or a j 0)
unfolding rshift_array
rshift_array_zero_shift a start j h =
    let inside : ltb (length a - 1) start ≡ false = ground arith in
    rw inside (
      shift_loop-zero (length a - (start + 0)) (length a - 1) start a j (omega arith) (omega arith))

-- ===== src/Net/Address/Inet6/Layout.antt =====
-- The components that the IPv6 parser's loop leaves, and what the shortener's shift makes of them.
use read_mail_really_fast.Prelude.{
  ℕ, zero, suc, ◌+◌, ◌-◌, ◌<◌, ◌≡◌, refl, sym, ap, ◌∙◌, List, [], ◌∷◌, ◌++◌, arith, length,
  length-append, length-replicate, append_assoc, get_or, set, replicate, ltb, leb, if◌then◌else◌,
}
use read_mail_really_fast.Net.Address.Chars.Positions.{get_or_past}
use read_mail_really_fast.Net.Address.Inet6.{rshift_array, shift_loop}
use read_mail_really_fast.Net.Address.Inet6.Groups.{put, put-append}
use read_mail_really_fast.Net.Address.Inet6.Shift.{
  rshift_array_zero_shift, length-set, rshift_array-moved,
}

abbrev pub zeros : ℕ → List ℕ
zeros n = replicate n 0

pub length-zeros : (n : ℕ) → length (zeros n) ≡ n
length-zeros n = length-replicate n 0

list_ext :
    (xs ys : List ℕ)
    → length xs ≡ length ys
    → ((j : ℕ) → j < length xs → get_or xs j 0 ≡ get_or ys j 0)
    → xs ≡ ys
list_ext [] [] n h = refl
list_ext [] (y ∷ ys) n h = absurd (omega arith)
list_ext (x ∷ xs) [] n h = absurd (omega arith)
list_ext (x ∷ xs) (y ∷ ys) n h =
    let head = h 0 (omega arith) in
    let tail = list_ext xs ys (omega arith) (λ j k. h (suc j) (omega arith)) in cc

get_or-append_if :
    (xs ys : List ℕ) (j : ℕ)
    → get_or (xs ++ ys) j 0
      ≡ (if ltb j (length xs) then get_or xs j 0 else get_or ys (j - length xs) 0)
get_or-append_if [] ys j = ground arith
get_or-append_if (x ∷ xs) ys zero = ground arith
get_or-append_if (x ∷ xs) ys (suc j) = ground (arith, get_or-append_if xs ys j)

get_or-zero_cons :
    (xs : List ℕ) (j : ℕ) → get_or (0 ∷ xs) j 0 ≡ (if leb j 0 then 0 else get_or xs (j - 1) 0)
get_or-zero_cons xs zero = refl
get_or-zero_cons xs (suc j) = ground arith

get_or-zeros : (n j : ℕ) → ◌≡◌ {A = ℕ} (get_or (zeros n) j 0) 0
get_or-zeros zero j = refl
get_or-zeros (suc n) zero = refl
get_or-zeros (suc n) (suc j) = get_or-zeros n j

pub zeros-add : (m n : ℕ) → zeros (m + n) ≡ zeros m ++ zeros n
zeros-add zero n = ap (λ k. zeros k) (let e : 0 + n ≡ n = omega arith in e)
zeros-add (suc m) n =
    ap (λ k. zeros k) (let e : suc m + n ≡ suc (m + n) = omega arith in e)
    ∙ ap (◌∷◌ 0) (zeros-add m n)

length-shift_loop : (n p shift : ℕ) (a : List ℕ) → length (shift_loop n p shift a) ≡ length a
unfolding shift_loop
length-shift_loop zero p shift a = refl
length-shift_loop (suc n) p shift a =
    length-shift_loop n (p - 1) shift (set (set a p (get_or a (p - shift) 0)) (p - shift) 0)
    ∙ length-set (set a p (get_or a (p - shift) 0)) (p - shift) 0
    ∙ length-set a p (get_or a (p - shift) 0)

length-rshift_array :
    (a : List ℕ) (start shift : ℕ) → length (rshift_array a start shift) ≡ length a
unfolding rshift_array
length-rshift_array a start shift =
    ground (arith, length-shift_loop (length a - (start + shift)) (length a - 1) shift a)

-- Values put into cleared components in a row.
put-zeros :
    (front back : List ℕ) (n : ℕ)
    → put (length front + 1) back (put 0 front (zeros (length front + suc (length back + n))))
      ≡ front ++ (0 ∷ (back ++ zeros n))
put-zeros front back n =
    let a = length front in
    let b = length back in
    ap (λ c. put (a + 1) back (put 0 front c)) (zeros-add a (suc (b + n)))
    ∙ ap (put (a + 1) back)
        (put-append [] front (zeros a) (replicate (suc (b + n)) 0) 0 refl (length-zeros a))
    ∙ ap (λ c. put (a + 1) back (front ++ (0 ∷ c))) (zeros-add b n)
    ∙ ap (put (a + 1) back) (sym (append_assoc front (0 ∷ []) (zeros b ++ zeros n)))
    ∙ put-append (front ++ (0 ∷ [])) back (zeros b) (zeros n) (a + 1)
        (omega (arith, length-append front (0 ∷ []))) (length-zeros b)
    ∙ append_assoc front (0 ∷ []) (back ++ zeros n)

pub put-zeros_at :
    (front back : List ℕ) (n i j : ℕ)
    → i ≡ length front + 1
    → j ≡ length front + suc (length back + n)
    → put i back (put 0 front (zeros j)) ≡ front ++ (0 ∷ (back ++ zeros n))
put-zeros_at front back n i j h k = rw (h, k) (put-zeros front back n)

module _ (front back : List ℕ) (n : ℕ) where
  abbrev pub before : List ℕ
  before = front ++ (0 ∷ (back ++ zeros n))

  abbrev pub after : List ℕ
  after = front ++ (zeros (n + 1) ++ back)

  length-before : length before ≡ length front + 1 + length back + n
  length-before = omega (
    arith,
    length-append front (0 ∷ (back ++ zeros n)),
    length-append back (zeros n),
    length-zeros n,
  )

  length-after : length after ≡ length front + 1 + length back + n
  length-after = omega (
    arith,
    length-append front (zeros (n + 1) ++ back),
    length-append (zeros (n + 1)) back,
    length-zeros (n + 1),
  )

  abbrev slot : ℕ → ℕ
  slot j = if ltb j (length front + 1) then 0 else get_or back (j - (length front + 1)) 0

  get_or-before :
      (j : ℕ) → get_or before j 0 ≡ (if ltb j (length front) then get_or front j 0 else slot j)
  get_or-before j = ground (
    arith,
    get_or-append_if front (0 ∷ (back ++ zeros n)) j,
    get_or-zero_cons (back ++ zeros n) (j - length front),
    get_or_past back (j - length front - 1),
    get_or-append_if back (zeros n) (j - length front - 1),
    get_or-zeros n (j - length front - 1 - length back),
  )

  get_or-after :
      (j : ℕ)
      → get_or after j 0 ≡ (
          if ltb j (length front)
          then get_or front j 0
          else if ltb j (length front + n + 1)
          then 0
          else get_or back (j - (length front + n + 1)) 0)
  get_or-after j = ground (
    arith,
    get_or-append_if front (zeros (n + 1) ++ back) j,
    get_or-append_if (zeros (n + 1)) back (j - length front),
    length-zeros (n + 1),
    get_or-zeros (n + 1) (j - length front),
  )

  -- The shift opens the gap that the shortener stands for.
  pub rshift_array-opens : 0 < n → rshift_array before (length front) n ≡ after
  rshift_array-opens h =
      list_ext _ after
        (length-rshift_array before (length front) n ∙ length-before ∙ sym length-after)
        λ j k.
          let moves =
            rshift_array-moved before (length front) n j h (omega (arith, length-before))
              (omega (arith, length-before)) in
          let size = length-rshift_array before (length front) n in
          moves
          ∙ ground (
            arith,
            length-before,
            get_or-before (j - n),
            get_or-before j,
            get_or-after j,
            get_or_past back (j - (length front + 1)),
          )

-- Values put into the cleared components behind a row.
pub put-before :
    (front back vs : List ℕ) (n i : ℕ)
    → i ≡ length front + 1 + length back
    → put i vs (before front back (length vs + n)) ≡ before front (back ++ vs) n
put-before front back vs n i h =
    let row = front ++ (0 ∷ back) in
    ap (λ c. put i vs (front ++ (0 ∷ (back ++ c)))) (zeros-add (length vs) n)
    ∙ ap (put i vs) (sym (append_assoc front (0 ∷ back) (zeros (length vs) ++ zeros n)))
    ∙ put-append row vs (zeros (length vs)) (zeros n) i
        (omega (arith, length-append front (0 ∷ back))) (length-zeros (length vs))
    ∙ append_assoc front (0 ∷ back) (vs ++ zeros n)
    ∙ ap (λ c. front ++ (0 ∷ c)) (sym (append_assoc back vs (zeros n)))

-- A shift by 0 clears what it starts at, and all behind.
pub rshift_array_clears :
    (front back : List ℕ)
    → 0 < length back
    → rshift_array (front ++ back) (length front) 0 ≡ front ++ zeros (length back)
rshift_array_clears front back h =
    let n = length-append front back in
    let k = length-append front (zeros (length back)) in
    let z = length-zeros (length back) in
    list_ext _ (front ++ zeros (length back))
      (length-rshift_array (front ++ back) (length front) 0 ∙ omega arith)
      λ j l.
        let size = length-rshift_array (front ++ back) (length front) 0 in
        rshift_array_zero_shift (front ++ back) (length front) j (omega arith)
        ∙ ground (
          arith,
          get_or-append_if front back j,
          get_or-append_if front (zeros (length back)) j,
          get_or-zeros (length back) (j - length front),
        )

-- ===== src/Net/Address/Chars/Positions.antt =====
-- Where the searches of address.hpp find a byte in a text that is put together of parts.
use read_mail_really_fast.Prelude.{
  ℕ, zero, suc, ◌+◌, ◌≤◌, ◌<◌, ◌≡◌, refl, sym, ap, ◌∙◌, true, false, [], ◌∷◌, ◌++◌, arith, Bytes,
  length, length-append, append-nil, get_or, drop, ◌==◌,
}
pub use read_mail_really_fast.Prelude.{lacks, lacks-append}
use read_mail_really_fast.Prelude.Int.{pos, negsuc}
use read_mail_really_fast.Net.Address.Chars.{rfind_from, rfind_chr, char_at}

pub get_or-append : (xs ys : Bytes) (k : ℕ) → get_or (xs ++ ys) (length xs + k) 0 ≡ get_or ys k 0
get_or-append [] ys k = ap (λ j. get_or ys j 0) (let e : 0 + k ≡ k = omega arith in e)
get_or-append (x ∷ xs) ys k =
    ap (λ j. get_or (x ∷ (xs ++ ys)) j 0)
      (let e : suc (length xs) + k ≡ suc (length xs + k) = omega arith in e)
    ∙ get_or-append xs ys k

pub drop-append : (xs ys : Bytes) → drop (length xs) (xs ++ ys) ≡ ys
drop-append [] ys = refl
drop-append (x ∷ xs) ys = drop-append xs ys

-- A byte that the text lacks stands nowhere in it.
lacks_at :
    (c : ℕ) (xs ys : Bytes) (k : ℕ)
    → lacks c xs ≡ true
    → k < length xs
    → (get_or (xs ++ ys) k 0 == c) ≡ false
lacks_at c [] ys k h l = absurd (omega arith)
lacks_at c (x ∷ xs) ys zero h l = ground arith
lacks_at c (x ∷ xs) ys (suc k) h l = lacks_at c xs ys k (ground arith) (omega arith)

pub get_or_past : (xs : Bytes) (k : ℕ) → length xs ≤ k → get_or xs k 0 ≡ 0
get_or_past [] k h = refl
get_or_past (x ∷ xs) zero h = absurd (omega arith)
get_or_past (x ∷ xs) (suc k) h = get_or_past xs k (omega arith)

rfind_from_here : (str : Bytes) (i c : ℕ) → (char_at str i == c) ≡ true → rfind_from str i c ≡ pos i
unfolding rfind_from
rfind_from_here str zero c h = rw h
rfind_from_here str (suc i) c h = rw h

rfind_from_before :
    (str : Bytes) (i c : ℕ)
    → (char_at str (suc i) == c) ≡ false
    → rfind_from str (suc i) c ≡ rfind_from str i c
unfolding rfind_from
rfind_from_before str i c h = rw h

-- Searching back from `k` bytes behind a separator, over bytes that are none, finds it.
rfind_from_found :
    (c : ℕ) (xs t rest : Bytes) (k i : ℕ)
    → lacks c t ≡ true
    → k ≤ length t
    → i ≡ length xs + k
    → rfind_from (xs ++ (c ∷ (t ++ rest))) i c ≡ pos (length xs)
rfind_from_found c xs t rest zero i h l e =
    let str = xs ++ (c ∷ (t ++ rest)) in
    let e' : i ≡ length xs = omega arith in
    let e'' : length xs ≡ length xs + 0 = omega arith in
    let here : char_at str (length xs) ≡ c =
      ap (char_at str) e'' ∙ get_or-append xs (c ∷ (t ++ rest)) 0 in
    rw e' (rfind_from_here str (length xs) c (ground arith))
rfind_from_found c xs t rest (suc k) zero h l e = absurd (omega arith)
rfind_from_found c xs t rest (suc k) (suc i) h l e =
    let at = get_or-append xs (c ∷ (t ++ rest)) (suc k) in
    rfind_from_before _ i c (rw (e, at) (lacks_at c t rest k h (omega arith)))
    ∙ rfind_from_found c xs t rest k i h (omega arith) (omega arith)

rfind_from_none :
    (c : ℕ) (t rest : Bytes) (i : ℕ)
    → lacks c t ≡ true
    → i < length t
    → rfind_from (t ++ rest) i c ≡ negsuc 0
unfolding rfind_from
rfind_from_none c t rest zero h l = rw (lacks_at c t rest zero h l)
rfind_from_none c t rest (suc i) h l =
    rfind_from_before (t ++ rest) i c (lacks_at c t rest (suc i) h l)
    ∙ rfind_from_none c t rest i h (omega arith)

-- The search from the final NUL on finds the last separator.
pub rfind_chr_end :
    (c : ℕ) (xs t : Bytes)
    → lacks c t ≡ true
    → (0 == c) ≡ false
    → rfind_chr (xs ++ (c ∷ t)) (pos (length (xs ++ (c ∷ t)))) c ≡ pos (length xs)
unfolding rfind_chr
rfind_chr_end c xs t h z =
    let str = xs ++ (c ∷ t) in
    let n : length str ≡ suc (length xs + length t) = omega (arith, length-append xs (c ∷ t)) in
    let past : char_at str (length str) ≡ 0 = get_or_past str (length str) (omega arith) in
    let miss : (char_at str (length str) == c) ≡ false = rw past z in
    rw n (
      rfind_from_before str (length xs + length t) c (ap (λ k. char_at str k == c) (sym n) ∙ miss)
      ∙ ap (λ r. rfind_from (xs ++ (c ∷ r)) (length xs + length t) c) (sym (append-nil t))
      ∙ rfind_from_found c xs t [] (length t) _ h (omega arith) refl)

-- The search from before a separator finds the one before it.
pub rfind_chr_found :
    (c : ℕ) (xs t rest : Bytes) (i : ℕ)
    → lacks c t ≡ true
    → i ≡ length xs + length t
    → rfind_chr (xs ++ (c ∷ (t ++ rest))) (pos i) c ≡ pos (length xs)
unfolding rfind_chr
rfind_chr_found c xs t rest i h e = rfind_from_found c xs t rest (length t) i h (omega arith) e

pub rfind_chr_none :
    (c : ℕ) (t rest : Bytes) (i : ℕ)
    → lacks c t ≡ true
    → i < length t
    → rfind_chr (t ++ rest) (pos i) c ≡ negsuc 0
unfolding rfind_chr
rfind_chr_none c t rest i h l = rfind_from_none c t rest i h l

-- A text that lacks the byte is searched in vain, from its final NUL on too.
pub rfind_chr-lacks :
    (c : ℕ) (t : Bytes)
    → lacks c t ≡ true
    → (0 == c) ≡ false
    → rfind_chr t (pos (length t)) c ≡ negsuc 0
unfolding rfind_chr rfind_from
rfind_chr-lacks c [] h z = rw z
rfind_chr-lacks c (x ∷ t) h z =
    let past : char_at (x ∷ t) (suc (length t)) ≡ 0 =
      get_or_past (x ∷ t) (suc (length t)) (omega arith) in
    rfind_from_before (x ∷ t) (length t) c (rw past z)
    ∙ ap (λ s. rfind_from s (length t) c) (sym (append-nil (x ∷ t)))
    ∙ rfind_from_none c (x ∷ t) [] (length t) h (omega arith)

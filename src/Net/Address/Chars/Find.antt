-- ===== src/Net/Address/Chars/Find.antt =====
-- `find_chr` of address.hpp, on the text from its position on.
use read_mail_really_fast.Prelude.{
  ℕ, zero, suc, ◌+◌, ◌-◌, ◌≤◌, ◌<◌, ◌≡◌, ap, ◌∙◌, true, false, [], ◌∷◌, ◌++◌, arith, Bytes, length,
  length-append, length-drop, drop, ◌==◌,
}
use read_mail_really_fast.Prelude.Int.{pos, negsuc}
use read_mail_really_fast.Net.Address.Chars.{find_from, find_chr, char_at}
use read_mail_really_fast.Net.Address.Chars.Positions.{lacks, get_or_past}
use read_mail_really_fast.Net.Address.Component.Token.{get_or-drop}

find_from_found :
    (str t rest : Bytes) (n i c : ℕ)
    → lacks c t ≡ true
    → length t < n
    → drop i str ≡ t ++ (c ∷ rest)
    → find_from n str i c ≡ pos (i + length t)
unfolding find_from
find_from_found str t rest zero i c h l e = absurd (omega (arith, l))
find_from_found str [] rest (suc n) i c h l e =
    let x = (get_or-drop str i c rest e).0 in
    let here : (char_at str i == c) ≡ true = ground arith in rw here (ap pos (omega arith))
find_from_found str (d ∷ t) rest (suc n) i c h l e =
    let (x, y) = get_or-drop str i d (t ++ (c ∷ rest)) e in
    let miss : (char_at str i == c) ≡ false = ground arith in
    rw miss (
      find_from_found str t rest n (i + 1) c (ground arith) (omega (arith, l)) y
      ∙ ap pos (omega arith))

find_from-lacks :
    (str t : Bytes) (n i c : ℕ)
    → lacks c t ≡ true
    → (0 == c) ≡ false
    → i ≤ length str
    → n ≡ length t + 1
    → drop i str ≡ t
    → find_from n str i c ≡ negsuc 0
unfolding find_from
find_from-lacks str t zero i c h z b m e = absurd (omega (arith, m))
find_from-lacks str [] (suc n) i c h z b m e =
    let n' : n ≡ 0 = omega (arith, m) in
    let past : char_at str i ≡ 0 =
      get_or_past str i (omega (arith, length-drop i str, ap length e, b)) in
    let miss : (char_at str i == c) ≡ false = rw past z in rw (miss, n')
find_from-lacks str (d ∷ t) (suc n) i c h z b m e =
    let (x, y) = get_or-drop str i d t e in
    let miss : (char_at str i == c) ≡ false = ground arith in
    rw miss (
      find_from-lacks str t n (i + 1) c (ground arith) z
        (omega (arith, length-drop i str, ap length e, b)) (omega (arith, m)) y)

-- The search finds the byte behind a token that lacks it.
pub find_chr_found :
    (str t rest : Bytes) (i c : ℕ)
    → lacks c t ≡ true
    → drop i str ≡ t ++ (c ∷ rest)
    → find_chr str i c ≡ pos (i + length t)
unfolding find_chr
find_chr_found str t rest i c h e =
    find_from_found str t rest (length str + 1 - i) i c h
      (omega (arith, length-drop i str, ap length e, length-append t (c ∷ rest))) e

pub find_chr-lacks :
    (str t : Bytes) (i c : ℕ)
    → lacks c t ≡ true
    → (0 == c) ≡ false
    → i ≤ length str
    → drop i str ≡ t
    → find_chr str i c ≡ negsuc 0
unfolding find_chr
find_chr-lacks str t i c h z b e =
    find_from-lacks str t (length str + 1 - i) i c h z b
      (omega (arith, length-drop i str, ap length e, b)) e

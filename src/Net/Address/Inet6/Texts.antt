-- ===== src/Net/Address/Inet6/Texts.antt =====
-- The IPv6 parser on the two textual forms of groups of hexadecimal digits.
use read_mail_really_fast.Prelude.{
  ℕ, suc, ◌+◌, ◌*◌, ◌≤◌, ◌≡◌, refl, sym, ap, ◌∙◌, Bool, true, false, not, ◌&&◌, List, [], ◌∷◌,
  arith, Bytes, length, length-append, length-drop, append-nil, drop, ltb, ◌==◌, some, map,
}
use read_mail_really_fast.Net.Address.Chars.{char_at}
use read_mail_really_fast.Net.Address.Chars.Positions.{lacks, lacks-append, get_or_past}
use read_mail_really_fast.Net.Address.Inet6.{
  Scan, start, finish, scan_loop, inet6_aton, inet6_array_to_saddr, bad_ends,
}
use read_mail_really_fast.Net.Address.Inet6.Hexlet.{
  is_hexlet, are_hexlets, hexlet_value, digit-lacks-colon, digits-lacks-dot,
}
use read_mail_really_fast.Net.Address.Inet6.Groups.{
  separated, joined, put-append, scan_loop-Row, joined-Row,
}
use read_mail_really_fast.Net.Address.Inet6.Words.{
  network_order, inet6_array_to_saddr_lem, are_words-hexlets,
}
use read_mail_really_fast.Net.Address.Inet6.Layout.{zeros}

pub length-map : (ts : List Bytes) → length (map hexlet_value ts) ≡ length ts
length-map [] = refl
length-map (t ∷ ts) = ap suc (length-map ts)

separated-lacks :
    (ts : List Bytes) (e : Bytes)
    → are_hexlets ts ≡ true
    → lacks b'.' e ≡ true
    → lacks b'.' (separated ts e) ≡ true
separated-lacks [] e h k = k
separated-lacks (t ∷ ts) e h k =
    lacks-append b'.' t (separated ts e) (digits-lacks-dot t (ground arith))
      (separated-lacks ts e (ground arith) k)

pub joined-lacks :
    (ts : List Bytes) (e : Bytes)
    → are_hexlets ts ≡ true
    → lacks b'.' e ≡ true
    → lacks b'.' (joined ts e) ≡ true
joined-lacks [] e h k = k
joined-lacks (t ∷ ts) e h k =
    lacks-append b'.' t (separated ts e) (digits-lacks-dot t (ground arith))
      (separated-lacks ts e (ground arith) k)

length-separated :
    (ts : List Bytes) (e : Bytes)
    → are_hexlets ts ≡ true
    → (length e + length ts ≤ length (separated ts e))
      × (length (separated ts e) ≤ 5 * length ts + length e)
length-separated [] e h = omega arith
length-separated (t ∷ ts) e h =
    ground (arith, length-append t (separated ts e), length-separated ts e)

pub length-joined :
    (ts : List Bytes) (e : Bytes)
    → are_hexlets ts ≡ true
    → (length e + length ts ≤ length (joined ts e))
      × (length (joined ts e) ≤ 5 * length ts + length e)
length-joined [] e h = omega arith
length-joined (t ∷ ts) e h = ground (arith, length-append t (separated ts e), length-separated ts e)

-- A row of groups begins with a digit.
pub joined-head :
    (t : Bytes) (ts : List Bytes) (e : Bytes)
    → is_hexlet t ≡ true
    → (char_at (joined (t ∷ ts) e) 0 == b':') ≡ false
joined-head [] ts e h = cc
joined-head (c ∷ t) ts e h = digit-lacks-colon c (ground arith)

-- `inet6_aton` with the checks before its loop passed.
pub inet6_aton-loop :
    (be : Bool) (str : Bytes) (s : Scan)
    → 2 ≤ length str
    → (char_at str 0 == b':' && not (char_at str 1 == b':')) ≡ false
    → scan_loop be str 8 0 start ≡ some s
    → s.idx ≡ length str
    → inet6_aton be str ≡ some (inet6_array_to_saddr s.comps)
unfolding inet6_aton finish
inet6_aton-loop be str s n h e k =
    let long : ltb (length str + 1) 3 ≡ false = ground arith in
    let past : char_at str (length str) ≡ 0 = get_or_past str (length str) (omega arith) in
    let ends : bad_ends str ≡ false = ground arith in rw (long, ends, e) (ground arith)

pub scan_loop_over : (be : Bool) (str : Bytes) (i : ℕ) (s : Scan) → scan_loop be str 0 i s ≡ some s
unfolding scan_loop
scan_loop_over be str i s = refl

-- Nothing of the text is left.
pub at_end : (str : Bytes) (k : ℕ) → k ≤ length str → drop k str ≡ [] → k ≡ length str
at_end str k b d = omega (arith, length-drop k str, ap length d)

-- A text of eight groups of one to four hexadecimal digits each, with a colon between any two, is
-- the address whose eight components are the groups' values, in order and each with its high byte
-- first.
pub inet6_aton_groups :
    (be : Bool) (ts : List Bytes)
    → are_hexlets ts ≡ true
    → length ts ≡ 8
    → inet6_aton be (joined ts []) ≡ some (network_order (map hexlet_value ts))
inet6_aton_groups be [] h n = absurd (omega arith)
inet6_aton_groups be (t ∷ ts) h n =
    let str = joined (t ∷ ts) [] in
    let size = length-joined (t ∷ ts) [] h in
    let (k, kb, kd, ke) =
      scan_loop-Row be str (omega arith) (t ∷ ts) str [] 0 0 start
        (joined-Row str (t ∷ ts) [] h refl (joined-lacks (t ∷ ts) [] h refl)) (omega arith) refl in
    let head = joined-head t ts [] (ground arith) in
    let eight : length (t ∷ ts) + 0 ≡ 8 = omega arith in
    let row =
      put-append [] (map hexlet_value (t ∷ ts)) (zeros 8) [] 0 refl
        (omega (arith, length-map ts)) in
    inet6_aton-loop be str _ (omega arith) (ground arith)
      (ap (λ m. scan_loop be str m 0 start) (sym eight) ∙ ke ∙ scan_loop_over be str _ _)
      (at_end str k kb kd)
    ∙ ap (λ c. some (inet6_array_to_saddr c)) (row ∙ append-nil (map hexlet_value (t ∷ ts)))
    ∙ ap some (inet6_array_to_saddr_lem _ (are_words-hexlets (t ∷ ts) h))

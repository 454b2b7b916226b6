-- ===== src/Net/Address/Inet6/Rounds.antt =====
-- One round of the IPv6 parser's loop on any text, at what was read.
use read_mail_really_fast.Prelude.{
  ℕ, ◌+◌, ◌^◌, ◌≤◌, ◌<◌, ◌≡◌, refl, sym, ap, ◌∙◌, Bool, true, false, not, ◌&&◌, ◌||◌, [], ◌∷◌, ◌++◌,
  none, arith, Bytes, length, length-drop, drop, drop-drop, get_or-drop, ltb, ◌==◌, if◌then◌else◌,
  Bool-cases, inl, inr,
}
use read_mail_really_fast.Prelude.Int.{negsuc, to_int}
use read_mail_really_fast.Net.Address.Chars.{hexadecimal, char_at}
use read_mail_really_fast.Net.Address.Component.{parse_inet6_hexlet}
use read_mail_really_fast.Net.Address.Component.Token.{token, parsed, parse_address_component_lem}
use read_mail_really_fast.Net.Address.Inet4.{inet_addr_canonical_at}
use read_mail_really_fast.Net.Address.Inet6.{
  Scan, fails, round, take_component, shorten, store_hexlet, has_shortener, remaining_chars,
}
use read_mail_really_fast.Net.Address.Inet6.Hexlet.{is_hexlet, ends_hexlet}
use read_mail_really_fast.Net.Address.Inet6.Step.{text_left}

-- The token and the text behind it.
pub token-split :
    (r : Bytes)
    → (r ≡ token b':' r ++ drop (length (token b':' r)) r)
      × (ends_hexlet (drop (length (token b':' r)) r) ≡ true)
token-split [] = (refl, refl)
token-split (c ∷ cs) = elim (Bool-cases (c == b':')) [
  | inl e ↦ rw e (refl, e)
  | inr e ↦ rw e (ap (◌∷◌ c) (token-split cs).0, (token-split cs).1)
]

parsed-refused : (t : Bytes) → is_hexlet t ≡ false → parsed hexadecimal 0xffff 4 t ≡ negsuc 0
parsed-refused [] h = refl
parsed-refused (c ∷ t) h = ground arith

module _ (str : Bytes) (short : length str < 2 ^ 64) where
  -- A token that is no hexlet ends the parse.
  hexlet_refused :
      (idx : ℕ) (r : Bytes)
      → idx ≤ length str
      → drop idx str ≡ r
      → is_hexlet (token b':' r) ≡ false
      → parse_inet6_hexlet str idx ≡ negsuc 0
  unfolding parse_inet6_hexlet
  hexlet_refused idx r b d h = ap to_int (
      parse_address_component_lem hexadecimal b':' 0xffff 4 str idx b short
      ∙ ap (λ s. parsed hexadecimal 0xffff 4 (token b':' s)) d
      ∙ parsed-refused (token b':' r) h)

  -- The parser's test for a shortener, on the text that is left.
  shortener_test :
      (idx c : ℕ) (cs : Bytes)
      → idx ≤ length str
      → drop idx str ≡ c ∷ cs
      → (not (ltb (remaining_chars str idx) 2)
          && (char_at str idx == b':' && char_at str (idx + 1) == b':'))
        ≡ (c == b':' && char_at cs 0 == b':')
  shortener_test idx c [] b d =
      let l = length-drop idx str in
      let m = ap length d in
      let few : ltb (remaining_chars str idx) 2 ≡ true = ground arith in
      let other : (c == b':' && 0 == b':') ≡ false = ground arith in rw (few, other) refl
  shortener_test idx c (x ∷ cs) b d =
      let (p, d1) = get_or-drop str idx c (x ∷ cs) d in
      let (q, d2) = get_or-drop str (idx + 1) x cs d1 in
      let l = length-drop idx str in
      let m = ap length d in
      let many : ltb (remaining_chars str idx) 2 ≡ false = ground arith in rw (many, p, q) refl

  pub take_component-group :
      (i c : ℕ) (cs : Bytes) (s : Scan)
      → s.idx ≤ length str
      → drop s.idx str ≡ c ∷ cs
      → (c == b':' && char_at cs 0 == b':') ≡ false
      → is_hexlet (token b':' (c ∷ cs)) ≡ false
      → take_component str i s ≡ fails
  unfolding take_component store_hexlet
  take_component-group i c cs s b d h g =
      rw (shortener_test s.idx c cs b d, h, hexlet_refused s.idx (c ∷ cs) b d g) refl

  -- A second shortener, and one with a third colon, end the parse.
  pub take_component_again :
      (i : ℕ) (r : Bytes) (s : Scan)
      → s.idx ≤ length str
      → drop s.idx str ≡ b':' ∷ b':' ∷ r
      → has_shortener s ≡ true
      → take_component str i s ≡ fails
  unfolding take_component shorten
  take_component_again i r s b d h = rw (shortener_test s.idx b':' (b':' ∷ r) b d, h) refl

  pub take_component_third :
      (i : ℕ) (r : Bytes) (s : Scan)
      → s.idx ≤ length str
      → drop s.idx str ≡ b':' ∷ b':' ∷ r
      → (char_at r 0 == b':') ≡ true
      → has_shortener s ≡ false
      → take_component str i s ≡ fails
  unfolding take_component shorten
  take_component_third i [] s b d t h = absurd (ground arith)
  take_component_third i (x ∷ r) s b d t h =
      let l = length-drop s.idx str in
      let m = ap length d in
      let d2 : drop (s.idx + 2) str ≡ x ∷ r = sym (drop-drop s.idx 2 str) ∙ ap (drop 2) d in
      let z = (get_or-drop str (s.idx + 2) x r d2).0 in
      let many : ltb (remaining_chars str s.idx) 3 ≡ false = ground arith in
      rw (shortener_test s.idx b':' (b':' ∷ x ∷ r) b d, h, many, z, t) refl

  -- No IPv4 address is looked for, or none is found.
  pub round-component :
      (be : Bool) (i c : ℕ) (cs : Bytes) (s : Scan)
      → drop s.idx str ≡ c ∷ cs
      → (if i == 6 || (ltb i 6 && has_shortener s)
          then inet_addr_canonical_at be str s.idx
          else none)
        ≡ none
      → round be str i s ≡ take_component str i s
  unfolding round
  round-component be i c cs s d h =
      let more = text_left str cs s.idx c d in
      elim (Bool-cases (i == 6 || (ltb i 6 && has_shortener s))) [
        | inl e ↦ let a : inet_addr_canonical_at be str s.idx ≡ none = cc in rw (more, e, a) refl
        | inr e ↦ rw (more, e) refl
      ]

-- At the end of the text the parse fails without a shortener.
pub round_ended :
    (be : Bool) (str : Bytes) (i : ℕ) (s : Scan)
    → s.idx ≡ length str
    → has_shortener s ≡ false
    → round be str i s ≡ fails
unfolding round
round_ended be str i s e h =
    let here : (s.idx == length str) ≡ true = ground arith in rw (here, h) refl

-- Two colons stand at the text's start.
pub two_colons :
    (c x : ℕ) (r : Bytes) → (c == b':' && x == b':') ≡ true → c ∷ x ∷ r ≡ b':' ∷ b':' ∷ r
two_colons c x r h =
    let one : c ≡ b':' = ground arith in let two : x ≡ b':' = ground arith in rw (one, two) refl

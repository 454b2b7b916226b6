-- ===== src/Net/Address/Inet6/Step.antt =====
-- One round of the IPv6 parser's loop, on a group of hexadecimal digits and on a shortener.
use read_mail_really_fast.Prelude.{
  ℕ, zero, suc, ◌+◌, ◌%◌, ◌^◌, ◌≤◌, ◌<◌, ◌≡◌, refl, sym, ap, ◌∙◌, Bool, true, false, not, ◌&&◌,
  ◌||◌, [], ◌∷◌, ◌++◌, arith, Bytes, length, length-append, length-drop, append-nil, drop,
  drop-drop, ltb, ◌==◌, if◌then◌else◌, set, none, some, Bool-cases, inl, inr,
}
use read_mail_really_fast.Prelude.Int.{pos}
use read_mail_really_fast.Net.Address.Chars.{hexadecimal, char_at, find_chr}
use read_mail_really_fast.Net.Address.Chars.Find.{find_chr_found, find_chr-lacks}
use read_mail_really_fast.Net.Address.Chars.Positions.{lacks, rfind_chr-lacks, drop-append}
use read_mail_really_fast.Net.Address.Component.Token.{all_digits, get_or-drop}
use read_mail_really_fast.Net.Address.Inet4.Components.{
  canonical, parse_inet_component_canonical_lem,
}
use read_mail_really_fast.Net.Address.Inet4.Places.{inet_addr_canonical_at_refused}
use read_mail_really_fast.Net.Address.Inet4.{inet_addr_canonical_at}
use read_mail_really_fast.Net.Address.Inet6.{
  leaves, embed, Scan, next, take_component, round, store_hexlet, after_hexlet, shorten,
  remaining_chars, has_shortener,
}
use read_mail_really_fast.Net.Address.Inet6.Hexlet.{
  is_hexlet, hexlet_value, hexlet_lt, ends_hexlet, parse_inet6_hexlet_lem, digit-lacks-colon,
  digits-lacks-colon, canonical-colon,
}

-- No dot, no IPv4 address.
pub inet_addr_canonical_at-none :
    (be : Bool) (str : Bytes) (idx : ℕ)
    → lacks b'.' str ≡ true
    → inet_addr_canonical_at be str idx ≡ none
unfolding inet_addr_canonical_at
inet_addr_canonical_at-none be str idx h =
    let before : ltb (0 + 0) (idx + 1 + 1) ≡ true = ground arith in
    rw (rfind_chr-lacks b'.' str h refl) (rw before refl)

-- How many bytes the scan moves on behind a hexlet: past a single separator.
abbrev pub skip : Bytes → ℕ
skip [] = 0
skip (c ∷ []) = 1
skip (c ∷ d ∷ r) = if d == b':' then 0 else 1

pub char_at-drop : (n : ℕ) (xs : Bytes) → char_at xs n ≡ char_at (drop n xs) 0
char_at-drop zero xs = refl
char_at-drop (suc n) [] = refl
char_at-drop (suc n) (x ∷ xs) = char_at-drop n xs

pub text_left :
    (str rest : Bytes) (idx c : ℕ) → drop idx str ≡ c ∷ rest → (idx == length str) ≡ false
text_left str rest idx c d = let l = length-drop idx str in let m = ap length d in ground arith

-- Digits with a colon behind them, no IPv4 address.
pub inet_addr_canonical_at-colon :
    (be : Bool) (str t rest : Bytes) (idx : ℕ)
    → all_digits hexadecimal t ≡ true
    → length str < 2 ^ 64
    → idx ≤ length str
    → drop idx str ≡ t ++ (b':' ∷ rest)
    → inet_addr_canonical_at be str idx ≡ none
inet_addr_canonical_at-colon be str t rest idx h w b d =
    inet_addr_canonical_at_refused be str idx
      (parse_inet_component_canonical_lem str idx b w ∙ ap canonical d ∙ canonical-colon t rest h)

-- The end of the text may be a hexlet only if no dot stands in the text.
abbrev pub is_quiet : Bytes → Bytes → Bool
is_quiet str [] = lacks b'.' str
is_quiet str (c ∷ rest) = c == b':'

pub inet_addr_canonical_at-quiet :
    (be : Bool) (str t rest : Bytes) (idx : ℕ)
    → is_hexlet t ≡ true
    → is_quiet str rest ≡ true
    → length str < 2 ^ 64
    → idx ≤ length str
    → drop idx str ≡ t ++ rest
    → inet_addr_canonical_at be str idx ≡ none
inet_addr_canonical_at-quiet be str t [] idx h q w b d = inet_addr_canonical_at-none be str idx q
inet_addr_canonical_at-quiet be str t (c ∷ rest) idx h q w b d =
    let colon : c ≡ b':' = ground arith in
    inet_addr_canonical_at-colon be str t rest idx (ground arith) w b
      (d ∙ ap (λ k. t ++ (k ∷ rest)) colon)

module _ (str : Bytes) (short : length str < 2 ^ 64) where
  after_hexlet_lem :
      (t rest : Bytes) (idx : ℕ)
      → lacks b':' t ≡ true
      → ends_hexlet rest ≡ true
      → idx ≤ length str
      → drop idx str ≡ t ++ rest
      → after_hexlet str (find_chr str idx b':') ≡ idx + (length t + skip rest)
  unfolding after_hexlet
  after_hexlet_lem t [] idx h e b d =
      rw (find_chr-lacks str t idx b':' h refl b (d ∙ append-nil t))
        (omega (arith, length-drop idx str, ap length d, length-append t []))
  after_hexlet_lem t (c ∷ []) idx h e b d =
      let colon : c ≡ b':' = ground arith in
      let n = length-append t (c ∷ []) in
      let l = length-drop idx str in
      let m = ap length d in
      rw (find_chr_found str t [] idx b':' h (d ∙ ap (λ k. t ++ (k ∷ [])) colon)) (ground arith)
  after_hexlet_lem t (c ∷ x ∷ r) idx h e b d =
      let colon : c ≡ b':' = ground arith in
      let n = length-append t (c ∷ x ∷ r) in
      let l = length-drop idx str in
      let m = ap length d in
      let here : drop (idx + length t) str ≡ c ∷ x ∷ r =
        sym (drop-drop idx (length t) str) ∙ ap (drop (length t)) d ∙ drop-append t (c ∷ x ∷ r) in
      let at_x =
        (get_or-drop str (idx + length t + 1) x r
          (get_or-drop str (idx + length t) c (x ∷ r) here).1).0 in
      rw (find_chr_found str t (x ∷ r) idx b':' h (d ∙ ap (λ k. t ++ (k ∷ x ∷ r)) colon))
        (ground arith)

  -- At a hexlet the scan stores its value and goes on behind it.
  pub take_component-hexlet :
      (t rest : Bytes) (i : ℕ) (s : Scan)
      → is_hexlet t ≡ true
      → ends_hexlet rest ≡ true
      → s.idx ≤ length str
      → drop s.idx str ≡ t ++ rest
      → take_component str i s
        ≡ next (record s {
          comps = set s.comps i (hexlet_value t);
          idx = s.idx + (length t + skip rest);
        })
  unfolding take_component store_hexlet
  take_component-hexlet [] rest i s h e b d = cc
  take_component-hexlet (c ∷ t) rest i s h e b d =
      let x = (get_or-drop str s.idx c (t ++ rest) d).0 in
      let other : (c == b':') ≡ false = ground (arith, digit-lacks-colon c) in
      let l = hexlet_lt (c ∷ t) h in
      let digits : all_digits hexadecimal (c ∷ t) ≡ true = ground arith in
      let v = parse_inet6_hexlet_lem str (c ∷ t) rest s.idx h e b short d in
      let a = after_hexlet_lem (c ∷ t) rest s.idx (digits-lacks-colon (c ∷ t) digits) e b d in
      let same : hexlet_value (c ∷ t) % 2 ^ 16 ≡ hexlet_value (c ∷ t) = omega arith in
      let test : (not (ltb (remaining_chars str s.idx) 2)
            && (char_at str s.idx == b':' && char_at str (s.idx + 1) == b':'))
          ≡ false =
        ground arith in
      rw test (rw (v, same, a) refl)

  -- At the first shortener the scan notes the component and goes on behind it.
  pub take_component-shortener :
      (rest : Bytes) (i : ℕ) (s : Scan)
      → (char_at rest 0 == b':') ≡ false
      → has_shortener s ≡ false
      → s.idx ≤ length str
      → drop s.idx str ≡ b':' ∷ b':' ∷ rest
      → take_component str i s ≡ next (record s { shortener_pos = pos i; idx = s.idx + 2 })
  unfolding take_component shorten
  take_component-shortener rest i s h n b d =
      let (x, d1) = get_or-drop str s.idx b':' (b':' ∷ rest) d in
      let (y, d2) = get_or-drop str (s.idx + 1) b':' rest d1 in
      let l = length-drop s.idx str in
      let m = ap length d in
      let two : (not (ltb (remaining_chars str s.idx) 2)
            && (char_at str s.idx == b':' && char_at str (s.idx + 1) == b':'))
          ≡ true =
        ground arith in
      let e : s.idx + 1 + 1 ≡ s.idx + 2 = omega arith in
      let z =
        char_at-drop (s.idx + 2) str
        ∙ ap (λ k. char_at (drop k str) 0) (sym e)
        ∙ ap (λ r. char_at r 0) d2 in
      let third : (char_at str (s.idx + 2) == b':') ≡ false = rw z h in
      let three : (not (ltb (remaining_chars str s.idx) 3) && char_at str (s.idx + 2) == b':')
          ≡ false =
        ground arith in
      rw (two, n, three) refl

  -- A round takes a component where there is text left and no IPv4 address.
  pub round-take_component :
      (be : Bool) (c : ℕ) (rest : Bytes) (i : ℕ) (s : Scan)
      → inet_addr_canonical_at be str s.idx ≡ none
      → drop s.idx str ≡ c ∷ rest
      → s.idx ≤ length str
      → round be str i s ≡ take_component str i s
  unfolding round
  round-take_component be c rest i s h d b =
      let more = text_left str rest s.idx c d in
      rw (more, h)
        (elim (Bool-cases (i == 6 || (ltb i 6 && has_shortener s))) [
          | inl e ↦ rw e refl
          | inr e ↦ rw e refl
        ])

-- A round that finds an IPv4 address leaves the loop with it.
pub round-embed :
    (be : Bool) (str : Bytes) (i : ℕ) (s : Scan) (v : ℕ)
    → (s.idx == length str) ≡ false
    → (i == 6 || (ltb i 6 && has_shortener s)) ≡ true
    → inet_addr_canonical_at be str s.idx ≡ some v
    → round be str i s ≡ leaves (embed be str i s v)
unfolding round
round-embed be str i s v h t e = rw (h, t, e) refl

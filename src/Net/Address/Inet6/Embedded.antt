-- ===== src/Net/Address/Inet6/Embedded.antt =====
-- The IPv6 parser's last round on an IPv4 address at the end of the text.
use read_mail_really_fast.Prelude.{
  ℕ, ◌+◌, ◌-◌, ◌*◌, ◌/◌, ◌%◌, ◌^◌, ◌≤◌, ◌<◌, ◌≡◌, refl, sym, ap, ◌∙◌, Bool, true, false, ◌&&◌, ◌||◌,
  List, [], ◌∷◌, ◌++◌, arith, Bytes, length, length-append, length-drop, append_assoc, drop, ltb,
  ◌==◌,
}
use read_mail_really_fast.Net.Address.Chars.{host_to_net_32, net_to_host_32, char_at}
use read_mail_really_fast.Net.Address.Chars.Positions.{lacks, lacks-append}
use read_mail_really_fast.Net.Address.Inet4.{inet_addr_canonical_at}
use read_mail_really_fast.Net.Address.Inet4.Components.{dec, length-dec, length-dec-le}
use read_mail_really_fast.Net.Address.Inet4.Places.{dotted}
use read_mail_really_fast.Net.Address.Inet4.Dotted.{length-dotted, inet_addr_canonical_at-dec}
use read_mail_really_fast.Net.Address.Inet6.{
  Scan, leaves, round, embed, has_shortener, shift_from_shortener,
}
use read_mail_really_fast.Net.Address.Inet6.Hexlet.{
  are_hexlets, digits-lacks-dot, digit-lacks-colon,
}
use read_mail_really_fast.Net.Address.Inet6.Groups.{Row, put, separated, joined}
use read_mail_really_fast.Net.Address.Inet6.Words.{are_words}
use read_mail_really_fast.Net.Address.Inet6.Step.{skip, round-embed}

-- Each group with a separator behind it, and the end of the text.
abbrev pub terminated : List Bytes → Bytes → Bytes
terminated [] e = e
terminated (t ∷ ts) e = t ++ (b':' ∷ terminated ts e)

pub terminated-head :
    (ts : List Bytes) (e : Bytes)
    → are_hexlets ts ≡ true
    → (char_at e 0 == b':') ≡ false
    → (char_at (terminated ts e) 0 == b':') ≡ false
terminated-head [] e h k = k
terminated-head ([] ∷ ts) e h k = cc
terminated-head ((c ∷ t) ∷ ts) e h k = digit-lacks-colon c (ground arith)

skip_one : (r : Bytes) → (char_at r 0 == b':') ≡ false → skip (b':' ∷ r) ≡ 1
skip_one [] h = refl
skip_one (c ∷ r) h = rw h refl

pub terminated-Row :
    (str : Bytes) (ts : List Bytes) (e : Bytes)
    → are_hexlets ts ≡ true
    → (char_at e 0 == b':') ≡ false
    → Row str ts (terminated ts e) e
terminated-Row str [] e h k = refl
terminated-Row str (t ∷ ts) e h k =
    let one = skip_one (terminated ts e) (terminated-head ts e (ground arith) k) in
    (
      b':' ∷ terminated ts e,
      ground arith,
      refl,
      refl,
      refl,
      rw one (terminated-Row str ts e (ground arith) k),
    )

pub terminated-append : (ts : List Bytes) (e : Bytes) → terminated ts e ≡ terminated ts [] ++ e
terminated-append [] e = refl
terminated-append (t ∷ ts) e =
    ap (λ r. t ++ (b':' ∷ r)) (terminated-append ts e)
    ∙ sym (append_assoc t (b':' ∷ terminated ts []) e)

separated-append : (ts : List Bytes) (e q : Bytes) → separated ts (e ++ q) ≡ separated ts e ++ q
separated-append [] e q = refl
separated-append (t ∷ ts) e q =
    ap (λ r. b':' ∷ (t ++ r)) (separated-append ts e q)
    ∙ ap (◌∷◌ b':') (sym (append_assoc t (separated ts e) q))

pub joined-append : (ts : List Bytes) (e q : Bytes) → joined ts (e ++ q) ≡ joined ts e ++ q
joined-append [] e q = refl
joined-append (t ∷ ts) e q =
    ap (◌++◌ t) (separated-append ts e q) ∙ sym (append_assoc t (separated ts e) q)

pub terminated-lacks :
    (ts : List Bytes) → are_hexlets ts ≡ true → lacks b'.' (terminated ts []) ≡ true
terminated-lacks [] h = refl
terminated-lacks (t ∷ ts) h =
    lacks-append b'.' t (b':' ∷ terminated ts []) (digits-lacks-dot t (ground arith))
      (terminated-lacks ts (ground arith))

pub length-terminated :
    (ts : List Bytes) → are_hexlets ts ≡ true → length (terminated ts []) ≤ 5 * length ts
length-terminated [] h = omega arith
length-terminated (t ∷ ts) h =
    ground (arith, length-append t (b':' ∷ terminated ts []), length-terminated ts)

not_same : (m n : ℕ) → m < n → (m == n) ≡ false
not_same m n h = ground arith

-- The two conversions are inverse on 32 bits.
pub net_to_host_32-host_to_net_32 :
    (be : Bool) (n : ℕ) → n < 2 ^ 32 → net_to_host_32 be (host_to_net_32 be n) ≡ n
unfolding net_to_host_32 host_to_net_32
net_to_host_32-host_to_net_32 true n h = refl
net_to_host_32-host_to_net_32 false n h = omega arith

-- The dotted decimal text of four numbers, and the two components that they make.
abbrev pub quad : ℕ → ℕ → ℕ → ℕ → Bytes
quad a b c d = dotted (dec a) (dec b) (dec c) (dec d)

abbrev pub halves : ℕ → ℕ → ℕ → ℕ → List ℕ
halves a b c d = (a * 256 + b) ∷ (c * 256 + d) ∷ []

abbrev pub net_order : Bool → ℕ → ℕ → ℕ → ℕ → ℕ
net_order be a b c d = host_to_net_32 be (a * 2 ^ 24 + b * 2 ^ 16 + c * 2 ^ 8 + d)

module _ (a b c d : ℕ) (ha : a < 256) (hb : b < 256) (hc : c < 256) (hd : d < 256) where
  pub length-quad : (4 ≤ length (quad a b c d)) × (length (quad a b c d) ≤ 15)
  length-quad = omega (
    arith,
    length-dotted (dec a) (dec b) (dec c) (dec d),
    length-dec a ha,
    length-dec-le a,
    length-dec-le b,
    length-dec-le c,
    length-dec-le d,
  )

  pub quad-head : (char_at (quad a b c d) 0 == b':') ≡ false
  unfolding dec
  quad-head = ground arith

  pub are_words-halves : are_words (halves a b c d) ≡ true
  are_words-halves = ground arith

module _ (be : Bool) (a b c d : ℕ) (ha : a < 256) (hb : b < 256) (hc : c < 256) (hd : d < 256) where
  -- The round at the address leaves the loop with the address in two components.
  pub round-quad :
      (front str : Bytes) (i : ℕ) (s : Scan)
      → str ≡ front ++ (quad a b c d)
      → lacks b'.' front ≡ true
      → length front < 2 ^ 62
      → s.idx ≤ length str
      → drop s.idx str ≡ (quad a b c d)
      → (i == 6 || (ltb i 6 && has_shortener s)) ≡ true
      → round be str i s ≡ leaves (embed be str i s (net_order be a b c d))
  round-quad front str i s e k f w x t =
      let l = length-drop s.idx str in
      let m = ap length x in
      let n = ap length e in
      let q = length-append front (quad a b c d) in
      let place : s.idx ≡ length front = omega (arith, (length-quad a b c d ha hb hc hd).0) in
      let left : (s.idx == length str) ≡ false =
        not_same s.idx (length str) (omega (arith, (length-quad a b c d ha hb hc hd).0)) in
      round-embed be str i s (net_order be a b c d) left t (
        ap (λ r. inet_addr_canonical_at be r s.idx) e
        ∙ ap (inet_addr_canonical_at be (front ++ (quad a b c d))) place
        ∙ inet_addr_canonical_at-dec be a b c ha hb hc d front hd k f)

  pub embed-quad :
      (str : Bytes) (i : ℕ) (s : Scan)
      → embed be str i s (net_order be a b c d) ≡ record s {
        comps = shift_from_shortener s (put i (halves a b c d) s.comps) (8 - (i + 2));
        idx = length str;
      }
  unfolding embed
  embed-quad str i s =
      let host =
        net_to_host_32-host_to_net_32 be (a * 2 ^ 24 + b * 2 ^ 16 + c * 2 ^ 8 + d) (omega arith) in
      let high : (a * 2 ^ 24 + b * 2 ^ 16 + c * 2 ^ 8 + d) / 2 ^ 16 % 2 ^ 16 ≡ a * 256 + b =
        omega arith in
      let low : (a * 2 ^ 24 + b * 2 ^ 16 + c * 2 ^ 8 + d) % 2 ^ 16 ≡ c * 256 + d = omega arith in
      rw (host, high, low) refl

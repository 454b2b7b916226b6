-- ===== src/Net/Address/Inet6/Mapped.antt =====
-- The IPv6 parser's loop on texts with a shortener that end with an IPv4 address.
use read_mail_really_fast.Prelude.{
  ℕ, suc, ◌+◌, ◌-◌, ◌≤◌, ◌<◌, ◌≡◌, refl, ap, ◌∙◌, Bool, true, false, not, ◌&&◌, ◌||◌, List, [], ◌∷◌,
  ◌++◌, some, arith, Bytes, length, length-append, ltb, ◌==◌, map,
}
use read_mail_really_fast.Prelude.Int.{pos, to_size}
use read_mail_really_fast.Net.Address.Chars.{char_at}
use read_mail_really_fast.Net.Address.Chars.Positions.{lacks}
use read_mail_really_fast.Net.Address.Inet6.{
  Scan, start, scan_loop, has_shortener, shift_from_shortener, rshift_array, inet6_aton,
  inet6_array_to_saddr,
}
use read_mail_really_fast.Net.Address.Inet6.Hexlet.{are_hexlets, hexlet_value}
use read_mail_really_fast.Net.Address.Inet6.Groups.{put, joined, joined-Row, scan_loop-leaves}
use read_mail_really_fast.Net.Address.Inet6.Layout.{before, put-before}
use read_mail_really_fast.Net.Address.Inet6.Texts.{
  length-map, joined-lacks, length-joined, joined-head, inet6_aton-loop,
}
use read_mail_really_fast.Net.Address.Inet6.Embedded.{
  terminated, terminated-head, terminated-Row, terminated-append, joined-append, terminated-lacks,
  length-terminated, quad, halves, length-quad, quad-head, round-quad, embed-quad,
}
use read_mail_really_fast.Net.Address.Inet6.Shortener.{scan_loop-shortener}

-- With one shortener noted, the components from it on are shifted.
pub shift_from_shortener_lem :
    (s : Scan) (comps : List ℕ) (q n : ℕ)
    → s.shortener_pos ≡ pos q
    → q < 8
    → shift_from_shortener s comps n ≡ rshift_array comps q n
unfolding shift_from_shortener
shift_from_shortener_lem s comps q n h l =
    let marked : has_shortener s ≡ true = rw h refl in
    let place : to_size s.shortener_pos ≡ q = ground arith in rw (marked, place) refl

-- The groups `fs`, a shortener, the groups `bs` and the dotted decimal text of the four numbers.
abbrev pub mapped : List Bytes → List Bytes → ℕ → ℕ → ℕ → ℕ → Bytes
mapped fs bs a b c d = joined fs (b':' ∷ b':' ∷ terminated bs (quad a b c d))

module _ (be : Bool) (a b c d : ℕ) (ha : a < 256) (hb : b < 256) (hc : c < 256) (hd : d < 256)
    (fs bs : List Bytes) (fh : are_hexlets fs ≡ true) (bh : are_hexlets bs ≡ true)
    (gap : length fs + length bs ≤ 5) where
  abbrev pub text : Bytes
  text = mapped fs bs a b c d

  abbrev prefix : Bytes
  prefix = joined fs (b':' ∷ b':' ∷ terminated bs [])

  abbrev scanned : ℕ → ℕ → Scan
  scanned m l = record {
    comps = before (map hexlet_value fs) (map hexlet_value bs) m;
    shortener_pos = pos (length fs);
    idx = l;
  }

  text-prefix : text ≡ prefix ++ quad a b c d
  text-prefix =
      ap (λ r. joined fs (b':' ∷ b':' ∷ r)) (terminated-append bs (quad a b c d))
      ∙ joined-append fs (b':' ∷ b':' ∷ terminated bs []) (quad a b c d)

  prefix-lacks : lacks b'.' prefix ≡ true
  prefix-lacks = joined-lacks fs (b':' ∷ b':' ∷ terminated bs []) fh (terminated-lacks bs bh)

  sizes : (2 ≤ length prefix) × (length prefix ≤ 27) × (length text ≤ 42)
  sizes = omega (
    arith,
    length-joined fs (b':' ∷ b':' ∷ terminated bs []) fh,
    length-terminated bs bh,
    ap length text-prefix,
    length-append prefix (quad a b c d),
    length-quad a b c d ha hb hc hd,
  )

  text-head : (char_at text 0 == b':' && not (char_at text 1 == b':')) ≡ false
  text-head = head_of fs fh
    where
      head_of :
          (ts : List Bytes)
          → are_hexlets ts ≡ true
          → (char_at (joined ts (b':' ∷ b':' ∷ terminated bs (quad a b c d))) 0 == b':'
              && not (char_at (joined ts (b':' ∷ b':' ∷ terminated bs (quad a b c d))) 1 == b':'))
            ≡ false
      head_of [] h = refl
      head_of (t ∷ ts) h =
          let n = joined-head t ts (b':' ∷ b':' ∷ terminated bs (quad a b c d)) (ground arith) in
          rw n refl

  -- Behind a shortener an address is looked for up to the seventh component.
  at_address :
      (k : ℕ)
      → length fs + k ≤ 5
      → (length fs + 1 + k == 6 || (ltb (length fs + 1 + k) 6 && true)) ≡ true
  at_address k h = ground arith

  stored :
      (n i : ℕ)
      → i ≡ length fs + 1 + length bs
      → i + 2 + n ≡ 8
      → rshift_array
          (put i
            (halves a b c d)
            (before (map hexlet_value fs) (map hexlet_value bs) (suc (n + 1))))
          (length fs)
          (8 - (i + 2))
        ≡ rshift_array
            (before (map hexlet_value fs) (map hexlet_value bs ++ halves a b c d) n)
            (length fs)
            n
  stored n i e k =
      let va = map hexlet_value fs in
      let vb = map hexlet_value bs in
      let shift : 8 - (i + 2) ≡ n = omega arith in
      ap (λ c. rshift_array c (length fs) (8 - (i + 2)))
        (ap (λ j. put i (halves a b c d) (before va vb j))
            (let x : suc (n + 1) ≡ length (halves a b c d) + n = omega arith in x)
          ∙ put-before va vb (halves a b c d) n i (omega (arith, length-map fs, length-map bs)))
      ∙ ap (rshift_array (before va (vb ++ halves a b c d) n) (length fs)) shift

  -- The loop up to the address and the round that takes it.
  loop_text :
      (n : ℕ)
      → length fs + length bs + n ≡ 5
      → (l : ℕ) × (scan_loop be text 8 0 start
          ≡ some (record {
            comps =
                rshift_array
                  (before (map hexlet_value fs) (map hexlet_value bs ++ halves a b c d) n)
                  (length fs)
                  n;
            shortener_pos = pos (length fs);
            idx = length text;
          }))
  loop_text n e =
      let head = quad-head a b c d ha hb hc hd in
      let i = length fs + 1 + length bs in
      let (l, nb, nd, ne) =
        scan_loop-shortener be text fs bs (terminated bs (quad a b c d)) (quad a b c d)
          (suc (n + 1)) (omega (arith, sizes)) (omega arith)
          (joined-Row text fs (b':' ∷ b':' ∷ terminated bs (quad a b c d)) fh refl refl)
          (terminated-head bs (quad a b c d) bh head)
          (terminated-Row text bs (quad a b c d) bh head) in
      let s = scanned (suc (n + 1)) l in
      let six : (i == 6 || (ltb i 6 && has_shortener s)) ≡ true =
        at_address (length bs) (omega arith) in
      let last =
        round-quad be a b c d ha hb hc hd prefix text i s text-prefix prefix-lacks
          (omega (arith, sizes)) nb nd six in
      (
        l,
        ne
            ∙ scan_loop-leaves be text (n + 1) i s _ last
            ∙ ap some (
                embed-quad be a b c d ha hb hc hd text i s
                ∙ ap (λ k. record { comps = k; shortener_pos = pos (length fs); idx = length text })
                    (shift_from_shortener_lem s (put i (halves a b c d) s.comps) (length fs)
                        (8 - (i + 2)) refl (omega arith)
                      ∙ stored n i refl (omega arith))),
      )

  pub inet6_aton-text :
      (n : ℕ)
      → length fs + length bs + n ≡ 5
      → inet6_aton be text
        ≡ some (
            inet6_array_to_saddr (
              rshift_array
                (before (map hexlet_value fs) (map hexlet_value bs ++ halves a b c d) n)
                (length fs)
                n))
  inet6_aton-text n e =
      inet6_aton-loop be text _
        (omega (arith, sizes, ap length text-prefix, length-append prefix (quad a b c d))) text-head
        (loop_text n e).1 refl

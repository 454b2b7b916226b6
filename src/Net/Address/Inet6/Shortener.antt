-- ===== src/Net/Address/Inet6/Shortener.antt =====
-- The IPv6 parser's loop on a text with a shortener, up to its last round, and that round at the
-- end of the text.
use read_mail_really_fast.Prelude.{
  ℕ, zero, suc, ◌+◌, ◌-◌, ◌^◌, ◌≤◌, ◌<◌, ◌≡◌, refl, sym, ap, ◌∙◌, Bool, true, false, List, [], ◌∷◌,
  ◌++◌, arith, Bytes, length, drop-drop, length-drop, append-nil, drop, ◌==◌, some, map,
}
use read_mail_really_fast.Prelude.Int.{pos, to_size}
use read_mail_really_fast.Net.Address.Chars.{char_at}
use read_mail_really_fast.Net.Address.Inet6.{
  Scan, start, leaves, scan_loop, round, has_shortener, shift_from_shortener,
}
use read_mail_really_fast.Net.Address.Inet6.Hexlet.{hexlet_value}
use read_mail_really_fast.Net.Address.Inet6.Groups.{
  put, Row, scan_loop-Row, scan_loop-next, scan_loop-leaves,
}
use read_mail_really_fast.Net.Address.Inet6.Step.{
  round-take_component, take_component-shortener, inet_addr_canonical_at-colon,
}
use read_mail_really_fast.Net.Address.Inet6.Layout.{before, after, put-zeros_at, rshift_array-opens}
use read_mail_really_fast.Net.Address.Inet6.Texts.{length-map, scan_loop_over}

-- The loop on a row of groups, a shortener and a row of groups.
pub scan_loop-shortener :
    (be : Bool) (str : Bytes) (fs bs : List Bytes) (d e : Bytes) (m : ℕ)
    → length str < 2 ^ 64
    → length fs + suc (length bs + m) ≡ 8
    → Row str fs str (b':' ∷ b':' ∷ d)
    → (char_at d 0 == b':') ≡ false
    → Row str bs d e
    → (l : ℕ) × (l ≤ length str)
      × (drop l str ≡ e)
      × (scan_loop be str 8 0 start
          ≡ scan_loop be str m (length fs + 1 + length bs) (record {
            comps = before (map hexlet_value fs) (map hexlet_value bs) m;
            shortener_pos = pos (length fs);
            idx = l;
          }))
scan_loop-shortener be str fs bs d e m short n fr dh br =
    let va = map hexlet_value fs in
    let vb = map hexlet_value bs in
    let (k, kb, kd, ke) =
      scan_loop-Row be str short fs str (b':' ∷ b':' ∷ d) (suc (length bs + m)) 0 start fr
        (omega arith) refl in
    let s1 : Scan = record start { comps = put 0 va start.comps; idx = k } in
    let s2 : Scan = record s1 { shortener_pos = pos (0 + length fs); idx = k + 2 } in
    let mark =
      round-take_component str short be b':' (b':' ∷ d) (0 + length fs) s1
        (inet_addr_canonical_at-colon be str [] (b':' ∷ d) k refl short kb kd) kd kb
      ∙ take_component-shortener str short d (0 + length fs) s1 dh refl kb kd in
    let behind : drop (k + 2) str ≡ d = sym (drop-drop k 2 str) ∙ ap (drop 2) kd in
    let (l, nb, nd, ne) =
      scan_loop-Row be str short bs d e m (0 + length fs + 1) s2 br
        (omega (arith, length-drop k str, ap length kd)) behind in
    (
      l,
      nb,
      nd,
      ap (λ j. scan_loop be str j 0 start)
            (let x : 8 ≡ length fs + suc (length bs + m) = omega arith in x)
          ∙ ke
          ∙ scan_loop-next be str (length bs + m) (0 + length fs) s1 s2 mark
          ∙ ne
          ∙ tidy l,
    )
  where
    tidy :
        (l : ℕ)
        → scan_loop be str m (0 + length fs + 1 + length bs) (record {
          comps =
              put
                (0 + length fs + 1)
                (map hexlet_value bs)
                (put 0 (map hexlet_value fs) start.comps);
          shortener_pos = pos (0 + length fs);
          idx = l;
        })
          ≡ scan_loop be str m (length fs + 1 + length bs) (record {
            comps = before (map hexlet_value fs) (map hexlet_value bs) m;
            shortener_pos = pos (length fs);
            idx = l;
          })
    tidy l =
        let zero_left : 0 + length fs ≡ length fs = omega arith in
        rw
          (
            put-zeros_at (map hexlet_value fs) (map hexlet_value bs) m (0 + length fs + 1) 8
                (omega (arith, length-map fs)) (omega (arith, length-map fs, length-map bs)),
            zero_left,
          )
          refl

module _ (be : Bool) (str : Bytes) (front back : List ℕ) (s : Scan)
    (shortened : s.shortener_pos ≡ pos (length front)) (ended : s.idx ≡ length str) where
  -- The round at the end of the text opens the gap of the shortener.
  round_at_end :
      (n i : ℕ)
      → s.comps ≡ before front back n
      → i + n ≡ 8
      → 0 < n
      → length front < 8
      → round be str i s ≡ leaves (record s { comps = after front back n })
  unfolding round shift_from_shortener
  round_at_end n i c e p l =
      let here : (s.idx == length str) ≡ true = ground arith in
      let marked : has_shortener s ≡ true = rw shortened refl in
      let shift : 8 - i ≡ n = omega arith in
      let place : to_size s.shortener_pos ≡ length front = ground arith in
      rw (here, marked)
        (ap (λ k. leaves (record s { comps = k }))
          (rw (place, shift, c) (rshift_array-opens front back n p)))

  pub scan_loop_at_end :
      (n i : ℕ)
      → s.comps ≡ before front back n
      → i + n ≡ 8
      → length front < 8
      → scan_loop be str n i s ≡ some (record s { comps = after front back n })
  scan_loop_at_end zero i c e l =
      scan_loop_over be str i s
      ∙ ap (λ k. some (record s { comps = k })) (c ∙ ap (λ r. front ++ (0 ∷ r)) (append-nil back))
  scan_loop_at_end (suc n) i c e l =
      scan_loop-leaves be str n i s _ (round_at_end (suc n) i c e (omega arith) l)

-- ===== src/Net/Address/Inet6/Quads.antt =====
-- The IPv6 parser on the forms of text that end with an IPv4 address.
use read_mail_really_fast.Prelude.{
  ℕ, ◌+◌, ◌-◌, ◌≤◌, ◌<◌, ◌≡◌, refl, sym, ap, ◌∙◌, Bool, true, ◌&&◌, ◌||◌, List, [], ◌∷◌, ◌++◌, some,
  arith, Bytes, length, length-append, append-nil, ltb, ◌==◌, map,
}
use read_mail_really_fast.Net.Address.Inet6.{
  Scan, start, scan_loop, has_shortener, shift_from_shortener, rshift_array, inet6_aton,
  inet6_array_to_saddr,
}
use read_mail_really_fast.Net.Address.Inet6.Hexlet.{are_hexlets, hexlet_value}
use read_mail_really_fast.Net.Address.Inet6.Groups.{
  put, put-append, scan_loop-Row, scan_loop-leaves,
}
use read_mail_really_fast.Net.Address.Inet6.Layout.{
  before, zeros, rshift_array-opens, rshift_array_clears,
}
use read_mail_really_fast.Net.Address.Inet6.Words.{
  network_order, are_words, inet6_array_to_saddr_lem, are_words-append, are_words-hexlets,
  are_words-zeros,
}
use read_mail_really_fast.Net.Address.Inet6.Texts.{length-map, inet6_aton-loop}
use read_mail_really_fast.Net.Address.Inet6.Embedded.{
  terminated, terminated-head, terminated-Row, terminated-append, terminated-lacks,
  length-terminated, quad, halves, length-quad, quad-head, are_words-halves, round-quad, embed-quad,
}
use read_mail_really_fast.Net.Address.Inet6.Mapped.{mapped, inet6_aton-text}

module _ (be : Bool) (a b c d : ℕ) (ha : a < 256) (hb : b < 256) (hc : c < 256) (hd : d < 256)
    (fs bs : List Bytes) (fh : are_hexlets fs ≡ true) (bh : are_hexlets bs ≡ true) where
  opened_words :
      (k : ℕ)
      → are_words (map hexlet_value fs ++ (zeros k ++ (map hexlet_value bs ++ halves a b c d)))
        ≡ true
  opened_words k = are_words-append (map hexlet_value fs) _ (are_words-hexlets fs fh) (
      are_words-append (zeros k) _ (are_words-zeros k) (
        are_words-append (map hexlet_value bs) _ (are_words-hexlets bs bh)
          (are_words-halves a b c d ha hb hc hd)))

  -- Groups of one to four hexadecimal digits, a shortener, more groups, each with a colon behind it,
  -- and the dotted decimal text of four numbers below 256, with at most four groups in all: the
  -- address has the values of the first groups, zeros, the values of the other groups, and the four
  -- numbers as its last four bytes.
  pub inet6_aton-mapped :
      length fs + length bs ≤ 4
      → inet6_aton be (mapped fs bs a b c d)
        ≡ some (
            network_order (
              map hexlet_value fs
              ++ (zeros (6 - (length fs + length bs)) ++ (map hexlet_value bs ++ halves a b c d))))
  inet6_aton-mapped h =
      let va = map hexlet_value fs in
      let vw = map hexlet_value bs ++ halves a b c d in
      let n = 5 - (length fs + length bs) in
      inet6_aton-text be a b c d ha hb hc hd fs bs fh bh (omega arith) n (omega arith)
      ∙ ap (λ q. some (inet6_array_to_saddr (rshift_array (before va vw n) q n)))
          (sym (length-map fs))
      ∙ ap (λ w. some (inet6_array_to_saddr w)) (rshift_array-opens va vw n (omega arith))
      ∙ ap (λ j. some (inet6_array_to_saddr (va ++ (zeros j ++ vw))))
          (let e : n + 1 ≡ 6 - (length fs + length bs) = omega arith in e)
      ∙ ap some (inet6_array_to_saddr_lem _ (opened_words (6 - (length fs + length bs))))

  -- With five groups in all the address is lost: of such a text the parser keeps the first groups
  -- only, and all from the shortener on is zero.
  pub inet6_aton-mapped_clears :
      length fs + length bs ≡ 5
      → inet6_aton be (mapped fs bs a b c d)
        ≡ some (network_order (map hexlet_value fs ++ zeros (8 - length fs)))
  inet6_aton-mapped_clears h =
      let va = map hexlet_value fs in
      let vw = map hexlet_value bs ++ halves a b c d in
      inet6_aton-text be a b c d ha hb hc hd fs bs fh bh (omega arith) 0 (omega arith)
      ∙ ap (λ q. some (inet6_array_to_saddr (rshift_array (before va vw 0) q 0)))
          (sym (length-map fs))
      ∙ ap (λ w. some (inet6_array_to_saddr w))
          (rshift_array_clears va (0 ∷ (vw ++ zeros 0)) (omega arith))
      ∙ ap (λ j. some (inet6_array_to_saddr (va ++ zeros j)))
          (let e : length (0 ∷ (vw ++ zeros 0)) ≡ 8 - length fs = omega (
            arith,
            length-append vw (zeros 0),
            length-append (map hexlet_value bs) (halves a b c d),
            length-map bs,
          ) in
            e)
      ∙ ap some (
          inet6_array_to_saddr_lem (va ++ zeros (8 - length fs)) (
            are_words-append va (zeros (8 - length fs)) (are_words-hexlets fs fh)
              (are_words-zeros (8 - length fs))))

module _ (be : Bool) (a b c d : ℕ) (ha : a < 256) (hb : b < 256) (hc : c < 256) (hd : d < 256)
    (ts : List Bytes) (th : are_hexlets ts ≡ true) (six : length ts ≡ 6) where
  abbrev text : Bytes
  text = terminated ts (quad a b c d)

  sizes : (length (terminated ts []) ≤ 30) × (4 ≤ length text) × (length text ≤ 45)
  sizes = omega (
    arith,
    length-terminated ts th,
    ap length (terminated-append ts (quad a b c d)),
    length-append (terminated ts []) (quad a b c d),
    length-quad a b c d ha hb hc hd,
  )

  six_and_two :
      (i : ℕ)
      → i ≡ 0 + length ts
      → put i (halves a b c d) (put 0 (map hexlet_value ts) (zeros 8))
        ≡ map hexlet_value ts ++ halves a b c d
  six_and_two i h =
      let vs = map hexlet_value ts in
      ap (put i (halves a b c d))
        (put-append [] vs (zeros 6) (zeros 2) 0 refl (omega (arith, length-map ts)))
      ∙ put-append vs (halves a b c d) (zeros 2) [] i (omega (arith, length-map ts)) refl
      ∙ ap (◌++◌ vs) (append-nil (halves a b c d))

  -- Six groups of one to four hexadecimal digits, each with a colon behind it, and the dotted decimal
  -- text of four numbers below 256: the address has the values of the groups and the four numbers as
  -- its last four bytes.
  inet6_aton_six :
      inet6_aton be (terminated ts (quad a b c d))
      ≡ some (network_order (map hexlet_value ts ++ halves a b c d))
  unfolding shift_from_shortener
  inet6_aton_six =
      let head = quad-head a b c d ha hb hc hd in
      let i = 0 + length ts in
      let (l, nb, nd, ne) =
        scan_loop-Row be text (omega (arith, sizes)) ts text (quad a b c d) 2 0 start
          (terminated-Row text ts (quad a b c d) th head) (omega arith) refl in
      let s : Scan = record start { comps = put 0 (map hexlet_value ts) (zeros 8); idx = l } in
      let at : (i == 6 || (ltb i 6 && has_shortener s)) ≡ true = ground arith in
      let last =
        round-quad be a b c d ha hb hc hd (terminated ts []) text i s
          (terminated-append ts (quad a b c d)) (terminated-lacks ts th) (omega (arith, sizes)) nb
          nd at in
      let colons = terminated-head ts (quad a b c d) th head in
      inet6_aton-loop be text _ (omega (arith, sizes)) (rw colons refl)
        (ap (λ m. scan_loop be text m 0 start) (let e : 8 ≡ length ts + 2 = omega arith in e)
          ∙ ne
          ∙ scan_loop-leaves be text 1 i s _ last
          ∙ ap some (embed-quad be a b c d ha hb hc hd text i s))
        refl
      ∙ ap (λ w. some (inet6_array_to_saddr w)) (six_and_two i refl)
      ∙ ap some (
          inet6_array_to_saddr_lem _ (
            are_words-append (map hexlet_value ts) (halves a b c d) (are_words-hexlets ts th)
              (are_words-halves a b c d ha hb hc hd)))

-- ===== src/Net/Address/Inet6/Shortened.antt =====
-- The IPv6 parser on texts with a shortener.
use read_mail_really_fast.Prelude.{
  ◌+◌, ◌-◌, ◌^◌, ◌≤◌, ◌<◌, ◌≡◌, refl, sym, ap, ◌∙◌, Bool, true, false, not, ◌&&◌, List, [], ◌∷◌,
  ◌++◌, arith, Bytes, length, ◌==◌, some, map,
}
use read_mail_really_fast.Prelude.Int.{pos}
use read_mail_really_fast.Net.Address.Chars.{char_at}
use read_mail_really_fast.Net.Address.Chars.Positions.{lacks}
use read_mail_really_fast.Net.Address.Inet6.{inet6_aton, inet6_array_to_saddr}
use read_mail_really_fast.Net.Address.Inet6.Hexlet.{are_hexlets, hexlet_value}
use read_mail_really_fast.Net.Address.Inet6.Groups.{joined, joined-Row}
use read_mail_really_fast.Net.Address.Inet6.Layout.{before, zeros}
use read_mail_really_fast.Net.Address.Inet6.Shortener.{scan_loop-shortener, scan_loop_at_end}
use read_mail_really_fast.Net.Address.Inet6.Words.{
  network_order, are_words, inet6_array_to_saddr_lem, are_words-append, are_words-hexlets,
  are_words-zeros,
}
use read_mail_really_fast.Net.Address.Inet6.Texts.{
  length-map, joined-lacks, length-joined, joined-head, inet6_aton-loop, at_end,
}

module _ (be : Bool) (fs bs : List Bytes) (fh : are_hexlets fs ≡ true) (bh : are_hexlets bs ≡ true)
    (gap : length fs + length bs ≤ 7) where
  -- The texts before and behind the shortener, with the shortener between them.
  abbrev rest : Bytes
  rest = b':' ∷ b':' ∷ joined bs []

  abbrev text : Bytes
  text = joined fs rest

  text_sizes : (2 ≤ length text) × (length text < 2 ^ 64)
  text_sizes = omega (arith, length-joined fs rest fh, length-joined bs [] bh)

  text-lacks : lacks b'.' text ≡ true
  text-lacks = joined-lacks fs rest fh (joined-lacks bs [] bh refl)

  rest-head : (char_at (joined bs []) 0 == b':') ≡ false
  rest-head = head_of bs bh
    where
      head_of :
          (bs : List Bytes) → are_hexlets bs ≡ true → (char_at (joined bs []) 0 == b':') ≡ false
      head_of [] h = refl
      head_of (t ∷ ts) h = joined-head t ts [] (ground arith)

  text-head : (char_at text 0 == b':' && not (char_at text 1 == b':')) ≡ false
  text-head = head_of fs fh
    where
      head_of :
          (fs : List Bytes)
          → are_hexlets fs ≡ true
          → (char_at (joined fs rest) 0 == b':' && not (char_at (joined fs rest) 1 == b':')) ≡ false
      head_of [] h = refl
      head_of (t ∷ ts) h = let n = joined-head t ts rest (ground arith) in rw n refl

  parts-are_words :
      are_words
        (map hexlet_value fs ++ (zeros (8 - (length fs + length bs)) ++ map hexlet_value bs))
      ≡ true
  parts-are_words = are_words-append (map hexlet_value fs) _ (are_words-hexlets fs fh) (
      are_words-append (zeros (8 - (length fs + length bs))) _
        (are_words-zeros (8 - (length fs + length bs))) (are_words-hexlets bs bh))

  -- A text of groups of one to four hexadecimal digits, with a shortener between the groups `fs` and
  -- the groups `bs`, any of which may be missing, and at most seven groups in all, is the address
  -- whose components are the values of `fs`, as many zeros as are missing from eight components, and
  -- the values of `bs`, each component with its high byte first.
  pub inet6_aton_shortened :
      inet6_aton be text
      ≡ some (
          network_order
            (map hexlet_value fs ++ (zeros (8 - (length fs + length bs)) ++ map hexlet_value bs)))
  inet6_aton_shortened =
      let va = map hexlet_value fs in
      let vb = map hexlet_value bs in
      let m = 7 - (length fs + length bs) in
      let (l, nb, nd, ne) =
        scan_loop-shortener be text fs bs (joined bs []) [] m text_sizes.1 (omega arith)
          (joined-Row text fs rest fh refl refl) rest-head
          (joined-Row text bs [] bh refl text-lacks) in
      let last =
        scan_loop_at_end be text va vb
          (record { comps = before va vb m; shortener_pos = pos (length fs); idx = l })
          (ap pos (sym (length-map fs))) (at_end text l nb nd) m (length fs + 1 + length bs) refl
          (omega arith) (omega (arith, length-map fs)) in
      inet6_aton-loop be text _ text_sizes.0 text-head (ne ∙ last) (at_end text l nb nd)
      ∙ ap (λ j. some (inet6_array_to_saddr (va ++ (zeros j ++ vb))))
          (let e : m + 1 ≡ 8 - (length fs + length bs) = omega arith in e)
      ∙ ap some (inet6_array_to_saddr_lem _ parts-are_words)

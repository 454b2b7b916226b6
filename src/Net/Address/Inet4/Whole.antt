-- ===== src/Net/Address/Inet4/Whole.antt =====
-- `inet_addr_impl` on every text.
use mathlib.Core.Option
use read_mail_really_fast.Prelude.{
  suc, ◌-◌, ◌^◌, ◌<◌, ◌≡◌, refl, sym, ap, ◌∙◌, Bool, true, false, List, [], ◌∷◌, ◌++◌, append-nil,
  none, some, arith, Bytes, length, ◌==◌, Bool-cases, inl, inr,
}
use read_mail_really_fast.Prelude.Int.{pos, negsuc, ◌-ℤ◌}
use read_mail_really_fast.Net.Address.Chars.{host_to_net_32, rfind_chr, char_at}
use read_mail_really_fast.Net.Address.Chars.Positions.{lacks, rfind_chr-lacks}
use read_mail_really_fast.Net.Address.Component.{parse_inet_component}
use read_mail_really_fast.Net.Address.Inet4.Split.{split, split-lacks, length-split_pos}
use read_mail_really_fast.Net.Address.Inet4.Shapes.{
  ◌dot◌, Shape, one, two, three, four, more, shape, flat, length-dot, split-two, split-three,
  split-four, split-more, first-length, found_before,
}
use read_mail_really_fast.Net.Address.Inet4.Dots.{
  refused_first, impl_single, impl_one_dot, impl_two_dots, impl_three_dots, impl_more_dots,
  last_dot_found, no_dot_before,
}
use read_mail_really_fast.Net.Address.Inet4.Numerals.{numeral, StandsFor}
use read_mail_really_fast.Net.Address.Inet4.Forms.{
  address, address-nil, five_or_more, stored, store_four, store_one, at_start, behind_dot,
}
use read_mail_really_fast.Net.Address.Inet4.{inet_addr_impl}

module _ (big_endian : Bool) where
  abbrev Reads : Bytes → List Bytes → Type 0
  Reads str ts = inet_addr_impl big_endian str ≡ stored big_endian (address ts)

  module _ (str : Bytes) (w : length str < 2 ^ 64) (first : (char_at str 0 == b'.') ≡ false) where
    last_part :
        (xs d : Bytes)
        → lacks b'.' d ≡ true
        → str ≡ xs dot d
        → StandsFor (parse_inet_component 255 str (suc (length xs))) 255 (numeral 255 d)
    last_part xs d l e =
        behind_dot str w xs d [] (e ∙ ap (λ r. xs ++ (b'.' ∷ r)) (sym (append-nil d))) l tt

    first_part :
        (a rest : Bytes)
        → lacks b'.' a ≡ true
        → str ≡ a ++ (b'.' ∷ rest)
        → StandsFor (parse_inet_component 255 str 0) 255 (numeral 255 a)
    first_part a rest la e = at_start str w 255 255 a (b'.' ∷ rest) (omega arith) e la refl

    no_more :
        (a rest : Bytes)
        → lacks b'.' a ≡ true
        → str ≡ a ++ (b'.' ∷ rest)
        → rfind_chr str (pos (length a) -ℤ pos 1) b'.' ≡ negsuc 0
    no_more a rest la e = no_dot_before str a (b'.' ∷ rest) e la (first-length str a rest e first)

    zero_part : StandsFor (pos 0) 255 (some 0)
    zero_part = (refl, omega arith)

    one_part : lacks b'.' str ≡ true → Reads str (str ∷ [])
    one_part l =
        impl_single big_endian str first (rfind_chr-lacks b'.' str l refl)
        ∙ store_one big_endian _ _ (
            at_start str w 0xffff_ffff (2 ^ 31 - 1) str [] (omega arith) (sym (append-nil str)) l
              tt)

    two_parts :
        (a d : Bytes)
        → lacks b'.' a ≡ true
        → lacks b'.' d ≡ true
        → str ≡ a dot d
        → Reads str (a ∷ d ∷ [])
    two_parts a d la ld e =
        impl_one_dot big_endian str first (length a) (last_dot_found str a d e ld)
          (first-length str a d e first) (no_more a d la e)
        ∙ store_four big_endian _ _ _ _ (numeral 255 a) (some 0) (some 0) (numeral 255 d)
            (first_part a d la e) zero_part zero_part (last_part a d ld e)

    three_parts :
        (a c d : Bytes)
        → lacks b'.' a ≡ true
        → lacks b'.' c ≡ true
        → lacks b'.' d ≡ true
        → str ≡ a dot c dot d
        → Reads str (a ∷ c ∷ d ∷ [])
    three_parts a c d la lc ld e =
        let e2 = e ∙ flat a c (b'.' ∷ d) in
        impl_two_dots big_endian str first (length (a dot c)) (last_dot_found str (a dot c) d e ld)
          (length-dot a c) (length a) (found_before str a c (b'.' ∷ d) e lc)
          (first-length str a _ e2 first) (no_more a _ la e2)
        ∙ store_four big_endian _ _ _ _ (numeral 255 a) (numeral 255 c) (some 0) (numeral 255 d)
            (first_part a _ la e2) (behind_dot str w a c (b'.' ∷ d) e2 lc refl) zero_part
            (last_part (a dot c) d ld e)

    four_parts :
        (a b c d : Bytes)
        → lacks b'.' a ≡ true
        → lacks b'.' b ≡ true
        → lacks b'.' c ≡ true
        → lacks b'.' d ≡ true
        → str ≡ a dot b dot c dot d
        → Reads str (a ∷ b ∷ c ∷ d ∷ [])
    four_parts a b c d la lb lc ld e =
        let e2 = e ∙ flat (a dot b) c (b'.' ∷ d) in
        let e1 = e2 ∙ flat a b (b'.' ∷ (c dot d)) in
        impl_three_dots big_endian str first (length (a dot b dot c))
          (last_dot_found str (a dot b dot c) d e ld) (length-dot (a dot b) c) (length (a dot b))
          (found_before str (a dot b) c (b'.' ∷ d) e lc) (length-dot a b) (length a)
          (found_before str a b (b'.' ∷ (c dot d)) e2 lb) (first-length str a _ e1 first)
          (no_more a _ la e1)
        ∙ store_four big_endian _ _ _ _ (numeral 255 a) (numeral 255 b) (numeral 255 c)
            (numeral 255 d) (first_part a _ la e1)
            (behind_dot str w a b (b'.' ∷ (c dot d)) e1 lb refl)
            (behind_dot str w (a dot b) c (b'.' ∷ d) e2 lc refl) (last_part (a dot b dot c) d ld e)

    more_parts :
        (p u b c d : Bytes)
        → lacks b'.' u ≡ true
        → lacks b'.' b ≡ true
        → lacks b'.' c ≡ true
        → lacks b'.' d ≡ true
        → str ≡ p dot u dot b dot c dot d
        → inet_addr_impl big_endian str ≡ none
    more_parts p u b c d lu lb lc ld e =
        let e2 = e ∙ flat (p dot u dot b) c (b'.' ∷ d) in
        let e1 = e2 ∙ flat (p dot u) b (b'.' ∷ (c dot d)) in
        impl_more_dots big_endian str first (length (p dot u dot b dot c))
          (last_dot_found str (p dot u dot b dot c) d e ld) (length-dot (p dot u dot b) c)
          (length (p dot u dot b)) (found_before str (p dot u dot b) c (b'.' ∷ d) e lc)
          (length-dot (p dot u) b) (length (p dot u))
          (found_before str (p dot u) b (b'.' ∷ (c dot d)) e2 lb) (length-dot p u) (length p)
          (found_before str p u (b'.' ∷ (b dot (c dot d))) e1 lu)

    by_shape : Shape str → Reads str (split str)
    by_shape (one l) = rw (split-lacks str l) (one_part l)
    by_shape (two a d la ld e) = rw (ap split e ∙ split-two a d la ld) (two_parts a d la ld e)
    by_shape (three a c d la lc ld e) =
        rw (ap split e ∙ split-three a c d la lc ld) (three_parts a c d la lc ld e)
    by_shape (four a b c d la lb lc ld e) =
        rw (ap split e ∙ split-four a b c d la lb lc ld) (four_parts a b c d la lb lc ld e)
    by_shape (more p u b c d lu lb lc ld e) =
        more_parts p u b c d lu lb lc ld e
        ∙ ap (stored big_endian) (
            sym (
              ap (λ s. address (split s)) e
              ∙ ap address (split-more p u b c d lu lb lc ld)
              ∙ five_or_more (split p) u b c d (length-split_pos p)))

  dot_first : (str : Bytes) → (char_at str 0 == b'.') ≡ true → Reads str (split str)
  dot_first [] h = absurd (ground arith)
  dot_first (c ∷ cs) h =
      refused_first big_endian (c ∷ cs) h
      ∙ sym (rw h (ap (stored big_endian) (address-nil (split cs))))

  -- Every text below 2 ^ 64 bytes is split at its dots and read by its parts: one number below
  -- 2 ^ 31, or two, three or four bytes, the last the lowest of the address and the others counted
  -- from the highest on, the bytes between being zero; each part a decimal, octal or hexadecimal
  -- numeral. All else is refused.
  pub inet_addr_impl-address :
      (str : Bytes)
      → length str < 2 ^ 64
      → inet_addr_impl big_endian str ≡ Option.map (host_to_net_32 big_endian) (address (split str))
  inet_addr_impl-address str w = elim (Bool-cases (char_at str 0 == b'.')) [
    | inl h ↦ dot_first str h
    | inr h ↦ by_shape str w h (shape str)
  ]

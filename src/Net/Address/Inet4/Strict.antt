-- ===== src/Net/Address/Inet4/Strict.antt =====
-- `inet_addr_canonical` on every text.
use mathlib.Core.Option
use read_mail_really_fast.Prelude.{
  append_assoc, length-append, ℕ, ◌^◌, ◌<◌, ◌≡◌, refl, sym, ap, ◌∙◌, Bool, true, false, List, [],
  ◌∷◌, ◌++◌, append-nil, none, arith, Bytes, length, ◌==◌, Bool-cases, inl, inr,
}
use read_mail_really_fast.Prelude.Int.{pos, negsuc, ◌-ℤ◌}
use read_mail_really_fast.Net.Address.Chars.{host_to_net_32, rfind_chr, char_at, isdigit}
use read_mail_really_fast.Net.Address.Chars.Positions.{lacks, lacks-append, drop-append}
use read_mail_really_fast.Net.Address.Inet4.Split.{split, split-lacks, length-split_pos}
use read_mail_really_fast.Net.Address.Inet4.Components.{
  parse_inet_component_canonical_lem, canonical,
}
use read_mail_really_fast.Net.Address.Inet4.Places.{
  dotted, inet_addr_canonical_at_refused, inet_addr_canonical_at-dotted,
}
use read_mail_really_fast.Net.Address.Inet4.Shapes.{
  ◌dot◌, Shape, one, two, three, four, more, shape, flat, split-two, split-three, split-four,
  split-more, first-length, found_before,
}
use read_mail_really_fast.Net.Address.Inet4.Dots.{last_dot_found, no_dot_before}
use read_mail_really_fast.Net.Address.Inet4.Canonical.{
  byte, byte-lt, canonical_address, canonical-byte, store_canonical-bytes, Refused, refused_no_dot,
  refused_one_dot, refused_two_dots, refused_more_dots,
}
use read_mail_really_fast.Net.Address.Inet4.{inet_addr_canonical, inet_addr_canonical_at}

canonical_five_or_more :
    (ts : List Bytes) (u b c d : Bytes)
    → 0 < length ts
    → canonical_address (ts ++ (u ∷ b ∷ c ∷ d ∷ [])) ≡ none
canonical_five_or_more [] u b c d h = absurd (omega arith)
canonical_five_or_more (t ∷ []) u b c d h = refl
canonical_five_or_more (t ∷ t' ∷ []) u b c d h = refl
canonical_five_or_more (t ∷ t' ∷ x ∷ []) u b c d h = refl
canonical_five_or_more (t ∷ t' ∷ x ∷ y ∷ []) u b c d h = refl
canonical_five_or_more (t ∷ t' ∷ x ∷ y ∷ z ∷ ts) u b c d h = refl

canonical_address-nil : (ts : List Bytes) → canonical_address ([] ∷ ts) ≡ none
canonical_address-nil [] = refl
canonical_address-nil (d ∷ []) = refl
canonical_address-nil (b ∷ d ∷ []) = refl
canonical_address-nil (b ∷ c ∷ d ∷ []) = refl
canonical_address-nil (b ∷ c ∷ d ∷ t ∷ ts) = refl

first_empty : (c : ℕ) (cs : Bytes) → (c == b'.') ≡ true → canonical (c ∷ cs) ≡ negsuc 0
unfolding isdigit
first_empty c [] h = rw h refl
first_empty c (d ∷ ds) h = let e : c ≡ b'.' = ground arith in rw e refl

module _ (big_endian : Bool) (pre : Bytes) (lp : lacks b'.' pre ≡ true) where
  -- What is read behind `pre`, a text without dots.
  abbrev Reads : Bytes → List Bytes → Type 0
  Reads r ts =
      inet_addr_canonical_at big_endian (pre ++ r) (length pre)
      ≡ Option.map (host_to_net_32 big_endian) (canonical_address ts)

  abbrev Refuses : Bytes → Type 0
  Refuses r = Refused big_endian (pre ++ r) (length pre)

  module _ (r : Bytes) (w : length (pre ++ r) < 2 ^ 64)
      (first : (char_at r 0 == b'.') ≡ false) where
    -- The first part, behind `pre`.
    module _ (a rest : Bytes) (la : lacks b'.' a ≡ true) (e : r ≡ a ++ (b'.' ∷ rest)) where
      lacks-first : lacks b'.' (pre ++ a) ≡ true
      lacks-first = lacks-append b'.' pre a lp la

      behind_first : pre ++ r ≡ (pre ++ a) ++ (b'.' ∷ rest)
      behind_first = ap (λ t. pre ++ t) e ∙ sym (append_assoc pre a (b'.' ∷ rest))

      no_more : rfind_chr (pre ++ r) (pos (length (pre ++ a)) -ℤ pos 1) b'.' ≡ negsuc 0
      no_more =
          no_dot_before (pre ++ r) (pre ++ a) (b'.' ∷ rest) behind_first lacks-first
            (omega (arith, length-append pre a, first-length r a rest e first))

    three_refused :
        (a c d : Bytes)
        → lacks b'.' a ≡ true
        → lacks b'.' c ≡ true
        → lacks b'.' d ≡ true
        → r ≡ a dot c dot d
        → Refuses r
    three_refused a c d la lc ld e =
        let e3 : pre ++ r ≡ (pre ++ a) dot c dot d = ap (λ t. pre ++ t) e ∙ regroup3 a c d in
        refused_two_dots big_endian (pre ++ r) (length pre) (length ((pre ++ a) dot c))
          (last_dot_found (pre ++ r) ((pre ++ a) dot c) d e3 ld) (length (pre ++ a))
          (found_before (pre ++ r) (pre ++ a) c (b'.' ∷ d) e3 lc)
          (no_more a _ la (e ∙ flat a c (b'.' ∷ d)))
      where
        regroup3 : (a c d : Bytes) → pre ++ (a dot c dot d) ≡ (pre ++ a) dot c dot d
        regroup3 a c d = simp append_assoc

    four_read :
        (a b c d : Bytes)
        → lacks b'.' a ≡ true
        → lacks b'.' b ≡ true
        → lacks b'.' c ≡ true
        → lacks b'.' d ≡ true
        → r ≡ a dot b dot c dot d
        → Reads r (a ∷ b ∷ c ∷ d ∷ [])
    four_read a b c d la lb lc ld e =
        let flattened : r ≡ dotted a b c d =
          e ∙ flat (a dot b) c (b'.' ∷ d) ∙ flat a b (b'.' ∷ (c dot d)) in
        ap (λ s. inet_addr_canonical_at big_endian (pre ++ s) (length pre)) flattened
        ∙ inet_addr_canonical_at-dotted pre a b c d lp la lb lc ld
            (first-length r a _ flattened first)
            (omega (arith, ap (λ t. length (pre ++ t)) flattened)) big_endian
        ∙ rw
            (
              canonical-byte a (b'.' ∷ (b dot (c dot d))) la refl,
              canonical-byte b (b'.' ∷ (c dot d)) lb refl,
              canonical-byte c (b'.' ∷ d) lc refl,
              ap canonical (sym (append-nil d)) ∙ canonical-byte d [] ld tt,
            )
            (store_canonical-bytes big_endian (byte a) (byte b) (byte c) (byte d) (byte-lt a)
              (byte-lt b) (byte-lt c) (byte-lt d))

    more_refused :
        (p u b c d : Bytes)
        → lacks b'.' u ≡ true
        → lacks b'.' b ≡ true
        → lacks b'.' c ≡ true
        → lacks b'.' d ≡ true
        → r ≡ p dot u dot b dot c dot d
        → Refuses r
    more_refused p u b c d lu lb lc ld e =
        let str = pre ++ r in
        let q = pre ++ p in
        let e3 : str ≡ q dot u dot b dot c dot d = ap (λ t. pre ++ t) e ∙ regroup5 p u b c d in
        let e2 = e3 ∙ flat (q dot u dot b) c (b'.' ∷ d) in
        let e1 = e2 ∙ flat (q dot u) b (b'.' ∷ (c dot d)) in
        refused_more_dots big_endian str (length pre) (length (q dot u dot b dot c))
          (last_dot_found str (q dot u dot b dot c) d e3 ld) (length (q dot u dot b))
          (found_before str (q dot u dot b) c (b'.' ∷ d) e3 lc) (length (q dot u)) (length q)
          (found_before str (q dot u) b (b'.' ∷ (c dot d)) e2 lb)
          (found_before str q u (b'.' ∷ (b dot (c dot d))) e1 lu)
          (omega (arith, length-append pre p))
      where
        regroup5 :
            (p u b c d : Bytes)
            → pre ++ (p dot u dot b dot c dot d) ≡ (pre ++ p) dot u dot b dot c dot d
        regroup5 p u b c d = simp append_assoc

    by_shape : Shape r → Reads r (split r)
    by_shape (one l) =
        rw (split-lacks r l)
          (refused_no_dot big_endian (pre ++ r) (length pre) (lacks-append b'.' pre r lp l))
    by_shape (two a d la ld e) = rw (ap split e ∙ split-two a d la ld) (
        refused_one_dot big_endian (pre ++ r) (length pre) (length (pre ++ a))
          (last_dot_found (pre ++ r) (pre ++ a) d (behind_first a d la e) ld) (no_more a d la e))
    by_shape (three a c d la lc ld e) =
        rw (ap split e ∙ split-three a c d la lc ld) (three_refused a c d la lc ld e)
    by_shape (four a b c d la lb lc ld e) =
        rw (ap split e ∙ split-four a b c d la lb lc ld) (four_read a b c d la lb lc ld e)
    by_shape (more p u b c d lu lb lc ld e) =
        more_refused p u b c d lu lb lc ld e
        ∙ ap (Option.map (host_to_net_32 big_endian)) (
            sym (
              ap (λ s. canonical_address (split s)) e
              ∙ ap canonical_address (split-more p u b c d lu lb lc ld)
              ∙ canonical_five_or_more (split p) u b c d (length-split_pos p)))

  dot_first :
      (r : Bytes) → length (pre ++ r) < 2 ^ 64 → (char_at r 0 == b'.') ≡ true → Reads r (split r)
  dot_first [] w h = absurd (ground arith)
  dot_first (c ∷ cs) w h =
      inet_addr_canonical_at_refused big_endian (pre ++ (c ∷ cs)) (length pre) (
        parse_inet_component_canonical_lem (pre ++ (c ∷ cs)) (length pre)
          (omega (arith, length-append pre (c ∷ cs))) w
        ∙ ap canonical (drop-append pre (c ∷ cs))
        ∙ first_empty c cs h)
      ∙ sym (rw h (ap (Option.map (host_to_net_32 big_endian)) (canonical_address-nil (split cs))))

  -- The parser at a place, on the text behind it.
  pub inet_addr_canonical_at-address :
      (r : Bytes)
      → length (pre ++ r) < 2 ^ 64
      → inet_addr_canonical_at big_endian (pre ++ r) (length pre)
        ≡ Option.map (host_to_net_32 big_endian) (canonical_address (split r))
  inet_addr_canonical_at-address r w = elim (Bool-cases (char_at r 0 == b'.')) [
    | inl h ↦ dot_first r w h
    | inr h ↦ by_shape r w h (shape r)
  ]

-- Every text below 2 ^ 64 bytes is split at its dots and read by its parts: four decimal numerals
-- of bytes, none with a zero before another digit, are the address of these bytes; if the first
-- three are such numerals and the fourth is not, the address is 255.255.255.255. All else is
-- refused.
pub inet_addr_canonical-address :
    (big_endian : Bool) (str : Bytes)
    → length str < 2 ^ 64
    → inet_addr_canonical big_endian str
      ≡ Option.map (host_to_net_32 big_endian) (canonical_address (split str))
unfolding inet_addr_canonical
inet_addr_canonical-address big_endian str w =
    inet_addr_canonical_at-address big_endian [] refl str w

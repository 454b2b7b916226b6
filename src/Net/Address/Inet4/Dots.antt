-- ===== src/Net/Address/Inet4/Dots.antt =====
-- `inet_addr_impl` by the places of the dots in its text.
use read_mail_really_fast.Prelude.{
  ℕ, suc, ◌+◌, ◌-◌, ◌<◌, ◌≡◌, refl, ap, ◌∙◌, Bool, true, false, not, ◌∷◌, ◌++◌, none, arith, Bytes,
  length, length-append, ◌==◌, if◌then◌else◌,
}
use read_mail_really_fast.Prelude.Int.{ℤ, pos, negsuc, ◌+ℤ◌, ◌-ℤ◌, pos_part, ltb_ℤ, eq_ℤ}
use read_mail_really_fast.Net.Address.Chars.{rfind_chr, char_at}
use read_mail_really_fast.Net.Address.Chars.Positions.{
  lacks, rfind_chr_end, rfind_chr_found, rfind_chr_none, get_or_past,
}
use read_mail_really_fast.Net.Address.Component.{parse_inet_component}
use read_mail_really_fast.Net.Address.Inet4.Places.{before, after}
use read_mail_really_fast.Net.Address.Inet4.Single.{impl_parts}
use read_mail_really_fast.Net.Address.Inet4.{store, inet_addr_middle, inet_addr_impl}

middle_parts :
    (big_endian : Bool) (str : Bytes) (sep3 c1 c4 : ℤ)
    → inet_addr_middle big_endian str sep3 c1 c4 ≡ (
        let sep2 = rfind_chr str (sep3 -ℤ pos 1) b'.' in
        let sep1 = rfind_chr str (sep2 -ℤ pos 1) b'.' in
        if ltb_ℤ (pos 0) sep2
        then (if ltb_ℤ (pos 0) sep1
            then (if not (eq_ℤ (rfind_chr str (sep1 -ℤ pos 1) b'.') (negsuc 0))
                then none
                else store big_endian c1
                    (parse_inet_component 255 str (pos_part (sep1 +ℤ pos 1)))
                    (parse_inet_component 255 str (pos_part (sep2 +ℤ pos 1)))
                    c4)
            else store big_endian c1
                (parse_inet_component 255 str (pos_part (sep2 +ℤ pos 1)))
                (pos 0)
                c4)
        else store big_endian c1 (pos 0) (pos 0) c4)
unfolding inet_addr_middle
middle_parts big_endian str sep3 c1 c4 = refl

pub refused_first :
    (big_endian : Bool) (str : Bytes)
    → (char_at str 0 == b'.') ≡ true
    → inet_addr_impl big_endian str ≡ none
refused_first big_endian str h = impl_parts big_endian str ∙ rw h

module _ (big_endian : Bool) (str : Bytes) (first : (char_at str 0 == b'.') ≡ false) where
  abbrev at : ℕ → ℤ
  at p = parse_inet_component 255 str p

  last : (char_at str (length str) == b'.') ≡ false
  last = let past = get_or_past str (length str) (omega arith) in rw past refl

  -- No dot.
  pub impl_single :
      rfind_chr str (pos (length str)) b'.' ≡ negsuc 0
      → inet_addr_impl big_endian str
        ≡ store big_endian (pos 0) (pos 0) (pos 0) (parse_inet_component 0xffff_ffff str 0)
  impl_single e = impl_parts big_endian str ∙ rw (first, last, e) refl

  module _ (p3 : ℕ) (e3 : rfind_chr str (pos (length str)) b'.' ≡ pos p3) (h3 : 0 < p3) where
    to_middle :
        inet_addr_impl big_endian str
        ≡ inet_addr_middle big_endian str (pos p3) (at 0) (at (suc p3))
    to_middle =
        let t : ltb_ℤ (pos 0) (pos p3) ≡ true = ground arith in
        impl_parts big_endian str ∙ rw (first, last, e3, t, after p3) refl

    pub impl_one_dot :
        rfind_chr str (pos p3 -ℤ pos 1) b'.' ≡ negsuc 0
        → inet_addr_impl big_endian str ≡ store big_endian (at 0) (pos 0) (pos 0) (at (suc p3))
    impl_one_dot e2 =
        to_middle ∙ middle_parts big_endian str (pos p3) (at 0) (at (suc p3)) ∙ rw e2 refl

    module _ (p2 : ℕ) (e2 : rfind_chr str (pos p3 -ℤ pos 1) b'.' ≡ pos p2) (h2 : 0 < p2) where
      t2 : ltb_ℤ (pos 0) (pos p2) ≡ true
      t2 = ground arith

      pub impl_two_dots :
          rfind_chr str (pos p2 -ℤ pos 1) b'.' ≡ negsuc 0
          → inet_addr_impl big_endian str
            ≡ store big_endian (at 0) (at (suc p2)) (pos 0) (at (suc p3))
      impl_two_dots e1 =
          to_middle
          ∙ middle_parts big_endian str (pos p3) (at 0) (at (suc p3))
          ∙ rw (e2, e1, t2, after p2) refl

      module _ (p1 : ℕ) (e1 : rfind_chr str (pos p2 -ℤ pos 1) b'.' ≡ pos p1) (h1 : 0 < p1) where
        t1 : ltb_ℤ (pos 0) (pos p1) ≡ true
        t1 = ground arith

        pub impl_three_dots :
            rfind_chr str (pos p1 -ℤ pos 1) b'.' ≡ negsuc 0
            → inet_addr_impl big_endian str
              ≡ store big_endian (at 0) (at (suc p1)) (at (suc p2)) (at (suc p3))
        impl_three_dots e0 =
            to_middle
            ∙ middle_parts big_endian str (pos p3) (at 0) (at (suc p3))
            ∙ rw (e2, e1, e0, t2, t1, after p2, after p1) refl

        pub impl_more_dots :
            (p0 : ℕ)
            → rfind_chr str (pos p1 -ℤ pos 1) b'.' ≡ pos p0
            → inet_addr_impl big_endian str ≡ none
        impl_more_dots p0 e0 =
            to_middle
            ∙ middle_parts big_endian str (pos p3) (at 0) (at (suc p3))
            ∙ rw (e2, e1, e0, t2, t1) refl

-- The searches for the dots.
pub last_dot_found :
    (str xs t : Bytes)
    → str ≡ xs ++ (b'.' ∷ t)
    → lacks b'.' t ≡ true
    → rfind_chr str (pos (length str)) b'.' ≡ pos (length xs)
last_dot_found str xs t e l =
    ap (λ s. rfind_chr s (pos (length s)) b'.') e ∙ rfind_chr_end b'.' xs t l refl

pub dot_before :
    (str xs t rest : Bytes)
    → str ≡ xs ++ (b'.' ∷ (t ++ rest))
    → lacks b'.' t ≡ true
    → rfind_chr str (pos (length (xs ++ (b'.' ∷ t))) -ℤ pos 1) b'.' ≡ pos (length xs)
dot_before str xs t rest e l =
    ap (λ k. rfind_chr str k b'.')
      (before _ (length xs + length t) (omega (arith, length-append xs (b'.' ∷ t))))
    ∙ ap (λ s. rfind_chr s (pos (length xs + length t)) b'.') e
    ∙ rfind_chr_found b'.' xs t rest _ l refl

pub no_dot_before :
    (str t rest : Bytes)
    → str ≡ t ++ rest
    → lacks b'.' t ≡ true
    → 0 < length t
    → rfind_chr str (pos (length t) -ℤ pos 1) b'.' ≡ negsuc 0
no_dot_before str t rest e l h =
    ap (λ k. rfind_chr str k b'.') (before _ (length t - 1) (omega arith))
    ∙ ap (λ s. rfind_chr s (pos (length t - 1)) b'.') e
    ∙ rfind_chr_none b'.' t rest _ l (omega arith)

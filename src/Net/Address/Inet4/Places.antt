-- ===== src/Net/Address/Inet4/Places.antt =====
-- The canonical parser at a place in a text where four parts with dots between them begin.
use read_mail_really_fast.Prelude.{
  ℕ, suc, ◌+◌, ◌-◌, ◌^◌, ◌<◌, ◌≡◌, refl, sym, ap, ◌∙◌, Bool, true, not, ◌||◌, [], ◌∷◌, ◌++◌,
  append_assoc, none, arith, Bytes, length, length-append, drop, if◌then◌else◌,
}
use read_mail_really_fast.Prelude.Int.{pos, negsuc, ◌+ℤ◌, ◌-ℤ◌, pos_part, ltb_ℤ}
use read_mail_really_fast.Net.Address.Chars.{rfind_chr}
use read_mail_really_fast.Net.Address.Chars.Positions.{
  lacks, lacks-append, drop-append, rfind_chr_end, rfind_chr_found, rfind_chr_none,
}
use read_mail_really_fast.Net.Address.Component.{parse_inet_component_canonical}
use read_mail_really_fast.Net.Address.Inet4.Components.{
  canonical, parse_inet_component_canonical_lem,
}
use read_mail_really_fast.Net.Address.Inet4.{store_canonical, inet_addr_canonical_at}

abbrev pub dotted : Bytes → Bytes → Bytes → Bytes → Bytes
dotted t1 t2 t3 t4 = t1 ++ (b'.' ∷ (t2 ++ (b'.' ∷ (t3 ++ (b'.' ∷ t4)))))

-- The parser with its parts shut.
pub parts :
    (big_endian : Bool) (str : Bytes) (idx : ℕ)
    → inet_addr_canonical_at big_endian str idx ≡ (
        let sep3 = rfind_chr str (pos (length str)) b'.' in
        let sep2 = rfind_chr str (sep3 -ℤ pos 1) b'.' in
        let sep1 = rfind_chr str (sep2 -ℤ pos 1) b'.' in
        if ltb_ℤ sep3 (pos (idx + 1))
          || (ltb_ℤ sep2 (pos (idx + 1))
              || (ltb_ℤ sep1 (pos (idx + 1))
                  || not (ltb_ℤ (rfind_chr str (sep1 -ℤ pos 1) b'.') (pos idx))))
        then none
        else store_canonical big_endian
            (parse_inet_component_canonical str idx)
            (parse_inet_component_canonical str (pos_part (sep1 +ℤ pos 1)))
            (parse_inet_component_canonical str (pos_part (sep2 +ℤ pos 1)))
            (parse_inet_component_canonical str (pos_part (sep3 +ℤ pos 1))))
unfolding inet_addr_canonical_at
parts big_endian str idx = refl

pub before : (n k : ℕ) → n ≡ suc k → pos n -ℤ pos 1 ≡ pos k
unfolding ◌-ℤ◌
before n k e = ground arith

pub after : (n : ℕ) → pos_part (pos n +ℤ pos 1) ≡ suc n
unfolding ◌+ℤ◌
after n = ground arith

-- The parser at a place, once the four searches are known.
by_positions :
    (big_endian : Bool) (str : Bytes) (idx p1 p2 p3 : ℕ)
    → rfind_chr str (pos (length str)) b'.' ≡ pos p3
    → rfind_chr str (pos p3 -ℤ pos 1) b'.' ≡ pos p2
    → rfind_chr str (pos p2 -ℤ pos 1) b'.' ≡ pos p1
    → rfind_chr str (pos p1 -ℤ pos 1) b'.' ≡ negsuc 0
    → idx < p1
    → p1 < p2
    → p2 < p3
    → inet_addr_canonical_at big_endian str idx
      ≡ store_canonical big_endian
          (parse_inet_component_canonical str idx)
          (parse_inet_component_canonical str (suc p1))
          (parse_inet_component_canonical str (suc p2))
          (parse_inet_component_canonical str (suc p3))
by_positions big_endian str idx p1 p2 p3 e3 e2 e1 e0 h1 h2 h3 =
    parts big_endian str idx ∙ rw (e3, e2, e1, e0, after p1, after p2, after p3) (ground arith)

pub drop_past : (c : ℕ) (xs ys : Bytes) → drop (suc (length xs)) (xs ++ (c ∷ ys)) ≡ ys
drop_past c [] ys = refl
drop_past c (x ∷ xs) ys = drop_past c xs ys

-- A first component that is refused refuses the address.
pub inet_addr_canonical_at_refused :
    (big_endian : Bool) (str : Bytes) (idx : ℕ)
    → parse_inet_component_canonical str idx ≡ negsuc 0
    → inet_addr_canonical_at big_endian str idx ≡ none
unfolding store_canonical
inet_addr_canonical_at_refused big_endian str idx h = parts big_endian str idx ∙ rw h (ground arith)

module _ (pre t1 t2 t3 t4 : Bytes) (l0 : lacks b'.' pre ≡ true) (l1 : lacks b'.' t1 ≡ true)
    (l2 : lacks b'.' t2 ≡ true) (l3 : lacks b'.' t3 ≡ true) (l4 : lacks b'.' t4 ≡ true)
    (some_first : 0 < length t1) (fits : length (pre ++ dotted t1 t2 t3 t4) < 2 ^ 64) where
  abbrev str : Bytes
  str = pre ++ dotted t1 t2 t3 t4

  abbrev one : Bytes
  one = pre ++ t1

  abbrev two : Bytes
  two = one ++ (b'.' ∷ t2)

  abbrev three : Bytes
  three = two ++ (b'.' ∷ t3)

  str-one : str ≡ one ++ (b'.' ∷ (t2 ++ (b'.' ∷ (t3 ++ (b'.' ∷ t4)))))
  str-one = sym (append_assoc pre t1 (b'.' ∷ (t2 ++ (b'.' ∷ (t3 ++ (b'.' ∷ t4))))))

  str-two : str ≡ two ++ (b'.' ∷ (t3 ++ (b'.' ∷ t4)))
  str-two = str-one ∙ sym (append_assoc one (b'.' ∷ t2) (b'.' ∷ (t3 ++ (b'.' ∷ t4))))

  str-three : str ≡ three ++ (b'.' ∷ t4)
  str-three = str-two ∙ sym (append_assoc two (b'.' ∷ t3) (b'.' ∷ t4))

  length-one : length one ≡ length pre + length t1
  length-one = length-append pre t1

  length-two : length two ≡ suc (length one + length t2)
  length-two = omega (arith, length-append one (b'.' ∷ t2))

  length-three : length three ≡ suc (length two + length t3)
  length-three = omega (arith, length-append two (b'.' ∷ t3))

  length-str : length str ≡ suc (length three + length t4)
  length-str = ap length str-three ∙ omega (arith, length-append three (b'.' ∷ t4))

  at_part :
      (xs t : Bytes)
      → str ≡ xs ++ (b'.' ∷ t)
      → length xs < length str
      → parse_inet_component_canonical str (suc (length xs)) ≡ canonical t
  at_part xs t e h =
      parse_inet_component_canonical_lem str (suc (length xs)) h fits
      ∙ ap canonical (ap (drop (suc (length xs))) e ∙ drop_past b'.' xs t)

  last_part : rfind_chr str (pos (length str)) b'.' ≡ pos (length three)
  last_part =
      ap (λ s. rfind_chr s (pos (length s)) b'.') str-three ∙ rfind_chr_end b'.' three t4 l4 refl

  third_part : rfind_chr str (pos (length three) -ℤ pos 1) b'.' ≡ pos (length two)
  third_part =
      ap (λ k. rfind_chr str k b'.') (before _ _ length-three)
      ∙ ap (λ s. rfind_chr s (pos (length two + length t3)) b'.') str-two
      ∙ rfind_chr_found b'.' two t3 (b'.' ∷ t4) _ l3 refl

  second_part : rfind_chr str (pos (length two) -ℤ pos 1) b'.' ≡ pos (length one)
  second_part =
      ap (λ k. rfind_chr str k b'.') (before _ _ length-two)
      ∙ ap (λ s. rfind_chr s (pos (length one + length t2)) b'.') str-one
      ∙ rfind_chr_found b'.' one t2 (b'.' ∷ (t3 ++ (b'.' ∷ t4))) _ l2 refl

  first_part : rfind_chr str (pos (length one) -ℤ pos 1) b'.' ≡ negsuc 0
  first_part =
      ap (λ k. rfind_chr str k b'.')
        (before (length one) (length one - 1) (omega (arith, length-one)))
      ∙ ap (λ s. rfind_chr s (pos (length one - 1)) b'.') str-one
      ∙ rfind_chr_none b'.' one _ (length one - 1) (lacks-append b'.' pre t1 l0 l1)
          (omega (arith, length-one))

  -- Four parts with dots between them, the first not empty, behind bytes that are no dots: each is
  -- read where it stands.
  pub inet_addr_canonical_at-dotted :
      (big_endian : Bool)
      → inet_addr_canonical_at big_endian str (length pre)
        ≡ store_canonical big_endian
            (canonical (dotted t1 t2 t3 t4))
            (canonical (t2 ++ (b'.' ∷ (t3 ++ (b'.' ∷ t4)))))
            (canonical (t3 ++ (b'.' ∷ t4)))
            (canonical t4)
  inet_addr_canonical_at-dotted big_endian =
      by_positions big_endian str (length pre) (length one) (length two) (length three) last_part
        third_part second_part first_part (omega (arith, length-one)) (omega (arith, length-two))
        (omega (arith, length-three))
      ∙ rw (
        parse_inet_component_canonical_lem str (length pre)
              (omega (arith, length-append pre (dotted t1 t2 t3 t4))) fits
            ∙ ap canonical (drop-append pre (dotted t1 t2 t3 t4)),
        at_part one (t2 ++ (b'.' ∷ (t3 ++ (b'.' ∷ t4)))) str-one
            (omega (arith, length-str, length-three, length-two)),
        at_part two (t3 ++ (b'.' ∷ t4)) str-two (omega (arith, length-str, length-three)),
        at_part three t4 str-three (omega (arith, length-str)),
      )

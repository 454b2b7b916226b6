-- ===== src/Net/Address/Inet4/Dotted.antt =====
-- The canonical parser on a text of four parts with dots between them.
use read_mail_really_fast.Prelude.{
  ℕ, ◌+◌, ◌*◌, ◌^◌, ◌<◌, ◌≡◌, refl, sym, ap, ◌∙◌, Bool, true, [], ◌∷◌, ◌++◌, append-nil, some,
  arith, Bytes, length, length-append,
}
use read_mail_really_fast.Prelude.Int.{ℤ, pos, negsuc}
use read_mail_really_fast.Net.Address.Chars.{host_to_net_32}
use read_mail_really_fast.Net.Address.Chars.Positions.{lacks}
use read_mail_really_fast.Net.Address.Inet4.Components.{
  canonical, dec, canonical-dec, lacks-dec, length-dec, length-dec-le,
}
use read_mail_really_fast.Net.Address.Inet4.Places.{dotted, inet_addr_canonical_at-dotted}
use read_mail_really_fast.Net.Address.Inet4.Pack.{pack_lem, pack_refused}
use read_mail_really_fast.Net.Address.Inet4.{
  store_canonical, inet_addr_canonical_at, inet_addr_canonical, pack,
}

from_zero :
    (big_endian : Bool) (text : Bytes)
    → inet_addr_canonical big_endian text ≡ inet_addr_canonical_at big_endian text 0
unfolding inet_addr_canonical
from_zero big_endian text = refl

pub length-dotted :
    (t1 t2 t3 t4 : Bytes)
    → length (dotted t1 t2 t3 t4) ≡ length t1 + length t2 + length t3 + length t4 + 3
length-dotted t1 t2 t3 t4 = omega (
  arith,
  length-append t1 (b'.' ∷ (t2 ++ (b'.' ∷ (t3 ++ (b'.' ∷ t4))))),
  length-append t2 (b'.' ∷ (t3 ++ (b'.' ∷ t4))),
  length-append t3 (b'.' ∷ t4),
)

store_canonical_pos :
    (big_endian : Bool) (a b c : ℕ) (d : ℤ)
    → store_canonical big_endian (pos a) (pos b) (pos c) d
      ≡ some (host_to_net_32 big_endian (pack (pos a) (pos b) (pos c) d))
unfolding store_canonical
store_canonical_pos big_endian a b c d = ground arith

module _ (big_endian : Bool) (a b c : ℕ) (ha : a < 256) (hb : b < 256) (hc : c < 256) where
  three_bytes :
      (pre t : Bytes)
      → lacks b'.' pre ≡ true
      → lacks b'.' t ≡ true
      → length pre + length t < 2 ^ 63
      → inet_addr_canonical_at big_endian (pre ++ dotted (dec a) (dec b) (dec c) t) (length pre)
        ≡ some (host_to_net_32 big_endian (pack (pos a) (pos b) (pos c) (canonical t)))
  three_bytes pre t k l f =
      inet_addr_canonical_at-dotted pre (dec a) (dec b) (dec c) t k (lacks-dec a ha)
        (lacks-dec b hb) (lacks-dec c hc) l (length-dec a ha)
        (omega (
          arith,
          length-append pre (dotted (dec a) (dec b) (dec c) t),
          length-dotted (dec a) (dec b) (dec c) t,
          length-dec-le a,
          length-dec-le b,
          length-dec-le c,
        ))
        big_endian
      ∙ rw (canonical-dec a _ ha refl, canonical-dec b _ hb refl, canonical-dec c _ hc refl)
          (store_canonical_pos big_endian a b c (canonical t))

  -- A dotted decimal text behind bytes that are no dots.
  pub inet_addr_canonical_at-dec :
      (d : ℕ) (pre : Bytes)
      → d < 256
      → lacks b'.' pre ≡ true
      → length pre < 2 ^ 62
      → inet_addr_canonical_at big_endian
          (pre ++ dotted (dec a) (dec b) (dec c) (dec d))
          (length pre)
        ≡ some (host_to_net_32 big_endian (a * 2 ^ 24 + b * 2 ^ 16 + c * 2 ^ 8 + d))
  inet_addr_canonical_at-dec d pre hd k f =
      three_bytes pre (dec d) k (lacks-dec d hd) (omega (arith, length-dec-le d))
      ∙ rw (ap canonical (sym (append-nil (dec d))) ∙ canonical-dec d [] hd tt)
          (rw (pack_lem a b c d ha hb hc hd))

  -- The dotted decimal text of four numbers below 256 is parsed to the IPv4 address of these bytes,
  -- in network order.
  pub inet_addr_canonical-dec :
      (d : ℕ)
      → d < 256
      → inet_addr_canonical big_endian (dotted (dec a) (dec b) (dec c) (dec d))
        ≡ some (host_to_net_32 big_endian (a * 2 ^ 24 + b * 2 ^ 16 + c * 2 ^ 8 + d))
  inet_addr_canonical-dec d hd =
      from_zero big_endian (dotted (dec a) (dec b) (dec c) (dec d))
      ∙ inet_addr_canonical_at-dec d [] hd refl (omega arith)

  -- After three good components, any text below 2 ^ 63 bytes without a dot that is no canonical
  -- component is taken all the same, as the address 255.255.255.255.
  pub inet_addr_canonical_takes_bad_last :
      (t : Bytes)
      → lacks b'.' t ≡ true
      → length t < 2 ^ 63
      → canonical t ≡ negsuc 0
      → inet_addr_canonical big_endian (dotted (dec a) (dec b) (dec c) t)
        ≡ some (host_to_net_32 big_endian 0xffff_ffff)
  inet_addr_canonical_takes_bad_last t l f e =
      from_zero big_endian (dotted (dec a) (dec b) (dec c) t)
      ∙ three_bytes [] t refl l (omega arith)
      ∙ rw (e, pack_refused a b c)

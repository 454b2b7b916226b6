-- ===== src/Net/Address/Inet4/Agreement.antt =====
-- The two IPv4 parsers on the same text.
use mathlib.Core.Option
use read_mail_really_fast.Prelude.{
  ℕ, ◌^◌, ◌<◌, ◌≡◌, ◌≢◌, refl, sym, ap, ◌∙◌, Bool, true, false, List, [], ◌∷◌, Option, none, some,
  arith, Bytes, length, Bool-cases, ◌==◌, inl, inr,
}
use read_mail_really_fast.Net.Address.Chars.{host_to_net_32, isdigit, is_valid_digit}
use read_mail_really_fast.Net.Address.Inet4.Split.{split}
use read_mail_really_fast.Net.Address.Inet4.Numerals.{numeral}
use read_mail_really_fast.Net.Address.Inet4.Forms.{address, four_bytes}
use read_mail_really_fast.Net.Address.Inet4.Whole.{inet_addr_impl-address}
use read_mail_really_fast.Net.Address.Inet4.Canonical.{byte, canonical_bytes, canonical_address}
use read_mail_really_fast.Net.Address.Inet4.Strict.{inet_addr_canonical-address}
use read_mail_really_fast.Net.Address.Inet4.{inet_addr_impl, inet_addr_canonical}

numeral-byte : (t : Bytes) (v : ℕ) → byte t ≡ some v → numeral 255 t ≡ some v
unfolding isdigit is_valid_digit
numeral-byte [] v e = ground arith
numeral-byte (c ∷ []) v e = ground arith
numeral-byte (c ∷ d ∷ ds) v e = elim (Bool-cases (c == b'0')) [
  | inl z ↦ absurd (ground arith)
  | inr z ↦ rw z (ground arith)
]

four_agree :
    (oa ob oc od na nb nc nd : Option ℕ) (m : ℕ)
    → ((v : ℕ) → oa ≡ some v → na ≡ some v)
    → ((v : ℕ) → ob ≡ some v → nb ≡ some v)
    → ((v : ℕ) → oc ≡ some v → nc ≡ some v)
    → ((v : ℕ) → od ≡ some v → nd ≡ some v)
    → canonical_bytes oa ob oc od ≡ some m
    → m ≢ 0xffff_ffff
    → four_bytes na nb nc nd ≡ some m
four_agree none ob oc od na nb nc nd m ha hb hc hd e n = cc
four_agree (some a) none oc od na nb nc nd m ha hb hc hd e n = cc
four_agree (some a) (some b) none od na nb nc nd m ha hb hc hd e n = cc
four_agree (some a) (some b) (some c) none na nb nc nd m ha hb hc hd e n = absurd (n (ground arith))
four_agree (some a) (some b) (some c) (some d) na nb nc nd m ha hb hc hd e n =
    rw (ha a refl, hb b refl, hc c refl, hd d refl) e

address-canonical :
    (ts : List Bytes) (m : ℕ)
    → canonical_address ts ≡ some m
    → m ≢ 0xffff_ffff
    → address ts ≡ some m
address-canonical [] m e n = cc
address-canonical (a ∷ []) m e n = cc
address-canonical (a ∷ b ∷ []) m e n = cc
address-canonical (a ∷ b ∷ c ∷ []) m e n = cc
address-canonical (a ∷ b ∷ c ∷ d ∷ []) m e n =
    four_agree (byte a) (byte b) (byte c) (byte d) (numeral 255 a) (numeral 255 b) (numeral 255 c)
      (numeral 255 d) m (numeral-byte a) (numeral-byte b) (numeral-byte c) (numeral-byte d) e n
address-canonical (a ∷ b ∷ c ∷ d ∷ t ∷ ts) m e n = cc

stored_ones : (big_endian : Bool) → host_to_net_32 big_endian 0xffff_ffff ≡ 0xffff_ffff
unfolding host_to_net_32
stored_ones true = refl
stored_ones false = refl

-- An address other than 255.255.255.255 that the canonical parser reads from a text below 2 ^ 64
-- bytes is the address that the general parser reads from it.
pub inet_addr_impl-canonical :
    (big_endian : Bool) (str : Bytes) (n : ℕ)
    → length str < 2 ^ 64
    → inet_addr_canonical big_endian str ≡ some n
    → n ≢ 0xffff_ffff
    → inet_addr_impl big_endian str ≡ some n
inet_addr_impl-canonical big_endian str n w e h =
    inet_addr_impl-address big_endian str w
    ∙ of_parts (canonical_address (split str)) refl
        (sym (inet_addr_canonical-address big_endian str w) ∙ e)
  where
    of_parts :
        (o : Option ℕ)
        → canonical_address (split str) ≡ o
        → Option.map (host_to_net_32 big_endian) o ≡ some n
        → Option.map (host_to_net_32 big_endian) (address (split str)) ≡ some n
    of_parts none c k = cc
    of_parts (some m) c k =
        ap (Option.map (host_to_net_32 big_endian)) (
          address-canonical (split str) m c (λ z. h (ground (arith, k, z, stored_ones big_endian))))
        ∙ k

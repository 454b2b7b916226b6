-- ===== src/Net/Address/Inet4.antt =====
-- The IPv4 parsers. A result 0 of the source, with the address stored through the reference, is
-- `some` of the address; a result -1, with nothing stored, is `none`.
pub mod Components
pub mod Pack
pub mod Single
pub mod Places
pub mod Dotted
pub mod Split
pub mod Numerals
pub mod Dots
pub mod Forms
pub mod Shapes
pub mod Whole
pub mod Canonical
pub mod Strict
pub mod Agreement
use Prim.Native.Nat.{bit_and, bit_or}
use read_mail_really_fast.Prelude.{
  ℕ, suc, ◌+◌, ◌-◌, ◌*◌, ◌%◌, ◌^◌, Bool, not, ◌||◌, Option, none, some, Bytes, length, ◌==◌,
  if◌then◌else◌,
}
use read_mail_really_fast.Prelude.Int.{ℤ, pos, negsuc, ◌+ℤ◌, ◌-ℤ◌, pos_part, ltb_ℤ, eq_ℤ}
use read_mail_really_fast.Net.Address.Chars.{host_to_net_32, char_at, rfind_chr}
use read_mail_really_fast.Net.Address.Component.{
  parse_inet_component, parse_inet_component_canonical,
}

-- `|`, `<<` and the conversion to `uint32_t`, on two's complement integers
abbrev pub or_ℤ : ℤ → ℤ → ℤ
or_ℤ (pos a) (pos b) = pos (bit_or a b)
or_ℤ (pos a) (negsuc m) = negsuc (m - bit_and m a)
or_ℤ (negsuc m) (pos a) = negsuc (m - bit_and m a)
or_ℤ (negsuc m) (negsuc n) = negsuc (bit_and m n)

abbrev pub shl_ℤ : ℤ → ℕ → ℤ
shl_ℤ (pos n) k = pos (n * 2 ^ k)
shl_ℤ (negsuc n) k = negsuc (suc n * 2 ^ k - 1)

abbrev pub to_u32 : ℤ → ℕ
to_u32 (pos n) = n % 2 ^ 32
to_u32 (negsuc n) = 2 ^ 32 - 1 - n % 2 ^ 32

abbrev pub pack : ℤ → ℤ → ℤ → ℤ → ℕ
pack c1 c2 c3 c4 = to_u32 (or_ℤ (or_ℤ (or_ℤ (shl_ℤ c1 24) (shl_ℤ c2 16)) (shl_ℤ c3 8)) c4)

abbrev is_negative : ℤ → Bool
is_negative c = ltb_ℤ c (pos 0)

module _ (big_endian : Bool) where
  -- The end of `inet_addr_canonical_at`, on the four components.
  unfoldable pub store_canonical : ℤ → ℤ → ℤ → ℤ → Option ℕ
  unfolding host_to_net_32
  store_canonical c1 c2 c3 c4 =
      if is_negative c1 || (is_negative c1 || (is_negative c2 || is_negative c3))
      then none
      else some (host_to_net_32 big_endian (pack c1 c2 c3 c4))

  unfoldable pub inet_addr_canonical_at : Bytes → ℕ → Option ℕ
  unfolding rfind_chr ◌+ℤ◌ ◌-ℤ◌ parse_inet_component_canonical store_canonical
  inet_addr_canonical_at str idx =
      let sep3 = rfind_chr str (pos (length str)) b'.' in
      let sep2 = rfind_chr str (sep3 -ℤ pos 1) b'.' in
      let sep1 = rfind_chr str (sep2 -ℤ pos 1) b'.' in
      if ltb_ℤ sep3 (pos (idx + 1))
        || (ltb_ℤ sep2 (pos (idx + 1))
            || (ltb_ℤ sep1 (pos (idx + 1))
                || not (ltb_ℤ (rfind_chr str (sep1 -ℤ pos 1) b'.') (pos idx))))
      then none
      else store_canonical (parse_inet_component_canonical str idx)
          (parse_inet_component_canonical str (pos_part (sep1 +ℤ pos 1)))
          (parse_inet_component_canonical str (pos_part (sep2 +ℤ pos 1)))
          (parse_inet_component_canonical str (pos_part (sep3 +ℤ pos 1)))

  unfoldable pub inet_addr_canonical : Bytes → Option ℕ
  unfolding inet_addr_canonical_at
  inet_addr_canonical str = inet_addr_canonical_at str 0

  -- The end of `inet_addr_impl`, on the four components.
  unfoldable pub store : ℤ → ℤ → ℤ → ℤ → Option ℕ
  unfolding host_to_net_32
  store c1 c2 c3 c4 =
      if is_negative c1 || (is_negative c2 || (is_negative c3 || is_negative c4))
      then none
      else some (host_to_net_32 big_endian (pack c1 c2 c3 c4))

  -- `inet_addr_impl`: the middle components, by the separators before the last.
  pub inet_addr_middle : Bytes → ℤ → ℤ → ℤ → Option ℕ
  unfolding rfind_chr ◌+ℤ◌ ◌-ℤ◌ parse_inet_component store
  inet_addr_middle str sep3 c1 c4 =
      let sep2 = rfind_chr str (sep3 -ℤ pos 1) b'.' in
      let sep1 = rfind_chr str (sep2 -ℤ pos 1) b'.' in
      if ltb_ℤ (pos 0) sep2
      then (if ltb_ℤ (pos 0) sep1
          then (if not (eq_ℤ (rfind_chr str (sep1 -ℤ pos 1) b'.') (negsuc 0))
              then none
              else store c1 (parse_inet_component 255 str (pos_part (sep1 +ℤ pos 1)))
                  (parse_inet_component 255 str (pos_part (sep2 +ℤ pos 1))) c4)
          else store c1 (parse_inet_component 255 str (pos_part (sep2 +ℤ pos 1))) (pos 0) c4)
      else store c1 (pos 0) (pos 0) c4

  unfoldable pub inet_addr_impl : Bytes → Option ℕ
  unfolding inet_addr_middle
  inet_addr_impl str =
      let sep3 = rfind_chr str (pos (length str)) b'.' in
      if char_at str 0 == b'.' || char_at str (length str) == b'.'
      then none
      else if ltb_ℤ (pos 0) sep3
      then inet_addr_middle str sep3 (parse_inet_component 255 str 0)
          (parse_inet_component 255 str (pos_part (sep3 +ℤ pos 1)))
      else store (pos 0) (pos 0) (pos 0) (parse_inet_component 0xffff_ffff str 0)

  unfoldable pub inet_aton_impl : Bytes → Option ℕ
  unfolding inet_addr_impl
  inet_aton_impl str = inet_addr_impl str

  unfoldable pub inet_aton_canonical : Bytes → Option ℕ
  unfolding inet_addr_canonical
  inet_aton_canonical str = inet_addr_canonical str

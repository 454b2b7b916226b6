-- ===== src/Net/Address/Inet4/Single.antt =====
-- An address that is written as a single decimal number.
use read_mail_really_fast.Prelude.{
  ℕ, suc, ◌+◌, ◌-◌, ◌^◌, ◌<◌, ◌≡◌, ◌≢◌, refl, ap, ◌∙◌, Bool, true, false, not, ◌&&◌, ◌||◌, [], ◌∷◌,
  none, some, arith, Bytes, length, ltb, ◌==◌, if◌then◌else◌, Bool-cases, inl, inr,
}
use read_mail_really_fast.Prelude.Int.{pos, negsuc, ◌+ℤ◌, pos_part, ltb_ℤ, to_int}
use read_mail_really_fast.Net.Address.Chars.{
  rfind_chr, host_to_net_32, char_at, decimal, toupper, isdigit, is_valid_digit,
}
use read_mail_really_fast.Net.Address.Chars.Positions.{lacks, rfind_chr-lacks, get_or_past}
use read_mail_really_fast.Net.Address.Component.{
  parse_inet_component, parse_inet_component_hex, parse_inet_component_oct, parse_address_component,
}
use read_mail_really_fast.Net.Address.Component.Token.{
  token, value, all_digits, parsed, parse_address_component_lem,
}
use read_mail_really_fast.Net.Address.Inet4.Pack.{zero-bit_or}
use read_mail_really_fast.Net.Address.Inet4.{store, inet_addr_middle, inet_addr_impl, pack}

pub token-lacks : (t : Bytes) → lacks b'.' t ≡ true → token b'.' t ≡ t
token-lacks [] h = refl
token-lacks (c ∷ t) h = ground (arith, token-lacks t)

lacks-digits : (t : Bytes) → all_digits decimal t ≡ true → lacks b'.' t ≡ true
unfolding is_valid_digit
lacks-digits [] h = refl
lacks-digits (c ∷ t) h = ground (arith, lacks-digits t)

-- The parsers with their parts shut.
pub impl_parts :
    (big_endian : Bool) (str : Bytes)
    → inet_addr_impl big_endian str ≡ (
        let sep3 = rfind_chr str (pos (length str)) b'.' in
        if char_at str 0 == b'.' || char_at str (length str) == b'.'
        then none
        else if ltb_ℤ (pos 0) sep3
        then inet_addr_middle big_endian str sep3
            (parse_inet_component 255 str 0)
            (parse_inet_component 255 str (pos_part (sep3 +ℤ pos 1)))
        else store big_endian (pos 0) (pos 0) (pos 0) (parse_inet_component 0xffff_ffff str 0))
unfolding inet_addr_impl
impl_parts big_endian str = refl

component_parts :
    (max_value : ℕ) (str : Bytes) (idx : ℕ)
    → parse_inet_component max_value str idx ≡ (
        if ltb 2 (length str + 1 - idx)
          && (char_at str idx == b'0' && toupper (char_at str (idx + 1)) == b'X')
        then parse_inet_component_hex max_value str (idx + 2)
        else if ltb 2 (length str + 1 - idx)
            && (char_at str idx == b'0'
                && (isdigit (char_at str (idx + 1)) && not (char_at str (idx + 1) == b'0')))
        then parse_inet_component_oct max_value str (idx + 1)
        else to_int (parse_address_component decimal b'.' max_value 0 str idx))
unfolding parse_inet_component
component_parts max_value str idx = refl

no_dot :
    (big_endian : Bool) (c : ℕ) (t : Bytes)
    → lacks b'.' (c ∷ t) ≡ true
    → inet_addr_impl big_endian (c ∷ t)
      ≡ store big_endian (pos 0) (pos 0) (pos 0) (parse_inet_component 0xffff_ffff (c ∷ t) 0)
no_dot big_endian c t h =
    let first : (c == b'.') ≡ false = ground arith in
    let last : char_at (c ∷ t) (suc (length t)) ≡ 0 =
      get_or_past (c ∷ t) (suc (length t)) (omega arith) in
    impl_parts big_endian (c ∷ t) ∙ rw (rfind_chr-lacks b'.' (c ∷ t) h refl, first) (rw last refl)

plain_decimal :
    (c : ℕ) (t : Bytes)
    → c ≢ b'0'
    → parse_inet_component 0xffff_ffff (c ∷ t) 0
      ≡ to_int (parse_address_component decimal b'.' 0xffff_ffff 0 (c ∷ t) 0)
plain_decimal c t h =
    let first : (c == b'0') ≡ false = ground arith in
    component_parts 0xffff_ffff (c ∷ t) 0 ∙ rw first (ground arith)

pub store_pos :
    (big_endian : Bool) (v : ℕ)
    → store big_endian (pos 0) (pos 0) (pos 0) (pos v)
      ≡ some (host_to_net_32 big_endian (pack (pos 0) (pos 0) (pos 0) (pos v)))
unfolding store
store_pos big_endian v = ground arith

store_negsuc :
    (big_endian : Bool) (m : ℕ) → store big_endian (pos 0) (pos 0) (pos 0) (negsuc m) ≡ none
unfolding store
store_negsuc big_endian m = ground arith

to_int_small : (v : ℕ) → ltb v (2 ^ 31) ≡ true → to_int (pos v) ≡ pos v
to_int_small v e = ground arith

to_int_large :
    (v : ℕ) → v < 2 ^ 32 → ltb v (2 ^ 31) ≡ false → to_int (pos v) ≡ negsuc (2 ^ 32 - 1 - v)
to_int_large v h e = ground arith

pub pack_last : (v : ℕ) → v < 2 ^ 32 → pack (pos 0) (pos 0) (pos 0) (pos v) ≡ v
pack_last v h = rw (zero-bit_or v) (omega arith)

store_last :
    (big_endian : Bool) (v : ℕ)
    → v < 2 ^ 32
    → store big_endian (pos 0) (pos 0) (pos 0) (to_int (pos v))
      ≡ (if ltb v (2 ^ 31) then some (host_to_net_32 big_endian v) else none)
store_last big_endian v h = elim (Bool-cases (ltb v (2 ^ 31))) [
  | inl e ↦
      ap (store big_endian (pos 0) (pos 0) (pos 0)) (to_int_small v e)
      ∙ store_pos big_endian v
      ∙ rw (e, pack_last v h)
  | inr e ↦
      ap (store big_endian (pos 0) (pos 0) (pos 0)) (to_int_large v h e)
      ∙ store_negsuc big_endian _
      ∙ rw e
]

parsed_digits :
    (c : ℕ) (t : Bytes)
    → all_digits decimal (c ∷ t) ≡ true
    → value decimal 0 (c ∷ t) < 2 ^ 32
    → parsed decimal 0xffff_ffff 0 (c ∷ t) ≡ pos (value decimal 0 (c ∷ t))
parsed_digits c t d h = ground arith

-- A single decimal number below 2 ^ 32, with no leading zero, in a text below 2 ^ 64 bytes, is
-- taken as an address only if it is below 2 ^ 31, and is refused otherwise.
pub inet_addr_impl_single :
    (big_endian : Bool) (c : ℕ) (t : Bytes)
    → c ≢ b'0'
    → all_digits decimal (c ∷ t) ≡ true
    → value decimal 0 (c ∷ t) < 2 ^ 32
    → length (c ∷ t) < 2 ^ 64
    → inet_addr_impl big_endian (c ∷ t) ≡ (
        if ltb (value decimal 0 (c ∷ t)) (2 ^ 31)
        then some (host_to_net_32 big_endian (value decimal 0 (c ∷ t)))
        else none)
inet_addr_impl_single big_endian c t z d h w =
    let l = lacks-digits (c ∷ t) d in
    no_dot big_endian c t l
    ∙ ap (store big_endian (pos 0) (pos 0) (pos 0)) (
        plain_decimal c t z
        ∙ ap to_int (
            parse_address_component_lem decimal b'.' 0xffff_ffff 0 (c ∷ t) 0 (omega arith) w
            ∙ ap (parsed decimal 0xffff_ffff 0) (token-lacks (c ∷ t) l)
            ∙ parsed_digits c t d h))
    ∙ store_last big_endian _ h

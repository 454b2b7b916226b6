-- ===== src/Net/Address/Component.antt =====
-- The parsers of one component of an address.
pub mod Token
use read_mail_really_fast.Prelude.{
  ℕ, zero, suc, ◌+◌, ◌-◌, ◌*◌, ◌%◌, ◌^◌, not, ◌&&◌, ◌||◌, Bytes, length, ltb, ◌==◌, if◌then◌else◌,
}
use read_mail_really_fast.Prelude.Int.{ℤ, pos, negsuc, pos_part, to_int}
use read_mail_really_fast.Net.Address.Chars.{
  toupper, isdigit, char_at, Base, octal, decimal, hexadecimal, radix, is_valid_digit,
  convert_digit,
}

-- The `for` loop from position `i` on, `n` positions before the end; 0 in `max_length` is no limit.
unfoldable pub component_loop : Base → ℕ → ℕ → ℕ → Bytes → ℕ → ℕ → ℕ → ℕ → ℤ
unfolding is_valid_digit convert_digit
component_loop base sep max_value max_length str idx zero i res = pos res
component_loop base sep max_value max_length str idx (suc n) i res =
    let res' = res * radix base + pos_part (convert_digit base (char_at str i)) in
    let rest = component_loop base sep max_value max_length str idx n (i + 1) res' in
    if char_at str i == sep
    then pos res
    else if ltb 0 max_length && ltb max_length (i - idx + 1)
    then negsuc 0
    else if not (is_valid_digit base (char_at str i))
    then negsuc 0
    else if ltb max_value res'
    then negsuc 0
    else rest

unfoldable pub parse_address_component : Base → ℕ → ℕ → ℕ → Bytes → ℕ → ℤ
unfolding component_loop
parse_address_component base sep max_value max_length str idx =
    if (length str + 2 ^ 64 - idx) % 2 ^ 64 == 0 || char_at str idx == sep
    then negsuc 0
    else component_loop base sep max_value max_length str idx (length str - idx) idx 0

-- The result of the parser, a `long long`, is converted to `int`.
unfoldable pub parse_inet_component_base : Base → ℕ → Bytes → ℕ → ℤ
unfolding parse_address_component
parse_inet_component_base base max_value str idx =
    to_int (parse_address_component base b'.' max_value 0 str idx)

unfoldable pub parse_inet_component_oct : ℕ → Bytes → ℕ → ℤ
unfolding parse_inet_component_base
parse_inet_component_oct = parse_inet_component_base octal

unfoldable pub parse_inet_component_dec : ℕ → Bytes → ℕ → ℤ
unfolding parse_inet_component_base
parse_inet_component_dec = parse_inet_component_base decimal

unfoldable pub parse_inet_component_hex : ℕ → Bytes → ℕ → ℤ
unfolding parse_inet_component_base
parse_inet_component_hex = parse_inet_component_base hexadecimal

unfoldable pub parse_inet_component : ℕ → Bytes → ℕ → ℤ
unfolding toupper isdigit parse_inet_component_hex parse_inet_component_oct parse_inet_component_dec
parse_inet_component max_value str idx =
    if ltb 2 (length str + 1 - idx)
      && (char_at str idx == b'0' && toupper (char_at str (idx + 1)) == b'X')
    then parse_inet_component_hex max_value str (idx + 2)
    else if ltb 2 (length str + 1 - idx)
        && (char_at str idx == b'0'
            && (isdigit (char_at str (idx + 1)) && not (char_at str (idx + 1) == b'0')))
    then parse_inet_component_oct max_value str (idx + 1)
    else parse_inet_component_dec max_value str idx

unfoldable pub parse_inet_component_canonical : Bytes → ℕ → ℤ
unfolding isdigit parse_address_component
parse_inet_component_canonical str idx =
    if ltb 2 (length str + 1 - idx) && (char_at str idx == b'0' && isdigit (char_at str (idx + 1)))
    then negsuc 0
    else to_int (parse_address_component decimal b'.' 255 3 str idx)

unfoldable pub parse_inet6_hexlet : Bytes → ℕ → ℤ
unfolding parse_address_component
parse_inet6_hexlet str idx = to_int (parse_address_component hexadecimal b':' 0xffff 4 str idx)

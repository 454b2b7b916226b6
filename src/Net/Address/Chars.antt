-- ===== src/Net/Address/Chars.antt =====
-- The character and byte order helpers of address.hpp.
pub mod Positions
pub mod Find
use Prim.Native.Nat.{bit_xor}
use read_mail_really_fast.Prelude.{
  ℕ, zero, suc, ◌+◌, ◌-◌, ◌*◌, ◌/◌, ◌%◌, ◌^◌, Bool, true, false, not, ◌&&◌, ◌||◌, Bytes, length,
  get_or, leb, ◌==◌, if◌then◌else◌,
}
use read_mail_really_fast.Prelude.Int.{ℤ, pos, negsuc}

-- `__builtin_bswap16` and `__builtin_bswap32`
abbrev pub bswap_16 : ℕ → ℕ
bswap_16 n = n % 2 ^ 8 * 2 ^ 8 + n / 2 ^ 8 % 2 ^ 8

abbrev pub bswap_32 : ℕ → ℕ
bswap_32 n =
    n % 2 ^ 8 * 2 ^ 24
    + n / 2 ^ 8 % 2 ^ 8 * 2 ^ 16
    + n / 2 ^ 16 % 2 ^ 8 * 2 ^ 8
    + n / 2 ^ 24 % 2 ^ 8

-- The widths for which `host_to_net` compiles; the flag is the byte order of the target.
unfoldable pub host_to_net_16 : Bool → ℕ → ℕ
host_to_net_16 big_endian n = if big_endian then n else bswap_16 n

unfoldable pub host_to_net_32 : Bool → ℕ → ℕ
host_to_net_32 big_endian n = if big_endian then n else bswap_32 n

unfoldable pub net_to_host_32 : Bool → ℕ → ℕ
unfolding host_to_net_32
net_to_host_32 = host_to_net_32

unfoldable pub isdigit : ℕ → Bool
isdigit c = leb b'0' c && leb c b'9'

unfoldable pub isxdigit : ℕ → Bool
unfolding isdigit
isxdigit c = isdigit c || (leb b'a' c && leb c b'f') || (leb b'A' c && leb c b'F')

unfoldable pub islower : ℕ → Bool
islower c = leb b'a' c && leb c b'z'

unfoldable pub toupper : ℕ → ℕ
unfolding islower
toupper c = if not (islower c) then c else bit_xor c 0x20

abbrev pub char_at : Bytes → ℕ → ℕ
char_at str i = get_or str i 0

rfind_from : Bytes → ℕ → ℕ → ℤ
rfind_from str zero c = if char_at str zero == c then pos zero else negsuc 0
rfind_from str (suc i) c =
    let rest = rfind_from str i c in if char_at str (suc i) == c then pos (suc i) else rest

-- `from` is read as a signed number, so that a start before the text finds nothing.
unfoldable pub rfind_chr : Bytes → ℤ → ℕ → ℤ
unfolding rfind_from
rfind_chr str (pos i) c = rfind_from str i c
rfind_chr str (negsuc i) c = negsuc 0

find_from : ℕ → Bytes → ℕ → ℕ → ℤ
find_from zero str i c = negsuc 0
find_from (suc n) str i c =
    let rest = find_from n str (i + 1) c in if char_at str i == c then pos i else rest

unfoldable pub find_chr : Bytes → ℕ → ℕ → ℤ
unfolding find_from
find_chr str from c = find_from (length str + 1 - from) str from c

-- The values of the template parameter `base`.
pub data Base : Type 0 where
  octal decimal hexadecimal : Base

abbrev pub radix : Base → ℕ
radix octal = 8
radix decimal = 10
radix hexadecimal = 16

unfoldable pub is_valid_digit : Base → ℕ → Bool
unfolding isdigit isxdigit
is_valid_digit octal c = leb b'0' c && leb c b'7'
is_valid_digit decimal c = isdigit c
is_valid_digit hexadecimal c = isxdigit c

-- The value of a digit that is valid.
abbrev digit_value : Base → ℕ → ℕ
digit_value octal c = c - b'0'
digit_value decimal c = c - b'0'
digit_value hexadecimal c =
    if leb b'0' c && leb c b'9'
    then c - b'0'
    else if leb b'A' c && leb c b'F'
    then c - b'A' + 10
    else c - b'a' + 10

unfoldable pub convert_digit : Base → ℕ → ℤ
unfolding is_valid_digit
convert_digit base c = if not (is_valid_digit base c) then negsuc 0 else pos (digit_value base c)

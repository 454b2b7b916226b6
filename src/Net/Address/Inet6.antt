-- ===== src/Net/Address/Inet6.antt =====
-- The IPv6 parser, in the same reading as Inet4. The address is its sixteen bytes.
pub mod Shift
pub mod Step
pub mod Groups
pub mod Layout
pub mod Words
pub mod Texts
pub mod Embedded
pub mod Shortener
pub mod Mapped
pub mod Quads
pub mod Shortened
pub mod Hexlet
pub mod Reader
pub mod States
pub mod Rounds
pub mod Standing
pub mod Leaving
pub mod Loop
pub mod Every
use read_mail_really_fast.Prelude.{
  ℕ, zero, suc, ◌+◌, ◌-◌, ◌/◌, ◌%◌, ◌^◌, Bool, true, false, not, ◌&&◌, ◌||◌, List, [], ◌∷◌, ◌++◌,
  Option, none, some, Bytes, length, get_or, set, replicate, ltb, ◌==◌, if◌then◌else◌,
}
use read_mail_really_fast.Prelude.Int.{ℤ, pos, negsuc, pos_part, eq_ℤ, to_size}
use read_mail_really_fast.Net.Address.Chars.{net_to_host_32, char_at, find_chr}
use read_mail_really_fast.Net.Address.Component.{parse_inet6_hexlet}
use read_mail_really_fast.Net.Address.Inet4.{inet_addr_canonical_at}

-- `inet6_array_to_saddr`: the high and the low byte of each hexlet.
unfoldable pub inet6_array_to_saddr : List ℕ → Bytes
inet6_array_to_saddr [] = []
inet6_array_to_saddr (hexlet ∷ rest) =
    hexlet / 2 ^ 8 % 2 ^ 8 ∷ hexlet % 2 ^ 8 ∷ inet6_array_to_saddr rest

-- The loop of `rshift_array`, at position `p` with `n` rounds left. Its test `pos - shift >= 0`
-- is on an unsigned number, and always true.
unfoldable pub shift_loop : ℕ → ℕ → ℕ → List ℕ → List ℕ
shift_loop zero p shift a = a
shift_loop (suc n) p shift a =
    shift_loop n (p - 1) shift (set (set a p (get_or a (p - shift) 0)) (p - shift) 0)

unfoldable pub rshift_array : List ℕ → ℕ → ℕ → List ℕ
unfolding shift_loop
rshift_array a from shift =
    if ltb (length a - 1) from
    then a
    else shift_loop (length a - (from + shift)) (length a - 1) shift a

-- The variables of the parser's loop.
pub record Scan : Type 0 where
  pub comps : List ℕ
  pub shortener_pos : ℤ
  pub idx : ℕ

-- One round: the parser returns -1, leaves the loop, or goes on to the next component.
pub data Round : Type 0 where
  fails : Round
  leaves next : Scan → Round

abbrev remaining_chars : Bytes → ℕ → ℕ
remaining_chars str p = length str - p

abbrev has_shortener : Scan → Bool
has_shortener s = not (eq_ℤ s.shortener_pos (negsuc 0))

unfoldable pub shift_from_shortener : Scan → List ℕ → ℕ → List ℕ
unfolding rshift_array
shift_from_shortener s comps n =
    if has_shortener s then rshift_array comps (to_size s.shortener_pos) n else comps

-- The last 32 bits are the IPv4 address that stands at the end of the text.
unfoldable pub embed : Bool → Bytes → ℕ → Scan → ℕ → Scan
unfolding shift_from_shortener net_to_host_32
embed big_endian str i s v4_addr =
    let host = net_to_host_32 big_endian v4_addr in
    let comps' = set (set s.comps i (host / 2 ^ 16 % 2 ^ 16)) (i + 1) (host % 2 ^ 16) in
    record s { comps = shift_from_shortener s comps' (8 - (i + 2)); idx = length str }

-- A shortener token at component `i`.
shorten : Bytes → ℕ → Scan → Round
shorten str i s =
    if has_shortener s
    then fails
    else if not (ltb (remaining_chars str s.idx) 3) && char_at str (s.idx + 2) == b':'
    then fails
    else next (record s { shortener_pos = pos i; idx = s.idx + 2 })

after_hexlet : Bytes → ℤ → ℕ
after_hexlet str (negsuc _) = length str
after_hexlet str (pos next_sep) =
    if not (ltb (remaining_chars str next_sep) 2) && char_at str (next_sep + 1) == b':'
    then next_sep
    else next_sep + 1

store_hexlet : Bytes → ℕ → Scan → ℤ → Round
unfolding after_hexlet find_chr
store_hexlet str i s (negsuc _) = fails
store_hexlet str i s (pos hexlet) = next (record s {
  comps = set s.comps i (hexlet % 2 ^ 16);
  idx = after_hexlet str (find_chr str s.idx b':');
})

unfoldable pub take_component : Bytes → ℕ → Scan → Round
unfolding shorten store_hexlet parse_inet6_hexlet
take_component str i s =
    if not (ltb (remaining_chars str s.idx) 2)
      && (char_at str s.idx == b':' && char_at str (s.idx + 1) == b':')
    then shorten str i s
    else store_hexlet str i s (parse_inet6_hexlet str s.idx)

unfoldable pub round : Bool → Bytes → ℕ → Scan → Round
unfolding shift_from_shortener embed take_component inet_addr_canonical_at
round big_endian str i s =
    if s.idx == length str
    then (if has_shortener s
        then leaves (record s { comps = shift_from_shortener s s.comps (8 - i) })
        else fails)
    else if i == 6 || (ltb i 6 && has_shortener s)
    then elim (inet_addr_canonical_at big_endian str s.idx) [
      | some v4_addr ↦ leaves (embed big_endian str i s v4_addr)
      | none ↦ take_component str i s
    ]
    else take_component str i s

-- The `for` loop at component `i`, with `n` components left.
unfoldable pub scan_loop : Bool → Bytes → ℕ → ℕ → Scan → Option Scan
unfolding round
scan_loop big_endian str zero i s = some s
scan_loop big_endian str (suc n) i s = elim (round big_endian str i s) [
  | fails ↦ none
  | leaves t ↦ some t
  | next t ↦ scan_loop big_endian str n (i + 1) t
]

abbrev pub start : Scan
start = record { comps = replicate 8 0; shortener_pos = negsuc 0; idx = 0 }

abbrev bad_ends : Bytes → Bool
bad_ends str =
    (char_at str 0 == b':' && not (char_at str 1 == b':'))
    || (char_at str (length str) == b':' && not (char_at str (length str - 1) == b':'))

-- The parser must have come to the end of the text.
unfoldable pub finish : Bytes → Option Scan → Option Bytes
unfolding inet6_array_to_saddr
finish str none = none
finish str (some s) =
    if not (s.idx == length str) then none else some (inet6_array_to_saddr s.comps)

unfoldable pub inet6_aton : Bool → Bytes → Option Bytes
unfolding finish scan_loop
inet6_aton big_endian str =
    if ltb (length str + 1) 3 || bad_ends str
    then none
    else finish str (scan_loop big_endian str 8 0 start)

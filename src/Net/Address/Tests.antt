-- ===== src/Net/Address/Tests.antt =====
-- Tests of the address parsers, and their theorems at concrete inputs.
use mathlib.Core.Option
use read_mail_really_fast.Prelude.{
  ◌∷◌, ◌≡◌, refl, false, none, some, [], Bytes, ◌+◌, ◌*◌, ◌^◌, codes, arith, drop, List, map, ◌++◌,
  length, ◌-◌,
}
use read_mail_really_fast.Net.Address.Chars.{decimal, host_to_net_32, is_valid_digit, convert_digit}
use read_mail_really_fast.Net.Address.Component.{parse_address_component}
use read_mail_really_fast.Net.Address.Component.Token.{parsed, token, parse_address_component_lem}
use read_mail_really_fast.Net.Address.Inet4.{inet_addr_impl, inet_addr_canonical}
use read_mail_really_fast.Net.Address.Inet4.Components.{dec}
use read_mail_really_fast.Net.Address.Inet4.Places.{dotted}
use read_mail_really_fast.Net.Address.Inet4.Dotted.{inet_addr_canonical-dec}
use read_mail_really_fast.Net.Address.Inet4.Split.{split}
use read_mail_really_fast.Net.Address.Inet4.Forms.{address}
use read_mail_really_fast.Net.Address.Inet4.Whole.{inet_addr_impl-address}
use read_mail_really_fast.Net.Address.Inet4.Canonical.{canonical_address}
use read_mail_really_fast.Net.Address.Inet4.Strict.{inet_addr_canonical-address}
use read_mail_really_fast.Net.Address.Inet4.Agreement.{inet_addr_impl-canonical}
use read_mail_really_fast.Net.Address.Inet6.{inet6_aton}
use read_mail_really_fast.Net.Address.Inet6.Hexlet.{hexlet_value}
use read_mail_really_fast.Net.Address.Inet6.Groups.{joined}
use read_mail_really_fast.Net.Address.Inet6.Layout.{zeros}
use read_mail_really_fast.Net.Address.Inet6.Words.{network_order}
use read_mail_really_fast.Net.Address.Inet6.Texts.{inet6_aton_groups}
use read_mail_really_fast.Net.Address.Inet6.Shortened.{inet6_aton_shortened}
use read_mail_really_fast.Net.Address.Inet6.Reader.{read_words, unbroken}
use read_mail_really_fast.Net.Address.Inet6.Every.{inet6_aton-read_words}
use read_mail_really_fast.Net.Address.Inet6.Embedded.{halves}
use read_mail_really_fast.Net.Address.Inet6.Mapped.{mapped}
use read_mail_really_fast.Net.Address.Inet6.Quads.{inet6_aton-mapped, inet6_aton-mapped_clears}

t4a : inet_addr_canonical false (codes "192.168.1.2") ≡ some 0x0201a8c0
unfolding inet_addr_canonical
t4a = refl

t4b : inet_addr_canonical false (codes "192.168.1.x") ≡ some 0xffff_ffff
unfolding inet_addr_canonical
t4b = refl

t4c : inet_addr_impl false (codes "0x7f.1") ≡ some 0x0100007f
unfolding inet_addr_impl
t4c = refl

t4d : inet_addr_impl false (codes "3232235777") ≡ none
unfolding inet_addr_impl
t4d = refl

t6a :
    inet6_aton false (codes "1:2::ffff")
    ≡ some (0 ∷ 1 ∷ 0 ∷ 2 ∷ 0 ∷ 0 ∷ 0 ∷ 0 ∷ 0 ∷ 0 ∷ 0 ∷ 0 ∷ 0 ∷ 0 ∷ 255 ∷ 255 ∷ [])
unfolding inet6_aton
t6a = refl

t6b :
    inet6_aton false (codes "::ffff:1.2.3.4")
    ≡ some (0 ∷ 0 ∷ 0 ∷ 0 ∷ 0 ∷ 0 ∷ 0 ∷ 0 ∷ 0 ∷ 0 ∷ 255 ∷ 255 ∷ 1 ∷ 2 ∷ 3 ∷ 4 ∷ [])
unfolding inet6_aton
t6b = refl

t6c :
    inet6_aton false (codes "1:2:3:4:5::1.2.3.4")
    ≡ some (0 ∷ 1 ∷ 0 ∷ 2 ∷ 0 ∷ 3 ∷ 0 ∷ 4 ∷ 0 ∷ 5 ∷ 0 ∷ 0 ∷ 0 ∷ 0 ∷ 0 ∷ 0 ∷ [])
unfolding inet6_aton
t6c = refl

t6d :
    inet6_aton false (codes "1:2:3:4:5:6:7:8:")
    ≡ some (0 ∷ 1 ∷ 0 ∷ 2 ∷ 0 ∷ 3 ∷ 0 ∷ 4 ∷ 0 ∷ 5 ∷ 0 ∷ 6 ∷ 0 ∷ 7 ∷ 0 ∷ 8 ∷ [])
unfolding inet6_aton
t6d = refl

inet_addr_canonical-dec_example :
    inet_addr_canonical false (dotted (dec 192) (dec 168) (dec 1) (dec 2))
    ≡ some (host_to_net_32 false (192 * 2 ^ 24 + 168 * 2 ^ 16 + 1 * 2 ^ 8 + 2))
inet_addr_canonical-dec_example =
    inet_addr_canonical-dec false 192 168 1 (omega arith) (omega arith) (omega arith) 2
      (omega arith)

inet_addr_canonical-address_example :
    inet_addr_canonical false (codes "192.168.1.x")
    ≡ Option.map (host_to_net_32 false) (canonical_address (split (codes "192.168.1.x")))
inet_addr_canonical-address_example =
    inet_addr_canonical-address false (codes "192.168.1.x") (omega arith)

inet_addr_impl-address_example :
    inet_addr_impl false (codes "0x7f.017.9")
    ≡ Option.map (host_to_net_32 false) (address (split (codes "0x7f.017.9")))
inet_addr_impl-address_example = inet_addr_impl-address false (codes "0x7f.017.9") (omega arith)

inet_addr_impl-canonical_example : inet_addr_impl false (codes "10.2.30.44") ≡ some 0x2c1e020a
unfolding inet_addr_canonical
inet_addr_impl-canonical_example =
    inet_addr_impl-canonical false (codes "10.2.30.44") 0x2c1e020a (omega arith) refl (omega arith)

parse_address_component_lem_example :
    parse_address_component decimal b'.' 255 3 (codes "10.25") 3
    ≡ parsed decimal 255 3 (token b'.' (drop 3 (codes "10.25")))
parse_address_component_lem_example =
    parse_address_component_lem decimal b'.' 255 3 (codes "10.25") 3 (omega arith) (omega arith)

-- The groups of the address 2001:db8:85a3:0:0:8A2E:370:7334.
abbrev eight_groups : List Bytes
eight_groups =
    codes "2001"
    ∷ codes "db8"
    ∷ codes "85a3"
    ∷ codes "0"
    ∷ codes "0"
    ∷ codes "8A2E"
    ∷ codes "370"
    ∷ codes "7334"
    ∷ []

inet6_aton_groups_example :
    inet6_aton false (joined eight_groups []) ≡ some (network_order (map hexlet_value eight_groups))
unfolding is_valid_digit
inet6_aton_groups_example = inet6_aton_groups false eight_groups refl refl

t6e : joined eight_groups [] ≡ codes "2001:db8:85a3:0:0:8A2E:370:7334"
t6e = refl

t6f :
    network_order (map hexlet_value eight_groups)
    ≡ 0x20 ∷ 0x01 ∷ 0x0d ∷ 0xb8 ∷ 0x85 ∷ 0xa3 ∷ 0 ∷ 0 ∷ 0 ∷ 0 ∷ 0x8a ∷ 0x2e ∷ 0x03 ∷ 0x70 ∷ 0x73
      ∷ 0x34 ∷ []
unfolding convert_digit
t6f = refl

inet6_aton_shortened_example :
    inet6_aton false
      (joined (codes "2001" ∷ codes "db8" ∷ []) (b':' ∷ b':' ∷ joined (codes "1" ∷ []) []))
    ≡ some (
        network_order (
          map hexlet_value (codes "2001" ∷ codes "db8" ∷ [])
          ++ (zeros (8 - (length (codes "2001" ∷ codes "db8" ∷ []) + length (codes "1" ∷ [])))
              ++ map hexlet_value (codes "1" ∷ []))))
unfolding is_valid_digit
inet6_aton_shortened_example =
    inet6_aton_shortened false (codes "2001" ∷ codes "db8" ∷ []) (codes "1" ∷ []) refl refl
      (omega arith)

-- The groups 1:2:3:4:5.
abbrev five_groups : List Bytes
five_groups = codes "1" ∷ codes "2" ∷ codes "3" ∷ codes "4" ∷ codes "5" ∷ []

inet6_aton-mapped_example :
    inet6_aton false (mapped [] (codes "ffff" ∷ []) 192 168 1 2)
    ≡ some (
        network_order (
          []
          ++ (zeros (6 - (0 + 1)) ++ (map hexlet_value (codes "ffff" ∷ []) ++ halves 192 168 1 2))))
unfolding is_valid_digit
inet6_aton-mapped_example =
    inet6_aton-mapped false 192 168 1 2 (omega arith) (omega arith) (omega arith) (omega arith) []
      (codes "ffff" ∷ []) refl refl (omega arith)

t6g : mapped [] (codes "ffff" ∷ []) 192 168 1 2 ≡ codes "::ffff:192.168.1.2"
unfolding dec
t6g = refl

inet6_aton-mapped_clears_example :
    inet6_aton false (mapped five_groups [] 1 2 3 4)
    ≡ some (network_order (map hexlet_value five_groups ++ zeros (8 - 5)))
unfolding is_valid_digit
inet6_aton-mapped_clears_example =
    inet6_aton-mapped_clears false 1 2 3 4 (omega arith) (omega arith) (omega arith) (omega arith)
      five_groups [] refl refl refl

inet6_aton-read_words_example :
    inet6_aton false (codes "fe80:7::a:192.168.1.x")
    ≡ Option.map network_order (read_words 8 (unbroken []) (codes "fe80:7::a:192.168.1.x"))
inet6_aton-read_words_example =
    inet6_aton-read_words false (codes "fe80:7::a:192.168.1.x") (omega arith)

read_words_mapped :
    read_words 8 (unbroken []) (codes "fe80:7::a:192.168.1.2")
    ≡ some (0xfe80 ∷ 7 ∷ 0 ∷ 0 ∷ 0 ∷ 10 ∷ 0xc0a8 ∷ 0x0102 ∷ [])
unfolding read_words is_valid_digit convert_digit
read_words_mapped = refl

read_words_last_colon :
    read_words 8 (unbroken []) (codes "1:2:3:4:5:6:7:8:")
    ≡ some (1 ∷ 2 ∷ 3 ∷ 4 ∷ 5 ∷ 6 ∷ 7 ∷ 8 ∷ [])
unfolding read_words is_valid_digit convert_digit
read_words_last_colon = refl

read_words_two_shorteners : read_words 8 (unbroken []) (codes "1::2::3") ≡ none
unfolding read_words is_valid_digit convert_digit
read_words_two_shorteners = refl

-- ===== src/Net/Address/Inet6/Hexlet.antt =====
-- The parser of one hexlet of address.hpp, on a group of one to four hexadecimal digits.
use read_mail_really_fast.Prelude.{
  ℕ, ◌+◌, ◌*◌, ◌^◌, ◌≤◌, ◌<◌, ◌≡◌, refl, ap, ◌∙◌, Bool, true, false, ◌&&◌, List, [], ◌∷◌, ◌++◌,
  arith, Bytes, length, drop, ltb, leb, ◌==◌,
}
use read_mail_really_fast.Prelude.Int.{negsuc, pos, to_int}
use read_mail_really_fast.Net.Address.Chars.{decimal, hexadecimal}
use read_mail_really_fast.Net.Address.Chars.Positions.{lacks}
use read_mail_really_fast.Net.Address.Component.{parse_inet6_hexlet}
use read_mail_really_fast.Net.Address.Inet4.Components.{canonical}
use read_mail_really_fast.Net.Address.Component.Token.{
  token, worth, is_digit, all_digits, value, parsed, parse_address_component_lem,
}

-- One to four hexadecimal digits.
abbrev pub is_hexlet : Bytes → Bool
is_hexlet t = all_digits hexadecimal t && (ltb 0 (length t) && leb (length t) 4)

abbrev pub are_hexlets : List Bytes → Bool
are_hexlets [] = true
are_hexlets (t ∷ ts) = is_hexlet t && are_hexlets ts

-- What the digits stand for.
abbrev pub hexlet_value : Bytes → ℕ
hexlet_value t = value hexadecimal 0 t

digit_lt : (c : ℕ) → is_digit hexadecimal c ≡ true → worth c < 16
digit_lt c h = ground arith

pub digit-lacks-colon : (c : ℕ) → is_digit hexadecimal c ≡ true → (c == b':') ≡ false
digit-lacks-colon c h = ground arith

pub digit-lacks-dot : (c : ℕ) → is_digit hexadecimal c ≡ true → (c == b'.') ≡ false
digit-lacks-dot c h = ground arith

pub digits-lacks-colon : (t : Bytes) → all_digits hexadecimal t ≡ true → lacks b':' t ≡ true
digits-lacks-colon [] h = refl
digits-lacks-colon (c ∷ t) h = ground (arith, digit-lacks-colon c, digits-lacks-colon t)

pub digits-lacks-dot : (t : Bytes) → all_digits hexadecimal t ≡ true → lacks b'.' t ≡ true
digits-lacks-dot [] h = refl
digits-lacks-dot (c ∷ t) h = ground (arith, digit-lacks-dot c, digits-lacks-dot t)

both : (a b : Bool) → (a && b) ≡ true → (a ≡ true) × (b ≡ true)
both true b h = (refl, h)
both false b h = cc

head_lt :
    (c : ℕ) (t : Bytes)
    → all_digits hexadecimal (c ∷ t) ≡ true
    → (worth c < 16) × (all_digits hexadecimal t ≡ true)
head_lt c t h =
    let (d, r) = both (is_digit hexadecimal c) (all_digits hexadecimal t) h in (digit_lt c d, r)

four_lt :
    (w x y z : ℕ)
    → w < 16
    → x < 16
    → y < 16
    → z < 16
    → (((0 * 16 + w) * 16 + x) * 16 + y) * 16 + z < 2 ^ 16
four_lt w x y z hw hx hy hz = omega arith

-- A shorter group stands for what it does behind zeros.
padded_lt : (t : Bytes) → all_digits hexadecimal t ≡ true → length t ≤ 4 → hexlet_value t < 2 ^ 16
padded_lt [] h l = omega arith
padded_lt (a ∷ []) h l =
    let (ha, h1) = head_lt a [] h in
    four_lt 0 0 0 (worth a) (omega arith) (omega arith) (omega arith) ha
padded_lt (a ∷ b ∷ []) h l =
    let (ha, h1) = head_lt a (b ∷ []) h in
    let (hb, h2) = head_lt b [] h1 in
    four_lt 0 0 (worth a) (worth b) (omega arith) (omega arith) ha hb
padded_lt (a ∷ b ∷ c ∷ []) h l =
    let (ha, h1) = head_lt a (b ∷ c ∷ []) h in
    let (hb, h2) = head_lt b (c ∷ []) h1 in
    let (hc, h3) = head_lt c [] h2 in four_lt 0 (worth a) (worth b) (worth c) (omega arith) ha hb hc
padded_lt (a ∷ b ∷ c ∷ d ∷ []) h l =
    let (ha, h1) = head_lt a (b ∷ c ∷ d ∷ []) h in
    let (hb, h2) = head_lt b (c ∷ d ∷ []) h1 in
    let (hc, h3) = head_lt c (d ∷ []) h2 in
    let (hd, h4) = head_lt d [] h3 in four_lt (worth a) (worth b) (worth c) (worth d) ha hb hc hd
padded_lt (a ∷ b ∷ c ∷ d ∷ e ∷ t) h l = absurd (omega arith)

pub hexlet_lt : (t : Bytes) → is_hexlet t ≡ true → hexlet_value t < 2 ^ 16
hexlet_lt t h =
    let (digits, size) = both (all_digits hexadecimal t) (ltb 0 (length t) && leb (length t) 4) h in
    let short : length t ≤ 4 = ground arith in padded_lt t digits short

-- A byte that may stand behind a hexlet, if any does.
abbrev pub ends_hexlet : Bytes → Bool
ends_hexlet [] = true
ends_hexlet (c ∷ cs) = c == b':'

token-append :
    (t rest : Bytes) → lacks b':' t ≡ true → ends_hexlet rest ≡ true → token b':' (t ++ rest) ≡ t
token-append [] [] h e = refl
token-append [] (c ∷ rest) h e = ground arith
token-append (c ∷ t) rest h e = ground (arith, token-append t rest)

hexlet-parsed :
    (t : Bytes)
    → is_hexlet t ≡ true
    → hexlet_value t < 2 ^ 16
    → parsed hexadecimal 0xffff 4 t ≡ pos (hexlet_value t)
hexlet-parsed [] h l = cc
hexlet-parsed (c ∷ t) h l = ground arith

-- The parser reads the hexlet at its position.
pub parse_inet6_hexlet_lem :
    (str t rest : Bytes) (idx : ℕ)
    → is_hexlet t ≡ true
    → ends_hexlet rest ≡ true
    → idx ≤ length str
    → length str < 2 ^ 64
    → drop idx str ≡ t ++ rest
    → parse_inet6_hexlet str idx ≡ pos (hexlet_value t)
unfolding parse_inet6_hexlet
parse_inet6_hexlet_lem str t rest idx h e b w d =
    let l = hexlet_lt t h in
    let digits : all_digits hexadecimal t ≡ true = ground arith in
    ap to_int (
      parse_address_component_lem hexadecimal b':' 0xffff 4 str idx b w
      ∙ ap (λ s. parsed hexadecimal 0xffff 4 (token b':' s)) d
      ∙ ap (parsed hexadecimal 0xffff 4) (token-append t rest (digits-lacks-colon t digits) e)
      ∙ hexlet-parsed t h l)
    ∙ ground arith

-- A hexlet with a colon behind it is no component of an IPv4 address.
token-colon :
    (t r : Bytes)
    → all_digits hexadecimal t ≡ true
    → token b'.' (t ++ (b':' ∷ r)) ≡ t ++ (b':' ∷ token b'.' r)
token-colon [] r h = refl
token-colon (c ∷ t) r h = ground (arith, digit-lacks-dot c, token-colon t r)

all_digits-colon : (t r : Bytes) → all_digits decimal (t ++ (b':' ∷ r)) ≡ false
all_digits-colon [] r = refl
all_digits-colon (c ∷ t) r = ground (arith, all_digits-colon t r)

parsed-colon : (t r : Bytes) → parsed decimal 255 3 (t ++ (b':' ∷ r)) ≡ negsuc 0
parsed-colon [] r = ground (arith, all_digits-colon [] r)
parsed-colon (c ∷ t) r = ground (arith, all_digits-colon (c ∷ t) r)

pub canonical-colon :
    (t r : Bytes) → all_digits hexadecimal t ≡ true → canonical (t ++ (b':' ∷ r)) ≡ negsuc 0
canonical-colon t r h = rw (token-colon t r h, parsed-colon t (token b'.' r)) (ground arith)

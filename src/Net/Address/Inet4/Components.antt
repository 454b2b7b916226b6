-- ===== src/Net/Address/Inet4/Components.antt =====
-- The canonical component parser on the text from its position on, and the decimal numerals.
use read_mail_really_fast.Prelude.{
  ℕ, ◌+◌, ◌-◌, ◌/◌, ◌%◌, ◌^◌, ◌≤◌, ◌<◌, ◌≡◌, refl, ap, Bool, true, false, not, ◌&&◌, [], ◌∷◌, ◌++◌,
  arith, all_below, all_below_at, Bytes, length, length-drop, drop, ltb, ◌==◌, if◌then◌else◌,
}
use read_mail_really_fast.Prelude.Int.{ℤ, pos, negsuc, to_int}
use read_mail_really_fast.Net.Address.Chars.{isdigit, char_at, decimal, convert_digit}
use read_mail_really_fast.Net.Address.Chars.Positions.{lacks}
use read_mail_really_fast.Net.Address.Component.{parse_inet_component_canonical}
use read_mail_really_fast.Net.Address.Component.Token.{
  token, value, is_number, parsed, get_or-drop, parse_address_component_lem,
}

-- A zero with another digit behind it.
abbrev pub leads_zero : Bytes → Bool
leads_zero [] = false
leads_zero (c ∷ []) = false
leads_zero (c ∷ d ∷ rest) = c == b'0' && isdigit d

-- What the text from a position on is read as.
abbrev pub canonical : Bytes → ℤ
canonical xs = if leads_zero xs then negsuc 0 else to_int (parsed decimal 255 3 (token b'.' xs))

abbrev test : Bytes → ℕ → Bool
test str idx =
    ltb 2 (length str + 1 - idx) && (char_at str idx == b'0' && isdigit (char_at str (idx + 1)))

test-leads_zero :
    (str : Bytes) (idx : ℕ) (xs : Bytes)
    → idx ≤ length str
    → drop idx str ≡ xs
    → test str idx ≡ leads_zero xs
test-leads_zero str idx [] h e = let n = length-drop idx str in let l = ap length e in ground arith
test-leads_zero str idx (c ∷ []) h e =
    let n = length-drop idx str in let l = ap length e in ground arith
test-leads_zero str idx (c ∷ d ∷ rest) h e =
    let n = length-drop idx str in
    let l = ap length e in
    let (x, y) = get_or-drop str idx c (d ∷ rest) e in
    let z = (get_or-drop str (idx + 1) d rest y).0 in rw (x, z) (ground arith)

-- The canonical parser depends on the text behind its position only: no number with a leading
-- zero, and else the token up to the next dot, of at most three digits and at most 255.
pub parse_inet_component_canonical_lem :
    (str : Bytes) (idx : ℕ)
    → idx ≤ length str
    → length str < 2 ^ 64
    → parse_inet_component_canonical str idx ≡ canonical (drop idx str)
unfolding parse_inet_component_canonical
parse_inet_component_canonical_lem str idx h w = rw (
  test-leads_zero str idx (drop idx str) h refl,
  parse_address_component_lem decimal b'.' 255 3 str idx h w,
)

-- The decimal numeral of a byte.
unfoldable pub dec : ℕ → Bytes
dec n =
    if ltb n 10
    then (b'0' + n) ∷ []
    else if ltb n 100
    then (b'0' + n / 10) ∷ (b'0' + n % 10) ∷ []
    else (b'0' + n / 100) ∷ (b'0' + n / 10 % 10) ∷ (b'0' + n % 10) ∷ []

abbrev is_zero_led : Bytes → Bool
is_zero_led (c ∷ d ∷ rest) = c == b'0'
is_zero_led _ = false

-- All that is needed of a numeral, as a test.
abbrev reads_back : ℕ → Bool
reads_back n =
    is_number decimal 255 3 (dec n)
    && (value decimal 0 (dec n) == n
        && (lacks b'.' (dec n) && (not (is_zero_led (dec n)) && ltb 0 (length (dec n)))))

reads_back_table : all_below 256 reads_back ≡ true
unfolding all_below dec convert_digit
reads_back_table = refl

reads_back_at : (n : ℕ) → n < 256 → reads_back n ≡ true
reads_back_at n h = all_below_at 256 reads_back n reads_back_table h

pub lacks-dec : (n : ℕ) → n < 256 → lacks b'.' (dec n) ≡ true
lacks-dec n h = let t = reads_back_at n h in ground arith

pub length-dec : (n : ℕ) → n < 256 → 0 < length (dec n)
length-dec n h = let t = reads_back_at n h in ground arith

pub length-dec-le : (n : ℕ) → length (dec n) ≤ 3
unfolding dec
length-dec-le n = ground arith

-- A text that stands at the end, or before a dot.
abbrev pub Stops : Bytes → Type 0
Stops [] = Unit {0}
Stops (c ∷ rest) = c ≡ b'.'

pub token-append : (t rest : Bytes) → lacks b'.' t ≡ true → Stops rest → token b'.' (t ++ rest) ≡ t
token-append [] [] h s = refl
token-append [] (c ∷ rest) h s = ground arith
token-append (c ∷ t) rest h s = ground (arith, token-append t rest)

leads_zero-append :
    (t rest : Bytes)
    → is_zero_led t ≡ false
    → 0 < length t
    → Stops rest
    → leads_zero (t ++ rest) ≡ false
unfolding isdigit
leads_zero-append [] rest h l s = absurd (omega arith)
leads_zero-append (c ∷ []) [] h l s = refl
leads_zero-append (c ∷ []) (d ∷ rest) h l s = ground arith
leads_zero-append (c ∷ d ∷ t) rest h l s = ground arith

parsed-dec : (n : ℕ) → n < 256 → parsed decimal 255 3 (dec n) ≡ pos n
parsed-dec n h = parsed_of (dec n) (reads_back_at n h)
  where
    parsed_of :
        (t : Bytes)
        → (is_number decimal 255 3 t
            && (value decimal 0 t == n
                && (lacks b'.' t && (not (is_zero_led t) && ltb 0 (length t)))))
          ≡ true
        → parsed decimal 255 3 t ≡ pos n
    parsed_of [] e = ground arith
    parsed_of (c ∷ t) e = ground arith

-- The numeral of a byte is read back as that byte.
pub canonical-dec :
    (n : ℕ) (rest : Bytes) → n < 256 → Stops rest → canonical (dec n ++ rest) ≡ pos n
canonical-dec n rest h s =
    let t = reads_back_at n h in
    let z : is_zero_led (dec n) ≡ false = ground arith in
    rw
      (
        leads_zero-append (dec n) rest z (length-dec n h) s,
        token-append (dec n) rest (lacks-dec n h) s,
        parsed-dec n h,
      )
      (ground arith)

-- ===== src/Net/Address/Inet4/Numerals.antt =====
-- The numerals of a component: decimal, octal behind 0, hexadecimal behind 0x.
use read_mail_really_fast.Prelude.{
  all_below, all_below_at, min, ℕ, ◌+◌, ◌-◌, ◌^◌, ◌≤◌, ◌<◌, ◌≡◌, refl, sym, ap, ◌∙◌, Bool, true,
  false, not, ◌&&◌, ◌||◌, [], ◌∷◌, ◌++◌, Option, none, some, arith, Bytes, length, length-drop,
  drop, ltb→lt, ltb, leb, ◌==◌, if◌then◌else◌, Bool-cases, inl, inr,
}
use read_mail_really_fast.Prelude.Int.{ℤ, pos, negsuc, to_int, ltb_ℤ}
use read_mail_really_fast.Net.Address.Chars.{
  Base, octal, decimal, hexadecimal, toupper, islower, isdigit, char_at,
}
use read_mail_really_fast.Net.Address.Chars.Positions.{lacks}
use read_mail_really_fast.Net.Address.Component.{parse_inet_component, parse_address_component}
use read_mail_really_fast.Net.Address.Component.Token.{
  token, value, all_digits, parsed, get_or-drop, parse_address_component_lem,
}
use read_mail_really_fast.Net.Address.Inet4.Components.{Stops, token-append}

-- Digits, at least one, of a number up to a limit.
abbrev pub number : Base → ℕ → Bytes → Option ℕ
number base limit [] = none
number base limit (c ∷ cs) =
    if all_digits base (c ∷ cs) && leb (value base 0 (c ∷ cs)) limit
    then some (value base 0 (c ∷ cs))
    else none

-- A numeral in one of the three bases. A zero before another zero begins no octal numeral.
abbrev pub numeral : ℕ → Bytes → Option ℕ
numeral limit (c ∷ d ∷ ds) =
    if c == b'0' && (d == b'x' || d == b'X')
    then number hexadecimal limit ds
    else if c == b'0' && (leb b'1' d && leb d b'9')
    then number octal limit (d ∷ ds)
    else number decimal limit (c ∷ d ∷ ds)
numeral limit t = number decimal limit t

-- The parser's result stands for what the numeral says; a refusal is any negative number.
abbrev pub StandsFor : ℤ → ℕ → Option ℕ → Type 0
StandsFor r limit none = ltb_ℤ r (pos 0) ≡ true
StandsFor r limit (some v) = (r ≡ pos v) × (v ≤ limit)

abbrev pub Limits : ℕ → ℕ → Type 0
Limits max_value limit = (max_value < 2 ^ 32) × (limit ≡ min max_value (2 ^ 31 - 1))

decided :
    (b : Bool) (v max_value limit : ℕ)
    → Limits max_value limit
    → StandsFor
        (to_int (if b && leb v max_value then pos v else negsuc 0))
        limit
        (if b && leb v limit then some v else none)
decided false v max_value limit h = refl
decided true v max_value limit h = elim (Bool-cases (leb v limit)) [
  | inl e ↦ let f : leb v max_value ≡ true = ground arith in rw (e, f) (ground arith, ground arith)
  | inr e ↦ rw e (ground arith)
]

parsed-StandsFor :
    (base : Base) (max_value limit : ℕ) (t : Bytes)
    → Limits max_value limit
    → StandsFor (to_int (parsed base max_value 0 t)) limit (number base limit t)
parsed-StandsFor base max_value limit [] h = refl
parsed-StandsFor base max_value limit (c ∷ cs) h =
    decided (all_digits base (c ∷ cs)) (value base 0 (c ∷ cs)) max_value limit h

-- The parser, on what stands behind its position.
abbrev pub reading : ℕ → Bytes → ℤ
reading max_value (c ∷ d ∷ ds) =
    if c == b'0' && toupper d == b'X'
    then to_int (parsed hexadecimal max_value 0 (token b'.' ds))
    else if c == b'0' && (isdigit d && not (d == b'0'))
    then to_int (parsed octal max_value 0 (token b'.' (d ∷ ds)))
    else to_int (parsed decimal max_value 0 (token b'.' (c ∷ d ∷ ds)))
reading max_value xs = to_int (parsed decimal max_value 0 (token b'.' xs))

component_parts :
    (max_value : ℕ) (str : Bytes) (idx : ℕ)
    → parse_inet_component max_value str idx ≡ (
        let long = ltb 2 (length str + 1 - idx) in
        if long && (char_at str idx == b'0' && toupper (char_at str (idx + 1)) == b'X')
        then to_int (parse_address_component hexadecimal b'.' max_value 0 str (idx + 2))
        else if long
            && (char_at str idx == b'0'
                && (isdigit (char_at str (idx + 1)) && not (char_at str (idx + 1) == b'0')))
        then to_int (parse_address_component octal b'.' max_value 0 str (idx + 1))
        else to_int (parse_address_component decimal b'.' max_value 0 str idx))
unfolding parse_inet_component
component_parts max_value str idx = refl

module _ (max_value : ℕ) (str : Bytes) (w : length str < 2 ^ 64) where
  at_token :
      (base : Base) (idx : ℕ) (xs : Bytes)
      → idx ≤ length str
      → drop idx str ≡ xs
      → to_int (parse_address_component base b'.' max_value 0 str idx)
        ≡ to_int (parsed base max_value 0 (token b'.' xs))
  at_token base idx xs h e =
      ap to_int (parse_address_component_lem base b'.' max_value 0 str idx h w)
      ∙ ap (λ ys. to_int (parsed base max_value 0 (token b'.' ys))) e

  short :
      (idx : ℕ) (xs : Bytes)
      → idx ≤ length str
      → drop idx str ≡ xs
      → ltb 2 (length str + 1 - idx) ≡ false
      → parse_inet_component max_value str idx ≡ to_int (parsed decimal max_value 0 (token b'.' xs))
  short idx xs h e l = component_parts max_value str idx ∙ rw l (at_token decimal idx xs h e)

  pub parse_inet_component-reading :
      (idx : ℕ) (xs : Bytes)
      → idx ≤ length str
      → drop idx str ≡ xs
      → parse_inet_component max_value str idx ≡ reading max_value xs
  parse_inet_component-reading idx [] h e =
      short idx [] h e (let n = length-drop idx str in let l = ap length e in ground arith)
  parse_inet_component-reading idx (c ∷ []) h e =
      short idx (c ∷ []) h e (let n = length-drop idx str in let l = ap length e in ground arith)
  parse_inet_component-reading idx (c ∷ d ∷ ds) h e =
      let n = length-drop idx str in
      let l = ap length e in
      let (x, y) = get_or-drop str idx c (d ∷ ds) e in
      let (x', z) = get_or-drop str (idx + 1) d ds y in
      let i2 : idx + 1 + 1 ≡ idx + 2 = omega arith in
      let long : ltb 2 (length str + 1 - idx) ≡ true = ground arith in
      component_parts max_value str idx
      ∙ rw (
        long,
        x,
        x',
        at_token hexadecimal (idx + 2) ds (omega arith) (ap (λ k. drop k str) (sym i2) ∙ z),
        at_token octal (idx + 1) (d ∷ ds) (omega arith) y,
        at_token decimal idx (c ∷ d ∷ ds) h e,
      )

abbrev iff : Bool → Bool → Bool
iff a b = if a then b else not b

upper_x_table : all_below 128 (λ d. iff (toupper d == b'X') (d == b'x' || d == b'X')) ≡ true
unfolding all_below toupper islower
upper_x_table = refl

agree : (a b : Bool) → iff a b ≡ true → a ≡ b
agree true true h = refl
agree true false h = cc
agree false true h = cc
agree false false h = refl

high : (d : ℕ) → ltb d 128 ≡ false → (toupper d == b'X') ≡ (d == b'x' || d == b'X')
unfolding toupper islower
high d e = ground arith

upper_x : (d : ℕ) → (toupper d == b'X') ≡ (d == b'x' || d == b'X')
upper_x d = elim (Bool-cases (ltb d 128)) [
  | inl e ↦ agree _ _ (all_below_at 128 _ d upper_x_table (ltb→lt d 128 e))
  | inr e ↦ high d e
]

octal_digit : (d : ℕ) → (isdigit d && not (d == b'0')) ≡ (leb b'1' d && leb d b'9')
unfolding isdigit
octal_digit d = ground arith

empty_part :
    (max_value : ℕ) (rest : Bytes) → Stops rest → ltb_ℤ (reading max_value rest) (pos 0) ≡ true
empty_part max_value [] s = refl
empty_part max_value (c ∷ []) s = ground arith
empty_part max_value (c ∷ d ∷ ds) s = ground arith

one_byte :
    (max_value c : ℕ) (rest : Bytes)
    → lacks b'.' (c ∷ []) ≡ true
    → Stops rest
    → reading max_value (c ∷ rest) ≡ to_int (parsed decimal max_value 0 (c ∷ []))
unfolding toupper islower isdigit
one_byte max_value c [] l s =
    ap (λ t. to_int (parsed decimal max_value 0 t)) (token-append (c ∷ []) [] l s)
one_byte max_value c (d ∷ ds) l s =
    let x : (c == b'0' && toupper d == b'X') ≡ false = rw s (ground arith) in
    let y : (c == b'0' && (isdigit d && not (d == b'0'))) ≡ false = ground arith in
    rw (x, y) (ap (λ t. to_int (parsed decimal max_value 0 t)) (token-append (c ∷ []) (d ∷ ds) l s))

by_base :
    (limit : ℕ) (r1 r2 r3 : ℤ) (o1 o2 o3 : Option ℕ) (x y : Bool)
    → StandsFor r1 limit o1
    → StandsFor r2 limit o2
    → StandsFor r3 limit o3
    → StandsFor
        (if x then r1 else if y then r2 else r3)
        limit
        (if x then o1 else if y then o2 else o3)
by_base limit r1 r2 r3 o1 o2 o3 true y h1 h2 h3 = h1
by_base limit r1 r2 r3 o1 o2 o3 false true h1 h2 h3 = h2
by_base limit r1 r2 r3 o1 o2 o3 false false h1 h2 h3 = h3

-- Behind a position where a part without dots stands, the parser reads that part's numeral.
pub reading-StandsFor :
    (max_value limit : ℕ) (t rest : Bytes)
    → Limits max_value limit
    → lacks b'.' t ≡ true
    → Stops rest
    → StandsFor (reading max_value (t ++ rest)) limit (numeral limit t)
reading-StandsFor max_value limit [] rest h l s = empty_part max_value rest s
reading-StandsFor max_value limit (c ∷ []) rest h l s =
    rw (one_byte max_value c rest l s) (parsed-StandsFor decimal max_value limit (c ∷ []) h)
reading-StandsFor max_value limit (c ∷ d ∷ ds) rest h l s =
    let no_dot_c : (c == b'.') ≡ false = ground arith in
    let no_dot_d : (d == b'.') ≡ false = ground arith in
    let k' : lacks b'.' ds ≡ true = ground arith in
    rw (upper_x d, octal_digit d, token-append ds rest k' s, no_dot_d, no_dot_c)
      (by_base limit _ _ _ _ _ _ (c == b'0' && (d == b'x' || d == b'X'))
        (c == b'0' && (leb b'1' d && leb d b'9'))
        (parsed-StandsFor hexadecimal max_value limit ds h)
        (parsed-StandsFor octal max_value limit (d ∷ ds) h)
        (parsed-StandsFor decimal max_value limit (c ∷ d ∷ ds) h))

-- ===== src/Net/Address/Component/Token.antt =====
-- The component parser of address.hpp and the token up to the separator.
use read_mail_really_fast.Prelude.{
  ℕ, suc, ◌+◌, ◌-◌, ◌*◌, ◌%◌, ◌^◌, ◌≤◌, ◌<◌, ◌≡◌, refl, sym, ap, ◌∙◌, Bool, true, false, not, ◌&&◌,
  ◌||◌, [], ◌∷◌, arith, Bytes, length, length-drop, drop, ltb, leb, ◌==◌, if◌then◌else◌, Bool-cases,
  inl, inr,
}
pub use read_mail_really_fast.Prelude.{get_or-drop}
use read_mail_really_fast.Prelude.Int.{ℤ, pos, negsuc, pos_part}
use read_mail_really_fast.Net.Address.Chars.{
  Base, radix, is_valid_digit, convert_digit, isdigit, isxdigit,
}
use read_mail_really_fast.Net.Address.Component.{component_loop, parse_address_component}

-- The bytes before the separator, or all of them.
abbrev pub token : ℕ → Bytes → Bytes
token sep [] = []
token sep (c ∷ cs) = if c == sep then [] else c ∷ token sep cs

-- What a digit stands for, and the digits of a base: those that stand for less than it.
abbrev pub worth : ℕ → ℕ
worth c = if leb c b'9' then c - b'0' else if leb c b'F' then c - 55 else c - 87

abbrev pub is_digit : Base → ℕ → Bool
is_digit base c =
    ((leb b'0' c && leb c b'9') || ((leb b'A' c && leb c b'F') || (leb b'a' c && leb c b'f')))
    && ltb (worth c) (radix base)

abbrev pub all_digits : Base → Bytes → Bool
all_digits base [] = true
all_digits base (c ∷ cs) = is_digit base c && all_digits base cs

is_valid_digit_lem : (base : Base) (c : ℕ) → is_valid_digit base c ≡ is_digit base c
unfolding is_valid_digit isdigit isxdigit
is_valid_digit_lem Base.octal c = ground arith
is_valid_digit_lem Base.decimal c = ground arith
is_valid_digit_lem Base.hexadecimal c = ground arith

convert_digit-worth :
    (base : Base) (c : ℕ) → is_digit base c ≡ true → pos_part (convert_digit base c) ≡ worth c
unfolding convert_digit is_valid_digit isdigit isxdigit
convert_digit-worth Base.octal c h = ground arith
convert_digit-worth Base.decimal c h = ground arith
convert_digit-worth Base.hexadecimal c h = ground arith

-- The number that the digits stand for, behind those of `acc`.
abbrev pub value : Base → ℕ → Bytes → ℕ
value base acc [] = acc
value base acc (c ∷ cs) = value base (acc * radix base + worth c) cs

-- The token is a number that the parser takes.
abbrev pub is_number : Base → ℕ → ℕ → Bytes → Bool
is_number base max_value max_length t =
    not (ltb 0 max_length && ltb max_length (length t))
    && (all_digits base t && leb (value base 0 t) max_value)

abbrev pub parsed : Base → ℕ → ℕ → Bytes → ℤ
parsed base max_value max_length [] = negsuc 0
parsed base max_value max_length (c ∷ cs) =
    if is_number base max_value max_length (c ∷ cs) then pos (value base 0 (c ∷ cs)) else negsuc 0

value-le : (base : Base) (acc : ℕ) (t : Bytes) → acc ≤ value base acc t
value-le base acc [] = omega arith
value-le Base.octal acc (c ∷ cs) = omega (arith, value-le Base.octal (acc * 8 + worth c) cs)
value-le Base.decimal acc (c ∷ cs) = omega (arith, value-le Base.decimal (acc * 10 + worth c) cs)
value-le Base.hexadecimal acc (c ∷ cs) =
    omega (arith, value-le Base.hexadecimal (acc * 16 + worth c) cs)

module _ (base : Base) (sep max_value max_length : ℕ) where
  -- The loop on the bytes that are left, `k` of the component having been read.
  on_bytes : ℕ → ℕ → Bytes → ℤ
  on_bytes k res [] = pos res
  on_bytes k res (c ∷ cs) =
      let res' = res * radix base + pos_part (convert_digit base c) in
      let rest = on_bytes (k + 1) res' cs in
      if c == sep
      then pos res
      else if ltb 0 max_length && ltb max_length (k + 1)
      then negsuc 0
      else if not (is_valid_digit base c)
      then negsuc 0
      else if ltb max_value res'
      then negsuc 0
      else rest

  -- No limit is passed by `k` digits.
  abbrev Short : ℕ → Type 0
  Short k = (ltb 0 max_length && ltb max_length k) ≡ false

  abbrev Reads : ℕ → ℕ → Bytes → ℤ → Type 0
  Reads k res t r = r ≡ (
      if not (ltb 0 max_length && ltb max_length (k + length t))
        && (all_digits base t && leb (value base res t) max_value)
      then pos (value base res t)
      else negsuc 0)

  Reads-nil : (k res : ℕ) → Short k → res ≤ max_value → Reads k res [] (pos res)
  Reads-nil k res w h = ground arith

  -- One byte that is a digit worth `v`, or none, with the reading of the rest of its token.
  abbrev read_if : Bool → ℕ → ℕ → ℕ → Bytes → ℤ
  read_if d k res v t =
      if not (ltb 0 max_length && ltb max_length (k + suc (length t)))
        && ((d && all_digits base t) && leb (value base (res * radix base + v) t) max_value)
      then pos (value base (res * radix base + v) t)
      else negsuc 0

  abbrev checked : Bool → ℕ → ℕ → ℕ → ℤ → ℤ
  checked d k res v r =
      if ltb 0 max_length && ltb max_length (k + 1)
      then negsuc 0
      else if not d
      then negsuc 0
      else if ltb max_value (res * radix base + v)
      then negsuc 0
      else r

  checked-read_if :
      (d : Bool) (k res v : ℕ) (t : Bytes) (r : ℤ)
      → (Short (k + 1)
          → res * radix base + v ≤ max_value
          → Reads (k + 1) (res * radix base + v) t r)
      → checked d k res v r ≡ read_if d k res v t
  checked-read_if d k res v t r ih = let le = value-le base (res * radix base + v) t in ground arith

  Reads-cons :
      (d : Bool) (k res v c : ℕ) (t : Bytes) (r : ℤ)
      → is_digit base c ≡ d
      → (is_digit base c ≡ true → v ≡ worth c)
      → (Short (k + 1)
          → res * radix base + v ≤ max_value
          → Reads (k + 1) (res * radix base + v) t r)
      → checked d k res v r ≡ read_if (is_digit base c) k res (worth c) t
  Reads-cons true k res v c t r e f ih =
      checked-read_if true k res v t r ih
      ∙ ap (λ w. read_if true k res w t) (f e)
      ∙ ap (λ d. read_if d k res (worth c) t) (sym e)
  Reads-cons false k res v c t r e f ih =
      ground arith ∙ ap (λ d. read_if d k res (worth c) t) (sym e)

  on_bytes_lem :
      (xs : Bytes) (k res : ℕ)
      → Short k
      → res ≤ max_value
      → Reads k res (token sep xs) (on_bytes k res xs)
  unfolding on_bytes
  on_bytes_lem [] k res w h = Reads-nil k res w h
  on_bytes_lem (c ∷ cs) k res w h = elim (Bool-cases (c == sep)) [
    | inl e ↦ rw e (Reads-nil k res w h)
    | inr e ↦
        let v = pos_part (convert_digit base c) in
        let rest = on_bytes (k + 1) (res * radix base + v) cs in
        rw e (
          ap (λ d. checked d k res v rest) (is_valid_digit_lem base c)
          ∙ Reads-cons (is_digit base c) k res v c (token sep cs) rest refl
              (convert_digit-worth base c) (on_bytes_lem cs (k + 1) (res * radix base + v)))
  ]

  Reads-parsed :
      (c : ℕ) (t : Bytes) (r : ℤ)
      → Reads 0 0 (c ∷ t) r
      → r ≡ parsed base max_value max_length (c ∷ t)
  Reads-parsed c t r h = h ∙ (let e : 0 + suc (length t) ≡ suc (length t) = omega arith in rw e)

module _ (base : Base) (sep max_value max_length : ℕ) (str : Bytes) (idx : ℕ) where
  loop-on_bytes :
      (xs : Bytes) (i res : ℕ)
      → idx ≤ i
      → drop i str ≡ xs
      → component_loop base sep max_value max_length str idx (length xs) i res
        ≡ on_bytes base sep max_value max_length (i - idx) res xs
  unfolding component_loop on_bytes
  loop-on_bytes [] i res h e = refl
  loop-on_bytes (c ∷ cs) i res h e =
      let (x, y) = get_or-drop str i c cs e in
      let k : i - idx + 1 ≡ i + 1 - idx = omega arith in
      rw (
        x,
        k,
        loop-on_bytes cs (i + 1) (res * radix base + pos_part (convert_digit base c)) (omega arith)
            y,
      )

  parse_token :
      (xs : Bytes)
      → idx ≤ length str
      → length str < 2 ^ 64
      → drop idx str ≡ xs
      → parse_address_component base sep max_value max_length str idx
        ≡ parsed base max_value max_length (token sep xs)
  unfolding parse_address_component
  parse_token [] h w e =
      let n = length-drop idx str in
      let l = ap length e in
      let z : ((length str + 2 ^ 64 - idx) % 2 ^ 64 == 0) ≡ true = ground arith in rw z
  parse_token (c ∷ cs) h w e =
      let n = length-drop idx str in
      let l = ap length e in
      let z : ((length str + 2 ^ 64 - idx) % 2 ^ 64 == 0) ≡ false = ground arith in
      let m : length str - idx ≡ suc (length cs) = omega arith in
      let x = (get_or-drop str idx c cs e).0 in
      let k : idx - idx ≡ 0 = omega arith in
      let go = loop-on_bytes (c ∷ cs) idx 0 (omega arith) e in
      rw z (
        rw x (elim (Bool-cases (c == sep)) [
          | inl y ↦ rw y
          | inr y ↦ rw y (
              rw m (
                go
                ∙ ap (λ j. on_bytes base sep max_value max_length j 0 (c ∷ cs)) k
                ∙ Reads-parsed base sep max_value max_length c (token sep cs) _ (
                    rw y at (
                      on_bytes_lem base sep max_value max_length (c ∷ cs) 0 0 (ground arith)
                        (omega arith)))))
        ]))

  -- At a position in a text below 2 ^ 64 bytes the parser reads the token there: -1 if it is empty,
  -- too long, has a byte that is no digit or stands for a number above the limit, and else that
  -- number.
  pub parse_address_component_lem :
      idx ≤ length str
      → length str < 2 ^ 64
      → parse_address_component base sep max_value max_length str idx
        ≡ parsed base max_value max_length (token sep (drop idx str))
  parse_address_component_lem h w = parse_token (drop idx str) h w refl

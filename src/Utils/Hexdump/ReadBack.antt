-- ===== src/Utils/Hexdump/ReadBack.antt =====
-- A line of the hex dump of a buffer, and the digits of its bytes.
use read_mail_really_fast.Prelude.{
  ℕ, zero, suc, ◌+◌, ◌-◌, ◌*◌, ◌%◌, ◌^◌, ◌≡◌, ◌<◌, refl, sym, ap, ◌∙◌, Bool, true, false, not, ◌&&◌,
  ◌||◌, List, [], ◌∷◌, ◌++◌, arith, Bytes, length, length-drop, append_assoc, map, take, drop,
  all_below, all_below_at, ltb, ◌==◌, if◌then◌else◌, Bool-cases, inl, inr,
}
use read_mail_really_fast.Prelude.Int.{ℤ, pos}
use read_mail_really_fast.Utils.Hexdump.{
  HexData, uint8, Layout, put_hex, separator, spaces, line_text, make_getdata_t,
}
use read_mail_really_fast.Utils.Hexdump.Columns.{width}
use read_mail_really_fast.Utils.Hexdump.Row.{trimmed, row, hex_text}
use read_mail_really_fast.Utils.Hexdump.Buffer.{
  AllBytes, make_getdata_t-IsCell, trimmed-cells_of, row-cells_of,
}
use read_mail_really_fast.Utils.Hexdump.Text.{line_of, hex_column, line_text-line_of}

-- The characters that are no blank and no line feed.
abbrev pub digits_of : Bytes → Bytes
digits_of [] = []
digits_of (c ∷ cs) = let rest = digits_of cs in if c == b' ' || c == 10 then rest else c ∷ rest

-- The value of a hexadecimal digit, in capitals or not.
abbrev pub digit_value : ℕ → ℕ
digit_value c = if ltb c 58 then c - b'0' else if ltb c 71 then c - 55 else c - 87

abbrev pub from_hex : Bytes → Bytes
from_hex (h ∷ l ∷ rest) = (digit_value h * 16 + digit_value l) ∷ from_hex rest
from_hex _ = []

pub digits_of-append : (xs ys : Bytes) → digits_of (xs ++ ys) ≡ digits_of xs ++ digits_of ys
digits_of-append [] ys = refl
digits_of-append (c ∷ cs) ys = elim (Bool-cases (c == b' ' || c == 10)) [
  | inl e ↦ rw e (digits_of-append cs ys)
  | inr e ↦ rw e (ap (λ r. c ∷ r) (digits_of-append cs ys))
]

digits_of-spaces : (n : ℕ) → digits_of (spaces n) ≡ []
digits_of-spaces zero = refl
digits_of-spaces (suc n) = digits_of-spaces n

digits_of-spaces_if : (n : ℕ) (c : Bool) → digits_of (if c then spaces n else []) ≡ []
digits_of-spaces_if n true = digits_of-spaces n
digits_of-spaces_if n false = refl

-- The two digits of a byte stand for it.
abbrev is_read : ℕ → Bytes → Bool
is_read b (h ∷ l ∷ []) =
    not (h == b' ' || h == 10)
    && (not (l == b' ' || l == 10) && (digit_value h * 16 + digit_value l == b))
is_read b _ = false

read_table : (upper : Bool) → all_below 256 (λ b. is_read b (put_hex upper 2 b)) ≡ true
unfolding all_below
read_table true = refl
read_table false = refl

from_hex-read :
    (b : ℕ) (t rest : Bytes)
    → is_read b t ≡ true
    → from_hex (digits_of t ++ rest) ≡ b ∷ from_hex rest
from_hex-read b [] rest e = cc
from_hex-read b (h ∷ []) rest e = cc
from_hex-read b (h ∷ l ∷ []) rest e =
    let x : (h == b' ' || h == 10) ≡ false = ground arith in
    let z : (l == b' ' || l == 10) ≡ false = ground arith in
    let v : digit_value h * 16 + digit_value l ≡ b = ground arith in
    rw (x, z) (ap (λ c. c ∷ from_hex rest) v)
from_hex-read b (h ∷ l ∷ c ∷ t) rest e = cc

module _ (y : Layout) (get_data : ℤ → HexData) where
  digits_of-separator : (idx : ℕ) → digits_of (separator y get_data idx) ≡ []
  digits_of-separator idx =
      digits_of-append
        (if not (y.space_per_group == 0) && (not (idx == 0) && (idx % y.bytes_per_group == 0))
          then spaces y.space_per_group
          else [])
        (if not (y.space_per_byte == 0) && not (idx == 0) then spaces y.space_per_byte else [])
      ∙ rw (digits_of-spaces_if y.space_per_group _, digits_of-spaces_if y.space_per_byte _) refl

  pub hex_text-reads_back :
      (bs : Bytes) (idx : ℕ) (rest : Bytes)
      → AllBytes bs
      → from_hex (digits_of (hex_text y get_data idx (map uint8 bs)) ++ rest) ≡ bs ++ from_hex rest
  hex_text-reads_back [] idx rest h = refl
  hex_text-reads_back (b ∷ bs) idx rest h =
      let more = hex_text y get_data (idx + 1) (map uint8 bs) in
      let digits = put_hex y.display_uppercase 2 b in
      ap (λ t. from_hex (t ++ rest))
        (digits_of-append (separator y get_data idx) (digits ++ more)
          ∙ ap (λ t. t ++ digits_of (digits ++ more)) (digits_of-separator idx)
          ∙ digits_of-append digits more)
      ∙ ap from_hex (append_assoc (digits_of digits) (digits_of more) rest)
      ∙ from_hex-read b digits (digits_of more ++ rest) (
          all_below_at 256 (λ c. is_read c (put_hex y.display_uppercase 2 c)) b
            (read_table y.display_uppercase) (h.0))
      ∙ ap (λ r. b ∷ r) (hex_text-reads_back bs (idx + 1) rest (h.1))

AllBytes-take : (n : ℕ) (bs : Bytes) → AllBytes bs → AllBytes (take n bs)
AllBytes-take zero bs h = tt
AllBytes-take (suc n) [] h = tt
AllBytes-take (suc n) (b ∷ bs) h = (h.0, AllBytes-take n bs (h.1))

AllBytes-drop : (n : ℕ) (bs : Bytes) → AllBytes bs → AllBytes (drop n bs)
AllBytes-drop zero bs h = h
AllBytes-drop (suc n) [] h = tt
AllBytes-drop (suc n) (b ∷ bs) h = AllBytes-drop n bs (h.1)

column-hex_text :
    (y : Layout) (get_data : ℤ → HexData) (cells : List HexData) (bs : Bytes)
    → 0 < length bs
    → hex_column y get_data cells (map uint8 bs) ≡ hex_text y get_data 0 (map uint8 bs)
column-hex_text y get_data cells [] h = absurd (omega arith)
column-hex_text y get_data cells (b ∷ bs) h = refl

length-take_pos : (n : ℕ) (bs : Bytes) → 0 < n → 0 < length bs → 0 < length (take n bs)
length-take_pos zero bs h k = absurd (omega arith)
length-take_pos (suc n) [] h k = absurd (omega arith)
length-take_pos (suc n) (b ∷ bs) h k = omega arith

line_of-plain :
    (y : Layout) (get_data : ℤ → HexData) (cells : List HexData)
    → y.display_textual ≡ false
    → line_of y get_data cells ≡ hex_column y get_data cells (trimmed cells) ++ (10 ∷ [])
line_of-plain y get_data cells plain = simp plain

-- A layout without the text column, and a buffer of bytes.
module _ (y : Layout) (buffer : Bytes) (plain : y.display_textual ≡ false)
    (some_byte : 0 < y.bytes_per_line) (grouped : 0 < y.bytes_per_group)
    (w : width y y.bytes_per_line < 2 ^ 64) (bytes : AllBytes buffer) where
  -- The buffer's bytes from `a` on, as many as a line has room for or the buffer has left.
  abbrev pub part : ℕ → Bytes
  part a = take y.bytes_per_line (drop a buffer)

  pub part-AllBytes : (a : ℕ) → AllBytes (part a)
  part-AllBytes a = AllBytes-take y.bytes_per_line (drop a buffer) (AllBytes-drop a buffer bytes)

  -- A line at an offset within the buffer.
  pub line_text-hex_text :
      (a : ℕ)
      → a < length buffer
      → line_text y (make_getdata_t buffer) (pos a)
        ≡ hex_text y (make_getdata_t buffer) 0 (map uint8 (part a)) ++ (10 ∷ [])
  line_text-hex_text a h =
      let get_data = make_getdata_t buffer in
      let cells = row y get_data (pos a) 0 y.bytes_per_line in
      let from : a ≡ a + 0 = omega arith in
      let left : trimmed cells ≡ map uint8 (part a) =
        ap trimmed (
          row-cells_of y buffer a y.bytes_per_line 0 (drop a buffer)
            (sym (ap (λ k. drop k buffer) from)))
        ∙ trimmed-cells_of y.bytes_per_line (drop a buffer) in
      line_text-line_of y get_data grouped (pos a) (λ z. make_getdata_t-IsCell buffer z bytes) w
      ∙ line_of-plain y get_data cells plain
      ∙ ap (λ ts. hex_column y get_data cells ts ++ (10 ∷ [])) left
      ∙ ap (λ t. t ++ (10 ∷ []))
          (column-hex_text y get_data cells (part a) (
            length-take_pos y.bytes_per_line (drop a buffer) some_byte
              (omega (arith, length-drop a buffer))))

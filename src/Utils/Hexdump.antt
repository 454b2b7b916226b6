-- ===== src/Utils/Hexdump.antt =====
-- src/utils/hexdump.cpp. Text is a list of character codes; an output stream is its text and its
-- `std::uppercase` flag, which stays set. A `size_t` sum or product wraps at 2 ^ 64. An `off_t` sum
-- that overflows, and a division that the source cannot do, have no result. A line is taken to fit
-- in memory, and `bytes_per_group` not to be 0, on which the source divides by zero.
pub mod Lines
pub mod Align
pub mod Columns
pub mod Cut
pub mod Row
pub mod Text
pub mod Buffer
pub mod ReadBack
pub mod Reader
pub mod Dump
mod Tests
use read_mail_really_fast.Prelude.{
  ℕ, zero, suc, ◌+◌, ◌-◌, ◌*◌, ◌/◌, ◌%◌, ◌^◌, Bool, true, false, not, ◌&&◌, ◌||◌, List, [], ◌∷◌,
  ◌++◌, Option, none, some, Bytes, codes, length, get_or, set, take, replicate, ltb, leb, ◌==◌,
  if◌then◌else◌, max,
}
use read_mail_really_fast.Prelude.Int.{
  ℤ, pos, negsuc, ◌+ℤ◌, ◌-ℤ◌, ltb_ℤ, eq_ℤ, to_size, to_off_t, fits_off_t, pos_part, neg_part,
}

-- `std::variant<uint8_t, hexdump_data_t>`, with its state that holds neither.
pub data HexData : Type 0 where
  uint8 : ℕ → HexData
  non_existent unknown valueless : HexData

pub record Stream : Type 0 where
  pub text : Bytes
  pub uppercase : Bool

-- How a printing function ends: with a result, with an offset that overflows, on which C++ says
-- nothing, or not within the fuel.
pub data Printing {ℓ} (A : Type ℓ) : Type ℓ where
  printed : A → Printing A
  overflows unfinished : Printing A

-- The arguments of the two printing functions.
pub record Layout : Type 0 where
  pub bytes_per_line : ℕ
  pub bytes_per_group : ℕ
  pub space_per_byte : ℕ
  pub space_per_group : ℕ
  pub display_textual : Bool
  pub display_uppercase : Bool

abbrev pub spaces : ℕ → Bytes
spaces n = replicate n 32

abbrev pub hex_digit : Bool → ℕ → ℕ
hex_digit upper d = if ltb d 10 then 48 + d else if upper then 55 + d else 87 + d

-- `std::hex` on a number of at most 16 digits.
abbrev pub hex_number : Bool → ℕ → ℕ → Bytes
hex_number upper zero n = []
hex_number upper (suc digits) n =
    let high = hex_number upper digits (n / 16) in
    (if n / 16 == 0 then [] else high) ++ (hex_digit upper (n % 16) ∷ [])

-- `std::setw(w) << std::setfill('0') << std::hex << n`
abbrev pub put_hex : Bool → ℕ → ℕ → Bytes
put_hex upper w n = let digits = hex_number upper 16 n in replicate (w - length digits) 48 ++ digits

-- What one line has so far: `display_hex_data`, `display_textual_data`, `display_textual_last`.
pub record Line : Type 0 where
  pub hex_data : Bytes
  pub textual_data : Bytes
  pub textual_last : ℕ

abbrev pub printable : ℕ → ℕ
printable b = if leb 32 b && ltb b 127 then b else 46

-- The branches on the data at `idx`.
unfoldable pub put_data : Bool → ℕ → HexData → Line → Line
put_data upper idx unknown l = record {
  hex_data = l.hex_data ++ codes "??";
  textual_data = set l.textual_data idx 63;
  textual_last = idx + 1;
}
put_data upper idx non_existent l = record l {
  hex_data = l.hex_data ++ codes "  ";
  textual_data = set l.textual_data idx 32;
}
put_data upper idx (uint8 b) l = record {
  hex_data = l.hex_data ++ put_hex upper 2 b;
  textual_data = set l.textual_data idx (printable b);
  textual_last = idx + 1;
}
put_data upper idx valueless l = record {
  hex_data = l.hex_data ++ codes "!!";
  textual_data = set l.textual_data idx 33;
  textual_last = idx + 1;
}

-- The length that the hexadecimal column is cut to, in `size_t` arithmetic.
unfoldable pub hex_width : Layout → ℕ → ℕ
unfolding ◌-ℤ◌
hex_width y last =
    let before = to_size (pos last -ℤ pos 1) in
    max 0 (
      (last * 2 + before * y.space_per_byte + before / y.bytes_per_group * y.space_per_group)
      % 2 ^ 64)

module _ (y : Layout) (get_data : ℤ → HexData) where
  -- The spaces before the data at `idx`.
  abbrev pub separator : ℕ → Bytes
  separator idx =
      (if not (y.space_per_group == 0) && (not (idx == 0) && (idx % y.bytes_per_group == 0))
        then spaces y.space_per_group
        else [])
      ++ (if not (y.space_per_byte == 0) && not (idx == 0) then spaces y.space_per_byte else [])

  pub put_byte : ℤ → ℕ → Line → Line
  unfolding put_data ◌+ℤ◌
  put_byte offset idx l =
      put_data y.display_uppercase idx (get_data (offset +ℤ pos idx))
        (record l { hex_data = l.hex_data ++ separator idx })

  -- The loop over a line, with the number of bytes left.
  unfoldable pub put_bytes : ℤ → ℕ → ℕ → Line → Line
  unfolding put_byte
  put_bytes offset zero idx l = l
  put_bytes offset (suc left) idx l = put_bytes offset left (idx + 1) (put_byte offset idx l)

  unfoldable pub start_line : Line
  start_line = record { hex_data = []; textual_data = spaces y.bytes_per_line; textual_last = 0 }

  unfoldable pub line_text : ℤ → Bytes
  unfolding put_bytes hex_width start_line
  line_text offset =
      let l = put_bytes offset y.bytes_per_line 0 start_line in
      (if y.display_textual
        then l.hex_data ++ (codes " : " ++ take l.textual_last l.textual_data)
        else take (hex_width y l.textual_last) l.hex_data)
      ++ (10 ∷ [])

  -- One round of the outer loop.
  unfoldable pub put_line : ℤ → ℤ → Stream → Stream
  unfolding line_text
  put_line offset offset_line os =
      let upper = os.uppercase || y.display_uppercase in
      record {
        text =
            os.text ++ (put_hex upper 8 (to_size offset_line) ++ (codes " : " ++ line_text offset));
        uppercase = upper;
      }

  -- The outer loop on fuel. An offset in a line overflows only if the next line's does.
  unfoldable pub put_lines : ℕ → ℤ → ℤ → ℤ → Stream → Printing Stream
  unfolding put_line ◌+ℤ◌
  put_lines zero offset offset_end offset_line os = unfinished
  put_lines (suc fuel) offset offset_end offset_line os =
      let offset' = offset +ℤ to_off_t y.bytes_per_line in
      let offset_line' = offset_line +ℤ to_off_t y.bytes_per_line in
      let rest = put_lines fuel offset' offset_end offset_line' (put_line offset offset_line os) in
      if ltb_ℤ offset_end offset
      then printed os
      else if fits_off_t offset' && fits_off_t offset_line'
      then rest
      else overflows

  -- `hexdump_to_stream`, with a number of rounds that is enough on a line of at least a byte.
  unfoldable pub hexdump_to_stream : ℤ → ℤ → ℤ → Stream → Printing Stream
  unfolding put_lines ◌+ℤ◌
  hexdump_to_stream offset_start offset_end voffset_at_zero os =
      let offset_line = voffset_at_zero +ℤ offset_start in
      if fits_off_t offset_line
      then put_lines (suc (suc (pos_part offset_end + neg_part offset_start))) offset_start
          offset_end offset_line os
      else overflows

  -- `hexdump_to_string`
  unfoldable pub hexdump_to_string : ℤ → ℤ → ℤ → Printing Bytes
  unfolding hexdump_to_stream
  hexdump_to_string offset_start offset_end voffset_at_zero =
      elim (hexdump_to_stream offset_start offset_end voffset_at_zero
        (record { text = []; uppercase = false })) [
          | printed ss ↦ printed ss.text
          | overflows ↦ overflows
          | unfinished ↦ unfinished
        ]

-- `make_getdata_t`
unfoldable pub make_getdata_t : Bytes → ℤ → HexData
make_getdata_t buffer (negsuc n) = non_existent
make_getdata_t buffer (pos n) =
    if leb (length buffer) n then non_existent else uint8 (get_or buffer n 0)

-- The overloads on a buffer.
unfoldable pub dump_buffer_to_stream : Layout → Bytes → ℤ → ℤ → ℤ → Stream → Printing Stream
unfolding hexdump_to_stream make_getdata_t
dump_buffer_to_stream y buffer = hexdump_to_stream y (make_getdata_t buffer)

unfoldable pub dump_buffer_to_string : Layout → Bytes → ℤ → ℤ → ℤ → Printing Bytes
unfolding hexdump_to_string make_getdata_t
dump_buffer_to_string y buffer = hexdump_to_string y (make_getdata_t buffer)

-- `%` rounds towards zero: the sign is that of the first number, and that of the second is not
-- looked at.
abbrev pub remainder : ℤ → ℤ → ℤ
remainder (pos n) d = pos (n % (pos_part d + neg_part d))
remainder (negsuc n) d =
    let r = (n + 1) % (pos_part d + neg_part d) in if r == 0 then pos 0 else negsuc (r - 1)

-- `%` on `off_t`, with none where it is undefined: a divisor of 0, and -1 on the least number.
abbrev pub divides_badly : ℤ → ℤ → Bool
divides_badly v d = eq_ℤ d (pos 0) || (eq_ℤ v (negsuc (2 ^ 63 - 1)) && eq_ℤ d (negsuc 0))

unfoldable pub hexdump_align : ℤ → ℕ → Option ℤ
unfolding ◌-ℤ◌
hexdump_align voffset_at_zero bytes_per_line =
    let line = to_off_t bytes_per_line in
    if divides_badly voffset_at_zero line
    then none
    else some (voffset_at_zero -ℤ remainder voffset_at_zero line)

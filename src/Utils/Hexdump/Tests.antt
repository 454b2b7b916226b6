-- ===== src/Utils/Hexdump/Tests.antt =====
-- Tests of the printing functions, and their theorems at concrete layouts.
use read_mail_really_fast.Prelude.{
  drop, ◌+◌, ◌*◌, ◌/◌, ◌≤◌, ◌<◌, ◌≡◌, refl, Bool, true, false, some, none, ◌-◌, ◌^◌, arith, codes,
  [], Bytes,
}
use read_mail_really_fast.Prelude.Int.{ℤ, pos, negsuc, ◌+ℤ◌, ◌-ℤ◌, fits_off_t}
use read_mail_really_fast.Utils.Hexdump.{
  HexData, line_text, Layout, Stream, make_getdata_t, dump_buffer_to_string, hexdump_align, printed,
}
use read_mail_really_fast.Utils.Hexdump.Align.{line_step, hexdump_align_multiple}
use read_mail_really_fast.Utils.Hexdump.Row.{row}
use read_mail_really_fast.Utils.Hexdump.Text.{line_of, line_text-line_of}
use read_mail_really_fast.Utils.Hexdump.ReadBack.{digits_of, from_hex}
use read_mail_really_fast.Utils.Hexdump.Reader.{columns_of}
use read_mail_really_fast.Utils.Hexdump.Dump.{dump_buffer_to_string-reads_back}
use read_mail_really_fast.Utils.Hexdump.Buffer.{make_getdata_t-IsCell}

abbrev eight : Bool → Layout
eight textual = record {
  bytes_per_line = 8;
  bytes_per_group = 4;
  space_per_byte = 1;
  space_per_group = 1;
  display_textual = textual;
  display_uppercase = true;
}

dump_textual :
    dump_buffer_to_string (eight true) (codes "Hello, World") (pos 0) (pos 15) (pos 4096)
    ≡ printed (
        codes
          "00001000 : 48 65 6C 6C  6F 2C 20 57 : Hello, W\n00001008 : 6F 72 6C 64              : orld\n")
unfolding dump_buffer_to_string
dump_textual = refl

-- The last line has no byte, and its column of blanks is printed whole.
dump_columns :
    dump_buffer_to_string (eight false) (codes "Hello, World") (pos 0) (pos 23) (pos 4096)
    ≡ printed (
        codes
          "00001000 : 48 65 6C 6C  6F 2C 20 57\n00001008 : 6F 72 6C 64\n00001010 :                         \n")
unfolding dump_buffer_to_string
dump_columns = refl

abbrev empty_stream : Stream
empty_stream = record { text = []; uppercase = false }

three_fits : fits_off_t (pos 4096 +ℤ pos 3) ≡ true
unfolding ◌+ℤ◌
three_fits = refl

nineteen_fits : fits_off_t (pos 4096 +ℤ pos (11 + 8)) ≡ true
unfolding ◌+ℤ◌
nineteen_fits = refl

hexdump_align_multiple_example :
    (hexdump_align (pos 21) 8 ≡ some (pos (21 / line_step 8 * line_step 8)))
    × (21 / line_step 8 * line_step 8 ≤ 21)
    × (21 < 21 / line_step 8 * line_step 8 + line_step 8)
    × (hexdump_align (negsuc 21) 8 ≡ some (pos 0 -ℤ pos ((21 + 1) / line_step 8 * line_step 8)))
hexdump_align_multiple_example =
    hexdump_align_multiple 21 8 (omega arith) (omega arith) (omega arith)

-- A line of 2 ^ 64 - 1 bytes counts as one of -1 byte.
align_longest : hexdump_align (pos 21) (2 ^ 64 - 1) ≡ some (pos 21)
unfolding hexdump_align ◌-ℤ◌
align_longest = refl

align_undefined : hexdump_align (negsuc (2 ^ 63 - 1)) (2 ^ 64 - 1) ≡ none
unfolding hexdump_align
align_undefined = refl

-- Twelve bytes, of which the second line of eight has four.
abbrev hello : ℤ → HexData
hello = make_getdata_t (codes "Hello, World")

line_text-line_of_example :
    line_text (eight true) hello (pos 8)
    ≡ line_of (eight true) hello (row (eight true) hello (pos 8) 0 8)
line_text-line_of_example =
    line_text-line_of (eight true) hello (omega arith) (pos 8)
      (λ z. make_getdata_t-IsCell (codes "Hello, World") z (omega arith)) (omega arith)

dump_buffer_to_string-reads_back_example :
    (text : Bytes) × (dump_buffer_to_string
        (eight false)
        (codes "Hello, World")
        (pos 3)
        (pos 11)
        (pos 4096)
      ≡ printed text)
    × (from_hex (digits_of (columns_of false text)) ≡ drop 3 (codes "Hello, World"))
dump_buffer_to_string-reads_back_example =
    dump_buffer_to_string-reads_back (eight false) (codes "Hello, World") refl (omega arith)
      (omega arith) (omega arith) (omega arith) 3 11 (pos 4096) (omega arith) (omega arith)
      three_fits nineteen_fits

-- ===== src/Utils/Hexdump/Dump.antt =====
-- The hex dump of a buffer, read back.
use read_mail_really_fast.Prelude.{
  ℕ, zero, suc, ◌+◌, ◌^◌, ◌≡◌, ◌<◌, refl, sym, ap, ◌∙◌, Bool, false, [], ◌++◌, true, arith, Bytes,
  length, append-nil, append_assoc, map, take, drop, drop_all, drop-drop, take-append-drop,
}
use read_mail_really_fast.Prelude.Int.{ℤ, pos, ◌+ℤ◌, fits_off_t}
use read_mail_really_fast.Utils.Hexdump.{
  uint8, Printing, printed, overflows, unfinished, Layout, Stream, put_line, make_getdata_t,
  hexdump_to_stream, dump_buffer_to_string, hexdump_to_string,
}
use read_mail_really_fast.Utils.Hexdump.Columns.{width}
use read_mail_really_fast.Utils.Hexdump.Row.{hex_text}
use read_mail_really_fast.Utils.Hexdump.Buffer.{AllBytes}
use read_mail_really_fast.Utils.Hexdump.ReadBack.{
  digits_of, from_hex, digits_of-append, hex_text-reads_back, part, part-AllBytes,
  line_text-hex_text,
}
use read_mail_really_fast.Utils.Hexdump.Lines.{after_lines, Covers, hexdump_to_stream-Covers}
use read_mail_really_fast.Utils.Hexdump.Reader.{
  columns_of, line_at, text-put_line, columns_of-line_at,
}

abbrev quiet : Stream
quiet = record { text = []; uppercase = false }

abbrev string_of : Printing Stream → Printing Bytes
string_of (printed ss) = printed ss.text
string_of overflows = overflows
string_of unfinished = unfinished

dump_buffer_to_string-stream :
    (y : Layout) (buffer : Bytes) (a b v : ℤ)
    → dump_buffer_to_string y buffer a b v
      ≡ string_of (hexdump_to_stream y (make_getdata_t buffer) a b v quiet)
unfolding dump_buffer_to_string hexdump_to_string
dump_buffer_to_string-stream y buffer a b v =
    of_stream (hexdump_to_stream y (make_getdata_t buffer) a b v quiet)
  where
    of_stream :
        (o : Printing Stream)
        → elim o [ printed ss ↦ printed ss.text | overflows ↦ overflows | unfinished ↦ unfinished ]
          ≡ string_of o
    of_stream (printed ss) = refl
    of_stream overflows = refl
    of_stream unfinished = refl

module _ (y : Layout) (buffer : Bytes) (plain : y.display_textual ≡ false)
    (some_byte : 0 < y.bytes_per_line) (grouped : 0 < y.bytes_per_group)
    (w : width y y.bytes_per_line < 2 ^ 64) (bytes : AllBytes buffer) where
  -- The text is a whole number of lines that say these bytes.
  abbrev Says : Bytes → Bytes → Type 0
  Says t bs =
      (rest : Bytes)
      → from_hex (digits_of (columns_of false (t ++ rest)))
        ≡ bs ++ from_hex (digits_of (columns_of false rest))

  line_at-Says :
      (a : ℕ) (v : ℤ) (upper : Bool)
      → a < length buffer
      → Says
          (line_at y (make_getdata_t buffer) a v upper)
          (part y buffer plain some_byte grouped w bytes a)
  line_at-Says a v upper h rest =
      let get_data = make_getdata_t buffer in
      let bs = part y buffer plain some_byte grouped w bytes a in
      let column = hex_text y get_data 0 (map uint8 bs) in
      ap (λ t. from_hex (digits_of t))
        (columns_of-line_at y get_data a v upper bs rest
          (line_text-hex_text y buffer plain some_byte grouped w bytes a h))
      ∙ ap from_hex (digits_of-append column (columns_of false rest))
      ∙ hex_text-reads_back y get_data bs 0 (digits_of (columns_of false rest))
          (part-AllBytes y buffer plain some_byte grouped w bytes a)

  split_buffer :
      (a : ℕ)
      → take y.bytes_per_line (drop a buffer) ++ drop (a + y.bytes_per_line) buffer ≡ drop a buffer
  split_buffer a =
      ap (λ t. take y.bytes_per_line (drop a buffer) ++ t)
        (sym (drop-drop a y.bytes_per_line buffer))
      ∙ take-append-drop y.bytes_per_line (drop a buffer)

  after_lines-Says :
      (n a : ℕ) (v : ℤ) (os : Stream) (b : ℕ)
      → suc b ≡ length buffer
      → Covers y (make_getdata_t buffer) n a b
      → (t : Bytes) × ((after_lines y (make_getdata_t buffer) n a v os).text ≡ os.text ++ t)
        × Says t (drop a buffer)
  after_lines-Says zero a v os b e c =
      ([], sym (append-nil os.text), λ rest. rw (drop_all a buffer (omega (arith, e, c))) refl)
  after_lines-Says (suc n) a v os b e c =
      let get_data = make_getdata_t buffer in
      let line = line_at y get_data a v os.uppercase in
      let bs = part y buffer plain some_byte grouped w bytes a in
      let (more, same, says) =
        after_lines-Says n (a + y.bytes_per_line) (v +ℤ pos y.bytes_per_line)
          (put_line y get_data (pos a) v os) b e (c.1) in
      (
        line ++ more,
        same
            ∙ ap (λ t. t ++ more) (text-put_line y get_data a v os)
            ∙ append_assoc os.text line more,
        λ rest.
            ap (λ t. from_hex (digits_of (columns_of false t))) (append_assoc line more rest)
            ∙ line_at-Says a v os.uppercase (omega (arith, e, c.0)) (more ++ rest)
            ∙ ap (λ t. bs ++ t) (says rest)
            ∙ sym (append_assoc bs (drop (a + y.bytes_per_line) buffer) _)
            ∙ ap (λ t. t ++ from_hex (digits_of (columns_of false rest))) (split_buffer a),
      )

  -- In a layout without the text column, with at least one byte to a line and to a group and a
  -- column below 2 ^ 64 characters, where the offsets and those that are shown stay within 64 bits
  -- with a sign up to a line behind the end: the dump of a buffer of bytes from any offset up to its
  -- last byte ends, and the hexadecimal digits in the columns of its lines, read in pairs, are the
  -- buffer's bytes from that offset on, whatever the spaces, the case of the digits and the offset
  -- that is shown.
  pub dump_buffer_to_string-reads_back :
      (a b : ℕ) (v : ℤ)
      → suc b ≡ length buffer
      → b + y.bytes_per_line < 2 ^ 63
      → fits_off_t (v +ℤ pos a) ≡ true
      → fits_off_t (v +ℤ pos (b + y.bytes_per_line)) ≡ true
      → (text : Bytes) × (dump_buffer_to_string y buffer (pos a) (pos b) v ≡ printed text)
        × (from_hex (digits_of (columns_of false text)) ≡ drop a buffer)
  dump_buffer_to_string-reads_back a b v e l f g =
      let (n, covers, ends) =
        hexdump_to_stream-Covers y (make_getdata_t buffer) a b v quiet some_byte l f g in
      let (t, same, says) = after_lines-Says n a (v +ℤ pos a) quiet b e covers in
      (
        t,
        dump_buffer_to_string-stream y buffer (pos a) (pos b) v
            ∙ ap string_of ends
            ∙ ap printed same,
        ap (λ s. from_hex (digits_of (columns_of false s))) (sym (append-nil t))
            ∙ says []
            ∙ append-nil (drop a buffer),
      )

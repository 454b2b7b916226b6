-- ===== src/Utils/Hexdump/Cut.antt =====
-- What hexdump_to_stream cuts off a line without the text column.
use read_mail_really_fast.Prelude.{
  ℕ, zero, suc, ◌+◌, ◌*◌, ◌^◌, ◌≡◌, ◌≤◌, ◌<◌, refl, sym, ap, ◌∙◌, Bool, false, [], ◌∷◌, ◌++◌, arith,
  Bytes, length, append-nil, append_assoc, take, codes,
}
use read_mail_really_fast.Prelude.Int.{ℤ, pos, ◌+ℤ◌}
use read_mail_really_fast.Utils.Hexdump.{
  HexData, uint8, non_existent, unknown, valueless, Layout, Line, hex_width, put_hex, put_data,
  put_byte, put_bytes, separator, start_line, line_text,
}
use read_mail_really_fast.Utils.Hexdump.Columns.{
  IsCell, width, hex_width-width, put_bytes-width, minus_one,
}

pub take-append-length : (n : ℕ) (xs ys : Bytes) → length xs ≡ n → take n (xs ++ ys) ≡ xs
take-append-length zero [] ys h = refl
take-append-length zero (x ∷ xs) ys h = absurd (omega arith)
take-append-length (suc n) [] ys h = absurd (omega arith)
take-append-length (suc n) (x ∷ xs) ys h = ap (◌∷◌ x) (take-append-length n xs ys (omega arith))

module _ (y : Layout) (no_groups : y.space_per_group ≡ 0) where
  -- In a layout with spaces between bytes and none between groups, the column of a line whose last
  -- byte is at `n` is cut to the two digits of each byte up to there and the spaces between
  -- them; but on a line without any byte the subtraction wraps, and nothing is cut.
  pub hex_width_lem :
      (n : ℕ)
      → 0 < y.space_per_byte
      → y.space_per_byte ≤ 2 ^ 63
      → 2 * n + 2 + n * y.space_per_byte < 2 ^ 64
      → n < 2 ^ 64
      → (hex_width y (suc n) ≡ 2 * n + 2 + n * y.space_per_byte) × (2 ^ 63 ≤ hex_width y 0)
  unfolding hex_width
  hex_width_lem n h s w m =
      (rw (minus_one n m, no_groups) (omega (arith, w)), rw no_groups (omega (arith, h, s)))

-- A longer column begins with a shorter one.
abbrev Extends : Line → Line → Type 0
Extends l m = (more : Bytes) × (m.hex_data ≡ l.hex_data ++ more)

put_data-Extends :
    (upper : Bool) (idx : ℕ) (x : HexData) (l : Line) → Extends l (put_data upper idx x l)
unfolding put_data
put_data-Extends upper idx unknown l = (codes "??", refl)
put_data-Extends upper idx non_existent l = (codes "  ", refl)
put_data-Extends upper idx valueless l = (codes "!!", refl)
put_data-Extends upper idx (uint8 b) l = (put_hex upper 2 b, refl)

module _ (y : Layout) (get_data : ℤ → HexData) (offset : ℤ) where
  put_byte-Extends : (n : ℕ) (l : Line) → Extends l (put_byte y get_data offset n l)
  unfolding put_byte
  put_byte-Extends n l =
      let (more, e) =
        put_data-Extends y.display_uppercase n (get_data (offset +ℤ pos n))
          (record l { hex_data = l.hex_data ++ separator y get_data n }) in
      (separator y get_data n ++ more, e ∙ append_assoc l.hex_data (separator y get_data n) more)

  put_bytes-Extends : (left n : ℕ) (l : Line) → Extends l (put_bytes y get_data offset left n l)
  unfolding put_bytes
  put_bytes-Extends zero n l = ([], sym (append-nil l.hex_data))
  put_bytes-Extends (suc left) n l =
      let (first, e) = put_byte-Extends n l in
      let (more, f) = put_bytes-Extends left (n + 1) (put_byte y get_data offset n l) in
      (first ++ more, f ∙ ap (λ r. r ++ more) e ∙ append_assoc l.hex_data first more)

  put_bytes-add :
      (a b n : ℕ) (l : Line)
      → put_bytes y get_data offset (a + b) n l
        ≡ put_bytes y get_data offset b (n + a) (put_bytes y get_data offset a n l)
  unfolding put_bytes
  put_bytes-add zero b n l =
      let x : 0 + b ≡ b = omega arith in
      let z : n ≡ n + 0 = omega arith in
      ap (λ k. put_bytes y get_data offset k n l) x ∙ ap (λ k. put_bytes y get_data offset b k l) z
  put_bytes-add (suc a) b n l =
      let x : suc a + b ≡ suc (a + b) = omega arith in
      let z : n + 1 + a ≡ n + suc a = omega arith in
      ap (λ k. put_bytes y get_data offset k n l) x
      ∙ put_bytes-add a b (n + 1) (put_byte y get_data offset n l)
      ∙ ap
          (λ k.
            put_bytes y get_data offset b k
              (put_bytes y get_data offset a (n + 1) (put_byte y get_data offset n l)))
          z

  -- The line with `k` cells.
  abbrev pub cells_to : ℕ → Line
  cells_to k = put_bytes y get_data offset k 0 (start_line y get_data)

  take-hex_width :
      (n more : ℕ)
      → 0 < y.bytes_per_group
      → ((z : ℤ) → IsCell (get_data z))
      → width y (suc n) < 2 ^ 64
      → take (hex_width y (suc n)) (cells_to (suc n + more)).hex_data ≡ (cells_to (suc n)).hex_data
  unfolding start_line
  take-hex_width n more g cells w =
      let (rest, e) = put_bytes-Extends more (0 + suc n) (cells_to (suc n)) in
      let from_zero : 0 + suc n ≡ suc n = omega arith in
      let size =
        put_bytes-width y get_data g offset (suc n) 0 (start_line y get_data) cells refl
        ∙ ap (width y) from_zero in
      ap (λ k. take k (cells_to (suc n + more)).hex_data) (hex_width-width y n w)
      ∙ ap (λ l. take (width y (suc n)) (Line.hex_data l))
          (put_bytes-add (suc n) more 0 (start_line y get_data))
      ∙ ap (take (width y (suc n))) e
      ∙ take-append-length (width y (suc n)) (cells_to (suc n)).hex_data rest size

  -- In a layout without the text column and with at least one byte to a group, on cells that are
  -- bytes or none: a line whose last cell with data is at `n`, where its width is below 2 ^ 64, is
  -- the column of the cells up to there, the spaces between bytes and groups included, and a line
  -- feed; nothing of a cell with data is cut off, and no blank is left behind the last.
  pub line_text-cut :
      (n more : ℕ)
      → y.display_textual ≡ false
      → 0 < y.bytes_per_group
      → ((z : ℤ) → IsCell (get_data z))
      → width y (suc n) < 2 ^ 64
      → y.bytes_per_line ≡ suc n + more
      → (cells_to y.bytes_per_line).textual_last ≡ suc n
      → line_text y get_data offset ≡ (cells_to (suc n)).hex_data ++ (10 ∷ [])
  unfolding line_text
  line_text-cut n more plain g cells w size last = simp plain (
      ap (λ k. take (hex_width y k) (cells_to y.bytes_per_line).hex_data ++ (10 ∷ [])) last
      ∙ ap (λ k. take (hex_width y (suc n)) (cells_to k).hex_data ++ (10 ∷ [])) size
      ∙ ap (λ t. t ++ (10 ∷ [])) (take-hex_width n more g cells w))

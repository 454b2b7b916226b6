-- ===== src/Utils/Hexdump/Text.antt =====
-- The text of one line of hexdump_to_stream.
use read_mail_really_fast.Prelude.{
  ℕ, zero, suc, ◌+◌, ◌^◌, ◌≡◌, ◌<◌, refl, ap, ◌∙◌, Bool, List, [], ◌∷◌, ◌++◌, arith, Bytes, length,
  length-append, append_assoc, map, take, codes, if◌then◌else◌,
}
use read_mail_really_fast.Prelude.Int.{ℤ, pos, ◌+ℤ◌}
use read_mail_really_fast.Utils.Hexdump.{
  HexData, uint8, non_existent, unknown, valueless, Layout, hex_width, separator, start_line,
  line_text,
}
use read_mail_really_fast.Utils.Hexdump.Columns.{
  IsCell, width, length-put_hex, length-separator, hex_width-width,
}
use read_mail_really_fast.Utils.Hexdump.Cut.{take-append-length}
use read_mail_really_fast.Utils.Hexdump.Row.{
  cell_hex, cell_char, trimmed, join_end, end_of, row, hex_text, hex_data-put_bytes,
  textual_data-put_bytes, textual_last-put_bytes,
}

-- Cells begin with those that are left of them.
join_end-begins :
    (x : HexData) (ts rest : List HexData)
    → (cut : List HexData) × (x ∷ (ts ++ rest) ≡ join_end x ts ++ cut)
join_end-begins non_existent [] rest = (non_existent ∷ rest, refl)
join_end-begins non_existent (t ∷ ts) rest = (rest, refl)
join_end-begins (uint8 b) ts rest = (rest, refl)
join_end-begins unknown ts rest = (rest, refl)
join_end-begins valueless ts rest = (rest, refl)

trimmed-begins : (xs : List HexData) → (cut : List HexData) × (xs ≡ trimmed xs ++ cut)
trimmed-begins [] = ([], refl)
trimmed-begins (x ∷ xs) =
    let (rest, e) = trimmed-begins xs in
    let (cut, f) = join_end-begins x (trimmed xs) rest in (cut, ap (λ r. x ∷ r) e ∙ f)

abbrev AllCells : List HexData → Type 0
AllCells [] = Unit {0}
AllCells (x ∷ xs) = IsCell x × AllCells xs

AllCells-begin : (xs ys zs : List HexData) → zs ≡ xs ++ ys → AllCells zs → AllCells xs
AllCells-begin [] ys zs e h = tt
AllCells-begin (x ∷ xs) ys zs e h =
    let k = rw e at h in (k.0, AllCells-begin xs ys (xs ++ ys) refl (k.1))

length-cell_hex : (upper : Bool) (x : HexData) → IsCell x → length (cell_hex upper x) ≡ 2
length-cell_hex upper (uint8 b) h = length-put_hex upper b h
length-cell_hex upper non_existent h = refl
length-cell_hex upper unknown h = refl
length-cell_hex upper valueless h = refl

module _ (y : Layout) (get_data : ℤ → HexData) (grouped : 0 < y.bytes_per_group) where
  width-hex_text :
      (xs : List HexData) (idx : ℕ)
      → AllCells xs
      → width y idx + length (hex_text y get_data idx xs) ≡ width y (idx + length xs)
  width-hex_text [] idx h = let z : idx ≡ idx + 0 = omega arith in omega (arith, ap (width y) z)
  width-hex_text (x ∷ xs) idx h =
      let next : suc idx ≡ idx + 1 = omega arith in
      let all : idx + 1 + length xs ≡ idx + suc (length xs) = omega arith in
      omega (
        arith,
        length-append (separator y get_data idx)
            (cell_hex y.display_uppercase x ++ hex_text y get_data (idx + 1) xs),
        length-append (cell_hex y.display_uppercase x) (hex_text y get_data (idx + 1) xs),
        length-cell_hex y.display_uppercase x (h.0),
        length-separator y get_data grouped idx ∙ ap (width y) next,
        width-hex_text xs (idx + 1) (h.1) ∙ ap (width y) all,
      )

  hex_text-append :
      (xs ys : List HexData) (idx : ℕ)
      → hex_text y get_data idx (xs ++ ys)
        ≡ hex_text y get_data idx xs ++ hex_text y get_data (idx + length xs) ys
  hex_text-append [] ys idx = ap (λ k. hex_text y get_data k ys) (omega arith)
  hex_text-append (x ∷ xs) ys idx =
      let all : idx + 1 + length xs ≡ idx + suc (length xs) = omega arith in
      ap (λ t. separator y get_data idx ++ (cell_hex y.display_uppercase x ++ t))
        (hex_text-append xs ys (idx + 1)
          ∙ ap (λ k. hex_text y get_data (idx + 1) xs ++ hex_text y get_data k ys) all)
      ∙ simp append_assoc

row-AllCells :
    (y : Layout) (get_data : ℤ → HexData) (offset : ℤ) (left idx : ℕ)
    → ((z : ℤ) → IsCell (get_data z))
    → AllCells (row y get_data offset idx left)
row-AllCells y get_data offset zero idx h = tt
row-AllCells y get_data offset (suc left) idx h =
    (h (offset +ℤ pos idx), row-AllCells y get_data offset left (idx + 1) h)

length-row :
    (y : Layout) (get_data : ℤ → HexData) (offset : ℤ) (left idx : ℕ)
    → length (row y get_data offset idx left) ≡ left
length-row y get_data offset zero idx = refl
length-row y get_data offset (suc left) idx = ap suc (length-row y get_data offset left (idx + 1))

take-map :
    (shown cut : List HexData)
    → take (length shown) (map cell_char (shown ++ cut)) ≡ map cell_char shown
take-map [] cut = refl
take-map (x ∷ xs) cut = ap (λ r. cell_char x ∷ r) (take-map xs cut)

-- The hexadecimal column, of which a line without the text column shows no more than the cells up
-- to the last one with data; of a line without any data it keeps what the width for no byte says.
abbrev pub hex_column : Layout → (ℤ → HexData) → List HexData → List HexData → Bytes
hex_column y get_data cells [] = take (hex_width y 0) (hex_text y get_data 0 cells)
hex_column y get_data cells (x ∷ xs) = hex_text y get_data 0 (x ∷ xs)

-- A line on its cells.
abbrev pub line_of : Layout → (ℤ → HexData) → List HexData → Bytes
line_of y get_data cells =
    (if y.display_textual
      then hex_text y get_data 0 cells ++ (codes " : " ++ map cell_char (trimmed cells))
      else hex_column y get_data cells (trimmed cells))
    ++ (10 ∷ [])

module _ (y : Layout) (get_data : ℤ → HexData) (grouped : 0 < y.bytes_per_group) where
  take-hex_column :
      (cells shown cut : List HexData)
      → cells ≡ shown ++ cut
      → AllCells cells
      → width y (length cells) < 2 ^ 64
      → take (hex_width y (end_of 0 0 shown)) (hex_text y get_data 0 cells)
        ≡ hex_column y get_data cells shown
  take-hex_column cells [] cut e h w = refl
  take-hex_column cells (x ∷ xs) cut e h w =
      let all = hex_text-append y get_data grouped (x ∷ xs) cut 0 in
      let first : 0 + length (x ∷ xs) ≡ length (x ∷ xs) = omega arith in
      let size =
        width-hex_text y get_data grouped (x ∷ xs) 0 (AllCells-begin (x ∷ xs) cut cells e h) in
      let whole = width-hex_text y get_data grouped cells 0 h in
      let here = size ∙ ap (width y) first in
      let more = hex_text y get_data (0 + length (x ∷ xs)) cut in
      let text = ap (hex_text y get_data 0) e ∙ all in
      let total = ap (width y) (let z : 0 + length cells ≡ length cells = omega arith in z) in
      let fits : width y (suc (length xs)) < 2 ^ 64 = omega (
        arith,
        here,
        whole,
        total,
        w,
        ap length text,
        length-append (hex_text y get_data 0 (x ∷ xs)) more,
      ) in
      ap (λ k. take (hex_width y k) (hex_text y get_data 0 cells)) first
      ∙ ap (λ k. take k (hex_text y get_data 0 cells)) (hex_width-width y (length xs) fits)
      ∙ ap (take (width y (suc (length xs)))) text
      ∙ take-append-length (width y (suc (length xs))) (hex_text y get_data 0 (x ∷ xs)) more
          (omega (arith, here))

  text_column :
      (cells shown cut : List HexData)
      → cells ≡ shown ++ cut
      → take (end_of 0 0 shown) (map cell_char cells) ≡ map cell_char shown
  text_column cells [] cut e = refl
  text_column cells (x ∷ xs) cut e =
      let first : 0 + length (x ∷ xs) ≡ length (x ∷ xs) = omega arith in
      ap (λ k. take k (map cell_char cells)) first
      ∙ ap (λ cs. take (length (x ∷ xs)) (map cell_char cs)) e
      ∙ take-map (x ∷ xs) cut

  -- In a layout with at least one byte to a group, on cells that are bytes or none and whose whole
  -- column is below 2 ^ 64 characters: a line with the text column is the two characters of every
  -- cell, with the spaces between bytes and groups, a colon, and one character for each cell up to
  -- the last with data. A line without it is the two characters of each cell up to the last with
  -- data, and the spaces between them; on a line without any data, the blanks are cut to the width
  -- that the code computes for no byte.
  pub line_text-line_of :
      (offset : ℤ)
      → ((z : ℤ) → IsCell (get_data z))
      → width y y.bytes_per_line < 2 ^ 64
      → line_text y get_data offset ≡ line_of y get_data (row y get_data offset 0 y.bytes_per_line)
  unfolding line_text start_line
  line_text-line_of offset h w =
      let cells = row y get_data offset 0 y.bytes_per_line in
      let (cut, e) = trimmed-begins cells in
      let hex = hex_data-put_bytes y get_data offset y.bytes_per_line 0 (start_line y get_data) in
      let text =
        textual_data-put_bytes y get_data offset y.bytes_per_line 0 (start_line y get_data) [] refl
          refl in
      let last =
        textual_last-put_bytes y get_data offset y.bytes_per_line 0 (start_line y get_data) in
      rw (hex, text, last)
        (ap
            (λ t.
              (if y.display_textual
                then hex_text y get_data 0 cells ++ (codes " : " ++ t)
                else take (hex_width y (end_of 0 0 (trimmed cells))) (hex_text y get_data 0 cells))
              ++ (10 ∷ []))
            (text_column cells (trimmed cells) cut e)
          ∙ ap
              (λ t.
                (if y.display_textual
                  then hex_text y get_data 0 cells ++ (codes " : " ++ map cell_char (trimmed cells))
                  else t)
                ++ (10 ∷ []))
              (take-hex_column cells (trimmed cells) cut e
                (row-AllCells y get_data offset y.bytes_per_line 0 h)
                (rw (length-row y get_data offset y.bytes_per_line 0) w)))

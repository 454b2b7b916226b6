-- ===== src/Utils/Hexdump/Row.antt =====
-- What hexdump_to_stream makes of the cells of one line, described without its loop.
use read_mail_really_fast.Prelude.{
  ℕ, zero, suc, ◌+◌, ◌≡◌, refl, sym, ap, ◌∙◌, Bool, not, ◌&&◌, ltb, if◌then◌else◌, List, [], ◌∷◌,
  ◌++◌, arith, Bytes, length, length-append, append-nil, append_assoc, map, set, codes,
}
use read_mail_really_fast.Prelude.Int.{ℤ, pos, ◌+ℤ◌}
use read_mail_really_fast.Utils.Hexdump.{
  HexData, uint8, non_existent, unknown, valueless, Layout, Line, put_hex, printable, put_data,
  put_byte, put_bytes, separator, spaces,
}

-- The two characters of a cell in the hexadecimal column, and its character in the text column.
abbrev pub cell_hex : Bool → HexData → Bytes
cell_hex upper (uint8 b) = put_hex upper 2 b
cell_hex upper non_existent = codes "  "
cell_hex upper unknown = codes "??"
cell_hex upper valueless = codes "!!"

abbrev pub cell_char : HexData → ℕ
cell_char (uint8 b) = if ltb 31 b && not (ltb 126 b) then b else b'.'
cell_char non_existent = b' '
cell_char unknown = b'?'
cell_char valueless = b'!'

-- The cells without those at the end that do not exist.
abbrev pub join_end : HexData → List HexData → List HexData
join_end non_existent [] = []
join_end non_existent (y ∷ ys) = non_existent ∷ y ∷ ys
join_end (uint8 b) ys = uint8 b ∷ ys
join_end unknown ys = unknown ∷ ys
join_end valueless ys = valueless ∷ ys

abbrev pub trimmed : List HexData → List HexData
trimmed [] = []
trimmed (x ∷ xs) = join_end x (trimmed xs)

-- Where the last cell with data ends, for cells from `idx` on, or `last` if there is none.
abbrev pub end_of : ℕ → ℕ → List HexData → ℕ
end_of last idx [] = last
end_of last idx (x ∷ xs) = idx + length (x ∷ xs)

abbrev end_here : ℕ → ℕ → HexData → ℕ
end_here last idx non_existent = last
end_here last idx (uint8 b) = idx + 1
end_here last idx unknown = idx + 1
end_here last idx valueless = idx + 1

end_of-join :
    (x : HexData) (idx last : ℕ) (xs : List HexData)
    → end_of (end_here last idx x) (idx + 1) xs ≡ end_of last idx (join_end x xs)
end_of-join non_existent idx last [] = refl
end_of-join non_existent idx last (z ∷ zs) = omega arith
end_of-join (uint8 b) idx last [] = omega arith
end_of-join (uint8 b) idx last (z ∷ zs) = omega arith
end_of-join unknown idx last [] = omega arith
end_of-join unknown idx last (z ∷ zs) = omega arith
end_of-join valueless idx last [] = omega arith
end_of-join valueless idx last (z ∷ zs) = omega arith

hex_data-put_data :
    (upper : Bool) (idx : ℕ) (x : HexData) (l : Line)
    → (put_data upper idx x l).hex_data ≡ l.hex_data ++ cell_hex upper x
unfolding put_data
hex_data-put_data upper idx (uint8 b) l = refl
hex_data-put_data upper idx non_existent l = refl
hex_data-put_data upper idx unknown l = refl
hex_data-put_data upper idx valueless l = refl

printable_lem : (b : ℕ) → printable b ≡ (if ltb 31 b && not (ltb 126 b) then b else b'.')
printable_lem b = ground arith

textual_data-put_data :
    (upper : Bool) (idx : ℕ) (x : HexData) (l : Line)
    → (put_data upper idx x l).textual_data ≡ set l.textual_data idx (cell_char x)
unfolding put_data
textual_data-put_data upper idx (uint8 b) l = ap (set l.textual_data idx) (printable_lem b)
textual_data-put_data upper idx non_existent l = refl
textual_data-put_data upper idx unknown l = refl
textual_data-put_data upper idx valueless l = refl

textual_last-put_data :
    (upper : Bool) (idx : ℕ) (x : HexData) (l : Line)
    → (put_data upper idx x l).textual_last ≡ end_here l.textual_last idx x
unfolding put_data
textual_last-put_data upper idx (uint8 b) l = refl
textual_last-put_data upper idx non_existent l = refl
textual_last-put_data upper idx unknown l = refl
textual_last-put_data upper idx valueless l = refl

set-append :
    (before : Bytes) (s c : ℕ) (rest : Bytes) (idx : ℕ)
    → length before ≡ idx
    → set (before ++ (s ∷ rest)) idx c ≡ before ++ (c ∷ rest)
set-append [] s c rest zero h = refl
set-append [] s c rest (suc idx) h = absurd (omega arith)
set-append (b ∷ before) s c rest zero h = absurd (omega arith)
set-append (b ∷ before) s c rest (suc idx) h =
    ap (λ r. b ∷ r) (set-append before s c rest idx (omega arith))

module _ (y : Layout) (get_data : ℤ → HexData) where
  -- The cells of a line, from `idx` on.
  abbrev pub row : ℤ → ℕ → ℕ → List HexData
  row offset idx zero = []
  row offset idx (suc left) = get_data (offset +ℤ pos idx) ∷ row offset (idx + 1) left

  abbrev pub hex_text : ℕ → List HexData → Bytes
  hex_text idx [] = []
  hex_text idx (x ∷ xs) =
      separator y get_data idx ++ (cell_hex y.display_uppercase x ++ hex_text (idx + 1) xs)

  hex_data-put_byte :
      (offset : ℤ) (idx : ℕ) (l : Line)
      → (put_byte y get_data offset idx l).hex_data
        ≡ l.hex_data
          ++ (separator y get_data idx
              ++ cell_hex y.display_uppercase (get_data (offset +ℤ pos idx)))
  unfolding put_byte
  hex_data-put_byte offset idx l =
      hex_data-put_data y.display_uppercase idx (get_data (offset +ℤ pos idx)) _
      ∙ append_assoc l.hex_data (separator y get_data idx) _

  pub hex_data-put_bytes :
      (offset : ℤ) (left idx : ℕ) (l : Line)
      → (put_bytes y get_data offset left idx l).hex_data
        ≡ l.hex_data ++ hex_text idx (row offset idx left)
  unfolding put_bytes
  hex_data-put_bytes offset zero idx l = sym (append-nil l.hex_data)
  hex_data-put_bytes offset (suc left) idx l =
      hex_data-put_bytes offset left (idx + 1) (put_byte y get_data offset idx l)
      ∙ ap (λ h. h ++ hex_text (idx + 1) (row offset (idx + 1) left))
          (hex_data-put_byte offset idx l)
      ∙ simp append_assoc

  pub textual_data-put_bytes :
      (offset : ℤ) (left idx : ℕ) (l : Line) (before : Bytes)
      → length before ≡ idx
      → l.textual_data ≡ before ++ spaces left
      → (put_bytes y get_data offset left idx l).textual_data
        ≡ before ++ map cell_char (row offset idx left)
  unfolding put_bytes put_byte
  textual_data-put_bytes offset zero idx l before h e = e
  textual_data-put_bytes offset (suc left) idx l before h e =
      let x = get_data (offset +ℤ pos idx) in
      textual_data-put_bytes offset left (idx + 1) (put_byte y get_data offset idx l)
        (before ++ (cell_char x ∷ [])) (omega (arith, h, length-append before (cell_char x ∷ [])))
        (textual_data-put_data y.display_uppercase idx x _
          ∙ ap (λ t. set t idx (cell_char x)) e
          ∙ set-append before b' ' (cell_char x) (spaces left) idx h
          ∙ sym (append_assoc before (cell_char x ∷ []) (spaces left)))
      ∙ append_assoc before (cell_char x ∷ []) (map cell_char (row offset (idx + 1) left))

  pub textual_last-put_bytes :
      (offset : ℤ) (left idx : ℕ) (l : Line)
      → (put_bytes y get_data offset left idx l).textual_last
        ≡ end_of l.textual_last idx (trimmed (row offset idx left))
  unfolding put_bytes put_byte
  textual_last-put_bytes offset zero idx l = refl
  textual_last-put_bytes offset (suc left) idx l =
      let x = get_data (offset +ℤ pos idx) in
      textual_last-put_bytes offset left (idx + 1) (put_byte y get_data offset idx l)
      ∙ ap (λ k. end_of k (idx + 1) (trimmed (row offset (idx + 1) left)))
          (textual_last-put_data y.display_uppercase idx x _)
      ∙ end_of-join x idx l.textual_last (trimmed (row offset (idx + 1) left))

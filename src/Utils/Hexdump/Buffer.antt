-- ===== src/Utils/Hexdump/Buffer.antt =====
-- The cells that the hex dump of a buffer has on a line.
use read_mail_really_fast.Prelude.{
  ℕ, zero, suc, ◌+◌, ◌≡◌, ◌≤◌, ◌<◌, refl, sym, ap, ◌∙◌, List, [], ◌∷◌, arith, Bytes, length,
  length-drop, map, take, drop, drop_all, get_or, get_or-drop, leb, Bool-cases, inl, inr,
}
use read_mail_really_fast.Prelude.Int.{ℤ, pos, negsuc, ◌+ℤ◌}
use read_mail_really_fast.Utils.Hexdump.{HexData, uint8, non_existent, Layout, make_getdata_t}
use read_mail_really_fast.Utils.Hexdump.Columns.{IsCell}
use read_mail_really_fast.Utils.Hexdump.Row.{trimmed, join_end, row}

abbrev pub AllBytes : Bytes → Type 0
AllBytes [] = Unit {0}
AllBytes (b ∷ bs) = (b < 256) × AllBytes bs

get_or_lt : (bs : Bytes) (n : ℕ) → AllBytes bs → get_or bs n 0 < 256
get_or_lt [] n h = omega arith
get_or_lt (b ∷ bs) zero h = h.0
get_or_lt (b ∷ bs) (suc n) h = get_or_lt bs n h.1

pub make_getdata_t-IsCell : (bs : Bytes) (z : ℤ) → AllBytes bs → IsCell (make_getdata_t bs z)
unfolding make_getdata_t
make_getdata_t-IsCell bs (negsuc n) h = tt
make_getdata_t-IsCell bs (pos n) h = elim (Bool-cases (leb (length bs) n)) [
  | inl e ↦ rw e tt
  | inr e ↦ rw e (get_or_lt bs n h)
]

-- `n` cells of a buffer.
abbrev pub cells_of : ℕ → Bytes → List HexData
cells_of zero bs = []
cells_of (suc n) [] = non_existent ∷ cells_of n []
cells_of (suc n) (b ∷ bs) = uint8 b ∷ cells_of n bs

pub trimmed-cells_of : (n : ℕ) (bs : Bytes) → trimmed (cells_of n bs) ≡ map uint8 (take n bs)
trimmed-cells_of zero bs = refl
trimmed-cells_of (suc zero) [] = refl
trimmed-cells_of (suc (suc n)) [] = ap (join_end non_existent) (trimmed-cells_of (suc n) [])
trimmed-cells_of (suc n) (b ∷ bs) = ap (λ r. uint8 b ∷ r) (trimmed-cells_of n bs)

get_data_past :
    (buffer : Bytes) (n : ℕ) → length buffer ≤ n → make_getdata_t buffer (pos n) ≡ non_existent
unfolding make_getdata_t
get_data_past buffer n h = ground arith

get_data_within :
    (buffer : Bytes) (n : ℕ)
    → n < length buffer
    → make_getdata_t buffer (pos n) ≡ uint8 (get_or buffer n 0)
unfolding make_getdata_t
get_data_within buffer n h = ground arith

add_pos : (a b : ℕ) → pos a +ℤ pos b ≡ pos (a + b)
unfolding ◌+ℤ◌
add_pos a b = ground arith

module _ (y : Layout) (buffer : Bytes) (a : ℕ) where
  pub row-cells_of :
      (left idx : ℕ) (bs : Bytes)
      → drop (a + idx) buffer ≡ bs
      → row y (make_getdata_t buffer) (pos a) idx left ≡ cells_of left bs
  row-cells_of zero idx bs e = refl
  row-cells_of (suc left) idx [] e =
      let past : length buffer ≤ a + idx =
        omega (arith, length-drop (a + idx) buffer, ap length e) in
      rw (add_pos a idx, get_data_past buffer (a + idx) past)
        (ap (λ r. non_existent ∷ r)
          (row-cells_of left (idx + 1) [] (drop_all (a + (idx + 1)) buffer (omega arith))))
  row-cells_of (suc left) idx (b ∷ bs) e =
      let (x, z) = get_or-drop buffer (a + idx) b bs e in
      let within : a + idx < length buffer =
        omega (arith, length-drop (a + idx) buffer, ap length e) in
      let next : a + idx + 1 ≡ a + (idx + 1) = omega arith in
      rw (add_pos a idx, get_data_within buffer (a + idx) within, x)
        (ap (λ r. uint8 b ∷ r)
          (row-cells_of left (idx + 1) bs (ap (λ k. drop k buffer) (sym next) ∙ z)))

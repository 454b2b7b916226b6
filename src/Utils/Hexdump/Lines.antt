-- ===== src/Utils/Hexdump/Lines.antt =====
-- The rounds of the outer loop of `hexdump_to_stream`, src/utils/hexdump.cpp.
use read_mail_really_fast.Prelude.{
  ℕ, zero, suc, ◌+◌, ◌-◌, ◌^◌, ◌≤◌, ◌<◌, ◌≡◌, refl, true, false, ◌&&◌, arith, ltb, if◌then◌else◌,
  inl, inr, ◌⊎◌, ◌∙◌, Bool-cases,
}
use read_mail_really_fast.Prelude.Int.{ℤ, pos, negsuc, ◌+ℤ◌, ltb_ℤ, to_off_t, fits_off_t}
use read_mail_really_fast.Utils.Hexdump.{
  HexData, Layout, Stream, printed, overflows, put_line, put_lines, hexdump_to_stream,
}

-- A number between two that fit does, and the room behind it.
fits_between :
    (v : ℤ) (m room : ℕ)
    → m ≤ room
    → fits_off_t v ≡ true
    → fits_off_t (v +ℤ pos room) ≡ true
    → (fits_off_t (v +ℤ pos m) ≡ true) × (fits_off_t ((v +ℤ pos m) +ℤ pos (room - m)) ≡ true)
unfolding ◌+ℤ◌
fits_between (pos n) m room h f g = ground arith
fits_between (negsuc n) m room h f g = ground arith

fits_behind :
    (v : ℤ) (a e : ℕ)
    → fits_off_t (v +ℤ pos a) ≡ true
    → fits_off_t (v +ℤ pos e) ≡ true
    → fits_off_t ((v +ℤ pos a) +ℤ pos (e - a)) ≡ true
unfolding ◌+ℤ◌
fits_behind (pos n) a e f g = ground arith
fits_behind (negsuc n) a e f g = ground arith

module _ (y : Layout) (get_data : ℤ → HexData) where
  -- `n` lines, the first at offset `a`, shown as `v`.
  abbrev pub after_lines : ℕ → ℕ → ℤ → Stream → Stream
  after_lines zero a v os = os
  after_lines (suc n) a v os =
      after_lines n (a + y.bytes_per_line) (v +ℤ pos y.bytes_per_line)
        (put_line y get_data (pos a) v os)

  -- `n` lines from `a` on reach beyond `b`, and the last of them begins at `b` or before.
  abbrev pub Covers : ℕ → ℕ → ℕ → Type 0
  Covers zero a b = b < a
  Covers (suc n) a b = (a ≤ b) × Covers n (a + y.bytes_per_line) b

  add_pos : (a b : ℕ) → pos a +ℤ pos b ≡ pos (a + b)
  unfolding ◌+ℤ◌
  add_pos a b = ground arith

  put_lines_round :
      (fuel : ℕ) (a b v : ℤ) (os : Stream)
      → y.bytes_per_line < 2 ^ 63
      → put_lines y get_data (suc fuel) a b v os ≡ (
          if ltb_ℤ b a
          then printed os
          else if fits_off_t (a +ℤ pos y.bytes_per_line) && fits_off_t (v +ℤ pos y.bytes_per_line)
          then put_lines y get_data fuel
              (a +ℤ pos y.bytes_per_line)
              b
              (v +ℤ pos y.bytes_per_line)
              (put_line y get_data a v os)
          else overflows)
  unfolding put_lines
  put_lines_round fuel a b v os h =
      let step : to_off_t y.bytes_per_line ≡ pos y.bytes_per_line = ground arith in rw step refl

  beyond : (a b : ℕ) → b < a → ltb_ℤ (pos b) (pos a) ≡ true
  beyond a b h = ground arith

  within : (a b : ℕ) → a ≤ b → ltb_ℤ (pos b) (pos a) ≡ false
  within a b h = ground arith

  reached : (a b : ℕ) → (b < a) ⊎ (a ≤ b)
  reached a b = omega arith

  put_lines_past :
      (fuel a b : ℕ) (v : ℤ) (os : Stream)
      → y.bytes_per_line < 2 ^ 63
      → b < a
      → put_lines y get_data (suc fuel) (pos a) (pos b) v os ≡ printed os
  put_lines_past fuel a b v os l h =
      put_lines_round fuel (pos a) (pos b) v os l ∙ rw (beyond a b h) refl

  put_lines_more :
      (fuel a b : ℕ) (v : ℤ) (os : Stream)
      → y.bytes_per_line < 2 ^ 63
      → a ≤ b
      → put_lines y get_data (suc fuel) (pos a) (pos b) v os ≡ (
          if ltb (a + y.bytes_per_line) (2 ^ 63) && fits_off_t (v +ℤ pos y.bytes_per_line)
          then put_lines y get_data fuel
              (pos (a + y.bytes_per_line))
              (pos b)
              (v +ℤ pos y.bytes_per_line)
              (put_line y get_data (pos a) v os)
          else overflows)
  put_lines_more fuel a b v os l h =
      put_lines_round fuel (pos a) (pos b) v os l
      ∙ rw (within a b h, add_pos a y.bytes_per_line) refl

  put_lines-Covers :
      (fuel a b room : ℕ) (v : ℤ) (os : Stream)
      → 0 < y.bytes_per_line
      → b + y.bytes_per_line < 2 ^ 63
      → b < a + fuel
      → b + y.bytes_per_line ≤ a + room
      → fits_off_t v ≡ true
      → fits_off_t (v +ℤ pos room) ≡ true
      → (n : ℕ) × Covers n a b
        × (put_lines y get_data (suc fuel) (pos a) (pos b) v os ≡ printed (after_lines n a v os))
  put_lines-Covers zero a b room v os h l e r f g =
      let past : b < a = omega (arith, e) in (0, past, put_lines_past 0 a b v os (omega arith) past)
  put_lines-Covers (suc fuel) a b room v os h l e r f g = elim (reached a b) [
    | inl past ↦ (0, past, put_lines_past (suc fuel) a b v os (omega arith) past)
    | inr more ↦
        let (fits, room_left) = fits_between v y.bytes_per_line room (omega arith) f g in
        let again =
          put_lines-Covers fuel (a + y.bytes_per_line) b (room - y.bytes_per_line)
            (v +ℤ pos y.bytes_per_line) (put_line y get_data (pos a) v os) h l (omega arith)
            (omega arith) fits room_left in
        let below : ltb (a + y.bytes_per_line) (2 ^ 63) ≡ true = ground arith in
        (
          suc again.0,
          (more, again.1),
          put_lines_more (suc fuel) a b v os (omega arith) more ∙ rw (below, fits) refl ∙ again.2,
        )
  ]

  pub hexdump_to_stream-Covers :
      (a b : ℕ) (v : ℤ) (os : Stream)
      → 0 < y.bytes_per_line
      → b + y.bytes_per_line < 2 ^ 63
      → fits_off_t (v +ℤ pos a) ≡ true
      → fits_off_t (v +ℤ pos (b + y.bytes_per_line)) ≡ true
      → (n : ℕ) × Covers n a b
        × (hexdump_to_stream y get_data (pos a) (pos b) v os
            ≡ printed (after_lines n a (v +ℤ pos a) os))
  unfolding hexdump_to_stream
  hexdump_to_stream-Covers a b v os h l f g =
      let (n, covers, e) =
        put_lines-Covers (suc (b + 0)) a b (b + y.bytes_per_line - a) (v +ℤ pos a) os h l
          (omega arith) (omega arith) f (fits_behind v a (b + y.bytes_per_line) f g) in
      (n, covers, rw f e)

  put_lines_overflows :
      (fuel a b : ℕ) (v : ℤ) (os : Stream)
      → 0 < y.bytes_per_line
      → y.bytes_per_line < 2 ^ 63
      → a ≤ b
      → b + 1 ≡ 2 ^ 63
      → b < a + fuel
      → put_lines y get_data fuel (pos a) (pos b) v os ≡ overflows
  put_lines_overflows zero a b v os h l k e f = absurd (omega (arith, k, f))
  put_lines_overflows (suc fuel) a b v os h l k e f =
      let v' = v +ℤ pos y.bytes_per_line in
      let os' = put_line y get_data (pos a) v os in
      put_lines_more fuel a b v os l k
      ∙ elim (Bool-cases (ltb (a + y.bytes_per_line) (2 ^ 63) && fits_off_t v')) [
        | inl t ↦ rw t (
            put_lines_overflows fuel (a + y.bytes_per_line) b v' os' h l (ground arith) e
              (omega (arith, f, h)))
        | inr t ↦ rw t refl
      ]

  -- Up to the last offset there is, the function goes on until an offset overflows.
  hexdump_to_stream_overflows :
      (a b : ℕ) (v : ℤ) (os : Stream)
      → 0 < y.bytes_per_line
      → y.bytes_per_line < 2 ^ 63
      → a ≤ b
      → b + 1 ≡ 2 ^ 63
      → hexdump_to_stream y get_data (pos a) (pos b) v os ≡ overflows
  unfolding hexdump_to_stream
  hexdump_to_stream_overflows a b v os h l k e = elim (Bool-cases (fits_off_t (v +ℤ pos a))) [
    | inl t ↦
        rw t
          (put_lines_overflows (suc (suc (b + 0))) a b (v +ℤ pos a) os h l k e (omega (arith, k)))
    | inr t ↦ rw t refl
  ]

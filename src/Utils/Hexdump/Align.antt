-- ===== src/Utils/Hexdump/Align.antt =====
-- `hexdump_align` of src/utils/hexdump.cpp.
use read_mail_really_fast.Prelude.{
  ℕ, ◌+◌, ◌-◌, ◌*◌, ◌/◌, ◌%◌, ◌^◌, ◌≡◌, false, some, ltb, ◌≤◌, ◌<◌, ap, ◌∙◌, arith, ◌==◌,
  if◌then◌else◌,
}
use native.Mathlib.Nat.{mod-add-div', mod-lt}
use read_mail_really_fast.Prelude.Int.{pos, negsuc, ◌-ℤ◌, pos_part, neg_part, to_off_t}
use read_mail_really_fast.Utils.Hexdump.{hexdump_align, divides_badly}

minus_mod : (n b : ℕ) → n - n % b ≡ n / b * b
minus_mod n b = omega (arith, mod-add-div' n b)

mod_le : (n b : ℕ) → n % b ≤ n
mod_le n b = omega (arith, mod-add-div' n b)

pos_sub : (n m : ℕ) → m ≤ n → pos n -ℤ pos m ≡ pos (n - m)
unfolding ◌-ℤ◌
pos_sub n m h = ground arith

neg_align :
    (n r q : ℕ)
    → r + q ≡ n + 1
    → negsuc n -ℤ (if r == 0 then pos 0 else negsuc (r - 1)) ≡ pos 0 -ℤ pos q
unfolding ◌-ℤ◌
neg_align n r q h = ground arith

-- What a line's length is taken for: from 2 ^ 63 on, its conversion to `off_t` is negative.
abbrev pub line_step : ℕ → ℕ
line_step b = if ltb b (2 ^ 63) then b else 2 ^ 64 - b

line_step_off_t : (b : ℕ) → b < 2 ^ 64 → pos_part (to_off_t b) + neg_part (to_off_t b) ≡ line_step b
line_step_off_t b h = ground arith

-- An offset that is not negative, on a line of 1 to 2 ^ 63 - 1 bytes, is aligned to the last multiple
-- of the line's length up to it. The alignment is symmetric: a negative offset is aligned to the
-- multiple after it, towards zero. On a line of 2 ^ 63 bytes or more, up to 2 ^ 64 - 1, the same
-- holds of the multiples of 2 ^ 64 less the line's length. The offsets are those from -2 ^ 63 + 1 to
-- 2 ^ 63 - 2.
pub hexdump_align_multiple :
    (n b : ℕ)
    → 0 < b
    → b < 2 ^ 64
    → n + 1 < 2 ^ 63
    → let m = line_step b in
      (hexdump_align (pos n) b ≡ some (pos (n / m * m)))
      × (n / m * m ≤ n)
      × (n < n / m * m + m)
      × (hexdump_align (negsuc n) b ≡ some (pos 0 -ℤ pos ((n + 1) / m * m)))
unfolding hexdump_align
hexdump_align_multiple n b h l k =
    let m = line_step b in
    let positive : 0 < m = ground arith in
    let step = line_step_off_t b l in
    let up : divides_badly (pos n) (to_off_t b) ≡ false = ground arith in
    let down : divides_badly (negsuc n) (to_off_t b) ≡ false = ground arith in
    (
      rw (up, step) (ap some (pos_sub n (n % m) (mod_le n m) ∙ ap pos (minus_mod n m))),
      omega (arith, mod-add-div' n m),
      omega (arith, mod-add-div' n m, mod-lt n positive),
      rw (down, step)
          (ap some (neg_align n ((n + 1) % m) ((n + 1) / m * m) (mod-add-div' (n + 1) m))),
    )

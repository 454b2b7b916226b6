-- ===== src/Utils/Hexdump/Columns.antt =====
-- The hexadecimal column of a line and the width that hexdump_to_stream cuts it to.
use native.Mathlib.Nat.{
  div-add-mod, mod-lt, mul-add-div, mul-add-mod_self_left, div-eq_of_lt, div_self, mod-eq_of_lt,
  mod_self, zero-div,
}
use read_mail_really_fast.Prelude.{
  ℕ, zero, suc, ◌+◌, ◌-◌, ◌*◌, ◌/◌, ◌%◌, ◌^◌, ◌≡◌, ◌≤◌, ◌<◌, refl, ap, ◌∙◌, Bool, true, false, not,
  ◌&&◌, [], ◌++◌, arith, Bytes, length, length-append, length-replicate, replicate, ◌==◌,
  if◌then◌else◌, codes, Bool-cases, inl, inr, ◌⊎◌,
}
use read_mail_really_fast.Prelude.Int.{ℤ, pos, ◌+ℤ◌, ◌-ℤ◌, to_size}
use read_mail_really_fast.Utils.Hexdump.{
  HexData, uint8, non_existent, unknown, valueless, Layout, Line, hex_width, hex_number, put_hex,
  put_data, put_byte, put_bytes, separator, spaces,
}

-- One more byte begins a new group exactly when its index is a multiple.
groups-suc : (n b : ℕ) → 0 < b → suc n / b ≡ n / b + (if suc n % b == 0 then 1 else 0)
groups-suc n b h =
    let r = n % b in
    let q = n / b in
    let e : suc n ≡ b * q + (r + 1) = omega (arith, div-add-mod n b) in
    let d : suc n / b ≡ q + (r + 1) / b = ap (λ k. k / b) e ∙ mul-add-div h q (r + 1) in
    let m : suc n % b ≡ (r + 1) % b = ap (λ k. k % b) e ∙ mul-add-mod_self_left b q (r + 1) in
    elim (within_or_full (r + 1) b (omega (arith, mod-lt n h))) [
      | inl l ↦ ground (arith, d, m, div-eq_of_lt l, mod-eq_of_lt l)
      | inr s ↦ ground (arith, d, m, ap (λ k. k / b) s ∙ div_self h, ap (λ k. k % b) s ∙ mod_self b)
    ]
  where
    within_or_full : (a b : ℕ) → a ≤ b → (a < b) ⊎ (a ≡ b)
    within_or_full a b h = omega arith

-- The width of the cells before `n`, without any wrap.
abbrev pub width : Layout → ℕ → ℕ
width y zero = 0
width y (suc n) = 2 * n + 2 + n * y.space_per_byte + n / y.bytes_per_group * y.space_per_group

pub minus_one : (n : ℕ) → n < 2 ^ 64 → to_size (pos (suc n) -ℤ pos 1) ≡ n
unfolding ◌-ℤ◌
minus_one n m = ground arith

pub hex_width-width :
    (y : Layout) (n : ℕ) → width y (suc n) < 2 ^ 64 → hex_width y (suc n) ≡ width y (suc n)
unfolding hex_width
hex_width-width y n w = rw (minus_one n (omega (arith, w))) (omega (arith, w))

is_small : (n : ℕ) → n < 16 → (n / 16 == 0) ≡ true
is_small n h = ground arith

length-hex_digit : (upper : Bool) (k n : ℕ) → n < 16 → length (hex_number upper (suc k) n) ≡ 1
length-hex_digit upper k n h = rw (is_small n h) refl

-- A byte has at most two digits.
length-hex_number :
    (upper : Bool) (k n : ℕ) → n < 256 → length (hex_number upper (suc (suc k)) n) ≤ 2
length-hex_number upper k n h = elim (Bool-cases (n / 16 == 0)) [
  | inl e ↦ rw e (omega arith)
  | inr e ↦ rw e (
      omega (
        arith,
        length-append (hex_number upper (suc k) (n / 16)) _,
        length-hex_digit upper k (n / 16) (omega arith),
      ))
]

pub length-put_hex : (upper : Bool) (n : ℕ) → n < 256 → length (put_hex upper 2 n) ≡ 2
length-put_hex upper n h = padded (hex_number upper 16 n) (length-hex_number upper 14 n h)
  where
    padded :
        (digits : Bytes)
        → length digits ≤ 2
        → length (replicate (2 - length digits) 48 ++ digits) ≡ 2
    padded digits h = omega (
      arith,
      length-append (replicate (2 - length digits) 48) digits,
      length-replicate {A = ℕ} (2 - length digits) 48,
    )

-- The data is a byte, or none.
abbrev pub IsCell : HexData → Type 0
IsCell (uint8 b) = b < 256
IsCell non_existent = Unit {0}
IsCell unknown = Unit {0}
IsCell valueless = Unit {0}

length-put_data :
    (upper : Bool) (idx : ℕ) (x : HexData) (l : Line)
    → IsCell x
    → length (put_data upper idx x l).hex_data ≡ length l.hex_data + 2
unfolding put_data
length-put_data upper idx unknown l h = length-append l.hex_data (codes "??")
length-put_data upper idx non_existent l h = length-append l.hex_data (codes "  ")
length-put_data upper idx valueless l h = length-append l.hex_data (codes "!!")
length-put_data upper idx (uint8 b) l h =
    omega (arith, length-append l.hex_data (put_hex upper 2 b), length-put_hex upper b h)

length-spaces_if :
    (s : ℕ) (c : Bool) → length (if not (s == 0) && c then spaces s else []) ≡ (if c then s else 0)
length-spaces_if s true = ground (arith, length-replicate {A = ℕ} s 32)
length-spaces_if s false = ground arith

group_step :
    (n spg spb : ℕ) (c : Bool) (q q' gap : ℕ)
    → q' ≡ q + (if c then 1 else 0)
    → gap ≡ (if c then spg else 0) + spb
    → 2 * n + 2 + n * spb + q * spg + gap + 2 ≡ 2 * suc n + 2 + suc n * spb + q' * spg
group_step n spg spb true q q' gap e g =
    let m = ap (λ (t : ℕ). t * spg) e in
    let d : (q + 1) * spg ≡ q * spg + spg = grind arith in
    let f : suc n * spb ≡ n * spb + spb = grind arith in omega arith
group_step n spg spb false q q' gap e g =
    let m = ap (λ (t : ℕ). t * spg) e in
    let d : (q + 0) * spg ≡ q * spg = grind arith in
    let f : suc n * spb ≡ n * spb + spb = grind arith in omega arith

module _ (y : Layout) (get_data : ℤ → HexData) (grouped : 0 < y.bytes_per_group) where
  gaps :
      (c1 c2 c : Bool)
      → c1 ≡ c
      → c2 ≡ true
      → length (if not (y.space_per_group == 0) && c1 then spaces y.space_per_group else [])
          + length (if not (y.space_per_byte == 0) && c2 then spaces y.space_per_byte else [])
        ≡ (if c then y.space_per_group else 0) + y.space_per_byte
  gaps c1 c2 c e f =
      ground (arith, length-spaces_if y.space_per_group c1, length-spaces_if y.space_per_byte c2)

  pub length-separator : (n : ℕ) → width y n + length (separator y get_data n) + 2 ≡ width y (suc n)
  length-separator zero =
      let none_yet =
        length-append
          (if not (y.space_per_group == 0) && (not (zero == 0) && (zero % y.bytes_per_group == 0))
            then spaces y.space_per_group
            else [])
          (if not (y.space_per_byte == 0) && not (zero == 0)
            then spaces y.space_per_byte
            else []) in
      let first : 0 / y.bytes_per_group * y.space_per_group ≡ 0 =
        ap (λ (t : ℕ). t * y.space_per_group) (zero-div y.bytes_per_group) ∙ omega arith in
      omega (
        arith,
        none_yet,
        first,
        length-spaces_if y.space_per_group false,
        length-spaces_if y.space_per_byte false,
      )
  length-separator (suc n) =
      let c1 = not (suc n == 0) && (suc n % y.bytes_per_group == 0) in
      let c2 = not (suc n == 0) in
      let same : c1 ≡ (suc n % y.bytes_per_group == 0) = ground arith in
      group_step n y.space_per_group y.space_per_byte (suc n % y.bytes_per_group == 0)
        (n / y.bytes_per_group) (suc n / y.bytes_per_group) _
        (groups-suc n y.bytes_per_group grouped)
        (length-append (if not (y.space_per_group == 0) && c1 then spaces y.space_per_group else [])
            (if not (y.space_per_byte == 0) && c2 then spaces y.space_per_byte else [])
          ∙ gaps c1 c2 (suc n % y.bytes_per_group == 0) same (ground arith))

  put_byte-width :
      (offset : ℤ) (n : ℕ) (l : Line)
      → ((z : ℤ) → IsCell (get_data z))
      → length l.hex_data ≡ width y n
      → length (put_byte y get_data offset n l).hex_data ≡ width y (suc n)
  unfolding put_byte
  put_byte-width offset n l cells e =
      length-put_data y.display_uppercase n (get_data (offset +ℤ pos n)) _ (cells (offset +ℤ pos n))
      ∙ omega (arith, length-append l.hex_data (separator y get_data n), length-separator n)

  pub put_bytes-width :
      (offset : ℤ) (left n : ℕ) (l : Line)
      → ((z : ℤ) → IsCell (get_data z))
      → length l.hex_data ≡ width y n
      → length (put_bytes y get_data offset left n l).hex_data ≡ width y (n + left)
  unfolding put_bytes
  put_bytes-width offset zero n l cells e = e ∙ ap (width y) (omega arith)
  put_bytes-width offset (suc left) n l cells e =
      let next : suc n ≡ n + 1 = omega arith in
      let all : n + 1 + left ≡ n + suc left = omega arith in
      put_bytes-width offset left (n + 1) (put_byte y get_data offset n l) cells
        (put_byte-width offset n l cells e ∙ ap (width y) next)
      ∙ ap (width y) all

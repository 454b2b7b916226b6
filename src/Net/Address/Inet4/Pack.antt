-- ===== src/Net/Address/Inet4/Pack.antt =====
-- The packing of four components of an IPv4 address into one number.
use Prim.Native.Nat.{bit_or, bit_or-bitwise, digits}
use native.Mathlib.Nat.{pow-suc}
use read_mail_really_fast.Prelude.{
  ℕ, zero, suc, ◌+◌, ◌-◌, ◌*◌, ◌/◌, ◌%◌, ◌^◌, ◌≤◌, ◌<◌, ◌≡◌, refl, ap, ◌∙◌, max, arith,
}
use read_mail_really_fast.Prelude.Int.{pos, negsuc}
use read_mail_really_fast.Net.Address.Inet4.{pack}

abbrev or_count : ℕ → ℕ → ℕ → ℕ
or_count = digits (λ b. b) max

-- The count of digits does not matter once it reaches the first number.
or_count-count : (m n a b : ℕ) → a ≤ m → a ≤ n → or_count m a b ≡ or_count n a b
or_count-count zero zero a b h k = refl
or_count-count zero (suc n) zero b h k = refl
or_count-count (suc m) zero zero b h k = refl
or_count-count (suc m) (suc n) zero b h k = refl
or_count-count zero (suc n) (suc a) b h k = absurd (omega arith)
or_count-count (suc m) zero (suc a) b h k = absurd (omega arith)
or_count-count (suc m) (suc n) (suc a) b h k =
    omega (arith, or_count-count m n (suc a / 2) (b / 2) (omega arith) (omega arith))

pub zero-bit_or : (b : ℕ) → bit_or 0 b ≡ b
zero-bit_or b = bit_or-bitwise 0 b

bit_or_digit : (a b : ℕ) → bit_or a b ≡ bit_or (a / 2) (b / 2) * 2 + max (a % 2) (b % 2)
bit_or_digit zero b = omega (arith, zero-bit_or b, zero-bit_or (b / 2))
bit_or_digit (suc a) b = omega (
  arith,
  bit_or-bitwise (suc a) b,
  bit_or-bitwise (suc a / 2) (b / 2),
  or_count-count a (suc a / 2) (suc a / 2) (b / 2) (omega arith) (omega arith),
)

bit_or-zero_below : (n a : ℕ) → a ≤ n → bit_or a 0 ≡ a
bit_or-zero_below n zero h = zero-bit_or 0
bit_or-zero_below zero (suc a) h = absurd (omega arith)
bit_or-zero_below (suc n) (suc a) h =
    omega (arith, bit_or_digit (suc a) 0, bit_or-zero_below n (suc a / 2) (omega arith))

twice_power : (a k : ℕ) → a * 2 ^ suc k ≡ a * 2 ^ k * 2
twice_power a k = omega (arith, ap (λ (p : ℕ). a * p) (pow-suc 2 k))

-- A number whose low `k` digits are 0 and one of at most `k` digits have no digit in common.
pub bit_or_apart : (k a b : ℕ) → b < 2 ^ k → bit_or (a * 2 ^ k) b ≡ a * 2 ^ k + b
bit_or_apart zero a b h = ground (arith, bit_or-zero_below a a)
bit_or_apart (suc k) a b h =
    let half = twice_power a k in
    let low : b / 2 < 2 ^ k = omega (arith, pow-suc 2 k) in
    let down : a * 2 ^ k * 2 / 2 ≡ a * 2 ^ k = omega arith in
    bit_or_digit (a * 2 ^ suc k) b ∙ rw (half, down, bit_or_apart k a (b / 2) low) (omega arith)

shift_again : (a b : ℕ) → a * 2 ^ 24 + b * 2 ^ 16 ≡ (a * 2 ^ 8 + b) * 2 ^ 16
shift_again a b = omega arith

-- Four components below 256 are packed into the number with these bytes, the first the highest.
pub pack_lem :
    (a b c d : ℕ)
    → a < 256
    → b < 256
    → c < 256
    → d < 256
    → pack (pos a) (pos b) (pos c) (pos d) ≡ a * 2 ^ 24 + b * 2 ^ 16 + c * 2 ^ 8 + d
pack_lem a b c d ha hb hc hd =
    let ab : bit_or (a * 2 ^ 24) (b * 2 ^ 16) ≡ (a * 2 ^ 8 + b) * 2 ^ 16 =
      bit_or_apart 24 a (b * 2 ^ 16) (omega arith) ∙ shift_again a b in
    let abc : bit_or ((a * 2 ^ 8 + b) * 2 ^ 16) (c * 2 ^ 8)
        ≡ ((a * 2 ^ 8 + b) * 2 ^ 8 + c) * 2 ^ 8 =
      bit_or_apart 16 (a * 2 ^ 8 + b) (c * 2 ^ 8) (omega arith) ∙ omega arith in
    rw (ab, abc, bit_or_apart 8 ((a * 2 ^ 8 + b) * 2 ^ 8 + c) d (omega arith)) (omega arith)

-- A component that was refused, -1, sets every bit.
pub pack_refused : (a b c : ℕ) → pack (pos a) (pos b) (pos c) (negsuc 0) ≡ 2 ^ 32 - 1
pack_refused a b c = ground arith

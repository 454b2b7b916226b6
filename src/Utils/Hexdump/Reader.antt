-- ===== src/Utils/Hexdump/Reader.antt =====
-- The columns of the lines of a hex dump.
use read_mail_really_fast.Prelude.{
  ℕ, zero, suc, ◌+◌, ◌-◌, ◌/◌, ◌%◌, ◌≡◌, ◌<◌, refl, ap, ◌∙◌, Bool, true, false, ◌||◌, [], ◌∷◌, ◌++◌,
  arith, Bytes, length, append_assoc, map, replicate, lacks, lacks-append, codes, ◌==◌,
  if◌then◌else◌, Bool-cases, inl, inr,
}
use read_mail_really_fast.Prelude.Int.{ℤ, pos, to_size}
use read_mail_really_fast.Utils.Hexdump.{
  HexData, uint8, Layout, Stream, put_hex, hex_number, hex_digit, separator, spaces, line_text,
  put_line,
}
use read_mail_really_fast.Utils.Hexdump.Row.{hex_text}

-- What stands between the first colon of each line and the line's end; the flag says that a colon
-- has been read.
abbrev pub columns_of : Bool → Bytes → Bytes
columns_of inside [] = []
columns_of false (c ∷ cs) = columns_of (c == b':') cs
columns_of true (c ∷ cs) =
    let rest = columns_of true cs in
    let next = columns_of false cs in if c == 10 then next else c ∷ rest

columns_of-column :
    (col rest : Bytes)
    → lacks 10 col ≡ true
    → columns_of true (col ++ (10 ∷ rest)) ≡ col ++ columns_of false rest
columns_of-column [] rest h = refl
columns_of-column (c ∷ col) rest h = elim (Bool-cases (c == 10)) [
  | inl e ↦ ground arith
  | inr e ↦ rw e (ap (λ r. c ∷ r) (columns_of-column col rest (rw e at h)))
]

columns_of-line :
    (pre col rest : Bytes)
    → lacks b':' pre ≡ true
    → lacks 10 col ≡ true
    → columns_of false (pre ++ (b':' ∷ (col ++ (10 ∷ rest)))) ≡ col ++ columns_of false rest
columns_of-line [] col rest h k = columns_of-column col rest k
columns_of-line (c ∷ pre) col rest h k = elim (Bool-cases (c == b':')) [
  | inl e ↦ ground arith
  | inr e ↦
      ap (λ b. columns_of b (pre ++ (b':' ∷ (col ++ (10 ∷ rest))))) e
      ∙ columns_of-line pre col rest (rw e at h) k
]

-- A byte that is no hexadecimal digit.
abbrev NoDigit : ℕ → Type 0
NoDigit c = (upper : Bool) (d : ℕ) → d < 16 → (hex_digit upper d == c) ≡ false

colon-NoDigit : NoDigit b':'
colon-NoDigit true d h = ground arith
colon-NoDigit false d h = ground arith

line_feed-NoDigit : NoDigit 10
line_feed-NoDigit true d h = ground arith
line_feed-NoDigit false d h = ground arith

lacks-replicate : (c b n : ℕ) → (b == c) ≡ false → lacks c (replicate n b) ≡ true
lacks-replicate c b zero h = refl
lacks-replicate c b (suc n) h = rw h (lacks-replicate c b n h)

lacks-hex_number :
    (c : ℕ) → NoDigit c → (upper : Bool) (digits n : ℕ) → lacks c (hex_number upper digits n) ≡ true
lacks-hex_number c h upper zero n = refl
lacks-hex_number c h upper (suc digits) n =
    lacks-append c (if n / 16 == 0 then [] else hex_number upper digits (n / 16))
      (hex_digit upper (n % 16) ∷ [])
      (if_lacks (hex_number upper digits (n / 16)) (n / 16 == 0)
        (lacks-hex_number c h upper digits (n / 16)))
      (rw (h upper (n % 16) (omega arith)) refl)
  where
    if_lacks : (t : Bytes) (b : Bool) → lacks c t ≡ true → lacks c (if b then [] else t) ≡ true
    if_lacks t true k = refl
    if_lacks t false k = k

lacks-put_hex : (c : ℕ) → NoDigit c → (upper : Bool) (w n : ℕ) → lacks c (put_hex upper w n) ≡ true
lacks-put_hex c h upper w n =
    lacks-append c (replicate (w - length (hex_number upper 16 n)) b'0') (hex_number upper 16 n)
      (lacks-replicate c b'0' _ (h upper 0 (omega arith))) (lacks-hex_number c h upper 16 n)

lacks-spaces_if : (n : ℕ) (b : Bool) → lacks 10 (if b then spaces n else []) ≡ true
lacks-spaces_if n true = lacks-replicate 10 b' ' n refl
lacks-spaces_if n false = refl

lacks-blanks :
    (n m : ℕ) (b c : Bool)
    → lacks 10 ((if b then spaces n else []) ++ (if c then spaces m else [])) ≡ true
lacks-blanks n m b c =
    lacks-append 10 (if b then spaces n else []) (if c then spaces m else []) (lacks-spaces_if n b)
      (lacks-spaces_if m c)

module _ (y : Layout) (get_data : ℤ → HexData) where
  lacks-hex_text : (bs : Bytes) (idx : ℕ) → lacks 10 (hex_text y get_data idx (map uint8 bs)) ≡ true
  lacks-hex_text [] idx = refl
  lacks-hex_text (b ∷ bs) idx =
      let more = hex_text y get_data (idx + 1) (map uint8 bs) in
      lacks-append 10 (separator y get_data idx) (put_hex y.display_uppercase 2 b ++ more)
        (lacks-blanks y.space_per_group y.space_per_byte _ _)
        (lacks-append 10 (put_hex y.display_uppercase 2 b) more
          (lacks-put_hex 10 line_feed-NoDigit y.display_uppercase 2 b)
          (lacks-hex_text bs (idx + 1)))

  -- What a line adds to the stream.
  abbrev pub line_at : ℕ → ℤ → Bool → Bytes
  line_at a v upper =
      put_hex (upper || y.display_uppercase) 8 (to_size v)
      ++ (codes " : " ++ line_text y get_data (pos a))

  pub text-put_line :
      (a : ℕ) (v : ℤ) (os : Stream)
      → (put_line y get_data (pos a) v os).text ≡ os.text ++ line_at a v os.uppercase
  unfolding put_line
  text-put_line a v os = refl

  pub columns_of-line_at :
      (a : ℕ) (v : ℤ) (upper : Bool) (bs rest : Bytes)
      → line_text y get_data (pos a) ≡ hex_text y get_data 0 (map uint8 bs) ++ (10 ∷ [])
      → columns_of false (line_at a v upper ++ rest)
        ≡ b' ' ∷ (hex_text y get_data 0 (map uint8 bs) ++ columns_of false rest)
  columns_of-line_at a v upper bs rest e =
      let number = put_hex (upper || y.display_uppercase) 8 (to_size v) in
      let column = hex_text y get_data 0 (map uint8 bs) in
      ap (λ t. columns_of false ((number ++ (codes " : " ++ t)) ++ rest)) e
      ∙ ap (columns_of false) (regroup number column rest)
      ∙ columns_of-line (number ++ (b' ' ∷ [])) (b' ' ∷ column) rest
          (lacks-append b':' number (b' ' ∷ [])
            (lacks-put_hex b':' colon-NoDigit (upper || y.display_uppercase) 8 (to_size v)) refl)
          (lacks-hex_text bs 0)
    where
      regroup :
          (number column rest : Bytes)
          → (number ++ (codes " : " ++ (column ++ (10 ∷ [])))) ++ rest
            ≡ (number ++ (b' ' ∷ [])) ++ (b':' ∷ ((b' ' ∷ column) ++ (10 ∷ rest)))
      regroup number column rest = simp append_assoc

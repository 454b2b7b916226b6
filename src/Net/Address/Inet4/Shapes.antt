-- ===== src/Net/Address/Inet4/Shapes.antt =====
-- The shapes of a text, by the number of its dots.
use read_mail_really_fast.Prelude.{
  ◌<◌, ◌≡◌, ap, ◌∙◌, true, false, List, [], ◌∷◌, ◌++◌, append_assoc, arith, Bytes, length,
  length-append, ◌==◌, inl, inr,
}
use read_mail_really_fast.Prelude.Int.{pos, ◌-ℤ◌}
use read_mail_really_fast.Net.Address.Chars.{rfind_chr, char_at}
use read_mail_really_fast.Net.Address.Chars.Positions.{lacks}
use read_mail_really_fast.Net.Address.Inet4.Split.{
  split, split-lacks, split-append, LastDot, last_dot,
}
use read_mail_really_fast.Net.Address.Inet4.Dots.{dot_before}

infixl 66 ◌dot◌
abbrev pub ◌dot◌ : Bytes → Bytes → Bytes
xs dot t = xs ++ (b'.' ∷ t)

abbrev NoDot : Bytes → Type 0
NoDot t = lacks b'.' t ≡ true

pub data Shape (str : Bytes) : Type 0 where
  one : NoDot str → Shape str
  two : (a d : Bytes) → NoDot a → NoDot d → str ≡ a dot d → Shape str
  three : (a c d : Bytes) → NoDot a → NoDot c → NoDot d → str ≡ a dot c dot d → Shape str
  four :
      (a b c d : Bytes)
      → NoDot a
      → NoDot b
      → NoDot c
      → NoDot d
      → str ≡ a dot b dot c dot d
      → Shape str
  more :
      (p u b c d : Bytes)
      → NoDot u
      → NoDot b
      → NoDot c
      → NoDot d
      → str ≡ p dot u dot b dot c dot d
      → Shape str

module _ (str : Bytes) where
  before_three :
      (p b c d : Bytes)
      → NoDot b
      → NoDot c
      → NoDot d
      → str ≡ p dot b dot c dot d
      → LastDot p
      → Shape str
  before_three p b c d lb lc ld e (inl la) = four p b c d la lb lc ld e
  before_three p b c d lb lc ld e (inr (p0, (u, (e0, lu)))) =
      more p0 u b c d lu lb lc ld (e ∙ ap (λ xs. xs dot b dot c dot d) e0)

  before_two : (p c d : Bytes) → NoDot c → NoDot d → str ≡ p dot c dot d → LastDot p → Shape str
  before_two p c d lc ld e (inl la) = three p c d la lc ld e
  before_two p c d lc ld e (inr (p1, (b, (e1, lb)))) =
      before_three p1 b c d lb lc ld (e ∙ ap (λ xs. xs dot c dot d) e1) (last_dot p1)

  before_one : (p d : Bytes) → NoDot d → str ≡ p dot d → LastDot p → Shape str
  before_one p d ld e (inl la) = two p d la ld e
  before_one p d ld e (inr (p2, (c, (e2, lc)))) =
      before_two p2 c d lc ld (e ∙ ap (λ xs. xs dot d) e2) (last_dot p2)

  by_last : LastDot str → Shape str
  by_last (inl l) = one l
  by_last (inr (p, (d, (e, ld)))) = before_one p d ld e (last_dot p)

pub shape : (str : Bytes) → Shape str
shape str = by_last str (last_dot str)

-- The last part of a text with a dot, and the one before it.
pub flat : (x b rest : Bytes) → (x dot b) ++ rest ≡ x ++ (b'.' ∷ (b ++ rest))
flat x b rest = append_assoc x (b'.' ∷ b) rest

pub length-dot : (x b : Bytes) → 0 < length (x dot b)
length-dot x b = omega (arith, length-append x (b'.' ∷ b))

pub split-two : (a d : Bytes) → NoDot a → NoDot d → split (a dot d) ≡ a ∷ d ∷ []
split-two a d la ld = split-append a d ld ∙ ap (λ ts. ts ++ (d ∷ [])) (split-lacks a la)

pub split-three :
    (a c d : Bytes) → NoDot a → NoDot c → NoDot d → split (a dot c dot d) ≡ a ∷ c ∷ d ∷ []
split-three a c d la lc ld =
    split-append (a dot c) d ld ∙ ap (λ ts. ts ++ (d ∷ [])) (split-two a c la lc)

pub split-four :
    (a b c d : Bytes)
    → NoDot a
    → NoDot b
    → NoDot c
    → NoDot d
    → split (a dot b dot c dot d) ≡ a ∷ b ∷ c ∷ d ∷ []
split-four a b c d la lb lc ld =
    split-append (a dot b dot c) d ld ∙ ap (λ ts. ts ++ (d ∷ [])) (split-three a b c la lb lc)

regroup :
    (ts : List Bytes) (u b c d : Bytes)
    → (((ts ++ (u ∷ [])) ++ (b ∷ [])) ++ (c ∷ [])) ++ (d ∷ []) ≡ ts ++ (u ∷ b ∷ c ∷ d ∷ [])
regroup ts u b c d = simp append_assoc

pub split-more :
    (p u b c d : Bytes)
    → NoDot u
    → NoDot b
    → NoDot c
    → NoDot d
    → split (p dot u dot b dot c dot d) ≡ split p ++ (u ∷ b ∷ c ∷ d ∷ [])
split-more p u b c d lu lb lc ld =
    split-append (p dot u dot b dot c) d ld
    ∙ ap (λ ts. ts ++ (d ∷ []))
        (split-append (p dot u dot b) c lc
          ∙ ap (λ ts. ts ++ (c ∷ []))
              (split-append (p dot u) b lb ∙ ap (λ ts. ts ++ (b ∷ [])) (split-append p u lu)))
    ∙ regroup (split p) u b c d

-- A text's first part is not empty if the text does not begin with a dot.
pub first-length :
    (str t rest : Bytes) → str ≡ t ++ (b'.' ∷ rest) → (char_at str 0 == b'.') ≡ false → 0 < length t
first-length str [] rest e h = absurd (ground (arith, ap (λ s. char_at s 0) e))
first-length str (c ∷ t) rest e h = omega arith

-- Where the parser finds the dots of a text, searching back from the last one.
module _ (str x b rest : Bytes) (e : str ≡ (x dot b) ++ rest) (lb : NoDot b) where
  flat_here : str ≡ x ++ (b'.' ∷ (b ++ rest))
  flat_here = e ∙ flat x b rest

  pub found_before : rfind_chr str (pos (length (x dot b)) -ℤ pos 1) b'.' ≡ pos (length x)
  found_before = dot_before str x b rest flat_here lb

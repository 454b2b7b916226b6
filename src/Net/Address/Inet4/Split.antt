-- ===== src/Net/Address/Inet4/Split.antt =====
-- The parts of a text between its dots.
use read_mail_really_fast.Prelude.{
  ℕ, ◌<◌, ◌≡◌, refl, ap, ◌∙◌, true, List, [], ◌∷◌, ◌++◌, arith, Bytes, length, ◌==◌, if◌then◌else◌,
  ◌⊎◌, inl, inr, Bool-cases,
}
use read_mail_really_fast.Net.Address.Chars.Positions.{lacks}

-- A byte before the first part.
abbrev grow : ℕ → List Bytes → List Bytes
grow c [] = []
grow c (t ∷ ts) = (c ∷ t) ∷ ts

abbrev pub split : Bytes → List Bytes
split [] = [] ∷ []
split (c ∷ cs) = let rest = split cs in if c == b'.' then [] ∷ rest else grow c rest

grow-append : (c : ℕ) (ts us : List Bytes) → 0 < length ts → grow c (ts ++ us) ≡ grow c ts ++ us
grow-append c [] us h = absurd (omega arith)
grow-append c (t ∷ ts) us h = refl

length-grow : (c : ℕ) (ts : List Bytes) → length (grow c ts) ≡ length ts
length-grow c [] = refl
length-grow c (t ∷ ts) = refl

pub length-split_pos : (xs : Bytes) → 0 < length (split xs)
length-split_pos [] = omega arith
length-split_pos (c ∷ cs) = elim (Bool-cases (c == b'.')) [
  | inl e ↦ rw e (omega arith)
  | inr e ↦ rw e (omega (arith, length-grow c (split cs), length-split_pos cs))
]

pub split-lacks : (t : Bytes) → lacks b'.' t ≡ true → split t ≡ t ∷ []
split-lacks [] h = refl
split-lacks (c ∷ t) h = elim (Bool-cases (c == b'.')) [
  | inl e ↦ ground arith
  | inr e ↦ rw e (ap (grow c) (split-lacks t (rw e at h)))
]

-- A dot and a text without one end the parts by one more.
pub split-append :
    (xs t : Bytes) → lacks b'.' t ≡ true → split (xs ++ (b'.' ∷ t)) ≡ split xs ++ (t ∷ [])
split-append [] t h = ap (λ ts. [] ∷ ts) (split-lacks t h)
split-append (c ∷ xs) t h = elim (Bool-cases (c == b'.')) [
  | inl e ↦ rw e (ap (λ ts. [] ∷ ts) (split-append xs t h))
  | inr e ↦
      rw e (
        ap (grow c) (split-append xs t h) ∙ grow-append c (split xs) (t ∷ []) (length-split_pos xs))
]

-- A text lacks a dot, or it is put together of what is before its last dot and behind it.
abbrev pub LastDot : Bytes → Type 0
LastDot xs =
    (lacks b'.' xs ≡ true)
    ⊎ ((before : Bytes) × ((t : Bytes) × ((xs ≡ before ++ (b'.' ∷ t)) × (lacks b'.' t ≡ true))))

LastDot-cons : (c : ℕ) (xs : Bytes) → LastDot xs → LastDot (c ∷ xs)
LastDot-cons c xs (inr (before, (t, (e, l)))) = inr (c ∷ before, (t, (ap (λ r. c ∷ r) e, l)))
LastDot-cons c xs (inl l) = elim (Bool-cases (c == b'.')) [
  | inl e ↦ inr ([], (xs, (ground arith, l)))
  | inr e ↦ inl (rw e l)
]

pub last_dot : (xs : Bytes) → LastDot xs
last_dot [] = inl refl
last_dot (c ∷ xs) = LastDot-cons c xs (last_dot xs)

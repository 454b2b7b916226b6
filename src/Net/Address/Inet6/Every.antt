-- ===== src/Net/Address/Inet6/Every.antt =====
-- The IPv6 parser on every text.
use mathlib.Core.Option
use read_mail_really_fast.Prelude.{
  ℕ, ◌+◌, ◌^◌, ◌<◌, ◌≡◌, refl, Bool, true, false, ◌||◌, [], ◌∷◌, none, arith, Bytes, length, ltb,
  ◌==◌, Bool-cases, inl, inr,
}
use read_mail_really_fast.Net.Address.Chars.{char_at}
use read_mail_really_fast.Net.Address.Chars.Positions.{get_or_past}
use read_mail_really_fast.Net.Address.Inet6.{inet6_aton, bad_ends}
use read_mail_really_fast.Net.Address.Inet6.Hexlet.{is_hexlet, hexlet_value}
use read_mail_really_fast.Net.Address.Inet6.Words.{network_order}
use read_mail_really_fast.Net.Address.Inet6.Reader.{unbroken, read_words}
use read_mail_really_fast.Net.Address.Inet6.Standing.{read-refused, read-next}
use read_mail_really_fast.Net.Address.Inet6.Loop.{agrees}

-- What the checks before the loop refuse, the loop would refuse too.
not_hexlet_first :
    (c : ℕ) (cs : Bytes)
    → (c == b':') ≡ true
    → (char_at cs 0 == b':') ≡ false
    → read_words 8 (unbroken []) (c ∷ cs) ≡ none
not_hexlet_first c cs h k = read-refused 7 (unbroken []) c cs refl (rw (h, k) refl)

one_byte : (c : ℕ) → read_words 8 (unbroken []) (c ∷ []) ≡ none
unfolding read_words
one_byte c = elim (Bool-cases (c == b':')) [
  | inl h ↦ not_hexlet_first c [] h refl
  | inr h ↦ elim (Bool-cases (is_hexlet (c ∷ []))) [
    | inl g ↦
        read-next 7 (unbroken []) c []
          (record { seen = unbroken (hexlet_value (c ∷ []) ∷ []); rest = [] }) refl (rw (h, g) refl)
    | inr g ↦ read-refused 7 (unbroken []) c [] refl (rw (h, g) refl)
  ]
]

checked_first :
    (str : Bytes)
    → (ltb (length str + 1) 3 || bad_ends str) ≡ true
    → read_words 8 (unbroken []) str ≡ none
unfolding read_words
checked_first [] h = refl
checked_first (c ∷ []) h = one_byte c
checked_first (c ∷ d ∷ cs) h =
    let past : char_at (c ∷ d ∷ cs) (length (c ∷ d ∷ cs)) ≡ 0 =
      get_or_past (c ∷ d ∷ cs) (length (c ∷ d ∷ cs)) (omega arith) in
    not_hexlet_first c (d ∷ cs) (ground arith) (ground arith)

-- Every text below 2 ^ 64 bytes is read from its start, as `read_words` reads it: groups of one to
-- four hexadecimal digits, each with the colon behind it; at most one shortener, which stands for the
-- components that are missing; and an IPv4 address, as `inet_addr_canonical` takes it, for the last
-- two components or, behind a shortener, for any two, where it ends the reading and is cleared with
-- all behind the shortener if that stands for one component only. The address has the eight
-- components, each with its high byte first. All else is refused.
pub inet6_aton-read_words :
    (be : Bool) (str : Bytes)
    → length str < 2 ^ 64
    → inet6_aton be str ≡ Option.map network_order (read_words 8 (unbroken []) str)
unfolding inet6_aton
inet6_aton-read_words be str short = elim (Bool-cases (ltb (length str + 1) 3 || bad_ends str)) [
  | inl h ↦ rw (h, checked_first str h) refl
  | inr h ↦ rw h (
      agrees be str short 8 (unbroken []) [] str 0 (record { text = refl; no_dot = refl }) refl refl
        refl)
]

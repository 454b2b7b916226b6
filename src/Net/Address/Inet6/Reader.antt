-- ===== src/Net/Address/Inet6/Reader.antt =====
-- What the IPv6 parser makes of a text, read from its start: no positions, no array, no shift.
use read_mail_really_fast.Prelude.{
  ℕ, zero, suc, ◌+◌, ◌-◌, ◌/◌, ◌%◌, ◌^◌, Bool, not, ◌&&◌, List, [], ◌∷◌, ◌++◌, Option, none, some,
  Bytes, length, drop, ltb, ◌==◌, if◌then◌else◌,
}
use read_mail_really_fast.Net.Address.Chars.{char_at}
use read_mail_really_fast.Net.Address.Component.Token.{token}
use read_mail_really_fast.Net.Address.Inet4.Split.{split}
use read_mail_really_fast.Net.Address.Inet4.Canonical.{canonical_address}
use read_mail_really_fast.Net.Address.Inet6.Hexlet.{is_hexlet, hexlet_value}
use read_mail_really_fast.Net.Address.Inet6.Layout.{zeros}
use read_mail_really_fast.Net.Address.Inet6.Step.{skip}

-- The values read so far: in a row, or before and behind the shortener.
pub data Seen : Type 0 where
  unbroken : List ℕ → Seen
  broken : List ℕ → List ℕ → Seen

abbrev pub add : Seen → ℕ → Seen
add (unbroken fs) v = unbroken (fs ++ (v ∷ []))
add (broken fs bs) v = broken fs (bs ++ (v ∷ []))

-- The components at the end of the text, `n` of them not read. Only a shortener stands for them.
abbrev pub filled : Seen → ℕ → Option (List ℕ)
filled (unbroken fs) zero = some fs
filled (unbroken fs) (suc n) = none
filled (broken fs bs) n = some (fs ++ (zeros (n + 1) ++ bs))

-- The two components of an IPv4 address.
abbrev pub words : ℕ → List ℕ
words v = v / 2 ^ 16 ∷ v % 2 ^ 16 ∷ []

-- The components with an IPv4 address at their end, and `n` more not read. A shortener that stands
-- for one component only clears all behind it, the address too.
abbrev pub embedded : Seen → ℕ → ℕ → List ℕ
embedded (unbroken fs) n v = fs ++ words v
embedded (broken fs bs) zero v = fs ++ zeros (length bs + 3)
embedded (broken fs bs) (suc n) v = fs ++ (zeros (suc n + 1) ++ (bs ++ words v))

-- An IPv4 address may stand for the last two components; behind a shortener, for any two or more.
abbrev pub takes_address : Seen → ℕ → Bool
takes_address (unbroken fs) n = n == 2
takes_address (broken fs bs) n = not (ltb n 2)

abbrev pub address_at : Seen → ℕ → Bytes → Option ℕ
address_at seen n r = if takes_address seen n then canonical_address (split r) else none

-- What was read, and the text behind it.
pub record Read : Type 0 where
  pub seen : Seen
  pub rest : Bytes

abbrev pub shortener : Seen → Bytes → Option Read
shortener (unbroken fs) r =
    if char_at r 0 == b':' then none else some (record { seen = broken fs []; rest = r })
shortener (broken fs bs) r = none

-- A group reaches up to the next colon. The colon goes with it, but for one that begins a shortener.
abbrev pub behind : Bytes → Bytes → Bytes
behind t r = drop (length t + skip (drop (length t) r)) r

abbrev pub group : Seen → Bytes → Bytes → Option Read
group seen t r =
    if is_hexlet t
    then some (record { seen = add seen (hexlet_value t); rest = behind t r })
    else none

abbrev pub component : Seen → Bytes → Option Read
component seen r =
    if char_at r 0 == b':' && char_at r 1 == b':'
    then shortener seen (drop 2 r)
    else group seen (token b':' r) r

-- The eight components, `n` of them still to be read from the text.
unfoldable pub read_words : ℕ → Seen → Bytes → Option (List ℕ)
read_words zero seen [] = filled seen 0
read_words zero seen (c ∷ cs) = none
read_words (suc n) seen [] = filled seen (suc n)
read_words (suc n) seen (c ∷ cs) = elim (address_at seen (suc n) (c ∷ cs)) [
  | some v ↦ some (embedded seen (n - 1) v)
  | none ↦ elim (component seen (c ∷ cs)) [ some r ↦ read_words n r.seen r.rest | none ↦ none ]
]

-- ===== src/Net/Address/Inet4/Forms.antt =====
-- The forms of an IPv4 address, and what the parser stores of its components.
use read_mail_really_fast.Prelude.{
  ℕ, suc, ◌+◌, ◌-◌, ◌*◌, ◌^◌, ◌<◌, ◌≡◌, refl, ap, ◌∙◌, Bool, true, false, ◌||◌, List, [], ◌∷◌, ◌++◌,
  Option, none, some, arith, Bytes, length, length-append, drop, if◌then◌else◌, min,
}
use mathlib.Core.Option
use read_mail_really_fast.Prelude.Int.{ℤ, pos, ltb_ℤ}
use read_mail_really_fast.Net.Address.Chars.{host_to_net_32}
use read_mail_really_fast.Net.Address.Chars.Positions.{lacks}
use read_mail_really_fast.Net.Address.Component.{parse_inet_component}
use read_mail_really_fast.Net.Address.Inet4.Components.{Stops}
use read_mail_really_fast.Net.Address.Inet4.Places.{drop_past}
use read_mail_really_fast.Net.Address.Inet4.Pack.{pack_lem}
use read_mail_really_fast.Net.Address.Inet4.Single.{pack_last, store_pos}
use read_mail_really_fast.Net.Address.Inet4.Numerals.{
  numeral, StandsFor, parse_inet_component-reading, reading-StandsFor,
}
use read_mail_really_fast.Net.Address.Inet4.{store, pack}

-- The address with these four bytes.
abbrev pub four_bytes : Option ℕ → Option ℕ → Option ℕ → Option ℕ → Option ℕ
four_bytes none b c d = none
four_bytes (some a) none c d = none
four_bytes (some a) (some b) none d = none
four_bytes (some a) (some b) (some c) none = none
four_bytes (some a) (some b) (some c) (some d) = some (a * 2 ^ 24 + b * 2 ^ 16 + c * 2 ^ 8 + d)

-- The address that the parts of a text say: one number below 2 ^ 31, or two to four bytes, of which
-- the last is always the lowest and the others count from the highest on.
abbrev pub address : List Bytes → Option ℕ
address (t ∷ []) = numeral (2 ^ 31 - 1) t
address (a ∷ d ∷ []) = four_bytes (numeral 255 a) (some 0) (some 0) (numeral 255 d)
address (a ∷ b ∷ d ∷ []) = four_bytes (numeral 255 a) (numeral 255 b) (some 0) (numeral 255 d)
address (a ∷ b ∷ c ∷ d ∷ []) =
    four_bytes (numeral 255 a) (numeral 255 b) (numeral 255 c) (numeral 255 d)
address _ = none

pub five_or_more :
    (ts : List Bytes) (u b c d : Bytes)
    → 0 < length ts
    → address (ts ++ (u ∷ b ∷ c ∷ d ∷ [])) ≡ none
five_or_more [] u b c d h = absurd (omega arith)
five_or_more (t ∷ []) u b c d h = refl
five_or_more (t ∷ t' ∷ []) u b c d h = refl
five_or_more (t ∷ t' ∷ x ∷ []) u b c d h = refl
five_or_more (t ∷ t' ∷ x ∷ y ∷ []) u b c d h = refl
five_or_more (t ∷ t' ∷ x ∷ y ∷ z ∷ ts) u b c d h = refl

pub address-nil : (ts : List Bytes) → address ([] ∷ ts) ≡ none
address-nil [] = refl
address-nil (d ∷ []) = refl
address-nil (b ∷ d ∷ []) = refl
address-nil (b ∷ c ∷ d ∷ []) = refl
address-nil (b ∷ c ∷ d ∷ t ∷ ts) = refl

abbrev pub stored : Bool → Option ℕ → Option ℕ
stored big_endian o = Option.map (host_to_net_32 big_endian) o

abbrev is_none : Option ℕ → Bool
is_none none = true
is_none (some v) = false

sign : (r : ℤ) (o : Option ℕ) → StandsFor r 255 o → ltb_ℤ r (pos 0) ≡ is_none o
sign r none h = h
sign r (some v) h = rw (h.0) (ground arith)

store_parts :
    (big_endian : Bool) (r1 r2 r3 r4 : ℤ)
    → store big_endian r1 r2 r3 r4 ≡ (
        if ltb_ℤ r1 (pos 0) || (ltb_ℤ r2 (pos 0) || (ltb_ℤ r3 (pos 0) || ltb_ℤ r4 (pos 0)))
        then none
        else some (host_to_net_32 big_endian (pack r1 r2 r3 r4)))
unfolding store
store_parts big_endian r1 r2 r3 r4 = refl

packed :
    (big_endian : Bool) (r1 r2 r3 r4 : ℤ) (a b c d : Option ℕ)
    → StandsFor r1 255 a
    → StandsFor r2 255 b
    → StandsFor r3 255 c
    → StandsFor r4 255 d
    → (if is_none a || (is_none b || (is_none c || is_none d))
        then none
        else some (host_to_net_32 big_endian (pack r1 r2 r3 r4)))
      ≡ stored big_endian (four_bytes a b c d)
packed big_endian r1 r2 r3 r4 none b c d h1 h2 h3 h4 = refl
packed big_endian r1 r2 r3 r4 (some a) none c d h1 h2 h3 h4 = refl
packed big_endian r1 r2 r3 r4 (some a) (some b) none d h1 h2 h3 h4 = refl
packed big_endian r1 r2 r3 r4 (some a) (some b) (some c) none h1 h2 h3 h4 = refl
packed big_endian r1 r2 r3 r4 (some a) (some b) (some c) (some d) h1 h2 h3 h4 =
    ap (λ n. some (host_to_net_32 big_endian n))
      (ap (λ r. pack r r2 r3 r4) (h1.0)
        ∙ ap (λ r. pack (pos a) r r3 r4) (h2.0)
        ∙ ap (λ r. pack (pos a) (pos b) r r4) (h3.0)
        ∙ ap (λ r. pack (pos a) (pos b) (pos c) r) (h4.0)
        ∙ pack_lem a b c d (omega (arith, h1.1)) (omega (arith, h2.1)) (omega (arith, h3.1))
            (omega (arith, h4.1)))

pub store_four :
    (big_endian : Bool) (r1 r2 r3 r4 : ℤ) (a b c d : Option ℕ)
    → StandsFor r1 255 a
    → StandsFor r2 255 b
    → StandsFor r3 255 c
    → StandsFor r4 255 d
    → store big_endian r1 r2 r3 r4 ≡ stored big_endian (four_bytes a b c d)
store_four big_endian r1 r2 r3 r4 a b c d h1 h2 h3 h4 =
    store_parts big_endian r1 r2 r3 r4
    ∙ rw (sign r1 a h1, sign r2 b h2, sign r3 c h3, sign r4 d h4)
        (packed big_endian r1 r2 r3 r4 a b c d h1 h2 h3 h4)

pub store_one :
    (big_endian : Bool) (r : ℤ) (o : Option ℕ)
    → StandsFor r (2 ^ 31 - 1) o
    → store big_endian (pos 0) (pos 0) (pos 0) r ≡ stored big_endian o
store_one big_endian r none h = store_parts big_endian (pos 0) (pos 0) (pos 0) r ∙ rw h refl
store_one big_endian r (some v) h =
    ap (store big_endian (pos 0) (pos 0) (pos 0)) (h.0)
    ∙ store_pos big_endian v
    ∙ ap (λ n. some (host_to_net_32 big_endian n)) (pack_last v (omega (arith, h.1)))

module _ (str : Bytes) (w : length str < 2 ^ 64) where
  -- The component at the start, and one behind a dot.
  pub at_start :
      (max_value limit : ℕ) (t rest : Bytes)
      → (max_value < 2 ^ 32) × (limit ≡ min max_value (2 ^ 31 - 1))
      → str ≡ t ++ rest
      → lacks b'.' t ≡ true
      → Stops rest
      → StandsFor (parse_inet_component max_value str 0) limit (numeral limit t)
  at_start max_value limit t rest h e l s =
      rw (parse_inet_component-reading max_value str w 0 (t ++ rest) (omega arith) e)
        (reading-StandsFor max_value limit t rest h l s)

  pub behind_dot :
      (xs t rest : Bytes)
      → str ≡ xs ++ (b'.' ∷ (t ++ rest))
      → lacks b'.' t ≡ true
      → Stops rest
      → StandsFor (parse_inet_component 255 str (suc (length xs))) 255 (numeral 255 t)
  behind_dot xs t rest e l s =
      rw
        (parse_inet_component-reading 255 str w (suc (length xs)) (t ++ rest)
          (omega (arith, ap length e, length-append xs (b'.' ∷ (t ++ rest))))
          (ap (drop (suc (length xs))) e ∙ drop_past b'.' xs (t ++ rest)))
        (reading-StandsFor 255 255 t rest (omega arith) l s)

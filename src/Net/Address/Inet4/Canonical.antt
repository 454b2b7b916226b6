-- ===== src/Net/Address/Inet4/Canonical.antt =====
-- What `inet_addr_canonical` makes of the parts of a text.
use read_mail_really_fast.Prelude.{
  ◌≤◌, ℕ, ◌+◌, ◌*◌, ◌^◌, ◌<◌, ◌≡◌, refl, ap, ◌∙◌, Bool, true, false, ◌||◌, List, [], ◌∷◌, ◌++◌,
  Option, none, some, arith, Bytes, length, ltb, if◌then◌else◌,
}
use mathlib.Core.Option
use read_mail_really_fast.Prelude.Int.{ℤ, pos, negsuc, ltb_ℤ, ◌-ℤ◌, to_int}
use read_mail_really_fast.Net.Address.Chars.{host_to_net_32, rfind_chr, decimal, isdigit}
use read_mail_really_fast.Net.Address.Chars.Positions.{lacks, rfind_chr-lacks}
use read_mail_really_fast.Net.Address.Component.Token.{parsed}
use read_mail_really_fast.Net.Address.Inet4.Components.{Stops, token-append, leads_zero, canonical}
use read_mail_really_fast.Net.Address.Inet4.Numerals.{number}
use read_mail_really_fast.Net.Address.Inet4.Pack.{pack_lem, pack_refused}
use read_mail_really_fast.Net.Address.Inet4.Places.{parts}
use read_mail_really_fast.Net.Address.Inet4.{store_canonical, inet_addr_canonical_at, pack}

-- A decimal numeral of a byte, with no zero before another digit.
abbrev pub byte : Bytes → Option ℕ
byte t = if leads_zero t || ltb 3 (length t) then none else number decimal 255 t

-- A fourth part that is no byte sets every bit.
abbrev pub canonical_bytes : Option ℕ → Option ℕ → Option ℕ → Option ℕ → Option ℕ
canonical_bytes none b c d = none
canonical_bytes (some a) none c d = none
canonical_bytes (some a) (some b) none d = none
canonical_bytes (some a) (some b) (some c) none = some 0xffff_ffff
canonical_bytes (some a) (some b) (some c) (some d) = some (a * 2 ^ 24 + b * 2 ^ 16 + c * 2 ^ 8 + d)

abbrev pub canonical_address : List Bytes → Option ℕ
canonical_address (a ∷ b ∷ c ∷ d ∷ []) = canonical_bytes (byte a) (byte b) (byte c) (byte d)
canonical_address _ = none

abbrev pub or_minus_one : Option ℕ → ℤ
or_minus_one none = negsuc 0
or_minus_one (some v) = pos v

leads_zero-append-Stops : (t rest : Bytes) → Stops rest → leads_zero (t ++ rest) ≡ leads_zero t
unfolding isdigit
leads_zero-append-Stops [] [] s = refl
leads_zero-append-Stops [] (c ∷ []) s = refl
leads_zero-append-Stops [] (c ∷ d ∷ rest) s = rw s refl
leads_zero-append-Stops (c ∷ []) [] s = refl
leads_zero-append-Stops (c ∷ []) (d ∷ rest) s = ground arith
leads_zero-append-Stops (c ∷ d ∷ t) rest s = refl

parsed-byte :
    (t : Bytes) (z : Bool)
    → (if z then negsuc 0 else to_int (parsed decimal 255 3 t))
      ≡ or_minus_one (if z || ltb 3 (length t) then none else number decimal 255 t)
parsed-byte t true = refl
parsed-byte [] false = refl
parsed-byte (c ∷ cs) false = ground arith

pub canonical-byte :
    (t rest : Bytes)
    → lacks b'.' t ≡ true
    → Stops rest
    → canonical (t ++ rest) ≡ or_minus_one (byte t)
canonical-byte t rest l s =
    rw (leads_zero-append-Stops t rest s, token-append t rest l s) (parsed-byte t (leads_zero t))

pub byte-lt : (t : Bytes) (v : ℕ) → byte t ≡ some v → v < 256
byte-lt [] v e = ground arith
byte-lt (c ∷ cs) v e = ground arith

abbrev pub IsByte : Option ℕ → Type 0
IsByte o = (v : ℕ) → o ≡ some v → v < 256

store_canonical_parts :
    (big_endian : Bool) (c1 c2 c3 c4 : ℤ)
    → store_canonical big_endian c1 c2 c3 c4 ≡ (
        if ltb_ℤ c1 (pos 0) || (ltb_ℤ c1 (pos 0) || (ltb_ℤ c2 (pos 0) || ltb_ℤ c3 (pos 0)))
        then none
        else some (host_to_net_32 big_endian (pack c1 c2 c3 c4)))
unfolding store_canonical
store_canonical_parts big_endian c1 c2 c3 c4 = refl

not_negative : (v : ℕ) → ltb_ℤ (pos v) (pos 0) ≡ false
not_negative v = ground arith

store_canonical_three :
    (big_endian : Bool) (a b c : ℕ) (r : ℤ)
    → store_canonical big_endian (pos a) (pos b) (pos c) r
      ≡ some (host_to_net_32 big_endian (pack (pos a) (pos b) (pos c) r))
store_canonical_three big_endian a b c r =
    store_canonical_parts big_endian (pos a) (pos b) (pos c) r
    ∙ rw (not_negative a, not_negative b, not_negative c) refl

pub store_canonical-bytes :
    (big_endian : Bool) (a b c d : Option ℕ)
    → IsByte a
    → IsByte b
    → IsByte c
    → IsByte d
    → store_canonical big_endian (or_minus_one a) (or_minus_one b) (or_minus_one c) (or_minus_one d)
      ≡ Option.map (host_to_net_32 big_endian) (canonical_bytes a b c d)
store_canonical-bytes big_endian none b c d h1 h2 h3 h4 =
    store_canonical_parts big_endian (negsuc 0) (or_minus_one b) (or_minus_one c) (or_minus_one d)
store_canonical-bytes big_endian (some a) none c d h1 h2 h3 h4 =
    store_canonical_parts big_endian (pos a) (negsuc 0) (or_minus_one c) (or_minus_one d)
    ∙ rw (not_negative a) refl
store_canonical-bytes big_endian (some a) (some b) none d h1 h2 h3 h4 =
    store_canonical_parts big_endian (pos a) (pos b) (negsuc 0) (or_minus_one d)
    ∙ rw (not_negative a, not_negative b) refl
store_canonical-bytes big_endian (some a) (some b) (some c) none h1 h2 h3 h4 =
    store_canonical_three big_endian a b c (negsuc 0)
    ∙ ap (λ n. some (host_to_net_32 big_endian n)) (pack_refused a b c)
store_canonical-bytes big_endian (some a) (some b) (some c) (some d) h1 h2 h3 h4 =
    store_canonical_three big_endian a b c (pos d)
    ∙ ap (λ n. some (host_to_net_32 big_endian n))
        (pack_lem a b c d (h1 a refl) (h2 b refl) (h3 c refl) (h4 d refl))

module _ (big_endian : Bool) (str : Bytes) (idx : ℕ) where
  abbrev pub Refused : Type 0
  Refused = inet_addr_canonical_at big_endian str idx ≡ none

  pub refused_no_dot : lacks b'.' str ≡ true → Refused
  refused_no_dot l = parts big_endian str idx ∙ rw (rfind_chr-lacks b'.' str l refl) (ground arith)

  module _ (p3 : ℕ) (e3 : rfind_chr str (pos (length str)) b'.' ≡ pos p3) where
    pub refused_one_dot : rfind_chr str (pos p3 -ℤ pos 1) b'.' ≡ negsuc 0 → Refused
    refused_one_dot e2 = parts big_endian str idx ∙ rw (e3, e2) (ground arith)

    module _ (p2 : ℕ) (e2 : rfind_chr str (pos p3 -ℤ pos 1) b'.' ≡ pos p2) where
      pub refused_two_dots : rfind_chr str (pos p2 -ℤ pos 1) b'.' ≡ negsuc 0 → Refused
      refused_two_dots e1 = parts big_endian str idx ∙ rw (e3, e2, e1) (ground arith)

      pub refused_more_dots :
          (p1 p0 : ℕ)
          → rfind_chr str (pos p2 -ℤ pos 1) b'.' ≡ pos p1
          → rfind_chr str (pos p1 -ℤ pos 1) b'.' ≡ pos p0
          → idx ≤ p0
          → Refused
      refused_more_dots p1 p0 e1 e0 h =
          parts big_endian str idx ∙ rw (e3, e2, e1, e0) (ground arith)

-- ===== src/Net/Address/Inet6/States.antt =====
-- The variables of the IPv6 parser's loop at what was read, and the arithmetic between them.
use mathlib.Core.Path.{subst}
use read_mail_really_fast.Prelude.{
  ℕ, zero, suc, ◌+◌, ◌-◌, ◌/◌, ◌%◌, ◌^◌, ◌<◌, ◌≡◌, refl, sym, ap, ◌∙◌, Bool, true, ◌&&◌, ◌||◌, List,
  [], ◌∷◌, ◌++◌, Option, none, some, arith, Bytes, length, length-append, append-nil, append_assoc,
  ltb, ◌==◌, set,
}
use read_mail_really_fast.Prelude.Int.{ℤ, pos, negsuc}
use read_mail_really_fast.Net.Address.Chars.{host_to_net_32}
use read_mail_really_fast.Net.Address.Inet4.Canonical.{
  byte, byte-lt, canonical_address, canonical_bytes, IsByte,
}
use read_mail_really_fast.Net.Address.Inet6.{
  Scan, has_shortener, shift_from_shortener, embed, rshift_array,
}
use read_mail_really_fast.Net.Address.Inet6.Groups.{put, put-append}
use read_mail_really_fast.Net.Address.Inet6.Embedded.{net_to_host_32-host_to_net_32}
use read_mail_really_fast.Net.Address.Inet6.Mapped.{shift_from_shortener_lem}
use read_mail_really_fast.Net.Address.Inet6.Layout.{
  zeros, before, put-before, rshift_array-opens, rshift_array_clears,
}
use read_mail_really_fast.Net.Address.Inet6.Words.{are_words, are_words-append, are_words-zeros}
use read_mail_really_fast.Net.Address.Inet6.Reader.{
  Seen, unbroken, broken, add, words, embedded, takes_address,
}

-- The component that is read next.
abbrev pub taken : Seen → ℕ
taken (unbroken fs) = length fs
taken (broken fs bs) = length fs + 1 + length bs

abbrev pub components : Seen → ℕ → List ℕ
components (unbroken fs) n = fs ++ zeros n
components (broken fs bs) n = before fs bs n

abbrev pub marked : Seen → ℤ
marked (unbroken fs) = negsuc 0
marked (broken fs bs) = pos (length fs)

-- The variables of the loop, `n` components being left and the position being `k`.
abbrev pub at : Seen → ℕ → ℕ → Scan
at seen n k = record { comps = components seen n; shortener_pos = marked seen; idx = k }

abbrev pub HaveWords : Seen → Type 0
HaveWords (unbroken fs) = are_words fs ≡ true
HaveWords (broken fs bs) = (are_words fs ≡ true) × (are_words bs ≡ true)

pub taken-add : (seen : Seen) (v : ℕ) → taken (add seen v) ≡ taken seen + 1
taken-add (unbroken fs) v = length-append fs (v ∷ [])
taken-add (broken fs bs) v = omega (arith, length-append bs (v ∷ []))

pub HaveWords-add : (seen : Seen) (v : ℕ) → v < 2 ^ 16 → HaveWords seen → HaveWords (add seen v)
HaveWords-add (unbroken fs) v h w = are_words-append fs (v ∷ []) w (ground arith)
HaveWords-add (broken fs bs) v h (wf, wb) = (wf, are_words-append bs (v ∷ []) wb (ground arith))

pub set-components :
    (seen : Seen) (n v i : ℕ)
    → i ≡ taken seen
    → set (components seen (suc n)) i v ≡ components (add seen v) n
set-components (unbroken fs) n v i h =
    put-append fs (v ∷ []) (0 ∷ []) (zeros n) i h refl ∙ sym (append_assoc fs (v ∷ []) (zeros n))
set-components (broken fs bs) n v i h =
    ap (λ m. set (before fs bs m) i v) (let e : suc n ≡ 1 + n = omega arith in e)
    ∙ put-before fs bs (v ∷ []) n i h

canonical_bytes-lt :
    (a b c d : Option ℕ) (v : ℕ)
    → IsByte a
    → IsByte b
    → IsByte c
    → IsByte d
    → canonical_bytes a b c d ≡ some v
    → v < 2 ^ 32
canonical_bytes-lt none b c d v ha hb hc hd e = cc
canonical_bytes-lt (some a) none c d v ha hb hc hd e = cc
canonical_bytes-lt (some a) (some b) none d v ha hb hc hd e = cc
canonical_bytes-lt (some a) (some b) (some c) none v ha hb hc hd e = ground arith
canonical_bytes-lt (some a) (some b) (some c) (some d) v ha hb hc hd e =
    ground (arith, ha a refl, hb b refl, hc c refl, hd d refl)

pub canonical_address-lt : (ts : List Bytes) (v : ℕ) → canonical_address ts ≡ some v → v < 2 ^ 32
canonical_address-lt [] v e = cc
canonical_address-lt (a ∷ []) v e = cc
canonical_address-lt (a ∷ b ∷ []) v e = cc
canonical_address-lt (a ∷ b ∷ c ∷ []) v e = cc
canonical_address-lt (a ∷ b ∷ c ∷ d ∷ []) v e =
    canonical_bytes-lt (byte a) (byte b) (byte c) (byte d) v (byte-lt a) (byte-lt b) (byte-lt c)
      (byte-lt d) e
canonical_address-lt (a ∷ b ∷ c ∷ d ∷ x ∷ ts) v e = cc

pub are_words-words : (v : ℕ) → v < 2 ^ 32 → are_words (words v) ≡ true
are_words-words v h = ground arith

pub are_words-embedded :
    (seen : Seen) (n v : ℕ) → v < 2 ^ 32 → HaveWords seen → are_words (embedded seen n v) ≡ true
are_words-embedded (unbroken fs) n v h w = are_words-append fs (words v) w (are_words-words v h)
are_words-embedded (broken fs bs) zero v h (wf, wb) =
    are_words-append fs (zeros (length bs + 3)) wf (are_words-zeros (length bs + 3))
are_words-embedded (broken fs bs) (suc n) v h (wf, wb) =
    are_words-append fs (zeros (suc n + 1) ++ (bs ++ words v)) wf (
      are_words-append (zeros (suc n + 1)) (bs ++ words v) (are_words-zeros (suc n + 1))
        (are_words-append bs (words v) wb (are_words-words v h)))

-- The test before the loop looks for an IPv4 address.
pub takes_address-test :
    (seen : Seen) (n i k : ℕ)
    → i ≡ taken seen
    → i + n ≡ 8
    → (i == 6 || (ltb i 6 && has_shortener (at seen n k))) ≡ takes_address seen n
takes_address-test (unbroken fs) n i k h e = ground arith
takes_address-test (broken fs bs) n i k h e = ground arith

-- The components that an IPv4 address behind what was read leaves.
shifted :
    (seen : Seen) (n i k v : ℕ)
    → i ≡ taken seen
    → i + (2 + n) ≡ 8
    → takes_address seen (2 + n) ≡ true
    → shift_from_shortener (at seen (2 + n) k) (put i (words v) (components seen (2 + n))) n
      ≡ embedded seen n v
unfolding shift_from_shortener
shifted (unbroken fs) zero i k v h e t =
    put-append fs (words v) (0 ∷ 0 ∷ []) [] i h refl ∙ ap (◌++◌ fs) (append-nil (words v))
shifted (unbroken fs) (suc n) i k v h e t = absurd (ground arith)
shifted (broken fs bs) zero i k v h e t =
    shift_from_shortener_lem (at (broken fs bs) 2 k) (put i (words v) (before fs bs 2)) (length fs)
      0 refl (omega arith)
    ∙ ap (λ c. rshift_array c (length fs) 0)
        (put-before fs bs (words v) 0 i h ∙ ap (λ r. fs ++ (0 ∷ r)) (append-nil (bs ++ words v)))
    ∙ rshift_array_clears fs (0 ∷ (bs ++ words v)) (omega arith)
    ∙ ap (λ j. fs ++ zeros j)
        (let x : suc (length (bs ++ words v)) ≡ length bs + 3 =
            omega (arith, length-append bs (words v)) in
          x)
shifted (broken fs bs) (suc n) i k v h e t =
    shift_from_shortener_lem (at (broken fs bs) (2 + suc n) k)
      (put i (words v) (before fs bs (2 + suc n))) (length fs) (suc n) refl (omega arith)
    ∙ ap (λ c. rshift_array c (length fs) (suc n)) (put-before fs bs (words v) (suc n) i h)
    ∙ rshift_array-opens fs (bs ++ words v) (suc n) (omega arith)

embed_counted :
    (be : Bool) (str : Bytes) (seen : Seen) (n i k v : ℕ)
    → i ≡ taken seen
    → i + (2 + n) ≡ 8
    → takes_address seen (2 + n) ≡ true
    → v < 2 ^ 32
    → embed be str i (at seen (2 + n) k) (host_to_net_32 be v)
      ≡ record { comps = embedded seen n v; shortener_pos = marked seen; idx = length str }
unfolding embed
embed_counted be str seen n i k v h e t l =
    let host = net_to_host_32-host_to_net_32 be v l in
    let high : v / 2 ^ 16 % 2 ^ 16 ≡ v / 2 ^ 16 = omega arith in
    let shift : 8 - (i + 2) ≡ n = omega arith in
    rw (host, high, shift)
      (ap (λ c. record { comps = c; shortener_pos = marked seen; idx = length str })
        (shifted seen n i k v h e t))

-- What the loop leaves with an IPv4 address behind what was read.
pub embed_lem :
    (be : Bool) (str : Bytes) (seen : Seen) (n i k v : ℕ)
    → i ≡ taken seen
    → i + suc (suc n) ≡ 8
    → takes_address seen (suc (suc n)) ≡ true
    → v < 2 ^ 32
    → embed be str i (at seen (suc (suc n)) k) (host_to_net_32 be v)
      ≡ record { comps = embedded seen n v; shortener_pos = marked seen; idx = length str }
embed_lem be str seen n i k v h e t l =
    let two : 2 + n ≡ suc (suc n) = omega arith in
    subst
      (λ m.
        i + m ≡ 8
        → takes_address seen m ≡ true
        → embed be str i (at seen m k) (host_to_net_32 be v)
          ≡ record { comps = embedded seen n v; shortener_pos = marked seen; idx = length str })
      two (λ e t. embed_counted be str seen n i k v h e t l) e t

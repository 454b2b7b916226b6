-- ===== src/Net/Address/Inet6/Standing.antt =====
-- Where the IPv6 parser's loop stands in a text, and the reader's steps.
use mathlib.Core.Option
use read_mail_really_fast.Prelude.{
  ℕ, suc, ◌+◌, ◌-◌, ◌^◌, ◌≤◌, ◌<◌, ◌≡◌, refl, sym, ap, ◌∙◌, Bool, true, ◌&&◌, ◌||◌, [], ◌∷◌, ◌++◌,
  none, some, arith, Bytes, length, length-append, take, drop, append_assoc, lacks, lacks-append,
  ltb, ◌==◌, set, if◌then◌else◌, Bool-cases, inl, inr,
}
use read_mail_really_fast.Net.Address.Chars.{host_to_net_32}
use read_mail_really_fast.Net.Address.Chars.Positions.{drop-append}
use read_mail_really_fast.Net.Address.Inet4.{inet_addr_canonical_at}
use read_mail_really_fast.Net.Address.Inet4.Split.{split}
use read_mail_really_fast.Net.Address.Inet4.Canonical.{canonical_address}
use read_mail_really_fast.Net.Address.Inet4.Strict.{inet_addr_canonical_at-address}
use read_mail_really_fast.Net.Address.Inet6.{Scan, fails, round, scan_loop, has_shortener}
use read_mail_really_fast.Net.Address.Inet6.Hexlet.{ends_hexlet}
use read_mail_really_fast.Net.Address.Inet6.Step.{skip}
use read_mail_really_fast.Net.Address.Inet6.Reader.{
  Seen, unbroken, broken, add, embedded, takes_address, address_at, Read, component, read_words,
}
use read_mail_really_fast.Net.Address.Inet6.States.{
  taken, components, at, set-components, canonical_address-lt, takes_address-test,
}

-- The reader's steps.
module _ (n : ℕ) (seen : Seen) (c : ℕ) (cs : Bytes) where
  pub read-address :
      (v : ℕ)
      → address_at seen (suc n) (c ∷ cs) ≡ some v
      → read_words (suc n) seen (c ∷ cs) ≡ some (embedded seen (n - 1) v)
  unfolding read_words
  read-address v h = rw (h, read_words) refl

  pub read-refused :
      address_at seen (suc n) (c ∷ cs) ≡ none
      → component seen (c ∷ cs) ≡ none
      → read_words (suc n) seen (c ∷ cs) ≡ none
  unfolding read_words
  read-refused h k = rw (h, k, read_words) refl

  pub read-next :
      (q : Read)
      → address_at seen (suc n) (c ∷ cs) ≡ none
      → component seen (c ∷ cs) ≡ some q
      → read_words (suc n) seen (c ∷ cs) ≡ read_words n q.seen q.rest
  unfolding read_words
  read-next q h k = rw (h, k, read_words) refl

pub scan_loop-fails :
    (be : Bool) (str : Bytes) (n i : ℕ) (s : Scan)
    → round be str i s ≡ fails
    → scan_loop be str (suc n) i s ≡ none
unfolding scan_loop
scan_loop-fails be str n i s h = rw (h, scan_loop) refl

-- What is skipped behind a group.
pub skipped :
    (r : Bytes)
    → ends_hexlet r ≡ true
    → (lacks b'.' (take (skip r) r) ≡ true) × (length (take (skip r) r) ≡ skip r)
skipped [] h = (refl, refl)
skipped (c ∷ []) h = let e : c ≡ b':' = ground arith in rw e (refl, refl)
skipped (c ∷ d ∷ r) h =
    let e : c ≡ b':' = ground arith in
    elim (Bool-cases (d == b':')) [ inl k ↦ rw k (refl, refl) | inr k ↦ rw (k, e) (refl, refl) ]

pub stored :
    (seen : Seen) (n v i k j : ℕ)
    → i ≡ taken seen
    → ◌≡◌ {A = Scan}
        (record (at seen (suc n) k) { comps = set (components seen (suc n)) i v; idx = j })
        (at (add seen v) n j)
stored (unbroken fs) n v i k j h =
    ap (λ c. record (at (unbroken fs) (suc n) k) { comps = c; idx = j })
      (set-components (unbroken fs) n v i h)
stored (broken fs bs) n v i k j h =
    ap (λ c. record (at (broken fs bs) (suc n) k) { comps = c; idx = j })
      (set-components (broken fs bs) n v i h)

module _ (str : Bytes) where
  -- The scan stands behind `pre`, at `r`.
  pub record Stands (pre r : Bytes) : Type 0 where
    pub text : str ≡ pre ++ r
    pub no_dot : lacks b'.' pre ≡ true

  pub Stands-drop : (pre r : Bytes) → Stands pre r → drop (length pre) str ≡ r
  Stands-drop pre r p = ap (drop (length pre)) p.text ∙ drop-append pre r

  pub Stands-length : (pre r : Bytes) → Stands pre r → length str ≡ length pre + length r
  Stands-length pre r p = ap length p.text ∙ length-append pre r

  pub Stands-le : (pre r : Bytes) → Stands pre r → length pre ≤ length str
  Stands-le pre r p = omega (arith, Stands-length pre r p)

  pub Stands-append :
      (pre t r : Bytes) → Stands pre (t ++ r) → lacks b'.' t ≡ true → Stands (pre ++ t) r
  Stands-append pre t r p l = record {
    text = p.text ∙ sym (append_assoc pre t r);
    no_dot = lacks-append b'.' pre t p.no_dot l;
  }

  -- The search for an IPv4 address.
  pub address_searched :
      (be : Bool) (seen : Seen) (n i : ℕ) (pre r : Bytes)
      → length str < 2 ^ 64
      → Stands pre r
      → i ≡ taken seen
      → i + n ≡ 8
      → (if i == 6 || (ltb i 6 && has_shortener (at seen n (length pre)))
          then inet_addr_canonical_at be str (length pre)
          else none)
        ≡ Option.map (host_to_net_32 be) (address_at seen n r)
  address_searched be seen n i pre r short p h e =
      rw (takes_address-test seen n i (length pre) h e) (elim (Bool-cases (takes_address seen n)) [
        | inl t ↦ rw t (
            ap (λ s. inet_addr_canonical_at be s (length pre)) p.text
            ∙ inet_addr_canonical_at-address be pre p.no_dot r (omega (arith, ap length p.text)))
        | inr t ↦ rw t refl
      ])

  -- An IPv4 address was found.
  pub address_found :
      (be : Bool) (seen : Seen) (n i v : ℕ) (pre r : Bytes)
      → length str < 2 ^ 64
      → Stands pre r
      → i ≡ taken seen
      → i + n ≡ 8
      → address_at seen n r ≡ some v
      → ((i == 6 || (ltb i 6 && has_shortener (at seen n (length pre)))) ≡ true)
        × (takes_address seen n ≡ true)
        × (inet_addr_canonical_at be str (length pre) ≡ some (host_to_net_32 be v))
        × (v < 2 ^ 32)
  address_found be seen n i v pre r short p h e f = elim (Bool-cases (takes_address seen n)) [
    | inl t ↦
        let test = takes_address-test seen n i (length pre) h e ∙ t in
        let address : canonical_address (split r) ≡ some v =
          sym (let x : address_at seen n r ≡ canonical_address (split r) = rw t refl in x) ∙ f in
        (
          test,
          t,
          sym (rw test refl)
              ∙ address_searched be seen n i pre r short p h e
              ∙ ap (Option.map (host_to_net_32 be)) f,
          canonical_address-lt (split r) v address,
        )
    | inr t ↦ let x : address_at seen n r ≡ none = rw t refl in cc
  ]

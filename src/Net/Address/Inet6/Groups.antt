-- ===== src/Net/Address/Inet6/Groups.antt =====
-- The IPv6 parser's loop on a row of groups of hexadecimal digits.
use read_mail_really_fast.Prelude.{
  ℕ, zero, suc, ◌+◌, ◌^◌, ◌≤◌, ◌<◌, ◌≡◌, refl, sym, ap, ◌∙◌, Bool, true, false, ◌&&◌, List, [], ◌∷◌,
  ◌++◌, arith, Bytes, length, length-append, length-drop, append_assoc, drop, drop-drop, ◌==◌, set,
  some, map,
}
use mathlib.Core.Path.{subst}
use read_mail_really_fast.Net.Address.Chars.Positions.{drop-append}
use read_mail_really_fast.Net.Address.Inet6.{Scan, next, leaves, round, scan_loop}
use read_mail_really_fast.Net.Address.Inet6.Hexlet.{
  is_hexlet, are_hexlets, hexlet_value, ends_hexlet, digit-lacks-colon,
}
use read_mail_really_fast.Net.Address.Inet6.Step.{
  take_component-hexlet, round-take_component, skip, is_quiet, inet_addr_canonical_at-quiet,
}

-- Each group with a separator before it, and the end of the text.
abbrev pub separated : List Bytes → Bytes → Bytes
separated [] e = e
separated (t ∷ ts) e = b':' ∷ (t ++ separated ts e)

-- The groups with a separator between any two, and the end of the text.
abbrev pub joined : List Bytes → Bytes → Bytes
joined [] e = e
joined (t ∷ ts) e = t ++ separated ts e

-- The end of the text, or a shortener.
abbrev pub ends_groups : Bytes → Bool
ends_groups [] = true
ends_groups (c ∷ []) = false
ends_groups (c ∷ d ∷ r) = c == b':' && d == b':'

-- The values written from component `i` on.
abbrev pub put : ℕ → List ℕ → List ℕ → List ℕ
put i [] comps = comps
put i (v ∷ vs) comps = put (i + 1) vs (set comps i v)

pub put-append :
    (pre vs old post : List ℕ) (i : ℕ)
    → i ≡ length pre
    → length old ≡ length vs
    → put i vs (pre ++ (old ++ post)) ≡ pre ++ (vs ++ post)
put-append pre [] [] post i h e = refl
put-append pre [] (x ∷ old) post i h e = absurd (omega arith)
put-append pre (v ∷ vs) [] post i h e = absurd (omega arith)
put-append pre (v ∷ vs) (x ∷ old) post i h e =
    ap (put (i + 1) vs) (set-append pre x v (old ++ post) i h)
    ∙ put-append (pre ++ (v ∷ [])) vs old post (i + 1) (omega (arith, length-append pre (v ∷ [])))
        (omega arith)
    ∙ append_assoc pre (v ∷ []) (vs ++ post)
  where
    set-append :
        (pre : List ℕ) (x v : ℕ) (post : List ℕ) (i : ℕ)
        → i ≡ length pre
        → set (pre ++ (x ∷ post)) i v ≡ (pre ++ (v ∷ [])) ++ post
    set-append [] x v post zero h = refl
    set-append [] x v post (suc i) h = absurd (omega arith)
    set-append (p ∷ pre) x v post zero h = absurd (omega arith)
    set-append (p ∷ pre) x v post (suc i) h = ap (◌∷◌ p) (set-append pre x v post i (omega arith))

separated-ends_hexlet :
    (ts : List Bytes) (e : Bytes) → ends_groups e ≡ true → ends_hexlet (separated ts e) ≡ true
separated-ends_hexlet [] [] h = refl
separated-ends_hexlet [] (c ∷ []) h = cc
separated-ends_hexlet [] (c ∷ d ∷ r) h = ground arith
separated-ends_hexlet (t ∷ ts) e h = refl

-- Behind a hexlet and what the scan skips stand the other groups.
drop-skip :
    (ts : List Bytes) (e : Bytes)
    → are_hexlets ts ≡ true
    → ends_groups e ≡ true
    → drop (skip (separated ts e)) (separated ts e) ≡ joined ts e
drop-skip [] [] g h = refl
drop-skip [] (c ∷ []) g h = cc
drop-skip [] (c ∷ d ∷ r) g h = let e : (d == b':') ≡ true = ground arith in rw e refl
drop-skip ([] ∷ ts) e g h = cc
drop-skip ((c ∷ t) ∷ ts) e g h =
    let n : (c == b':') ≡ false = ground (arith, digit-lacks-colon c) in rw n refl

skip_le : (r : Bytes) → skip r ≤ length r
skip_le [] = omega arith
skip_le (c ∷ []) = omega arith
skip_le (c ∷ d ∷ r) = ground arith

module _ (be : Bool) (str : Bytes) (n i : ℕ) (s t : Scan) where
  pub scan_loop-next :
      round be str i s ≡ next t → scan_loop be str (suc n) i s ≡ scan_loop be str n (i + 1) t
  unfolding scan_loop
  scan_loop-next h = rw (h, scan_loop) refl

  pub scan_loop-leaves : round be str i s ≡ leaves t → scan_loop be str (suc n) i s ≡ some t
  unfolding scan_loop
  scan_loop-leaves h = rw (h, scan_loop) refl

module _ (str : Bytes) where
  -- At the text `d` stands a row of groups, and `e` behind it.
  abbrev pub Row : List Bytes → Bytes → Bytes → Type 0
  Row [] d e = d ≡ e
  Row (t ∷ ts) d e =
      (rest : Bytes) × (is_hexlet t ≡ true)
      × (ends_hexlet rest ≡ true)
      × (is_quiet str rest ≡ true)
      × (d ≡ t ++ rest)
      × Row ts (drop (skip rest) rest) e

module _ (be : Bool) (str : Bytes) (short : length str < 2 ^ 64) where
  round-hexlet :
      (t rest : Bytes) (i : ℕ) (s : Scan)
      → is_hexlet t ≡ true
      → ends_hexlet rest ≡ true
      → is_quiet str rest ≡ true
      → s.idx ≤ length str
      → drop s.idx str ≡ t ++ rest
      → round be str i s
        ≡ next (record s {
          comps = set s.comps i (hexlet_value t);
          idx = s.idx + (length t + skip rest);
        })
  round-hexlet [] rest i s h e q b d = cc
  round-hexlet (c ∷ t) rest i s h e q b d =
      round-take_component str short be c (t ++ rest) i s
        (inet_addr_canonical_at-quiet be str (c ∷ t) rest s.idx h q short b d) d b
      ∙ take_component-hexlet str short (c ∷ t) rest i s h e b d

  -- Rounds over a row of groups store their values in order and come to its end.
  pub scan_loop-Row :
      (ts : List Bytes) (d e : Bytes) (m i : ℕ) (s : Scan)
      → Row str ts d e
      → s.idx ≤ length str
      → drop s.idx str ≡ d
      → (k : ℕ) × (k ≤ length str)
        × (drop k str ≡ e)
        × (scan_loop be str (length ts + m) i s
            ≡ scan_loop be str m
                (i + length ts)
                (record s { comps = put i (map hexlet_value ts) s.comps; idx = k }))
  scan_loop-Row [] d e m i s r b x =
      let left : 0 + m ≡ m = omega arith in
      let at : i + 0 ≡ i = omega arith in (s.idx, b, x ∙ r, rw (left, at) refl)
  scan_loop-Row (t ∷ ts) d e m i s (rest, h, ends, quiet, y, r) b x =
      let z = x ∙ y in
      let s' : Scan = record s {
        comps = set s.comps i (hexlet_value t);
        idx = s.idx + (length t + skip rest);
      } in
      let within : s'.idx ≤ length str =
        omega (arith, length-drop s.idx str, ap length z, length-append t rest, skip_le rest) in
      let behind : drop s'.idx str ≡ drop (skip rest) rest =
        sym (drop-drop s.idx (length t + skip rest) str)
        ∙ ap (drop (length t + skip rest)) z
        ∙ sym (drop-drop (length t) (skip rest) (t ++ rest))
        ∙ ap (drop (skip rest)) (drop-append t rest) in
      let (k, kb, kd, ke) =
        scan_loop-Row ts (drop (skip rest) rest) e m (i + 1) s' r within behind in
      let left : suc (length ts) + m ≡ suc (length ts + m) = omega arith in
      let at : i + 1 + length ts ≡ i + suc (length ts) = omega arith in
      let now = round-hexlet t rest i s h ends quiet b z in
      (
        k,
        kb,
        kd,
        ap (λ n. scan_loop be str n i s) left
            ∙ scan_loop-next be str (length ts + m) i s s' now
            ∙ ke
            ∙ ap
                (λ j. scan_loop be str m j (record s {
                  comps = put (i + 1) (map hexlet_value ts) (set s.comps i (hexlet_value t));
                  idx = k;
                }))
                at,
      )

-- The end of the text or a shortener behind a row, with no dot in the text at its end.
pub joined-Row :
    (str : Bytes) (ts : List Bytes) (e : Bytes)
    → are_hexlets ts ≡ true
    → ends_groups e ≡ true
    → is_quiet str e ≡ true
    → Row str ts (joined ts e) e
joined-Row str [] e h g q = refl
joined-Row str (t ∷ []) e h g q =
    (e, ground arith, separated-ends_hexlet [] e g, q, refl, drop-skip [] e refl g)
joined-Row str (t ∷ u ∷ ts) e h g q = (
  separated (u ∷ ts) e,
  ground arith,
  refl,
  refl,
  refl,
  subst (λ d. Row str (u ∷ ts) d e) (sym (drop-skip (u ∷ ts) e (ground arith) g))
      (joined-Row str (u ∷ ts) e (ground arith) g q),
)

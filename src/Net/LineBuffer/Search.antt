-- ===== src/Net/LineBuffer/Search.antt =====
-- The default search of connection_line_buffer.cpp, alone and in the loop of `conn_data_in_cb`.
use native.Mathlib.Decide.{ℕ_discrete}
use read_mail_really_fast.Prelude.{
  ℕ, zero, suc, ◌+◌, ◌≤◌, ◌<◌, ◌≡◌, ◌⊎◌, ◌≢◌, refl, Bool, true, false, ◌&&◌, [], ◌∷◌, ◌++◌, none,
  some, arith, Bytes, length, get_or, ◌-◌, ◌%◌, ◌^◌, ◌∙◌, inl, inr, Option-cases, length-append,
  ltb, ◌==◌, take, drop,
}
use read_mail_really_fast.Net.LineBuffer.Rounds.{loop_found}
use read_mail_really_fast.Net.LineBuffer.{
  eol_from, default_eol_search, LineBuffer, running, emit, loop, conn_data_in_cb,
}

-- A carriage return with a line feed behind it.
abbrev is_followed : Bytes → ℕ → Bool
is_followed text i = ltb i (length text - 1) && get_or text (i + 1) 0 == b'\n'

-- Position `q` holds a line feed, or a carriage return that no line feed follows.
abbrev pub IsEnd : Bytes → ℕ → Type 0
IsEnd text q =
    (q < length text)
    × ((get_or text q 0 ≡ b'\n') ⊎ ((get_or text q 0 ≡ b'\r') × (is_followed text q ≡ false)))

abbrev pub IsPlain : Bytes → ℕ → Type 0
IsPlain text k = (get_or text k 0 ≢ b'\r') × (get_or text k 0 ≢ b'\n')

eol_from-IsEnd :
    (n : ℕ) (text : Bytes) (i q : ℕ)
    → i + n ≡ length text
    → eol_from n text i ≡ some q
    → (i ≤ q) × IsEnd text q
unfolding eol_from
eol_from-IsEnd zero text i q h e = cc
eol_from-IsEnd (suc n) text i q h e = ground (arith, eol_from-IsEnd n text (i + 1) q)

eol_from_end : (n : ℕ) (text : Bytes) (q : ℕ) → IsEnd text q → eol_from (suc n) text q ≡ some q
unfolding eol_from
eol_from_end n text q h = ground arith

eol_from-none :
    (n : ℕ) (text : Bytes) (i : ℕ)
    → eol_from (suc n) text i ≡ none
    → IsPlain text i × (eol_from n text (i + 1) ≡ none)
unfolding eol_from
eol_from-none n text i e = ground arith

eol_from-IsPlain :
    (n : ℕ) (text : Bytes) (i k : ℕ)
    → i + n ≡ length text
    → eol_from n text i ≡ none
    → i ≤ k
    → k < length text
    → IsPlain text k
eol_from-IsPlain zero text i k h e l m = absurd (omega arith)
eol_from-IsPlain (suc n) text i k h e l m =
    let (plain, rest) = eol_from-none n text i e in
    elim (ℕ_discrete i k) [
      | yes p ↦ rw p at plain
      | no p ↦ eol_from-IsPlain n text (i + 1) k (omega arith) rest (omega arith) m
    ]

-- A search from a position in the text finds nothing only if neither of the two bytes that end a
-- line stands there or behind; and what it finds is a line end, not before the position.
pub default_eol_search-IsEnd :
    (text : Bytes) (p : ℕ)
    → p ≤ length text
    → ((q : ℕ) → default_eol_search text p ≡ some q → (p ≤ q) × IsEnd text q)
      × ((k : ℕ) → default_eol_search text p ≡ none → p ≤ k → k < length text → IsPlain text k)
unfolding default_eol_search
default_eol_search-IsEnd text p h = (
  (λ q e. eol_from-IsEnd (length text - p) text p q (omega arith) e),
  (λ k e. eol_from-IsPlain (length text - p) text p k (omega arith) e),
)

default_eol_search_end : (text : Bytes) (q : ℕ) → IsEnd text q → default_eol_search text q ≡ some q
unfolding default_eol_search
default_eol_search_end text q h =
    let e : length text - q ≡ suc (length text - q - 1) = omega (arith, h.0) in
    rw e (eol_from_end (length text - q - 1) text q h)

-- Once at a line end, every round of the loop calls the callback and stays where it is.
loop_stays :
    (fuel : ℕ) (b : LineBuffer) (text : Bytes) (p q : ℕ)
    → p ≤ length text
    → default_eol_search text p ≡ some q
    → (c : LineBuffer) × (loop default_eol_search fuel b text p ≡ running c)
      × (length c.lines ≡ length b.lines + fuel)
unfolding loop
loop_stays zero b text p q h e = (b, refl, omega arith)
loop_stays (suc fuel) b text p q h e =
    let line = b.buffer ++ take ((q + 2 ^ 64 - p) % 2 ^ 64) (drop p text) in
    let found = (default_eol_search-IsEnd text p h).0 q e in
    let (c, r, l) =
      loop_stays fuel (emit b line true) text q q (omega (arith, found.1.0))
        (default_eol_search_end text q found.1) in
    (
      c,
      loop_found default_eol_search fuel b text p q h e ∙ r,
      omega (arith, l, length-append b.lines ((line, true) ∷ [])),
    )

-- With the default search, a call whose data has a line end never returns: whatever the fuel, the
-- loop is still running, and it has called the callback once for each unit of fuel.
pub conn_data_in_cb_stuck :
    (fuel : ℕ) (b : LineBuffer) (text : Bytes) (k : ℕ)
    → k < length text
    → (get_or text k 0 ≡ b'\r') ⊎ (get_or text k 0 ≡ b'\n')
    → (c : LineBuffer) × (conn_data_in_cb default_eol_search fuel b text ≡ running c)
      × (length c.lines ≡ length b.lines + fuel)
unfolding conn_data_in_cb
conn_data_in_cb_stuck fuel b text k h e = elim (Option-cases (default_eol_search text 0)) [
  | inl x ↦
      absurd (ends_line e ((default_eol_search-IsEnd text 0 (omega arith)).1 k x (omega arith) h))
  | inr (q, x) ↦ let (c, r, l) = loop_stays fuel b text 0 q (omega arith) x in (c, rw r, l)
]
  where
    ends_line : (get_or text k 0 ≡ b'\r') ⊎ (get_or text k 0 ≡ b'\n') → ¬ IsPlain text k
    ends_line (inl y) n = n.0 y
    ends_line (inr y) n = n.1 y

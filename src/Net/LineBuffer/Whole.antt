-- ===== src/Net/LineBuffer/Whole.antt =====
-- `conn_data_in_cb` as a whole, with a search that moves on.
use read_mail_really_fast.Prelude.{
  ℕ, zero, suc, ◌+◌, ◌-◌, ◌%◌, ◌^◌, ◌≤◌, ◌<◌, ◌≡◌, refl, sym, ap, ◌∙◌, Bool, true, false, List, [],
  ◌∷◌, ◌++◌, append-nil, append_assoc, Option, some, Option-cases, arith, Bytes, length, take, drop,
  take_all, take-append-drop, drop-drop, length-drop, ltb, inl, inr, Bool-cases,
}
use read_mail_really_fast.Net.LineBuffer.Rounds.{loop_found, loop_ends}
use read_mail_really_fast.Net.LineBuffer.{
  LineBuffer, returned, emit, loop, conn_data_in_cb, flush_long,
}

abbrev pub given_out : List (Bytes × Bool) → Bytes
given_out [] = []
given_out ((line, _) ∷ ls) = line ++ given_out ls

-- All the text that has come in: the lines given out, then the buffer.
abbrev pub received_text : LineBuffer → Bytes
received_text b = given_out b.lines ++ b.buffer

given_out-append :
    (ls : List (Bytes × Bool)) (line : Bytes) (f : Bool)
    → given_out (ls ++ ((line, f) ∷ [])) ≡ given_out ls ++ line
given_out-append [] line f = append-nil line
given_out-append ((x, _) ∷ ls) line f =
    ap (◌++◌ x) (given_out-append ls line f) ∙ sym (append_assoc x (given_out ls) line)

received_text-emit :
    (b : LineBuffer) (line : Bytes) (f : Bool)
    → received_text (emit b (b.buffer ++ line) f) ≡ received_text b ++ line
received_text-emit b line f =
    append-nil _
    ∙ given_out-append b.lines (b.buffer ++ line) f
    ∙ sym (append_assoc (given_out b.lines) b.buffer line)

take-drop-append :
    (text : Bytes) (p q : ℕ) → p ≤ q → take (q - p) (drop p text) ++ drop q text ≡ drop p text
take-drop-append text p q h =
    ap (◌++◌ (take (q - p) (drop p text))) (
      ap (λ k. drop k text) (let e : q ≡ p + (q - p) = omega arith in e)
      ∙ sym (drop-drop p (q - p) text))
    ∙ take-append-drop (q - p) (drop p text)

received_text-flush_long : (b : LineBuffer) → received_text (flush_long b) ≡ received_text b
unfolding flush_long
received_text-flush_long b = elim (Bool-cases (ltb b.max_size (length b.buffer))) [
  | inl e ↦ simp e (append-nil _ ∙ given_out-append b.lines b.buffer false)
  | inr e ↦ simp e
]

max_size-flush_long : (b : LineBuffer) → (flush_long b).max_size ≡ b.max_size
unfolding flush_long
max_size-flush_long b = ground arith

flush_long-le : (b : LineBuffer) → length (flush_long b).buffer ≤ b.max_size
unfolding flush_long
flush_long-le b = ground arith

module _ (search : Bytes → ℕ → Option ℕ) (text : Bytes)
    (advances : (p q : ℕ) → search text p ≡ some q → (p < q) × (q ≤ length text))
    (fits : length text < 2 ^ 64) where
  loop_whole :
      (fuel : ℕ) (b : LineBuffer) (p : ℕ)
      → p ≤ length text
      → length text - p < fuel
      → (c : LineBuffer) × (loop search fuel b text p ≡ returned c)
        × (received_text c ≡ received_text b ++ drop p text)
        × (c.max_size ≡ b.max_size)
  loop_whole zero b p h f = absurd (omega arith)
  loop_whole (suc fuel) b p h f = elim (Option-cases (search text p)) [
    | inl e ↦ (
      _,
      loop_ends search fuel b text p h e,
      sym (append_assoc (given_out b.lines) b.buffer _)
          ∙ ap (◌++◌ (received_text b))
              (take_all (length text - p) (drop p text) (omega (arith, length-drop p text))),
      refl,
    )
    | inr (q, e) ↦
        let (l, m) = advances p q e in
        let count : (q + 2 ^ 64 - p) % 2 ^ 64 ≡ q - p = omega arith in
        let line = take ((q + 2 ^ 64 - p) % 2 ^ 64) (drop p text) in
        let (c, r, x, y) = loop_whole fuel (emit b (b.buffer ++ line) true) q m (omega arith) in
        (
          c,
          loop_found search fuel b text p q h e ∙ r,
          x
              ∙ ap (λ t. t ++ drop q text) (received_text-emit b line true)
              ∙ append_assoc (received_text b) line (drop q text)
              ∙ ap (λ k. received_text b ++ (take k (drop p text) ++ drop q text)) count
              ∙ ap (◌++◌ (received_text b)) (take-drop-append text p q (omega arith)),
          y,
        )
  ]

  -- On a text below 2 ^ 64 bytes, if every answer of the search lies behind the position it was
  -- asked for, and in the text, then a call with more fuel than the text is long returns; the lines
  -- given out and the buffer are those of before followed by the text, and the buffer keeps within
  -- the limit, which stays.
  pub conn_data_in_cb_whole :
      (fuel : ℕ) (b : LineBuffer)
      → length text < fuel
      → (c : LineBuffer) × (conn_data_in_cb search fuel b text ≡ returned c)
        × (received_text c ≡ received_text b ++ text)
        × (length c.buffer ≤ b.max_size)
        × (c.max_size ≡ b.max_size)
  unfolding conn_data_in_cb
  conn_data_in_cb_whole fuel b f =
      let (c, r, x, y) = loop_whole fuel b 0 (omega arith) (omega arith) in
      (
        flush_long c,
        rw r,
        received_text-flush_long c ∙ x,
        omega (arith, flush_long-le c, y),
        max_size-flush_long c ∙ y,
      )

-- ===== src/Net/LineBuffer/Rounds.antt =====
-- One round of the loop, by what the search answers.
use read_mail_really_fast.Prelude.{
  ℕ, suc, ◌+◌, ◌-◌, ◌%◌, ◌^◌, ◌≤◌, ◌≡◌, true, false, ◌++◌, Option, none, some, arith, Bytes, length,
  take, drop, ltb,
}
use read_mail_really_fast.Net.LineBuffer.{LineBuffer, returned, emit, loop}

in_text : (text : Bytes) (p : ℕ) → p ≤ length text → ltb (length text) p ≡ false
in_text text p h = ground arith

module _ (search : Bytes → ℕ → Option ℕ) (fuel : ℕ) (b : LineBuffer) (text : Bytes) (p : ℕ) where
  pub loop_found :
      (q : ℕ)
      → p ≤ length text
      → search text p ≡ some q
      → loop search (suc fuel) b text p
        ≡ loop search fuel
            (emit b (b.buffer ++ take ((q + 2 ^ 64 - p) % 2 ^ 64) (drop p text)) true)
            text
            q
  unfolding loop
  loop_found q h e = rw (e, loop) (rw (in_text text p h, loop))

  pub loop_ends :
      p ≤ length text
      → search text p ≡ none
      → loop search (suc fuel) b text p
        ≡ returned (record b { buffer = b.buffer ++ take (length text - p) (drop p text) })
  unfolding loop
  loop_ends h e = rw (e, loop) (rw (in_text text p h, loop))

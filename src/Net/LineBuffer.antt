-- ===== src/Net/LineBuffer.antt =====
-- src/net/connection_line_buffer.cpp and connection_line_buffer.hpp. Texts are lists of bytes and
-- positions are `size_t`; `none` is `std::string::npos`. The callback `found_next_line_cb` returns
-- normally: its calls are the field `lines`, in order. The `while` loop runs on fuel, one unit for
-- each test of its condition.
mod Rounds
pub mod Search
pub mod Whole
pub mod Feed
pub mod Received
mod Tests
use read_mail_really_fast.Prelude.{
  ℕ, zero, suc, ◌+◌, ◌-◌, ◌%◌, ◌^◌, Bool, true, false, ◌&&◌, List, [], ◌∷◌, ◌++◌, Option, none,
  some, Bytes, length, get_or, take, drop, ltb, ◌==◌, if◌then◌else◌,
}

-- The body of the `for` loop at position `i`, with `n` positions left.
eol_from : ℕ → Bytes → ℕ → Option ℕ
eol_from zero text i = none
eol_from (suc n) text i =
    let rest = eol_from n text (i + 1) in
    if get_or text i 0 == b'\r'
    then (if ltb i (length text - 1) && get_or text (i + 1) 0 == b'\n'
        then some (i + 1)
        else some i)
    else if get_or text i 0 == b'\n'
    then some i
    else rest

unfoldable pub default_eol_search : Bytes → ℕ → Option ℕ
unfolding eol_from
default_eol_search text start = eol_from (length text - start) text start

pub record LineBuffer : Type 0 where
  pub max_size : ℕ
  pub buffer : Bytes
  pub lines : List (Bytes × Bool)

-- The constructor, without the registration of the callback at the client.
unfoldable pub new_line_buffer : ℕ → LineBuffer
new_line_buffer max_line_size = record { max_size = max_line_size; buffer = []; lines = [] }

-- The call returns, throws `std::out_of_range` from `substr`, or is still in its loop.
pub data Progress : Type 0 where
  returned : LineBuffer → Progress
  threw_out_of_range : LineBuffer → Progress
  running : LineBuffer → Progress

-- `text.substr(pos, count)`
abbrev pub substr : Bytes → ℕ → ℕ → Option Bytes
substr text pos count = if ltb (length text) pos then none else some (take count (drop pos text))

abbrev pub emit : LineBuffer → Bytes → Bool → LineBuffer
emit b line found = record b { lines = b.lines ++ ((line, found) ∷ []); buffer = [] }

-- The branch that ends the loop keeps the rest of the text for the next call.
append_rest : LineBuffer → Option Bytes → Progress
append_rest b none = threw_out_of_range b
append_rest b (some rest) = returned (record b { buffer = b.buffer ++ rest })

-- The check behind the loop: a buffer over the limit is given out as it is.
unfoldable pub flush_long : LineBuffer → LineBuffer
flush_long b = if ltb b.max_size (length b.buffer) then emit b b.buffer false else b

abbrev after_loop : Progress → Progress
after_loop (returned b) = returned (flush_long b)
after_loop (threw_out_of_range b) = threw_out_of_range b
after_loop (running b) = running b

module _ (search : Bytes → ℕ → Option ℕ) where
  unfoldable pub loop : ℕ → LineBuffer → Bytes → ℕ → Progress
  unfolding append_rest
  loop zero b data_in strpos = running b
  loop (suc fuel) b data_in strpos = elim (search data_in strpos) [
    | none ↦ append_rest b (substr data_in strpos (length data_in - strpos))
    | some nextpos ↦ elim (substr data_in strpos ((nextpos + 2 ^ 64 - strpos) % 2 ^ 64)) [
      | none ↦ threw_out_of_range b
      | some line ↦ loop fuel (emit b (b.buffer ++ line) true) data_in nextpos
    ]
  ]

  unfoldable pub conn_data_in_cb : ℕ → LineBuffer → Bytes → Progress
  conn_data_in_cb fuel b data_in = after_loop (loop fuel b data_in 0)

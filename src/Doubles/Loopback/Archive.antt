-- ===== src/Doubles/Loopback/Archive.antt =====
-- What a loopback client keeps and passes on over a history of calls.
use read_mail_really_fast.Prelude.{
  ◌≡◌, ◌∙◌, Bool, true, false, List, [], ◌∷◌, ◌++◌, append-nil, append_assoc, Bytes,
}
use read_mail_really_fast.Doubles.Loopback.{
  LoopbackClient, Called, write_data, send_data_to_incomming_data_cb,
}

pub data LoopbackCall : Type 0 where
  writes sends : Bytes → LoopbackCall

unfoldable pub after_call : LoopbackClient × Called → LoopbackCall → LoopbackClient × Called
after_call (c, w) (writes text) = write_data c w text
after_call (c, w) (sends text) = (c, send_data_to_incomming_data_cb c w text)

unfoldable pub after_calls : LoopbackClient × Called → List LoopbackCall → LoopbackClient × Called
after_calls s [] = s
after_calls s (c ∷ cs) = after_calls (after_call s c) cs

abbrev pub all_written : List LoopbackCall → List Bytes
all_written [] = []
all_written (writes text ∷ cs) = text ∷ all_written cs
all_written (sends text ∷ cs) = all_written cs

abbrev pub all_sent : List LoopbackCall → List Bytes
all_sent [] = []
all_sent (writes text ∷ cs) = all_sent cs
all_sent (sends text ∷ cs) = text ∷ all_sent cs

-- The texts, if the callback is set.
abbrev pub passed : Bool → List Bytes → List Bytes
passed true texts = texts
passed false texts = []

-- The client and the calls of its callbacks, written out.
abbrev pub state_of : Bool → Bool → List Bytes → List Bytes → List Bytes → LoopbackClient × Called
state_of i m archive out back = (
  record { in_data_cb = i; mut_send_data_cb = m; send_data_archive = archive },
  record { mut_calls = out; in_calls = back },
)

-- Over any history of calls, the archive is what was written, in order, behind what it held; the
-- callback for sent data has been called with the same, and the one for incoming data with
-- what was sent to it, each if it is set and not otherwise.
pub after_calls_lem :
    (i m : Bool) (archive out back : List Bytes) (cs : List LoopbackCall)
    → after_calls (state_of i m archive out back) cs
      ≡ state_of i m
          (archive ++ all_written cs)
          (out ++ passed m (all_written cs))
          (back ++ passed i (all_sent cs))
unfolding after_calls after_call write_data send_data_to_incomming_data_cb
after_calls_lem true true archive out back [] = simp append-nil
after_calls_lem true false archive out back [] = simp append-nil
after_calls_lem false true archive out back [] = simp append-nil
after_calls_lem false false archive out back [] = simp append-nil
after_calls_lem i true archive out back (writes text ∷ cs) =
    after_calls_lem i true (archive ++ (text ∷ [])) (out ++ (text ∷ [])) back cs ∙ simp append_assoc
after_calls_lem i false archive out back (writes text ∷ cs) =
    after_calls_lem i false (archive ++ (text ∷ [])) out back cs ∙ simp append_assoc
after_calls_lem true m archive out back (sends text ∷ cs) =
    after_calls_lem true m archive out (back ++ (text ∷ [])) cs ∙ simp append_assoc
after_calls_lem false m archive out back (sends text ∷ cs) =
    after_calls_lem false m archive out back cs

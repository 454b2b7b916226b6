-- ===== src/Doubles/Loopback/Tests.antt =====
-- The theorem on the loopback client at a history of three calls.
use read_mail_really_fast.Prelude.{◌≡◌, true, false, List, [], ◌∷◌, ◌++◌, codes}
use read_mail_really_fast.Doubles.Loopback.Archive.{
  LoopbackCall, writes, sends, after_calls, all_written, all_sent, passed, state_of,
  after_calls_lem,
}

abbrev calls : List LoopbackCall
calls = writes (codes "HELO") ∷ sends (codes "250") ∷ writes (codes "QUIT") ∷ []

after_calls_lem_example :
    after_calls (state_of false true [] [] []) calls
    ≡ state_of false true
        ([] ++ all_written calls)
        ([] ++ passed true (all_written calls))
        ([] ++ passed false (all_sent calls))
after_calls_lem_example = after_calls_lem false true [] [] [] calls

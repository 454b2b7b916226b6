-- ===== src/Ui/Display.antt =====
-- `display` of ui/display.cpp and the program app/nc-test.cpp, and app/rmrf.cpp. The calls of
-- ncurses and of the translations are logged, newest first; `held` says that the display's mutex is
-- locked. Both programs hold their display by a shared pointer, so `shared_from_this` gives it.
pub mod Sessions
use read_mail_really_fast.Prelude.{
  ℕ, Bool, true, false, List, [], ◌∷◌, ◌++◌, Bytes, codes, if◌then◌else◌,
}
use read_mail_really_fast.Prelude.Int.{ℤ, pos, eq_ℤ}

pub data Call : Type 0 where
  setlocale bindtextdomain textdomain : Call
  initscr raw cbreak noecho keypad clears endwin : Call
  mvprintw : ℕ → ℕ → Bytes → List ℤ → Call

pub record Display : Type 0 where
  pub calls : List Call
  pub held : Bool

-- A second lock of the mutex by the thread that holds it never returns.
pub data Ending : Type 0 where
  done blocked : Display → Ending

-- the constructor
unfoldable pub display : List Call → Display
display calls = record { calls = keypad ∷ noecho ∷ cbreak ∷ raw ∷ initscr ∷ calls; held = false }

unfoldable pub destruct : Display → List Call
destruct d = endwin ∷ d.calls

-- the end of `lock_type`'s scope
abbrev unlock : Ending → Ending
unlock (done d) = done (record d { held = false })
unlock (blocked d) = blocked d

unfoldable pub sync : (Display → Ending) → Display → Ending
sync f d = if d.held then blocked d else unlock (f (record d { held = true }))

abbrev call : Call → Display → Ending
call c d = done (record d { calls = c ∷ d.calls })

unfoldable pub clear : Display → Ending
unfolding sync
clear = sync (call clears)

-- How a program ends: with its exit code, in `getch`, or in a lock.
pub data Run : Type 0 where
  exits : ℕ → List Call → Run
  waits stuck : Display → Run

infixl 5 ◌>>=◌
abbrev ◌>>=◌ : Ending → (Display → Run) → Run
done d >>= f = f d
blocked d >>= f = stuck d

abbrev pub opened : Display
unfolding display
opened = display (textdomain ∷ bindtextdomain ∷ setlocale ∷ [])

-- `main` of app/rmrf.cpp; `translated` is the message in the language of the user.
unfoldable pub rmrf_main : (Bytes → Bytes) → Run
unfolding sync clear destruct display
rmrf_main translated = clear opened >>= λ d.
    sync (call (mvprintw 0 0 (translated (codes "Starting RMRF" ++ (0xe2 ∷ 0x80 ∷ 0xa6 ∷ []))) []))
      d
    >>= λ d'. exits 0 (destruct d')

-- The loop of `main` of app/nc-test.cpp, on the answers of `getch`. `unichar` stays 0.
unfoldable pub nc_test_loop : (Bytes → Bytes) → List ℤ → Display → Run
unfolding sync destruct
nc_test_loop translated [] d = waits d
nc_test_loop translated (ct ∷ keys) d =
    sync (call (mvprintw 0 0 (translated (codes "Detected key: %8x (ct=%i)")) (pos 0 ∷ ct ∷ []))) d
    >>= λ d'.
        let rest = nc_test_loop translated keys d' in
        if eq_ℤ (pos 10) ct then exits 0 (destruct d') else rest

unfoldable pub nc_test_main : (Bytes → Bytes) → List ℤ → Run
unfolding clear nc_test_loop display
nc_test_main translated keys = clear opened >>= nc_test_loop translated keys

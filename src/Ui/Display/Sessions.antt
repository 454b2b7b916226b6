-- ===== src/Ui/Display/Sessions.antt =====
-- The two programs with a display, from their first call to their last.
use read_mail_really_fast.Prelude.{
  ◌≡◌, refl, Bool, true, false, List, [], ◌∷◌, ◌++◌, Bytes, codes, arith, if◌then◌else◌,
}
use read_mail_really_fast.Prelude.Int.{ℤ, pos, eq_ℤ}
use read_mail_really_fast.Ui.Display.{
  Call, setlocale, bindtextdomain, textdomain, initscr, raw, cbreak, noecho, keypad, clears, endwin,
  mvprintw, Display, Ending, blocked, sync, exits, waits, nc_test_loop, nc_test_main,
}

-- No key is the line feed.
abbrev pub no_line_feed : List ℤ → Bool
no_line_feed [] = true
no_line_feed (k ∷ ks) = if eq_ℤ (pos 10) k then false else no_line_feed ks

-- What the program prints for each key, newest first.
abbrev pub prints : (Bytes → Bytes) → List ℤ → List Call → List Call
prints translated [] calls = calls
prints translated (k ∷ ks) calls =
    prints translated ks
      (mvprintw 0 0 (translated (codes "Detected key: %8x (ct=%i)")) (pos 0 ∷ k ∷ []) ∷ calls)

-- The calls up to the cleared screen, newest first.
abbrev pub opening : List Call
opening =
    clears ∷ keypad ∷ noecho ∷ cbreak ∷ raw ∷ initscr ∷ textdomain ∷ bindtextdomain ∷ setlocale ∷ []

module _ (translated : Bytes → Bytes) where
  nc_test_loop-exits :
      (keys rest : List ℤ) (calls : List Call)
      → no_line_feed keys ≡ true
      → nc_test_loop translated (keys ++ (pos 10 ∷ rest)) (record { calls = calls; held = false })
        ≡ exits 0 (endwin ∷ prints translated (keys ++ (pos 10 ∷ [])) calls)
  unfolding nc_test_loop
  nc_test_loop-exits [] rest calls h = refl
  nc_test_loop-exits (k ∷ keys) rest calls h =
      let other : eq_ℤ (pos 10) k ≡ false = ground arith in
      rw other (nc_test_loop-exits keys rest _ (ground arith))

  nc_test_loop-waits :
      (keys : List ℤ) (calls : List Call)
      → no_line_feed keys ≡ true
      → nc_test_loop translated keys (record { calls = calls; held = false })
        ≡ waits (record { calls = prints translated keys calls; held = false })
  unfolding nc_test_loop
  nc_test_loop-waits [] calls h = refl
  nc_test_loop-waits (k ∷ keys) calls h =
      let other : eq_ℤ (pos 10) k ≡ false = ground arith in
      rw other (nc_test_loop-waits keys _ (ground arith))

  -- On keys without a line feed the program prints each key and waits for the next; at the first
  -- line feed it prints that, ends the screen and exits with 0, whatever keys follow. In both cases
  -- the screen was set up and cleared first.
  pub nc_test_main_lem :
      (keys rest : List ℤ)
      → no_line_feed keys ≡ true
      → (nc_test_main translated keys
          ≡ waits (record { calls = prints translated keys opening; held = false }))
        × (nc_test_main translated (keys ++ (pos 10 ∷ rest))
            ≡ exits 0 (endwin ∷ prints translated (keys ++ (pos 10 ∷ [])) opening))
  unfolding nc_test_main
  nc_test_main_lem keys rest h =
      (nc_test_loop-waits keys opening h, nc_test_loop-exits keys rest opening h)

-- A body that synchronises on the display again never gets its lock, and leaves the display locked.
pub sync_twice :
    (f : Display → Ending) (d : Display) → sync (sync f) d ≡ blocked (record d { held = true })
unfolding sync
sync_twice f d = ground arith

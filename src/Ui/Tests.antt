-- ===== src/Ui/Tests.antt =====
-- Tests of the user interface, and its theorems at concrete inputs.
use read_mail_really_fast.Prelude.{
  ◌≡◌, ◌≢◌, refl, ℕ, [], ◌∷◌, ◌++◌, Option, none, some, true, false, codes,
}
use read_mail_really_fast.Prelude.Int.{pos}
use read_mail_really_fast.Ui.Event.{event, set_handled, has_been_handled, get_sender}
use read_mail_really_fast.Ui.View.{View, Views, write, view, bad_weak_ptr, destruct, destroyed}
use read_mail_really_fast.Ui.View.Alone.{
  no_views, makes, begins, goes_on, Reach, reached_views_alone,
}
use read_mail_really_fast.Ui.Display.{exits, waits, mvprintw, endwin, nc_test_main, rmrf_main}
use read_mail_really_fast.Ui.Display.Sessions.{prints, opening, nc_test_main_lem}

e1 : has_been_handled (event (some 3)) ≡ false
unfolding has_been_handled event
e1 = refl

e2 : has_been_handled (set_handled (event (some 3))) ≡ true
unfolding has_been_handled event set_handled
e2 = refl

e3 : get_sender (set_handled (event (some 3))) ≡ some 3
unfolding get_sender event set_handled
e3 = refl

-- What `shared_from_this` answers where it throws.
abbrev throws : Views → ℕ → Option ℕ
throws vs n = none

abbrev root : View
root = record { parent_view = none; child_views = [] }

abbrev one_view : Views
one_view = record (write no_views 0 (some root)) { next_view = 1 }

one_view-Reach : Reach throws one_view
unfolding view
one_view-Reach = goes_on begins (makes none 0 refl)

reached_views_alone_example :
    (root.parent_view ≡ none)
    × (root.child_views ≡ [])
    × ((p : ℕ)
        → (vs' : Views) × (view throws (some p) one_view ≡ bad_weak_ptr vs')
          × ((m : ℕ) → vs'.cell m ≡ one_view.cell m))
    × ((vs' : Views) × (destruct throws 0 one_view ≡ destroyed [] vs')
        × (vs'.cell 0 ≡ none)
        × ((m : ℕ) → m ≢ 0 → vs'.cell m ≡ one_view.cell m))
reached_views_alone_example = reached_views_alone throws (λ vs n. refl) 0 one_view-Reach refl

rmrf :
    rmrf_main (λ t. t)
    ≡ exits 0
        (endwin ∷ mvprintw 0 0 (codes "Starting RMRF" ++ (0xe2 ∷ 0x80 ∷ 0xa6 ∷ [])) [] ∷ opening)
unfolding rmrf_main
rmrf = refl

nc_test_main_lem_example :
    (nc_test_main (λ t. t) (pos 97 ∷ [])
      ≡ waits (record { calls = prints (λ t. t) (pos 97 ∷ []) opening; held = false }))
    × (nc_test_main (λ t. t) ((pos 97 ∷ []) ++ (pos 10 ∷ (pos 98 ∷ [])))
        ≡ exits 0 (endwin ∷ prints (λ t. t) ((pos 97 ∷ []) ++ (pos 10 ∷ [])) opening))
nc_test_main_lem_example = nc_test_main_lem (λ t. t) (pos 97 ∷ []) (pos 98 ∷ []) refl

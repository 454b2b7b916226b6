-- ===== src/Ui/View.antt =====
-- `view` of ui/view.cpp. The views that exist stand in a store under the numbers of their objects;
-- `none` is the null pointer. `shared_from_this` of the standard library is a parameter, the answer
-- of a call on an object; `none` is the exception `bad_weak_ptr`.
pub mod Alone
use read_mail_really_fast.Prelude.{
  ℕ, ◌+◌, List, [], ◌∷◌, ◌++◌, Option, none, some, ◌==◌, if◌then◌else◌,
}

pub record View : Type 0 where
  pub parent_view : Option ℕ
  pub child_views : List ℕ

pub record Views : Type 0 where
  pub next_view : ℕ
  pub cell : ℕ → Option View

-- The cell of an object, written.
abbrev pub write : Views → ℕ → Option View → Views
write vs n v = record vs { cell = λ m. if m == n then v else vs.cell m }

-- How the constructor ends: with an object, or with an exception and the object's memory returned.
pub data Construction : Type 0 where
  constructed : ℕ → Views → Construction
  bad_weak_ptr : Views → Construction

-- How the destructor ends: with the child pointers it let go, or, since an exception may not leave
-- a destructor, with the program.
pub data Destruction : Type 0 where
  destroyed : List ℕ → Views → Destruction
  terminated : Destruction

abbrev children : Option View → List ℕ
children none = []
children (some v) = v.child_views

unfoldable pub get_parent : View → Option ℕ
get_parent v = v.parent_view

add_child_to : Option View → ℕ → Option View
add_child_to none child = none
add_child_to (some v) child = some (record v { child_views = v.child_views ++ (child ∷ []) })

unfoldable pub add_child : Views → ℕ → ℕ → Views
unfolding add_child_to
add_child vs n child = write vs n (add_child_to (vs.cell n) child)

-- `list::remove`: every entry that is equal.
remove : ℕ → List ℕ → List ℕ
remove n [] = []
remove n (x ∷ xs) = let rest = remove n xs in if x == n then rest else x ∷ rest

remove_child_of : Option View → ℕ → Option View
unfolding remove
remove_child_of none child = none
remove_child_of (some v) child = some (record v { child_views = remove child v.child_views })

unfoldable pub remove_child : Views → ℕ → ℕ → Views
unfolding remove_child_of
remove_child vs n child = write vs n (remove_child_of (vs.cell n) child)

module _ (shared_from_this : Views → ℕ → Option ℕ) where
  -- the constructor, at an object that `allocated` holds
  enter : ℕ → Option ℕ → Views → Construction
  unfolding add_child
  enter this none allocated = constructed this allocated
  enter this (some p) allocated = elim (shared_from_this allocated this) [
    | some child ↦ constructed this (add_child allocated p child)
    | none ↦ bad_weak_ptr (write allocated this none)
  ]

  unfoldable pub view : Option ℕ → Views → Construction
  unfolding enter
  view parent vs =
      let v : View = record { parent_view = parent; child_views = [] } in
      enter vs.next_view parent
        (record (write vs vs.next_view (some v)) { next_view = vs.next_view + 1 })

  -- the destructor behind its `clear`, which let go of `released`
  leave : ℕ → List ℕ → Option ℕ → Views → Destruction
  unfolding remove_child
  leave this released none vs = destroyed released (write vs this none)
  leave this released (some p) vs = elim (shared_from_this vs this) [
    | some child ↦ destroyed released (write (remove_child vs p child) this none)
    | none ↦ terminated
  ]

  destruct_view : ℕ → Option View → Views → Destruction
  unfolding leave
  destruct_view this none vs = terminated
  destruct_view this (some v) vs =
      leave this v.child_views v.parent_view (write vs this (some (record v { child_views = [] })))

  unfoldable pub destruct : ℕ → Views → Destruction
  unfolding destruct_view
  destruct this vs = destruct_view this (vs.cell this) vs

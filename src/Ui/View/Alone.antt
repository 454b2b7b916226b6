-- ===== src/Ui/View/Alone.antt =====
-- Histories of views.
use read_mail_really_fast.Prelude.{
  ℕ, ◌+◌, ◌≤◌, ◌<◌, ◌≡◌, refl, sym, ap, ◌∙◌, Bool, true, false, ◌≢◌, Option-cases, inl, inr, List,
  [], Option, none, some, arith, ◌==◌, if◌then◌else◌,
}
use mathlib.Core.Path.{subst}
use read_mail_really_fast.Ui.View.{
  View, Views, write, Construction, constructed, bad_weak_ptr, Destruction, destroyed, terminated,
  enter, view, leave, destruct_view, destruct,
}

abbrev pub no_views : Views
no_views = record { next_view = 0; cell = λ _. none }

module _ (shared_from_this : Views → ℕ → Option ℕ) where
  -- What the callers of the class may do: make a view under no parent or one that exists, and let a
  -- view go.
  pub data Step : Views → Views → Type 0 where
    makes :
        {vs vs' : Views} (parent : Option ℕ) (n : ℕ)
        → view shared_from_this parent vs ≡ constructed n vs'
        → Step vs vs'
    refused :
        {vs vs' : Views} (parent : Option ℕ)
        → view shared_from_this parent vs ≡ bad_weak_ptr vs'
        → Step vs vs'
    lets_go :
        {vs vs' : Views} (n : ℕ) (released : List ℕ)
        → destruct shared_from_this n vs ≡ destroyed released vs'
        → Step vs vs'

  pub data Reach : Views → Type 0 where
    begins : Reach no_views
    goes_on : {vs vs' : Views} → Reach vs → Step vs vs' → Reach vs'

-- A view without a parent and without children.
abbrev pub IsRoot : Option View → Type 0
IsRoot none = Unit {0}
IsRoot (some v) = (v.parent_view ≡ none) × (v.child_views ≡ [])

IsRoot-if : (b : Bool) (x y : Option View) → IsRoot x → IsRoot y → IsRoot (if b then x else y)
IsRoot-if true x y h k = h
IsRoot-if false x y h k = k

-- No view has a parent or a child, and numbers are handed out once.
record Alone (vs : Views) : Type 0 where
  roots : (n : ℕ) → IsRoot (vs.cell n)
  fresh : (n : ℕ) → vs.next_view ≤ n → vs.cell n ≡ none

write-Alone :
    {vs : Views} (n : ℕ) (v : Option View)
    → Alone vs
    → n < vs.next_view
    → IsRoot v
    → Alone (write vs n v)
write-Alone {vs} n v a h r = record {
  roots = λ m. IsRoot-if (m == n) v (vs.cell m) r (a.roots m);
  fresh = λ m k. ground (arith, a.fresh m);
}

write-none-Alone : {vs : Views} (n : ℕ) → Alone vs → Alone (write vs n none)
write-none-Alone {vs} n a = record {
  roots = λ m. IsRoot-if (m == n) none (vs.cell m) tt (a.roots m);
  fresh = λ m k. ground (arith, a.fresh m);
}

more_numbers-Alone : {vs : Views} → Alone vs → Alone (record vs { next_view = vs.next_view + 1 })
more_numbers-Alone a = record { roots = λ m. a.roots m; fresh = λ m k. a.fresh m (omega arith) }

-- What was written to a new number is taken away again.
unwrite :
    (vs : Views) (v : Option View) (m : ℕ)
    → Alone vs
    → (if m == vs.next_view then none else (if m == vs.next_view then v else vs.cell m)) ≡ vs.cell m
unwrite vs v m a = ground (arith, a.fresh m)

module _ (shared_from_this : Views → ℕ → Option ℕ)
    (throws : (vs : Views) (n : ℕ) → shared_from_this vs n ≡ none) where
  abbrev Kept : Construction → Type 0
  Kept (constructed n vs) = Alone vs
  Kept (bad_weak_ptr vs) = Alone vs

  abbrev KeptAfter : Destruction → Type 0
  KeptAfter (destroyed released vs) = Alone vs
  KeptAfter terminated = Unit {0}

  -- A view under another is refused, and the views are as before.
  refuses :
      {vs : Views} (p : ℕ)
      → Alone vs
      → (vs' : Views) × (view shared_from_this (some p) vs ≡ bad_weak_ptr vs')
        × ((m : ℕ) → vs'.cell m ≡ vs.cell m)
        × Alone vs'
  unfolding view enter
  refuses {vs} p a =
      let v : View = record { parent_view = some p; child_views = [] } in
      let allocated : Views = record (write vs vs.next_view (some v)) {
        next_view = vs.next_view + 1;
      } in
      let same : (m : ℕ) → (write allocated vs.next_view none).cell m ≡ vs.cell m =
        λ m. unwrite vs (some v) m a in
      (
        write allocated vs.next_view none,
        rw (throws allocated vs.next_view, view, enter) refl,
        same,
        record {
          roots = λ m. subst IsRoot (sym (same m)) (a.roots m);
          fresh = λ m k. same m ∙ a.fresh m (omega arith);
        },
      )

  view-Alone : {vs : Views} (parent : Option ℕ) → Alone vs → Kept (view shared_from_this parent vs)
  unfolding view enter
  view-Alone {vs} none a =
      write-Alone vs.next_view (some (record { parent_view = none; child_views = [] }))
        (more_numbers-Alone a) (omega arith) (refl, refl)
  view-Alone {vs} (some p) a = let (vs', e, same, a') = refuses p a in subst Kept (sym e) a'

  -- A view that exists is destroyed, and lets go of nothing.
  destructs :
      {vs : Views} {v : View} (n : ℕ)
      → Alone vs
      → vs.cell n ≡ some v
      → (vs' : Views) × (destruct shared_from_this n vs ≡ destroyed [] vs')
        × (vs'.cell n ≡ none)
        × ((m : ℕ) → m ≢ n → vs'.cell m ≡ vs.cell m)
        × Alone vs'
  unfolding destruct destruct_view leave
  destructs {vs} {v} n a e =
      let (orphan, childless) = subst IsRoot e (a.roots n) in
      let cleared : Views = write vs n (some (record v { child_views = [] })) in
      let gone : Views = write cleared n none in
      (
        gone,
        ap (λ o. destruct_view shared_from_this n o vs) e
            ∙ ap (λ p. leave shared_from_this n v.child_views p cleared) orphan
            ∙ ap (λ c. destroyed c gone) childless,
        ground arith,
        (λ m k. ground arith),
        write-none-Alone n (
            write-Alone n (some (record v { child_views = [] })) a (ground (arith, a.fresh n))
              (orphan, refl)),
      )

  destruct-Alone : {vs : Views} (n : ℕ) → Alone vs → KeptAfter (destruct shared_from_this n vs)
  unfolding destruct destruct_view
  destruct-Alone {vs} n a = elim (Option-cases (vs.cell n)) [
    | inl e ↦ rw e tt
    | inr (v, e) ↦ (let (vs', d, gone, rest, a') = destructs n a e in subst KeptAfter (sym d) a')
  ]

  Step-Alone : {vs vs' : Views} → Alone vs → Step shared_from_this vs vs' → Alone vs'
  Step-Alone a (makes parent n e) = subst Kept e (view-Alone parent a)
  Step-Alone a (refused parent e) = subst Kept e (view-Alone parent a)
  Step-Alone {vs} a (lets_go n released e) = subst KeptAfter e (destruct-Alone n a)

  Reach-Alone : {vs : Views} → Reach shared_from_this vs → Alone vs
  Reach-Alone begins = record { roots = λ n. tt; fresh = λ n h. refl }
  Reach-Alone (goes_on r s) = Step-Alone (Reach-Alone r) s

  -- If `shared_from_this` throws, as it does for a class that inherits its base privately, then in
  -- every history of views that are made, refused and let go, a view that exists has no parent and
  -- no children, no view can be made under it or any other, which leaves the views as they were,
  -- and letting it go ends, lets go of no child and takes away that view alone.
  pub reached_views_alone :
      {vs : Views} {v : View} (n : ℕ)
      → Reach shared_from_this vs
      → vs.cell n ≡ some v
      → (v.parent_view ≡ none)
        × (v.child_views ≡ [])
        × ((p : ℕ)
            → (vs' : Views) × (view shared_from_this (some p) vs ≡ bad_weak_ptr vs')
              × ((m : ℕ) → vs'.cell m ≡ vs.cell m))
        × ((vs' : Views) × (destruct shared_from_this n vs ≡ destroyed [] vs')
            × (vs'.cell n ≡ none)
            × ((m : ℕ) → m ≢ n → vs'.cell m ≡ vs.cell m))
  reached_views_alone n r e =
      let a = Reach-Alone r in
      let (orphan, childless) = subst IsRoot e (a.roots n) in
      let (vs', d, gone, rest, a') = destructs n a e in
      (
        orphan,
        childless,
        (λ p. (let (after, f, same, kept) = refuses p a in (after, f, same))),
        (vs', d, gone, rest),
      )

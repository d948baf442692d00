-- ===== src/ActiveWindow/Tests.antt =====
-- Runs of SequenceWithActiveWindow.hpp at a window of eight numbers, and instances of its theorems.
use concord_rcanopus.Base.{
  ℕ, ◌+◌, ◌≡◌, refl, true, none, some, [], ◌∷◌, arith, ◌%◌, ◌==◌, if◌then◌else◌,
}
use concord_rcanopus.ActiveWindow.{
  Params, IsLegal, Window, inside, get, update, make, advance, advance_checked, advance_partly,
  reset_all, reset_loop,
}
use concord_rcanopus.ActiveWindow.Inside.{IsAligned}
use concord_rcanopus.ActiveWindow.Advance.{Moved, advance-Moved}
use concord_rcanopus.ActiveWindow.Access.{get-update}

abbrev eight : Params ℕ
eight = record { window_size = 8; resolution = 2; init_item = 7; reset_item = λ x. 0 }

abbrev loaded : Window ℕ
loaded = record { beginning = 4; items = 14 ∷ 16 ∷ 4 ∷ 6 ∷ [] }

eight-IsLegal : IsLegal eight
eight-IsLegal = record {
  size_least = omega arith;
  size_below = omega arith;
  resolution_least = omega arith;
  resolution_below = omega arith;
  divides = refl;
}

loaded-IsAligned : IsAligned eight loaded
loaded-IsAligned = record { on_grid = refl; full = refl }

make_first : make eight 4 ≡ some (record { beginning = 4; items = 0 ∷ 0 ∷ 0 ∷ 0 ∷ [] })
unfolding make
make_first = refl

advance_wraps :
    advance eight loaded 8 ≡ some (record { beginning = 8; items = 14 ∷ 16 ∷ 0 ∷ 0 ∷ [] })
unfolding advance advance_checked advance_partly reset_loop
advance_wraps = refl

advance_far : advance eight loaded 12 ≡ some (record { beginning = 12; items = 0 ∷ 0 ∷ 0 ∷ 0 ∷ [] })
unfolding advance advance_checked reset_all
advance_far = refl

advance_back : advance eight loaded 2 ≡ none
unfolding advance
advance_back = refl

advance-Moved_example :
    (w' : Window ℕ) × (advance eight loaded 8 ≡ some w') × Moved eight loaded 8 w'
advance-Moved_example =
    advance-Moved eight loaded 8 eight-IsLegal loaded-IsAligned refl (omega arith)

get-update_example :
    (w' : Window ℕ) × (update eight loaded 10 (λ x. x + 1) ≡ some w')
    × IsAligned eight w'
    × ((m : ℕ)
        → m % 2 ≡ 0
        → inside eight loaded m ≡ true
        → (x : ℕ) × (get eight loaded m ≡ some x)
          × (get eight w' m ≡ some (if m == 10 then x + 1 else x)))
unfolding inside
get-update_example =
    get-update eight loaded 10 (λ x. x + 1) eight-IsLegal loaded-IsAligned refl refl

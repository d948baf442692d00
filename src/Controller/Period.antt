-- ===== src/Controller/Period.antt =====
-- The evaluation period of the controller as an active window of 64 numbers.
use concord_rcanopus.Base.{
  ℕ, ◌+◌, ◌%◌, ◌≤◌, ◌<◌, ◌≡◌, refl, ◌∙◌, true, some, arith, eq→==, length-map, length-replicate,
  length-modify, map, modify, replicate,
}
use concord_rcanopus.ActiveWindow
use concord_rcanopus.ActiveWindow.Inside.{IsAligned, get-inside}
use concord_rcanopus.ActiveWindow.Access.{held, update-inside}
use concord_rcanopus.Controller.{SeqNoInfo, period, next_first_relevant}

period-IsLegal : ActiveWindow.IsLegal period
period-IsLegal = record {
  size_least = omega arith;
  size_below = omega arith;
  resolution_least = omega arith;
  resolution_below = omega arith;
  divides = refl;
}

on_grid : (n : ℕ) → n % 1 ≡ 0
on_grid n = omega arith

pub reset_all_lem :
    (w : ActiveWindow.Window SeqNoInfo) (first : ℕ)
    → IsAligned period w
    → (w' : ActiveWindow.Window SeqNoInfo) × (ActiveWindow.reset_all period w first ≡ some w')
      × IsAligned period w'
      × (w'.beginning ≡ first)
unfolding ActiveWindow.reset_all
reset_all_lem w first aligned = (
  record { beginning = first; items = map period.reset_item w.items },
  rw (eq→== (first % 1) 0 (on_grid first)) refl,
  record { on_grid = on_grid first; full = length-map period.reset_item w.items ∙ aligned.full },
  refl,
)

pub make_lem :
    (first : ℕ)
    → (w : ActiveWindow.Window SeqNoInfo) × (ActiveWindow.make period first ≡ some w)
      × IsAligned period w
      × (w.beginning ≡ first)
unfolding ActiveWindow.make
make_lem first = (
  record { beginning = first; items = replicate 64 period.init_item },
  rw (eq→== (first % 1) 0 (on_grid first)) refl,
  record { on_grid = on_grid first; full = length-replicate 64 period.init_item },
  refl,
)

pub get_lem :
    (w : ActiveWindow.Window SeqNoInfo) (n : ℕ)
    → IsAligned period w
    → ActiveWindow.inside period w n ≡ true
    → (info : SeqNoInfo) × (ActiveWindow.get period w n ≡ some info)
get_lem w n aligned h =
    let (info, e) = held period w n period-IsLegal aligned in
    (info, get-inside period w n (on_grid n) h ∙ e)

pub update_lem :
    (w : ActiveWindow.Window SeqNoInfo) (n : ℕ) (change : SeqNoInfo → SeqNoInfo)
    → IsAligned period w
    → ActiveWindow.inside period w n ≡ true
    → (w' : ActiveWindow.Window SeqNoInfo) × (ActiveWindow.update period w n change ≡ some w')
      × IsAligned period w'
      × (w'.beginning ≡ w.beginning)
update_lem w n change aligned h = (
  record w { items = modify w.items (ActiveWindow.slot period n) change },
  update-inside period w n change (on_grid n) h,
  record {
    on_grid = aligned.on_grid;
    full = length-modify w.items (ActiveWindow.slot period n) change ∙ aligned.full;
  },
  refl,
)

-- The period that a primary starts with: the first number after `s` that is 1 modulo 64.
pub next_first_relevant_lem :
    (s : ℕ)
    → (next_first_relevant s % 64 ≡ 1)
      × (s < next_first_relevant s)
      × (next_first_relevant s ≤ s + 64)
unfolding next_first_relevant
next_first_relevant_lem s = ground arith

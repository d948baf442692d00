-- ===== src/ViewChange/Restrictions/Stable.antt =====
-- `calcLBStableForView`: the lower bound on the last stable sequence number of a view.
use concord_rcanopus.Base.{
  ℕ, ◌+◌, ◌-◌, ◌*◌, ◌≤◌, ◌≡◌, refl, sym, ◌∙◌, Bool, Option, none, some, List, [], ◌∷◌, arith, ltb,
  leb, length, get_elem?_lt, le→leb, eq→==,
}
use concord_rcanopus.ViewChange.{ViewChangeMsg, Params}
use concord_rcanopus.ViewChange.Restrictions.{collect_stable, sort_desc, calc_lb_stable_for_view}
use concord_rcanopus.ViewChange.Restrictions.Sorting.{
  count_by, count_by-sort_desc, length-sort_desc, sort_desc-IsDescending, IsDescending-get,
  IsDescending-first,
}

-- The stable numbers that the messages report.
abbrev pub stables : List (Option ViewChangeMsg) → List ℕ
stables [] = []
stables (none ∷ rest) = stables rest
stables (some vc ∷ rest) = vc.last_stable ∷ stables rest

-- All messages refer to one view.
abbrev pub SameView : ℕ → List (Option ViewChangeMsg) → Type 0
SameView v [] = Unit
SameView v (none ∷ rest) = SameView v rest
SameView v (some vc ∷ rest) = (vc.new_view ≡ v) × SameView v rest

-- The view seen so far, if any.
abbrev Agrees : Option ℕ → ℕ → Type 0
Agrees none v = Unit
Agrees (some u) v = u ≡ v

-- What the loop leaves: the reported numbers, in some order.
abbrev Collected : List ℕ → List ℕ → List ℕ → Type 0
Collected reported found found' =
    (length found' ≡ length reported + length found)
    × ((p : ℕ → Bool) → count_by p found' ≡ count_by p reported + count_by p found)

collect_stable-Collected :
    (v limit : ℕ) (view : Option ℕ) (msgs : List (Option ViewChangeMsg)) (found : List ℕ)
    → SameView v msgs
    → Agrees view v
    → length (stables msgs) + length found ≤ limit
    → (found' : List ℕ) × (collect_stable view limit msgs found ≡ some found')
      × Collected (stables msgs) found found'
unfolding collect_stable
collect_stable-Collected v limit view [] found same seen room =
    (found, refl, (omega arith, λ q. omega arith))
collect_stable-Collected v limit view (none ∷ rest) found same seen room =
    collect_stable-Collected v limit view rest found same seen room
collect_stable-Collected v limit none (some vc ∷ rest) found same seen room =
    let (found', runs, (len, counts)) =
      collect_stable-Collected v limit (some vc.new_view) rest (vc.last_stable ∷ found) same.1
        same.0 (omega arith) in
    (
      found',
      rw (le→leb (length found + 1) limit (omega arith)) runs,
      (omega (arith, len), λ q. omega (arith, counts q)),
    )
collect_stable-Collected v limit (some u) (some vc ∷ rest) found same seen room =
    let (found', runs, (len, counts)) =
      collect_stable-Collected v limit (some u) rest (vc.last_stable ∷ found) same.1 seen
        (omega arith) in
    (
      found',
      rw (eq→== u vc.new_view (seen ∙ sym same.0), le→leb (length found + 1) limit (omega arith))
          runs,
      (omega (arith, len), λ q. omega (arith, counts q)),
    )

-- When `2F + 2C + 1` messages of one view are given, the computation meets no failed assertion; at
-- least F + 1 of the messages report a stable number of at least the result, and at most F a higher
-- one: so a correct replica stands behind the bound, and no F faulty ones can push it higher.
pub calc_lb_stable_for_view-quorum :
    (p : Params) (v : ℕ) (msgs : List (Option ViewChangeMsg))
    → SameView v msgs
    → length (stables msgs) ≡ 2 * p.f + 2 * p.c + 1
    → (lb : ℕ) × (calc_lb_stable_for_view p msgs ≡ some lb)
      × (p.f + 1 ≤ count_by (leb lb) (stables msgs))
      × (count_by (ltb lb) (stables msgs) ≤ p.f)
unfolding calc_lb_stable_for_view
calc_lb_stable_for_view-quorum p v msgs same all =
    let (found, runs, (len, counts)) =
      collect_stable-Collected v (2 * p.f + 2 * p.c + 1) none msgs [] same tt (omega arith) in
    let sorted : List ℕ = sort_desc found in
    let size : length sorted ≡ 2 * p.f + 2 * p.c + 1 = omega (arith, length-sort_desc found, len) in
    let (first, e0) = get_elem?_lt sorted 0 (omega (arith, size)) in
    let (last, e1) = get_elem?_lt sorted (2 * p.f + 2 * p.c + 1 - 1) (omega (arith, size)) in
    let (lb, e2) = get_elem?_lt sorted (p.f + 1 - 1) (omega (arith, size)) in
    let down = sort_desc-IsDescending found in
    let (reach, exceed) = IsDescending-get (p.f + 1 - 1) lb sorted down e2 in
    (
      lb,
      rw
          (
            runs,
            eq→== (length found) (2 * p.f + 2 * p.c + 1) (omega (arith, len)),
            e0,
            e1,
            le→leb last first
                (IsDescending-first (2 * p.f + 2 * p.c + 1 - 1) first last sorted down e0 e1),
          )
          e2,
      omega (arith, reach, count_by-sort_desc (leb lb) found, counts (leb lb)),
      omega (arith, exceed, count_by-sort_desc (ltb lb) found, counts (ltb lb)),
    )

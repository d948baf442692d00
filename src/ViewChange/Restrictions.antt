-- ===== src/ViewChange/Restrictions.antt =====
-- ViewChangeSafetyLogic.cpp: the selection of a digest for one sequence number, the restrictions of a
-- whole window, and the lower bound of the last stable checkpoint.
pub mod Sorting
pub mod Stable
pub mod Order
pub mod Select
pub mod Safety
pub mod Window
mod Tests
use concord_rcanopus.Base.{
  ℕ, zero, suc, ◌+◌, ◌-◌, ◌*◌, Bool, true, false, not, ◌&&◌, Option, none, some, List, [], ◌∷◌, ltb,
  leb, ◌==◌, if◌then◌else◌, length, get_elem?, ◌>>=◌, ◌>>◌, assert,
}
use concord_rcanopus.ViewChange.{
  ViewChangeMsg, Iterator, go_to_at_least, Params, SlowElem, collect_slow,
  check_slow_path_certificates, collect_fast, advance_iterators,
}

-- SysConsts.hpp.
abbrev pub work_window_size : ℕ
work_window_size = 300

abbrev pub checkpoint_window_size : ℕ
checkpoint_window_size = 150

-- The constructor's assertion.
abbrev pub is_configured : Params → Bool
is_configured p = p.n == 3 * p.f + 2 * p.c + 1

pub record Restriction : Type 0 where
  pub is_null : Bool
  pub digest : ℕ

abbrev pub min_relevant_fast_view : Option SlowElem → ℕ
min_relevant_fast_view none = 0
min_relevant_fast_view (some e) = e.cert.certificate_view + 1

-- Whether there is a restriction, and its digest (zero if there is none).
abbrev pub selected : Option ℕ → Option SlowElem → Bool × ℕ
selected (some d) slow = (true, d)
selected none (some e) = (true, e.element.pre_prepare_digest)
selected none none = (false, 0)

abbrev pub set_null : Restriction → Restriction
set_null r = record r { is_null = true }

abbrev pub keep_iterator : Iterator → List Iterator → List Iterator
keep_iterator [] iters = iters
keep_iterator (e ∷ rest) iters = (e ∷ rest) ∷ iters

-- "create iterators, and add to vector".
unfoldable pub make_iterators : ℕ → List (Option ViewChangeMsg) → List Iterator
make_iterators lower_bound [] = []
make_iterators lower_bound (none ∷ rest) = make_iterators lower_bound rest
make_iterators lower_bound (some vc ∷ rest) =
    keep_iterator (go_to_at_least lower_bound vc.elements) (make_iterators lower_bound rest)

abbrev pub is_empty : List Iterator → Bool
is_empty [] = true
is_empty (i ∷ rest) = false

-- `combine` is `Digest::calcCombination` and `verify` the threshold verifier of prepared certificates:
-- a digest and a signature.
module _ (combine : ℕ → ℕ → ℕ → ℕ) (verify : ℕ → List ℕ → Bool) where
  abbrev pub is_certified : SlowElem → Bool
  is_certified e =
      verify (combine e.element.pre_prepare_digest e.cert.certificate_view e.element.seq_num)
        e.cert.certificate_sig

  -- "Select prepared certificate": the first valid one, in the set's order.
  unfoldable pub select_slow : ℕ → List SlowElem → Option (Option SlowElem)
  select_slow s [] = some none
  select_slow s (e ∷ rest) =
      let later = select_slow s rest in
      do
        assert (s == e.element.seq_num)
        assert (ltb 0 (length e.cert.certificate_sig))
        (if is_certified e then some (some e) else later)

  unfoldable pub compute_restrictions_for_seq_num :
      Params → ℕ → List Iterator → ℕ → Option ((Bool × ℕ) × List Iterator)
  compute_restrictions_for_seq_num p s iters upper_bound = do
    assert (ltb 0 (length iters))
    assert (leb s upper_bound)
    found ← collect_slow s iters []
    ordered ← check_slow_path_certificates found
    assert ordered
    slow ← select_slow s found
    fast ← collect_fast s (min_relevant_fast_view slow) (p.f + p.c + 1) iters []
    iters' ← advance_iterators (suc (length iters)) s upper_bound 0 iters
    some (selected fast slow, iters')

  -- The loops over the `n` sequence numbers that are left, from one on: the entries of the array from
  -- there on, the last restricted number so far, and the iterators. A write past the array's end is a
  -- fault; entries past the last number stay.
  unfoldable pub restrict_window :
      Params → ℕ → ℕ → ℕ → List Iterator → ℕ → List Restriction → Option (List Restriction × ℕ)
  restrict_window p zero curr upper_bound iters last array = some (array, last)
  restrict_window p (suc n) curr upper_bound iters last [] = none
  restrict_window p (suc n) curr upper_bound [] last (r ∷ rest) = do
    (rest', last') ← restrict_window p n (curr + 1) upper_bound [] last rest
    some (set_null r ∷ rest', last')
  restrict_window p (suc n) curr upper_bound (i ∷ iters) last (r ∷ rest) = do
    ((has_rest, digest), iters') ← compute_restrictions_for_seq_num p curr (i ∷ iters) upper_bound
    let restricted = has_rest && not (digest == p.null_digest)
    (rest', last') ←
        restrict_window p n (curr + 1) upper_bound iters' (if restricted then curr else last) rest
    some (record { is_null = not restricted; digest = digest } ∷ rest', last')

  -- The smallest and the largest restricted number, and the array; 0 and 0 when no message has an
  -- element in the window.
  unfoldable pub compute_restrictions :
      Params
      → List (Option ViewChangeMsg)
      → ℕ
      → List Restriction
      → Option (ℕ × ℕ × List Restriction)
  compute_restrictions p msgs lb_stable array = do
    let lower_bound = lb_stable + 1
    let upper_bound = lb_stable + work_window_size
    let iters = make_iterators lower_bound msgs
    (array', last) ← restrict_window p work_window_size lower_bound upper_bound iters 0 array
    let patched = ltb 0 last && leb last (upper_bound - checkpoint_window_size)
    let max = if patched then upper_bound - checkpoint_window_size else upper_bound
    (if is_empty iters then some (0, 0, array') else some (lower_bound, max, array'))

-- The loop of `calcLBStableForView`: the view of the first message, and the stable numbers read.
unfoldable pub collect_stable :
    Option ℕ → ℕ → List (Option ViewChangeMsg) → List ℕ → Option (List ℕ)
collect_stable view limit [] found = some found
collect_stable view limit (none ∷ rest) found = collect_stable view limit rest found
collect_stable none limit (some vc ∷ rest) found = do
  assert (leb (length found + 1) limit)
  collect_stable (some vc.new_view) limit rest (vc.last_stable ∷ found)
collect_stable (some v) limit (some vc ∷ rest) found = do
  assert (v == vc.new_view)
  assert (leb (length found + 1) limit)
  collect_stable (some v) limit rest (vc.last_stable ∷ found)

-- `qsort` by `compareSeqNumbers`: highest first.
unfoldable pub insert_desc : ℕ → List ℕ → List ℕ
insert_desc x [] = x ∷ []
insert_desc x (y ∷ rest) =
    let later = y ∷ insert_desc x rest in if leb y x then x ∷ y ∷ rest else later

unfoldable pub sort_desc : List ℕ → List ℕ
sort_desc [] = []
sort_desc (x ∷ rest) = insert_desc x (sort_desc rest)

unfoldable pub calc_lb_stable_for_view : Params → List (Option ViewChangeMsg) → Option ℕ
calc_lb_stable_for_view p msgs = do
  let inc_in_vc = 2 * p.f + 2 * p.c + 1
  found ← collect_stable none inc_in_vc msgs []
  assert (length found == inc_in_vc)
  let sorted = sort_desc found
  first ← get_elem? sorted 0
  last ← get_elem? sorted (inc_in_vc - 1)
  assert (leb last first)
  get_elem? sorted (p.f + 1 - 1)

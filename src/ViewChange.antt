-- ===== src/ViewChange.antt =====
-- The elements of ViewChangeMsg.hpp and the iterator of ViewChangeMsg.cpp over them, and
-- ViewChangeSafetyLogic.cpp: what a new view must respect of what may have been committed before.
-- A digest is the number that its bytes spell, first byte highest, so `memcmp` is the order of ℕ.
pub mod Restrictions
pub mod Fast
pub mod Advance
use concord_rcanopus.Base.{
  ℕ, zero, suc, ◌+◌, ◌*◌, ◌≡◌, Bool, true, false, not, ◌&&◌, ◌||◌, Option, none, some, List, [],
  ◌∷◌, ltb, leb, ◌==◌, if◌then◌else◌, length, get_elem?, set, ◌>>=◌, ◌>>◌, assert,
}

-- `PreparedCertificate`, with the signature that follows it.
pub record PreparedCertificate : Type 0 where
  pub certificate_view : ℕ
  pub certificate_sig : List ℕ

-- `certificate` is present when `hasPreparedCertificate` is set.
pub record Element : Type 0 where
  pub seq_num : ℕ
  pub pre_prepare_digest : ℕ
  pub origin_view : ℕ
  pub certificate : Option PreparedCertificate

pub record ViewChangeMsg : Type 0 where
  pub new_view : ℕ
  pub last_stable : ℕ
  pub elements : List Element

-- `ElementsIterator`: the elements from the current one on.
abbrev pub Iterator : Type 0
Iterator = List Element

abbrev pub get_current : Iterator → Option Element
get_current [] = none
get_current (e ∷ rest) = some e

abbrev pub goto_next : Iterator → Iterator
goto_next [] = []
goto_next (e ∷ rest) = rest

unfoldable pub go_to_at_least : ℕ → Iterator → Iterator
go_to_at_least lower_bound [] = []
go_to_at_least lower_bound (e ∷ rest) =
    let later = go_to_at_least lower_bound rest in
    if ltb e.seq_num lower_bound then later else e ∷ rest

-- `N`, `F`, `C` and the digest of a null request.
pub record Params : Type 0 where
  pub n : ℕ
  pub f : ℕ
  pub c : ℕ
  pub null_digest : ℕ

-- `SlowElem`: an element with its certificate.
pub record SlowElem : Type 0 where
  pub element : Element
  pub cert : PreparedCertificate

-- `SlowElemCompare`: the higher view first, then the smaller digest.
unfoldable pub slow_before : SlowElem → SlowElem → Bool
slow_before a b =
    if a.cert.certificate_view == b.cert.certificate_view
    then ltb a.element.pre_prepare_digest b.element.pre_prepare_digest
    else ltb b.cert.certificate_view a.cert.certificate_view

-- `std::set::insert`: an element that compares equal to one in the set is dropped.
unfoldable pub slow_insert : SlowElem → List SlowElem → List SlowElem
slow_insert a [] = a ∷ []
slow_insert a (b ∷ rest) =
    let later = b ∷ slow_insert a rest in
    if slow_before a b then a ∷ b ∷ rest else if slow_before b a then later else b ∷ rest

-- The current element of an iterator, with `Assert(validElem && elem->seqNum >= s)`.
abbrev pub current_from : ℕ → Iterator → Option Element
current_from s iter = do e ← get_current iter; assert (leb s e.seq_num); some e

abbrev pub slow_of : ℕ → Element → Option SlowElem
slow_of s e =
    if e.seq_num == s
    then elim e.certificate [ none ↦ none | some c ↦ some (record { element = e; cert = c }) ]
    else none

abbrev pub insert? : Option SlowElem → List SlowElem → List SlowElem
insert? none set = set
insert? (some a) set = slow_insert a set

-- "collect slow certificates".
unfoldable pub collect_slow : ℕ → List Iterator → List SlowElem → Option (List SlowElem)
collect_slow s [] found = some found
collect_slow s (iter ∷ rest) found = do
  e ← current_from s iter
  collect_slow s rest (insert? (slow_of s e) found)

-- `checkSlowPathCertificates`, from the second element on; the result is `none` when its own
-- assertion fails.
unfoldable pub check_slow : SlowElem → List SlowElem → Option Bool
check_slow last [] = some true
check_slow last (e ∷ rest) =
    let later = check_slow e rest in
    if ltb last.cert.certificate_view e.cert.certificate_view
    then some false
    else if e.cert.certificate_view == last.cert.certificate_view
    then (assert (e.element.seq_num == last.element.seq_num) >> later)
    else later

abbrev pub check_slow_path_certificates : List SlowElem → Option Bool
check_slow_path_certificates [] = some true
check_slow_path_certificates (e ∷ rest) = check_slow e rest

abbrev pub Counters : Type 0
Counters = List (ℕ × ℕ)

-- The counter of a digest, 0 if it has none yet.
abbrev pub counter_of : ℕ → Counters → ℕ
counter_of d [] = 0
counter_of d ((d', k) ∷ rest) = if d' == d then k else counter_of d rest

-- One more vote for a digest; a digest that has no counter gets one.
abbrev pub count_vote : ℕ → Counters → Counters
count_vote d [] = (d, 1) ∷ []
count_vote d ((d', k) ∷ rest) = if d' == d then (d', k + 1) ∷ rest else (d', k) ∷ count_vote d rest

abbrev pub has_counter : ℕ → Counters → Bool
has_counter d [] = false
has_counter d ((d', k) ∷ rest) = if d' == d then true else has_counter d rest

-- "Collect vote of each replicas": the digest that gets `needed` votes first. A first vote is not
-- compared with `needed`.
unfoldable pub collect_fast : ℕ → ℕ → ℕ → List Iterator → Counters → Option (Option ℕ)
collect_fast s min_view needed [] counters = some none
collect_fast s min_view needed (iter ∷ rest) counters = do
  e ← current_from s iter
  let relevant = e.seq_num == s && leb min_view e.origin_view
  let chosen =
      relevant
      && has_counter e.pre_prepare_digest counters
      && counter_of e.pre_prepare_digest counters + 1 == needed
  let later =
      collect_fast s min_view needed rest
        (if relevant then count_vote e.pre_prepare_digest counters else counters)
  (if chosen then some (some e.pre_prepare_digest) else later)

abbrev pub last_of : List Iterator → Iterator → Iterator
last_of [] iter = iter
last_of (i ∷ rest) iter = last_of rest i

-- `pop_back`.
abbrev pub pop_back : List Iterator → List Iterator
pop_back [] = []
pop_back (i ∷ []) = []
pop_back (i ∷ j ∷ rest) = i ∷ pop_back (j ∷ rest)

-- The entry at an index is overwritten by the last one, and the last one is dropped.
abbrev pub swap_remove : List Iterator → ℕ → List Iterator
swap_remove iters idx = pop_back (set iters idx (last_of iters []))

-- Whether an iterator that has just moved is still needed.
abbrev pub is_needed : ℕ → Iterator → Bool
is_needed upper_bound [] = false
is_needed upper_bound (e ∷ rest) = leb e.seq_num upper_bound

-- The body of the loop "Advance iterators + delete irrelevant iterators": the next index and the
-- iterators that are left.
unfoldable pub advance_at : ℕ → ℕ → ℕ → List Iterator → Option (ℕ × List Iterator)
advance_at s upper_bound idx iters = do
  iter ← get_elem? iters idx
  e ← get_current iter
  (if ltb s e.seq_num then some (idx + 1, iters) else (do
    assert (e.seq_num == s)
    let moved = set iters idx (goto_next iter)
    (if is_needed upper_bound (goto_next iter)
        then some (idx + 1, moved)
        else some (idx, swap_remove moved idx))))

-- The loop, from an index on; `none` also when the fuel runs out.
unfoldable pub advance_iterators : ℕ → ℕ → ℕ → ℕ → List Iterator → Option (List Iterator)
advance_iterators zero s upper_bound idx iters = none
advance_iterators (suc fuel) s upper_bound idx iters = elim (ltb idx (length iters)) [
  | false ↦ some iters
  | true ↦ (do
    (idx', iters') ← advance_at s upper_bound idx iters
    advance_iterators fuel s upper_bound idx' iters')
]

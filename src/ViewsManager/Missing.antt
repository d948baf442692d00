-- ===== src/ViewsManager/Missing.antt =====
-- ViewsManager.cpp: the messages of the restricted numbers, what is missing and what arrives.
use concord_rcanopus.Base.{
  ℕ, zero, suc, ◌+◌, ◌-◌, Bool, true, false, not, ◌&&◌, ◌||◌, Option, none, some, List, [], ◌∷◌,
  ltb, leb, ◌==◌, if◌then◌else◌, length, get_elem?, set, drop, ◌>>=◌, ◌>>◌, assert,
}
use concord_rcanopus.ViewChange.Restrictions.{Restriction, work_window_size}
use concord_rcanopus.ViewsManager.{
  PrePrepareMsg, ViewsManager, is_some, is_in_view, is_with_restrictions, find_pre_prepare,
}
use concord_rcanopus.ViewsManager.Pending.{max}

-- The message of the last view that meets the restriction of its number.
abbrev pub matching : Restriction → Option PrePrepareMsg → Option PrePrepareMsg
matching r none = none
matching r (some pp) = if pp.digest_of_requests == r.digest then some pp else none

unfoldable pub fitting : ℕ → Restriction → List (ℕ × PrePrepareMsg) → Option PrePrepareMsg
fitting i r coll = if r.is_null then none else matching r (find_pre_prepare i coll)

-- The pre-prepare messages of the last view that meet the restrictions, from the number `i` on.
unfoldable pub fill_range :
    ℕ
    → ℕ
    → List Restriction
    → List (Option PrePrepareMsg)
    → List (ℕ × PrePrepareMsg)
    → Option (List (Option PrePrepareMsg))
fill_range i zero rs pps coll = some pps
fill_range i (suc n) [] pps coll = none
fill_range i (suc n) (r ∷ rs) [] coll = none
fill_range i (suc n) (r ∷ rs) (pp ∷ pps) coll = do
  assert (not (is_some pp))
  later ← fill_range (i + 1) n rs pps coll
  some (fitting i r coll ∷ later)

-- Whether a number is restricted and its message is missing.
abbrev pub is_missing : Restriction → Option PrePrepareMsg → Bool
is_missing r pp = not r.is_null && not (is_some pp)

unfoldable pub missing_in : ℕ → List Restriction → List (Option PrePrepareMsg) → Option Bool
missing_in zero rs pps = some false
missing_in (suc n) [] pps = none
missing_in (suc n) (r ∷ rs) [] = none
missing_in (suc n) (r ∷ rs) (pp ∷ pps) =
    let later = missing_in n rs pps in if is_missing r pp then some true else later

unfoldable pub missing_numbers_in :
    ℕ → ℕ → List Restriction → List (Option PrePrepareMsg) → Option (List ℕ)
missing_numbers_in i zero rs pps = some []
missing_numbers_in i (suc n) [] pps = none
missing_numbers_in i (suc n) (r ∷ rs) [] = none
missing_numbers_in i (suc n) (r ∷ rs) (pp ∷ pps) = do
  later ← missing_numbers_in (i + 1) n rs pps
  some (if is_missing r pp then i ∷ later else later)

-- The first number that matters, and the arrays from it on.
abbrev pub first_relevant : ViewsManager → ℕ → ℕ
first_relevant k stable = max k.min_restriction (stable + 1)

unfoldable pub has_missing_msgs : ℕ → ViewsManager → Option Bool
has_missing_msgs stable k = do
  assert (is_with_restrictions k.stat)
  (if k.min_restriction == 0
      then some false
      else missing_in (k.max_restriction + 1 - first_relevant k stable)
          (drop (first_relevant k stable - k.min_restriction) k.restrictions)
          (drop (first_relevant k stable - k.min_restriction) k.pre_prepare_msgs_of_restrictions))

-- The result, and the numbers.
unfoldable pub get_numbers_of_missing_pp : ℕ → ViewsManager → Option (Bool × List ℕ)
get_numbers_of_missing_pp stable k =
    if not (is_with_restrictions k.stat)
    then some (false, [])
    else if k.min_restriction == 0
    then some (false, [])
    else (do
      numbers ←
          missing_numbers_in (first_relevant k stable)
            (k.max_restriction + 1 - first_relevant k stable)
            (drop (first_relevant k stable - k.min_restriction) k.restrictions)
            (drop (first_relevant k stable - k.min_restriction) k.pre_prepare_msgs_of_restrictions)
      some (ltb 0 (length numbers), numbers))

abbrev pub is_restricted : ℕ → ViewsManager → Bool
is_restricted s k =
    not (k.min_restriction == 0) && leb k.min_restriction s && leb s k.max_restriction

abbrev pub is_needed : Restriction → Option PrePrepareMsg → PrePrepareMsg → Bool
is_needed r pp p = not (is_some pp) && not r.is_null && r.digest == p.digest_of_requests

unfoldable pub with_message : ℕ → PrePrepareMsg → ViewsManager → ViewsManager
with_message idx p k = record k {
  pre_prepare_msgs_of_restrictions = set k.pre_prepare_msgs_of_restrictions idx (some p);
}

-- The result says whether the message was kept.
unfoldable pub add_potentially_missing_pp :
    PrePrepareMsg → ViewsManager → Option (Bool × ViewsManager)
add_potentially_missing_pp p k = do
  assert (is_with_restrictions k.stat)
  assert (not p.is_null)
  let idx = p.seq_number - k.min_restriction
  (if is_restricted p.seq_number k
      then (do
        assert (ltb idx work_window_size)
        r ← get_elem? k.restrictions idx
        pp ← get_elem? k.pre_prepare_msgs_of_restrictions idx
        some (if is_needed r pp p then (true, with_message idx p k) else (false, k)))
      else some (false, k))

-- The assertion on a message that is found.
abbrev is_of_number : ℕ → Option PrePrepareMsg → Bool
is_of_number s none = true
is_of_number s (some p) = p.seq_number == s && not p.is_null

unfoldable pub get_pre_prepare : ℕ → ViewsManager → Option (Option PrePrepareMsg)
get_pre_prepare s k = do
  assert (not (is_in_view k.stat))
  (if is_with_restrictions k.stat
      then (if not (is_restricted s k) then some none else (do
        assert (ltb (s - k.min_restriction) work_window_size)
        r ← get_elem? k.restrictions (s - k.min_restriction)
        pp ← get_elem? k.pre_prepare_msgs_of_restrictions (s - k.min_restriction)
        assert (r.is_null || is_of_number s pp)
        some (if r.is_null then none else pp)))
      else (do
        assert (is_of_number s (find_pre_prepare s k.collection_of_pre_prepare_msgs))
        some (find_pre_prepare s k.collection_of_pre_prepare_msgs)))

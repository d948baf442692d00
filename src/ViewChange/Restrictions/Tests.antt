-- ===== src/ViewChange/Restrictions/Tests.antt =====
-- Runs of ViewChangeSafetyLogic.cpp, and instances of the theorems on it.
use concord_rcanopus.Base.{
  ℕ, ◌+◌, ◌≤◌, ◌<◌, ◌≡◌, refl, Bool, true, false, Option, none, some, List, [], ◌∷◌, arith, ltb,
  leb, ◌==◌, length, replicate,
}
use concord_rcanopus.ViewChange.{
  PreparedCertificate, Element, Iterator, Params, SlowElem, ViewChangeMsg, slow_insert, slow_before,
  collect_slow, check_slow, collect_fast, advance_at, advance_iterators,
}
use concord_rcanopus.ViewChange.Fast.{votes, collect_fast-votes}
use concord_rcanopus.ViewChange.Advance.{AllLive, advance_iterators-AllLive}
use concord_rcanopus.ViewChange.Restrictions.{
  Restriction, make_iterators, select_slow, selected, compute_restrictions_for_seq_num,
  compute_restrictions, calc_lb_stable_for_view, collect_stable, sort_desc, insert_desc,
}
use concord_rcanopus.ViewChange.Restrictions.Sorting.{count_by}
use concord_rcanopus.ViewChange.Restrictions.Stable.{stables, calc_lb_stable_for_view-quorum}
use concord_rcanopus.ViewChange.Restrictions.Safety.{
  IsJustified, compute_restrictions_for_seq_num-IsJustified, invalid_hides_valid,
}
use concord_rcanopus.ViewChange.Restrictions.Window.{
  Follows, IsRange, Within, compute_restrictions-Within,
}

-- Five replicas, of which one may be faulty and one slow: three fast votes are needed.
abbrev params : Params
params = record { n = 6; f = 1; c = 1; null_digest = 99 }

-- A stand-in for the hash, and a verifier that accepts the signature 1.
abbrev combine : ℕ → ℕ → ℕ → ℕ
combine d v s = d + v + s

abbrev verify : ℕ → List ℕ → Bool
verify d [] = false
verify d (x ∷ rest) = x == 1

abbrev forged : PreparedCertificate
forged = record { certificate_view = 2; certificate_sig = 0 ∷ [] }

abbrev genuine : PreparedCertificate
genuine = record { certificate_view = 2; certificate_sig = 1 ∷ [] }

abbrev element : ℕ → Option PreparedCertificate → Element
element s cert = record { seq_num = s; pre_prepare_digest = 7; origin_view = 3; certificate = cert }

abbrev hidden : List Iterator
hidden = (element 11 (some forged) ∷ []) ∷ (element 11 (some genuine) ∷ element 12 none ∷ []) ∷ []

hidden-AllLive : AllLive 11 hidden
hidden-AllLive = omega arith

-- The genuine certificate alone restricts the sequence number to its digest.
genuine_restricts :
    compute_restrictions_for_seq_num combine verify params 11
      ((element 11 (some genuine) ∷ []) ∷ [])
      310
    ≡ some ((true, 7), [])
unfolding compute_restrictions_for_seq_num collect_slow slow_insert slow_before check_slow
    select_slow collect_fast advance_iterators advance_at
genuine_restricts = refl

three_votes :
    collect_fast 11 0 3
      ((element 11 none ∷ []) ∷ (element 11 none ∷ []) ∷ (element 11 none ∷ []) ∷ [])
      []
    ≡ some (some 7)
unfolding collect_fast
three_votes = refl

abbrev view_change : ℕ → List Element → Option ViewChangeMsg
view_change stable elements =
    some (record { new_view = 4; last_stable = stable; elements = elements })

abbrev messages : List (Option ViewChangeMsg)
messages =
    view_change 0 (element 11 (some genuine) ∷ [])
    ∷ none
    ∷ view_change 150 []
    ∷ view_change 0 []
    ∷ view_change 300 []
    ∷ view_change 0 []
    ∷ []

lb_stable : calc_lb_stable_for_view params messages ≡ some 150
unfolding calc_lb_stable_for_view collect_stable sort_desc insert_desc
lb_stable = refl

calc_lb_stable_for_view-quorum_example :
    (lb : ℕ) × (calc_lb_stable_for_view params messages ≡ some lb)
    × (2 ≤ count_by (leb lb) (stables messages))
    × (count_by (ltb lb) (stables messages) ≤ 1)
calc_lb_stable_for_view-quorum_example =
    calc_lb_stable_for_view-quorum params 4 messages (omega arith) refl

collect_fast-votes_example :
    (r : Option ℕ) × (collect_fast 11 0 3 hidden [] ≡ some r)
    × ((d : ℕ) → r ≡ some d → 3 ≤ votes 11 0 d hidden)
    × (r ≡ none → (d : ℕ) → votes 11 0 d hidden < 3)
collect_fast-votes_example = collect_fast-votes 11 0 3 hidden (omega arith) (omega arith)

advance_iterators-AllLive_example :
    (iters' : List Iterator) × (advance_iterators 3 11 310 0 hidden ≡ some iters')
    × AllLive 12 iters'
advance_iterators-AllLive_example = advance_iterators-AllLive 11 310 hidden hidden-AllLive

compute_restrictions_for_seq_num-IsJustified_example :
    (slow : Option SlowElem) × (fast : Option ℕ) × (iters' : List Iterator)
    × (compute_restrictions_for_seq_num combine verify params 11 hidden 310
        ≡ some (selected fast slow, iters'))
    × IsJustified combine verify params 11 hidden slow fast
    × AllLive 12 iters'
compute_restrictions_for_seq_num-IsJustified_example =
    compute_restrictions_for_seq_num-IsJustified combine verify params 11 310 hidden (omega arith)
      (omega arith) (omega arith) hidden-AllLive

invalid_hides_valid_example :
    (iters' : List Iterator) × (compute_restrictions_for_seq_num combine verify params 11 hidden 310
      ≡ some ((false, 0), iters'))
invalid_hides_valid_example =
    invalid_hides_valid combine verify params 11 310 (element 11 (some forged))
      (element 11 (some genuine)) [] (element 12 none ∷ []) forged genuine (omega arith)
      (omega arith) hidden-AllLive refl refl refl refl refl refl refl refl

abbrev blank : List Restriction
blank = replicate 300 (record { is_null = true; digest = 0 })

compute_restrictions-Within_example :
    (lo hi : ℕ) × (array' : List Restriction) × (compute_restrictions combine verify params messages
        10 blank
      ≡ some (lo, hi, array'))
    × (length array' ≡ 300)
    × Follows combine verify params 310 11 array' (make_iterators 11 messages)
    × IsRange 10 lo hi
    × Within 99 11 hi array'
compute_restrictions-Within_example =
    compute_restrictions-Within combine verify params (omega arith) 10 0 messages blank
      (omega arith) refl

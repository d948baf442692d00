-- ===== src/ViewsManager/Tests.antt =====
-- A run of replica 1 of four, the primary of view 1: it leaves view 0, in which it had a request of
-- number 1, and enters view 1 with that request and null requests.
use concord_rcanopus.Base.{
  ℕ, ◌+◌, ◌≡◌, refl, ap, Bool, true, false, Option, none, some, List, [], ◌∷◌, length, replicate,
  take, ltb, ◌>>=◌, bind_inv, some_inj,
}
use mathlib.Core.Path.{subst}
use concord_rcanopus.Replicas.{ReplicasInfo, primary_of_view}
use concord_rcanopus.ViewChange.{
  go_to_at_least, slow_before, slow_insert, collect_slow, check_slow, collect_fast, advance_at,
  advance_iterators,
}
use concord_rcanopus.ViewChange.Restrictions.{
  work_window_size, make_iterators, collect_stable, insert_desc, sort_desc, calc_lb_stable_for_view,
  select_slow, compute_restrictions_for_seq_num, restrict_window, compute_restrictions,
}
use concord_rcanopus.ViewsManager.{
  compute_correct_relevant_view_numbers, get_my_latest_view_change_msg, relevant_views,
  SignedViewChange, PrePrepareMsg, PrevViewInfo, in_view, pending_with_restrictions, ViewsManager,
  Digests, make, includes_view_change, find_pre_prepare, put_pre_prepare, add_view_change, ignores,
  view_numbers,
}
use concord_rcanopus.ViewsManager.Pending.{
  clear_range, reset_data_of_latest_pending, mark_as_primary, count_marks, move_marked, elements_of,
  try_move_to_pending_view_as_primary,
}
use concord_rcanopus.ViewsManager.Missing.{
  fitting, fill_range, missing_in, has_missing_msgs, missing_numbers_in, get_numbers_of_missing_pp,
}
use concord_rcanopus.ViewsManager.Entering.{
  release_range, entering_message, enter_range, compute_restrictions_of_new_view,
  try_new_pending_view, enter_view, finish_entering, restrict_and_enter, try_to_enter_view,
}
use concord_rcanopus.ViewsManager.Exit.{
  add_element, certificate_of, previous_certificate, new_element, leave_one, leave_all,
  exit_from_current_view,
}
use concord_rcanopus.ViewsManager.Numbers.{
  IsAgreed, compute_correct_relevant_view_numbers-IsAgreed,
  get_numbers_of_missing_pp-has_missing_msgs,
}
use concord_rcanopus.ViewsManager.Moving.{IsValid}
use concord_rcanopus.ViewsManager.Entered.{IsEntered}
use concord_rcanopus.ViewsManager.Safety.{
  Operation, adds_view_change, exits, tries_to_enter, perform, Reachable, begins, goes_on,
  perform-IsValid, run_keeps, view_follows_restrictions,
}

abbrev digests : Digests
digests = record {
  combine = λ digest view seq. digest + view + seq;
  verify = λ digest sig. true;
  null_digest = 5;
  digest_of_view_change = λ vc. vc.id_of_generated_replica + 1;
}

abbrev info : ReplicasInfo
info = record {
  my_id = 1;
  number_of_replicas = 4;
  f_val = 1;
  c_val = 0;
  dynamic_collector_for_partial_proofs = false;
  dynamic_collector_for_execution_proofs = false;
  ids_of_replicas = 0 ∷ 1 ∷ 2 ∷ 3 ∷ [];
  ids_of_peer_replicas = 0 ∷ 2 ∷ 3 ∷ [];
}

abbrev request : PrePrepareMsg
request = record { seq_number = 1; view_number = 0; digest_of_requests = 77; is_null = false }

abbrev leaving_info : PrevViewInfo
leaving_info = record { pre_prepare = some request; has_all_requests = true; prepare_full = none }

abbrev vote : ℕ → SignedViewChange
vote id = record {
  id_of_generated_replica = id;
  message = record {
    new_view = 1;
    last_stable = 0;
    elements =
        record { seq_num = 1; pre_prepare_digest = 77; origin_view = 0; certificate = none } ∷ [];
  };
}

abbrev run : List Operation → ViewsManager → Option ViewsManager
run [] k = some k
run (op ∷ ops) k = perform digests op k >>= run ops

run-Reachable :
    (ops : List Operation) (k k' : ViewsManager)
    → Reachable digests k
    → run ops k ≡ some k'
    → Reachable digests k'
run-Reachable [] k k' reached e = subst (Reachable digests) (some_inj e) reached
run-Reachable (op ∷ ops) k k' reached e =
    let (k1, ran, e1) = bind_inv (perform digests op k) (run ops) k' e in
    run-Reachable ops k1 k' (goes_on op reached ran) e1

abbrev fresh : ViewsManager
fresh = record {
  replicas_info = info;
  stat = in_view;
  my_latest_active_view = 0;
  my_latest_pending_view = 0;
  view_change_messages = replicate 4 none;
  new_view_messages = replicate 4 none;
  view_change_msgs_of_pending_view = replicate 4 none;
  new_view_msg_of_pending_view = none;
  min_restriction = 0;
  max_restriction = 0;
  restrictions = replicate work_window_size (record { is_null = true; digest = 0 });
  pre_prepare_msgs_of_restrictions = replicate work_window_size none;
  collection_of_pre_prepare_msgs = [];
  lower_bound_stable = 0;
  debug_highest_known_stable = 0;
  debug_highest_view = 0;
}

made : make info ≡ some fresh
unfolding make
made = refl

abbrev history : List Operation
history = exits 0 0 (leaving_info ∷ []) ∷ adds_view_change (vote 0) ∷ adds_view_change (vote 2) ∷ []

abbrev value : {A : Type 0} → Option A → A → A
value none a = a
value (some b) a = b

-- The replica before it tries to enter view 1, and what comes of it.
abbrev ready : ViewsManager
ready = value (run history fresh) fresh

abbrev outcome : Bool × List PrePrepareMsg × ViewsManager
outcome = value (try_to_enter_view digests 1 0 0 ready) (false, [], fresh)

ready-Reachable : Reachable digests ready
unfolding perform primary_of_view go_to_at_least slow_before slow_insert collect_slow check_slow
    collect_fast advance_at advance_iterators make_iterators collect_stable insert_desc sort_desc
    calc_lb_stable_for_view select_slow compute_restrictions_for_seq_num restrict_window
    compute_restrictions includes_view_change find_pre_prepare put_pre_prepare add_view_change
    ignores clear_range reset_data_of_latest_pending mark_as_primary count_marks move_marked
    elements_of try_move_to_pending_view_as_primary fitting fill_range missing_in has_missing_msgs
    release_range entering_message enter_range compute_restrictions_of_new_view try_new_pending_view
    enter_view finish_entering restrict_and_enter try_to_enter_view add_element certificate_of
    previous_certificate new_element leave_one leave_all exit_from_current_view
ready-Reachable = run-Reachable history fresh ready (begins info made) refl

entered : try_to_enter_view digests 1 0 0 ready ≡ some (true, outcome.1, outcome.2)
unfolding perform primary_of_view go_to_at_least slow_before slow_insert collect_slow check_slow
    collect_fast advance_at advance_iterators make_iterators collect_stable insert_desc sort_desc
    calc_lb_stable_for_view select_slow compute_restrictions_for_seq_num restrict_window
    compute_restrictions includes_view_change find_pre_prepare put_pre_prepare add_view_change
    ignores clear_range reset_data_of_latest_pending mark_as_primary count_marks move_marked
    elements_of try_move_to_pending_view_as_primary fitting fill_range missing_in has_missing_msgs
    release_range entering_message enter_range compute_restrictions_of_new_view try_new_pending_view
    enter_view finish_entering restrict_and_enter try_to_enter_view add_element certificate_of
    previous_certificate new_element leave_one leave_all exit_from_current_view
entered = refl

-- The request of view 0 is the first of the messages of view 1.
enters_with_request :
    (length outcome.1 ≡ 150) × (take 1 outcome.1 ≡ record request { view_number = 1 } ∷ [])
unfolding perform primary_of_view go_to_at_least slow_before slow_insert collect_slow check_slow
    collect_fast advance_at advance_iterators make_iterators collect_stable insert_desc sort_desc
    calc_lb_stable_for_view select_slow compute_restrictions_for_seq_num restrict_window
    compute_restrictions includes_view_change find_pre_prepare put_pre_prepare add_view_change
    ignores clear_range reset_data_of_latest_pending mark_as_primary count_marks move_marked
    elements_of try_move_to_pending_view_as_primary fitting fill_range missing_in has_missing_msgs
    release_range entering_message enter_range compute_restrictions_of_new_view try_new_pending_view
    enter_view finish_entering restrict_and_enter try_to_enter_view add_element certificate_of
    previous_certificate new_element leave_one leave_all exit_from_current_view
enters_with_request = (refl, refl)

view_follows_restrictions_example : IsEntered digests 1 0 outcome.1 outcome.2
view_follows_restrictions_example =
    view_follows_restrictions digests 1 0 0 ready outcome.2 outcome.1 ready-Reachable entered

perform-IsValid_example : IsValid outcome.2
unfolding perform
perform-IsValid_example =
    perform-IsValid digests (tries_to_enter 1 0 0) ready outcome.2
      (run_keeps digests ready-Reachable)
      (ap (λ o. o >>= λ (z : Bool × List PrePrepareMsg × ViewsManager). some z.2) entered)

abbrev asked : List ℕ
asked = 4 ∷ 2 ∷ 3 ∷ 2 ∷ []

-- F = 1: two of the four messages ask for view 3 or later, and three for view 2 or later.
asked_views : view_numbers 0 2 3 asked ≡ some (3, 2)
unfolding view_numbers sort_desc insert_desc
asked_views = refl

abbrev asks_for : ℕ → Option SignedViewChange
asks_for v = some (record (vote 0) { message = record (vote 0).message { new_view = v } })

abbrev several : ViewsManager
several = record fresh {
  view_change_messages = asks_for 4 ∷ asks_for 2 ∷ asks_for 3 ∷ asks_for 2 ∷ [];
}

several_agree : compute_correct_relevant_view_numbers digests several ≡ some (3, 2)
unfolding compute_correct_relevant_view_numbers get_my_latest_view_change_msg relevant_views
    view_numbers sort_desc insert_desc
several_agree = refl

compute_correct_relevant_view_numbers-IsAgreed_example :
    (known agreed : ℕ) × (compute_correct_relevant_view_numbers digests several
      ≡ some (known, agreed))
    × IsAgreed several (asks_for 2) 2 known
    × IsAgreed several (asks_for 2) 3 agreed
unfolding get_my_latest_view_change_msg
compute_correct_relevant_view_numbers-IsAgreed_example =
    compute_correct_relevant_view_numbers-IsAgreed digests several (asks_for 2) refl

-- Number 1 is restricted to a digest, and number 2 to a null request.
abbrev lacking : ViewsManager
lacking = record fresh {
  stat = pending_with_restrictions;
  min_restriction = 1;
  max_restriction = 2;
  restrictions =
      record { is_null = false; digest = 7 } ∷ record { is_null = true; digest = 0 } ∷ [];
  pre_prepare_msgs_of_restrictions = none ∷ none ∷ [];
}

abbrev missing_one : List ℕ
missing_one = 1 ∷ []

lacking_one : get_numbers_of_missing_pp 0 lacking ≡ some (true, missing_one)
unfolding get_numbers_of_missing_pp missing_numbers_in
lacking_one = refl

get_numbers_of_missing_pp-has_missing_msgs_example :
    (has_missing_msgs 0 lacking ≡ some true) × (true ≡ ltb 0 (length missing_one))
get_numbers_of_missing_pp-has_missing_msgs_example =
    get_numbers_of_missing_pp-has_missing_msgs 0 lacking true missing_one refl lacking_one

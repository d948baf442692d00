-- ===== src/Controller/Tests.antt =====
-- Runs of the controller in a group of four replicas, whose statistics keep the last duration.
use concord_rcanopus.Base.{
  ℕ, ◌+◌, ◌*◌, ◌/◌, ◌≤◌, ◌≡◌, ◌⊎◌, inl, refl, true, false, some, [], ◌∷◌, arith, replicate,
}
use concord_rcanopus.ActiveWindow
use concord_rcanopus.ActiveWindow.Inside.{IsAligned}
use concord_rcanopus.Controller.{
  CommitPath, optimistic_fast, fast_with_threshold, slow, SeqNoInfo, period, Statistics, Controller,
  new_slow_path_time, count_cooperation, count_cycle, choose_path, make, on_become_primary,
  next_first_relevant, upgrade, on_end_of_evaluation_period, rel_min, rel_max, created, executed,
  handle,
}
use concord_rcanopus.Controller.Invariant.{IsValid}
use concord_rcanopus.Controller.Events.{Reachable-IsValid, handle-IsValid}
use concord_rcanopus.Controller.Paths.{
  rounds, is_full, is_partial, stayed_fast, choose_path_slow, choose_path_fast,
  new_slow_path_time_lem,
}

abbrev last_duration : Statistics ℕ
last_duration = record {
  start = 0;
  reset_stats = λ d. 0;
  add_duration = λ d t. t;
  estimate = λ d. d / 1000;
}

abbrev answered : SeqNoInfo
answered = record {
  switch_to_slow_path = false;
  pre_prepare_time = 5;
  duration_micro = 9;
  replicas = 1 ∷ 2 ∷ 3 ∷ [];
}

-- The primary of four replicas, in a period in which all its peers have answered.
abbrev leader : CommitPath → Controller ℕ
leader path = record {
  c = 0;
  f = 1;
  num_of_replicas = 4;
  my_id = 2;
  recent_activity = record { beginning = 65; items = replicate 64 answered };
  current_first_path = path;
  current_view = 6;
  is_primary = true;
  avg_and_std_of_exec_time = 170000;
  current_time_to_start_slow_path_milli = 150;
}

leader-IsAligned : IsAligned period (leader slow).recent_activity
leader-IsAligned = record { on_grid = refl; full = refl }

slow_leader-IsValid : IsValid (leader slow)
slow_leader-IsValid = record {
  aligned = leader-IsAligned;
  starts = refl;
  path = refl;
  time_least = omega arith;
  time_most = omega arith;
  primary = refl;
}

fast_leader-IsValid : IsValid (leader optimistic_fast)
fast_leader-IsValid = record {
  aligned = leader-IsAligned;
  starts = refl;
  path = refl;
  time_least = omega arith;
  time_most = omega arith;
  primary = refl;
}

all_cooperate : count_cooperation last_duration (leader slow) 64 65 (0, 0) ≡ some (64, 0)
unfolding count_cooperation count_cycle ActiveWindow.get ActiveWindow.inside
all_cooperate = refl

-- With an average of 170 milliseconds the time goes up to 170, and the next period begins at 129.
ends :
    on_end_of_evaluation_period last_duration (leader slow)
    ≡ some (
      record (leader slow) {
        recent_activity = record { beginning = 129; items = replicate 64 period.init_item };
        current_first_path = optimistic_fast;
        current_time_to_start_slow_path_milli = 170;
      },
      true,
    )
unfolding on_end_of_evaluation_period choose_path count_cooperation count_cycle upgrade
    new_slow_path_time rel_min rel_max ActiveWindow.get ActiveWindow.inside
    ActiveWindow.current_last ActiveWindow.reset_all
ends = refl

choose_path_slow_example :
    let full = rounds (is_full (leader slow)) (leader slow).recent_activity 64 65 in
    let partial = rounds (is_partial (leader slow)) (leader slow).recent_activity 64 65 in
    (full + partial ≤ 64)
    × (((61 ≤ full)
          × (choose_path last_duration (leader slow) slow ≡ some (optimistic_fast, (true, false))))
        ⊎ (((full ≤ 60)
              × (1 ≤ (leader slow).c)
              × (55 ≤ full + partial)
              × (choose_path last_duration (leader slow) slow
                  ≡ some (fast_with_threshold, (true, false))))
            ⊎ ((full ≤ 60)
                × (((leader slow).c ≡ 0) ⊎ (full + partial ≤ 54))
                × (choose_path last_duration (leader slow) slow ≡ some (slow, (false, false))))))
choose_path_slow_example = choose_path_slow last_duration (leader slow) slow_leader-IsValid

choose_path_fast_example :
    let successful = rounds stayed_fast (leader optimistic_fast).recent_activity 64 65 in
    (((55 ≤ successful)
        × (choose_path last_duration (leader optimistic_fast) optimistic_fast
            ≡ some (optimistic_fast, (false, false))))
      ⊎ ((successful ≤ 54)
          × (choose_path last_duration (leader optimistic_fast) optimistic_fast
              ≡ some (slow, (true, true)))))
choose_path_fast_example =
    choose_path_fast last_duration (leader optimistic_fast) optimistic_fast fast_leader-IsValid
      (inl refl)

new_slow_path_time_lem_example :
    (4 * 150 ≤ 5 * new_slow_path_time 150 900 + 4)
    × (5 * new_slow_path_time 150 900 ≤ 6 * 150)
    × (20 ≤ new_slow_path_time 150 900)
    × (new_slow_path_time 150 900 ≤ 2000)
new_slow_path_time_lem_example = new_slow_path_time_lem 150 900 (omega arith) (omega arith)

abbrev fresh : Controller ℕ
fresh = record (leader optimistic_fast) {
  recent_activity = record { beginning = 129; items = replicate 64 period.init_item };
  avg_and_std_of_exec_time = 0;
}

fresh_made : make last_duration 0 1 2 6 128 ≡ some fresh
unfolding make on_become_primary next_first_relevant ActiveWindow.make ActiveWindow.reset_all
fresh_made = refl

handle-IsValid_example :
    (k' : Controller ℕ) × (handle last_duration (leader slow) (executed 128 40) ≡ some k')
    × IsValid k'
handle-IsValid_example =
    handle-IsValid last_duration (leader slow) (executed 128 40) slow_leader-IsValid tt

Reachable-IsValid_example : IsValid fresh
Reachable-IsValid_example = Reachable-IsValid last_duration fresh (created 0 1 2 6 128 fresh_made)

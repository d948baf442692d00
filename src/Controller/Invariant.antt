-- ===== src/Controller/Invariant.antt =====
-- The invariant of the controller, and that every event keeps it.
use concord_rcanopus.Base.{
  ℕ, zero, suc, ◌+◌, ◌-◌, ◌%◌, ◌≤◌, ◌≡◌, refl, ap, ◌∙◌, Bool, true, false, not, ◌&&◌, some, arith,
  ◌==◌, if◌then◌else◌,
}
use concord_rcanopus.ActiveWindow
use concord_rcanopus.ActiveWindow.Inside.{IsAligned}
use concord_rcanopus.Controller.{
  CommitPath, na, optimistic_fast, fast_with_threshold, slow, period, Statistics, Controller,
  is_optimistic, upgrade, downgrade, new_slow_path_time, rel_min, rel_max, clamp, count_cycle,
  count_cooperation, count_fast_paths, choose_path, on_end_of_evaluation_period, on_become_primary,
  next_first_relevant,
}
use concord_rcanopus.Controller.Period.{reset_all_lem, get_lem, next_first_relevant_lem}

-- The paths that a controller may choose, when only the optimistic fast path is allowed and when not.
abbrev pub usable : Bool → CommitPath → Bool
usable only_optimistic na = false
usable only_optimistic optimistic_fast = true
usable only_optimistic fast_with_threshold = not only_optimistic
usable only_optimistic slow = true

pub record IsValid {S : Type 0} (k : Controller S) : Type 0 where
  pub aligned : IsAligned period k.recent_activity
  pub starts : k.recent_activity.beginning % 64 ≡ 1
  pub path : usable (k.c == 0) k.current_first_path ≡ true
  pub time_least : 20 ≤ k.current_time_to_start_slow_path_milli
  pub time_most : k.current_time_to_start_slow_path_milli ≤ 2000
  pub primary : k.is_primary ≡ (k.current_view % k.num_of_replicas == k.my_id)

within : (t : ℕ) → (20 ≤ clamp 20 2000 t) × (clamp 20 2000 t ≤ 2000)
within t = ground arith

new_slow_path_time_bounds :
    (t estimate : ℕ) → (20 ≤ new_slow_path_time t estimate) × (new_slow_path_time t estimate ≤ 2000)
unfolding new_slow_path_time
new_slow_path_time_bounds t estimate = within (clamp (rel_min t) (rel_max t) estimate)

time_kept :
    (downgraded : Bool) (t estimate : ℕ)
    → 20 ≤ t
    → t ≤ 2000
    → (20 ≤ (if not downgraded then new_slow_path_time t estimate else t))
      × ((if not downgraded then new_slow_path_time t estimate else t) ≤ 2000)
time_kept true t estimate least most = (least, most)
time_kept false t estimate least most = new_slow_path_time_bounds t estimate

abbrev upgrade_on : Bool → Bool → Bool → CommitPath × Bool
upgrade_on only full enough =
    if full
    then (optimistic_fast, true)
    else if not only && enough
    then (fast_with_threshold, true)
    else (slow, false)

upgrade_choice : (only full enough : Bool) → usable only (upgrade_on only full enough).0 ≡ true
upgrade_choice only true enough = refl
upgrade_choice true false enough = refl
upgrade_choice false false true = refl
upgrade_choice false false false = refl

upgrade-usable : (only : Bool) (full partial : ℕ) → usable only (upgrade only full partial).0 ≡ true
unfolding upgrade
upgrade-usable only full partial = upgrade_choice only _ _

abbrev downgrade_on : Bool → Bool → CommitPath → CommitPath × Bool
downgrade_on only few path =
    if few
    then (if not only && is_optimistic path then fast_with_threshold else slow, true)
    else (path, false)

downgrade_choice :
    (only few : Bool) (path : CommitPath)
    → usable only path ≡ true
    → usable only (downgrade_on only few path).0 ≡ true
downgrade_choice only false path ok = ok
downgrade_choice true true path ok = refl
downgrade_choice false true na ok = refl
downgrade_choice false true optimistic_fast ok = refl
downgrade_choice false true fast_with_threshold ok = refl
downgrade_choice false true slow ok = refl

downgrade-usable :
    (only : Bool) (path : CommitPath) (successful : ℕ)
    → usable only path ≡ true
    → usable only (downgrade only path successful).0 ≡ true
unfolding downgrade
downgrade-usable only path successful ok = downgrade_choice only _ path ok

module _ {S : Type 0} (stats : Statistics S) where
  pub count_cooperation_lem :
      (k : Controller S) (left i : ℕ) (counts : ℕ × ℕ)
      → IsAligned period k.recent_activity
      → k.recent_activity.beginning ≤ i
      → i + left ≤ k.recent_activity.beginning + 64
      → (total : ℕ × ℕ) × (count_cooperation stats k left i counts ≡ some total)
  unfolding count_cooperation ActiveWindow.inside
  count_cooperation_lem k zero i counts aligned from upto = (counts, refl)
  count_cooperation_lem k (suc left) i counts aligned from upto =
      let (info, e) = get_lem k.recent_activity i aligned (ground arith) in
      let (total, rest) =
        count_cooperation_lem k left (i + 1) (count_cycle stats k info counts) aligned (omega arith)
          (omega arith) in
      (total, rw e rest)

  pub count_fast_paths_lem :
      (k : Controller S) (left i successful : ℕ)
      → IsAligned period k.recent_activity
      → k.recent_activity.beginning ≤ i
      → i + left ≤ k.recent_activity.beginning + 64
      → (total : ℕ) × (count_fast_paths stats k left i successful ≡ some total)
  unfolding count_fast_paths ActiveWindow.inside
  count_fast_paths_lem k zero i successful aligned from upto = (successful, refl)
  count_fast_paths_lem k (suc left) i successful aligned from upto =
      let (info, e) = get_lem k.recent_activity i aligned (ground arith) in
      let (total, rest) =
        count_fast_paths_lem k left (i + 1)
          (if not info.switch_to_slow_path then successful + 1 else successful) aligned
          (omega arith) (omega arith) in
      (total, rw e rest)

  -- Every choice of a path succeeds, on a path that a controller may have, and leads to another.
  choose_path-usable :
      (k : Controller S) (path : CommitPath)
      → IsAligned period k.recent_activity
      → usable (k.c == 0) path ≡ true
      → (new : CommitPath) × ((flags : Bool × Bool) × (choose_path stats k path ≡ some (new, flags))
          × (usable (k.c == 0) new ≡ true))
  unfolding choose_path
  choose_path-usable k na aligned ok = absurd (cc ok)
  choose_path-usable k slow aligned ok =
      let ((full, partial), e) =
        count_cooperation_lem k 64 k.recent_activity.beginning (0, 0) aligned (omega arith)
          (omega arith) in
      (
        (upgrade (k.c == 0) full partial).0,
        (
          ((upgrade (k.c == 0) full partial).1, false),
          rw e refl,
          upgrade-usable (k.c == 0) full partial,
        ),
      )
  choose_path-usable k optimistic_fast aligned ok =
      let (n, e) =
        count_fast_paths_lem k 64 k.recent_activity.beginning 0 aligned (omega arith)
          (omega arith) in
      (
        (downgrade (k.c == 0) optimistic_fast n).0,
        (
          ((downgrade (k.c == 0) optimistic_fast n).1, (downgrade (k.c == 0) optimistic_fast n).1),
          rw e refl,
          downgrade-usable (k.c == 0) optimistic_fast n ok,
        ),
      )
  choose_path-usable k fast_with_threshold aligned ok =
      let (n, e) =
        count_fast_paths_lem k 64 k.recent_activity.beginning 0 aligned (omega arith)
          (omega arith) in
      (
        (downgrade (k.c == 0) fast_with_threshold n).0,
        (
          (
            (downgrade (k.c == 0) fast_with_threshold n).1,
            (downgrade (k.c == 0) fast_with_threshold n).1,
          ),
          rw e refl,
          downgrade-usable (k.c == 0) fast_with_threshold n ok,
        ),
      )

  -- The end of a period succeeds and leaves a valid controller.
  pub on_end_of_evaluation_period-IsValid :
      (k : Controller S)
      → IsValid k
      → (k' : Controller S) × ((changed : Bool) × (on_end_of_evaluation_period stats k
            ≡ some (k', changed))
          × IsValid k')
  unfolding on_end_of_evaluation_period ActiveWindow.current_last
  on_end_of_evaluation_period-IsValid k valid =
      let (path, ((changed, downgraded), chosen, ok)) =
        choose_path-usable k k.current_first_path valid.aligned valid.path in
      let (w, reset, aligned, begins) =
        reset_all_lem k.recent_activity (k.recent_activity.beginning + 64 - 1 + 1) valid.aligned in
      (
        record k {
          recent_activity = w;
          current_first_path = path;
          current_time_to_start_slow_path_milli =
              if not downgraded
              then new_slow_path_time k.current_time_to_start_slow_path_milli
                  (stats.estimate k.avg_and_std_of_exec_time)
              else k.current_time_to_start_slow_path_milli;
        },
        (
          changed,
          rw (chosen, reset) refl,
          record {
            aligned = aligned;
            starts = omega (arith, valid.starts, begins);
            path = ok;
            time_least =
                (time_kept downgraded k.current_time_to_start_slow_path_milli
                  (stats.estimate k.avg_and_std_of_exec_time) valid.time_least valid.time_most).0;
            time_most =
                (time_kept downgraded k.current_time_to_start_slow_path_milli
                  (stats.estimate k.avg_and_std_of_exec_time) valid.time_least valid.time_most).1;
            primary = valid.primary;
          },
        ),
      )

  pub on_become_primary-IsValid :
      (k : Controller S) (s : ℕ)
      → IsValid k
      → k.is_primary ≡ true
      → (k' : Controller S) × (on_become_primary stats k s ≡ some k') × IsValid k'
  unfolding on_become_primary
  on_become_primary-IsValid k s valid primary =
      let (w, reset, aligned, begins) =
        reset_all_lem k.recent_activity (next_first_relevant s) valid.aligned in
      (
        record k { recent_activity = w; current_time_to_start_slow_path_milli = 150 },
        rw (primary, reset) refl,
        record {
          aligned = aligned;
          starts = ap (λ n. n % 64) begins ∙ (next_first_relevant_lem s).0;
          path = valid.path;
          time_least = omega arith;
          time_most = omega arith;
          primary = valid.primary;
        },
      )

-- ===== src/Controller.antt =====
-- ControllerWithSimpleHistory.cpp and its header: the primary's choice between the fast and the slow
-- commit paths, from what it has seen of the last sequence numbers.
pub mod Decisions
pub mod Period
pub mod Invariant
pub mod Events
pub mod Paths
mod Tests
use concord_rcanopus.Base.{
  ℕ, zero, suc, ◌+◌, ◌-◌, ◌*◌, ◌/◌, ◌%◌, ◌^◌, ◌≤◌, ◌≡◌, Bool, true, false, not, ◌&&◌, ◌||◌, Option,
  none, some, List, [], ◌∷◌, ltb, leb, ◌==◌, if◌then◌else◌, length, ◌>>=◌, ◌>>◌, assert,
}
use concord_rcanopus.ActiveWindow
unfoldable pub use Decisions.*

pub record SeqNoInfo : Type 0 where
  pub switch_to_slow_path : Bool
  pub pre_prepare_time : ℕ
  pub duration_micro : ℕ
  pub replicas : List ℕ

abbrev pub empty_info : SeqNoInfo
empty_info = record {
  switch_to_slow_path = false;
  pre_prepare_time = 0;
  duration_micro = 0;
  replicas = [];
}

-- `EvaluationPeriod` numbers, one item each; `reset` clears every field.
abbrev pub period : ActiveWindow.Params SeqNoInfo
period = record {
  window_size = evaluation_period;
  resolution = 1;
  init_item = empty_info;
  reset_item = λ info. empty_info;
}

-- The statistics of the execution time, in floating point: RollingAvgAndVar, and the rounded
-- `(execAvg + 2 * execStd) / 1000` of onEndOfEvaluationPeriod.
pub record Statistics (S : Type 0) : Type 0 where
  pub start : S
  pub reset_stats : S → S
  pub add_duration : S → ℕ → S
  pub estimate : S → ℕ

pub record Controller (S : Type 0) : Type 0 where
  pub c : ℕ
  pub f : ℕ
  pub num_of_replicas : ℕ
  pub my_id : ℕ
  pub recent_activity : ActiveWindow.Window SeqNoInfo
  pub current_first_path : CommitPath
  pub current_view : ℕ
  pub is_primary : Bool
  pub avg_and_std_of_exec_time : S
  pub current_time_to_start_slow_path_milli : ℕ

-- `s.replicas.count(id) > 0`.
abbrev pub has_replica : List ℕ → ℕ → Bool
has_replica [] id = false
has_replica (x ∷ xs) id = (x == id) || has_replica xs id

module _ {S : Type 0} (stats : Statistics S) where
  abbrev pub only_optimistic_fast : Controller S → Bool
  only_optimistic_fast k = k.c == 0

  pub on_become_primary : Controller S → ℕ → Option (Controller S)
  on_become_primary k s = do
    assert k.is_primary
    w ← ActiveWindow.reset_all period k.recent_activity (next_first_relevant s)
    some (record k {
      recent_activity = w;
      current_time_to_start_slow_path_milli = default_time_to_start_slow_path_milli;
    })

  -- The constructor.
  unfoldable pub make : ℕ → ℕ → ℕ → ℕ → ℕ → Option (Controller S)
  make c f replica_id initial_view initial_seq = do
    w ← ActiveWindow.make period 1
    let k : Controller S = record {
      c = c;
      f = f;
      num_of_replicas = 3 * f + 2 * c + 1;
      my_id = replica_id;
      recent_activity = w;
      current_first_path = optimistic_fast;
      current_view = initial_view;
      is_primary = initial_view % (3 * f + 2 * c + 1) == replica_id;
      avg_and_std_of_exec_time = stats.start;
      current_time_to_start_slow_path_milli = default_time_to_start_slow_path_milli;
    }
    if k.is_primary then on_become_primary k initial_seq else some k

  unfoldable pub slow_paths_timer_milli : Controller S → ℕ
  slow_paths_timer_milli k =
      let half = k.current_time_to_start_slow_path_milli / 2 in if ltb half 10 then 10 else half

  pub on_new_view : Controller S → ℕ → ℕ → Option (Controller S)
  on_new_view k v s = do
    assert (leb k.current_view v)
    let k' : Controller S = record k {
      current_view = v;
      is_primary = v % k.num_of_replicas == k.my_id;
    }
    if k'.is_primary then on_become_primary k' s else some k'

  -- One step of the loop that counts the cycles with full and with partial cooperation.
  pub count_cycle : Controller S → SeqNoInfo → ℕ × ℕ → ℕ × ℕ
  count_cycle k info (full, partial) =
      if length info.replicas == k.num_of_replicas - 1
      then (full + 1, partial)
      else if leb (3 * k.f + k.c) (length info.replicas)
      then (full, partial + 1)
      else (full, partial)

  pub count_cooperation : Controller S → ℕ → ℕ → ℕ × ℕ → Option (ℕ × ℕ)
  count_cooperation k zero i counts = some counts
  count_cooperation k (suc left) i counts = do
    info ← ActiveWindow.get period k.recent_activity i
    count_cooperation k left (i + 1) (count_cycle k info counts)

  pub count_fast_paths : Controller S → ℕ → ℕ → ℕ → Option ℕ
  count_fast_paths k zero i successful = some successful
  count_fast_paths k (suc left) i successful = do
    info ← ActiveWindow.get period k.recent_activity i
    count_fast_paths k left (i + 1)
        (if not info.switch_to_slow_path then successful + 1 else successful)

  -- The new path, whether it changed, and whether it was downgraded.
  pub choose_path : Controller S → CommitPath → Option (CommitPath × (Bool × Bool))
  choose_path k na = none
  choose_path k slow = do
    (full, partial) ← count_cooperation k evaluation_period k.recent_activity.beginning (0, 0)
    let (path, changed) = upgrade (only_optimistic_fast k) full partial
    some (path, (changed, false))
  choose_path k path = do
    successful ← count_fast_paths k evaluation_period k.recent_activity.beginning 0
    let (new_path, downgraded) = downgrade (only_optimistic_fast k) path successful
    some (new_path, (downgraded, downgraded))

  pub on_end_of_evaluation_period : Controller S → Option (Controller S × Bool)
  on_end_of_evaluation_period k = do
    (path, (changed, downgraded)) ← choose_path k k.current_first_path
    w ←
        ActiveWindow.reset_all period k.recent_activity
          (ActiveWindow.current_last period k.recent_activity + 1)
    some (
      record k {
        recent_activity = w;
        current_first_path = path;
        current_time_to_start_slow_path_milli =
            if not downgraded
            then new_slow_path_time k.current_time_to_start_slow_path_milli
                (stats.estimate k.avg_and_std_of_exec_time)
            else k.current_time_to_start_slow_path_milli;
      },
      changed,
    )

  -- The handler at the time `now`, behind its first test; the duration is stored in 16 bits.
  pub record_execution : Controller S → ℕ → ℕ → Option (Controller S × Bool)
  record_execution k n now = do
    info ← ActiveWindow.get period k.recent_activity n
    let duration = duration_of now info.pre_prepare_time
    w ←
        ActiveWindow.update period k.recent_activity n
          (λ s. record s { duration_micro = duration % 2 ^ 16 })
    let averaged =
        (if n % 1000 == 0
          then stats.reset_stats k.avg_and_std_of_exec_time
          else k.avg_and_std_of_exec_time)
    let k' : Controller S = record k {
      recent_activity = w;
      avg_and_std_of_exec_time = stats.add_duration averaged duration;
    }
    (if n == ActiveWindow.current_last period w
        then on_end_of_evaluation_period k'
        else some (k', false))

  pub on_new_seq_number_execution : Controller S → ℕ → ℕ → Option (Controller S × Bool)
  on_new_seq_number_execution k n now =
      if not k.is_primary || not (ActiveWindow.inside period k.recent_activity n)
      then some (k, false)
      else record_execution k n now

  abbrev pub change_info : Controller S → ℕ → (SeqNoInfo → SeqNoInfo) → Option (Controller S)
  change_info k n change = do
    w ← ActiveWindow.update period k.recent_activity n change
    some (record k { recent_activity = w })

  pub on_sending_pre_prepare : Controller S → ℕ → ℕ → Option (Controller S)
  on_sending_pre_prepare k n now =
      if not k.is_primary || not (ActiveWindow.inside period k.recent_activity n)
      then some k
      else change_info k n
          (λ s. if s.pre_prepare_time == 0 then record s { pre_prepare_time = now } else s)

  pub on_starting_slow_commit : Controller S → ℕ → Option (Controller S)
  on_starting_slow_commit k n =
      if not k.is_primary || not (ActiveWindow.inside period k.recent_activity n)
      then some k
      else if is_slow k.current_first_path
      then some k
      else change_info k n (λ s. record s { switch_to_slow_path = true })

  -- A prepare message of the replica `id` for the number `n`.
  pub on_message : Controller S → ℕ → ℕ → Option (Controller S)
  on_message k n id =
      if not k.is_primary
        || not (is_slow k.current_first_path)
        || not (ActiveWindow.inside period k.recent_activity n)
      then some k
      else change_info k n (λ s.
        if s.switch_to_slow_path || has_replica s.replicas id
        then s
        else record s { replicas = id ∷ s.replicas })

-- The events that the replica hands to the controller, with the time of a clock reading.
pub data Event : Type 0 where
  new_view : (v s : ℕ) → Event
  executed : (n now : ℕ) → Event
  pre_prepare_sent : (n now : ℕ) → Event
  slow_commit_started : (n : ℕ) → Event
  prepare_received : (n id : ℕ) → Event

-- What the caller sees to: views do not go back.
abbrev pub Follows : {S : Type 0} → Controller S → Event → Type 0
Follows k (new_view v s) = k.current_view ≤ v
Follows k e = Unit

module _ {S : Type 0} (stats : Statistics S) where
  pub handle : Controller S → Event → Option (Controller S)
  handle k (new_view v s) = on_new_view stats k v s
  handle k (executed n now) = do (k', changed) ← on_new_seq_number_execution stats k n now; some k'
  handle k (pre_prepare_sent n now) = on_sending_pre_prepare stats k n now
  handle k (slow_commit_started n) = on_starting_slow_commit stats k n
  handle k (prepare_received n id) = on_message stats k n id

-- The controllers that a replica may come to have, when views do not go back.
pub data Reachable {S : Type 0} (stats : Statistics S) : Controller S → Type 0 where
  created :
      {k : Controller S} (c f replica_id view seq : ℕ)
      → make stats c f replica_id view seq ≡ some k
      → Reachable stats k
  handled :
      {k k' : Controller S} (e : Event)
      → Reachable stats k
      → Follows k e
      → handle stats k e ≡ some k'
      → Reachable stats k'

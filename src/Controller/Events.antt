-- ===== src/Controller/Events.antt =====
-- What each event does to a valid controller: it succeeds and leaves a valid one.
use concord_rcanopus.Base.{
  ℕ, ◌+◌, ◌*◌, ◌%◌, ◌^◌, ◌≤◌, ◌≡◌, refl, sym, ap, ◌∙◌, Bool, true, false, not, ◌||◌, Option, some,
  arith, ◌==◌, if◌then◌else◌, le→leb,
}
use mathlib.Core.Path.{subst}
use concord_rcanopus.ActiveWindow
use concord_rcanopus.Controller.{
  SeqNoInfo, period, Statistics, Controller, is_slow, make, on_new_view, record_execution,
  on_new_seq_number_execution, on_sending_pre_prepare, on_starting_slow_commit, on_message,
  change_info, duration_of, on_end_of_evaluation_period, Event, new_view, executed,
  pre_prepare_sent, slow_commit_started, prepare_received, handle, Follows, Reachable, created,
  handled, optimistic_fast,
}
use concord_rcanopus.Controller.Period.{make_lem, get_lem, update_lem}
use concord_rcanopus.Controller.Invariant.{
  IsValid, on_end_of_evaluation_period-IsValid, on_become_primary-IsValid,
}

module _ {S : Type 0} (stats : Statistics S) where
  -- A handler's result: it succeeds, with a valid controller.
  abbrev pub Succeeds : Option (Controller S) → Type 0
  Succeeds result = (k' : Controller S) × (result ≡ some k') × IsValid k'

  if-Succeeds :
      (b : Bool) (x y : Option (Controller S))
      → (b ≡ true → Succeeds x)
      → (b ≡ false → Succeeds y)
      → Succeeds (if b then x else y)
  if-Succeeds true x y fx fy = fx refl
  if-Succeeds false x y fx fy = fy refl

  unchanged : (k : Controller S) → IsValid k → Succeeds (some k)
  unchanged k valid = (k, refl, valid)

  -- The tests that every handler begins with.
  guards :
      (primary inside : Bool)
      → not primary || not inside ≡ false
      → (primary ≡ true) × (inside ≡ true)
  guards true true h = (refl, refl)
  guards true false h = absurd (cc h)
  guards false inside h = absurd (cc h)

  guards_three :
      (primary slow_path inside : Bool)
      → not primary || not slow_path || not inside ≡ false
      → inside ≡ true
  guards_three true true true h = refl
  guards_three true true false h = absurd (cc h)
  guards_three true false inside h = absurd (cc h)
  guards_three false slow_path inside h = absurd (cc h)

  change_info-Succeeds :
      (k : Controller S) (n : ℕ) (change : SeqNoInfo → SeqNoInfo)
      → IsValid k
      → ActiveWindow.inside period k.recent_activity n ≡ true
      → Succeeds (change_info stats k n change)
  change_info-Succeeds k n change valid inside =
      let (w, e, aligned, begins) = update_lem k.recent_activity n change valid.aligned inside in
      (
        record k { recent_activity = w },
        rw e refl,
        record {
          aligned = aligned;
          starts = ap (λ b. b % 64) begins ∙ valid.starts;
          path = valid.path;
          time_least = valid.time_least;
          time_most = valid.time_most;
          primary = valid.primary;
        },
      )

  sending :
      (k : Controller S) (n now : ℕ) → IsValid k → Succeeds (on_sending_pre_prepare stats k n now)
  unfolding on_sending_pre_prepare
  sending k n now valid =
      if-Succeeds _ _ _ (λ h. unchanged k valid)
        (λ h. change_info-Succeeds k n _ valid (guards k.is_primary _ h).1)

  starting_slow :
      (k : Controller S) (n : ℕ) → IsValid k → Succeeds (on_starting_slow_commit stats k n)
  unfolding on_starting_slow_commit
  starting_slow k n valid =
      if-Succeeds _ _ _ (λ h. unchanged k valid)
        (λ h.
          if-Succeeds (is_slow k.current_first_path) (some k)
            (change_info stats k n (λ s. record s { switch_to_slow_path = true }))
            (λ g. unchanged k valid)
            (λ g. change_info-Succeeds k n _ valid (guards k.is_primary _ h).1))

  receiving : (k : Controller S) (n id : ℕ) → IsValid k → Succeeds (on_message stats k n id)
  unfolding on_message
  receiving k n id valid =
      if-Succeeds _ _ _ (λ h. unchanged k valid)
        (λ h.
          change_info-Succeeds k n _ valid
            (guards_three k.is_primary (is_slow k.current_first_path) _ h))

  viewing :
      (k : Controller S) (v s : ℕ)
      → IsValid k
      → k.current_view ≤ v
      → Succeeds (on_new_view stats k v s)
  unfolding on_new_view
  viewing k v s valid later =
      let k' : Controller S = record k {
        current_view = v;
        is_primary = v % k.num_of_replicas == k.my_id;
      } in
      let moved : IsValid k' = record {
        aligned = valid.aligned;
        starts = valid.starts;
        path = valid.path;
        time_least = valid.time_least;
        time_most = valid.time_most;
        primary = refl;
      } in
      rw (le→leb k.current_view v later) (
        if-Succeeds _ _ _ (λ h. on_become_primary-IsValid stats k' s moved h)
          (λ h. unchanged k' moved))

  -- The same of a handler that also returns whether the path changed.
  SucceedsFlagged : Option (Controller S × Bool) → Type 0
  SucceedsFlagged result =
      (k' : Controller S) × ((changed : Bool) × (result ≡ some (k', changed)) × IsValid k')

  if-SucceedsFlagged :
      (b : Bool) (x y : Option (Controller S × Bool))
      → (b ≡ true → SucceedsFlagged x)
      → (b ≡ false → SucceedsFlagged y)
      → SucceedsFlagged (if b then x else y)
  if-SucceedsFlagged true x y fx fy = fx refl
  if-SucceedsFlagged false x y fx fy = fy refl

  unchanged_flag : (k : Controller S) → IsValid k → SucceedsFlagged (some (k, false))
  unfolding SucceedsFlagged
  unchanged_flag k valid = (k, (false, refl, valid))

  ending : (k : Controller S) → IsValid k → SucceedsFlagged (on_end_of_evaluation_period stats k)
  unfolding SucceedsFlagged
  ending k valid = on_end_of_evaluation_period-IsValid stats k valid

  recording :
      (k : Controller S) (n now : ℕ)
      → IsValid k
      → ActiveWindow.inside period k.recent_activity n ≡ true
      → SucceedsFlagged (record_execution stats k n now)
  unfolding record_execution
  recording k n now valid inside =
      let (info, read) = get_lem k.recent_activity n valid.aligned inside in
      let duration = duration_of now info.pre_prepare_time in
      let (w, e, aligned, begins) =
        update_lem k.recent_activity n (λ s. record s { duration_micro = duration % 2 ^ 16 })
          valid.aligned inside in
      let k' : Controller S = record k {
        recent_activity = w;
        avg_and_std_of_exec_time =
            stats.add_duration
              (if n % 1000 == 0
                then stats.reset_stats k.avg_and_std_of_exec_time
                else k.avg_and_std_of_exec_time)
              duration;
      } in
      let valid' : IsValid k' = record {
        aligned = aligned;
        starts = ap (λ b. b % 64) begins ∙ valid.starts;
        path = valid.path;
        time_least = valid.time_least;
        time_most = valid.time_most;
        primary = valid.primary;
      } in
      rw (read, e)
        (if-SucceedsFlagged _ _ _ (λ h. ending k' valid') (λ h. unchanged_flag k' valid'))

  executing :
      (k : Controller S) (n now : ℕ)
      → IsValid k
      → SucceedsFlagged (on_new_seq_number_execution stats k n now)
  unfolding on_new_seq_number_execution
  executing k n now valid =
      if-SucceedsFlagged _ _ _ (λ h. unchanged_flag k valid)
        (λ h. recording k n now valid (guards k.is_primary _ h).1)

  some_inj : (x y : Controller S) → some x ≡ some y → x ≡ y
  some_inj x y e = cc e

  -- Every event succeeds on a valid controller, none of its assertions or window accesses failing,
  -- and leaves a valid one, provided that the view of a new-view event is not below the current one.
  pub handle-IsValid :
      (k : Controller S) (e : Event)
      → IsValid k
      → Follows k e
      → (k' : Controller S) × (handle stats k e ≡ some k') × IsValid k'
  unfolding handle SucceedsFlagged
  handle-IsValid k (new_view v s) valid later = viewing k v s valid later
  handle-IsValid k (executed n now) valid follows =
      let (k', (changed, e, ok)) = executing k n now valid in (k', rw e refl, ok)
  handle-IsValid k (pre_prepare_sent n now) valid follows = sending k n now valid
  handle-IsValid k (slow_commit_started n) valid follows = starting_slow k n valid
  handle-IsValid k (prepare_received n id) valid follows = receiving k n id valid

  -- The constructor succeeds and gives a valid controller.
  pub make-IsValid :
      (c f replica_id view seq : ℕ)
      → (k : Controller S) × (make stats c f replica_id view seq ≡ some k) × IsValid k
  unfolding make
  make-IsValid c f replica_id view seq =
      let (w, e, aligned, begins) = make_lem 1 in
      let k : Controller S = record {
        c = c;
        f = f;
        num_of_replicas = 3 * f + 2 * c + 1;
        my_id = replica_id;
        recent_activity = w;
        current_first_path = optimistic_fast;
        current_view = view;
        is_primary = view % (3 * f + 2 * c + 1) == replica_id;
        avg_and_std_of_exec_time = stats.start;
        current_time_to_start_slow_path_milli = 150;
      } in
      let valid : IsValid k = record {
        aligned = aligned;
        starts = ap (λ b. b % 64) begins;
        path = refl;
        time_least = omega arith;
        time_most = omega arith;
        primary = refl;
      } in
      rw e (
        if-Succeeds _ _ _ (λ h. on_become_primary-IsValid stats k seq valid h)
          (λ h. unchanged k valid))

  -- Every controller that can be reached from the constructor by events whose views do not go back
  -- is valid: its window is whole and begins at a number that is 1 modulo 64, its commit path is
  -- usable (the fast path with a threshold only when `c` is not 0), its slow path time is from 20 to
  -- 2000 milliseconds, and it takes itself for the primary exactly of the views that are its own.
  pub Reachable-IsValid : (k : Controller S) → Reachable stats k → IsValid k
  Reachable-IsValid k (created c f replica_id view seq e) =
      let (k', made, valid) = make-IsValid c f replica_id view seq in
      subst (λ x. IsValid x) (some_inj k' k (sym made ∙ e)) valid
  Reachable-IsValid k (handled {k = old} event before follows e) =
      let (k', done, valid) = handle-IsValid old event (Reachable-IsValid old before) follows in
      subst (λ x. IsValid x) (some_inj k' k (sym done ∙ e)) valid

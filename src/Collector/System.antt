-- ===== src/Collector/System.antt =====
-- The collector of one place of the replica's work window, with the thread pool and the replica's
-- queue of internal messages: what ReplicaImp.cpp lets through to the collector.
-- Jobs and results are in flight in any number and any order.
use concord_rcanopus.Base.{
  ℕ, zero, suc, ◌≡◌, ◌<◌, ◌⊎◌, Bool, true, false, not, ◌&&◌, ◌||◌, Option, none, some, List, [],
  ◌∷◌, ◌++◌, map, ◌==◌, if◌then◌else◌, ◌>>=◌, ◌>>◌, assert,
}
use concord_rcanopus.Collector.{
  External, Collector, Job, signatures_processing, combined_sig_verification, InternalMessage,
  combined_sig_failed, combined_sig_succeeded, verify_combined_sig_result, created, is_complete,
  reset_and_free, add_msg_with_partial_signature, add_msg_with_combined_signature, set_expected,
}
use concord_rcanopus.Collector.Completion.{
  on_bad_signatures, on_combined_signature, on_combined_sig_verification, execute,
}

pub data InFlight (Share Sig : Type 0) : Type 0 where
  queued : Job Share Sig → InFlight Share Sig
  reported : InternalMessage Sig → InFlight Share Sig

-- `seq_number` is the sequence number that the place serves, `current_view` the replica's view;
-- `has_pre_prepare` says whether the place's SeqNumInfo has its pre-prepare message.
pub record System (Part Full Share Sig : Type 0) : Type 0 where
  pub collector : Collector Part Full
  pub flying : List (InFlight Share Sig)
  pub current_view : ℕ
  pub seq_number : ℕ
  pub has_pre_prepare : Bool

-- A delivery finds state transfer collecting or not, the view active or not, and a full commit proof
-- of the sequence number there or not. `pre_prepare_arrives` is a message of another primary, with
-- the combination of its digest, view and number.
pub data Action (Part Full : Type 0) : Type 0 where
  partial_arrives : (msg : Part) (replica : ℕ) → Action Part Full
  combined_arrives : (msg : Full) → Action Part Full
  pre_prepare_arrives : (digest : ℕ) → Action Part Full
  job_runs : (index : ℕ) → Action Part Full
  result_arrives :
      (index : ℕ) (is_collecting view_is_active has_full_proof : Bool) → Action Part Full
  reassigned : (view seq : ℕ) → Action Part Full

module _ {Share Sig : Type 0} where
  abbrev pub number_of : InFlight Share Sig → ℕ × ℕ
  number_of (queued (signatures_processing seq view digest required items)) = (view, seq)
  number_of (queued (combined_sig_verification seq view digest sig)) = (view, seq)
  number_of (reported (combined_sig_failed seq view bad)) = (view, seq)
  number_of (reported (combined_sig_succeeded seq view sig)) = (view, seq)
  number_of (reported (verify_combined_sig_result seq view is_valid)) = (view, seq)

-- One is taken out.
abbrev pub pick : {A : Type 0} → ℕ → List A → Option (A × List A)
pick i [] = none
pick zero (x ∷ xs) = some (x, xs)
pick (suc i) (x ∷ xs) = do picked ← pick i xs; some (picked.0, x ∷ picked.1)

module _ {Part Full Share Sig Acc : Type 0} (e : External Part Full Share Sig Acc) where
  -- The collector after an operation, whose jobs join those in flight.
  unfoldable pub absorb :
      Collector Part Full × List (Job Share Sig)
      → System Part Full Share Sig
      → System Part Full Share Sig
  absorb (k, jobs) s = record s { collector = k; flying = map queued jobs ++ s.flying }

  -- `isPrepared` of the place's SeqNumInfo, whose completion is not forced.
  abbrev pub is_prepared : System Part Full Share Sig → Bool
  is_prepared s = s.has_pre_prepare && is_complete s.collector

  -- `onPrepareCombinedSigFailed`, `onPrepareCombinedSigSucceeded` and
  -- `onPrepareVerifyCombinedSigResult`, after their test. The second asserts that the collector now
  -- has its message; where there is no full commit proof, a success is asserted to leave the number
  -- prepared, before the messages that follow are sent.
  unfoldable pub on_result :
      InternalMessage Sig → Bool → System Part Full Share Sig → Option (System Part Full Share Sig)
  on_result (combined_sig_failed seq view bad) has_full_proof s = do
    sent ← on_bad_signatures e seq view bad s.collector
    some (absorb sent s)
  on_result (combined_sig_succeeded seq view sig) has_full_proof s = do
    k ← on_combined_signature e seq view sig s.collector
    assert (is_complete k)
    assert (has_full_proof || is_prepared (record s { collector = k }))
    some (record s { collector = k })
  on_result (verify_combined_sig_result seq view is_valid) has_full_proof s = do
    sent ← on_combined_sig_verification e seq view is_valid s.collector
    assert (not is_valid || has_full_proof || is_prepared (absorb sent s))
    some (absorb sent s)

  -- The test that drops a result: only while the view is active and state transfer is not
  -- collecting, a result of the current view goes to the place of its sequence number.
  abbrev pub is_relevant :
      InternalMessage Sig
      → (is_collecting view_is_active : Bool) → System Part Full Share Sig
      → Bool
  is_relevant m is_collecting view_is_active s =
      not is_collecting
      && view_is_active
      && s.current_view == (number_of {Share = Share} (reported m)).0
      && s.seq_number == (number_of {Share = Share} (reported m)).1

  -- What happens to the job or result that was taken out of those in flight.
  unfoldable pub run_job :
      InFlight Share Sig × List (InFlight Share Sig)
      → System Part Full Share Sig
      → Option (System Part Full Share Sig)
  run_job (queued job, rest) s = do
    m ← execute e job
    some (record s { flying = reported m ∷ rest })
  run_job (reported m, rest) s = some s

  unfoldable pub deliver :
      InFlight Share Sig × List (InFlight Share Sig)
      → (is_collecting view_is_active has_full_proof : Bool) → System Part Full Share Sig
      → Option (System Part Full Share Sig)
  deliver (queued job, rest) is_collecting view_is_active has_full_proof s = some s
  deliver (reported m, rest) is_collecting view_is_active has_full_proof s =
      let s' = record s { flying = rest } in
      if is_relevant m is_collecting view_is_active s
      then on_result m has_full_proof s'
      else some s'

  -- One step; none when an Assert fails.
  unfoldable pub step :
      Action Part Full → System Part Full Share Sig → Option (System Part Full Share Sig)
  step (partial_arrives msg r) s = do
    added ← add_msg_with_partial_signature e msg r s.collector
    some (absorb added.1 s)
  step (combined_arrives msg) s = do
    added ← add_msg_with_combined_signature e msg s.collector
    some (absorb added.1 s)
  step (pre_prepare_arrives digest) s = if s.has_pre_prepare then some s else (do
    sent ← set_expected e s.seq_number s.current_view digest s.collector
    some (absorb sent (record s { has_pre_prepare = true })))
  step (job_runs i) s = elim (pick i s.flying) [ none ↦ some s | some picked ↦ run_job picked s ]
  step (result_arrives i is_collecting view_is_active has_full_proof) s = elim (pick i s.flying) [
    | none ↦ some s
    | some picked ↦ deliver picked is_collecting view_is_active has_full_proof s
  ]
  step (reassigned view seq) s = some (record s {
    collector = reset_and_free s.collector;
    current_view = view;
    seq_number = seq;
    has_pre_prepare = false;
  })

  unfoldable pub run_actions :
      List (Action Part Full) → System Part Full Share Sig → Option (System Part Full Share Sig)
  run_actions [] s = some s
  run_actions (action ∷ actions) s = do s' ← step action s; run_actions actions s'

  -- What the replica sees to: a place is reused only for a later view, or in the same view for a
  -- higher sequence number.
  abbrev pub Allowed : Action Part Full → System Part Full Share Sig → Type 0
  Allowed (reassigned view seq) s =
      (0 < seq) × ((s.current_view < view) ⊎ ((s.current_view ≡ view) × (s.seq_number < seq)))
  Allowed action s = Unit

  abbrev pub started : ℕ → ℕ → System Part Full Share Sig
  started view seq = record {
    collector = created;
    flying = [];
    current_view = view;
    seq_number = seq;
    has_pre_prepare = false;
  }

  -- The systems that runs lead to.
  pub data Reachable : System Part Full Share Sig → Type 0 where
    begins : (view seq : ℕ) → 0 < seq → Reachable (started view seq)
    goes_on :
        {s s' : System Part Full Share Sig} (action : Action Part Full)
        → Reachable s
        → Allowed action s
        → step action s ≡ some s'
        → Reachable s'

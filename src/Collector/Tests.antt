-- ===== src/Collector/Tests.antt =====
-- Runs of a collector that needs two shares of three replicas: a share is valid when it is the digest
-- plus the replica's number, and so is the combined signature when it is the sum of two such shares.
use concord_rcanopus.Base.{
  ℕ, suc, ◌+◌, ◌≡◌, refl, Bool, true, false, Option, none, some, List, [], ◌∷◌, ◌++◌, arith, ◌==◌,
  if◌then◌else◌, ◌>>=◌,
}
use concord_rcanopus.Collector.{
  InternalMessage, combined_sig_succeeded, unknown, Verifier, External, Collector, is_complete,
  created, mark, insert_id, mark_bad, gather, send_job, try_send_to_bk_thread,
  add_msg_with_partial_signature, add_msg_with_combined_signature, set_expected,
}
use concord_rcanopus.Collector.Completion.{
  on_bad_signatures, on_combined_signature, on_combined_sig_verification, bad_shares, add_shares,
  execute,
}
use concord_rcanopus.Collector.System.{
  System, Action, partial_arrives, combined_arrives, pre_prepare_arrives, job_runs, result_arrives,
  step, absorb, run_actions, on_result, run_job, deliver, started, Reachable, begins, goes_on,
}
use concord_rcanopus.Collector.Invariant.{Relies}
use concord_rcanopus.Collector.Runs.{IsValid}
use concord_rcanopus.Collector.Safety.{step-IsValid, run_invariant, reachable_combined_verifies}
use concord_rcanopus.Collector.Lost.{dropped_result_blocks}

-- An accumulator: whether it checks shares, the digest, the sum and the number of the good ones.
abbrev Acc : Type 0
Acc = Bool × ℕ × ℕ × ℕ

abbrev sum_verifier : Verifier ℕ ℕ Acc
sum_verifier = record {
  new_accumulator = λ checks. (checks, 0, 0, 0);
  set_expected_digest = λ digest (checks, d, sum, good). (checks, digest, sum, good);
  add_share = λ share (checks, d, sum, good).
      let good' = if share == d + 1 then suc good else if share == d + 2 then suc good else good in
      ((checks, d, sum + share, good'), good');
  get_full_signed_data = λ (checks, d, sum, good). sum;
  verify = λ digest sig. sig == digest + digest + 3;
}

-- Messages are their signatures.
abbrev external : External ℕ ℕ ℕ ℕ Acc
external = record {
  number_of_required_signatures = 2;
  threshold_verifier = sum_verifier;
  create_combined_signature_msg = λ seq view sig. sig;
  share_of = λ msg. msg;
  signature_of = λ msg. msg;
  pass = λ infos. infos;
}

external-Relies : Relies external
external-Relies = record {
  required = omega arith;
  visits = λ p infos. refl;
  carries = λ seq view sig. refl;
}

abbrev State : Type 0
State = System ℕ ℕ ℕ ℕ

abbrev run : List (Action ℕ ℕ) → State → Option State
run [] s = some s
run (action ∷ rest) s = step external action s >>= run rest

abbrev gathered : List (Action ℕ ℕ)
gathered = partial_arrives 11 1 ∷ partial_arrives 12 2 ∷ pre_prepare_arrives 10 ∷ job_runs 0 ∷ []

abbrev in_place : Collector ℕ ℕ → State
in_place k = record {
  collector = k;
  flying = [];
  current_view = 4;
  seq_number = 7;
  has_pre_prepare = true;
}

-- Both shares are good: the collector completes with their sum.
abbrev complete : State
complete = in_place (record {
  num_of_required_sigs = 2;
  processing_signatures_in_the_background = false;
  number_of_unknown_signatures = 2;
  replicas_info =
      (2, record { partial_sig_msg = some 12; state = unknown })
      ∷ (1, record { partial_sig_msg = some 11; state = unknown })
      ∷ [];
  combined_valid_signature_msg = some 23;
  candidate_combined_signature_msg = none;
  expected_seq_number = 7;
  expected_view = 4;
  expected_digest = 10;
})

completes :
    run (gathered ++ result_arrives 0 false true false ∷ []) (started external 4 7) ≡ some complete
unfolding step created absorb on_result run_job deliver add_msg_with_partial_signature
    add_msg_with_combined_signature set_expected on_bad_signatures on_combined_signature
    on_combined_sig_verification try_send_to_bk_thread send_job gather add_shares bad_shares execute
    mark_bad mark insert_id is_complete
completes = refl

-- A share that is bad is found by the job, and a third replica's share takes its place.
abbrev replaced : List (Action ℕ ℕ)
replaced =
    partial_arrives 11 1
    ∷ pre_prepare_arrives 10
    ∷ partial_arrives 99 2
    ∷ partial_arrives 12 3
    ∷ job_runs 0
    ∷ result_arrives 0 false true false
    ∷ []

abbrev holds : Option State → Option ℕ
holds none = none
holds (some s) = s.collector.combined_valid_signature_msg

bad_share :
    holds
      (run (replaced ++ job_runs 0 ∷ result_arrives 0 false true false ∷ []) (started external 4 7))
    ≡ some 23
unfolding step created absorb on_result run_job deliver add_msg_with_partial_signature
    add_msg_with_combined_signature set_expected on_bad_signatures on_combined_signature
    on_combined_sig_verification try_send_to_bk_thread send_job gather add_shares bad_shares execute
    mark_bad mark insert_id is_complete
bad_share = refl

abbrev after : List (Action ℕ ℕ) → State
after actions = elim (run actions (started external 4 7)) [
  | none ↦ started external 4 7
  | some s ↦ s
]

ready-Reachable :
    Reachable external
      (after (partial_arrives 11 1 ∷ partial_arrives 12 2 ∷ pre_prepare_arrives 10 ∷ []))
unfolding step created absorb add_msg_with_partial_signature set_expected try_send_to_bk_thread
    send_job gather is_complete
ready-Reachable =
    goes_on {s = after (partial_arrives 11 1 ∷ partial_arrives 12 2 ∷ [])} (pre_prepare_arrives 10)
      (goes_on {s = after (partial_arrives 11 1 ∷ [])} (partial_arrives 12 2)
        (goes_on {s = started external 4 7} (partial_arrives 11 1) (begins 4 7 (omega arith)) tt
          refl)
        tt refl)
      tt refl

complete-Reachable : Reachable external complete
unfolding step created absorb on_result run_job deliver add_msg_with_partial_signature
    add_msg_with_combined_signature set_expected on_bad_signatures on_combined_signature
    on_combined_sig_verification try_send_to_bk_thread send_job gather add_shares bad_shares execute
    mark_bad mark insert_id is_complete
complete-Reachable =
    goes_on {s = after gathered} (result_arrives 0 false true false)
      (goes_on
        {s = after (partial_arrives 11 1 ∷ partial_arrives 12 2 ∷ pre_prepare_arrives 10 ∷ [])}
        (job_runs 0) ready-Reachable tt refl)
      tt refl

-- The result is delivered while state transfer collects, and is dropped.
abbrev lost : State
lost = in_place (record complete.collector {
  processing_signatures_in_the_background = true;
  combined_valid_signature_msg = none;
})

lost-Reachable : Reachable external lost
unfolding step created absorb on_result run_job deliver add_msg_with_partial_signature
    add_msg_with_combined_signature set_expected on_bad_signatures on_combined_signature
    on_combined_sig_verification try_send_to_bk_thread send_job gather add_shares bad_shares execute
    mark_bad mark insert_id is_complete
lost-Reachable =
    goes_on {s = after gathered} (result_arrives 0 true true false)
      (goes_on
        {s = after (partial_arrives 11 1 ∷ partial_arrives 12 2 ∷ pre_prepare_arrives 10 ∷ [])}
        (job_runs 0) ready-Reachable tt refl)
      tt refl

abbrev summed : InternalMessage ℕ
summed = combined_sig_succeeded 7 4 23

reported-Reachable : Reachable external (after gathered)
unfolding step created absorb run_job add_msg_with_partial_signature set_expected
    try_send_to_bk_thread send_job gather add_shares execute is_complete
reported-Reachable =
    goes_on {s = after (partial_arrives 11 1 ∷ partial_arrives 12 2 ∷ pre_prepare_arrives 10 ∷ [])}
      (job_runs 0) ready-Reachable tt refl

dropped_result_blocks_example :
    (s' : State) × (run_actions external
        (result_arrives 0 true true false ∷ combined_arrives 23 ∷ [])
        (after gathered)
      ≡ some s')
    × (s'.collector.processing_signatures_in_the_background ≡ true)
    × (s'.collector.combined_valid_signature_msg ≡ none)
unfolding step created absorb run_job add_msg_with_partial_signature set_expected
    try_send_to_bk_thread send_job gather add_shares execute is_complete
dropped_result_blocks_example =
    dropped_result_blocks external external-Relies (after gathered) 0 summed [] true false
      (combined_arrives 23 ∷ []) reported-Reachable refl refl refl

step-IsValid_example :
    (s' : State) × (step external (combined_arrives 23) lost ≡ some s') × IsValid external s'
step-IsValid_example =
    step-IsValid external external-Relies lost (combined_arrives 23)
      (run_invariant external external-Relies lost-Reachable) tt

reachable_combined_verifies_example :
    (sum_verifier.verify complete.collector.expected_digest 23 ≡ true)
    × (complete.collector.expected_seq_number ≡ complete.seq_number)
    × (complete.collector.expected_view ≡ complete.current_view)
reachable_combined_verifies_example =
    reachable_combined_verifies external external-Relies complete 23 complete-Reachable refl

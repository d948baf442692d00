-- ===== src/Checkpoint/Tests.antt =====
-- Runs of the checkpoint in a group of four replicas.
use concord_rcanopus.Base.{ℕ, ◌+◌, ◌*◌, ◌≤◌, ◌≡◌, refl, true, false, some, List, [], ◌∷◌, arith}
use concord_rcanopus.Certificate
use concord_rcanopus.Certificate.Support.{support}
use concord_rcanopus.Certificate.Invariant.{IsValid}
use concord_rcanopus.Certificate.Quorum.{Distinct}
use concord_rcanopus.Replicas
use concord_rcanopus.Checkpoint.{
  CheckpointMsg, equivalent, CheckpointInfo, make, reset_and_free, set_self_execution_time,
  is_checkpoint_certificate_complete, config_of, init, add_checkpoint_msgs, to_actual_msg_type,
  checkpoint_code,
}
use concord_rcanopus.Checkpoint.Stable.{
  add_checkpoint_msgs_complete, add_checkpoint_msgs-quorum, reset_and_free-init,
}
use concord_rcanopus.Checkpoint.Messages.{IsAcceptable, to_actual_msg_type-IsAcceptable}

abbrev four : Replicas.ReplicasInfo
four = record {
  my_id = 0;
  number_of_replicas = 4;
  f_val = 1;
  c_val = 0;
  dynamic_collector_for_partial_proofs = false;
  dynamic_collector_for_execution_proofs = false;
  ids_of_replicas = 0 ∷ 1 ∷ 2 ∷ 3 ∷ [];
  ids_of_peer_replicas = 1 ∷ 2 ∷ 3 ∷ [];
}

abbrev at_150 : ℕ → CheckpointMsg
at_150 sender = record { sender_id = sender; seq_num = 150; state_digest = 77; flags = 0 }

abbrev three_sent : List (CheckpointMsg × ℕ)
three_sent = (at_150 1, 1) ∷ (at_150 2, 2) ∷ (at_150 0, 0) ∷ []

add_checkpoint_msgs-quorum_example :
    (i : CheckpointInfo) × (j : CheckpointInfo) × (c : Certificate.Certificate CheckpointMsg)
    × (init four make ≡ some i)
    × (add_checkpoint_msgs i three_sent ≡ some j)
    × (j.checkpoint_certificate ≡ some c)
    × (is_checkpoint_certificate_complete j ≡ some true
        → Distinct c.msgs
          × ((r : ℕ) × (m : CheckpointMsg) × (Certificate.lookup r c.msgs ≡ some m)
              × (2 * 1 + 0 ≤ support equivalent m c.msgs))
          × (Certificate.is_some (Certificate.lookup 0 c.msgs) ≡ true))
add_checkpoint_msgs-quorum_example = add_checkpoint_msgs-quorum four three_sent refl

abbrev one_sent : Certificate.Certificate CheckpointMsg
one_sent = record {
  config = record {
    self_trust = true;
    self_is_required = true;
    num_of_reps = 4;
    max_fails = 1;
    required = 3;
    self_id = 0;
  };
  msgs = (1, at_150 1) ∷ [];
  classes = record { size = 1; representative = 1 } ∷ [];
  complete = false;
  best_class = some 0;
  size_of_best_class = 1;
  has_trusted_self_class = false;
}

one_sent-IsValid : IsValid equivalent one_sent
unfolding equivalent
one_sent-IsValid = record {
  sound = record {
    counted = ((at_150 1, refl, omega arith), tt);
    best = (record { size = 1; representative = 1 }, refl, omega arith);
    own = λ t. absurd (cc t);
  };
  done = λ d. absurd (cc d);
}

config_four : one_sent.config ≡ config_of four
unfolding config_of
config_four = refl

abbrev executed_once : CheckpointInfo
executed_once = record {
  checkpoint_certificate = some one_sent;
  sent_to_all_or_approved = true;
  executed = 9;
}

reset_and_free-init_example :
    (j : CheckpointInfo) × (reset_and_free executed_once ≡ some j)
    × (init four make ≡ some j)
    × ((t : ℕ) → set_self_execution_time j t ≡ some (record j { executed = t }))
reset_and_free-init_example =
    reset_and_free-init four one_sent executed_once refl one_sent-IsValid config_four refl

to_actual_msg_type-IsAcceptable_example :
    (to_actual_msg_type four checkpoint_code 43 (at_150 1) ≡ some (some (at_150 1))
      → IsAcceptable four 43 (at_150 1))
    × (IsAcceptable four 43 (at_150 1)
        → to_actual_msg_type four checkpoint_code 43 (at_150 1) ≡ some (some (at_150 1)))
to_actual_msg_type-IsAcceptable_example = to_actual_msg_type-IsAcceptable four 43 (at_150 1)

agree : (sender : ℕ) → equivalent (at_150 0) (at_150 sender) ≡ true
unfolding equivalent
agree sender = refl

own_sent :
    Certificate.is_some (Certificate.lookup 0 ((0, at_150 0) ∷ (2, at_150 2) ∷ (1, at_150 1) ∷ []))
    ≡ true
own_sent = refl

add_checkpoint_msgs_complete_example :
    (i : CheckpointInfo) × (j : CheckpointInfo) × (init four make ≡ some i)
    × (add_checkpoint_msgs i three_sent ≡ some j)
    × (is_checkpoint_certificate_complete j ≡ some true)
add_checkpoint_msgs_complete_example =
    add_checkpoint_msgs_complete four (at_150 0) three_sent refl (omega arith)
      (refl, (refl, (refl, tt))) (agree 1, (agree 2, (agree 0, tt))) (omega arith) own_sent

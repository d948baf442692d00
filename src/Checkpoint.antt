-- ===== src/Checkpoint.antt =====
-- CheckpointInfo.cpp and CheckpointMsg.cpp: the checkpoint messages of one sequence number, until a
-- quorum of replicas has the same state.
pub mod Stable
pub mod Messages
mod Tests
use concord_rcanopus.Base.{
  ℕ, ◌+◌, ◌*◌, ◌/◌, ◌%◌, ◌≤◌, ◌≡◌, Bool, true, false, not, ◌&&◌, ◌||◌, Option, none, some, List, [],
  ◌∷◌, bit_and, bit_or, ltb, leb, ◌==◌, if◌then◌else◌, ◌>>=◌, ◌>>◌, assert,
}
use concord_rcanopus.Certificate
use concord_rcanopus.Replicas
use concord_rcanopus.ViewChange.Restrictions.{checkpoint_window_size}

-- The message's fields; a digest is a number, 0 for the zero digest.
pub record CheckpointMsg : Type 0 where
  pub sender_id : ℕ
  pub seq_num : ℕ
  pub state_digest : ℕ
  pub flags : ℕ

-- The constructor: bit 0 of the flags says that the state is stable.
pub make_msg : ℕ → ℕ → ℕ → Bool → CheckpointMsg
make_msg sender seq digest stable = record {
  sender_id = sender;
  seq_num = seq;
  state_digest = digest;
  flags = if stable then bit_or 0 1 else 0;
}

pub is_stable_state : CheckpointMsg → Bool
is_stable_state m = not (bit_and m.flags 1 == 0)

unfoldable pub set_state_as_stable : CheckpointMsg → CheckpointMsg
set_state_as_stable m = record m { flags = bit_or m.flags 1 }

pub clone : CheckpointMsg → CheckpointMsg
clone m = make_msg m.sender_id m.seq_num m.state_digest (is_stable_state m)

abbrev pub size_of_header : ℕ
size_of_header = 43

abbrev pub checkpoint_code : ℕ
checkpoint_code = 100

-- `ToActualMsgType`, for a message of the type and size given, whose body reads as `m`.
pub to_actual_msg_type :
    Replicas.ReplicasInfo → ℕ → ℕ → CheckpointMsg → Option (Option CheckpointMsg)
to_actual_msg_type info type size m = do
  assert (type == checkpoint_code)
  some (
      if ltb size size_of_header
        || m.sender_id == info.my_id
        || not (Replicas.is_id_of_replica info m.sender_id)
        || not (m.seq_num % checkpoint_window_size == 0)
        || m.state_digest == 0
      then none
      else some m)

-- `CheckpointMsgCmp`.
pub equivalent : CheckpointMsg → CheckpointMsg → Bool
equivalent a b = a.seq_num == b.seq_num && a.state_digest == b.state_digest

abbrev pub min_time : ℕ
min_time = 0

-- The certificate is `none` while its pointer is null.
pub record CheckpointInfo : Type 0 where
  pub checkpoint_certificate : Option (Certificate.Certificate CheckpointMsg)
  pub sent_to_all_or_approved : Bool
  pub executed : ℕ

abbrev pub make : CheckpointInfo
make = record {
  checkpoint_certificate = none;
  sent_to_all_or_approved = false;
  executed = min_time;
}

unfoldable pub reset_and_free : CheckpointInfo → Option CheckpointInfo
reset_and_free i = do
  c ← i.checkpoint_certificate
  some (record {
    checkpoint_certificate = some (Certificate.reset_and_free c);
    sent_to_all_or_approved = false;
    executed = min_time;
  })

pub add_checkpoint_msg : CheckpointInfo → CheckpointMsg → ℕ → Option (CheckpointInfo × Bool)
add_checkpoint_msg i msg replica_id = do
  c ← i.checkpoint_certificate
  (c', added) ← Certificate.add_msg equivalent c msg replica_id
  some (record i { checkpoint_certificate = some c' }, added)

pub is_checkpoint_certificate_complete : CheckpointInfo → Option Bool
is_checkpoint_certificate_complete i = do
  c ← i.checkpoint_certificate
  some (Certificate.is_complete c)

unfoldable pub self_checkpoint_msg : CheckpointInfo → Option (Option CheckpointMsg)
self_checkpoint_msg i = do c ← i.checkpoint_certificate; some (Certificate.self_msg c)

unfoldable pub try_to_mark_checkpoint_certificate_completed : CheckpointInfo → Option CheckpointInfo
try_to_mark_checkpoint_certificate_completed i = do
  c ← i.checkpoint_certificate
  some (record i { checkpoint_certificate = some (Certificate.try_to_mark_complete c) })

pub set_self_execution_time : CheckpointInfo → ℕ → Option CheckpointInfo
set_self_execution_time i t = do assert (i.executed == min_time); some (record i { executed = t })

unfoldable pub set_checkpoint_sent_all_or_approved : CheckpointInfo → CheckpointInfo
set_checkpoint_sent_all_or_approved i = record i { sent_to_all_or_approved = true }

-- The certificate of a group: the own message counts and is needed, and 2F + C + 1 must agree.
pub config_of : Replicas.ReplicasInfo → Certificate.Config
config_of info = record {
  self_trust = true;
  self_is_required = true;
  num_of_reps = info.number_of_replicas;
  max_fails = info.f_val;
  required = 2 * info.f_val + info.c_val + 1;
  self_id = info.my_id;
}

pub init : Replicas.ReplicasInfo → CheckpointInfo → Option CheckpointInfo
init info i = do
  assert (info.number_of_replicas == 3 * info.f_val + 2 * info.c_val + 1)
  some (record i { checkpoint_certificate = some (Certificate.make (config_of info)) })

-- The messages of several replicas, in their order.
pub add_checkpoint_msgs : CheckpointInfo → List (CheckpointMsg × ℕ) → Option CheckpointInfo
add_checkpoint_msgs i [] = some i
add_checkpoint_msgs i ((msg, r) ∷ rest) = do
  (i', added) ← add_checkpoint_msg i msg r
  add_checkpoint_msgs i' rest

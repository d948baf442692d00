-- ===== src/Collector.antt =====
-- CollectorOfThresholdSignatures.hpp: partial signatures are gathered until a job of the thread pool
-- can combine them, and a combined signature that arrives is verified by a job. Completion has the
-- jobs and the handlers of their results.
-- A message pointer is an Option, a failed Assert is none, and an operation returns the jobs that it
-- adds to the pool. The template's parameters and the threshold verifier are those of `External`.
pub mod Completion
pub mod Entries
pub mod Shares
pub mod Marking
pub mod System
pub mod Invariant
pub mod Sending
pub mod Adding
pub mod Results
pub mod Picking
pub mod Flight
pub mod Runs
pub mod Safety
pub mod Lost
mod Tests
use concord_rcanopus.Base.{
  ℕ, suc, ◌+◌, ◌-◌, ◌%◌, ◌^◌, Bool, true, false, not, ◌&&◌, ◌||◌, Option, none, some, List, [], ◌∷◌,
  ltb, leb, ◌==◌, if◌then◌else◌, length, ◌>>=◌, ◌>>◌, assert,
}

pub data SigState : Type 0 where
  unknown : SigState
  invalid : SigState

pub record RepInfo (Part : Type 0) : Type 0 where
  pub partial_sig_msg : Option Part
  pub state : SigState

-- `replicasInfo`, as the list of its entries.
abbrev pub Infos : Type 0 → Type 0
Infos Part = List (ℕ × RepInfo Part)

-- `IThresholdVerifier` and the accumulators that it makes.
pub record Verifier (Share Sig Acc : Type 0) : Type 0 where
  pub new_accumulator : Bool → Acc
  pub set_expected_digest : ℕ → Acc → Acc
  pub add_share : Share → Acc → Acc × ℕ
  pub get_full_signed_data : Acc → Sig
  pub verify : ℕ → Sig → Bool

-- `ExternalFunc`, the signatures in the messages, and the order of a pass over the unordered map.
pub record External (Part Full Share Sig Acc : Type 0) : Type 0 where
  pub number_of_required_signatures : ℕ
  pub threshold_verifier : Verifier Share Sig Acc
  pub create_combined_signature_msg : ℕ → ℕ → Sig → Full
  pub share_of : Part → Share
  pub signature_of : Full → Sig
  pub pass : Infos Part → Infos Part

pub record Collector (Part Full : Type 0) : Type 0 where
  pub num_of_required_sigs : ℕ
  pub processing_signatures_in_the_background : Bool
  pub number_of_unknown_signatures : ℕ
  pub replicas_info : Infos Part
  pub combined_valid_signature_msg : Option Full
  pub candidate_combined_signature_msg : Option Full
  pub expected_seq_number : ℕ
  pub expected_view : ℕ
  pub expected_digest : ℕ

pub data Job (Share Sig : Type 0) : Type 0 where
  signatures_processing :
      (seq_number view digest required : ℕ) (items : List (ℕ × Share)) → Job Share Sig
  combined_sig_verification : (seq_number view digest : ℕ) (sig : Sig) → Job Share Sig

-- The results that a job pushes to the replica's incoming messages.
pub data InternalMessage (Sig : Type 0) : Type 0 where
  combined_sig_failed : (seq_number view : ℕ) (bad_replicas : List ℕ) → InternalMessage Sig
  combined_sig_succeeded : (seq_number view : ℕ) (sig : Sig) → InternalMessage Sig
  verify_combined_sig_result : (seq_number view : ℕ) (is_valid : Bool) → InternalMessage Sig

abbrev pub is_invalid : SigState → Bool
is_invalid unknown = false
is_invalid invalid = true

abbrev pub is_none : {A : Type 0} → Option A → Bool
is_none none = true
is_none (some a) = false

-- `count` of the map.
abbrev pub has : {Part : Type 0} → ℕ → Infos Part → Bool
has r [] = false
has r ((id, info) ∷ rest) = r == id || has r rest

-- `replicasInfo[r].state = Invalid`; an id that is not there gets an entry without a message.
pub mark : {Part : Type 0} → ℕ → Infos Part → Infos Part
mark r [] = (r, record { partial_sig_msg = none; state = invalid }) ∷ []
mark r ((id, info) ∷ rest) =
    let rest' = mark r rest in
    if r == id then (id, record info { state = invalid }) ∷ rest else (id, info) ∷ rest'

pub find_message : {Part : Type 0} → ℕ → Infos Part → Option Part
find_message r [] = none
find_message r ((id, info) ∷ rest) = if r == id then info.partial_sig_msg else find_message r rest

-- A set of replicas, as the list of its members.
pub insert_id : ℕ → List ℕ → List ℕ
insert_id r [] = r ∷ []
insert_id r (x ∷ rest) = let rest' = insert_id r rest in if r == x then x ∷ rest else x ∷ rest'

pub created : {Part Full : Type 0} → Collector Part Full
created = record {
  num_of_required_sigs = 0;
  processing_signatures_in_the_background = false;
  number_of_unknown_signatures = 0;
  replicas_info = [];
  combined_valid_signature_msg = none;
  candidate_combined_signature_msg = none;
  expected_seq_number = 0;
  expected_view = 0;
  expected_digest = 0;
}

module _ {Part Full : Type 0} where
  pub has_partial_msg_from_replica : ℕ → Collector Part Full → Bool
  has_partial_msg_from_replica r k = has r k.replicas_info

  pub get_partial_msg_from_replica : ℕ → Collector Part Full → Option Part
  get_partial_msg_from_replica r k =
      if not (has r k.replicas_info) then none else find_message r k.replicas_info

  pub is_complete : Collector Part Full → Bool
  is_complete k = not (is_none k.combined_valid_signature_msg)

  -- The zero digest is 0; values that were not expected are 0 already.
  pub reset_content : Collector Part Full → Collector Part Full
  reset_content k = record k {
    processing_signatures_in_the_background = false;
    number_of_unknown_signatures = 0;
    replicas_info = [];
    combined_valid_signature_msg = none;
    candidate_combined_signature_msg = none;
    expected_seq_number = 0;
    expected_view = if not (k.expected_seq_number == 0) then 0 else k.expected_view;
    expected_digest = if not (k.expected_seq_number == 0) then 0 else k.expected_digest;
  }

  -- The test for a collector that is already empty.
  abbrev is_empty : Collector Part Full → Bool
  is_empty k =
      length k.replicas_info == 0
      && is_none k.combined_valid_signature_msg
      && is_none k.candidate_combined_signature_msg
      && k.expected_seq_number == 0

  pub reset_and_free : Collector Part Full → Collector Part Full
  reset_and_free k = if is_empty k then k else reset_content k

  pub get_and_reset : Collector Part Full → Option Full × Collector Part Full
  get_and_reset k = (
    k.combined_valid_signature_msg,
    if is_empty k then k else reset_content (record k { combined_valid_signature_msg = none }),
  )

  -- The entries of the replicas whose shares failed.
  pub mark_bad : List ℕ → Collector Part Full → Collector Part Full
  mark_bad [] k = k
  mark_bad (r ∷ bad) k = mark_bad bad (record k {
    replicas_info = mark r k.replicas_info;
    number_of_unknown_signatures = (k.number_of_unknown_signatures + (2 ^ 16 - 1)) % 2 ^ 16;
  })

module _ {Part Full Share Sig Acc : Type 0} (e : External Part Full Share Sig Acc) where
  -- The loop that adds shares to the job, of which `taken` are there; a missing message is
  -- dereferenced, and the job's `add` asserts that it has room.
  pub gather : ℕ → ℕ → Infos Part → Option (List (ℕ × Share))
  gather required taken [] = some []
  gather required taken ((id, info) ∷ rest) =
      let stop = gather required taken rest in
      let next = gather required (taken + 1) rest in
      if is_invalid info.state then (if taken == required then some [] else stop) else (do
        msg ← info.partial_sig_msg
        assert (ltb taken required)
        items ← if taken + 1 == required then some [] else next
        some ((id, e.share_of msg) ∷ items))

  -- The end of `trySendToBkThread`, after the test for a job in progress.
  pub send_job : Collector Part Full → Option (Collector Part Full × List (Job Share Sig))
  send_job k = elim k.candidate_combined_signature_msg [
    | some full ↦ some (
      record k { processing_signatures_in_the_background = true },
      combined_sig_verification k.expected_seq_number k.expected_view k.expected_digest
            (e.signature_of full)
          ∷ [],
    )
    | none ↦
        if leb k.num_of_required_sigs k.number_of_unknown_signatures
        then (do
          items ← gather k.num_of_required_sigs 0 (e.pass k.replicas_info)
          assert (length items == k.num_of_required_sigs)
          some (
            record k { processing_signatures_in_the_background = true },
            signatures_processing k.expected_seq_number k.expected_view k.expected_digest
                  k.num_of_required_sigs items
                ∷ [],
          ))
        else some (k, [])
  ]

  pub try_send_to_bk_thread :
      Collector Part Full → Option (Collector Part Full × List (Job Share Sig))
  try_send_to_bk_thread k = do
    assert (is_none k.combined_valid_signature_msg)
    let k' = record k {
      num_of_required_sigs =
          if k.num_of_required_sigs == 0
          then e.number_of_required_signatures
          else k.num_of_required_sigs;
    }
    (if k.processing_signatures_in_the_background || k.expected_seq_number == 0
        then some (k', [])
        else send_job k')

  -- The result also says whether the message was taken.
  pub add_msg_with_partial_signature :
      Part → ℕ → Collector Part Full → Option (Bool × (Collector Part Full × List (Job Share Sig)))
  add_msg_with_partial_signature msg r k =
      if is_complete k || has r k.replicas_info then some (false, (k, [])) else (do
        sent ← try_send_to_bk_thread (record k {
          replicas_info =
              (r, record { partial_sig_msg = some msg; state = unknown }) ∷ k.replicas_info;
          number_of_unknown_signatures = (k.number_of_unknown_signatures + 1) % 2 ^ 16;
        })
        some (true, sent))

  pub add_msg_with_combined_signature :
      Full → Collector Part Full → Option (Bool × (Collector Part Full × List (Job Share Sig)))
  add_msg_with_combined_signature msg k =
      if is_complete k || not (is_none k.candidate_combined_signature_msg)
      then some (false, (k, []))
      else (do
        sent ← try_send_to_bk_thread (record k { candidate_combined_signature_msg = some msg })
        some (true, sent))

  pub set_expected :
      ℕ → ℕ → ℕ → Collector Part Full → Option (Collector Part Full × List (Job Share Sig))
  set_expected seq view digest k = do
    assert (not (seq == 0))
    assert (k.expected_seq_number == 0)
    assert (not k.processing_signatures_in_the_background)
    try_send_to_bk_thread
        (record k { expected_seq_number = seq; expected_view = view; expected_digest = digest })

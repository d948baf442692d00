-- ===== src/ViewsManager.antt =====
-- ViewsManager.cpp and its header: which view a replica is in, and the messages that it needs to leave
-- one and to enter the next. A message pointer is an Option, a set of replicas is a list of marks, one
-- for each of the N replicas, and a failed Assert or an index out of bounds is none.
pub mod Pending
pub mod Missing
pub mod Entering
pub mod Exit
pub mod Numbers
pub mod Quorum
pub mod Arrays
pub mod Handing
pub mod Moving
pub mod Invariant
pub mod Entered
pub mod Leaving
pub mod Safety
mod Tests
use concord_rcanopus.Base.{
  ℕ, zero, suc, ◌+◌, ◌-◌, ◌*◌, Bool, true, false, not, ◌&&◌, ◌||◌, Option, none, some, List, [],
  ◌∷◌, ◌++◌, ltb, leb, ◌==◌, if◌then◌else◌, length, get_elem?, set, replicate, ◌>>=◌, ◌>>◌, assert,
}
use concord_rcanopus.Replicas.{ReplicasInfo, primary_of_view}
use concord_rcanopus.ViewChange.{
  PreparedCertificate, Element, ViewChangeMsg, Iterator, go_to_at_least, get_current,
}
use concord_rcanopus.ViewChange.Restrictions.{Restriction, sort_desc, work_window_size}

-- `ViewChangeMsg` with the replica that generated it.
pub record SignedViewChange : Type 0 where
  pub id_of_generated_replica : ℕ
  pub message : ViewChangeMsg

-- The elements are the replicas of the view change messages that are used, with their digests.
pub record NewViewMsg : Type 0 where
  pub sender_id : ℕ
  pub new_view : ℕ
  pub elements : List (ℕ × ℕ)

pub record PrePrepareMsg : Type 0 where
  pub seq_number : ℕ
  pub view_number : ℕ
  pub digest_of_requests : ℕ
  pub is_null : Bool

pub record PrepareFullMsg : Type 0 where
  pub seq_number : ℕ
  pub view_number : ℕ
  pub signature : List ℕ

pub record PrevViewInfo : Type 0 where
  pub pre_prepare : Option PrePrepareMsg
  pub has_all_requests : Bool
  pub prepare_full : Option PrepareFullMsg

pub data Stat : Type 0 where
  no_view : Stat
  pending : Stat
  pending_with_restrictions : Stat
  in_view : Stat

-- `collectionOfPrePrepareMsgs` is a map from sequence numbers.
pub record ViewsManager : Type 0 where
  pub replicas_info : ReplicasInfo
  pub stat : Stat
  pub my_latest_active_view : ℕ
  pub my_latest_pending_view : ℕ
  pub view_change_messages : List (Option SignedViewChange)
  pub new_view_messages : List (Option NewViewMsg)
  pub view_change_msgs_of_pending_view : List (Option SignedViewChange)
  pub new_view_msg_of_pending_view : Option NewViewMsg
  pub min_restriction : ℕ
  pub max_restriction : ℕ
  pub restrictions : List Restriction
  pub pre_prepare_msgs_of_restrictions : List (Option PrePrepareMsg)
  pub collection_of_pre_prepare_msgs : List (ℕ × PrePrepareMsg)
  pub lower_bound_stable : ℕ
  pub debug_highest_known_stable : ℕ
  pub debug_highest_view : ℕ

-- Digests and signatures: `calcCombination`, the threshold verifier, the digest of a null request and
-- of a view change message.
pub record Digests : Type 0 where
  pub combine : ℕ → ℕ → ℕ → ℕ
  pub verify : ℕ → List ℕ → Bool
  pub null_digest : ℕ
  pub digest_of_view_change : SignedViewChange → ℕ

abbrev pub is_some : {A : Type 0} → Option A → Bool
is_some none = false
is_some (some a) = true

abbrev pub is_in_view : Stat → Bool
is_in_view in_view = true
is_in_view stat = false

abbrev pub is_no_view : Stat → Bool
is_no_view no_view = true
is_no_view stat = false

abbrev pub is_pending : Stat → Bool
is_pending pending = true
is_pending stat = false

abbrev pub is_with_restrictions : Stat → Bool
is_with_restrictions pending_with_restrictions = true
is_with_restrictions stat = false

-- Whether a view change message is there and is for the view.
abbrev pub is_for_view : ℕ → Option SignedViewChange → Bool
is_for_view v none = false
is_for_view v (some vc) = vc.message.new_view == v

-- The number of view change messages that a new view needs, `SMAJOR`.
abbrev pub quorum : ReplicasInfo → ℕ
quorum r = 2 * r.f_val + 2 * r.c_val + 1

-- The constructor.
pub make : ReplicasInfo → Option ViewsManager
make r = do
  assert (r.number_of_replicas == 3 * r.f_val + 2 * r.c_val + 1)
  some (record {
    replicas_info = r;
    stat = in_view;
    my_latest_active_view = 0;
    my_latest_pending_view = 0;
    view_change_messages = replicate r.number_of_replicas none;
    new_view_messages = replicate r.number_of_replicas none;
    view_change_msgs_of_pending_view = replicate r.number_of_replicas none;
    new_view_msg_of_pending_view = none;
    min_restriction = 0;
    max_restriction = 0;
    restrictions = replicate work_window_size (record { is_null = true; digest = 0 });
    pre_prepare_msgs_of_restrictions = replicate work_window_size none;
    collection_of_pre_prepare_msgs = [];
    lower_bound_stable = 0;
    debug_highest_known_stable = 0;
    debug_highest_view = 0;
  })

-- `includesViewChangeFromReplica`: the elements are sorted by replica.
pub includes_view_change : List (ℕ × ℕ) → ℕ → ℕ → Bool
includes_view_change [] id digest = false
includes_view_change ((curr, d) ∷ rest) id digest =
    let later = includes_view_change rest id digest in
    if curr == id then digest == d else if ltb id curr then false else later

pub find_pre_prepare : ℕ → List (ℕ × PrePrepareMsg) → Option PrePrepareMsg
find_pre_prepare s [] = none
find_pre_prepare s ((t, pp) ∷ rest) = if s == t then some pp else find_pre_prepare s rest

pub put_pre_prepare : ℕ → PrePrepareMsg → List (ℕ × PrePrepareMsg) → List (ℕ × PrePrepareMsg)
put_pre_prepare s pp [] = (s, pp) ∷ []
put_pre_prepare s pp ((t, old) ∷ rest) =
    let later = put_pre_prepare s pp rest in if s == t then (t, pp) ∷ rest else (t, old) ∷ later

-- The views above the latest pending one, of the messages from the index `i` on, where the own latest
-- message stands for that of its index.
pub relevant_views : ℕ → ℕ → Option SignedViewChange → ℕ → List (Option SignedViewChange) → List ℕ
relevant_views latest my_id mine i [] = []
relevant_views latest my_id mine i (vc ∷ rest) =
    let later = relevant_views latest my_id mine (i + 1) rest in
    elim (if i == my_id then mine else vc) [
      | none ↦ later
      | some m ↦ if ltb latest m.message.new_view then m.message.new_view ∷ later else later
    ]

-- The largest correct and the largest agreed view, from the views that are relevant.
pub view_numbers : ℕ → ℕ → ℕ → List ℕ → Option (ℕ × ℕ)
view_numbers latest correct smajor views =
    let sorted = sort_desc views in
    if ltb (length views) correct then some (latest, latest) else (do
      highest ← get_elem? sorted 0
      lowest ← get_elem? sorted (length views - 1)
      assert (leb lowest highest)
      known ← get_elem? sorted (correct - 1)
      (if ltb (length views) smajor
          then some (known, latest)
          else (do agreed ← get_elem? sorted (smajor - 1); some (known, agreed))))

module _ (d : Digests) where
  pub get_my_latest_view_change_msg : ViewsManager → Option (Option SignedViewChange)
  get_my_latest_view_change_msg k = do
    used ← get_elem? k.view_change_msgs_of_pending_view k.replicas_info.my_id
    kept ← get_elem? k.view_change_messages k.replicas_info.my_id
    let vc = if is_some used then used else kept
    assert (is_some vc || k.my_latest_pending_view == 0)
    some vc

  pub add_new_view : NewViewMsg → ViewsManager → Option (Bool × ViewsManager)
  add_new_view m k = do
    assert (not (m.sender_id == k.replicas_info.my_id))
    assert (m.sender_id == primary_of_view k.replicas_info m.new_view)
    (if leb m.new_view k.my_latest_pending_view then some (false, k) else (do
      old ← get_elem? k.new_view_messages m.sender_id
      some (true, record k { new_view_messages = set k.new_view_messages m.sender_id (some m) })))

  -- The cases in which a view change message is ignored, from the new view message of the view's
  -- primary and the previous message of the replica.
  pub ignores : Option NewViewMsg → Option SignedViewChange → ℕ → ℕ → Bool
  ignores none prev v id = false
  ignores (some nv) none v id = ltb v nv.new_view
  ignores (some nv) (some prev) v id =
      ltb v nv.new_view
      || (nv.new_view == v
          && prev.message.new_view == v
          && includes_view_change nv.elements id (d.digest_of_view_change prev))

  pub add_view_change : SignedViewChange → ViewsManager → Option (Bool × ViewsManager)
  add_view_change m k = do
    let v = m.message.new_view
    let id = m.id_of_generated_replica
    assert (not (id == k.replicas_info.my_id))
    (if leb v k.my_latest_pending_view then some (false, k) else (do
      nv ← get_elem? k.new_view_messages (primary_of_view k.replicas_info v)
      prev ← get_elem? k.view_change_messages id
      (if ignores nv prev v id
          then some (false, k)
          else some
              (true, record k { view_change_messages = set k.view_change_messages id (some m) }))))

  pub compute_correct_relevant_view_numbers : ViewsManager → Option (ℕ × ℕ)
  compute_correct_relevant_view_numbers k = do
    mine ← get_my_latest_view_change_msg k
    view_numbers k.my_latest_pending_view (k.replicas_info.f_val + 1) (quorum k.replicas_info) (
        relevant_views k.my_latest_pending_view k.replicas_info.my_id mine 0 k.view_change_messages)

  pub has_new_view_message : ℕ → ViewsManager → Option Bool
  has_new_view_message v k = do
    assert (leb k.my_latest_pending_view v)
    (if v == k.my_latest_pending_view then some true else (do
      nv ← get_elem? k.new_view_messages (primary_of_view k.replicas_info v)
      some (elim nv [ none ↦ false | some m ↦ m.new_view == v ])))

  pub has_view_change_message_for_future_view : ℕ → ViewsManager → Option Bool
  has_view_change_message_for_future_view id k = do
    assert (ltb id k.replicas_info.number_of_replicas)
    (if not (is_no_view k.stat) then some true else (do
      vc ← get_elem? k.view_change_messages id
      some (elim vc [ none ↦ false | some m ↦ ltb k.my_latest_pending_view m.message.new_view ])))

  pub get_my_new_view_msg_for_current_view : ViewsManager → Option NewViewMsg
  get_my_new_view_msg_for_current_view k = do
    assert (is_in_view k.stat)
    assert (k.replicas_info.my_id == primary_of_view k.replicas_info k.my_latest_active_view)
    r ← k.new_view_msg_of_pending_view
    assert (r.sender_id == k.replicas_info.my_id)
    assert (r.new_view == k.my_latest_active_view)
    some r

  pub get_new_view_msg_for_current_view : ViewsManager → Option NewViewMsg
  get_new_view_msg_for_current_view k = do
    assert (is_in_view k.stat)
    r ← k.new_view_msg_of_pending_view
    assert (r.new_view == k.my_latest_active_view)
    some r

  pub stable_lower_bound_when_entered_to_view : ViewsManager → Option ℕ
  stable_lower_bound_when_entered_to_view k = do
    assert (is_in_view k.stat)
    some k.lower_bound_stable

-- The first `room` messages that are there, which are for the view.
pub present_messages : ℕ → ℕ → List (Option SignedViewChange) → Option (List SignedViewChange)
present_messages v room [] = some []
present_messages v zero (m ∷ rest) = some []
present_messages v (suc room) (none ∷ rest) = present_messages v (suc room) rest
present_messages v (suc room) (some vc ∷ rest) = do
  assert (vc.message.new_view == v)
  later ← present_messages v room rest
  some (vc ∷ later)

pub get_view_change_msgs_for_current_view : ViewsManager → Option (List SignedViewChange)
get_view_change_msgs_for_current_view k = do
  assert (is_in_view k.stat)
  found ←
      present_messages k.my_latest_active_view (quorum k.replicas_info)
        k.view_change_msgs_of_pending_view
  assert (length found == quorum k.replicas_info)
  some found

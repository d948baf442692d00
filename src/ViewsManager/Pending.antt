-- ===== src/ViewsManager/Pending.antt =====
-- ViewsManager.cpp: making a view pending, as its primary and as another replica, and forgetting it.
-- The loops over the window's numbers run along the arrays, `n` for the entries left to visit.
use concord_rcanopus.Base.{
  ℕ, zero, suc, ◌+◌, ◌-◌, Bool, true, false, not, ◌&&◌, Option, none, some, List, [], ◌∷◌, map, ltb,
  ◌==◌, if◌then◌else◌, get_elem?, set, ◌>>=◌, ◌>>◌, assert,
}
use concord_rcanopus.Replicas.{primary_of_view}
use concord_rcanopus.ViewsManager.{
  SignedViewChange, NewViewMsg, PrePrepareMsg, ViewsManager, Digests, is_some, is_for_view, quorum,
  includes_view_change,
}

abbrev pub max : ℕ → ℕ → ℕ
max a b = if ltb a b then b else a

abbrev pub min : ℕ → ℕ → ℕ
min a b = if ltb b a then b else a

-- The entries of the restricted numbers are cleared; none past the window.
unfoldable pub clear_range : ℕ → List (Option PrePrepareMsg) → Option (List (Option PrePrepareMsg))
clear_range zero pps = some pps
clear_range (suc n) [] = none
clear_range (suc n) (pp ∷ pps) = do later ← clear_range n pps; some (none ∷ later)

abbrev pub cleared : {A B : Type 0} → List A → List (Option B)
cleared xs = map (λ x. none) xs

abbrev pub cleared_restrictions : ViewsManager → Option (List (Option PrePrepareMsg))
cleared_restrictions k =
    if not (k.min_restriction == 0)
    then clear_range (k.max_restriction + 1 - k.min_restriction) k.pre_prepare_msgs_of_restrictions
    else some k.pre_prepare_msgs_of_restrictions

-- `resetDataOfLatestPendingAndKeepMyViewChange`.
unfoldable pub reset_data_of_latest_pending : ViewsManager → Option ViewsManager
reset_data_of_latest_pending k =
    if not (is_some k.new_view_msg_of_pending_view) then some k else (do
      mine ← get_elem? k.view_change_msgs_of_pending_view k.replicas_info.my_id
      pps ← cleared_restrictions k
      some (record k {
        view_change_messages =
            if is_some mine
            then set k.view_change_messages k.replicas_info.my_id mine
            else k.view_change_messages;
        pre_prepare_msgs_of_restrictions = pps;
        min_restriction = 0;
        max_restriction = if not (k.min_restriction == 0) then 0 else k.max_restriction;
        view_change_msgs_of_pending_view = cleared k.view_change_msgs_of_pending_view;
        new_view_msg_of_pending_view = none;
      }))

-- The replica itself and the first `room` others with a message for the view, as marks from the
-- index `i` on.
unfoldable pub mark_as_primary : ℕ → ℕ → ℕ → ℕ → List (Option SignedViewChange) → List Bool
mark_as_primary my_id v i room [] = []
mark_as_primary my_id v i room (vc ∷ rest) =
    let own = mark_as_primary my_id v (i + 1) room rest in
    let taken = mark_as_primary my_id v (i + 1) (room - 1) rest in
    if i == my_id
    then true ∷ own
    else if is_for_view v vc && ltb 0 room
    then true ∷ taken
    else false ∷ own

unfoldable pub count_marks : List Bool → ℕ
count_marks [] = 0
count_marks (b ∷ rest) = let later = count_marks rest in if b then suc later else later

-- The marked messages move to the pending view's, where there must be none.
unfoldable pub move_marked :
    List Bool
    → List (Option SignedViewChange)
    → List (Option SignedViewChange)
    → Option (List (Option SignedViewChange) × List (Option SignedViewChange))
move_marked [] kept used = some (kept, used)
move_marked (b ∷ marks) [] used = none
move_marked (b ∷ marks) (vc ∷ kept) [] = none
move_marked (false ∷ marks) (vc ∷ kept) (u ∷ used) = do
  moved ← move_marked marks kept used
  some (vc ∷ moved.0, u ∷ moved.1)
move_marked (true ∷ marks) (vc ∷ kept) (u ∷ used) = do
  moved ← move_marked marks kept used
  assert (not (is_some u))
  some (none ∷ moved.0, vc ∷ moved.1)

abbrev pub is_older : ℕ → Option NewViewMsg → Bool
is_older v none = true
is_older v (some nv) = ltb nv.new_view v

module _ (d : Digests) where
  -- The elements of the new view message: the marked replicas with their messages' digests.
  unfoldable pub elements_of :
      ℕ → ℕ → List Bool → List (Option SignedViewChange) → Option (List (ℕ × ℕ))
  elements_of v i [] msgs = some []
  elements_of v i (b ∷ marks) [] = none
  elements_of v i (false ∷ marks) (m ∷ msgs) = elements_of v (i + 1) marks msgs
  elements_of v i (true ∷ marks) (m ∷ msgs) = do
    vc ← m
    assert (vc.message.new_view == v)
    assert (not (d.digest_of_view_change vc == 0))
    later ← elements_of v (i + 1) marks msgs
    some ((i, d.digest_of_view_change vc) ∷ later)

  unfoldable pub try_move_to_pending_view_as_primary :
      ℕ → ViewsManager → Option (Bool × ViewsManager)
  try_move_to_pending_view_as_primary v k = do
    let my_id = k.replicas_info.my_id
    assert (ltb k.my_latest_pending_view v)
    assert (primary_of_view k.replicas_info v == my_id)
    k1 ← reset_data_of_latest_pending k
    mine ← get_elem? k1.view_change_messages my_id
    assert (is_for_view v mine)
    prev ← get_elem? k1.new_view_messages my_id
    assert (is_older v prev)
    let k2 = record k1 { new_view_messages = set k1.new_view_messages my_id none }
    let marks = mark_as_primary my_id v 0 (quorum k.replicas_info - 1) k2.view_change_messages
    (if ltb (count_marks marks) (quorum k.replicas_info) then some (false, k2) else (do
      assert (count_marks marks == quorum k.replicas_info)
      elements ← elements_of v 0 marks k2.view_change_messages
      moved ← move_marked marks k2.view_change_messages k2.view_change_msgs_of_pending_view
      assert (not (is_some k2.new_view_msg_of_pending_view))
      some (
        true,
        record k2 {
          view_change_messages = moved.0;
          view_change_msgs_of_pending_view = moved.1;
          new_view_msg_of_pending_view =
              some (record { sender_id = my_id; new_view = v; elements = elements });
          my_latest_pending_view = v;
        },
      )))

  -- The messages for the view that the new view message includes.
  unfoldable pub mark_included : ℕ → List (ℕ × ℕ) → List (Option SignedViewChange) → List Bool
  mark_included v elements [] = []
  mark_included v elements (none ∷ rest) = false ∷ mark_included v elements rest
  mark_included v elements (some vc ∷ rest) =
      let included =
        vc.message.new_view == v
        && includes_view_change elements vc.id_of_generated_replica (d.digest_of_view_change vc) in
      included ∷ mark_included v elements rest

  unfoldable pub move_to_view_of : NewViewMsg → ℕ → ViewsManager → Option (Bool × ViewsManager)
  move_to_view_of nv v k = do
    let marks = mark_included v nv.elements k.view_change_messages
    (if ltb (count_marks marks) (quorum k.replicas_info) then some (false, k) else (do
      assert (count_marks marks == quorum k.replicas_info)
      assert (not (is_some k.new_view_msg_of_pending_view))
      moved ← move_marked marks k.view_change_messages k.view_change_msgs_of_pending_view
      some (
        true,
        record k {
          view_change_messages = moved.0;
          view_change_msgs_of_pending_view = moved.1;
          new_view_msg_of_pending_view = some nv;
          new_view_messages = set k.new_view_messages (primary_of_view k.replicas_info v) none;
          my_latest_pending_view = v;
        },
      )))

  unfoldable pub try_move_to_pending_view_as_non_primary :
      ℕ → ViewsManager → Option (Bool × ViewsManager)
  try_move_to_pending_view_as_non_primary v k = do
    assert (ltb k.my_latest_pending_view v)
    assert (not (primary_of_view k.replicas_info v == k.replicas_info.my_id))
    k1 ← reset_data_of_latest_pending k
    found ← get_elem? k1.new_view_messages (primary_of_view k.replicas_info v)
    (elim found [
      | none ↦ some (false, k1)
      | some nv ↦ if not (nv.new_view == v) then some (false, k1) else move_to_view_of nv v k1
    ])

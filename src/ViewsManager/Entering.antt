-- ===== src/ViewsManager/Entering.antt =====
-- ViewsManager.cpp: entering a view, in steps of `tryToEnterView`.
use concord_rcanopus.Base.{
  ℕ, zero, suc, ◌+◌, ◌-◌, Bool, true, false, not, ◌&&◌, ◌||◌, Option, none, some, List, [], ◌∷◌,
  ◌++◌, map, ltb, leb, ◌==◌, if◌then◌else◌, take, drop, ◌>>=◌, ◌>>◌, assert,
}
use concord_rcanopus.Replicas.{primary_of_view}
use concord_rcanopus.ViewChange.{ViewChangeMsg, Params}
use concord_rcanopus.ViewChange.Restrictions.{
  Restriction, compute_restrictions, calc_lb_stable_for_view,
}
use concord_rcanopus.ViewsManager.{
  SignedViewChange, PrePrepareMsg, no_view, pending, pending_with_restrictions, in_view,
  ViewsManager, Digests, is_in_view, is_pending, is_with_restrictions,
}
use concord_rcanopus.ViewsManager.Pending.{
  max, min, try_move_to_pending_view_as_primary, try_move_to_pending_view_as_non_primary,
}
use concord_rcanopus.ViewsManager.Missing.{fill_range, has_missing_msgs}

-- `PrePrepareMsg::createNullPrePrepareMsg`.
abbrev pub create_null_pre_prepare : Digests → ℕ → ℕ → PrePrepareMsg
create_null_pre_prepare d view s = record {
  seq_number = s;
  view_number = view;
  digest_of_requests = d.null_digest;
  is_null = true;
}

abbrev pub update_view : ℕ → PrePrepareMsg → PrePrepareMsg
update_view v pp = record pp { view_number = v }

-- What the safety logic reads of the view change messages.
abbrev pub content : Option SignedViewChange → Option ViewChangeMsg
content none = none
content (some vc) = some vc.message

abbrev pub contents : List (Option SignedViewChange) → List (Option ViewChangeMsg)
contents msgs = map content msgs

-- The messages of the numbers that are stable already, from `i` on, are freed.
unfoldable pub release_range :
    ℕ → ℕ → List Restriction → List (Option PrePrepareMsg) → Option (List (Option PrePrepareMsg))
release_range i zero rs pps = some pps
release_range i (suc n) [] pps = none
release_range i (suc n) (r ∷ rs) [] = none
release_range i (suc n) (r ∷ rs) (none ∷ pps) = do
  later ← release_range (i + 1) n rs pps
  some (none ∷ later)
release_range i (suc n) (r ∷ rs) (some pp ∷ pps) = do
  later ← release_range (i + 1) n rs pps
  assert (r.is_null || pp.seq_number == i)
  some ((if r.is_null then some pp else none) ∷ later)

abbrev pub filled_restrictions :
    ViewsManager → ℕ → ℕ → List Restriction → Option (List (Option PrePrepareMsg))
filled_restrictions k lo hi rs =
    if not (lo == 0)
    then fill_range lo (hi + 1 - lo) rs k.pre_prepare_msgs_of_restrictions
        k.collection_of_pre_prepare_msgs
    else some k.pre_prepare_msgs_of_restrictions

abbrev pub is_waiting : ℕ → ViewsManager → Option Bool
is_waiting stable k =
    if not (is_with_restrictions k.stat) then some true else has_missing_msgs stable k

module _ (d : Digests) where
  -- The message of a restricted number that enters the view, and what is left of it.
  unfoldable pub entering_message :
      ℕ → ℕ → Restriction → Option PrePrepareMsg → Option PrePrepareMsg
  entering_message v i r none = if r.is_null then some (create_null_pre_prepare d v i) else none
  entering_message v i r (some pp) = do
    assert (not r.is_null)
    assert (pp.seq_number == i)
    some (update_view v pp)

  -- The messages that enter the view, from the number `i` on, and the entries left.
  unfoldable pub enter_range :
      ℕ
      → ℕ
      → ℕ
      → List Restriction
      → List (Option PrePrepareMsg)
      → Option (List PrePrepareMsg × List (Option PrePrepareMsg))
  enter_range v i zero rs pps = some ([], pps)
  enter_range v i (suc n) [] pps = none
  enter_range v i (suc n) (r ∷ rs) [] = none
  enter_range v i (suc n) (r ∷ rs) (pp ∷ pps) = do
    message ← entering_message v i r pp
    later ← enter_range v (i + 1) n rs pps
    some (message ∷ later.0, none ∷ later.1)

  abbrev pub params : ViewsManager → Params
  params k = record {
    n = k.replicas_info.number_of_replicas;
    f = k.replicas_info.f_val;
    c = k.replicas_info.c_val;
    null_digest = d.null_digest;
  }

  unfoldable pub compute_restrictions_of_new_view : ℕ → ViewsManager → Option ViewsManager
  compute_restrictions_of_new_view v k = do
    assert (is_pending k.stat)
    assert (k.my_latest_pending_view == v)
    nv ← k.new_view_msg_of_pending_view
    assert (nv.new_view == v)
    (lo, hi, rs) ←
        compute_restrictions d.combine d.verify (params k)
          (contents k.view_change_msgs_of_pending_view) k.lower_bound_stable k.restrictions
    pps ← filled_restrictions k lo hi rs
    some (record k {
      min_restriction = lo;
      max_restriction = hi;
      restrictions = rs;
      pre_prepare_msgs_of_restrictions = pps;
    })

  abbrev pub try_move_to_pending_view : ℕ → ViewsManager → Option (Bool × ViewsManager)
  try_move_to_pending_view v k =
      if primary_of_view k.replicas_info v == k.replicas_info.my_id
      then try_move_to_pending_view_as_primary d v k
      else try_move_to_pending_view_as_non_primary d v k

  -- "if we need a new pending view": whether the replica goes on, and its state.
  unfoldable pub try_new_pending_view : ℕ → ℕ → ViewsManager → Option (Bool × ViewsManager)
  try_new_pending_view v stable k = do
    moved ← try_move_to_pending_view v (record k { stat = no_view })
    (if not moved.0 then some moved else (do
      t1 ← calc_lb_stable_for_view (params k) (contents moved.1.view_change_msgs_of_pending_view)
      let lower = max t1 (max stable moved.1.lower_bound_stable)
      some (not (ltb stable lower), record moved.1 { lower_bound_stable = lower; stat = pending })))

  -- "enter to view v": the messages of the view, and the state in it.
  unfoldable pub enter_view : ℕ → ℕ → ViewsManager → Option (List PrePrepareMsg × ViewsManager)
  enter_view v stable k = do
    let lo = k.min_restriction
    let first = min (k.max_restriction + 1) (max lo (stable + 1))
    released ← release_range lo (first - lo) k.restrictions k.pre_prepare_msgs_of_restrictions
    entered ←
        enter_range v first (k.max_restriction + 1 - first) (drop (first - lo) k.restrictions)
          (drop (first - lo) released)
    some (
      entered.0,
      record k {
        my_latest_active_view = v;
        stat = in_view;
        pre_prepare_msgs_of_restrictions = take (first - lo) released ++ entered.1;
        collection_of_pre_prepare_msgs = [];
      },
    )

  unfoldable pub finish_entering :
      ℕ → ℕ → ViewsManager → Option (Bool × List PrePrepareMsg × ViewsManager)
  finish_entering v stable k = do
    missing ← is_waiting stable k
    (if missing
        then some (false, [], k)
        else (if k.min_restriction == 0
            then some (
              true,
              [],
              record k {
                my_latest_active_view = v;
                stat = in_view;
                collection_of_pre_prepare_msgs = [];
              },
            )
            else (do entered ← enter_view v stable k; some (true, entered.0, entered.1))))

  unfoldable pub restrict_and_enter :
      ℕ → ℕ → ViewsManager → Option (Bool × List PrePrepareMsg × ViewsManager)
  restrict_and_enter v stable k = do
    assert (v == k.my_latest_pending_view)
    (if is_pending k.stat
        then (do
          k' ← compute_restrictions_of_new_view v k
          finish_entering v stable (record k' { stat = pending_with_restrictions }))
        else finish_entering v stable k)

  unfoldable pub try_to_enter_view :
      ℕ → ℕ → ℕ → ViewsManager → Option (Bool × List PrePrepareMsg × ViewsManager)
  try_to_enter_view v stable executed k = do
    assert (not (is_in_view k.stat))
    assert (ltb k.my_latest_active_view v)
    assert (leb k.my_latest_pending_view v)
    assert (leb k.debug_highest_view v && leb k.debug_highest_known_stable stable)
    let k1 = record k { debug_highest_view = v; debug_highest_known_stable = stable }
    (if ltb executed stable || ltb stable k.lower_bound_stable
        then some (false, [], k1)
        else (if ltb k.my_latest_pending_view v
            then (do
              moved ← try_new_pending_view v stable k1
              (if not moved.0
                  then some (false, [], moved.1)
                  else restrict_and_enter v stable moved.1))
            else restrict_and_enter v stable k1))

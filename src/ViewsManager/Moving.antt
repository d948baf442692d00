-- ===== src/ViewsManager/Moving.antt =====
-- Moving to a pending view: what the replica keeps, and that it goes on only with a quorum.
use concord_rcanopus.Base.{
  ℕ, ◌+◌, ◌-◌, ◌≡◌, inl, inr, refl, sym, ap, ◌∙◌, Bool, true, false, not, ◌||◌, Option, none, some,
  List, arith, ltb, ◌==◌, ==→eq, eq→==, if◌then◌else◌, get_elem?, Bool-cases, if_true, if_false,
  unrefuted, bind_inv, assert_inv, some_inj, then_inv, else_inv,
}
use mathlib.Core.Path.{subst}
use concord_rcanopus.Replicas.{primary_of_view}
use concord_rcanopus.ViewsManager.{
  SignedViewChange, NewViewMsg, PrePrepareMsg, is_with_restrictions, ViewsManager, Digests, is_some,
  is_pending, is_for_view, quorum,
}
use concord_rcanopus.ViewsManager.Pending.{
  cleared_restrictions, is_older, reset_data_of_latest_pending, mark_as_primary, count_marks,
  move_marked, elements_of, try_move_to_pending_view_as_primary, mark_included, move_to_view_of,
  try_move_to_pending_view_as_non_primary,
}
use concord_rcanopus.ViewsManager.Quorum.{
  all_none, cleared_none, move_marked-quorum, mark_as_primary-selects, mark_included-selects,
  IsCleared, IsQuorum,
}
use concord_rcanopus.ViewsManager.Arrays.{Fits, IsKeyed, clear_range-none}

-- The number of restricted numbers.
abbrev pub span : ViewsManager → ℕ
span k = if k.min_restriction == 0 then 0 else k.max_restriction + 1 - k.min_restriction

-- What holds between operations: a pending view has a quorum, the messages of the restricted numbers
-- meet their restrictions, and without a new view message there are none.
pub record IsValid (k : ViewsManager) : Type 0 where
  pub cleared : IsCleared k
  pub held :
      is_pending k.stat || is_with_restrictions k.stat ≡ true → IsQuorum k.my_latest_pending_view k
  pub fits : Fits k.min_restriction (span k) k.restrictions k.pre_prepare_msgs_of_restrictions
  pub settled : is_some k.new_view_msg_of_pending_view ≡ false → k.min_restriction ≡ 0
  pub waiting : is_pending k.stat ≡ true → k.min_restriction ≡ 0
  pub keyed : IsKeyed k.collection_of_pre_prepare_msgs

-- No number is restricted, and the rest is as it was.
abbrev pub Rests : ViewsManager → ViewsManager → Type 0
Rests k k' =
    (k'.min_restriction ≡ 0)
    × (all_none k'.pre_prepare_msgs_of_restrictions ≡ true)
    × (k'.collection_of_pre_prepare_msgs ≡ k.collection_of_pre_prepare_msgs)
    × (k'.stat ≡ k.stat)

abbrev pub IsReset : ViewsManager → ViewsManager → Type 0
IsReset k k' =
    Rests k k'
    × (all_none k'.view_change_msgs_of_pending_view ≡ true)
    × (k'.replicas_info ≡ k.replicas_info)

pub unrestricted_none :
    (k : ViewsManager)
    → IsValid k
    → k.min_restriction ≡ 0
    → all_none k.pre_prepare_msgs_of_restrictions ≡ true
unrestricted_none k valid none_restricted =
    subst (λ n. Fits k.min_restriction n k.restrictions k.pre_prepare_msgs_of_restrictions)
      (if_true (k.min_restriction == 0) _ _ (eq→== k.min_restriction 0 none_restricted)) valid.fits

cleared_restrictions-none :
    (k : ViewsManager) (pps : List (Option PrePrepareMsg))
    → IsValid k
    → cleared_restrictions k ≡ some pps
    → all_none pps ≡ true
cleared_restrictions-none k pps valid e = elim (Bool-cases (k.min_restriction == 0)) [
  | inl unset ↦
      subst (λ x. all_none x ≡ true)
        (some_inj (else_inv (not (k.min_restriction == 0)) _ _ (ap not unset) e))
        (unrestricted_none k valid (==→eq k.min_restriction 0 unset))
  | inr restricted ↦
      clear_range-none k.min_restriction (k.max_restriction + 1 - k.min_restriction) k.restrictions
        k.pre_prepare_msgs_of_restrictions pps
        (subst (λ n. Fits k.min_restriction n k.restrictions k.pre_prepare_msgs_of_restrictions)
          (if_false (k.min_restriction == 0) _ _ restricted) valid.fits)
        (then_inv (not (k.min_restriction == 0)) _ _ (ap not restricted) e)
]

-- `resetDataOfLatestPendingAndKeepMyViewChange`.
pub reset_data_of_latest_pending-IsReset :
    (k k' : ViewsManager) → IsValid k → reset_data_of_latest_pending k ≡ some k' → IsReset k k'
unfolding reset_data_of_latest_pending
reset_data_of_latest_pending-IsReset k k' valid e =
    let held = is_some k.new_view_msg_of_pending_view in
    elim (Bool-cases held) [
      | inr absent ↦ subst (IsReset k) (some_inj (then_inv (not held) _ _ (ap not absent) e)) (
        (valid.settled absent, unrestricted_none k valid (valid.settled absent), refl, refl),
        valid.cleared absent,
        refl,
      )
      | inl there ↦
          let (mine, ran, e2) =
            bind_inv (get_elem? k.view_change_msgs_of_pending_view k.replicas_info.my_id) _ _
              (else_inv (not held) _ _ (ap not there) e) in
          let (pps, ran', e3) = bind_inv (cleared_restrictions k) _ _ e2 in
          subst (IsReset k) (some_inj e3) (
            (refl, cleared_restrictions-none k pps valid ran', refl, refl),
            cleared_none SignedViewChange k.view_change_msgs_of_pending_view,
            refl,
          )
    ]

-- The outcome of a move: refused, with nothing of a pending view, or with a quorum for the view.
abbrev pub Outcome : ℕ → ViewsManager → Bool × ViewsManager → Type 0
Outcome v k z =
    Rests k z.1
    × (z.0 ≡ false → all_none z.1.view_change_msgs_of_pending_view ≡ true)
    × (z.0 ≡ true → IsQuorum v z.1)

abbrev refused : ViewsManager → Bool × ViewsManager
refused k = (false, k)

-- Either the replica refuses, or it goes on.
module _ {P : Type 0} where
  going_on :
      (b : Bool) (k : ViewsManager) (z : Bool × ViewsManager) (o : Option (Bool × ViewsManager))
      → (if b then some (refused k) else o) ≡ some z
      → (refused k ≡ z → P)
      → (b ≡ false → o ≡ some z → P)
      → P
  going_on true k z o e g h = g (some_inj e)
  going_on false k z o e g h = h refl e

-- `tryMoveToPendingViewAsPrimary`, when it succeeds.
pub as_primary-Outcome :
    (d : Digests) (v : ℕ) (k : ViewsManager) (z : Bool × ViewsManager)
    → IsValid k
    → try_move_to_pending_view_as_primary d v k ≡ some z
    → Outcome v k z
unfolding try_move_to_pending_view_as_primary
as_primary-Outcome d v k z valid e =
    let my_id = k.replicas_info.my_id in
    let (later, e1) = assert_inv (ltb k.my_latest_pending_view v) _ _ e in
    let (primary, e2) = assert_inv (primary_of_view k.replicas_info v == my_id) _ _ e1 in
    let (k1, ran, e3) = bind_inv (reset_data_of_latest_pending k) _ _ e2 in
    let (mine, found, e4) = bind_inv (get_elem? k1.view_change_messages my_id) _ _ e3 in
    let (own, e5) = assert_inv (is_for_view v mine) _ _ e4 in
    let (prev, found', e6) = bind_inv (get_elem? k1.new_view_messages my_id) _ _ e5 in
    let (older, e7) = assert_inv (is_older v prev) _ _ e6 in
    let marks = mark_as_primary my_id v 0 (quorum k.replicas_info - 1) k1.view_change_messages in
    let (rests, clear1, info) = reset_data_of_latest_pending-IsReset k k1 valid ran in
    going_on (ltb (count_marks marks) (quorum k.replicas_info)) _ z _ e7
      (λ same. subst (Outcome v k) same (rests, (λ h. clear1), (λ h. absurd (cc h))))
      (λ enough e8.
        let (exact, e9) = assert_inv (count_marks marks == quorum k.replicas_info) _ _ e8 in
        let (elements, listed, e10) =
          bind_inv (elements_of d v 0 marks k1.view_change_messages) _ _ e9 in
        let (moved, ran', e11) =
          bind_inv (move_marked marks k1.view_change_messages k1.view_change_msgs_of_pending_view) _
            _ e10 in
        let (free, e12) = assert_inv (not (is_some k1.new_view_msg_of_pending_view)) _ _ e11 in
        let (counted, others) =
          move_marked-quorum v marks k1.view_change_messages k1.view_change_msgs_of_pending_view
            moved
            (mark_as_primary-selects my_id v 0 _ k1.view_change_messages (λ j m at place.
              subst (λ x. is_for_view v x ≡ true)
                (some_inj
                  (sym found ∙ ap (get_elem? k1.view_change_messages) (omega (arith, place)) ∙ at))
                own))
            clear1 ran' in
        subst (Outcome v k) (some_inj e12) (
          rests,
          (λ h. absurd (cc h)),
          (λ h. (
            refl,
            (
              counted
                  ∙ ==→eq (count_marks marks) (quorum k.replicas_info) exact
                  ∙ ap quorum (sym info),
              others,
              _,
              refl,
              refl,
            ),
          )),
        ))

-- `tryMoveToPendingViewAsNonPrimary`, when it succeeds.
move_to_view_of-Outcome :
    (d : Digests) (nv : NewViewMsg) (v : ℕ) (k0 k : ViewsManager) (z : Bool × ViewsManager)
    → Rests k0 k
    → all_none k.view_change_msgs_of_pending_view ≡ true
    → nv.new_view ≡ v
    → move_to_view_of d nv v k ≡ some z
    → Outcome v k0 z
unfolding move_to_view_of
move_to_view_of-Outcome d nv v k0 k z rests clear same e =
    let marks = mark_included d v nv.elements k.view_change_messages in
    going_on (ltb (count_marks marks) (quorum k.replicas_info)) _ z _ e
      (λ here. subst (Outcome v k0) here (rests, (λ h. clear), (λ h. absurd (cc h))))
      (λ enough e1.
        let (exact, e2) = assert_inv (count_marks marks == quorum k.replicas_info) _ _ e1 in
        let (free, e3) = assert_inv (not (is_some k.new_view_msg_of_pending_view)) _ _ e2 in
        let (moved, ran, e4) =
          bind_inv (move_marked marks k.view_change_messages k.view_change_msgs_of_pending_view) _ _
            e3 in
        let (counted, others) =
          move_marked-quorum v marks k.view_change_messages k.view_change_msgs_of_pending_view moved
            (mark_included-selects d v nv.elements k.view_change_messages) clear ran in
        subst (Outcome v k0) (some_inj e4) (
          rests,
          (λ h. absurd (cc h)),
          (λ h. (
            refl,
            (
              counted ∙ ==→eq (count_marks marks) (quorum k.replicas_info) exact,
              others,
              nv,
              refl,
              same,
            ),
          )),
        ))

pub as_non_primary-Outcome :
    (d : Digests) (v : ℕ) (k : ViewsManager) (z : Bool × ViewsManager)
    → IsValid k
    → try_move_to_pending_view_as_non_primary d v k ≡ some z
    → Outcome v k z
unfolding try_move_to_pending_view_as_non_primary
as_non_primary-Outcome d v k z valid e =
    let (later, e1) = assert_inv (ltb k.my_latest_pending_view v) _ _ e in
    let (other, e2) =
      assert_inv (not (primary_of_view k.replicas_info v == k.replicas_info.my_id)) _ _ e1 in
    let (k1, ran, e3) = bind_inv (reset_data_of_latest_pending k) _ _ e2 in
    let (found, at, e4) =
      bind_inv (get_elem? k1.new_view_messages (primary_of_view k.replicas_info v)) _ _ e3 in
    let (rests, clear1, info) = reset_data_of_latest_pending-IsReset k k1 valid ran in
    moves d v k k1 z rests clear1 found e4
  where
    moves :
        (d : Digests) (v : ℕ) (k k1 : ViewsManager) (z : Bool × ViewsManager)
        → Rests k k1
        → all_none k1.view_change_msgs_of_pending_view ≡ true
        → (found : Option NewViewMsg)
        → (elim found [
          | none ↦ some (refused k1)
          | some nv ↦
              if not (nv.new_view == v) then some (refused k1) else move_to_view_of d nv v k1
        ])
          ≡ some z
        → Outcome v k z
    moves d v k k1 z rests clear none e =
        subst (Outcome v k) (some_inj e) (rests, (λ h. clear), (λ h. absurd (cc h)))
    moves d v k k1 z rests clear (some nv) e =
        going_on (not (nv.new_view == v)) k1 z _ e
          (λ here. subst (Outcome v k) here (rests, (λ h. clear), (λ h. absurd (cc h))))
          (λ same e'.
            move_to_view_of-Outcome d nv v k k1 z rests clear
              (==→eq nv.new_view v (unrefuted _ same)) e')

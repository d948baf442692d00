-- ===== src/ViewsManager/Invariant.antt =====
-- Making a view pending, and computing its restrictions, keep the invariant.
use concord_rcanopus.Base.{
  ℕ, ◌+◌, ◌-◌, ◌≡◌, inl, inr, refl, sym, ap, Bool, true, false, not, ◌||◌, Option, some, List, ◌==◌,
  ==→eq, Bool-cases, if_false, bind_inv, assert_inv, some_inj, then_inv, else_inv,
}
use mathlib.Core.Path.{subst}
use concord_rcanopus.Replicas.{primary_of_view}
use concord_rcanopus.ViewChange.Restrictions.{compute_restrictions, calc_lb_stable_for_view}
use concord_rcanopus.ViewsManager.{
  SignedViewChange, NewViewMsg, no_view, pending_with_restrictions, ViewsManager, Digests, is_some,
  is_pending, is_with_restrictions,
}
use concord_rcanopus.ViewsManager.Entering.{
  contents, params, filled_restrictions, compute_restrictions_of_new_view, try_move_to_pending_view,
  try_new_pending_view,
}
use concord_rcanopus.ViewsManager.Quorum.{all_none, Counts}
use concord_rcanopus.ViewsManager.Arrays.{Fits, IsKeyed, none-Fits, fill_range-Fits}
use concord_rcanopus.ViewsManager.Moving.{
  span, IsValid, Outcome, unrestricted_none, as_primary-Outcome, as_non_primary-Outcome,
}

-- The messages and the debugging fields do not matter.
pub with_messages-IsValid :
    (k : ViewsManager) (vcs : List (Option SignedViewChange)) (nvs : List (Option NewViewMsg))
    (a b : ℕ)
    → IsValid k
    → IsValid (record k {
      view_change_messages = vcs;
      new_view_messages = nvs;
      debug_highest_known_stable = a;
      debug_highest_view = b;
    })
with_messages-IsValid k vcs nvs a b valid = record {
  cleared = valid.cleared;
  held = valid.held;
  fits = valid.fits;
  settled = valid.settled;
  waiting = valid.waiting;
  keyed = valid.keyed;
}

pub idle-IsValid :
    (k : ViewsManager)
    → is_pending k.stat || is_with_restrictions k.stat ≡ false
    → k.min_restriction ≡ 0
    → all_none k.pre_prepare_msgs_of_restrictions ≡ true
    → all_none k.view_change_msgs_of_pending_view ≡ true
    → IsKeyed k.collection_of_pre_prepare_msgs
    → IsValid k
idle-IsValid k idle unset empty clear keyed = record {
  cleared = λ h. clear;
  held = λ h. absurd (cc (h, idle));
  fits =
      none-Fits k.min_restriction (span k) k.restrictions k.pre_prepare_msgs_of_restrictions empty;
  settled = λ h. unset;
  waiting = λ h. unset;
  keyed = keyed;
}

module _ (d : Digests) where
  moves :
      (v : ℕ) (k : ViewsManager) (z : Bool × ViewsManager)
      → IsValid k
      → try_move_to_pending_view d v k ≡ some z
      → Outcome v k z
  moves v k z valid e =
      let own = primary_of_view k.replicas_info v == k.replicas_info.my_id in
      elim (Bool-cases own) [
        | inl primary ↦ as_primary-Outcome d v k z valid (then_inv own _ _ primary e)
        | inr backup ↦ as_non_primary-Outcome d v k z valid (else_inv own _ _ backup e)
      ]

  -- The view is pending with a quorum, or the replica does not go on.
  pub try_new_pending_view-IsValid :
      (v stable : ℕ) (k : ViewsManager) (z : Bool × ViewsManager)
      → IsValid k
      → try_new_pending_view d v stable k ≡ some z
      → IsValid z.1
  unfolding try_new_pending_view
  try_new_pending_view-IsValid v stable k z valid e =
      let k0 = record k { stat = no_view } in
      let (moved, ran, e1) = bind_inv (try_move_to_pending_view d v k0) _ _ e in
      let ((unset, empty, same, stat), refused, goes) =
        moves v k0 moved
          (record {
            cleared = valid.cleared;
            held = λ h. absurd (cc h);
            fits = valid.fits;
            settled = valid.settled;
            waiting = λ h. absurd (cc h);
            keyed = valid.keyed;
          })
          ran in
      let keyed : IsKeyed moved.1.collection_of_pre_prepare_msgs =
        subst IsKeyed (sym same) valid.keyed in
      elim (Bool-cases moved.0) [
        | inr stays ↦
            subst (λ (x : Bool × ViewsManager). IsValid x.1)
              (some_inj (then_inv (not moved.0) _ _ (ap not stays) e1))
              (idle-IsValid moved.1 (ap (λ s. is_pending s || is_with_restrictions s) stat) unset
                empty (refused stays) keyed)
        | inl goes_on ↦
            let (t1, found, e2) =
              bind_inv
                (calc_lb_stable_for_view (params d k)
                  (contents moved.1.view_change_msgs_of_pending_view))
                _ _ (else_inv (not moved.0) _ _ (ap not goes_on) e1) in
            let (here, (counted, others, nv, has_nv, nv_view)) = goes goes_on in
            subst (λ (x : Bool × ViewsManager). IsValid x.1) (some_inj e2)
              (record {
                cleared = λ h. absurd (cc (h, ap is_some has_nv));
                held = λ h. (
                  refl,
                  subst (λ w. Counts w moved.1) (sym here) (counted, others, nv, has_nv, nv_view),
                );
                fits =
                    none-Fits moved.1.min_restriction (span moved.1) moved.1.restrictions
                      moved.1.pre_prepare_msgs_of_restrictions empty;
                settled = λ h. unset;
                waiting = λ h. unset;
                keyed = keyed;
              })
      ]

  -- Computing the restrictions of the pending view.
  pub compute_restrictions_of_new_view-IsValid :
      (v : ℕ) (k k' : ViewsManager)
      → IsValid k
      → compute_restrictions_of_new_view d v k ≡ some k'
      → IsValid (record k' { stat = pending_with_restrictions }) × (k'.my_latest_pending_view ≡ v)
  unfolding compute_restrictions_of_new_view
  compute_restrictions_of_new_view-IsValid v k k' valid e =
      let (waits, e1) = assert_inv (is_pending k.stat) _ _ e in
      let (same, e2) = assert_inv (k.my_latest_pending_view == v) _ _ e1 in
      let (nv, has_nv, e3) = bind_inv k.new_view_msg_of_pending_view _ _ e2 in
      let (its_view, e4) = assert_inv (nv.new_view == v) _ _ e3 in
      let (result, ran, e5) =
        bind_inv
          (compute_restrictions d.combine d.verify (params d k)
            (contents k.view_change_msgs_of_pending_view) k.lower_bound_stable k.restrictions)
          _ _ e4 in
      let (lo, hi, rs) = result in
      let (pps, filled, e6) = bind_inv (filled_restrictions k lo hi rs) _ _ e5 in
      let k1 = record k {
        min_restriction = lo;
        max_restriction = hi;
        restrictions = rs;
        pre_prepare_msgs_of_restrictions = pps;
      } in
      let empty = unrestricted_none k valid (valid.waiting waits) in
      subst
        (λ (x : ViewsManager).
          IsValid (record x { stat = pending_with_restrictions }) × (x.my_latest_pending_view ≡ v))
        {x = k1} (some_inj e6)
        (
          record {
            cleared = λ h. absurd (cc (h, ap is_some has_nv));
            held = λ h. valid.held (ap (λ b. b || is_with_restrictions k.stat) waits);
            fits = elim (Bool-cases (lo == 0)) [
              | inl unset ↦ none-Fits lo (span k1) rs pps (
                  subst (λ x. all_none x ≡ true)
                    (some_inj (else_inv (not (lo == 0)) _ _ (ap not unset) filled)) empty)
              | inr restricted ↦
                  subst (λ n. Fits lo n rs pps) (sym (if_false (lo == 0) _ _ restricted))
                    (fill_range-Fits lo (hi + 1 - lo) rs k.pre_prepare_msgs_of_restrictions pps
                      k.collection_of_pre_prepare_msgs valid.keyed empty
                      (then_inv (not (lo == 0)) _ _ (ap not restricted) filled))
            ];
            settled = λ h. absurd (cc (h, ap is_some has_nv));
            waiting = λ h. absurd (cc h);
            keyed = valid.keyed;
          },
          ==→eq k.my_latest_pending_view v same,
        )

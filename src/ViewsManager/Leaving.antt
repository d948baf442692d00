-- ===== src/ViewsManager/Leaving.antt =====
-- Leaving a view keeps the invariant.
use concord_rcanopus.Base.{
  ℕ, ◌+◌, ◌-◌, ◌≡◌, inl, inr, refl, sym, ap, ◌∙◌, Bool, true, false, not, ◌&&◌, ◌||◌, some, List,
  [], ◌∷◌, ltb, leb, ◌==◌, ==→eq, if◌then◌else◌, length, get_elem?, set, Bool-cases, if_true,
  if_false, bind_inv, assert_inv, some_inj,
}
use mathlib.Core.Path.{subst}
use concord_rcanopus.ViewChange.Restrictions.{work_window_size}
use concord_rcanopus.ViewsManager.{
  SignedViewChange, PrePrepareMsg, PrevViewInfo, no_view, ViewsManager, is_some, is_in_view,
  is_pending, is_with_restrictions, put_pre_prepare,
}
use concord_rcanopus.ViewsManager.Pending.{reset_data_of_latest_pending}
use concord_rcanopus.ViewsManager.Exit.{
  Leaving, previous_certificate, new_element, add_optional, leave_one, leave_all,
  elements_of_message, is_of_view, exit_from_current_view,
}
use concord_rcanopus.ViewsManager.Arrays.{IsKeyed}
use concord_rcanopus.ViewsManager.Moving.{IsValid, reset_data_of_latest_pending-IsReset}
use concord_rcanopus.ViewsManager.Invariant.{with_messages-IsValid, idle-IsValid}

put_pre_prepare-IsKeyed :
    (t : ℕ) (pp : PrePrepareMsg) (coll : List (ℕ × PrePrepareMsg))
    → pp.seq_number ≡ t
    → IsKeyed coll
    → IsKeyed (put_pre_prepare t pp coll)
unfolding put_pre_prepare
put_pre_prepare-IsKeyed t pp [] same keyed = (same, tt)
put_pre_prepare-IsKeyed t pp ((u, old) ∷ coll) same (here, keyed) = elim (Bool-cases (t == u)) [
  | inl replaced ↦
      subst IsKeyed (sym (if_true (t == u) _ _ replaced)) (same ∙ ==→eq t u replaced, keyed)
  | inr kept ↦
      subst IsKeyed (sym (if_false (t == u) _ _ kept))
        (here, put_pre_prepare-IsKeyed t pp coll same keyed)
]

kept_IsKeyed :
    (b : Bool) (pp : PrePrepareMsg) (coll : List (ℕ × PrePrepareMsg))
    → IsKeyed coll
    → IsKeyed (if b then put_pre_prepare pp.seq_number pp coll else coll)
kept_IsKeyed true pp coll keyed = put_pre_prepare-IsKeyed pp.seq_number pp coll refl keyed
kept_IsKeyed false pp coll keyed = keyed

leave_one-IsKeyed :
    (k : ViewsManager) (executed : ℕ) (info : PrevViewInfo) (l l' : Leaving)
    → IsKeyed l.kept
    → leave_one k executed info l ≡ some l'
    → IsKeyed l'.kept
unfolding leave_one
leave_one-IsKeyed k executed info l l' keyed e =
    let view = k.my_latest_active_view in
    let (pp, given, e1) = bind_inv info.pre_prepare _ _ e in
    let (h1, e2) = assert_inv (pp.view_number == view) _ _ e1 in
    let (h2, e3) = assert_inv (ltb k.lower_bound_stable pp.seq_number) _ _ e2 in
    let (h3, e4) = assert_inv (ltb l.expected pp.seq_number) _ _ e3 in
    let (h4, e5) = assert_inv (not (is_some info.prepare_full) || info.has_all_requests) _ _ e4 in
    let (found, h5, e6) = bind_inv (previous_certificate view pp info l.iterator) _ _ e5 in
    let (el, h6, e7) = bind_inv (new_element view executed pp info found.0) _ _ e6 in
    let (m, h7, e8) = bind_inv (add_optional el l.message) _ _ e7 in
    subst (λ (x : Leaving). IsKeyed x.kept) (some_inj e8)
      (kept_IsKeyed (info.has_all_requests && not pp.is_null) pp l.kept keyed)

leave_all-IsKeyed :
    (k : ViewsManager) (executed : ℕ) (infos : List PrevViewInfo) (l l' : Leaving)
    → IsKeyed l.kept
    → leave_all k executed infos l ≡ some l'
    → IsKeyed l'.kept
unfolding leave_all
leave_all-IsKeyed k executed [] l l' keyed e =
    subst (λ (x : Leaving). IsKeyed x.kept) (some_inj e) keyed
leave_all-IsKeyed k executed (info ∷ infos) l l' keyed e =
    let (l1, ran, e1) = bind_inv (leave_one k executed info l) _ _ e in
    leave_all-IsKeyed k executed infos l1 l' (leave_one-IsKeyed k executed info l l1 keyed ran) e1

pub exit_from_current_view-IsValid :
    (stable executed : ℕ) (infos : List PrevViewInfo) (k : ViewsManager)
    (z : SignedViewChange × ViewsManager)
    → IsValid k
    → exit_from_current_view stable executed infos k ≡ some z
    → IsValid z.1
unfolding exit_from_current_view
exit_from_current_view-IsValid stable executed infos k z valid e =
    let view = k.my_latest_active_view in
    let (h1, e1) = assert_inv (is_in_view k.stat) _ _ e in
    let (h2, e2) = assert_inv (view == k.my_latest_pending_view) _ _ e1 in
    let (h3, e3) = assert_inv (leb (length infos) work_window_size) _ _ e2 in
    let (h4, e4) = assert_inv (length k.collection_of_pre_prepare_msgs == 0) _ _ e3 in
    let (h5, e5) = assert_inv (leb k.debug_highest_known_stable stable) _ _ e4 in
    let (used, h6, e6) =
      bind_inv (get_elem? k.view_change_msgs_of_pending_view k.replicas_info.my_id) _ _ e5 in
    let (own, h7, e7) = bind_inv (get_elem? k.view_change_messages k.replicas_info.my_id) _ _ e6 in
    let previous = if is_some used then used else own in
    let (h8, e8) = assert_inv (view == 0 || is_of_view view previous) _ _ e7 in
    let l : Leaving = record {
      expected = stable;
      iterator = elements_of_message previous;
      message = record { new_view = view + 1; last_stable = stable; elements = [] };
      kept = [];
    } in
    let (left, ran, e9) = bind_inv (leave_all k executed infos l) _ _ e8 in
    let (h9, e10) = assert_inv (leb (left.expected - stable) work_window_size) _ _ e9 in
    let k0 = record k {
      stat = no_view;
      debug_highest_known_stable = stable;
      collection_of_pre_prepare_msgs = left.kept;
    } in
    let (k1, reset, e11) = bind_inv (reset_data_of_latest_pending k0) _ _ e10 in
    let keyed = leave_all-IsKeyed k executed infos l left tt ran in
    let ((unset, empty, same, stat), clear, info) =
      reset_data_of_latest_pending-IsReset k0 k1
        (record {
          cleared = valid.cleared;
          held = λ h. absurd (cc h);
          fits = valid.fits;
          settled = valid.settled;
          waiting = λ h. absurd (cc h);
          keyed = keyed;
        })
        reset in
    let mine : SignedViewChange = record {
      id_of_generated_replica = k.replicas_info.my_id;
      message = left.message;
    } in
    let vcs = set k1.view_change_messages k.replicas_info.my_id (some mine) in
    subst (λ (x : SignedViewChange × ViewsManager). IsValid x.1)
      {x = (mine, record k1 { view_change_messages = vcs })} (some_inj e11)
      (with_messages-IsValid k1 vcs k1.new_view_messages k1.debug_highest_known_stable
        k1.debug_highest_view
        (idle-IsValid k1 (ap (λ s. is_pending s || is_with_restrictions s) stat) unset empty clear
          (subst IsKeyed (sym same) keyed)))

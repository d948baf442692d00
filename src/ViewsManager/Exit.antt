-- ===== src/ViewsManager/Exit.antt =====
-- ViewsManager.cpp: leaving a view, with the replica's new view change message, to which
-- ViewChangeMsg.cpp adds elements. The space of a message's buffer is not modelled.
use concord_rcanopus.Base.{
  ℕ, ◌+◌, ◌-◌, Bool, false, not, ◌&&◌, ◌||◌, Option, none, some, List, [], ◌∷◌, ◌++◌, ltb, leb,
  ◌==◌, if◌then◌else◌, length, get_elem?, set, ◌>>=◌, ◌>>◌, assert,
}
use concord_rcanopus.ViewChange.{
  PreparedCertificate, Element, ViewChangeMsg, Iterator, go_to_at_least, get_current,
}
use concord_rcanopus.ViewChange.Restrictions.{work_window_size}
use concord_rcanopus.ViewsManager.{
  SignedViewChange, PrePrepareMsg, PrevViewInfo, no_view, ViewsManager, is_some, is_in_view,
  put_pre_prepare,
}
use concord_rcanopus.ViewsManager.Pending.{reset_data_of_latest_pending}

-- `ViewChangeMsg::addElement`.
unfoldable pub add_element : Element → ViewChangeMsg → Option ViewChangeMsg
add_element e m = do
  assert (ltb (length m.elements) work_window_size)
  assert (ltb m.last_stable e.seq_num)
  assert (leb e.seq_num (m.last_stable + work_window_size))
  some (record m { elements = m.elements ++ e ∷ [] })

-- The loop's variables: the last number, the iterator over the previous message, the new message, and
-- the pre-prepare messages that are kept.
pub record Leaving : Type 0 where
  pub expected : ℕ
  pub iterator : Iterator
  pub message : ViewChangeMsg
  pub kept : List (ℕ × PrePrepareMsg)

-- The certificate of the element for the number and the digest.
unfoldable pub certificate_of : ℕ → ℕ → ℕ → Option Element → Option (Option PreparedCertificate)
certificate_of view s digest none = some none
certificate_of view s digest (some e) = elim e.certificate [
  | none ↦ some none
  | some cert ↦
      if e.seq_num == s && e.pre_prepare_digest == digest
      then (do
        assert (leb e.origin_view view)
        assert (leb cert.certificate_view e.origin_view)
        some (some cert))
      else some none
]

-- `preparedCertInPrev`, and the iterator.
unfoldable pub previous_certificate :
    ℕ → PrePrepareMsg → PrevViewInfo → Iterator → Option (Option PreparedCertificate × Iterator)
previous_certificate view pp info iter =
    if info.has_all_requests && not (is_some info.prepare_full) && not (length iter == 0)
    then (do
      let iter' = go_to_at_least pp.seq_number iter
      cert ← certificate_of view pp.seq_number pp.digest_of_requests (get_current iter')
      some (cert, iter'))
    else some (none, iter)

abbrev pub element : ℕ → PrePrepareMsg → Option PreparedCertificate → Element
element view pp cert = record {
  seq_num = pp.seq_number;
  pre_prepare_digest = pp.digest_of_requests;
  origin_view = view;
  certificate = cert;
}

-- The element that is added for a number, if any.
unfoldable pub new_element :
    ℕ → ℕ → PrePrepareMsg → PrevViewInfo → Option PreparedCertificate → Option (Option Element)
new_element view executed pp info previous = elim info.prepare_full [
  | some pf ↦ (do
    assert info.has_all_requests
    assert (pp.seq_number == pf.seq_number)
    assert (pf.view_number == view)
    some (
        some (
          element view pp
            (some (record { certificate_view = view; certificate_sig = pf.signature })))))
  | none ↦
      if is_some previous && info.has_all_requests
      then some (some (element view pp previous))
      else if info.has_all_requests && not pp.is_null
      then some (some (element view pp none))
      else (do assert (ltb executed pp.seq_number || pp.is_null); some none)
]

abbrev pub add_optional : Option Element → ViewChangeMsg → Option ViewChangeMsg
add_optional none m = some m
add_optional (some e) m = add_element e m

-- One pass of the loop over the numbers of the previous view.
unfoldable pub leave_one : ViewsManager → ℕ → PrevViewInfo → Leaving → Option Leaving
leave_one k executed info l = do
  pp ← info.pre_prepare
  let view = k.my_latest_active_view
  assert (pp.view_number == view)
  assert (ltb k.lower_bound_stable pp.seq_number)
  assert (ltb l.expected pp.seq_number)
  assert (not (is_some info.prepare_full) || info.has_all_requests)
  found ← previous_certificate view pp info l.iterator
  e ← new_element view executed pp info found.0
  m ← add_optional e l.message
  some (record {
    expected = pp.seq_number;
    iterator = found.1;
    message = m;
    kept =
        if info.has_all_requests && not pp.is_null
        then put_pre_prepare pp.seq_number pp l.kept
        else l.kept;
  })

unfoldable pub leave_all : ViewsManager → ℕ → List PrevViewInfo → Leaving → Option Leaving
leave_all k executed [] l = some l
leave_all k executed (info ∷ infos) l = do
  l' ← leave_one k executed info l
  leave_all k executed infos l'

abbrev pub elements_of_message : Option SignedViewChange → Iterator
elements_of_message none = []
elements_of_message (some vc) = vc.message.elements

abbrev pub is_of_view : ℕ → Option SignedViewChange → Bool
is_of_view v none = false
is_of_view v (some vc) = vc.message.new_view == v

unfoldable pub exit_from_current_view :
    ℕ → ℕ → List PrevViewInfo → ViewsManager → Option (SignedViewChange × ViewsManager)
exit_from_current_view stable executed infos k = do
  assert (is_in_view k.stat)
  assert (k.my_latest_active_view == k.my_latest_pending_view)
  assert (leb (length infos) work_window_size)
  assert (length k.collection_of_pre_prepare_msgs == 0)
  assert (leb k.debug_highest_known_stable stable)
  used ← get_elem? k.view_change_msgs_of_pending_view k.replicas_info.my_id
  own ← get_elem? k.view_change_messages k.replicas_info.my_id
  let previous = if is_some used then used else own
  assert (k.my_latest_active_view == 0 || is_of_view k.my_latest_active_view previous)
  left ← leave_all k executed infos (record {
    expected = stable;
    iterator = elements_of_message previous;
    message = record {
      new_view = k.my_latest_active_view + 1;
      last_stable = stable;
      elements = [];
    };
    kept = [];
  })
  assert (leb (left.expected - stable) work_window_size)
  k' ← reset_data_of_latest_pending (record k {
    stat = no_view;
    debug_highest_known_stable = stable;
    collection_of_pre_prepare_msgs = left.kept;
  })
  let mine : SignedViewChange = record {
    id_of_generated_replica = k.replicas_info.my_id;
    message = left.message;
  }
  some (
    mine,
    record k' {
      view_change_messages = set k'.view_change_messages k.replicas_info.my_id (some mine);
    },
  )
